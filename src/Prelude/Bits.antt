-- ===== src/Prelude/Bits.antt =====
-- Laws of `&` and `|` on numbers of any width.
use Prim.Native.Nat.{
  ℕ, zero, suc, ◌+◌, ◌-◌, ◌*◌, ◌/◌, ◌%◌, ◌^◌, ◌≤◌, ◌<◌, min, max, bit_and, bit_or, digits,
  bit_and-bitwise, bit_or-bitwise,
}
use mathlib.Core.Path.{◌≡◌, refl, sym, ap, ◌∙◌}
use native.Mathlib.Omega.{arith}
use native.Mathlib.Nat.{
  two-pow-succ, one-le-pow, mod-lt, mod-eq_of_lt, mod-add-div, add-mul-mod_self_left,
}

-- Any count of digits that is large enough gives the same number.
and_enough :
    (n m a b : ℕ) → a ≤ n → a ≤ m → digits (λ _. zero) min n a b ≡ digits (λ _. zero) min m a b
and_enough zero zero a b p q = refl
and_enough zero (suc m) zero b p q = refl
and_enough zero (suc m) (suc a) b p q = absurd (omega arith)
and_enough (suc n) zero zero b p q = refl
and_enough (suc n) zero (suc a) b p q = absurd (omega arith)
and_enough (suc n) (suc m) zero b p q = refl
and_enough (suc n) (suc m) (suc a) b p q =
    omega (arith, and_enough n m (suc a / 2) (b / 2) (omega arith) (omega arith))

or_enough : (n m a b : ℕ) → a ≤ n → a ≤ m → digits (λ r. r) max n a b ≡ digits (λ r. r) max m a b
or_enough zero zero a b p q = refl
or_enough zero (suc m) zero b p q = refl
or_enough zero (suc m) (suc a) b p q = absurd (omega arith)
or_enough (suc n) zero zero b p q = refl
or_enough (suc n) zero (suc a) b p q = absurd (omega arith)
or_enough (suc n) (suc m) zero b p q = refl
or_enough (suc n) (suc m) (suc a) b p q =
    omega (arith, or_enough n m (suc a / 2) (b / 2) (omega arith) (omega arith))

pub zero-and : (b : ℕ) → bit_and 0 b ≡ 0
zero-and b = bit_and-bitwise 0 b

pub zero-or : (b : ℕ) → bit_or 0 b ≡ b
zero-or b = bit_or-bitwise 0 b

-- Both operations go by the lowest digit and the rest.
pub and_digit : (a b : ℕ) → bit_and a b ≡ bit_and (a / 2) (b / 2) * 2 + min (a % 2) (b % 2)
and_digit zero b = omega (arith, zero-and b, zero-and (b / 2))
and_digit (suc a) b = omega (
  arith,
  bit_and-bitwise (suc a) b,
  bit_and-bitwise (suc a / 2) (b / 2),
  and_enough a (suc a / 2) (suc a / 2) (b / 2) (omega arith) (omega arith),
)

pub or_digit : (a b : ℕ) → bit_or a b ≡ bit_or (a / 2) (b / 2) * 2 + max (a % 2) (b % 2)
or_digit zero b = omega (arith, zero-or b, zero-or (b / 2))
or_digit (suc a) b = omega (
  arith,
  bit_or-bitwise (suc a) b,
  bit_or-bitwise (suc a / 2) (b / 2),
  or_enough a (suc a / 2) (suc a / 2) (b / 2) (omega arith) (omega arith),
)

and-zero_below : (n a : ℕ) → a ≤ n → bit_and a 0 ≡ 0
and-zero_below n zero h = refl
and-zero_below zero (suc a) h = absurd (omega arith)
and-zero_below (suc n) (suc a) h =
    omega (arith, and_digit (suc a) 0, and-zero_below n (suc a / 2) (omega arith))

pub and-zero : (a : ℕ) → bit_and a 0 ≡ 0
and-zero a = and-zero_below a a (omega arith)

mod_double : (p a : ℕ) → 0 < p → (a / 2 % p) * 2 + a % 2 ≡ a % (p + p)
mod_double p a pos =
    let q = a / 2 / p in
    let r = a / 2 % p in
    let small : r * 2 + a % 2 < p + p = omega (arith, mod-lt (a / 2) pos) in
    let whole : a ≡ r * 2 + a % 2 + (p + p) * q = omega (arith, mod-add-div (a / 2) p) in
    sym (mod-eq_of_lt small)
    ∙ sym (add-mul-mod_self_left (r * 2 + a % 2) (p + p) q)
    ∙ ap (λ t. t % (p + p)) (sym whole)

-- A mask of k ones keeps the remainder by 2 ^ k.
pub and_mask : (k a : ℕ) → bit_and a (2 ^ k - 1) ≡ a % 2 ^ k
and_mask zero a = omega (arith, and-zero a)
and_mask (suc k) a =
    let half : (2 ^ suc k - 1) / 2 ≡ 2 ^ k - 1 = omega (arith, two-pow-succ k, one-le-pow k 2) in
    let odd : (2 ^ suc k - 1) % 2 ≡ 1 = omega (arith, two-pow-succ k, one-le-pow k 2) in
    let step : bit_and a (2 ^ suc k - 1) ≡ (a / 2 % 2 ^ k) * 2 + a % 2 =
      and_digit a (2 ^ suc k - 1) ∙ rw (half, odd, and_mask k (a / 2)) (omega arith) in
    step ∙ mod_double (2 ^ k) a (one-le-pow k 2 (omega arith)) ∙ rw (two-pow-succ k)

and-le_below : (n a b : ℕ) → a ≤ n → bit_and a b ≤ b
and-le_below n zero b h = omega (arith, zero-and b)
and-le_below zero (suc a) b h = absurd (omega arith)
and-le_below (suc n) (suc a) b h =
    omega (arith, and_digit (suc a) b, and-le_below n (suc a / 2) (b / 2) (omega arith))

-- A mask bounds what it lets through.
pub and-le_mask : (a b : ℕ) → bit_and a b ≤ b
and-le_mask a b = and-le_below a a b (omega arith)

-- Setting more digits leaves those set that were: `t & b == b` survives `t |= c`.
or_keeps_below : (n t b c : ℕ) → b ≤ n → bit_and t b ≡ b → bit_and (bit_or t c) b ≡ b
or_keeps_below n t zero c h e = and-zero (bit_or t c)
or_keeps_below zero t (suc b) c h e = absurd (omega arith)
or_keeps_below (suc n) t (suc b) c h e = ground (
  arith,
  and_digit (bit_or t c) (suc b),
  or_digit t c,
  and_digit t (suc b),
  or_keeps_below n (t / 2) (suc b / 2) (c / 2),
)

or_sets_below : (n t b : ℕ) → b ≤ n → bit_and (bit_or t b) b ≡ b
or_sets_below n t zero h = and-zero (bit_or t 0)
or_sets_below zero t (suc b) h = absurd (omega arith)
or_sets_below (suc n) t (suc b) h = ground (
  arith,
  and_digit (bit_or t (suc b)) (suc b),
  or_digit t (suc b),
  or_sets_below n (t / 2) (suc b / 2),
)

pub or_keeps : (t b c : ℕ) → bit_and t b ≡ b → bit_and (bit_or t c) b ≡ b
or_keeps t b c = or_keeps_below b t b c (omega arith)

pub or_sets : (t b : ℕ) → bit_and (bit_or t b) b ≡ b
or_sets t b = or_sets_below b t b (omega arith)

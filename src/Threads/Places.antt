-- ===== src/Threads/Places.antt =====
-- include/type.hpp: the places of the threads, when the sockets divide them evenly; and
-- include/util.hpp: value2bit after bit2value.
use flashmob.Prelude.{
  ℕ, zero, suc, ◌+◌, ◌*◌, ◌-◌, ◌/◌, ◌%◌, ◌^◌, ◌≤◌, ◌<◌, ◌≡◌, refl, subst, ap, ◌∙◌, arith, some,
  true, ltb, ◌==◌, ◌&&◌, not,
}
use native.Mathlib.Nat.{
  div-add-mod', two-pow-succ, pow-zero, one-le-pow, mod-lt, mod_self, div-mul-le_self,
  lt-div-mul-add,
}
use Prim.Native.Nat.{bit_and}
use flashmob.Threads.{
  MultiThreadConfig, socket_thread_num, socket_id, socket_offset, halve, value2bit, bit2value,
}
use flashmob.Prelude.Bits.{and_mask}
use flashmob.Prelude.Words.{sub32, sub32_small}

evenly : (sockets each : ℕ) → 0 < sockets → sockets * each / sockets ≡ each
evenly sockets each pos = grind (
  arith,
  div-mul-le_self (sockets * each) sockets,
  lt-div-mul-add {a = sockets * each} {b = sockets} pos,
)

pub div-lt : (a b c : ℕ) → 0 < b → a < c * b → a / b < c
div-lt a b c pos h = grind (arith, div-mul-le_self a b)

-- For one or more sockets with `each` threads, at least one, and as many threads as that in all: a
-- socket has `each` threads, and a thread's socket and place are a socket and a place in it, from
-- which the thread's number is had back.
pub socket_id-socket_offset :
    (c : MultiThreadConfig) (each thread : ℕ)
    → 0 < c.socket_num
    → 0 < each
    → c.thread_num ≡ c.socket_num * each
    → thread < c.thread_num
    → (socket_thread_num c ≡ each)
      × (socket_id c thread < c.socket_num)
      × (socket_offset c thread < each)
      × (socket_id c thread * each + socket_offset c thread ≡ thread)
unfolding socket_thread_num socket_id socket_offset
socket_id-socket_offset c each thread pos each_pos e lt =
    let same : c.thread_num / c.socket_num ≡ each =
      ap (λ x. x / c.socket_num) e ∙ evenly c.socket_num each pos in
    rw same (
      refl,
      div-lt thread each c.socket_num each_pos (omega (arith, e, lt)),
      mod-lt _ each_pos,
      div-add-mod' thread each,
    )

halve-pow :
    (fuel bit counted : ℕ) → bit < fuel → halve fuel (2 ^ bit) counted ≡ some (counted + bit)
unfolding halve
halve-pow zero bit counted lt = absurd (omega arith)
halve-pow (suc fuel) zero counted lt = ground (arith, pow-zero 2)
halve-pow (suc fuel) (suc bit) counted lt =
    let half : 2 ^ suc bit / 2 ≡ 2 ^ bit = omega (arith, two-pow-succ bit) in
    let more : ltb 1 (2 ^ suc bit) ≡ true =
      ground (arith, two-pow-succ bit, one-le-pow bit 2 (omega arith)) in
    let sum : counted + 1 + bit ≡ counted + suc bit = omega arith in
    rw (more, half, halve-pow fuel bit (counted + 1) (omega arith), sum)

pub two-pow-le : (d a : ℕ) → 2 ^ a ≤ 2 ^ (a + d)
two-pow-le zero a = let e : a + 0 ≡ a = omega arith in rw e (omega arith)
two-pow-le (suc d) a =
    let e : a + suc d ≡ suc (a + d) = omega arith in
    rw e (omega (arith, two-pow-le d a, two-pow-succ (a + d)))

pub two-pow-add : (a b : ℕ) → 2 ^ (a + b) ≡ 2 ^ a * 2 ^ b
two-pow-add zero b = let e : 0 + b ≡ b = omega arith in rw (e, pow-zero 2) (omega arith)
two-pow-add (suc a) b =
    let e : suc a + b ≡ suc (a + b) = omega arith in
    rw e (grind (arith, two-pow-add a b, two-pow-succ (a + b), two-pow-succ a))

pub two-pow-lt : (bit : ℕ) → bit < 32 → 2 ^ bit < 2 ^ 32
two-pow-lt bit lt =
    let e : suc bit + (31 - bit) ≡ 32 = omega arith in
    omega (
      arith,
      subst (λ x. 2 ^ suc bit ≤ 2 ^ x) e (two-pow-le (31 - bit) (suc bit)),
      two-pow-succ bit,
      one-le-pow bit 2 (omega arith),
    )

-- The test of value2bit holds at a power of two.
is_power :
    (val : ℕ) (bit : ℕ)
    → val ≡ 2 ^ bit
    → bit < 32
    → (bit_and val (sub32 val 1) == 0) && not (val == 0) ≡ true
is_power val bit e lt = ground (
  arith,
  e,
  one-le-pow bit 2 (omega arith),
  sub32_small val 1 (omega (arith, e, one-le-pow bit 2 (omega arith)))
      (omega (arith, e, two-pow-lt bit lt)),
  masked,
)
  where
    less : sub32 val 1 ≡ 2 ^ bit - 1
    less = omega (
      arith,
      e,
      sub32_small val 1 (omega (arith, e, one-le-pow bit 2 (omega arith)))
          (omega (arith, e, two-pow-lt bit lt)),
    )

    masked : bit_and val (sub32 val 1) ≡ 0
    masked = rw (less, and_mask bit val, e) (mod_self (2 ^ bit))

-- For an exponent below 32: value2bit of the power of two that bit2value makes is the exponent;
-- its CHECKs hold and its loop ends.
pub value2bit-bit2value : (bit : ℕ) → bit < 32 → value2bit (bit2value bit) ≡ some bit
unfolding value2bit bit2value
value2bit-bit2value bit lt =
    let whole : 2 ^ bit % 2 ^ 32 ≡ 2 ^ bit = omega (arith, two-pow-lt bit lt) in
    rw (whole, is_power (2 ^ bit) bit refl lt, halve-pow 32 bit 0 lt) (ap some (omega arith))

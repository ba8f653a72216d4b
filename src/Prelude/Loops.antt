-- ===== src/Prelude/Loops.antt =====
-- Counted loops. `for_range lo n body s` runs `body i` for i = lo, …, lo + n - 1 in this order:
-- what `for (i = lo; i < lo + n; i++)` does. The recursion takes the last round off.
use Prim.Native.Nat.{ℕ, zero, suc, ◌+◌, ◌≤◌, ◌<◌}
use mathlib.Core.Path.{subst}
use native.Mathlib.Decide.{ℕ_discrete}
use native.Mathlib.Omega.{arith}

unfoldable pub for_range {ℓ} : {S : Type ℓ} → ℕ → ℕ → (ℕ → S → S) → S → S
for_range lo zero body s = s
for_range lo (suc n) body s = body (lo + n) (for_range lo n body s)

-- What holds before the first round and is kept by each round holds at the end.
pub for_range_inv {ℓ κ} :
    {S : Type ℓ} (P : ℕ → S → Type κ) (lo n : ℕ) (body : ℕ → S → S) (s : S)
    → ((k : ℕ) (t : S) → k < n → P k t → P (suc k) (body (lo + k) t))
    → P zero s
    → P n (for_range lo n body s)
unfolding for_range
for_range_inv P lo zero body s keep h = h
for_range_inv P lo (suc n) body s keep h =
    keep n _ (omega arith) (for_range_inv P lo n body s (λ k t lt. keep k t (omega arith)) h)

-- The sum of `f` over 0, …, n - 1.
unfoldable pub sum_below : (ℕ → ℕ) → ℕ → ℕ
sum_below f zero = 0
sum_below f (suc n) = sum_below f n + f n

-- What every round keeps and one round sets holds at the end.
pub for_range_set {ℓ κ} :
    {S : Type ℓ} (P : S → Type κ) (lo n : ℕ) (body : ℕ → S → S) (s : S)
    → ((i : ℕ) (t : S) → P t → P (body i t))
    → (i : ℕ) → lo ≤ i
    → i < lo + n
    → ((t : S) → P (body i t))
    → P (for_range lo n body s)
unfolding for_range
for_range_set P lo zero body s keep i from below set = absurd (omega arith)
for_range_set P lo (suc n) body s keep i from below set = elim (ℕ_discrete i (lo + n)) [
  | yes at ↦ subst (λ x. P (body x (for_range lo n body s))) at (set (for_range lo n body s))
  | no ne ↦
      keep (lo + n) (for_range lo n body s)
        (for_range_set P lo n body s keep i from (omega arith) set)
]

-- What every round keeps holds at the end when it holds at first.
pub for_range_keeps {ℓ κ} :
    {S : Type ℓ} (P : S → Type κ) (lo n : ℕ) (body : ℕ → S → S) (s : S)
    → ((i : ℕ) (t : S) → P t → P (body i t))
    → P s
    → P (for_range lo n body s)
unfolding for_range
for_range_keeps P lo zero body s keep h = h
for_range_keeps P lo (suc n) body s keep h =
    keep (lo + n) (for_range lo n body s) (for_range_keeps P lo n body s keep h)

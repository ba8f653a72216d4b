-- ===== src/Walkers/Process/Cost.antt =====
-- src/core/walker.hpp, process_walkers: what the rest of a thread's loops costs, in operations.
use flashmob.Prelude.{
  ℕ, zero, suc, ◌+◌, ◌-◌, ◌*◌, ◌≤◌, ◌<◌, ◌≡◌, refl, ap, arith, ltb, if◌then◌else◌,
}
use flashmob.Prelude.Loops.{sum_below}
use native.Mathlib.Decide.{ℕ_discrete}
use flashmob.Walkers.Process.{Phase, asking, claiming, processing, leaving}

-- The sum of `cost` over the rounds behind round r.
unfoldable pub ahead : (ℕ → ℕ) → ℕ → ℕ → ℕ
ahead cost r zero = 0
ahead cost r (suc n) = ahead cost r n + (if ltb r n then cost n else 0)

pub ahead-none : (cost : ℕ → ℕ) (r n : ℕ) → n ≤ suc r → ahead cost r n ≡ 0
unfolding ahead
ahead-none cost r zero le = refl
ahead-none cost r (suc n) le = ground (arith, ahead-none cost r n (omega arith))

pub ahead_next :
    (cost : ℕ → ℕ) (r n : ℕ) → suc r < n → ahead cost r n ≡ ahead cost (suc r) n + cost (suc r)
unfolding ahead
ahead_next cost r zero lt = absurd (omega arith)
ahead_next cost r (suc n) lt = elim (ℕ_discrete n (suc r)) [
  | yes at ↦ ground (
    arith,
    ahead-none cost r n (omega arith),
    ahead-none cost (suc r) n (omega arith),
    ap cost at,
  )
  | no ne ↦ ground (arith, ahead_next cost r n (omega arith))
]

pub ahead_mono :
    (cost less : ℕ → ℕ) (r n : ℕ)
    → ((k : ℕ) → k < n → less k ≤ cost k)
    → ahead less r n ≤ ahead cost r n
unfolding ahead
ahead_mono cost less r zero le = omega arith
ahead_mono cost less r (suc n) le =
    ground (arith, ahead_mono cost less r n (λ k lt. le k (omega arith)), le n (omega arith))

-- All rounds together.
pub ahead_all : (cost : ℕ → ℕ) (n : ℕ) → 0 < n → ahead cost 0 n + cost 0 ≡ sum_below cost n
unfolding ahead sum_below
ahead_all cost zero lt = absurd (omega arith)
ahead_all cost (suc n) lt = elim (ℕ_discrete n 0) [
  | yes at ↦ rw at (ground arith)
  | no ne ↦ ground (arith, ahead_all cost n (omega arith))
]

-- How many operations a thread has left in the loop of a state, from a phase, with d walkers before
-- the end of the state's range.
unfoldable pub phase_cost : ℕ → Phase → ℕ
phase_cost d asking = 70 * d + 3
phase_cost d claiming = 70 * d + 2
phase_cost d (processing w_i work_end) = 70 * d + 3 + 1 + (work_end - w_i)
phase_cost d leaving = 1

pub phase_cost_mono : (d d' : ℕ) (p : Phase) → d' ≤ d → phase_cost d' p ≤ phase_cost d p
unfolding phase_cost
phase_cost_mono d d' asking le = omega arith
phase_cost_mono d d' claiming le = omega arith
phase_cost_mono d d' (processing w_i work_end) le = omega arith
phase_cost_mono d d' leaving le = omega arith

pub phase_cost_pos : (d : ℕ) (p : Phase) → 0 < phase_cost d p
unfolding phase_cost
phase_cost_pos d asking = omega arith
phase_cost_pos d claiming = omega arith
phase_cost_pos d (processing w_i work_end) = omega arith
phase_cost_pos d leaving = omega arith

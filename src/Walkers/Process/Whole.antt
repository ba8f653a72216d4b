-- ===== src/Walkers/Process/Whole.antt =====
-- src/core/walker.hpp, process_walkers as a whole: it ends, and each active walker is processed once.
use flashmob.Prelude.{
  ℕ, zero, suc, ◌+◌, ◌-◌, ◌*◌, ◌^◌, ◌≤◌, ◌<◌, ◌≡◌, refl, arith, max, leb, true, List, All, some,
}
use flashmob.Prelude.Loops.{sum_below}
use flashmob.Walk.Partitions.{occurs}
use flashmob.Walkers.{Range}
use flashmob.Walkers.Process.{
  Call, target, start_team, process_walkers, all_ended, process_calls, processed,
}
use flashmob.Walkers.Process.Kept.{IsSplit}
use flashmob.Walkers.Process.Turns.{range_begins, range_ends, process_walkers-once}
use flashmob.Walkers.Process.Ends.{enough_turns, range_len, process_walkers-ends}

-- The ranges of the threads part the walkers below `most`, and end with room for what the threads
-- add too much to a counter.
pub record IsRanged (socket_num each most : ℕ) (ranges : ℕ → Range) : Type 0 where
  pub apart : (j k : ℕ) → j < k → k < socket_num * each → (ranges j).last ≤ (ranges k).first
  pub room :
      (j : ℕ)
      → j < socket_num * each
      → max (ranges j).first ((ranges j).last + 63) + 64 * (socket_num * each + 1) < 2 ^ 32
  pub covers :
      (v : ℕ)
      → v < most
      → (j : ℕ) × (j < socket_num * each) × ((ranges j).first ≤ v) × (v < (ranges j).last)

-- Every thread gets as many turns as it takes.
pub record IsFair (socket_num each : ℕ) (ranges : ℕ → Range) (turns : List ℕ) : Type 0 where
  pub threads : All (λ t. t < socket_num * each) turns
  pub enough :
      (t : ℕ)
      → t < socket_num * each
      → enough_turns socket_num each (λ j. (ranges j).last - (ranges j).first) t ≤ occurs t turns

all_ended-true :
    (num n : ℕ) (round : ℕ → ℕ) → ((t : ℕ) → t < n → num ≤ round t) → all_ended num n round ≡ true
unfolding all_ended
all_ended-true num zero round ended = refl
all_ended-true num (suc n) round ended =
    let e : leb num (round n) ≡ true = ground (arith, ended n (omega arith)) in
    rw e (all_ended-true num n round (λ t lt. ended t (omega arith)))

sum_below-le : (f g : ℕ → ℕ) (n : ℕ) → ((k : ℕ) → k < n → f k ≤ g k) → sum_below f n ≤ sum_below g n
unfolding sum_below
sum_below-le f g zero le = omega arith
sum_below-le f g (suc n) le =
    omega (arith, le n (omega arith), sum_below-le f g n (λ k lt. le k (omega arith)))

module _ (socket_num each most n : ℕ) (ranges : ℕ → Range)
    (r : IsRanged socket_num each most ranges) where
  ranged-IsSplit : IsSplit socket_num each (range_begins ranges) (range_ends ranges n)
  ranged-IsSplit = record {
    apart = λ j k lt k_lt. omega (arith, r.apart j k lt k_lt);
    room = λ j lt. omega (arith, r.room j lt);
  }

  enough_turns-le :
      (t : ℕ)
      → enough_turns socket_num each (range_len ranges n) t
        ≤ enough_turns socket_num each (λ j. (ranges j).last - (ranges j).first) t
  unfolding enough_turns
  enough_turns-le t =
      sum_below-le (λ k. 70 * range_len ranges n (target socket_num each t k) + 3)
        (λ k.
          70
            * ((ranges (target socket_num each t k)).last
                - (ranges (target socket_num each t k)).first)
          + 3)
        (socket_num * each) (λ k lt. omega arith)

  -- For ranges as `IsRanged` says, which hold all walkers and leave room for the counters, and
  -- turns in any order in which each thread has as many as `IsFair` says: process_walkers ends,
  -- its calls are for each of the n active walkers, once, and for no others.
  pub process_calls-once :
      (turns : List ℕ)
      → n ≤ most
      → IsFair socket_num each ranges turns
      → (calls : List Call) × (process_calls socket_num each ranges n turns ≡ some calls)
        × ((v : ℕ) → v < n → processed v calls ≡ 1)
        × ((v : ℕ) → 0 < processed v calls → v < n)
  unfolding process_calls
  process_calls-once turns le fair =
      let split = ranged-IsSplit in
      let (one, below, done) =
        process_walkers-once socket_num each n ranges turns split fair.threads in
      let ended : (t : ℕ)
          → t < socket_num * each
          → socket_num * each
            ≤ (process_walkers socket_num each turns (start_team ranges n)).round t =
        λ t lt.
          process_walkers-ends socket_num each n ranges split turns t fair.threads lt
            (omega (arith, enough_turns-le t, fair.enough t lt)) in
      let all =
        all_ended-true (socket_num * each) (socket_num * each)
          (process_walkers socket_num each turns (start_team ranges n)).round ended in
      (
        (process_walkers socket_num each turns (start_team ranges n)).calls,
        rw (all, process_calls) refl,
        λ v lt.
            let (j, j_lt, from, last) = r.covers v (omega arith) in
            done ended j v j_lt from last lt,
        below,
      )

-- ===== src/Examples/Planning.antt =====
-- Two groups with two candidates each, and times that are natural numbers.
use flashmob.Prelude.{ℕ, ◌+◌, ◌-◌, ◌≤◌, ◌≡◌, ltb, false, some, none, arith}
use flashmob.Partition.Plan.{Times, Candidate, DpGroup, weight, plan}
use flashmob.Partition.Plan.Best.{IsTimes, weights, cost}
use flashmob.Partition.Plan.Traced.{IsPicked, plan-IsPicked}
use flashmob.Examples.Data.{blank}

abbrev naturals : Times
naturals = record { Time = ℕ; time_zero = 0; add = λ a b. a + b; gt = λ a b. ltb b a }

naturals-IsTimes : IsTimes naturals
naturals-IsTimes = record {
  gt_irrefl = λ a. ground arith;
  le_trans = λ a b c h k. ground arith;
  le_of_gt = λ a b h. ground arith;
  add_mono = λ a b c h. ground arith;
}

-- The candidate with more partitions takes less time.
abbrev candidates : ℕ → ℕ → Candidate naturals
candidates g i = record { partition_num = i + 1; partition_level = 0; total_time = 9 + g - i }

abbrev sizes : ℕ → ℕ
sizes g = 2

abbrev no_results : ℕ → DpGroup naturals
no_results g = record { val = none; candidate_idx = 7; previous = none }

light : weights naturals candidates sizes blank 2 ≤ 3
unfolding weights weight
light = omega arith

plan_example :
    (results : ℕ → DpGroup naturals) × (v : ℕ) × (plan naturals 3 candidates sizes 7 no_results 2
      ≡ some results)
    × IsPicked naturals candidates sizes results 2 3 v
    × (ltb (cost naturals candidates sizes blank 2) v ≡ false)
plan_example =
    plan-IsPicked naturals candidates sizes 3 7 2 no_results naturals-IsTimes blank
      (λ g lt. omega arith) light

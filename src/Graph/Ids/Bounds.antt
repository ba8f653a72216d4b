-- ===== src/Graph/Ids/Bounds.antt =====
-- src/core/graph.hpp, Graph::make: partition_max_degree and partition_min_degree bound the degrees.
use flashmob.Prelude.{ℕ, zero, suc, ◌+◌, ◌≤◌, ◌<◌, ◌≡◌, ◌⊎◌, inl, inr, refl, arith, lt_suc-cases}
use flashmob.Prelude.Loops.{for_range}
use native.Mathlib.Decide.{dec_lt}
use flashmob.Graph.Sort.{VertexSortUnit}
use flashmob.Graph.Ids.{DegreeBounds, degree_bounds}

-- The bounds hold for n vertices from `begin`, and the upper one is met.
pub record Bound (units : ℕ → VertexSortUnit) (begin n : ℕ) (d : DegreeBounds) : Type 0 where
  pub from_min : (k : ℕ) → k < n → d.min_degree ≤ (units (begin + k)).degree
  pub to_max : (k : ℕ) → k < n → (units (begin + k)).degree ≤ d.max_degree
  pub met : 0 < n → (k : ℕ) × (k < n) × ((units (begin + k)).degree ≡ d.max_degree)

module _ (units : ℕ → VertexSortUnit) (v_num begin : ℕ) where
  max_met :
      (n : ℕ)
      → ((degree_bounds units v_num begin n).max_degree ≡ 0)
        ⊎ ((k : ℕ) × (k < n)
            × ((units (begin + k)).degree ≡ (degree_bounds units v_num begin n).max_degree))
  unfolding degree_bounds for_range
  max_met zero = inl refl
  max_met (suc n) =
      elim (dec_lt (degree_bounds units v_num begin n).max_degree (units (begin + n)).degree) [
        | yes here ↦ inr (n, omega arith, omega arith)
        | no before ↦ elim (max_met n) [
          | inl nought ↦ inl (omega (arith, nought))
          | inr (k, lt, e) ↦ inr (k, omega arith, omega (arith, e))
        ]
      ]

  bounded :
      (n k : ℕ)
      → k < n
      → ((degree_bounds units v_num begin n).min_degree ≤ (units (begin + k)).degree)
        × ((units (begin + k)).degree ≤ (degree_bounds units v_num begin n).max_degree)
  unfolding degree_bounds for_range
  bounded zero k lt = absurd (omega arith)
  bounded (suc n) k lt = elim (lt_suc-cases k n lt) [
    | inl at ↦ rw at (omega arith, omega arith)
    | inr less ↦ (omega (arith, bounded n k less), omega (arith, bounded n k less))
  ]

  -- The bounds of n vertices hold, and the upper one is met.
  pub degree_bounds-Bound : (n : ℕ) → Bound units begin n (degree_bounds units v_num begin n)
  degree_bounds-Bound n = record {
    from_min = λ k lt. (bounded n k lt).0;
    to_max = λ k lt. (bounded n k lt).1;
    met = λ lt. elim (max_met n) [
      | inl nought ↦ (0, lt, omega (arith, nought, bounded n 0 lt))
      | inr found ↦ found
    ];
  }

-- ===== src/Graph/Sort/Loops.antt =====
-- src/core/graph.hpp, Graph::counting_sort: each of its loops, against counts and slots.
use flashmob.Prelude.{ℕ, zero, suc, ◌+◌, ◌-◌, ◌^◌, ◌≤◌, ◌<◌, ◌≡◌, refl, arith, write, lt_suc-cases}
use flashmob.Prelude.Loops.{for_range, sum_below}
use flashmob.Prelude.Words.{add32_small}
use flashmob.Message.Counts.{count, count-le, offset, offset-le}
use flashmob.Graph.Sort.{
  VertexSortUnit, high_degree, clear_counters, copy_units, count_degrees, sum_counters,
}

pub high_degree-le :
    (units : ℕ → VertexSortUnit) (num v : ℕ) → v < num → (units v).degree ≤ high_degree units num
unfolding high_degree for_range
high_degree-le units zero v h = absurd (omega arith)
high_degree-le units (suc num) v h =
    ground (arith, lt_suc-cases v num h, high_degree-le units num v)

clear_loop : (n : ℕ) (a : ℕ → ℕ) (d : ℕ) → d < n → for_range 0 n (λ d_i c. write c d_i 0) a d ≡ 0
unfolding for_range write
clear_loop zero a d h = absurd (omega arith)
clear_loop (suc n) a d h = ground (arith, clear_loop n a d)

pub clear_counters_lem : (high : ℕ) (a : ℕ → ℕ) (d : ℕ) → d ≤ high → clear_counters high a d ≡ 0
unfolding clear_counters
clear_counters_lem high a d h = clear_loop (high + 1) a d (omega arith)

pub copy_units_lem :
    (units : ℕ → VertexSortUnit) (num : ℕ) (a : ℕ → VertexSortUnit) (v : ℕ)
    → v < num
    → copy_units units num a v ≡ units v
unfolding copy_units for_range write
copy_units_lem units zero a v h = absurd (omega arith)
copy_units_lem units (suc num) a v h = ground (arith, copy_units_lem units num a v)

-- The place of a degree among the counters that give positions.
abbrev pub below : (ℕ → VertexSortUnit) → ℕ → ℕ
below units v = (units v).degree - 1

module _ (units : ℕ → VertexSortUnit) (high : ℕ) where
  pub count_degrees_lem :
      (k : ℕ) (a : ℕ → ℕ)
      → k < 2 ^ 32
      → ((d : ℕ) → d ≤ high → a d ≡ 0)
      → ((v : ℕ) → v < k → (0 < (units v).degree) × ((units v).degree ≤ high))
      → (count_degrees units k a 0 ≡ 0)
        × ((p : ℕ) → p < high → count_degrees units k a (suc p) ≡ count (below units) p k)
  unfolding count_degrees for_range count write
  count_degrees_lem zero a w z f = (z 0 (omega arith), λ p h. z (suc p) (omega arith))
  count_degrees_lem (suc k) a w z f =
      let (none_yet, ih) = count_degrees_lem k a (omega arith) z (λ v lt. f v (omega arith)) in
      let fits = f k (omega arith) in
      (
        ground (arith, none_yet, fits),
        λ p h. ground (
          arith,
          fits,
          ih p h,
          ih ((units k).degree - 1),
          add32_small (count (below units) p k) 1,
          count-le (below units) p k,
        ),
      )

  -- The counter of a degree is then the number of vertices of that degree at most.
  pub sum_counters_lem :
      (num : ℕ) (a : ℕ → ℕ) (k : ℕ)
      → num < 2 ^ 32
      → a 0 ≡ 0
      → k ≤ high
      → ((p : ℕ) → p < high → a (suc p) ≡ count (below units) p num)
      → ((d : ℕ) → d ≤ k → sum_counters k a d ≡ offset (below units) num d)
        × ((d : ℕ) → k < d → sum_counters k a d ≡ a d)
  unfolding sum_counters for_range sum_below write
  sum_counters_lem num a zero w z le c = (λ d h. ground (arith, z), λ d h. refl)
  sum_counters_lem num a (suc k) w z le c =
      let (ih, rest) = sum_counters_lem num a k w z (omega arith) c in
      (
        λ d h. ground (
          arith,
          ih d,
          ih k (omega arith),
          rest (suc k) (omega arith),
          c k (omega arith),
          add32_small (count (below units) k num) (offset (below units) num k),
          offset-le (below units) num (suc k),
        ),
        λ d h. ground (arith, rest d (omega arith)),
      )

-- ===== src/Graph/Sort.antt =====
-- src/core/graph.hpp, Graph::counting_sort: the vertices by descending degree. Arrays are functions
-- of the index; the parallel loops write indices of their own.
pub mod Loops
pub mod Order
use flashmob.Prelude.{ℕ, ◌+◌, ◌-◌, max, write}
use flashmob.Prelude.Loops.{for_range}
use flashmob.Prelude.Words.{add32, sub32}

pub record VertexSortUnit : Type 0 where
  pub vertex : ℕ
  pub degree : ℕ

-- high = max(high, units[v_i].degree)
pub high_degree : (ℕ → VertexSortUnit) → ℕ → ℕ
unfolding for_range
high_degree units num = for_range 0 num (λ v_i high. max high (units v_i).degree) 0

pub clear_counters : ℕ → (ℕ → ℕ) → ℕ → ℕ
unfolding for_range
clear_counters high = for_range 0 (high + 1) (λ d_i counters. write counters d_i 0)

pub copy_units : (ℕ → VertexSortUnit) → ℕ → (ℕ → VertexSortUnit) → ℕ → VertexSortUnit
unfolding for_range
copy_units units num = for_range 0 num (λ v_i temp_data. write temp_data v_i (units v_i))

pub count_degrees : (ℕ → VertexSortUnit) → ℕ → (ℕ → ℕ) → ℕ → ℕ
unfolding for_range
count_degrees units num =
    for_range 0 num
      (λ v_i counters. write counters (units v_i).degree (add32 (counters (units v_i).degree) 1))

-- for (d_i = 1; d_i <= high; d_i++) counters[d_i] += counters[d_i - 1];
pub sum_counters : ℕ → (ℕ → ℕ) → ℕ → ℕ
unfolding for_range
sum_counters high =
    for_range 1 high
      (λ d_i counters. write counters d_i (add32 (counters d_i) (counters (d_i - 1))))

pub record Sorting : Type 0 where
  pub counters : ℕ → ℕ
  pub sorted : ℕ → VertexSortUnit

pub place_unit : (ℕ → VertexSortUnit) → ℕ → ℕ → Sorting → Sorting
place_unit temp_data num v_i s =
    let d = (temp_data v_i).degree - 1 in
    let pos = s.counters d in
    record {
      counters = write s.counters d (add32 pos 1);
      sorted = write s.sorted (sub32 (sub32 num pos) 1) (temp_data v_i);
    }

pub place_units : (ℕ → VertexSortUnit) → ℕ → ℕ → Sorting → Sorting
unfolding place_unit
place_units temp_data num n = for_range 0 n (place_unit temp_data num)

-- `blank` and `zeros` are the arrays that `new` returns.
pub counting_sort : (ℕ → VertexSortUnit) → (ℕ → ℕ) → (ℕ → VertexSortUnit) → ℕ → ℕ → VertexSortUnit
unfolding high_degree clear_counters copy_units count_degrees sum_counters place_units for_range
counting_sort blank zeros units num =
    let high = high_degree units num in
    let cleared = clear_counters high zeros in
    let temp_data = copy_units units num blank in
    let counters = sum_counters high (count_degrees units num cleared) in
    (place_units temp_data num num (record { counters = counters; sorted = units })).sorted

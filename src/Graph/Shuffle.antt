-- ===== src/Graph/Shuffle.antt =====
-- src/core/graph.hpp, Graph::make: the vertices of the first partitions are dealt out to them, in
-- turns forth and back.
pub mod Dealt
pub mod Ends
pub mod Sorted
use flashmob.Prelude.{ℕ, zero, suc, ◌+◌, ◌-◌, ltb, ◌&&◌, if◌then◌else◌, write, Option, none, some}
use flashmob.Prelude.Loops.{for_range}
use flashmob.Graph.Sort.{VertexSortUnit}

-- vertex_units, temp_partition_p and v_i
pub record Dealing : Type 0 where
  pub units : ℕ → VertexSortUnit
  pub temp_partition_p : ℕ → ℕ
  pub v_i : ℕ

-- `temp_units` is the copy of the units, `ends` is temp_partition_ends.
pub deal_one : (ℕ → VertexSortUnit) → (ℕ → ℕ) → ℕ → ℕ → Dealing → Dealing
deal_one temp_units ends shuffle_vertex_num p_idx s =
    if ltb s.v_i shuffle_vertex_num && ltb (s.temp_partition_p p_idx) (ends p_idx)
    then record {
      units = write s.units (s.temp_partition_p p_idx) (temp_units s.v_i);
      temp_partition_p = write s.temp_partition_p p_idx (s.temp_partition_p p_idx + 1);
      v_i = s.v_i + 1;
    }
    else s

pub deal_forth : (ℕ → VertexSortUnit) → (ℕ → ℕ) → ℕ → ℕ → Dealing → Dealing
unfolding for_range
deal_forth temp_units ends shuffle_vertex_num partition_num =
    for_range 0 partition_num (deal_one temp_units ends shuffle_vertex_num)

pub deal_back : (ℕ → VertexSortUnit) → (ℕ → ℕ) → ℕ → ℕ → Dealing → Dealing
unfolding for_range
deal_back temp_units ends shuffle_vertex_num partition_num =
    for_range 0 partition_num
      (λ p_i. deal_one temp_units ends shuffle_vertex_num (partition_num - p_i - 1))

-- for (v_i = 0; v_i < shuffle_vertex_num;); `none` when the fuel runs out.
pub deal_rounds : (ℕ → VertexSortUnit) → (ℕ → ℕ) → ℕ → ℕ → ℕ → Dealing → Option Dealing
deal_rounds temp_units ends shuffle_vertex_num partition_num zero s =
    if ltb s.v_i shuffle_vertex_num then none else some s
deal_rounds temp_units ends shuffle_vertex_num partition_num (suc fuel) s =
    let rest = deal_rounds temp_units ends shuffle_vertex_num partition_num fuel (
      deal_back temp_units ends shuffle_vertex_num partition_num
        (deal_forth temp_units ends shuffle_vertex_num partition_num s)) in
    if ltb s.v_i shuffle_vertex_num then rest else some s

-- temp_units[v_i] = units[v_i]
pub copy_temp : (ℕ → VertexSortUnit) → ℕ → (ℕ → VertexSortUnit) → ℕ → VertexSortUnit
unfolding for_range
copy_temp units n = for_range 0 n (λ v_i temp. write temp v_i (units v_i))

pub copy_bounds : (ℕ → ℕ) → ℕ → (ℕ → ℕ) → ℕ → ℕ
unfolding for_range
copy_bounds bounds n = for_range 0 n (λ p_i temp. write temp p_i (bounds p_i))

-- The units after the block; `blank` and `zeros` are what the new vectors hold. Each round deals
-- out a unit at least, so their number is enough fuel.
pub shuffle_units :
    (ℕ → VertexSortUnit) → (ℕ → ℕ) → (ℕ → ℕ) → (ℕ → ℕ) → ℕ → (ℕ → VertexSortUnit) → Option Dealing
shuffle_units blank zeros partition_begin partition_end partition_num units =
    let shuffle_vertex_num = partition_end (partition_num - 1) in
    deal_rounds (copy_temp units shuffle_vertex_num blank)
      (copy_bounds partition_end partition_num zeros) shuffle_vertex_num partition_num
      shuffle_vertex_num
      (record {
        units = units;
        temp_partition_p = copy_bounds partition_begin partition_num zeros;
        v_i = 0;
      })

-- ===== src/Graph/Partitions.antt =====
-- src/core/graph.hpp, Graph::make: the headers of the groups and the ranges of the partitions, from
-- the hints of the groups. Vertices are 32-bit numbers.
pub mod Groups
pub mod Lookup
use flashmob.Prelude.{
  ℕ, zero, suc, ◌+◌, ◌-◌, ◌^◌, min, Option, none, some, List, [], ◌∷◌, ◌++◌, ltb, if◌then◌else◌,
  ◌>>=◌, length,
}
use flashmob.Prelude.Words.{add32, sub32}
use flashmob.Threads.{bit2value}
use flashmob.Graph.{GroupTable, GroupHeader}

pub record GroupHint : Type 0 where
  pub vertex_begin : ℕ
  pub vertex_end : ℕ
  pub partition_bits : ℕ

-- partition_begin and partition_end of one partition
pub record PartitionRange : Type 0 where
  pub partition_begin : ℕ
  pub partition_end : ℕ

-- groups[s_i][g_i].partition_offset
pub partition_offset : ℕ → (ℕ → GroupHint) → ℕ → ℕ
partition_offset group_bits hints zero = 0
partition_offset group_bits hints (suc g_i) =
    add32 (partition_offset group_bits hints g_i)
      (bit2value (sub32 group_bits (hints g_i).partition_bits))

-- The same headers for every socket; group_mask is (1u << group_bits) - 1.
pub make_groups : ℕ → (ℕ → GroupHint) → GroupTable
unfolding partition_offset
make_groups group_bits hints = record {
  group_bits = group_bits;
  group_mask = sub32 (bit2value group_bits) 1;
  groups = λ s_i g_i. record {
    partition_bits = (hints g_i).partition_bits;
    partition_offset = partition_offset group_bits hints g_i;
  };
}

-- for (v = hint.vertex_begin; v < hint.vertex_end; v += bit2value(hint.partition_bits)); `none` if
-- the fuel runs out.
pub group_partitions : ℕ → ℕ → ℕ → ℕ → ℕ → Option (List PartitionRange)
group_partitions zero v_num vertex_end partition_bits v = if ltb v vertex_end then none else some []
group_partitions (suc fuel) v_num vertex_end partition_bits v =
    let next = add32 v (bit2value partition_bits) in
    let rest = group_partitions fuel v_num vertex_end partition_bits next in
    if ltb v vertex_end
    then (rest >>= λ ranges.
        some (record { partition_begin = v; partition_end = min next v_num } ∷ ranges))
    else some []

-- The partitions of the first groups. Each round goes on by a vertex at least, so vertex_end is
-- enough fuel.
pub make_partitions : ℕ → (ℕ → GroupHint) → ℕ → Option (List PartitionRange)
unfolding group_partitions
make_partitions v_num hints zero = some []
make_partitions v_num hints (suc g_i) = do
  ranges ← make_partitions v_num hints g_i
  more ←
      group_partitions (hints g_i).vertex_end v_num (hints g_i).vertex_end
        (hints g_i).partition_bits (hints g_i).vertex_begin
  some (ranges ++ more)

-- All shuffled partitions belong to group 0.
pub shuffle_partition_num : ℕ → ℕ → (ℕ → GroupHint) → Option ℕ
unfolding make_partitions
shuffle_partition_num thread_num v_num hints = do
  ranges ← make_partitions v_num hints 1
  some (min thread_num (length ranges))

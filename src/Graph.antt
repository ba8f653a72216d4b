-- ===== src/Graph.antt =====
-- src/core/graph.hpp: the data that the other parts read, and the partition of a vertex.
pub mod Sort
pub mod Partitions
pub mod Load
pub mod Shuffle
pub mod Sockets
pub mod Ids
pub mod Edges
pub mod Query
use flashmob.Prelude.{ℕ, ◌+◌, ◌/◌, ◌^◌}
use Prim.Native.Nat.{bit_and}

-- struct GroupHeader
pub record GroupHeader : Type 0 where
  pub partition_bits : ℕ
  pub partition_offset : ℕ

-- The fields of class Graph that say in which partition a vertex lies. `groups s g` is
-- `groups[s][g]`: each socket has its own copy of the headers.
pub record GroupTable : Type 0 where
  pub group_bits : ℕ
  pub group_mask : ℕ
  pub groups : ℕ → ℕ → GroupHeader

-- ((vertex & group_mask) >> groups[s][g_id].partition_bits) + groups[s][g_id].partition_offset
-- for g_id = vertex >> group_bits
unfoldable pub partition_on : GroupTable → ℕ → ℕ → ℕ
partition_on gt socket vertex =
    bit_and vertex gt.group_mask / 2 ^ h.partition_bits + h.partition_offset
  where
    h : GroupHeader
    h = gt.groups socket (vertex / 2 ^ gt.group_bits)

unfoldable pub get_vertex_partition_id : GroupTable → ℕ → ℕ
unfolding partition_on
get_vertex_partition_id gt vertex = partition_on gt 0 vertex

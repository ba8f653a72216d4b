-- ===== src/Partition.antt =====
-- src/core/partition.hpp, estimate_epoch_walker: how many walkers an epoch takes within the memory
-- quota. All numbers are 64-bit words. `none` stands for the CHECK that fails, and for a division
-- by zero.
pub mod Estimate
pub mod Plan
use flashmob.Prelude.{
  ℕ, ◌+◌, ◌-◌, ◌*◌, ◌/◌, ◌^◌, min, Option, none, some, ltb, ◌==◌, ◌>>=◌, if◌then◌else◌,
}
use flashmob.Prelude.Words.{u32, u64, add64, sub64}

-- sizeof(AdjList) = 12, as it is packed, sizeof(AdjUnit) = sizeof(vertex_id_t) = 4
unfoldable pub graph_memory_size : ℕ → ℕ → ℕ → ℕ
graph_memory_size vertex_num edge_num socket_num =
    add64 (u64 (u64 (12 * vertex_num) * socket_num)) (u64 (4 * edge_num))

unfoldable pub buffer_memory_size : ℕ → ℕ
buffer_memory_size buffer_edge_num = u64 (4 * buffer_edge_num)

-- Walk paths, messages and starting vertices; the sum is one of 32-bit ints.
-- An `int` of 32 bits, which wraps, as a size_t: a negative one is extended by its sign.
unfoldable pub int_size : ℕ → ℕ
int_size x = if ltb (u32 x) (2 ^ 31) then u32 x else u32 x + (2 ^ 64 - 2 ^ 32)

unfoldable pub per_walker_cost : ℕ → ℕ
unfolding int_size
per_walker_cost walk_len = u64 (4 * int_size (walk_len * 2 + 2 + 1))

divide : ℕ → ℕ → Option ℕ
divide a b = if b == 0 then none else some (a / b)

-- (a + b - 1) / b
pub round_up : ℕ → ℕ → Option ℕ
unfolding divide
round_up a b = divide (sub64 (add64 a b) 1) b

pub cal_max_active_walker_num : ℕ → ℕ → ℕ → Option ℕ
unfolding divide
cal_max_active_walker_num memory_size used_size walk_len =
    divide (sub64 memory_size used_size) (per_walker_cost walk_len)

pub cal_epoch_num : ℕ → ℕ → Option ℕ
unfolding round_up
cal_epoch_num walker_num max_active = round_up walker_num (min max_active walker_num)

pub cal_max_epoch_walker_num : ℕ → ℕ → Option ℕ
unfolding cal_epoch_num
cal_max_epoch_walker_num walker_num max_active = do
  epoch_num ← cal_epoch_num walker_num max_active
  round_up walker_num epoch_num

-- The size of what is not walkers: graph data, buffers and the rest.
unfoldable pub used_size : ℕ → ℕ → ℕ → ℕ → ℕ → ℕ
unfolding graph_memory_size buffer_memory_size
used_size vertex_num edge_num buffer_edge_num socket_num other_size =
    add64
      (add64 (graph_memory_size vertex_num edge_num socket_num)
        (buffer_memory_size buffer_edge_num))
      other_size

pub estimate_within : ℕ → ℕ → ℕ → ℕ → Option ℕ
unfolding cal_max_active_walker_num cal_max_epoch_walker_num
estimate_within walker_num walk_len mem_quota used = do
  max_active ← cal_max_active_walker_num mem_quota used walk_len
  max_epoch ← cal_max_epoch_walker_num walker_num max_active
  some (min max_epoch (2 ^ 32 - 2))

pub estimate_epoch_walker : ℕ → ℕ → ℕ → ℕ → ℕ → ℕ → ℕ → ℕ → Option ℕ
unfolding estimate_within used_size
estimate_epoch_walker vertex_num edge_num buffer_edge_num walker_num walk_len socket_num mem_quota
      other_size =
    let used = used_size vertex_num edge_num buffer_edge_num socket_num other_size in
    if ltb used mem_quota then estimate_within walker_num walk_len mem_quota used else none

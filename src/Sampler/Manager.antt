-- ===== src/Sampler/Manager.antt =====
-- src/core/sampler.hpp, SamplerManager: which sampler a partition gets, and `clear`. The copies of
-- the adjacency lists on the sockets are one table; memory and profiling are left out.
pub mod Laid
pub mod Chosen
use flashmob.Prelude.{
  ℕ, zero, suc, ◌+◌, ◌-◌, ◌==◌, Bool, true, false, if◌then◌else◌, write, Option, none, some, ◌>>=◌,
}
use flashmob.Prelude.Words.{add64, sub32}
use flashmob.Sampler.{Adjacency, init_buffer, init_uniform, ExclusiveBufferSampler, clear}
use flashmob.Sampler.Similar.{AdjHint, is_valid, init_similar}
use flashmob.Sampler.Dispatch.{Sampler, exclusive, direct, uniform, similar}

-- The fields of class Graph that `init` reads, for each partition; `is_exclusive` says that its
-- partition_sampler_class is ClassExclusiveBufferSampler.
pub record Parts : Type 0 where
  pub is_exclusive : ℕ → Bool
  pub partition_begin : ℕ → ℕ
  pub partition_end : ℕ → ℕ
  pub partition_min_degree : ℕ → ℕ
  pub partition_max_degree : ℕ → ℕ
  pub partition_edge_num : ℕ → ℕ

module _ (g : Adjacency) (l2_cache_size : ℕ) (blank : ℕ → ℕ) (blank_hints : ℕ → AdjHint) where
  -- The sampler of a partition; `blank` and `blank_hints` are what new memory holds. `none`
  -- where the hints are written outside of their array.
  pub new_sampler : Parts → ℕ → Option Sampler
  new_sampler parts p_i =
      if parts.is_exclusive p_i
      then some
          (exclusive (init_buffer g (parts.partition_begin p_i) (parts.partition_end p_i) blank))
      else if parts.partition_min_degree p_i == parts.partition_max_degree p_i
      then some (uniform (init_uniform g (parts.partition_begin p_i) (parts.partition_end p_i)))
      else if is_valid (parts.partition_max_degree p_i) (parts.partition_min_degree p_i)
          (parts.partition_edge_num p_i)
          (sub32 (parts.partition_end p_i) (parts.partition_begin p_i)) l2_cache_size
      then (init_similar g (parts.partition_begin p_i) (parts.partition_end p_i) blank_hints
          >>= λ s. some (similar s))
      else some direct

  pub record Samplers : Type 0 where
    pub samplers : ℕ → Sampler
    pub edge_buffer_data_size : ℕ

  -- sampler->buffer_unit_num, which only the buffer sampler adds.
  buffer_size : Sampler → ℕ
  buffer_size (exclusive s) = s.buffer_unit_num
  buffer_size direct = 0
  buffer_size (uniform s) = 0
  buffer_size (similar s) = 0

  init_one : ℕ → Sampler → Samplers → Samplers
  init_one p_i t s = record {
    samplers = write s.samplers p_i t;
    edge_buffer_data_size = add64 s.edge_buffer_data_size (buffer_size t);
  }

  init_loop : Parts → ℕ → Samplers → Option Samplers
  unfolding init_one
  init_loop parts zero s = some s
  init_loop parts (suc p_i) s = do
    s' ← init_loop parts p_i s
    t ← new_sampler parts p_i
    some (init_one p_i t s')

  pub init_samplers : Parts → ℕ → (ℕ → Sampler) → Option Samplers
  unfolding init_loop
  init_samplers parts partition_num old =
      init_loop parts partition_num (record { samplers = old; edge_buffer_data_size = 0 })

-- One case of the switch of `SamplerManager::clear`; none where CHECK(false) stops the program.
pub clear_sampler : Sampler → Option Sampler
clear_sampler (exclusive s) = some (exclusive (clear s))
clear_sampler direct = some direct
clear_sampler (uniform s) = some (uniform s)
clear_sampler (similar s) = none

pub clear_samplers : ℕ → (ℕ → Sampler) → Option (ℕ → Sampler)
clear_samplers zero samplers = some samplers
clear_samplers (suc n) samplers = do
  rest ← clear_samplers n samplers
  s ← clear_sampler (samplers n)
  some (write rest n s)

-- ===== src/Graph/Query.antt =====
-- src/core/graph.hpp, prepare_neighbor_query and has_neighbor. `sort` and `search` are std::sort
-- and std::binary_search, over the part of an array from `begin` with a number of entries; what
-- is relied on is in Graph.Query.Answers. `none` where BloomFilter::create runs out of fuel.
pub mod Answers
use flashmob.Prelude.{ℕ, ◌+◌, ◌-◌, Bool, false, not, if◌then◌else◌, Option, some, ◌>>=◌}
use Prim.Native.Nat.{◌/◌}
use flashmob.Prelude.Loops.{for_range}
use flashmob.Bloom.{BloomFilter, create, insert, exist}
use flashmob.Sampler.{Adjacency}

pub record Queried : Type 0 where
  pub neighbor : ℕ → ℕ
  pub bf : BloomFilter

module _ (sort : (ℕ → ℕ) → ℕ → ℕ → ℕ → ℕ) (g : Adjacency) (partition_begin partition_end : ℕ → ℕ)
    (partition_num : ℕ) where
  pub sort_list : ℕ → (ℕ → ℕ) → ℕ → ℕ
  sort_list v_i neighbor = sort neighbor (g.adjlists v_i).begin (g.adjlists v_i).degree

  pub sort_partition : ℕ → (ℕ → ℕ) → ℕ → ℕ
  unfolding for_range
  sort_partition p_i =
      for_range (partition_begin p_i) (partition_end p_i - partition_begin p_i) sort_list

  pub insert_list : (ℕ → ℕ) → ℕ → BloomFilter → BloomFilter
  unfolding for_range
  insert_list neighbor v_i =
      for_range 0 (g.adjlists v_i).degree
        (λ e_i. insert v_i (neighbor ((g.adjlists v_i).begin + e_i)))

  pub insert_partition : (ℕ → ℕ) → ℕ → BloomFilter → BloomFilter
  unfolding for_range
  insert_partition neighbor p_i =
      for_range (partition_begin p_i) (partition_end p_i - partition_begin p_i)
        (insert_list neighbor)

  pub prepare_neighbor_query : Bool → ℕ → (ℕ → ℕ) → Option Queried
  unfolding for_range
  prepare_neighbor_query as_undirected e_num blank =
      let neighbor = for_range 0 partition_num sort_partition g.neighbor in
      create (if as_undirected then e_num / 2 else e_num) blank >>= λ bf. some (record {
        neighbor = neighbor;
        bf = for_range 0 partition_num (insert_partition neighbor) bf;
      })

pub has_neighbor : ((ℕ → ℕ) → ℕ → ℕ → ℕ → Bool) → Adjacency → Queried → ℕ → ℕ → Bool
has_neighbor search g q src dst =
    if not (exist src dst q.bf)
    then false
    else search q.neighbor (g.adjlists src).begin (g.adjlists src).degree dst

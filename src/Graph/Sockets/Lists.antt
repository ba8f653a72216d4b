-- ===== src/Graph/Sockets/Lists.antt =====
-- src/core/graph.hpp, Graph::make: each partition is in the list of one socket, once.
use flashmob.Prelude.{ℕ, zero, suc, ◌<◌, ◌≡◌, inl, inr, refl, sym, ◌∙◌, arith, write, lt_suc-cases}
use flashmob.Prelude.Loops.{for_range}
use native.Mathlib.Nat.{mod-lt}
use flashmob.Message.Counts.{count, count-lt, count_mono, count-agree, count-onto}
use flashmob.Graph.Sockets.{
  socket_of, clear_nums, Assigned, assign_one, assign_sockets, Listing, list_one, list_partitions,
}

socket_of-lt : (socket_num p : ℕ) → 0 < socket_num → socket_of socket_num p < socket_num
unfolding socket_of
socket_of-lt socket_num p pos = ground (arith, mod-lt p pos)

clear_nums_lem :
    (socket_num s : ℕ) (zeros : ℕ → ℕ) → s < socket_num → clear_nums socket_num zeros s ≡ 0
unfolding clear_nums for_range write
clear_nums_lem zero s zeros lt = absurd (omega arith)
clear_nums_lem (suc n) s zeros lt = ground (arith, clear_nums_lem n s zeros)

module _ (socket_num : ℕ) (pos : 0 < socket_num) (blank zeros : ℕ → ℕ) where
  assigned_lem :
      (n : ℕ)
      → ((p : ℕ)
          → p < n
          → (assign_sockets socket_num n blank zeros).partition_socket p ≡ socket_of socket_num p)
        × ((s : ℕ)
            → s < socket_num
            → (assign_sockets socket_num n blank zeros).socket_partition_nums s
              ≡ count (socket_of socket_num) s n)
  unfolding assign_sockets assign_one for_range write count
  assigned_lem zero = (λ p lt. absurd (omega arith), λ s lt. clear_nums_lem socket_num s zeros lt)
  assigned_lem (suc n) =
      let (sockets, nums) = assigned_lem n in
      (λ p lt. ground (arith, sockets p), λ s lt. ground (arith, nums s))

-- The lists after the first k partitions, each at its place.
module _ (sockets : ℕ → ℕ) (blank : ℕ → ℕ → ℕ) where
  abbrev listed : ℕ → Listing
  listed k =
      for_range 0 k (list_one sockets)
        (record { socket_partitions = blank; temp_counts = λ s_i. 0 })

  listed-counts : (k s : ℕ) → (listed k).temp_counts s ≡ count sockets s k
  unfolding for_range list_one write count
  listed-counts zero s = refl
  listed-counts (suc k) s = ground (arith, listed-counts k s)

  listed_at :
      (k p : ℕ) → p < k → (listed k).socket_partitions (sockets p) (count sockets (sockets p) p) ≡ p
  unfolding for_range list_one write count
  listed_at zero p lt = absurd (omega arith)
  listed_at (suc k) p lt = elim (lt_suc-cases p k lt) [
    | inl at ↦ rw at (ground (arith, listed-counts k (sockets k)))
    | inr less ↦
        ground (arith, listed_at k p less, listed-counts k (sockets k), count-lt sockets k p less)
  ]

-- The lists of the sockets hold the partitions, each one once, in their order.
pub record IsListed (socket_num partition_num : ℕ) (a : Assigned) (lists : ℕ → ℕ → ℕ) : Type 0 where
  pub socket_lt : (p : ℕ) → p < partition_num → a.partition_socket p < socket_num
  pub listed_once :
      (p : ℕ)
      → p < partition_num
      → (i : ℕ) × (i < a.socket_partition_nums (a.partition_socket p))
        × (lists (a.partition_socket p) i ≡ p)
  pub own :
      (s i : ℕ)
      → s < socket_num
      → i < a.socket_partition_nums s
      → (lists s i < partition_num) × (a.partition_socket (lists s i) ≡ s)
  pub ascending :
      (s i j : ℕ) → s < socket_num → i < j → j < a.socket_partition_nums s → lists s i < lists s j

module _ (socket_num : ℕ) (pos : 0 < socket_num) (partition_num : ℕ) (blank zeros : ℕ → ℕ)
    (blank_lists : ℕ → ℕ → ℕ) where
  abbrev assigned : Assigned
  assigned = assign_sockets socket_num partition_num blank zeros

  abbrev sockets : ℕ → ℕ
  sockets = assigned.partition_socket

  num-count :
      (s : ℕ) → s < socket_num → assigned.socket_partition_nums s ≡ count sockets s partition_num
  num-count s lt =
      let (same, nums) = assigned_lem socket_num pos blank zeros partition_num in
      nums s lt ∙ sym (count-agree sockets (socket_of socket_num) s partition_num same)

  -- The partition at place i of the list of a socket.
  at_place :
      (s i : ℕ)
      → s < socket_num
      → i < assigned.socket_partition_nums s
      → (p : ℕ) × (p < partition_num)
        × (sockets p ≡ s)
        × (count sockets s p ≡ i)
        × (list_partitions sockets partition_num blank_lists s i ≡ p)
  unfolding list_partitions
  at_place s i lt i_lt =
      let (p, p_lt, e, c) = count-onto sockets s partition_num i (omega (arith, num-count s lt)) in
      let at = listed_at sockets blank_lists partition_num p p_lt in
      (p, p_lt, e, c, rw (← c, ← e) at)

  -- For one or more sockets: each partition is in the list of its socket, the lists hold no
  -- others, each list ascends, and its length is the number counted for the socket.
  pub list_partitions-IsListed :
      IsListed socket_num partition_num (assign_sockets socket_num partition_num blank zeros) (
        list_partitions
          (assign_sockets socket_num partition_num blank zeros).partition_socket
          partition_num
          blank_lists)
  unfolding list_partitions
  list_partitions-IsListed = record {
    socket_lt = below;
    listed_once = λ p lt. (
      count sockets (sockets p) p,
      omega (arith, num-count (sockets p) (below p lt), count-lt sockets partition_num p lt),
      listed_at sockets blank_lists partition_num p lt,
    );
    own = λ s i lt i_lt. let (p, p_lt, e, c, at) = at_place s i lt i_lt in rw at (p_lt, e);
    ascending = λ s i j lt less j_lt.
        let (p, p_lt, e, c, at) = at_place s i lt (omega arith) in
        let (q, q_lt, e', c', at') = at_place s j lt j_lt in
        rw (at, at') (ground (arith, count_mono sockets s q p, c, c'));
  }
    where
      below : (p : ℕ) → p < partition_num → sockets p < socket_num
      below p lt =
          rw ((assigned_lem socket_num pos blank zeros partition_num).0 p lt)
            (socket_of-lt socket_num p pos)

-- ===== src/Graph/Query/Answers.antt =====
-- src/core/graph.hpp, has_neighbor: the answer is that of the lists.
use flashmob.Prelude.{
  ℕ, ◌+◌, ◌-◌, ◌^◌, ◌≤◌, ◌<◌, ◌≡◌, ◌≢◌, ◌↔◌, ◌⊎◌, inl, inr, refl, sym, ◌∙◌, subst, arith, Bool,
  true, if◌then◌else◌, some, Bool-cases,
}
use Prim.Native.Nat.{◌/◌}
use flashmob.Prelude.Loops.{for_range, for_range_set, for_range_keeps}
use native.Mathlib.Decide.{ℕ_discrete}
use flashmob.Bloom.{BloomFilter, insert, exist}
use flashmob.Bloom.Member.{exist-insert, exist-insert_self}
use flashmob.Bloom.Capacity.{create-some}
use flashmob.Sampler.{Adjacency, IsNeighbor}
use flashmob.Graph.Query.{
  Queried, sort_list, sort_partition, insert_list, insert_partition, prepare_neighbor_query,
  has_neighbor,
}

-- One of n entries from `begin` is x.
pub record HasEntry (a : ℕ → ℕ) (begin n x : ℕ) : Type 0 where
  pub place : ℕ
  pub place_lt : place < n
  pub entry : a (begin + place) ≡ x

abbrev pub IsAscending : (ℕ → ℕ) → ℕ → ℕ → Type 0
IsAscending a begin n = (i j : ℕ) → i ≤ j → j < n → a (begin + i) ≤ a (begin + j)

-- std::sort puts the entries of its range, fewer than 2 ^ 32, in ascending order and touches no
-- others.
pub record IsSort (sort : (ℕ → ℕ) → ℕ → ℕ → ℕ → ℕ) : Type 0 where
  pub ascending : (a : ℕ → ℕ) (begin n : ℕ) → n < 2 ^ 32 → IsAscending (sort a begin n) begin n
  pub keeps :
      (a : ℕ → ℕ) (begin n x : ℕ)
      → n < 2 ^ 32
      → HasEntry a begin n x
      → HasEntry (sort a begin n) begin n x
  pub adds_none :
      (a : ℕ → ℕ) (begin n x : ℕ)
      → n < 2 ^ 32
      → HasEntry (sort a begin n) begin n x
      → HasEntry a begin n x
  pub outside : (a : ℕ → ℕ) (begin n i : ℕ) → (i < begin) ⊎ (begin + n ≤ i) → sort a begin n i ≡ a i

-- std::binary_search finds just the entries of a range in ascending order.
pub record IsSearch (search : (ℕ → ℕ) → ℕ → ℕ → ℕ → Bool) : Type 0 where
  pub finds :
      (a : ℕ → ℕ) (begin n x : ℕ)
      → IsAscending a begin n
      → HasEntry a begin n x
      → search a begin n x ≡ true
  pub found :
      (a : ℕ → ℕ) (begin n x : ℕ)
      → IsAscending a begin n
      → search a begin n x ≡ true
      → HasEntry a begin n x

-- The lists of two vertices lie apart, with 32-bit degrees.
pub record IsApart (g : Adjacency) : Type 0 where
  pub degree_small : (v : ℕ) → (g.adjlists v).degree < 2 ^ 32
  pub apart :
      (v w : ℕ)
      → v ≢ w
      → ((g.adjlists v).begin + (g.adjlists v).degree ≤ (g.adjlists w).begin)
        ⊎ ((g.adjlists w).begin + (g.adjlists w).degree ≤ (g.adjlists v).begin)

module _ {sort : (ℕ → ℕ) → ℕ → ℕ → ℕ → ℕ} (is_sort : IsSort sort) (g : Adjacency)
    (lists : IsApart g) (pb pe : ℕ → ℕ) (pn v : ℕ) where
  abbrev b : ℕ
  b = (g.adjlists v).begin

  abbrev d : ℕ
  d = (g.adjlists v).degree

  -- Sorting another list leaves this one.
  other_list :
      (u i : ℕ) (a : ℕ → ℕ) → u ≢ v → i < d → sort_list sort g pb pe pn u a (b + i) ≡ a (b + i)
  unfolding sort_list
  other_list u i a ne lt =
      is_sort.outside a (g.adjlists u).begin (g.adjlists u).degree (b + i)
        (ground (arith, lists.apart u v ne))

  sort_list-IsAscending :
      (u : ℕ) (a : ℕ → ℕ) → IsAscending a b d → IsAscending (sort_list sort g pb pe pn u a) b d
  unfolding sort_list
  sort_list-IsAscending u a h i j le lt = elim (ℕ_discrete u v) [
    | yes at ↦ rw at (is_sort.ascending a b d (lists.degree_small v) i j le lt)
    | no ne ↦ omega (arith, other_list u i a ne (omega arith), other_list u j a ne lt, h i j le lt)
  ]

  -- The entries are those of the list at first.
  record Same (a : ℕ → ℕ) : Type 0 where
    pub keeps : (x : ℕ) → HasEntry g.neighbor b d x → HasEntry a b d x
    pub adds_none : (x : ℕ) → HasEntry a b d x → HasEntry g.neighbor b d x

  sort_list-Same : (u : ℕ) (a : ℕ → ℕ) → Same a → Same (sort_list sort g pb pe pn u a)
  unfolding sort_list
  sort_list-Same u a h = elim (ℕ_discrete u v) [
    | yes at ↦ subst (λ x. Same (sort_list sort g pb pe pn x a)) (sym at) own
    | no ne ↦ record {
      keeps = λ x e.
          let f = h.keeps x e in
          record {
            place = f.place;
            place_lt = f.place_lt;
            entry = other_list u f.place a ne f.place_lt ∙ f.entry;
          };
      adds_none = λ x f. h.adds_none x (record {
        place = f.place;
        place_lt = f.place_lt;
        entry = sym (other_list u f.place a ne f.place_lt) ∙ f.entry;
      });
    }
  ]
    where
      own : Same (sort_list sort g pb pe pn v a)
      own = record {
        keeps = λ x e. is_sort.keeps a b d x (lists.degree_small v) (h.keeps x e);
        adds_none = λ x e. h.adds_none x (is_sort.adds_none a b d x (lists.degree_small v) e);
      }

  abbrev sorted : ℕ → ℕ
  sorted = for_range 0 pn (sort_partition sort g pb pe pn) g.neighbor

  sorted-Same : Same sorted
  unfolding sort_partition
  sorted-Same =
      for_range_keeps Same 0 pn (sort_partition sort g pb pe pn) g.neighbor
        (λ i a h. for_range_keeps Same _ _ (sort_list sort g pb pe pn) a sort_list-Same h)
        (record { keeps = λ x e. e; adds_none = λ x e. e })

  module _ (p : ℕ) (p_lt : p < pn) (from : pb p ≤ v) (below : v < pe p) where
    sorted-IsAscending : IsAscending sorted b d
    unfolding sort_partition sort_list
    sorted-IsAscending =
        for_range_set (λ a. IsAscending a b d) 0 pn (sort_partition sort g pb pe pn) g.neighbor
          (λ i a h.
            for_range_keeps (λ t. IsAscending t b d) _ _ (sort_list sort g pb pe pn) a
              sort_list-IsAscending h)
          p (omega arith) (omega arith)
          (λ a.
            for_range_set (λ t. IsAscending t b d) (pb p) (pe p - pb p) (sort_list sort g pb pe pn)
              a sort_list-IsAscending v from (omega arith)
              (λ t. is_sort.ascending t b d (lists.degree_small v)))

    module _ (neighbor : ℕ → ℕ) (i : ℕ) (i_lt : i < d) where
      abbrev Found : BloomFilter → Type 0
      Found bf = exist v (neighbor (b + i)) bf ≡ true

      insert_list-Found :
          (u : ℕ) (bf : BloomFilter) → Found bf → Found (insert_list sort g pb pe pn neighbor u bf)
      unfolding insert_list
      insert_list-Found u bf h =
          for_range_keeps Found 0 _ _ bf
            (λ e t k. exist-insert v (neighbor (b + i)) u (neighbor ((g.adjlists u).begin + e)) t k)
            h

      inserted-Found :
          (bf : BloomFilter) → Found (for_range 0 pn (insert_partition sort g pb pe pn neighbor) bf)
      unfolding insert_partition insert_list
      inserted-Found bf =
          for_range_set Found 0 pn (insert_partition sort g pb pe pn neighbor) bf
            (λ q t h.
              for_range_keeps Found _ _ (insert_list sort g pb pe pn neighbor) t insert_list-Found
                h)
            p (omega arith) (omega arith)
            (λ t.
              for_range_set Found (pb p) (pe p - pb p) (insert_list sort g pb pe pn neighbor) t
                insert_list-Found v from (omega arith)
                (λ c.
                  for_range_set Found 0 d (λ e. insert v (neighbor (b + e))) c
                    (λ e x k. exist-insert v (neighbor (b + i)) v (neighbor (b + e)) x k) i
                    (omega arith) (omega arith) (λ x. exist-insert_self v (neighbor (b + i)) x)))

    module _ {search : (ℕ → ℕ) → ℕ → ℕ → ℕ → Bool} (is_search : IsSearch search) (bf : BloomFilter)
        (w : ℕ) where
      abbrev queried : Queried
      queried = record {
        neighbor = sorted;
        bf = for_range 0 pn (insert_partition sort g pb pe pn sorted) bf;
      }

      has_neighbor_sound : has_neighbor search g queried v w ≡ true → IsNeighbor g v w
      unfolding has_neighbor
      has_neighbor_sound h = elim (Bool-cases (exist v w queried.bf)) [
        | inr e ↦ absurd (ground (arith, e, h))
        | inl e ↦
            let f = is_search.found sorted b d w sorted-IsAscending (ground (arith, e, h)) in
            let o = sorted-Same.adds_none w f in
            record { place = o.place; in_list = o.place_lt; target = sym o.entry }
      ]

      has_neighbor_complete : IsNeighbor g v w → has_neighbor search g queried v w ≡ true
      unfolding has_neighbor
      has_neighbor_complete h =
          let f =
            sorted-Same.keeps w
              (record { place = h.place; place_lt = h.in_list; entry = sym h.target }) in
          let there : exist v w queried.bf ≡ true =
            subst (λ x. exist v x queried.bf ≡ true) f.entry
              (inserted-Found sorted f.place f.place_lt bf) in
          rw there (is_search.finds sorted b d w sorted-IsAscending f)

-- For std::sort and std::binary_search as documented, lists that lie apart with 32-bit degrees,
-- and a number of edges in 64 bits: prepare_neighbor_query succeeds, and after it, for every
-- vertex of a partition, has_neighbor answers true just for the neighbours that the vertex had
-- before.
pub has_neighbor-IsNeighbor :
    {sort : (ℕ → ℕ) → ℕ → ℕ → ℕ → ℕ} {search : (ℕ → ℕ) → ℕ → ℕ → ℕ → Bool} (is_sort : IsSort sort)
    (is_search : IsSearch search) (g : Adjacency) (partition_begin partition_end : ℕ → ℕ)
    (partition_num : ℕ) (as_undirected : Bool) (e_num : ℕ) (blank : ℕ → ℕ)
    → IsApart g
    → e_num < 2 ^ 64
    → (q : Queried) × (prepare_neighbor_query sort g partition_begin partition_end partition_num
          as_undirected e_num blank
        ≡ some q)
      × ((p v w : ℕ)
          → p < partition_num
          → partition_begin p ≤ v
          → v < partition_end p
          → (has_neighbor search g q v w ≡ true) ↔ IsNeighbor g v w)
unfolding prepare_neighbor_query
has_neighbor-IsNeighbor {sort = sort} is_sort is_search g pb pe pn u e_num blank lists small =
    let (bf, made) = create-some (if u then e_num / 2 else e_num) blank (ground arith) in
    (
      record {
        neighbor = for_range 0 pn (sort_partition sort g pb pe pn) g.neighbor;
        bf =
            for_range 0 pn
              (insert_partition sort g pb pe pn
                (for_range 0 pn (sort_partition sort g pb pe pn) g.neighbor))
              bf;
      },
      rw made refl,
      λ p v w lt from below. (
        has_neighbor_sound is_sort g lists pb pe pn v p lt from below is_search bf w,
        has_neighbor_complete is_sort g lists pb pe pn v p lt from below is_search bf w,
      ),
    )

-- ===== src/Sampler/Manager/Chosen.antt =====
-- src/core/sampler.hpp, SamplerManager::init: each partition gets a sampler that serves it.
use flashmob.Prelude.{
  ℕ, zero, suc, ◌≤◌, ◌<◌, ◌≡◌, ◌≢◌, refl, sym, arith, ◌==◌, true, false, Bool, Option, none, some,
  ◌>>=◌, Bool-cases, inl, inr, write_self, write_ne, lt_suc-cases,
}
use native.Mathlib.Decide.{ℕ_discrete}
use flashmob.Prelude.Words.{sub32}
use flashmob.Sampler.{Adjacency, init_buffer, init_uniform}
use flashmob.Sampler.Init.{Fits, init_buffer_lem, init_range}
use flashmob.Sampler.Similar.{
  AdjHint, SimilarDegreeDirectSampler, max_hint_num, is_valid, fill_hints,
}
use flashmob.Sampler.Similar.Direct.{init_similar-some}
use flashmob.Sampler.Similar.Room.{fill_hints-hint_num}
use flashmob.Sampler.Dispatch.{Sampler, exclusive, direct, uniform, similar, Serves}
use flashmob.Sampler.Manager.Laid.{IsLaid, dense, descends, is_uniform}
use flashmob.Sampler.Manager.{
  Parts, Samplers, new_sampler, init_one, init_loop, init_samplers, clear_sampler, clear_samplers,
}

-- Each of the partitions is laid, and one with a buffer sampler fits it.
pub record IsPrepared (g : Adjacency) (parts : Parts) (partition_num : ℕ) : Type 0 where
  pub laid :
      (p : ℕ)
      → p < partition_num
      → IsLaid g
          (parts.partition_begin p)
          (parts.partition_end p)
          (parts.partition_min_degree p)
          (parts.partition_max_degree p)
  pub fits :
      (p : ℕ)
      → p < partition_num
      → parts.is_exclusive p ≡ true
      → Fits g (parts.partition_begin p) (parts.partition_end p)

abbrev stop {ℓ κ} : {A : Type ℓ} {B : Type κ} → A → Option B
stop a = none

bind_none {ℓ κ} : {A : Type ℓ} {B : Type κ} (o : Option A) → (o >>= stop {B = B}) ≡ none
bind_none none = refl
bind_none (some a) = refl

-- A similar-degree sampler stops the program.
clear_samplers-stops :
    (n : ℕ) (samplers : ℕ → Sampler) (p : ℕ) (s : SimilarDegreeDirectSampler)
    → p < n
    → samplers p ≡ similar s
    → clear_samplers n samplers ≡ none
unfolding clear_samplers clear_sampler
clear_samplers-stops zero samplers p s lt e = absurd (omega arith)
clear_samplers-stops (suc n) samplers p s lt e = elim (lt_suc-cases p n lt) [
  | inl at ↦ rw (sym at, e) (bind_none (clear_samplers p samplers))
  | inr less ↦ rw (clear_samplers-stops n samplers p s less e) refl
]

-- What `valid` is asked of a partition.
abbrev pub is_similar : Parts → ℕ → ℕ → Bool
is_similar parts l2_cache_size p =
    is_valid (parts.partition_max_degree p) (parts.partition_min_degree p)
      (parts.partition_edge_num p) (sub32 (parts.partition_end p) (parts.partition_begin p))
      l2_cache_size

-- The class of a partition's sampler: a buffer where the plan has one; else the uniform one where
-- all vertices have one degree; else the one with hints, which fit in their array, where `valid`
-- accepts the partition; else the direct one.
abbrev pub IsChosen : Adjacency → ℕ → Parts → ℕ → Sampler → Type 0
IsChosen g l2_cache_size parts p (exclusive s) = parts.is_exclusive p ≡ true
IsChosen g l2_cache_size parts p (uniform s) =
    (parts.is_exclusive p ≡ false)
    × (parts.partition_min_degree p ≡ parts.partition_max_degree p)
    × ((v : ℕ)
        → parts.partition_begin p ≤ v
        → v < parts.partition_end p
        → (g.adjlists v).degree ≡ (g.adjlists (parts.partition_begin p)).degree)
IsChosen g l2_cache_size parts p (similar s) =
    (parts.is_exclusive p ≡ false)
    × (parts.partition_min_degree p ≢ parts.partition_max_degree p)
    × (is_similar parts l2_cache_size p ≡ true)
    × (s.hint_num ≤ max_hint_num)
IsChosen g l2_cache_size parts p direct =
    (parts.is_exclusive p ≡ false)
    × (parts.partition_min_degree p ≢ parts.partition_max_degree p)
    × (is_similar parts l2_cache_size p ≡ false)

module _ (g : Adjacency) (l2_cache_size : ℕ) (blank : ℕ → ℕ) (blank_hints : ℕ → AdjHint)
    (parts : Parts) (partition_num : ℕ) (prepared : IsPrepared g parts partition_num) where
  -- The sampler that `init` makes for a partition is the one chosen, and serves its vertices.
  record IsMade (p : ℕ) (t : Sampler) : Type 0 where
    pub made : new_sampler g l2_cache_size blank blank_hints parts p ≡ some t
    pub chosen : IsChosen g l2_cache_size parts p t
    pub serves : Serves g t (parts.partition_begin p) (parts.partition_end p)

  different :
      (p : ℕ)
      → p < partition_num
      → parts.is_exclusive p ≡ false
      → parts.partition_min_degree p ≢ parts.partition_max_degree p
      → (t : Sampler) × IsMade p t
  unfolding new_sampler
  different p lt e ne = elim (Bool-cases (is_similar parts l2_cache_size p)) [
    | inl valid ↦
        let l = prepared.laid p lt in
        let lo = parts.partition_begin p in
        let hi = parts.partition_end p in
        let d = descends g lo hi _ _ l in
        let at =
          init_similar-some g lo hi _ _ l2_cache_size (parts.partition_edge_num p) blank_hints
            (dense g lo hi _ _ l ne) d l.ordered valid in
        (
          similar (fill_hints g lo hi blank_hints),
          record {
            made = rw (e, apart, valid, at, new_sampler) refl;
            chosen = (
              e,
              ne,
              valid,
              fill_hints-hint_num g lo hi _ _ d l2_cache_size (parts.partition_edge_num p)
                  blank_hints valid,
            );
            serves = (dense g lo hi _ _ l ne, (blank_hints, at));
          },
        )
    | inr other ↦ (
      direct,
      record {
        made = rw (e, apart, other, new_sampler) refl;
        chosen = (e, ne, other);
        serves = tt;
      },
    )
  ]
    where
      apart : (parts.partition_min_degree p == parts.partition_max_degree p) ≡ false
      apart = ground arith

  new_sampler-IsMade : (p : ℕ) → p < partition_num → (t : Sampler) × IsMade p t
  unfolding new_sampler
  new_sampler-IsMade p lt = elim (Bool-cases (parts.is_exclusive p)) [
    | inl e ↦
        let f = prepared.fits p lt e in
        let (first, last) =
          init_range g (parts.partition_begin p) (parts.partition_end p) blank f in
        (
          exclusive (init_buffer g (parts.partition_begin p) (parts.partition_end p) blank),
          record {
            made = rw (e, new_sampler) refl;
            chosen = e;
            serves = (
              init_buffer_lem g (parts.partition_begin p) (parts.partition_end p) blank f,
              first,
              last,
            );
          },
        )
    | inr e ↦ elim (ℕ_discrete (parts.partition_min_degree p) (parts.partition_max_degree p)) [
      | no ne ↦ different p lt e ne
      | yes same ↦
          let at : (parts.partition_min_degree p == parts.partition_max_degree p) ≡ true =
            ground arith in
          let u = is_uniform g _ _ _ _ (prepared.laid p lt) same in
          (
            uniform (init_uniform g (parts.partition_begin p) (parts.partition_end p)),
            record {
              made = rw (e, at, new_sampler) refl;
              chosen = (e, same, u.same);
              serves = (u, refl);
            },
          )
    ]
  ]

  loop_lem :
      (n : ℕ) (s : Samplers g l2_cache_size blank blank_hints)
      → n ≤ partition_num
      → (s' : Samplers g l2_cache_size blank blank_hints) × (init_loop g l2_cache_size blank
            blank_hints parts n s
          ≡ some s')
        × ((p : ℕ) → p < n → IsMade p (s'.samplers p))
  unfolding init_loop init_one
  loop_lem zero s le = (s, refl, λ p lt. absurd (omega arith))
  loop_lem (suc n) s le =
      let (s', e, before) = loop_lem n s (omega arith) in
      let (t, m) = new_sampler-IsMade n (omega arith) in
      (
        init_one g l2_cache_size blank blank_hints n t s',
        rw (e, m.made, init_loop) refl,
        λ p lt. elim (lt_suc-cases p n lt) [
          | inl at ↦ rw (at, write_self) m
          | inr less ↦ rw (write_ne s'.samplers n t p (omega arith)) (before p less)
        ],
      )

  -- For partitions as `IsPrepared` says: `init` succeeds, no hint being written outside of its
  -- array. The sampler of each partition is of the class that `IsChosen` names: with buffers where
  -- the plan says so; else uniform, where all vertices have one degree; else with at most 8 hints,
  -- where `valid` accepts it; else direct. And it serves the vertices of the partition.
  pub init_samplers-Serves :
      (old : ℕ → Sampler)
      → (s : Samplers g l2_cache_size blank blank_hints) × (init_samplers g l2_cache_size blank
            blank_hints parts partition_num old
          ≡ some s)
        × ((p : ℕ)
            → p < partition_num
            → IsChosen g l2_cache_size parts p (s.samplers p)
              × Serves g (s.samplers p) (parts.partition_begin p) (parts.partition_end p))
  unfolding init_samplers
  init_samplers-Serves old =
      let (s, e, made) = loop_lem partition_num _ (omega arith) in
      (s, e, λ p lt. ((made p lt).chosen, (made p lt).serves))

  -- A partition for which `valid` is asked, and which it accepts, gets the sampler with hints.
  similar_there :
      (p : ℕ) (t : Sampler)
      → parts.is_exclusive p ≡ false
      → parts.partition_min_degree p ≢ parts.partition_max_degree p
      → is_similar parts l2_cache_size p ≡ true
      → IsMade p t
      → (s : SimilarDegreeDirectSampler) × (t ≡ similar s)
  similar_there p (exclusive s) e ne valid m = absurd (ground (arith, m.chosen, e))
  similar_there p direct e ne valid m = absurd (ground (arith, m.chosen, valid))
  similar_there p (similar s) e ne valid m = (s, refl)
  similar_there p (uniform s) e ne valid m = absurd (ne m.chosen.1)

  -- For partitions as `IsPrepared` says, one of which is not for buffers, has vertices of
  -- different degrees, and passes `valid`: `init` succeeds, and `clear` after it stops at
  -- CHECK(false).
  pub clear-init_samplers :
      (old : ℕ → Sampler) (p : ℕ)
      → p < partition_num
      → parts.is_exclusive p ≡ false
      → parts.partition_min_degree p ≢ parts.partition_max_degree p
      → is_similar parts l2_cache_size p ≡ true
      → (s : Samplers g l2_cache_size blank blank_hints) × (init_samplers g l2_cache_size blank
            blank_hints parts partition_num old
          ≡ some s)
        × (clear_samplers partition_num s.samplers ≡ none)
  unfolding init_samplers
  clear-init_samplers old p lt not_exclusive ne valid =
      let (s, e, made) = loop_lem partition_num _ (omega arith) in
      let (t, at) = similar_there p (s.samplers p) not_exclusive ne valid (made p lt) in
      (s, e, clear_samplers-stops partition_num s.samplers p t lt at)

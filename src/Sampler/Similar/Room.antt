-- ===== src/Sampler/Similar/Room.antt =====
-- src/core/sampler.hpp, SimilarDegreeDirectSampler: the array of hints is large enough.
use flashmob.Prelude.{ℕ, suc, ◌+◌, ◌-◌, ◌^◌, ◌≤◌, ◌<◌, ◌≡◌, refl, subst, arith, true}
use flashmob.Prelude.Loops.{for_range_inv}
use native.Mathlib.Decide.{ℕ_discrete}
use flashmob.Prelude.Words.{add32, sub32}
use flashmob.Sampler.{Adjacency}
use flashmob.Sampler.Similar.{
  AdjHint, max_hint_num, is_valid, Hinting, hint_one, hint_loop, fill_hints,
}

-- A partition whose degrees descend from `high`, none below `low`.
pub record Descends (g : Adjacency) (lo hi low high : ℕ) : Type 0 where
  pub ordered : lo ≤ hi
  pub descending :
      (v : ℕ) → lo ≤ v → suc v < hi → (g.adjlists (suc v)).degree ≤ (g.adjlists v).degree
  pub from_low : (v : ℕ) → lo ≤ v → v < hi → low ≤ (g.adjlists v).degree
  pub to_high : (v : ℕ) → lo ≤ v → v < hi → (g.adjlists v).degree ≤ high
  pub high_small : high + 1 < 2 ^ 32

module _ (g : Adjacency) (lo hi low high : ℕ) (d : Descends g lo hi low high) where
  -- After k vertices: at most a hint for each degree from the current one up.
  record IsFew (k : ℕ) (s : Hinting) : Type 0 where
    pub first : k ≡ 0 → (s.hint_num ≡ 0) × (s.current_degree ≡ 0)
    pub few : 0 < k → s.hint_num + s.current_degree ≤ high + 1
    pub current : 0 < k → s.current_degree ≡ (g.adjlists (lo + (k - 1))).degree

  before :
      (k : ℕ)
      → 0 < k
      → k < hi - lo
      → (g.adjlists (lo + k)).degree ≤ (g.adjlists (lo + (k - 1))).degree
  before k pos lt =
      let e : suc (lo + (k - 1)) ≡ lo + k = omega arith in
      subst (λ x. (g.adjlists x).degree ≤ (g.adjlists (lo + (k - 1))).degree) e
        (d.descending (lo + (k - 1)) (omega arith) (omega arith))

  hint_one-IsFew :
      (k : ℕ) (s : Hinting) → k < hi - lo → IsFew k s → IsFew (suc k) (hint_one g (lo + k) s)
  unfolding hint_one add32
  hint_one-IsFew k s lt i =
      let top = d.to_high (lo + k) (omega arith) (omega arith) in
      let small = d.high_small in
      let back : lo + (suc k - 1) ≡ lo + k = omega arith in
      record {
        first = λ e. absurd (omega arith);
        few = λ pos. elim (ℕ_discrete k 0) [
          | yes e ↦ ground (arith, i.first e, top, small)
          | no ne ↦ ground (
            arith,
            i.few (omega arith),
            i.current (omega arith),
            before k (omega arith) lt,
            top,
            small,
          )
        ];
        current = λ pos. rw back (ground arith);
      }

  valid_few :
      (l2_cache_size partition_edge_num : ℕ)
      → low ≤ high
      → is_valid high low partition_edge_num (sub32 hi lo) l2_cache_size ≡ true
      → high + 1 ≤ low + 8
  unfolding is_valid add32 sub32
  valid_few l2 edges le valid = ground (arith, d.high_small)

  -- For a partition by descending degree, between the bounds that `valid` accepts: `init` makes at
  -- most as many hints as the array has.
  pub fill_hints-hint_num :
      (l2_cache_size partition_edge_num : ℕ) (hints : ℕ → AdjHint)
      → is_valid high low partition_edge_num (sub32 hi lo) l2_cache_size ≡ true
      → (fill_hints g lo hi hints).hint_num ≤ max_hint_num
  unfolding fill_hints hint_loop
  fill_hints-hint_num l2 edges hints valid =
      let i =
        for_range_inv IsFew lo (hi - lo) (hint_one g)
          (record { current_degree = 0; hint_num = 0; hints = hints }) hint_one-IsFew
          (record {
            first = λ e. (refl, refl);
            few = λ pos. absurd (omega arith);
            current = λ pos. absurd (omega arith);
          }) in
      elim (ℕ_discrete (hi - lo) 0) [
        | yes e ↦ omega (arith, i.first e)
        | no ne ↦
            let last = d.from_low (lo + (hi - lo - 1)) (omega arith) (omega arith) in
            let top = d.to_high (lo + (hi - lo - 1)) (omega arith) (omega arith) in
            let few = valid_few l2 edges (omega arith) valid in
            omega (arith, i.few (omega arith), i.current (omega arith))
      ]

-- ===== src/Sampler/Similar/Direct.antt =====
-- src/core/sampler.hpp, SimilarDegreeDirectSampler::sample, against the direct sampler.
use flashmob.Prelude.{
  ℕ, zero, suc, ◌+◌, ◌-◌, ◌*◌, ◌^◌, ◌≤◌, ◌<◌, ◌≡◌, refl, sym, subst, arith, ltb, true, false, ◌==◌,
  some, Bool-cases, inl, inr,
}
use native.Mathlib.Nat.{add_assoc}
use native.Mathlib.Decide.{dec_lt}
use flashmob.Prelude.Words.{u32, sub32, sub32_small}
use flashmob.Sampler.{Adjacency, sample_direct}
use flashmob.Sampler.Buffer.{IsGen}
use flashmob.Sampler.Similar.{
  AdjHint, SimilarDegreeDirectSampler, max_hint_num, is_valid, fill_hints, init_similar,
  sample_hints, sample_similar,
}
use flashmob.Sampler.Similar.Runs.{IsDense, IsRun, IsHinted}
use flashmob.Sampler.Similar.Steps.{fill_hints-IsHinted}
use flashmob.Sampler.Similar.Room.{Descends, fill_hints-hint_num}

in_rows : (i n d k : ℕ) → i < n → k < d → i * d + k < n * d
in_rows i n d k h lt = grind arith

module _ {ℓ} {R : Type ℓ} {gen : ℕ → R → ℕ × R} (is_gen : IsGen gen) (g : Adjacency) (lo hi : ℕ)
    (d : IsDense g lo hi) where
  -- What a hint whose run holds the vertex gives.
  sample_run :
      (h : AdjHint) (v : ℕ) (r : R)
      → IsRun g h
      → lo ≤ h.vertex_begin
      → h.vertex_begin ≤ v
      → v < h.vertex_end
      → v < hi
      → 0 < (g.adjlists v).degree
      → (
        g.neighbor (h.edge_begin + u32 (sub32 v h.vertex_begin * h.degree + (gen h.degree r).0)),
        (gen h.degree r).1,
      )
        ≡ sample_direct gen g v r
  unfolding sample_direct
  sample_run h v r run low from below last pos =
      let deg = run.degrees v from below in
      let k_lt : (gen h.degree r).0 < h.degree = is_gen.below _ r (omega (arith, deg, pos)) in
      let index : sub32 v h.vertex_begin ≡ v - h.vertex_begin =
        sub32_small v h.vertex_begin from (omega (arith, d.bounded)) in
      let room : (hi - lo) * h.degree < 2 ^ 32 =
        subst (λ x. (hi - lo) * x < 2 ^ 32) deg (d.small v (omega arith) last) in
      let fits : u32 ((v - h.vertex_begin) * h.degree + (gen h.degree r).0)
          ≡ (v - h.vertex_begin) * h.degree + (gen h.degree r).0 =
        omega (
          arith,
          in_rows (v - h.vertex_begin) (hi - lo) h.degree (gen h.degree r).0 (omega arith) k_lt,
          room,
        ) in
      rw (index, fits, deg, run.begins v from below, add_assoc) refl

  sample_hints-eq-direct :
      (num : ℕ) (hints : ℕ → AdjHint) (rounds h_i v : ℕ) (r : R)
      → IsHinted g lo hi num hints
      → h_i + suc rounds ≡ num
      → (hints h_i).vertex_begin ≤ v
      → v < hi
      → 0 < (g.adjlists v).degree
      → sample_hints gen g hints (suc rounds) h_i v r ≡ sample_direct gen g v r
  unfolding sample_hints
  sample_hints-eq-direct num hints zero h_i v r k e from below pos =
      let last : num - 1 ≡ h_i = omega (arith, e) in
      let end_is : (hints h_i).vertex_end ≡ hi =
        subst (λ i. (hints i).vertex_end ≡ hi) last k.final in
      let inside : ltb v (hints h_i).vertex_end ≡ true = ground (arith, end_is, below) in
      rw inside (
        sample_run (hints h_i) v r (k.runs h_i (omega arith)) (k.from h_i (omega arith)) from
          (omega arith) below pos)
  sample_hints-eq-direct num hints (suc rounds) h_i v r k e from below pos =
      elim (dec_lt v (hints h_i).vertex_end) [
        | yes here ↦
            let inside : ltb v (hints h_i).vertex_end ≡ true = ground arith in
            rw inside (
              sample_run (hints h_i) v r (k.runs h_i (omega arith)) (k.from h_i (omega arith)) from
                here below pos)
        | no later ↦
            let outside : ltb v (hints h_i).vertex_end ≡ false = ground arith in
            rw outside (
              sample_hints-eq-direct num hints rounds (suc h_i) v r k (omega arith)
                (omega (arith, k.next h_i (omega arith))) below pos)
      ]

pub fill_hints-eq-direct {ℓ} :
    {R : Type ℓ} {gen : ℕ → R → ℕ × R} (is_gen : IsGen gen) (g : Adjacency) (lo hi v : ℕ)
    (hints : ℕ → AdjHint) (r : R)
    → IsDense g lo hi
    → lo ≤ v
    → v < hi
    → 0 < (g.adjlists v).degree
    → sample_similar gen g (fill_hints g lo hi hints) v r ≡ sample_direct gen g v r
unfolding sample_similar
fill_hints-eq-direct {gen = gen} is_gen g lo hi v hints r d from below pos =
    let (some_hint, k) = fill_hints-IsHinted g lo hi d hints (omega arith) in
    let s = fill_hints g lo hi hints in
    let rounds : s.hint_num ≡ suc (s.hint_num - 1) = omega (arith, some_hint) in
    subst (λ n. sample_hints gen g s.hints n 0 v r ≡ sample_direct gen g v r) (sym rounds)
      (sample_hints-eq-direct is_gen g lo hi d s.hint_num s.hints (s.hint_num - 1) 0 v r k
        (omega (arith, rounds)) (omega (arith, k.first)) below pos)

pub init_similar-fills :
    (g : Adjacency) (lo hi : ℕ) (hints : ℕ → AdjHint) (s : SimilarDegreeDirectSampler)
    → init_similar g lo hi hints ≡ some s
    → s ≡ fill_hints g lo hi hints
unfolding init_similar
init_similar-fills g lo hi hints s e =
    elim (Bool-cases ((fill_hints g lo hi hints).hint_num == 0)) [
      | inl none_there ↦ absurd (ground arith)
      | inr some_there ↦ elim (Bool-cases (ltb max_hint_num (fill_hints g lo hi hints).hint_num)) [
        | inl over ↦ absurd (ground arith)
        | inr fits ↦ ground arith
      ]
    ]

-- `init` stays in its array on a partition that `valid` accepts.
pub init_similar-some :
    (g : Adjacency) (lo hi low high l2_cache_size partition_edge_num : ℕ) (hints : ℕ → AdjHint)
    → IsDense g lo hi
    → Descends g lo hi low high
    → lo < hi
    → is_valid high low partition_edge_num (sub32 hi lo) l2_cache_size ≡ true
    → init_similar g lo hi hints ≡ some (fill_hints g lo hi hints)
unfolding init_similar
init_similar-some g lo hi low high l2 edges hints d k lt valid =
    let (pos, _) = fill_hints-IsHinted g lo hi d hints lt in
    let few = fill_hints-hint_num g lo hi low high k l2 edges hints valid in
    let there : ((fill_hints g lo hi hints).hint_num == 0) ≡ false = ground arith in
    let fits : ltb max_hint_num (fill_hints g lo hi hints).hint_num ≡ false = ground arith in
    rw (there, fits) refl

-- With a generator that stays below its bound: on a partition with vertices by descending degree
-- that `valid` accepts, whose lists lie behind one another, the first not empty, within 32-bit
-- indices, `init` succeeds with hints that fit in the array, and a sample of the sampler from any
-- vertex with edges is the sample of the direct one.
pub sample_similar-eq-direct {ℓ} :
    {R : Type ℓ} {gen : ℕ → R → ℕ × R} (is_gen : IsGen gen) (g : Adjacency)
    (lo hi low high l2_cache_size partition_edge_num : ℕ) (hints : ℕ → AdjHint)
    → IsDense g lo hi
    → Descends g lo hi low high
    → lo < hi
    → is_valid high low partition_edge_num (sub32 hi lo) l2_cache_size ≡ true
    → (s : SimilarDegreeDirectSampler) × (init_similar g lo hi hints ≡ some s)
      × (s.hint_num ≤ max_hint_num)
      × ((v : ℕ) (r : R)
          → lo ≤ v
          → v < hi
          → 0 < (g.adjlists v).degree
          → sample_similar gen g s v r ≡ sample_direct gen g v r)
sample_similar-eq-direct is_gen g lo hi low high l2 edges hints d k lt valid = (
  fill_hints g lo hi hints,
  init_similar-some g lo hi low high l2 edges hints d k lt valid,
  fill_hints-hint_num g lo hi low high k l2 edges hints valid,
  λ v r from below pos. fill_hints-eq-direct is_gen g lo hi v hints r d from below pos,
)

-- ===== src/Sampler/Dispatch.antt =====
-- SamplerManager (src/core/sampler.hpp): one sampler for each partition, behind the virtual
-- `sample`. The world of a walk is the samplers of all partitions and the generator.
use flashmob.Prelude.{some, ℕ, ◌≤◌, ◌<◌, ◌≡◌, sym, subst, arith, write, write_self, write_ne}
use native.Mathlib.Decide.{ℕ_discrete}
use flashmob.Sampler.{
  Adjacency, IsNeighbor, ExclusiveBufferSampler, sample_buffer, sample_direct,
  UniformDegreeDirectSampler, init_uniform, sample_uniform,
}
use flashmob.Sampler.Buffer.{IsGen, IsBuffer, InPart, sample_buffer_lem}
use flashmob.Sampler.Direct.{sample_direct-IsNeighbor, IsUniform, sample_uniform-eq-direct}
use flashmob.Sampler.Similar.{AdjHint, SimilarDegreeDirectSampler, init_similar, sample_similar}
use flashmob.Sampler.Similar.Runs.{IsDense}
use flashmob.Sampler.Similar.Direct.{fill_hints-eq-direct, init_similar-fills}
use flashmob.Walk.Blocks.{IsSampler}

-- The classes that implement `Sampler::sample` and that the partition plan chooses.
pub data Sampler : Type 0 where
  exclusive : ExclusiveBufferSampler → Sampler
  direct : Sampler
  uniform : UniformDegreeDirectSampler → Sampler
  similar : SimilarDegreeDirectSampler → Sampler

pub record World {ℓ} (R : Type ℓ) : Type ℓ where
  pub samplers : ℕ → Sampler
  pub rng : R

module _ {ℓ} {R : Type ℓ} (gen : ℕ → R → ℕ × R) (g : Adjacency) where
  -- sampler->sample(vertex, rd), and the sampler afterwards.
  pub sample : Sampler → ℕ → R → ℕ × Sampler × R
  sample (exclusive s) vertex rng =
      let (next, s', rng') = sample_buffer gen g vertex s rng in (next, exclusive s', rng')
  sample direct vertex rng =
      let (next, rng') = sample_direct gen g vertex rng in (next, direct, rng')
  sample (uniform s) vertex rng =
      let (next, rng') = sample_uniform gen g s vertex rng in (next, uniform s, rng')
  sample (similar s) vertex rng =
      let (next, rng') = sample_similar gen g s vertex rng in (next, similar s, rng')

  -- sm->samplers[p_i]->sample(vertex, rd)
  pub sample_partition : ℕ → ℕ → World R → ℕ × World R
  unfolding sample
  sample_partition p_i vertex w =
      let (next, s', rng') = sample (w.samplers p_i) vertex w.rng in
      (next, record { samplers = write w.samplers p_i s'; rng = rng' })

module _ (g : Adjacency) where
  -- The sampler is one for the vertices from `lo` to `hi`.
  abbrev pub Serves : Sampler → ℕ → ℕ → Type 0
  Serves (exclusive s) lo hi = IsBuffer g s × (s.vertex_begin ≡ lo) × (s.vertex_end ≡ hi)
  Serves direct lo hi = Unit
  Serves (uniform s) lo hi = IsUniform g lo hi × (s ≡ init_uniform g lo hi)
  Serves (similar s) lo hi =
      IsDense g lo hi × ((hints : ℕ → AdjHint) × (init_similar g lo hi hints ≡ some s))

module _ {ℓ} {R : Type ℓ} {gen : ℕ → R → ℕ × R} (is_gen : IsGen gen) (g : Adjacency) where
  pub sample-Serves :
      (s : Sampler) (lo hi v : ℕ) (r : R)
      → Serves g s lo hi
      → lo ≤ v
      → v < hi
      → 0 < (g.adjlists v).degree
      → IsNeighbor g v (sample gen g s v r).0 × Serves g (sample gen g s v r).1 lo hi
  unfolding sample
  sample-Serves (exclusive s) lo hi v r h from below pos =
      let in_part : InPart s v = (omega (arith, h.1), omega (arith, h.2)) in
      let (step, good, b, e) = sample_buffer_lem is_gen g s h.0 v in_part r in
      (step, (good, omega (arith, b, h.1), omega (arith, e, h.2)))
  sample-Serves direct lo hi v r h from below pos = (sample_direct-IsNeighbor is_gen g v r pos, tt)
  sample-Serves (uniform s) lo hi v r h from below pos = (
    subst (λ t. IsNeighbor g v (sample_uniform gen g t v r).0) (sym h.1)
        (subst (λ x. IsNeighbor g v x.0)
          (sym (sample_uniform-eq-direct is_gen g lo hi v r h.0 from below pos))
          (sample_direct-IsNeighbor is_gen g v r pos)),
    h,
  )
  sample-Serves (similar s) lo hi v r h from below pos = (
    subst (λ t. IsNeighbor g v (sample_similar gen g t v r).0)
        (sym (init_similar-fills g lo hi h.1.0 s h.1.1))
        (subst (λ x. IsNeighbor g v x.0)
          (sym (fill_hints-eq-direct is_gen g lo hi v h.1.0 r h.0 from below pos))
          (sample_direct-IsNeighbor is_gen g v r pos)),
    h,
  )

  module _ (first last : ℕ → ℕ) where
    -- Each partition has a sampler for its vertices.
    abbrev pub IsSound : World R → Type 0
    IsSound w = (p : ℕ) → Serves g (w.samplers p) (first p) (last p)

    -- The vertex has edges and is one of the partition.
    pub record LiesIn (p v : ℕ) : Type 0 where
      pub from : first p ≤ v
      pub below : v < last p
      pub degree_pos : 0 < (g.adjlists v).degree

    sample_partition-IsSound :
        (p v : ℕ) (w : World R) → IsSound w → LiesIn p v → IsSound (sample_partition gen g p v w).1
    unfolding sample_partition
    sample_partition-IsSound p v w sound l q = elim (ℕ_discrete q p) [
      | yes e ↦
          rw (e, write_self)
            (sample-Serves (w.samplers p) (first p) (last p) v w.rng (sound p) l.from l.below
              l.degree_pos).1
      | no ne ↦ rw (write_ne w.samplers p _ q ne) (sound q)
    ]

    -- With a generator that stays below its bound: in a world where each partition has a sampler
    -- for its vertices, sampling any partition from a vertex with edges that lies in it gives a
    -- neighbour of the vertex, and leaves such a world.
    pub sample_partition-IsSampler :
        IsSampler (sample_partition gen g) IsSound LiesIn (IsNeighbor g)
    unfolding sample_partition
    sample_partition-IsSampler = record {
      steps = λ p v w sound l.
          (sample-Serves (w.samplers p) (first p) (last p) v w.rng (sound p) l.from l.below
            l.degree_pos).0;
      keeps = sample_partition-IsSound;
    }

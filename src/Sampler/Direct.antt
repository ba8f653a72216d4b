-- ===== src/Sampler/Direct.antt =====
-- src/core/sampler.hpp: DirectSampler, and UniformDegreeDirectSampler, which computes where the
-- list of a vertex lies.
use flashmob.Prelude.{ℕ, ◌+◌, ◌-◌, ◌*◌, ◌^◌, ◌≤◌, ◌<◌, ◌≡◌, refl, arith}
use native.Mathlib.Nat.{add_assoc}
use flashmob.Prelude.Words.{u32, sub32, sub32_small}
use flashmob.Sampler.{Adjacency, IsNeighbor, sample_direct, init_uniform, sample_uniform}
use flashmob.Sampler.Buffer.{IsGen}

pub sample_direct-IsNeighbor {ℓ} :
    {R : Type ℓ} {gen : ℕ → R → ℕ × R} (is_gen : IsGen gen) (g : Adjacency) (v : ℕ) (r : R)
    → 0 < (g.adjlists v).degree
    → IsNeighbor g v (sample_direct gen g v r).0
unfolding sample_direct
sample_direct-IsNeighbor is_gen g v r pos = record {
  place = _;
  in_list = is_gen.below _ r pos;
  target = refl;
}

-- The lists of the vertices from `lo` to `hi` have one degree and lie behind one another.
pub record IsUniform (g : Adjacency) (lo hi : ℕ) : Type 0 where
  pub same : (v : ℕ) → lo ≤ v → v < hi → (g.adjlists v).degree ≡ (g.adjlists lo).degree
  pub behind :
      (v : ℕ)
      → lo ≤ v
      → v < hi
      → (g.adjlists v).begin ≡ (g.adjlists lo).begin + (v - lo) * (g.adjlists lo).degree
  pub small : (hi - lo) * (g.adjlists lo).degree < 2 ^ 32
  pub bounded : hi < 2 ^ 32

row_small : (i n d k : ℕ) → i < n → k < d → i * d + k < n * d
row_small i n d k h lt = grind arith

-- With a generator that stays below its bound: on a partition whose lists have one degree and lie
-- behind one another within 32-bit indices, a sample of the uniform sampler from a vertex with
-- edges is the sample of the direct one.
pub sample_uniform-eq-direct {ℓ} :
    {R : Type ℓ} {gen : ℕ → R → ℕ × R} (is_gen : IsGen gen) (g : Adjacency) (lo hi v : ℕ) (r : R)
    → IsUniform g lo hi
    → lo ≤ v
    → v < hi
    → 0 < (g.adjlists v).degree
    → sample_uniform gen g (init_uniform g lo hi) v r ≡ sample_direct gen g v r
unfolding sample_uniform init_uniform sample_direct
sample_uniform-eq-direct {gen = gen} is_gen g lo hi v r u from below pos =
    let k = (gen (g.adjlists lo).degree r).0 in
    let k_lt : k < (g.adjlists lo).degree = is_gen.below _ r (omega (arith, u.same v from below)) in
    let index : sub32 v lo ≡ v - lo = sub32_small v lo from (omega (arith, u.bounded)) in
    let fits : u32 ((v - lo) * (g.adjlists lo).degree + k) ≡ (v - lo) * (g.adjlists lo).degree + k =
      omega (
        arith,
        row_small (v - lo) (hi - lo) (g.adjlists lo).degree k (omega arith) k_lt,
        u.small,
      ) in
    rw (index, fits, u.same v from below, u.behind v from below, add_assoc)

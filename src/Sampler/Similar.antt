-- ===== src/Sampler/Similar.antt =====
-- src/core/sampler.hpp, SimilarDegreeDirectSampler: a hint for each run of vertices of one degree.
-- The hints are a function of the index, `hints_init` what they hold at first; `init_similar` is
-- `none` where the code writes outside of its array of `max_hint_num` hints.
pub mod Runs
pub mod Steps
pub mod Direct
pub mod Room
use flashmob.Prelude.{
  ℕ, zero, suc, ◌+◌, ◌-◌, ◌*◌, write, Bool, true, false, not, ltb, ◌==◌, if◌then◌else◌, Option,
  none, some,
}
use flashmob.Prelude.Loops.{for_range}
use flashmob.Prelude.Words.{u32, add32, sub32, add64, u64}
use flashmob.Sampler.{Adjacency}

pub record AdjHint : Type 0 where
  pub vertex_begin : ℕ
  pub vertex_end : ℕ
  pub degree : ℕ
  pub edge_begin : ℕ

pub record SimilarDegreeDirectSampler : Type 0 where
  pub vertex_begin : ℕ
  pub vertex_end : ℕ
  pub hint_num : ℕ
  pub hints : ℕ → AdjHint

-- SimilarDegreeDirectSamplerMaxHintNum
abbrev pub max_hint_num : ℕ
max_hint_num = 8

-- SimilarDegreeDirectSampler::valid, from the degrees, the edges and the vertices of the partition.
unfoldable pub is_valid : ℕ → ℕ → ℕ → ℕ → ℕ → Bool
is_valid max_degree min_degree partition_edge_num vertex_num l2_cache_size =
    if ltb max_hint_num (add32 (sub32 max_degree min_degree) 1)
    then false
    else not (ltb (add64 (u64 (partition_edge_num * 4)) (u64 (vertex_num * 12))) l2_cache_size)

-- The loop of `init`.
pub record Hinting : Type 0 where
  pub current_degree : ℕ
  pub hint_num : ℕ
  pub hints : ℕ → AdjHint

-- hints[hint_num - 1].vertex_end = e. For hint_num = 0 the index of the code wraps, and
-- `init_similar` is `none`.
pub end_hint : ℕ → ℕ → (ℕ → AdjHint) → ℕ → AdjHint
end_hint hint_num e hints =
    write hints (hint_num - 1) (record (hints (hint_num - 1)) { vertex_end = e })

pub start_hint : Adjacency → ℕ → ℕ → (ℕ → AdjHint) → ℕ → AdjHint
start_hint g v_i hint_num hints = write hints hint_num (record (hints hint_num) {
  degree = (g.adjlists v_i).degree;
  vertex_begin = v_i;
  edge_begin = (g.adjlists v_i).begin;
})

pub hint_one : Adjacency → ℕ → Hinting → Hinting
hint_one g v_i s = if s.current_degree == (g.adjlists v_i).degree then s else record {
  current_degree = (g.adjlists v_i).degree;
  hint_num = add32 s.hint_num 1;
  hints =
      if s.hint_num == 0
      then start_hint g v_i s.hint_num s.hints
      else end_hint s.hint_num v_i (start_hint g v_i s.hint_num s.hints);
}

pub hint_loop : Adjacency → ℕ → ℕ → (ℕ → AdjHint) → Hinting
unfolding for_range
hint_loop g vertex_begin n hints_init =
    for_range vertex_begin n (hint_one g)
      (record { current_degree = 0; hint_num = 0; hints = hints_init })

-- What `init` writes, with as many hints as the runs take.
pub fill_hints : Adjacency → ℕ → ℕ → (ℕ → AdjHint) → SimilarDegreeDirectSampler
fill_hints g vertex_begin vertex_end hints_init =
    let s = hint_loop g vertex_begin (vertex_end - vertex_begin) hints_init in
    record {
      vertex_begin = vertex_begin;
      vertex_end = vertex_end;
      hint_num = s.hint_num;
      hints = end_hint s.hint_num vertex_end s.hints;
    }

-- The hints are written from the first on, so that the last of them says whether all are in the array.
pub init_similar : Adjacency → ℕ → ℕ → (ℕ → AdjHint) → Option SimilarDegreeDirectSampler
unfolding fill_hints
init_similar g vertex_begin vertex_end hints_init =
    let s = fill_hints g vertex_begin vertex_end hints_init in
    if s.hint_num == 0 then none else if ltb max_hint_num s.hint_num then none else some s

-- The loop of `sample`, with `rounds` hints left; 0 when no hint is for the vertex.
pub sample_hints {ℓ} :
    {R : Type ℓ} → (ℕ → R → ℕ × R) → Adjacency → (ℕ → AdjHint) → ℕ → ℕ → ℕ → R → ℕ × R
sample_hints gen g hints zero h_i vertex rng = (0, rng)
sample_hints gen g hints (suc rounds) h_i vertex rng =
    let hint = hints h_i in
    let rest = sample_hints gen g hints rounds (suc h_i) vertex rng in
    let (k, rng') = gen hint.degree rng in
    if ltb vertex hint.vertex_end
    then (
      g.neighbor (hint.edge_begin + u32 (sub32 vertex hint.vertex_begin * hint.degree + k)),
      rng',
    )
    else rest

pub sample_similar {ℓ} :
    {R : Type ℓ} → (ℕ → R → ℕ × R) → Adjacency → SimilarDegreeDirectSampler → ℕ → R → ℕ × R
unfolding sample_hints
sample_similar gen g s vertex rng = sample_hints gen g s.hints s.hint_num 0 vertex rng

-- ===== src/Sampler.antt =====
-- src/core/sampler.hpp: the samplers of a partition. The adjacency lists are a table of degrees
-- and begins, and the edges one array of neighbours. `gen` is `rd->gen`, over a state `R` of the
-- generator. Prefetching and flushing of cache lines change no value and are left out. Indices
-- of 32 bits wrap.
pub mod Buffer
pub mod Init
pub mod Direct
pub mod Similar
pub mod Dispatch
pub mod Manager
use Prim.Native.Nat.{bit_and}
use flashmob.Prelude.{ℕ, zero, suc, ◌+◌, ◌-◌, ◌*◌, ◌<◌, ◌≡◌, write, ltb, ◌==◌, ◌&&◌, if◌then◌else◌}
use flashmob.Prelude.Loops.{for_range}
use flashmob.Prelude.Words.{u32, add32, sub32, add64}

-- struct AdjList: `begin` is the index of the first edge.
pub record AdjList : Type 0 where
  pub degree : ℕ
  pub begin : ℕ

pub record Adjacency : Type 0 where
  pub adjlists : ℕ → AdjList
  pub neighbor : ℕ → ℕ

-- w is a neighbour of v: one of the edges of its list.
pub record IsNeighbor (g : Adjacency) (v w : ℕ) : Type 0 where
  pub place : ℕ
  pub in_list : place < (g.adjlists v).degree
  pub target : w ≡ g.neighbor ((g.adjlists v).begin + place)

-- Sampler::get_edge_buffer_length, of the degree of the vertex.
at_least : ℕ → ℕ
at_least len = if ltb len 8 then 8 else len

off_power : ℕ → ℕ
off_power len = if ltb 8 len && (bit_and len (sub32 len 1) == 0) then add32 len 1 else len

pub get_edge_buffer_length : Adjacency → ℕ → ℕ
get_edge_buffer_length g vertex = off_power (at_least (g.adjlists vertex).degree)

-- ExclusiveBufferSampler: `heads` and `ends` are the fields of `headers`.
pub record ExclusiveBufferSampler : Type 0 where
  pub vertex_begin : ℕ
  pub vertex_end : ℕ
  pub units : ℕ → ℕ
  pub heads : ℕ → ℕ
  pub ends : ℕ → ℕ
  pub buffer_unit_num : ℕ

module _ {ℓ} {R : Type ℓ} (gen : ℕ → R → ℕ × R) (g : Adjacency) where
  pub record Filled : Type ℓ where
    pub units : ℕ → ℕ
    pub rng : R

  pub fill_one : ℕ → ℕ → ℕ → Filled → Filled
  fill_one vertex p_begin e_i s =
      let (k, rng) = gen (g.adjlists vertex).degree s.rng in
      record {
        units = write s.units (p_begin + e_i) (g.neighbor ((g.adjlists vertex).begin + k));
        rng = rng;
      }

  pub fill_units : ℕ → ℕ → ℕ → Filled → Filled
  unfolding for_range
  fill_units vertex p_begin n = for_range 0 n (fill_one vertex p_begin)

  pub fill : ℕ → ExclusiveBufferSampler → R → ExclusiveBufferSampler × R
  fill vertex s rng =
      let v_idx = sub32 vertex s.vertex_begin in
      let p_begin = sub32 (s.ends v_idx) (get_edge_buffer_length g vertex) in
      let filled =
        fill_units vertex p_begin (sub32 (s.heads v_idx) p_begin)
          (record { units = s.units; rng = rng }) in
      (record s { units = filled.units; heads = write s.heads v_idx p_begin }, filled.rng)

  pub refill : ℕ → ExclusiveBufferSampler → R → ExclusiveBufferSampler × R
  refill vertex s rng =
      let v_idx = sub32 vertex s.vertex_begin in
      if s.heads v_idx == s.ends v_idx then fill vertex s rng else (s, rng)

  pub sample_buffer : ℕ → ExclusiveBufferSampler → R → ℕ × ExclusiveBufferSampler × R
  sample_buffer vertex s rng =
      let v_idx = sub32 vertex s.vertex_begin in
      let (s', rng') = refill vertex s rng in
      let edge_idx = s'.heads v_idx in
      (s'.units edge_idx, record s' { heads = write s'.heads v_idx (add32 edge_idx 1) }, rng')

  -- DirectSampler::sample
  pub sample_direct : ℕ → R → ℕ × R
  sample_direct vertex rng =
      let (k, rng') = gen (g.adjlists vertex).degree rng in
      (g.neighbor ((g.adjlists vertex).begin + k), rng')

-- ExclusiveBufferSampler::clear
pub clear : ExclusiveBufferSampler → ExclusiveBufferSampler
unfolding for_range
clear s = record s {
  heads =
      for_range 0 (s.vertex_end - s.vertex_begin) (λ v_idx heads. write heads v_idx (s.ends v_idx))
        s.heads;
}

-- The loops of ExclusiveBufferSampler::init: the units needed, and the headers.
pub buffer_units : Adjacency → ℕ → ℕ → ℕ
unfolding for_range
buffer_units g vertex_begin n =
    for_range vertex_begin n (λ v_i total. add64 total (get_edge_buffer_length g v_i)) 0

pub record Headers : Type 0 where
  pub heads : ℕ → ℕ
  pub ends : ℕ → ℕ
  pub unit_p : ℕ

pub header_one : Adjacency → ℕ → ℕ → Headers → Headers
header_one g vertex_begin v_idx s =
    let end = add32 s.unit_p (get_edge_buffer_length g (add32 v_idx vertex_begin)) in
    record { heads = write s.heads v_idx end; ends = write s.ends v_idx end; unit_p = end }

pub header_loop : Adjacency → ℕ → ℕ → Headers → Headers
unfolding for_range
header_loop g vertex_begin n = for_range 0 n (header_one g vertex_begin)

-- The memory that `al_alloc_new` returns holds `blank` headers and units.
pub init_buffer : Adjacency → ℕ → ℕ → (ℕ → ℕ) → ExclusiveBufferSampler
init_buffer g vertex_begin vertex_end blank =
    let n = sub32 vertex_end vertex_begin in
    let headers =
      header_loop g vertex_begin n (record { heads = blank; ends = blank; unit_p = 0 }) in
    record {
      vertex_begin = vertex_begin;
      vertex_end = vertex_end;
      units = blank;
      heads = headers.heads;
      ends = headers.ends;
      buffer_unit_num = buffer_units g vertex_begin n;
    }

-- UniformDegreeDirectSampler
pub record UniformDegreeDirectSampler : Type 0 where
  pub vertex_begin : ℕ
  pub vertex_end : ℕ
  pub degree : ℕ
  pub edge_begin : ℕ

pub init_uniform : Adjacency → ℕ → ℕ → UniformDegreeDirectSampler
init_uniform g vertex_begin vertex_end = record {
  vertex_begin = vertex_begin;
  vertex_end = vertex_end;
  degree = (g.adjlists vertex_begin).degree;
  edge_begin = (g.adjlists vertex_begin).begin;
}

pub sample_uniform {ℓ} :
    {R : Type ℓ} → (ℕ → R → ℕ × R) → Adjacency → UniformDegreeDirectSampler → ℕ → R → ℕ × R
sample_uniform gen g s vertex rng =
    let v_idx = sub32 vertex s.vertex_begin in
    let (k, rng') = gen s.degree rng in
    (g.neighbor (s.edge_begin + u32 (v_idx * s.degree + k)), rng')

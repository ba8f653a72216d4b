-- ===== src/Sampler/Buffer.antt =====
-- src/core/sampler.hpp, ExclusiveBufferSampler: the invariant of its buffers, for `fill` and
-- `sample`.
use flashmob.Prelude.{
  ℕ, zero, suc, ◌+◌, ◌-◌, ◌^◌, ◌≤◌, ◌<◌, ◌≡◌, ◌≢◌, ◌⊎◌, inl, inr, refl, sym, subst, arith, write,
  write_self, write_ne, lt_suc-cases, ◌==◌, true, false,
}
use flashmob.Prelude.Loops.{for_range}
use native.Mathlib.Decide.{ℕ_discrete}
use flashmob.Prelude.Words.{add32, sub32, add32_small, sub32_small}
use flashmob.Sampler.{
  Adjacency, IsNeighbor, get_edge_buffer_length, ExclusiveBufferSampler, Filled, fill_one,
  fill_units, fill, refill, sample_buffer,
}

-- The documented promise of `gen`: a number below its bound.
pub record IsGen {ℓ} {R : Type ℓ} (gen : ℕ → R → ℕ × R) : Type ℓ where
  pub below : (bound : ℕ) (r : R) → 0 < bound → (gen bound r).0 < bound

module _ {ℓ} {R : Type ℓ} {gen : ℕ → R → ℕ × R} (is_gen : IsGen gen) (g : Adjacency) where
  fill_units-outside :
      (vertex lo n : ℕ) (s : Filled gen g) (i : ℕ)
      → (i < lo) ⊎ (lo + n ≤ i)
      → (fill_units gen g vertex lo n s).units i ≡ s.units i
  unfolding fill_units fill_one for_range write
  fill_units-outside vertex lo zero s i out = refl
  fill_units-outside vertex lo (suc n) s i out = ground (arith, fill_units-outside vertex lo n s i)

  fill_units-IsNeighbor :
      (vertex lo n : ℕ) (s : Filled gen g) (i : ℕ)
      → 0 < (g.adjlists vertex).degree
      → i < n
      → IsNeighbor g vertex ((fill_units gen g vertex lo n s).units (lo + i))
  unfolding fill_units fill_one for_range
  fill_units-IsNeighbor vertex lo zero s i pos lt = absurd (omega arith)
  fill_units-IsNeighbor vertex lo (suc n) s i pos lt = elim (lt_suc-cases i n lt) [
    | inl e ↦
        let at : lo + i ≡ lo + (0 + n) = omega arith in
        rw (at, write_self) (record { place = _; in_list = is_gen.below _ _ pos; target = refl })
    | inr less ↦
        rw (write_ne (fill_units gen g vertex lo n s).units (lo + (0 + n)) _ (lo + i) (omega arith))
          (fill_units-IsNeighbor vertex lo n s i pos less)
  ]

-- A vertex of the partition of a sampler.
abbrev pub InPart : ExclusiveBufferSampler → ℕ → Type 0
InPart s v = (s.vertex_begin ≤ v) × (v < s.vertex_end)

abbrev pub index : ExclusiveBufferSampler → ℕ → ℕ
index s v = v - s.vertex_begin

pub record IsBuffer (g : Adjacency) (s : ExclusiveBufferSampler) : Type 0 where
  pub bounded : s.vertex_end < 2 ^ 32
  pub degree_pos : (v : ℕ) → InPart s v → 0 < (g.adjlists v).degree
  pub length_pos : (v : ℕ) → InPart s v → 0 < get_edge_buffer_length g v
  pub small : (v : ℕ) → InPart s v → s.ends (index s v) < 2 ^ 32
  pub room : (v : ℕ) → InPart s v → get_edge_buffer_length g v ≤ s.ends (index s v)
  pub head_from :
      (v : ℕ) → InPart s v → s.ends (index s v) - get_edge_buffer_length g v ≤ s.heads (index s v)
  pub head_to : (v : ℕ) → InPart s v → s.heads (index s v) ≤ s.ends (index s v)
  pub full :
      (v i : ℕ)
      → InPart s v
      → s.heads (index s v) ≤ i
      → i < s.ends (index s v)
      → IsNeighbor g v (s.units i)
  pub apart :
      (v w : ℕ)
      → InPart s v
      → InPart s w
      → v < w
      → s.ends (index s v) + get_edge_buffer_length g w ≤ s.ends (index s w)

module _ {ℓ} {R : Type ℓ} {gen : ℕ → R → ℕ × R} (is_gen : IsGen gen) (g : Adjacency)
    (s : ExclusiveBufferSampler) (is_buffer : IsBuffer g s) (v : ℕ) (in_part : InPart s v)
    (r : R) where
  open is_buffer use {bounded, degree_pos, length_pos, small, room, head_from, head_to, full, apart}

  abbrev at : ℕ
  at = index s v

  abbrev len : ℕ
  len = get_edge_buffer_length g v

  index_lem : sub32 v s.vertex_begin ≡ at
  index_lem = sub32_small v s.vertex_begin in_part.0 (omega arith)

  start_lem : sub32 (s.ends at) len ≡ s.ends at - len
  start_lem = sub32_small (s.ends at) len (room v in_part) (small v in_part)

  -- The sampler after `fill` on an empty buffer.
  abbrev filled : Filled gen g
  filled = fill_units gen g v (s.ends at - len) len (record { units = s.units; rng = r })

  abbrev after_fill : ExclusiveBufferSampler
  after_fill = record s { units = filled.units; heads = write s.heads at (s.ends at - len) }

  fill_lem : s.heads at ≡ s.ends at → fill gen g v s r ≡ (after_fill, filled.rng)
  unfolding fill
  fill_lem e =
      let n : sub32 (s.heads at) (s.ends at - len) ≡ len = omega (
        arith,
        sub32_small (s.heads at) (s.ends at - len) (omega arith) (omega (arith, small v in_part)),
        room v in_part,
      ) in
      rw (index_lem, start_lem, n)

  own_full : (i : ℕ) → s.ends at - len ≤ i → i < s.ends at → IsNeighbor g v (filled.units i)
  own_full i from below =
      let place : s.ends at - len + (i - (s.ends at - len)) ≡ i = omega arith in
      subst (λ x. IsNeighbor g v (filled.units x)) place
        (fill_units-IsNeighbor is_gen g v (s.ends at - len) len
          (record { units = s.units; rng = r }) (i - (s.ends at - len)) (degree_pos v in_part)
          (omega arith))

  after_fill-full :
      (w i : ℕ)
      → InPart s w
      → after_fill.heads (index s w) ≤ i
      → i < s.ends (index s w)
      → IsNeighbor g w (filled.units i)
  unfolding write
  after_fill-full w i in_w from below = elim (ℕ_discrete w v) [
    | yes e ↦
        subst (λ x. IsNeighbor g x (filled.units i)) (sym e)
          (own_full i (ground arith) (ground arith))
    | no ne ↦
        rw
          (fill_units-outside is_gen g v (s.ends at - len) len (record { units = s.units; rng = r })
            i
            (ground (
              arith,
              apart v w in_part in_w,
              apart w v in_w in_part,
              room v in_part,
              head_from w in_w,
            )))
          (full w i in_w (ground arith) below)
  ]

  after_fill-IsBuffer : s.heads at ≡ s.ends at → IsBuffer g after_fill
  unfolding write
  after_fill-IsBuffer e = record {
    bounded = bounded;
    degree_pos = degree_pos;
    length_pos = length_pos;
    small = small;
    room = room;
    head_from = λ w in_w. ground (arith, head_from w in_w);
    head_to = λ w in_w. ground (arith, head_to w in_w);
    full = after_fill-full;
    apart = apart;
  }

  refill_empty : s.heads at ≡ s.ends at → refill gen g v s r ≡ (after_fill, filled.rng)
  unfolding refill
  refill_empty e =
      let test : (s.heads at == s.ends at) ≡ true = ground arith in
      rw (index_lem, test) (fill_lem e)

  refill_ready : s.heads at ≢ s.ends at → refill gen g v s r ≡ (s, r)
  unfolding refill
  refill_ready ne =
      let test : (s.heads at == s.ends at) ≡ false = ground arith in rw (index_lem, test)

  -- Taking the unit at the head.
  abbrev taken : ExclusiveBufferSampler → ExclusiveBufferSampler
  taken t = record t { heads = write t.heads at (add32 (t.heads at) 1) }

  taken-IsBuffer :
      (t : ExclusiveBufferSampler)
      → t.vertex_begin ≡ s.vertex_begin
      → InPart t v
      → IsBuffer g t
      → t.heads at < t.ends at
      → IsBuffer g (taken t)
  unfolding write
  taken-IsBuffer t same in_t b lt =
      let at_t : index t v ≡ at = ground arith in
      let step : add32 (t.heads at) 1 ≡ t.heads at + 1 =
        add32_small (t.heads at) 1 (ground (arith, b.small v in_t)) in
      record {
        bounded = b.bounded;
        degree_pos = b.degree_pos;
        length_pos = b.length_pos;
        small = b.small;
        room = b.room;
        head_from = λ w in_w. ground (arith, b.head_from w in_w);
        head_to = λ w in_w. ground (arith, b.head_to w in_w);
        full = λ w i in_w from below. b.full w i in_w (ground arith) below;
        apart = b.apart;
      }

  -- What a sample gives, and what it leaves.
  abbrev Sampled : ℕ × ExclusiveBufferSampler × R → Type 0
  Sampled o =
      IsNeighbor g v o.0
      × IsBuffer g o.1
      × (o.1.vertex_begin ≡ s.vertex_begin)
      × (o.1.vertex_end ≡ s.vertex_end)

  taken_lem :
      (t : ExclusiveBufferSampler) (r' : R)
      → refill gen g v s r ≡ (t, r')
      → sample_buffer gen g v s r ≡ (t.units (t.heads at), taken t, r')
  unfolding sample_buffer
  taken_lem t r' e = rw (index_lem, e)

  Sampled-from :
      (t : ExclusiveBufferSampler) (r' : R)
      → refill gen g v s r ≡ (t, r')
      → t.vertex_begin ≡ s.vertex_begin
      → t.vertex_end ≡ s.vertex_end
      → InPart t v
      → IsBuffer g t
      → t.heads at < t.ends at
      → Sampled (sample_buffer gen g v s r)
  Sampled-from t r' e same same_end in_t b lt =
      let at_t : index t v ≡ at = ground arith in
      rw (taken_lem t r' e) (
        b.full v (t.heads at) in_t (ground arith) (ground arith),
        taken-IsBuffer t same in_t b lt,
        same,
        same_end,
      )

  -- With a generator that stays below its bound: a sample from a vertex of the partition of a good
  -- buffer sampler is a neighbour of the vertex, the sampler stays good, and its range of vertices
  -- stays.
  pub sample_buffer_lem : Sampled (sample_buffer gen g v s r)
  unfolding write
  sample_buffer_lem = elim (ℕ_discrete (s.heads at) (s.ends at)) [
    | yes e ↦
        Sampled-from after_fill filled.rng (refill_empty e) refl refl in_part
          (after_fill-IsBuffer e) (ground (arith, room v in_part, length_pos v in_part))
    | no ne ↦
        Sampled-from s r (refill_ready ne) refl refl in_part is_buffer
          (ground (arith, head_to v in_part))
  ]

-- ===== src/Sampler/Init.antt =====
-- src/core/sampler.hpp, ExclusiveBufferSampler: the invariant of its buffers, for `init`; `clear`.
use flashmob.Prelude.{ℕ, zero, suc, ◌+◌, ◌-◌, ◌^◌, ◌≤◌, ◌<◌, ◌≡◌, refl, ap, ◌∙◌, arith, write}
use flashmob.Prelude.Loops.{for_range, sum_below}
use flashmob.Prelude.Words.{add32, sub32, add32_small, sub32_small, add64_small}
use flashmob.Message.Counts.{sum_below_mono}
use flashmob.Sampler.{
  Adjacency, at_least, off_power, get_edge_buffer_length, ExclusiveBufferSampler, clear,
  buffer_units, Headers, header_one, header_loop, init_buffer,
}
use flashmob.Sampler.Buffer.{IsBuffer, InPart, index}

-- For a degree below the last 32-bit number: a buffer holds at least 8 units and at least as many
-- as the vertex has edges, and at most 8 more than these.
pub get_edge_buffer_length-le :
    (g : Adjacency) (v : ℕ)
    → (g.adjlists v).degree + 1 < 2 ^ 32
    → (8 ≤ get_edge_buffer_length g v)
      × ((g.adjlists v).degree ≤ get_edge_buffer_length g v)
      × (get_edge_buffer_length g v ≤ (g.adjlists v).degree + 8)
unfolding get_edge_buffer_length at_least off_power
get_edge_buffer_length-le g v h = ground (arith, add32_small (g.adjlists v).degree 1)

clear_loop :
    (ends heads : ℕ → ℕ) (n j : ℕ)
    → j < n
    → for_range 0 n (λ v_idx h. write h v_idx (ends v_idx)) heads j ≡ ends j
unfolding for_range write
clear_loop ends heads zero j h = absurd (omega arith)
clear_loop ends heads (suc n) j h = ground (arith, clear_loop ends heads n j)

module _ (g : Adjacency) (lo : ℕ) where
  -- The units of the first k vertices.
  abbrev pub units_below : ℕ → ℕ
  units_below k = sum_below (λ j. get_edge_buffer_length g (lo + j)) k

  pub buffer_units_lem : (k : ℕ) → units_below k < 2 ^ 64 → buffer_units g lo k ≡ units_below k
  unfolding buffer_units for_range sum_below
  buffer_units_lem zero h = refl
  buffer_units_lem (suc k) h =
      ground
        (arith, buffer_units_lem k, add64_small (units_below k) (get_edge_buffer_length g (lo + k)))

  module _ (blank : Headers) (empty : blank.unit_p ≡ 0) where
    header_loop-unit_p :
        (k : ℕ)
        → lo + k < 2 ^ 32
        → units_below k < 2 ^ 32
        → (header_loop g lo k blank).unit_p ≡ units_below k
    unfolding header_loop header_one for_range sum_below
    header_loop-unit_p zero small fits = empty
    header_loop-unit_p (suc k) small fits =
        let at : add32 (0 + k) lo ≡ lo + k = add32_small (0 + k) lo (omega arith) ∙ omega arith in
        rw (at, header_loop-unit_p k (omega arith) (omega arith))
          (add32_small (units_below k) (get_edge_buffer_length g (lo + k)) fits)

    header_loop-ends :
        (k j : ℕ)
        → lo + k < 2 ^ 32
        → units_below k < 2 ^ 32
        → j < k
        → ((header_loop g lo k blank).ends j ≡ units_below (suc j))
          × ((header_loop g lo k blank).heads j ≡ units_below (suc j))
    unfolding header_loop header_one for_range sum_below write
    header_loop-ends zero j small fits lt = absurd (omega arith)
    header_loop-ends (suc k) j small fits lt =
        let at : add32 (0 + k) lo ≡ lo + k = add32_small (0 + k) lo (omega arith) ∙ omega arith in
        ground (
          arith,
          at,
          header_loop-ends k j (omega arith) (omega arith),
          header_loop-unit_p k (omega arith) (omega arith),
          add32_small (units_below k) (get_edge_buffer_length g (lo + k)) fits,
        )

-- What the sampler is given: a range of vertices with edges, whose buffers fit 32-bit indices.
pub record Fits (g : Adjacency) (lo hi : ℕ) : Type 0 where
  pub ordered : lo ≤ hi
  pub bounded : hi < 2 ^ 32
  pub degree_pos : (v : ℕ) → lo ≤ v → v < hi → 0 < (g.adjlists v).degree
  pub degree_small : (v : ℕ) → lo ≤ v → v < hi → (g.adjlists v).degree + 1 < 2 ^ 32
  pub units_small : units_below g lo (hi - lo) < 2 ^ 32

module _ (g : Adjacency) (lo hi : ℕ) (blank : ℕ → ℕ) (f : Fits g lo hi) where
  abbrev s : ExclusiveBufferSampler
  s = init_buffer g lo hi blank

  init_headers :
      (v : ℕ)
      → lo ≤ v
      → v < hi
      → (s.ends (v - lo) ≡ units_below g lo (suc (v - lo)))
        × (s.heads (v - lo) ≡ units_below g lo (suc (v - lo)))
  unfolding init_buffer
  init_headers v from below =
      let n : sub32 hi lo ≡ hi - lo = sub32_small hi lo f.ordered f.bounded in
      rw n (
        header_loop-ends g lo (record { heads = blank; ends = blank; unit_p = 0 }) refl (hi - lo)
          (v - lo) (omega (arith, f.bounded, f.ordered)) f.units_small (omega arith))

  last_unit :
      (v : ℕ)
      → lo ≤ v
      → units_below g lo (suc (v - lo)) ≡ units_below g lo (v - lo) + get_edge_buffer_length g v
  unfolding sum_below
  last_unit v from =
      let e : lo + (v - lo) ≡ v = omega arith in
      ap (λ x. units_below g lo (v - lo) + get_edge_buffer_length g x) e

  -- The buffers of two vertices lie apart.
  below_end :
      (v w : ℕ)
      → lo ≤ v
      → v < w
      → units_below g lo (suc (v - lo)) + get_edge_buffer_length g w
        ≤ units_below g lo (suc (w - lo))
  below_end v w from lt = omega (
    arith,
    last_unit w (omega arith),
    sum_below_mono (λ j. get_edge_buffer_length g (lo + j)) (suc (v - lo)) (w - lo) (omega arith),
  )

  units_fit : (v : ℕ) → lo ≤ v → v < hi → units_below g lo (suc (v - lo)) < 2 ^ 32
  units_fit v from below = omega (
    arith,
    f.units_small,
    sum_below_mono (λ j. get_edge_buffer_length g (lo + j)) (suc (v - lo)) (hi - lo) (omega arith),
  )

  pub init_range : (s.vertex_begin ≡ lo) × (s.vertex_end ≡ hi)
  unfolding init_buffer
  init_range = (refl, refl)

  module _ (v : ℕ) (in_part : InPart s v) where
    from_lo : lo ≤ v
    from_lo = omega (arith, init_range, in_part)

    to_hi : v < hi
    to_hi = omega (arith, init_range, in_part)

    end_lem : s.ends (index s v) ≡ units_below g lo (suc (v - lo))
    end_lem = rw init_range.0 (init_headers v from_lo to_hi).0

    head_lem : s.heads (index s v) ≡ units_below g lo (suc (v - lo))
    head_lem = rw init_range.0 (init_headers v from_lo to_hi).1

  -- For vertices with edges whose buffers fit 32-bit indices: `init` makes a good buffer sampler.
  pub init_buffer_lem : IsBuffer g s
  init_buffer_lem = record {
    bounded = omega (arith, init_range, f.bounded);
    degree_pos = λ v p. f.degree_pos v (from_lo v p) (to_hi v p);
    length_pos = λ v p.
        omega (arith, get_edge_buffer_length-le g v (f.degree_small v (from_lo v p) (to_hi v p)));
    small = λ v p. omega (arith, end_lem v p, units_fit v (from_lo v p) (to_hi v p));
    room = λ v p. omega (arith, end_lem v p, last_unit v (from_lo v p));
    head_from = λ v p. omega (arith, end_lem v p, head_lem v p);
    head_to = λ v p. omega (arith, end_lem v p, head_lem v p);
    full = λ v i p from below. absurd (omega (arith, end_lem v p, head_lem v p));
    apart = λ v w p q lt. omega (arith, end_lem v p, end_lem w q, below_end v w (from_lo v p) lt);
  }

-- `clear` empties every buffer: all heads of the partition are at their ends.
pub clear-heads :
    (t : ExclusiveBufferSampler) (j : ℕ)
    → j < t.vertex_end - t.vertex_begin
    → (clear t).heads j ≡ t.ends j
unfolding clear
clear-heads t j h = clear_loop t.ends t.heads (t.vertex_end - t.vertex_begin) j h

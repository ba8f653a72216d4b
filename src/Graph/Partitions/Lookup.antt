-- ===== src/Graph/Partitions/Lookup.antt =====
-- src/core/graph.hpp: Graph::make and get_vertex_partition_id together.
use flashmob.Prelude.{
  ℕ, zero, suc, ◌+◌, ◌-◌, ◌*◌, ◌/◌, ◌%◌, ◌^◌, ◌≤◌, ◌<◌, ◌≡◌, refl, sym, subst, ap, ◌∙◌, arith, min,
  inl, inr, lt_suc-cases, some, List, [], ◌++◌, length, length-append, get_elem?-append_left,
  get_elem?-append_right,
}
use native.Mathlib.Decide.{dec_lt}
use native.Mathlib.Nat.{one-le-pow, mod-add-div', div-mul-le_self, lt-div-mul-add, add_comm}
use flashmob.Prelude.Bits.{and_mask}
use flashmob.Prelude.Words.{add32, sub32, add32_small, sub32_small}
use flashmob.Threads.{bit2value}
use flashmob.Threads.Places.{div-lt, two-pow-lt, two-pow-le, two-pow-add}
use flashmob.Graph.{partition_on}
use flashmob.Graph.Partitions.{
  GroupHint, PartitionRange, partition_offset, make_groups, make_partitions,
}
use flashmob.Graph.Partitions.Groups.{bit2value_lem, Holds, Covers, group_partitions-Covers}

-- The hints of the groups: each has 2 ^ group_bits vertices, the last one what is left of v_num,
-- and partitions of no more vertices than a group.
pub record IsHint (group_bits group_num v_num : ℕ) (hints : ℕ → GroupHint) : Type 0 where
  pub begins : (g : ℕ) → g < group_num → (hints g).vertex_begin ≡ g * 2 ^ group_bits
  pub ends :
      (g : ℕ)
      → g < group_num
      → (hints g).vertex_end ≡ min v_num (g * 2 ^ group_bits + 2 ^ group_bits)
  pub bits : (g : ℕ) → g < group_num → (hints g).partition_bits ≤ group_bits
  pub cover : v_num ≤ group_num * 2 ^ group_bits
  pub used : (g : ℕ) → g < group_num → g * 2 ^ group_bits < v_num
  pub group_bits_small : group_bits < 32
  pub small : v_num + 2 ^ group_bits < 2 ^ 32

module _ (group_bits group_num v_num : ℕ) (hints : ℕ → GroupHint)
    (h : IsHint group_bits group_num v_num hints) where
  abbrev group_size : ℕ
  group_size = 2 ^ group_bits

  abbrev bits_of : ℕ → ℕ
  bits_of g = (hints g).partition_bits

  size-le : (g : ℕ) → g < group_num → 2 ^ bits_of g ≤ group_size
  size-le g lt =
      let e : bits_of g + (group_bits - bits_of g) ≡ group_bits = omega (arith, h.bits g lt) in
      subst (λ x. 2 ^ bits_of g ≤ 2 ^ x) e (two-pow-le (group_bits - bits_of g) (bits_of g))

  -- A full group has this many partitions.
  abbrev full_num : ℕ → ℕ
  full_num g = 2 ^ (group_bits - bits_of g)

  full_num-le : (g : ℕ) → full_num g ≤ group_size
  full_num-le g = elim (dec_lt group_bits (bits_of g)) [
    | yes lt ↦
        let e : group_bits - bits_of g ≡ 0 = omega arith in
        rw e (one-le-pow group_bits 2 (omega arith))
    | no ge ↦
        let e : group_bits - bits_of g + bits_of g ≡ group_bits = omega arith in
        subst (λ x. full_num g ≤ 2 ^ x) e (two-pow-le (bits_of g) (group_bits - bits_of g))
  ]

  full_num_size : (g : ℕ) → g < group_num → full_num g * 2 ^ bits_of g ≡ group_size
  full_num_size g lt =
      let e : group_bits - bits_of g + bits_of g ≡ group_bits = omega (arith, h.bits g lt) in
      sym (two-pow-add (group_bits - bits_of g) (bits_of g)) ∙ ap (λ x. 2 ^ x) e

  step_lem : (g : ℕ) → g < group_num → bit2value (sub32 group_bits (bits_of g)) ≡ full_num g
  step_lem g lt =
      let e : sub32 group_bits (bits_of g) ≡ group_bits - bits_of g =
        sub32_small group_bits (bits_of g) (h.bits g lt) (omega (arith, h.group_bits_small)) in
      rw e (bit2value_lem (group_bits - bits_of g) (omega (arith, h.group_bits_small)))

  offset-le : (g : ℕ) → g ≤ group_num → partition_offset group_bits hints g ≤ g * group_size
  unfolding partition_offset add32
  offset-le zero le = omega arith
  offset-le (suc g) le =
      let ih = offset-le g (omega arith) in
      rw (step_lem g (omega arith)) (grind (arith, ih, full_num-le g))

  offset_step :
      (g : ℕ)
      → g < group_num
      → partition_offset group_bits hints (suc g) ≡ partition_offset group_bits hints g + full_num g
  unfolding partition_offset
  offset_step g lt = rw (step_lem g lt) (
      add32_small _ (full_num g)
        (omega (arith, offset-le g (omega arith), full_num-le g, h.used g lt, h.small)))

  -- The partitions of the first g groups.
  record IsMade (g : ℕ) (ranges : List PartitionRange) : Type 0 where
    pub holds :
        (j w : ℕ)
        → j < g
        → j * group_size ≤ w
        → w < j * group_size + group_size
        → w < v_num
        → Holds ranges
            (partition_offset group_bits hints j + (w - j * group_size) / 2 ^ bits_of j)
            w
    pub number : g * group_size ≤ v_num → length ranges ≡ partition_offset group_bits hints g

  Holds-append_left : (xs ys : List PartitionRange) (i w : ℕ) → Holds xs i w → Holds (xs ++ ys) i w
  Holds-append_left xs ys i w k = record {
    range = k.range;
    found = get_elem?-append_left xs ys i k.range k.found;
    from = k.from;
    below = k.below;
  }

  Holds-append_right :
      (xs ys : List PartitionRange) (n i w : ℕ)
      → length xs ≡ n
      → Holds ys i w
      → Holds (xs ++ ys) (n + i) w
  Holds-append_right xs ys n i w e k = record {
    range = k.range;
    found = rw (← e) (get_elem?-append_right xs ys i ∙ k.found);
    from = k.from;
    below = k.below;
  }

  append-IsMade :
      (g : ℕ) (ranges more : List PartitionRange)
      → g < group_num
      → IsMade g ranges
      → Covers (2 ^ bits_of g) (hints g).vertex_end (hints g).vertex_begin more
      → IsMade (suc g) (ranges ++ more)
  append-IsMade g ranges more lt k c = record {
    holds = λ j w lj from below in_v. elim (lt_suc-cases j g lj) [
      | inl e ↦
          let at : w - (hints g).vertex_begin ≡ w - j * group_size = rw (h.begins g lt, e) refl in
          subst
            (λ x.
              Holds (ranges ++ more) (partition_offset group_bits hints j + x / 2 ^ bits_of j) w)
            at
            (subst
              (λ x.
                Holds (ranges ++ more)
                  (partition_offset group_bits hints x
                    + (w - (hints g).vertex_begin) / 2 ^ bits_of x)
                  w)
              (sym e)
              (Holds-append_right ranges more _ _ w (full g lt k)
                (c.holds w (rw (h.begins g lt, ← e) from) (rw (h.ends g lt, ← e) (omega arith)))))
      | inr less ↦ Holds-append_left ranges more _ w (k.holds j w less from below in_v)
    ];
    number = λ fits. omega (
      arith,
      length-append ranges more,
      full g lt k,
      offset_step g lt,
      c.even (full_num g) (ends_full fits),
    );
  }
    where
      full :
          (j : ℕ)
          → j < group_num
          → IsMade j ranges
          → length ranges ≡ partition_offset group_bits hints j
      full j lj made = made.number (omega (arith, h.used j lj))

      ends_full :
          suc g * group_size ≤ v_num
          → (hints g).vertex_end ≡ (hints g).vertex_begin + full_num g * 2 ^ bits_of g
      ends_full fits =
          let next : suc g * group_size ≡ g * group_size + group_size = grind arith in
          rw (h.ends g lt, h.begins g lt, full_num_size g lt) (omega (arith, next))

  make_partitions_lem :
      (g : ℕ)
      → g ≤ group_num
      → (ranges : List PartitionRange) × (make_partitions v_num hints g ≡ some ranges)
        × IsMade g ranges
  unfolding make_partitions partition_offset
  make_partitions_lem zero le =
      ([], refl, record { holds = λ j w lt. absurd (omega arith); number = λ _. refl })
  make_partitions_lem (suc g) le =
      let lt : g < group_num = omega arith in
      let (ranges, e, k) = make_partitions_lem g (omega arith) in
      let (more, e', c) =
        group_partitions-Covers v_num (bits_of g) (hints g).vertex_end
          (omega (arith, h.bits g lt, h.group_bits_small)) (omega (arith, h.ends g lt))
          (omega (arith, size-le g lt, h.small)) (hints g).vertex_end (hints g).vertex_begin
          (omega arith) in
      (ranges ++ more, rw (e, e', make_partitions) refl, append-IsMade g ranges more lt k c)

  group_lem :
      (v : ℕ) → (v / group_size * group_size ≤ v) × (v < v / group_size * group_size + group_size)
  group_lem v =
      let pos : 0 < group_size = one-le-pow group_bits 2 (omega arith) in
      omega (arith, div-mul-le_self v group_size, lt-div-mul-add {a = v} {b = group_size} pos)

  -- For hints as `IsHint` says: the loops that make the partitions end, and the number that the
  -- headers give for a vertex, on any socket, is that of a partition whose range holds the vertex.
  pub get_vertex_partition_id-Holds :
      (ranges : List PartitionRange) × (make_partitions v_num hints group_num ≡ some ranges)
      × ((s v : ℕ) → v < v_num → Holds ranges (partition_on (make_groups group_bits hints) s v) v)
  unfolding make_groups partition_on
  get_vertex_partition_id-Holds =
      let (ranges, e, k) = make_partitions_lem group_num (omega arith) in
      (
        ranges,
        e,
        λ s v lt.
            let (lo, hi) = group_lem v in
            let mask : sub32 (bit2value group_bits) 1 ≡ 2 ^ group_bits - 1 =
              rw (bit2value_lem group_bits h.group_bits_small) (
                sub32_small group_size 1 (one-le-pow group_bits 2 (omega arith))
                  (two-pow-lt group_bits h.group_bits_small)) in
            let low : v % group_size ≡ v - v / group_size * group_size =
              omega (arith, mod-add-div' v group_size) in
            rw (mask, and_mask group_bits v, low, add_comm)
              (k.holds (v / group_size) v
                (div-lt v group_size group_num (one-le-pow group_bits 2 (omega arith))
                  (omega (arith, h.cover)))
                lo hi lt),
      )

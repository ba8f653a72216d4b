-- ===== src/Graph/Partitions/Groups.antt =====
-- src/core/graph.hpp, Graph::make: the loop over the vertices of one group.
use flashmob.Prelude.{
  ℕ, zero, suc, ◌+◌, ◌-◌, ◌*◌, ◌/◌, ◌^◌, ◌≤◌, ◌<◌, ◌≡◌, refl, ap, arith, min, some, List, [], ◌∷◌,
  true, false, ltb, length, get_elem?,
}
use native.Mathlib.Decide.{dec_lt}
use native.Mathlib.Nat.{div-eq_of_lt, div-eq-sub-div, one-le-pow}
use flashmob.Prelude.Words.{add32, add32_small}
use flashmob.Threads.{bit2value}
use flashmob.Threads.Places.{two-pow-lt}
use flashmob.Graph.Partitions.{PartitionRange, group_partitions}

pub bit2value_lem : (bit : ℕ) → bit < 32 → bit2value bit ≡ 2 ^ bit
unfolding bit2value
bit2value_lem bit lt = omega (arith, two-pow-lt bit lt)

pub record Holds (ranges : List PartitionRange) (i w : ℕ) : Type 0 where
  pub range : PartitionRange
  pub found : get_elem? ranges i ≡ some range
  pub from : range.partition_begin ≤ w
  pub below : w < range.partition_end

-- The ranges of the vertices from v to the end of the group, for partitions of `size` vertices.
pub record Covers (size last v : ℕ) (ranges : List PartitionRange) : Type 0 where
  pub holds : (w : ℕ) → v ≤ w → w < last → Holds ranges ((w - v) / size) w
  pub even : (k : ℕ) → last ≡ v + k * size → length ranges ≡ k

nothing_even : (k size last v : ℕ) → 0 < size → last ≤ v → last ≡ v + k * size → 0 ≡ k
nothing_even zero size last v pos le e = refl
nothing_even (suc k) size last v pos le e = absurd (grind arith)

more_even :
    (k size last v : ℕ)
    → v < last
    → last ≡ v + k * size
    → (j : ℕ) × (k ≡ suc j) × (last ≡ v + size + j * size)
more_even zero size last v lt e = absurd (grind arith)
more_even (suc j) size last v lt e = (j, refl, grind arith)

module _ (v_num bits last : ℕ) (bits_small : bits < 32) (le : last ≤ v_num)
    (small : v_num + 2 ^ bits < 2 ^ 32) where
  abbrev size : ℕ
  size = 2 ^ bits

  size_pos : 0 < size
  size_pos = one-le-pow bits 2 (omega arith)

  next_lem : (v : ℕ) → v < last → add32 v (bit2value bits) ≡ v + size
  next_lem v lt = rw (bit2value_lem bits bits_small) (add32_small v size (omega arith))

  Holds-next :
      (v : ℕ) (ranges : List PartitionRange)
      → Covers size last (v + size) ranges
      → (w : ℕ) → v ≤ w
      → w < last
      → Holds
          (record { partition_begin = v; partition_end = min (v + size) v_num } ∷ ranges)
          ((w - v) / size)
          w
  Holds-next v ranges c w from below = elim (dec_lt (w - v) size) [
    | yes lt ↦
        rw (div-eq_of_lt lt) (record { range = _; found = refl; from = from; below = omega arith })
    | no ge ↦
        let h = c.holds w (omega arith) below in
        let rest : w - v - size ≡ w - (v + size) = omega arith in
        let e : (w - v) / size ≡ suc ((w - (v + size)) / size) = omega (
          arith,
          div-eq-sub-div size_pos (let le' : size ≤ w - v = omega arith in le'),
          ap (λ x. x / size) rest,
        ) in
        rw e (record { range = h.range; found = h.found; from = h.from; below = h.below })
  ]

  pub group_partitions-Covers :
      (fuel v : ℕ)
      → last ≤ v + fuel
      → (ranges : List PartitionRange) × (group_partitions fuel v_num last bits v ≡ some ranges)
        × Covers size last v ranges
  unfolding group_partitions
  group_partitions-Covers zero v enough = (
    [],
    ground arith,
    record {
      holds = λ w from below. absurd (omega arith);
      even = λ k e. nothing_even k size last v size_pos (omega arith) e;
    },
  )
  group_partitions-Covers (suc fuel) v enough = elim (dec_lt v last) [
    | yes lt ↦
        let (ranges, e, c) = group_partitions-Covers fuel (v + size) (omega (arith, size_pos)) in
        let go : ltb v last ≡ true = ground arith in
        (
          record { partition_begin = v; partition_end = min (v + size) v_num } ∷ ranges,
          rw (go, next_lem v lt, e),
          record {
            holds = Holds-next v ranges c;
            even = λ k at.
                let (j, is_suc, at') = more_even k size last v lt at in
                rw is_suc (ap suc (c.even j at'));
          },
        )
    | no ge ↦
        let stop : ltb v last ≡ false = ground arith in
        (
          [],
          rw stop,
          record {
            holds = λ w from below. absurd (omega arith);
            even = λ k e. nothing_even k size last v size_pos (omega arith) e;
          },
        )
  ]

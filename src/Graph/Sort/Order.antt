-- ===== src/Graph/Sort/Order.antt =====
-- src/core/graph.hpp, Graph::counting_sort as a whole.
use flashmob.Prelude.{ℕ, zero, suc, ◌+◌, ◌-◌, ◌^◌, ◌≤◌, ◌<◌, ◌≡◌, ◌⊎◌, arith, write, inl, inr}
use native.Mathlib.Decide.{dec_lt}
use flashmob.Prelude.Loops.{for_range, sum_below}
use flashmob.Prelude.Words.{sub32, add32_small, sub32_small}
use flashmob.Message.Counts.{
  count, offset, offset_all, slot, slot-injective, slot-lt, slot_block, slot-onto, sum_below_mono,
}
use flashmob.Graph.Sort.{
  VertexSortUnit, high_degree, clear_counters, copy_units, count_degrees, Sorting, place_units,
  counting_sort,
}
use flashmob.Graph.Sort.Loops.{
  below, high_degree-le, clear_counters_lem, copy_units_lem, count_degrees_lem, sum_counters_lem,
}

-- Every place below all offsets is in the block of some destination.
block_of :
    (dest : ℕ → ℕ) (n m i : ℕ)
    → i < offset dest n m
    → (p : ℕ) × (p < m) × (offset dest n p ≤ i) × (i < offset dest n (suc p))
unfolding sum_below
block_of dest n zero i h = absurd (omega arith)
block_of dest n (suc m) i h = elim (dec_lt i (offset dest n m)) [
  | yes lt ↦ let (p, lp, lo, hi) = block_of dest n m i lt in (p, omega arith, lo, hi)
  | no ge ↦ (m, omega arith, omega arith, h)
]

-- The vertices of higher degree come behind in the ascending order.
slot-lt-slot :
    (dest : ℕ → ℕ) (n i j : ℕ) → i < n → j < n → dest i < dest j → slot dest n i < slot dest n j
slot-lt-slot dest n i j li lj h = omega (
  arith,
  slot_block dest n i li,
  slot_block dest n j lj,
  sum_below_mono (λ q. count dest q n) (suc (dest i)) (dest j) h,
)

module _ (units : ℕ → VertexSortUnit) (num high : ℕ) (small : num < 2 ^ 32)
    (fits : (v : ℕ) → v < num → (0 < (units v).degree) × ((units v).degree ≤ high)) where
  abbrev dest : ℕ → ℕ
  dest = below units

  -- The place of a vertex in the descending order.
  abbrev pub place : ℕ → ℕ
  place v = num - slot dest num v - 1

  position_lem : (pos : ℕ) → pos < num → sub32 (sub32 num pos) 1 ≡ num - pos - 1
  position_lem pos h =
      let e : sub32 num pos ≡ num - pos = sub32_small num pos (omega arith) small in
      rw e (sub32_small (num - pos) 1 (omega arith) (omega arith))

  module _ (temp : ℕ → VertexSortUnit) (s : Sorting)
      (same : (v : ℕ) → v < num → temp (0 + v) ≡ units v)
      (start : (p : ℕ) → p < high → s.counters p ≡ offset dest num p) where
    place_units-counters :
        (k : ℕ)
        → k ≤ num
        → (p : ℕ) → p < high
        → (place_units temp num k s).counters p ≡ offset dest num p + count dest p k
    unfolding place_units for_range count write sum_below slot
    place_units-counters zero le p h = omega (arith, start p h)
    place_units-counters (suc k) le p h = ground (
      arith,
      same k (omega arith),
      fits k (omega arith),
      place_units-counters k (omega arith) p h,
      place_units-counters k (omega arith) (dest k) (omega (arith, fits k (omega arith))),
      slot_small k,
      add32_small (slot dest num k) 1,
    )
      where
        slot_small : (v : ℕ) → v < num → offset dest num (dest v) + count dest (dest v) v < num
        slot_small v lt = slot-lt dest num v lt

    place_units-sorted :
        (k v : ℕ) → k ≤ num → v < k → (place_units temp num k s).sorted (place v) ≡ units v
    unfolding place_units for_range write slot sum_below
    place_units-sorted zero v le h = absurd (omega arith)
    place_units-sorted (suc k) v le h = ground (
      arith,
      same k (omega arith),
      fits k (omega arith),
      place_units-sorted k v (omega arith),
      position_lem (slot dest num k) (slot-lt dest num k (omega arith)),
      here,
      slot-lt dest num v (omega arith),
      slot-lt dest num k (omega arith),
      slot-injective dest num v k,
    )
      where
        here : (place_units temp num k s).counters (dest k) ≡ slot dest num k
        here = place_units-counters k (omega arith) (dest k) (omega (arith, fits k (omega arith)))

-- `sorted` holds the units of `units`, each at a place of its own.
pub record Reorders (units sorted : ℕ → VertexSortUnit) (num : ℕ) : Type 0 where
  pub at : ℕ → ℕ
  pub at_lt : (v : ℕ) → v < num → at v < num
  pub at_injective : (v w : ℕ) → v < num → w < num → at v ≡ at w → v ≡ w
  pub at_onto : (i : ℕ) → i < num → (v : ℕ) × (v < num) × (at v ≡ i)
  pub found : (v : ℕ) → v < num → sorted (at v) ≡ units v

module _ (units : ℕ → VertexSortUnit) (num : ℕ) (small : num < 2 ^ 32)
    (positive : (v : ℕ) → v < num → 0 < (units v).degree) (blank : ℕ → VertexSortUnit)
    (zeros : ℕ → ℕ) where
  abbrev high : ℕ
  high = high_degree units num

  fits : (v : ℕ) → v < num → (0 < (units v).degree) × ((units v).degree ≤ high)
  fits v h = (positive v h, high_degree-le units num v h)

  sorted_lem :
      (v : ℕ)
      → v < num
      → counting_sort blank zeros units num (place units num high small fits v) ≡ units v
  unfolding counting_sort
  sorted_lem v h =
      place_units-sorted units num high small fits (copy_units units num blank) _
        (λ w lt. let e : 0 + w ≡ w = omega arith in rw e (copy_units_lem units num blank w lt))
        (λ p lt.
          (sum_counters_lem units high num _ high small counted.0 (omega arith) counted.1).0 p
            (omega arith))
        num v (omega arith) h
    where
      counted :
          (count_degrees units num (clear_counters high zeros) 0 ≡ 0)
          × ((p : ℕ)
              → p < high
              → count_degrees units num (clear_counters high zeros) (suc p)
                ≡ count (below units) p num)
      counted = count_degrees_lem units high num _ small (clear_counters_lem high zeros) fits

  place_onto : (i : ℕ) → i < num → (v : ℕ) × (v < num) × (place units num high small fits v ≡ i)
  place_onto i h =
      let all : offset (below units) num high ≡ num =
        offset_all (below units) num high (λ j lt. omega (arith, fits j lt)) in
      let (p, lp, lo, hi) = block_of (below units) num high (num - i - 1) (omega (arith, all)) in
      let (v, lt, e, at) = slot-onto (below units) num p (num - i - 1) lo hi in
      (v, lt, omega (arith, at))

  pub counting_sort-Reorders : Reorders units (counting_sort blank zeros units num) num
  counting_sort-Reorders = record {
    at = place units num high small fits;
    at_lt = λ v h. omega (arith, slot-lt (below units) num v h);
    at_injective = λ v w lv lw e.
        slot-injective (below units) num v w lv lw
          (omega (arith, slot-lt (below units) num v lv, slot-lt (below units) num w lw, e));
    at_onto = place_onto;
    found = sorted_lem;
  }

  counting_sort-descending :
      (i j : ℕ)
      → i ≤ j
      → j < num
      → (counting_sort blank zeros units num j).degree
        ≤ (counting_sort blank zeros units num i).degree
  counting_sort-descending i j le lt =
      let (v, lv, at_v) = place_onto i (omega arith) in
      let (w, lw, at_w) = place_onto j lt in
      rw (← at_v, ← at_w, sorted_lem v lv, sorted_lem w lw)
        (omega (
          arith,
          fits v lv,
          fits w lw,
          higher v w lv lw,
          slot-lt (below units) num v lv,
          slot-lt (below units) num w lw,
          at_v,
          at_w,
        ))
    where
      higher :
          (v w : ℕ)
          → v < num
          → w < num
          → (below units w ≤ below units v) ⊎ (slot (below units) num v < slot (below units) num w)
      higher v w lv lw = elim (dec_lt (below units v) (below units w)) [
        | yes h ↦ inr (slot-lt-slot (below units) num v w lv lw h)
        | no h ↦ inl (omega arith)
      ]

  -- For fewer than 2 ^ 32 vertices, each with edges: the sorted array holds each unit at one
  -- place, and the degrees descend.
  pub counting_sort_lem :
      Reorders units (counting_sort blank zeros units num) num
      × ((i j : ℕ)
          → i ≤ j
          → j < num
          → (counting_sort blank zeros units num j).degree
            ≤ (counting_sort blank zeros units num i).degree)
  counting_sort_lem = (counting_sort-Reorders, counting_sort-descending)

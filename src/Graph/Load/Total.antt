-- ===== src/Graph/Load/Total.antt =====
-- src/core/graph.hpp, Graph::load: the last of the sums of degrees is the number of edges.
use flashmob.Prelude.{
  ℕ, zero, suc, ◌+◌, ◌*◌, ◌^◌, ◌<◌, ◌≡◌, lt_suc-cases, inl, inr, refl, sym, ◌∙◌, subst, ap, arith,
  ◌==◌, Bool, true, false, if◌then◌else◌, Bool-cases,
}
use flashmob.Prelude.Loops.{sum_below}
use flashmob.Message.Counts.{count, count-none}
use flashmob.Graph.Sort.{VertexSortUnit}
use flashmob.Graph.Sort.Order.{Reorders, counting_sort-Reorders}
use flashmob.Graph.Load.{
  Edge, edge_count, copy_degrees, sum_degrees, clear_units, count_edges, sorted_units,
}
use flashmob.Graph.Load.Degrees.{
  sum_below-agree, sum_below-nought, copy_degrees_lem, sum_degrees_lem, count_edges_total,
}

sum_below-bump :
    (g h : ℕ → ℕ) (a m : ℕ)
    → a < m
    → sum_below (λ i. if a == i then h i + g i else g i) m ≡ sum_below g m + h a
unfolding sum_below
sum_below-bump g h a zero lt = absurd (omega arith)
sum_below-bump g h a (suc m) lt = elim (Bool-cases (a == m)) [
  | inl e ↦
      let none_before =
        sum_below-agree (λ i. if a == i then h i + g i else g i) g m (λ x less. ground arith) in
      let at : a ≡ m = ground arith in
      let hit : h a ≡ h m = ap h at in rw e (omega (arith, none_before, hit))
  | inr ne ↦ rw ne (omega (arith, sum_below-bump g h a m (ground arith)))
]

next_term : (c x : ℕ) → suc c * x ≡ x + c * x
next_term c x = grind arith

module _ (f at : ℕ → ℕ) (m : ℕ) where
  one_more :
      (k i : ℕ)
      → count at i (suc k) * f i
        ≡ (if at k == i then f i + count at i k * f i else count at i k * f i)
  unfolding count
  one_more k i = elim (Bool-cases (at k == i)) [
    | inl e ↦ rw e (next_term (count at i k) (f i))
    | inr ne ↦ rw ne refl
  ]

  -- The values at the first k places, place by place.
  pub sum_places :
      (k : ℕ)
      → ((v : ℕ) → v < k → at v < m)
      → sum_below (λ i. count at i k * f i) m ≡ sum_below (λ v. f (at v)) k
  unfolding sum_below count
  sum_places zero ats =
      sum_below-agree (λ i. 0 * f i) (λ i. 0) m (λ i lt. omega arith) ∙ sum_below-nought m
  sum_places (suc k) ats =
      sum_below-agree (λ i. count at i (suc k) * f i)
        (λ i. if at k == i then f i + count at i k * f i else count at i k * f i) m
        (λ i lt. one_more k i)
      ∙ sum_below-bump (λ i. count at i k * f i) f (at k) m (ats k (omega arith))
      ∙ ap (λ x. x + f (at k)) (sum_places k (λ v lt. ats v (omega arith)))

found : (at : ℕ → ℕ) (k i : ℕ) → (at k == i) ≡ true → at k ≡ i
found at k i hit = ground arith

not_last : (at : ℕ → ℕ) (i k v : ℕ) → v < suc k → at v ≡ i → (at k == i) ≡ false → v < k
not_last at i k v lt e miss = elim (lt_suc-cases v k lt) [
  | inl last ↦ let hit : at k ≡ i = subst (λ x. at x ≡ i) last e in absurd (ground arith)
  | inr less ↦ less
]

-- With one of k places for each index, each index counts once.
pub count-one :
    (at : ℕ → ℕ) (i k : ℕ)
    → ((v w : ℕ) → v < k → w < k → at v ≡ at w → v ≡ w)
    → (v : ℕ) → v < k
    → at v ≡ i
    → count at i k ≡ 1
unfolding count
count-one at i zero inj v lt e = absurd (omega arith)
count-one at i (suc k) inj v lt e = elim (Bool-cases (at k == i)) [
  | inl hit ↦
      rw
        (
          hit,
          count-none at i k (λ j less e'.
              absurd
                (omega (arith, inj j k (omega arith) (omega arith) (e' ∙ sym (found at k i hit))))),
        )
        refl
  | inr miss ↦ rw miss (
      count-one at i k (λ x w lx lw. inj x w (omega arith) (omega arith)) v
        (not_last at i k v lt e miss) e)
]

module _ {units sorted : ℕ → VertexSortUnit} {num : ℕ} (r : Reorders units sorted num) where
  -- Sorting keeps the sum of the degrees.
  reordered_sum : sum_below (λ v. (sorted v).degree) num ≡ sum_below (λ v. (units v).degree) num
  reordered_sum =
      sym (
        sum_below-agree (λ i. count r.at i num * (sorted i).degree) (λ v. (sorted v).degree) num
          (λ i lt.
            let (v, lv, e) = r.at_onto i lt in
            rw (count-one r.at i num r.at_injective v lv e) (omega arith)))
      ∙ sum_places (λ i. (sorted i).degree) r.at num num r.at_lt
      ∙ sum_below-agree (λ v. (sorted (r.at v)).degree) (λ v. (units v).degree) num
          (λ v lt. ap (λ (u : VertexSortUnit). u.degree) (r.found v lt))

edge_count-lt : (w : Bool) (n : ℕ) → n * 2 < 2 ^ 32 → edge_count w n < 2 ^ 64
unfolding edge_count
edge_count-lt true n small = omega arith
edge_count-lt false n small = omega arith

-- For fewer than 2 ^ 32 vertices and 2 ^ 31 edges between them, with each vertex counted at least
-- once: after sorting, the last of the sums of degrees is the number of edges, or twice this
-- number when the graph is undirected.
pub degree_prefix_sum_total :
    (as_undirected : Bool) (raw_edges : ℕ → Edge) (edge_num v_num : ℕ)
    (blank temp : ℕ → VertexSortUnit) (zeros degrees sums : ℕ → ℕ)
    → v_num < 2 ^ 32
    → edge_num * 2 < 2 ^ 32
    → ((e : ℕ) → e < edge_num → ((raw_edges e).src < v_num) × ((raw_edges e).dst < v_num))
    → ((v : ℕ)
        → v < v_num
        → 0 < (count_edges as_undirected raw_edges edge_num (clear_units v_num blank) v).degree)
    → sum_degrees
        (copy_degrees
          (sorted_units blank temp zeros as_undirected raw_edges edge_num v_num)
          v_num
          degrees)
        v_num
        sums
        v_num
      ≡ edge_count as_undirected edge_num
unfolding sorted_units
degree_prefix_sum_total u raw_edges edge_num v_num blank temp zeros degrees sums v_small small ids
      positive =
    sum_degrees_lem (copy_degrees sorted v_num degrees) sums v_num v_num
      (omega (arith, total, edge_count-lt u edge_num small)) (omega arith)
    ∙ total
  where
    counted : ℕ → VertexSortUnit
    counted = count_edges u raw_edges edge_num (clear_units v_num blank)

    sorted : ℕ → VertexSortUnit
    sorted = sorted_units blank temp zeros u raw_edges edge_num v_num

    total : sum_below (copy_degrees sorted v_num degrees) v_num ≡ edge_count u edge_num
    total =
        sum_below-agree (copy_degrees sorted v_num degrees) (λ v. (sorted v).degree) v_num
          (copy_degrees_lem sorted degrees v_num)
        ∙ reordered_sum (counting_sort-Reorders counted v_num v_small positive temp zeros)
        ∙ count_edges_total u raw_edges edge_num v_num blank small ids

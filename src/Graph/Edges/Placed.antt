-- ===== src/Graph/Edges/Placed.antt =====
-- src/core/graph.hpp, Graph::make: each end of an edge gets a place of its own in the list of its
-- vertex. The threads append in any order.
use flashmob.Prelude.{
  ℕ, zero, suc, ◌+◌, ◌*◌, ◌/◌, ◌%◌, ◌≤◌, ◌<◌, ◌≡◌, ◌≢◌, ◌⊎◌, inl, inr, refl, sym, ◌∙◌, ap, subst,
  arith, ◌==◌, Bool, true, false, if◌then◌else◌, write, lt_suc-cases,
}
use native.Mathlib.Decide.{ℕ_discrete}
use flashmob.Prelude.Loops.{for_range, sum_below}
use flashmob.Message.Counts.{count, count-lt, count-onto}
use flashmob.Graph.Load.{Edge}
use flashmob.Graph.Load.Degrees.{sum_below-agree}
use flashmob.Graph.Load.Total.{sum_places, count-one}
use flashmob.Graph.Edges.{
  Placing, end_num, end_owner, end_target, place_end, place_edge, place_edges,
}

-- The ends: from `owner` j to `target` j.
module _ (owner target : ℕ → ℕ) (start : Placing) where
  abbrev placed : ℕ → Placing
  placed n = for_range 0 n (λ j. place_end (owner j) (target j)) start

  placed-end : (n v : ℕ) → (placed n).edge_end v ≡ start.edge_end v + count owner v n
  unfolding for_range place_end write count
  placed-end zero v = omega arith
  placed-end (suc n) v = ground (arith, placed-end n v)

  module _ (num : ℕ)
      (apart : (j k : ℕ)
        → j < num
        → k < num
        → start.edge_end (owner j) + count owner (owner j) j
          ≡ start.edge_end (owner k) + count owner (owner k) k
        → j ≡ k) where
    placed_at :
        (n j : ℕ)
        → n ≤ num
        → j < n
        → (placed n).neighbor (start.edge_end (owner j) + count owner (owner j) j) ≡ target j
    unfolding for_range place_end write
    placed_at zero j le lt = absurd (omega arith)
    placed_at (suc n) j le lt = elim (lt_suc-cases j n lt) [
      | inl at ↦ rw at (ground (arith, placed-end n (owner n)))
      | inr less ↦ ground (
        arith,
        placed_at n j (omega arith) less,
        placed-end n (owner n),
        apart j n (omega arith) (omega arith),
      )
    ]

two_ends :
    (edges : ℕ → Edge) (n : ℕ)
    → (end_owner true edges (n * 2) ≡ (edges n).src)
      × (end_target true edges (n * 2) ≡ (edges n).dst)
      × (end_owner true edges (suc (n * 2)) ≡ (edges n).dst)
      × (end_target true edges (suc (n * 2)) ≡ (edges n).src)
unfolding end_owner end_target
two_ends edges n =
    let half : n * 2 / 2 ≡ n = omega arith in
    let even : n * 2 % 2 ≡ 0 = omega arith in
    let half' : suc (n * 2) / 2 ≡ n = omega arith in
    let odd : suc (n * 2) % 2 ≡ 1 = omega arith in
    (rw (even, half) refl, rw (even, half) refl, rw (odd, half') refl, rw (odd, half') refl)

-- In the order of the loop of one thread.
place_edges_sequential :
    (as_undirected : Bool) (edges : ℕ → Edge) (n : ℕ) (start : Placing)
    → place_edges as_undirected edges n (λ i. i) start
      ≡ for_range 0 n (place_edge as_undirected edges) start
unfolding place_edges place_edge for_range end_num end_owner end_target
place_edges_sequential true edges zero start = refl
place_edges_sequential false edges zero start = refl
place_edges_sequential true edges (suc n) start =
    let more : suc n * 2 ≡ suc (suc (n * 2)) = omega arith in
    let (o, t, o', t') = two_ends edges n in
    let here : 0 + n * 2 ≡ n * 2 = omega arith in
    let next : 0 + suc (n * 2) ≡ suc (n * 2) = omega arith in
    let first : 0 + n ≡ n = omega arith in
    rw (more, here, next, o, t, o', t', first, ← place_edges_sequential true edges n start) refl
place_edges_sequential false edges (suc n) start =
    rw (← place_edges_sequential false edges n start) refl

-- Each of `num` ends has one turn: that of end j is number `back` j.
pub record IsTurns (num : ℕ) (turns : ℕ → ℕ) : Type 0 where
  pub back : ℕ → ℕ
  pub turns-lt : (i : ℕ) → i < num → turns i < num
  pub back-lt : (j : ℕ) → j < num → back j < num
  pub turns-back : (j : ℕ) → j < num → turns (back j) ≡ j
  pub back-turns : (i : ℕ) → i < num → back (turns i) ≡ i

count_as_sum :
    (owner : ℕ → ℕ) (v n : ℕ) → count owner v n ≡ sum_below (λ j. if owner j == v then 1 else 0) n
unfolding count sum_below
count_as_sum owner v zero = refl
count_as_sum owner v (suc n) = ground (arith, count_as_sum owner v n)

-- The order of the turns does not change how many ends a vertex has.
count-turns :
    {turns : ℕ → ℕ} (num : ℕ)
    → IsTurns num turns
    → (owner : ℕ → ℕ) (v : ℕ) → count (λ i. owner (turns i)) v num ≡ count owner v num
count-turns {turns} num t owner v =
    count_as_sum (λ i. owner (turns i)) v num
    ∙ sym (sum_places one turns num num t.turns-lt)
    ∙ sum_below-agree (λ i. count turns i num * one i) one num
        (λ i lt.
          rw (count-one turns i num injective (t.back i) (t.back-lt i lt) (t.turns-back i lt))
            (omega arith))
    ∙ sym (count_as_sum owner v num)
  where
    one : ℕ → ℕ
    one j = if owner j == v then 1 else 0

    injective : (v w : ℕ) → v < num → w < num → turns v ≡ turns w → v ≡ w
    injective x y lx ly e = sym (t.back-turns x lx) ∙ ap t.back e ∙ t.back-turns y ly

-- The lists in memory after all ends are placed: the ends of a vertex and the places of its list
-- correspond, one to one, and a place holds the target of its end.
pub record IsPlaced (as_undirected : Bool) (edges : ℕ → Edge) (edge_num : ℕ)
    (begin neighbor : ℕ → ℕ) : Type 0 where
  pub place : ℕ → ℕ
  pub place-lt :
      (j : ℕ)
      → j < end_num as_undirected edge_num
      → place j
        < count
            (end_owner as_undirected edges)
            (end_owner as_undirected edges j)
            (end_num as_undirected edge_num)
  pub at_place :
      (j : ℕ)
      → j < end_num as_undirected edge_num
      → neighbor (begin (end_owner as_undirected edges j) + place j)
        ≡ end_target as_undirected edges j
  pub distinct :
      (j k : ℕ)
      → j < end_num as_undirected edge_num
      → k < end_num as_undirected edge_num
      → end_owner as_undirected edges j ≡ end_owner as_undirected edges k
      → place j ≡ place k
      → j ≡ k
  pub every_place :
      (v k : ℕ)
      → k < count (end_owner as_undirected edges) v (end_num as_undirected edge_num)
      → (j : ℕ) × (j < end_num as_undirected edge_num)
        × (end_owner as_undirected edges j ≡ v)
        × (place j ≡ k)

module _ (as_undirected : Bool) (edges : ℕ → Edge) (edge_num : ℕ) (turns : ℕ → ℕ) (start : Placing)
    (t : IsTurns (end_num as_undirected edge_num) turns)
    (apart : (v w : ℕ)
      → v ≢ w
      → (start.edge_end v + count (end_owner as_undirected edges) v (end_num as_undirected edge_num)
          ≤ start.edge_end w)
        ⊎ (start.edge_end w
              + count (end_owner as_undirected edges) w (end_num as_undirected edge_num)
            ≤ start.edge_end v)) where
  abbrev num : ℕ
  num = end_num as_undirected edge_num

  abbrev owner : ℕ → ℕ
  owner = end_owner as_undirected edges

  -- The owner of the end that is placed in turn i.
  abbrev whose : ℕ → ℕ
  whose i = owner (turns i)

  abbrev target : ℕ → ℕ
  target i = end_target as_undirected edges (turns i)

  same_num : (v : ℕ) → count whose v num ≡ count owner v num
  same_num v = count-turns num t owner v

  in_list :
      (j k : ℕ) → whose j ≡ whose k → count whose (whose j) j ≡ count whose (whose k) k → j ≡ k
  in_list j k same e = ground (arith, e, same, count-lt whose k j, count-lt whose j k)

  places_apart :
      (j k : ℕ)
      → j < num
      → k < num
      → start.edge_end (whose j) + count whose (whose j) j
        ≡ start.edge_end (whose k) + count whose (whose k) k
      → j ≡ k
  places_apart j k j_lt k_lt e = elim (ℕ_discrete (whose j) (whose k)) [
    | yes same ↦ in_list j k same (
        let at = ap start.edge_end same in
        let c : count whose (whose j) j ≡ count whose (whose k) k = omega (arith, e, at) in c)
    | no ne ↦ absurd (
        ground (
          arith,
          apart (whose j) (whose k) ne,
          count-lt whose num j j_lt,
          count-lt whose num k k_lt,
          same_num (whose j),
          same_num (whose k),
          e,
        ))
  ]

  in_turn :
      (i : ℕ)
      → i < num
      → (place_edges as_undirected edges edge_num turns start).neighbor
          (start.edge_end (whose i) + count whose (whose i) i)
        ≡ target i
  unfolding place_edges
  in_turn i lt = placed_at whose target start num places_apart num i (omega arith) lt

  at_end :
      (j : ℕ)
      → j < num
      → (place_edges as_undirected edges edge_num turns start).neighbor
          (start.edge_end (owner j) + count whose (owner j) (t.back j))
        ≡ end_target as_undirected edges j
  at_end j lt =
      subst
        (λ x.
          (place_edges as_undirected edges edge_num turns start).neighbor
            (start.edge_end (owner x) + count whose (owner x) (t.back j))
          ≡ end_target as_undirected edges x)
        (t.turns-back j lt) (in_turn (t.back j) (t.back-lt j lt))

  -- For lists with room for the ends of their vertices, apart from one another, and the ends of
  -- the edges appended in any order, each once: the ends of a vertex, two to an undirected edge,
  -- and the places of its list correspond one to one, and each place holds the other end.
  pub place_edges-IsPlaced :
      IsPlaced as_undirected edges edge_num start.edge_end
        (place_edges as_undirected edges edge_num turns start).neighbor
  place_edges-IsPlaced = record {
    place = λ j. count whose (owner j) (t.back j);
    place-lt = λ j lt. omega (
      arith,
      same_num (owner j),
      subst (λ x. count whose (owner x) (t.back j) < count whose (owner x) num) (t.turns-back j lt)
          (count-lt whose num (t.back j) (t.back-lt j lt)),
    );
    at_place = at_end;
    distinct = λ j k j_lt k_lt same e.
        let tj = ap owner (t.turns-back j j_lt) in
        let tk = ap owner (t.turns-back k k_lt) in
        let at : t.back j ≡ t.back k =
          in_list (t.back j) (t.back k) (tj ∙ same ∙ sym tk) (rw (tj, tk) e) in
        sym (t.turns-back j j_lt) ∙ ap turns at ∙ t.turns-back k k_lt;
    every_place = λ v k lt.
        let (i, i_lt, e, c) = count-onto whose v num k (omega (arith, same_num v, lt)) in
        (turns i, t.turns-lt i i_lt, e, rw (e, t.back-turns i i_lt) c);
  }

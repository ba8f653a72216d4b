-- ===== src/Examples/Query.antt =====
-- Queries for neighbours on the ring, with a sort by counting and a search one by one.
use flashmob.Prelude.{
  ℕ, zero, suc, ◌+◌, ◌-◌, ◌*◌, ◌≤◌, ◌<◌, ◌≡◌, ◌↔◌, inl, inr, refl, ◌∙◌, ap, arith, Bool, true,
  false, ltb, ◌||◌, ◌==◌, if◌then◌else◌, some, Bool-cases, lt_suc-cases,
}
use flashmob.Graph.Sort.{VertexSortUnit, counting_sort}
use flashmob.Graph.Sort.Order.{counting_sort_lem}
use flashmob.Graph.Query.{Queried, prepare_neighbor_query, has_neighbor}
use flashmob.Graph.Query.Answers.{HasEntry, IsSort, IsSearch, IsApart, has_neighbor-IsNeighbor}
use flashmob.Sampler.{IsNeighbor}
use flashmob.Examples.Data.{ring, blank}

abbrev no_units : ℕ → VertexSortUnit
no_units v = record { vertex = 0; degree = 0 }

abbrev units : (ℕ → ℕ) → ℕ → ℕ → VertexSortUnit
units a begin v = record { vertex = v; degree = a (begin + v) + 1 }

abbrev ordered : (ℕ → ℕ) → ℕ → ℕ → ℕ → VertexSortUnit
ordered a begin n = counting_sort no_units blank (units a begin) n

sort : (ℕ → ℕ) → ℕ → ℕ → ℕ → ℕ
sort a begin n i =
    if ltb i begin || not_below i (begin + n)
    then a i
    else (ordered a begin n (n - 1 - (i - begin))).degree - 1
  where
    not_below : ℕ → ℕ → Bool
    not_below x y = if ltb x y then false else true

sort_at :
    (a : ℕ → ℕ) (begin n i : ℕ)
    → i < n
    → sort a begin n (begin + i) ≡ (ordered a begin n (n - 1 - i)).degree - 1
unfolding sort
sort_at a begin n i lt =
    let back : begin + i - begin ≡ i = omega arith in
    let from : ltb (begin + i) begin ≡ false = ground arith in
    let below : ltb (begin + i) (begin + n) ≡ true = ground arith in rw (from, below, back) refl

sort-IsSort : IsSort sort
unfolding sort
sort-IsSort = record {
  ascending = λ a begin n small i j le lt.
      rw (sort_at a begin n i (omega arith), sort_at a begin n j lt)
        (omega (
          arith,
          (counting_sort_lem (units a begin) n small (λ v l. omega arith) no_units blank).1
              (n - 1 - j) (n - 1 - i) (omega arith) (omega arith),
        ));
  keeps = λ a begin n x small e.
      let r = (counting_sort_lem (units a begin) n small (λ v l. omega arith) no_units blank).0 in
      let at = r.at e.place in
      let at_lt = r.at_lt e.place e.place_lt in
      let place : n - 1 - (n - 1 - at) ≡ at = omega (arith, at_lt) in
      let value = ap (λ (u : VertexSortUnit). u.degree) (r.found e.place e.place_lt) in
      record {
        place = n - 1 - at;
        place_lt = omega (arith, at_lt);
        entry =
            sort_at a begin n (n - 1 - at) (omega (arith, at_lt))
            ∙ rw place (omega (arith, value, e.entry));
      };
  adds_none = λ a begin n x small e.
      let r = (counting_sort_lem (units a begin) n small (λ v l. omega arith) no_units blank).0 in
      let (v, lt, at) = r.at_onto (n - 1 - e.place) (omega (arith, e.place_lt)) in
      let value = ap (λ (u : VertexSortUnit). u.degree) (r.found v lt) in
      let moved = ap (λ i. (ordered a begin n i).degree) at in
      record {
        place = v;
        place_lt = lt;
        entry = omega (arith, value, moved, sort_at a begin n e.place e.place_lt, e.entry);
      };
  outside = λ a begin n i out. ground arith;
}

search : (ℕ → ℕ) → ℕ → ℕ → ℕ → Bool
search a begin zero x = false
search a begin (suc n) x = search a begin n x || (a (begin + n) == x)

search-finds : (a : ℕ → ℕ) (begin n x i : ℕ) → i < n → a (begin + i) ≡ x → search a begin n x ≡ true
unfolding search
search-finds a begin zero x i lt e = absurd (omega arith)
search-finds a begin (suc n) x i lt e = elim (lt_suc-cases i n lt) [
  | inl at ↦ ground (arith, e, ap (λ k. a (begin + k)) at)
  | inr less ↦ ground (arith, search-finds a begin n x i less e)
]

search-found : (a : ℕ → ℕ) (begin n x : ℕ) → search a begin n x ≡ true → HasEntry a begin n x
unfolding search
search-found a begin zero x h = absurd (ground (arith, h))
search-found a begin (suc n) x h = elim (Bool-cases (search a begin n x)) [
  | inl e ↦
      let f = search-found a begin n x e in
      record { place = f.place; place_lt = omega (arith, f.place_lt); entry = f.entry }
  | inr e ↦ record { place = n; place_lt = omega arith; entry = ground (arith, h, e) }
]

search-IsSearch : IsSearch search
search-IsSearch = record {
  finds = λ a begin n x up e. search-finds a begin n x e.place e.place_lt e.entry;
  found = λ a begin n x up h. search-found a begin n x h;
}

ring-IsApart : IsApart ring
ring-IsApart = record { degree_small = λ v. omega arith; apart = λ v w ne. ground arith }

abbrev begins : ℕ → ℕ
begins p = 2 * p

abbrev ends : ℕ → ℕ
ends p = 2 * p + 2

has_neighbor_example :
    (q : Queried) × (prepare_neighbor_query sort ring begins ends 2 true 16 (λ i. 7) ≡ some q)
    × ((p v w : ℕ)
        → p < 2
        → begins p ≤ v
        → v < ends p
        → (has_neighbor search ring q v w ≡ true) ↔ IsNeighbor ring v w)
has_neighbor_example =
    has_neighbor-IsNeighbor sort-IsSort search-IsSearch ring begins ends 2 true 16 (λ i. 7)
      ring-IsApart (omega arith)

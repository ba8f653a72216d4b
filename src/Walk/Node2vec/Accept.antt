-- ===== src/Walk/Node2vec/Accept.antt =====
-- src/core/walk.hpp, node2vec_accept: against a test that always asks for the neighbours.
use flashmob.Prelude.{ℕ, ◌≡◌, inl, inr, arith, Bool, true, Bool-cases}
use flashmob.Walk.Node2vec.{RealOrder, min_real, set_node2vec, node2vec_accept, weight}

module _ {R : Type 0} (o : RealOrder R) where
  min_real-le : (a b : R) → (o.le (min_real o a b) a ≡ true) × (o.le (min_real o a b) b ≡ true)
  unfolding min_real
  min_real-le a b = elim (Bool-cases (o.le a b)) [
    | inl e ↦ ground (arith, e, self a)
    | inr e ↦ ground (arith, e, self b, o.le_total a b e)
  ]
    where
      self : (x : R) → o.le x x ≡ true
      self x = elim (Bool-cases (o.le x x)) [ inl e ↦ e | inr e ↦ o.le_total x x e ]

  -- For a total order of weights, the test of node2vec, which asks for the neighbours only when
  -- the number drawn is above the smaller of 1 and 1 / q, accepts just the numbers up to the
  -- weight of the step: 1 / p back to the previous vertex, 1 to a neighbour of it, 1 / q to any
  -- other vertex.
  pub node2vec_accept-eq-weight :
      (has_neighbor : ℕ → ℕ → Bool) (one inverse_p inverse_q : R) (previous_vertex next_vertex : ℕ)
      (prob : R)
      → node2vec_accept o has_neighbor one
          (set_node2vec o one inverse_p inverse_q)
          previous_vertex
          next_vertex
          prob
        ≡ o.le prob (weight o has_neighbor one inverse_p inverse_q previous_vertex next_vertex)
  unfolding node2vec_accept set_node2vec weight
  node2vec_accept-eq-weight has_neighbor one inverse_p inverse_q previous_vertex next_vertex prob =
      let (one_le, q_le) = min_real-le one inverse_q in
      ground (
        arith,
        o.le_trans prob (min_real o one inverse_q) one,
        o.le_trans prob (min_real o one inverse_q) inverse_q,
        one_le,
        q_le,
      )

-- ===== src/Walk/Node2vec.antt =====
-- src/core/walk.hpp, WalkManager::node2vec_accept: the test of the rejection sampling. `R` stands
-- for real_t, floating-point numbers none of which is NaN: their order is total.
pub mod Accept
use flashmob.Prelude.{ℕ, ◌≡◌, Bool, true, false, not, ◌==◌, if◌then◌else◌}

pub record RealOrder (R : Type 0) : Type 0 where
  pub le : R → R → Bool
  pub le_trans : (a b c : R) → le a b ≡ true → le b c ≡ true → le a c ≡ true
  pub le_total : (a b : R) → le a b ≡ false → le b a ≡ true

module _ {R : Type 0} (o : RealOrder R) where
  -- std::min(a, b), which is b only if b < a
  pub min_real : R → R → R
  min_real a b = if o.le a b then a else b

  pub record Node2vec : Type 0 where
    pub div_p : R
    pub div_q : R
    pub n2v_min_1_q : R

  -- set_node2vec: `one` is 1.0, and the arguments are 1.0 / p and 1.0 / q.
  pub set_node2vec : R → R → R → Node2vec
  unfolding min_real
  set_node2vec one inverse_p inverse_q = record {
    div_p = inverse_p;
    div_q = inverse_q;
    n2v_min_1_q = min_real one inverse_q;
  }

  -- `has_neighbor u v` is `graph->has_neighbor(u, v, socket)`.
  pub node2vec_accept : (ℕ → ℕ → Bool) → R → Node2vec → ℕ → ℕ → R → Bool
  node2vec_accept has_neighbor one n previous_vertex next_vertex prob =
      if previous_vertex == next_vertex
      then o.le prob n.div_p
      else if o.le prob n.n2v_min_1_q
      then true
      else o.le prob (if has_neighbor previous_vertex next_vertex then one else n.div_q)

  -- The weight of a step in a node2vec walk.
  pub weight : (ℕ → ℕ → Bool) → R → R → R → ℕ → ℕ → R
  weight has_neighbor one inverse_p inverse_q previous_vertex next_vertex =
      if previous_vertex == next_vertex
      then inverse_p
      else if has_neighbor previous_vertex next_vertex
      then one
      else inverse_q

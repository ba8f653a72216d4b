-- ===== src/Graph/Load/Degrees.antt =====
-- src/core/graph.hpp, Graph::load: the degrees count the ends of the edges, and their sums.
use flashmob.Prelude.{
  ℕ, zero, suc, ◌+◌, ◌*◌, ◌^◌, ◌≤◌, ◌<◌, ◌≡◌, refl, ap, ◌∙◌, arith, Bool, true, false,
  if◌then◌else◌, write,
}
use flashmob.Prelude.Loops.{for_range, sum_below}
use flashmob.Prelude.Words.{add32, add64}
use flashmob.Message.Counts.{count, count-le, offset_all}
use flashmob.Graph.Sort.{VertexSortUnit}
use flashmob.Graph.Load.{
  Edge, clear_units, add_degree, count_edge, count_edges, edge_count, copy_degrees, sum_degrees,
}

pub clear_units-degree :
    (v_num v : ℕ) (blank : ℕ → VertexSortUnit)
    → v < v_num
    → ((clear_units v_num blank v).degree ≡ 0) × ((clear_units v_num blank v).vertex ≡ v)
unfolding clear_units for_range write
clear_units-degree zero v blank lt = absurd (omega arith)
clear_units-degree (suc n) v blank lt = ground (arith, clear_units-degree n v blank)

-- The ends of the first k edges at vertex v.
abbrev pub ends_at : Bool → (ℕ → Edge) → ℕ → ℕ → ℕ
ends_at as_undirected edges k v =
    count (λ e. (edges e).src) v k + (if as_undirected then count (λ e. (edges e).dst) v k else 0)

module _ (edges : ℕ → Edge) (units : ℕ → VertexSortUnit) (v : ℕ)
    (clear : (units v).degree ≡ 0) where
  pub count_edges-degree :
      (as_undirected : Bool) (k : ℕ)
      → k * 2 < 2 ^ 32
      → ((count_edges as_undirected edges k units v).degree ≡ ends_at as_undirected edges k v)
        × ((count_edges as_undirected edges k units v).vertex ≡ (units v).vertex)
  unfolding count_edges count_edge add_degree for_range write count add32
  count_edges-degree true zero small = ground (arith, clear)
  count_edges-degree false zero small = ground (arith, clear)
  count_edges-degree true (suc k) small = ground (
    arith,
    count_edges-degree true k,
    count-le (λ e. (edges e).src) v k,
    count-le (λ e. (edges e).dst) v k,
  )
  count_edges-degree false (suc k) small =
      ground (arith, count_edges-degree false k, count-le (λ e. (edges e).src) v k)

sum_below-add : (f h : ℕ → ℕ) (n : ℕ) → sum_below (λ x. f x + h x) n ≡ sum_below f n + sum_below h n
unfolding sum_below
sum_below-add f h zero = refl
sum_below-add f h (suc n) = omega (arith, sum_below-add f h n)

pub sum_below-agree :
    (f h : ℕ → ℕ) (n : ℕ) → ((x : ℕ) → x < n → f x ≡ h x) → sum_below f n ≡ sum_below h n
unfolding sum_below
sum_below-agree f h zero same = refl
sum_below-agree f h (suc n) same =
    omega (arith, sum_below-agree f h n (λ x lt. same x (omega arith)), same n (omega arith))

pub sum_below-nought : (n : ℕ) → sum_below (λ x. 0) n ≡ 0
unfolding sum_below
sum_below-nought zero = refl
sum_below-nought (suc n) = omega (arith, sum_below-nought n)

-- The ends of the edges at all vertices: one for each edge, or two.
ends_total :
    (as_undirected : Bool) (edges : ℕ → Edge) (edge_num v_num : ℕ)
    → ((e : ℕ) → e < edge_num → ((edges e).src < v_num) × ((edges e).dst < v_num))
    → sum_below (ends_at as_undirected edges edge_num) v_num ≡ edge_count as_undirected edge_num
unfolding edge_count
ends_total true edges edge_num v_num ids = omega (
  arith,
  sum_below-add (λ v. count (λ e. (edges e).src) v edge_num)
      (λ v. count (λ e. (edges e).dst) v edge_num) v_num,
  offset_all (λ e. (edges e).src) edge_num v_num (λ e lt. (ids e lt).0),
  offset_all (λ e. (edges e).dst) edge_num v_num (λ e lt. (ids e lt).1),
)
ends_total false edges edge_num v_num ids = omega (
  arith,
  sum_below-add (λ v. count (λ e. (edges e).src) v edge_num) (λ v. 0) v_num,
  sum_below-nought v_num,
  offset_all (λ e. (edges e).src) edge_num v_num (λ e lt. (ids e lt).0),
)

-- The counted degrees add up to the number of edges, or twice this number.
pub count_edges_total :
    (as_undirected : Bool) (edges : ℕ → Edge) (edge_num v_num : ℕ) (blank : ℕ → VertexSortUnit)
    → edge_num * 2 < 2 ^ 32
    → ((e : ℕ) → e < edge_num → ((edges e).src < v_num) × ((edges e).dst < v_num))
    → sum_below
        (λ v. (count_edges as_undirected edges edge_num (clear_units v_num blank) v).degree)
        v_num
      ≡ edge_count as_undirected edge_num
count_edges_total u edges edge_num v_num blank small ids =
    sum_below-agree _ (ends_at u edges edge_num) v_num (λ v lt.
      (count_edges-degree edges (clear_units v_num blank) v (clear_units-degree v_num v blank lt).0
        u edge_num small).0)
    ∙ ends_total u edges edge_num v_num ids

module _ (units : ℕ → VertexSortUnit) (blank : ℕ → ℕ) where
  pub copy_degrees_lem : (n v : ℕ) → v < n → copy_degrees units n blank v ≡ (units v).degree
  unfolding copy_degrees for_range write
  copy_degrees_lem zero v lt = absurd (omega arith)
  copy_degrees_lem (suc n) v lt = ground (arith, copy_degrees_lem n v)

module _ (degrees sums : ℕ → ℕ) where
  at : (n v : ℕ) → n ≡ v → sum_below degrees n ≡ sum_below degrees v
  at n v e = ap (sum_below degrees) e

  -- While the sums fit 64 bits, they are those of the degrees before.
  pub sum_degrees_lem :
      (n v : ℕ)
      → sum_below degrees n < 2 ^ 64
      → v ≤ n
      → sum_degrees degrees n sums v ≡ sum_below degrees v
  unfolding sum_degrees for_range write sum_below add64
  sum_degrees_lem zero v small le = ground arith
  sum_degrees_lem (suc n) v small le =
      ground (arith, sum_degrees_lem n v, sum_degrees_lem n n, at (suc n) v)

-- ===== src/Graph/Load.antt =====
-- src/core/graph.hpp, Graph::load: the names of the vertices become ids, and the degrees. The
-- vector name2id is a function of the index with its size.
pub mod Names
pub mod Renamed
pub mod Degrees
pub mod Total
use flashmob.Prelude.{ℕ, ◌+◌, ◌-◌, ◌*◌, ◌^◌, ◌==◌, Bool, if◌then◌else◌, write}
use flashmob.Prelude.Loops.{for_range}
use flashmob.Prelude.Words.{add32, add64}
use flashmob.Graph.Sort.{VertexSortUnit, counting_sort}

-- struct Edge
pub record Edge : Type 0 where
  pub src : ℕ
  pub dst : ℕ

-- UINT_MAX
abbrev pub uint_max : ℕ
uint_max = 2 ^ 32 - 1

pub record Loading : Type 0 where
  pub name2id : ℕ → ℕ
  pub size : ℕ
  pub v_num : ℕ
  pub raw_edges : ℕ → Edge

-- name2id.push_back(UINT_MAX)
pub push_back : Loading → Loading
push_back s = record s { name2id = write s.name2id s.size uint_max; size = s.size + 1 }

-- while (a >= name2id.size()), whose rounds are those up to the size a + 1.
pub grow : ℕ → Loading → Loading
unfolding for_range
grow a s = for_range s.size (a + 1 - s.size) (λ size. push_back) s

pub name_vertex : ℕ → Loading → Loading
name_vertex a s =
    if s.name2id a == uint_max
    then record s { name2id = write s.name2id a s.v_num; v_num = add32 s.v_num 1 }
    else s

pub name_edge : ℕ → Loading → Loading
name_edge e_i s =
    let a = (s.raw_edges e_i).src in
    let b = (s.raw_edges e_i).dst in
    let t = name_vertex b (name_vertex a (grow b (grow a s))) in
    record t { raw_edges = write t.raw_edges e_i (record { src = t.name2id a; dst = t.name2id b }) }

-- The names of all edges, from an empty name2id and v_num = 0; `blank` lies behind the vector.
pub name_edges : ℕ → (ℕ → ℕ) → (ℕ → Edge) → Loading
unfolding for_range
name_edges edge_num blank raw_edges =
    for_range 0 edge_num name_edge
      (record { name2id = blank; size = 0; v_num = 0; raw_edges = raw_edges })

-- vertex_units[v_i].degree = 0, vertex_units[v_i].vertex = v_i
pub clear_units : ℕ → (ℕ → VertexSortUnit) → ℕ → VertexSortUnit
unfolding for_range
clear_units v_num =
    for_range 0 v_num (λ v_i units. write units v_i (record { vertex = v_i; degree = 0 }))

pub add_degree : ℕ → (ℕ → VertexSortUnit) → ℕ → VertexSortUnit
add_degree v units = write units v (record (units v) { degree = add32 (units v).degree 1 })

pub count_edge : Bool → (ℕ → Edge) → ℕ → (ℕ → VertexSortUnit) → ℕ → VertexSortUnit
count_edge as_undirected raw_edges e_i units =
    let counted = add_degree (raw_edges e_i).src units in
    if as_undirected then add_degree (raw_edges e_i).dst counted else counted

pub count_edges : Bool → (ℕ → Edge) → ℕ → (ℕ → VertexSortUnit) → ℕ → VertexSortUnit
unfolding for_range
count_edges as_undirected raw_edges edge_num =
    for_range 0 edge_num (count_edge as_undirected raw_edges)

-- e_num: raw_edges.size(), twice when the graph is undirected.
pub edge_count : Bool → ℕ → ℕ
edge_count as_undirected edge_num = if as_undirected then edge_num * 2 else edge_num

-- degrees and degree_prefix_sum from the sorted units.
pub copy_degrees : (ℕ → VertexSortUnit) → ℕ → (ℕ → ℕ) → ℕ → ℕ
unfolding for_range
copy_degrees units v_num = for_range 0 v_num (λ v_i degrees. write degrees v_i (units v_i).degree)

pub sum_degrees : (ℕ → ℕ) → ℕ → (ℕ → ℕ) → ℕ → ℕ
unfolding for_range
sum_degrees degrees v_num sums =
    for_range 0 v_num (λ v_i s. write s (v_i + 1) (add64 (s v_i) (degrees v_i))) (write sums 0 0)

-- The vertex units of a graph, sorted: `blank`, `temp` and `zeros` are what new memory holds.
pub sorted_units :
    (ℕ → VertexSortUnit)
    → (ℕ → VertexSortUnit)
    → (ℕ → ℕ)
    → Bool
    → (ℕ → Edge)
    → ℕ
    → ℕ
    → ℕ
    → VertexSortUnit
sorted_units blank temp zeros as_undirected raw_edges edge_num v_num =
    counting_sort temp zeros
      (count_edges as_undirected raw_edges edge_num (clear_units v_num blank)) v_num

-- ===== src/Graph/Edges.antt =====
-- src/core/graph.hpp, Graph::make: the adjacency lists and the arrays of edges. An address in the
-- arrays edges[s] is a number; `base` s is where the memory of socket s begins.
pub mod Placed
use flashmob.Prelude.{ℕ, ◌+◌, ◌-◌, ◌*◌, ◌/◌, ◌%◌, ◌==◌, Bool, true, false, if◌then◌else◌, write}
use flashmob.Prelude.Loops.{for_range}
use flashmob.Prelude.Words.{add64}
use flashmob.Graph.Sort.{VertexSortUnit}
use flashmob.Graph.Load.{Edge}
use flashmob.Sampler.{AdjList}

-- adjlists[s_i][v_i].degree = vertex_units[v_i].degree, on every socket.
pub set_degrees : (ℕ → VertexSortUnit) → ℕ → ℕ → (ℕ → ℕ → AdjList) → ℕ → ℕ → AdjList
unfolding for_range
set_degrees units v_num socket_num = for_range 0 v_num (λ v_i adjlists.
    for_range 0 socket_num
      (λ s_i a.
        write a s_i (write (a s_i) v_i (record (a s_i v_i) { degree = (units v_i).degree })))
      adjlists)

-- p_e_num: how many edges the partitions of a socket have.
pub socket_edge_num : (ℕ → AdjList) → (ℕ → ℕ) → (ℕ → ℕ) → (ℕ → ℕ) → ℕ → ℕ
unfolding for_range
socket_edge_num adjlist partition_begin partition_end partitions num =
    for_range 0 num
      (λ p_i total.
        let p = partitions p_i in
        for_range (partition_begin p) (partition_end p - partition_begin p)
          (λ v_i sum. add64 sum (adjlist v_i).degree) total)
      0

pub record Layout : Type 0 where
  pub adjlists : ℕ → AdjList
  pub edge_end : ℕ → ℕ
  pub temp : ℕ

pub lay_vertex : ℕ → (ℕ → ℕ) → ℕ → Layout → Layout
lay_vertex base degree v_i s = record {
  adjlists = write s.adjlists v_i (record (s.adjlists v_i) { begin = base + s.temp });
  edge_end = write s.edge_end v_i (base + s.temp);
  temp = s.temp + degree v_i;
}

pub lay_partition : ℕ → (ℕ → ℕ) → ℕ → ℕ → Layout → Layout
unfolding for_range
lay_partition base degree begin end = for_range begin (end - begin) (lay_vertex base degree)

-- The round of a socket, with temp = 0; `degree` v is adjlists[s_i][v].degree.
pub lay_socket : ℕ → (ℕ → ℕ) → (ℕ → ℕ) → (ℕ → ℕ) → (ℕ → ℕ) → ℕ → Layout → Layout
unfolding for_range
lay_socket base degree partition_begin partition_end partitions num s =
    for_range 0 num
      (λ p_i.
        lay_partition base degree (partition_begin (partitions p_i))
          (partition_end (partitions p_i)))
      (record s { temp = 0 })

pub record Placing : Type 0 where
  pub edge_end : ℕ → ℕ
  pub neighbor : ℕ → ℕ

-- __sync_fetch_and_add(&edge_end[u], sizeof(AdjUnit)), whose result gets the neighbour.
pub place_end : ℕ → ℕ → Placing → Placing
place_end u v s = record {
  edge_end = write s.edge_end u (s.edge_end u + 1);
  neighbor = write s.neighbor (s.edge_end u) v;
}

pub place_edge : Bool → (ℕ → Edge) → ℕ → Placing → Placing
place_edge as_undirected edges e_i s =
    let u = (edges e_i).src in
    let v = (edges e_i).dst in
    if as_undirected then place_end v u (place_end u v s) else place_end u v s

-- The ends of an undirected edge are two, the second from dst to src.
unfoldable pub end_num : Bool → ℕ → ℕ
end_num as_undirected edge_num = if as_undirected then edge_num * 2 else edge_num

unfoldable pub end_owner : Bool → (ℕ → Edge) → ℕ → ℕ
end_owner true edges j = if j % 2 == 0 then (edges (j / 2)).src else (edges (j / 2)).dst
end_owner false edges j = (edges j).src

unfoldable pub end_target : Bool → (ℕ → Edge) → ℕ → ℕ
end_target true edges j = if j % 2 == 0 then (edges (j / 2)).dst else (edges (j / 2)).src
end_target false edges j = (edges j).dst

-- The parallel loop: the ends are appended in any order, `turns` i being the one whose atomic
-- addition is number i. The place that it returns is written by that end only.
pub place_edges : Bool → (ℕ → Edge) → ℕ → (ℕ → ℕ) → Placing → Placing
unfolding for_range end_num end_owner end_target
place_edges as_undirected edges edge_num turns = for_range 0 (end_num as_undirected edge_num) (λ i.
    place_end (end_owner as_undirected edges (turns i)) (end_target as_undirected edges (turns i)))

-- adjlists[s_i][v_i] = adjlists[0][v_i] for the sockets from 1 on.
pub copy_adjlists : ℕ → ℕ → (ℕ → ℕ → AdjList) → ℕ → ℕ → AdjList
unfolding for_range
copy_adjlists socket_num v_num =
    for_range 1 (socket_num - 1)
      (λ s_i a. write a s_i (for_range 0 v_num (λ v_i list. write list v_i (a 0 v_i)) (a s_i)))

-- ===== src/Examples/Graphs.antt =====
-- Small graphs: loaded, sorted and dealt out to partitions.
use flashmob.Prelude.{
  ℕ, ◌+◌, ◌-◌, ◌*◌, ◌≤◌, ◌<◌, ◌≡◌, ◌≢◌, ◌⊎◌, arith, true, if◌then◌else◌, ◌==◌, some, min, List, ltb,
}
use flashmob.Message.Counts.{count, count-le}
use flashmob.Graph.Sort.{VertexSortUnit, counting_sort}
use flashmob.Graph.Sort.Order.{Reorders, counting_sort_lem}
use flashmob.Graph.Load.{
  Edge, name_edges, count_edges, clear_units, sorted_units, copy_degrees, sum_degrees, edge_count,
}
use flashmob.Graph.Load.Renamed.{IsRenamed, name_edges-IsRenamed}
use flashmob.Graph.Load.Degrees.{clear_units-degree, count_edges-degree}
use flashmob.Graph.Load.Total.{degree_prefix_sum_total}
use flashmob.Graph.{partition_on}
use flashmob.Graph.Partitions.{GroupHint, PartitionRange, make_groups, make_partitions}
use flashmob.Graph.Partitions.Groups.{Holds}
use flashmob.Graph.Partitions.Lookup.{IsHint, get_vertex_partition_id-Holds}
use flashmob.Graph.Shuffle.{Dealing, shuffle_units}
use flashmob.Graph.Shuffle.Sorted.{IsBlock, Shuffled, shuffle_units-Shuffled}
use flashmob.Graph.Sockets.{assign_sockets, list_partitions}
use flashmob.Graph.Sockets.Lists.{IsListed, list_partitions-IsListed}
use flashmob.Graph.Ids.{name_tables}
use flashmob.Graph.Ids.Names.{name_tables-back}
use flashmob.Graph.Edges.{Placing, end_num, end_owner, place_edges}
use flashmob.Graph.Edges.Placed.{IsPlaced, IsTurns, place_edges-IsPlaced}
use flashmob.Examples.Data.{blank}

abbrev units : ℕ → VertexSortUnit
units v = record { vertex = v; degree = if v == 1 then 2 else 1 }

abbrev no_units : ℕ → VertexSortUnit
no_units v = record { vertex = 0; degree = 0 }

counting_sort_example :
    Reorders units (counting_sort no_units blank units 3) 3
    × ((i j : ℕ)
        → i ≤ j
        → j < 3
        → (counting_sort no_units blank units 3 j).degree
          ≤ (counting_sort no_units blank units 3 i).degree)
counting_sort_example =
    counting_sort_lem units 3 (omega arith) (λ v lt. ground arith) no_units blank

abbrev named_edges : ℕ → Edge
named_edges e = record { src = 5 + e; dst = 5 }

name_edges_example : IsRenamed 10 (omega arith) named_edges 2 (name_edges 2 blank named_edges)
name_edges_example =
    name_edges-IsRenamed 10 (omega arith) named_edges 2 blank (λ e lt. (omega arith, omega arith))

-- One undirected edge between vertices 0 and 1.
abbrev one_edge : ℕ → Edge
one_edge e = record { src = 0; dst = 1 }

both_counted : (v : ℕ) → v < 2 → 0 < (count_edges true one_edge 1 (clear_units 2 no_units) v).degree
unfolding count
both_counted v lt =
    let clear = (clear_units-degree 2 v no_units lt).0 in
    let e = (count_edges-degree one_edge (clear_units 2 no_units) v clear true 1 (omega arith)).0 in
    rw e (ground arith)

degree_prefix_sum_example :
    sum_degrees
      (copy_degrees (sorted_units no_units no_units blank true one_edge 1 2) 2 blank)
      2
      blank
      2
    ≡ edge_count true 1
degree_prefix_sum_example =
    degree_prefix_sum_total true one_edge 1 2 no_units no_units blank blank blank (omega arith)
      (omega arith) (λ e lt. (omega arith, omega arith)) both_counted

abbrev sorted : ℕ → VertexSortUnit
sorted v = record { vertex = v; degree = 10 - v }

abbrev begins : ℕ → ℕ
begins p = 2 * p

abbrev ends : ℕ → ℕ
ends p = 2 * p + 2

is_block : IsBlock begins ends 2
is_block = record {
  some_partition = omega arith;
  first = omega arith;
  next = λ p lt. omega arith;
  ordered = λ p lt. omega arith;
}

shuffle_units_example :
    (t : Dealing) × (shuffle_units no_units blank begins ends 2 sorted ≡ some t)
    × Shuffled begins ends 2 sorted t.units
shuffle_units_example =
    shuffle_units-Shuffled begins ends 2 sorted no_units blank is_block (λ i j le lt. omega arith)

abbrev no_lists : ℕ → ℕ → ℕ
no_lists s i = 0

list_partitions_example :
    IsListed 2 5
      (assign_sockets 2 5 blank blank)
      (list_partitions (assign_sockets 2 5 blank blank).partition_socket 5 no_lists)
list_partitions_example = list_partitions-IsListed 2 (omega arith) 5 blank blank no_lists

abbrev next_id : ℕ → ℕ
next_id v = v + 1

abbrev same : ℕ → ℕ
same x = x

name_tables_example :
    (name_tables next_id same 4 blank).id2name ((name_tables next_id same 4 blank).name2id 2) ≡ 2
name_tables_example =
    name_tables-back next_id same blank 4 (λ x y x_lt y_lt x_has y_has e. omega (arith, e)) 2
      (omega arith) (λ e. absurd (omega (arith, e)))

-- The path 0 - 1 - 2, with room for four neighbours each.
abbrev path : ℕ → Edge
path e = record { src = e; dst = e + 1 }

abbrev start : Placing
start = record { edge_end = λ v. 4 * v; neighbor = blank }

rooms_apart :
    (v w : ℕ)
    → v ≢ w
    → (4 * v + count (end_owner true path) v (end_num true 2) ≤ 4 * w)
      ⊎ (4 * w + count (end_owner true path) w (end_num true 2) ≤ 4 * v)
unfolding end_num
rooms_apart v w ne =
    ground (arith, count-le (end_owner true path) v 4, count-le (end_owner true path) w 4)

-- The second edge is placed before the first.
abbrev swapped : ℕ → ℕ
swapped i = if ltb i 2 then i + 2 else i - 2

swapped-IsTurns : IsTurns (end_num true 2) swapped
unfolding end_num
swapped-IsTurns = record {
  back = swapped;
  turns-lt = λ i lt. ground arith;
  back-lt = λ i lt. ground arith;
  turns-back = λ i lt. ground arith;
  back-turns = λ i lt. ground arith;
}

place_edges_example :
    IsPlaced true path 2 start.edge_end (place_edges true path 2 swapped start).neighbor
place_edges_example = place_edges-IsPlaced true path 2 swapped start swapped-IsTurns rooms_apart

-- Three vertices in groups of two; the first group has partitions of one vertex.
abbrev hints : ℕ → GroupHint
hints g = record {
  vertex_begin = 2 * g;
  vertex_end = min 3 (2 * g + 2);
  partition_bits = if g == 0 then 0 else 1;
}

hints-IsHint : IsHint 1 2 3 hints
hints-IsHint = record {
  begins = λ g lt. omega arith;
  ends = λ g lt. omega arith;
  bits = λ g lt. ground arith;
  cover = omega arith;
  used = λ g lt. omega arith;
  group_bits_small = omega arith;
  small = omega arith;
}

get_vertex_partition_id_example :
    (ranges : List PartitionRange) × (make_partitions 3 hints 2 ≡ some ranges)
    × ((s v : ℕ) → v < 3 → Holds ranges (partition_on (make_groups 1 hints) s v) v)
get_vertex_partition_id_example = get_vertex_partition_id-Holds 1 2 3 hints hints-IsHint

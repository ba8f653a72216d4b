-- ===== src/Graph/Ids.antt =====
-- src/core/graph.hpp, Graph::make: the new ids of the vertices, and the degrees of the partitions.
pub mod Bounds
pub mod Names
use flashmob.Prelude.{ℕ, ◌-◌, ◌==◌, min, max, if◌then◌else◌, write}
use flashmob.Prelude.Loops.{for_range}
use flashmob.Prelude.Words.{add64}
use flashmob.Graph.Sort.{VertexSortUnit}
use flashmob.Graph.Load.{Edge, uint_max}

pub record Renumbering : Type 0 where
  pub id2newid : ℕ → ℕ
  pub partition_edge_num : ℕ → ℕ

pub sum_edges : (ℕ → VertexSortUnit) → ℕ → ℕ → ℕ
unfolding for_range
sum_edges units begin n = for_range begin n (λ v_i edge_nums. add64 edge_nums (units v_i).degree) 0

pub new_ids : (ℕ → VertexSortUnit) → ℕ → ℕ → (ℕ → ℕ) → ℕ → ℕ
unfolding for_range
new_ids units begin n = for_range begin n (λ v_i ids. write ids (units v_i).vertex v_i)

pub renumber_one : (ℕ → VertexSortUnit) → (ℕ → ℕ) → (ℕ → ℕ) → ℕ → Renumbering → Renumbering
renumber_one units partition_begin partition_end p_i s =
    let begin = partition_begin p_i in
    let n = partition_end p_i - begin in
    record {
      id2newid = new_ids units begin n s.id2newid;
      partition_edge_num = write s.partition_edge_num p_i (sum_edges units begin n);
    }

-- The loop over the partitions; id2newid holds zeros at first, `zeros` is partition_edge_num.
pub renumber : (ℕ → VertexSortUnit) → (ℕ → ℕ) → (ℕ → ℕ) → ℕ → (ℕ → ℕ) → Renumbering
unfolding for_range
renumber units partition_begin partition_end partition_num zeros =
    for_range 0 partition_num (renumber_one units partition_begin partition_end)
      (record { id2newid = λ v. 0; partition_edge_num = zeros })

pub record DegreeBounds : Type 0 where
  pub max_degree : ℕ
  pub min_degree : ℕ

-- partition_max_degree[p_i] and partition_min_degree[p_i], for n vertices from `begin`.
pub degree_bounds : (ℕ → VertexSortUnit) → ℕ → ℕ → ℕ → DegreeBounds
unfolding for_range
degree_bounds units v_num begin n =
    for_range begin n
      (λ v_i s. record {
        max_degree = max s.max_degree (units v_i).degree;
        min_degree = min s.min_degree (units v_i).degree;
      })
      (record { max_degree = 0; min_degree = v_num })

pub renumber_edges : (ℕ → ℕ) → ℕ → (ℕ → Edge) → ℕ → Edge
unfolding for_range
renumber_edges id2newid edge_num = for_range 0 edge_num (λ e_i edges.
    write edges e_i (record { src = id2newid (edges e_i).src; dst = id2newid (edges e_i).dst }))

pub record NameTables : Type 0 where
  pub name2id : ℕ → ℕ
  pub id2name : ℕ → ℕ

pub name_one : (ℕ → ℕ) → ℕ → NameTables → NameTables
name_one id2newid n_i s =
    if s.name2id n_i == uint_max
    then s
    else let id = id2newid (s.name2id n_i) in
      record { name2id = write s.name2id n_i id; id2name = write s.id2name id n_i }

pub name_tables : (ℕ → ℕ) → (ℕ → ℕ) → ℕ → (ℕ → ℕ) → NameTables
unfolding for_range
name_tables id2newid name2id size blank =
    for_range 0 size (name_one id2newid) (record { name2id = name2id; id2name = blank })

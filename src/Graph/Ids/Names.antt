-- ===== src/Graph/Ids/Names.antt =====
-- src/core/graph.hpp, Graph::make: id2name leads back from the new id of a name.
use flashmob.Prelude.{ℕ, zero, suc, ◌≤◌, ◌<◌, ◌≡◌, ◌≢◌, refl, arith, write}
use flashmob.Prelude.Loops.{for_range}
use flashmob.Graph.Load.{uint_max}
use flashmob.Graph.Ids.{NameTables, name_one, name_tables}

module _ (id2newid name2id blank : ℕ → ℕ) where
  abbrev tables : ℕ → NameTables
  tables k = for_range 0 k (name_one id2newid) (record { name2id = name2id; id2name = blank })

  later_same : (k x : ℕ) → k ≤ x → (tables k).name2id x ≡ name2id x
  unfolding for_range name_one write
  later_same zero x le = refl
  later_same (suc k) x le = ground (arith, later_same k x)

  renamed : (k x : ℕ) → x < k → name2id x ≢ uint_max → (tables k).name2id x ≡ id2newid (name2id x)
  unfolding for_range name_one write
  renamed zero x lt ne = absurd (omega arith)
  renamed (suc k) x lt ne = ground (arith, renamed k x, later_same k x)

  module _ (size : ℕ)
      (apart : (x y : ℕ)
        → x < size
        → y < size
        → name2id x ≢ uint_max
        → name2id y ≢ uint_max
        → id2newid (name2id x) ≡ id2newid (name2id y)
        → x ≡ y) where
    back :
        (k x : ℕ)
        → k ≤ size
        → x < k
        → name2id x ≢ uint_max
        → (tables k).id2name (id2newid (name2id x)) ≡ x
    unfolding for_range name_one write
    back zero x le lt ne = absurd (omega arith)
    back (suc k) x le lt ne = ground (arith, back k x, later_same k k, later_same k x, apart x k)

    -- When the names with an id get new ids that differ: id2name leads from the new id of a name
    -- back to the name.
    pub name_tables-back :
        (x : ℕ)
        → x < size
        → name2id x ≢ uint_max
        → (name_tables id2newid name2id size blank).id2name
            ((name_tables id2newid name2id size blank).name2id x)
          ≡ x
    unfolding name_tables
    name_tables-back x lt ne = rw (renamed size x lt ne) (back size x (omega arith) lt ne)

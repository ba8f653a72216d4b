-- ===== src/Graph/Shuffle/Sorted.antt =====
-- src/core/graph.hpp, Graph::make: each partition of the dealt block stays sorted by degree.
use flashmob.Prelude.{
  ℕ, zero, suc, ◌+◌, ◌-◌, ◌≤◌, ◌<◌, ◌≡◌, inl, inr, refl, sym, ◌∙◌, subst, ap, arith, some,
  lt_suc-cases, write,
}
use flashmob.Prelude.Loops.{for_range, sum_below}
use native.Mathlib.Decide.{ℕ_discrete}
use flashmob.Graph.Sort.{VertexSortUnit}
use flashmob.Graph.Shuffle.{Dealing, copy_temp, copy_bounds, shuffle_units}
use flashmob.Graph.Shuffle.Dealt.{IsApart, Filled, IsDealt}
use flashmob.Graph.Shuffle.Ends.{deal_rounds-ends, sum_below-le, same_terms}

copy_temp_lem :
    (units blank : ℕ → VertexSortUnit) (n c : ℕ) → c < n → copy_temp units n blank c ≡ units c
unfolding copy_temp for_range write
copy_temp_lem units blank zero c lt = absurd (omega arith)
copy_temp_lem units blank (suc n) c lt = ground (arith, copy_temp_lem units blank n c)

copy_bounds_lem : (bounds zeros : ℕ → ℕ) (n p : ℕ) → p < n → copy_bounds bounds n zeros p ≡ bounds p
unfolding copy_bounds for_range write
copy_bounds_lem bounds zeros zero p lt = absurd (omega arith)
copy_bounds_lem bounds zeros (suc n) p lt = ground (arith, copy_bounds_lem bounds zeros n p)

-- The first partitions lie behind one another, from vertex 0.
pub record IsBlock (partition_begin partition_end : ℕ → ℕ) (num : ℕ) : Type 0 where
  pub some_partition : 0 < num
  pub first : partition_begin 0 ≡ 0
  pub next : (p : ℕ) → suc p < num → partition_begin (suc p) ≡ partition_end p
  pub ordered : (p : ℕ) → p < num → partition_begin p ≤ partition_end p

-- The place is one of partition p.
pub record InPartition (partition_begin partition_end : ℕ → ℕ) (num p c : ℕ) : Type 0 where
  pub partition_lt : p < num
  pub from : partition_begin p ≤ c
  pub below : c < partition_end p

-- `source c` is the index at which the unit of place c was before.
pub record Shuffled (partition_begin partition_end : ℕ → ℕ) (num : ℕ)
    (orig units : ℕ → VertexSortUnit) : Type 0 where
  pub source : ℕ → ℕ
  pub holds :
      (p c : ℕ) → InPartition partition_begin partition_end num p c → units c ≡ orig (source c)
  pub source_lt :
      (p c : ℕ)
      → InPartition partition_begin partition_end num p c
      → source c < partition_end (num - 1)
  pub unique :
      (p q c d : ℕ)
      → InPartition partition_begin partition_end num p c
      → InPartition partition_begin partition_end num q d
      → source c ≡ source d
      → c ≡ d
  pub rest : (c : ℕ) → partition_end (num - 1) ≤ c → units c ≡ orig c
  pub descending :
      (p c d : ℕ)
      → InPartition partition_begin partition_end num p c
      → InPartition partition_begin partition_end num p d
      → c ≤ d
      → (units d).degree ≤ (units c).degree

module _ (b e : ℕ → ℕ) (num : ℕ) (block : IsBlock b e num) where
  end_before : (p q : ℕ) → p < q → q < num → e p ≤ b q
  end_before p zero lt h = absurd (omega arith)
  end_before p (suc q) lt h = elim (lt_suc-cases p q lt) [
    | inl at ↦ rw at (omega (arith, block.next q h))
    | inr less ↦ omega (arith, end_before p q less, block.ordered q (omega arith), block.next q h)
  ]

  block_sum : (m : ℕ) → suc m ≤ num → sum_below e (suc m) ≡ sum_below b (suc m) + e m
  unfolding sum_below
  block_sum zero h = omega (arith, block.first)
  block_sum (suc m) h = omega (arith, block_sum m (omega arith), block.next m (omega arith))

  end_last : (p : ℕ) → p < num → e p ≤ e (num - 1)
  end_last p lt = elim (ℕ_discrete p (num - 1)) [
    | yes at ↦ rw at (omega arith)
    | no ne ↦ omega (
      arith,
      end_before p (num - 1) (omega arith) (omega arith),
      block.ordered (num - 1) (omega arith),
    )
  ]

module _ (pb pe : ℕ → ℕ) (num : ℕ) (orig blank : ℕ → VertexSortUnit) (zeros : ℕ → ℕ)
    (block : IsBlock pb pe num) where
  abbrev total : ℕ
  total = pe (num - 1)

  abbrev b : ℕ → ℕ
  b = copy_bounds pb num zeros

  abbrev e : ℕ → ℕ
  e = copy_bounds pe num zeros

  abbrev temp : ℕ → VertexSortUnit
  temp = copy_temp orig total blank

  b_is : (p : ℕ) → p < num → b p ≡ pb p
  b_is = copy_bounds_lem pb zeros num

  e_is : (p : ℕ) → p < num → e p ≡ pe p
  e_is = copy_bounds_lem pe zeros num

  copied : IsBlock b e num
  copied = record {
    some_partition = block.some_partition;
    first = b_is 0 block.some_partition ∙ block.first;
    next = λ p lt. b_is (suc p) lt ∙ block.next p lt ∙ sym (e_is p (omega arith));
    ordered = λ p lt. omega (arith, b_is p lt, e_is p lt, block.ordered p lt);
  }

  apart : IsApart orig temp b e num
  apart = record { ordered = copied.ordered; apart = end_before b e num copied }

  fits : sum_below e num ≡ sum_below b num + total
  fits =
      let last : suc (num - 1) ≡ num = omega (arith, block.some_partition) in
      subst (λ m. sum_below e m ≡ sum_below b m + e (num - 1)) last
        (block_sum b e num copied (num - 1) (omega (arith, block.some_partition)))
      ∙ ap (λ x. sum_below b num + x) (e_is (num - 1) (omega (arith, block.some_partition)))

  abbrev start : Dealing
  start = record { units = orig; temp_partition_p = b; v_i = 0 }

  start-IsDealt : IsDealt orig temp b e num start
  start-IsDealt = record {
    from = λ p lt. omega arith;
    to = copied.ordered;
    dealt = omega arith;
    source = λ c. 0;
    holds = λ p c f. absurd (nowhere p c f);
    older = λ p c f. absurd (nowhere p c f);
    rising = λ p c d f f' lt. absurd (nowhere p c f);
    unique = λ p q c d f f' eq. absurd (nowhere p c f);
    onto = λ i lt. absurd (omega arith);
    rest = λ c past. refl;
  }
    where
      nowhere : (p c : ℕ) → Filled orig temp b e num start p c → ⊥
      nowhere p c f = absurd (omega (arith, f.from, f.below))

  module _ (t : Dealing) (d : IsDealt orig temp b e num t) (past : total ≤ t.v_i) where
    all_dealt : (p : ℕ) → p < num → t.temp_partition_p p ≡ pe p
    all_dealt p lt =
        same_terms t.temp_partition_p e num d.to (omega (arith, d.dealt, fits)) p lt ∙ e_is p lt

    no_more : t.v_i ≤ total
    no_more = omega (arith, d.dealt, fits, sum_below-le t.temp_partition_p e num d.to)

    filled : (p c : ℕ) → InPartition pb pe num p c → Filled orig temp b e num t p c
    filled p c i = record {
      partition_lt = i.partition_lt;
      from = omega (arith, i.from, b_is p i.partition_lt);
      below = omega (arith, i.below, all_dealt p i.partition_lt);
    }

    source_small : (p c : ℕ) → InPartition pb pe num p c → d.source c < total
    source_small p c i = omega (arith, d.older p c (filled p c i), no_more)

    found : (p c : ℕ) → InPartition pb pe num p c → t.units c ≡ orig (d.source c)
    found p c i =
        d.holds p c (filled p c i)
        ∙ copy_temp_lem orig blank total (d.source c) (source_small p c i)

    dealt-Shuffled :
        ((i j : ℕ) → i ≤ j → j < total → (orig j).degree ≤ (orig i).degree)
        → Shuffled pb pe num orig t.units
    dealt-Shuffled sorted = record {
      source = d.source;
      holds = found;
      source_lt = source_small;
      unique = λ p q c c' i j. d.unique p q c c' (filled p c i) (filled q c' j);
      rest = λ c le. d.rest c (λ p lt. omega (arith, e_is p lt, end_last pb pe num block p lt, le));
      descending = λ p c c' i j le.
          rw (found p c i, found p c' j)
            elim (ℕ_discrete c c') [
              | yes at ↦ rw at (omega arith)
              | no ne ↦
                  sorted (d.source c) (d.source c')
                    (omega (arith, d.rising p c c' (filled p c i) (filled p c' j) (omega arith)))
                    (source_small p c' j)
            ];
    }

-- For partitions that lie behind one another from vertex 0 and units by descending degree: the
-- dealing ends within its fuel; it moves each unit of the block to a place of its own, leaves the
-- others, and each partition is by descending degree again.
pub shuffle_units-Shuffled :
    (partition_begin partition_end : ℕ → ℕ) (num : ℕ) (orig blank : ℕ → VertexSortUnit)
    (zeros : ℕ → ℕ)
    → IsBlock partition_begin partition_end num
    → ((i j : ℕ) → i ≤ j → j < partition_end (num - 1) → (orig j).degree ≤ (orig i).degree)
    → (t : Dealing) × (shuffle_units blank zeros partition_begin partition_end num orig ≡ some t)
      × Shuffled partition_begin partition_end num orig t.units
unfolding shuffle_units
shuffle_units-Shuffled pb pe num orig blank zeros block sorted =
    let (t, eq, d, past) =
      deal_rounds-ends orig (temp pb pe num orig blank zeros block)
        (b pb pe num orig blank zeros block) (e pb pe num orig blank zeros block) num (pe (num - 1))
        (apart pb pe num orig blank zeros block) (fits pb pe num orig blank zeros block)
        (pe (num - 1)) (start pb pe num orig blank zeros block) (omega arith)
        (start-IsDealt pb pe num orig blank zeros block) in
    (t, eq, dealt-Shuffled pb pe num orig blank zeros block t d past sorted)

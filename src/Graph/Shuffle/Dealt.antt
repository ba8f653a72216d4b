-- ===== src/Graph/Shuffle/Dealt.antt =====
-- src/core/graph.hpp, Graph::make: what each round of the dealing keeps.
use flashmob.Prelude.{
  ℕ, zero, suc, ◌+◌, ◌≤◌, ◌<◌, ◌≡◌, ◌≢◌, ◌⊎◌, inl, inr, refl, sym, ◌∙◌, subst, ap, arith, write,
  write_self, write_ne, lt_suc-cases,
}
use flashmob.Prelude.Loops.{sum_below}
use native.Mathlib.Decide.{ℕ_discrete}
use flashmob.Graph.Sort.{VertexSortUnit}
use flashmob.Graph.Shuffle.{Dealing}

sum_below-past : (h : ℕ → ℕ) (n x w : ℕ) → n ≤ x → sum_below (write h x w) n ≡ sum_below h n
unfolding sum_below write
sum_below-past h zero x w le = refl
sum_below-past h (suc n) x w le = ground (arith, sum_below-past h n x w)

sum_below-next :
    (f : ℕ → ℕ) (m p v : ℕ) → p < m → v ≡ f p + 1 → sum_below (write f p v) m ≡ sum_below f m + 1
unfolding sum_below write
sum_below-next f zero p v lt e = absurd (omega arith)
sum_below-next f (suc m) p v lt e = ground (arith, sum_below-next f m p v, sum_below-past f m p v)

module _ (orig temp : ℕ → VertexSortUnit) (begins ends : ℕ → ℕ) (num : ℕ) where
  -- The ranges of the partitions lie apart.
  pub record IsApart : Type 0 where
    pub ordered : (p : ℕ) → p < num → begins p ≤ ends p
    pub apart : (p q : ℕ) → p < q → q < num → ends p ≤ begins q

  -- A place of partition p that has its unit.
  pub record Filled (s : Dealing) (p c : ℕ) : Type 0 where
    pub partition_lt : p < num
    pub from : begins p ≤ c
    pub below : c < s.temp_partition_p p

  -- `source c` is the index of the unit dealt to place c.
  pub record IsDealt (s : Dealing) : Type 0 where
    pub from : (p : ℕ) → p < num → begins p ≤ s.temp_partition_p p
    pub to : (p : ℕ) → p < num → s.temp_partition_p p ≤ ends p
    pub dealt : sum_below s.temp_partition_p num ≡ sum_below begins num + s.v_i
    pub source : ℕ → ℕ
    pub holds : (p c : ℕ) → Filled s p c → s.units c ≡ temp (source c)
    pub older : (p c : ℕ) → Filled s p c → source c < s.v_i
    pub rising : (p c d : ℕ) → Filled s p c → Filled s p d → c < d → source c < source d
    pub unique : (p q c d : ℕ) → Filled s p c → Filled s q d → source c ≡ source d → c ≡ d
    pub onto : (i : ℕ) → i < s.v_i → (p : ℕ) × (c : ℕ) × Filled s p c × (source c ≡ i)
    pub rest : (c : ℕ) → ((p : ℕ) → p < num → ends p ≤ c) → s.units c ≡ orig c

  module _ (apart : IsApart) where
    -- The state after unit v_i is dealt to partition p.
    abbrev pub dealt_to : ℕ → Dealing → Dealing
    dealt_to p s = record {
      units = write s.units (s.temp_partition_p p) (temp s.v_i);
      temp_partition_p = write s.temp_partition_p p (s.temp_partition_p p + 1);
      v_i = s.v_i + 1;
    }

    -- A place filled now was filled before, or is the new one.
    filled-cases :
        (p : ℕ) (s : Dealing) (q c : ℕ)
        → Filled (dealt_to p s) q c
        → ((q ≡ p) × (c ≡ s.temp_partition_p p)) ⊎ (Filled s q c)
    filled-cases p s q c f = elim (ℕ_discrete q p) [
      | yes e ↦
          let less : c < s.temp_partition_p p + 1 =
            ground
              (arith, f.below, e, write_self s.temp_partition_p p (s.temp_partition_p p + 1)) in
          elim (lt_suc-cases c (s.temp_partition_p p) (omega arith)) [
            | inl at ↦ inl (e, at)
            | inr less ↦ inr (record {
              partition_lt = f.partition_lt;
              from = f.from;
              below = subst (λ x. c < s.temp_partition_p x) (sym e) less;
            })
          ]
      | no ne ↦ inr (record {
        partition_lt = f.partition_lt;
        from = f.from;
        below = subst (λ x. c < x) (write_ne s.temp_partition_p p _ q ne) f.below;
      })
    ]

    still_filled : (p : ℕ) (s : Dealing) (q c : ℕ) → Filled s q c → Filled (dealt_to p s) q c
    still_filled p s q c f = record {
      partition_lt = f.partition_lt;
      from = f.from;
      below = ground (
        arith,
        f.below,
        write_self s.temp_partition_p p (s.temp_partition_p p + 1),
        write_ne s.temp_partition_p p (s.temp_partition_p p + 1) q,
      );
    }

    -- The places that are filled after the step lie in the partitions, and the new one was not filled.
    not_new :
        (p : ℕ) (s : Dealing) (q c : ℕ)
        → p < num
        → s.temp_partition_p p < ends p
        → IsDealt s
        → Filled s q c
        → c ≢ s.temp_partition_p p
    not_new p s q c p_lt room k f e = elim (ℕ_discrete q p) [
      | yes at ↦ absurd (omega (arith, e, subst (λ x. c < s.temp_partition_p x) at f.below))
      | no ne ↦ absurd (
          ground (
            arith,
            e,
            f.from,
            f.below,
            k.from p p_lt,
            k.to q f.partition_lt,
            f.partition_lt,
            apart.apart p q,
            apart.apart q p,
          ))
    ]

    pub dealt_to-IsDealt :
        (p : ℕ) (s : Dealing)
        → p < num
        → s.temp_partition_p p < ends p
        → IsDealt s
        → IsDealt (dealt_to p s)
    dealt_to-IsDealt p s p_lt room k = record {
      from = λ q lt. ground (
        arith,
        k.from q lt,
        write_self s.temp_partition_p p (s.temp_partition_p p + 1),
        write_ne s.temp_partition_p p (s.temp_partition_p p + 1) q,
      );
      to = λ q lt. ground (
        arith,
        k.to q lt,
        write_self s.temp_partition_p p (s.temp_partition_p p + 1),
        write_ne s.temp_partition_p p (s.temp_partition_p p + 1) q,
      );
      dealt = omega (arith, sum_below-next s.temp_partition_p num p _ p_lt refl, k.dealt);
      source = src;
      holds = λ q c f. elim (filled-cases p s q c f) [
        | inl (_, at) ↦ rw (at, write_self) (sym (ap temp new_source))
        | inr old ↦
            rw
              (write_ne s.units at_p (temp s.v_i) c (not_new p s q c p_lt room k old), kept q c old)
              (k.holds q c old)
      ];
      older = λ q c f. elim (filled-cases p s q c f) [
        | inl (_, at) ↦ rw (at, new_source) (omega arith)
        | inr old ↦ rw (kept q c old) (omega (arith, k.older q c old))
      ];
      rising = λ q c d f f' lt. elim (filled-cases p s q d f') [
        | inl (_, at) ↦ elim (filled-cases p s q c f) [
          | inl (_, at') ↦ absurd (omega (arith, at, at'))
          | inr old ↦ rw (at, new_source, kept q c old) (k.older q c old)
        ]
        | inr old' ↦ elim (filled-cases p s q c f) [
          | inl (e, at) ↦
              absurd (omega (arith, at, lt, subst (λ x. d < s.temp_partition_p x) e old'.below))
          | inr old ↦ rw (kept q c old, kept q d old') (k.rising q c d old old' lt)
        ]
      ];
      unique = λ q q' c d f f' e. elim (filled-cases p s q c f) [
        | inl (_, at) ↦ elim (filled-cases p s q' d f') [
          | inl (_, at') ↦ at ∙ sym at'
          | inr old' ↦ absurd (
              not_older (sym new_source ∙ ap src (sym at) ∙ e ∙ kept q' d old') (k.older q' d old'))
        ]
        | inr old ↦ elim (filled-cases p s q' d f') [
          | inl (_, at') ↦ absurd (
              not_older (sym new_source ∙ ap src (sym at') ∙ sym e ∙ kept q c old)
                (k.older q c old))
          | inr old' ↦ k.unique q q' c d old old' (sym (kept q c old) ∙ e ∙ kept q' d old')
        ]
      ];
      onto = λ i lt. elim (lt_suc-cases i s.v_i (omega arith)) [
        | inl at ↦ (p, at_p, new_place, new_source ∙ sym at)
        | inr less ↦
            let (q, c, f, e) = k.onto i less in (q, c, still_filled p s q c f, kept q c f ∙ e)
      ];
      rest = λ c past.
          write_ne s.units at_p (temp s.v_i) c (λ e. absurd (omega (arith, e, past p p_lt)))
          ∙ k.rest c past;
    }
      where
        at_p : ℕ
        at_p = s.temp_partition_p p

        src : ℕ → ℕ
        src = write k.source at_p s.v_i

        new_source : src at_p ≡ s.v_i
        new_source = write_self k.source at_p s.v_i

        not_older : {i j : ℕ} → i ≡ j → ¬ (j < i)
        not_older e lt = absurd (omega (arith, e, lt))

        new_place : Filled (dealt_to p s) p at_p
        new_place = record {
          partition_lt = p_lt;
          from = k.from p p_lt;
          below = omega (arith, write_self s.temp_partition_p p (s.temp_partition_p p + 1));
        }

        kept : (q c : ℕ) → Filled s q c → src c ≡ k.source c
        kept q c f = write_ne k.source at_p s.v_i c (not_new p s q c p_lt room k f)

-- ===== src/Graph/Shuffle/Ends.antt =====
-- src/core/graph.hpp, Graph::make: the dealing ends, and each partition stays sorted by degree.
use flashmob.Prelude.{
  ℕ, zero, suc, ◌+◌, ◌-◌, ◌≤◌, ◌<◌, ◌≡◌, ◌⊎◌, inl, inr, refl, sym, subst, arith, ltb, ◌&&◌, true,
  false, Bool-cases, some, lt_suc-cases,
}
use flashmob.Prelude.Loops.{for_range_inv, sum_below}
use native.Mathlib.Decide.{dec_lt}
use flashmob.Graph.Sort.{VertexSortUnit}
use flashmob.Graph.Shuffle.{Dealing, deal_one, deal_forth, deal_back, deal_rounds}
use flashmob.Graph.Shuffle.Dealt.{IsApart, IsDealt, dealt_to-IsDealt}

-- A greater sum has a greater term.
greater_term :
    (f h : ℕ → ℕ) (m : ℕ) → sum_below f m < sum_below h m → (p : ℕ) × (p < m) × (f p < h p)
unfolding sum_below
greater_term f h zero lt = absurd (omega arith)
greater_term f h (suc m) lt = elim (dec_lt (f m) (h m)) [
  | yes here ↦ (m, omega arith, here)
  | no ge ↦ let (p, less, e) = greater_term f h m (omega arith) in (p, omega arith, e)
]

pub sum_below-le :
    (f h : ℕ → ℕ) (m : ℕ) → ((p : ℕ) → p < m → f p ≤ h p) → sum_below f m ≤ sum_below h m
unfolding sum_below
sum_below-le f h zero le = omega arith
sum_below-le f h (suc m) le =
    omega (arith, le m (omega arith), sum_below-le f h m (λ p lt. le p (omega arith)))

-- Terms of one sum that stay below the others are these.
pub same_terms :
    (f h : ℕ → ℕ) (m : ℕ)
    → ((p : ℕ) → p < m → f p ≤ h p)
    → sum_below h m ≤ sum_below f m
    → (p : ℕ) → p < m
    → f p ≡ h p
unfolding sum_below
same_terms f h zero le total p lt = absurd (omega arith)
same_terms f h (suc m) le total p lt =
    let below = sum_below-le f h m (λ q less. le q (omega arith)) in
    elim (lt_suc-cases p m lt) [
      | inl at ↦ rw at (omega (arith, below, le m (omega arith)))
      | inr less ↦
          same_terms f h m (λ q l. le q (omega arith)) (omega (arith, le m (omega arith))) p less
    ]

module _ (orig temp : ℕ → VertexSortUnit) (begins ends : ℕ → ℕ) (num total : ℕ)
    (apart : IsApart orig temp begins ends num)
    (fits : sum_below ends num ≡ sum_below begins num + total) where
  abbrev Dealt : Dealing → Type 0
  Dealt = IsDealt orig temp begins ends num

  -- After the turns of the first k partitions, from s: something was dealt out at p or before, if
  -- p had its turn.
  record Went (p k : ℕ) (s t : Dealing) : Type 0 where
    pub keeps : Dealt t
    pub same_or_more : (t ≡ s) ⊎ (s.v_i < t.v_i)
    pub more : p < k → s.v_i < t.v_i

  deal_one-Dealt : (p : ℕ) (s : Dealing) → p < num → Dealt s → Dealt (deal_one temp ends total p s)
  unfolding deal_one
  deal_one-Dealt p s lt k =
      elim (Bool-cases (ltb s.v_i total && ltb (s.temp_partition_p p) (ends p))) [
        | inl e ↦ rw e (dealt_to-IsDealt orig temp begins ends num apart p s lt (ground arith) k)
        | inr e ↦ rw e k
      ]

  deal_one-more :
      (p : ℕ) (s : Dealing)
      → s.v_i < total
      → s.temp_partition_p p < ends p
      → s.v_i < (deal_one temp ends total p s).v_i
  unfolding deal_one
  deal_one-more p s short room = ground arith

  deal_one-cases :
      (p : ℕ) (s : Dealing)
      → (deal_one temp ends total p s ≡ s) ⊎ (s.v_i < (deal_one temp ends total p s).v_i)
  unfolding deal_one
  deal_one-cases p s = elim (Bool-cases (ltb s.v_i total && ltb (s.temp_partition_p p) (ends p))) [
    | inl e ↦ rw e (inr (omega arith))
    | inr e ↦ rw e (inl refl)
  ]

  turn :
      (p k : ℕ) (s t : Dealing)
      → s.v_i < total
      → s.temp_partition_p p < ends p
      → k < num
      → Went p k s t
      → Went p (suc k) s (deal_one temp ends total k t)
  turn p k s t short room lt w = record {
    keeps = deal_one-Dealt k t lt w.keeps;
    same_or_more = elim w.same_or_more [
      | inl same ↦
          subst
            (λ x. (deal_one temp ends total k x ≡ s) ⊎ (s.v_i < (deal_one temp ends total k x).v_i))
            (sym same) (deal_one-cases k s)
      | inr went ↦ inr (omega (arith, went, later))
    ];
    more = λ seen. elim w.same_or_more [
      | inr went ↦ omega (arith, went, later)
      | inl same ↦ elim (lt_suc-cases p k seen) [
        | inr less ↦ omega (arith, w.more less, later)
        | inl at ↦
            subst (λ x. s.v_i < (deal_one temp ends total k x).v_i) (sym same)
              (deal_one-more k s short (subst (λ q. s.temp_partition_p q < ends q) at room))
      ]
    ];
  }
    where
      later : t.v_i ≤ (deal_one temp ends total k t).v_i
      later = elim (deal_one-cases k t) [
        | inl e ↦ rw e (omega arith)
        | inr more ↦ omega (arith, more)
      ]

  deal_forth-more :
      (s : Dealing)
      → s.v_i < total
      → Dealt s
      → Dealt (deal_forth temp ends total num s) × (s.v_i < (deal_forth temp ends total num s).v_i)
  unfolding deal_forth
  deal_forth-more s short k =
      let (p, lt, room) = greater_term s.temp_partition_p ends num (omega (arith, k.dealt, fits)) in
      let w =
        for_range_inv (λ n t. Went p n s t) 0 num (deal_one temp ends total) s
          (λ n t less w. let e : 0 + n ≡ n = omega arith in rw e (turn p n s t short room less w))
          (record { keeps = k; same_or_more = inl refl; more = λ seen. absurd (omega arith) }) in
      (w.keeps, w.more lt)

  deal_back-keeps :
      (s : Dealing)
      → Dealt s
      → Dealt (deal_back temp ends total num s) × (s.v_i ≤ (deal_back temp ends total num s).v_i)
  unfolding deal_back
  deal_back-keeps s k =
      for_range_inv (λ n t. Dealt t × (s.v_i ≤ t.v_i)) 0 num
        (λ p_i. deal_one temp ends total (num - p_i - 1)) s
        (λ n t less (h, le). (
          deal_one-Dealt (num - (0 + n) - 1) t (omega arith) h,
          elim (deal_one-cases (num - (0 + n) - 1) t) [
            | inl e ↦ rw e le
            | inr more ↦ omega (arith, more, le)
          ],
        ))
        (k, omega arith)

  pub deal_rounds-ends :
      (fuel : ℕ) (s : Dealing)
      → total ≤ s.v_i + fuel
      → Dealt s
      → (t : Dealing) × (deal_rounds temp ends total num fuel s ≡ some t)
        × Dealt t
        × (total ≤ t.v_i)
  unfolding deal_rounds
  deal_rounds-ends zero s enough k =
      let done : ltb s.v_i total ≡ false = ground arith in (s, rw done refl, k, omega arith)
  deal_rounds-ends (suc fuel) s enough k = elim (dec_lt s.v_i total) [
    | no ge ↦ let done : ltb s.v_i total ≡ false = ground arith in (s, rw done refl, k, omega arith)
    | yes short ↦
        let more : ltb s.v_i total ≡ true = ground arith in
        let (h, went) = deal_forth-more s short k in
        let (h', le) = deal_back-keeps (deal_forth temp ends total num s) h in
        let (t, e, d, past) =
          deal_rounds-ends fuel (deal_back temp ends total num (deal_forth temp ends total num s))
            (omega (arith, went, le)) h' in
        (t, rw more e, d, past)
  ]

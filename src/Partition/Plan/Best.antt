-- ===== src/Partition/Plan/Best.antt =====
-- src/core/partition.hpp, dp: what a cell of the table says of the choices of candidates.
use flashmob.Prelude.{
  ℕ, zero, suc, ◌+◌, ◌-◌, ◌≤◌, ◌<◌, ◌≡◌, inl, inr, refl, sym, ◌∙◌, subst, ap, arith, true, false,
  Option, none, some, Bool-cases, Option-cases, lt_suc-cases,
}
use mathlib.Core.Option.{some-injective, none-ne-some}
use flashmob.Partition.Plan.{Times, Candidate, DpGroup, weight, worse, worse_self, improve, carry}

-- What the code relies on: the test is that of a total order, which the sum keeps.
pub record IsTimes (m : Times) : Type 0 where
  pub gt_irrefl : (a : m.Time) → m.gt a a ≡ false
  pub le_trans : (a b c : m.Time) → m.gt a b ≡ false → m.gt b c ≡ false → m.gt a c ≡ false
  pub le_of_gt : (a b : m.Time) → m.gt a b ≡ true → m.gt b a ≡ false
  pub add_mono : (a b c : m.Time) → m.gt a b ≡ false → m.gt (m.add a c) (m.add b c) ≡ false

module _ (m : Times) (candidates : ℕ → ℕ → Candidate m) (sizes : ℕ → ℕ) where
  -- A choice of a candidate for each group.
  unfoldable pub weights : (ℕ → ℕ) → ℕ → ℕ
  weights choice zero = 0
  weights choice (suc g) = weights choice g + weight m (candidates g (choice g))

  unfoldable pub cost : (ℕ → ℕ) → ℕ → m.Time
  cost choice zero = m.time_zero
  cost choice (suc g) = m.add (cost choice g) (candidates g (choice g)).total_time

  abbrev pub IsChoice : (ℕ → ℕ) → ℕ → Type 0
  IsChoice choice groups = (g : ℕ) → g < groups → choice g < sizes g

  -- The row of h groups: each cell is as good as any choice that fits it.
  pub record IsBest (h columns : ℕ) (row : ℕ → DpGroup m) : Type 0 where
    pub best :
        (q : ℕ) (choice : ℕ → ℕ)
        → q ≤ columns
        → IsChoice choice h
        → weights choice h ≤ q
        → (u : m.Time) × ((row q).val ≡ some u) × (m.gt u (cost choice h) ≡ false)

  -- The time of the cell is that of candidate idx after the cell of `previous`.
  pub record Follows (h n p : ℕ) (row : ℕ → DpGroup m) (cell : DpGroup m) (v : m.Time)
      : Type 0 where
    pub column : ℕ
    pub time : m.Time
    pub idx_lt : cell.candidate_idx < n
    pub previous_is : cell.previous ≡ some (h, column)
    pub fits : column + weight m (candidates h cell.candidate_idx) ≤ p
    pub before : (row column).val ≡ some time
    pub sum : v ≡ m.add time (candidates h cell.candidate_idx).total_time

  -- The cell at column p after the first n candidates of group h, over the row before.
  pub record IsCell (h n p : ℕ) (row : ℕ → DpGroup m) (cell : DpGroup m) : Type 0 where
    pub sound : (v : m.Time) → cell.val ≡ some v → Follows h n p row cell v
    pub best :
        (choice : ℕ → ℕ)
        → IsChoice choice (suc h)
        → choice h < n
        → weights choice (suc h) ≤ p
        → (v : m.Time) × (cell.val ≡ some v) × (m.gt v (cost choice (suc h)) ≡ false)

  module _ (laws : IsTimes m) (h columns : ℕ) (row : ℕ → DpGroup m) (r : IsBest h columns row) where
    more_idx :
        (n p : ℕ) (cell : DpGroup m) (v : m.Time)
        → Follows h n p row cell v
        → Follows h (suc n) p row cell v
    more_idx n p cell v f = record {
      column = f.column;
      time = f.time;
      idx_lt = omega (arith, f.idx_lt);
      previous_is = f.previous_is;
      fits = f.fits;
      before = f.before;
      sum = f.sum;
    }

    -- A candidate that does not fit changes nothing.
    pub too_heavy :
        (n p : ℕ) (cell : DpGroup m)
        → p < weight m (candidates h n)
        → IsCell h n p row cell
        → IsCell h (suc n) p row cell
    unfolding weights
    too_heavy n p cell heavy c = record {
      sound = λ v e. more_idx n p cell v (c.sound v e);
      best = λ choice is lt fits. elim (lt_suc-cases (choice h) n lt) [
        | inl at ↦ absurd (omega (arith, fits, ap (λ i. weight m (candidates h i)) at, heavy))
        | inr less ↦ c.best choice is less fits
      ];
    }

    module _ (n p : ℕ) (cell : DpGroup m) (light : weight m (candidates h n) ≤ p)
        (p_le : p ≤ columns) (c : IsCell h n p row cell) where
      abbrev q : ℕ
      q = p - weight m (candidates h n)

      abbrev time_n : m.Time
      time_n = (candidates h n).total_time

      -- The row before at least matches the other groups of a choice.
      rest_fits :
          (choice : ℕ → ℕ)
          → IsChoice choice (suc h)
          → choice h ≡ n
          → weights choice (suc h) ≤ p
          → (u : m.Time) × ((row q).val ≡ some u)
            × (m.gt (m.add u time_n) (cost choice (suc h)) ≡ false)
      unfolding weights cost
      rest_fits choice is at fits =
          let same : weight m (candidates h (choice h)) ≡ weight m (candidates h n) =
            ap (λ i. weight m (candidates h i)) at in
          let (u, e, le) =
            r.best q choice (omega arith) (λ g lt. is g (omega arith))
              (omega (arith, same, fits, light)) in
          (
            u,
            e,
            subst
                (λ i.
                  m.gt (m.add u time_n) (m.add (cost choice h) (candidates h i).total_time) ≡ false)
                (sym at) (laws.add_mono u (cost choice h) time_n le),
          )

      closed : (row q).val ≡ none → IsCell h (suc n) p row cell
      closed e = record {
        sound = λ v e'. more_idx n p cell v (c.sound v e');
        best = λ choice is lt fits. elim (lt_suc-cases (choice h) n lt) [
          | inl at ↦
              let (u, e', le) = rest_fits choice is at fits in absurd (none-ne-some _ (sym e ∙ e'))
          | inr less ↦ c.best choice is less fits
        ];
      }

      module _ (u : m.Time) (e : (row q).val ≡ some u) where
        taken :
            worse m cell.val (m.add u time_n) ≡ true
            → IsCell h
                (suc n)
                p
                row
                (record { val = some (m.add u time_n); candidate_idx = n; previous = some (h, q) })
        unfolding worse
        taken w = record {
          sound = λ v e'. record {
            column = q;
            time = u;
            idx_lt = omega arith;
            previous_is = refl;
            fits = omega (arith, light);
            before = e;
            sum = sym (some-injective _ _ e');
          };
          best = λ choice is lt fits. elim (lt_suc-cases (choice h) n lt) [
            | inl at ↦
                let (u', e', le) = rest_fits choice is at fits in
                let same : u' ≡ u = some-injective _ _ (sym e' ∙ e) in
                (
                  m.add u time_n,
                  refl,
                  subst (λ x. m.gt (m.add x time_n) (cost choice (suc h)) ≡ false) same le,
                )
            | inr less ↦
                let (v, e', le) = c.best choice is less fits in
                let over : m.gt v (m.add u time_n) ≡ true =
                  subst (λ x. worse m x (m.add u time_n) ≡ true) e' w in
                (
                  m.add u time_n,
                  refl,
                  laws.le_trans (m.add u time_n) v (cost choice (suc h))
                      (laws.le_of_gt v (m.add u time_n) over) le,
                )
          ];
        }

        -- The time of the cell is no worse.
        not_worse :
            (o : Option m.Time)
            → worse m o (m.add u time_n) ≡ false
            → (v : m.Time) × (o ≡ some v) × (m.gt v (m.add u time_n) ≡ false)
        unfolding worse
        not_worse none w = absurd (ground arith)
        not_worse (some v) w = (v, refl, w)

        left : worse m cell.val (m.add u time_n) ≡ false → IsCell h (suc n) p row cell
        left w = record {
          sound = λ v e'. more_idx n p cell v (c.sound v e');
          best = λ choice is lt fits. elim (lt_suc-cases (choice h) n lt) [
            | inl at ↦
                let (u', e', le) = rest_fits choice is at fits in
                let same : u' ≡ u = some-injective _ _ (sym e' ∙ e) in
                let (v, ev, lev) = not_worse cell.val w in
                (
                  v,
                  ev,
                  laws.le_trans v (m.add u time_n) (cost choice (suc h)) lev
                      (subst (λ x. m.gt (m.add x time_n) (cost choice (suc h)) ≡ false) same le),
                )
            | inr less ↦ c.best choice is less fits
          ];
        }

      pub improve-IsCell : IsCell h (suc n) p row (improve m h q n time_n cell (row q).val)
      unfolding improve
      improve-IsCell = elim (Option-cases (row q).val) [
        | inl e ↦ rw e (closed e)
        | inr (u, e) ↦ elim (Bool-cases (worse m cell.val (m.add u time_n))) [
          | inl w ↦ rw (e, w) (taken u e w)
          | inr w ↦ rw (e, w) (left u e w)
        ]
      ]

    -- The loop after the candidates keeps a cell as good.
    pub carry-IsCell :
        (n p : ℕ) (before cell : DpGroup m)
        → IsCell h n p row before
        → IsCell h n (suc p) row cell
        → IsCell h n (suc p) row (carry m before before.val cell)
    unfolding carry worse_self
    carry-IsCell n p before cell b c = elim (Option-cases before.val) [
      | inl e ↦ subst (λ o. IsCell h n (suc p) row (carry m before o cell)) (sym e) c
      | inr (v, e) ↦
          subst (λ o. IsCell h n (suc p) row (carry m before o cell)) (sym e)
            elim (Option-cases cell.val) [
              | inr (w, e') ↦
                  let kept : worse_self m cell.val ≡ false =
                    ap (worse_self m) e' ∙ laws.gt_irrefl w in
                  rw kept c
              | inl e' ↦
                  let carried : worse_self m cell.val ≡ true = ap (worse_self m) e' in
                  rw carried (record {
                    sound = λ x ex. one_more n p before x (b.sound x ex);
                    best = λ choice is lt fits.
                        let (x, ex, le) = c.best choice is lt fits in
                        absurd (none-ne-some _ (sym e' ∙ ex));
                  })
            ]
    ]
      where
        one_more :
            (k s : ℕ) (d : DpGroup m) (x : m.Time)
            → Follows h k s row d x
            → Follows h k (suc s) row d x
        one_more k s d x f = record {
          column = f.column;
          time = f.time;
          idx_lt = f.idx_lt;
          previous_is = f.previous_is;
          fits = omega (arith, f.fits);
          before = f.before;
          sum = f.sum;
        }

-- ===== src/Partition/Plan/Rows.antt =====
-- src/core/partition.hpp, dp: the loops fill the rows of the table.
use flashmob.Prelude.{
  ℕ, zero, suc, ◌+◌, ◌-◌, ◌≤◌, ◌<◌, ◌≡◌, ◌≢◌, inl, inr, refl, sym, ◌∙◌, arith, none, some,
  write_self, write_ne, lt_suc-cases, ◌==◌, false, if◌then◌else◌,
}
use flashmob.Prelude.Loops.{for_range_inv}
use native.Mathlib.Decide.{ℕ_discrete}
use mathlib.Core.Option.{none-ne-some}
use flashmob.Partition.Plan.{
  Times, Candidate, DpGroup, weight, try_one, try_candidate, carry_one, fill_row, empty_table,
  fill_table,
}
use flashmob.Partition.Plan.Best.{
  IsTimes, weights, cost, IsBest, IsCell, too_heavy, improve-IsCell, carry-IsCell,
}

module _ (m : Times) (candidates : ℕ → ℕ → Candidate m) (sizes : ℕ → ℕ) (laws : IsTimes m)
    (columns : ℕ) where
  module _ (h : ℕ) (before : ℕ → ℕ → DpGroup m)
      (r : IsBest m candidates sizes h columns (before h)) where
    abbrev Cell : ℕ → ℕ → DpGroup m → Type 0
    Cell n p cell = IsCell m candidates sizes h n p (before h) cell

    -- The row of group h after n candidates.
    record IsRow (n : ℕ) (f : ℕ → ℕ → DpGroup m) : Type 0 where
      pub others : (g : ℕ) → g ≢ suc h → f g ≡ before g
      pub cells : (p : ℕ) → p ≤ columns → Cell n p (f (suc h) p)

    -- Within the loop over the columns: those below `p_i` have seen the next candidate.
    record IsWithin (n p_i : ℕ) (f : ℕ → ℕ → DpGroup m) : Type 0 where
      pub others : (g : ℕ) → g ≢ suc h → f g ≡ before g
      pub seen : (p : ℕ) → p ≤ columns → p < p_i → Cell (suc n) p (f (suc h) p)
      pub unseen : (p : ℕ) → p ≤ columns → p_i ≤ p → Cell n p (f (suc h) p)

    abbrev w : ℕ → ℕ
    w n = weight m (candidates h n)

    try_one-IsWithin :
        (n p_i : ℕ) (f : ℕ → ℕ → DpGroup m)
        → w n ≤ p_i
        → p_i ≤ columns
        → IsWithin n p_i f
        → IsWithin n (suc p_i) (try_one m (suc h) n (candidates h n) p_i f)
    unfolding try_one
    try_one-IsWithin n p_i f light le k =
        let back : suc h - 1 ≡ h = omega arith in
        let row : f h ≡ before h = k.others h (λ e. absurd (omega (arith, e))) in
        rw (back, row)
          (record {
            others = λ g ne. write_ne f (suc h) _ g ne ∙ k.others g ne;
            seen = λ p p_le lt. rw write_self elim (lt_suc-cases p p_i lt) [
              | inl at ↦
                  rw (at, write_self)
                    (improve-IsCell m candidates sizes laws h columns (before h) r n p_i
                      (f (suc h) p_i) light le (k.unseen p_i le (omega arith)))
              | inr less ↦
                  rw (write_ne (f (suc h)) p_i _ p (λ e. absurd (omega (arith, e))))
                    (k.seen p p_le less)
            ];
            unseen = λ p p_le lt.
                rw (write_self, write_ne (f (suc h)) p_i _ p (λ e. absurd (omega (arith, e))))
                  (k.unseen p p_le (omega arith));
          })

    try_candidate-IsRow :
        (n : ℕ) (f : ℕ → ℕ → DpGroup m)
        → IsRow n f
        → IsRow (suc n) (try_candidate m columns (suc h) (candidates h) n f)
    unfolding try_candidate
    try_candidate-IsRow n f k =
        let end =
          for_range_inv (λ i t. IsWithin n (w n + i) t) (w n) (columns + 1 - w n)
            (try_one m (suc h) n (candidates h n)) f
            (λ i t lt v.
              let next : w n + suc i ≡ suc (w n + i) = omega arith in
              rw next (try_one-IsWithin n (w n + i) t (omega arith) (omega arith) v))
            (record {
              others = k.others;
              seen = λ p le lt.
                  too_heavy m candidates sizes laws h columns (before h) r n p (f (suc h) p)
                    (omega arith) (k.cells p le);
              unseen = λ p le lt. k.cells p le;
            }) in
        record { others = end.others; cells = λ p le. end.seen p le (omega arith) }

    carry_one-IsRow :
        (n p_i : ℕ) (f : ℕ → ℕ → DpGroup m)
        → p_i < columns
        → IsRow n f
        → IsRow n (carry_one m (suc h) (suc p_i) f)
    unfolding carry_one
    carry_one-IsRow n p_i f lt k =
        let back : suc p_i - 1 ≡ p_i = omega arith in
        rw back (record {
          others = λ g ne. write_ne f (suc h) _ g ne ∙ k.others g ne;
          cells = λ p le. rw write_self elim (ℕ_discrete p (suc p_i)) [
            | yes at ↦
                rw (at, write_self)
                  (carry-IsCell m candidates sizes laws h columns (before h) r n p_i (f (suc h) p_i)
                    (f (suc h) (suc p_i)) (k.cells p_i (omega arith)) (k.cells (suc p_i) lt))
            | no ne ↦ rw (write_ne (f (suc h)) (suc p_i) _ p ne) (k.cells p le)
          ];
        })

    fill_row-IsRow :
        ((p : ℕ) → p ≤ columns → (before (suc h) p).val ≡ none)
        → IsRow (sizes h) (fill_row m columns candidates sizes (suc h) before)
    unfolding fill_row
    fill_row-IsRow empty =
        let back : suc h - 1 ≡ h = omega arith in
        rw back (
          for_range_inv (λ i t. IsRow (sizes h) t) 1 columns (carry_one m (suc h)) _
            (λ i t lt v.
              let at : 1 + i ≡ suc i = omega arith in rw at (carry_one-IsRow (sizes h) i t lt v))
            (for_range_inv IsRow 0 (sizes h) (try_candidate m columns (suc h) (candidates h)) before
              (λ i t lt v. let at : 0 + i ≡ i = omega arith in rw at (try_candidate-IsRow i t v))
              (record {
                others = λ g ne. refl;
                cells = λ p le. record {
                  sound = λ v e. absurd (none-ne-some _ (sym (empty p le) ∙ e));
                  best = λ choice is lt fits. absurd (omega arith);
                };
              })))

  -- The table with the rows of the first g groups.
  pub record IsTable (g : ℕ) (f : ℕ → ℕ → DpGroup m) : Type 0 where
    pub first : (p : ℕ) → (f 0 p).val ≡ some m.time_zero
    pub cells :
        (h p : ℕ)
        → h < g
        → p ≤ columns
        → IsCell m candidates sizes h (sizes h) p (f h) (f (suc h) p)
    pub later : (h p : ℕ) → g ≤ h → (f (suc h) p).val ≡ none

  pub table-IsBest :
      (g h : ℕ) (f : ℕ → ℕ → DpGroup m)
      → h ≤ g
      → IsTable g f
      → IsBest m candidates sizes h columns (f h)
  unfolding cost weights
  table-IsBest g zero f le t = record {
    best = λ q choice q_le is fits. (m.time_zero, t.first q, laws.gt_irrefl m.time_zero);
  }
  table-IsBest g (suc h) f le t = record {
    best = λ q choice q_le is fits.
        (t.cells h q (omega arith) q_le).best choice is (is h (omega arith)) fits;
  }

  fill_row-IsTable :
      (g : ℕ) (f : ℕ → ℕ → DpGroup m)
      → IsTable g f
      → IsTable (suc g) (fill_row m columns candidates sizes (suc g) f)
  fill_row-IsTable g f t =
      let r =
        fill_row-IsRow g f (table-IsBest g g f (omega arith) t)
          (λ p le. t.later g p (omega arith)) in
      let row : (h : ℕ) → h ≢ suc g → fill_row m columns candidates sizes (suc g) f h ≡ f h =
        r.others in
      record {
        first = λ p. rw (row 0 (λ e. absurd (omega (arith, e)))) (t.first p);
        cells = λ h p lt le. elim (lt_suc-cases h g lt) [
          | inl at ↦ rw (at, row g (λ e. absurd (omega (arith, e)))) (r.cells p le)
          | inr less ↦
              rw
                (
                  row h (λ e. absurd (omega (arith, e))),
                  row (suc h) (λ e. absurd (omega (arith, e))),
                )
                (t.cells h p less le)
        ];
        later =
            λ h p le. rw (row (suc h) (λ e. absurd (omega (arith, e)))) (t.later h p (omega arith));
      }

  pub fill_table-IsTable :
      (garbage groups : ℕ) → IsTable groups (fill_table m columns candidates sizes garbage groups)
  unfolding fill_table empty_table
  fill_table-IsTable garbage groups =
      for_range_inv IsTable 1 groups (fill_row m columns candidates sizes) (empty_table m garbage)
        (λ i t lt v. let at : 1 + i ≡ suc i = omega arith in rw at (fill_row-IsTable i t v))
        (record {
          first = λ p. refl;
          cells = λ h p lt le. absurd (omega arith);
          later = λ h p le. later_none h;
        })
    where
      later_none : (h : ℕ) → (if suc h == 0 then some m.time_zero else none) ≡ none
      later_none h = let e : (suc h == 0) ≡ false = ground arith in rw e refl

-- ===== src/Partition/Plan/Traced.antt =====
-- src/core/partition.hpp, dp: the pointers lead to a choice of the least time that fits.
use flashmob.Prelude.{
  ℕ, zero, suc, ◌≤◌, ◌<◌, ◌≡◌, inl, inr, refl, sym, ◌∙◌, subst, ap, arith, false, some, write,
  write_self, write_ne, lt_suc-cases,
}
use mathlib.Core.Option.{some-injective}
use flashmob.Partition.Plan.{Times, Candidate, DpGroup, weight, fill_table, trace, plan}
use flashmob.Partition.Plan.Best.{IsTimes, weights, cost, IsChoice, Follows}
use flashmob.Partition.Plan.Rows.{IsTable, table-IsBest, fill_table-IsTable}

module _ (m : Times) (candidates : ℕ → ℕ → Candidate m) (sizes : ℕ → ℕ) where
  agree :
      (c d : ℕ → ℕ) (g : ℕ)
      → ((i : ℕ) → i < g → c i ≡ d i)
      → (weights m candidates sizes c g ≡ weights m candidates sizes d g)
        × (cost m candidates sizes c g ≡ cost m candidates sizes d g)
  unfolding weights cost
  agree c d zero same = (refl, refl)
  agree c d (suc g) same =
      let (w, k) = agree c d g (λ i lt. same i (omega arith)) in
      (
        omega (arith, w, ap (λ i. weight m (candidates g i)) (same g (omega arith))),
        ap (λ x. m.add x (candidates g (c g)).total_time) k
            ∙ ap (λ i. m.add (cost m candidates sizes d g) (candidates g i).total_time)
                (same g (omega arith)),
      )

  -- The choice that the results stand for.
  abbrev pub picked : (ℕ → DpGroup m) → ℕ → ℕ
  picked results g = (results g).candidate_idx

  -- The results are a choice for g groups that fits p partitions and takes the time v.
  pub record IsPicked (results : ℕ → DpGroup m) (g p : ℕ) (v : m.Time) : Type 0 where
    pub is_choice : IsChoice m candidates sizes (picked results) g
    pub fits : weights m candidates sizes (picked results) g ≤ p
    pub time : cost m candidates sizes (picked results) g ≡ v

  write-IsPicked :
      (results : ℕ → DpGroup m) (h p : ℕ) (row : ℕ → DpGroup m) (cell : DpGroup m) (v : m.Time)
      (f : Follows m candidates sizes h (sizes h) p row cell v)
      → IsPicked results h f.column f.time
      → IsPicked (write results h cell) (suc h) p v
  unfolding weights cost
  write-IsPicked results h p row cell v f k = record {
    is_choice = λ g lt. elim (lt_suc-cases g h lt) [
      | inl at ↦
          subst (λ i. picked (write results h cell) i < sizes i) (sym at)
            (subst (λ (d : DpGroup m). d.candidate_idx < sizes h) (sym new) f.idx_lt)
      | inr less ↦
          subst (λ (d : DpGroup m). d.candidate_idx < sizes g) (sym (old g less))
            (k.is_choice g less)
    ];
    fits = omega (
      arith,
      same.0,
      k.fits,
      ap (λ (d : DpGroup m). weight m (candidates h d.candidate_idx)) new,
      f.fits,
    );
    time =
        ap (λ x. m.add x (candidates h (picked (write results h cell) h)).total_time)
          (same.1 ∙ k.time)
        ∙ ap (λ (d : DpGroup m). m.add f.time (candidates h d.candidate_idx).total_time) new
        ∙ sym f.sum;
  }
    where
      new : write results h cell h ≡ cell
      new = write_self results h cell

      old : (g : ℕ) → g < h → write results h cell g ≡ results g
      old g lt = write_ne results h cell g (λ e. absurd (omega (arith, e)))

      same :
          (weights m candidates sizes (picked (write results h cell)) h
            ≡ weights m candidates sizes (picked results) h)
          × (cost m candidates sizes (picked (write results h cell)) h
              ≡ cost m candidates sizes (picked results) h)
      same =
          agree (picked (write results h cell)) (picked results) h
            (λ g lt. ap (λ (d : DpGroup m). d.candidate_idx) (old g lt))

  module _ (laws : IsTimes m) (columns groups : ℕ) (f : ℕ → ℕ → DpGroup m)
      (t : IsTable m candidates sizes laws columns groups f) (blank : ℕ → DpGroup m) where
    trace-IsPicked :
        (g p : ℕ) (v : m.Time)
        → g ≤ groups
        → p ≤ columns
        → (f g p).val ≡ some v
        → (results : ℕ → DpGroup m) × (trace m f blank g (some (g, p)) ≡ some results)
          × IsPicked results g p v
    unfolding trace weights cost
    trace-IsPicked zero p v le p_le e = (
      blank,
      refl,
      record {
        is_choice = λ g lt. absurd (omega arith);
        fits = omega arith;
        time = some-injective _ _ (sym (t.first p) ∙ e);
      },
    )
    trace-IsPicked (suc h) p v le p_le e =
        let c = (t.cells h p (omega arith) p_le).sound v e in
        let (results, traced, k) =
          trace-IsPicked h c.column c.time (omega arith) (omega (arith, c.fits)) c.before in
        (
          write results h (f (suc h) p),
          rw (c.previous_is, traced) refl,
          write-IsPicked results h p (f h) (f (suc h) p) v c k,
        )

-- For times in a total order that the sum keeps, and a choice of a candidate for each group whose
-- partitions fit: the dynamic program succeeds, its results are a choice of a candidate for each
-- group that fits as well, and its total time is at most that of the given choice.
pub plan-IsPicked :
    (m : Times) (candidates : ℕ → ℕ → Candidate m) (sizes : ℕ → ℕ) (columns garbage groups : ℕ)
    (blank : ℕ → DpGroup m)
    → IsTimes m
    → (choice : ℕ → ℕ) → IsChoice m candidates sizes choice groups
    → weights m candidates sizes choice groups ≤ columns
    → (results : ℕ → DpGroup m) × (v : m.Time) × (plan m columns candidates sizes garbage blank
          groups
        ≡ some results)
      × IsPicked m candidates sizes results groups columns v
      × (m.gt v (cost m candidates sizes choice groups) ≡ false)
unfolding plan
plan-IsPicked m candidates sizes columns garbage groups blank laws choice is fits =
    let t = fill_table-IsTable m candidates sizes laws columns garbage groups in
    let f = fill_table m columns candidates sizes garbage groups in
    let row = table-IsBest m candidates sizes laws columns groups groups f (omega arith) t in
    let (v, e, le) = row.best columns choice (omega arith) is fits in
    let (results, traced, k) =
      trace-IsPicked m candidates sizes laws columns groups f t blank groups columns v (omega arith)
        (omega arith) e in
    (results, v, traced, k, le)

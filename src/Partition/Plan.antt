-- ===== src/Partition/Plan.antt =====
-- src/core/partition.hpp, dp: the multiple-choice knapsack that chooses a partition size for each
-- group. Times are doubles in the code: here they are of any type, with the sum and the test that
-- the code uses. `val` is `none` where the code has a negative number. A pointer `previous` is
-- the row and the column of its cell.
pub mod Best
pub mod Rows
pub mod Traced
use flashmob.Prelude.{
  ℕ, zero, suc, ◌+◌, ◌-◌, ◌==◌, Bool, true, false, if◌then◌else◌, write, Option, none, some, ◌>>=◌,
}
use flashmob.Prelude.Loops.{for_range}

-- What the code uses of the type double.
pub record Times : Type 1 where
  pub Time : Type 0
  pub time_zero : Time
  pub add : Time → Time → Time
  pub gt : Time → Time → Bool

module _ (m : Times) where
  -- The fields of GroupHint that the program chooses by.
  pub record Candidate : Type 0 where
    pub partition_num : ℕ
    pub partition_level : ℕ
    pub total_time : m.Time

  -- struct DPGroup
  pub record DpGroup : Type 0 where
    pub val : Option m.Time
    pub candidate_idx : ℕ
    pub previous : Option (ℕ × ℕ)

  unfoldable pub weight : Candidate → ℕ
  weight hint = if hint.partition_level == 0 then hint.partition_num else 1

  -- val < 0 || val > time
  pub worse : Option m.Time → m.Time → Bool
  worse none time = true
  worse (some v) time = m.gt v time

  -- The cell after a candidate, from the cell of the row before.
  pub improve : ℕ → ℕ → ℕ → m.Time → DpGroup → Option m.Time → DpGroup
  improve row column candidate_idx time current none = current
  improve row column candidate_idx time current (some v) =
      if worse current.val (m.add v time)
      then record {
        val = some (m.add v time);
        candidate_idx = candidate_idx;
        previous = some (row, column);
      }
      else current

  -- f[g][p] = cell
  abbrev set_cell : ℕ → ℕ → DpGroup → (ℕ → ℕ → DpGroup) → ℕ → ℕ → DpGroup
  set_cell g p cell f = write f g (write (f g) p cell)

  pub try_one : ℕ → ℕ → Candidate → ℕ → (ℕ → ℕ → DpGroup) → ℕ → ℕ → DpGroup
  try_one g_i candidate_idx hint p_i f =
      let q = p_i - weight hint in
      set_cell g_i p_i
        (improve (g_i - 1) q candidate_idx hint.total_time (f g_i p_i) (f (g_i - 1) q).val) f

  -- for (p_i = weight; p_i <= P; p_i++)
  pub try_candidate : ℕ → ℕ → (ℕ → Candidate) → ℕ → (ℕ → ℕ → DpGroup) → ℕ → ℕ → DpGroup
  unfolding for_range
  try_candidate columns g_i hints candidate_idx =
      for_range (weight (hints candidate_idx)) (columns + 1 - weight (hints candidate_idx))
        (try_one g_i candidate_idx (hints candidate_idx))

  -- f[g_i][p_i].val > f[g_i][p_i].val
  pub worse_self : Option m.Time → Bool
  worse_self none = true
  worse_self (some v) = m.gt v v

  pub carry : DpGroup → Option m.Time → DpGroup → DpGroup
  carry before none cell = cell
  carry before (some v) cell = if worse_self cell.val then before else cell

  pub carry_one : ℕ → ℕ → (ℕ → ℕ → DpGroup) → ℕ → ℕ → DpGroup
  carry_one g_i p_i f =
      set_cell g_i p_i (carry (f g_i (p_i - 1)) (f g_i (p_i - 1)).val (f g_i p_i)) f

  -- A row: the candidates, `sizes` of them, and the loop after them.
  pub fill_row : ℕ → (ℕ → ℕ → Candidate) → (ℕ → ℕ) → ℕ → (ℕ → ℕ → DpGroup) → ℕ → ℕ → DpGroup
  unfolding for_range
  fill_row columns candidates sizes g_i f =
      for_range 1 columns (carry_one g_i)
        (for_range 0 (sizes (g_i - 1)) (try_candidate columns g_i (candidates (g_i - 1))) f)

  -- f[0] holds 0, the other rows nothing; `garbage` is what candidate_idx holds.
  pub empty_table : ℕ → ℕ → ℕ → DpGroup
  empty_table garbage g_i p_i = record {
    val = if g_i == 0 then some m.time_zero else none;
    candidate_idx = garbage;
    previous = none;
  }

  pub fill_table : ℕ → (ℕ → ℕ → Candidate) → (ℕ → ℕ) → ℕ → ℕ → ℕ → ℕ → DpGroup
  unfolding for_range
  fill_table columns candidates sizes garbage groups =
      for_range 1 groups (fill_row columns candidates sizes) (empty_table garbage)

  -- The results from the cell that dp_p points to; `none` where CHECK(dp_p != nullptr) fails.
  pub trace : (ℕ → ℕ → DpGroup) → (ℕ → DpGroup) → ℕ → Option (ℕ × ℕ) → Option (ℕ → DpGroup)
  trace f blank zero dp_p = some blank
  trace f blank (suc g) none = none
  trace f blank (suc g) (some (row, column)) = do
    results ← trace f blank g (f row column).previous
    some (write results g (f row column))

  pub plan : ℕ → (ℕ → ℕ → Candidate) → (ℕ → ℕ) → ℕ → (ℕ → DpGroup) → ℕ → Option (ℕ → DpGroup)
  plan columns candidates sizes garbage blank groups =
      trace (fill_table columns candidates sizes garbage groups) blank groups
        (some (groups, columns))

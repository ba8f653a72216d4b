-- ===== src/Solver/Output.antt =====
-- src/core/solver.hpp, FMobSolver::walk: the loop that writes the paths.
use flashmob.Prelude.{
  ℕ, zero, suc, ◌+◌, ◌*◌, ◌^◌, ◌≤◌, ◌<◌, ◌≡◌, ◌⊎◌, inl, inr, refl, ◌∙◌, arith, write, write_self,
  write_ne, lt_suc-cases, subst, List, [], ◌∷◌, ◌≢◌,
}
use flashmob.Prelude.Loops.{for_range}
use flashmob.Prelude.Words.{u64, add64, mul_add-le}
use native.Mathlib.Decide.{ℕ_discrete, dec_lt}
use flashmob.Walkers.Process.{Call, for_calls, processed}
use flashmob.Solver.{write_path, write_paths}

-- The index of an entry, in 64 bits.
index_lem :
    (w n len step : ℕ)
    → w < n
    → step < len
    → n * len < 2 ^ 64
    → add64 (u64 (w * len)) step ≡ w * len + step
unfolding add64
index_lem w n len step h lt small = omega (arith, mul_add-le w n len h)

module _ (walks : ℕ → ℕ → ℕ) (len n : ℕ) (small : n * len < 2 ^ 64) where
  path_loop : ℕ → ℕ → (ℕ → ℕ) → ℕ → ℕ
  unfolding for_range
  path_loop w k =
      for_range 0 k (λ step_i output. write output (add64 (u64 (w * len)) step_i) (walks step_i w))

  path_loop-outside :
      (w k : ℕ) (output : ℕ → ℕ) (i : ℕ)
      → w < n
      → k ≤ len
      → (i < w * len) ⊎ (w * len + k ≤ i)
      → path_loop w k output i ≡ output i
  unfolding path_loop for_range
  path_loop-outside w zero output i h le out = refl
  path_loop-outside w (suc k) output i h le out =
      write_ne (path_loop w k output) (add64 (u64 (w * len)) (0 + k)) _ i
        (omega (arith, index_lem w n len (0 + k) h (omega arith) small))
      ∙ path_loop-outside w k output i h (omega arith) (ground arith)

  path_loop-inside :
      (w k : ℕ) (output : ℕ → ℕ) (step : ℕ)
      → w < n
      → k ≤ len
      → step < k
      → path_loop w k output (w * len + step) ≡ walks step w
  unfolding path_loop for_range
  path_loop-inside w zero output step h le lt = absurd (omega arith)
  path_loop-inside w (suc k) output step h le lt = elim (lt_suc-cases step k lt) [
    | inl e ↦
        let at : add64 (u64 (w * len)) (0 + k) ≡ w * len + step =
          omega (arith, index_lem w n len (0 + k) h (omega arith) small) in
        let same : 0 + k ≡ step = omega arith in rw (at, same, write_self)
    | inr less ↦
        write_ne (path_loop w k output) (add64 (u64 (w * len)) (0 + k)) _ (w * len + step)
          (omega (arith, index_lem w n len (0 + k) h (omega arith) small))
        ∙ path_loop-inside w k output step h (omega arith) less
  ]

  -- For an output of fewer than 2 ^ 64 entries and calls, in any order, for walkers below n: after
  -- the paths of the calls are written, each entry of a walker that was called for stands at its
  -- own index.
  pub write_paths-entry :
      (output : ℕ → ℕ) (calls : List Call) (w step : ℕ)
      → ((v : ℕ) → 0 < processed v calls → v < n)
      → 0 < processed w calls
      → step < len
      → write_paths walks len calls output (w * len + step) ≡ walks step w
  unfolding write_paths write_path path_loop processed for_calls
  write_paths-entry output [] w step below here lt = absurd (omega (arith, here))
  write_paths-entry output (c ∷ calls) w step below here lt =
      let c_lt : c.walker < n = below c.walker (ground arith) in
      elim (ℕ_discrete c.walker w) [
        | yes e ↦
            subst
              (λ x.
                path_loop c.walker len (write_paths walks len calls output) (x * len + step)
                ≡ walks step x)
              e
              (path_loop-inside c.walker len (write_paths walks len calls output) step c_lt
                (omega arith) lt)
        | no ne ↦
            let later : 0 < processed w calls = ground (arith, here) in
            let w_lt : w < n = below w (ground arith) in
            path_loop-outside c.walker len (write_paths walks len calls output) (w * len + step)
              c_lt (omega arith) (rows_apart c.walker w ne)
            ∙ write_paths-entry output calls w step (λ v pos. below v (ground arith)) later lt
      ]
    where
      rows_apart : (x y : ℕ) → x ≢ y → (y * len + step < x * len) ⊎ (x * len + len ≤ y * len + step)
      rows_apart x y ne = elim (dec_lt x y) [
        | yes less ↦ inr (omega (arith, mul_add-le x y len less))
        | no more ↦ inl (omega (arith, mul_add-le y x len (omega (arith, ne)), lt))
      ]

-- ===== src/Sampler/Similar/Steps.antt =====
-- src/core/sampler.hpp, SimilarDegreeDirectSampler::init: its loop makes the hints.
use flashmob.Prelude.{
  ℕ, zero, suc, ◌+◌, ◌-◌, ◌<◌, ◌≡◌, refl, sym, subst, ◌∙◌, arith, ◌==◌, true, false,
}
use flashmob.Prelude.Loops.{for_range}
use native.Mathlib.Decide.{ℕ_discrete}
use flashmob.Prelude.Words.{add32, add32_small}
use flashmob.Sampler.{Adjacency}
use flashmob.Sampler.Similar.{AdjHint, Hinting, end_hint, hint_one, hint_loop, fill_hints}
use flashmob.Sampler.Similar.Runs.{
  IsDense, IsHinted, IsStarted, extend_hints, start_hints, first_hint,
}

module _ (g : Adjacency) (lo hi : ℕ) (d : IsDense g lo hi) where
  IsStarted-first :
      (s : Hinting)
      → s.hint_num ≡ 0
      → s.current_degree ≡ 0
      → lo < hi
      → IsStarted g lo hi d (suc lo) (hint_one g lo s)
  unfolding hint_one add32
  IsStarted-first s num cur lt =
      let other : (s.current_degree == (g.adjlists lo).degree) ≡ false =
        ground (arith, d.first_pos) in
      let none_yet : (s.hint_num == 0) ≡ true = ground arith in
      rw (other, none_yet, num)
        (record {
          num_pos = omega arith;
          num-le = omega arith;
          current = let e : suc lo - 1 ≡ lo = omega arith in rw e refl;
          hinted = first_hint g lo hi d s.hints;
        })

  -- One vertex further.
  IsStarted-step :
      (v : ℕ) (s : Hinting)
      → lo < v
      → v < hi
      → IsStarted g lo hi d v s
      → IsStarted g lo hi d (suc v) (hint_one g v s)
  unfolding hint_one
  IsStarted-step v s from lt k = elim (ℕ_discrete s.current_degree (g.adjlists v).degree) [
    | yes e ↦
        let same : (s.current_degree == (g.adjlists v).degree) ≡ true = ground arith in
        rw same (record {
          num_pos = k.num_pos;
          num-le = omega (arith, k.num-le);
          current = let back : suc v - 1 ≡ v = omega arith in rw back e;
          hinted =
              extend_hints g lo hi d v s.hint_num s.hints k.num_pos lt (sym e ∙ k.current) k.hinted;
        })
    | no ne ↦
        let other : (s.current_degree == (g.adjlists v).degree) ≡ false = ground arith in
        let some_yet : (s.hint_num == 0) ≡ false = ground (arith, k.num_pos) in
        let next : add32 s.hint_num 1 ≡ s.hint_num + 1 =
          add32_small s.hint_num 1 (omega (arith, k.num-le, d.bounded)) in
        rw (other, some_yet, next)
          (record {
            num_pos = omega arith;
            num-le = omega (arith, k.num-le);
            current = let back : suc v - 1 ≡ v = omega arith in rw back refl;
            hinted = start_hints g lo hi d v s.hint_num s.hints k.num_pos from k.hinted;
          })
  ]

  IsStarted-loop :
      (n : ℕ) (s : Hinting)
      → s.hint_num ≡ 0
      → s.current_degree ≡ 0
      → lo + n < hi
      → IsStarted g lo hi d (suc (lo + n)) (for_range lo (suc n) (hint_one g) s)
  unfolding for_range
  IsStarted-loop zero s num cur lt =
      let here : lo + 0 ≡ lo = omega arith in rw here (IsStarted-first s num cur (omega arith))
  IsStarted-loop (suc n) s num cur lt =
      let there : lo + suc n ≡ suc (lo + n) = omega arith in
      rw there (
        IsStarted-step (suc (lo + n)) (for_range lo (suc n) (hint_one g) s) (omega arith)
          (omega arith) (IsStarted-loop n s num cur (omega arith)))

  pub fill_hints-IsHinted :
      (hints : ℕ → AdjHint)
      → lo < hi
      → (0 < (fill_hints g lo hi hints).hint_num)
        × IsHinted g lo hi (fill_hints g lo hi hints).hint_num (fill_hints g lo hi hints).hints
  unfolding fill_hints hint_loop
  fill_hints-IsHinted hints lt =
      let s : Hinting = record { current_degree = 0; hint_num = 0; hints = hints } in
      let rounds : hi - lo ≡ suc (hi - lo - 1) = omega arith in
      let all : suc (lo + (hi - lo - 1)) ≡ hi = omega arith in
      let k = IsStarted-loop (hi - lo - 1) s refl refl (omega arith) in
      let m =
        subst
          (λ e. IsHinted g lo e (for_range lo (suc (hi - lo - 1)) (hint_one g) s).hint_num (
            end_hint (for_range lo (suc (hi - lo - 1)) (hint_one g) s).hint_num e
              (for_range lo (suc (hi - lo - 1)) (hint_one g) s).hints))
          all k.hinted in
      rw rounds (k.num_pos, m)

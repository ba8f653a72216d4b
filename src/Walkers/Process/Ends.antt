-- ===== src/Walkers/Process/Ends.antt =====
-- src/core/walker.hpp, process_walkers: a thread that gets enough turns comes to the end of its loops,
-- whatever the others do.
use flashmob.Prelude.{
  ℕ, suc, ◌+◌, ◌-◌, ◌*◌, ◌≤◌, ◌<◌, ◌≡◌, ◌≢◌, ◌⊎◌, refl, sym, ◌∙◌, ap, subst, arith, min, ltb, ◌==◌,
  true, false, if◌then◌else◌, write, write_self, write_ne, Bool-cases, inl, inr, List, [], ◌∷◌, All,
}
use flashmob.Prelude.Loops.{sum_below}
use flashmob.Prelude.Words.{add32}
use native.Mathlib.Decide.{ℕ_discrete}
use flashmob.Walk.Partitions.{occurs}
use flashmob.Walkers.{Range}
use flashmob.Walkers.Process.{
  Team, Phase, asking, claiming, processing, leaving, is_working, ask, claim, process_one, leave,
  act, turn, target, start_team, start_states, process_walkers, chunk_size,
}
use flashmob.Walkers.Process.Cost.{
  ahead, ahead_next, ahead_mono, ahead_all, phase_cost, phase_cost_mono, phase_cost_pos,
}
use flashmob.Walkers.Process.Order.{target-lt}
use flashmob.Walkers.Process.Kept.{IsSplit, no_wrap}
use flashmob.Walkers.Process.Turns.{Good, turn-Good, start-Good, range_begins, range_ends}

module _ (socket_num each : ℕ) (begins ends : ℕ → ℕ)
    (split : IsSplit socket_num each begins ends) where
  abbrev num : ℕ
  num = socket_num * each

  abbrev at_round : ℕ → ℕ → ℕ
  at_round t k = target socket_num each t k

  -- The walkers before the end of state j.
  abbrev before : Team → ℕ → ℕ
  before s j = ends j - (s.states j).curr

  abbrev round_cost : Team → ℕ → ℕ → ℕ
  round_cost s t k = 70 * before s (at_round t k) + 3

  -- A bound on the operations that thread t has left.
  abbrev rest : Team → ℕ → ℕ
  rest s t =
      if ltb (s.round t) num
      then ahead (round_cost s t) (s.round t) num
        + phase_cost (before s (at_round t (s.round t))) (s.phase t)
      else 0

  -- No counter goes back.
  abbrev Forward : Team → Team → Type 0
  Forward s u = (j : ℕ) → j < num → (s.states j).curr ≤ (u.states j).curr

  claim-Forward :
      (t j : ℕ) (s : Team)
      → j < num
      → Good socket_num each begins ends split s
      → Forward s (claim t j s)
  unfolding claim write
  claim-Forward t j s lt (k, r) i i_lt =
      ground (arith, no_wrap socket_num each begins ends s j split r lt)

  act-Forward :
      (t j : ℕ) (p : Phase) (s : Team)
      → j < num
      → Good socket_num each begins ends split s
      → Forward s (act t j p s)
  unfolding act ask process_one leave write
  act-Forward t j asking s lt g i i_lt = omega arith
  act-Forward t j claiming s lt g i i_lt = claim-Forward t j s lt g i i_lt
  act-Forward t j (processing w_i work_end) s lt g i i_lt = ground arith
  act-Forward t j leaving s lt g i i_lt = ground arith

  -- An operation of another thread.
  act-other :
      (t j x : ℕ) (p : Phase) (s : Team)
      → x ≢ t
      → ((act t j p s).phase x ≡ s.phase x) × ((act t j p s).round x ≡ s.round x)
  unfolding act ask claim process_one leave
  act-other t j x asking s ne = (write_ne s.phase t _ x ne, refl)
  act-other t j x claiming s ne = (write_ne s.phase t _ x ne, refl)
  act-other t j x (processing w_i work_end) s ne = elim (Bool-cases (ltb w_i work_end)) [
    | inl e ↦ rw e (write_ne s.phase t _ x ne, refl)
    | inr e ↦ rw e (write_ne s.phase t _ x ne, refl)
  ]
  act-other t j x leaving s ne = (write_ne s.phase t _ x ne, write_ne s.round t _ x ne)

  -- What is left for thread t as far as the counters say.
  rest_of : Team → ℕ → ℕ → Phase → ℕ
  rest_of s t r p =
      if ltb r num then ahead (round_cost s t) r num + phase_cost (before s (at_round t r)) p else 0

  rest_of-Forward :
      (s u : Team) (t r : ℕ) (p : Phase) → t < num → Forward s u → rest_of u t r p ≤ rest_of s t r p
  unfolding rest_of
  rest_of-Forward s u t r p lt on =
      let fewer = ahead_mono (round_cost s t) (round_cost u t) r num (λ k _.
        let at = on (at_round t k) (target-lt socket_num each t lt k) in
        (let h : 70 * before u (at_round t k) + 3 ≤ 70 * before s (at_round t k) + 3 =
            omega (arith, at) in
          h)) in
      let here = on (at_round t r) (target-lt socket_num each t lt r) in
      ground (
        arith,
        fewer,
        phase_cost_mono (before s (at_round t r)) (before u (at_round t r)) p (omega (arith, here)),
      )

  phase_less :
      (s : Team) (t r : ℕ) (p p' : Phase)
      → r < num
      → phase_cost (before s (at_round t r)) p' + 1 ≤ phase_cost (before s (at_round t r)) p
      → rest_of s t r p' + 1 ≤ rest_of s t r p
  unfolding rest_of
  phase_less s t r p p' lt less = ground arith

  next_round :
      (s : Team) (t r : ℕ) → r < num → rest_of s t (suc r) asking + 1 ≤ rest_of s t r leaving
  unfolding rest_of phase_cost
  next_round s t r lt = elim (Bool-cases (ltb (suc r) num)) [
    | inl e ↦ ground (arith, ahead_next (round_cost s t) r num (ground arith))
    | inr e ↦ ground arith
  ]

  claim-less :
      (t r : ℕ) (s : Team)
      → t < num
      → r < num
      → Good socket_num each begins ends split s
      → rest_of (claim t (at_round t r) s) t r ((claim t (at_round t r) s).phase t) + 1
        ≤ rest_of s t r claiming
  unfolding rest_of phase_cost claim
  claim-less t r s t_lt lt (k, room) =
      let j = at_round t r in
      let j_lt = target-lt socket_num each t t_lt r in
      let on = claim-Forward t j s j_lt (k, room) in
      let fewer = ahead_mono (round_cost s t) (round_cost (claim t j s) t) r num (λ x _.
        let at = on (at_round t x) (target-lt socket_num each t t_lt x) in
        (let h : 70 * before (claim t j s) (at_round t x) + 3 ≤ 70 * before s (at_round t x) + 3 =
            omega (arith, at) in
          h)) in
      let w = no_wrap socket_num each begins ends s j split room j_lt in
      let moved : (write s.states j
            (record (s.states j) { curr = add32 (s.states j).curr chunk_size }) j).curr
          ≡ (s.states j).curr + 64 =
        rw
          (write_self s.states j
            (record (s.states j) { curr = add32 (s.states j).curr chunk_size }))
          w in
      elim (Bool-cases (ltb (s.states j).curr (s.states j).end)) [
        | inl e ↦
            rw
              (
                e,
                write_self s.phase t (
                    processing (s.states j).curr
                      (min (add32 (s.states j).curr chunk_size) (s.states j).end)),
              )
              (ground (arith, fewer, moved, w, k.end_is j j_lt))
        | inr e ↦ rw (e, write_self s.phase t leaving) (ground (arith, fewer))
      ]

  -- The thread stays at its state, in a phase with less to do.
  stays_less :
      (s u : Team) (t : ℕ) (p p' : Phase)
      → t < num
      → s.round t < num
      → Forward s u
      → u.round t ≡ s.round t
      → u.phase t ≡ p'
      → phase_cost (before s (at_round t (s.round t))) p' + 1
        ≤ phase_cost (before s (at_round t (s.round t))) p
      → rest_of u t (u.round t) (u.phase t) + 1 ≤ rest_of s t (s.round t) p
  stays_less s u t p p' t_lt lt on same at less =
      rw (same, at)
        (omega (
          arith,
          rest_of-Forward s u t (s.round t) p' t_lt on,
          phase_less s t (s.round t) p p' lt less,
        ))

  goes_less :
      (s u : Team) (t : ℕ)
      → t < num
      → s.round t < num
      → Forward s u
      → u.round t ≡ suc (s.round t)
      → u.phase t ≡ asking
      → rest_of u t (u.round t) (u.phase t) + 1 ≤ rest_of s t (s.round t) leaving
  goes_less s u t t_lt lt on next at =
      rw (next, at)
        (omega (
          arith,
          rest_of-Forward s u t (suc (s.round t)) asking t_lt on,
          next_round s t (s.round t) lt,
        ))

  -- An operation of the thread itself is one less.
  act-less :
      (t : ℕ) (s : Team) (p : Phase)
      → t < num
      → s.round t < num
      → Good socket_num each begins ends split s
      → rest_of
            (act t (at_round t (s.round t)) p s)
            t
            ((act t (at_round t (s.round t)) p s).round t)
            ((act t (at_round t (s.round t)) p s).phase t)
          + 1
        ≤ rest_of s t (s.round t) p
  unfolding act ask process_one leave phase_cost
  act-less t s asking t_lt lt g =
      let j = at_round t (s.round t) in
      let on = act-Forward t j asking s (target-lt socket_num each t t_lt (s.round t)) g in
      stays_less s (act t j asking s) t asking
        (if is_working (s.states j).status then claiming else leaving) t_lt lt on refl
        (write_self s.phase t _)
        (elim (Bool-cases (is_working (s.states j).status)) [
          | inl b ↦ rw b (omega arith)
          | inr b ↦ rw b (omega arith)
        ])
  act-less t s claiming t_lt lt g = claim-less t (s.round t) s t_lt lt g
  act-less t s (processing w_i work_end) t_lt lt g =
      let j = at_round t (s.round t) in
      let on =
        act-Forward t j (processing w_i work_end) s (target-lt socket_num each t t_lt (s.round t))
          g in
      elim (Bool-cases (ltb w_i work_end)) [
        | inl b ↦
            stays_less s (act t j (processing w_i work_end) s) t (processing w_i work_end)
              (processing (w_i + 1) work_end) t_lt lt on (rw b refl) (rw b (write_self s.phase t _))
              (ground arith)
        | inr b ↦
            stays_less s (act t j (processing w_i work_end) s) t (processing w_i work_end) asking
              t_lt lt on (rw b refl) (rw b (write_self s.phase t _)) (omega arith)
      ]
  act-less t s leaving t_lt lt g =
      let j = at_round t (s.round t) in
      let on = act-Forward t j leaving s (target-lt socket_num each t t_lt (s.round t)) g in
      let more : s.round t + 1 ≡ suc (s.round t) = omega arith in
      goes_less s (act t j leaving s) t t_lt lt on (write_self s.round t _ ∙ more)
        (write_self s.phase t _)

  -- What is left for thread t.
  rest_t : Team → ℕ → ℕ
  rest_t s t = rest_of s t (s.round t) (s.phase t)

  turn-less :
      (x t : ℕ) (s : Team)
      → x < num
      → t < num
      → Good socket_num each begins ends split s
      → rest_t (turn socket_num each x s) t + (if x == t then 1 else 0) ≤ rest_t s t
        ⊎ num ≤ (turn socket_num each x s).round t
  unfolding turn rest_t
  turn-less x t s x_lt t_lt g = elim (Bool-cases (ltb (s.round x) (socket_num * each))) [
    | inl e ↦ rw e (
        inl (elim (ℕ_discrete x t) [
          | yes at ↦
              let hit : (x == t) ≡ true = ground arith in
              rw hit (
                subst
                  (λ y.
                    rest_of (act x (at_round x (s.round x)) (s.phase x) s) y
                        ((act x (at_round x (s.round x)) (s.phase x) s).round y)
                        ((act x (at_round x (s.round x)) (s.phase x) s).phase y)
                      + 1
                    ≤ rest_of s y (s.round y) (s.phase y))
                  at (act-less x s (s.phase x) x_lt (ground arith) g))
          | no ne ↦
              let miss : (x == t) ≡ false = ground arith in
              let j = at_round x (s.round x) in
              let (p, r) = act-other x j t (s.phase x) s (λ e. ne (sym e)) in
              let on =
                act-Forward x j (s.phase x) s (target-lt socket_num each x x_lt (s.round x)) g in
              rw (miss, p, r)
                (omega (
                  arith,
                  rest_of-Forward s (act x j (s.phase x) s) t (s.round t) (s.phase t) t_lt on,
                ))
        ]))
    | inr e ↦ rw e (elim (ℕ_discrete x t) [
      | yes at ↦ inr (ground (arith, ap s.round at))
      | no ne ↦ inl (let miss : (x == t) ≡ false = ground arith in rw miss (omega arith))
    ])
  ]

  rest_t-ended : (s : Team) (t : ℕ) → num ≤ s.round t → rest_t s t ≡ 0
  unfolding rest_t rest_of
  rest_t-ended s t past = ground arith

  ended-rest_t : (s : Team) (t : ℕ) → rest_t s t ≡ 0 → num ≤ s.round t
  unfolding rest_t rest_of
  ended-rest_t s t none_left =
      ground (arith, none_left, phase_cost_pos (before s (at_round t (s.round t))) (s.phase t))

  turns_end :
      (turns : List ℕ) (t : ℕ) (s : Team)
      → All (λ x. x < num) turns
      → t < num
      → Good socket_num each begins ends split s
      → rest_t s t ≤ occurs t turns
      → num ≤ (process_walkers socket_num each turns s).round t
  unfolding process_walkers occurs
  turns_end [] t s all lt g le = ended-rest_t s t (omega (arith, le))
  turns_end (x ∷ turns) t s all lt g le =
      turns_end turns t (turn socket_num each x s) all.1 lt
        (turn-Good socket_num each begins ends split x s all.0 g)
        (elim (turn-less x t s all.0 lt g) [
          | inl less ↦ ground (arith, less, le)
          | inr past ↦ omega (arith, rest_t-ended (turn socket_num each x s) t past)
        ])

-- How many operations thread t makes at most, for ranges of these lengths.
unfoldable pub enough_turns : ℕ → ℕ → (ℕ → ℕ) → ℕ → ℕ
enough_turns socket_num each len t =
    sum_below (λ k. 70 * len (target socket_num each t k) + 3) (socket_num * each)

abbrev pub range_len : (ℕ → Range) → ℕ → ℕ → ℕ
range_len ranges active j = min (ranges j).last active - (ranges j).first

module _ (socket_num each active : ℕ) (ranges : ℕ → Range)
    (split : IsSplit socket_num each (range_begins ranges) (range_ends ranges active)) where
  start_rest :
      (t : ℕ)
      → t < socket_num * each
      → rest_t socket_num each
          (range_begins ranges)
          (range_ends ranges active)
          split
          (start_team ranges active)
          t
        ≤ enough_turns socket_num each (range_len ranges active) t
  unfolding rest_t rest_of phase_cost start_team start_states enough_turns
  start_rest t lt =
      let pos : 0 < socket_num * each = omega (arith, lt) in
      let all =
        ahead_all (λ k. 70 * range_len ranges active (target socket_num each t k) + 3)
          (socket_num * each) pos in
      let open_round : ltb 0 (socket_num * each) ≡ true = ground arith in
      rw open_round (omega (arith, all))

  -- pp
  pub process_walkers-ends :
      (turns : List ℕ) (t : ℕ)
      → All (λ x. x < socket_num * each) turns
      → t < socket_num * each
      → enough_turns socket_num each (range_len ranges active) t ≤ occurs t turns
      → socket_num * each
        ≤ (process_walkers socket_num each turns (start_team ranges active)).round t
  process_walkers-ends turns t all lt enough =
      turns_end socket_num each (range_begins ranges) (range_ends ranges active) split turns t
        (start_team ranges active) all lt (start-Good socket_num each active ranges split)
        (omega (arith, start_rest t lt, enough))

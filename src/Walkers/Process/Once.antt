-- ===== src/Walkers/Process/Once.antt =====
-- src/core/walker.hpp, process_walkers: each operation keeps the count of what is processed and what
-- is in hand.
use flashmob.Prelude.{
  ℕ, suc, ◌+◌, ◌≤◌, ◌<◌, ◌≡◌, ◌≢◌, ◌⊎◌, inl, inr, refl, sym, ◌∙◌, subst, ap, arith, min, ltb, ◌==◌,
  true, false, if◌then◌else◌, write, write_self, write_ne, Bool-cases,
}
use flashmob.Prelude.Words.{add32}
use native.Mathlib.Decide.{ℕ_discrete, dec_lt}
use flashmob.Message.Counts.{count}
use flashmob.Walkers.Process.{
  ThreadState, Team, Phase, claiming, processing, leaving, is_working, ask, claim, chunk_size,
  target, processed,
}
use flashmob.Walkers.Process.Order.{target-lt}
use flashmob.Walkers.Process.Kept.{
  num, visits, gone, in_hand, pending, is_leaving, is_asking, IsSplit, IsRoomy, IsKept, no_wrap,
  in_hand-write, visits-changed,
}

-- The state with the counter of j moved on.
abbrev moved : ℕ → ℕ → (ℕ → ThreadState) → ℕ → ThreadState
moved j curr states = write states j (record (states j) { curr = curr })

moved-curr :
    (j c : ℕ) (states : ℕ → ThreadState) (i : ℕ)
    → ((moved j c states i).curr ≡ (if i == j then c else (states i).curr))
      × ((moved j c states i).end ≡ (states i).end)
      × (is_working (moved j c states i).status ≡ is_working (states i).status)
unfolding write
moved-curr j c states i = elim (Bool-cases (i == j)) [
  | inl hit ↦
      let at : i ≡ j = ground arith in
      rw hit
        (refl, ap (λ x. (states x).end) (sym at), ap (λ x. is_working (states x).status) (sym at))
  | inr miss ↦ rw miss (refl, refl, refl)
]

module _ (socket_num each : ℕ) (begins ends : ℕ → ℕ)
    (split : IsSplit socket_num each begins ends) where
  abbrev pub threads : ℕ
  threads = num socket_num each begins ends

  abbrev pub Kept : Team → Type 0
  Kept s = IsKept socket_num each begins ends s

  abbrev pub Roomy : Team → Type 0
  Roomy s = IsRoomy socket_num each begins ends s

  abbrev pub hand : ℕ → (ℕ → Phase) → ℕ
  hand v phase = in_hand socket_num each begins ends v phase

  abbrev pub seen : (ℕ → ℕ) → (ℕ → Phase) → ℕ → ℕ
  seen round phase = gone socket_num each begins ends round phase

  abbrev pub total : (ℕ → ℕ) → ℕ → ℕ
  total round j = visits socket_num each begins ends round j

  -- An operation of thread t, before the end of its loops.
  module _ (t : ℕ) (t_lt : t < threads) (s : Team) (r : Roomy s) (k : Kept s)
      (short : s.round t < threads) where
    abbrev pub j : ℕ
    j = target socket_num each t (s.round t)

    pub j_lt : j < threads
    j_lt = target-lt socket_num each t t_lt (s.round t)

    pub seen_other :
        (p : Phase) (x : ℕ) → x ≢ t → seen s.round (write s.phase t p) x ≡ seen s.round s.phase x
    seen_other p x ne =
        ap (λ q. if is_leaving q then suc (s.round x) else s.round x) (write_ne s.phase t p x ne)

    pub seen_self :
        (p : Phase)
        → seen s.round (write s.phase t p) t ≡ (if is_leaving p then suc (s.round t) else s.round t)
    seen_self p =
        ap (λ q. if is_leaving q then suc (s.round t) else s.round t) (write_self s.phase t p)

    pub seen-le : (p : Phase) (x : ℕ) → x < threads → seen s.round (write s.phase t p) x ≤ threads
    seen-le p x lt = elim (ℕ_discrete x t) [
      | yes at ↦ rw at (ground (arith, seen_self p, short))
      | no ne ↦ omega (arith, seen_other p x ne, r.gone-le x lt)
    ]

    -- A thread that comes behind the loop of its state counts there.
    pub total_more :
        (p : Phase) (i : ℕ)
        → is_leaving (s.phase t) ≡ false
        → total (seen s.round (write s.phase t p)) i
          ≡ total (seen s.round s.phase) i + (if is_leaving p then if j == i then 1 else 0 else 0)
    unfolding count
    total_more p i stays = elim (Bool-cases (is_leaving p)) [
      | inl e ↦
          let at : seen s.round (write s.phase t p) t ≡ suc (s.round t) =
            ground (arith, seen_self p) in
          let was : seen s.round s.phase t ≡ s.round t = ground arith in
          let more =
            subst
              (λ x.
                total (seen s.round (write s.phase t p)) i
                  + count (target socket_num each t) i (s.round t)
                ≡ total (seen s.round s.phase) i + count (target socket_num each t) i x)
              at
              (subst
                (λ x.
                  total (seen s.round (write s.phase t p)) i + count (target socket_num each t) i x
                  ≡ total (seen s.round s.phase) i
                    + count (target socket_num each t) i (seen s.round (write s.phase t p) t))
                was
                (visits-changed socket_num each begins ends (seen s.round s.phase)
                  (seen s.round (write s.phase t p)) t i t_lt (seen_other p))) in
          rw e (ground (arith, more))
      | inr e ↦
          let at : seen s.round (write s.phase t p) t ≡ s.round t = ground (arith, seen_self p) in
          let was : seen s.round s.phase t ≡ s.round t = ground arith in
          let c = ap (count (target socket_num each t) i) (at ∙ sym was) in
          rw e (
            omega (
              arith,
              c,
              visits-changed socket_num each begins ends (seen s.round s.phase)
                  (seen s.round (write s.phase t p)) t i t_lt (seen_other p),
            ))
    ]

    pub hand-same :
        (p : Phase) (v : ℕ)
        → pending v (s.phase t) ≡ pending v p
        → hand v (write s.phase t p) ≡ hand v s.phase
    hand-same p v e = omega (arith, e, in_hand-write socket_num each begins ends v t s.phase p t_lt)

    pub ended_lem :
        (p : Phase) (x : ℕ)
        → x < threads
        → threads ≤ s.round x
        → is_asking (write s.phase t p x) ≡ true
    ended_lem p x lt past = elim (ℕ_discrete x t) [
      | yes at ↦ absurd (omega (arith, ap s.round at, past, short))
      | no ne ↦ rw (write_ne s.phase t p x ne) (k.ended x lt past)
    ]

    -- The counters behind which the leaving threads are, when no counter goes back.
    pub leaves_lem :
        (p : Phase) (states : ℕ → ThreadState)
        → ((i : ℕ) → i < threads → (s.states i).curr ≤ (states i).curr)
        → (is_leaving p ≡ true → ends j ≤ (states j).curr)
        → (x : ℕ) → x < threads
        → is_leaving (write s.phase t p x) ≡ true
        → ends (target socket_num each x (s.round x))
          ≤ (states (target socket_num each x (s.round x))).curr
    leaves_lem p states on past x lt e = elim (ℕ_discrete x t) [
      | yes at ↦
          let here : is_leaving p ≡ true =
            subst (λ q. is_leaving q ≡ true) (ap (write s.phase t p) at ∙ write_self s.phase t p)
              e in
          subst
            (λ y.
              ends (target socket_num each y (s.round y))
              ≤ (states (target socket_num each y (s.round y))).curr)
            (sym at) (past here)
      | no ne ↦
          let there : is_leaving (s.phase x) ≡ true =
            subst (λ q. is_leaving q ≡ true) (write_ne s.phase t p x ne) e in
          omega (
            arith,
            k.leaves x lt there,
            on (target socket_num each x (s.round x)) (target-lt socket_num each x lt (s.round x)),
          )
    ]

    -- Thread t comes to another phase, with as much in hand.
    pub phase-Good :
        (p : Phase)
        → is_leaving (s.phase t) ≡ false
        → ((v : ℕ) → pending v (s.phase t) ≡ pending v p)
        → (is_leaving p ≡ true → ends j ≤ (s.states j).curr)
        → Kept (record s { phase = write s.phase t p })
          × Roomy (record s { phase = write s.phase t p })
    phase-Good p stays same past = (
      record {
        end_is = k.end_is;
        from = k.from;
        done = k.done;
        left = k.left;
        leaves = leaves_lem p s.states (λ i lt. omega arith) past;
        ended = ended_lem p;
        once = λ i v l from below. rw (hand-same p v (same v)) (k.once i v l from below);
        outside = λ v out. rw (hand-same p v (same v)) (k.outside v out);
      },
      record { gone-le = seen-le p; to = λ i l. omega (arith, total_more p i stays, r.to i l) },
    )

    pub ask-Good :
        is_asking (s.phase t) ≡ true
        → is_leaving (s.phase t) ≡ false
        → ((v : ℕ) → pending v (s.phase t) ≡ 0)
        → Kept (ask t j s) × Roomy (ask t j s)
    unfolding ask pending is_leaving
    ask-Good e stays empty = elim (Bool-cases (is_working (s.states j).status)) [
      | inl at ↦ rw at (phase-Good claiming stays empty (λ l. absurd (ground arith)))
      | inr at ↦ rw at (phase-Good leaving stays empty (λ l. k.done j j_lt at))
    ]

    abbrev w : ℕ
    w = add32 (s.states j).curr chunk_size

    w_is : w ≡ (s.states j).curr + 64
    w_is = no_wrap socket_num each begins ends s j split r j_lt

    moved-from : (i : ℕ) → i < threads → (s.states i).curr ≤ (moved j w s.states i).curr
    moved-from i lt = ground (arith, moved-curr j w s.states i, w_is)

    not_here :
        (i v : ℕ) → i < threads → i ≢ j → begins i ≤ v → v < ends i → (ends j ≤ v) ⊎ (v < begins j)
    not_here i v lt ne from below = elim (dec_lt i j) [
      | yes h ↦ inr (omega (arith, split.apart i j h j_lt))
      | no h ↦ inl (omega (arith, split.apart j i (omega arith) lt))
    ]

    abbrev after_claim : Phase → Team
    after_claim p = record s { states = moved j w s.states; phase = write s.phase t p }

    -- What the addition to the counter keeps, whatever it returned.
    claim_any :
        (p : Phase)
        → is_leaving (s.phase t) ≡ false
        → (is_leaving p ≡ true → ends j ≤ (s.states j).curr)
        → ((i v : ℕ)
            → i < threads
            → begins i ≤ v
            → v < ends i
            → processed v s.calls + hand v (write s.phase t p)
              ≡ (if ltb v (moved j w s.states i).curr then 1 else 0))
        → ((v : ℕ)
            → ((i : ℕ) → i < threads → begins i ≤ v → ends i ≤ v)
            → processed v s.calls + hand v (write s.phase t p) ≡ 0)
        → Kept (after_claim p)
    claim_any p stays past once outside = record {
      end_is = λ i l. (moved-curr j w s.states i).1 ∙ k.end_is i l;
      from = λ i l. omega (arith, moved-from i l, k.from i l);
      done = λ i l e.
          omega (arith, moved-from i l, k.done i l (sym (moved-curr j w s.states i).2 ∙ e));
      left = λ i l pos. omega (arith, moved-from i l, k.left i l pos);
      leaves =
          leaves_lem p (moved j w s.states) moved-from
            (λ e. omega (arith, past e, moved-from j j_lt));
      ended = ended_lem p;
      once = once;
      outside = outside;
    }

    claim_missed :
        is_leaving (s.phase t) ≡ false
        → ((v : ℕ) → pending v (s.phase t) ≡ 0)
        → ends j ≤ (s.states j).curr
        → Kept (after_claim leaving) × Roomy (after_claim leaving)
    unfolding pending is_leaving
    claim_missed stays empty past = (
      claim_any leaving stays (λ e. past)
          (λ i v l from below.
            ap (λ x. processed v s.calls + x) (hand-same leaving v (empty v))
            ∙ k.once i v l from below
            ∙ ground (arith, moved-curr j w s.states i, w_is, past, below))
          (λ v out. rw (hand-same leaving v (empty v)) (k.outside v out)),
      record {
        gone-le = seen-le leaving;
        to = λ i l.
            ground (arith, total_more leaving i stays, r.to i l, moved-curr j w s.states i, w_is);
      },
    )

    abbrev chunk : Phase
    chunk = processing (s.states j).curr (min w (s.states j).end)

    claim_taken :
        is_leaving (s.phase t) ≡ false
        → ((v : ℕ) → pending v (s.phase t) ≡ 0)
        → (s.states j).curr < ends j
        → Kept (after_claim chunk) × Roomy (after_claim chunk)
    unfolding pending is_leaving
    claim_taken stays empty lt = (
      claim_any chunk stays (λ e. absurd (ground arith))
          (λ i v l from below. elim (ℕ_discrete i j) [
            | yes at ↦
                subst
                  (λ x.
                    processed v s.calls + hand v (write s.phase t chunk)
                    ≡ (if ltb v (moved j w s.states x).curr then 1 else 0))
                  (sym at)
                  (here v (subst (λ x. begins x ≤ v) at from) (subst (λ x. v < ends x) at below))
            | no ne ↦ ground (
              arith,
              taken v,
              k.once i v l from below,
              not_here i v l ne from below,
              k.from j j_lt,
              k.end_is j j_lt,
              moved-curr j w s.states i,
            )
          ])
          (λ v out.
            ground (arith, taken v, k.outside v out, out j j_lt, k.from j j_lt, k.end_is j j_lt)),
      record {
        gone-le = seen-le chunk;
        to = λ i l.
            ground (arith, total_more chunk i stays, r.to i l, moved-curr j w s.states i, w_is, lt);
      },
    )
      where
        taken :
            (v : ℕ)
            → hand v (write s.phase t chunk)
              ≡ hand v s.phase
                + (if ltb v (s.states j).curr
                    then 0
                    else if ltb v (min w (s.states j).end)
                    then 1
                    else 0)
        taken v =
            omega (arith, empty v, in_hand-write socket_num each begins ends v t s.phase chunk t_lt)

        here :
            (v : ℕ)
            → begins j ≤ v
            → v < ends j
            → processed v s.calls + hand v (write s.phase t chunk)
              ≡ (if ltb v (moved j w s.states j).curr then 1 else 0)
        here v from below = ground (
          arith,
          taken v,
          k.once j v j_lt from below,
          k.end_is j j_lt,
          w_is,
          moved-curr j w s.states j,
        )

    pub claim-Good :
        is_leaving (s.phase t) ≡ false
        → ((v : ℕ) → pending v (s.phase t) ≡ 0)
        → Kept (claim t j s) × Roomy (claim t j s)
    unfolding claim
    claim-Good stays empty = elim (Bool-cases (ltb (s.states j).curr (s.states j).end)) [
      | inl e ↦
          let lt : (s.states j).curr < ends j = ground (arith, k.end_is j j_lt) in
          rw e (claim_taken stays empty lt)
      | inr e ↦
          let past : ends j ≤ (s.states j).curr = ground (arith, k.end_is j j_lt) in
          rw e (claim_missed stays empty past)
    ]

-- ===== src/Walkers/Process/Left.antt =====
-- src/core/walker.hpp, process_walkers: the loop over a chunk, and what follows the while loop.
use flashmob.Prelude.{
  ℕ, ◌+◌, ◌≤◌, ◌<◌, ◌≡◌, ◌⊎◌, inl, inr, refl, sym, ◌∙◌, subst, ap, arith, ltb, ◌==◌, true, false,
  if◌then◌else◌, write, write_self, write_ne, Bool-cases, ◌∷◌,
}
use native.Mathlib.Decide.{ℕ_discrete}
use flashmob.Message.Counts.{count}
use flashmob.Walkers.Process.{
  Team, asking, processing, is_working, process_one, leave, target, processed,
}
use flashmob.Walkers.Process.Order.{target-own}
use flashmob.Walkers.Process.Kept.{
  pending, is_leaving, is_asking, IsSplit, in_hand-write, visits-changed,
}
use flashmob.Walkers.Process.Once.{
  threads, Kept, Roomy, hand, seen, seen-le, total_more, ended_lem, leaves_lem, phase-Good,
}

module _ (socket_num each : ℕ) (begins ends : ℕ → ℕ) (split : IsSplit socket_num each begins ends)
    (t : ℕ) (t_lt : t < threads socket_num each begins ends split) (s : Team)
    (r : Roomy socket_num each begins ends split s) (k : Kept socket_num each begins ends split s)
    (short : s.round t < threads socket_num each begins ends split) where
  abbrev Good : Team → Type 0
  Good u = Kept socket_num each begins ends split u × Roomy socket_num each begins ends split u

  abbrev num : ℕ
  num = threads socket_num each begins ends split

  abbrev here : ℕ
  here = target socket_num each t (s.round t)

  module _ (w_i work_end : ℕ) (e : s.phase t ≡ processing w_i work_end) where
    abbrev called : Team
    called = record s {
      phase = write s.phase t (processing (w_i + 1) work_end);
      calls = record { thread = t; walker = w_i } ∷ s.calls;
    }

    was :
        (v : ℕ) → pending v (s.phase t) ≡ (if ltb v w_i then 0 else if ltb v work_end then 1 else 0)
    unfolding pending
    was v = rw e refl

    stays : is_leaving (s.phase t) ≡ false
    unfolding is_leaving
    stays = rw e refl

    -- A call takes the walker out of the hand.
    one_called :
        (v : ℕ)
        → w_i < work_end
        → processed v called.calls + hand socket_num each begins ends split v called.phase
          ≡ processed v s.calls + hand socket_num each begins ends split v s.phase
    unfolding processed pending
    one_called v lt = ground (
      arith,
      was v,
      in_hand-write socket_num each begins ends v t s.phase (processing (w_i + 1) work_end) t_lt,
    )

    called-Good : w_i < work_end → Good called
    unfolding is_leaving
    called-Good lt = (
      record {
        end_is = k.end_is;
        from = k.from;
        done = k.done;
        left = k.left;
        leaves =
            leaves_lem socket_num each begins ends split t t_lt s r k short
              (processing (w_i + 1) work_end) s.states (λ i l. omega arith)
              (λ l. absurd (ground arith));
        ended = ended_lem socket_num each begins ends split t t_lt s r k short _;
        once = λ i v l from below. one_called v lt ∙ k.once i v l from below;
        outside = λ v out. one_called v lt ∙ k.outside v out;
      },
      record {
        gone-le = seen-le socket_num each begins ends split t t_lt s r k short _;
        to = λ i l. omega (
          arith,
          total_more socket_num each begins ends split t t_lt s r k short
              (processing (w_i + 1) work_end) i stays,
          r.to i l,
        );
      },
    )

    pub process_one-Good : Good (process_one t w_i work_end s)
    unfolding process_one pending is_leaving
    process_one-Good = elim (Bool-cases (ltb w_i work_end)) [
      | inl lt ↦ rw lt (called-Good (ground arith))
      | inr past ↦ rw past (
          phase-Good socket_num each begins ends split t t_lt s r k short asking stays
            (λ v. ground (arith, was v)) (λ l. absurd (ground arith)))
    ]

  leave-state :
      (i : ℕ)
      → (((leave t here s).states i).curr ≡ (s.states i).curr)
        × (((leave t here s).states i).end ≡ (s.states i).end)
  unfolding leave write
  leave-state i = ground arith

  leave-done :
      (i : ℕ)
      → is_working ((leave t here s).states i).status ≡ false
      → (is_working (s.states i).status ≡ false) ⊎ (i ≡ here)
  unfolding leave write
  leave-done i e = elim (ℕ_discrete i here) [ yes at ↦ inr at | no ne ↦ inl (ground arith) ]

  leave-round : (i : ℕ) → (leave t here s).round i ≡ (if i == t then s.round t + 1 else s.round i)
  unfolding leave write
  leave-round i = ground arith

  module _ (out : is_leaving (s.phase t) ≡ true) (empty : (v : ℕ) → pending v (s.phase t) ≡ 0) where
    -- The visit is counted already.
    leave-gone :
        (x : ℕ)
        → seen socket_num each begins ends split (leave t here s).round (leave t here s).phase x
          ≡ seen socket_num each begins ends split s.round s.phase x
    unfolding leave is_leaving
    leave-gone x = elim (ℕ_discrete x t) [
      | yes at ↦
          rw (at, write_self s.phase t asking, write_self s.round t (s.round t + 1), out)
            (omega arith)
      | no ne ↦ rw (write_ne s.phase t asking x ne, write_ne s.round t (s.round t + 1) x ne) refl
    ]

    past : ends here ≤ (s.states here).curr
    past = k.leaves t t_lt out

    hand_same :
        (v : ℕ)
        → hand socket_num each begins ends split v (leave t here s).phase
          ≡ hand socket_num each begins ends split v s.phase
    unfolding leave pending
    hand_same v =
        omega (arith, empty v, in_hand-write socket_num each begins ends v t s.phase asking t_lt)

    leave-left :
        (i : ℕ) → i < num → 0 < (leave t here s).round i → ends i ≤ ((leave t here s).states i).curr
    leave-left i l pos = elim (ℕ_discrete i t) [
      | no ne ↦ ground (arith, leave-state i, leave-round i, k.left i l)
      | yes at ↦ elim (ℕ_discrete (s.round t) 0) [
        | no later ↦ omega (
          arith,
          leave-state i,
          subst (λ x. ends x ≤ (s.states x).curr) (sym at) (k.left t t_lt (omega arith)),
        )
        | yes first ↦
            let own : here ≡ t =
              ap (target socket_num each t) first ∙ target-own socket_num each t t_lt in
            omega
              (arith, leave-state i, subst (λ x. ends x ≤ (s.states x).curr) (own ∙ sym at) past)
      ]
    ]

    leave-leaves :
        (x : ℕ)
        → x < num
        → is_leaving ((leave t here s).phase x) ≡ true
        → ends (target socket_num each x ((leave t here s).round x))
          ≤ ((leave t here s).states (target socket_num each x ((leave t here s).round x))).curr
    unfolding leave is_leaving
    leave-leaves x lt e = elim (ℕ_discrete x t) [
      | yes at ↦ absurd (
          ground (
            arith,
            e,
            ap is_leaving (ap (write s.phase t asking) at ∙ write_self s.phase t asking),
          ))
      | no ne ↦
          let there : is_leaving (s.phase x) ≡ true =
            subst (λ q. is_leaving q ≡ true) (write_ne s.phase t asking x ne) e in
          rw (write_ne s.round t (s.round t + 1) x ne)
            (omega (arith, k.leaves x lt there, leave-state (target socket_num each x (s.round x))))
    ]

    leave-ended :
        (x : ℕ)
        → x < num
        → num ≤ (leave t here s).round x
        → is_asking ((leave t here s).phase x) ≡ true
    unfolding leave is_asking
    leave-ended x lt done = elim (ℕ_discrete x t) [
      | yes at ↦ rw (at, write_self s.phase t asking) refl
      | no ne ↦
          rw (write_ne s.phase t asking x ne)
            (k.ended x lt (omega (arith, done, write_ne s.round t (s.round t + 1) x ne)))
    ]

    leave-calls : (leave t here s).calls ≡ s.calls
    unfolding leave
    leave-calls = refl

    pub leave-Good : Good (leave t here s)
    leave-Good = (
      record {
        end_is = λ i l. (leave-state i).1 ∙ k.end_is i l;
        from = λ i l. omega (arith, leave-state i, k.from i l);
        done = λ i l e. elim (leave-done i e) [
          | inl before ↦ omega (arith, leave-state i, k.done i l before)
          | inr at ↦
              omega (arith, leave-state i, subst (λ x. ends x ≤ (s.states x).curr) (sym at) past)
        ];
        left = leave-left;
        leaves = leave-leaves;
        ended = leave-ended;
        once = λ i v l from below.
            rw (leave-calls, hand_same v, (leave-state i).0) (k.once i v l from below);
        outside = λ v away. rw (leave-calls, hand_same v) (k.outside v away);
      },
      record {
        gone-le = λ x l. omega (arith, leave-gone x, r.gone-le x l);
        to = λ i l. omega (
          arith,
          leave-state i,
          r.to i l,
          ap (count (target socket_num each t) i) (leave-gone t),
          visits-changed socket_num each begins ends
              (seen socket_num each begins ends split s.round s.phase)
              (seen socket_num each begins ends split (leave t here s).round (leave t here s).phase)
              t i t_lt (λ x ne. leave-gone x),
        );
      },
    )

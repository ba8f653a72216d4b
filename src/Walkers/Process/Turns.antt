-- ===== src/Walkers/Process/Turns.antt =====
-- src/core/walker.hpp, process_walkers: the operations of all threads, in any order.
use flashmob.Prelude.{
  ℕ, zero, suc, ◌*◌, ◌≤◌, ◌<◌, ◌≡◌, refl, arith, min, ltb, Bool-cases, ap, ◌⊎◌, inl, inr,
  lt_suc-cases, List, [], ◌∷◌, All,
}
use flashmob.Prelude.Loops.{sum_below}
use flashmob.Message.Counts.{count}
use native.Mathlib.Decide.{dec_lt}
use flashmob.Walkers.{Range}
use flashmob.Walkers.Process.{
  Team, Phase, asking, claiming, processing, leaving, is_working, act, turn, target, start_team,
  start_states, process_walkers, processed,
}
use flashmob.Walkers.Process.Kept.{
  IsSplit, IsRoomy, IsKept, pending, pending-asking, is_leaving, is_asking, sum_below-none,
}
use flashmob.Walkers.Process.Once.{ask-Good, claim-Good}
use flashmob.Walkers.Process.Left.{process_one-Good, leave-Good}

module _ (socket_num each : ℕ) (begins ends : ℕ → ℕ)
    (split : IsSplit socket_num each begins ends) where
  abbrev pub Good : Team → Type 0
  Good s = IsKept socket_num each begins ends s × IsRoomy socket_num each begins ends s

  abbrev threads : ℕ
  threads = socket_num * each

  act-Good :
      (t : ℕ) (s : Team) (p : Phase)
      → s.phase t ≡ p
      → t < threads
      → s.round t < threads
      → Good s
      → Good (act t (target socket_num each t (s.round t)) p s)
  unfolding act pending is_leaving is_asking
  act-Good t s asking e lt short (k, r) =
      ask-Good socket_num each begins ends split t lt s r k short (rw e refl) (rw e refl)
        (λ v. rw e refl)
  act-Good t s claiming e lt short (k, r) =
      claim-Good socket_num each begins ends split t lt s r k short (rw e refl) (λ v. rw e refl)
  act-Good t s (processing w_i work_end) e lt short (k, r) =
      process_one-Good socket_num each begins ends split t lt s r k short w_i work_end e
  act-Good t s leaving e lt short (k, r) =
      leave-Good socket_num each begins ends split t lt s r k short (rw e refl) (λ v. rw e refl)

  pub turn-Good : (t : ℕ) (s : Team) → t < threads → Good s → Good (turn socket_num each t s)
  unfolding turn
  turn-Good t s lt g = elim (Bool-cases (ltb (s.round t) (socket_num * each))) [
    | inr e ↦ rw e g
    | inl e ↦ rw e (act-Good t s (s.phase t) refl lt (ground arith) g)
  ]

  pub turns-Good :
      (turns : List ℕ) (s : Team)
      → All (λ t. t < threads) turns
      → Good s
      → Good (process_walkers socket_num each turns s)
  unfolding process_walkers
  turns-Good [] s all g = g
  turns-Good (t ∷ turns) s all g =
      turns-Good turns (turn socket_num each t s) all.1 (turn-Good t s all.0 g)

abbrev pub range_begins : (ℕ → Range) → ℕ → ℕ
range_begins ranges t = (ranges t).first

-- thread_states[s][t]->end
abbrev pub range_ends : (ℕ → Range) → ℕ → ℕ → ℕ
range_ends ranges active t = min (ranges t).last active

pub start-Good :
    (socket_num each active : ℕ) (ranges : ℕ → Range)
    (split : IsSplit socket_num each (range_begins ranges) (range_ends ranges active))
    → Good socket_num each
        (range_begins ranges)
        (range_ends ranges active)
        split
        (start_team ranges active)
unfolding start_team start_states count is_working pending is_leaving is_asking processed
start-Good socket_num each active ranges split = (
  record {
    end_is = λ j l. refl;
    from = λ j l. omega arith;
    done = λ j l e. absurd (ground arith);
    left = λ j l pos. absurd (omega arith);
    leaves = λ t l e. absurd (ground arith);
    ended = λ t l e. refl;
    once = λ j v l from below. ground (arith, nothing);
    outside = λ v out. omega (arith, nothing);
  },
  record { gone-le = λ t l. omega arith; to = λ j l. omega arith },
)
  where
    nothing : sum_below (λ t. 0) (socket_num * each) ≡ 0
    nothing = sum_below-none (λ t. 0) (socket_num * each) (λ t l. refl)

-- A walker is in one of the first n ranges, or in none.
in_range :
    (b e : ℕ → ℕ) (v n : ℕ)
    → ((j : ℕ) × (j < n) × (b j ≤ v) × (v < e j)) ⊎ ((j : ℕ) → j < n → b j ≤ v → e j ≤ v)
in_range b e v zero = inr (λ j lt. absurd (omega arith))
in_range b e v (suc n) = elim (in_range b e v n) [
  | inl (j, lt, from, below) ↦ inl (j, omega arith, from, below)
  | inr out ↦ elim (dec_lt v (b n)) [
    | yes before ↦ inr (λ j lt from. elim (lt_suc-cases j n lt) [
      | inl at ↦ absurd (omega (arith, before, from, ap b at))
      | inr less ↦ out j less from
    ])
    | no from ↦ elim (dec_lt v (e n)) [
      | yes below ↦ inl (n, omega arith, omega arith, below)
      | no past ↦ inr (λ j lt from'. elim (lt_suc-cases j n lt) [
        | inl at ↦ omega (arith, past, ap e at)
        | inr less ↦ out j less from'
      ])
    ]
  ]
]

module _ (socket_num each active : ℕ) (ranges : ℕ → Range) (turns : List ℕ) where
  abbrev after : Team
  after = process_walkers socket_num each turns (start_team ranges active)

  -- However the operations of the threads interleave, for ranges that lie apart and end with room
  -- for one chunk more from each thread and one below 2 ^ 32: every walker is processed at most
  -- once, and only active ones are; and when every thread is behind its loops, every active walker
  -- of the ranges is processed once.
  pub process_walkers-once :
      IsSplit socket_num each (range_begins ranges) (range_ends ranges active)
      → All (λ t. t < socket_num * each) turns
      → ((v : ℕ) → processed v after.calls ≤ 1)
        × ((v : ℕ) → 0 < processed v after.calls → v < active)
        × (((t : ℕ) → t < socket_num * each → socket_num * each ≤ after.round t)
            → (j v : ℕ) → j < socket_num * each
            → (ranges j).first ≤ v
            → v < (ranges j).last
            → v < active
            → processed v after.calls ≡ 1)
  process_walkers-once split all =
      let (k, r) =
        turns-Good socket_num each (range_begins ranges) (range_ends ranges active) split turns
          (start_team ranges active) all (start-Good socket_num each active ranges split) in
      (
        λ v.
            elim (in_range (range_begins ranges) (range_ends ranges active) v (socket_num * each)) [
              | inl (j, lt, from, below) ↦ ground (arith, k.once j v lt from below)
              | inr out ↦ omega (arith, k.outside v out)
            ],
        λ v pos.
            elim (in_range (range_begins ranges) (range_ends ranges active) v (socket_num * each)) [
              | inl (j, lt, from, below) ↦ omega (arith, below)
              | inr out ↦ absurd (omega (arith, k.outside v out, pos))
            ],
        λ done j v lt from below in_active.
            let nothing =
              sum_below-none (λ t. pending v (after.phase t)) (socket_num * each)
                (λ t l. pending-asking v (after.phase t) (k.ended t l (done t l))) in
            let past = k.left j lt (omega (arith, done j lt, lt)) in
            ground (arith, k.once j v lt from (omega arith), nothing, past, below, in_active),
      )

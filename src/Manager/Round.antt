-- ===== src/Manager/Round.antt =====
-- src/core/solver.hpp, one step of FMobSolver::walk: `shuffle`, the walk of every partition,
-- `update`.
use flashmob.Prelude.{
  ℕ, suc, ◌+◌, ◌-◌, ◌≤◌, ◌<◌, ◌≡◌, inl, refl, arith, List, [], ◌∷◌, Option, All, sym, subst, ap,
  ◌∙◌, some,
}
use flashmob.Prelude.Loops.{sum_below}
use native.Mathlib.Decide.{dec_lt}
use flashmob.Message.{MessageTask, message_num, prepare, shuffle, update}
use flashmob.Message.Counts.{slot, sum_below_mono}
use flashmob.Message.Shuffled.{
  dest, IsFit, shuffle-messages, shuffle-begin, shuffle-end, shuffle-slot, shuffle-onto,
  update-target, update-outside, sorted_range,
}
use flashmob.Walk.Blocks.{IsSampler}
use flashmob.Walk.Partitions.{IsOrder, HasBlocks, IsReady, Advanced, Each, occurs, walk-Each}
use flashmob.Message.Kept.{Alike, Alike-trans, sorted-Alike}
use flashmob.Manager.Kept.{
  IsTask, IsTeam, Each-trans, update_messages-Alike, clamp-IsTeam, Alike-IsTeam,
  shuffle_messages_lem,
}
use flashmob.Manager.{
  Rounded, walk_round, clamp_sockets, finish_round, run_tasks, update_messages, Chain,
}
use flashmob.Manager.Ranges.{Chain-le}

update_messages-before :
    (target : ℕ → ℕ) (lo hi : ℕ) (ts : List MessageTask) (i : ℕ)
    → Chain lo ts hi
    → i < lo
    → (update_messages target ts).1 i ≡ target i
unfolding update_messages
update_messages-before target lo hi [] i c lt = refl
update_messages-before target lo hi (t ∷ ts) i c lt =
    update_messages-before (update target t).1 t.origin_message_end hi ts i c.2 (omega arith)
    ∙ update-outside target t i (omega arith) (inl (omega arith))

module _ {ℓ κ} {S : Type ℓ} {sample : ℕ → ℕ → S → ℕ × S} {Sound : S → Type κ}
    {Lies : ℕ → ℕ → Type 0} {Step : ℕ → ℕ → Type 0} (h : IsSampler sample Sound Lies Step)
    (IsVertex : ℕ → Type 0) (pn : ℕ) (messages : ℕ → ℕ) (states : Option (ℕ → ℕ)) where
  -- The messages of the range of a task are vertices.
  abbrev AllVertices : MessageTask → Type 0
  AllVertices t =
      (i : ℕ) → t.origin_message_begin ≤ i → i < t.origin_message_end → IsVertex (messages i)

  task-IsFit : (t : MessageTask) → IsTask IsVertex Lies pn t → AllVertices t → IsFit t messages
  task-IsFit t k vs = record {
    fits = λ j lt. rw k.num (k.fits _ (vs _ (omega arith) (omega arith)));
    small = omega (arith, k.small);
  }

  abbrev sorted : MessageTask → MessageTask
  sorted t = shuffle messages states (prepare messages t)

  sorted-HasBlocks : (t : MessageTask) → IsFit t messages → HasBlocks t.partition_num (sorted t)
  unfolding sum_below
  sorted-HasBlocks t fit = record {
    ordered = λ p lt.
        omega
          (arith, shuffle-begin t messages fit states p lt, shuffle-end t messages fit states p lt);
    apart = λ p q less lt. omega (
      arith,
      shuffle-end t messages fit states p (omega arith),
      shuffle-begin t messages fit states q lt,
      sum_below_mono _ (suc p) q less,
    );
  }

  sorted-IsReady :
      (order : List ℕ) (t : MessageTask)
      → IsTask IsVertex Lies pn t
      → AllVertices t
      → IsReady h pn order (sorted t)
  sorted-IsReady order t k vs = record {
    blocks = rw (← k.num) (sorted-HasBlocks t fit);
    lies = λ p lp more i r.
        let (j, lt, e, at_i) = shuffle-onto t messages fit states p i (rw k.num lp) r in
        rw (← at_i, ← e, shuffle-messages t messages fit states j lt)
          (k.lies _ (vs _ (omega arith) (omega arith)));
  }
    where
      fit : IsFit t messages
      fit = task-IsFit t k vs

  -- The walker at place j of a task, after `update`.
  update-Step :
      (order : List ℕ) (t t' : MessageTask) (target : ℕ → ℕ) (j : ℕ)
      → IsTask IsVertex Lies pn t
      → AllVertices t
      → ((p : ℕ) → p < pn → occurs p order ≡ 1)
      → Advanced h pn order (sorted t) t'
      → j < message_num t
      → Step
          (messages (t.origin_message_begin + j))
          ((update target t').1 (t.origin_message_begin + j))
  update-Step order t t' target j k vs once adv lt =
      subst (λ v. Step v ((update target t').1 (t.origin_message_begin + j)))
        (shuffle-messages t messages fit states j lt)
        (subst (λ v. Step ((sorted t).shuffled_messages place) v) (sym back) step)
    where
      fit : IsFit t messages
      fit = task-IsFit t k vs

      place : ℕ
      place = slot (dest t messages) (message_num t) j

      back : (update target t').1 (t.origin_message_begin + j) ≡ t'.shuffled_messages place
      back =
          ap (λ x. (update target x).1 (t.origin_message_begin + j)) adv.same
          ∙ update-target t messages fit states target t'.shuffled_messages j lt

      step : Step ((sorted t).shuffled_messages place) (t'.shuffled_messages place)
      step =
          adv.stepped (dest t messages j) place (rw (← k.num) (fit.fits j lt))
            (once _ (rw (← k.num) (fit.fits j lt))) (shuffle-slot t messages fit states j lt).0

  -- A walk of all tasks, behind one another.
  run_tasks-IsReady :
      (order : List ℕ) (lo hi : ℕ) (ts : List MessageTask)
      → Chain lo ts hi
      → All (IsTask IsVertex Lies pn) ts
      → ((i : ℕ) → lo ≤ i → i < hi → IsVertex (messages i))
      → All (IsReady h pn order) (run_tasks messages states ts)
  unfolding run_tasks
  run_tasks-IsReady order lo hi [] c k vs = tt
  run_tasks-IsReady order lo hi (t ∷ ts) c k vs = (
    sorted-IsReady order t k.0
        (λ i from below. vs i (omega arith) (omega (arith, Chain-le _ _ _ c.2))),
    run_tasks-IsReady order t.origin_message_end hi ts c.2 k.1
        (λ i from below. vs i (omega arith) below),
  )

  Each-Chain :
      (order : List ℕ) (lo hi : ℕ) (ts ts' : List MessageTask)
      → Chain lo ts hi
      → Each (Advanced h pn order) (run_tasks messages states ts) ts'
      → Chain lo ts' hi
  unfolding run_tasks
  Each-Chain order lo hi [] [] c e = c
  Each-Chain order lo hi [] (t' ∷ ts') c e = absurd e
  Each-Chain order lo hi (t ∷ ts) [] c e = absurd e
  Each-Chain order lo hi (t ∷ ts) (t' ∷ ts') c e =
      let (b, n) = sorted_range t messages states in
      let b' = ap (λ x. x.origin_message_begin) e.0.same ∙ b in
      let n' = ap (λ x. x.origin_message_end) e.0.same ∙ n in
      (b' ∙ c.0, rw n' c.1, rw n' (Each-Chain order t.origin_message_end hi ts ts' c.2 e.1))

  Advanced-Alike :
      (order : List ℕ) (ts ts' : List MessageTask)
      → Each (Advanced h pn order) (run_tasks messages states ts) ts'
      → Each Alike ts ts'
  unfolding run_tasks
  Advanced-Alike order [] [] e = tt
  Advanced-Alike order [] (t' ∷ ts') e = absurd e
  Advanced-Alike order (t ∷ ts) [] e = absurd e
  Advanced-Alike order (t ∷ ts) (t' ∷ ts') e = (
    Alike-trans t (sorted t) t' (sorted-Alike t messages states) (record {
      graph = ap (λ (x : MessageTask). x.graph) e.0.same;
      socket = ap (λ (x : MessageTask). x.socket) e.0.same;
      num = ap (λ (x : MessageTask). x.partition_num) e.0.same;
      first = ap (λ (x : MessageTask). x.origin_message_begin) e.0.same;
      last = ap (λ (x : MessageTask). x.origin_message_end) e.0.same;
    }),
    Advanced-Alike order ts ts' e.1,
  )

  update_messages-Step :
      (order : List ℕ) (lo hi : ℕ) (ts ts' : List MessageTask) (target : ℕ → ℕ)
      → Chain lo ts hi
      → All (IsTask IsVertex Lies pn) ts
      → ((i : ℕ) → lo ≤ i → i < hi → IsVertex (messages i))
      → ((p : ℕ) → p < pn → occurs p order ≡ 1)
      → Each (Advanced h pn order) (run_tasks messages states ts) ts'
      → (i : ℕ) → lo ≤ i
      → i < hi
      → Step (messages i) ((update_messages target ts').1 i)
  unfolding run_tasks update_messages
  update_messages-Step order lo hi [] ts' target c k vs once e i from below = absurd (omega arith)
  update_messages-Step order lo hi (t ∷ ts) [] target c k vs once e i from below = absurd e
  update_messages-Step order lo hi (t ∷ ts) (t' ∷ ts') target c k vs once e i from below =
      elim (dec_lt i t.origin_message_end) [
        | yes here ↦
            let at_i : t.origin_message_begin + (i - t.origin_message_begin) ≡ i = omega arith in
            rw
              (update_messages-before (update target t').1 t.origin_message_end hi ts' i chain'
                here)
              (subst (λ x. Step (messages x) ((update target t').1 x)) at_i
                (update-Step order t t' target (i - t.origin_message_begin) k.0
                  (λ x lo' hi'. vs x (omega arith) (omega (arith, Chain-le _ _ _ c.2))) once e.0
                  (omega arith)))
        | no later ↦
            update_messages-Step order t.origin_message_end hi ts ts' (update target t').1 c.2 k.1
              (λ x lo' hi'. vs x (omega arith) hi') once e.1 i (omega arith) below
      ]
    where
      chain' : Chain t.origin_message_end ts' hi
      chain' = Each-Chain order t.origin_message_end hi ts ts' c.2 e.1

  -- With every partition walked once, each walker in the range of the tasks moves by a step from
  -- the vertex it stood on, and the world stays sound.
  pub finish_round-Step :
      (order : List ℕ) (lo hi : ℕ) (ts : List MessageTask) (target : ℕ → ℕ) (w : S)
      → Chain lo ts hi
      → All (IsTask IsVertex Lies pn) ts
      → ((i : ℕ) → lo ≤ i → i < hi → IsVertex (messages i))
      → IsOrder pn order
      → Sound w
      → ((i : ℕ)
          → lo ≤ i
          → i < hi
          → Step
              (messages i)
              ((finish_round sample order target (run_tasks messages states ts) w).next i))
        × Sound (finish_round sample order target (run_tasks messages states ts) w).world
        × Each Alike ts (finish_round sample order target (run_tasks messages states ts) w).tasks
  unfolding finish_round
  finish_round-Step order lo hi ts target w c k vs o sound =
      let (adv, sound') =
        walk-Each h pn order (run_tasks messages states ts) w o.below o.most
          (run_tasks-IsReady order lo hi ts c k vs) sound in
      (
        update_messages-Step order lo hi ts _ target c k vs o.once adv,
        sound',
        Each-trans Alike-trans ts _ _ (Advanced-Alike order ts _ adv)
            (update_messages-Alike target _),
      )

  -- A round for `active` walkers, no more than the tasks have, who stand on vertices, with every
  -- partition walked once and a sampler as `IsSampler` says in a sound world: its CHECK holds,
  -- each of the walkers moves by a step from the vertex it stood on, the world stays sound, and
  -- the tasks are ready for another round of so many walkers.
  pub round-Step :
      (socket_num threads active hi : ℕ) (order : List ℕ) (ts : List MessageTask) (target : ℕ → ℕ)
      (w : S)
      → IsTeam IsVertex Lies pn socket_num threads hi ts
      → active ≤ hi
      → ((i : ℕ) → i < active → IsVertex (messages i))
      → IsOrder pn order
      → Sound w
      → (r : Rounded S) × (walk_round socket_num threads sample order messages states target active
            ts w
          ≡ some r)
        × ((i : ℕ) → i < active → Step (messages i) (r.next i))
        × Sound r.world
        × IsTeam IsVertex Lies pn socket_num threads active r.tasks
  unfolding walk_round
  round-Step socket_num threads active hi order ts target w team le vs o sound =
      let cut = clamp_sockets socket_num threads active ts in
      let ready = clamp-IsTeam IsVertex Lies pn socket_num threads active hi ts le team in
      let (steps, sound', alike) =
        finish_round-Step order 0 active cut target w ready.chain ready.tasks
          (λ i from below. vs i below) o sound in
      (
        finish_round sample order target (run_tasks messages states cut) w,
        rw
            (
              shuffle_messages_lem socket_num threads active hi messages states ts team.chain le,
              walk_round,
            )
            refl,
        (λ i below. steps i (omega arith) below),
        sound',
        Alike-IsTeam IsVertex Lies pn socket_num threads active cut _ alike ready,
      )

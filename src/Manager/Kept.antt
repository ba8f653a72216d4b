-- ===== src/Manager/Kept.antt =====
-- src/core/message.hpp: the fields of the tasks that a round leaves alone, and the cutting of the
-- ranges in `shuffle`.
use flashmob.Prelude.{
  ℕ, zero, suc, ◌*◌, ◌^◌, ◌≤◌, ◌<◌, ◌≡◌, ◌⊎◌, inl, inr, refl, subst, ap, ◌∙◌, arith, min, Option,
  some, List, [], ◌∷◌, All, length, take, drop, length-append, take-append-drop, All-append,
  All-take, All-drop,
}
use flashmob.Message.{MessageTask, task_partition, update}
use flashmob.Message.Kept.{Alike, update-Alike}
use flashmob.Walk.Partitions.{Each}
use flashmob.Manager.{
  clamp_task, clamp_next, clamp_threads, clamp_socket, clamp_sockets, last_end, run_tasks,
  shuffle_messages, update_messages, Chain,
}
use flashmob.Manager.Ranges.{clamp_sockets-Chain}

-- What a task knows of the graph: every vertex has a partition of the graph, whose sampler may
-- be given it.
pub record IsTask (IsVertex : ℕ → Type 0) (Lies : ℕ → ℕ → Type 0) (pn : ℕ) (t : MessageTask)
    : Type 0 where
  pub num : t.partition_num ≡ pn
  pub fits : (v : ℕ) → IsVertex v → task_partition t v < pn
  pub lies : (v : ℕ) → IsVertex v → Lies (task_partition t v) v
  pub small : t.origin_message_end < 2 ^ 32

-- The tasks of all threads, over the walkers below `hi`.
pub record IsTeam (IsVertex : ℕ → Type 0) (Lies : ℕ → ℕ → Type 0) (pn socket_num threads hi : ℕ)
    (ts : List MessageTask) : Type 0 where
  pub chain : Chain 0 ts hi
  pub tasks : All (IsTask IsVertex Lies pn) ts
  pub number : length ts ≡ socket_num * threads

pub Each-trans :
    {R : MessageTask → MessageTask → Type 0} (trans : (t u v : MessageTask) → R t u → R u v → R t v)
    (ts us vs : List MessageTask)
    → Each R ts us
    → Each R us vs
    → Each R ts vs
Each-trans trans [] [] [] a b = tt
Each-trans trans [] [] (v ∷ vs) a b = absurd b
Each-trans trans [] (u ∷ us) vs a b = absurd a
Each-trans trans (t ∷ ts) [] vs a b = absurd a
Each-trans trans (t ∷ ts) (u ∷ us) [] a b = absurd b
Each-trans trans (t ∷ ts) (u ∷ us) (v ∷ vs) a b =
    (trans t u v a.0 b.0, Each-trans trans ts us vs a.1 b.1)

pub update_messages-Alike :
    (target : ℕ → ℕ) (ts : List MessageTask) → Each Alike ts (update_messages target ts).0
unfolding update_messages
update_messages-Alike target [] = tt
update_messages-Alike target (t ∷ ts) =
    (update-Alike target t, update_messages-Alike (update target t).1 ts)

length-clamp_threads :
    (active : ℕ) (ts : List MessageTask) → length (clamp_threads active ts).0 ≡ length ts
unfolding clamp_threads clamp_next
length-clamp_threads active [] = refl
length-clamp_threads active (t ∷ ts) = ground (arith, length-clamp_threads active ts)

length-clamp_sockets :
    (k threads active : ℕ) (ts : List MessageTask)
    → length (clamp_sockets k threads active ts) ≡ length ts
unfolding clamp_sockets clamp_socket
length-clamp_sockets zero threads active ts = refl
length-clamp_sockets (suc k) threads active ts = omega (
  arith,
  length-append (clamp_socket active (take threads ts))
      (clamp_sockets k threads active (drop threads ts)),
  length-clamp_threads active (take threads ts),
  length-clamp_sockets k threads active (drop threads ts),
  length-append (take threads ts) (drop threads ts),
  ap (λ (x : List MessageTask). length x) (take-append-drop threads ts),
)

module _ (IsVertex : ℕ → Type 0) (Lies : ℕ → ℕ → Type 0) (pn : ℕ) where
  Alike-IsTask :
      (t t' : MessageTask) → Alike t t' → IsTask IsVertex Lies pn t → IsTask IsVertex Lies pn t'
  Alike-IsTask t t' a k = record {
    num = a.num ∙ k.num;
    fits = λ v h. rw (a.graph, a.socket) (k.fits v h);
    lies = λ v h. rw (a.graph, a.socket) (k.lies v h);
    small = omega (arith, a.last, k.small);
  }

  Alike-All :
      (ts us : List MessageTask)
      → Each Alike ts us
      → All (IsTask IsVertex Lies pn) ts
      → All (IsTask IsVertex Lies pn) us
  Alike-All [] [] a k = tt
  Alike-All [] (u ∷ us) a k = absurd a
  Alike-All (t ∷ ts) [] a k = absurd a
  Alike-All (t ∷ ts) (u ∷ us) a k = (Alike-IsTask t u a.0 k.0, Alike-All ts us a.1 k.1)

  Alike-Chain :
      (lo hi : ℕ) (ts us : List MessageTask) → Each Alike ts us → Chain lo ts hi → Chain lo us hi
  Alike-Chain lo hi [] [] a c = c
  Alike-Chain lo hi [] (u ∷ us) a c = absurd a
  Alike-Chain lo hi (t ∷ ts) [] a c = absurd a
  Alike-Chain lo hi (t ∷ ts) (u ∷ us) a c = (
    a.0.first ∙ c.0,
    omega (arith, a.0.last, c.1),
    rw a.0.last (Alike-Chain t.origin_message_end hi ts us a.1 c.2),
  )

  length-Alike : (ts us : List MessageTask) → Each Alike ts us → length us ≡ length ts
  length-Alike [] [] a = refl
  length-Alike [] (u ∷ us) a = absurd a
  length-Alike (t ∷ ts) [] a = absurd a
  length-Alike (t ∷ ts) (u ∷ us) a = ap suc (length-Alike ts us a.1)

  pub Alike-IsTeam :
      (socket_num threads hi : ℕ) (ts us : List MessageTask)
      → Each Alike ts us
      → IsTeam IsVertex Lies pn socket_num threads hi ts
      → IsTeam IsVertex Lies pn socket_num threads hi us
  Alike-IsTeam socket_num threads hi ts us a team = record {
    chain = Alike-Chain 0 hi ts us a team.chain;
    tasks = Alike-All ts us a team.tasks;
    number = length-Alike ts us a ∙ team.number;
  }

  -- The ranges of tasks stay within 32 bits.
  Chain-small :
      (lo hi : ℕ) (ts : List MessageTask)
      → Chain lo ts hi
      → All (IsTask IsVertex Lies pn) ts
      → (lo ≡ hi) ⊎ (hi < 2 ^ 32)
  Chain-small lo hi [] c k = inl c
  Chain-small lo hi (t ∷ ts) c k =
      inr (omega (arith, Chain-small t.origin_message_end hi ts c.2 k.1, k.0.small))

  -- Cutting the ranges keeps the tasks.
  clamp_task-IsTask :
      (active : ℕ) (t : MessageTask)
      → active < 2 ^ 32
      → IsTask IsVertex Lies pn t
      → IsTask IsVertex Lies pn (clamp_task active t)
  unfolding clamp_task
  clamp_task-IsTask active t small k = record {
    num = k.num;
    fits = k.fits;
    lies = k.lies;
    small = small;
  }

  clamp_threads-All :
      (active : ℕ) (ts : List MessageTask)
      → active < 2 ^ 32
      → All (IsTask IsVertex Lies pn) ts
      → All (IsTask IsVertex Lies pn) (clamp_threads active ts).0
  unfolding clamp_threads
  clamp_threads-All active [] small k = tt
  clamp_threads-All active (t ∷ ts) small k =
      ground (arith, clamp_threads-All active ts small k.1, clamp_task-IsTask active t small k.0, k)

  clamp_sockets-All :
      (k threads active : ℕ) (ts : List MessageTask)
      → active < 2 ^ 32
      → All (IsTask IsVertex Lies pn) ts
      → All (IsTask IsVertex Lies pn) (clamp_sockets k threads active ts)
  unfolding clamp_sockets
  clamp_sockets-All zero threads active ts small k = k
  clamp_sockets-All (suc socket_num) threads active ts small k =
      All-append (IsTask IsVertex Lies pn) _ _
        (clamp_threads-All active (take threads ts) small
          (All-take (IsTask IsVertex Lies pn) threads ts k))
        (clamp_sockets-All socket_num threads active (drop threads ts) small
          (All-drop (IsTask IsVertex Lies pn) threads ts k))

  -- The tasks that `shuffle` works on, for fewer active messages.
  pub clamp-IsTeam :
      (socket_num threads active hi : ℕ) (ts : List MessageTask)
      → active ≤ hi
      → IsTeam IsVertex Lies pn socket_num threads hi ts
      → IsTeam IsVertex Lies pn socket_num threads active
          (clamp_sockets socket_num threads active ts)
  clamp-IsTeam socket_num threads active hi ts le team =
      let e : min 0 active ≡ 0 = omega arith in
      let f : min hi active ≡ active = omega arith in
      record {
        chain =
            subst (λ x. Chain 0 (clamp_sockets socket_num threads active ts) x) f
              (subst (λ x. Chain x (clamp_sockets socket_num threads active ts) (min hi active)) e
                (clamp_sockets-Chain socket_num threads active 0 hi ts team.chain team.number));
        tasks =
            clamp_sockets-All socket_num threads active ts
              (omega (arith, le, Chain-small 0 hi ts team.chain team.tasks)) team.tasks;
        number = length-clamp_sockets socket_num threads active ts ∙ team.number;
      }

last_end-Chain :
    (lo hi : ℕ) (t : MessageTask) (ts : List MessageTask)
    → Chain lo (t ∷ ts) hi
    → last_end (t ∷ ts) ≡ hi
unfolding last_end
last_end-Chain lo hi t [] c = c.2
last_end-Chain lo hi t (u ∷ ts) c = last_end-Chain t.origin_message_end hi u ts c.2

-- The CHECK of `shuffle` holds when the tasks have walkers enough.
pub shuffle_messages_lem :
    (k threads active hi : ℕ) (messages : ℕ → ℕ) (states : Option (ℕ → ℕ)) (ts : List MessageTask)
    → Chain 0 ts hi
    → active ≤ hi
    → shuffle_messages k threads messages states active ts
      ≡ some (run_tasks messages states (clamp_sockets k threads active ts))
unfolding shuffle_messages last_end
shuffle_messages_lem k threads active hi messages states [] c le = ground arith
shuffle_messages_lem k threads active hi messages states (t ∷ ts) c le =
    ground (arith, last_end-Chain 0 hi t ts c)

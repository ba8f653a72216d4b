-- ===== src/Manager.antt =====
-- src/core/message.hpp, class MessageManager: the tasks of all threads, and one round of a
-- walk over them. The tasks run in parallel in the source; each reads and writes arrays of
-- its own, and of the shared ones only its own range of walkers, so they are run in order here.
pub mod Ranges
pub mod Kept
pub mod Round
use flashmob.Prelude.{
  ℕ, zero, suc, take, drop, ◌≤◌, ◌≡◌, min, Bool, true, false, Option, none, some, List, [], ◌∷◌,
  ◌++◌, map, ltb, if◌then◌else◌,
}
use flashmob.Walk.{walk}
use flashmob.Message.{MessageTask, prepare, shuffle, update}

-- The loop of `shuffle` over the threads of a socket, from the last one down: a range that goes
-- past the active messages is cut, and the first that does not ends the loop (`true`).
clamp_task : ℕ → MessageTask → MessageTask
clamp_task active t = record t {
  origin_message_end = active;
  origin_message_begin = min t.origin_message_begin active;
}

clamp_next : ℕ → MessageTask → List MessageTask × Bool → List MessageTask × Bool
clamp_next active t (ts, true) = (t ∷ ts, true)
clamp_next active t (ts, false) =
    if ltb active t.origin_message_end then (clamp_task active t ∷ ts, false) else (t ∷ ts, true)

clamp_threads : ℕ → List MessageTask → List MessageTask × Bool
unfolding clamp_next clamp_task
clamp_threads active [] = ([], false)
clamp_threads active (t ∷ ts) = clamp_next active t (clamp_threads active ts)

pub clamp_socket : ℕ → List MessageTask → List MessageTask
unfolding clamp_threads
clamp_socket active ts = (clamp_threads active ts).0

-- mtasks[socket_num - 1][socket_thread_num() - 1]->origin_message_end
last_end : List MessageTask → ℕ
last_end [] = 0
last_end (t ∷ []) = t.origin_message_end
last_end (t ∷ u ∷ ts) = last_end (u ∷ ts)

-- The tasks stand in the order of `mtasks`: `threads` of them for each socket.
pub clamp_sockets : ℕ → ℕ → ℕ → List MessageTask → List MessageTask
unfolding clamp_socket
clamp_sockets zero threads active ts = ts
clamp_sockets (suc socket_num) threads active ts =
    clamp_socket active (take threads ts)
    ++ clamp_sockets socket_num threads active (drop threads ts)

pub run_tasks : (ℕ → ℕ) → Option (ℕ → ℕ) → List MessageTask → List MessageTask
run_tasks messages states = map (λ t. shuffle messages states (prepare messages t))

-- `none` for the CHECK that fails.
pub shuffle_messages :
    ℕ → ℕ → (ℕ → ℕ) → Option (ℕ → ℕ) → ℕ → List MessageTask → Option (List MessageTask)
unfolding last_end clamp_sockets run_tasks
shuffle_messages socket_num threads messages states active ts =
    if ltb (last_end ts) active
    then none
    else some (run_tasks messages states (clamp_sockets socket_num threads active ts))

pub update_messages : (ℕ → ℕ) → List MessageTask → List MessageTask × (ℕ → ℕ)
update_messages target [] = ([], target)
update_messages target (t ∷ ts) =
    let (t', target') = update target t in
    let (ts', target'') = update_messages target' ts in (t' ∷ ts', target'')

-- What is left after a round: the tasks, the array that `update` wrote, and the world.
pub record Rounded {ℓ} (S : Type ℓ) : Type ℓ where
  pub tasks : List MessageTask
  pub next : ℕ → ℕ
  pub world : S

-- What follows `shuffle`: the walk of every partition, and `update`.
pub finish_round {ℓ} :
    {S : Type ℓ} → (ℕ → ℕ → S → ℕ × S) → List ℕ → (ℕ → ℕ) → List MessageTask → S → Rounded S
finish_round sample order target ts world =
    let (ts', world') = walk sample order ts world in
    let (ts'', next) = update_messages target ts' in
    record { tasks = ts''; next = next; world = world' }

-- One round of FMobSolver::walk: msgm.shuffle, wm.walk, msgm.update.
pub walk_round {ℓ} :
    {S : Type ℓ}
    → ℕ
    → ℕ
    → (ℕ → ℕ → S → ℕ × S)
    → List ℕ
    → (ℕ → ℕ)
    → Option (ℕ → ℕ)
    → (ℕ → ℕ)
    → ℕ
    → List MessageTask
    → S
    → Option (Rounded S)
unfolding finish_round
walk_round socket_num threads sample order messages states target active ts world =
    elim (shuffle_messages socket_num threads messages states active ts) [
      | none ↦ none
      | some ts' ↦ some (finish_round sample order target ts' world)
    ]

-- The ranges of the tasks follow one another from `lo` to `hi`.
abbrev pub Chain : ℕ → List MessageTask → ℕ → Type 0
Chain lo [] hi = lo ≡ hi
Chain lo (t ∷ ts) hi =
    (t.origin_message_begin ≡ lo) × (lo ≤ t.origin_message_end) × Chain t.origin_message_end ts hi

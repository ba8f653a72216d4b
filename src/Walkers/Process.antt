-- ===== src/Walkers/Process.antt =====
-- src/core/walker.hpp, WalkerManager::process_walkers: the threads take chunks of walkers off
-- shared counters, first their own, then those of the others. A turn of a thread is at most one
-- operation on shared data: a read, an atomic addition, a call or a store. The state thread_states[s][t] is `states` (s * each + t), that of
-- thread number s * each + t, for `each` threads on a socket.
pub mod Order
pub mod Kept
pub mod Once
pub mod Left
pub mod Turns
pub mod Cost
pub mod Ends
pub mod Whole
use flashmob.Prelude.{
  ℕ, zero, suc, ◌+◌, ◌-◌, ◌*◌, ◌/◌, ◌%◌, min, Bool, true, false, ltb, leb, ◌==◌, if◌then◌else◌,
  write, List, [], ◌∷◌, Option, none, some,
}
use flashmob.Prelude.Words.{add32}
use flashmob.Walkers.{Range}

-- enum TaskStatus
pub data TaskStatus : Type 0 where
  working : TaskStatus
  complete : TaskStatus

pub record ThreadState : Type 0 where
  pub curr : ℕ
  pub end : ℕ
  pub status : TaskStatus

abbrev pub chunk_size : ℕ
chunk_size = 64

-- Where a thread stands in its loops: before the test of the status, before the atomic addition, in
-- the loop over a chunk, from `w_i` on, and behind the while loop.
pub data Phase : Type 0 where
  asking : Phase
  claiming : Phase
  processing : ℕ → ℕ → Phase
  leaving : Phase

-- A call of process(walker) by a thread.
pub record Call : Type 0 where
  pub thread : ℕ
  pub walker : ℕ

-- `round` t is how many of the states thread t has left; `calls` are the calls so far, the last
-- one first.
pub record Team : Type 0 where
  pub states : ℕ → ThreadState
  pub round : ℕ → ℕ
  pub phase : ℕ → Phase
  pub calls : List Call

-- The state that thread `thread_id` comes to in round k: s_i is k / each, t_i is k % each.
unfoldable pub target : ℕ → ℕ → ℕ → ℕ → ℕ
target socket_num each thread_id k =
    (thread_id / each + k / each) % socket_num * each + (thread_id % each + k % each) % each

-- The first loop: every thread sets its own state, up to the barrier.
pub start_states : (ℕ → Range) → ℕ → ℕ → ThreadState
start_states ranges active_walker_num t = record {
  curr = (ranges t).first;
  end = min (ranges t).last active_walker_num;
  status = working;
}

pub start_team : (ℕ → Range) → ℕ → Team
start_team ranges active_walker_num = record {
  states = start_states ranges active_walker_num;
  round = λ t. 0;
  phase = λ t. asking;
  calls = [];
}

pub is_working : TaskStatus → Bool
is_working working = true
is_working complete = false

-- status == TWORKING
pub ask : ℕ → ℕ → Team → Team
ask t j s = record s {
  phase = write s.phase t (if is_working (s.states j).status then claiming else leaving);
}

-- __sync_fetch_and_add(&curr, chunk_size) < end, and the bounds of the chunk.
pub claim : ℕ → ℕ → Team → Team
claim t j s =
    let work_begin = (s.states j).curr in
    let end = (s.states j).end in
    record s {
      states = write s.states j (record (s.states j) { curr = add32 work_begin chunk_size });
      phase = write s.phase t (
          if ltb work_begin end
          then processing work_begin (min (add32 work_begin chunk_size) end)
          else leaving);
    }

-- A round of the loop over the chunk, or its end.
pub process_one : ℕ → ℕ → ℕ → Team → Team
process_one t w_i work_end s =
    if ltb w_i work_end
    then record s {
      phase = write s.phase t (processing (w_i + 1) work_end);
      calls = record { thread = t; walker = w_i } ∷ s.calls;
    }
    else record s { phase = write s.phase t asking }

-- Behind the while loop: in the first round the state is the thread's own.
pub leave : ℕ → ℕ → Team → Team
leave t j s = record s {
  states =
      if s.round t == 0
      then write s.states j (record (s.states j) { status = complete })
      else s.states;
  round = write s.round t (s.round t + 1);
  phase = write s.phase t asking;
}

pub act : ℕ → ℕ → Phase → Team → Team
unfolding ask claim process_one leave
act t j asking s = ask t j s
act t j claiming s = claim t j s
act t j (processing w_i work_end) s = process_one t w_i work_end s
act t j leaving s = leave t j s

-- The next operation of thread t.
pub turn : ℕ → ℕ → ℕ → Team → Team
unfolding act
turn socket_num each t s =
    if ltb (s.round t) (socket_num * each)
    then act t (target socket_num each t (s.round t)) (s.phase t) s
    else s

-- The operations in their order: the list says whose each is.
pub process_walkers : ℕ → ℕ → List ℕ → Team → Team
process_walkers socket_num each [] s = s
process_walkers socket_num each (t ∷ turns) s =
    process_walkers socket_num each turns (turn socket_num each t s)

-- Every thread is behind its loops.
pub all_ended : ℕ → ℕ → (ℕ → ℕ) → Bool
all_ended num zero round = true
all_ended num (suc n) round = if leb num (round n) then all_ended num n round else false

-- process_walkers as a whole: its calls, the last one first; `none` where a thread is still in it
-- when the operations have run.
pub process_calls : ℕ → ℕ → (ℕ → Range) → ℕ → List ℕ → Option (List Call)
unfolding start_team all_ended process_walkers
process_calls socket_num each ranges active_walker_num turns =
    let s = process_walkers socket_num each turns (start_team ranges active_walker_num) in
    if all_ended (socket_num * each) (socket_num * each) s.round then some s.calls else none

-- What the calls do, from the first one on.
unfoldable pub for_calls {ℓ} : {S : Type ℓ} → (ℕ → ℕ → S → S) → List Call → S → S
for_calls process [] s = s
for_calls process (c ∷ earlier) s = process c.thread c.walker (for_calls process earlier s)

-- How often a walker is processed.
unfoldable pub processed : ℕ → List Call → ℕ
processed v [] = 0
processed v (c ∷ calls) = if c.walker == v then suc (processed v calls) else processed v calls

-- ===== src/Solver.antt =====
-- src/core/solver.hpp, class FMobSolver and the loop of `walk`: the epochs of a static walk. An
-- epoch draws the start
-- vertices, moves all its walkers in lock step, and writes one path for each walker to `output`.
-- `draw t w` is `rands[t]->gen(v_num)` in the world `w`. Drawing and the output go through
-- process_walkers, with the turns of the threads in `Setting`. A CHECK that fails is `none`.
pub mod Output
pub mod Paths
pub mod Epochs
use flashmob.Prelude.{
  ℕ, zero, suc, ◌+◌, ◌-◌, ◌*◌, ◌%◌, ◌≡◌, min, write, Bool, true, false, Option, none, some, List,
  [], ◌∷◌, ltb, ◌==◌, ◌>>=◌, if◌then◌else◌,
}
use flashmob.Prelude.Loops.{for_range}
use flashmob.Prelude.Words.{u32, u64, add64}
use flashmob.Message.{MessageTask}
use flashmob.Manager.{walk_round, Rounded}
use flashmob.Walkers.{Range}
use flashmob.Walkers.Process.{Call, process_calls, for_calls}

pub record FMobSolver {ℓ} (S : Type ℓ) : Type ℓ where
  pub rest_walker_num : ℕ
  pub terminated_walker_num : ℕ
  pub max_epoch_walker_num : ℕ
  pub walk_len : ℕ
  pub walks : ℕ → ℕ → ℕ
  pub tasks : List MessageTask
  pub walker_start_vertices : ℕ → ℕ
  -- walker_start_vertices != nullptr
  pub has_start_vertices : Bool
  pub walker_start_vertices_num : ℕ
  pub world : S

-- What is fixed while the solver runs: the threads and the ranges of walkers that WalkerManager::init
-- gives to them and to the sockets, the sampling, the drawing of vertices, the order in which the
-- partitions come in each step, and the turns of the threads in the two calls of process_walkers of
-- the epoch that begins with so many walkers left. `mmap` says for a size whether the system call
-- returns a pointer other than NULL, `munmap` whether it returns 0.
pub record Setting {ℓ} (S : Type ℓ) : Type ℓ where
  pub socket_num : ℕ
  pub socket_thread_num : ℕ
  pub sample : ℕ → ℕ → S → ℕ × S
  pub draw : ℕ → S → ℕ × S
  pub order : ℕ → List ℕ
  pub ranges : ℕ → Range
  pub socket_ranges : ℕ → Range
  pub draw_turns : ℕ → List ℕ
  pub write_turns : ℕ → List ℕ
  pub mmap : ℕ → Bool
  pub munmap : ℕ → Bool

pub record Drawn {ℓ} (S : Type ℓ) : Type ℓ where
  pub vertices : ℕ → ℕ
  pub world : S

-- PageSize
abbrev pub page_size : ℕ
page_size = 4096

-- The paths are written at output[w_i * walk_len + step_i].
pub write_path : (ℕ → ℕ → ℕ) → ℕ → ℕ → (ℕ → ℕ) → ℕ → ℕ
unfolding for_range
write_path walks walk_len w_i =
    for_range 0 walk_len
      (λ step_i output. write output (add64 (u64 (w_i * walk_len)) step_i) (walks step_i w_i))

-- By the calls of process_walkers.
pub write_paths : (ℕ → ℕ → ℕ) → ℕ → List Call → (ℕ → ℕ) → ℕ → ℕ
unfolding write_path
write_paths walks walk_len = for_calls (λ thread w_i. write_path walks walk_len w_i)

module _ {ℓ} {S : Type ℓ} (c : Setting S) where
  -- The CHECK of alloc_walker_array on each socket: its part begins at a page.
  pub is_aligned : ℕ → Bool
  is_aligned zero = true
  is_aligned (suc s_i) =
      let rest = is_aligned s_i in
      let r = c.socket_ranges s_i in
      if ltb r.first r.last
      then if u64 (4 * r.first) % page_size == 0 then rest else false
      else rest

  -- WalkerManager::alloc_walker_array<vertex_id_t>()
  pub alloc_walker_array : ℕ → Option (ℕ → ℕ)
  unfolding is_aligned
  alloc_walker_array max_epoch_walker_num =
      if c.mmap (u64 (4 * max_epoch_walker_num))
      then if is_aligned c.socket_num then some (λ w_i. 0) else none
      else none

  -- WalkerManager::dealloc_walker_array, of an array that is there.
  pub dealloc_walker_array : ℕ → Bool
  dealloc_walker_array max_epoch_walker_num = c.munmap (u64 (max_epoch_walker_num * 4))

  -- The array of start vertices, again when it was for fewer walkers.
  pub renew_start_vertices : ℕ → FMobSolver S → Option (FMobSolver S)
  unfolding alloc_walker_array dealloc_walker_array
  renew_start_vertices epoch_walker_num s =
      if ltb s.walker_start_vertices_num epoch_walker_num
      then if s.has_start_vertices
        then if dealloc_walker_array s.max_epoch_walker_num
          then (alloc_walker_array s.max_epoch_walker_num >>= λ a.
              some (record s { walker_start_vertices = a; has_start_vertices = true }))
          else none
        else (alloc_walker_array s.max_epoch_walker_num >>= λ a.
            some (record s { walker_start_vertices = a; has_start_vertices = true }))
      else some s

  pub draw_one : ℕ → ℕ → Drawn S → Drawn S
  draw_one thread w_i s =
      let (v, world) = c.draw thread s.world in
      record { vertices = write s.vertices w_i v; world = world }

  pub draw_calls : List Call → Drawn S → Drawn S
  unfolding draw_one
  draw_calls = for_calls draw_one

  -- process_walkers on this solver's threads.
  pub calls_of : ℕ → List ℕ → Option (List Call)
  calls_of active_walker_num turns =
      process_calls c.socket_num c.socket_thread_num c.ranges active_walker_num turns

  drawn_into : ℕ → List Call → FMobSolver S → FMobSolver S
  unfolding draw_calls
  drawn_into epoch_walker_num calls s =
      let d = draw_calls calls (record { vertices = s.walker_start_vertices; world = s.world }) in
      record s {
        walker_start_vertices = d.vertices;
        walker_start_vertices_num = epoch_walker_num;
        world = d.world;
      }

  pub get_walker_start_vertices : ℕ → FMobSolver S → Option (FMobSolver S)
  unfolding renew_start_vertices calls_of drawn_into
  get_walker_start_vertices epoch_walker_num s = do
    renewed ← renew_start_vertices epoch_walker_num s
    calls ← calls_of epoch_walker_num (c.draw_turns s.rest_walker_num)
    some (drawn_into epoch_walker_num calls renewed)

  -- current_vertices[w_i] = start_vertices[w_i]
  pub copy_starts : (ℕ → ℕ) → ℕ → (ℕ → ℕ) → ℕ → ℕ
  unfolding for_range
  copy_starts start walker_num =
      for_range 0 walker_num (λ w_i current. write current w_i (start w_i))

  pub after_step : ℕ → FMobSolver S → Rounded S → FMobSolver S
  after_step l_i s r = record s {
    walks = write s.walks l_i r.next;
    tasks = r.tasks;
    world = r.world;
  }

  -- Step l_i: shuffle, walk and update, from walks[l_i - 1] to walks[l_i].
  pub walk_step : ℕ → ℕ → FMobSolver S → Option (FMobSolver S)
  walk_step walker_num l_i s =
      elim (walk_round c.socket_num c.socket_thread_num c.sample (c.order l_i) (s.walks (l_i - 1))
        none (s.walks l_i) walker_num s.tasks s.world) [
          | none ↦ none
          | some r ↦ some (after_step l_i s r)
        ]

  -- for (l_i = 1; l_i < walk_len; l_i++), for `n` rounds
  pub walk_steps : ℕ → ℕ → FMobSolver S → Option (FMobSolver S)
  walk_steps walker_num zero s = some s
  walk_steps walker_num (suc n) s = do
    s' ← walk_steps walker_num n s
    walk_step walker_num (suc n) s'

  -- The array `output` and `epoch_walker_num`.
  pub record Epoch : Type 0 where
    pub epoch_walker_num : ℕ
    pub output : ℕ → ℕ

  copied_to : ℕ → FMobSolver S → FMobSolver S
  unfolding copy_starts
  copied_to walker_num s = record s {
    walks = write s.walks 0 (copy_starts s.walker_start_vertices walker_num (s.walks 0));
  }

  pub start_walk : ℕ → FMobSolver S → Option (FMobSolver S)
  unfolding get_walker_start_vertices copied_to
  start_walk walker_num s =
      get_walker_start_vertices walker_num s >>= λ s'. some (copied_to walker_num s')

  -- The output, CHECK(rest_walker_num >= epoch_walker_num), and the counters.
  pub finish_walk : ℕ → (ℕ → ℕ) → FMobSolver S → Option (FMobSolver S × Epoch)
  unfolding write_paths calls_of
  finish_walk walker_num output s = do
    calls ← calls_of walker_num (c.write_turns s.rest_walker_num)
    if ltb s.rest_walker_num walker_num
        then none
        else some (
          record s {
            terminated_walker_num = add64 s.terminated_walker_num walker_num;
            rest_walker_num = s.rest_walker_num - walker_num;
          },
          record {
            epoch_walker_num = walker_num;
            output = write_paths s.walks s.walk_len calls output;
          },
        )

  -- The CHECK of init_walks, whose arrays are there.
  pub init_walks : ℕ → FMobSolver S → Option (FMobSolver S)
  init_walks num_walker s = if ltb s.max_epoch_walker_num num_walker then none else some s

  -- FMobSolver::walk
  pub walk_epoch : (ℕ → ℕ) → FMobSolver S → Option (FMobSolver S × Epoch)
  unfolding start_walk finish_walk init_walks
  walk_epoch output s =
      let walker_num = u32 (min s.max_epoch_walker_num s.rest_walker_num) in
      do
        checked ← init_walks walker_num s
        started ← start_walk walker_num checked
        walked ← walk_steps walker_num (s.walk_len - 1) started
        finish_walk walker_num output walked

  -- while (solver->has_next_walk()) …, with the epochs in their order. `none` when the fuel runs
  -- out or a CHECK fails.
  pub walk_epochs : ℕ → (ℕ → ℕ) → FMobSolver S → Option (List Epoch × FMobSolver S)
  walk_epochs zero output s = if s.rest_walker_num == 0 then some ([], s) else none
  walk_epochs (suc fuel) output s = if s.rest_walker_num == 0 then some ([], s) else do
    (s', e) ← walk_epoch output s
    (es, s'') ← walk_epochs fuel e.output s'
    some (e ∷ es, s'')

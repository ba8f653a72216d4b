-- ===== src/Examples/Team.antt =====
-- Four walkers on the ring, in two ranges, and the solver that walks them.
use flashmob.Prelude.{
  ℕ, zero, suc, ◌+◌, ◌*◌, ◌≤◌, ◌/◌, ◌%◌, ◌^◌, ◌<◌, ◌≡◌, refl, arith, List, [], ◌∷◌, All, some, true,
  false,
}
use native.Mathlib.Nat.{mod-lt}
use flashmob.Graph.{partition_on}
use flashmob.Message.{MessageTask, task_partition}
use flashmob.Message.Shuffled.{IsFit}
use flashmob.Walk.Blocks.{IsSampler}
use flashmob.Walk.Partitions.{IsOrder, occurs}
use flashmob.Manager.Kept.{IsTask, IsTeam}
use flashmob.Sampler.{IsNeighbor}
use flashmob.Sampler.Init.{init_buffer_lem, init_range}
use flashmob.Sampler.Dispatch.{World, IsSound, LiesIn, sample_partition, sample_partition-IsSampler}
use flashmob.Solver.{FMobSolver, Setting}
use flashmob.Solver.Paths.{IsSetting}
use flashmob.Walkers.{Range}
use flashmob.Walkers.Process.{Team, Call, start_team, process_walkers, process_calls, processed}
use flashmob.Walkers.Process.Ends.{enough_turns}
use flashmob.Walkers.Process.Whole.{IsRanged, IsFair, process_calls-once}
use flashmob.Prelude.Loops.{sum_below}
use flashmob.Walkers.Process.Kept.{IsSplit}
use flashmob.Walkers.Process.Turns.{range_begins, range_ends, process_walkers-once}
use flashmob.Examples.Data.{
  table, ring, counting, counting-IsGen, blank, ring-Fits, ring-IsUniform, world, first, last,
}

abbrev pub messages : ℕ → ℕ
messages zero = 3
messages (suc zero) = 0
messages (suc (suc zero)) = 2
messages (suc (suc (suc i))) = 1

abbrev pub ring_task : ℕ → ℕ → MessageTask
ring_task lo hi = record {
  graph = table;
  socket = 0;
  partition_num = 2;
  origin_message_begin = lo;
  origin_message_end = hi;
  shuffled_message_begin = blank;
  shuffled_message_end = blank;
  shuffled_messages = blank;
  shuffled_states = blank;
  partition_ids = blank;
}

abbrev pub IsVertex : ℕ → Type 0
IsVertex v = v < 4

pub task_lies :
    (v : ℕ)
    → IsVertex v
    → LiesIn counting-IsGen ring first last (task_partition (ring_task 0 4) v) v
unfolding partition_on
task_lies zero h = record { from = omega arith; below = omega arith; degree_pos = omega arith }
task_lies (suc zero) h = record {
  from = omega arith;
  below = omega arith;
  degree_pos = omega arith;
}
task_lies (suc (suc zero)) h = record {
  from = omega arith;
  below = omega arith;
  degree_pos = omega arith;
}
task_lies (suc (suc (suc zero))) h = record {
  from = omega arith;
  below = omega arith;
  degree_pos = omega arith;
}
task_lies (suc (suc (suc (suc v)))) h = absurd (omega arith)

pub partition_lt : (v : ℕ) → IsVertex v → task_partition (ring_task 0 4) v < 2
unfolding partition_on
partition_lt zero h = omega arith
partition_lt (suc zero) h = omega arith
partition_lt (suc (suc zero)) h = omega arith
partition_lt (suc (suc (suc zero))) h = omega arith
partition_lt (suc (suc (suc (suc v)))) h = absurd (omega arith)

pub messages-IsVertex : (i : ℕ) → IsVertex (messages i)
messages-IsVertex zero = omega arith
messages-IsVertex (suc zero) = omega arith
messages-IsVertex (suc (suc zero)) = omega arith
messages-IsVertex (suc (suc (suc i))) = omega arith

pub task-IsFit : IsFit (ring_task 0 4) messages
task-IsFit = record {
  fits = λ j lt. partition_lt _ (messages-IsVertex (0 + j));
  small = omega arith;
}

abbrev pub Lies : ℕ → ℕ → Type 0
Lies = LiesIn counting-IsGen ring first last

ring_task-IsTask : (lo hi : ℕ) → hi < 2 ^ 32 → IsTask IsVertex Lies 2 (ring_task lo hi)
ring_task-IsTask lo hi lt = record { num = refl; fits = partition_lt; lies = task_lies; small = lt }

abbrev pub team : List MessageTask
team = ring_task 0 2 ∷ ring_task 2 4 ∷ []

pub team-IsTeam : IsTeam IsVertex Lies 2 1 2 4 team
team-IsTeam = record {
  chain = (refl, omega arith, (refl, omega arith, refl));
  tasks = (ring_task-IsTask 0 2 (omega arith), (ring_task-IsTask 2 4 (omega arith), tt));
  number = refl;
}

abbrev pub order : List ℕ
order = 1 ∷ 0 ∷ []

pub order-IsOrder : IsOrder 2 order
unfolding occurs
order-IsOrder = record {
  below = (omega arith, (omega arith, tt));
  most = λ p. ground arith;
  once = λ p lt. ground arith;
}

pub world-IsSound : IsSound counting-IsGen ring first last world
world-IsSound zero =
    let (lo, hi) = init_range ring 0 2 blank ring-Fits in
    (init_buffer_lem ring 0 2 blank ring-Fits, lo, hi)
world-IsSound (suc zero) = (ring-IsUniform, refl)
world-IsSound (suc (suc p)) = tt

abbrev pub ring_sample : ℕ → ℕ → World ℕ → ℕ × World ℕ
ring_sample = sample_partition counting ring

pub sample-IsSampler :
    IsSampler ring_sample (IsSound counting-IsGen ring first last) Lies (IsNeighbor ring)
sample-IsSampler = sample_partition-IsSampler counting-IsGen ring first last

-- Two threads on one socket, with three walkers each, of which four are active.
abbrev pub ranges : ℕ → Range
ranges t = record { first = 3 * t; last = 3 * t + 3 }

-- The threads take turns, n times each.
abbrev rounds : ℕ → List ℕ
rounds zero = []
rounds (suc n) = 0 ∷ 1 ∷ rounds n

abbrev pub fair : List ℕ
fair = rounds 426

rounds-below : (n : ℕ) → All (λ t. t < 1 * 2) (rounds n)
rounds-below zero = tt
rounds-below (suc n) = (omega arith, (omega arith, rounds-below n))

rounds-occurs : (t n : ℕ) → t < 1 * 2 → occurs t (rounds n) ≡ n
unfolding occurs
rounds-occurs t zero lt = refl
rounds-occurs t (suc n) lt = ground (arith, rounds-occurs t n lt)

pub fair-IsFair : IsFair 1 2 ranges fair
unfolding enough_turns sum_below
fair-IsFair = record {
  threads = rounds-below 426;
  enough = λ t lt. omega (arith, rounds-occurs t 426 lt);
}

pub ranges-IsRanged : IsRanged 1 2 4 ranges
ranges-IsRanged = record {
  apart = λ j k lt k_lt. omega arith;
  room = λ j lt. omega arith;
  covers = λ v lt. (v / 3, omega arith, omega arith, omega arith);
}

abbrev pub setting : Setting (World ℕ)
setting = record {
  socket_num = 1;
  socket_thread_num = 2;
  sample = ring_sample;
  draw = λ thread w.
      let (v, rng) = counting 4 w.rng in (v, record { samplers = w.samplers; rng = rng });
  order = λ l_i. order;
  ranges = ranges;
  socket_ranges = λ s_i. record { first = 0; last = 6 };
  draw_turns = λ rest. fair;
  write_turns = λ rest. fair;
  mmap = λ size. true;
  munmap = λ size. true;
}

neighbor_lt : (w e : ℕ) → w ≡ (e / 2 + e % 2 + 1) % 4 → w < 4
neighbor_lt w e h = omega (arith, h)

pub setting-IsSetting :
    IsSetting setting (IsSound counting-IsGen ring first last) Lies (IsNeighbor ring) IsVertex 2
setting-IsSetting = record {
  is_sampler = sample-IsSampler;
  closed = λ v w h n. neighbor_lt w _ n.target;
  draws = λ thread w sound. mod-lt _ (omega arith);
  draw_keeps = λ thread w sound. sound;
  orders = λ l_i. order-IsOrder;
  aligned = λ s_i lt some_walker. refl;
  mmaps = λ size. refl;
  munmaps = λ size. refl;
}

-- Seven walkers of three steps each, four in the first epoch and three in the second.
abbrev pub solver : FMobSolver (World ℕ)
solver = record {
  rest_walker_num = 7;
  terminated_walker_num = 0;
  max_epoch_walker_num = 4;
  walk_len = 3;
  walks = λ l i. 0;
  walker_start_vertices = blank;
  has_start_vertices = false;
  walker_start_vertices_num = 0;
  tasks = team;
  world = world;
}

-- Thread 0 takes walkers 0 to 2, and thread 1 walker 3.
abbrev turns : List ℕ
turns = 0 ∷ 1 ∷ 0 ∷ 0 ∷ 1 ∷ []

ranges-IsSplit : IsSplit 1 2 (range_begins ranges) (range_ends ranges 4)
ranges-IsSplit = record { apart = λ j k lt k_lt. omega arith; room = λ j lt. omega arith }

abbrev after : Team
after = process_walkers 1 2 turns (start_team ranges 4)

process_walkers_example :
    ((v : ℕ) → processed v after.calls ≤ 1)
    × ((v : ℕ) → 0 < processed v after.calls → v < 4)
    × (((t : ℕ) → t < 1 * 2 → 1 * 2 ≤ after.round t)
        → (j v : ℕ) → j < 1 * 2
        → (ranges j).first ≤ v
        → v < (ranges j).last
        → v < 4
        → processed v after.calls ≡ 1)
process_walkers_example =
    process_walkers-once 1 2 4 ranges turns ranges-IsSplit
      (omega arith, (omega arith, (omega arith, (omega arith, (omega arith, tt)))))

process_calls_example :
    (calls : List Call) × (process_calls 1 2 ranges 4 fair ≡ some calls)
    × ((v : ℕ) → v < 4 → processed v calls ≡ 1)
    × ((v : ℕ) → 0 < processed v calls → v < 4)
process_calls_example =
    process_calls-once 1 2 4 4 ranges ranges-IsRanged fair (omega arith) fair-IsFair

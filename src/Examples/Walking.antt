-- ===== src/Examples/Walking.antt =====
-- The round and the epochs of the four walkers, and the ranges of the tasks.
use flashmob.Prelude.{ℕ, ◌+◌, ◌-◌, ◌*◌, ◌<◌, ◌≡◌, refl, arith, none, some, min, List, [], ◌∷◌, All}
use flashmob.Graph.{partition_on}
use flashmob.Manager.{walk_round, Rounded, Chain, clamp_sockets}
use flashmob.Manager.Kept.{IsTeam}
use flashmob.Manager.Ranges.{clamp_sockets-Chain}
use flashmob.Manager.Round.{round-Step}
use flashmob.Sampler.{IsNeighbor}
use flashmob.Sampler.Dispatch.{World, IsSound}
use flashmob.Walkers.{init_tasks}
use flashmob.Walkers.Process.{Call, processed}
use flashmob.Walkers.Ranges.{init_tasks-Chain}
use flashmob.Walkers.Team.{IsPartitioned, init_tasks-IsTeam}
use flashmob.Solver.Output.{write_paths-entry}
use flashmob.Solver.{write_paths, FMobSolver, Epoch, walk_epoch, walk_epochs}
use flashmob.Solver.Epochs.{
  HoldsWalks, Going, Within, walked_num, walk_epoch-HoldsWalks, walk_epochs-HoldsWalks,
}
use flashmob.Examples.Data.{table, ring, counting-IsGen, blank, world, first, last}
use flashmob.Examples.Team.{
  messages, messages-IsVertex, partition_lt, task_lies, IsVertex, Lies, team, team-IsTeam, order,
  order-IsOrder, world-IsSound, ranges-IsRanged, fair-IsFair, ring_sample, sample-IsSampler,
  setting, setting-IsSetting, solver,
}

round-Step_example :
    (r : Rounded (World ℕ)) × (walk_round 1 2 ring_sample order messages none blank 3 team world
      ≡ some r)
    × ((i : ℕ) → i < 3 → IsNeighbor ring (messages i) (r.next i))
    × IsSound counting-IsGen ring first last r.world
    × IsTeam IsVertex Lies 2 1 2 3 r.tasks
round-Step_example =
    round-Step sample-IsSampler IsVertex 2 messages none 1 2 3 4 order team blank world team-IsTeam
      (omega arith) (λ i lt. messages-IsVertex i) order-IsOrder world-IsSound

clamp_sockets_example : Chain (min 0 3) (clamp_sockets 1 2 3 team) (min 4 3)
clamp_sockets_example = clamp_sockets-Chain 1 2 3 0 4 team team-IsTeam.chain refl

init_tasks_example : Chain 0 (init_tasks table 2 10000 4 2) 10000
init_tasks_example = init_tasks-Chain table 2 10000 4 2 (omega arith) (omega arith)

solver-Going : Going setting setting-IsSetting 7 4 3 solver
solver-Going = record {
  sound = world-IsSound;
  hi = 4;
  team = team-IsTeam;
  enough = omega arith;
  total_lem = refl;
  max_lem = refl;
  len_lem = refl;
}

within : Within setting setting-IsSetting 7 4 3
within = record {
  total_small = omega arith;
  max_pos = omega arith;
  max_small = omega arith;
  len_pos = omega arith;
  output_small = omega arith;
  turns = record {
    ranged = ranges-IsRanged;
    draws = λ rest. fair-IsFair;
    writes = λ rest. fair-IsFair;
  };
}

walk_epoch_example :
    (s' : FMobSolver (World ℕ)) × (e : Epoch setting) × (walk_epoch setting blank solver
      ≡ some (s', e))
    × (e.epoch_walker_num ≡ min 4 7)
    × HoldsWalks setting setting-IsSetting 3 e
    × (s'.rest_walker_num ≡ 7 - e.epoch_walker_num)
    × Going setting setting-IsSetting 7 4 3 s'
walk_epoch_example =
    walk_epoch-HoldsWalks setting setting-IsSetting within blank solver solver-Going

walk_epochs_example :
    (es : List (Epoch setting)) × (s' : FMobSolver (World ℕ)) × (walk_epochs setting 7 blank solver
      ≡ some (es, s'))
    × (walked_num setting setting-IsSetting es ≡ 7)
    × All (HoldsWalks setting setting-IsSetting 3) es
    × (s'.terminated_walker_num ≡ 7)
walk_epochs_example =
    walk_epochs-HoldsWalks setting setting-IsSetting 7 4 3 within 7 blank solver (omega arith)
      solver-Going

table-IsPartitioned : IsPartitioned IsVertex Lies 2 table
unfolding partition_on
table-IsPartitioned = record { fits = λ socket. partition_lt; lies = λ socket. task_lies }

init_tasks-IsTeam_example : IsTeam IsVertex Lies 2 2 2 10000 (init_tasks table 2 10000 4 2)
init_tasks-IsTeam_example =
    init_tasks-IsTeam IsVertex Lies 2 table table-IsPartitioned 10000 4 2 (omega arith)
      (omega arith) (omega arith)

-- The paths 0, 10, 20 and 1, 11, 21, and so on.
abbrev paths : ℕ → ℕ → ℕ
paths step w = 10 * step + w

-- Walkers 1 and 2, by two threads.
abbrev calls : List Call
calls = record { thread = 0; walker = 2 } ∷ record { thread = 1; walker = 1 } ∷ []

calls-below : (v : ℕ) → 0 < processed v calls → v < 4
unfolding processed
calls-below v pos = ground (arith, pos)

walker_called : 0 < processed 2 calls
unfolding processed
walker_called = omega arith

write_paths-entry_example : write_paths paths 3 calls blank (2 * 3 + 1) ≡ paths 1 2
write_paths-entry_example =
    write_paths-entry paths 3 4 (omega arith) blank calls 2 1 calls-below walker_called
      (omega arith)

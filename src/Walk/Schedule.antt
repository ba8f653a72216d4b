-- ===== src/Walk/Schedule.antt =====
-- src/core/walk.hpp, WalkManager::walk: how the threads of a socket share its partitions. A thread
-- counts up `partittion_progress` to claim a partition, and then one of the two counters that say
-- which: half of the threads take from the front of socket_partitions, the other half from its end.
-- Each atomic operation of a thread is one action, and the threads interleave in any way.
pub mod Once
use flashmob.Prelude.{
  ℕ, suc, ◌+◌, ◌-◌, Bool, true, false, Option, none, some, List, [], ◌∷◌, ◌++◌, ltb, if◌then◌else◌,
  ◌>>=◌,
}

-- `front` and `back` count the threads that have claimed a partition and have not taken it yet;
-- `taken` holds the indices into socket_partitions in the order in which they are taken.
pub record Progress : Type 0 where
  pub partittion_progress : ℕ
  pub hdv_partition_progress : ℕ
  pub ldv_partition_progress : ℕ
  pub front : ℕ
  pub back : ℕ
  pub taken : List ℕ

abbrev pub start : Progress
start = record {
  partittion_progress = 0;
  hdv_partition_progress = 0;
  ldv_partition_progress = 0;
  front = 0;
  back = 0;
  taken = [];
}

-- An atomic operation of a thread, which is an hdv_thread or not.
pub data Action : Type 0 where
  claim : Bool → Action
  pick : Bool → Action

-- __sync_fetch_and_add(&partittion_progress[socket], 1) < socket_partition_nums[socket]
pub claim_one : ℕ → Bool → Progress → Progress
claim_one num hdv s =
    let more = ltb s.partittion_progress num in
    record s {
      partittion_progress = suc s.partittion_progress;
      front = if more then (if hdv then suc s.front else s.front) else s.front;
      back = if more then (if hdv then s.back else suc s.back) else s.back;
    }

-- p_i = socket_partitions[socket][fetch_and_add(&hdv_partition_progress[socket], 1)]
pub pick_front : Progress → Progress
pick_front s = record s {
  front = s.front - 1;
  hdv_partition_progress = suc s.hdv_partition_progress;
  taken = s.taken ++ (s.hdv_partition_progress ∷ []);
}

-- p_i = socket_partitions[socket][num - fetch_and_add(&ldv_partition_progress[socket], 1) - 1]
pub pick_back : ℕ → Progress → Progress
pick_back num s = record s {
  back = s.back - 1;
  ldv_partition_progress = suc s.ldv_partition_progress;
  taken = s.taken ++ ((num - s.ldv_partition_progress - 1) ∷ []);
}

-- Only a thread that has claimed a partition takes one.
pub pick_one : ℕ → Bool → Progress → Option Progress
pick_one num true s = if ltb 0 s.front then some (pick_front s) else none
pick_one num false s = if ltb 0 s.back then some (pick_back num s) else none

pub act : ℕ → Action → Progress → Option Progress
unfolding claim_one pick_one
act num (claim hdv) s = some (claim_one num hdv s)
act num (pick hdv) s = pick_one num hdv s

-- A run of actions; `none` for one that no threads can do.
unfoldable pub run : ℕ → List Action → Progress → Option Progress
unfolding act pick_front pick_back
run num [] s = some s
run num (a ∷ actions) s = do s' ← act num a s; run num actions s'

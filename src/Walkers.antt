-- ===== src/Walkers.antt =====
-- src/core/walker.hpp, WalkerManager::init: the ranges of walkers of the sockets and of the threads
-- of each socket; and MessageManager::init (src/core/message.hpp), which gives each thread a task
-- over its range. All numbers stay within max_epoch_walker_num, a 32-bit number, so that no sum
-- wraps (`Ranges`).
pub mod Ranges
pub mod Team
pub mod Process
use flashmob.Prelude.{ℕ, zero, suc, ◌+◌, ◌-◌, ◌*◌, ◌/◌, ◌≤◌, ◌≡◌, min, List, [], ◌∷◌, ◌++◌, map}
use flashmob.Graph.{GroupTable}
use flashmob.Message.{MessageTask}

pub record Range : Type 0 where
  pub first : ℕ
  pub last : ℕ

-- The loop over the sockets, and that over the threads of a socket: `count` ranges are left and
-- `remain` walkers; the last range takes all of them, the others `hint` of them.
pub split : ℕ → ℕ → ℕ → ℕ → List Range
split zero hint begin remain = []
split (suc zero) hint begin remain = record { first = begin; last = begin + remain } ∷ []
split (suc (suc count)) hint begin remain =
    record { first = begin; last = begin + min hint remain }
    ∷ split (suc count) hint (begin + min hint remain) (remain - min hint remain)

-- PageSize / min(sizeof(vertex_id_t), sizeof(partition_id_t))
abbrev pub page_walker_num : ℕ
page_walker_num = 4096 / 2

-- MemoryDataAlignment / min(sizeof(vertex_id_t), sizeof(partition_id_t))
abbrev pub chunk_walker_num : ℕ
chunk_walker_num = 64 / 2

pub socket_ranges : ℕ → ℕ → List Range
unfolding split
socket_ranges max_epoch_walker_num socket_num =
    split socket_num (max_epoch_walker_num / socket_num / page_walker_num * page_walker_num) 0
      max_epoch_walker_num

-- thread_walker_begin[s_i] and thread_walker_end[s_i]
pub thread_ranges : ℕ → ℕ → ℕ → Range → List Range
unfolding split
thread_ranges max_epoch_walker_num thread_num socket_num r =
    split (thread_num / socket_num)
      (max_epoch_walker_num / thread_num / chunk_walker_num * chunk_walker_num) r.first
      (r.last - r.first)

pub new_task : GroupTable → ℕ → ℕ → Range → MessageTask
new_task graph partition_num socket r = record {
  graph = graph;
  socket = socket;
  partition_num = partition_num;
  origin_message_begin = r.first;
  origin_message_end = r.last;
  shuffled_message_begin = λ _. 0;
  shuffled_message_end = λ _. 0;
  shuffled_messages = λ _. 0;
  shuffled_states = λ _. 0;
  partition_ids = λ _. 0;
}

-- The tasks of the sockets from `socket` on; the memory that they are given is zero.
pub socket_tasks : GroupTable → ℕ → ℕ → ℕ → ℕ → ℕ → List Range → List MessageTask
unfolding thread_ranges new_task
socket_tasks graph pn max_epoch_walker_num thread_num socket_num socket [] = []
socket_tasks graph pn max_epoch_walker_num thread_num socket_num socket (r ∷ rs) =
    map (new_task graph pn socket) (thread_ranges max_epoch_walker_num thread_num socket_num r)
    ++ socket_tasks graph pn max_epoch_walker_num thread_num socket_num (suc socket) rs

pub init_tasks : GroupTable → ℕ → ℕ → ℕ → ℕ → List MessageTask
unfolding socket_ranges socket_tasks
init_tasks graph pn max_epoch_walker_num thread_num socket_num =
    socket_tasks graph pn max_epoch_walker_num thread_num socket_num 0
      (socket_ranges max_epoch_walker_num socket_num)

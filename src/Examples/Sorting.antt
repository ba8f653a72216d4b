-- ===== src/Examples/Sorting.antt =====
-- One task that sorts the messages 3, 0, 2, 1.
use flashmob.Prelude.{ℕ, ◌+◌, ◌<◌, ◌≡◌, arith, some, none}
use flashmob.Prelude.Loops.{sum_below}
use flashmob.Graph.{partition_on}
use flashmob.Message.{MessageTask, prepare, shuffle, update}
use flashmob.Message.Counts.{count, slot}
use flashmob.Message.Shuffled.{
  dest, InBlock, shuffle-slot, shuffle-onto, shuffle-messages, shuffle-states, shuffle-begin,
  shuffle-end, update-target,
}
use flashmob.Examples.Data.{blank}
use flashmob.Examples.Team.{messages, ring_task, task-IsFit}

abbrev task : MessageTask
task = ring_task 0 4

abbrev age : ℕ → ℕ
age i = i + 10

shuffle-slot_example :
    InBlock task messages task-IsFit none (dest task messages 1) (slot (dest task messages) 4 1)
    × (slot (dest task messages) 4 1 < 4)
shuffle-slot_example = shuffle-slot task messages task-IsFit none 1 (omega arith)

shuffle-messages_example :
    (shuffle messages none (prepare messages task)).shuffled_messages
      (slot (dest task messages) 4 1)
    ≡ messages (0 + 1)
shuffle-messages_example = shuffle-messages task messages task-IsFit none 1 (omega arith)

shuffle-states_example :
    (shuffle messages (some age) (prepare messages task)).shuffled_states
      (slot (dest task messages) 4 2)
    ≡ age (0 + 2)
shuffle-states_example = shuffle-states task messages task-IsFit age 2 (omega arith)

update-target_example :
    (update blank
        (record (shuffle messages none (prepare messages task)) { shuffled_messages = age })).1
      (0 + 3)
    ≡ age (slot (dest task messages) 4 3)
update-target_example = update-target task messages task-IsFit none blank age 3 (omega arith)

-- Place 3 is in the block of partition 1, which holds two of the messages.
in_block : InBlock task messages task-IsFit none 1 3
unfolding sum_below count partition_on
in_block = omega (
  arith,
  shuffle-begin task messages task-IsFit none 1 (omega arith),
  shuffle-end task messages task-IsFit none 1 (omega arith),
)

shuffle-onto_example :
    (j : ℕ) × (j < 4) × (dest task messages j ≡ 1) × (slot (dest task messages) 4 j ≡ 3)
shuffle-onto_example = shuffle-onto task messages task-IsFit none 1 3 (omega arith) in_block

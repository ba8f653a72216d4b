-- ===== src/Message.antt =====
-- src/core/message.hpp, struct MessageTask: one thread's counting sort of its walkers by the
-- partition of the vertex they stand on, and the way back. Arrays are functions of the index;
-- the arrays of a task hold as many messages as its range. Counters are 32-bit words.
pub mod Counts
pub mod Loops
pub mod Shuffled
pub mod Kept
use flashmob.Prelude.{ℕ, ◌+◌, ◌-◌, write, Option, none, some}
use flashmob.Prelude.Loops.{for_range}
use flashmob.Prelude.Words.{u16, add32}
use flashmob.Graph.{GroupTable, partition_on}

pub record MessageTask : Type 0 where
  pub graph : GroupTable
  pub socket : ℕ
  pub partition_num : ℕ
  pub origin_message_begin : ℕ
  pub origin_message_end : ℕ
  pub shuffled_message_begin : ℕ → ℕ
  pub shuffled_message_end : ℕ → ℕ
  pub shuffled_messages : ℕ → ℕ
  pub shuffled_states : ℕ → ℕ
  pub partition_ids : ℕ → ℕ

-- The number of messages of the task.
abbrev pub message_num : MessageTask → ℕ
message_num t = t.origin_message_end - t.origin_message_begin

-- partition_id_t p_i = …: the partition in 16 bits.
abbrev pub task_partition : MessageTask → ℕ → ℕ
task_partition t msg = u16 (partition_on t.graph t.socket msg)

-- The loops of `prepare`, in their order.
pub clear_ends : ℕ → (ℕ → ℕ) → ℕ → ℕ
clear_ends partition_num = for_range 0 partition_num (λ p_i a. write a p_i 0)

pub record Counted : Type 0 where
  pub ids : ℕ → ℕ
  pub ends : ℕ → ℕ

pub count_one : (ℕ → ℕ) → (ℕ → ℕ) → ℕ → Counted → Counted
count_one partition origin m_i s = record {
  ids = write s.ids m_i (partition (origin m_i));
  ends = write s.ends (partition (origin m_i)) (add32 (s.ends (partition (origin m_i))) 1);
}

pub count_messages : (ℕ → ℕ) → (ℕ → ℕ) → ℕ → ℕ → Counted → Counted
unfolding count_one
count_messages partition origin lo n = for_range lo n (count_one partition origin)

pub record Offsets : Type 0 where
  pub begins : ℕ → ℕ
  pub counter : ℕ

pub offset_one : (ℕ → ℕ) → ℕ → Offsets → Offsets
offset_one ends p_i s = record {
  begins = write s.begins p_i s.counter;
  counter = add32 s.counter (ends p_i);
}

pub offsets : ℕ → (ℕ → ℕ) → (ℕ → ℕ) → Offsets
unfolding offset_one
offsets partition_num ends begins =
    for_range 0 partition_num (offset_one ends) (record { begins = begins; counter = 0 })

pub reset_ends : ℕ → (ℕ → ℕ) → (ℕ → ℕ) → ℕ → ℕ
reset_ends partition_num begins = for_range 0 partition_num (λ p_i a. write a p_i (begins p_i))

pub prepare : (ℕ → ℕ) → MessageTask → MessageTask
unfolding clear_ends count_messages offsets reset_ends for_range
prepare origin t =
    let counted =
      count_messages (task_partition t) origin t.origin_message_begin (message_num t) (record {
        ids = t.partition_ids;
        ends = clear_ends t.partition_num t.shuffled_message_end;
      }) in
    let placed = offsets t.partition_num counted.ends t.shuffled_message_begin in
    record t {
      partition_ids = counted.ids;
      shuffled_message_begin = placed.begins;
      shuffled_message_end = reset_ends t.partition_num placed.begins counted.ends;
    }

-- The loop of `shuffle`. `states` is `none` for a null `origin_states`.
pub record Placed : Type 0 where
  pub ends : ℕ → ℕ
  pub messages : ℕ → ℕ
  pub states : ℕ → ℕ

place_state : Option (ℕ → ℕ) → ℕ → ℕ → (ℕ → ℕ) → ℕ → ℕ
place_state none m_i shuffled_i states = states
place_state (some origin) m_i shuffled_i states = write states shuffled_i (origin m_i)

pub place_one : (ℕ → ℕ) → (ℕ → ℕ) → Option (ℕ → ℕ) → ℕ → Placed → Placed
unfolding place_state
place_one ids origin origin_states m_i s = record {
  ends = write s.ends (ids m_i) (add32 (s.ends (ids m_i)) 1);
  messages = write s.messages (s.ends (ids m_i)) (origin m_i);
  states = place_state origin_states m_i (s.ends (ids m_i)) s.states;
}

pub place_messages : (ℕ → ℕ) → (ℕ → ℕ) → Option (ℕ → ℕ) → ℕ → ℕ → Placed → Placed
unfolding place_one
place_messages ids origin origin_states lo n = for_range lo n (place_one ids origin origin_states)

pub shuffle : (ℕ → ℕ) → Option (ℕ → ℕ) → MessageTask → MessageTask
unfolding place_messages for_range
shuffle origin origin_states t =
    let placed =
      place_messages t.partition_ids origin origin_states t.origin_message_begin (message_num t)
        (record {
          ends = t.shuffled_message_end;
          messages = t.shuffled_messages;
          states = t.shuffled_states;
        }) in
    record t {
      shuffled_message_end = placed.ends;
      shuffled_messages = placed.messages;
      shuffled_states = placed.states;
    }

-- The loop of `update`, which takes the messages back in the order in which they were placed.
pub record Taken : Type 0 where
  pub begins : ℕ → ℕ
  pub target : ℕ → ℕ

pub take_one : (ℕ → ℕ) → (ℕ → ℕ) → ℕ → Taken → Taken
take_one ids messages m_i s = record {
  begins = write s.begins (ids m_i) (add32 (s.begins (ids m_i)) 1);
  target = write s.target m_i (messages (s.begins (ids m_i)));
}

pub take_messages : (ℕ → ℕ) → (ℕ → ℕ) → ℕ → ℕ → Taken → Taken
unfolding take_one
take_messages ids messages lo n = for_range lo n (take_one ids messages)

-- The task after `update`, and the array `target_messages`.
pub update : (ℕ → ℕ) → MessageTask → MessageTask × (ℕ → ℕ)
unfolding take_messages for_range
update target t =
    let taken =
      take_messages t.partition_ids t.shuffled_messages t.origin_message_begin (message_num t)
        (record { begins = t.shuffled_message_begin; target = target }) in
    (record t { shuffled_message_begin = taken.begins }, taken.target)

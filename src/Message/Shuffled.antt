-- ===== src/Message/Shuffled.antt =====
-- src/core/message.hpp: `prepare`, `shuffle` and `update` as wholes.
use flashmob.Prelude.{
  ℕ, zero, suc, ◌+◌, ◌^◌, ◌≤◌, ◌<◌, ◌≡◌, refl, sym, ap, ◌∙◌, arith, Option, some, write, ◌⊎◌,
}
use flashmob.Prelude.Loops.{sum_below, for_range}
use flashmob.Message.Counts.{
  count, offset, offset-le, slot, slot-lt, slot_block, offset-agree, slot-agree, slot-onto,
}
use flashmob.Message.Loops.{
  clear_ends_lem, reset_ends_lem, count_messages-ends, count_messages-ids, offsets_begins,
  place_messages-ends, place_messages-messages, place_messages-states, take_messages-target,
}
use flashmob.Message.{
  MessageTask, message_num, task_partition, prepare, shuffle, update, clear_ends, Counted,
  take_messages, count_messages, Taken,
}

-- The partition of the j-th message of a task.
abbrev pub dest : MessageTask → (ℕ → ℕ) → ℕ → ℕ
dest t origin j = task_partition t (origin (t.origin_message_begin + j))

-- What `prepare` asserts of the messages, and that the task's range is one of 32-bit indices.
pub record IsFit (t : MessageTask) (origin : ℕ → ℕ) : Type 0 where
  pub fits : (j : ℕ) → j < message_num t → dest t origin j < t.partition_num
  pub small : message_num t < 2 ^ 32

module _ (t : MessageTask) (origin : ℕ → ℕ) (fit : IsFit t origin) where
  abbrev n : ℕ
  n = message_num t

  cleared : Counted
  cleared = record {
    ids = t.partition_ids;
    ends = clear_ends t.partition_num t.shuffled_message_end;
  }

  counted : Counted
  unfolding cleared
  counted = count_messages (task_partition t) origin t.origin_message_begin n cleared

  counted-ends : (p : ℕ) → p < t.partition_num → counted.ends p ≡ count (dest t origin) p n
  unfolding counted
  counted-ends =
      count_messages-ends (task_partition t) origin t.origin_message_begin t.partition_num n cleared
        fit.small (λ q lt. clear_ends_lem t.partition_num t.shuffled_message_end q lt) fit.fits

  sum-counted :
      (m : ℕ) → m ≤ t.partition_num → sum_below counted.ends m ≡ offset (dest t origin) n m
  unfolding sum_below
  sum-counted zero le = refl
  sum-counted (suc m) le = omega (arith, sum-counted m (omega arith), counted-ends m (omega arith))

  counted-small : sum_below counted.ends t.partition_num < 2 ^ 32
  counted-small = omega (
    arith,
    sum-counted t.partition_num (omega arith),
    offset-le (dest t origin) n t.partition_num,
    fit.small,
  )

  -- `prepare` records the partition of each message.
  pub prepare-ids :
      (j : ℕ)
      → j < n
      → (prepare origin t).partition_ids (t.origin_message_begin + j) ≡ dest t origin j
  unfolding prepare
  prepare-ids j h =
      count_messages-ids (task_partition t) origin t.origin_message_begin t.partition_num n _ j h

  -- It lets the block of a partition begin after the messages for the partitions before it.
  pub prepare-begin :
      (p : ℕ)
      → p < t.partition_num
      → (prepare origin t).shuffled_message_begin p ≡ offset (dest t origin) n p
  unfolding prepare counted cleared
  prepare-begin p h =
      offsets_begins counted.ends t.shuffled_message_begin t.partition_num p counted-small h
      ∙ sum-counted p (omega arith)

  pub prepare-end :
      (p : ℕ)
      → p < t.partition_num
      → (prepare origin t).shuffled_message_end p ≡ offset (dest t origin) n p
  unfolding prepare counted cleared
  prepare-end p h =
      reset_ends_lem t.partition_num _ counted.ends p h
      ∙ offsets_begins counted.ends t.shuffled_message_begin t.partition_num p counted-small h
      ∙ sum-counted p (omega arith)

  abbrev prepared : MessageTask
  prepared = prepare origin t

  module _ (states : Option (ℕ → ℕ)) where
    abbrev shuffled : MessageTask
    shuffled = shuffle origin states prepared

    ids-fit :
        (j : ℕ) → j < n → prepared.partition_ids (t.origin_message_begin + j) < t.partition_num
    ids-fit j h = omega (arith, prepare-ids j h, fit.fits j h)

    starts :
        (p : ℕ)
        → p < t.partition_num
        → prepared.shuffled_message_end p
          ≡ offset (λ j. prepared.partition_ids (t.origin_message_begin + j)) n p
    starts p h = prepare-end p h ∙ offset-agree _ _ n p (λ j lt. sym (prepare-ids j lt))

    -- For a task that fits: after `prepare` and `shuffle`, the message of the walker at place j
    -- stands at its slot.
    pub shuffle-messages :
        (j : ℕ)
        → j < n
        → shuffled.shuffled_messages (slot (dest t origin) n j)
          ≡ origin (t.origin_message_begin + j)
    unfolding shuffle prepare
    shuffle-messages j h =
        ap shuffled.shuffled_messages (
          slot-agree (dest t origin) (λ i. prepared.partition_ids (t.origin_message_begin + i)) n j
            (λ i lt. sym (prepare-ids i lt)) h)
        ∙ place_messages-messages prepared.partition_ids t.origin_message_begin n t.partition_num
            fit.small ids-fit origin states _ starts n j (omega arith) h

    pub shuffle-end :
        (p : ℕ)
        → p < t.partition_num
        → shuffled.shuffled_message_end p ≡ offset (dest t origin) n (suc p)
    unfolding shuffle prepare sum_below
    shuffle-end p h =
        place_messages-ends prepared.partition_ids t.origin_message_begin n t.partition_num
          fit.small ids-fit origin states _ starts n (omega arith) p h
        ∙ offset-agree _ (dest t origin) n (suc p) prepare-ids

    pub shuffle-begin :
        (p : ℕ)
        → p < t.partition_num
        → shuffled.shuffled_message_begin p ≡ offset (dest t origin) n p
    unfolding shuffle
    shuffle-begin p h = prepare-begin p h

    -- The block of a partition after `shuffle`.
    abbrev pub InBlock : ℕ → ℕ → Type 0
    InBlock p i = (shuffled.shuffled_message_begin p ≤ i) × (i < shuffled.shuffled_message_end p)

    -- For a task that fits: after `prepare` and `shuffle`, the slot of message j lies in the block
    -- of its partition, and within the array of the task.
    pub shuffle-slot :
        (j : ℕ)
        → j < n
        → InBlock (dest t origin j) (slot (dest t origin) n j) × (slot (dest t origin) n j < n)
    shuffle-slot j h = omega (
      arith,
      slot_block (dest t origin) n j h,
      slot-lt (dest t origin) n j h,
      shuffle-begin (dest t origin j) (fit.fits j h),
      shuffle-end (dest t origin j) (fit.fits j h),
    )

    -- For a task that fits: after `prepare` and `shuffle`, every place in the block of a partition
    -- is the slot of a message of the task for that partition.
    pub shuffle-onto :
        (p i : ℕ)
        → p < t.partition_num
        → InBlock p i
        → (j : ℕ) × (j < n) × (dest t origin j ≡ p) × (slot (dest t origin) n j ≡ i)
    shuffle-onto p i h b =
        slot-onto (dest t origin) n p i (omega (arith, shuffle-begin p h, b.0))
          (omega (arith, shuffle-end p h, b.1))

    -- For a task that fits: after `prepare` and `shuffle` and any rewriting of the shuffled
    -- messages, `update` gives the walker at place j the message that stands at the slot where its
    -- own was put.
    pub update-target :
        (target messages : ℕ → ℕ) (j : ℕ)
        → j < n
        → (update target (record shuffled { shuffled_messages = messages })).1
            (t.origin_message_begin + j)
          ≡ messages (slot (dest t origin) n j)
    unfolding update shuffle prepare
    update-target target messages j h =
        take_messages-target prepared.partition_ids t.origin_message_begin n t.partition_num
          fit.small ids-fit messages _
          (λ p lt. prepare-begin p lt ∙ offset-agree _ _ n p (λ i less. sym (prepare-ids i less))) n
          j (omega arith) h
        ∙ ap messages (slot-agree _ (dest t origin) n j prepare-ids h)

  -- For a task that fits: after `prepare` and `shuffle` with states, the state of the walker at
  -- place j stands at the slot of its message.
  pub shuffle-states :
      (state : ℕ → ℕ) (j : ℕ)
      → j < n
      → (shuffled (some state)).shuffled_states (slot (dest t origin) n j)
        ≡ state (t.origin_message_begin + j)
  unfolding shuffle prepare
  shuffle-states state j h =
      ap (shuffled (some state)).shuffled_states (
        slot-agree (dest t origin) (λ i. prepared.partition_ids (t.origin_message_begin + i)) n j
          (λ i lt. sym (prepare-ids i lt)) h)
      ∙ place_messages-states prepared.partition_ids t.origin_message_begin n t.partition_num
          fit.small (ids-fit (some state)) origin state _ (starts (some state)) n j (omega arith) h

-- `update` writes the range of the task and nothing else.
take_messages-outside :
    (ids messages : ℕ → ℕ) (lo k : ℕ) (s : Taken) (i : ℕ)
    → (i < lo) ⊎ (lo + k ≤ i)
    → (take_messages ids messages lo k s).target i ≡ s.target i
unfolding take_messages for_range write
take_messages-outside ids messages lo zero s i out = refl
take_messages-outside ids messages lo (suc k) s i out =
    ground (arith, take_messages-outside ids messages lo k s i)

pub update-outside :
    (target : ℕ → ℕ) (t : MessageTask) (i : ℕ)
    → t.origin_message_begin ≤ t.origin_message_end
    → (i < t.origin_message_begin) ⊎ (t.origin_message_end ≤ i)
    → (update target t).1 i ≡ target i
unfolding update
update-outside target t i le out =
    take_messages-outside t.partition_ids t.shuffled_messages t.origin_message_begin (message_num t)
      _ i (ground arith)

-- Sorting leaves the range of the task.
pub sorted_range :
    (t : MessageTask) (messages : ℕ → ℕ) (states : Option (ℕ → ℕ))
    → ((shuffle messages states (prepare messages t)).origin_message_begin ≡ t.origin_message_begin)
      × ((shuffle messages states (prepare messages t)).origin_message_end ≡ t.origin_message_end)
unfolding shuffle prepare
sorted_range t messages states = (refl, refl)

-- ===== src/Message/Loops.antt =====
-- src/core/message.hpp: each loop of MessageTask, against the counts and slots of `Counts`.
use flashmob.Prelude.{ℕ, zero, suc, ◌+◌, ◌^◌, ◌≤◌, ◌<◌, ◌≡◌, refl, arith, write, Option, some}
use flashmob.Prelude.Loops.{for_range, sum_below}
use flashmob.Prelude.Words.{add32_small}
use flashmob.Message.Counts.{count, count-le, offset, slot, slot-injective, slot-lt}
use flashmob.Message.{
  clear_ends, Counted, count_messages, offsets, reset_ends, Placed, place_messages, Taken,
  take_messages,
}

pub clear_ends_lem : (n : ℕ) (a : ℕ → ℕ) (p : ℕ) → p < n → clear_ends n a p ≡ 0
unfolding clear_ends for_range write
clear_ends_lem zero a p h = absurd (omega arith)
clear_ends_lem (suc n) a p h = ground (arith, clear_ends_lem n a p)

pub reset_ends_lem : (n : ℕ) (begins a : ℕ → ℕ) (p : ℕ) → p < n → reset_ends n begins a p ≡ begins p
unfolding reset_ends for_range write
reset_ends_lem zero begins a p h = absurd (omega arith)
reset_ends_lem (suc n) begins a p h = ground (arith, reset_ends_lem n begins a p)

module _ (partition origin : ℕ → ℕ) (lo pn : ℕ) where
  abbrev dest : ℕ → ℕ
  dest j = partition (origin (lo + j))

  -- The first k rounds leave in `ends` the number of messages for each partition.
  pub count_messages-ends :
      (k : ℕ) (s : Counted)
      → k < 2 ^ 32
      → ((q : ℕ) → q < pn → s.ends q ≡ 0)
      → ((j : ℕ) → j < k → dest j < pn)
      → (p : ℕ) → p < pn
      → (count_messages partition origin lo k s).ends p ≡ count dest p k
  unfolding count_messages for_range count write
  count_messages-ends zero s w z f p h = z p h
  count_messages-ends (suc k) s w z f p h =
      let ih = count_messages-ends k s (omega arith) z (λ j lt. f j (omega arith)) in
      ground (
        arith,
        ih p h,
        ih (dest k) (f k (omega arith)),
        add32_small (count dest (dest k) k) 1,
        count-le dest (dest k) k,
      )

  pub count_messages-ids :
      (k : ℕ) (s : Counted) (j : ℕ)
      → j < k
      → (count_messages partition origin lo k s).ids (lo + j) ≡ dest j
  unfolding count_messages for_range write
  count_messages-ids zero s j h = absurd (omega arith)
  count_messages-ids (suc k) s j h = ground (arith, count_messages-ids k s j)

module _ (ends : ℕ → ℕ) (begins : ℕ → ℕ) where
  -- With sums that fit 32 bits the running counter is the sum, and each block begins at it.
  pub offsets_counter :
      (m : ℕ) → sum_below ends m < 2 ^ 32 → (offsets m ends begins).counter ≡ sum_below ends m
  unfolding offsets for_range sum_below
  offsets_counter zero w = refl
  offsets_counter (suc m) w =
      ground (arith, offsets_counter m, add32_small (sum_below ends m) (ends m))

  pub offsets_begins :
      (m p : ℕ)
      → sum_below ends m < 2 ^ 32
      → p < m
      → (offsets m ends begins).begins p ≡ sum_below ends p
  unfolding offsets for_range sum_below write
  offsets_begins zero p w h = absurd (omega arith)
  offsets_begins (suc m) p w h = ground (arith, offsets_counter m, offsets_begins m p)

-- `shuffle` and `update` from the state that `prepare` leaves: n messages, `dest j` is the
-- partition of message j, and the write position of partition p begins at its block.
module _ (ids : ℕ → ℕ) (lo n pn : ℕ) (small : n < 2 ^ 32)
    (fits : (j : ℕ) → j < n → ids (lo + j) < pn) where
  abbrev to : ℕ → ℕ
  to j = ids (lo + j)

  slot_small : (k : ℕ) → k < n → offset to n (to k) + count to (to k) k + 1 < 2 ^ 32
  unfolding slot
  slot_small k h = omega (arith, slot-lt to n k h)

  module _ (origin : ℕ → ℕ) (states : Option (ℕ → ℕ)) (s : Placed)
      (starts : (p : ℕ) → p < pn → s.ends p ≡ offset to n p) where
    pub place_messages-ends :
        (k : ℕ)
        → k ≤ n
        → (p : ℕ) → p < pn
        → (place_messages ids origin states lo k s).ends p ≡ offset to n p + count to p k
    unfolding place_messages for_range count write
    place_messages-ends zero le p h = ground (arith, starts p h)
    place_messages-ends (suc k) le p h =
        let ih = place_messages-ends k (omega arith) in
        ground (
          arith,
          ih p h,
          ih (to k) (fits k (omega arith)),
          add32_small (offset to n (to k) + count to (to k) k) 1,
          slot_small k (omega arith),
        )

    -- Every message placed so far stands in its slot.
    pub place_messages-messages :
        (k j : ℕ)
        → k ≤ n
        → j < k
        → (place_messages ids origin states lo k s).messages (slot to n j) ≡ origin (lo + j)
    unfolding place_messages for_range write slot
    place_messages-messages zero j le h = absurd (omega arith)
    place_messages-messages (suc k) j le h = ground (
      arith,
      place_messages-messages k j (omega arith),
      place_messages-ends k (omega arith) (to k) (fits k (omega arith)),
      slot-injective to n j k,
    )

  module _ (origin state : ℕ → ℕ) (s : Placed)
      (starts : (p : ℕ) → p < pn → s.ends p ≡ offset to n p) where
    -- The states travel with the messages.
    pub place_messages-states :
        (k j : ℕ)
        → k ≤ n
        → j < k
        → (place_messages ids origin (some state) lo k s).states (slot to n j) ≡ state (lo + j)
    unfolding place_messages for_range write slot
    place_messages-states zero j le h = absurd (omega arith)
    place_messages-states (suc k) j le h = ground (
      arith,
      place_messages-states k j (omega arith),
      place_messages-ends origin (some state) s starts k (omega arith) (to k)
          (fits k (omega arith)),
      slot-injective to n j k,
    )

  module _ (messages : ℕ → ℕ) (s : Taken)
      (starts : (p : ℕ) → p < pn → s.begins p ≡ offset to n p) where
    pub take_messages-begins :
        (k : ℕ)
        → k ≤ n
        → (p : ℕ) → p < pn
        → (take_messages ids messages lo k s).begins p ≡ offset to n p + count to p k
    unfolding take_messages for_range count write
    take_messages-begins zero le p h = ground (arith, starts p h)
    take_messages-begins (suc k) le p h =
        let ih = take_messages-begins k (omega arith) in
        ground (
          arith,
          ih p h,
          ih (to k) (fits k (omega arith)),
          add32_small (offset to n (to k) + count to (to k) k) 1,
          slot_small k (omega arith),
        )

    -- Every message taken so far came from its slot.
    pub take_messages-target :
        (k j : ℕ)
        → k ≤ n
        → j < k
        → (take_messages ids messages lo k s).target (lo + j) ≡ messages (slot to n j)
    unfolding take_messages for_range write slot
    take_messages-target zero j le h = absurd (omega arith)
    take_messages-target (suc k) j le h = ground (
      arith,
      take_messages-target k j (omega arith),
      take_messages-begins k (omega arith) (to k) (fits k (omega arith)),
    )

-- ===== src/Walk.antt =====
-- src/core/walk.hpp, class WalkManager, the static walk: each walker in the block of a partition
-- takes one sample of that partition's sampler. `world` is what sampling reads and changes, the
-- generators of the threads and the buffers of the samplers; `sample p v w` is
-- `sm->samplers[p]->sample(v, rd)`. Partitions are walked in the order of a list, each by one
-- thread.
pub mod Blocks
pub mod Partitions
pub mod Schedule
pub mod Node2vec
use flashmob.Prelude.{ℕ, ◌-◌, write, List, [], ◌∷◌}
use flashmob.Prelude.Loops.{for_range}
use flashmob.Message.{MessageTask}

pub record Walked {ℓ} (S : Type ℓ) : Type ℓ where
  pub messages : ℕ → ℕ
  pub world : S

module _ {ℓ} {S : Type ℓ} where
  pub walk_one : (ℕ → S → ℕ × S) → ℕ → Walked S → Walked S
  walk_one sample i s =
      let (next, world) = sample (s.messages i) s.world in
      record { messages = write s.messages i next; world = world }

  -- for (msg = message_begin; msg < message_end; msg++) *msg = sampler->sample(*msg, rd);
  pub walk_message : (ℕ → S → ℕ × S) → ℕ → ℕ → Walked S → Walked S
  unfolding walk_one for_range
  walk_message sample lo n = for_range lo n (walk_one sample)

  -- The block of partition p_i in the messages of one task.
  pub walk_task : (ℕ → ℕ → S → ℕ × S) → ℕ → MessageTask → S → MessageTask × S
  unfolding walk_message
  walk_task sample p_i t world =
      let r =
        walk_message (sample p_i) (t.shuffled_message_begin p_i)
          (t.shuffled_message_end p_i - t.shuffled_message_begin p_i)
          (record { messages = t.shuffled_messages; world = world }) in
      (record t { shuffled_messages = r.messages }, r.world)

  -- The loop over the sockets and threads, for one partition.
  pub walk_partition : (ℕ → ℕ → S → ℕ × S) → ℕ → List MessageTask → S → List MessageTask × S
  unfolding walk_task
  walk_partition sample p_i [] world = ([], world)
  walk_partition sample p_i (t ∷ ts) world =
      let (t', world') = walk_task sample p_i t world in
      let (ts', world'') = walk_partition sample p_i ts world' in (t' ∷ ts', world'')

  -- The partitions in the order in which they are taken.
  pub walk : (ℕ → ℕ → S → ℕ × S) → List ℕ → List MessageTask → S → List MessageTask × S
  unfolding walk_partition
  walk sample [] ts world = (ts, world)
  walk sample (p_i ∷ order) ts world =
      let (ts', world') = walk_partition sample p_i ts world in walk sample order ts' world'

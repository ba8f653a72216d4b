-- ===== src/Walk/Blocks.antt =====
-- src/core/walk.hpp, walk_message: the walk of one block.
use flashmob.Prelude.{
  ℕ, zero, suc, ◌+◌, ◌-◌, ◌≤◌, ◌<◌, ◌≡◌, ◌⊎◌, inl, inr, refl, arith, subst, lt_suc-cases,
  write_self, write_ne, write,
}
use flashmob.Prelude.Loops.{for_range}
use flashmob.Message.{MessageTask}
use flashmob.Walk.{Walked, walk_message, walk_task}

-- The block of a partition in the sorted messages.
abbrev pub InRange : ℕ → MessageTask → ℕ → Type 0
InRange p t i = (t.shuffled_message_begin p ≤ i) × (i < t.shuffled_message_end p)

-- What is known of a sampler: in a world that satisfies `Sound`, a sample from a vertex of its
-- partition is a `Step`, and leaves the world sound.
pub record IsSampler {ℓ κ} {S : Type ℓ} (sample : ℕ → ℕ → S → ℕ × S) (Sound : S → Type κ)
    (Lies : ℕ → ℕ → Type 0) (Step : ℕ → ℕ → Type 0) : Type (ℓ ⊔ κ) where
  pub steps : (p v : ℕ) (w : S) → Sound w → Lies p v → Step v (sample p v w).0
  pub keeps : (p v : ℕ) (w : S) → Sound w → Lies p v → Sound (sample p v w).1

module _ {ℓ κ} {S : Type ℓ} {sample : ℕ → ℕ → S → ℕ × S} {Sound : S → Type κ}
    {Lies : ℕ → ℕ → Type 0} {Step : ℕ → ℕ → Type 0} (h : IsSampler sample Sound Lies Step) where
  pub walk_message-outside :
      (p lo n : ℕ) (s : Walked S) (i : ℕ)
      → (i < lo) ⊎ (lo + n ≤ i)
      → (walk_message (sample p) lo n s).messages i ≡ s.messages i
  unfolding walk_message for_range write
  walk_message-outside p lo zero s i out = refl
  walk_message-outside p lo (suc n) s i out = ground (arith, walk_message-outside p lo n s i)

  abbrev Ready : ℕ → ℕ → ℕ → (ℕ → ℕ) → Type 0
  Ready p lo n m = (k : ℕ) → k < n → Lies p (m (lo + k))

  pub walk_message-Sound :
      (p lo n : ℕ) (s : Walked S)
      → Ready p lo n s.messages
      → Sound s.world
      → Sound (walk_message (sample p) lo n s).world
  unfolding walk_message for_range
  walk_message-Sound p lo zero s ready sound = sound
  walk_message-Sound p lo (suc n) s ready sound =
      h.keeps p _ _ (walk_message-Sound p lo n s (λ k lt. ready k (omega arith)) sound)
        (rw (walk_message-outside p lo n s (lo + n) (inr (omega arith))) (ready n (omega arith)))

  pub walk_message-Step :
      (p lo n : ℕ) (s : Walked S)
      → Ready p lo n s.messages
      → Sound s.world
      → (k : ℕ) → k < n
      → Step (s.messages (lo + k)) ((walk_message (sample p) lo n s).messages (lo + k))
  unfolding walk_message for_range
  walk_message-Step p lo zero s ready sound k lt = absurd (omega arith)
  walk_message-Step p lo (suc n) s ready sound k lt = elim (lt_suc-cases k n lt) [
    | inl e ↦
        rw (e, write_self)
          (subst
            (λ v.
              Step v
                (sample p ((walk_message (sample p) lo n s).messages (lo + n))
                  (walk_message (sample p) lo n s).world).0)
            (walk_message-outside p lo n s (lo + n) (inr (omega arith)))
            (h.steps p _ _ (walk_message-Sound p lo n s (λ j less. ready j (omega arith)) sound) (
              rw (walk_message-outside p lo n s (lo + n) (inr (omega arith)))
                (ready n (omega arith)))))
    | inr less ↦
        rw (write_ne (walk_message (sample p) lo n s).messages (lo + n) _ (lo + k) (omega arith))
          (walk_message-Step p lo n s (λ j lt'. ready j (omega arith)) sound k less)
  ]

  -- The sampler of the partition may be given all that stands in its block.
  abbrev pub BlockLies : ℕ → MessageTask → Type 0
  BlockLies p t = (i : ℕ) → InRange p t i → Lies p (t.shuffled_messages i)

  block-Ready :
      (p : ℕ) (t : MessageTask)
      → BlockLies p t
      → Ready p
          (t.shuffled_message_begin p)
          (t.shuffled_message_end p - t.shuffled_message_begin p)
          t.shuffled_messages
  block-Ready p t lies k lt = lies (t.shuffled_message_begin p + k) (omega arith, omega arith)

  pub walk_task-Sound :
      (p : ℕ) (t : MessageTask) (w : S) → BlockLies p t → Sound w → Sound (walk_task sample p t w).1
  unfolding walk_task
  walk_task-Sound p t w lies sound =
      walk_message-Sound p _ _ (record { messages = t.shuffled_messages; world = w })
        (block-Ready p t lies) sound

  pub walk_task-Step :
      (p : ℕ) (t : MessageTask) (w : S)
      → BlockLies p t
      → Sound w
      → (i : ℕ) → InRange p t i
      → Step (t.shuffled_messages i) ((walk_task sample p t w).0.shuffled_messages i)
  unfolding walk_task
  walk_task-Step p t w lies sound i r =
      let e : t.shuffled_message_begin p + (i - t.shuffled_message_begin p) ≡ i = omega arith in
      subst (λ j. Step (t.shuffled_messages j) ((walk_task sample p t w).0.shuffled_messages j)) e
        (walk_message-Step p _ _ (record { messages = t.shuffled_messages; world = w })
          (block-Ready p t lies) sound (i - t.shuffled_message_begin p) (omega arith))

  pub walk_task-outside :
      (p : ℕ) (t : MessageTask) (w : S) (i : ℕ)
      → (i < t.shuffled_message_begin p) ⊎ (t.shuffled_message_end p ≤ i)
      → t.shuffled_message_begin p ≤ t.shuffled_message_end p
      → (walk_task sample p t w).0.shuffled_messages i ≡ t.shuffled_messages i
  unfolding walk_task
  walk_task-outside p t w i out le =
      walk_message-outside p _ _ (record { messages = t.shuffled_messages; world = w }) i
        (ground arith)

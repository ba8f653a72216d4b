-- ===== src/Walk/Partitions.antt =====
-- src/core/walk.hpp, WalkManager::walk: the walk of all partitions of all tasks.
use flashmob.Prelude.{
  ℕ, suc, ◌≤◌, ◌<◌, ◌≡◌, ◌≢◌, ◌⊎◌, inl, inr, Bool-cases, refl, arith, List, [], ◌∷◌, if◌then◌else◌,
  ◌==◌, All, subst, ◌∙◌,
}
use flashmob.Message.{MessageTask}
use flashmob.Walk.{walk_task, walk_partition, walk}
use flashmob.Walk.Blocks.{
  IsSampler, InRange, BlockLies, walk_task-Sound, walk_task-Step, walk_task-outside,
}

-- How often a partition is taken.
unfoldable pub occurs : ℕ → List ℕ → ℕ
occurs p [] = 0
occurs p (q ∷ order) = if q == p then suc (occurs p order) else occurs p order

-- Every partition is in the order of a walk, once.
pub record IsOrder (pn : ℕ) (order : List ℕ) : Type 0 where
  pub below : All (λ p. p < pn) order
  pub most : (p : ℕ) → occurs p order ≤ 1
  pub once : (p : ℕ) → p < pn → occurs p order ≡ 1

-- Two lists of the same length, related place by place.
abbrev pub Each {ℓ κ} : {A : Type ℓ} {B : Type κ} → (A → B → Type 0) → List A → List B → Type 0
Each R [] [] = Unit
Each R [] (y ∷ ys) = ⊥
Each R (x ∷ xs) [] = ⊥
Each R (x ∷ xs) (y ∷ ys) = R x y × Each R xs ys

-- The blocks of a task are intervals, in the order of the partitions.
pub record HasBlocks (pn : ℕ) (t : MessageTask) : Type 0 where
  pub ordered : (p : ℕ) → p < pn → t.shuffled_message_begin p ≤ t.shuffled_message_end p
  pub apart : (p q : ℕ) → p < q → q < pn → t.shuffled_message_end p ≤ t.shuffled_message_begin q

module _ {ℓ κ} {S : Type ℓ} {sample : ℕ → ℕ → S → ℕ × S} {Sound : S → Type κ}
    {Lies : ℕ → ℕ → Type 0} {Step : ℕ → ℕ → Type 0} (h : IsSampler sample Sound Lies Step)
    (pn : ℕ) where
  -- Before the partitions of `order` are walked.
  pub record IsReady (order : List ℕ) (t : MessageTask) : Type 0 where
    pub blocks : HasBlocks pn t
    pub lies :
        (p : ℕ)
        → p < pn
        → 0 < occurs p order
        → (i : ℕ) → InRange p t i
        → Lies p (t.shuffled_messages i)

  -- What the walk of the partitions of `order` does to a task.
  pub record Advanced (order : List ℕ) (t t' : MessageTask) : Type 0 where
    pub same : t' ≡ record t { shuffled_messages = t'.shuffled_messages }
    pub stepped :
        (p i : ℕ)
        → p < pn
        → occurs p order ≡ 1
        → InRange p t i
        → Step (t.shuffled_messages i) (t'.shuffled_messages i)
    pub kept :
        (p i : ℕ)
        → p < pn
        → occurs p order ≡ 0
        → InRange p t i
        → t'.shuffled_messages i ≡ t.shuffled_messages i

  occurs_once : (p q : ℕ) → occurs p (q ∷ []) ≡ 1 → p ≡ q
  unfolding occurs
  occurs_once p q e = ground arith

  occurs_never : (p q : ℕ) → occurs p (q ∷ []) ≡ 0 → p ≢ q
  unfolding occurs
  occurs_never p q e = ground arith

  occurs_head : (q : ℕ) (order : List ℕ) → 0 < occurs q (q ∷ order)
  unfolding occurs
  occurs_head q order = ground arith

  block-Lies :
      (q : ℕ) (order : List ℕ) (t : MessageTask) → q < pn → IsReady (q ∷ order) t → BlockLies h q t
  block-Lies q order t lt ready i r = ready.lies q lt (occurs_head q order) i r

  -- A message of another block stands outside of this one.
  other_block :
      (p q i : ℕ) (t : MessageTask)
      → HasBlocks pn t
      → p < pn
      → q < pn
      → p ≢ q
      → InRange p t i
      → (i < t.shuffled_message_begin q) ⊎ (t.shuffled_message_end q ≤ i)
  other_block p q i t b lp lq ne r = ground (arith, b.apart p q, b.apart q p)

  walk_task-Advanced :
      (q : ℕ) (order : List ℕ) (t : MessageTask) (w : S)
      → q < pn
      → IsReady (q ∷ order) t
      → Sound w
      → Advanced (q ∷ []) t (walk_task sample q t w).0
  unfolding walk_task
  walk_task-Advanced q order t w lt ready sound = record {
    same = refl;
    stepped = λ p i lp once r.
        walk_task-Step h q t w (block-Lies q order t lt ready) sound i
          (subst (λ x. InRange x t i) (occurs_once p q once) r);
    kept = λ p i lp never r.
        walk_task-outside h q t w i
          (other_block p q i t ready.blocks lp lt (occurs_never p q never) r)
          (ready.blocks.ordered q lt);
  }

  walk_partition-Each :
      (q : ℕ) (order : List ℕ) (ts : List MessageTask) (w : S)
      → q < pn
      → All (IsReady (q ∷ order)) ts
      → Sound w
      → Each (Advanced (q ∷ [])) ts (walk_partition sample q ts w).0
        × Sound (walk_partition sample q ts w).1
  unfolding walk_partition
  walk_partition-Each q order [] w lt ready sound = (tt, sound)
  walk_partition-Each q order (t ∷ ts) w lt ready sound =
      let sound' = walk_task-Sound h q t w (block-Lies q order t lt ready.0) sound in
      let (rest, last) =
        walk_partition-Each q order ts (walk_task sample q t w).1 lt ready.1 sound' in
      ((walk_task-Advanced q order t w lt ready.0 sound, rest), last)

  -- What is ready for q and then the rest is ready for the rest once q is walked.
  Advanced-IsReady :
      (q : ℕ) (order : List ℕ) (t t' : MessageTask)
      → ((p : ℕ) → occurs p (q ∷ order) ≤ 1)
      → IsReady (q ∷ order) t
      → Advanced (q ∷ []) t t'
      → IsReady order t'
  unfolding occurs
  Advanced-IsReady q order t t' once ready adv = record {
    blocks = rw adv.same (record { ordered = ready.blocks.ordered; apart = ready.blocks.apart });
    lies = λ p lp more i r.
        rw (adv.kept p i lp (ground (arith, once p)) (rw adv.same at r))
          (ready.lies p lp (ground (arith, once p)) i (rw adv.same at r));
  }

  Advanced-trans :
      (q : ℕ) (order : List ℕ) (t t' t'' : MessageTask)
      → ((p : ℕ) → occurs p (q ∷ order) ≤ 1)
      → Advanced (q ∷ []) t t'
      → Advanced order t' t''
      → Advanced (q ∷ order) t t''
  unfolding occurs
  Advanced-trans q order t t' t'' once first rest = record {
    same = rest.same ∙ rw first.same;
    stepped = λ p i lp one r. elim (Bool-cases (q == p)) [
      | inl hit ↦
          rw (rest.kept p i lp (ground arith) (rw first.same r))
            (first.stepped p i lp (ground arith) r)
      | inr miss ↦
          subst (λ v. Step v (t''.shuffled_messages i)) (first.kept p i lp (ground arith) r)
            (rest.stepped p i lp (ground arith) (rw first.same r))
    ];
    kept = λ p i lp none r.
        rest.kept p i lp (ground arith) (rw first.same r) ∙ first.kept p i lp (ground arith) r;
  }

  Each-IsReady :
      (q : ℕ) (order : List ℕ) (ts ts' : List MessageTask)
      → ((p : ℕ) → occurs p (q ∷ order) ≤ 1)
      → All (IsReady (q ∷ order)) ts
      → Each (Advanced (q ∷ [])) ts ts'
      → All (IsReady order) ts'
  Each-IsReady q order [] [] once ready adv = tt
  Each-IsReady q order [] (t' ∷ ts') once ready adv = absurd adv
  Each-IsReady q order (t ∷ ts) [] once ready adv = absurd adv
  Each-IsReady q order (t ∷ ts) (t' ∷ ts') once ready adv = (
    Advanced-IsReady q order t t' once ready.0 adv.0,
    Each-IsReady q order ts ts' once ready.1 adv.1,
  )

  Each-trans :
      (q : ℕ) (order : List ℕ) (ts ts' ts'' : List MessageTask)
      → ((p : ℕ) → occurs p (q ∷ order) ≤ 1)
      → Each (Advanced (q ∷ [])) ts ts'
      → Each (Advanced order) ts' ts''
      → Each (Advanced (q ∷ order)) ts ts''
  Each-trans q order [] [] [] once a b = tt
  Each-trans q order [] [] (z ∷ zs) once a b = absurd b
  Each-trans q order [] (y ∷ ys) zs once a b = absurd a
  Each-trans q order (x ∷ xs) [] zs once a b = absurd a
  Each-trans q order (x ∷ xs) (y ∷ ys) [] once a b = absurd b
  Each-trans q order (x ∷ xs) (y ∷ ys) (z ∷ zs) once a b =
      (Advanced-trans q order x y z once a.0 b.0, Each-trans q order xs ys zs once a.1 b.1)

  Each-refl : (ts : List MessageTask) → Each (Advanced []) ts ts
  unfolding occurs
  Each-refl [] = tt
  Each-refl (t ∷ ts) = (
    record {
      same = refl;
      stepped = λ p i lp one r. absurd (omega arith);
      kept = λ p i lp e r. refl;
    },
    Each-refl ts,
  )

  occurs_tail :
      (q : ℕ) (order : List ℕ) → ((p : ℕ) → occurs p (q ∷ order) ≤ 1) → (p : ℕ) → occurs p order ≤ 1
  unfolding occurs
  occurs_tail q order once p = ground (arith, once p)

  -- A walk that takes no partition twice advances every task, and leaves the world sound.
  pub walk-Each :
      (order : List ℕ) (ts : List MessageTask) (w : S)
      → All (λ p. p < pn) order
      → ((p : ℕ) → occurs p order ≤ 1)
      → All (IsReady order) ts
      → Sound w
      → Each (Advanced order) ts (walk sample order ts w).0 × Sound (walk sample order ts w).1
  unfolding walk
  walk-Each [] ts w lt once ready sound = (Each-refl ts, sound)
  walk-Each (q ∷ order) ts w lt once ready sound =
      let (first, sound') = walk_partition-Each q order ts w lt.0 ready sound in
      let (rest, last) =
        walk-Each order (walk_partition sample q ts w).0 (walk_partition sample q ts w).1 lt.1
          (occurs_tail q order once) (Each-IsReady q order ts _ once ready first) sound' in
      (Each-trans q order ts _ _ once first rest, last)

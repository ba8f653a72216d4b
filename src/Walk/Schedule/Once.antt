-- ===== src/Walk/Schedule/Once.antt =====
-- src/core/walk.hpp, WalkManager::walk: what the counters of a socket have handed out.
use flashmob.Prelude.{
  ℕ, suc, ◌+◌, ◌-◌, ◌≤◌, ◌<◌, ◌≡◌, inl, inr, refl, sym, subst, ap, ◌∙◌, arith, min, Bool, true,
  false, none, some, List, [], ◌∷◌, ◌++◌, All, All-append, ltb, leb, ◌==◌, ◌&&◌, ◌||◌,
  if◌then◌else◌, ◌>>=◌, Option-cases, Bool-cases,
}
use mathlib.Core.Option.{some-injective, none-ne-some}
use flashmob.Walk.Partitions.{occurs, IsOrder}
use flashmob.Walk.Schedule.{
  Progress, start, Action, claim, pick, claim_one, pick_front, pick_back, pick_one, act, run,
}

occurs-append :
    (p q : ℕ) (xs : List ℕ)
    → occurs p (xs ++ (q ∷ [])) ≡ (if q == p then suc (occurs p xs) else occurs p xs)
unfolding occurs
occurs-append p q [] = refl
occurs-append p q (x ∷ xs) = ground (arith, occurs-append p q xs)

-- The indices that are taken: those from the front, and those from the back.
is_taken : ℕ → Progress → ℕ → Bool
is_taken num s i =
    ltb i s.hdv_partition_progress || (leb (num - s.ldv_partition_progress) i && ltb i num)

record IsShared (num : ℕ) (s : Progress) : Type 0 where
  pub claimed :
      s.hdv_partition_progress + s.front + (s.ldv_partition_progress + s.back)
      ≡ min s.partittion_progress num
  pub below : All (λ i. i < num) s.taken
  pub counted : (i : ℕ) → occurs i s.taken ≡ (if is_taken num s i then 1 else 0)

start-IsShared : (num : ℕ) → IsShared num start
unfolding occurs is_taken
start-IsShared num = record { claimed = omega arith; below = tt; counted = λ i. ground arith }

claim_one-IsShared :
    (num : ℕ) (hdv : Bool) (s : Progress) → IsShared num s → IsShared num (claim_one num hdv s)
unfolding claim_one is_taken
claim_one-IsShared num true s k = record {
  claimed = ground (arith, k.claimed);
  below = k.below;
  counted = k.counted;
}
claim_one-IsShared num false s k = record {
  claimed = ground (arith, k.claimed);
  below = k.below;
  counted = k.counted;
}

pick_front-IsShared :
    (num : ℕ) (s : Progress) → IsShared num s → 0 < s.front → IsShared num (pick_front s)
unfolding pick_front is_taken
pick_front-IsShared num s k pos = record {
  claimed = omega (arith, k.claimed);
  below = All-append (λ i. i < num) s.taken _ k.below (omega (arith, k.claimed), tt);
  counted = λ i.
      occurs-append i s.hdv_partition_progress s.taken ∙ ground (arith, k.counted i, k.claimed);
}

pick_back-IsShared :
    (num : ℕ) (s : Progress) → IsShared num s → 0 < s.back → IsShared num (pick_back num s)
unfolding pick_back is_taken
pick_back-IsShared num s k pos = record {
  claimed = omega (arith, k.claimed);
  below = All-append (λ i. i < num) s.taken _ k.below (omega (arith, k.claimed), tt);
  counted = λ i.
      occurs-append i (num - s.ldv_partition_progress - 1) s.taken
      ∙ ground (arith, k.counted i, k.claimed);
}

pick_one-IsShared :
    (num : ℕ) (hdv : Bool) (s s' : Progress)
    → IsShared num s
    → pick_one num hdv s ≡ some s'
    → IsShared num s'
unfolding pick_one
pick_one-IsShared num true s s' k e = elim (Bool-cases (ltb 0 s.front)) [
  | inl c ↦
      subst (IsShared num)
        (some-injective _ _ (sym (ap (λ b. if b then some (pick_front s) else none) c) ∙ e))
        (pick_front-IsShared num s k (ground arith))
  | inr c ↦ absurd (ground (arith, e))
]
pick_one-IsShared num false s s' k e = elim (Bool-cases (ltb 0 s.back)) [
  | inl c ↦
      subst (IsShared num)
        (some-injective _ _ (sym (ap (λ b. if b then some (pick_back num s) else none) c) ∙ e))
        (pick_back-IsShared num s k (ground arith))
  | inr c ↦ absurd (ground (arith, e))
]

act-IsShared :
    (num : ℕ) (a : Action) (s s' : Progress)
    → IsShared num s
    → act num a s ≡ some s'
    → IsShared num s'
unfolding act
act-IsShared num (claim hdv) s s' k e =
    subst (IsShared num) (some-injective _ _ e) (claim_one-IsShared num hdv s k)
act-IsShared num (pick hdv) s s' k e = pick_one-IsShared num hdv s s' k e

run-IsShared :
    (num : ℕ) (actions : List Action) (s s' : Progress)
    → IsShared num s
    → run num actions s ≡ some s'
    → IsShared num s'
unfolding run
run-IsShared num [] s s' k e = subst (IsShared num) (some-injective _ _ e) k
run-IsShared num (a ∷ actions) s s' k e = elim (Option-cases (act num a s)) [
  | inl stuck ↦ absurd (none-ne-some _ (sym (ap (λ o. o >>= run num actions) stuck) ∙ e))
  | inr (t, done) ↦
      run-IsShared num actions t s' (act-IsShared num a s t k done)
        (sym (ap (λ o. o >>= run num actions) done) ∙ e)
]

-- However the atomic operations of the threads interleave: when at least as many claims as
-- partitions were made and every thread that claimed a partition has taken it, the indices taken
-- are those of all partitions, each once.
pub run-IsOrder :
    (num : ℕ) (actions : List Action) (s : Progress)
    → run num actions start ≡ some s
    → num ≤ s.partittion_progress
    → s.front ≡ 0
    → s.back ≡ 0
    → IsOrder num s.taken
unfolding is_taken
run-IsOrder num actions s e all front back = record {
  below = k.below;
  most = λ i. ground (arith, k.counted i);
  once = λ i lt. ground (arith, k.counted i, k.claimed);
}
  where
    k : IsShared num s
    k = run-IsShared num actions start s (start-IsShared num) e

-- ===== src/Message/Counts.antt =====
-- src/core/message.hpp: what `prepare` counts, as sums; the slot of a message is its place in the
-- sorted array.
use flashmob.Prelude.{
  ℕ, zero, suc, ◌+◌, ◌≤◌, ◌<◌, ◌≡◌, ◌≢◌, refl, arith, if◌then◌else◌, ◌==◌, ltb, inl, inr,
  le_suc-cases, Bool-cases, ◌-◌,
}
use flashmob.Prelude.Loops.{sum_below}

pub sum_below_mono : (f : ℕ → ℕ) (p q : ℕ) → p ≤ q → sum_below f p ≤ sum_below f q
unfolding sum_below
sum_below_mono f zero zero h = omega arith
sum_below_mono f (suc p) zero h = absurd (omega arith)
sum_below_mono f p (suc q) h = elim (le_suc-cases p q h) [
  | inl e ↦ rw e (omega arith)
  | inr less ↦ omega (arith, sum_below_mono f p q less)
]

module _ (dest : ℕ → ℕ) where
  -- How many of the messages 0, …, k - 1 go to partition p.
  unfoldable pub count : ℕ → ℕ → ℕ
  count p zero = 0
  count p (suc k) = if dest k == p then suc (count p k) else count p k

  pub count_mono : (p j k : ℕ) → j ≤ k → count p j ≤ count p k
  unfolding count
  count_mono p zero zero h = omega arith
  count_mono p (suc j) zero h = absurd (omega arith)
  count_mono p j (suc k) h = elim (le_suc-cases j k h) [
    | inl e ↦ rw e (omega arith)
    | inr less ↦ ground (arith, count_mono p j k less)
  ]

  pub count-le : (p k : ℕ) → count p k ≤ k
  unfolding count
  count-le p zero = omega arith
  count-le p (suc k) = ground (arith, count-le p k)

  -- Where the block of partition p begins once n messages are sorted.
  abbrev pub offset : ℕ → ℕ → ℕ
  offset n p = sum_below (λ q. count q n) p

  offset_step : (k m : ℕ) → offset (suc k) m ≡ offset k m + (if ltb (dest k) m then 1 else 0)
  unfolding sum_below count
  offset_step k zero = ground arith
  offset_step k (suc m) = ground (arith, offset_step k m)

  offset-zero : (m : ℕ) → offset 0 m ≡ 0
  unfolding sum_below count
  offset-zero zero = refl
  offset-zero (suc m) = omega (arith, offset-zero m)

  -- No message is counted twice.
  pub offset-le : (n m : ℕ) → offset n m ≤ n
  offset-le zero m = omega (arith, offset-zero m)
  offset-le (suc n) m = ground (arith, offset_step n m, offset-le n m)

  -- With every destination below m none is left out.
  pub offset_all : (n m : ℕ) → ((j : ℕ) → j < n → dest j < m) → offset n m ≡ n
  offset_all zero m h = offset-zero m
  offset_all (suc n) m h =
      ground (arith, offset_step n m, h n, offset_all n m (λ j lt. h j (omega arith)))

  -- The place of message j in the sorted array.
  unfoldable pub slot : ℕ → ℕ → ℕ
  slot n j = offset n (dest j) + count (dest j) j

  pub count-lt : (n j : ℕ) → j < n → count (dest j) j < count (dest j) n
  unfolding count
  count-lt n j h = ground (arith, count_mono (dest j) (suc j) n h)

  -- Each message lies in the block of its partition.
  pub slot_block :
      (n j : ℕ) → j < n → (offset n (dest j) ≤ slot n j) × (slot n j < offset n (suc (dest j)))
  unfolding slot sum_below
  slot_block n j h = omega (arith, count-lt n j h)

  pub slot-lt : (n j : ℕ) → j < n → slot n j < n
  slot-lt n j h = omega (arith, slot_block n j h, offset-le n (suc (dest j)))

  count_same : (j k : ℕ) → j < k → dest j ≡ dest k → count (dest j) j < count (dest k) k
  count_same j k h e = ground (arith, count-lt k j h)

  slot-ne_of_lt : (n j k : ℕ) → j < k → k < n → slot n j ≡ slot n k → ⊥
  unfolding slot
  slot-ne_of_lt n j k h lt e = ground (
    arith,
    count_same j k h,
    slot_block n j,
    slot_block n k,
    sum_below_mono (λ q. count q n) (suc (dest j)) (dest k),
    sum_below_mono (λ q. count q n) (suc (dest k)) (dest j),
  )

  -- No two messages share a place.
  pub slot-injective : (n j k : ℕ) → j < n → k < n → slot n j ≡ slot n k → j ≡ k
  slot-injective n j k p q e = ground (arith, slot-ne_of_lt n j k, slot-ne_of_lt n k j)

-- The counts of the first n messages depend on their destinations only.
module _ (f g : ℕ → ℕ) where
  pub count-agree : (p k : ℕ) → ((j : ℕ) → j < k → f j ≡ g j) → count f p k ≡ count g p k
  unfolding count
  count-agree p zero h = refl
  count-agree p (suc k) h =
      ground (arith, h k (omega arith), count-agree p k (λ j lt. h j (omega arith)))

  pub offset-agree : (n p : ℕ) → ((j : ℕ) → j < n → f j ≡ g j) → offset f n p ≡ offset g n p
  unfolding sum_below
  offset-agree n zero h = refl
  offset-agree n (suc p) h = omega (arith, offset-agree n p h, count-agree p n h)

  pub slot-agree : (n j : ℕ) → ((i : ℕ) → i < n → f i ≡ g i) → j < n → slot f n j ≡ slot g n j
  unfolding slot
  slot-agree n j h lt =
      ground
        (arith, h j lt, offset-agree n (f j) h, count-agree (f j) j (λ i less. h i (omega arith)))

-- Every place of a block is the slot of a message for that partition.
pub count-onto :
    (dest : ℕ → ℕ) (p k c : ℕ)
    → c < count dest p k
    → (j : ℕ) × (j < k) × (dest j ≡ p) × (count dest p j ≡ c)
unfolding count
count-onto dest p zero c h = absurd (omega arith)
count-onto dest p (suc k) c h = elim (Bool-cases (dest k == p)) [
  | inl hit ↦ elim (Bool-cases (c == count dest p k)) [
    | inl last ↦ (k, omega arith, ground arith, ground arith)
    | inr other ↦ let (j, lt, e, f) = count-onto dest p k c (ground arith) in (j, omega arith, e, f)
  ]
  | inr miss ↦ let (j, lt, e, f) = count-onto dest p k c (ground arith) in (j, omega arith, e, f)
]

pub slot-onto :
    (dest : ℕ → ℕ) (n p i : ℕ)
    → offset dest n p ≤ i
    → i < offset dest n (suc p)
    → (j : ℕ) × (j < n) × (dest j ≡ p) × (slot dest n j ≡ i)
unfolding slot sum_below
slot-onto dest n p i from below =
    let (j, lt, e, c) = count-onto dest p n (i - offset dest n p) (omega arith) in
    (j, lt, e, rw e (omega arith))

-- What no message goes to has no count.
pub count-none : (at : ℕ → ℕ) (i k : ℕ) → ((j : ℕ) → j < k → at j ≢ i) → count at i k ≡ 0
unfolding count
count-none at i zero away = refl
count-none at i (suc k) away =
    ground (arith, away k (omega arith), count-none at i k (λ j lt. away j (omega arith)))

-- ===== src/Bloom/Capacity.antt =====
-- include/hash.hpp, cal_hash_table_capacity and create: the loop that doubles the capacity.
use flashmob.Prelude.{
  ℕ, zero, suc, ◌+◌, ◌-◌, ◌*◌, ◌/◌, ◌^◌, ◌≤◌, ◌<◌, ◌≡◌, ◌⊎◌, inl, inr, refl, ap, arith, some, true,
  false, leb, Bool-cases, ◌∙◌,
}
use native.Mathlib.Nat.{two-pow-succ, pow-zero}
use flashmob.Prelude.Words.{u64, sub64, sub64_small}
use flashmob.Bloom.{BloomFilter, grow, cal_hash_table_capacity, empty, create, get_hash}
use flashmob.Bloom.Member.{get_hash-le}

-- What the loop returns from a capacity `start`.
pub record IsCapacity (item_num start r : ℕ) : Type 0 where
  pub exponent : ℕ
  pub power : r ≡ start * 2 ^ exponent
  pub above : item_num / 4 < r
  pub tight : (r ≡ start) ⊎ (r ≤ 2 * (item_num / 4))

grow_stops :
    (fuel item_num start : ℕ)
    → leb start (item_num / 4) ≡ false
    → grow (suc fuel) item_num start ≡ some start
unfolding grow
grow_stops fuel item_num start h = rw h

grow_doubles :
    (fuel item_num start : ℕ)
    → leb start (item_num / 4) ≡ true
    → start * 2 < 2 ^ 64
    → grow (suc fuel) item_num start ≡ grow fuel item_num (start * 2)
unfolding grow
grow_doubles fuel item_num start h small =
    let e : u64 (start * 2) ≡ start * 2 = omega arith in rw (h, e)

grow_total :
    (fuel item_num start : ℕ)
    → item_num < 2 ^ 64
    → 0 < start
    → item_num / 4 < start * 2 ^ fuel
    → (r : ℕ) × (grow (suc fuel) item_num start ≡ some r) × IsCapacity item_num start r
grow_total zero item_num start small pos h = (
  start,
  grow_stops 0 item_num start (ground (arith, pow-zero 2)),
  record {
    exponent = 0;
    power = omega (arith, pow-zero 2);
    above = omega (arith, pow-zero 2);
    tight = inl refl;
  },
)
grow_total (suc fuel) item_num start small pos h = elim (Bool-cases (leb start (item_num / 4))) [
  | inr done ↦ (
    start,
    grow_stops (suc fuel) item_num start done,
    record {
      exponent = 0;
      power = omega (arith, pow-zero 2);
      above = ground arith;
      tight = inl refl;
    },
  )
  | inl more ↦
      let (r, e, k) =
        grow_total fuel item_num (start * 2) small (omega arith)
          (omega (arith, ap (λ (t : ℕ). start * t) (two-pow-succ fuel))) in
      (
        r,
        grow_doubles (suc fuel) item_num start more (ground arith) ∙ e,
        record {
          exponent = suc k.exponent;
          power = omega (arith, k.power, ap (λ (t : ℕ). start * t) (two-pow-succ k.exponent));
          above = k.above;
          tight = inr (ground (arith, k.tight));
        },
      )
]

pub cal_hash_table_capacity_total :
    (item_num : ℕ)
    → item_num < 2 ^ 64
    → (r : ℕ) × (cal_hash_table_capacity item_num ≡ some r) × IsCapacity item_num 4 r
unfolding cal_hash_table_capacity
cal_hash_table_capacity_total item_num small =
    grow_total 63 item_num 4 small (omega arith) (omega arith)

-- The loop ends for every number of items in 64 bits, and `create` makes a table.
pub create-some :
    (item_num : ℕ) (blank : ℕ → ℕ)
    → item_num < 2 ^ 64
    → (bf : BloomFilter) × (create item_num blank ≡ some bf)
unfolding create
create-some item_num blank small =
    let (r, e, _) = cal_hash_table_capacity_total item_num small in
    (empty r blank, rw (e, create) refl)

-- A table of a power of two of 64-bit words, all zero, whose size does not wrap, and in which every
-- hashed place is.
pub record IsTable (capacity : ℕ) (bf : BloomFilter) : Type 0 where
  pub mask : bf.hash_bitmask ≡ capacity - 1
  pub size : bf.sz ≡ 8 * capacity
  pub fits : (x : ℕ) → 8 * get_hash bf.hash_bitmask x + 8 ≤ bf.sz
  pub zero_at : (x : ℕ) → bf.table (get_hash bf.hash_bitmask x) ≡ 0

empty-IsTable :
    (capacity : ℕ) (blank : ℕ → ℕ)
    → 0 < capacity
    → 8 * capacity < 2 ^ 64
    → IsTable capacity (empty capacity blank)
unfolding empty
empty-IsTable capacity blank pos small = record {
  mask = mask_is;
  size = size_is;
  fits = λ x. omega (arith, below x, size_is);
  zero_at = λ x. ground (arith, below x, size_is);
}
  where
    mask_is : sub64 capacity 1 ≡ capacity - 1
    mask_is = sub64_small capacity 1 (omega arith) (omega arith)

    size_is : u64 (8 * capacity) ≡ 8 * capacity
    size_is = omega arith

    below : (x : ℕ) → get_hash (sub64 capacity 1) x < capacity
    below x = omega (arith, get_hash-le (empty capacity blank) x, mask_is)

-- For fewer than 2 ^ 62 items, whatever the new memory holds: `create` succeeds, with the capacity
-- of cal_hash_table_capacity, which is 4 times a power of two, above a quarter of the items, and
-- either 4 or at most twice that quarter. The mask is the capacity less one, the size is 8 bytes
-- for each word and does not wrap, and every place that is hashed to is in the table and holds
-- zero.
pub create_total :
    (item_num : ℕ) (blank : ℕ → ℕ)
    → item_num < 2 ^ 62
    → (capacity : ℕ) × (bf : BloomFilter) × (create item_num blank ≡ some bf)
      × (cal_hash_table_capacity item_num ≡ some capacity)
      × IsCapacity item_num 4 capacity
      × IsTable capacity bf
unfolding create
create_total item_num blank small =
    let (r, e, k) = cal_hash_table_capacity_total item_num (omega arith) in
    (
      r,
      empty r blank,
      rw (e, create) refl,
      e,
      k,
      empty-IsTable r blank (ground (arith, k.above)) (ground (arith, k.tight)),
    )

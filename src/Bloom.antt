-- ===== src/Bloom.antt =====
-- include/hash.hpp, class BloomFilter, over 64-bit words. `data[i]` of `get_bloom` is the i-th
-- 16-bit word of `n` in memory, lowest first as on the x86 machines that the program is for.
pub mod Member
pub mod Capacity
use Prim.Native.Nat.{bit_and, bit_or, bit_xor}
use flashmob.Prelude.{
  ℕ, zero, suc, ◌+◌, ◌-◌, ◌*◌, ◌/◌, ◌%◌, ◌^◌, ◌≡◌, Bool, Option, none, some, write, ltb, leb, ◌==◌,
  if◌then◌else◌, List, [], ◌∷◌,
}
use flashmob.Prelude.Words.{u64, add32, sub64}

pub record BloomFilter : Type 0 where
  pub hash_bitmask : ℕ
  pub table : ℕ → ℕ
  pub sz : ℕ

-- x ^ (x >> k)
xor_shift : ℕ → ℕ → ℕ
xor_shift x k = bit_xor x (x / 2 ^ k)

mix : ℕ → ℕ
unfolding xor_shift
mix x =
    let a = u64 (xor_shift x 30 * 0xbf58476d1ce4e5b9) in
    let b = u64 (xor_shift a 27 * 0x94d049bb133111eb) in xor_shift b 31

pub get_hash : ℕ → ℕ → ℕ
unfolding mix
get_hash hash_bitmask x = bit_and (mix x) hash_bitmask

-- The body of the loop of `get_bloom`: sum1, sum2 and res.
pub record Sums : Type 0 where
  pub sum1 : ℕ
  pub sum2 : ℕ
  pub res : ℕ

pub bloom_step : ℕ → Sums → Sums
bloom_step word s =
    let sum1 = add32 s.sum1 word % 65535 in
    let sum2 = add32 s.sum2 sum1 % 65535 in
    record { sum1 = sum1; sum2 = sum2; res = bit_or s.res (2 ^ bit_and sum2 63) }

word_of : ℕ → ℕ → ℕ
word_of n i = n / 2 ^ (16 * i) % 2 ^ 16

pub get_bloom : ℕ → ℕ
unfolding bloom_step word_of
get_bloom n =
    let s : Sums = record { sum1 = 0; sum2 = 0; res = 0 } in
    (bloom_step (word_of n 3)
      (bloom_step (word_of n 2) (bloom_step (word_of n 1) (bloom_step (word_of n 0) s)))).res

-- ((uint64_t) v1 << 32) | v2, the smaller of the two first.
pub get_value : ℕ → ℕ → ℕ
get_value v1 v2 = if ltb v2 v1 then bit_or (u64 (v2 * 2 ^ 32)) v1 else bit_or (u64 (v1 * 2 ^ 32)) v2

-- while (ht_capacity <= item_num / 4) ht_capacity *= 2;  `none` if the fuel runs out.
pub grow : ℕ → ℕ → ℕ → Option ℕ
grow zero item_num ht_capacity = none
grow (suc fuel) item_num ht_capacity =
    let rest = grow fuel item_num (u64 (ht_capacity * 2)) in
    if leb ht_capacity (item_num / 4) then rest else some ht_capacity

-- 64 rounds are enough: see `Capacity`.
pub cal_hash_table_capacity : ℕ → Option ℕ
unfolding grow
cal_hash_table_capacity item_num = grow 64 item_num 4

pub cal_hash_table_size : ℕ → Option ℕ
unfolding cal_hash_table_capacity
cal_hash_table_size item_num = elim (cal_hash_table_capacity item_num) [
  | none ↦ none
  | some capacity ↦ some (u64 (8 * capacity))
]

-- `create` from the capacity: the table has as many bytes as 8 * ht_capacity in 64 bits, which
-- are set to zero; `blank` is what stands in memory behind them.
pub empty : ℕ → (ℕ → ℕ) → BloomFilter
empty ht_capacity blank = record {
  hash_bitmask = sub64 ht_capacity 1;
  table = λ i. if leb (8 * i + 8) (u64 (8 * ht_capacity)) then 0 else blank i;
  sz = u64 (8 * ht_capacity);
}

pub create : ℕ → (ℕ → ℕ) → Option BloomFilter
unfolding cal_hash_table_capacity empty
create item_num blank = elim (cal_hash_table_capacity item_num) [
  | none ↦ none
  | some capacity ↦ some (empty capacity blank)
]

-- __sync_fetch_and_or(&table[get_hash(value)], get_bloom(value))
pub insert : ℕ → ℕ → BloomFilter → BloomFilter
unfolding get_hash get_bloom get_value
insert v1 v2 bf =
    let value = get_value v1 v2 in
    let place = get_hash bf.hash_bitmask value in
    record bf { table = write bf.table place (bit_or (bf.table place) (get_bloom value)) }

pub exist : ℕ → ℕ → BloomFilter → Bool
unfolding get_hash get_bloom get_value
exist v1 v2 bf =
    let value = get_value v1 v2 in
    let bloom = get_bloom value in
    bloom == bit_and (bf.table (get_hash bf.hash_bitmask value)) bloom

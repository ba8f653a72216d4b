-- ===== src/Bloom/Member.antt =====
-- include/hash.hpp: insert and exist together.
use flashmob.Prelude.{ℕ, ◌≤◌, ◌≡◌, arith, true, write}
use flashmob.Prelude.Bits.{or_keeps, or_sets, and-le_mask}
use flashmob.Bloom.{BloomFilter, get_hash, get_bloom, get_value, insert, exist}

-- The pair is read without regard to its order.
pub get_value_comm : (v1 v2 : ℕ) → get_value v1 v2 ≡ get_value v2 v1
unfolding get_value
get_value_comm v1 v2 = ground arith

pub exist_comm : (v1 v2 : ℕ) (bf : BloomFilter) → exist v1 v2 bf ≡ exist v2 v1 bf
unfolding exist
exist_comm v1 v2 bf = rw (get_value_comm v1 v2)

-- A pair is found after its insertion, whatever the filter held before.
pub exist-insert_self : (v1 v2 : ℕ) (bf : BloomFilter) → exist v1 v2 (insert v1 v2 bf) ≡ true
unfolding exist insert write
exist-insert_self v1 v2 bf = ground (
  arith,
  or_sets (bf.table (get_hash bf.hash_bitmask (get_value v1 v2))) (get_bloom (get_value v1 v2)),
)

-- A pair that is found is still found after the insertion of any other pair.
pub exist-insert :
    (v1 v2 w1 w2 : ℕ) (bf : BloomFilter)
    → exist v1 v2 bf ≡ true
    → exist v1 v2 (insert w1 w2 bf) ≡ true
unfolding exist insert write
exist-insert v1 v2 w1 w2 bf h = ground (
  arith,
  or_keeps (bf.table (get_hash bf.hash_bitmask (get_value v1 v2))) (get_bloom (get_value v1 v2))
      (get_bloom (get_value w1 w2)),
)

-- The place of a pair is within the mask.
pub get_hash-le : (bf : BloomFilter) (x : ℕ) → get_hash bf.hash_bitmask x ≤ bf.hash_bitmask
unfolding get_hash
get_hash-le bf x = and-le_mask _ bf.hash_bitmask

-- ===== src/Partition/Estimate.antt =====
-- src/core/partition.hpp, estimate_epoch_walker: its rounded divisions and their result.
use flashmob.Prelude.{ℕ, ◌+◌, ◌-◌, ◌*◌, ◌/◌, ◌^◌, ◌≤◌, ◌<◌, ◌≡◌, refl, arith, min, some}
use native.Mathlib.Nat.{div-mul-le_self, lt-div-mul-add}
use flashmob.Prelude.Words.{add64, sub64, add64_small, sub64_small, mul_add-le}
use flashmob.Partition.{
  int_size, per_walker_cost, divide, round_up, cal_max_active_walker_num, cal_epoch_num,
  cal_max_epoch_walker_num, used_size, estimate_within, estimate_epoch_walker,
}

divide_pos : (a b : ℕ) → 0 < b → divide a b ≡ some (a / b)
unfolding divide
divide_pos a b pos = ground arith

-- The least q with a ≤ q * b.
record IsCeiling (a b q : ℕ) : Type 0 where
  pub covers : a ≤ q * b
  pub tight : q * b < a + b

round_up_lem :
    (a b : ℕ) → 0 < b → a + b < 2 ^ 64 → (q : ℕ) × (round_up a b ≡ some q) × IsCeiling a b q
unfolding round_up
round_up_lem a b pos small =
    let sum : sub64 (add64 a b) 1 ≡ a + b - 1 = omega (
      arith,
      add64_small a b small,
      sub64_small (add64 a b) 1 (omega (arith, add64_small a b small))
          (omega (arith, add64_small a b small)),
    ) in
    (
      (a + b - 1) / b,
      rw (sum, divide_pos (a + b - 1) b pos),
      record {
        covers = omega (arith, lt-div-mul-add {a = a + b - 1} {b = b} pos);
        tight = omega (arith, div-mul-le_self (a + b - 1) b);
      },
    )

ceiling_pos : (a b q : ℕ) → 0 < a → IsCeiling a b q → 0 < q
ceiling_pos a b q pos c = grind (arith, c.covers)

-- Dividing evenly into e parts, where e parts of t suffice, gives parts of at most t.
even-le : (w t e r : ℕ) → 0 < e → IsCeiling w t e → IsCeiling w e r → r ≤ t
even-le w t e r pos c d = grind (arith, c.covers, d.tight, mul_add-le t r e)

ceiling-le : (w t e : ℕ) → 0 < t → 0 < w → IsCeiling w t e → e ≤ w
ceiling-le w t e t_pos w_pos c = grind (arith, c.tight, mul_add-le w e t)

record IsEpochSize (walker_num max_active r : ℕ) : Type 0 where
  pub positive : 0 < r
  pub within_walkers : r ≤ walker_num
  pub within_memory : r ≤ max_active

-- The walkers are divided evenly over as few epochs as the memory allows.
cal_max_epoch_walker_num_lem :
    (walker_num max_active : ℕ)
    → 0 < walker_num
    → walker_num < 2 ^ 63
    → 0 < max_active
    → (r : ℕ) × (cal_max_epoch_walker_num walker_num max_active ≡ some r)
      × IsEpochSize walker_num max_active r
unfolding cal_max_epoch_walker_num cal_epoch_num
cal_max_epoch_walker_num_lem w m w_pos small m_pos =
    let t = min m w in
    let t_pos : 0 < t = omega arith in
    let (e, at_e, c) = round_up_lem w t t_pos (omega arith) in
    let e_pos : 0 < e = ceiling_pos w t e w_pos c in
    let e-le : e ≤ w = ceiling-le w t e t_pos w_pos c in
    let (r, at_r, d) = round_up_lem w e e_pos (omega (arith, e-le, small)) in
    (
      r,
      rw (at_e, at_r, cal_max_epoch_walker_num) refl,
      record {
        positive = ceiling_pos w e r w_pos d;
        within_walkers = omega (arith, even-le w t e r e_pos c d);
        within_memory = omega (arith, even-le w t e r e_pos c d);
      },
    )

-- The cost of a walker is as meant when the `int` does not overflow.
per_walker_cost_lem :
    (walk_len : ℕ) → walk_len * 2 + 3 < 2 ^ 31 → per_walker_cost walk_len ≡ 4 * (walk_len * 2 + 3)
unfolding per_walker_cost int_size
per_walker_cost_lem walk_len small = ground arith

one_share : (a b : ℕ) → 0 < b → b ≤ a → 0 < a / b
one_share a b pos le = grind (arith, lt-div-mul-add {a = a} {b = b} pos)

share-le : (r q cost free : ℕ) → r ≤ q → q * cost ≤ free → r * cost ≤ free
share-le r q cost free h le = grind arith

estimate_within_lem :
    (walker_num walk_len mem_quota used free active r : ℕ)
    → sub64 mem_quota used ≡ free
    → divide free (per_walker_cost walk_len) ≡ some active
    → cal_max_epoch_walker_num walker_num active ≡ some r
    → estimate_within walker_num walk_len mem_quota used ≡ some (min r (2 ^ 32 - 2))
unfolding estimate_within cal_max_active_walker_num
estimate_within_lem walker_num walk_len mem_quota used free active r e f h = rw (e, f, h)

estimate_lem :
    (vertex_num edge_num buffer_edge_num walker_num walk_len socket_num mem_quota other_size r : ℕ)
    → used_size vertex_num edge_num buffer_edge_num socket_num other_size < mem_quota
    → estimate_within walker_num walk_len mem_quota
        (used_size vertex_num edge_num buffer_edge_num socket_num other_size)
      ≡ some r
    → estimate_epoch_walker vertex_num edge_num buffer_edge_num walker_num walk_len socket_num
        mem_quota other_size
      ≡ some r
unfolding estimate_epoch_walker
estimate_lem _ _ _ _ _ _ _ _ r lt e = ground arith

-- The memory that the epoch takes: what is used already and each walker's share.
module _
    (vertex_num edge_num buffer_edge_num walker_num walk_len socket_num mem_quota
      other_size : ℕ) where
  abbrev pub used : ℕ
  used = used_size vertex_num edge_num buffer_edge_num socket_num other_size

  -- With at least one and fewer than 2 ^ 63 walkers, walks so short that the cost of a walker in
  -- words is below 2 ^ 31, a quota in 64 bits, and memory within it for one walker more than what
  -- is used: the estimate is made. It is between 1 and the number of walkers, below 2 ^ 32, and
  -- what is used and the words of so many walkers, walk_len * 2 + 3 for each, are within the
  -- quota.
  pub estimate_epoch_walker_bounds :
      0 < walker_num
      → walker_num < 2 ^ 63
      → walk_len * 2 + 3 < 2 ^ 31
      → mem_quota < 2 ^ 64
      → used + 4 * (walk_len * 2 + 3) ≤ mem_quota
      → (r : ℕ) × (estimate_epoch_walker vertex_num edge_num buffer_edge_num walker_num walk_len
            socket_num mem_quota other_size
          ≡ some r)
        × (0 < r)
        × (r ≤ walker_num)
        × (r < 2 ^ 32)
        × (used + r * (4 * (walk_len * 2 + 3)) ≤ mem_quota)
  estimate_epoch_walker_bounds pos w_small len_small quota_small enough =
      let cost = 4 * (walk_len * 2 + 3) in
      let cost_is = per_walker_cost_lem walk_len len_small in
      let cost_pos : 0 < cost = omega arith in
      let free : sub64 mem_quota used ≡ mem_quota - used =
        sub64_small mem_quota used (omega arith) quota_small in
      let active_pos : 0 < (mem_quota - used) / cost =
        one_share (mem_quota - used) cost cost_pos (omega arith) in
      let (r, e, k) =
        cal_max_epoch_walker_num_lem walker_num ((mem_quota - used) / cost) pos w_small
          active_pos in
      (
        min r (2 ^ 32 - 2),
        estimate_lem vertex_num edge_num buffer_edge_num walker_num walk_len socket_num mem_quota
            other_size _ (omega (arith, cost_pos))
            (estimate_within_lem walker_num walk_len mem_quota used (mem_quota - used)
              ((mem_quota - used) / cost) r free
              (rw cost_is (divide_pos (mem_quota - used) cost cost_pos)) e),
        omega (arith, k.positive),
        omega (arith, k.within_walkers),
        omega arith,
        omega (
          arith,
          share-le (min r (2 ^ 32 - 2)) ((mem_quota - used) / cost) cost (mem_quota - used)
              (omega (arith, k.within_memory)) (div-mul-le_self (mem_quota - used) cost),
        ),
      )

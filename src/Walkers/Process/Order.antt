-- ===== src/Walkers/Process/Order.antt =====
-- src/core/walker.hpp, process_walkers: a thread comes to each state once, first to its own.
use flashmob.Prelude.{
  ℕ, zero, suc, ◌+◌, ◌-◌, ◌*◌, ◌/◌, ◌%◌, ◌≤◌, ◌<◌, ◌≡◌, sym, ◌∙◌, ap, arith, ◌==◌, true, Bool-cases,
  ◌⊎◌, inl, inr,
}
use native.Mathlib.Decide.{dec_lt}
use native.Mathlib.Nat.{div-add-mod', mod-lt, mod-eq_of_lt, mod-eq-sub-mod, div-eq_of_lt, add-zero}
use flashmob.Prelude.Words.{mul_add-le}
use flashmob.Threads.Places.{div-lt}
use flashmob.Message.Counts.{count, count-none}
use flashmob.Walkers.Process.{target}

-- A turn by less than n around n places.
around :
    (n a s : ℕ)
    → a < n
    → s < n
    → ((a + s) % n ≡ a + s) × (a + s < n) ⊎ ((a + s) % n ≡ a + s - n) × (n ≤ a + s)
around n a s a_lt s_lt = elim (dec_lt (a + s) n) [
  | yes lt ↦ inl (mod-eq_of_lt lt, lt)
  | no ge ↦ inr (
    mod-eq-sub-mod (let h : n ≤ a + s = omega arith in h)
        ∙ mod-eq_of_lt (let h : a + s - n < n = omega arith in h),
    omega arith,
  )
]

around-injective : (n a s s' : ℕ) → a < n → s < n → s' < n → (a + s) % n ≡ (a + s') % n → s ≡ s'
around-injective n a s s' a_lt s_lt s'_lt e =
    ground (arith, around n a s a_lt s_lt, around n a s' a_lt s'_lt)

order-cases : (x x' : ℕ) → (x < x') ⊎ (x ≡ x') ⊎ (x' < x)
order-cases x x' = elim (dec_lt x x') [
  | yes h ↦ inl h
  | no h ↦ elim (dec_lt x' x) [ yes k ↦ inr (inr k) | no k ↦ inr (inl (omega arith)) ]
]

row-injective : (n x y x' y' : ℕ) → y < n → y' < n → x * n + y ≡ x' * n + y' → (x ≡ x') × (y ≡ y')
row-injective n x y x' y' lt lt' e = elim (order-cases x x') [
  | inl less ↦ absurd (omega (arith, mul_add-le x x' n less, e))
  | inr (inl same) ↦ (same, omega (arith, e, ap (λ z. z * n) same))
  | inr (inr more) ↦ absurd (omega (arith, mul_add-le x' x n more, e))
]

module _ (socket_num each t : ℕ) (t_lt : t < socket_num * each) where
  each_pos : 0 < each
  each_pos = grind arith

  pub target-lt : (k : ℕ) → target socket_num each t k < socket_num * each
  unfolding target
  target-lt k =
      let socket = mod-lt (t / each + k / each) {m = socket_num} sockets_pos in
      omega (
        arith,
        mod-lt (t % each + k % each) each_pos,
        mul_add-le ((t / each + k / each) % socket_num) socket_num each socket,
      )
    where
      sockets_pos : 0 < socket_num
      sockets_pos = grind arith

  -- The first state is the thread's own.
  pub target-own : target socket_num each t 0 ≡ t
  unfolding target
  target-own =
      let socket : (t / each + 0 / each) % socket_num ≡ t / each =
        rw (div-eq_of_lt each_pos)
          (rw (add-zero (t / each)) (mod-eq_of_lt (div-lt t each socket_num each_pos t_lt))) in
      let place : (t % each + 0 % each) % each ≡ t % each =
        rw (mod-eq_of_lt each_pos, add-zero (t % each)) (mod-eq_of_lt (mod-lt t each_pos)) in
      rw (socket, place) (div-add-mod' t each)

  pub target-injective :
      (k l : ℕ)
      → k < socket_num * each
      → l < socket_num * each
      → target socket_num each t k ≡ target socket_num each t l
      → k ≡ l
  unfolding target
  target-injective k l k_lt l_lt e =
      let (sockets, places) =
        row-injective each _ _ _ _ (mod-lt (t % each + k % each) each_pos)
          (mod-lt (t % each + l % each) each_pos) e in
      let socket : k / each ≡ l / each =
        around-injective socket_num (t / each) (k / each) (l / each)
          (div-lt t each socket_num each_pos t_lt) (div-lt k each socket_num each_pos k_lt)
          (div-lt l each socket_num each_pos l_lt) sockets in
      let place : k % each ≡ l % each =
        around-injective each (t % each) (k % each) (l % each) (mod-lt t each_pos)
          (mod-lt k each_pos) (mod-lt l each_pos) places in
      sym (div-add-mod' k each) ∙ rw (socket, place) (div-add-mod' l each)

  -- No state is come to twice.
  pub visits-le_one : (j k : ℕ) → k ≤ socket_num * each → count (target socket_num each t) j k ≤ 1
  unfolding count
  visits-le_one j zero le = omega arith
  visits-le_one j (suc k) le = elim (Bool-cases (target socket_num each t k == j)) [
    | inr miss ↦ rw miss (visits-le_one j k (omega arith))
    | inl hit ↦
        let before = count-none (target socket_num each t) j k (λ i lt e.
          absurd (
            omega
              (arith, target-injective i k (omega arith) (omega arith) (e ∙ sym (hits hit))))) in
        rw (hit, before) (omega arith)
  ]
    where
      hits : {a b : ℕ} → (a == b) ≡ true → a ≡ b
      hits h = ground arith

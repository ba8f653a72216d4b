-- ===== src/Walkers/Process/Kept.antt =====
-- src/core/walker.hpp, process_walkers: what the operations of the threads keep, and the walkers
-- that are taken and not yet processed.
use flashmob.Prelude.{
  ℕ, zero, suc, ◌+◌, ◌*◌, ◌^◌, ◌≤◌, ◌<◌, ◌≡◌, ◌≢◌, inl, inr, refl, ap, arith, max, ltb, Bool, true,
  false, if◌then◌else◌, write, write_self, write_ne, lt_suc-cases, ◌∙◌,
}
use flashmob.Prelude.Loops.{sum_below}
use flashmob.Prelude.Words.{add32, add32_small}
use flashmob.Message.Counts.{count}
use flashmob.Walkers.Process.{
  Team, Phase, asking, claiming, processing, leaving, target, is_working, processed, chunk_size,
}
use flashmob.Walkers.Process.Order.{visits-le_one}

sum_below-same :
    (f g : ℕ → ℕ) (t m : ℕ) → m ≤ t → ((x : ℕ) → x ≢ t → g x ≡ f x) → sum_below g m ≡ sum_below f m
unfolding sum_below
sum_below-same f g t zero le same = refl
sum_below-same f g t (suc m) le same =
    omega
      (arith, sum_below-same f g t m (omega arith) same, same m (λ e. absurd (omega (arith, e))))

-- A sum of which one term changes.
pub sum_below-changed :
    (f g : ℕ → ℕ) (t m : ℕ)
    → t < m
    → ((x : ℕ) → x ≢ t → g x ≡ f x)
    → sum_below g m + f t ≡ sum_below f m + g t
unfolding sum_below
sum_below-changed f g t zero lt same = absurd (omega arith)
sum_below-changed f g t (suc m) lt same = elim (lt_suc-cases t m lt) [
  | inl at ↦ omega (arith, sum_below-same f g t m (omega arith) same, ap f at, ap g at)
  | inr less ↦
      omega (arith, sum_below-changed f g t m less same, same m (λ e. absurd (omega (arith, e))))
]

sum_below-le_num : (f : ℕ → ℕ) (m : ℕ) → ((x : ℕ) → x < m → f x ≤ 1) → sum_below f m ≤ m
unfolding sum_below
sum_below-le_num f zero one = omega arith
sum_below-le_num f (suc m) one =
    omega (arith, one m (omega arith), sum_below-le_num f m (λ x lt. one x (omega arith)))

pub sum_below-none : (f : ℕ → ℕ) (m : ℕ) → ((x : ℕ) → x < m → f x ≡ 0) → sum_below f m ≡ 0
unfolding sum_below
sum_below-none f zero none = refl
sum_below-none f (suc m) none =
    omega (arith, none m (omega arith), sum_below-none f m (λ x lt. none x (omega arith)))

-- How often a thread in this phase will process walker v before it asks again.
unfoldable pub pending : ℕ → Phase → ℕ
pending v asking = 0
pending v claiming = 0
pending v (processing w_i work_end) = if ltb v w_i then 0 else if ltb v work_end then 1 else 0
pending v leaving = 0

unfoldable pub is_leaving : Phase → Bool
is_leaving asking = false
is_leaving claiming = false
is_leaving (processing w_i work_end) = false
is_leaving leaving = true

unfoldable pub is_asking : Phase → Bool
is_asking asking = true
is_asking claiming = false
is_asking (processing w_i work_end) = false
is_asking leaving = false

pub pending-asking : (v : ℕ) (p : Phase) → is_asking p ≡ true → pending v p ≡ 0
unfolding pending is_asking
pending-asking v asking e = refl
pending-asking v claiming e = refl
pending-asking v (processing w_i work_end) e = absurd (ground arith)
pending-asking v leaving e = refl

module _ (socket_num each : ℕ) (begins ends : ℕ → ℕ) where
  abbrev pub num : ℕ
  num = socket_num * each

  -- How often a thread has left the state j.
  abbrev pub visits : (ℕ → ℕ) → ℕ → ℕ
  visits round j = sum_below (λ t. count (target socket_num each t) j (round t)) num

  abbrev pub top : ℕ → ℕ
  top j = max (begins j) (ends j + 63)

  -- How often walker v will be processed from the chunks that are taken.
  abbrev pub in_hand : ℕ → (ℕ → Phase) → ℕ
  in_hand v phase = sum_below (λ t. pending v (phase t)) num

  -- How many states thread t has left, the one whose loop it is behind among them.
  abbrev pub gone : (ℕ → ℕ) → (ℕ → Phase) → ℕ → ℕ
  gone round phase t = if is_leaving (phase t) then suc (round t) else round t

  -- The ranges of the threads lie apart, and their ends leave room for what threads add too much.
  pub record IsSplit : Type 0 where
    pub apart : (j k : ℕ) → j < k → k < num → ends j ≤ begins k
    pub room : (j : ℕ) → j < num → top j + 64 * (num + 1) < 2 ^ 32

  -- A counter passes its end at most once for each thread.
  pub record IsRoomy (s : Team) : Type 0 where
    pub gone-le : (t : ℕ) → t < num → gone s.round s.phase t ≤ num
    pub to : (j : ℕ) → j < num → (s.states j).curr ≤ top j + 64 * visits (gone s.round s.phase) j

  pub record IsKept (s : Team) : Type 0 where
    pub end_is : (j : ℕ) → j < num → (s.states j).end ≡ ends j
    pub from : (j : ℕ) → j < num → begins j ≤ (s.states j).curr
    pub done :
        (j : ℕ) → j < num → is_working (s.states j).status ≡ false → ends j ≤ (s.states j).curr
    pub left : (j : ℕ) → j < num → 0 < s.round j → ends j ≤ (s.states j).curr
    pub leaves :
        (t : ℕ)
        → t < num
        → is_leaving (s.phase t) ≡ true
        → ends (target socket_num each t (s.round t))
          ≤ (s.states (target socket_num each t (s.round t))).curr
    -- A thread behind its loops has nothing in hand.
    pub ended : (t : ℕ) → t < num → num ≤ s.round t → is_asking (s.phase t) ≡ true
    -- The walkers before the counter are processed or in hand, once; the others not yet.
    pub once :
        (j v : ℕ)
        → j < num
        → begins j ≤ v
        → v < ends j
        → processed v s.calls + in_hand v s.phase ≡ (if ltb v (s.states j).curr then 1 else 0)
    pub outside :
        (v : ℕ)
        → ((j : ℕ) → j < num → begins j ≤ v → ends j ≤ v)
        → processed v s.calls + in_hand v s.phase ≡ 0

  pub in_hand-write :
      (v t : ℕ) (phase : ℕ → Phase) (p : Phase)
      → t < num
      → in_hand v (write phase t p) + pending v (phase t) ≡ in_hand v phase + pending v p
  in_hand-write v t phase p lt =
      sum_below-changed (λ x. pending v (phase x)) (λ x. pending v (write phase t p x)) t num lt
        (λ x ne. ap (pending v) (write_ne phase t p x ne))
      ∙ ap (λ x. in_hand v phase + pending v x) (write_self phase t p)

  visits-le : (s : Team) (j : ℕ) → IsRoomy s → visits (gone s.round s.phase) j ≤ num
  visits-le s j r =
      sum_below-le_num (λ t. count (target socket_num each t) j (gone s.round s.phase t)) num
        (λ t lt. visits-le_one socket_num each t lt j (gone s.round s.phase t) (r.gone-le t lt))

  -- The counters do not wrap.
  pub no_wrap :
      (s : Team) (j : ℕ)
      → IsSplit
      → IsRoomy s
      → j < num
      → add32 (s.states j).curr chunk_size ≡ (s.states j).curr + 64
  no_wrap s j split r lt =
      add32_small (s.states j).curr 64 (omega (arith, r.to j lt, split.room j lt, visits-le s j r))

  -- One visit more, or none.
  pub visits-changed :
      (f g : ℕ → ℕ) (t j : ℕ)
      → t < num
      → ((x : ℕ) → x ≢ t → g x ≡ f x)
      → visits g j + count (target socket_num each t) j (f t)
        ≡ visits f j + count (target socket_num each t) j (g t)
  visits-changed f g t j lt same =
      sum_below-changed (λ x. count (target socket_num each x) j (f x))
        (λ x. count (target socket_num each x) j (g x)) t num lt
        (λ x ne. ap (count (target socket_num each x) j) (same x ne))

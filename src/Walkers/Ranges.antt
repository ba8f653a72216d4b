-- ===== src/Walkers/Ranges.antt =====
-- src/core/walker.hpp, WalkerManager::init: the ranges of the sockets and threads.
use flashmob.Prelude.{
  ℕ, zero, suc, ◌+◌, ◌-◌, ◌*◌, ◌/◌, ◌%◌, ◌≤◌, ◌<◌, ◌≡◌, refl, subst, ap, arith, min, List, [], ◌∷◌,
  map, All, length, length-append, length-map,
}
use native.Mathlib.Nat.{div-mul-le_self, lt-div-mul-add}
use flashmob.Graph.{GroupTable}
use flashmob.Manager.{Chain}
use flashmob.Manager.Ranges.{Chain-append}
use flashmob.Walkers.{
  Range, split, page_walker_num, socket_ranges, thread_ranges, new_task, socket_tasks, init_tasks,
}

abbrev pub RangeChain : ℕ → List Range → ℕ → Type 0
RangeChain lo [] hi = lo ≡ hi
RangeChain lo (r ∷ rs) hi = (r.first ≡ lo) × (lo ≤ r.last) × RangeChain r.last rs hi

pub split-RangeChain :
    (count hint begin remain : ℕ)
    → 0 < count
    → RangeChain begin (split count hint begin remain) (begin + remain)
unfolding split
split-RangeChain zero hint begin remain h = absurd (omega arith)
split-RangeChain (suc zero) hint begin remain h = (refl, omega arith, refl)
split-RangeChain (suc (suc count)) hint begin remain h =
    let e : begin + min hint remain + (remain - min hint remain) ≡ begin + remain = omega arith in
    (
      refl,
      omega arith,
      rw (← e) (
          split-RangeChain (suc count) hint (begin + min hint remain) (remain - min hint remain)
            (omega arith)),
    )

pub length-split : (count hint begin remain : ℕ) → length (split count hint begin remain) ≡ count
unfolding split
length-split zero hint begin remain = refl
length-split (suc zero) hint begin remain = refl
length-split (suc (suc count)) hint begin remain =
    ap suc (length-split (suc count) hint (begin + min hint remain) (remain - min hint remain))

mul_le_swap : (x a k : ℕ) → x ≤ a → k * x ≤ a * k
mul_le_swap x a k le = grind arith

scaled : (a sockets : ℕ) → sockets * (a / 2048 * 2048) ≤ a * sockets
scaled a sockets = mul_le_swap (a / 2048 * 2048) a sockets (omega (arith, div-mul-le_self a 2048))

div-pos_of : (threads sockets : ℕ) → 0 < sockets → sockets ≤ threads → 0 < threads / sockets
div-pos_of threads sockets pos le = grind (arith, lt-div-mul-add {a = threads} {b = sockets} pos)

-- With enough walkers for the hints, every range begins at a page.
split-aligned :
    (count hint begin remain : ℕ)
    → count * hint ≤ remain
    → hint % 2048 ≡ 0
    → begin % 2048 ≡ 0
    → All (λ (r : Range). r.first % 2048 ≡ 0) (split count hint begin remain)
unfolding split
split-aligned zero hint begin remain le h b = tt
split-aligned (suc zero) hint begin remain le h b = (b, tt)
split-aligned (suc (suc count)) hint begin remain le h b =
    let e : min hint remain ≡ hint = omega arith in
    (
      b,
      rw e (
          split-aligned (suc count) hint (begin + hint) (remain - hint) (omega arith) h
            (omega arith)),
    )

-- The range of every socket begins at a multiple of the walkers of a page.
pub socket_ranges-aligned :
    (m sockets : ℕ) → All (λ (r : Range). r.first % page_walker_num ≡ 0) (socket_ranges m sockets)
unfolding socket_ranges
socket_ranges-aligned m sockets =
    split-aligned sockets _ 0 m
      (omega (arith, div-mul-le_self m sockets, scaled (m / sockets) sockets)) (omega arith) refl

tasks-Chain :
    (graph : GroupTable) (pn socket lo hi : ℕ) (rs : List Range)
    → RangeChain lo rs hi
    → Chain lo (map (new_task graph pn socket) rs) hi
unfolding new_task
tasks-Chain graph pn socket lo hi [] c = c
tasks-Chain graph pn socket lo hi (r ∷ rs) c = (c.0, c.1, tasks-Chain graph pn socket _ hi rs c.2)

socket_tasks-Chain :
    (graph : GroupTable) (pn m threads sockets socket lo hi : ℕ) (rs : List Range)
    → 0 < threads / sockets
    → RangeChain lo rs hi
    → Chain lo (socket_tasks graph pn m threads sockets socket rs) hi
unfolding socket_tasks thread_ranges
socket_tasks-Chain graph pn m threads sockets socket lo hi [] pos c = c
socket_tasks-Chain graph pn m threads sockets socket lo hi (r ∷ rs) pos c =
    Chain-append lo r.last hi _ _
      (tasks-Chain graph pn socket lo r.last _ (
        let e : r.first + (r.last - r.first) ≡ r.last = omega (arith, c.0, c.1) in
        subst (λ x. RangeChain x (thread_ranges m threads sockets r) r.last) c.0
          (subst (λ x. RangeChain r.first (thread_ranges m threads sockets r) x) e
            (split-RangeChain (threads / sockets) _ r.first (r.last - r.first) pos))))
      (socket_tasks-Chain graph pn m threads sockets (suc socket) r.last hi rs pos c.2)

-- With at least one thread for each of one or more sockets, the ranges of the tasks follow one
-- another from walker 0 to the last, so that each walker is in one range.
pub init_tasks-Chain :
    (graph : GroupTable) (pn m threads sockets : ℕ)
    → 0 < sockets
    → sockets ≤ threads
    → Chain 0 (init_tasks graph pn m threads sockets) m
unfolding init_tasks socket_ranges
init_tasks-Chain graph pn m threads sockets pos le =
    let e : 0 + m ≡ m = omega arith in
    socket_tasks-Chain graph pn m threads sockets 0 0 m _ (div-pos_of threads sockets pos le)
      (subst (λ x. RangeChain 0 (socket_ranges m sockets) x) e (split-RangeChain sockets _ 0 m pos))

socket_tasks-length :
    (graph : GroupTable) (pn m threads sockets socket : ℕ) (rs : List Range)
    → length (socket_tasks graph pn m threads sockets socket rs) ≡ length rs * (threads / sockets)
unfolding socket_tasks thread_ranges
socket_tasks-length graph pn m threads sockets socket [] = omega arith
socket_tasks-length graph pn m threads sockets socket (r ∷ rs) = omega (
  arith,
  length-append (map (new_task graph pn socket) (thread_ranges m threads sockets r))
      (socket_tasks graph pn m threads sockets (suc socket) rs),
  length-map (new_task graph pn socket) (thread_ranges m threads sockets r),
  length-split (threads / sockets) (m / threads / 32 * 32) r.first (r.last - r.first),
  socket_tasks-length graph pn m threads sockets (suc socket) rs,
)

pub length-init_tasks :
    (graph : GroupTable) (pn m threads sockets : ℕ)
    → length (init_tasks graph pn m threads sockets) ≡ sockets * (threads / sockets)
unfolding init_tasks socket_ranges
length-init_tasks graph pn m threads sockets = omega (
  arith,
  socket_tasks-length graph pn m threads sockets 0 (socket_ranges m sockets),
  ap (λ (x : ℕ). x * (threads / sockets)) (length-split sockets (m / sockets / 2048 * 2048) 0 m),
)

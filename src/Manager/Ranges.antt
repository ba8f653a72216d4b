-- ===== src/Manager/Ranges.antt =====
-- src/core/message.hpp, MessageManager::shuffle: the loop that cuts the ranges of the tasks.
use flashmob.Prelude.{
  ℕ, zero, suc, ◌≤◌, ◌≡◌, refl, arith, min, true, List, [], ◌∷◌, ◌++◌, subst, sym, take, drop,
  take-append-drop, length, length-drop, ◌*◌,
}
use flashmob.Message.{MessageTask}
use flashmob.Manager.{clamp_threads, clamp_sockets, Chain}

pub Chain-le : (lo hi : ℕ) (ts : List MessageTask) → Chain lo ts hi → lo ≤ hi
Chain-le lo hi [] c = omega (arith)
Chain-le lo hi (t ∷ ts) c = omega (arith, Chain-le t.origin_message_end hi ts c.2)

pub Chain-append :
    (lo mid hi : ℕ) (ts us : List MessageTask)
    → Chain lo ts mid
    → Chain mid us hi
    → Chain lo (ts ++ us) hi
Chain-append lo mid hi [] us c d = subst (λ x. Chain x us hi) (sym c) d
Chain-append lo mid hi (t ∷ ts) us c d = (c.0, c.1, Chain-append _ mid hi ts us c.2 d)

-- The loop stops only behind ranges that are within the active messages.
stopped-le :
    (active lo hi : ℕ) (ts : List MessageTask)
    → Chain lo ts hi
    → (clamp_threads active ts).1 ≡ true
    → lo ≤ active
unfolding clamp_threads
stopped-le active lo hi [] c e = absurd (ground arith)
stopped-le active lo hi (t ∷ ts) c e =
    ground (arith, stopped-le active t.origin_message_end hi ts c.2)

clamp_threads-Chain :
    (active lo hi : ℕ) (ts : List MessageTask)
    → Chain lo ts hi
    → Chain (min lo active) (clamp_threads active ts).0 (min hi active)
unfolding clamp_threads
clamp_threads-Chain active lo hi [] c = rw c
clamp_threads-Chain active lo hi (t ∷ ts) c = ground (
  arith,
  stopped-le active t.origin_message_end hi ts c.2,
  clamp_threads-Chain active t.origin_message_end hi ts c.2,
)

Chain-split :
    (lo hi : ℕ) (ts us : List MessageTask)
    → Chain lo (ts ++ us) hi
    → (mid : ℕ) × Chain lo ts mid × Chain mid us hi
Chain-split lo hi [] us c = (lo, refl, c)
Chain-split lo hi (t ∷ ts) us c =
    let (mid, first, rest) = Chain-split t.origin_message_end hi ts us c.2 in
    (mid, (c.0, c.1, first), rest)

-- For tasks whose ranges follow one another, as many as threads of the sockets: cutting the ranges
-- at the active messages leaves ranges that follow one another, both ends of the whole cut at the
-- active messages.
pub clamp_sockets-Chain :
    (k threads active lo hi : ℕ) (ts : List MessageTask)
    → Chain lo ts hi
    → length ts ≡ k * threads
    → Chain (min lo active) (clamp_sockets k threads active ts) (min hi active)
unfolding clamp_sockets
clamp_sockets-Chain zero threads active lo hi [] c e = rw c
clamp_sockets-Chain zero threads active lo hi (t ∷ ts) c e = absurd (omega arith)
clamp_sockets-Chain (suc k) threads active lo hi ts c e =
    let (mid, first, rest) =
      Chain-split lo hi (take threads ts) (drop threads ts) (rw (take-append-drop threads ts) c) in
    Chain-append _ (min mid active) _ _ _ (clamp_threads-Chain active lo mid _ first) (
      clamp_sockets-Chain k threads active mid hi (drop threads ts) rest
        (omega (arith, length-drop threads ts)))

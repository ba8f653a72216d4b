-- ===== src/Message/Kept.antt =====
-- src/core/message.hpp: the fields of a task that its operations do not write.
use flashmob.Prelude.{ℕ, ◌≡◌, refl, ◌∙◌, Option}
use flashmob.Message.{MessageTask, prepare, shuffle, update}

pub record Alike (t t' : MessageTask) : Type 0 where
  pub graph : t'.graph ≡ t.graph
  pub socket : t'.socket ≡ t.socket
  pub num : t'.partition_num ≡ t.partition_num
  pub first : t'.origin_message_begin ≡ t.origin_message_begin
  pub last : t'.origin_message_end ≡ t.origin_message_end

pub Alike-refl : {t : MessageTask} → Alike t t
Alike-refl = record { graph = refl; socket = refl; num = refl; first = refl; last = refl }

pub Alike-trans : (t u v : MessageTask) → Alike t u → Alike u v → Alike t v
Alike-trans t u v a b = record {
  graph = b.graph ∙ a.graph;
  socket = b.socket ∙ a.socket;
  num = b.num ∙ a.num;
  first = b.first ∙ a.first;
  last = b.last ∙ a.last;
}

pub sorted-Alike :
    (t : MessageTask) (messages : ℕ → ℕ) (states : Option (ℕ → ℕ))
    → Alike t (shuffle messages states (prepare messages t))
unfolding shuffle prepare
sorted-Alike t messages states = record {
  graph = refl;
  socket = refl;
  num = refl;
  first = refl;
  last = refl;
}

pub update-Alike : (target : ℕ → ℕ) (t : MessageTask) → Alike t (update target t).0
unfolding update
update-Alike target t = record {
  graph = refl;
  socket = refl;
  num = refl;
  first = refl;
  last = refl;
}

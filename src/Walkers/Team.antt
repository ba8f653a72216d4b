-- ===== src/Walkers/Team.antt =====
-- src/core/message.hpp, MessageManager::init: the tasks as `walk_round` takes them.
use flashmob.Prelude.{
  ℕ, suc, ◌/◌, ◌^◌, ◌≤◌, ◌<◌, ◌≡◌, refl, arith, List, [], ◌∷◌, map, All, All-append,
}
use flashmob.Prelude.Words.{u16}
use flashmob.Graph.{GroupTable, partition_on}
use flashmob.Message.{MessageTask}
use flashmob.Manager.{Chain}
use flashmob.Manager.Ranges.{Chain-le}
use flashmob.Manager.Kept.{IsTask, IsTeam}
use flashmob.Walkers.{Range, new_task, thread_ranges, socket_tasks, init_tasks}
use flashmob.Walkers.Ranges.{init_tasks-Chain, length-init_tasks}

-- Every socket's copy of the headers puts each vertex into a partition of the graph whose sampler
-- may be given it.
pub record IsPartitioned (IsVertex : ℕ → Type 0) (Lies : ℕ → ℕ → Type 0) (pn : ℕ)
    (graph : GroupTable) : Type 0 where
  pub fits : (socket v : ℕ) → IsVertex v → u16 (partition_on graph socket v) < pn
  pub lies : (socket v : ℕ) → IsVertex v → Lies (u16 (partition_on graph socket v)) v

module _ (IsVertex : ℕ → Type 0) (Lies : ℕ → ℕ → Type 0) (pn : ℕ) (graph : GroupTable)
    (k : IsPartitioned IsVertex Lies pn graph) where
  record IsNew (t : MessageTask) : Type 0 where
    pub graph_lem : t.graph ≡ graph
    pub num : t.partition_num ≡ pn

  map-IsNew : (socket : ℕ) (rs : List Range) → All IsNew (map (new_task graph pn socket) rs)
  unfolding new_task
  map-IsNew socket [] = tt
  map-IsNew socket (r ∷ rs) = (record { graph_lem = refl; num = refl }, map-IsNew socket rs)

  socket_tasks-IsNew :
      (m threads sockets socket : ℕ) (rs : List Range)
      → All IsNew (socket_tasks graph pn m threads sockets socket rs)
  unfolding socket_tasks
  socket_tasks-IsNew m threads sockets socket [] = tt
  socket_tasks-IsNew m threads sockets socket (r ∷ rs) =
      All-append IsNew _ _ (map-IsNew socket (thread_ranges m threads sockets r))
        (socket_tasks-IsNew m threads sockets (suc socket) rs)

  new-IsTask :
      (t : MessageTask) → IsNew t → t.origin_message_end < 2 ^ 32 → IsTask IsVertex Lies pn t
  new-IsTask t n small = record {
    num = n.num;
    fits = λ v h. rw n.graph_lem (k.fits t.socket v h);
    lies = λ v h. rw n.graph_lem (k.lies t.socket v h);
    small = small;
  }

  Chain-IsTask :
      (lo hi : ℕ) (ts : List MessageTask)
      → Chain lo ts hi
      → hi < 2 ^ 32
      → All IsNew ts
      → All (IsTask IsVertex Lies pn) ts
  Chain-IsTask lo hi [] c small n = tt
  Chain-IsTask lo hi (t ∷ ts) c small n = (
    new-IsTask t n.0 (omega (arith, Chain-le t.origin_message_end hi ts c.2)),
    Chain-IsTask t.origin_message_end hi ts c.2 small n.1,
  )

  -- With at least one thread for each of one or more sockets, fewer than 2 ^ 32 walkers, and a
  -- graph as `IsPartitioned` says, the tasks that `init` makes are ready to walk all walkers.
  pub init_tasks-IsTeam :
      (m threads sockets : ℕ)
      → 0 < sockets
      → sockets ≤ threads
      → m < 2 ^ 32
      → IsTeam IsVertex Lies pn sockets
          (threads / sockets)
          m
          (init_tasks graph pn m threads sockets)
  unfolding init_tasks
  init_tasks-IsTeam m threads sockets pos le small =
      let chain = init_tasks-Chain graph pn m threads sockets pos le in
      record {
        chain = chain;
        tasks = Chain-IsTask 0 m _ chain small (socket_tasks-IsNew m threads sockets 0 _);
        number = length-init_tasks graph pn m threads sockets;
      }

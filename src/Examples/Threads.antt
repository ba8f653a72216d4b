-- ===== src/Examples/Threads.antt =====
-- Two threads of a socket share three partitions; and the test of node2vec walks.
use flashmob.Prelude.{
  ℕ, ◌+◌, ◌%◌, ◌*◌, ◌<◌, ◌≡◌, ◌==◌, refl, arith, leb, Bool, true, false, some, List, [], ◌∷◌,
}
use flashmob.Walk.Partitions.{IsOrder}
use flashmob.Threads.{
  MultiThreadConfig, socket_thread_num, socket_id, socket_offset, value2bit, bit2value,
}
use flashmob.Threads.Places.{socket_id-socket_offset, value2bit-bit2value}
use flashmob.Walk.Node2vec.{RealOrder, set_node2vec, node2vec_accept, weight}
use flashmob.Walk.Node2vec.Accept.{node2vec_accept-eq-weight}
use flashmob.Walk.Schedule.{Progress, Action, claim, pick, start, run}
use flashmob.Walk.Schedule.Once.{run-IsOrder}

abbrev actions : List Action
actions =
    claim false
    ∷ claim true
    ∷ pick false
    ∷ claim false
    ∷ claim false
    ∷ pick true
    ∷ pick false
    ∷ claim true
    ∷ []

abbrev shared : Progress
shared = record {
  partittion_progress = 5;
  hdv_partition_progress = 1;
  ldv_partition_progress = 2;
  front = 0;
  back = 0;
  taken = 2 ∷ 0 ∷ 1 ∷ [];
}

run-shared : run 3 actions start ≡ some shared
unfolding run
run-shared = refl

run_example : IsOrder 3 shared.taken
run_example = run-IsOrder 3 actions shared run-shared (omega arith) refl refl

abbrev even_sum : ℕ → ℕ → Bool
even_sum u v = (u + v) % 2 == 0

-- Natural numbers as weights: 1.0 is 4, 1.0 / p is 2 and 1.0 / q is 8.
abbrev naturals : RealOrder ℕ
naturals = record {
  le = leb;
  le_trans = λ a b c h k. ground arith;
  le_total = λ a b h. ground arith;
}

node2vec_accept_example :
    node2vec_accept naturals even_sum 4 (set_node2vec naturals 4 2 8) 5 6 7
    ≡ leb 7 (weight naturals even_sum 4 2 8 5 6)
node2vec_accept_example = node2vec_accept-eq-weight naturals even_sum 4 2 8 5 6 7

abbrev config : MultiThreadConfig
config = record { thread_num = 8; socket_num = 2 }

socket_id_example :
    (socket_thread_num config ≡ 4)
    × (socket_id config 6 < 2)
    × (socket_offset config 6 < 4)
    × (socket_id config 6 * 4 + socket_offset config 6 ≡ 6)
socket_id_example =
    socket_id-socket_offset config 4 6 (omega arith) (omega arith) refl (omega arith)

value2bit_example : value2bit (bit2value 12) ≡ some 12
value2bit_example = value2bit-bit2value 12 (omega arith)

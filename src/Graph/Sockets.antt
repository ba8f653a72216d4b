-- ===== src/Graph/Sockets.antt =====
-- src/core/graph.hpp, Graph::make: the partitions of each socket.
pub mod Lists
use flashmob.Prelude.{ℕ, ◌+◌, ◌-◌, ◌*◌, ◌%◌, ltb, if◌then◌else◌, write}
use flashmob.Prelude.Loops.{for_range}

-- partition_socket[p_i]: the sockets take turns, forth and back.
pub socket_of : ℕ → ℕ → ℕ
socket_of socket_num p_i =
    if ltb (p_i % (socket_num * 2)) socket_num
    then p_i % socket_num
    else socket_num - p_i % socket_num - 1

pub clear_nums : ℕ → (ℕ → ℕ) → ℕ → ℕ
unfolding for_range
clear_nums socket_num = for_range 0 socket_num (λ s_i nums. write nums s_i 0)

pub record Assigned : Type 0 where
  pub partition_socket : ℕ → ℕ
  pub socket_partition_nums : ℕ → ℕ

pub assign_one : ℕ → ℕ → Assigned → Assigned
assign_one socket_num p_i s =
    let sockets = write s.partition_socket p_i (socket_of socket_num p_i) in
    record {
      partition_socket = sockets;
      socket_partition_nums =
          write s.socket_partition_nums (sockets p_i) (s.socket_partition_nums (sockets p_i) + 1);
    }

-- `blank` and `zeros` are what the new arrays hold.
pub assign_sockets : ℕ → ℕ → (ℕ → ℕ) → (ℕ → ℕ) → Assigned
unfolding for_range
assign_sockets socket_num partition_num blank zeros =
    for_range 0 partition_num (assign_one socket_num)
      (record { partition_socket = blank; socket_partition_nums = clear_nums socket_num zeros })

-- socket_partitions and temp_socket_partition_count
pub record Listing : Type 0 where
  pub socket_partitions : ℕ → ℕ → ℕ
  pub temp_counts : ℕ → ℕ

pub list_one : (ℕ → ℕ) → ℕ → Listing → Listing
list_one partition_socket p_i s =
    let socket = partition_socket p_i in
    record {
      socket_partitions =
          write s.socket_partitions socket
            (write (s.socket_partitions socket) (s.temp_counts socket) p_i);
      temp_counts = write s.temp_counts socket (s.temp_counts socket + 1);
    }

pub list_partitions : (ℕ → ℕ) → ℕ → (ℕ → ℕ → ℕ) → ℕ → ℕ → ℕ
unfolding for_range
list_partitions partition_socket partition_num blank =
    (for_range 0 partition_num (list_one partition_socket)
      (record { socket_partitions = blank; temp_counts = λ s_i. 0 })).socket_partitions

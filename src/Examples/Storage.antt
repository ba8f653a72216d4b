-- ===== src/Examples/Storage.antt =====
-- Memory, the Bloom filter, and the estimate of an epoch.
use flashmob.Prelude.{ℕ, ◌+◌, ◌<◌, ◌≤◌, ◌≡◌, ◌*◌, ◌^◌, refl, arith, true, some, List, [], ◌∷◌}
use flashmob.Memory.{Memory, Request, na, al, pad, new_memory, new_counter, count_requests, release}
use flashmob.Memory.Plan.{total_cost, cost, serve_all, segments, Laid, serve_all_planned}
use flashmob.Bloom.{BloomFilter, cal_hash_table_capacity, create, insert, exist}
use flashmob.Bloom.Member.{exist-insert_self}
use flashmob.Prelude.Words.{add64}
use flashmob.Partition.{used_size, graph_memory_size, buffer_memory_size, estimate_epoch_walker}
use flashmob.Partition.Estimate.{estimate_epoch_walker_bounds}
use flashmob.Bloom.Capacity.{IsCapacity, IsTable, create_total}

abbrev requests : List Request
requests = na 4 10 ∷ al 8 3 ∷ na 1 1 ∷ pad ∷ []

serve_all_example :
    (m m' : Memory) × (new_memory (count_requests requests new_counter) 1 ≡ some m)
    × (serve_all requests m ≡ some (segments requests new_counter, m'))
    × Laid 0 (segments requests new_counter) m.data_size
    × (release m' ≡ true)
unfolding total_cost cost count_requests
serve_all_example = serve_all_planned requests 1 (omega arith) refl

abbrev filter : BloomFilter
filter = record { hash_bitmask = 3; table = λ i. 0; sz = 32 }

exist-insert_self_example : exist 1 2 (insert 1 2 filter) ≡ true
exist-insert_self_example = exist-insert_self 1 2 filter

create_example :
    (capacity : ℕ) × (bf : BloomFilter) × (create 100 (λ i. 7) ≡ some bf)
    × (cal_hash_table_capacity 100 ≡ some capacity)
    × IsCapacity 100 4 capacity
    × IsTable capacity bf
create_example = create_total 100 (λ i. 7) (omega arith)

-- A graph of a thousand vertices and ten thousand edges, of which two thousand are buffered.
enough : used_size 1000 10000 2000 2 0 + 4 * (8 * 2 + 3) ≤ 200000
unfolding used_size graph_memory_size buffer_memory_size add64
enough = omega arith

estimate_epoch_walker_example :
    (r : ℕ) × (estimate_epoch_walker 1000 10000 2000 5000 8 2 200000 0 ≡ some r)
    × (0 < r)
    × (r ≤ 5000)
    × (r < 2 ^ 32)
    × (used_size 1000 10000 2000 2 0 + r * (4 * (8 * 2 + 3)) ≤ 200000)
estimate_epoch_walker_example =
    estimate_epoch_walker_bounds 1000 10000 2000 5000 8 2 200000 0 (omega arith) (omega arith)
      (omega arith) (omega arith) enough

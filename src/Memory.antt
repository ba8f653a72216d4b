-- ===== src/Memory.antt =====
-- include/memory.hpp: MemoryCounter, Memory and MemoryPool. An address is its distance from the
-- address that the allocator of the system returned, which a Memory is not told apart by here;
-- sizes are 64-bit words. A CHECK that fails is `none`.
pub mod Plan
use flashmob.Prelude.{
  ℕ, ◌+◌, ◌-◌, ◌*◌, ◌%◌, ◌≡◌, Bool, true, false, Option, none, some, List, [], ◌∷◌, ◌==◌, leb,
  if◌then◌else◌, ◌>>=◌,
}
use flashmob.Prelude.Words.{u64, add64, sub64}

-- MemoryDataAlignment, which is CacheLineSize
abbrev pub alignment : ℕ
alignment = 64

pub record MemoryCounter : Type 0 where
  pub data_size : ℕ
  pub aligned : Bool

abbrev pub new_counter : MemoryCounter
new_counter = record { data_size = 0; aligned = true }

pub get_aligned_size : ℕ → ℕ
get_aligned_size size =
    if size % alignment == 0 then size else add64 size (alignment - size % alignment)

pub count_na : ℕ → ℕ → MemoryCounter → MemoryCounter
count_na sz block_length c = record {
  data_size = add64 c.data_size (u64 (sz * block_length));
  aligned = false;
}

pub count_align : MemoryCounter → MemoryCounter
unfolding get_aligned_size
count_align c = record { data_size = get_aligned_size c.data_size; aligned = true }

pub count_al : ℕ → ℕ → MemoryCounter → MemoryCounter
unfolding count_na count_align
count_al sz block_length c = count_align (count_na sz block_length c)

pub record Memory : Type 0 where
  pub data_size : ℕ
  pub numa : ℕ
  pub mcounter : MemoryCounter

-- The constructor: CHECK(pre_counter->is_aligned()).
pub new_memory : MemoryCounter → ℕ → Option Memory
new_memory c numa =
    if c.aligned
    then some (record { data_size = c.data_size; numa = numa; mcounter = new_counter })
    else none

-- CHECK(mcounter.get_data_size() <= data_size)
pub within_data : Memory → Option Memory
within_data m = if leb m.mcounter.data_size m.data_size then some m else none

pub na_alloc : ℕ → ℕ → Memory → Option (ℕ × Memory)
unfolding within_data count_na
na_alloc sz block_length m = do
  m' ← within_data (record m { mcounter = count_na sz block_length m.mcounter })
  some (m.mcounter.data_size, m')

pub align : Memory → Option Memory
unfolding within_data count_align
align m = within_data (record m { mcounter = count_align m.mcounter })

pub al_alloc : ℕ → ℕ → Memory → Option (ℕ × Memory)
unfolding na_alloc align
al_alloc sz block_length m = do (p, m') ← na_alloc sz block_length m; m'' ← align m'; some (p, m'')

-- The destructor: CHECK(mcounter.get_data_size() == data_size), for a block that was allocated.
pub release : Memory → Bool
release m = if m.data_size == 0 then true else (m.mcounter.data_size == m.data_size)

-- MemoryPool::alloc: a block of its own for one segment.
pub pool_alloc : ℕ → ℕ → ℕ → Option (ℕ × Memory)
unfolding count_al new_memory al_alloc
pool_alloc sz block_length numa = do
  m ← new_memory (count_al sz block_length new_counter) numa
  al_alloc sz block_length m

-- What a client asks of a counter first and of the memory then, in the same order.
pub data Request : Type 0 where
  na : ℕ → ℕ → Request
  al : ℕ → ℕ → Request
  pad : Request

pub count_request : Request → MemoryCounter → MemoryCounter
unfolding count_na count_al count_align
count_request (na sz n) = count_na sz n
count_request (al sz n) = count_al sz n
count_request pad = count_align

unfoldable pub count_requests : List Request → MemoryCounter → MemoryCounter
unfolding count_request
count_requests [] c = c
count_requests (r ∷ rs) c = count_requests rs (count_request r c)

-- A segment that was handed out: its address and size.
pub serve : Request → Memory → Option (List (ℕ × ℕ) × Memory)
unfolding na_alloc al_alloc align
serve (na sz n) m = do (p, m') ← na_alloc sz n m; some ((p, sz * n) ∷ [], m')
serve (al sz n) m = do (p, m') ← al_alloc sz n m; some ((p, sz * n) ∷ [], m')
serve pad m = do m' ← align m; some ([], m')

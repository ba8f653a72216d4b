-- ===== src/Memory/Plan.antt =====
-- include/memory.hpp: counting requests first and serving them then.
use flashmob.Prelude.{
  ℕ, ◌+◌, ◌-◌, ◌*◌, ◌%◌, ◌^◌, ◌≤◌, ◌<◌, ◌≡◌, refl, arith, true, Option, some, List, [], ◌∷◌, ◌++◌,
  ◌>>=◌,
}
use flashmob.Prelude.Words.{add64, add64_small}
use flashmob.Memory.{
  MemoryCounter, new_counter, get_aligned_size, count_na, count_align, count_al, Memory, new_memory,
  within_data, na_alloc, align, al_alloc, release, Request, na, al, pad, count_request,
  count_requests, serve,
}

pub serve_all : List Request → Memory → Option (List (ℕ × ℕ) × Memory)
unfolding serve
serve_all [] m = some ([], m)
serve_all (r ∷ rs) m = do
  (segments, m') ← serve r m
  (more, m'') ← serve_all rs m'
  some (segments ++ more, m'')

-- For a size that can be rounded up within 64 bits: the aligned size is a multiple of 64, not
-- below the size, and less than 64 above it.
pub get_aligned_size_lem :
    (size : ℕ)
    → size + 64 < 2 ^ 64
    → (size ≤ get_aligned_size size)
      × (get_aligned_size size < size + 64)
      × (get_aligned_size size % 64 ≡ 0)
unfolding get_aligned_size
get_aligned_size_lem size h = ground (arith, add64_small size (64 - size % 64))

-- A size that is aligned stays.
pub get_aligned_size_idem : (size : ℕ) → size % 64 ≡ 0 → get_aligned_size size ≡ size
unfolding get_aligned_size
get_aligned_size_idem size h = ground arith

-- The bytes that a request can take at most.
unfoldable pub cost : Request → ℕ
cost (na sz n) = sz * n
cost (al sz n) = sz * n + 64
cost pad = 64

unfoldable pub total_cost : List Request → ℕ
total_cost [] = 0
total_cost (r ∷ rs) = cost r + total_cost rs

pub count_request-le :
    (r : Request) (c : MemoryCounter)
    → c.data_size + cost r + 64 < 2 ^ 64
    → (c.data_size ≤ (count_request r c).data_size)
      × ((count_request r c).data_size ≤ c.data_size + cost r)
unfolding count_request count_na count_al count_align cost
count_request-le (na sz n) c h = ground (arith, add64_small c.data_size (sz * n))
count_request-le (al sz n) c h =
    ground (arith, add64_small c.data_size (sz * n), get_aligned_size_lem (c.data_size + sz * n))
count_request-le pad c h = ground (arith, get_aligned_size_lem c.data_size)

pub count_requests-le :
    (rs : List Request) (c : MemoryCounter)
    → c.data_size + total_cost rs + 64 < 2 ^ 64
    → c.data_size ≤ (count_requests rs c).data_size
unfolding count_requests total_cost
count_requests-le [] c h = omega arith
count_requests-le (r ∷ rs) c h =
    omega (arith, count_request-le r c (omega arith), count_requests-le rs (count_request r c) rest)
  where
    rest : (count_request r c).data_size + total_cost rs + 64 < 2 ^ 64
    rest = omega (arith, count_request-le r c (omega arith))

-- The segments lie one behind another from `lo` to `hi`.
abbrev pub Laid : ℕ → List (ℕ × ℕ) → ℕ → Type 0
Laid lo [] hi = lo ≤ hi
Laid lo ((p, size) ∷ segments) hi = (lo ≤ p) × Laid (p + size) segments hi

-- The segment of one request, from a counter at `lo`.
pub segment : Request → ℕ → List (ℕ × ℕ)
segment (na sz n) lo = (lo, sz * n) ∷ []
segment (al sz n) lo = (lo, sz * n) ∷ []
segment pad lo = []

pub segments : List Request → MemoryCounter → List (ℕ × ℕ)
unfolding segment
segments [] c = []
segments (r ∷ rs) c = segment r c.data_size ++ segments rs (count_request r c)

serve_lem :
    (r : Request) (m : Memory)
    → m.mcounter.data_size + cost r + 64 < 2 ^ 64
    → (count_request r m.mcounter).data_size ≤ m.data_size
    → serve r m
      ≡ some (segment r m.mcounter.data_size, record m { mcounter = count_request r m.mcounter })
unfolding serve count_request count_na count_al count_align cost segment within_data na_alloc
    al_alloc align
serve_lem (na sz n) m h room = ground arith
serve_lem (al sz n) m h room = ground (
  arith,
  add64_small m.mcounter.data_size (sz * n),
  get_aligned_size_lem (m.mcounter.data_size + sz * n),
)
serve_lem pad m h room = ground arith

serve_all_lem :
    (rs : List Request) (m : Memory)
    → m.mcounter.data_size + total_cost rs + 64 < 2 ^ 64
    → (count_requests rs m.mcounter).data_size ≤ m.data_size
    → serve_all rs m
      ≡ some (segments rs m.mcounter, record m { mcounter = count_requests rs m.mcounter })
unfolding serve_all segments count_requests total_cost
serve_all_lem [] m h room = refl
serve_all_lem (r ∷ rs) m h room = rw (
  serve_lem r m (omega arith)
      (omega (arith, count_requests-le rs (count_request r m.mcounter) rest)),
  serve_all_lem rs (record m { mcounter = count_request r m.mcounter }) rest room,
)
  where
    rest : (count_request r m.mcounter).data_size + total_cost rs + 64 < 2 ^ 64
    rest = omega (arith, count_request-le r m.mcounter (omega arith))

Laid-mono : (a b hi : ℕ) (l : List (ℕ × ℕ)) → a ≤ b → Laid b l hi → Laid a l hi
Laid-mono a b hi [] h laid = omega arith
Laid-mono a b hi ((p, size) ∷ l) h laid = (omega arith, laid.1)

after_request :
    (r : Request) (c : MemoryCounter) (l : List (ℕ × ℕ)) (hi : ℕ)
    → c.data_size + cost r + 64 < 2 ^ 64
    → Laid (count_request r c).data_size l hi
    → Laid c.data_size (segment r c.data_size ++ l) hi
unfolding count_request count_na count_al count_align cost segment add64
after_request (na sz n) c l hi h laid =
    (omega arith, Laid-mono _ _ hi l (omega (arith, add64_small c.data_size (sz * n))) laid)
after_request (al sz n) c l hi h laid = (
  omega arith,
  Laid-mono _ _ hi l
      (ground
        (arith, add64_small c.data_size (sz * n), get_aligned_size_lem (c.data_size + sz * n)))
      laid,
)
after_request pad c l hi h laid =
    Laid-mono _ _ hi l (omega (arith, get_aligned_size_lem c.data_size)) laid

segments-Laid :
    (rs : List Request) (c : MemoryCounter)
    → c.data_size + total_cost rs + 64 < 2 ^ 64
    → Laid c.data_size (segments rs c) (count_requests rs c).data_size
unfolding segments count_requests total_cost
segments-Laid [] c h = omega arith
segments-Laid (r ∷ rs) c h =
    after_request r c (segments rs (count_request r c)) _ (omega arith)
      (segments-Laid rs (count_request r c) (omega (arith, count_request-le r c (omega arith))))

-- For requests whose sizes stay within 64 bits and after which the counter is aligned: the memory
-- made by the counter serves the same requests with no CHECK failing, the segments lie behind one
-- another within the block, and the check of the destructor holds afterwards.
pub serve_all_planned :
    (rs : List Request) (numa : ℕ)
    → total_cost rs + 64 < 2 ^ 64
    → (count_requests rs new_counter).aligned ≡ true
    → (m m' : Memory) × (new_memory (count_requests rs new_counter) numa ≡ some m)
      × (serve_all rs m ≡ some (segments rs new_counter, m'))
      × Laid 0 (segments rs new_counter) m.data_size
      × (release m' ≡ true)
unfolding new_memory release
serve_all_planned rs numa h closed =
    let c = count_requests rs new_counter in
    let m : Memory = record { data_size = c.data_size; numa = numa; mcounter = new_counter } in
    (
      m,
      record m { mcounter = c },
      rw closed,
      serve_all_lem rs m (omega arith) (omega arith),
      segments-Laid rs new_counter (omega arith),
      ground arith,
    )

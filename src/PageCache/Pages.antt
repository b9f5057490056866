-- ===== src/PageCache/Pages.antt =====
-- What the page-cache probes (src/io/page_cache.cpp) and the pause (src/engine/pause.cpp) answer.
use reflash.Base.{
  ℕ, zero, suc, ◌+◌, ◌-◌, ◌/◌, ◌%◌, ◌≤◌, ◌<◌, ◌≡◌, ◌≢◌, true, some, List, arith, ◌==◌, length,
  get_or, u64_mod, Bool-cases, inl, inr, ==_iff, sym,
}
use native.Mathlib.Nat.{le-div_iff_mul-le, div-mul-le_self}
use reflash.BlockIo.{clean}
use reflash.PageCache.{
  Kernel, page_size, page_floor, resident, residency_state, query_flush_mincore,
}

-- A resident page of those looked at is found.
resident-found :
    (vec : List ℕ) (i n j : ℕ)
    → i ≤ j
    → j < i + n
    → j < length vec
    → get_or vec j 0 % 2 ≡ 1
    → resident vec i n ≡ true
unfolding resident
resident-found vec i zero j low high known one = absurd (omega arith)
resident-found vec i (suc n) j low high known one = elim (Bool-cases (i == j)) [
  | inl here ↦
      (let same : i ≡ j = (==_iff i j).0 here in
        ground (arith, rw (sym same) at one, rw (sym same) at known))
  | inr later ↦
      (let more = resident-found vec (i + 1) n j (ground arith) (omega arith) known one in
        ground (arith, more))
]

-- A page size is a positive number.
page_size-pos : (k : Kernel) → 0 < page_size k
unfolding page_size
page_size-pos k = ground arith

div_mono : {a b k : ℕ} → 0 < k → a ≤ b → a / k ≤ b / k
div_mono {a = a} {k = k} pos h =
    (le-div_iff_mul-le {x = a / k} pos).1 (omega (arith, div-mul-le_self a k))

residency_state-clean :
    (page start stop b : ℕ) (vec : List ℕ)
    → residency_state page start stop (some vec) ≡ clean
    → 0 < page
    → start ≤ b
    → b ≤ stop
    → b / page < length vec
    → get_or vec (b / page) 0 % 2 ≡ 1
    → ⊥
unfolding residency_state
residency_state-clean page start stop b vec h pos low high known one =
    let first = div_mono pos low in
    let last = div_mono pos high in
    let found =
      resident-found vec (start / page) (suc (stop / page) - start / page) (b / page)
        (omega (arith, first)) (omega (arith, first, last)) known one in
    ground (arith, found)

-- What the kernel says of the page that holds byte `b`.
pub page_byte : Kernel → ℕ → List ℕ → ℕ → ℕ
page_byte k offset vec b = get_or vec ((b - page_floor (page_size k) offset) / page_size k) 0

-- Where `query_flush_mincore` answers `Clean` for a range that ends, with one page more, within 64
-- bits, no byte of the range is on a page that the kernel reported as resident.
pub query_flush_mincore-clean :
    (k : Kernel) (offset len b : ℕ) (vec : List ℕ)
    → query_flush_mincore k offset len ≡ clean
    → offset + len + page_size k < u64_mod
    → k.residency (page_floor (page_size k) offset) (
        page_floor (page_size k) (offset + len + page_size k - 1) - page_floor (page_size k) offset)
      ≡ some vec
    → offset ≤ b
    → b < offset + len
    → (b - page_floor (page_size k) offset) / page_size k < length vec
    → page_byte k offset vec b % 2 ≢ 1
unfolding query_flush_mincore page_byte
query_flush_mincore-clean k offset len b vec h word says low high known one = ground (
  arith,
  page_size-pos k,
  says,
  residency_state-clean (page_size k) (offset - page_floor (page_size k) offset)
      (offset + len - 1 - page_floor (page_size k) offset) (b - page_floor (page_size k) offset)
      vec,
)

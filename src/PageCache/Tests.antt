-- ===== src/PageCache/Tests.antt =====
-- The residency probe (src/io/page_cache.cpp) on a file of two pages, none of them resident.
use reflash.Base.{◌%◌, ◌≡◌, ◌≢◌, refl, arith, true, none, some, [], ◌∷◌}
use reflash.BlockIo.{clean}
use reflash.PageCache.{
  Kernel, page_size, query_flush_mincore, residency_state, resident, page_floor,
}
use reflash.PageCache.Pages.{page_byte, query_flush_mincore-clean}

abbrev kernel : Kernel
kernel = record {
  fd_open = true;
  cachestat = λ offset length. none;
  residency = λ offset length. some (0 ∷ 0 ∷ []);
  page_size = some 4096;
  sync_file_range_write = λ offset length. none;
  sync_file_range_wait = λ offset length. none;
  fdatasync = none;
}

says_clean : query_flush_mincore kernel 4000 200 ≡ clean
unfolding query_flush_mincore page_size residency_state resident page_floor
says_clean = refl

query_flush_mincore-clean_example : page_byte kernel 4000 (0 ∷ 0 ∷ []) 4100 % 2 ≢ 1
unfolding page_size page_floor
query_flush_mincore-clean_example =
    query_flush_mincore-clean kernel 4000 200 4100 (0 ∷ 0 ∷ []) says_clean (omega arith) refl
      (omega arith) (omega arith) (omega arith)

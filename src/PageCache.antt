-- ===== src/PageCache.antt =====
-- The page-cache probes (src/io/page_cache.cpp) and the pause control (src/engine/pause.hpp,
-- src/engine/pause.cpp). The system calls are the interface `Kernel`.
pub mod Pages
mod Tests
use reflash.Base.{
  ℕ, zero, suc, ◌+◌, ◌-◌, ◌*◌, ◌/◌, ◌%◌, ◌^◌, Bool, true, false, not, ◌&&◌, ◌||◌, Option, none,
  some, List, [], ◌∷◌, ltb, leb, ◌==◌, if◌then◌else◌, length, get_or, Text, u64_mod,
}
use reflash.BlockIo.{FlushState, dirty, clean, unknown, FlushProbe, cachestat, mincore}

-- What `cachestat` counts in a byte range.
pub record Cachestat : Type 0 where
  nr_cache : ℕ
  nr_dirty : ℕ
  nr_writeback : ℕ
  nr_evicted : ℕ
  nr_recently_evicted : ℕ

-- The system calls on the descriptor. `none` is a failed call, and for the two calls that only
-- succeed or fail, `some err` is a failure with its text. `residency off len` maps the range,
-- calls `mincore` for it and gives one byte for each page.
pub record Kernel : Type 0 where
  pub fd_open : Bool
  pub cachestat : ℕ → ℕ → Option Cachestat
  pub residency : ℕ → ℕ → Option (List ℕ)
  pub page_size : Option ℕ
  pub sync_file_range_write : ℕ → ℕ → Option Text
  pub sync_file_range_wait : ℕ → ℕ → Option Text
  pub fdatasync : Option Text

-- `sysconf` may fail or answer 0.
pub page_size : Kernel → ℕ
page_size k = elim k.page_size [ none ↦ 4096 | some p ↦ if p == 0 then 4096 else p ]

state_of : Option Cachestat → FlushState
state_of none = unknown
state_of (some cs) = if ltb 0 cs.nr_dirty || ltb 0 cs.nr_writeback then dirty else clean

query_flush_cachestat : Kernel → ℕ → ℕ → FlushState
query_flush_cachestat k offset length =
    if not k.fd_open || (length == 0) then unknown else state_of (k.cachestat offset length)

-- `x & ~(page - 1)` for a power of two.
pub page_floor : ℕ → ℕ → ℕ
page_floor page x = x - x % page

-- Is a page of the range resident? The pages from `i`, `n` of them to go.
pub resident : List ℕ → ℕ → ℕ → Bool
resident vec i zero = false
resident vec i (suc n) =
    let rest = resident vec (i + 1) n in
    if ltb i (length vec) then (get_or vec i 0 % 2 == 1) || rest else false

pub residency_state : ℕ → ℕ → ℕ → Option (List ℕ) → FlushState
residency_state page from to none = unknown
residency_state page from to (some vec) =
    if resident vec (from / page) (suc (to / page) - from / page) then dirty else clean

pub query_flush_mincore : Kernel → ℕ → ℕ → FlushState
query_flush_mincore k offset length =
    let page = page_size k in
    let map_off = page_floor page offset in
    let map_end = page_floor page ((offset + length + page - 1) % u64_mod) in
    if not k.fd_open || ((length == 0) || leb map_end map_off)
    then unknown
    else residency_state page (offset - map_off) (offset + length - 1 - map_off)
        (k.residency map_off (map_end - map_off))

pub query_flush_state : Kernel → ℕ → ℕ → FlushProbe → FlushState
query_flush_state k offset length mincore = query_flush_mincore k offset length
query_flush_state k offset length cachestat = query_flush_cachestat k offset length

-- `none` is success.
kick_writeback : Kernel → ℕ → ℕ → Option Text
kick_writeback k offset length =
    if not k.fd_open || (length == 0) then none else k.sync_file_range_write offset length

or_fdatasync : Kernel → Option Text → Option Text
or_fdatasync k none = none
or_fdatasync k (some err) = k.fdatasync

pub wait_flushed : Kernel → ℕ → ℕ → Option Text
wait_flushed k offset length =
    if not k.fd_open || (length == 0)
    then none
    else or_fdatasync k (k.sync_file_range_wait offset length)

pub record PauseControl : Type 0 where
  pub paused : Bool
  pub stop : Bool

pause : PauseControl → PauseControl
pause c = record c { paused = true }

resume : PauseControl → PauseControl
resume c = record c { paused = false }

request_stop : PauseControl → PauseControl
request_stop c = record c { stop = true }

pub reset : PauseControl → PauseControl
reset c = record { paused = false; stop = false }

stop_requested : PauseControl → Bool
stop_requested c = c.stop

is_paused : PauseControl → Bool
is_paused c = c.paused

-- `wait_if_paused` sees the control once per round, as the other threads have left it: the answer,
-- or none where it still waits after the rounds of the list.
pub wait_if_paused : List PauseControl → Option Bool
wait_if_paused [] = none
wait_if_paused (c ∷ later) =
    let rest = wait_if_paused later in
    if c.paused then (if c.stop then some false else rest) else some (not c.stop)

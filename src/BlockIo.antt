-- ===== src/BlockIo.antt =====
-- `rewrite_range` (src/io/block_io.hpp, src/io/block_io.cpp): read each block of a byte range and
-- write the same bytes back. What the function calls of the device, the page cache, the pause
-- control and the allocator is the interface `Host`, over the state `W` of the world outside.
pub mod Loop
pub mod Steps
pub mod Content
pub mod Errors
pub mod Ends
pub mod DryRun
pub mod Tests
use reflash.Base.{
  ◌≡◌, ◌⊎◌, inl, inr, refl, ℕ, zero, suc, ◌+◌, ◌-◌, ◌*◌, ◌/◌, ◌%◌, ◌^◌, min, Bool, true, false, not,
  ◌&&◌, ◌||◌, Option, none, some, List, [], ◌∷◌, ◌++◌, ltb, leb, ◌==◌, text_eq, if◌then◌else◌, Text,
  text, to_string, u64_mod,
}
use reflash.Progress.{CellStatus, LogLevel, Double, Progress, add_done, mark_cell, log, message}

pub data FlushState : Type 0 where
  dirty clean unknown : FlushState

pub data FlushProbe : Type 0 where
  cachestat mincore : FlushProbe

pub data WriteCacheMode : Type 0 where
  write_through cachestat mincore : WriteCacheMode

pub data ExtentStatus : Type 0 where
  ok read_err write_err : ExtentStatus

pub record RewriteExtent : Type 0 where
  pub offset : ℕ
  pub length : ℕ
  pub status : ExtentStatus

pub record RewriteFlags : Type 0 where
  pub verify_only : Bool
  pub write_cache : WriteCacheMode
  pub verify_writes : Bool
  pub flush_poll_ms : ℕ

-- A read delivers its bytes, or fails with the text of the error.
pub data Read : Type 0 where
  got : List ℕ → Read
  failed : Text → Read

-- `none` is success, `some err` the text of the error.
pub record Host (W : Type 0) : Type 0 where
  pub has_direct : Bool
  pub direct_align : ℕ
  pub pread_all : ℕ → ℕ → W → Read × W
  pub pread_direct : ℕ → ℕ → W → Read × W
  pub pwrite_all : List ℕ → ℕ → W → Option Text × W
  pub pwrite_sync : List ℕ → ℕ → W → Option Text × W
  pub pwrite_direct : List ℕ → ℕ → W → Option Text × W
  pub wait_flushed : ℕ → ℕ → W → W
  pub query_flush_state : FlushProbe → ℕ → ℕ → W → FlushState × W
  pub wait_if_paused : W → Bool × W
  pub allocate : ℕ → ℕ → W → Bool × W

-- The locals of the loop, with the objects that it changes.
pub record Rewrite (F W : Type 0) : Type 0 where
  pub world : W
  pub progress : Progress F
  pub ok : Bool
  pub errors : List RewriteExtent
  pub pos : ℕ
  pub cached_from : ℕ
  pub cached_to : ℕ
  pub have_cached : Bool
  pub last_poll : F

-- The locals that are fixed before the loop.
pub record Config (F : Type 0) : Type 0 where
  pub flags : RewriteFlags
  pub align : ℕ
  pub block_size : ℕ
  pub need_direct : Bool
  pub poll_sec : F
  pub end : ℕ
  pub object_path : Text
  pub scratch : Option ℕ

-- One round of the loop: the condition fails or a chunk is empty, the user stops, or one chunk is
-- done with and the loop goes on.
pub data RoundEnd (S : Type 0) : Type 0 where
  done : S → RoundEnd S
  stop : S → RoundEnd S
  again : S → RoundEnd S

pub data LoopEnd (S : Type 0) : Type 0 where
  finished : S → LoopEnd S
  stopped : S → LoopEnd S
  out_of_fuel : LoopEnd S

pub is_write_through : WriteCacheMode → Bool
is_write_through write_through = true
is_write_through _ = false

probe_of : WriteCacheMode → FlushProbe
probe_of mincore = mincore
probe_of _ = cachestat

is_clean : FlushState → Bool
is_clean clean = true
is_clean _ = false

-- Where the text of a failed call is empty, the source takes the call for a success.
pub has_text : Text → Bool
has_text [] = false
has_text (c ∷ cs) = true

cell_of : ExtentStatus → CellStatus
cell_of ok = CellStatus.ok
cell_of read_err = CellStatus.read_err
cell_of write_err = CellStatus.write_err

-- "<object>: <what> at <pos> +<chunk>: <err>"
line : Text → Text → ℕ → ℕ → Text → Text
line object what pos chunk err =
    object
    ++ (text ": "
        ++ (what
            ++ (text " at "
                ++ (to_string pos ++ (text " +" ++ (to_string chunk ++ (text ": " ++ err)))))))

-- The bytes that one round takes: a block, or what is left; cut to the alignment where O_DIRECT
-- is needed and this is not the last chunk.
pub chunk_at : {F : Type 0} → Config F → ℕ → ℕ
chunk_at c pos =
    let chunk = min c.block_size (c.end - pos) in
    if c.need_direct && (not (chunk % c.align == 0) && ltb (pos + chunk) c.end)
    then chunk - chunk % c.align
    else chunk

compare_media : {W : Type 0} → List ℕ → Read × W → Option Text × W
compare_media expect (failed err, w) = (some err, w)
compare_media expect (got found, w) =
    (if text_eq expect found then none else some (text "verify mismatch (media != written)"), w)

error_text : Option Text → Text
error_text none = []
error_text (some err) = err

module _ {W : Type 0} (h : Host W) where
  -- The error text, if the media does not hold what was written. `scratch` is the size of the
  -- second buffer, if it was allocated.
  verify_against_media : List ℕ → ℕ → ℕ → Option ℕ → W → Option Text × W
  verify_against_media expect offset len none w =
      if not h.has_direct
      then (some (text "O_DIRECT unavailable; cannot verify without page cache"), w)
      else (some (text "verify buffer too small"), w)
  verify_against_media expect offset len (some bytes) w =
      if not h.has_direct
      then (some (text "O_DIRECT unavailable; cannot verify without page cache"), w)
      else if ltb bytes len
      then (some (text "verify buffer too small"), w)
      else compare_media expect (h.pread_direct offset len w)

module _ {F W : Type 0} ⦃fl : Double F⦄ where
  -- The chunk failed: it is reported, logged and passed over.
  pub fail_chunk : Config F → ExtentStatus → Text → Text → ℕ → Rewrite F W → Rewrite F W
  fail_chunk c status what err chunk s = record s {
    ok = false;
    errors = s.errors ++ record { offset = s.pos; length = chunk; status = status } ∷ [];
    progress =
        add_done chunk
          (log s.pos chunk (cell_of status) (line c.object_path what s.pos chunk err) s.progress);
    pos = s.pos + chunk;
  }

  pub pass_chunk : ℕ → Rewrite F W → Rewrite F W
  pass_chunk chunk s = record s { progress = add_done chunk s.progress; pos = s.pos + chunk }

  -- The cached range grows by the chunk, which starts it if there is none.
  note_cached : ℕ → Rewrite F W → Rewrite F W
  note_cached chunk s =
      if s.have_cached
      then record s {
        cached_from = if ltb s.pos s.cached_from then s.pos else s.cached_from;
        cached_to = if ltb s.cached_to (s.pos + chunk) then s.pos + chunk else s.cached_to;
      }
      else record s { cached_from = s.pos; cached_to = s.pos + chunk; have_cached = true }

module _ {F W : Type 0} ⦃fl : Double F⦄ (h : Host W) where
  -- Marks the cached range green if the probe finds it clean; asked at most once per `poll_sec`,
  -- unless forced. The Boolean is the function's result.
  pub maybe_promote : Config F → Bool → Rewrite F W → Bool × Rewrite F W
  maybe_promote c force s =
      let p = s.progress in
      let now = p.clock p.readings in
      let early = fl.less (fl.sub now s.last_poll) c.poll_sec in
      let size = s.cached_to - s.cached_from in
      let (state, w) =
        h.query_flush_state (probe_of c.flags.write_cache) s.cached_from size s.world in
      let read = record p { readings = p.readings + 1 } in
      if leb s.cached_to s.cached_from
      then (false, s)
      else if not force && early
      then (false, record s { progress = read })
      else if is_clean state
      then (
        true,
        record s {
          world = w;
          last_poll = now;
          progress = mark_cell s.cached_from size CellStatus.ok read;
        },
      )
      else (false, record s { world = w; last_poll = now; progress = read })

  write_chunk : Config F → List ℕ → ℕ → ℕ → W → Option Text × W
  unfolding is_write_through
  write_chunk c bytes chunk pos w =
      if is_write_through c.flags.write_cache
      then (if h.has_direct && ((pos % c.align == 0) && (chunk % c.align == 0))
          then h.pwrite_direct bytes pos w
          else h.pwrite_sync bytes pos w)
      else h.pwrite_all bytes pos w

  -- The text `verr`, empty if the chunk was found on the media.
  verify_chunk : Config F → List ℕ → ℕ → ℕ → W → Text × W
  unfolding is_write_through
  verify_chunk c bytes chunk pos w =
      let flushed =
        (if is_write_through c.flags.write_cache then w else h.wait_flushed pos chunk w) in
      let (found, w') = verify_against_media h bytes pos chunk c.scratch flushed in
      if (pos % c.align == 0) && (chunk % c.align == 0)
      then (error_text found, w')
      else (text "unaligned for O_DIRECT verify", flushed)

  -- The cells of a chunk that was written.
  mark_written : Config F → ℕ → Rewrite F W → Rewrite F W
  unfolding is_write_through note_cached
  mark_written c chunk s =
      let marked = record s { progress = mark_cell s.pos chunk CellStatus.cached s.progress } in
      let (promoted, t) = maybe_promote c false (note_cached chunk marked) in
      if is_write_through c.flags.write_cache || c.flags.verify_writes
      then record s { progress = mark_cell s.pos chunk CellStatus.ok s.progress }
      else if promoted
      then record t { have_cached = false }
      else t

  after_write : Config F → List ℕ → ℕ → Rewrite F W → Rewrite F W
  unfolding has_text
  after_write c bytes chunk s =
      let (verr, w) = verify_chunk c bytes chunk s.pos s.world in
      let verified = record s { world = w } in
      if c.flags.verify_writes
      then (if has_text verr
          then fail_chunk c ExtentStatus.write_err (text "verify failed") verr chunk verified
          else pass_chunk chunk (mark_written c chunk verified))
      else pass_chunk chunk (mark_written c chunk s)

  after_read : Config F → List ℕ → ℕ → Rewrite F W → Rewrite F W
  after_read c bytes chunk s =
      let (wrote, w) = write_chunk c bytes chunk s.pos s.world in
      let written = record s { world = w } in
      if c.flags.verify_only
      then pass_chunk chunk (record s { progress = mark_cell s.pos chunk CellStatus.ok s.progress })
      else elim wrote [
        | none ↦ after_write c bytes chunk written
        | some err ↦ fail_chunk c ExtentStatus.write_err (text "write error") err chunk written
      ]

  pub rewrite_chunk : Config F → ℕ → Rewrite F W → Rewrite F W
  rewrite_chunk c chunk s =
      let (read, w) = h.pread_all s.pos chunk s.world in
      let s' = record s { world = w } in
      elim read [
        | got bytes ↦ after_read c bytes chunk s'
        | failed err ↦ fail_chunk c ExtentStatus.read_err (text "read error") err chunk s'
      ]

  pub round : Config F → Rewrite F W → RoundEnd (Rewrite F W)
  round c s =
      let (go_on, w) = h.wait_if_paused s.world in
      let s' = record s { world = w } in
      let chunk = chunk_at c s.pos in
      if ltb s.pos c.end
      then (if go_on
          then (if chunk == 0 then done s' else again (rewrite_chunk c chunk s'))
          else stop (record s' { ok = false }))
      else done s

  pub loop : ℕ → Config F → Rewrite F W → LoopEnd (Rewrite F W)
  loop zero c s = out_of_fuel
  loop (suc fuel) c s = elim (round c s) [
    | done t ↦ finished t
    | stop t ↦ stopped t
    | again t ↦ loop fuel c t
  ]

pub record BlockIoResult : Type 0 where
  pub ok : Bool
  pub errors : List RewriteExtent

-- What `rewrite_range` leaves: its result, the progress object and the world.
pub record Outcome (F W : Type 0) : Type 0 where
  pub result : BlockIoResult
  pub progress : Progress F
  pub world : W

pub round_up : ℕ → ℕ → ℕ
round_up n align = (n + (align - 1)) % u64_mod / align * align % u64_mod

-- Why the function returns before its loop, if it does.
pub refusal : Bool → Bool → Bool → Option Text
refusal buf no_verify_buf no_direct =
    if not buf
    then some (text ": aligned buffer alloc failed")
    else if no_verify_buf
    then some (text ": verify buffer alloc failed")
    else if no_direct
    then some (text ": Verify writes needs O_DIRECT (unavailable on this target)")
    else none

module _ {F W : Type 0} ⦃fl : Double F⦄ (h : Host W) where
  outcome_of : Rewrite F W → Outcome F W
  outcome_of s = record {
    result = record { ok = s.ok; errors = s.errors };
    progress = s.progress;
    world = s.world;
  }

  pub config : ℕ → ℕ → ℕ → RewriteFlags → Text → Config F
  unfolding is_write_through round_up
  config offset len block_size flags object_path =
      let block = if block_size == 0 then 4096 else block_size in
      let align = if h.direct_align == 0 then 4096 else h.direct_align in
      let need =
        (is_write_through flags.write_cache || flags.verify_writes) && not flags.verify_only in
      let ms = if flags.flush_poll_ms == 0 then 780 else flags.flush_poll_ms in
      record {
        flags = flags;
        align = align;
        block_size = if need && not (block % align == 0) then round_up block align else block;
        need_direct = need;
        poll_sec = fl.div (fl.of_ℕ ms) (fl.of_ℕ 1000);
        end = (offset + len) % u64_mod;
        object_path = object_path;
        scratch = none;
      }

  pub start : ℕ → Progress F → W → Rewrite F W
  start offset p w = record {
    world = w;
    progress = record p { readings = p.readings + 1 };
    ok = true;
    errors = [];
    pos = offset;
    cached_from = 0;
    cached_to = 0;
    have_cached = false;
    last_poll = p.clock p.readings;
  }

  -- An early return, before the loop, with an error line in the log.
  pub refuse : Config F → Text → Progress F → W → Outcome F W
  refuse c why p w = record {
    result = record { ok = false; errors = [] };
    progress = message LogLevel.error (c.object_path ++ why) p;
    world = w;
  }

  -- After the loop: the cached range is asked for a last time.
  pub finish : Config F → LoopEnd (Rewrite F W) → Option (Outcome F W)
  unfolding outcome_of
  finish c (finished s) =
      some (outcome_of (if s.have_cached then (maybe_promote h c true s).1 else s))
  finish c (stopped s) = some (outcome_of s)
  finish c out_of_fuel = none

  -- The two buffers, of one block each, and what the loop then works with.
  abbrev pub allocated : Config F → W → Bool × Bool × W
  allocated c w =
      let (buf, w1) = h.allocate c.align c.block_size w in
      let (verify_buf, w2) = h.allocate c.align c.block_size w1 in (buf, verify_buf, w2)

  abbrev pub with_scratch : Config F → W → Config F
  with_scratch c w = record c { scratch = if (allocated c w).1 then some c.block_size else none }

  -- `none` stands for a loop that has not ended after a round for each byte of the range.
  pub rewrite_range : ℕ → ℕ → ℕ → RewriteFlags → Progress F → Text → W → Option (Outcome F W)
  rewrite_range offset len block_size flags p object_path w =
      let c = config offset len block_size flags object_path in
      let verifying = flags.verify_writes && not flags.verify_only in
      let (buf, verify_buf, w') = allocated c w in
      let c' = with_scratch c w in
      elim (refusal buf (verifying && not verify_buf) (verifying && not h.has_direct)) [
        | some why ↦ some (refuse c why p w')
        | none ↦ finish c' (loop h (suc (c.end - offset)) c' (start offset p w'))
      ]

pub Read-cases :
    (r : Read) → ((bytes : List ℕ) × (r ≡ got bytes)) ⊎ ((err : Text) × (r ≡ failed err))
Read-cases (got bytes) = inl (bytes, refl)
Read-cases (failed err) = inr (err, refl)

-- ===== src/BlockIo/Content.antt =====
-- `rewrite_range` (src/io/block_io.cpp) and the bytes of the target.
use reflash.Base.{
  ℕ, suc, ◌+◌, ◌-◌, ◌<◌, ◌≡◌, inl, inr, refl, Bool, true, false, Option, none, some, List, arith,
  length, byte, Text, ◌∙◌, sym,
}
use reflash.Progress.{CellStatus, Double, Progress, mark_cell}
use reflash.BlockIo.Loop.{
  RoundHolds, LoopHolds, resumed, round_rule, loop_rule, rewrite_range_cases,
}
use reflash.BlockIo.{
  config, refuse, with_scratch, allocated, FlushProbe, RewriteFlags, Read, got, failed, Host,
  Rewrite, Config, LoopEnd, finished, stopped, out_of_fuel, Outcome, verify_against_media,
  compare_media, maybe_promote, fail_chunk, pass_chunk, write_chunk, verify_chunk, note_cached,
  mark_written, after_write, after_read, rewrite_chunk, Read-cases, chunk_at, round, loop, finish,
  start, rewrite_range,
}

-- `bytes` is what stands from `offset` on.
abbrev pub Holds : (ℕ → ℕ) → List ℕ → ℕ → Type 0
Holds view bytes offset = (k : ℕ) → k < length bytes → byte bytes k ≡ view (offset + k)

-- The bytes of the target in two states of the world are the same.
abbrev pub Same : {W : Type 0} → (W → ℕ → ℕ) → W → W → Type 0
Same view w w' = (i : ℕ) → view w' i ≡ view w i

-- What the code relies on. A successful read delivers what stands there, and only a write changes
-- a byte. A write puts some of its bytes in their place, all of them if it succeeds: so one that
-- is handed what stands there already changes nothing, also if it fails half way.
pub record IsFaithful {W : Type 0} (view : W → ℕ → ℕ) (h : Host W) : Type 0 where
  pub read_holds :
      (offset len : ℕ) (w : W) {bytes : List ℕ}
      → (h.pread_all offset len w).0 ≡ got bytes
      → Holds (view w) bytes offset
  pub read_same : (offset len : ℕ) (w : W) → Same view w (h.pread_all offset len w).1
  pub read_direct_same : (offset len : ℕ) (w : W) → Same view w (h.pread_direct offset len w).1
  pub write_same :
      (bytes : List ℕ) (offset : ℕ) (w : W)
      → Holds (view w) bytes offset
      → Same view w (h.pwrite_all bytes offset w).1
  pub write_sync_same :
      (bytes : List ℕ) (offset : ℕ) (w : W)
      → Holds (view w) bytes offset
      → Same view w (h.pwrite_sync bytes offset w).1
  pub write_direct_same :
      (bytes : List ℕ) (offset : ℕ) (w : W)
      → Holds (view w) bytes offset
      → Same view w (h.pwrite_direct bytes offset w).1
  pub flush_same : (offset len : ℕ) (w : W) → Same view w (h.wait_flushed offset len w)
  pub query_same :
      (probe : FlushProbe) (offset len : ℕ) (w : W)
      → Same view w (h.query_flush_state probe offset len w).1
  pub pause_same : (w : W) → Same view w (h.wait_if_paused w).1
  pub allocate_same : (align size : ℕ) (w : W) → Same view w (h.allocate align size w).1

compare_media-world : {W : Type 0} (bytes : List ℕ) (r : Read × W) → (compare_media bytes r).1 ≡ r.1
unfolding compare_media
compare_media-world bytes (got found, w) = refl
compare_media-world bytes (failed err, w) = refl

module _ {W : Type 0} (h : Host W) (view : W → ℕ → ℕ) (law : IsFaithful view h) where
  Same-compare :
      (bytes : List ℕ) (offset len : ℕ) (scratch : Option ℕ) (w : W)
      → Same view w (verify_against_media h bytes offset len scratch w).1
  unfolding verify_against_media
  Same-compare bytes offset len none w i = ground arith
  Same-compare bytes offset len (some n) w i = ground (
    arith,
    law.read_direct_same offset len w i,
    compare_media-world bytes (h.pread_direct offset len w),
  )

module _ {F W : Type 0} ⦃fl : Double F⦄ (h : Host W) (view : W → ℕ → ℕ)
    (law : IsFaithful view h) where
  Same-promote :
      (c : Config F) (force : Bool) (s : Rewrite F W)
      → Same view s.world (maybe_promote h c force s).1.world
  unfolding maybe_promote
  Same-promote c force s i = ground (
    arith,
    law.query_same FlushProbe.mincore s.cached_from (s.cached_to - s.cached_from) s.world i,
    law.query_same FlushProbe.cachestat s.cached_from (s.cached_to - s.cached_from) s.world i,
  )

  Same-mark_written :
      (c : Config F) (chunk : ℕ) (s : Rewrite F W)
      → Same view s.world (mark_written h c chunk s).world
  unfolding mark_written
  Same-mark_written c chunk s i =
      let marked = record s { progress = mark_cell s.pos chunk CellStatus.cached s.progress } in
      ground (arith, Same-promote c false (note_cached chunk marked) i)

  Same-verify :
      (c : Config F) (bytes : List ℕ) (chunk pos : ℕ) (w : W)
      → Same view w (verify_chunk h c bytes chunk pos w).1
  unfolding verify_chunk
  Same-verify c bytes chunk pos w i = ground (
    arith,
    law.flush_same pos chunk w i,
    Same-compare h view law bytes pos chunk c.scratch w i,
    Same-compare h view law bytes pos chunk c.scratch (h.wait_flushed pos chunk w) i,
  )

  Same-write :
      (c : Config F) (bytes : List ℕ) (chunk pos : ℕ) (w : W)
      → Holds (view w) bytes pos
      → Same view w (write_chunk h c bytes chunk pos w).1
  unfolding write_chunk
  Same-write c bytes chunk pos w held i = ground (
    arith,
    law.write_same bytes pos w held i,
    law.write_sync_same bytes pos w held i,
    law.write_direct_same bytes pos w held i,
  )

  Same-after_write :
      (c : Config F) (bytes : List ℕ) (chunk : ℕ) (s : Rewrite F W)
      → Same view s.world (after_write h c bytes chunk s).world
  unfolding after_write fail_chunk pass_chunk
  Same-after_write c bytes chunk s i =
      let w = (verify_chunk h c bytes chunk s.pos s.world).1 in
      ground (
        arith,
        Same-verify c bytes chunk s.pos s.world i,
        Same-mark_written c chunk (record s { world = w }) i,
        Same-mark_written c chunk s i,
      )

  Same-after_read :
      (c : Config F) (bytes : List ℕ) (chunk : ℕ) (s : Rewrite F W)
      → Holds (view s.world) bytes s.pos
      → Same view s.world (after_read h c bytes chunk s).world
  unfolding after_read fail_chunk pass_chunk
  Same-after_read c bytes chunk s held i =
      let w = (write_chunk h c bytes chunk s.pos s.world).1 in
      ground (
        arith,
        Same-write c bytes chunk s.pos s.world held i,
        Same-after_write c bytes chunk (record s { world = w }) i,
      )

  Same-rewrite_chunk :
      (c : Config F) (chunk : ℕ) (s : Rewrite F W)
      → Same view s.world (rewrite_chunk h c chunk s).world
  unfolding rewrite_chunk fail_chunk
  Same-rewrite_chunk c chunk s i =
      let w = (h.pread_all s.pos chunk s.world).1 in
      let same = law.read_same s.pos chunk s.world in
      elim (Read-cases (h.pread_all s.pos chunk s.world).0) [
        | inr (err, e) ↦ rw (e, rewrite_chunk) (same i)
        | inl (bytes, e) ↦
            let held : Holds (view w) bytes s.pos =
              λ k lt. law.read_holds s.pos chunk s.world e k lt ∙ sym (same (s.pos + k)) in
            rw (e, rewrite_chunk)
              (Same-after_read c bytes chunk (record s { world = w }) held i ∙ same i)
      ]

  Same-round :
      (c : Config F) (w : W) (s : Rewrite F W)
      → Same view w s.world
      → RoundHolds (λ (t : Rewrite F W). Same view w t.world) (round h c s)
  Same-round c w s same =
      let woken : Same view w (h.wait_if_paused s.world).1 =
        λ i. law.pause_same s.world i ∙ same i in
      round_rule h c (λ (t : Rewrite F W). Same view w t.world) s same woken woken
        (λ _ _ i. Same-rewrite_chunk c (chunk_at c s.pos) (resumed h c s) i ∙ woken i)

  Same-loop :
      (fuel : ℕ) (c : Config F) (w : W) (s : Rewrite F W)
      → Same view w s.world
      → LoopHolds (λ (t : Rewrite F W). Same view w t.world) (loop h fuel c s)
  Same-loop fuel c w s same =
      loop_rule h c (λ (t : Rewrite F W). Same view w t.world) (λ t. Same-round c w t) fuel s same

  Same-finish :
      (c : Config F) (w : W) (e : LoopEnd (Rewrite F W)) (o : Outcome F W)
      → LoopHolds (λ (t : Rewrite F W). Same view w t.world) e
      → finish h c e ≡ some o
      → Same view w o.world
  unfolding finish
  Same-finish c w (finished s) o same e i = ground (arith, Same-promote c true s i, same i)
  Same-finish c w (stopped s) o same e i = ground (arith, same i)
  Same-finish c w out_of_fuel o same e i = cc

  -- The massage leaves every byte of the target as it was: on success, after read, write and
  -- verify errors, after a stop, and where it refuses to start. It holds of any host that reads
  -- what stands there and writes nothing but what it is handed.
  pub rewrite_range-Same :
      (offset len block_size : ℕ) (flags : RewriteFlags) (p : Progress F) (path : Text) (w : W)
      (o : Outcome F W)
      → rewrite_range h offset len block_size flags p path w ≡ some o
      → Same view w o.world
  unfolding refuse start
  rewrite_range-Same offset len block_size flags p path w o e =
      let c = config {F = F} h offset len block_size flags path in
      let c' = with_scratch h c w in
      let w1 = (h.allocate c.align c.block_size w).1 in
      let w' = (allocated h c w).2 in
      let fresh : Same view w w' = λ i.
        law.allocate_same c.align c.block_size w1 i ∙ law.allocate_same c.align c.block_size w i in
      elim (rewrite_range_cases h offset len block_size flags p path w o e) [
        | inl (why, refused) ↦ rw refused fresh
        | inr ran ↦
            Same-finish c' w (loop h (suc (c.end - offset)) c' (start h offset p w')) o
              (Same-loop (suc (c.end - offset)) c' w (start h offset p w') fresh) ran
      ]

-- ===== src/BlockIo/Steps.antt =====
-- What one round of `rewrite_range` does to its position, its report and the byte counters.
use reflash.Base.{
  ℕ, ◌+◌, ◌-◌, ◌≤◌, ◌<◌, ◌≡◌, ◌⊎◌, inl, inr, refl, Bool, true, false, Option-cases, Bool-cases,
  List, [], ◌∷◌, ◌++◌, arith, Text, u64_mod,
}
use reflash.Progress.{CellStatus, Double, mark_cell, log}
use reflash.Progress.Bytes.{IsQuiet, mark_cell-IsQuiet, log-IsQuiet, add_done-bytes, add_done-total}
use reflash.BlockIo.{
  ExtentStatus, RewriteExtent, Host, Rewrite, Config, maybe_promote, fail_chunk, pass_chunk,
  note_cached, mark_written, write_chunk, verify_chunk, after_write, after_read, rewrite_chunk,
  Read-cases, has_text, cell_of, line,
}

pub is_failure : ExtentStatus → Bool
is_failure ExtentStatus.ok = false
is_failure _ = true

-- The extent that a failed chunk leaves in the report.
abbrev pub extent : ℕ → ℕ → ExtentStatus → RewriteExtent
extent pos chunk status = record { offset = pos; length = chunk; status = status }

module _ {F W : Type 0} where
  -- From `s` to `t` one chunk is done with: either nothing is reported, or the chunk is.
  pub record IsStep (chunk : ℕ) (s t : Rewrite F W) : Type 0 where
    pub moved : t.pos ≡ s.pos + chunk
    pub total : t.progress.bytes_total ≡ s.progress.bytes_total
    pub counted :
        s.progress.bytes_done + chunk ≤ s.progress.bytes_total
        → s.progress.bytes_total < u64_mod
        → t.progress.bytes_done ≡ s.progress.bytes_done + chunk
    pub reported :
        ((t.errors ≡ s.errors) × (t.ok ≡ s.ok))
        ⊎ ((status : ExtentStatus) × (is_failure status ≡ true)
            × (t.errors ≡ s.errors ++ extent s.pos chunk status ∷ [])
            × (t.ok ≡ false))

  -- Between `s` and `t` only the cells, the log, the world and the cached range change.
  pub record IsAside (s t : Rewrite F W) : Type 0 where
    pub same_pos : t.pos ≡ s.pos
    pub same_errors : t.errors ≡ s.errors
    pub same_ok : t.ok ≡ s.ok
    pub quiet : IsQuiet s.progress t.progress

module _ {F W : Type 0} ⦃fl : Double F⦄ where
  fail_chunk-IsStep :
      (c : Config F) (status : ExtentStatus) (what err : Text) (chunk : ℕ) (s t : Rewrite F W)
      → is_failure status ≡ true
      → IsAside s t
      → IsStep chunk s (fail_chunk c status what err chunk t)
  unfolding fail_chunk
  fail_chunk-IsStep c status what err chunk s t bad aside =
      let p =
        log t.pos chunk (cell_of status) (line c.object_path what t.pos chunk err) t.progress in
      let quiet =
        log-IsQuiet t.pos chunk (cell_of status) (line c.object_path what t.pos chunk err)
          t.progress in
      record {
        moved = omega (arith, aside.same_pos);
        total = omega (arith, quiet.same_total, aside.quiet.same_total, add_done-total chunk p);
        counted = λ room word. ground (arith, add_done-bytes chunk p, quiet, aside);
        reported = inr (status, bad, cc, refl);
      }

  pass_chunk-IsStep :
      (chunk : ℕ) (s t : Rewrite F W) → IsAside s t → IsStep chunk s (pass_chunk chunk t)
  unfolding pass_chunk
  pass_chunk-IsStep chunk s t aside = record {
    moved = omega (arith, aside.same_pos);
    total = omega (arith, aside.quiet.same_total, add_done-total chunk t.progress);
    counted = λ room word. ground (arith, add_done-bytes chunk t.progress, aside);
    reported = inl (aside.same_errors, aside.same_ok);
  }

module _ {F W : Type 0} ⦃fl : Double F⦄ (h : Host W) where
  pub maybe_promote-IsAside :
      (c : Config F) (force : Bool) (s : Rewrite F W) → IsAside s (maybe_promote h c force s).1
  unfolding maybe_promote
  maybe_promote-IsAside c force s =
      let p = record s.progress { readings = s.progress.readings + 1 } in
      ground (arith, mark_cell-IsQuiet s.cached_from (s.cached_to - s.cached_from) CellStatus.ok p)

  mark_written-IsAside :
      (c : Config F) (chunk : ℕ) (s t : Rewrite F W)
      → IsAside s t
      → IsAside s (mark_written h c chunk t)
  unfolding mark_written
  mark_written-IsAside c chunk s t aside =
      let p = mark_cell t.pos chunk CellStatus.cached t.progress in
      ground (
        arith,
        mark_cell-IsQuiet t.pos chunk CellStatus.ok t.progress,
        mark_cell-IsQuiet t.pos chunk CellStatus.cached t.progress,
        maybe_promote-IsAside c false (note_cached chunk (record t { progress = p })),
      )

  after_write-IsStep :
      (c : Config F) (bytes : List ℕ) (chunk : ℕ) (s t : Rewrite F W)
      → IsAside s t
      → IsStep chunk s (after_write h c bytes chunk t)
  unfolding after_write is_failure
  after_write-IsStep c bytes chunk s t aside =
      let w = (verify_chunk h c bytes chunk t.pos t.world).1 in
      let verr = (verify_chunk h c bytes chunk t.pos t.world).0 in
      let t' = record t { world = w } in
      let aside' : IsAside s t' = record {
        same_pos = aside.same_pos;
        same_errors = aside.same_errors;
        same_ok = aside.same_ok;
        quiet = aside.quiet;
      } in
      elim (Bool-cases c.flags.verify_writes) [
        | inr off ↦ simp off (pass_chunk-IsStep chunk s _ (mark_written-IsAside c chunk s t aside))
        | inl on ↦ simp on (elim (Bool-cases (has_text verr)) [
          | inl bad ↦
              simp bad (fail_chunk-IsStep c ExtentStatus.write_err _ verr chunk s t' refl aside')
          | inr good ↦
              simp good (pass_chunk-IsStep chunk s _ (mark_written-IsAside c chunk s t' aside'))
        ])
      ]

  after_read-IsStep :
      (c : Config F) (bytes : List ℕ) (chunk : ℕ) (s t : Rewrite F W)
      → IsAside s t
      → IsStep chunk s (after_read h c bytes chunk t)
  unfolding after_read is_failure
  after_read-IsStep c bytes chunk s t aside =
      let w = (write_chunk h c bytes chunk t.pos t.world).1 in
      let t' = record t { world = w } in
      let aside' : IsAside s t' = record {
        same_pos = aside.same_pos;
        same_errors = aside.same_errors;
        same_ok = aside.same_ok;
        quiet = aside.quiet;
      } in
      let seen = record t { progress = mark_cell t.pos chunk CellStatus.ok t.progress } in
      let quiet = mark_cell-IsQuiet t.pos chunk CellStatus.ok t.progress in
      let marked : IsAside s seen = record {
        same_pos = aside.same_pos;
        same_errors = aside.same_errors;
        same_ok = aside.same_ok;
        quiet = omega (
          arith, quiet.same_done, quiet.same_total, aside.quiet.same_done, aside.quiet.same_total,
        );
      } in
      elim (Bool-cases c.flags.verify_only) [
        | inl dry ↦ simp dry (pass_chunk-IsStep chunk s seen marked)
        | inr wet ↦ simp wet (elim (Option-cases (write_chunk h c bytes chunk t.pos t.world).0) [
          | inl wrote ↦ simp wrote (after_write-IsStep c bytes chunk s t' aside')
          | inr (err, e) ↦
              simp e (fail_chunk-IsStep c ExtentStatus.write_err _ err chunk s t' refl aside')
        ])
      ]

  -- Every round that takes a chunk is a step by that chunk.
  pub rewrite_chunk-IsStep :
      (c : Config F) (chunk : ℕ) (s : Rewrite F W) → IsStep chunk s (rewrite_chunk h c chunk s)
  unfolding rewrite_chunk is_failure
  rewrite_chunk-IsStep c chunk s =
      let w = (h.pread_all s.pos chunk s.world).1 in
      let s' = record s { world = w } in
      let aside : IsAside s s' = record {
        same_pos = refl;
        same_errors = refl;
        same_ok = refl;
        quiet = record { same_done = refl; same_total = refl };
      } in
      elim (Read-cases (h.pread_all s.pos chunk s.world).0) [
        | inr (err, e) ↦
            rw (e, rewrite_chunk)
              (fail_chunk-IsStep c ExtentStatus.read_err _ err chunk s s' refl aside)
        | inl (bytes, e) ↦ rw (e, rewrite_chunk) (after_read-IsStep c bytes chunk s s' aside)
      ]

-- ===== src/BlockIo/DryRun.antt =====
-- Dry run, the flag `verify_only` of `rewrite_range` (src/io/block_io.cpp).
use reflash.Base.{ℕ, suc, ◌-◌, ◌≡◌, inl, inr, refl, Bool, true, some, List, arith, Text, ◌∙◌}
use reflash.Progress.{Double, Progress}
use reflash.BlockIo.Loop.{LoopHolds, resumed, round_rule, loop_rule, rewrite_range_cases}
use reflash.BlockIo.{
  FlushProbe, RewriteFlags, Read-cases, Host, Rewrite, Config, LoopEnd, finished, stopped,
  out_of_fuel, Outcome, maybe_promote, after_read, rewrite_chunk, chunk_at, loop, finish, start,
  rewrite_range, config, refuse, with_scratch, allocated, fail_chunk, pass_chunk,
}

-- `look` is anything of the world that a buffered read, the pause, the allocator and the flush
-- probe leave alone: the time stamp of the file, say, or the count of writes. Nothing is asked of
-- the calls that write.
pub record IsLook {A W : Type 0} (look : W → A) (h : Host W) : Type 0 where
  pub read_same : (offset len : ℕ) (w : W) → look (h.pread_all offset len w).1 ≡ look w
  pub query_same :
      (probe : FlushProbe) (offset len : ℕ) (w : W)
      → look (h.query_flush_state probe offset len w).1 ≡ look w
  pub pause_same : (w : W) → look (h.wait_if_paused w).1 ≡ look w
  pub allocate_same : (align size : ℕ) (w : W) → look (h.allocate align size w).1 ≡ look w

module _ {F W A : Type 0} ⦃fl : Double F⦄ (h : Host W) (look : W → A) (law : IsLook look h) where
  look-after_read :
      (c : Config F) (bytes : List ℕ) (chunk : ℕ) (s : Rewrite F W)
      → c.flags.verify_only ≡ true
      → look (after_read h c bytes chunk s).world ≡ look s.world
  unfolding after_read pass_chunk
  look-after_read c bytes chunk s dry = simp dry refl

  look-rewrite_chunk :
      (c : Config F) (chunk : ℕ) (s : Rewrite F W)
      → c.flags.verify_only ≡ true
      → look (rewrite_chunk h c chunk s).world ≡ look s.world
  unfolding rewrite_chunk fail_chunk
  look-rewrite_chunk c chunk s dry =
      let w = (h.pread_all s.pos chunk s.world).1 in
      let same = law.read_same s.pos chunk s.world in
      elim (Read-cases (h.pread_all s.pos chunk s.world).0) [
        | inr (err, e) ↦ rw (e, rewrite_chunk) same
        | inl (bytes, e) ↦
            rw (e, rewrite_chunk)
              (look-after_read c bytes chunk (record s { world = w }) dry ∙ same)
      ]

  look-loop :
      (fuel : ℕ) (c : Config F) (w : W) (s : Rewrite F W)
      → c.flags.verify_only ≡ true
      → look s.world ≡ look w
      → LoopHolds (λ (t : Rewrite F W). look t.world ≡ look w) (loop h fuel c s)
  look-loop fuel c w s dry same =
      loop_rule h c (λ (t : Rewrite F W). look t.world ≡ look w)
        (λ t e.
          let woken = law.pause_same t.world ∙ e in
          round_rule h c (λ (u : Rewrite F W). look u.world ≡ look w) t e woken woken
            (λ _ _. look-rewrite_chunk c (chunk_at c t.pos) (resumed h c t) dry ∙ woken))
        fuel s same

  look-promote :
      (c : Config F) (force : Bool) (s : Rewrite F W)
      → look (maybe_promote h c force s).1.world ≡ look s.world
  unfolding maybe_promote
  look-promote c force s =
      let size = s.cached_to - s.cached_from in
      ground (
        arith,
        law.query_same FlushProbe.mincore s.cached_from size s.world,
        law.query_same FlushProbe.cachestat s.cached_from size s.world,
      )

  look-finish :
      (c : Config F) (w : W) (e : LoopEnd (Rewrite F W)) (o : Outcome F W)
      → LoopHolds (λ (t : Rewrite F W). look t.world ≡ look w) e
      → finish h c e ≡ some o
      → look o.world ≡ look w
  unfolding finish
  look-finish c w (finished s) o same e = ground (arith, look-promote c true s, same)
  look-finish c w (stopped s) o same e = ground (arith, same)
  look-finish c w out_of_fuel o same e = cc

  -- A dry run changes nothing that reading does not change, whatever the calls that write would
  -- do: it makes none of them.
  pub dry_run-look :
      (offset len block_size : ℕ) (flags : RewriteFlags) (p : Progress F) (path : Text) (w : W)
      (o : Outcome F W)
      → flags.verify_only ≡ true
      → rewrite_range h offset len block_size flags p path w ≡ some o
      → look o.world ≡ look w
  unfolding refuse start config
  dry_run-look offset len block_size flags p path w o dry e =
      let c = config {F = F} h offset len block_size flags path in
      let c' = with_scratch h c w in
      let w1 = (h.allocate c.align c.block_size w).1 in
      let w' = (allocated h c w).2 in
      let fresh : look w' ≡ look w =
        law.allocate_same c.align c.block_size w1 ∙ law.allocate_same c.align c.block_size w in
      elim (rewrite_range_cases h offset len block_size flags p path w o e) [
        | inl (why, refused) ↦ rw refused fresh
        | inr ran ↦
            look-finish c' w (loop h (suc (c.end - offset)) c' (start h offset p w')) o
              (look-loop (suc (c.end - offset)) c' w (start h offset p w') dry fresh) ran
      ]

-- ===== src/BlockIo/Errors.antt =====
-- The report of `rewrite_range`: which extents it lists, and what its verdict means.
use reflash.Base.{
  ℕ, suc, ◌+◌, ◌-◌, ◌%◌, ◌≤◌, ◌<◌, ◌≡◌, ◌⊎◌, inl, inr, refl, true, false, some, List, [], ◌∷◌, ◌++◌,
  arith, Text, u64_mod, ◌∙◌,
}
use reflash.Progress.{Double, Progress}
use reflash.Progress.Bytes.{IsQuiet}
use reflash.BlockIo.Loop.{
  RoundHolds, LoopHolds, resumed, round_rule, loop_rule, rewrite_range_cases,
}
use reflash.BlockIo.Steps.{IsStep, rewrite_chunk-IsStep, maybe_promote-IsAside, is_failure, extent}
use reflash.BlockIo.{
  ExtentStatus, RewriteExtent, RewriteFlags, Host, Rewrite, Config, Outcome, LoopEnd, finished,
  stopped, out_of_fuel, chunk_at, rewrite_chunk, round, loop, finish, start, refuse, config,
  with_scratch, allocated, rewrite_range,
}

-- The extents lie between `low` and `high` in ascending order, none is empty, none overlaps the
-- next, and each says what failed.
abbrev pub Chain : ℕ → List RewriteExtent → ℕ → Type 0
Chain low [] high = low ≤ high
Chain low (e ∷ es) high =
    (low ≤ e.offset)
    × (0 < e.length)
    × (is_failure e.status ≡ true)
    × Chain (e.offset + e.length) es high

Chain-weaken :
    (low : ℕ) (es : List RewriteExtent) (high high' : ℕ)
    → Chain low es high
    → high ≤ high'
    → Chain low es high'
Chain-weaken low [] high high' h le = omega arith
Chain-weaken low (e ∷ es) high high' h le =
    (h.0, h.1, h.2, Chain-weaken (e.offset + e.length) es high high' h.3 le)

Chain-snoc :
    (low : ℕ) (es : List RewriteExtent) (pos chunk : ℕ) (status : ExtentStatus)
    → Chain low es pos
    → 0 < chunk
    → is_failure status ≡ true
    → Chain low (es ++ extent pos chunk status ∷ []) (pos + chunk)
Chain-snoc low [] pos chunk status h some_bytes bad = (h, some_bytes, bad, omega arith)
Chain-snoc low (e ∷ es) pos chunk status h some_bytes bad =
    (h.0, h.1, h.2, Chain-snoc (e.offset + e.length) es pos chunk status h.3 some_bytes bad)

pub chunk_at-le : {F : Type 0} (c : Config F) (pos : ℕ) → chunk_at c pos ≤ c.end - pos
unfolding chunk_at
chunk_at-le c pos = ground arith

module _ {F W : Type 0} ⦃fl : Double F⦄ (h : Host W) (c : Config F) (offset : ℕ)
    (p : Progress F) where
  -- What holds before each round.
  pub record IsReport (s : Rewrite F W) : Type 0 where
    pub low : offset ≤ s.pos
    pub high : s.pos ≤ c.end
    pub chain : Chain offset s.errors s.pos
    pub verdict : s.ok ≡ true → s.errors ≡ []
    pub total : s.progress.bytes_total ≡ p.bytes_total
    pub counted :
        p.bytes_done + (c.end - offset) ≤ p.bytes_total
        → p.bytes_total < u64_mod
        → s.progress.bytes_done + offset ≡ p.bytes_done + s.pos

  IsReport-step :
      (s t : Rewrite F W) (chunk : ℕ)
      → IsReport s
      → 0 < chunk
      → chunk ≤ c.end - s.pos
      → IsStep chunk s t
      → IsReport t
  IsReport-step s t chunk r some_bytes fits step = record {
    low = omega (arith, r.low, step.moved);
    high = omega (arith, r.high, step.moved, some_bytes);
    chain = elim step.reported [
      | inl (same, _) ↦
          rw (same, step.moved)
            (Chain-weaken offset s.errors s.pos (s.pos + chunk) r.chain (omega arith))
      | inr (status, bad, more, _) ↦
          rw (more, step.moved)
            (Chain-snoc offset s.errors s.pos chunk status r.chain some_bytes bad)
    ];
    verdict = λ good. elim step.reported [
      | inl (same, verdict) ↦ rw same (r.verdict (cc))
      | inr (status, bad, more, wrong) ↦ cc
    ];
    total = omega (arith, r.total, step.total);
    counted = λ room word.
        let before = r.counted room word in
        let more = step.counted (omega (arith, before, r.total, r.low)) (omega (arith, r.total)) in
        omega (arith, before, more, step.moved);
  }

  IsReport-resumed : (s : Rewrite F W) → IsReport s → IsReport (resumed h c s)
  IsReport-resumed s r = record {
    low = r.low;
    high = r.high;
    chain = r.chain;
    verdict = r.verdict;
    total = r.total;
    counted = r.counted;
  }

  IsReport-halted :
      (s : Rewrite F W) → IsReport s → IsReport (record (resumed h c s) { ok = false })
  IsReport-halted s r = record {
    low = r.low;
    high = r.high;
    chain = r.chain;
    verdict = λ good. cc;
    total = r.total;
    counted = r.counted;
  }

  IsReport-round : (s : Rewrite F W) → IsReport s → RoundHolds IsReport (round h c s)
  IsReport-round s r =
      let s' = resumed h c s in
      let chunk = chunk_at c s.pos in
      round_rule h c IsReport s r (IsReport-resumed s r) (IsReport-halted s r) (λ more some_bytes.
        IsReport-step s' (rewrite_chunk h c chunk s') chunk (IsReport-resumed s r) (ground arith)
          (chunk_at-le c s.pos) (rewrite_chunk-IsStep h c chunk s'))

  pub IsReport-loop :
      (fuel : ℕ) (s : Rewrite F W) → IsReport s → LoopHolds IsReport (loop h fuel c s)
  IsReport-loop fuel s r = loop_rule h c IsReport IsReport-round fuel s r

  pub IsReport-start : (w : W) → offset ≤ c.end → IsReport (start h offset p w)
  unfolding start
  IsReport-start w le = record {
    low = omega arith;
    high = le;
    chain = omega arith;
    verdict = λ good. refl;
    total = refl;
    counted = λ room word. refl;
  }

module _ {F W : Type 0} ⦃fl : Double F⦄ (h : Host W) where
  -- What is returned is the report of the state that the loop left.
  pub finish-eq-some :
      (c : Config F) (e : LoopEnd (Rewrite F W)) (o : Outcome F W)
      → finish h c e ≡ some o
      → (s : Rewrite F W) × ((e ≡ finished s) ⊎ (e ≡ stopped s))
        × (o.result.errors ≡ s.errors)
        × (o.result.ok ≡ s.ok)
        × IsQuiet s.progress o.progress
  unfolding finish
  finish-eq-some c (finished s) o eq =
      let aside = maybe_promote-IsAside h c true s in
      let same : (o.result.errors ≡ s.errors)
          × (o.result.ok ≡ s.ok)
          × IsQuiet s.progress o.progress =
        ground (arith, aside) in
      (s, inl refl, same.0, same.1, same.2)
  finish-eq-some c (stopped s) o eq =
      let same : (o.result.errors ≡ s.errors)
          × (o.result.ok ≡ s.ok)
          × IsQuiet s.progress o.progress =
        ground arith in
      (s, inr refl, same.0, same.1, same.2)
  finish-eq-some c out_of_fuel o eq = cc

  pub LoopHolds-ended {ℓ} :
      (P : Rewrite F W → Type ℓ) (e : LoopEnd (Rewrite F W)) (s : Rewrite F W)
      → LoopHolds P e
      → (e ≡ finished s) ⊎ (e ≡ stopped s)
      → P s
  LoopHolds-ended P e s holds (inl eq) = rw eq at holds
  LoopHolds-ended P e s holds (inr eq) = rw eq at holds

  -- The extents that the massage reports lie inside the range, in ascending order, without
  -- overlap, none of them empty, each with a read or write error; and a good verdict means that
  -- there is none. The range ends within 64 bits.
  pub rewrite_range-Chain :
      (offset len block_size : ℕ) (flags : RewriteFlags) (p : Progress F) (path : Text) (w : W)
      (o : Outcome F W)
      → offset + len < u64_mod
      → rewrite_range h offset len block_size flags p path w ≡ some o
      → Chain offset o.result.errors (offset + len) × (o.result.ok ≡ true → o.result.errors ≡ [])
  unfolding refuse config
  rewrite_range-Chain offset len block_size flags p path w o word e =
      let c = config {F = F} h offset len block_size flags path in
      let c' = with_scratch h c w in
      let w' = (allocated h c w).2 in
      let ends : (offset + len) % u64_mod ≡ offset + len = omega arith in
      elim (rewrite_range_cases h offset len block_size flags p path w o e) [
        | inl (why, refused) ↦ rw refused (omega arith, λ good. refl)
        | inr ran ↦
            let begun = start h offset p w' in
            let left = loop h (suc (c.end - offset)) c' begun in
            let r0 = IsReport-start h c' offset p w' (omega arith) in
            let (s, ended, errs, verdict, quiet) = finish-eq-some c' left o ran in
            let r =
              LoopHolds-ended (IsReport h c' offset p) left s
                (IsReport-loop h c' offset p (suc (c.end - offset)) begun r0) ended in
            (
              rw (errs, ← ends) (Chain-weaken offset s.errors s.pos c.end r.chain r.high),
              λ good. errs ∙ r.verdict (cc),
            )
      ]

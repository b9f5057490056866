-- ===== src/BlockIo/Ends.antt =====
-- `rewrite_range` (src/io/block_io.cpp): the end of its loop, and the bytes it counts.
use native.Mathlib.Nat.{le-div_iff_mul-le, div-mul-le_self, mul-le-mul_right, mul-mod_left}
use reflash.Base.{
  ap, ℕ, zero, suc, ◌+◌, ◌-◌, ◌*◌, ◌/◌, ◌%◌, ◌≤◌, ◌<◌, ◌≡◌, ◌≢◌, ◌⊎◌, inl, inr, refl, true, false,
  not, ◌&&◌, some, Option-cases, [], arith, Text, u64_mod, ◌==◌, if◌then◌else◌, ◌∙◌,
}
use reflash.Progress.{Double, Progress}
use reflash.BlockIo.Loop.{resumed, rewrite_range_cases}
use reflash.BlockIo.Steps.{rewrite_chunk-IsStep}
use reflash.BlockIo.Errors.{
  chunk_at-le, IsReport, IsReport-loop, IsReport-start, finish-eq-some, LoopHolds-ended,
}
use reflash.BlockIo.{
  RewriteFlags, Host, Rewrite, Config, Outcome, RoundEnd, done, stop, again, LoopEnd, finished,
  stopped, out_of_fuel, chunk_at, round, loop, finish, start, refuse, refusal, config, with_scratch,
  allocated, rewrite_range, round_up,
}

module _ {F W : Type 0} ⦃fl : Double F⦄ (h : Host W) (c : Config F) where
  -- A round ends the loop, or it brings the position closer to the end of the range.
  round-again : (s t : Rewrite F W) → round h c s ≡ again t → (s.pos < t.pos) × (t.pos ≤ c.end)
  unfolding round
  round-again s t e =
      let step = rewrite_chunk-IsStep h c (chunk_at c s.pos) (resumed h c s) in
      ground (arith, step.moved, chunk_at-le c s.pos)

  after_round-ends :
      (fuel : ℕ) (s : Rewrite F W) (r : RoundEnd (Rewrite F W))
      → c.end - s.pos < suc fuel
      → ((t : Rewrite F W) → r ≡ again t → (s.pos < t.pos) × (t.pos ≤ c.end))
      → ((t : Rewrite F W) → c.end - t.pos < fuel → loop h fuel c t ≢ out_of_fuel)
      → (elim r as (λ x. LoopEnd (Rewrite F W)) [
        | done t ↦ finished t
        | stop t ↦ stopped t
        | again t ↦ loop h fuel c t
      ])
        ≢ out_of_fuel
  after_round-ends fuel s (done t) lt closer rec = λ eq. cc
  after_round-ends fuel s (stop t) lt closer rec = λ eq. cc
  after_round-ends fuel s (again t) lt closer rec = rec t (omega (arith, closer t refl))

  loop-ends : (fuel : ℕ) (s : Rewrite F W) → c.end - s.pos < fuel → loop h fuel c s ≢ out_of_fuel
  unfolding loop
  loop-ends zero s lt = absurd (omega arith)
  loop-ends (suc fuel) s lt =
      after_round-ends fuel s (round h c s) lt (λ t e. round-again s t e)
        (λ t closer. loop-ends fuel t closer)

  -- No chunk before the end of the range is empty.
  abbrev HasChunks : Type 0
  HasChunks = (pos : ℕ) → pos < c.end → 0 < chunk_at c pos

  -- The loop finishes at the end of the range only; a stop is a failure.
  abbrev EndsWell : LoopEnd (Rewrite F W) → Type 0
  EndsWell (finished t) = c.end ≤ t.pos
  EndsWell (stopped t) = t.ok ≡ false
  EndsWell out_of_fuel = Unit

  round-done : (s t : Rewrite F W) → HasChunks → round h c s ≡ done t → c.end ≤ t.pos
  unfolding round
  round-done s t chunks e = ground (arith, chunks s.pos)

  round-stop : (s t : Rewrite F W) → round h c s ≡ stop t → t.ok ≡ false
  unfolding round
  round-stop s t e = ground arith

  after_round-EndsWell :
      (fuel : ℕ) (r : RoundEnd (Rewrite F W))
      → ((t : Rewrite F W) → r ≡ done t → c.end ≤ t.pos)
      → ((t : Rewrite F W) → r ≡ stop t → t.ok ≡ false)
      → ((t : Rewrite F W) → EndsWell (loop h fuel c t))
      → EndsWell (elim r as (λ x. LoopEnd (Rewrite F W)) [
        | done t ↦ finished t
        | stop t ↦ stopped t
        | again t ↦ loop h fuel c t
      ])
  after_round-EndsWell fuel (done t) over halted rec = over t refl
  after_round-EndsWell fuel (stop t) over halted rec = halted t refl
  after_round-EndsWell fuel (again t) over halted rec = rec t

  loop-EndsWell : (fuel : ℕ) (s : Rewrite F W) → HasChunks → EndsWell (loop h fuel c s)
  unfolding loop
  loop-EndsWell zero s chunks = tt
  loop-EndsWell (suc fuel) s chunks =
      after_round-EndsWell fuel (round h c s) (λ t. round-done s t chunks) (λ t. round-stop s t)
        (λ t. loop-EndsWell fuel t chunks)

  -- A loop that leaves a good verdict has reached the end.
  at_end :
      (e : LoopEnd (Rewrite F W)) (s : Rewrite F W)
      → EndsWell e
      → (e ≡ finished s) ⊎ (e ≡ stopped s)
      → s.ok ≡ true
      → c.end ≤ s.pos
  at_end (finished t) s well (inl eq) good = let same : t ≡ s = cc in rw same at well
  at_end (stopped t) s well (inl eq) good = cc
  at_end (finished t) s well (inr eq) good = cc
  at_end (stopped t) s well (inr eq) good = let same : t ≡ s = cc in cc
  at_end out_of_fuel s well (inl eq) good = cc
  at_end out_of_fuel s well (inr eq) good = cc

  finish-returns :
      (e : LoopEnd (Rewrite F W)) → e ≢ out_of_fuel → (o : Outcome F W) × (finish h c e ≡ some o)
  unfolding finish
  finish-returns (finished s) ne = (_, refl)
  finish-returns (stopped s) ne = (_, refl)
  finish-returns out_of_fuel ne = absurd (ne refl)

chunk_at-pos :
    {F : Type 0} (c : Config F) (pos : ℕ)
    → 0 < c.block_size
    → (c.need_direct ≡ true → c.block_size % c.align ≡ 0)
    → pos < c.end
    → 0 < chunk_at c pos
unfolding chunk_at
chunk_at-pos c pos block cut lt = ground (arith, cut)

-- Rounding a block up to the alignment gives a positive multiple of it.
round_up-cuts :
    (n a : ℕ) → 0 < n → 0 < a → n + a ≤ u64_mod → (0 < round_up n a) × (round_up n a % a ≡ 0)
unfolding round_up
round_up-cuts n a pos apos room =
    let q = (n + (a - 1)) / a in
    let least : 1 ≤ q = (le-div_iff_mul-le {k = a} {x = 1} apos).1 (omega arith) in
    let most : q * a ≤ n + (a - 1) = div-mul-le_self (n + (a - 1)) a in
    let grown : 1 * a ≤ q * a = mul-le-mul_right a least in
    let e1 : (n + (a - 1)) % u64_mod ≡ n + (a - 1) = omega arith in
    let e2 : q * a % u64_mod ≡ q * a = omega arith in rw (e1, e2) (omega arith, mul-mod_left q a)

module _ (F : Type 0) {W : Type 0} ⦃fl : Double F⦄ (h : Host W) where
  config-end :
      (offset len block_size : ℕ) (flags : RewriteFlags) (path : Text)
      → offset + len < u64_mod
      → (config {F = F} h offset len block_size flags path).end ≡ offset + len
  unfolding config
  config-end offset len block_size flags path word = omega arith

  config-cuts :
      (offset len block_size : ℕ) (flags : RewriteFlags) (path : Text)
      → block_size + h.direct_align + 8192 ≤ u64_mod
      → let c = config {F = F} h offset len block_size flags path in
        (0 < c.block_size) × (c.need_direct ≡ true → c.block_size % c.align ≡ 0)
  unfolding config
  config-cuts offset len block_size flags path room =
      let block = if block_size == 0 then 4096 else block_size in
      let align = if h.direct_align == 0 then 4096 else h.direct_align in
      let cut = round_up-cuts block align (ground arith) (ground arith) (ground arith) in
      ground (arith, cut)

module _ {F W : Type 0} ⦃fl : Double F⦄ (h : Host W) where
  refuse-bad :
      (c : Config F) (why : Text) (p : Progress F) (w : W) (o : Outcome F W)
      → o ≡ refuse h c why p w
      → o.result.ok ≢ true
  unfolding refuse
  refuse-bad c why p w o e good = cc (ap (λ (x : Outcome F W). x.result.ok) e)

module _ {F W : Type 0} ⦃fl : Double F⦄ (h : Host W) where
  -- The massage returns: whatever the device answers, the rounds that the range has bytes for are
  -- enough.
  pub rewrite_range_returns :
      (offset len block_size : ℕ) (flags : RewriteFlags) (p : Progress F) (path : Text) (w : W)
      → (o : Outcome F W) × (rewrite_range h offset len block_size flags p path w ≡ some o)
  unfolding rewrite_range start
  rewrite_range_returns offset len block_size flags p path w =
      let c = config {F = F} h offset len block_size flags path in
      let c' = with_scratch h c w in
      let (buf, verify_buf, w') = allocated h c w in
      let verifying = flags.verify_writes && not flags.verify_only in
      let reason = refusal buf (verifying && not verify_buf) (verifying && not h.has_direct) in
      let left = loop h (suc (c.end - offset)) c' (start h offset p w') in
      elim (Option-cases reason) [
        | inl go_on ↦
            let ends = loop-ends h c' (suc (c.end - offset)) (start h offset p w') (omega arith) in
            let (o, e) = finish-returns h c' left ends in (o, rw (rewrite_range, go_on) e)
        | inr (why, stays) ↦ (refuse h c why p w', rw (rewrite_range, stays) refl)
      ]

  -- Where the verdict is good, nothing is reported and the progress object counts every byte of
  -- the range. The range and the block size, rounded up to the alignment, stay within 64 bits, and
  -- the total of the progress object has room for the range.
  pub rewrite_range_complete :
      (offset len block_size : ℕ) (flags : RewriteFlags) (p : Progress F) (path : Text) (w : W)
      (o : Outcome F W)
      → offset + len < u64_mod
      → block_size + h.direct_align + 8192 ≤ u64_mod
      → p.bytes_done + len ≤ p.bytes_total
      → p.bytes_total < u64_mod
      → rewrite_range h offset len block_size flags p path w ≡ some o
      → o.result.ok ≡ true
      → (o.result.errors ≡ []) × (o.progress.bytes_done ≡ p.bytes_done + len)
  rewrite_range_complete offset len block_size flags p path w o word block room total e good =
      let c = config {F = F} h offset len block_size flags path in
      let c' = with_scratch h c w in
      let w' = (allocated h c w).2 in
      elim (rewrite_range_cases h offset len block_size flags p path w o e) [
        | inl (why, refused) ↦ absurd (refuse-bad h c why p w' o refused good)
        | inr ran ↦
            let begun = start h offset p w' in
            let fuel = suc (c.end - offset) in
            let left = loop h fuel c' begun in
            let ends : c.end ≡ offset + len =
              config-end F h offset len block_size flags path word in
            let r0 = IsReport-start h c' offset p w' (omega arith) in
            let (s, ended, errs, verdict, quiet) = finish-eq-some h c' left o ran in
            let r =
              LoopHolds-ended h (IsReport h c' offset p) left s
                (IsReport-loop h c' offset p fuel begun r0) ended in
            let cuts = config-cuts F h offset len block_size flags path block in
            let well =
              loop-EndsWell h c' fuel begun (λ pos lt. chunk_at-pos c' pos cuts.0 cuts.1 lt) in
            let over = at_end h c' left s well ended (cc) in
            (
              errs ∙ r.verdict (cc),
              omega (arith, quiet.same_done, r.counted (omega arith) total, r.high),
            )
      ]

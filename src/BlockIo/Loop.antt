-- ===== src/BlockIo/Loop.antt =====
-- The rules by which an invariant is carried through the loop of `rewrite_range`.
use reflash.Base.{
  Option-cases, ℕ, zero, ◌≡◌, inl, inr, true, false, Bool-cases, suc, ◌-◌, ◌⊎◌, some, Text, not,
  ◌&&◌, ltb, ◌==◌,
}
use reflash.Progress.{Double, Progress}
use reflash.BlockIo.{
  Host, Rewrite, Config, LoopEnd, finished, stopped, out_of_fuel, RoundEnd, done, stop, again,
  rewrite_chunk, chunk_at, round, loop, RewriteFlags, Outcome, rewrite_range, config, with_scratch,
  allocated, refuse, refusal, finish, start,
}

-- `P` of the state that a round or the loop leaves.
abbrev pub RoundHolds {ℓ} : {S : Type 0} → (S → Type ℓ) → RoundEnd S → Type ℓ
RoundHolds P (done s) = P s
RoundHolds P (stop s) = P s
RoundHolds P (again s) = P s

abbrev pub LoopHolds {ℓ} : {S : Type 0} → (S → Type ℓ) → LoopEnd S → Type ℓ
LoopHolds P (finished s) = P s
LoopHolds P (stopped s) = P s
LoopHolds P out_of_fuel = Unit

module _ {F W : Type 0} ⦃fl : Double F⦄ (h : Host W) (c : Config F) where
  -- The state behind the pause.
  abbrev pub resumed : Rewrite F W → Rewrite F W
  resumed s = record s { world = (h.wait_if_paused s.world).1 }

  pub round_rule {ℓ} :
      (P : Rewrite F W → Type ℓ) (s : Rewrite F W)
      → P s
      → P (resumed s)
      → P (record (resumed s) { ok = false })
      → (ltb s.pos c.end ≡ true
          → (chunk_at c s.pos == 0) ≡ false
          → P (rewrite_chunk h c (chunk_at c s.pos) (resumed s)))
      → RoundHolds P (round h c s)
  unfolding round
  round_rule P s same woken halted chunk = elim (Bool-cases (ltb s.pos c.end)) [
    | inr over ↦ rw over same
    | inl more ↦ rw more (elim (Bool-cases (h.wait_if_paused s.world).0) [
      | inr off ↦ rw off halted
      | inl on ↦ rw on (elim (Bool-cases (chunk_at c s.pos == 0)) [
        | inl empty ↦ rw empty woken
        | inr some_bytes ↦ rw some_bytes (chunk more some_bytes)
      ])
    ])
  ]

  LoopHolds-round {ℓ} :
      (P : Rewrite F W → Type ℓ) (fuel : ℕ) (r : RoundEnd (Rewrite F W))
      → RoundHolds P r
      → ((s : Rewrite F W) → P s → LoopHolds P (loop h fuel c s))
      → LoopHolds P (elim r as (λ x. LoopEnd (Rewrite F W)) [
        | done t ↦ finished t
        | stop t ↦ stopped t
        | again t ↦ loop h fuel c t
      ])
  LoopHolds-round P fuel (done t) p rec = p
  LoopHolds-round P fuel (stop t) p rec = p
  LoopHolds-round P fuel (again t) p rec = rec t p

  pub loop_rule {ℓ} :
      (P : Rewrite F W → Type ℓ)
      → ((s : Rewrite F W) → P s → RoundHolds P (round h c s))
      → (fuel : ℕ) (s : Rewrite F W) → P s
      → LoopHolds P (loop h fuel c s)
  unfolding loop
  loop_rule P keep zero s p = tt
  loop_rule P keep (suc fuel) s p =
      LoopHolds-round P fuel (round h c s) (keep s p) (λ t q. loop_rule P keep fuel t q)

module _ {F W : Type 0} ⦃fl : Double F⦄ (h : Host W) where
  -- `rewrite_range` refuses before the loop, or returns what the loop leaves.
  pub rewrite_range_cases :
      (offset len block_size : ℕ) (flags : RewriteFlags) (p : Progress F) (path : Text) (w : W)
      (o : Outcome F W)
      → rewrite_range h offset len block_size flags p path w ≡ some o
      → let c = config {F = F} h offset len block_size flags path in
        let c' = with_scratch h c w in
        let w' = (allocated h c w).2 in
        ((why : Text) × (o ≡ refuse h c why p w'))
        ⊎ (finish h c' (loop h (suc (c.end - offset)) c' (start h offset p w')) ≡ some o)
  unfolding rewrite_range
  rewrite_range_cases offset len block_size flags p path w o e =
      let c = config {F = F} h offset len block_size flags path in
      let (buf, verify_buf, w') = allocated h c w in
      let verifying = flags.verify_writes && not flags.verify_only in
      let reason = refusal buf (verifying && not verify_buf) (verifying && not h.has_direct) in
      elim (Option-cases reason) [
        | inl go_on ↦ inr (rw (go_on, rewrite_range) at e)
        | inr (why, stays) ↦ inl (why, cc (rw (stays, rewrite_range) at e))
      ]

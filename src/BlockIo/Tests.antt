-- ===== src/BlockIo/Tests.antt =====
-- `rewrite_range` (src/io/block_io.cpp) on a small medium: a good run, a run with a read error and
-- a dry run.
use reflash.Base.{
  ℕ, zero, suc, ◌+◌, ◌-◌, ◌≡◌, refl, ap, ◌∙◌, Bool-cases, inl, inr, Bool, true, false, ◌&&◌, Option,
  none, some, List, [], ◌∷◌, arith, ltb, leb, ◌==◌, if◌then◌else◌, length, byte, Text, text,
}
use mathlib.Core.Path.{subst}
use reflash.Progress.{Progress, CellStatus}
use reflash.Progress.Tests.{naturals, two_cells}
use reflash.BlockIo.{
  FlushState, WriteCacheMode, RewriteFlags, refusal, config, is_write_through, finish, outcome_of,
  loop, round, start, chunk_at, rewrite_chunk, after_read, write_chunk, after_write, mark_written,
  pass_chunk, verify_chunk, round_up, got, failed, Host, Outcome, rewrite_range,
}
use reflash.BlockIo.Content.{Holds, Same, IsFaithful, rewrite_range-Same}
use reflash.BlockIo.Errors.{Chain, rewrite_range-Chain}
use reflash.BlockIo.Ends.{rewrite_range_returns, rewrite_range_complete}
use reflash.BlockIo.DryRun.{IsLook, dry_run-look}

abbrev Medium : Type 0
Medium = ℕ → ℕ

abbrev bytes_from : Medium → ℕ → ℕ → List ℕ
bytes_from m offset zero = []
bytes_from m offset (suc len) = m offset ∷ bytes_from m (offset + 1) len

abbrev overlay : List ℕ → ℕ → Medium → Medium
overlay bytes offset m i =
    if leb offset i && ltb i (offset + length bytes) then byte bytes (i - offset) else m i

-- Reads fail at the bad offset.
abbrev host : ℕ → Host Medium
host bad = record {
  has_direct = false;
  direct_align = 4;
  pread_all = λ offset len m.
      (if offset == bad then failed (text "EIO") else got (bytes_from m offset len), m);
  pread_direct = λ offset len m. (failed (text "no O_DIRECT"), m);
  pwrite_all = λ bytes offset m. (none, overlay bytes offset m);
  pwrite_sync = λ bytes offset m. (none, overlay bytes offset m);
  pwrite_direct = λ bytes offset m. (some (text "no O_DIRECT"), m);
  wait_flushed = λ offset len m. m;
  query_flush_state = λ probe offset len m. (FlushState.clean, m);
  wait_if_paused = λ m. (true, m);
  allocate = λ align size m. (true, m);
}

abbrev medium : Medium
medium i = i + 65

abbrev flags : Bool → RewriteFlags
flags dry = record {
  verify_only = dry;
  write_cache = WriteCacheMode.write_through;
  verify_writes = false;
  flush_poll_ms = 780;
}

abbrev progress : Progress ℕ
progress = two_cells (CellStatus.pending ∷ CellStatus.pending ∷ [])

abbrev ran : ℕ → Bool → Option (Outcome ℕ Medium)
ran bad dry = rewrite_range (host bad) 0 8 4 (flags dry) progress (text "f") medium

-- What a run leaves, and the arguments back where there is no outcome.
abbrev outcome : Option (Outcome ℕ Medium) → Outcome ℕ Medium
outcome (some o) = o
outcome none = record {
  result = record { ok = false; errors = [] };
  progress = progress;
  world = medium;
}

some-outcome :
    {o : Option (Outcome ℕ Medium)} {a : Outcome ℕ Medium} → o ≡ some a → o ≡ some (outcome o)
some-outcome e = rw e refl

ran-some : (bad : ℕ) (dry : Bool) → ran bad dry ≡ some (outcome (ran bad dry))
ran-some bad dry =
    some-outcome (rewrite_range_returns (host bad) 0 8 4 (flags dry) progress (text "f") medium).1

bytes_from-Holds : (m : Medium) (offset len : ℕ) → Holds m (bytes_from m offset len) offset
bytes_from-Holds m offset zero k h = absurd (omega arith)
bytes_from-Holds m offset (suc len) zero h = ap m (omega arith)
bytes_from-Holds m offset (suc len) (suc k) h =
    bytes_from-Holds m (offset + 1) len k (omega arith) ∙ ap m (omega arith)

got-same :
    (bad : Bool) (err : Text) (found bytes : List ℕ)
    → (if bad then failed err else got found) ≡ got bytes
    → found ≡ bytes
got-same bad err found bytes e = ground arith

host-reads :
    (bad offset len : ℕ) (m : Medium) {bytes : List ℕ}
    → ((host bad).pread_all offset len m).0 ≡ got bytes
    → Holds m bytes offset
host-reads bad offset len m e =
    subst (λ xs. Holds m xs offset) (got-same (offset == bad) _ _ _ e)
      (bytes_from-Holds m offset len)

overlay-same :
    (bytes : List ℕ) (offset : ℕ) (m : Medium)
    → Holds m bytes offset
    → (i : ℕ) → overlay bytes offset m i ≡ m i
overlay-same bytes offset m h i =
    elim (Bool-cases (leb offset i && ltb i (offset + length bytes))) [
      | inl inside ↦ rw inside (h (i - offset) (ground arith) ∙ ap m (ground arith))
      | inr outside ↦ rw outside refl
    ]

host-IsFaithful : (bad : ℕ) → IsFaithful (λ (m : Medium). m) (host bad)
host-IsFaithful bad = record {
  read_holds = host-reads bad;
  read_same = λ offset len m i. refl;
  read_direct_same = λ offset len m i. refl;
  write_same = overlay-same;
  write_sync_same = overlay-same;
  write_direct_same = λ bytes offset m h i. refl;
  flush_same = λ offset len m i. refl;
  query_same = λ probe offset len m i. refl;
  pause_same = λ m i. refl;
  allocate_same = λ align size m i. refl;
}

host-IsLook : (bad : ℕ) → IsLook (λ (m : Medium). m) (host bad)
host-IsLook bad = record {
  read_same = λ offset len m. refl;
  query_same = λ probe offset len m. refl;
  pause_same = λ m. refl;
  allocate_same = λ align size m. refl;
}

good_verdict : (outcome (ran 100 false)).result.ok ≡ true
unfolding rewrite_range refusal config is_write_through finish outcome_of loop round start chunk_at
    rewrite_chunk after_read write_chunk after_write mark_written pass_chunk verify_chunk round_up
good_verdict = refl

rewrite_range-Same_example : Same (λ (m : Medium). m) medium (outcome (ran 4 false)).world
rewrite_range-Same_example =
    rewrite_range-Same (host 4) (λ (m : Medium). m) (host-IsFaithful 4) 0 8 4 (flags false) progress
      (text "f") medium (outcome (ran 4 false)) (ran-some 4 false)

rewrite_range-Chain_example :
    Chain 0 (outcome (ran 4 false)).result.errors 8
    × ((outcome (ran 4 false)).result.ok ≡ true → (outcome (ran 4 false)).result.errors ≡ [])
rewrite_range-Chain_example =
    rewrite_range-Chain (host 4) 0 8 4 (flags false) progress (text "f") medium
      (outcome (ran 4 false)) (omega arith) (ran-some 4 false)

rewrite_range_returns_example : (o : Outcome ℕ Medium) × (ran 4 false ≡ some o)
rewrite_range_returns_example =
    rewrite_range_returns (host 4) 0 8 4 (flags false) progress (text "f") medium

rewrite_range_complete_example :
    ((outcome (ran 100 false)).result.errors ≡ [])
    × ((outcome (ran 100 false)).progress.bytes_done ≡ 0 + 8)
rewrite_range_complete_example =
    rewrite_range_complete (host 100) 0 8 4 (flags false) progress (text "f") medium
      (outcome (ran 100 false)) (omega arith) (omega arith) (omega arith) (omega arith)
      (ran-some 100 false) good_verdict

dry_run-look_example : (outcome (ran 4 true)).world ≡ medium
dry_run-look_example =
    dry_run-look (host 4) (λ (m : Medium). m) (host-IsLook 4) 0 8 4 (flags true) progress (text "f")
      medium (outcome (ran 4 true)) refl (ran-some 4 true)

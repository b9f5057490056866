-- ===== src/Progress/Calls/Log.antt =====
-- The log over sequences of calls on one `Progress` (src/engine/progress.cpp).
use reflash.Base.{ℕ, ◌≡◌, refl, List, [], ◌∷◌, ◌++◌, ap, if◌then◌else◌, arith, Text}
use mathlib.Core.List.{append-nil, append_assoc}
use reflash.Progress
use reflash.Progress.{
  CellStatus, pending, ok, read_err, write_err, cached, LogLevel, LogEntry, Double, Progress, paint,
  upgrade, recompute_rate, push_log,
}
use reflash.Progress.Calls.{Call, clears_log, apply, run}

-- The text of the line that a call adds to the log.
unfoldable pub said : Call → List Text
said (Call.log o n st m) = m ∷ []
said (Call.message l m) = m ∷ []
said _ = []

-- The texts since the last `reset`, after those of an earlier log.
unfoldable pub all_said : List Text → List Call → List Text
unfolding clears_log said
all_said before [] = before
all_said before (c ∷ cs) = all_said (if clears_log c then [] else before ++ said c) cs

unfoldable pub texts : List LogEntry → List Text
texts [] = []
texts (e ∷ es) = e.message ∷ texts es

texts-append : (xs ys : List LogEntry) → texts (xs ++ ys) ≡ texts xs ++ texts ys
unfolding texts
texts-append [] ys = refl
texts-append (x ∷ xs) ys = ap (λ r. x.message ∷ r) (texts-append xs ys)

module _ {F : Type 0} ⦃fl : Double F⦄ where
  -- What one call hands to the caller of `take_logs`.
  taken : Call → Progress F → List LogEntry
  taken Call.take_logs p = (Progress.take_logs p).0
  taken _ p = []

  -- All that has been handed out since the last `reset`, after what was handed out before.
  pub all_taken : List LogEntry → List Call → Progress F → List LogEntry
  unfolding taken clears_log
  all_taken before [] p = before
  all_taken before (c ∷ cs) p =
      all_taken (if clears_log c then [] else before ++ taken c p) cs (apply c p)

  mark_cell-logs :
      (o n : ℕ) (st : CellStatus) (p : Progress F)
      → ((Progress.mark_cell o n st p).logs ≡ p.logs)
        × ((Progress.mark_cell o n st p).pending_logs ≡ p.pending_logs)
  unfolding Progress.mark_cell
  mark_cell-logs o n st p = ground arith

  log-logs :
      (o n : ℕ) (st : CellStatus) (m : Text) (p : Progress F) (before : List LogEntry)
      → p.logs ≡ before ++ p.pending_logs
      → (Progress.log o n st m p).logs ≡ before ++ (Progress.log o n st m p).pending_logs
  unfolding Progress.log
  log-logs o n st m p before h =
      rw ((mark_cell-logs o n st _).0, (mark_cell-logs o n st _).1) (simp (h, append_assoc))

  -- The log holds what was handed out and what is still to be handed out, with these texts.
  unfoldable pub Logged : List LogEntry → List Text → Progress F → Type 0
  Logged before lines p = (p.logs ≡ before ++ p.pending_logs) × (texts p.logs ≡ lines)

  apply-Logged :
      (c : Call) (p : Progress F) (before : List LogEntry) (lines : List Text)
      → Logged before lines p
      → Logged
          (if clears_log c then [] else before ++ taken c p)
          (if clears_log c then [] else lines ++ said c)
          (apply c p)
  unfolding Logged clears_log apply taken said Progress.add_done Progress.set_done
      Progress.mark_cell Progress.log Progress.message Progress.set_finished Progress.take_logs
      Progress.set_phase Progress.set_paused Progress.set_input_locked Progress.upgrade_cached_to_ok
      push_log Progress.reset Progress.note_restart texts
  apply-Logged (Call.reset total block) p before lines h = (refl, refl)
  apply-Logged Call.take_logs p before lines h = simp append-nil h
  apply-Logged (Call.log o n st m) p before lines h = (
    simp append-nil (log-logs o n st m p before h.0),
    rw (mark_cell-logs o n st _).0 (simp (texts-append, h.1)),
  )
  apply-Logged (Call.message l m) p before lines h =
      (simp (append-nil, h.0, append_assoc), simp (texts-append, h.1))
  apply-Logged (Call.add_done n) p before lines h = simp append-nil (ground arith)
  apply-Logged (Call.set_done n) p before lines h = simp append-nil (ground arith)
  apply-Logged (Call.mark_cell o n st) p before lines h = simp append-nil (ground arith)
  apply-Logged _ p before lines h = simp append-nil h

  -- Over any sequence of calls, from the last `reset` on, or from the beginning where there is none:
  -- no log line is lost or shown twice. The log holds the texts of `log` and `message`, in order;
  -- it is what `take_logs` has handed out and then what it has still to hand out. A `reset` drops
  -- all lines, also those that were not yet handed out.
  pub run-logs :
      (cs : List Call) (p : Progress F) (before : List LogEntry) (lines : List Text)
      → Logged before lines p
      → Logged (all_taken before cs p) (all_said lines cs) (run cs p)
  unfolding run all_taken all_said
  run-logs [] p before lines h = h
  run-logs (c ∷ cs) p before lines h =
      run-logs cs (apply c p) (if clears_log c then [] else before ++ taken c p)
        (if clears_log c then [] else lines ++ said c) (apply-Logged c p before lines h)

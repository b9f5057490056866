-- ===== src/Progress/Calls.antt =====
-- Sequences of calls on one `Progress`, from any thread: the mutex orders them.
pub mod History
pub mod Log
use reflash.Base.{
  ℕ, zero, suc, ◌≤◌, ◌<◌, ◌≡◌, inl, inr, refl, Bool, true, false, List, [], ◌∷◌, ◌++◌, map,
  replicate, ap, if◌then◌else◌, ◌||◌, length-map, arith, length, get_or, Text, sym, ◌∙◌,
}
use mathlib.Core.List.{append-nil, append_assoc}
use reflash.Progress
use reflash.Progress.{
  CellStatus, pending, ok, read_err, write_err, cached, LogLevel, LogEntry, Double, Progress, paint,
  upgrade, recompute_rate, push_log,
}
use reflash.Progress.Cells.{length-mark_cell, mark_cell_either}

-- The methods that change the object, with their arguments.
pub data Call : Type 0 where
  reset : ℕ → ℕ → Call
  note_restart : Call
  set_phase : Text → Call
  add_done set_done : ℕ → Call
  mark_cell : ℕ → ℕ → CellStatus → Call
  log : ℕ → ℕ → CellStatus → Text → Call
  message : LogLevel → Text → Call
  set_paused set_finished set_input_locked : Bool → Call
  upgrade_cached_to_ok take_logs : Call

-- The calls that make every cell pending; the first of them also empties the log.
pub starts : Call → Bool
starts (Call.reset total block) = true
starts Call.note_restart = true
starts _ = false

unfoldable pub clears_log : Call → Bool
clears_log (Call.reset total block) = true
clears_log _ = false

module _ {F : Type 0} ⦃fl : Double F⦄ where
  pub apply : Call → Progress F → Progress F
  apply (Call.reset total block) p = Progress.reset total block p
  apply Call.note_restart p = Progress.note_restart p
  apply (Call.set_phase t) p = Progress.set_phase t p
  apply (Call.add_done n) p = Progress.add_done n p
  apply (Call.set_done n) p = Progress.set_done n p
  apply (Call.mark_cell o n st) p = Progress.mark_cell o n st p
  apply (Call.log o n st m) p = Progress.log o n st m p
  apply (Call.message l m) p = Progress.message l m p
  apply (Call.set_paused v) p = Progress.set_paused v p
  apply (Call.set_finished v) p = Progress.set_finished v p
  apply (Call.set_input_locked v) p = Progress.set_input_locked v p
  apply Call.upgrade_cached_to_ok p = Progress.upgrade_cached_to_ok p
  apply Call.take_logs p = (Progress.take_logs p).1

  pub run : List Call → Progress F → Progress F
  run [] p = p
  run (c ∷ cs) p = run cs (apply c p)

  -- The state right after the last call of a kind, or the state given first.
  pub since : (Call → Bool) → Progress F → List Call → Progress F → Progress F
  since kind start [] p = start
  since kind start (c ∷ cs) p = since kind (if kind c then apply c p else start) cs (apply c p)

  apply-Bounded :
      (c : Call) (p : Progress F)
      → p.bytes_done ≤ p.bytes_total
      → (apply c p).bytes_done ≤ (apply c p).bytes_total
  unfolding apply Progress.add_done Progress.set_done Progress.mark_cell Progress.log
      Progress.message push_log Progress.set_finished Progress.take_logs Progress.set_phase
      Progress.set_paused Progress.set_input_locked Progress.upgrade_cached_to_ok Progress.reset
      Progress.note_restart
  apply-Bounded (Call.reset total block) p h = omega arith
  apply-Bounded Call.note_restart p h = omega arith
  apply-Bounded (Call.add_done n) p h = ground arith
  apply-Bounded _ p h = ground arith

  -- `bytes_done` never passes `bytes_total`, whatever calls come in whatever order, those of
  -- `reset` and `note_restart` included.
  pub run-Bounded :
      (cs : List Call) (p : Progress F)
      → p.bytes_done ≤ p.bytes_total
      → (run cs p).bytes_done ≤ (run cs p).bytes_total
  unfolding run
  run-Bounded [] p h = h
  run-Bounded (c ∷ cs) p h = run-Bounded cs (apply c p) (apply-Bounded c p h)

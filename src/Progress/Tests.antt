-- ===== src/Progress/Tests.antt =====
-- `class Progress` (src/engine/progress.cpp) on a map of two cells.
use reflash.Base.{
  ℕ, true, ◌+◌, ◌-◌, ◌*◌, ◌≤◌, ◌<◌, ◌≡◌, ◌⊎◌, refl, arith, false, List, [], ◌∷◌, ltb, length,
  get_or, text,
}
use reflash.Progress.{
  CellStatus, pending, ok, read_err, LogLevel, Double, Progress, mark_cell, paint, reset,
}
use reflash.Progress.Cells.{Touches, mark_cell_paints}
use reflash.Progress.Reset.{reset_map}
use reflash.Progress.Calls.{Call, starts, clears_log, run, since, run-Bounded}
use reflash.Progress.Calls.History.{Kept, Fresh, any_starts, run-Keeps}
use reflash.Progress.Calls.Log.{Logged, texts, all_said, said, all_taken, run-logs}

-- Natural numbers for `double`.
instance pub naturals : Double ℕ
naturals = record {
  centi = λ n. n;
  of_ℕ = λ n. n;
  add = λ a b. a + b;
  sub = λ a b. a - b;
  mul = λ a b. a;
  div = λ a b. a;
  less = ltb;
}

-- A map of two cells of 4 bytes, the second of which has failed.
abbrev pub two_cells : List CellStatus → Progress ℕ
two_cells cells = record {
  bytes_done = 0;
  bytes_total = 8;
  block_size = 4;
  cell_size = 4;
  cell_shift = 0;
  rate = 0;
  eta = 0;
  start_time = 0;
  paused = false;
  finished = false;
  failed = false;
  input_locked = false;
  phase = [];
  cells = cells;
  logs = [];
  pending_logs = [];
  last_bytes = 0;
  last_time = 0;
  clock = λ i. i;
  wall = λ i. i;
  readings = 0;
}

abbrev half_bad : Progress ℕ
half_bad = two_cells (pending ∷ read_err ∷ [])

abbrev calls : List Call
calls =
    Call.mark_cell 0 8 ok
    ∷ Call.log 4 4 read_err (text "read error")
    ∷ Call.add_done 100
    ∷ Call.take_logs
    ∷ Call.message LogLevel.info (text "detected")
    ∷ Call.reset 100000 512
    ∷ Call.mark_cell 0 8 read_err
    ∷ Call.note_restart
    ∷ Call.message LogLevel.info (text "done")
    ∷ []

mark_cell_paints_example :
    (Touches 4 1 5 2
      → get_or (mark_cell 5 2 read_err half_bad).cells 1 pending
        ≡ paint read_err (get_or half_bad.cells 1 pending))
    × (¬ Touches 4 1 5 2
        → get_or (mark_cell 5 2 read_err half_bad).cells 1 pending
          ≡ get_or half_bad.cells 1 pending)
mark_cell_paints_example =
    mark_cell_paints 5 2 read_err half_bad 1 (omega arith) (omega arith) (omega arith)

reset_map_example :
    (length (reset 100000 512 half_bad).cells ≤ 4096)
    × (100000 ≤ length (reset 100000 512 half_bad).cells * (reset 100000 512 half_bad).cell_size)
    × (length (reset 100000 512 half_bad).cells * (reset 100000 512 half_bad).cell_size
        < 100000 + (reset 100000 512 half_bad).cell_size)
    × (((reset 100000 512 half_bad).cell_shift ≡ 0)
        ⊎ (2048 < length (reset 100000 512 half_bad).cells))
reset_map_example = reset_map 100000 512 half_bad (omega arith) (omega arith) (omega arith)

run-Bounded_example : (run calls half_bad).bytes_done ≤ (run calls half_bad).bytes_total
run-Bounded_example = run-Bounded calls half_bad (omega arith)

run-Keeps_example :
    Kept (since starts half_bad calls half_bad) (run calls half_bad)
    × ((any_starts calls ≡ true → Fresh (since starts half_bad calls half_bad))
        × (length (run calls half_bad).cells
            ≡ length (since clears_log half_bad calls half_bad).cells))
run-Keeps_example = run-Keeps calls half_bad

no_lines : Logged [] [] half_bad
unfolding Logged texts
no_lines = (refl, refl)

run-logs_example : Logged (all_taken [] calls half_bad) (all_said [] calls) (run calls half_bad)
run-logs_example = run-logs calls half_bad [] [] no_lines

-- What the log holds after the restart and the reset.
lines_left : all_said [] calls ≡ text "done" ∷ []
unfolding all_said said clears_log
lines_left = refl

-- ===== src/Massage/Engine/Rewriting.antt =====
-- The rewriting part of `MassageEngine::run_inner` and the full-disk sync after it
-- (src/engine/massage.cpp).
pub mod Work
use reflash.Base.{
  ℕ, zero, suc, ◌+◌, Bool, true, false, not, ◌&&◌, ◌||◌, Option, none, some, List, [], ◌∷◌, ◌++◌,
  map, ◌==◌, if◌then◌else◌, length, Text, text, to_string,
}
use reflash.Progress.{
  CellStatus, LogLevel, Double, Progress, reset, set_phase, message, log, set_finished,
  set_input_locked, upgrade_cached_to_ok, at_least_one,
}
use reflash.BlockIo.{Host}
use reflash.Fs.{Disk, Run, returned, trapped, out_of_fuel, ◌>>=◌}
use reflash.Partition.{probe_partitions}
use reflash.Options.{Options, RunMode, linear, recursive, Action, massage, check, write_through_of}
use reflash.Store.{ExtentRecord, ObjectRecord, no_record, Sqlite, upsert_locked, set_meta}
use reflash.Store.Methods.{bad_extents}
use reflash.Sha1Pass.{Files, sha1_mounted_files}
use reflash.Sha1Pass.File.{Evp}
use reflash.Sha1Pass.Walk.{Tree}
use reflash.Massage.{WorkItem, State, resolve_block_size, run_work, run_linear}
use reflash.Massage.Plan.{Plan, linear_plan, recursive_plan}
use reflash.Massage.Engine.Interface.{
  Target, Opening, opened, unopened, Answer, System, Finished, or_text, is_check, is_empty, one_if,
  mode_name, ellipsis, of_option,
}

module _ {F W D M C : Type 0} ⦃fl : Double F⦄ (y : System F W D M) (s : Sqlite D) (evp : Evp C)
    (opts : Options) (now depth : ℕ) where
  pub report_all : List (LogLevel × Text) → Progress F → Progress F
  report_all [] p = p
  report_all ((level, line) ∷ rest) p = report_all rest (message level line p)

  pub upsert_all : List (Text × ℕ) → D → D
  upsert_all [] d = d
  upsert_all ((path, size) ∷ rest) d =
      upsert_all rest (upsert_locked s path (record (no_record path) { size = size }) d).1

  -- The map of the work.
  pub begin_work : ℕ → ℕ → State F W D → State F W D
  begin_work total bs st =
      let p = set_phase (text "prepare") (reset total bs st.progress) in
      record st {
        progress =
            message LogLevel.info (if opts.dry_run then text "Dry-run scan" else text "Rewrite") p;
        db = (set_meta s (text "cell_shift") (to_string p.cell_shift) st.db).1;
      }

  pub reported : Plan → State F W D → State F W D
  reported plan st = record st {
    progress = report_all plan.messages st.progress;
    db = upsert_all plan.records st.db;
  }

  pub coded : ℕ → State F W D → ℕ × State F W D
  coded rc st = (rc, st)

  pub coded_run : ℕ → Option (State F W D) → Run (ℕ × State F W D)
  coded_run rc r = of_option r >>= λ st. returned (coded rc st)

  pub run_linear_plan : Target W → ℕ → Plan → State F W D → Run (ℕ × State F W D)
  run_linear_plan t bs plan st = elim plan.bad [
    | true ↦ returned (1, reported plan st)
    | false ↦
        coded_run 0
          (run_linear t.host s opts now bs y.stop_requested plan.work (begin_work plan.total bs st))
  ]

  pub run_recursive_plan : Target W → ℕ → State F W D → Plan → Run (ℕ × State F W D)
  run_recursive_plan t bs st plan = coded_run (one_if plan.bad) (
      run_work t.host s opts now bs y.stop_requested plan.work
        (begin_work (at_least_one plan.total) bs (reported plan st)))

  pub run_mode : RunMode → Target W → ℕ → State F W D → Run (ℕ × State F W D)
  run_mode linear t bs st =
      run_linear_plan t bs (linear_plan t.size (probe_partitions t.sector_size (t.disk st.world)))
        st
  run_mode recursive t bs st =
      recursive_plan depth (t.disk st.world) t.size
        (probe_partitions t.sector_size (t.disk st.world))
      >>= run_recursive_plan t bs st

  -- A stop makes the run a failure.
  pub stopped : ℕ × State F W D → ℕ × State F W D
  stopped (rc, st) = (if y.stop_requested st.world then 1 else rc, st)

  pub rewrite_target : Target W → ℕ → State F W D → Run (ℕ × State F W D)
  rewrite_target t bs st = elim (is_check opts.action) [
    | true ↦ returned (0, st)
    | false ↦ run_mode opts.mode t bs st >>= λ r. returned (stopped r)
  ]

  pub show_phases : List Text → Progress F → Progress F
  show_phases [] p = p
  show_phases (line ∷ rest) p = show_phases rest (set_phase line p)

  pub after_sync : Progress F → List Text × W → Progress F × W
  after_sync p (shown, w) =
      let p1 = set_input_locked false (show_phases shown p) in
      (
        if y.stop_requested w
            then p1
            else message LogLevel.info (text "Full-disk sync done")
                (set_phase (text "flush") (upgrade_cached_to_ok p1)),
        w,
      )

  pub sync_target : Target W → State F W D → State F W D
  sync_target t st =
      let p =
        message LogLevel.info (text "Full-disk sync (background)" ++ ellipsis)
          (set_input_locked true (set_phase (text "flush") st.progress)) in
      let r = after_sync p (y.full_disk_sync (at_least_one t.size) st.world) in
      if not opts.dry_run && not (y.stop_requested st.world) && not (write_through_of opts)
      then record st { progress = r.0; world = r.1 }
      else st

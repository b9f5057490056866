-- ===== src/Massage/Engine.antt =====
-- `MassageEngine::run_inner` (src/engine/massage.cpp): what a run does before and after the work.
pub mod Interface
pub mod Rewriting
pub mod Ends
pub mod Mounts
mod Tests
use reflash.Base.{
  ℕ, zero, suc, ◌+◌, Bool, true, false, not, ◌&&◌, ◌||◌, Option, none, some, List, [], ◌∷◌, ◌++◌,
  map, ◌==◌, if◌then◌else◌, length, Text, text, to_string,
}
use reflash.Progress.{
  CellStatus, LogLevel, Double, Progress, reset, set_phase, message, log, set_finished,
  set_input_locked, upgrade_cached_to_ok, at_least_one,
}
use reflash.BlockIo.{Host}
use reflash.Fs.{Disk, Run, returned, trapped, out_of_fuel, ◌>>=◌}
use reflash.Partition.{probe_partitions}
use reflash.Options.{Options, RunMode, linear, recursive, Action, massage, check, write_through_of}
use reflash.Store.{ExtentRecord, ObjectRecord, no_record, Sqlite, upsert_locked, set_meta}
use reflash.Store.Methods.{bad_extents}
use reflash.Sha1Pass.{Files, sha1_mounted_files}
use reflash.Sha1Pass.File.{Evp}
use reflash.Sha1Pass.Walk.{Tree}
use reflash.Massage.{WorkItem, State, resolve_block_size, run_work, run_linear}
use reflash.Massage.Plan.{Plan, linear_plan, recursive_plan}
use reflash.Massage.Engine.Interface.{
  Target, Opening, opened, unopened, Answer, System, Finished, or_text, is_check, is_empty, one_if,
  mode_name, ellipsis, of_option,
}
use reflash.Massage.Engine.Rewriting.{
  report_all, upsert_all, begin_work, reported, coded, coded_run, run_linear_plan,
  run_recursive_plan, run_mode, stopped, rewrite_target, show_phases, after_sync, sync_target,
}

module _ {F W D M C : Type 0} ⦃fl : Double F⦄ (y : System F W D M) (s : Sqlite D) (evp : Evp C)
    (opts : Options) (now depth : ℕ) where
  publish_fail : Text → Progress F → Progress F
  publish_fail msg p =
      set_phase (text "failed") (log 0 4096 CellStatus.read_err msg (reset 1 4096 p))

  -- The guard that ends every run.
  finish_run : ℕ → Progress F → W → Option D → Run (Finished F W D)
  finish_run rc p w db =
      returned (record { rc = rc; progress = set_finished (not (rc == 0)) p; world = w; db = db })

  restored : List M → W → W
  restored original w = (y.restore_mount_state opts.target original [] false w).1

  db_path : W → Text
  db_path w =
      let given =
        if is_empty opts.sqlite_db && not opts.sqlite_db_explicit
        then y.find_builtin_manifest_db opts.target w
        else opts.sqlite_db in
      or_text given (y.default_db_path opts.target w)

  described : Opening D × W → Opening D × W
  described (unopened err, w) = (unopened err, w)
  described (opened d, w) = (
    opened
        (set_meta s (text "mode") (mode_name opts.mode)
          (set_meta s (text "target") opts.target d).1).1,
    w,
  )

  pub prepare_db : W → Opening D × W
  prepare_db w = described (y.open_db (db_path w) w)

  report_bad : List ExtentRecord → Progress F → Progress F
  report_bad [] p = p
  report_bad (e ∷ es) p = report_bad es (
      message LogLevel.error
        (e.path ++ text " offset=" ++ to_string e.offset ++ text " length=" ++ to_string e.length)
        p)

  report_all_bad : List ExtentRecord → Progress F → Progress F
  report_all_bad [] p = p
  report_all_bad (e ∷ es) p =
      report_bad (e ∷ es)
        (message LogLevel.warn (to_string (length (e ∷ es)) ++ text " bad extent(s)") p)

  -- The device is closed before anything is mounted.
  close_run : State F W D → State F W D
  close_run st = record st {
    progress =
        report_all_bad (bad_extents s st.db).0
          (message LogLevel.info (y.stats_line opts.dry_run st.progress) st.progress);
    world = y.close_target st.world;
  }

  database_on : Bool
  database_on = not opts.gui || not (is_empty opts.sqlite_db)

  -- The mounts that are hashed, where there are any.
  hash_mounts : Bool → List M → State F W D → Run (State F W D)
  hash_mounts do_sha1 active st =
      let p = message LogLevel.info (text "SHA-1") (set_phase (text "sha1") st.progress) in
      elim (do_sha1 && not (is_empty active)) [
        | false ↦ returned st
        | true ↦
            of_option (
              sha1_mounted_files s now evp (y.files st.world) (is_check opts.action)
                (y.tree st.world) depth (map y.target_of active) (p, st.db))
            >>= λ r. returned (record st { progress = r.0; db = r.1 })
      ]

  mount_problem : Text → Text
  mount_problem [] = text "SHA-1 mount failed"
  mount_problem (c ∷ cs) = text "SHA-1 mount: " ++ c ∷ cs

  after_restore : ℕ → State F W D → Answer × W → Run (Finished F W D)
  after_restore rc st ((true, err), w) = finish_run rc st.progress w (some st.db)
  after_restore rc st ((false, err), w) =
      finish_run rc (message LogLevel.warn (text "restore mount: " ++ err) st.progress) w
        (some st.db)

  restore : List M → List M → Bool → ℕ → State F W D → Run (Finished F W D)
  restore original active temp rc st =
      after_restore rc st (y.restore_mount_state opts.target original active temp st.world)

  -- What follows `prepare_sha1_mounts`, `go` being what was decided before it.
  with_mounts :
      List M → ℕ → Bool → State F W D → ((List M × Bool) × Answer) × W → Run (Finished F W D)
  with_mounts original rc go st (((active, temp), (true, err)), w) =
      hash_mounts go active (record st { world = w }) >>= restore original active temp rc
  with_mounts original rc go st (((active, temp), (false, err)), w) =
      restore original active temp rc
        (record st { world = w; progress = message LogLevel.warn (mount_problem err) st.progress })

  verify_files : List M → ℕ → State F W D → Run (Finished F W D)
  verify_files original rc st = elim database_on [
    | false ↦ restore original [] false rc (record st {
      progress = message LogLevel.info (text "SHA-1 skipped: no database") st.progress;
    })
    | true ↦
        with_mounts original rc (not (y.stop_requested st.world)) st
          (y.prepare_sha1_mounts opts.target original st.world)
  ]

  after_work : Target W → List M → ℕ × State F W D → Run (Finished F W D)
  after_work t original (rc, st) =
      verify_files original rc (close_run (sync_target y s evp opts now depth t st))

  -- The run, where the target and the database are open.
  run_open : Target W → List M → Progress F → W → D → Run (Finished F W D)
  run_open t original p w d =
      let bs = resolve_block_size opts t.sector_size in
      rewrite_target y s evp opts now depth t bs (record {
        progress = set_phase (text "prepare") (reset (at_least_one t.size) bs p);
        world = w;
        db = (set_meta s (text "block_size") (to_string bs) d).1;
      })
      >>= after_work t original

  with_db : Target W → List M → Progress F → Opening D × W → Run (Finished F W D)
  with_db t original p (unopened err, w) =
      finish_run 1 (publish_fail (or_text err (text "database open failed")) p)
        (restored original (y.close_target w)) none
  with_db t original p (opened d, w) = run_open t original p w d

  with_target : List M → Progress F → Opening (Target W) × W → Run (Finished F W D)
  with_target original p (unopened err, w) =
      finish_run 1 (publish_fail (text "cannot open " ++ opts.target ++ text ": " ++ err) p)
        (restored original w) none
  with_target original p (opened t, w) = with_db t original p (prepare_db w)

  unmounted : Progress F → (List M × Answer) × W → Run (Finished F W D)
  unmounted p ((original, (false, err)), w) =
      finish_run 1 (publish_fail (or_text err (text "unmount failed")) p) w none
  unmounted p ((original, (true, err)), w) = with_target original p (y.open_target opts.target w)

  pub run_inner : Progress F → W → Run (Finished F W D)
  run_inner p w =
      unmounted
        (message LogLevel.info (if opts.dry_run then text "Dry-run (read only)" else text "Massage")
          (set_phase (text "prepare") p))
        (y.ensure_unmounted opts.target w)

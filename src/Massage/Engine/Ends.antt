-- ===== src/Massage/Engine/Ends.antt =====
-- How a run of the massage engine ends (src/engine/massage.cpp).
use reflash.Base.{
  ℕ, ◌≤◌, ◌≡◌, refl, sym, subst, ◌∙◌, Bool, true, false, not, ◌&&◌, ◌==◌, List, [], map, Text, text,
  to_string, if◌then◌else◌,
}
use reflash.Progress.{
  Double, Progress, set_finished, set_phase, message, LogLevel, reset, at_least_one,
}
use reflash.BlockIo.Content.{Same}
use reflash.Fs.{Run, returned, trapped, out_of_fuel, ◌>>=◌}
use reflash.Options.{Options}
use reflash.Store.{Sqlite, set_meta}
use reflash.Sha1Pass.{sha1_mounted_files}
use reflash.Sha1Pass.Returns.{sha1_mounted_files-some}
use reflash.Sha1Pass.File.{Evp}
use reflash.Sha1Pass.Walk.{}
use reflash.Massage.{State, resolve_block_size}
use reflash.Massage.Engine.Rewriting.Work.{
  Holds, Holds->>=, IsSound, IsQuiet, Worked, rewrite_target-Worked, sync_same,
}
use reflash.Massage.Engine.Interface.{
  Target, opened, Answer, System, Finished, of_option, is_check, is_empty,
}
use reflash.Massage.Engine.Rewriting.{rewrite_target, sync_target}
use reflash.Massage.Engine.{
  finish_run, close_run, database_on, hash_mounts, after_restore, restore, with_mounts,
  verify_files, after_work, run_open, with_db, with_target, unmounted, run_inner, prepare_db,
}

module _ {F W D M C : Type 0} ⦃fl : Double F⦄ (y : System F W D M) (s : Sqlite D) (evp : Evp C)
    (opts : Options) (now depth : ℕ) (view : W → ℕ → ℕ) where
  -- The world that is left where the device is closed: what was mounted is mounted again, and where
  -- a database is used the mounts for its hashes come before.
  settled : List M → W → W
  settled original closed =
      let r = y.prepare_sha1_mounts opts.target original closed in
      elim (database_on y s evp opts now depth) [
        | false ↦ (y.restore_mount_state opts.target original [] false closed).1
        | true ↦ (y.restore_mount_state opts.target original r.0.0.0 r.0.0.1 r.1).1
      ]

  -- The device is closed before.
  pub final_world : List M → W → W
  unfolding settled
  final_world original w = settled original (y.close_target w)

  -- The progress object shows what is returned.
  abbrev pub Shown : Finished F W D → Type 0
  Shown o = (o.rc ≤ 1) × (o.progress.finished ≡ true) × (o.progress.failed ≡ not (o.rc == 0))

  abbrev pub Ended : List M → W → Finished F W D → Type 0
  Ended original w o = Shown o × ((w1 : W) × Same view w w1 × (o.world ≡ final_world original w1))

  -- What the mounts are restored to, from the answer of `prepare_sha1_mounts`.
  restored_from : List M → ((List M × Bool) × Answer) × W → W
  restored_from original r = (y.restore_mount_state opts.target original r.0.0.0 r.0.0.1 r.1).1

  abbrev Left : W → Finished F W D → Type 0
  Left w o = Shown o × (o.world ≡ w)

  after_restore-Left :
      (rc : ℕ) (st : State F W D) (r : Answer × W)
      → rc ≤ 1
      → Holds (Left r.1) (after_restore y s evp opts now depth rc st r)
  unfolding after_restore finish_run set_finished
  after_restore-Left rc st ((true, err), w) small = ((small, refl, refl), refl)
  after_restore-Left rc st ((false, err), w) small = ((small, refl, refl), refl)

  module _ (quiet : IsQuiet y s evp opts now depth view) where
    hash_mounts_same :
        (go : Bool) (active : List M) (st : State F W D)
        → Holds (λ st1. st1.world ≡ st.world) (hash_mounts y s evp opts now depth go active st)
    unfolding hash_mounts of_option
    hash_mounts_same go active st =
        let p = message LogLevel.info (text "SHA-1") (set_phase (text "sha1") st.progress) in
        let (found, e) = quiet.walked st.world (map y.target_of active) in
        let (r, e1) =
          sha1_mounted_files-some s now evp (y.files st.world) (is_check opts.action)
            (y.tree st.world) depth (map y.target_of active) found e p st.db in
        elim (go && not (is_empty active))
          as (λ b.
            Holds (λ st1. st1.world ≡ st.world)
              (elim b [
                | false ↦ returned st
                | true ↦
                    of_option (
                      sha1_mounted_files s now evp (y.files st.world) (is_check opts.action)
                        (y.tree st.world) depth (map y.target_of active) (p, st.db))
                    >>= λ r1. returned (record st { progress = r1.0; db = r1.1 })
              ])) [ false ↦ refl | true ↦ rw (e1, of_option) refl ]

    with_mounts-Left :
        (original : List M) (rc : ℕ) (go : Bool) (st : State F W D)
        (r : ((List M × Bool) × Answer) × W)
        → rc ≤ 1
        → Holds
            (Left (restored_from original r))
            (with_mounts y s evp opts now depth original rc go st r)
    unfolding with_mounts restore restored_from
    with_mounts-Left original rc go st (((active, temp), (false, err)), w) small =
        after_restore-Left rc _ (y.restore_mount_state opts.target original active temp w) small
    with_mounts-Left original rc go st (((active, temp), (true, err)), w) small =
        Holds->>= (λ st1. st1.world ≡ w)
          (Left (restored_from original (((active, temp), (true, err)), w)))
          (hash_mounts y s evp opts now depth go active (record st { world = w }))
          (restore y s evp opts now depth original active temp rc)
          (hash_mounts_same go active (record st { world = w }))
          (λ st1 e.
            let left : Holds
                (Left (y.restore_mount_state opts.target original active temp st1.world).1)
                (restore y s evp opts now depth original active temp rc st1) =
              after_restore-Left rc st1
                (y.restore_mount_state opts.target original active temp st1.world) small in
            subst
              (λ v.
                Holds (Left (y.restore_mount_state opts.target original active temp v).1)
                  (restore y s evp opts now depth original active temp rc st1))
              e left)

    verify_files-Left :
        (original : List M) (rc : ℕ) (st : State F W D)
        → rc ≤ 1
        → Holds
            (Left (settled original st.world))
            (verify_files y s evp opts now depth original rc st)
    unfolding verify_files settled
    verify_files-Left original rc st small =
        let silent : State F W D = record st {
          progress = message LogLevel.info (text "SHA-1 skipped: no database") st.progress;
        } in
        let r = y.prepare_sha1_mounts opts.target original st.world in
        elim (database_on y s evp opts now depth)
          as (λ b.
            Holds
              (Left (elim b [
                | false ↦ (y.restore_mount_state opts.target original [] false st.world).1
                | true ↦ (y.restore_mount_state opts.target original r.0.0.0 r.0.0.1 r.1).1
              ]))
              (elim b [
                | false ↦ restore y s evp opts now depth original [] false rc silent
                | true ↦
                    with_mounts y s evp opts now depth original rc (not (y.stop_requested st.world))
                      st r
              ])) [
                | false ↦
                    unfold restore in
                    (after_restore-Left rc silent
                      (y.restore_mount_state opts.target original [] false st.world) small)
                | true ↦
                    unfold restored_from in
                    (with_mounts-Left original rc (not (y.stop_requested st.world)) st r small)
              ]

    Left-Ended :
        (original : List M) (w w1 : W) (r : Run (Finished F W D))
        → Same view w w1
        → Holds (Left (final_world original w1)) r
        → Holds (Ended original w) r
    Left-Ended original w w1 (returned o) same (shown, e) = (shown, (w1, same, e))
    Left-Ended original w w1 trapped same left = left
    Left-Ended original w w1 out_of_fuel same left = left

    run_open-Ended :
        (t : Target W)
        → IsSound y s evp opts now depth view t
        → (original : List M) (p : Progress F) (w : W) (d : D)
        → Holds (Ended original w) (run_open y s evp opts now depth t original p w d)
    unfolding run_open after_work close_run final_world
    run_open-Ended t sound original p w d =
        let bs = resolve_block_size opts t.sector_size in
        let st : State F W D = record {
          progress = set_phase (text "prepare") (reset (at_least_one t.size) bs p);
          world = w;
          db = (set_meta s (text "block_size") (to_string bs) d).1;
        } in
        Holds->>= (Worked y s evp opts now depth view w) (Ended original w)
          (rewrite_target y s evp opts now depth t bs st)
          (after_work y s evp opts now depth t original)
          (rewrite_target-Worked y s evp opts now depth view t sound bs st)
          (λ r worked.
            let synced = sync_target y s evp opts now depth t r.1 in
            Left-Ended original w synced.world (after_work y s evp opts now depth t original r)
              (λ i. sync_same y s evp opts now depth view quiet t r.1 i ∙ worked.1 i)
              (verify_files-Left original r.0 (close_run y s evp opts now depth synced) worked.0))

    -- Where the target is unmounted and opened, its calls do what is documented, the scan of its
    -- file systems and the walk of the mounts end, and the database is opened: the run ends, with 0 or 1, and shows what it returns. Up to
    -- the closing of the device every byte of the target is as it was when the database was opened; only then are the mounts
    -- for the hashes made, and at last the mounts that were there before are restored.
    pub run_inner-Ended :
        (p : Progress F) (w w1 w2 w3 : W) (original : List M) (err : Text) (t : Target W) (d : D)
        → y.ensure_unmounted opts.target w ≡ ((original, (true, err)), w1)
        → y.open_target opts.target w1 ≡ (opened t, w2)
        → prepare_db y s evp opts now depth w2 ≡ (opened d, w3)
        → IsSound y s evp opts now depth view t
        → Holds (Ended original w3) (run_inner y s evp opts now depth p w)
    unfolding run_inner unmounted with_target with_db
    run_inner-Ended p w w1 w2 w3 original err t d e1 e2 e3 sound =
        let begun =
          message LogLevel.info
            (if opts.dry_run then text "Dry-run (read only)" else text "Massage")
            (set_phase (text "prepare") p) in
        let ended = Holds (Ended original w3) in
        let db_open =
          subst (λ r. ended (with_db y s evp opts now depth t original begun r)) (sym e3)
            (run_open-Ended t sound original begun w3 d) in
        let target_open =
          subst (λ r. ended (with_target y s evp opts now depth original begun r)) (sym e2)
            db_open in
        subst (λ r. ended (unmounted y s evp opts now depth begun r)) (sym e1) target_open

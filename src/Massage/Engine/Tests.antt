-- ===== src/Massage/Engine/Tests.antt =====
-- A run of the massage engine on a small medium (src/engine/massage.cpp).
use reflash.Base.{ℕ, ◌≡◌, refl, true, false, none, some, List, [], ◌∷◌, ◌++◌, Text, text}
use reflash.Progress.{CellStatus, Progress}
use reflash.Progress.Tests.{naturals, two_cells}
use reflash.Device.Hosting.{device_host, device_host-IsFaithful}
use reflash.Device.Tests.{Medium, medium, view, fds, others, fds-plain, fds-direct, others-IsQuiet}
use reflash.Options.{default_options}
use reflash.Store.{set_meta}
use reflash.Store.Tests.{Tables, tables, volume_1}
use reflash.Sha1Pass.{}
use reflash.Sha1Pass.File.{Evp, no_file}
use reflash.Sha1Pass.Walk.{Tree, absent}
use reflash.Sha1Pass.Walk.Missing.{walk_mounts-missing}
use reflash.Massage.Plan.Unread.{unread, recursive_plan-unread}
use reflash.Massage.Engine.Rewriting.Work.{Holds, IsSound, IsQuiet}
use reflash.Massage.Engine.Ends.{Ended, run_inner-Ended}
use reflash.Massage.Engine.Interface.{Target, opened, System, mode_name}
use reflash.Massage.Engine.{prepare_db, described, run_inner}

abbrev target : Target Medium
target = record {
  size = 12;
  sector_size = 512;
  host = device_host fds others;
  disk = λ m. unread (text "EIO");
}

abbrev nothing_there : Tree
nothing_there = record { entries = λ path. none; lstat = λ path. absent }

-- A mount is named by where it is.
abbrev system : System ℕ Medium Tables Text
system = record {
  ensure_unmounted = λ path m. ((text "/mnt" ∷ [], (true, [])), m);
  open_target = λ path m. (opened target, m);
  close_target = λ m. m;
  find_builtin_manifest_db = λ path m. [];
  default_db_path = λ path m. text "/root/manifest.db";
  open_db = λ path m. (opened volume_1, m);
  stop_requested = λ m. false;
  full_disk_sync = λ size m. (text "Full-disk sync 0s" ∷ [], m);
  stats_line = λ dry p. text "done";
  prepare_sha1_mounts = λ path original m. (((original, true), (true, [])), m);
  restore_mount_state = λ path original active temp m. ((true, []), m);
  target_of = λ path. path;
  tree = λ m. nothing_there;
  files = λ m. record { open_file = λ path. no_file (text "ENOENT"); size = λ path. 0 };
}

abbrev whole : Evp (List ℕ)
whole = record { init = some []; update = λ c xs. c ++ xs; final = λ c. c }

target-IsSound : IsSound system tables whole default_options 1000 4 view target
target-IsSound = record {
  faithful = device_host-IsFaithful view fds others fds-plain fds-direct others-IsQuiet;
  scanned = λ m. recursive_plan-unread 4 12 512 (text "EIO");
}

system-IsQuiet : IsQuiet system tables whole default_options 1000 4 view
system-IsQuiet = record {
  synced = λ size m i. refl;
  walked = λ m targets. ([], walk_mounts-missing nothing_there (λ path. refl) 3 targets []);
}

abbrev map_at_start : Progress ℕ
map_at_start = two_cells (CellStatus.pending ∷ CellStatus.pending ∷ [])

-- The database with the target and the mode in its settings.
abbrev described_1 : Tables
described_1 =
    (set_meta tables (text "mode") (text "linear")
      (set_meta tables (text "target") [] volume_1).1).1

opened_db :
    prepare_db system tables whole default_options 1000 4 medium ≡ (opened described_1, medium)
unfolding prepare_db described mode_name
opened_db = refl

run_inner-Ended_example :
    Holds
      (Ended system tables whole default_options 1000 4 view (text "/mnt" ∷ []) medium)
      (run_inner system tables whole default_options 1000 4 map_at_start medium)
run_inner-Ended_example =
    run_inner-Ended system tables whole default_options 1000 4 view system-IsQuiet map_at_start
      medium medium medium medium (text "/mnt" ∷ []) [] target described_1 refl refl opened_db
      target-IsSound

-- ===== src/Massage/Tests.antt =====
-- The massage of two ranges of a small medium, with a database.
use reflash.Base.{ℕ, Bool, false, List, [], ◌∷◌, text}
use reflash.Progress.{CellStatus}
use reflash.Progress.Tests.{naturals, two_cells}
use reflash.Fs.{FsObject, extent}
use reflash.Device.Hosting.{device_host}
use reflash.Device.Tests.{Medium, medium, view, fds, others, fds-plain, fds-direct, others-IsQuiet}
use reflash.Options.{default_options}
use reflash.Store.Tests.{Tables, tables, volume_1}
use reflash.Massage.{WorkItem, work_item, State, run_work, run_linear}
use reflash.Massage.Plan.{no_plan, push_objects}
use reflash.Massage.Plan.Items.{Adds, all_items, all_records, push_objects-Adds}
use reflash.Massage.Run.{Spares}
use reflash.Massage.Safety.{run_work-device_host}

abbrev items : List WorkItem
items = work_item (text "::mbr") 0 4 ∷ work_item (text "::part-1") 4 8 ∷ []

abbrev at_start : State ℕ Medium Tables
at_start = record {
  progress = two_cells (CellStatus.pending ∷ CellStatus.pending ∷ []);
  world = medium;
  db = volume_1;
}

-- No stop is requested.
abbrev never : Medium → Bool
never m = false

run_work-device_host_example :
    Spares view medium
      (run_work (device_host fds others) tables default_options 1000 4 never items at_start)
    × Spares view medium
        (run_linear (device_host fds others) tables default_options 1000 4 never items at_start)
run_work-device_host_example =
    run_work-device_host view fds others fds-plain fds-direct others-IsQuiet tables default_options
      1000 4 never items at_start

-- A file of two extents, one of them empty.
abbrev objects : List FsObject
objects =
    record { path = text "/a"; size = 512; extents = extent 1024 512 ∷ extent 4096 0 ∷ [] } ∷ []

push_objects-Adds_example :
    Adds (all_items objects) (all_records objects) no_plan (push_objects objects no_plan)
push_objects-Adds_example = push_objects-Adds objects no_plan

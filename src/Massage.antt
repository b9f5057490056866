-- ===== src/Massage.antt =====
-- The massage engine (src/engine/massage.cpp): which ranges of the target are rewritten, in which
-- order, and what is recorded of each. The parts that `MassageEngine::run_inner` calls are the
-- modelled ones; whether a stop is requested is read from the state of the world.
pub mod Plan
pub mod Run
pub mod Safety
pub mod Engine
pub mod Thread
mod Tests
use reflash.Base.{
  ℕ, zero, suc, ◌+◌, ◌-◌, ◌*◌, ◌/◌, ◌%◌, ◌^◌, Bool, true, false, not, ◌&&◌, ◌||◌, Option, none,
  some, List, [], ◌∷◌, ◌++◌, map, ltb, ◌==◌, if◌then◌else◌, length, Text, text, to_string, u64_mod,
}
use reflash.Progress.{Double, Progress, set_phase}
use reflash.BlockIo.{
  Host, ExtentStatus, ok, read_err, write_err, RewriteExtent, BlockIoResult, RewriteFlags, Outcome,
  rewrite_range,
}
use reflash.Options.{Options}
use reflash.Store.{ExtentRecord, Sqlite, bump_massage}
use reflash.Store.Methods.{replace_extents}

pub record WorkItem : Type 0 where
  pub path : Text
  pub offset : ℕ
  pub length : ℕ

abbrev pub work_item : Text → ℕ → ℕ → WorkItem
work_item path offset len = record { path = path; offset = offset; length = len }

-- The block size, `sector_size` being that of the device.
pub resolve_block_size : Options → ℕ → ℕ
resolve_block_size opts sector_size =
    if not (opts.block_size == 0)
    then opts.block_size
    else if not (sector_size == 0)
    then sector_size
    else 4096

abbrev pub flags_of : Options → RewriteFlags
flags_of opts = record {
  verify_only = opts.dry_run;
  write_cache = opts.write_cache;
  verify_writes = opts.verify_writes;
  flush_poll_ms = opts.flush_poll_ms;
}

status_number : ExtentStatus → ℕ
status_number ok = 2
status_number read_err = 1
status_number write_err = 2

extent_record : Text → RewriteExtent → ExtentRecord
extent_record path e = record {
  path = path;
  offset = e.offset;
  length = e.length;
  status = status_number e.status;
}

-- What the engine works on: the progress object, the world, and the database.
pub record State (F W D : Type 0) : Type 0 where
  pub progress : Progress F
  pub world : W
  pub db : D

record_rewrite : {D : Type 0} → Sqlite D → ℕ → Text → ℕ → BlockIoResult → D → D
record_rewrite s now path size r d =
    let replaced = (replace_extents s path (map (extent_record path) r.errors) now d).1 in
    (bump_massage s path size now replaced).1

module _ {F W D : Type 0} ⦃fl : Double F⦄ (h : Host W) (s : Sqlite D) (opts : Options)
    (now block_size : ℕ) where
  -- A dry run is recorded where it met errors.
  pub recorded : WorkItem → D → Outcome F W → State F W D
  recorded item d o = record {
    progress = o.progress;
    world = o.world;
    db =
        if not opts.dry_run || not (length o.result.errors == 0)
        then record_rewrite s now item.path item.length o.result d
        else d;
  }

  -- None stands for a rewrite that does not end.
  pub run_one : WorkItem → State F W D → Option (State F W D)
  run_one item st =
      elim (rewrite_range {F = F} h item.offset item.length block_size (flags_of opts)
        (set_phase item.path st.progress) item.path st.world) [
          | none ↦ none
          | some o ↦ some (recorded item st.db o)
        ]

  -- The loop over the work, `stop` being `stop_requested`.
  pub run_work : (W → Bool) → List WorkItem → State F W D → Option (State F W D)
  run_work stop [] st = some st
  run_work stop (item ∷ items) st = elim (stop st.world) [
    | true ↦ some st
    | false ↦ elim (run_one item st) [ none ↦ none | some next ↦ run_work stop items next ]
  ]

  -- In linear mode the first range is rewritten before a stop is looked for.
  pub run_linear : (W → Bool) → List WorkItem → State F W D → Option (State F W D)
  run_linear stop [] st = some st
  run_linear stop (item ∷ items) st = elim (run_one item st) [
    | none ↦ none
    | some next ↦ run_work stop items next
  ]

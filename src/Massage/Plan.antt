-- ===== src/Massage/Plan.antt =====
-- The work of a run (src/engine/massage.cpp, in `MassageEngine::run_inner`): the ranges of the
-- partitions in linear mode, and in recursive mode the extents of the objects of every file system.
-- What is reported and what is upserted on the way is part of the plan.
pub mod Items
pub mod Unread
use reflash.Base.{
  ℕ, ◌+◌, ◌-◌, ◌%◌, ◌≡◌, refl, ap, ◌∙◌, Bool, true, false, not, ◌&&◌, ◌||◌, Option, none, some,
  List, [], ◌∷◌, ◌++◌, ltb, ◌==◌, if◌then◌else◌, length, arith, Text, text, to_string, u64_mod,
}
use reflash.Progress.{LogLevel}
use reflash.Fs.{
  FsType, unknown, FsFileExtent, FsObject, FsScanResult, Disk, Run, returned, trapped, out_of_fuel,
  ◌>>=◌,
}
use reflash.Fs.Detect.{detect_fs, fs_type_name, scan_filesystem}
use reflash.Partition.{
  Partition, PartitionTableKind, no_table, mbr, gpt, PartitionMap, Probe, probed, failed_with,
  probe_partitions,
}
use reflash.Massage.{WorkItem, work_item}

pub record Plan : Type 0 where
  pub work : List WorkItem
  pub total : ℕ
  -- `rc = 1`
  pub bad : Bool
  pub messages : List (LogLevel × Text)
  -- Path and size of the records that are upserted.
  pub records : List (Text × ℕ)

pub no_plan : Plan
no_plan = record { work = []; total = 0; bad = false; messages = []; records = [] }

pub push_work : Text → ℕ → ℕ → Plan → Plan
push_work path offset len p = record p {
  work = p.work ++ work_item path offset len ∷ [];
  total = (p.total + len) % u64_mod;
}

report : LogLevel → Text → Plan → Plan
report level line p = record p { messages = p.messages ++ (level, line) ∷ [] }

has_table : PartitionMap → Bool
has_table pm = elim pm.kind [ no_table ↦ false | _ ↦ not (length pm.parts == 0) ]

table_name : PartitionTableKind → Text
table_name gpt = text "::gpt"
table_name _ = text "::mbr"

push_parts : List Partition → Plan → Plan
push_parts [] p = p
push_parts (x ∷ xs) p = push_parts xs (push_work x.name x.start_bytes x.length_bytes p)

-- Linear mode: the table and the partitions, or the whole device.
linear_map : ℕ → PartitionMap → Plan
linear_map dev_size pm =
    if has_table pm
    then push_parts pm.parts (push_work (table_name pm.kind) 0 pm.table_bytes no_plan)
    else push_work (text "::linear") 0 dev_size no_plan

pub linear_plan : ℕ → Probe → Plan
linear_plan dev_size (probed pm) = linear_map dev_size pm
linear_plan dev_size (failed_with err pm) =
    record (report LogLevel.error (text "partition probe: " ++ err) no_plan) { bad = true }

pub record Job : Type 0 where
  pub label : Text
  pub base : ℕ

jobs_of_parts : List Partition → List Job
jobs_of_parts [] = []
jobs_of_parts (x ∷ xs) = record { label = x.name; base = x.start_bytes } ∷ jobs_of_parts xs

jobs_of : PartitionMap → List Job
jobs_of pm =
    if has_table pm then jobs_of_parts pm.parts else record { label = text "::fs"; base = 0 } ∷ []

-- The length of the first partition that starts at an offset, or 0.
length_at : List Partition → ℕ → ℕ
length_at [] base = 0
length_at (x ∷ xs) base =
    let rest = length_at xs base in if x.start_bytes == base then x.length_bytes else rest

-- Without a file system the partition is rewritten from its start to its end.
whole_length : ℕ → List Partition → ℕ → ℕ
whole_length dev_size parts base =
    let len = length_at parts base in if len == 0 then dev_size - base else len

pub push_extents : Text → List FsFileExtent → Plan → Plan
push_extents path [] p = p
push_extents path (e ∷ es) p =
    push_extents path es (if e.length == 0 then p else push_work path e.offset e.length p)

pub push_objects : List FsObject → Plan → Plan
push_objects [] p = p
push_objects (o ∷ os) p =
    push_objects os
      (push_extents o.path o.extents (record p { records = p.records ++ (o.path, o.size) ∷ [] }))

err_text : Option Text → Text
err_text none = []
err_text (some err) = err

scanned : Job → FsType → Plan → Bool × FsScanResult → Plan
scanned job ft p (false, scan) =
    record (report LogLevel.error
      (text "scan " ++ job.label ++ text " (" ++ fs_type_name ft ++ text "): " ++ scan.error) p) {
        bad = true;
      }
scanned job ft p (true, scan) = push_objects scan.objects (
    report LogLevel.info
      (job.label
        ++ text ": detected "
        ++ fs_type_name ft
        ++ text ", "
        ++ to_string (length scan.objects)
        ++ text " objects")
      p)

is_unknown : FsType → Bool
is_unknown unknown = true
is_unknown _ = false

-- One file system; `depth` is the fuel of the scan.
plan_job : ℕ → Disk → ℕ → List Partition → Job → Plan → Run Plan
plan_job depth dev dev_size parts job p =
    let (ft, derr) = detect_fs dev job.base in
    elim (is_unknown ft) [
      | true ↦ returned (
          push_work job.label job.base (whole_length dev_size parts job.base) (
            report LogLevel.warn
              (job.label ++ text ": " ++ err_text derr ++ text " - rewriting partition linearly")
              p))
      | false ↦ scan_filesystem depth dev job.base ft >>= λ r. returned (scanned job ft p r)
    ]

plan_jobs : ℕ → Disk → ℕ → List Partition → List Job → Plan → Run Plan
plan_jobs depth dev dev_size parts [] p = returned p
plan_jobs depth dev dev_size parts (job ∷ jobs) p =
    plan_job depth dev dev_size parts job p >>= plan_jobs depth dev dev_size parts jobs

pub map_of : Probe → PartitionMap
map_of (probed pm) = pm
map_of (failed_with err pm) = pm

-- The partition table is work where it has partitions and a size.
push_table : PartitionMap → Plan → Plan
push_table pm p =
    if has_table pm && ltb 0 pm.table_bytes
    then push_work (table_name pm.kind) 0 pm.table_bytes p
    else p

-- Recursive mode; an error of the probe is passed over.
pub recursive_plan : ℕ → Disk → ℕ → Probe → Run Plan
recursive_plan depth dev dev_size probe =
    let pm = map_of probe in
    plan_jobs depth dev dev_size pm.parts (jobs_of pm) (push_table pm no_plan)

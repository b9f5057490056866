-- ===== src/Massage/Plan/Unread.antt =====
-- The plan for a device that cannot be read (src/engine/massage.cpp).
use reflash.Base.{ℕ, ◌≡◌, refl, Text}
use reflash.BlockIo.{failed}
use reflash.Fs.{Disk, returned}
use reflash.Fs.Detect.{detect_fs, detect_read}
use reflash.Partition.{probe_partitions, probe_from, no_map}
use reflash.Massage.Plan.{
  Plan, recursive_plan, map_of, jobs_of, has_table, push_table, plan_jobs, plan_job, is_unknown,
}

abbrev pub unread : Text → Disk
unread err offset len = failed err

-- One item, the whole device.
pub recursive_plan-unread :
    (depth size sector : ℕ) (err : Text)
    → (plan : Plan) × (recursive_plan depth (unread err) size (probe_partitions sector (unread err))
        ≡ returned plan)
unfolding recursive_plan map_of jobs_of has_table push_table plan_jobs plan_job is_unknown detect_fs
    detect_read probe_partitions probe_from no_map
recursive_plan-unread depth size sector err = (_, refl)

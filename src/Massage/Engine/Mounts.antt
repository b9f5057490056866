-- ===== src/Massage/Engine/Mounts.antt =====
-- The massage engine with the mounts of src/mount/automount.cpp (src/engine/massage.cpp).
use reflash.Base.{ℕ, Option, Text}
use reflash.Fs.{Disk}
use reflash.Massage.Engine.Interface.{System}
use reflash.Mount.Table.{MountRecord, Shell}
use reflash.Mount.Unmount.{ensure_unmounted}
use reflash.Mount.Restore.{prepare_sha1_mounts, restore_mount_state}

-- The interface of the engine, filled by the functions on mounts.
mounts_system :
    {F W D : Type 0}
    → Shell W
    → (Text → W → Option (ℕ × Disk))
    → System F W D MountRecord
    → System F W D MountRecord
mounts_system sh open_disk y = record y {
  ensure_unmounted = ensure_unmounted sh;
  prepare_sha1_mounts = prepare_sha1_mounts sh open_disk;
  restore_mount_state = restore_mount_state sh;
  target_of = λ m. m.target;
}

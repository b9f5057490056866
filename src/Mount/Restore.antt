-- ===== src/Mount/Restore.antt =====
-- The mounts that the engine makes for its hashes, and how the mounts that were there before are
-- restored (src/mount/automount.cpp).
use reflash.Base.{
  ℕ, Bool, true, false, not, ◌&&◌, ◌||◌, Option, none, some, List, [], ◌∷◌, ◌++◌, if◌then◌else◌,
  text_eq, Text, text,
}
use mathlib.Core.List.{reverse}
use reflash.Fs.{Disk}
use reflash.Mount.Table.{
  MountRecord, mount_record, Shell, starts_with, options_has_ro, read_only, path_is_block,
  no_auth_target, find_mounts_for_device,
}
use reflash.Mount.Unmount.{Answer, unmount_one, deepest_first}
use reflash.Mount.Mounting.{
  Mounted, mounted, unmounted, try_udisks_mount_block, try_fuse_mount_file, try_privileged_mount,
  mount_device,
}
use reflash.Mount.Browse.{Prepared, mount_for_browse}

ro_options : Text → Text
ro_options options =
    if options_has_ro options
    then options
    else if text_eq options [] || text_eq options (text "rw")
    then text "ro"
    else text "ro," ++ options

as_read_only : List MountRecord → List MountRecord
as_read_only [] = []
as_read_only (m ∷ ms) = record m { options = ro_options m.options } ∷ as_read_only ms

mode_options : Bool → Text
mode_options ro = if ro then text "ro" else text "rw"

-- The types that are tried.
mount_types : List Text
mount_types =
    text "auto"
    ∷ text "vfat"
    ∷ text "exfat"
    ∷ text "ntfs3"
    ∷ text "ntfs"
    ∷ text "ext4"
    ∷ text "ext3"
    ∷ text "ext2"
    ∷ []

is_temporary : Bool → MountRecord → Bool
is_temporary temp m = temp && starts_with (text "/tmp/reflash-mnt-") m.target

module _ {W : Type 0} (sh : Shell W) where
  fuse_told : Mounted × W → Answer × W
  fuse_told (mounted r, w) = ((true, []), w)
  fuse_told (unmounted err, w) = ((false, err), w)

  or_remount : MountRecord → Bool × W → Answer × W
  or_remount m (true, w) = ((true, []), w)
  or_remount m (false, w) =
      let opts = mode_options (read_only m) in
      if no_auth_target sh m.device w
      then fuse_told (try_fuse_mount_file sh m.device m.target m.fstype opts 0 w)
      else try_privileged_mount sh m.device m.target m.fstype opts w

  remount_one : MountRecord → W → Answer × W
  remount_one m w = or_remount m (sh.mount m.device m.target m.fstype (read_only m) w)

  and_rest : Answer × W → (W → Answer × W) → Answer × W
  and_rest ((true, err), w) next = next w
  and_rest ((false, err), w) next = ((false, err), w)

  remount_in_turn : List MountRecord → W → Answer × W
  remount_in_turn [] w = ((true, []), w)
  remount_in_turn (m ∷ ms) w = and_rest (remount_one m w) (remount_in_turn ms)

  -- From the last record to the first.
  pub remount_records : List MountRecord → W → Answer × W
  remount_records recs = remount_in_turn (reverse recs)

  -- What could not be undone is passed over.
  undo_all : Bool → List MountRecord → W → W
  undo_all temp [] w = w
  undo_all temp (m ∷ ms) w =
      let w1 = (unmount_one sh m w).1 in
      undo_all temp ms (if is_temporary temp m then sh.rmdir m.target w1 else w1)

  current : Text → List MountRecord → W → List MountRecord × W
  current device [] w = find_mounts_for_device sh device w
  current device (m ∷ ms) w = (m ∷ ms, w)

  undo_current : Bool → List MountRecord × W → W
  undo_current temp (mounts, w) = undo_all temp (deepest_first mounts) w

  pub restore_mount_state : Text → List MountRecord → List MountRecord → Bool → W → Answer × W
  restore_mount_state device original active temp w =
      let w1 = undo_current temp (current device active w) in
      elim original [ [] ↦ ((true, []), w1) | m ∷ ms ↦ remount_records (m ∷ ms) w1 ]

module _ {W : Type 0} (sh : Shell W) (open_disk : Text → W → Option (ℕ × Disk)) where
  found_again : List MountRecord × W → Prepared × W
  found_again ([], w) = ((([], false), (false, [])), w)
  found_again (m ∷ ms, w) = (((m ∷ ms, false), (true, [])), w)

  after_remount : Text → Answer × W → Prepared × W
  after_remount device ((false, err), w) = ((([], false), (false, err)), w)
  after_remount device ((true, err), w) = found_again (find_mounts_for_device sh device w)

  -- The types in turn.
  try_types : Text → Text → List Text → W → Bool × W
  try_types device dir [] w = (false, w)
  try_types device dir (t ∷ ts) w =
      let r = mount_device sh device dir t (text "ro") w in
      elim r.0.0 [ true ↦ (true, r.1) | false ↦ try_types device dir ts r.1 ]

  found_or_record : Text → Text → List MountRecord × W → Prepared × W
  found_or_record device dir ([], w) =
      (((mount_record device dir (text "auto") (text "ro") ∷ [], true), (true, [])), w)
  found_or_record device dir (m ∷ ms, w) = (((m ∷ ms, true), (true, [])), w)

  by_type : Text → Text → Bool × W → Prepared × W
  by_type device dir (false, w) = (
    (([], false), (false, text "could not mount " ++ device ++ text " read-only")),
    sh.rmdir dir w,
  )
  by_type device dir (true, w) = found_or_record device dir (find_mounts_for_device sh device w)

  or_types : Text → Text → Mounted × W → Prepared × W
  or_types device dir (mounted r, w) = (((r ∷ [], true), (true, [])), sh.rmdir dir w)
  or_types device dir (unmounted err, w) = by_type device dir (try_types device dir mount_types w)

  at_folder : Text → Option Text × W → Prepared × W
  at_folder device (none, w) = ((([], false), (false, text "mkdtemp failed")), w)
  at_folder device (some dir, w) = or_types device dir (
      if path_is_block sh device w && not (no_auth_target sh device w)
      then try_udisks_mount_block sh device (text "ro") w
      else (unmounted [], w))

  -- No mount is there: what was there is mounted read-only, or else the device is. Both ways return,
  -- so the last loop of the source is never reached.
  mount_again : Text → List MountRecord → W → Prepared × W
  mount_again device (m ∷ ms) w =
      after_remount device (remount_records sh (as_read_only (m ∷ ms)) w)
  mount_again device [] w =
      if no_auth_target sh device w
      then mount_for_browse sh open_disk device w
      else at_folder device (sh.mkdtemp w)

  or_mount_again : Text → List MountRecord → List MountRecord × W → Prepared × W
  or_mount_again device original ([], w) = mount_again device original w
  or_mount_again device original (m ∷ ms, w) = (((m ∷ ms, false), (true, [])), w)

  pub prepare_sha1_mounts : Text → List MountRecord → W → Prepared × W
  prepare_sha1_mounts device original w =
      or_mount_again device original (find_mounts_for_device sh device w)

-- ===== src/Mount/Browse.antt =====
-- How a device or an image is mounted to be read (src/mount/automount.cpp). `open_disk` is what
-- `Device::open` gives: the sector size and the contents.
use reflash.Base.{
  ℕ, Bool, true, false, not, ◌&&◌, ◌||◌, Option, none, some, List, [], ◌∷◌, ◌++◌, leb, ◌==◌,
  if◌then◌else◌, drop, text_eq, Text, text, to_string,
}
use reflash.Fs.{FsType, unknown, fat12, fat16, fat32, exfat, ntfs, ext2, ext3, ext4, Disk}
use reflash.Fs.Detect.{detect_fs}
use reflash.Partition.{Partition, Probe, probed, failed_with, probe_partitions}
use reflash.Mount.Table.{
  MountRecord, mount_record, Shell, starts_with, path_is_block, path_is_directory, no_auth_target,
  find_mounts_for_device,
}
use reflash.Mount.Unmount.{Answer, is_empty, which_ok}
use reflash.Mount.Mounting.{
  Mounted, mounted, unmounted, or_other, try_udisks_mount_block, try_fuse_mount_file,
}

-- The mounts, whether they are temporary, and the verdict.
abbrev pub Prepared : Type 0
Prepared = (List MountRecord × Bool) × Answer

fs_fuse_hint : FsType → Text
fs_fuse_hint unknown = text "auto"
fs_fuse_hint fat12 = text "vfat"
fs_fuse_hint fat16 = text "vfat"
fs_fuse_hint fat32 = text "vfat"
fs_fuse_hint exfat = text "exfat"
fs_fuse_hint ntfs = text "ntfs"
fs_fuse_hint ext2 = text "ext"
fs_fuse_hint ext3 = text "ext"
fs_fuse_hint ext4 = text "ext"

-- Where a file system may be: the offset, its type, and the device of the partition or nothing.
pub record Candidate : Type 0 where
  offset : ℕ
  hint : Text
  part_path : Text

has_digit : Text → Bool
has_digit [] = false
has_digit (c ∷ cs) = (leb b'0' c && leb c b'9') || has_digit cs

part_name : Bool → Text → ℕ → Text
part_name is_block device index =
    if is_block && (starts_with (text "/dev/") device && not (has_digit (drop 5 device)))
    then device ++ to_string index
    else []

whole_candidate : FsType → List Candidate
whole_candidate unknown = []
whole_candidate type = record { offset = 0; hint = fs_fuse_hint type; part_path = [] } ∷ []

part_candidates : Bool → Text → Disk → List Partition → List Candidate
part_candidates is_block device disk [] = []
part_candidates is_block device disk (p ∷ ps) =
    record {
      offset = p.start_bytes;
      hint = fs_fuse_hint (detect_fs disk p.start_bytes).0;
      part_path = part_name is_block device p.index;
    }
    ∷ part_candidates is_block device disk ps

partitions_of : Probe → List Partition
partitions_of (probed pm) = pm.parts
partitions_of (failed_with err pm) = pm.parts

or_auto : List Candidate → List Candidate
or_auto [] = record { offset = 0; hint = text "auto"; part_path = [] } ∷ []
or_auto (c ∷ cs) = c ∷ cs

candidates_of : Bool → Text → ℕ × Disk → List Candidate
candidates_of is_block device (sector_size, disk) = or_auto (
    whole_candidate (detect_fs disk 0).0
    ++ part_candidates is_block device disk (partitions_of (probe_partitions sector_size disk)))

module _ {W : Type 0} (sh : Shell W) (open_disk : Text → W → Option (ℕ × Disk)) where
  -- A mount that is temporary, or the text of the last failure.
  as_prepared : Mounted × W → Prepared × W
  as_prepared (mounted r, w) = (((r ∷ [], true), (true, [])), w)
  as_prepared (unmounted err, w) = ((([], false), (false, err)), w)

  or_next : Mounted × W → (Text → W → Mounted × W) → Mounted × W
  or_next (mounted r, w) next = (mounted r, w)
  or_next (unmounted err, w) next = next err w

  by_udisks : Bool → Text → Text → W → Mounted × W
  by_udisks false device err w = (unmounted err, w)
  by_udisks true device err w = try_udisks_mount_block sh device (text "ro") w

  -- An attempt that is made if udisks is there; otherwise the last failure stays.
  if_udisks : Bool → Text → Text → W → Mounted × W
  if_udisks wanted device err w =
      let r = if wanted then which_ok sh (text "udisksctl") w else (false, w) in
      by_udisks r.0 device err r.1

  -- A folder that nothing was mounted on is taken away.
  tidied : Text → Mounted × W → Mounted × W
  tidied dir (mounted r, w) = (mounted r, w)
  tidied dir (unmounted err, w) = (unmounted err, sh.rmdir dir w)

  -- No folder ends the search.
  fuse_at : Text → Candidate → Option Text × W → (Text → W → Mounted × W) → Mounted × W
  fuse_at device c (none, w) next = (unmounted (text "mkdtemp failed"), w)
  fuse_at device c (some dir, w) next =
      or_next (tidied dir (try_fuse_mount_file sh device dir c.hint (text "ro") c.offset w)) next

  by_fuse : Text → Candidate → (Text → W → Mounted × W) → Text → W → Mounted × W
  by_fuse device c next err w =
      if no_auth_target sh device w || path_is_block sh device w
      then fuse_at device c (sh.mkdtemp w) next
      else next err w

  -- The candidates in turn, with the last failure.
  try_candidates : Text → List Candidate → Text → W → Mounted × W
  try_candidates device [] err w =
      (unmounted (or_other err (text "could not mount " ++ device ++ text " for browsing")), w)
  try_candidates device (c ∷ cs) err w =
      or_next
        (if_udisks (not (is_empty c.part_path) && path_is_block sh c.part_path w) c.part_path err w)
        λ err1 w1.
          or_next
            (if_udisks
              (path_is_block sh device w1 && (c.offset == 0 && not (no_auth_target sh device w1)))
              device err1 w1)
            (by_fuse device c (try_candidates device cs))

  open_and_mount : Text → Option (ℕ × Disk) → W → Prepared × W
  open_and_mount device none w = ((([], false), (false, text "cannot open " ++ device)), w)
  open_and_mount device (some disk) w =
      as_prepared
        (try_candidates device (candidates_of (path_is_block sh device w) device disk) [] w)

  or_open : Text → List MountRecord × W → Prepared × W
  or_open device ([], w) = open_and_mount device (open_disk device w) w
  or_open device (m ∷ ms, w) = (((m ∷ ms, false), (true, [])), w)

  pub mount_for_browse : Text → W → Prepared × W
  mount_for_browse device w =
      if text_eq device []
      then ((([], false), (false, text "no drive selected")), w)
      else if path_is_directory sh device w
      then (((mount_record device device (text "dir") (text "bind") ∷ [], false), (true, [])), w)
      else or_open device (find_mounts_for_device sh device w)

-- ===== src/Fs/Detect.antt =====
-- Which file system starts at an offset (src/fs/detect.cpp): `detect_fs`, and the dispatch of
-- `scan_filesystem`.
pub mod Kinds
use reflash.Base.{
  ℕ, ◌+◌, ◌-◌, ◌*◌, ◌/◌, ◌%◌, ◌^◌, Bool, true, false, not, ◌&&◌, ◌||◌, Option, none, some, List, [],
  ◌∷◌, ltb, leb, ◌==◌, if◌then◌else◌, text_eq, take, drop, Text, text, byte, r16, r32, u32_mod,
  u64_mod,
}
use reflash.BlockIo.{Read, got, failed}
use reflash.Fs.{
  FsType, unknown, fat12, fat16, fat32, exfat, ntfs, ext2, ext3, ext4, FsScanResult, Disk, Run,
  returned, fail, bit,
}
use reflash.Fs.Exfat.{scan_exfat}
use reflash.Fs.Fat.{or_else, scan_fat}
use reflash.Fs.Ntfs.Scan.{scan_ntfs}
use reflash.Fs.Ext.Scan.{scan_ext}

pub fs_type_name : FsType → Text
fs_type_name fat12 = text "fat12"
fs_type_name fat16 = text "fat16"
fs_type_name fat32 = text "fat32"
fs_type_name exfat = text "exfat"
fs_type_name ntfs = text "ntfs"
fs_type_name ext2 = text "ext2"
fs_type_name ext3 = text "ext3"
fs_type_name ext4 = text "ext4"
fs_type_name unknown = text "unknown"

-- `std::memcmp(buf + i, s, 8) == 0` for a string of eight bytes.
field_is : List ℕ → ℕ → Text → Bool
field_is buf i s = text_eq (take 8 (drop i buf)) s

-- The superblock is at 1024, and the test before it holds unless the offset is at the end of the
-- 64-bit range.
has_ext_magic : ℕ → List ℕ → Bool
has_ext_magic base_offset buf =
    leb ((base_offset + 1026) % u64_mod) ((base_offset + 4096) % u64_mod)
    && (r16 buf (1024 + 56) == 0xEF53)

detect_ext : List ℕ → FsType
detect_ext buf =
    if bit (r32 buf (1024 + 96)) 6 then ext4 else if bit (r32 buf (1024 + 92)) 2 then ext3 else ext2

-- The fallback by the number of clusters.
pub detect_by_clusters : List ℕ → FsType
detect_by_clusters buf =
    let bps = r16 buf 11 in
    let spc = byte buf 13 in
    let totsec = or_else (r16 buf 19) (r32 buf 32) in
    let fatsz = or_else (r16 buf 22) (r32 buf 36) in
    let root_secs = (r16 buf 17 * 32 + (bps - 1)) / bps in
    let meta = (r16 buf 14 + byte buf 16 * fatsz + root_secs) % u32_mod in
    let clusters = (totsec + u32_mod - meta) % u32_mod / spc in
    if not (bps == 0) && (not (spc == 0) && not (byte buf 16 == 0))
    then (if ltb clusters 4085 then fat12 else if ltb clusters 65525 then fat16 else fat32)
    else unknown

detect_fat : List ℕ → FsType
detect_fat buf =
    if field_is buf 82 (text "FAT32   ")
    then fat32
    else if field_is buf 54 (text "FAT16   ")
    then fat16
    else if field_is buf 54 (text "FAT12   ")
    then fat12
    else detect_by_clusters buf

has_boot_signature : List ℕ → Bool
has_boot_signature buf = (byte buf 510 == 0x55) && (byte buf 511 == 0xAA)

pub detect_buf : ℕ → List ℕ → FsType
detect_buf base_offset buf =
    if has_ext_magic base_offset buf
    then detect_ext buf
    else if field_is buf 3 (text "NTFS    ")
    then ntfs
    else if field_is buf 3 (text "EXFAT   ")
    then exfat
    else if has_boot_signature buf
    then detect_fat buf
    else unknown

-- What is written to `err`: nothing where a file system is recognised.
pub with_error : FsType → FsType × Option Text
with_error unknown = (unknown, some (text "unrecognized filesystem"))
with_error t = (t, none)

unfoldable pub detect_read : ℕ → Read → FsType × Option Text
detect_read base_offset (failed err) = (unknown, some err)
detect_read base_offset (got buf) = with_error (detect_buf base_offset buf)

unfoldable pub detect_fs : Disk → ℕ → FsType × Option Text
detect_fs dev base_offset = detect_read base_offset (dev base_offset 4096)

pub no_result : FsType → FsScanResult
no_result type = record { type = type; label = []; objects = []; error = [] }

pub scan_filesystem : ℕ → Disk → ℕ → FsType → Run (Bool × FsScanResult)
scan_filesystem depth dev base fat12 = scan_fat depth dev base fat12 (no_result fat12)
scan_filesystem depth dev base fat16 = scan_fat depth dev base fat16 (no_result fat16)
scan_filesystem depth dev base fat32 = scan_fat depth dev base fat32 (no_result fat32)
scan_filesystem depth dev base exfat = scan_exfat depth dev base (no_result exfat)
scan_filesystem depth dev base ntfs = scan_ntfs dev base (no_result ntfs)
scan_filesystem depth dev base ext2 = scan_ext depth dev base ext2 (no_result ext2)
scan_filesystem depth dev base ext3 = scan_ext depth dev base ext3 (no_result ext3)
scan_filesystem depth dev base ext4 = scan_ext depth dev base ext4 (no_result ext4)
scan_filesystem depth dev base unknown =
    returned (fail (text "unsupported filesystem") (no_result unknown))

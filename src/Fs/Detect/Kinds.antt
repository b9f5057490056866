-- ===== src/Fs/Detect/Kinds.antt =====
-- What `detect_fs` answers (src/fs/detect.cpp), against the scanner of src/fs/fat.cpp.
use reflash.Base.{
  ℕ, ◌+◌, ◌-◌, ◌%◌, ◌≤◌, ◌<◌, ◌≡◌, ◌≢◌, ◌↔◌, refl, false, Option, none, List, arith, ltb, ◌==◌,
  if◌then◌else◌, byte, r16, r32, u32_mod, text,
}
use reflash.BlockIo.{Read, got, failed}
use reflash.Fs.{FsType, unknown, fat12, fat16, fat32, Disk, returned, fail}
use reflash.Fs.Fat.{or_else, geometry, is_fat32}
use reflash.Fs.Detect.{
  detect_by_clusters, detect_fs, detect_read, with_error, no_result, scan_filesystem,
}

-- The type of FAT by the number of clusters, as the format defines it.
pub fat_kind : ℕ → FsType
fat_kind clusters = if ltb clusters 4085 then fat12 else if ltb clusters 65525 then fat16 else fat32

-- The sectors of the volume and what is before its clusters, as numbers.
unfoldable pub sectors : List ℕ → ℕ
sectors buf = or_else (r16 buf 19) (r32 buf 32)

wrapped-sub : (a b : ℕ) → b ≤ a → a < u32_mod → b < u32_mod → (a + u32_mod - b) % u32_mod ≡ a - b
wrapped-sub a b h k l = omega (arith, h, k, l)

-- In a boot sector without the name of a type, with sector size, cluster size and number of tables
-- all non-zero and with the clusters starting within the volume, `detect_fs` falls back to the type
-- that the format gives to the number of clusters that the scanner computes for FAT12 and FAT16.
pub detect_by_clusters-geometry :
    (t : FsType) (base : ℕ) (buf : List ℕ)
    → is_fat32 t ≡ false
    → (r16 buf 11 == 0) ≡ false
    → (byte buf 13 == 0) ≡ false
    → (byte buf 16 == 0) ≡ false
    → (geometry t base buf).data_start ≤ sectors buf
    → sectors buf < u32_mod
    → detect_by_clusters buf ≡ fat_kind (geometry t base buf).clusters
unfolding detect_by_clusters fat_kind geometry sectors
detect_by_clusters-geometry t base buf old bps spc fats starts word =
    let d = (geometry t base buf).data_start in
    let below : d < u32_mod = omega arith in
    ground (arith, wrapped-sub (sectors buf) d starts word below)

-- A type and what is reported with it.
Reported : FsType × Option (List ℕ) → Type 0
Reported r = (r.1 ≡ none) ↔ (r.0 ≢ unknown)

with_error-Reported : (t : FsType) → Reported (with_error t)
unfolding Reported with_error
with_error-Reported t = ground arith

detect_read-Reported : (base : ℕ) (r : Read) → Reported (detect_read base r)
unfolding Reported detect_read
detect_read-Reported base (got buf) = with_error-Reported _
detect_read-Reported base (failed err) = ground arith

-- `detect_fs` reports an error exactly where it answers `Unknown`, and `scan_filesystem` refuses
-- that answer as unsupported without reading the device.
detect_fs-error :
    (depth : ℕ) (dev : Disk) (base : ℕ)
    → (((detect_fs dev base).1 ≡ none) ↔ ((detect_fs dev base).0 ≢ unknown))
      × ((detect_fs dev base).0 ≡ unknown
          → scan_filesystem depth dev base (detect_fs dev base).0
            ≡ returned (fail (text "unsupported filesystem") (no_result unknown)))
unfolding detect_fs Reported scan_filesystem
detect_fs-error depth dev base = (detect_read-Reported base _, λ none_found. rw none_found refl)

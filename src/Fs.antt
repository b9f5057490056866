-- ===== src/Fs.antt =====
-- What the scanners share: the types of src/fs/detect.hpp, the list of extents that every scanner
-- builds, and the outcome of a scan. A scan only reads, so the device is the function `Disk`:
-- what `pread_all` delivers for an offset and a length.
pub mod Extents
pub mod Visited
pub mod Detect
pub mod Fat
pub mod Exfat
pub mod Ntfs
pub mod Ext
pub mod Tests
use reflash.Base.{
  ℕ, ◌+◌, ◌*◌, ◌/◌, ◌%◌, ◌^◌, Bool, true, false, ◌||◌, List, [], ◌∷◌, ◌++◌, ◌==◌, if◌then◌else◌,
  Text, u64_mod,
}
use reflash.BlockIo.{Read, got, failed}

pub data FsType : Type 0 where
  unknown fat12 fat16 fat32 exfat ntfs ext2 ext3 ext4 : FsType

pub record FsFileExtent : Type 0 where
  pub offset : ℕ
  pub length : ℕ

abbrev pub extent : ℕ → ℕ → FsFileExtent
extent offset len = record { offset = offset; length = len }

pub record FsObject : Type 0 where
  pub path : Text
  pub size : ℕ
  pub extents : List FsFileExtent

pub record FsScanResult : Type 0 where
  pub type : FsType
  pub label : Text
  pub objects : List FsObject
  pub error : Text

abbrev pub Disk : Type 0
Disk = ℕ → ℕ → Read

-- A run of the code: it returns, it traps (a division by zero, a shift by the width of the type or
-- more), or it has not returned within the fuel.
pub data Run (A : Type 0) : Type 0 where
  returned : A → Run A
  trapped : Run A
  out_of_fuel : Run A

infixl 5 ◌>>=◌
abbrev pub ◌>>=◌ : {A B : Type 0} → Run A → (A → Run B) → Run B
returned a >>= f = f a
trapped >>= f = trapped
out_of_fuel >>= f = out_of_fuel

-- `exts.back().length += e.length` where `e` starts where the last extent ends, `push_back`
-- otherwise; in 64-bit arithmetic.
pub push : List FsFileExtent → FsFileExtent → List FsFileExtent
push [] e = e ∷ []
push (x ∷ []) e =
    if (x.offset + x.length) % u64_mod == e.offset
    then extent x.offset ((x.length + e.length) % u64_mod) ∷ []
    else x ∷ e ∷ []
push (x ∷ y ∷ rest) e = x ∷ push (y ∷ rest) e

abbrev pub add_object : FsObject → FsScanResult → FsScanResult
add_object o out = record out { objects = out.objects ++ o ∷ [] }

abbrev pub fail : Text → FsScanResult → Bool × FsScanResult
fail err out = (false, record out { error = err })

-- `b & (1 << n)` as a condition.
abbrev pub bit : ℕ → ℕ → Bool
bit b n = b / 2 ^ n % 2 == 1

-- `std::set::count`
pub seen_in : List ℕ → ℕ → Bool
seen_in [] c = false
seen_in (x ∷ xs) c = (x == c) || seen_in xs c

-- One extent after the other, as the scanners merge the extents of a part.
pub push_all : List FsFileExtent → List FsFileExtent → List FsFileExtent
push_all exts [] = exts
push_all exts (e ∷ es) = push_all (push exts e) es

-- The bytes of a list of extents, counted in 64 bits.
pub sum_lengths : List FsFileExtent → ℕ → ℕ
sum_lengths [] size = size
sum_lengths (e ∷ es) size = sum_lengths es ((size + e.length) % u64_mod)

-- The bytes of a list of extents, read one after the other.
pub read_extents : Disk → List FsFileExtent → Read
read_extents dev [] = got []
read_extents dev (e ∷ es) = elim (dev e.offset e.length) [
  | failed err ↦ failed err
  | got chunk ↦ elim (read_extents dev es) [
    | failed err ↦ failed err
    | got rest ↦ got (chunk ++ rest)
  ]
]

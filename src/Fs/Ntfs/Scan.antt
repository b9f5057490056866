-- ===== src/Fs/Ntfs/Scan.antt =====
-- `scan_ntfs` (src/fs/ntfs.cpp): the boot sector, the first record of the file table, and the
-- records of the table.
use reflash.Base.{
  ℕ, zero, suc, ◌+◌, ◌-◌, ◌*◌, ◌%◌, ◌^◌, Bool, true, false, ◌&&◌, ◌||◌, Option, none, some, List,
  [], ◌∷◌, ◌++◌, ltb, leb, ◌==◌, if◌then◌else◌, text_eq, length, take, drop, Text, text, to_string,
  byte, r16, r64, u32_mod, u64_mod,
}
use reflash.BlockIo.{got, failed}
use reflash.Fs.{
  FsFileExtent, extent, FsObject, FsScanResult, Disk, Run, returned, trapped, out_of_fuel, ◌>>=◌,
  add_object, fail, bit, sum_lengths, read_extents,
}
use reflash.Fs.Ntfs.{fixup_record, Attrs, collect_nonresident_attrs}

-- What `scan_ntfs` reads from the boot sector.
pub record Boot : Type 0 where
  pub bps : ℕ
  pub spc : ℕ
  mft_lcn : ℕ
  mft_record_size : ℕ

-- The record size: a byte of 128 or more is negative, and its opposite the exponent. A shift by 32
-- or more is undefined.
record_size : ℕ → ℕ → ℕ → Option ℕ
record_size bps spc clusters_per_mft =
    if ltb 0 clusters_per_mft && ltb clusters_per_mft 128
    then some (clusters_per_mft * bps * spc % u32_mod)
    else if clusters_per_mft == 0
    then some 1
    else if ltb (256 - clusters_per_mft) 32
    then some (2 ^ (256 - clusters_per_mft))
    else none

invalid_boot : Boot → Bool
invalid_boot b = (b.bps == 0) || ((b.spc == 0) || ltb b.mft_record_size 1024)

mft_off : ℕ → Boot → ℕ
mft_off base b = (base + b.mft_lcn * (b.bps * b.spc)) % u64_mod

boot_object : ℕ → Boot → FsObject
boot_object base b = record { path = text "::boot"; size = b.bps; extents = extent base b.bps ∷ [] }

-- The object of the file table; its extents are those of the first record, or that record itself.
mft_object : ℕ → Boot → List FsFileExtent → FsObject
mft_object base b [] = record {
  path = text "::$MFT";
  size = b.mft_record_size;
  extents = extent (mft_off base b) b.mft_record_size ∷ [];
}
mft_object base b (e ∷ es) = record {
  path = text "::$MFT";
  size = sum_lengths (e ∷ es) 0;
  extents = e ∷ es;
}

path_of : ℕ → Option Text → Text
path_of number none = text "/file-" ++ to_string number
path_of number (some name) = b'/' ∷ name

-- The record after its attributes are collected; record 0 is the file table, which is there.
add_record : ℕ → Attrs → FsScanResult → FsScanResult
add_record number a out =
    if ((length a.exts == 0) && (a.logical_size == 0)) || (number == 0)
    then out
    else add_object record { path = path_of number a.name; size = a.logical_size; extents = a.exts }
        out

-- The body of the loop over the records, for record `number`.
table_record : ℕ → Boot → ℕ → List ℕ → FsScanResult → Run FsScanResult
table_record base b number bytes out =
    let fixed = fixup_record bytes b.bps in
    let rec = fixed.1 in
    elim (fixed.0 && (text_eq (take 4 rec) (text "FILE") && bit (r16 rec 22) 0)) [
      | false ↦ returned out
      | true ↦
          collect_nonresident_attrs rec base b.bps b.spc (some (text "file-" ++ to_string number))
          >>= λ a. returned (add_record number a out)
    ]

-- The loop, with fuel for the records.
table_records : ℕ → ℕ → Boot → ℕ → List ℕ → FsScanResult → Run FsScanResult
table_records zero base b number table out = out_of_fuel
table_records (suc f) base b number table out = elim (leb b.mft_record_size (length table)) [
  | false ↦ returned out
  | true ↦
      table_record base b number (take b.mft_record_size table) out
      >>= table_records f base b (suc number) (drop b.mft_record_size table)
]

-- After the extents of the file table are known.
scan_table : Disk → ℕ → Boot → List FsFileExtent → FsScanResult → Run (Bool × FsScanResult)
scan_table dev base b [] out = returned (true, add_object (mft_object base b []) out)
scan_table dev base b (e ∷ es) out =
    let done = add_object (mft_object base b (e ∷ es)) out in
    elim (read_extents dev (e ∷ es)) [
      | failed err ↦ returned (fail err done)
      | got table ↦
          table_records (suc (length table)) base b 0 table done >>= λ r. returned (true, r)
    ]

scan_mft : Disk → ℕ → Boot → FsScanResult → Run (Bool × FsScanResult)
scan_mft dev base b out = elim (dev (mft_off base b) b.mft_record_size) [
  | failed err ↦ returned (fail err out)
  | got mft0 ↦
      let fixed = fixup_record mft0 b.bps in
      elim fixed.0 [
        | false ↦ returned (fail (text "bad $MFT record") out)
        | true ↦ collect_nonresident_attrs fixed.1 base b.bps b.spc none >>= λ a.
            scan_table dev base b a.exts out
      ]
]

scan_boot : Disk → ℕ → List ℕ → ℕ → FsScanResult → Run (Bool × FsScanResult)
scan_boot dev base boot size out =
    let b : Boot = record {
      bps = r16 boot 11;
      spc = byte boot 13;
      mft_lcn = r64 boot 48;
      mft_record_size = size;
    } in
    if invalid_boot b
    then returned (fail (text "invalid NTFS boot") out)
    else scan_mft dev base b (add_object (boot_object base b) out)

pub scan_ntfs : Disk → ℕ → FsScanResult → Run (Bool × FsScanResult)
scan_ntfs dev base out = elim (dev base 512) [
  | failed err ↦ returned (fail err out)
  | got boot ↦ elim (text_eq (take 8 (drop 3 boot)) (text "NTFS    ")) [
    | false ↦ returned (fail (text "not NTFS") out)
    | true ↦ elim (record_size (r16 boot 11) (byte boot 13) (byte boot 64)) [
      | none ↦ trapped
      | some size ↦ scan_boot dev base boot size out
    ]
  ]
]

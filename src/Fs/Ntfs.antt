-- ===== src/Fs/Ntfs.antt =====
-- The NTFS scanner (src/fs/ntfs.cpp): run lists, the fixup of a record, the attributes of a record
-- and `scan_ntfs`. A pointer into a record is the rest of the record from there on. A signed 64-bit
-- number is kept as its two's complement word, and `lcn += off` wraps.
pub mod Runs
pub mod Loop
pub mod Scan
mod Tests
pub mod Fixup
use reflash.Base.{
  ℕ, zero, suc, ◌+◌, ◌-◌, ◌*◌, ◌/◌, ◌%◌, ◌^◌, Bool, true, false, not, ◌&&◌, ◌||◌, Option, none,
  some, List, [], ◌∷◌, ◌++◌, ltb, leb, ◌==◌, if◌then◌else◌, text_eq, length, take, drop, set, Text,
  text, to_string, byte, r16, r32, r64, u16_mod, u32_mod, u64_mod,
}
use reflash.BlockIo.{Read, got, failed}
use reflash.Fs.{
  FsFileExtent, extent, FsObject, FsScanResult, Disk, Run, returned, trapped, out_of_fuel, ◌>>=◌,
  push, push_all,
}

-- `n` bytes at the pointer, least significant first.
pub le_word : ℕ → List ℕ → ℕ
le_word zero p = 0
le_word (suc n) p = byte p 0 + 256 * le_word n (drop 1 p)

pub read_signed : List ℕ → ℕ → ℕ
read_signed p n =
    if not (n == 0) && leb 128 (byte p (n - 1))
    then u64_mod - 256 ^ n + le_word n p
    else le_word n p

-- The parameters of `decode_runs_allocated`.
pub record Volume : Type 0 where
  pub base : ℕ
  pub cluster_bytes : ℕ

-- Its locals.
pub record Decode : Type 0 where
  pub run : List ℕ
  pub lcn : ℕ
  pub exts : List FsFileExtent

pub data DecodeEnd : Type 0 where
  ends : List FsFileExtent → DecodeEnd
  goes_on : Decode → DecodeEnd
  undefined : DecodeEnd

-- The last part of the body, for a run that is on the volume.
pub decode_stored : Volume → ℕ → ℕ → List ℕ → Decode → DecodeEnd
decode_stored v off_len run_len p s =
    let lcn = (s.lcn + read_signed p off_len) % u64_mod in
    goes_on record {
      run = drop off_len p;
      lcn = lcn;
      exts = push s.exts (
          extent ((v.base + lcn * v.cluster_bytes) % u64_mod)
            (run_len * v.cluster_bytes % u64_mod));
    }

-- One round. A field of more than eight bytes would be shifted by the width of its type.
pub decode_round : Volume → Decode → DecodeEnd
decode_round v s =
    let header = byte s.run 0 in
    let len_len = header % 16 in
    let off_len = header / 16 % 16 in
    let p = drop (suc len_len) s.run in
    if header == 0
    then ends s.exts
    else if len_len == 0
    then ends s.exts
    else if ltb 8 len_len || ltb 8 off_len
    then undefined
    else if off_len == 0
    then goes_on record s { run = p }
    else decode_stored v off_len (le_word len_len (drop 1 s.run)) p s

pub decode_loop : ℕ → Volume → Decode → Run (List FsFileExtent)
decode_loop zero v s = out_of_fuel
decode_loop (suc f) v s = elim (decode_round v s) [
  | ends exts ↦ returned exts
  | goes_on next ↦ decode_loop f v next
  | undefined ↦ trapped
]

pub decode_runs_allocated : List ℕ → ℕ → ℕ → ℕ → Run (List FsFileExtent)
decode_runs_allocated run base bps spc =
    decode_loop (suc (length run)) record { base = base; cluster_bytes = bps * spc }
      record { run = run; lcn = 0; exts = [] }

-- The end of sector `i`, in `size_t`.
pub sector_tail : ℕ → ℕ → ℕ
sector_tail sector_size i = (i * sector_size + u64_mod - 2) % u64_mod

-- The loop over the update sequence array, from entry `i` on, with `n` entries to go.
pub fixup_loop : ℕ → ℕ → ℕ → ℕ → List ℕ → Bool × List ℕ
fixup_loop sector_size usa_off zero i rec = (true, rec)
fixup_loop sector_size usa_off (suc n) i rec =
    let pos = sector_tail sector_size i in
    let low = set rec pos (byte rec (usa_off + i * 2)) in
    let high = set low (pos + 1) (byte low (usa_off + (i * 2 + 1))) in
    let rest = fixup_loop sector_size usa_off n (i + 1) high in
    if ltb (length rec) ((pos + 2) % u64_mod) then (false, rec) else rest

pub fixup_record : List ℕ → ℕ → Bool × List ℕ
fixup_record rec sector_size =
    let usa_off = r16 rec 4 in
    let usa_count = r16 rec 6 in
    if ltb (length rec) 8 || not (text_eq (take 4 rec) (text "FILE"))
    then (false, rec)
    else if (usa_off == 0) || ltb usa_count 2
    then (true, rec)
    else if ltb (length rec) (usa_off + usa_count * 2)
    then (false, rec)
    else fixup_loop sector_size usa_off (usa_count - 1) 1 rec

-- The locals and the out parameters of `collect_nonresident_attrs`; no name is asked for where
-- `name` is none.
pub record Attrs : Type 0 where
  pub aoff : ℕ
  pub exts : List FsFileExtent
  pub logical_size : ℕ
  pub name : Option Text

-- The `n` characters of a name.
name_chars : ℕ → List ℕ → Text
name_chars zero p = []
name_chars (suc n) p =
    let ch = r16 p 0 in (if ltb ch 0x80 then ch else b'?') ∷ name_chars n (drop 2 p)

file_name : List ℕ → Attrs → Option Text
unfolding name_chars
file_name rec s = elim s.name [
  | none ↦ none
  | some name ↦
      let a = drop s.aoff rec in
      let content_off = r16 a 20 in
      let c = drop content_off a in
      some (
        if (r32 a 0 == 0x30) && (byte a 8 == 0)
        then (if ltb (s.aoff + content_off + 66) (length rec)
              && (leb (byte c 65) 3 && ltb 0 (byte c 64))
            then name_chars (byte c 64) (drop 66 c)
            else name)
        else name)
]

-- The runs of a non-resident attribute.
pub attr_runs : List ℕ → ℕ → ℕ → ℕ → List FsFileExtent → Run (List FsFileExtent)
attr_runs a base bps spc exts =
    let run_off = r16 a 32 in
    elim (ltb 0 run_off && ltb run_off (r32 a 4)) [
      | true ↦ decode_runs_allocated (drop run_off a) base bps spc >>= λ part.
          returned (push_all exts part)
      | false ↦ returned exts
    ]

-- The body of the loop.
pub attr : List ℕ → ℕ → ℕ → ℕ → Attrs → Run Attrs
attr rec base bps spc s =
    let a = drop s.aoff rec in
    let atype = r32 a 0 in
    let alen = r32 a 4 in
    let name = file_name rec s in
    let aoff = (s.aoff + alen) % u16_mod in
    elim (not (byte a 8 == 0) && leb 64 alen) [
      | true ↦ attr_runs a base bps spc s.exts >>= λ exts. returned record {
        aoff = aoff;
        exts = exts;
        logical_size = if atype == 0x80 then r64 a 48 else s.logical_size;
        name = name;
      }
      | false ↦ returned record {
        aoff = aoff;
        exts = s.exts;
        logical_size = if (atype == 0x80) && (byte a 8 == 0) then r32 a 16 else s.logical_size;
        name = name;
      }
    ]

-- The condition of the loop, with the `break`.
pub at_attr : List ℕ → ℕ → Bool
at_attr rec aoff =
    let a = drop aoff rec in
    ltb (aoff + 8) (length rec) && not ((r32 a 0 == 0xFFFFFFFF) || ltb (r32 a 4) 8)

pub collect_loop : ℕ → List ℕ → ℕ → ℕ → ℕ → Attrs → Run Attrs
collect_loop zero rec base bps spc s = out_of_fuel
collect_loop (suc f) rec base bps spc s = elim (at_attr rec s.aoff) [
  | false ↦ returned s
  | true ↦ attr rec base bps spc s >>= collect_loop f rec base bps spc
]

-- The record does not change and `aoff` has 16 bits, so a loop that has not ended after as many
-- rounds does not end.
pub collect_nonresident_attrs : List ℕ → ℕ → ℕ → ℕ → Option Text → Run Attrs
collect_nonresident_attrs rec base bps spc name =
    collect_loop (suc u16_mod) rec base bps spc
      record { aoff = r16 rec 20; exts = []; logical_size = 0; name = name }

-- ===== src/Fs/Exfat.antt =====
-- The exFAT scanner (src/fs/exfat.cpp). Shifts by more than the width, which C++ leaves undefined,
-- are powers of two here.
pub mod Chain
use reflash.Base.{
  ℕ, zero, suc, ◌+◌, ◌-◌, ◌*◌, ◌/◌, ◌%◌, ◌^◌, min, Bool, true, false, not, ◌&&◌, ◌||◌, List, [],
  ◌∷◌, ◌++◌, ltb, leb, ◌==◌, if◌then◌else◌, text_eq, length, take, drop, Text, text, byte, r16, r32,
  r64, u16_mod, u32_mod, u64_mod,
}
use reflash.BlockIo.{Read, got, failed}
use reflash.Fs.{
  FsFileExtent, extent, FsScanResult, Disk, Run, returned, out_of_fuel, ◌>>=◌, push, add_object,
  fail, bit, seen_in,
}

pub record ExGeom : Type 0 where
  pub base : ℕ
  pub bps : ℕ
  pub spc_shift : ℕ
  pub fat_offset : ℕ
  pub fat_length : ℕ
  pub cluster_heap : ℕ
  pub cluster_count : ℕ
  pub root_cluster : ℕ

cluster_bytes : ExGeom → ℕ
cluster_bytes g = g.bps * 2 ^ g.spc_shift % u64_mod

cluster_off : ExGeom → ℕ → ℕ
cluster_off g c =
    (g.base + g.cluster_heap * g.bps + (c + u32_mod - 2) % u32_mod * cluster_bytes g) % u64_mod

fat_entry : List ℕ → ℕ → ℕ
fat_entry fat c =
    let off = c * 4 % u32_mod in
    if ltb (length fat) ((off + 4) % u32_mod) then 0xFFFFFFFF else r32 fat off

-- The locals of the two loops of `chain`; only the second keeps `seen`.
pub record Trail : Type 0 where
  pub cluster : ℕ
  pub left : ℕ
  pub seen : List ℕ
  pub exts : List FsFileExtent

pub data TrailEnd : Type 0 where
  ends : List FsFileExtent → TrailEnd
  goes_on : Trail → TrailEnd

bytes_here : ExGeom → Bool → ℕ → ℕ
bytes_here g whole_chain left = if whole_chain then cluster_bytes g else min left (cluster_bytes g)

-- The next cluster of a contiguous file.
pub strip_next : ExGeom → ℕ → Bool → Trail → TrailEnd
strip_next g size whole_chain s =
    let bytes = bytes_here g whole_chain s.left in
    let exts = push s.exts (extent (cluster_off g s.cluster) bytes) in
    let enough =
      leb ((size + cluster_bytes g) % u64_mod) (length exts * cluster_bytes g % u64_mod) in
    if whole_chain && (ltb 100000 (length exts) || (not (size == 0) && enough))
    then ends exts
    else goes_on record {
      cluster = (s.cluster + 1) % u32_mod;
      left = if whole_chain then s.left else s.left - bytes;
      seen = s.seen;
      exts = exts;
    }

pub strip_round : ExGeom → ℕ → Bool → Trail → TrailEnd
strip_round g size whole_chain s =
    if ltb 0 s.left && (leb 2 s.cluster && ltb s.cluster ((g.cluster_count + 2) % u32_mod))
    then strip_next g size whole_chain s
    else ends s.exts

-- The next cluster by the table.
pub link_next : ExGeom → List ℕ → Bool → Trail → TrailEnd
link_next g fat whole_chain s =
    let bytes = bytes_here g whole_chain s.left in
    let exts = push s.exts (extent (cluster_off g s.cluster) bytes) in
    let next = fat_entry fat s.cluster in
    if leb 0xFFFFFFF8 next
    then ends exts
    else goes_on record {
      cluster = next;
      left = if whole_chain then s.left else s.left - bytes;
      seen = s.cluster ∷ s.seen;
      exts = exts;
    }

pub link_round : ExGeom → List ℕ → Bool → Trail → TrailEnd
link_round g fat whole_chain s =
    if leb 2 s.cluster && (ltb s.cluster 0xFFFFFFF8 && ltb 0 s.left)
    then (if seen_in s.seen s.cluster then ends s.exts else link_next g fat whole_chain s)
    else ends s.exts

pub trail_loop : ℕ → (Trail → TrailEnd) → Trail → Run (List FsFileExtent)
trail_loop zero round s = out_of_fuel
trail_loop (suc fuel) round s = elim (round s) [
  | ends exts ↦ returned exts
  | goes_on next ↦ trail_loop fuel round next
]

pub trail : ℕ → ℕ → Trail
trail start left = record { cluster = start; left = left; seen = []; exts = [] }

strip_left : ExGeom → ℕ → Bool → ℕ
strip_left g size whole_chain =
    if whole_chain then (u64_mod - 1) / 2 else if size == 0 then cluster_bytes g else size

link_left : ℕ → Bool → ℕ
link_left size whole_chain = if whole_chain || (size == 0) then u64_mod - 1 else size

pub chain : ExGeom → List ℕ → ℕ → ℕ → Bool → Bool → Run (List FsFileExtent)
chain g fat start size no_fat_chain whole_chain = elim no_fat_chain [
  | true ↦
      trail_loop (suc u32_mod) (strip_round g size whole_chain)
        (trail start (strip_left g size whole_chain))
  | false ↦
      trail_loop (suc u32_mod) (link_round g fat whole_chain)
        (trail start (link_left size whole_chain))
]

-- The bytes of a directory, cluster by cluster. The extents that the source collects for the
-- directory before this loop are not used.
read_dir : ℕ → Disk → ExGeom → List ℕ → ℕ → List ℕ → List ℕ → Run Read
read_dir zero dev g fat c seen dir = out_of_fuel
read_dir (suc fuel) dev g fat c seen dir =
    elim (leb 2 c && (ltb c 0xFFFFFFF8 && not (seen_in seen c))) [
      | false ↦ returned (got dir)
      | true ↦ elim (dev (cluster_off g c) (cluster_bytes g)) [
        | failed err ↦ returned (failed err)
        | got chunk ↦ elim (leb 0xFFFFFFF8 (fat_entry fat c)) [
          | true ↦ returned (got (dir ++ chunk))
          | false ↦ read_dir fuel dev g fat (fat_entry fat c) (c ∷ seen) (dir ++ chunk)
        ]
      ]
    ]

-- A UTF-16 unit as UTF-8.
utf8 : ℕ → Text
utf8 ch =
    if ltb ch 0x80
    then ch ∷ []
    else if ltb ch 0x800
    then (0xC0 + ch / 64) ∷ (0x80 + ch % 64) ∷ []
    else (0xE0 + ch / 4096) ∷ (0x80 + ch / 64 % 64) ∷ (0x80 + ch % 64) ∷ []

-- The units of a name entry, `n` of them from offset `k`.
name_units : List ℕ → ℕ → ℕ → Text
name_units e k zero = []
name_units e k (suc n) =
    let rest = name_units e (k + 2) n in if r16 e k == 0 then [] else utf8 (r16 e k) ++ rest

-- The name in the secondary entries, and what is behind them.
collect_name : ℕ → List ℕ → Text → Text × List ℕ
collect_name zero dir name = (name, dir)
collect_name (suc n) dir name =
    let part = (if byte dir 0 % 128 == 0x41 then name_units dir 2 15 else []) in
    let rest = collect_name n (drop 32 dir) (name ++ part) in
    if ltb (length dir) 32 then (name, dir) else rest

or_unnamed : Text → Text
or_unnamed [] = text "unnamed"
or_unnamed (c ∷ cs) = c ∷ cs

-- What the loop over the entries does next, with the entries behind.
data EntryEnd : Type 0 where
  last : EntryEnd
  next : List ℕ → FsScanResult → EntryEnd
  descend : ℕ → Text → List ℕ → FsScanResult → EntryEnd

file_extents : ExGeom → List ℕ → ℕ → ℕ → Bool → Bool → Run (List FsFileExtent)
file_extents g fat first size no_fat is_dir = elim (leb 2 first) [
  | true ↦ chain g fat first (if is_dir then 0 else size) no_fat is_dir
  | false ↦ returned []
]

-- A file entry `e` whose stream entry heads `stream`.
file_entry : ExGeom → List ℕ → Text → List ℕ → List ℕ → FsScanResult → Run EntryEnd
file_entry g fat prefix e stream out =
    let is_dir = bit (byte e 4) 4 in
    let first = r32 stream 20 in
    let size = r64 stream 8 in
    let named = collect_name (byte e 1 - 1) (drop 32 stream) [] in
    let path = prefix ++ text "/" ++ or_unnamed named.0 in
    file_extents g fat first size (bit (byte stream 1) 1) is_dir >>= λ exts.
    let done =
      add_object record { path = path; size = if is_dir then 0 else size; extents = exts } out in
    returned (if is_dir && leb 2 first then descend first path named.1 done else next named.1 done)

entry : ExGeom → List ℕ → Text → List ℕ → FsScanResult → Run EntryEnd
entry g fat prefix dir out =
    let stream = drop 32 dir in
    if byte dir 0 == 0
    then returned last
    else if not (byte dir 0 == 0x85)
    then returned (next stream out)
    else if ltb (length stream) 32 || not (byte stream 0 == 0xC0)
    then returned (next stream out)
    else file_entry g fat prefix dir stream out

-- The loop over the entries; a round passes at least one of 32 bytes, and `n` counts those.
entries :
    (ℕ → Text → FsScanResult → Run (Bool × FsScanResult))
    → ExGeom
    → List ℕ
    → Text
    → ℕ
    → List ℕ
    → FsScanResult
    → Run (Bool × FsScanResult)
entries walk g fat prefix zero dir out = returned (true, out)
entries walk g fat prefix (suc n) dir out = elim (ltb (length dir) 32) [
  | true ↦ returned (true, out)
  | false ↦ entry g fat prefix dir out >>= λ r. elim r [
    | last ↦ returned (true, out)
    | next rest done ↦ entries walk g fat prefix n rest done
    | descend first path rest done ↦ walk first path done >>= λ deep. elim deep.0 [
      | true ↦ entries walk g fat prefix n rest deep.1
      | false ↦ returned (false, deep.1)
    ]
  ]
]

walk : ℕ → Disk → ExGeom → List ℕ → ℕ → Text → FsScanResult → Run (Bool × FsScanResult)
walk zero dev g fat dir_clus prefix out = out_of_fuel
walk (suc depth) dev g fat dir_clus prefix out =
    read_dir (suc u32_mod) dev g fat dir_clus [] [] >>= λ r. elim r [
      | failed err ↦ returned (fail err out)
      | got dir ↦
          entries (λ first path. walk depth dev g fat first path) g fat prefix (length dir / 32) dir
            out
    ]

geometry : ℕ → List ℕ → ExGeom
geometry base boot = record {
  base = base;
  bps = 2 ^ byte boot 108 % u16_mod;
  spc_shift = byte boot 109;
  fat_offset = r32 boot 80;
  fat_length = r32 boot 84;
  cluster_heap = r32 boot 88;
  cluster_count = r32 boot 92;
  root_cluster = r32 boot 96;
}

scan_with : ℕ → Disk → ExGeom → FsScanResult → Run (Bool × FsScanResult)
scan_with depth dev g out =
    let at_fat = (g.base + g.fat_offset * g.bps) % u64_mod in
    let size = g.fat_length * g.bps in
    let boot =
      add_object
        record {
          path = text "::boot";
          size = 24 * g.bps;
          extents = extent g.base (24 * g.bps) ∷ [];
        }
        out in
    elim (dev at_fat size) [
      | failed err ↦ returned (fail err boot)
      | got fat ↦ walk depth dev g fat g.root_cluster [] (
          add_object record { path = text "::fat"; size = size; extents = extent at_fat size ∷ [] }
            boot)
    ]

-- `depth` is fuel for the nesting of directories.
pub scan_exfat : ℕ → Disk → ℕ → FsScanResult → Run (Bool × FsScanResult)
scan_exfat depth dev base out = elim (dev base 512) [
  | failed err ↦ returned (fail err out)
  | got boot ↦ elim (text_eq (take 8 (drop 3 boot)) (text "EXFAT   ")) [
    | false ↦ returned (fail (text "not exFAT") out)
    | true ↦ scan_with depth dev (geometry base boot) out
  ]
]

-- ===== src/Fs/Fat.antt =====
-- The FAT scanner (src/fs/fat.cpp): the file allocation table, the chain of clusters of a file, the
-- directory walk and `scan_fat`. Integer arithmetic wraps at the width the source computes in.
pub mod Chain
use reflash.Base.{
  ℕ, zero, suc, ◌+◌, ◌-◌, ◌*◌, ◌/◌, ◌%◌, ◌^◌, min, Bool, true, false, not, ◌&&◌, ◌||◌, List, [],
  ◌∷◌, ◌++◌, ltb, leb, ◌==◌, if◌then◌else◌, text_eq, length, take, drop, Text, text, byte, r16, r32,
  u32_mod, u64_mod,
}
use reflash.BlockIo.{Read, got, failed}
use reflash.Fs.{
  FsType, FsFileExtent, extent, FsObject, FsScanResult, Disk, Run, returned, trapped, out_of_fuel,
  ◌>>=◌, push, add_object, fail, bit, seen_in, read_extents,
}

pub record FatGeom : Type 0 where
  pub type : FsType
  pub bps : ℕ
  pub spc : ℕ
  pub reserved : ℕ
  pub fats : ℕ
  pub fatsz : ℕ
  pub root_ents : ℕ
  pub root_clus : ℕ
  pub totsec : ℕ
  pub data_start : ℕ
  pub fat_start : ℕ
  pub root_secs : ℕ
  pub clusters : ℕ
  pub base : ℕ

fat_get32 : List ℕ → ℕ → ℕ
fat_get32 fat off =
    if ltb (length fat) ((off + 4) % u32_mod) then 0x0FFFFFFF else r32 fat off % 2 ^ 28

fat_get16 : List ℕ → ℕ → ℕ
fat_get16 fat off = if ltb (length fat) ((off + 2) % u32_mod) then 0xFFFF else r16 fat off

fat_get12 : List ℕ → ℕ → ℕ → ℕ
fat_get12 fat cluster off =
    if leb (length fat) ((off + 1) % u32_mod)
    then 0xFFF
    else if bit cluster 0
    then r16 fat off / 2 ^ 4
    else r16 fat off % 2 ^ 12

pub fat_get : List ℕ → FsType → ℕ → ℕ
unfolding fat_get32 fat_get16 fat_get12
fat_get fat FsType.fat32 cluster = fat_get32 fat (cluster * 4 % u32_mod)
fat_get fat FsType.fat16 cluster = fat_get16 fat (cluster * 2 % u32_mod)
fat_get fat _ cluster = fat_get12 fat cluster ((cluster + cluster / 2) % u32_mod)

pub is_eoc : FsType → ℕ → Bool
is_eoc FsType.fat32 v = leb 0x0FFFFFF8 v
is_eoc FsType.fat16 v = leb 0xFFF8 v
is_eoc _ v = leb 0xFF8 v

pub cluster_offset : FatGeom → ℕ → ℕ
cluster_offset g cluster =
    (g.base + (g.data_start + (cluster + u32_mod - 2) % u32_mod * g.spc) * g.bps) % u64_mod

-- The locals of the loop of `chain_extents`.
pub record Walk : Type 0 where
  pub cluster : ℕ
  pub left : ℕ
  pub seen : List ℕ
  pub exts : List FsFileExtent

pub data WalkEnd : Type 0 where
  ends : List FsFileExtent → WalkEnd
  goes_on : Walk → WalkEnd

-- The condition of the loop.
pub in_chain : FatGeom → Walk → Bool
in_chain g s =
    leb 2 s.cluster
    && (ltb s.cluster ((g.clusters + 2) % u32_mod)
        && (not (is_eoc g.type s.cluster) && ltb 0 s.left))

pub take_bytes : FatGeom → Bool → ℕ → ℕ
take_bytes g whole_chain left = if whole_chain then g.spc * g.bps else min left (g.spc * g.bps)

-- The body of the loop for a cluster not seen before.
pub follow : FatGeom → List ℕ → Bool → Walk → WalkEnd
follow g fat whole_chain s =
    let bytes = take_bytes g whole_chain s.left in
    let exts = push s.exts (extent (cluster_offset g s.cluster) bytes) in
    let next = fat_get fat g.type s.cluster in
    if is_eoc g.type next
    then ends exts
    else goes_on record {
      cluster = next;
      left = if whole_chain then s.left else s.left - bytes;
      seen = s.cluster ∷ s.seen;
      exts = exts;
    }

pub chain_round : FatGeom → List ℕ → Bool → Walk → WalkEnd
chain_round g fat whole_chain s =
    if in_chain g s
    then (if seen_in s.seen s.cluster then ends s.exts else follow g fat whole_chain s)
    else ends s.exts

pub chain_loop : ℕ → FatGeom → List ℕ → Bool → Walk → Run (List FsFileExtent)
chain_loop zero g fat whole_chain s = out_of_fuel
chain_loop (suc f) g fat whole_chain s = elim (chain_round g fat whole_chain s) [
  | ends exts ↦ returned exts
  | goes_on next ↦ chain_loop f g fat whole_chain next
]

pub first_left : ℕ → Bool → ℕ
first_left file_size whole_chain =
    if whole_chain || (file_size == 0) then u64_mod - 1 else file_size

pub chain_extents : FatGeom → List ℕ → ℕ → ℕ → Bool → Run (List FsFileExtent)
chain_extents g fat start file_size whole_chain =
    chain_loop (suc u32_mod) g fat whole_chain
      record { cluster = start; left = first_left file_size whole_chain; seen = []; exts = [] }

-- What is left of a field of a fixed width without the blanks at its end, up to the first zero.
trim : List ℕ → List ℕ
trim [] = []
trim (c ∷ cs) = let rest = trim cs in if (c == 32) && (length rest == 0) then [] else c ∷ rest

c_string : List ℕ → Text
c_string [] = []
c_string (c ∷ cs) = let rest = c_string cs in if c == 0 then [] else c ∷ rest

with_ext : Text → Text → Text
with_ext name [] = name
with_ext name (c ∷ cs) = name ++ b'.' ∷ c ∷ cs

short_name : List ℕ → Text
short_name dir = with_ext (c_string (trim (take 8 dir))) (c_string (trim (take 3 (drop 8 dir))))

-- The characters of a long-name entry at the offsets of the list.
lfn_part : List ℕ → List ℕ → Text
lfn_part e [] = []
lfn_part e (off ∷ offs) =
    let rest = lfn_part e offs in
    let ch = r16 e off in if not (ch == 0) && ltb ch 0x80 then ch ∷ rest else rest

abbrev lfn_offsets : List ℕ
lfn_offsets = 1 ∷ 3 ∷ 5 ∷ 7 ∷ 9 ∷ 14 ∷ 16 ∷ 18 ∷ 20 ∷ 22 ∷ 24 ∷ 28 ∷ []

-- What the loop over the entries does next.
pub data EntryEnd : Type 0 where
  last : EntryEnd
  next : Text → FsScanResult → EntryEnd
  descend : ℕ → Text → FsScanResult → EntryEnd

first_cluster : FatGeom → List ℕ → ℕ
first_cluster g e = elim g.type [ FsType.fat32 ↦ r16 e 26 + r16 e 20 * 2 ^ 16 | _ ↦ r16 e 26 ]

entry_extents : FatGeom → List ℕ → ℕ → ℕ → Bool → Run (List FsFileExtent)
entry_extents g fat clus fsize is_dir = elim (leb 2 clus) [
  | true ↦ chain_extents g fat clus (if is_dir then 0 else fsize) is_dir
  | false ↦ returned []
]

-- The part of the body for an entry that names a file or a directory.
object_of : FatGeom → List ℕ → Text → List ℕ → FsScanResult → Run EntryEnd
object_of g fat path e out =
    let clus = first_cluster g e in
    let fsize = r32 e 28 in
    let is_dir = bit (byte e 11) 4 in
    entry_extents g fat clus fsize is_dir >>= λ exts.
    let done =
      add_object record { path = path; size = if is_dir then 0 else fsize; extents = exts } out in
    returned (if is_dir && leb 2 clus then descend clus path done else next [] done)

entry_name : Text → List ℕ → Text
entry_name [] e = short_name e
entry_name (c ∷ cs) e = c ∷ cs

pub entry : FatGeom → List ℕ → Text → List ℕ → Text → FsScanResult → Run EntryEnd
entry g fat prefix e lfn out =
    let name = entry_name lfn e in
    if byte e 0 == 0
    then returned last
    else if byte e 0 == 0xE5
    then returned (next lfn out)
    else if byte e 11 == 0x0F
    then returned (next (lfn_part e lfn_offsets ++ lfn) out)
    else if bit (byte e 11) 3
    then returned (next [] out)
    else if text_eq name (text ".") || text_eq name (text "..")
    then returned (next [] out)
    else object_of g fat (prefix ++ text "/" ++ name) e out

-- The loop over the entries, `walk` being the recursive call.
pub entries :
    (ℕ → Text → FsScanResult → Run (Bool × FsScanResult))
    → FatGeom
    → List ℕ
    → Text
    → ℕ
    → List ℕ
    → Text
    → FsScanResult
    → Run (Bool × FsScanResult)
entries walk g fat prefix zero dirbuf lfn out = returned (true, out)
entries walk g fat prefix (suc n) dirbuf lfn out =
    elim (entry g fat prefix (take 32 dirbuf) lfn out) [
      | trapped ↦ trapped
      | out_of_fuel ↦ out_of_fuel
      | returned last ↦ returned (true, out)
      | returned (next lfn2 done) ↦ entries walk g fat prefix n (drop 32 dirbuf) lfn2 done
      | returned (descend clus path done) ↦ walk clus path done >>= λ r. elim r.0 [
        | true ↦ entries walk g fat prefix n (drop 32 dirbuf) [] r.1
        | false ↦ returned (false, r.1)
      ]
    ]

unfoldable pub is_fat32 : FsType → Bool
is_fat32 FsType.fat32 = true
is_fat32 _ = false

-- The bytes of the directory: the fixed root of FAT12 and FAT16, or the clusters of the chain.
pub read_dir : Disk → FatGeom → List ℕ → ℕ → Bool → Run Read
read_dir dev g fat start_clus is_root_fat16 = elim (is_root_fat16 && not (is_fat32 g.type)) [
  | true ↦ returned (
      dev ((g.base + (g.reserved + g.fats * g.fatsz) % u32_mod * g.bps) % u64_mod)
        (g.root_secs * g.bps))
  | false ↦ chain_extents g fat start_clus 0 true >>= λ exts. returned (read_extents dev exts)
]

pub walk_dir :
    ℕ → Disk → FatGeom → List ℕ → ℕ → Bool → Text → FsScanResult → Run (Bool × FsScanResult)
walk_dir zero dev g fat start_clus is_root_fat16 prefix out = out_of_fuel
walk_dir (suc depth) dev g fat start_clus is_root_fat16 prefix out =
    read_dir dev g fat start_clus is_root_fat16 >>= λ r. elim r [
      | failed err ↦ returned (fail err out)
      | got dirbuf ↦
          entries (λ clus path. walk_dir depth dev g fat clus false path) g fat prefix
            (length dirbuf / 32) dirbuf [] out
    ]

-- A product of two 16-bit numbers is computed in `int` and then widened to 64 bits.
int_to_u64 : ℕ → ℕ
int_to_u64 n = let w = n % u32_mod in if ltb w (2 ^ 31) then w else u64_mod - u32_mod + w

abbrev pub or_else : ℕ → ℕ → ℕ
or_else a b = if a == 0 then b else a

-- The geometry that `scan_fat` derives from the boot sector; it divides by the sector size.
unfoldable pub geometry : FsType → ℕ → List ℕ → FatGeom
geometry type base bpb =
    let bps = r16 bpb 11 in
    let spc = byte bpb 13 in
    let reserved = r16 bpb 14 in
    let fats = byte bpb 16 in
    let root_ents = r16 bpb 17 in
    let fatsz = or_else (r16 bpb 22) (r32 bpb 36) in
    let totsec = or_else (r16 bpb 19) (r32 bpb 32) in
    let root_secs = (root_ents * 32 + (bps - 1)) / bps in
    let data_start =
      (reserved + fats * fatsz + (if is_fat32 type then 0 else root_secs)) % u32_mod in
    record {
      type = type;
      bps = bps;
      spc = spc;
      reserved = reserved;
      fats = fats;
      fatsz = fatsz;
      root_ents = root_ents;
      root_clus = if is_fat32 type then r32 bpb 44 else 0;
      totsec = totsec;
      data_start = data_start;
      fat_start = reserved;
      root_secs = root_secs;
      clusters = if spc == 0 then 0 else (totsec - data_start) / spc;
      base = base;
    }

-- The objects "::boot" and "::fat".
pub metadata : FatGeom → FsScanResult → FsScanResult
metadata g out =
    let boot = int_to_u64 (g.reserved * g.bps) in
    let fat = g.fats * g.fatsz * g.bps in
    add_object
      record {
        path = text "::fat";
        size = fat;
        extents = extent ((g.base + g.fat_start * g.bps) % u64_mod) fat ∷ [];
      }
      (add_object record { path = text "::boot"; size = boot; extents = extent g.base boot ∷ [] }
        out)

pub invalid : FatGeom → Bool
invalid g = (g.bps == 0) || ((g.spc == 0) || ((g.fats == 0) || (g.fatsz == 0)))

pub scan_with : ℕ → Disk → FatGeom → FsScanResult → Run (Bool × FsScanResult)
scan_with depth dev g out =
    elim (dev ((g.base + g.fat_start * g.bps) % u64_mod) (g.fatsz * g.bps)) [
      | failed err ↦ returned (fail err out)
      | got fat ↦
          if is_fat32 g.type
          then walk_dir depth dev g fat g.root_clus false [] out
          else walk_dir depth dev g fat 0 true [] out
    ]

-- `depth` is fuel for the nesting of directories, which the source does not bound.
pub scan_fat : ℕ → Disk → ℕ → FsType → FsScanResult → Run (Bool × FsScanResult)
scan_fat depth dev base type out = elim (dev base 512) [
  | failed err ↦ returned (fail err out)
  | got bpb ↦
      let g = geometry type base bpb in
      elim (r16 bpb 11 == 0) [
        | true ↦ trapped
        | false ↦ elim (invalid g) [
          | true ↦ returned (fail (text "invalid FAT BPB") out)
          | false ↦ scan_with depth dev g (metadata g out)
        ]
      ]
]

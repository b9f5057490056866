-- ===== src/Fs/Ext/Scan.antt =====
-- The directory walk of the ext2/3/4 scanner and `scan_ext` (src/fs/ext.cpp).
use reflash.Base.{
  ℕ, zero, suc, ◌+◌, ◌-◌, ◌*◌, ◌/◌, ◌%◌, ◌^◌, max, Bool, true, false, not, ◌&&◌, ◌||◌, List, [],
  ◌∷◌, ◌++◌, ltb, ◌==◌, if◌then◌else◌, text_eq, length, take, drop, Text, text, to_string, byte,
  r16, r32, u32_mod, u64_mod,
}
use reflash.BlockIo.{got, failed}
use reflash.Fs.{
  FsType, FsFileExtent, extent, FsObject, FsScanResult, Disk, Run, returned, trapped, out_of_fuel,
  ◌>>=◌, add_object, fail, bit, seen_in, read_extents,
}
use reflash.Fs.Ext.{
  ExtGeom, blk_off, bg_inode_table, read_inode, Parsed, parsed, not_parsed, inode_length,
  inode_data_extents,
}

-- What the walk carries: the result, and the inodes that it has seen.
pub record Walk : Type 0 where
  pub out : FsScanResult
  pub seen : List ℕ

file_type : List ℕ → ℕ
file_type inode = r16 inode 0 / 2 ^ 12

object_at : Text → ℕ → List FsFileExtent → FsObject
object_at path size exts = record { path = path; size = size; extents = exts }

or_root : Text → Text
or_root [] = text "/"
or_root (c ∷ cs) = c ∷ cs

-- The entry that starts a directory block or what is left of it.
pub data DirEnd : Type 0 where
  last : DirEnd
  pass : ℕ → DirEnd
  descend : ℕ → ℕ → Text → DirEnd

dir_entry : List ℕ → DirEnd
dir_entry p =
    let child = r32 p 0 in
    let rec_len = r16 p 4 in
    let name_len = byte p 6 in
    let name = take name_len (drop 8 p) in
    if ltb (length p) 8
    then last
    else if ltb rec_len 8 || ltb (length p) rec_len
    then last
    else if (child == 0) || (name_len == 0)
    then pass rec_len
    else if text_eq name (text ".") || text_eq name (text "..")
    then pass rec_len
    else descend rec_len child name

-- The loop over the entries, `walk` being the recursive call. An entry has eight bytes at least, so
-- a round for each byte and one more is enough.
dir_entries : (ℕ → Text → Walk → Run (Bool × Walk)) → ℕ → Text → List ℕ → Walk → Run (Bool × Walk)
dir_entries walk zero prefix p s = out_of_fuel
dir_entries walk (suc f) prefix p s = elim (dir_entry p) [
  | last ↦ returned (true, s)
  | pass rec_len ↦ dir_entries walk f prefix (drop rec_len p) s
  | descend rec_len child name ↦ walk child (prefix ++ text "/" ++ name) s >>= λ r. elim r.0 [
    | false ↦ returned (false, r.1)
    | true ↦ dir_entries walk f prefix (drop rec_len p) r.1
  ]
]

add_walked : FsObject → Walk → Walk
add_walked o s = record s { out = add_object o s.out }

fail_walk : Text → Walk → Run (Bool × Walk)
fail_walk err s = returned (false, record s { out = (fail err s.out).1 })

-- A directory is an object of its own, before what it holds.
walk_entries :
    (ℕ → Text → Walk → Run (Bool × Walk))
    → Disk
    → Text
    → List FsFileExtent
    → Walk
    → Run (Bool × Walk)
walk_entries walk dev prefix exts s = elim (read_extents dev exts) [
  | failed err ↦ fail_walk err s
  | got bytes ↦ dir_entries walk (suc (length bytes)) prefix bytes s
]

walk_inode :
    (ℕ → Text → Walk → Run (Bool × Walk))
    → Disk
    → ExtGeom
    → List ℕ
    → Text
    → Walk
    → Parsed
    → Run (Bool × Walk)
walk_inode walk dev g inode prefix s (not_parsed []) = fail_walk (text "inode extents failed") s
walk_inode walk dev g inode prefix s (not_parsed (c ∷ cs)) = fail_walk (c ∷ cs) s
walk_inode walk dev g inode prefix s (parsed exts) =
    let size = inode_length g inode in
    elim (file_type inode == 8) [
      | true ↦ returned (true, add_walked (object_at prefix size exts) s)
      | false ↦ elim (file_type inode == 4) [
        | false ↦ returned (true, s)
        | true ↦
            walk_entries walk dev prefix exts (add_walked (object_at (or_root prefix) size exts) s)
      ]
    ]

-- `depth` is fuel, for the nesting of directories and for the depth of an extent tree.
pub walk_dir : ℕ → Disk → ExtGeom → ℕ → Text → Walk → Run (Bool × Walk)
walk_dir zero dev g ino prefix s = out_of_fuel
walk_dir (suc depth) dev g ino prefix s = elim (seen_in s.seen ino) [
  | true ↦ returned (true, s)
  | false ↦
      let entered : Walk = record s { seen = ino ∷ s.seen } in
      read_inode dev g ino >>= λ r. elim r [
        | failed err ↦ fail_walk err entered
        | got inode ↦
            inode_data_extents depth dev g inode
            >>= walk_inode (walk_dir depth dev g) dev g inode prefix entered
      ]
]

-- The geometry, but for the group descriptors. The shift by the logarithm and the division by the
-- blocks of a group are made before anything is checked.
pub geometry : ℕ → List ℕ → ExtGeom
geometry base sb =
    let first = r32 sb 20 in
    let per_group = r32 sb 32 in
    let is_64bit = bit (r32 sb 96) 7 in
    record {
      base = base;
      block_size = 1024 * 2 ^ r32 sb 24 % u32_mod;
      inodes_per_group = r32 sb 40;
      blocks_per_group = per_group;
      inode_size = max 128 (r16 sb 88);
      first_data_block = first;
      groups = (r32 sb 4 + u32_mod - first + per_group + u32_mod - 1) % u32_mod / per_group;
      inodes_count = r32 sb 0;
      extents = bit (r32 sb 96) 6;
      gd = [];
      gd_entry_size = if is_64bit then max 32 (r16 sb 254) else 32;
    }

gd_block : ExtGeom → ℕ
gd_block g = (g.first_data_block + 1) % u32_mod

gd_bytes : ExtGeom → ℕ
gd_bytes g = g.groups * g.gd_entry_size

-- The objects of the inode tables, from group `grp` on.
inode_tables : ℕ → ExtGeom → ℕ → FsScanResult → FsScanResult
inode_tables zero g grp out = out
inode_tables (suc n) g grp out =
    let size = g.inodes_per_group * g.inode_size in
    inode_tables n g (grp + 1) (
      add_object
        (object_at (text "::inode_table-" ++ to_string grp) size
          (extent (blk_off g (bg_inode_table g grp)) size ∷ []))
        out)

pub metadata : ExtGeom → FsScanResult → FsScanResult
metadata g out = inode_tables g.groups g 0 (
    add_object
      (object_at (text "::group_descriptors") (gd_bytes g)
        (extent (blk_off g (gd_block g)) (gd_bytes g) ∷ []))
      (add_object
        (object_at (text "::superblock") 1024 (extent ((g.base + 1024) % u64_mod) 1024 ∷ [])) out))

scan_groups : ℕ → Disk → ExtGeom → FsScanResult → Run (Bool × FsScanResult)
scan_groups depth dev g out = elim (dev (blk_off g (gd_block g)) (gd_bytes g)) [
  | failed err ↦ returned (fail err out)
  | got gd ↦
      let full : ExtGeom = record g { gd = gd } in
      walk_dir depth dev full 2 [] record { out = metadata full out; seen = [] } >>= λ r.
      returned (r.0, r.1.out)
]

-- The type is not looked at.
pub scan_ext : ℕ → Disk → ℕ → FsType → FsScanResult → Run (Bool × FsScanResult)
scan_ext depth dev base type out = elim (dev ((base + 1024) % u64_mod) 1024) [
  | failed err ↦ returned (fail err out)
  | got sb ↦ elim (r16 sb 56 == 0xEF53) [
    | false ↦ returned (fail (text "bad ext magic") out)
    | true ↦ elim (ltb (r32 sb 24) 32 && not (r32 sb 32 == 0)) [
      | false ↦ trapped
      | true ↦ scan_groups depth dev (geometry base sb) out
    ]
  ]
]

-- ===== src/Fs/Ext.antt =====
-- The ext2/3/4 scanner (src/fs/ext.cpp): inodes, and the blocks of a file by the extent tree or by
-- indirect blocks. A pointer into a buffer is the rest of the buffer from there on.
pub mod Extents
pub mod Scan
mod Tests
use reflash.Base.{
  ℕ, zero, suc, ◌+◌, ◌-◌, ◌*◌, ◌/◌, ◌%◌, ◌^◌, min, Bool, true, false, ◌&&◌, ◌||◌, List, [], ◌∷◌,
  ltb, leb, ◌==◌, if◌then◌else◌, drop, Text, byte, r16, r32, u32_mod, u64_mod,
}
use reflash.BlockIo.{Read, got, failed}
use reflash.Fs.{
  FsFileExtent, extent, Disk, Run, returned, trapped, out_of_fuel, ◌>>=◌, push, push_all,
  sum_lengths, bit,
}

pub record ExtGeom : Type 0 where
  pub base : ℕ
  pub block_size : ℕ
  pub inodes_per_group : ℕ
  pub blocks_per_group : ℕ
  pub inode_size : ℕ
  pub first_data_block : ℕ
  pub groups : ℕ
  pub inodes_count : ℕ
  pub extents : Bool
  pub gd : List ℕ
  pub gd_entry_size : ℕ

pub blk_off : ExtGeom → ℕ → ℕ
blk_off g block = (g.base + block * g.block_size) % u64_mod

pub read_block : Disk → ExtGeom → ℕ → Read
read_block dev g block = dev (blk_off g block) g.block_size

inode_block_group : ExtGeom → ℕ → ℕ
inode_block_group g ino = (ino - 1) / g.inodes_per_group

pub bg_inode_table : ExtGeom → ℕ → ℕ
bg_inode_table g group = r32 g.gd (group * g.gd_entry_size % u32_mod + 8)

inode_off : ExtGeom → ℕ → ℕ
inode_off g ino =
    (blk_off g (bg_inode_table g (inode_block_group g ino))
      + (ino - 1) % g.inodes_per_group * g.inode_size)
    % u64_mod

-- An inode number out of range fails without a text.
pub read_inode : Disk → ExtGeom → ℕ → Run Read
read_inode dev g ino = elim ((ino == 0) || ltb g.inodes_count ino) [
  | true ↦ returned (failed [])
  | false ↦ elim (g.inodes_per_group == 0) [
    | true ↦ trapped
    | false ↦ returned (dev (inode_off g ino) g.inode_size)
  ]
]

pub append_block_extents : List FsFileExtent → ExtGeom → ℕ → ℕ → List FsFileExtent
append_block_extents exts g block bytes =
    if (block == 0) || (bytes == 0) then exts else push exts (extent (blk_off g block) bytes)

-- The extents of a file, or the error text, empty where the code sets none.
pub data Parsed : Type 0 where
  parsed : List FsFileExtent → Parsed
  not_parsed : Text → Parsed

-- The blocks of one extent: what is left of the size, and the extents.
pub leaf_blocks : ℕ → ExtGeom → ℕ → ℕ → List FsFileExtent → ℕ × List FsFileExtent
leaf_blocks zero g block left exts = (left, exts)
leaf_blocks (suc n) g block zero exts = (zero, exts)
leaf_blocks (suc n) g block (suc l) exts =
    let take = min (suc l) g.block_size in
    leaf_blocks n g (block + 1) (suc l - take) (append_block_extents exts g block take)

-- One entry of a leaf; the blocks of an extent that is not initialised are passed over.
pub leaf_entry : ExtGeom → List ℕ → ℕ → List FsFileExtent → ℕ × List FsFileExtent
leaf_entry g p left exts =
    let len = r16 p 4 % 0x8000 in
    let start = r32 p 8 + r16 p 6 * 2 ^ 32 in
    if bit (r16 p 4) 15
    then (left - min (len * g.block_size) left, exts)
    else leaf_blocks len g start left exts

pub leaf_entries : ℕ → ExtGeom → List ℕ → ℕ → List FsFileExtent → List FsFileExtent
leaf_entries zero g p left exts = exts
leaf_entries (suc n) g p zero exts = exts
leaf_entries (suc n) g p (suc l) exts =
    let r = leaf_entry g p (suc l) exts in leaf_entries n g (drop 12 p) r.0 r.1

-- After the recursive call: the parts are merged, and what is left of the size is computed afresh.
pub index_next : (ℕ → List FsFileExtent → Run Parsed) → ℕ → List FsFileExtent → Parsed → Run Parsed
index_next rest size exts (not_parsed err) = returned (not_parsed err)
index_next rest size exts (parsed part) =
    let merged = push_all exts part in rest (size - sum_lengths merged 0) merged

-- The entries of an index node; `go` is the recursive call.
pub index_entries :
    (List ℕ → ℕ → Run Parsed) → Disk → ExtGeom → ℕ → ℕ → List ℕ → ℕ → List FsFileExtent → Run Parsed
index_entries go dev g size zero p left exts = returned (parsed exts)
index_entries go dev g size (suc n) p zero exts = returned (parsed exts)
index_entries go dev g size (suc n) p (suc l) exts =
    elim (read_block dev g (r32 p 4 + r16 p 8 * 2 ^ 32)) [
      | failed err ↦ returned (not_parsed err)
      | got blk ↦
          go blk ((size + u64_mod - sum_lengths exts 0) % u64_mod)
          >>= index_next (index_entries go dev g size n (drop 12 p)) size exts
    ]

-- With fuel for the depth of the tree, which the code does not bound.
pub parse_extents_full : ℕ → Disk → ExtGeom → List ℕ → ℕ → Run Parsed
parse_extents_full zero dev g eh size = out_of_fuel
parse_extents_full (suc f) dev g eh size = elim (r16 eh 0 == 0xF30A) [
  | false ↦ returned (not_parsed [])
  | true ↦ elim (r16 eh 6 == 0) [
    | true ↦ returned (parsed (leaf_entries (r16 eh 2) g (drop 12 eh) size []))
    | false ↦ index_entries (parse_extents_full f dev g) dev g size (r16 eh 2) (drop 12 eh) size []
  ]
]

-- The state of `collect_indirect`: what is left of the size, and the extents.
pub data Collected : Type 0 where
  collected : ℕ → List FsFileExtent → Collected
  not_collected : Text → Collected

-- Block numbers at a pointer; `go` collects what hangs on one.
block_numbers :
    (ℕ → ℕ → List FsFileExtent → Collected) → ℕ → List ℕ → ℕ → List FsFileExtent → Collected
block_numbers go zero p left exts = collected left exts
block_numbers go (suc n) p zero exts = collected zero exts
block_numbers go (suc n) p (suc l) exts = elim (go (r32 p 0) (suc l) exts) [
  | not_collected err ↦ not_collected err
  | collected left more ↦ block_numbers go n (drop 4 p) left more
]

collect_indirect : Disk → ExtGeom → ℕ → ℕ → ℕ → List FsFileExtent → Collected
collect_indirect dev g zero block left exts =
    let take = min left g.block_size in
    if (block == 0) || (left == 0)
    then collected left exts
    else collected (left - take) (append_block_extents exts g block take)
collect_indirect dev g (suc level) block left exts = elim ((block == 0) || (left == 0)) [
  | true ↦ collected left exts
  | false ↦ elim (read_block dev g block) [
    | failed err ↦ not_collected err
    | got blk ↦
        block_numbers (collect_indirect dev g level) (g.block_size / 4) blk left
          (append_block_extents exts g block g.block_size)
  ]
]

-- The three slots after the direct blocks.
deeper : Disk → ExtGeom → List ℕ → ℕ → Collected → Collected
deeper dev g inode level (not_collected err) = not_collected err
deeper dev g inode level (collected zero exts) = collected zero exts
deeper dev g inode level (collected (suc l) exts) =
    collect_indirect dev g level (r32 inode (40 + (11 + level) * 4)) (suc l) exts

parsed_of : Collected → Parsed
parsed_of (collected left exts) = parsed exts
parsed_of (not_collected err) = not_parsed err

pub inode_length : ExtGeom → List ℕ → ℕ
inode_length g inode =
    if leb 132 g.inode_size then r32 inode 4 + r32 inode 108 * 2 ^ 32 else r32 inode 4

-- A directory without a size is read as far as its direct blocks go.
mapped_size : ExtGeom → List ℕ → ℕ
mapped_size g inode =
    let size = inode_length g inode in
    if (r16 inode 0 / 2 ^ 12 == 4) && (size == 0) then g.block_size * 12 else size

mapped_extents : Disk → ExtGeom → List ℕ → Collected
mapped_extents dev g inode = deeper dev g inode 3 (
    deeper dev g inode 2 (
      deeper dev g inode 1
        (block_numbers (collect_indirect dev g 0) 12 (drop 40 inode) (mapped_size g inode) [])))

pub inode_data_extents : ℕ → Disk → ExtGeom → List ℕ → Run Parsed
inode_data_extents depth dev g inode = elim (bit (r32 inode 32) 19 || g.extents) [
  | true ↦ parse_extents_full depth dev g (drop 40 inode) (inode_length g inode)
  | false ↦ returned (parsed_of (mapped_extents dev g inode))
]

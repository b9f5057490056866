-- ===== src/Fs/Ext/Tests.antt =====
-- The extent tree of a file (src/fs/ext.cpp), concrete.
use reflash.Base.{ℕ, ◌≡◌, inr, ap, sym, true, List, [], ◌∷◌, arith, r16}
use reflash.BlockIo.{got}
use reflash.Fs.{Disk}
use reflash.Fs.Ext.{ExtGeom, read_block, parse_extents_full}
use reflash.Fs.Ext.Extents.{Deep, Listed, AtMost, parse_extents_full-AtMost}

abbrev volume : ExtGeom
volume = record {
  base = 0;
  block_size = 1024;
  inodes_per_group = 8;
  blocks_per_group = 8192;
  inode_size = 128;
  first_data_block = 1;
  groups = 1;
  inodes_count = 8;
  extents = true;
  gd = [];
  gd_entry_size = 32;
}

-- One entry, which points to block 9.
abbrev index_node : List ℕ
index_node =
    0x0A ∷ 0xF3 ∷ 1 ∷ 0 ∷ 4 ∷ 0 ∷ 1 ∷ 0 ∷ 0 ∷ 0 ∷ 0 ∷ 0 ∷ 0 ∷ 0 ∷ 0 ∷ 0 ∷ 9 ∷ 0 ∷ 0 ∷ 0 ∷ 0 ∷ 0 ∷ []

-- One extent of three blocks from 20 on.
abbrev leaf_node : List ℕ
leaf_node =
    0x0A ∷ 0xF3 ∷ 1 ∷ 0 ∷ 4 ∷ 0 ∷ 0 ∷ 0 ∷ 0 ∷ 0 ∷ 0 ∷ 0 ∷ 0 ∷ 0 ∷ 0 ∷ 0 ∷ 3 ∷ 0 ∷ 0 ∷ 0 ∷ 20 ∷ []

-- Every block that is read is the leaf.
abbrev leaves : Disk
leaves offset len = got leaf_node

got_leaf : (blk : List ℕ) → got leaf_node ≡ got blk → leaf_node ≡ blk
got_leaf blk e = cc

index_node-Deep : Deep leaves volume 1 index_node
unfolding Deep Listed read_block
index_node-Deep = inr ((λ blk e. ap (λ b. r16 b 6) (sym (got_leaf blk e))), tt)

parse_extents_full-AtMost_example : AtMost 2500 (parse_extents_full 2 leaves volume index_node 2500)
parse_extents_full-AtMost_example =
    parse_extents_full-AtMost leaves volume 1 index_node 2500 (omega arith) index_node-Deep

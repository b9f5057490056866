-- ===== src/Fs/Tests.antt =====
-- The scanners of src/fs on a small FAT16 volume.
use reflash.Base.{
  true, ℕ, ◌+◌, ◌≤◌, ◌<◌, ◌≡◌, ◌↔◌, ◌⊎◌, refl, arith, false, List, [], ◌∷◌, ◌++◌, replicate, All,
}
use reflash.Fs.{fat16, FsFileExtent, extent, returned, push}
use reflash.Fs.Extents.{Within, Covers, Has, total, push-Covers, total-push}
use reflash.Fs.Fat.{FatGeom, chain_extents, geometry, is_fat32}
use reflash.Fs.Fat.Chain.{
  Geometry, data_low, data_high, chain_extents-returned, chain_extents-Within,
}
use reflash.Fs.Detect.{detect_by_clusters}
use reflash.Fs.Exfat.{ExGeom, chain}
use reflash.Fs.Exfat.Chain.{chain-returned}
use reflash.Fs.Detect.Kinds.{fat_kind, sectors, detect_by_clusters-geometry}

abbrev two_extents : List FsFileExtent
two_extents = extent 0 512 ∷ extent 1024 512 ∷ []

push-Covers_example :
    Covers (push two_extents (extent 1536 512)) 1600
    ↔ (Covers two_extents 1600 ⊎ Has (extent 1536 512) 1600)
push-Covers_example = push-Covers two_extents (extent 1536 512) 1600 (omega arith) (omega arith)

total-push_example : total (push two_extents (extent 1536 512)) ≡ total two_extents + 512
total-push_example = total-push two_extents (extent 1536 512) (omega arith) (omega arith)

abbrev volume : FatGeom
volume = record {
  type = fat16;
  bps = 512;
  spc = 2;
  reserved = 1;
  fats = 1;
  fatsz = 1;
  root_ents = 16;
  root_clus = 0;
  totsec = 11;
  data_start = 3;
  fat_start = 1;
  root_secs = 1;
  clusters = 4;
  base = 0;
}

-- Cluster 2 is followed by 3, and 3 by 2 again.
abbrev table : List ℕ
table = 0 ∷ 0 ∷ 0 ∷ 0 ∷ 3 ∷ 0 ∷ 2 ∷ 0 ∷ 0 ∷ 0 ∷ 0 ∷ 0 ∷ []

abbrev exts : List FsFileExtent
exts = (chain_extents-returned volume table 2 1500 false).0

chain_extents-returned_example :
    (found : List FsFileExtent) × (chain_extents volume table 2 1500 false ≡ returned found)
chain_extents-returned_example = chain_extents-returned volume table 2 1500 false

volume-Geometry : Geometry volume
unfolding Geometry data_high
volume-Geometry = (omega arith, omega arith)

chain_extents-Within_example :
    All (Within (data_low volume) (data_high volume)) exts
    × (false ≡ false → 0 < 1500 → total exts ≤ 1500)
chain_extents-Within_example =
    chain_extents-Within volume table 2 1500 false exts volume-Geometry
      (chain_extents-returned volume table 2 1500 false).1

-- A boot sector with 512 bytes per sector, 1 sector per cluster, 1 reserved sector, 1 table of one
-- sector, 16 root entries and 11 sectors.
abbrev boot : List ℕ
boot =
    replicate 11 0
    ++ (0 ∷ 2 ∷ 1 ∷ 1 ∷ 0 ∷ 1 ∷ 16 ∷ 0 ∷ 11 ∷ 0 ∷ 0xF8 ∷ 1 ∷ 0 ∷ [])
    ++ replicate 488 0

detect_by_clusters-geometry_example :
    detect_by_clusters boot ≡ fat_kind (geometry fat16 0 boot).clusters
unfolding geometry is_fat32 sectors
detect_by_clusters-geometry_example =
    detect_by_clusters-geometry fat16 0 boot refl refl refl refl (omega arith) (omega arith)

abbrev exvolume : ExGeom
exvolume = record {
  base = 0;
  bps = 512;
  spc_shift = 1;
  fat_offset = 24;
  fat_length = 1;
  cluster_heap = 32;
  cluster_count = 8;
  root_cluster = 2;
}

chain-returned_example :
    (found : List FsFileExtent) × (chain exvolume table 3 2000 true false ≡ returned found)
chain-returned_example = chain-returned exvolume table 3 2000 true false

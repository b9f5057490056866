-- ===== src/Partition/Tests.antt =====
-- `probe_partitions` (src/io/partition.cpp) on a disk with an MBR of one partition.
use reflash.Base.{ℕ, List, [], ◌∷◌, ◌++◌, replicate, drop, take}
use reflash.BlockIo.{got}
use reflash.Fs.{Disk}
use reflash.Partition.{probe_partitions}
use reflash.Partition.Listing.{Numbered, Fits, map_of, probe_partitions-Numbered}

-- The second slot is used, for 100 sectors from sector 63.
abbrev sector : List ℕ
sector =
    replicate 462 0
    ++ (0 ∷ 0 ∷ 0 ∷ 0 ∷ 12 ∷ 0 ∷ 0 ∷ 0 ∷ 63 ∷ 0 ∷ 0 ∷ 0 ∷ 100 ∷ 0 ∷ 0 ∷ 0 ∷ [])
    ++ replicate 32 0
    ++ 0x55 ∷ 0xAA ∷ []

abbrev disk : Disk
disk offset len = got (take len (drop offset (sector ++ replicate 512 0)))

probe_partitions-Numbered_example :
    Numbered
      (map_of (probe_partitions 512 disk)).sector_size
      1
      (map_of (probe_partitions 512 disk)).parts
    × Fits (map_of (probe_partitions 512 disk))
probe_partitions-Numbered_example = probe_partitions-Numbered 512 disk

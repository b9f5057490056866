-- ===== src/Partition/Listing.antt =====
-- The list of partitions that `probe_partitions` (src/io/partition.cpp) delivers.
use reflash.Base.{
  ℕ, zero, suc, ◌+◌, ◌*◌, ◌%◌, ◌≤◌, ◌≡◌, refl, inl, inr, List, [], ◌∷◌, ◌++◌, arith, length, text,
  to_string, Bool-cases, r32, u64_mod,
}
use reflash.BlockIo.{Read, got, failed}
use reflash.Fs.{Disk}
use reflash.Partition.{
  Partition, PartitionTableKind, PartitionMap, Probe, probed, failed_with, partition, gpt_parts,
  mbr_parts, gpt_map, gpt_of, no_map, probe_from, probe_tables, is_gpt, bytes_of, entry_size,
  probe_gpt, probe_mbr, probe_partitions,
}

-- The partitions are numbered from `k` without a gap, each is named after its number, and its byte
-- range is its sector range.
pub Numbered : ℕ → ℕ → List Partition → Type 0
Numbered sector k [] = Unit
Numbered sector k (p ∷ ps) =
    (p.index ≡ k)
    × (p.name ≡ text "::part-" ++ to_string k)
    × (p.start_bytes ≡ p.start_lba * sector % u64_mod)
    × (p.length_bytes ≡ p.length_lba * sector % u64_mod)
    × Numbered sector (k + 1) ps

gpt_parts-Numbered :
    (sector size : ℕ) (ents : List ℕ) (n i k : ℕ)
    → Numbered sector k (gpt_parts sector size ents n i k)
      × (length (gpt_parts sector size ents n i k) ≤ n)
unfolding Numbered gpt_parts partition
gpt_parts-Numbered sector size ents zero i k = (tt, omega arith)
gpt_parts-Numbered sector size ents (suc n) i k = ground (
  arith,
  gpt_parts-Numbered sector size ents n (i + 1) k,
  gpt_parts-Numbered sector size ents n (i + 1) (k + 1),
)

mbr_parts-Numbered :
    (sector : ℕ) (mbr : List ℕ) (n i k : ℕ)
    → Numbered sector k (mbr_parts sector mbr n i k) × (length (mbr_parts sector mbr n i k) ≤ n)
unfolding Numbered mbr_parts partition
mbr_parts-Numbered sector mbr zero i k = (tt, omega arith)
mbr_parts-Numbered sector mbr (suc n) i k = ground (
  arith,
  mbr_parts-Numbered sector mbr n (i + 1) k,
  mbr_parts-Numbered sector mbr n (i + 1) (k + 1),
)

-- What `probe_partitions` leaves in `out`.
pub map_of : Probe → PartitionMap
map_of (probed m) = m
map_of (failed_with err m) = m

-- Room for four partitions in an MBR and for none without a table.
pub Fits : PartitionMap → Type 0
Fits m = elim m.kind [
  | PartitionTableKind.no_table ↦ (m.parts ≡ []) × (m.table_bytes ≡ 0)
  | PartitionTableKind.mbr ↦ (length m.parts ≤ 4) × (m.table_bytes ≡ m.sector_size)
  | PartitionTableKind.gpt ↦ Unit
]

Good : PartitionMap → Type 0
Good m = Numbered m.sector_size 1 m.parts × Fits m

gpt_of-Good : (sector : ℕ) (hdr : List ℕ) (r : Read) → Good (map_of (gpt_of sector hdr r))
unfolding Good map_of gpt_of Fits gpt_map Numbered
gpt_of-Good sector hdr (failed err) = (tt, tt)
gpt_of-Good sector hdr (got ents) =
    ((gpt_parts-Numbered sector (entry_size hdr) ents (r32 hdr 80) 0 1).0, tt)

probe_mbr-Good : (sector : ℕ) (mbr : List ℕ) → Good (probe_mbr sector mbr)
unfolding Good probe_mbr Fits Numbered no_map
probe_mbr-Good sector mbr = ground (arith, mbr_parts-Numbered sector mbr 4 0 1)

probe_tables-Good :
    (dev : Disk) (sector : ℕ) (mbr : List ℕ) (r : Read)
    → Good (map_of (probe_tables dev sector mbr r))
unfolding probe_tables map_of probe_gpt
probe_tables-Good dev sector mbr r = elim (Bool-cases (is_gpt r)) [
  | inl found ↦ rw found (gpt_of-Good sector (bytes_of r) _)
  | inr absent ↦ rw absent (probe_mbr-Good sector mbr)
]

probe_from-Good : (dev : Disk) (sector : ℕ) (r : Read) → Good (map_of (probe_from dev sector r))
unfolding probe_from map_of Good no_map Fits Numbered
probe_from-Good dev sector (failed err) = (tt, (refl, refl))
probe_from-Good dev sector (got mbr) = probe_tables-Good dev sector mbr _

-- Whatever the device delivers, the partitions that `probe_partitions` lists are numbered from 1
-- without a gap and named after their numbers, their byte offsets and lengths are those of their
-- sectors in 64-bit arithmetic, an MBR gives at most four of them and covers one sector, and
-- without a table there are none and the table has no bytes.
pub probe_partitions-Numbered :
    (device_sector : ℕ) (dev : Disk)
    → Numbered
        (map_of (probe_partitions device_sector dev)).sector_size
        1
        (map_of (probe_partitions device_sector dev)).parts
      × Fits (map_of (probe_partitions device_sector dev))
unfolding Good probe_partitions
probe_partitions-Numbered device_sector dev = probe_from-Good dev _ _

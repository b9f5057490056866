-- ===== src/Partition.antt =====
-- `probe_partitions` (src/io/partition.hpp, src/io/partition.cpp): find a GPT or an MBR and list its
-- partitions. The device is its sector size and the function `Disk`. Products wrap at the width the
-- source computes them in.
pub mod Listing
mod Tests
use reflash.Base.{
  ℕ, zero, suc, ◌+◌, ◌-◌, ◌*◌, ◌/◌, ◌%◌, ◌^◌, Bool, true, false, ◌&&◌, List, [], ◌∷◌, ◌++◌, ltb,
  leb, ◌==◌, if◌then◌else◌, text_eq, take, drop, Text, text, to_string, byte, r32, r64, u32_mod,
  u64_mod,
}
use reflash.BlockIo.{Read, got, failed}
use reflash.Fs.{Disk}

pub record Partition : Type 0 where
  pub index : ℕ
  pub start_lba : ℕ
  pub length_lba : ℕ
  pub start_bytes : ℕ
  pub length_bytes : ℕ
  pub name : Text

pub data PartitionTableKind : Type 0 where
  no_table mbr gpt : PartitionTableKind

pub record PartitionMap : Type 0 where
  pub kind : PartitionTableKind
  pub sector_size : ℕ
  pub table_bytes : ℕ
  pub parts : List Partition

pub data Probe : Type 0 where
  probed : PartitionMap → Probe
  failed_with : Text → PartitionMap → Probe

-- A partition from its first and its number of sectors.
pub partition : ℕ → ℕ → ℕ → ℕ → Partition
partition sector_size idx start_lba length_lba = record {
  index = idx;
  start_lba = start_lba;
  length_lba = length_lba;
  start_bytes = start_lba * sector_size % u64_mod;
  length_bytes = length_lba * sector_size % u64_mod;
  name = text "::part-" ++ to_string idx;
}

-- `for (k = 0; k < n; ++k) if (e[k] != 0)`
all_zero : List ℕ → ℕ → Bool
all_zero e zero = true
all_zero e (suc k) = all_zero e k && (byte e k == 0)

lba_count : ℕ → ℕ → ℕ
lba_count start_lba end_lba =
    if leb start_lba end_lba then (end_lba - start_lba + 1) % u64_mod else 0

-- The loop over GPT entries from `i`, `n` of them to go.
pub gpt_parts : ℕ → ℕ → List ℕ → ℕ → ℕ → ℕ → List Partition
gpt_parts sector_size part_size ents zero i idx = []
gpt_parts sector_size part_size ents (suc n) i idx =
    let e = drop (i * part_size % u32_mod) ents in
    elim (all_zero e 16) [
      | true ↦ gpt_parts sector_size part_size ents n (i + 1) idx
      | false ↦
          partition sector_size idx (r64 e 32) (lba_count (r64 e 32) (r64 e 40))
          ∷ gpt_parts sector_size part_size ents n (i + 1) (idx + 1)
    ]

-- The loop over the four entries of an MBR.
pub mbr_parts : ℕ → List ℕ → ℕ → ℕ → ℕ → List Partition
mbr_parts sector_size sector zero i idx = []
mbr_parts sector_size sector (suc n) i idx =
    let e = drop (446 + i * 16) sector in
    elim (byte e 4 == 0) [
      | true ↦ mbr_parts sector_size sector n (i + 1) idx
      | false ↦
          partition sector_size idx (r32 e 8) (r32 e 12)
          ∷ mbr_parts sector_size sector n (i + 1) (idx + 1)
    ]

has_signature : List ℕ → Bool
has_signature sector = (byte sector 510 == 0x55) && (byte sector 511 == 0xAA)

pub is_gpt : Read → Bool
is_gpt (failed err) = false
is_gpt (got hdr) = text_eq (take 8 hdr) (text "EFI PART")

pub bytes_of : Read → List ℕ
bytes_of (failed err) = []
bytes_of (got bytes) = bytes

pub entry_size : List ℕ → ℕ
entry_size hdr = if ltb (r32 hdr 84) 128 then 128 else r32 hdr 84

-- `part_count * part_size` is a product of 32-bit numbers.
table_end : ℕ → List ℕ → ℕ
table_end sector_size hdr =
    let table = r32 hdr 80 * entry_size hdr % u32_mod in
    (r64 hdr 72 + (table + sector_size - 1) % u64_mod / sector_size)
    % u64_mod
    * sector_size
    % u64_mod

pub gpt_map : ℕ → List ℕ → List Partition → PartitionMap
gpt_map sector_size hdr parts = record {
  kind = gpt;
  sector_size = sector_size;
  table_bytes = table_end sector_size hdr;
  parts = parts;
}

-- With the header, from the read of the entries.
pub gpt_of : ℕ → List ℕ → Read → Probe
gpt_of sector_size hdr (failed err) = failed_with err (gpt_map sector_size hdr [])
gpt_of sector_size hdr (got ents) =
    probed (gpt_map sector_size hdr (gpt_parts sector_size (entry_size hdr) ents (r32 hdr 80) 0 1))

pub probe_gpt : Disk → ℕ → List ℕ → Probe
probe_gpt dev sector_size hdr =
    gpt_of sector_size hdr (dev (r64 hdr 72 * sector_size % u64_mod) (r32 hdr 80 * entry_size hdr))

unfoldable pub no_map : ℕ → PartitionMap
no_map sector_size = record {
  kind = no_table;
  sector_size = sector_size;
  table_bytes = 0;
  parts = [];
}

pub probe_mbr : ℕ → List ℕ → PartitionMap
probe_mbr sector_size sector =
    if has_signature sector
    then record {
      kind = mbr;
      sector_size = sector_size;
      table_bytes = sector_size;
      parts = mbr_parts sector_size sector 4 0 1;
    }
    else no_map sector_size

-- With the first sector, from the read of the second one.
pub probe_tables : Disk → ℕ → List ℕ → Read → Probe
probe_tables dev sector_size sector hdr =
    if is_gpt hdr
    then probe_gpt dev sector_size (bytes_of hdr)
    else probed (probe_mbr sector_size sector)

-- From the read of the first sector.
unfoldable pub probe_from : Disk → ℕ → Read → Probe
probe_from dev sector_size (failed err) = failed_with err (no_map sector_size)
probe_from dev sector_size (got sector) =
    probe_tables dev sector_size sector (dev sector_size sector_size)

unfoldable pub probe_partitions : ℕ → Disk → Probe
probe_partitions device_sector dev =
    let sector_size = if device_sector == 0 then 512 else device_sector in
    probe_from dev sector_size (dev 0 sector_size)

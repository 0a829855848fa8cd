-- ===== src/Dev/Disk/Table.antt =====
-- What `disk_parse_gpt` of kernel/dev/disk.c makes of a table.
use monolith.Dev.Disk.{Disk, GptEntry, Partition, add_entry, disk_parse_gpt, goes_on, parse_loop}
use monolith.Prelude.{
  Bool, List, [], if◌then◌else◌, length, none, not, refl, suc, true, zero, ℕ, ◌%◌, ◌*◌, ◌++◌, ◌+◌,
  ◌-◌, ◌/◌, ◌==◌, ◌||◌, ◌∷◌, ◌≡◌,
}
use monolith.Prelude.Words.{u32_mod, u64_mod}

abbrev pub is_used : GptEntry → Bool
is_used entry = not (entry.guidl == 0) || not (entry.guidh == 0)

-- a partition with the blocks of an entry, whose minor number is that of the disk and the index
abbrev pub partition_of : ℕ → GptEntry → ℕ → Partition
partition_of dev entry index = record {
  first_block = entry.start_lba;
  block_count = (entry.end_lba + u64_mod - entry.start_lba) % u64_mod;
  index = index;
  devid = dev / u32_mod % u32_mod * u32_mod + (dev % u32_mod + index) % u32_mod;
}

-- the partitions of the used ones among the next `count` slots, numbered from `index` on
abbrev pub partitions_from : Disk → (ℕ → GptEntry) → ℕ → ℕ → ℕ → List Partition
partitions_from disk entries zero slot index = []
partitions_from disk entries (suc count) slot index =
    let entry = entries slot in
    if is_used entry
    then partition_of disk.dev entry index
      ∷ partitions_from disk entries count (slot + 1) (index + 1)
    else partitions_from disk entries count (slot + 1) index

-- the partitions are put behind the old ones, and counted
pub record Parsed (disk : Disk) (entries : ℕ → GptEntry) (count slot : ℕ) (disk' : Disk)
    : Type 0 where
  pub same_dev : disk'.dev ≡ disk.dev
  pub listed :
      disk'.partitions
      ≡ disk.partitions ++ partitions_from disk entries count slot (disk.partcount + 1)
  pub counted :
      disk'.partcount
      ≡ disk.partcount + length (partitions_from disk entries count slot (disk.partcount + 1))

-- the disk with the partition of a used entry
abbrev with_partition : Disk → GptEntry → Disk
with_partition disk entry = record disk {
  partitions = disk.partitions ++ (partition_of disk.dev entry (disk.partcount + 1) ∷ []);
  partcount = disk.partcount + 1;
}

parse_loop-never :
    (fuel : ℕ) (entries : ℕ → GptEntry) (slot : ℕ) (disk : Disk)
    → parse_loop fuel entries 0 1024 slot disk ≡ none
unfolding parse_loop goes_on
parse_loop-never zero entries slot disk = refl
parse_loop-never (suc fuel) entries slot disk =
    parse_loop-never fuel entries (slot + 1) (add_entry disk (entries slot))

-- A table whose header gives the entries the size 0: whatever the fuel, it runs out, so
-- `disk_parse_gpt` does not return.
pub disk_parse_gpt-never :
    (fuel : ℕ) (entries : ℕ → GptEntry) (disk : Disk)
    → disk_parse_gpt fuel true 0 entries disk ≡ none
unfolding disk_parse_gpt
disk_parse_gpt-never fuel entries disk = parse_loop-never fuel entries 0 disk

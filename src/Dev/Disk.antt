-- ===== src/Dev/Disk.antt =====
-- kernel/dev/disk.c: the partitions of a disk, read from its GUID partition table. What is read of
-- the disk is the function from the number of a slot of 128 bytes, behind the table's header, to the
-- entry there. A partition keeps the number that is in its node's name and its device number; that
-- `blockdev_new` and `vfs_mknod` register them is not in this part.
pub mod Table
mod Tests
use monolith.Dev.Device.{dev_major, dev_minor}
use monolith.Prelude.{
  Bool, List, Option, [], if◌then◌else◌, leb, ltb, none, not, some, suc, zero, ℕ, ◌%◌, ◌*◌, ◌++◌,
  ◌+◌, ◌==◌, ◌^◌, ◌||◌, ◌∷◌,
}
use monolith.Prelude.Words.{add64, sub64, u32_mod}

-- `gpt_partition_t`, the fields that are read
pub record GptEntry : Type 0 where
  pub guidl : ℕ
  pub guidh : ℕ
  pub start_lba : ℕ
  pub end_lba : ℕ

-- `struct partition`, and what `disk_create_partition` registers it as
pub record Partition : Type 0 where
  pub first_block : ℕ
  pub block_count : ℕ
  pub index : ℕ
  pub devid : ℕ

-- `struct disk`, the fields that are used here
pub record Disk : Type 0 where
  pub dev : ℕ
  pub partitions : List Partition
  pub partcount : ℕ

-- its arguments are 32-bit numbers
unfoldable pub make_dev : ℕ → ℕ → ℕ
make_dev major minor = major % u32_mod * u32_mod + minor % u32_mod

unfoldable pub disk_create_partition : Disk → ℕ → ℕ → ℕ → Partition
unfolding make_dev dev_major dev_minor
disk_create_partition parent start_block block_count index = record {
  first_block = start_block;
  block_count = block_count;
  index = index;
  devid = make_dev (dev_major parent.dev) (dev_minor parent.dev + index);
}

-- the body of the loop of `disk_parse_gpt`
unfoldable pub add_entry : Disk → GptEntry → Disk
unfolding disk_create_partition sub64 add64
add_entry disk entry =
    if not (entry.guidl == 0) || not (entry.guidh == 0)
    then (record disk {
      partitions =
          disk.partitions
          ++ (disk_create_partition disk entry.start_lba (sub64 entry.end_lba entry.start_lba)
                (add64 disk.partcount 1)
              ∷ []);
      partcount = add64 disk.partcount 1;
    })
    else disk

-- `i < 4096` of an `int`, whose bits are the number `i`
unfoldable pub goes_on : ℕ → Bool
goes_on i = ltb i 4096 || leb (2 ^ 31) i

-- The loop of `disk_parse_gpt` on fuel, at the offset `i` and the slot `slot`: `none` when the fuel
-- runs out.
unfoldable pub parse_loop : ℕ → (ℕ → GptEntry) → ℕ → ℕ → ℕ → Disk → Option Disk
unfolding goes_on
parse_loop zero entries size i slot disk = none
parse_loop (suc fuel) entries size i slot disk =
    let rest =
      parse_loop fuel entries size ((i + size) % u32_mod) (slot + 1)
        (add_entry disk (entries slot)) in
    if goes_on i then rest else some disk

-- `disk_parse_gpt`; `signed` says whether the header has the signature "EFI PART"
unfoldable pub disk_parse_gpt : ℕ → Bool → ℕ → (ℕ → GptEntry) → Disk → Option Disk
unfolding parse_loop
disk_parse_gpt fuel signed partentry_size entries disk =
    let parsed = parse_loop fuel entries partentry_size 1024 0 disk in
    if signed then parsed else some disk

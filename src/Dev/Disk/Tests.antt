-- ===== src/Dev/Disk/Tests.antt =====
-- Partition tables at concrete numbers.
use mathlib.Core.Option
use monolith.Dev.Device.{dev_major, dev_minor}
use monolith.Dev.Disk.{
  Disk, GptEntry, add_entry, disk_create_partition, disk_parse_gpt, goes_on, make_dev, parse_loop,
}
use monolith.Dev.Disk.Table.{disk_parse_gpt-never}
use monolith.Prelude.{
  [], false, if◌then◌else◌, ltb, none, refl, some, true, ℕ, ◌*◌, ◌+◌, ◌^◌, ◌∷◌, ◌≡◌,
}
use monolith.Prelude.Words.{add64, sub64}

-- the first two slots of 128 bytes are used
abbrev two_entries : ℕ → GptEntry
two_entries slot = record {
  guidl = if ltb slot 2 then 5 else 0;
  guidh = 0;
  start_lba = 2048 * (slot + 1);
  end_lba = 2048 * (slot + 1) + 1023;
}

abbrev empty_disk : Disk
empty_disk = record { dev = 8 * 2 ^ 32; partitions = []; partcount = 0 }

found_two :
    Option.map (λ (d : Disk). d.partitions) (disk_parse_gpt 26 true 128 two_entries empty_disk)
    ≡ some (
        record { first_block = 2048; block_count = 1023; index = 1; devid = 8 * 2 ^ 32 + 1 }
        ∷ record { first_block = 4096; block_count = 1023; index = 2; devid = 8 * 2 ^ 32 + 2 }
        ∷ [])
unfolding disk_parse_gpt parse_loop goes_on add_entry disk_create_partition make_dev dev_major
    dev_minor sub64 add64
found_two = refl

-- no signature
not_signed : disk_parse_gpt 26 false 128 two_entries empty_disk ≡ some empty_disk
unfolding disk_parse_gpt
not_signed = refl

disk_parse_gpt-never_example : disk_parse_gpt 1000 true 0 two_entries empty_disk ≡ none
disk_parse_gpt-never_example = disk_parse_gpt-never 1000 two_entries empty_disk

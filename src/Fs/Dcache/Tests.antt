-- ===== src/Fs/Dcache/Tests.antt =====
-- Runs of kernel/fs/ventry.c on a small cache, and its theorems at it.
use mathlib.Core.Path.{subst}
use monolith.Fs.Dcache.{
  Ventry, dcache_get, dcache_hash, dcache_insert, dcache_remove, entry_hash, entry_name, fnv_offset,
  hash_loop, table_size,
}
use monolith.Fs.Dcache.Finding.{dcache_get-insert}
use monolith.Fs.Dcache.Mapping.{NoAddress, dcache_get-remove, insert-IsTidy}
use monolith.Fs.Dcache.Names.{IsString, c_string, names_it}
use monolith.Fs.Dcache.Removing.{IsTidy, Tidy}
use monolith.Libk.Memory.{strlen}
use monolith.Prelude.{
  List, [], arith, if◌then◌else◌, length, length-replicate, length-set, none, refl, replicate, some,
  sym, ℕ, ◌∙◌, ◌∷◌, ◌≡◌,
}
use monolith.Prelude.Chains.{bucket, bucket-replicate, find, push_front}

abbrev empty_cache : List (List Ventry)
empty_cache = replicate table_size []

empty_cache-IsTidy : IsTidy empty_cache
empty_cache-IsTidy h = subst Tidy (sym (bucket-replicate table_size h)) tt

-- "bin" in the root directory, whose entry is at 0x1000
abbrev bin : List ℕ
bin = b'b' ∷ b'i' ∷ b'n' ∷ []

abbrev bin_entry : Ventry
bin_entry = record {
  address = 0x2000;
  name = b'b' ∷ b'i' ∷ b'n' ∷ 0 ∷ [];
  parent = 0x1000;
  node = some 7;
  count = 0;
}

abbrev one_entry : List (List Ventry)
one_entry = dcache_insert empty_cache bin_entry

-- the FNV-1a hash of "a"
hash_runs : hash_loop fnv_offset (b'a' ∷ []) 1 ≡ 0xaf63dc4c8601ec8c
unfolding hash_loop
hash_runs = refl

empty_cache-length : length empty_cache ≡ table_size
empty_cache-length = length-replicate {A = List Ventry} table_size []

get_runs : dcache_get one_entry 0x1000 bin ≡ some bin_entry
unfolding dcache_get dcache_insert
get_runs = refl

name_runs : c_string (entry_name (b'b' ∷ b'i' ∷ b'/' ∷ [])) ≡ b'b' ∷ b'i' ∷ []
unfolding c_string entry_name
name_runs = refl

bin-IsString : IsString bin
bin-IsString = omega arith

dcache_get-insert_runs :
    dcache_get one_entry 0x1000 bin
    ≡ (if names_it 0x1000 bin bin_entry then some bin_entry else dcache_get empty_cache 0x1000 bin)
dcache_get-insert_runs =
    dcache_get-insert empty_cache bin_entry 0x1000 bin empty_cache-length bin-IsString

one_entry-IsTidy : IsTidy one_entry
unfolding dcache_get find
one_entry-IsTidy =
    insert-IsTidy empty_cache bin_entry empty_cache-length empty_cache-IsTidy
      (subst (NoAddress 0x2000) (sym (bucket-replicate table_size (entry_hash bin_entry))) tt)
      (rw
        (bucket-replicate table_size
          (dcache_hash 0x1000 (c_string bin_entry.name) (strlen (c_string bin_entry.name))))
        refl)

dcache_get-remove_example :
    dcache_get (dcache_remove one_entry bin_entry) 0x1000 bin
    ≡ (if names_it 0x1000 bin bin_entry then none else dcache_get one_entry 0x1000 bin)
unfolding dcache_get dcache_insert c_string push_front
dcache_get-remove_example =
    dcache_get-remove one_entry bin_entry 0x1000 bin
      (length-set empty_cache (entry_hash bin_entry)
          (bin_entry ∷ bucket empty_cache (entry_hash bin_entry))
        ∙ empty_cache-length)
      one_entry-IsTidy refl bin-IsString

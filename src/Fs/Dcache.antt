-- ===== src/Fs/Dcache.antt =====
-- kernel/fs/ventry.c: the cache of directory entries, a hash table with chains, and the entries
-- themselves. An entry is named by its address, with 0 for nullptr. Each section under the lock of
-- the cache is one step. A string is its bytes, read as if 0 bytes followed.
pub mod Names
pub mod Finding
pub mod Removing
pub mod Mapping
mod Tests
use Prim.Native.Nat.{bit_xor}
use monolith.Fs.Files.{Vnode}
use monolith.Libk.Memory.{Sign, memcmp, negative, none_differs, positive, strlen, strncpy}
use monolith.Prelude.{
  Bool, List, Option, [], false, get_or, if◌then◌else◌, length, ltb, none, set, some, suc, true,
  zero, ℕ, ◌%◌, ◌&&◌, ◌*◌, ◌+◌, ◌-◌, ◌==◌, ◌∷◌,
}
use monolith.Prelude.Chains.{bucket, find, push_front}
use monolith.Prelude.Words.{u32_mod, u64_mod}

-- `struct ventry`; its node is named by a number
pub record Ventry : Type 0 where
  pub address : ℕ
  pub name : List ℕ
  pub parent : ℕ
  pub node : Option ℕ
  pub count : ℕ

abbrev pub table_size : ℕ
table_size = 1024

-- `(uint64_t)name[i]`, where a char is signed
abbrev pub char64 : ℕ → ℕ
char64 c = if ltb c 128 then c else u64_mod - 256 + c

abbrev pub fnv_offset : ℕ
fnv_offset = 0xcbf29ce484222325

abbrev pub fnv_prime : ℕ
fnv_prime = 0x100000001b3

-- the loop of `dcache_hash` over the first bytes of a name
unfoldable pub hash_loop : ℕ → List ℕ → ℕ → ℕ
hash_loop hash name zero = hash
hash_loop hash [] (suc n) = hash_loop (bit_xor hash 0 * fnv_prime % u64_mod) [] n
hash_loop hash (c ∷ name) (suc n) = hash_loop (bit_xor hash (char64 c) * fnv_prime % u64_mod) name n

unfoldable pub dcache_hash : ℕ → List ℕ → ℕ → ℕ
unfolding hash_loop
dcache_hash parent name length = bit_xor (hash_loop fnv_offset name length) parent % table_size

abbrev pub is_equal : Sign → Bool
is_equal negative = false
is_equal none_differs = true
is_equal positive = false

-- the test of the loop of `dcache_get`
unfoldable pub entry_matches : ℕ → List ℕ → Ventry → Bool
unfolding strlen memcmp
entry_matches parent name v =
    let len = strlen name in
    (v.parent == parent) && ((get_or v.name len 0 == 0) && is_equal (memcmp v.name name len))

unfoldable pub dcache_get : List (List Ventry) → ℕ → List ℕ → Option Ventry
unfolding dcache_hash find entry_matches
dcache_get t parent name =
    find (entry_matches parent name) (bucket t (dcache_hash parent name (strlen name)))

-- the hash under which an entry is kept
unfoldable pub entry_hash : Ventry → ℕ
unfolding dcache_hash strlen
entry_hash v = dcache_hash v.parent v.name (strlen v.name)

unfoldable pub dcache_insert : List (List Ventry) → Ventry → List (List Ventry)
unfolding push_front entry_hash
dcache_insert t v = push_front t (entry_hash v) v

-- the walk of `dcache_remove`
unfoldable pub drop_entry : ℕ → List Ventry → List Ventry
drop_entry a [] = []
drop_entry a (v ∷ vs) = if v.address == a then vs else v ∷ drop_entry a vs

unfoldable pub dcache_remove : List (List Ventry) → Ventry → List (List Ventry)
unfolding drop_entry entry_hash
dcache_remove t v = set t (entry_hash v) (drop_entry v.address (bucket t (entry_hash v)))

-- the name of a new entry: a slash at its end is dropped
unfoldable pub entry_name : List ℕ → List ℕ
unfolding strncpy strlen
entry_name name =
    let copied = strncpy name 64 in
    let namel = strlen copied in
    let cut =
      if ltb 1 namel && (get_or copied (namel - 1) 0 == b'/')
      then set copied (namel - 1) 0
      else copied in
    set cut 63 0

-- `ventry_new`, at the address that `kmalloc` gave; the node has one more link
unfoldable pub ventry_new : ℕ → List ℕ → ℕ → Vnode → Ventry × Vnode
unfolding entry_name
ventry_new address name id node = (
  record { address = address; name = entry_name name; parent = 0; node = some id; count = 0 },
  record node { nlink = (node.nlink + 1) % u32_mod },
)

unfoldable pub ventry_ref : Ventry → Ventry
ventry_ref v = record v { count = (v.count + 1) % u32_mod }

-- `ventry_put`: the table, the entry, and whether it was freed
unfoldable pub ventry_put : List (List Ventry) → Ventry → List (List Ventry) × Ventry × Bool
unfolding dcache_remove
ventry_put t v =
    let v' = record v { count = (v.count + u32_mod - 1) % u32_mod } in
    if ltb 1 v.count
    then (t, v', false)
    else elim v.node [ none ↦ (dcache_remove t v', v', true) | some _ ↦ (t, v', false) ]

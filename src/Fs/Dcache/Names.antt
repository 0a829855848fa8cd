-- ===== src/Fs/Dcache/Names.antt =====
-- Names in the directory cache of kernel/fs/ventry.c: when an entry matches a name, and that its
-- hash is then the hash of the name.
use Prim.Native.Nat.{bit_xor}
use monolith.Fs.Dcache.{
  Ventry, char64, dcache_hash, entry_hash, entry_matches, fnv_offset, fnv_prime, hash_loop,
  is_equal, table_size,
}
use monolith.Libk.Memory.{memcmp, strlen}
use monolith.Prelude.{
  ==-self, Bool, Bool-cases, List, [], ap, arith, false, get_or, if◌then◌else◌, inl, inr, ne_of_==,
  refl, suc, true, ℕ, ◌%◌, ◌&&◌, ◌*◌, ◌<◌, ◌==◌, ◌∙◌, ◌∷◌, ◌≡◌, ◌≢◌,
}
use monolith.Prelude.Words.{u64_mod}

-- the string that an array of bytes holds
unfoldable pub c_string : List ℕ → List ℕ
c_string [] = []
c_string (c ∷ s) = if c == 0 then [] else c ∷ c_string s

-- a string: no byte of it is 0
abbrev pub IsString : List ℕ → Type 0
IsString [] = Unit {0}
IsString (c ∷ s) = (c ≢ 0) × IsString s

unfoldable pub same_bytes : List ℕ → List ℕ → Bool
same_bytes [] [] = true
same_bytes [] (d ∷ t) = false
same_bytes (c ∷ s) [] = false
same_bytes (c ∷ s) (d ∷ t) = (c == d) && same_bytes s t

pub same_bytes-eq : (s t : List ℕ) → same_bytes s t ≡ true → s ≡ t
unfolding same_bytes
same_bytes-eq [] [] h = refl
same_bytes-eq [] (d ∷ t) h = cc
same_bytes-eq (c ∷ s) [] h = cc
same_bytes-eq (c ∷ s) (d ∷ t) h = ground (arith, same_bytes-eq s t)

pub same_bytes_self : (s : List ℕ) → same_bytes s s ≡ true
unfolding same_bytes
same_bytes_self [] = refl
same_bytes_self (c ∷ s) = ground (arith, same_bytes_self s, ==-self c)

-- The two tests of `dcache_get` on names compare the strings.
pub name_test :
    (arr q : List ℕ)
    → IsString q
    → ((get_or arr (strlen q) 0 == 0) && is_equal (memcmp arr q (strlen q)))
      ≡ same_bytes (c_string arr) q
unfolding strlen memcmp c_string same_bytes
name_test [] [] h = refl
name_test (a ∷ arr) [] h = ground arith
name_test [] (c ∷ q) h = ground (arith, h.0)
name_test (a ∷ arr) (c ∷ q) h = ground (arith, h.0, name_test arr q h.1)

strlen-string : (s : List ℕ) → strlen (c_string s) ≡ strlen s
unfolding strlen c_string
strlen-string [] = refl
strlen-string (c ∷ s) = elim (Bool-cases (c == 0)) [
  | inl e ↦ rw e refl
  | inr e ↦ rw e (rw e (ap suc (strlen-string s)))
]

hash_string :
    (h : ℕ) (arr : List ℕ) → hash_loop h arr (strlen arr) ≡ hash_loop h (c_string arr) (strlen arr)
unfolding hash_loop strlen c_string
hash_string h [] = refl
hash_string h (c ∷ s) = elim (Bool-cases (c == 0)) [
  | inl e ↦ rw e refl
  | inr e ↦ rw e (hash_string (bit_xor h (char64 c) * fnv_prime % u64_mod) s)
]

-- An entry is kept under the hash of its parent and its string.
pub entry_hash-string :
    (v : Ventry) → entry_hash v ≡ dcache_hash v.parent (c_string v.name) (strlen (c_string v.name))
unfolding entry_hash dcache_hash
entry_hash-string v = rw (hash_string fnv_offset v.name, strlen-string v.name) refl

-- which entry a parent and a string name
abbrev pub names_it : ℕ → List ℕ → Ventry → Bool
names_it parent q v = (v.parent == parent) && same_bytes (c_string v.name) q

pub entry_matches-names_it :
    (parent : ℕ) (q : List ℕ) (v : Ventry)
    → IsString q
    → entry_matches parent q v ≡ names_it parent q v
unfolding entry_matches
entry_matches-names_it parent q v h = ap (λ b. (v.parent == parent) && b) (name_test v.name q h)

pub names_it-hash :
    (parent : ℕ) (q : List ℕ) (v : Ventry)
    → names_it parent q v ≡ true
    → entry_hash v ≡ dcache_hash parent q (strlen q)
names_it-hash parent q v h =
    let p : v.parent ≡ parent = ground (arith, h) in
    let e : c_string v.name ≡ q = same_bytes-eq (c_string v.name) q (ground (arith, h)) in
    entry_hash-string v
    ∙ ap (λ s. dcache_hash v.parent s (strlen s)) e
    ∙ ap (λ k. dcache_hash k q (strlen q)) p

pub dcache_hash-lt : (parent : ℕ) (q : List ℕ) (n : ℕ) → dcache_hash parent q n < table_size
unfolding dcache_hash
dcache_hash-lt parent q n = omega arith

pub c_string-IsString : (arr : List ℕ) → IsString (c_string arr)
unfolding c_string
c_string-IsString [] = tt
c_string-IsString (c ∷ s) = elim (Bool-cases (c == 0)) [
  | inl e ↦ rw e tt
  | inr e ↦ rw e (ne_of_== c 0 e, c_string-IsString s)
]

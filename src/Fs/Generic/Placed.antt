-- ===== src/Fs/Generic/Placed.antt =====
-- File systems that look up by `generic_fs_lookup` of kernel/fs/generic.c have the entries that the
-- path walk of kernel/fs/lookup.c relies on.
use mathlib.Core.Option.{some-injective}
use mathlib.Core.Path.{subst}
use monolith.Fs.Files.{is_type, s_ifdir}
use monolith.Fs.Generic.{generic_fs_lookup, same_name}
use monolith.Fs.Lookup.{FileTree, traverse}
use monolith.Fs.Lookup.Cached.{IsName, IsPlaced}
use monolith.Libk.Memory.{strncmp, strncpy}
use monolith.Libk.Memory.Compare.{strncmp-strncpy}
use monolith.Prelude.{
  ==-self, ==_iff, Bool-cases, List, [], arith, inl, inr, refl, some, sym, true, ℕ, ◌==◌, ◌||◌, ◌↔◌,
  ◌∙◌, ◌∷◌, ◌≡◌, ◌≢◌,
}
use monolith.Prelude.Members.{contains}

same_name_iff : (s d : List ℕ) → (same_name s d ≡ true) ↔ (strncpy s 64 ≡ strncpy d 64)
unfolding same_name
same_name_iff s d =
    let (a, b) = strncmp-strncpy s d 64 in
    (
      λ h. a ((==_iff (strncmp s d 64).0 (strncmp s d 64).1).0 h),
      λ e. (==_iff (strncmp s d 64).0 (strncmp s d 64).1).1 (b e),
    )

same_name-cut : (s m n : List ℕ) → strncpy m 64 ≡ strncpy n 64 → same_name s m ≡ same_name s n
same_name-cut s m n e = elim (Bool-cases (same_name s m)) [
  | inl h ↦ h ∙ sym ((same_name_iff s n).1 ((same_name_iff s m).0 h ∙ e))
  | inr h ↦ elim (Bool-cases (same_name s n)) [
    | inr k ↦ h ∙ sym k
    | inl k ↦ absurd (cc (h, (same_name_iff s m).1 ((same_name_iff s n).0 k ∙ sym e)))
  ]
]

generic-cut :
    (name_of : ℕ → List ℕ) (cs m n : List ℕ)
    → strncpy m 64 ≡ strncpy n 64
    → generic_fs_lookup name_of cs m ≡ generic_fs_lookup name_of cs n
unfolding generic_fs_lookup
generic-cut name_of [] m n e = refl
generic-cut name_of (c ∷ cs) m n e =
    rw (same_name-cut (name_of c) m n e, generic-cut name_of cs m n e) refl

generic-found :
    (name_of : ℕ → List ℕ) (cs n : List ℕ) (e : ℕ)
    → generic_fs_lookup name_of cs n ≡ some e
    → (contains e cs ≡ true) × (strncpy (name_of e) 64 ≡ strncpy n 64)
unfolding generic_fs_lookup contains
generic-found name_of [] n e h = cc
generic-found name_of (c ∷ cs) n e h = elim (Bool-cases (same_name (name_of c) n)) [
  | inl k ↦
      let same : c ≡ e = some-injective _ _ (sym (rw k refl) ∙ h) in
      (
        subst (λ x. (c == x || contains x cs) ≡ true) same (ground (arith, ==-self c)),
        subst (λ x. strncpy (name_of x) 64 ≡ strncpy n 64) same ((same_name_iff (name_of c) n).0 k),
      )
  | inr k ↦
      let (on, cut) = generic-found name_of cs n e (sym (rw k refl) ∙ h) in
      (ground (arith, on), cut)
]

-- directories with their children
pub record HasChildren (t : FileTree) (children : ℕ → List ℕ) : Type 0 where
  pub asks : (p : ℕ) (n : List ℕ) → t.fs_lookup p n ≡ generic_fs_lookup t.name_of (children p) n
  pub child :
      (p e : ℕ)
      → contains e (children p) ≡ true
      → (t.parent_of e ≡ p)
        × IsName (t.name_of e)
        × (p ≢ 0)
        × (is_type s_ifdir (t.mode_of p) ≡ true)
  pub flat_mounts : (v r : ℕ) → traverse t v ≡ some r → traverse t r ≡ some r

pub generic-IsPlaced : (t : FileTree) (children : ℕ → List ℕ) → HasChildren t children → IsPlaced t
generic-IsPlaced t children has = record {
  kept_at = λ p e n h.
      let found = sym (has.asks p n) ∙ h in
      let (on, cut) = generic-found t.name_of (children p) n e found in
      let (ep, name, live, dir) = has.child p e on in
      (
        ep,
        has.asks p (t.name_of e) ∙ (generic-cut t.name_of (children p) (t.name_of e) n cut ∙ found),
        name,
        live,
        dir,
      );
  flat_mounts = has.flat_mounts;
}

-- ===== src/Mm/VmSpace/Ranges.antt =====
-- Lists of ranges in an address space of kernel/mm/vmm.c: in order, apart, and with one put in.
use monolith.Mm.VmSpace.{VmObject, end_of, get_range}
use monolith.Prelude.{
  Bool, List, [], arith, if◌then◌else◌, leb, ltb, none, refl, some, ℕ, ◌&&◌, ◌+◌, ◌<◌, ◌∷◌, ◌≡◌,
  ◌≤◌, ◌⊎◌,
}
use monolith.Prelude.Words.{add64, u64_mod}

-- in ascending order from `lo` on, not empty, not overlapping, and without wrap-around
abbrev pub Sorted : ℕ → List VmObject → Type 0
Sorted lo [] = Unit
Sorted lo (o ∷ os) =
    (lo ≤ o.base) × (0 < o.len) × (o.base + o.len < u64_mod) × Sorted (o.base + o.len) os

-- `r` shares no address with `o`, with any of `os`
abbrev pub Apart : VmObject → VmObject → Type 0
Apart r o = (o.base + o.len ≤ r.base) ⊎ (r.base + r.len ≤ o.base)

abbrev pub AllApart : VmObject → List VmObject → Type 0
AllApart r [] = Unit
AllApart r (o ∷ os) = Apart r o × AllApart r os

-- `ys` is `xs` with `r` put in at one place.
pub data Insert (r : VmObject) : List VmObject → List VmObject → Type 0 where
  here : {xs : List VmObject} → Insert r xs (r ∷ xs)
  there : {x : VmObject} {xs ys : List VmObject} → Insert r xs ys → Insert r (x ∷ xs) (x ∷ ys)

pub before-AllApart :
    (r : VmObject) (lo : ℕ) (os : List VmObject)
    → Sorted lo os
    → r.base + r.len ≤ lo
    → AllApart r os
before-AllApart r lo [] s h = tt
before-AllApart r lo (o ∷ os) s h =
    (omega arith, before-AllApart r (o.base + o.len) os s.3 (omega arith))

pub end_of-eq : (o : VmObject) → o.base + o.len < u64_mod → end_of o ≡ o.base + o.len
unfolding end_of add64
end_of-eq o h = omega arith

-- does the range hold the address
abbrev pub covers : VmObject → ℕ → Bool
covers o addr = leb o.base addr && ltb addr (o.base + o.len)

pub get_range-below :
    (os : List VmObject) (lo addr : ℕ) → Sorted lo os → addr < lo → get_range os addr ≡ none
unfolding get_range
get_range-below [] lo addr s h = refl
get_range-below (o ∷ os) lo addr s h =
    ground (arith, end_of-eq o s.2, get_range-below os (o.base + o.len) addr s.3)

pub Insert-le :
    (r : VmObject) (xs ys : List VmObject) (lo : ℕ) → Insert r xs ys → Sorted lo ys → lo ≤ r.base
Insert-le r xs _ lo here s = s.0
Insert-le r _ _ lo (there {x} {xs} {ys} i) s =
    omega (arith, Insert-le r xs ys (x.base + x.len) i s.3)

-- After a range has been put in with the order kept, an address of that range is looked up as that
-- range, and any other address as before.
pub get_range-Insert :
    (r : VmObject) (xs ys : List VmObject) (lo addr : ℕ)
    → Insert r xs ys
    → Sorted lo ys
    → get_range ys addr ≡ (if covers r addr then some r else get_range xs addr)
unfolding get_range
get_range-Insert r xs _ lo addr here s = ground (arith, end_of-eq r s.2)
get_range-Insert r _ _ lo addr (there {x} {xs} {ys} i) s = ground (
  arith,
  end_of-eq x s.2,
  get_range-Insert r xs ys (x.base + x.len) addr i s.3,
  Insert-le r xs ys (x.base + x.len) i s.3,
)

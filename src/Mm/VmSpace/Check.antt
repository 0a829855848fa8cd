-- ===== src/Mm/VmSpace/Check.antt =====
-- `space_check_range` of kernel/mm/vmm.c without replacement, and the lookup that follows it.
use mathlib.Core.Option
use monolith.Mm.VmSpace.{VmObject, VmSpace, check_loop, check_range, get_range}
use monolith.Mm.VmSpace.Ranges.{
  AllApart, Insert, Sorted, before-AllApart, covers, end_of-eq, get_range-Insert, here, there,
}
use monolith.Prelude.{
  Bool-cases, List, Option, [], arith, false, if◌then◌else◌, inl, inr, leb, ltb, none, refl, some,
  ℕ, ◌+◌, ◌<◌, ◌∷◌, ◌≡◌, ◌≤◌,
}
use monolith.Prelude.Words.{u64_mod}

abbrev Checked : VmObject → ℕ → List VmObject → Option (List VmObject) → Type 0
Checked r lo os none = ¬ AllApart r os
Checked r lo os (some ys) = AllApart r os × Insert r os ys × (lo ≤ r.base → Sorted lo ys)

Checked-cons :
    (r o : VmObject) (lo : ℕ) (os : List VmObject) (res : Option (List VmObject))
    → Sorted lo (o ∷ os)
    → o.base + o.len ≤ r.base
    → Checked r (o.base + o.len) os res
    → Checked r lo (o ∷ os) (Option.map (λ ys. o ∷ ys) res)
Checked-cons r o lo os none s h c = λ a. c a.1
Checked-cons r o lo os (some ys) s h c = ((inl h, c.0), there c.1, λ k. (s.0, s.1, s.2, c.2 h))

check_loop-Checked :
    (r : VmObject) (lo : ℕ) (os : List VmObject)
    → 0 < r.len
    → r.base + r.len < u64_mod
    → Sorted lo os
    → Checked r lo os (check_loop r false os)
unfolding check_loop
check_loop-Checked r lo [] pos wrap s = (tt, here, λ k. (k, pos, wrap, tt))
check_loop-Checked r lo (o ∷ os) pos wrap s =
    rw (end_of-eq o s.2, end_of-eq r wrap)
      (elim (Bool-cases (leb o.base r.base)) [
        | inl below ↦ elim (Bool-cases (ltb r.base (o.base + o.len))) [
          | inl hit ↦ rw (below, hit) (λ a. ground arith)
          | inr past ↦
              rw (below, past)
                (Checked-cons r o lo os _ s (ground arith)
                  (check_loop-Checked r (o.base + o.len) os pos wrap s.3))
        ]
        | inr above ↦ elim (Bool-cases (ltb o.base (r.base + r.len))) [
          | inl hit ↦ rw (above, hit) (λ a. ground arith)
          | inr clear ↦
              rw (above, clear)
                (
                  (inr (ground arith), before-AllApart r (o.base + o.len) os s.3 (ground arith)),
                  here,
                  λ k. (k, pos, wrap, (ground arith, s.1, s.2, s.3)),
                )
        ]
      ])

-- The ranges are in order above the start address, and the start is not 0.
pub record IsOrdered (space : VmSpace) : Type 0 where
  pub start_pos : 0 < space.start_address
  pub sorted : Sorted space.start_address space.objects

-- what `space_check_range` must decide: the range lies inside the space and meets no other
abbrev pub Fits : VmSpace → VmObject → Type 0
Fits space r =
    (space.start_address ≤ r.base) × (r.base + r.len < space.end_address) × AllApart r space.objects

abbrev pub Decided : VmSpace → VmObject → Option VmSpace → Type 0
Decided space r none = ¬ Fits space r
Decided space r (some space') =
    Fits space r
    × IsOrdered space'
    × Insert r space.objects space'.objects
    × (space'.start_address ≡ space.start_address)
    × (space'.end_address ≡ space.end_address)

finish :
    (space : VmSpace) (r : VmObject) (res : Option (List VmObject))
    → IsOrdered space
    → space.start_address ≤ r.base
    → r.base + r.len < space.end_address
    → Checked r space.start_address space.objects res
    → Decided space r (Option.map (λ os. record space { objects = os }) res)
finish space r none v lo hi c = λ f. c f.2
finish space r (some ys) v lo hi c =
    ((lo, hi, c.0), record { start_pos = v.start_pos; sorted = c.2 lo }, c.1, refl, refl)

-- Without replacement, `space_check_range` of a range that is not empty and does not wrap accepts
-- it exactly when it lies inside the space and overlaps no range there; it then puts the range in
-- and keeps the list in order and the space's bounds.
pub check_range-Decided :
    (space : VmSpace) (r : VmObject)
    → IsOrdered space
    → 0 < r.len
    → r.base + r.len < u64_mod
    → Decided space r (check_range space r false)
unfolding check_range
check_range-Decided space r v pos wrap = elim (Bool-cases (ltb r.base space.start_address)) [
  | inl low ↦ rw low (λ f. ground arith)
  | inr lo ↦
      rw (lo, end_of-eq r wrap)
        (elim (Bool-cases (leb space.end_address (r.base + r.len))) [
          | inl high ↦ rw high (λ f. ground arith)
          | inr hi ↦ rw hi (
              finish space r (check_loop r false space.objects) v (ground arith) (ground arith)
                (check_loop-Checked r space.start_address space.objects pos wrap v.sorted))
        ])
]

-- Once `space_check_range` has accepted a range, `vm_space_get_range` finds that range at each of
-- its addresses, and finds at every other address what it found before.
pub get_range-check_range :
    (space space' : VmSpace) (r : VmObject) (addr : ℕ)
    → IsOrdered space
    → 0 < r.len
    → r.base + r.len < u64_mod
    → check_range space r false ≡ some space'
    → get_range space'.objects addr
      ≡ (if covers r addr then some r else get_range space.objects addr)
get_range-check_range space space' r addr v pos wrap e =
    let d = rw e at (check_range-Decided space r v pos wrap) in
    get_range-Insert r space.objects space'.objects space'.start_address addr d.2 d.1.sorted

-- ===== src/Mm/VmSpace/Find.antt =====
-- `space_find_free_range` of kernel/mm/vmm.c: the first gap that is large enough.
use native.Mathlib.Decide.{dec_lt}
use monolith.Mm.VmSpace.{VmObject, VmSpace, find_base, find_free_range, find_loop}
use monolith.Mm.VmSpace.Check.{Fits, IsOrdered}
use monolith.Mm.VmSpace.Ranges.{AllApart, Insert, Sorted, before-AllApart, end_of-eq, here, there}
use monolith.Prelude.{
  Bool-cases, List, [], arith, false, inl, inr, leb, some, ℕ, ◌%◌, ◌+◌, ◌<◌, ◌==◌, ◌∷◌, ◌≡◌, ◌≤◌,
}
use monolith.Prelude.Words.{add64, u64_mod}

-- every range ends at or below `hi`
abbrev pub AllBelow : ℕ → List VmObject → Type 0
AllBelow hi [] = Unit
AllBelow hi (o ∷ os) = (o.base + o.len ≤ hi) × AllBelow hi os

abbrev pub placed_at : VmObject → ℕ → VmObject
placed_at r b = record r { base = b }

-- `b` is a place for `r` from `lo` on, `ys` is the list with `r` there, and no lower place exists.
pub record Placed (r : VmObject) (lo : ℕ) (os : List VmObject) (b : ℕ) (ys : List VmObject)
    : Type 0 where
  pub above : lo ≤ b
  pub below : b + r.len < u64_mod
  pub inserted : Insert (placed_at r b) os ys
  pub sorted : Sorted lo ys
  pub apart : AllApart (placed_at r b) os
  pub lowest : (c : ℕ) → lo ≤ c → AllApart (placed_at r c) os → b ≤ c

module _ (r : VmObject) (hi : ℕ) (pos : 0 < r.len) (room : hi + r.len < u64_mod) where
  first_gap :
      (lo : ℕ) (o : VmObject) (os : List VmObject)
      → Sorted lo (o ∷ os)
      → lo + r.len ≤ o.base
      → Placed r lo (o ∷ os) lo (placed_at r lo ∷ o ∷ os)
  first_gap lo o os s fits = record {
    above = omega arith;
    below = omega arith;
    inserted = here;
    sorted = (omega arith, pos, omega arith, (fits, s.1, s.2, s.3));
    apart = (inr fits, before-AllApart (placed_at r lo) (o.base + o.len) os s.3 (omega arith));
    lowest = λ c k a. k;
  }

  next_gap :
      (lo : ℕ) (o : VmObject) (os : List VmObject) (b : ℕ) (ys : List VmObject)
      → Sorted lo (o ∷ os)
      → o.base < lo + r.len
      → Placed r (o.base + o.len) os b ys
      → Placed r lo (o ∷ os) b (o ∷ ys)
  next_gap lo o os b ys s tight p = record {
    above = omega (arith, p.above);
    below = p.below;
    inserted = there p.inserted;
    sorted = (s.0, s.1, s.2, p.sorted);
    apart = (inl p.above, p.apart);
    lowest = λ c k a. p.lowest c (omega (arith, a.0)) a.1;
  }

  last_gap :
      (lo : ℕ) (o : VmObject)
      → Sorted lo (o ∷ [])
      → o.base + o.len ≤ hi
      → o.base < lo + r.len
      → Placed r lo (o ∷ []) (o.base + o.len) (o ∷ placed_at r (o.base + o.len) ∷ [])
  last_gap lo o s h tight =
      next_gap lo o [] (o.base + o.len) (placed_at r (o.base + o.len) ∷ []) s tight (record {
        above = omega arith;
        below = omega arith;
        inserted = here;
        sorted = (omega arith, pos, omega arith, tt);
        apart = tt;
        lowest = λ c k a. k;
      })

  find_loop-Placed :
      (lo : ℕ) (o : VmObject) (os : List VmObject)
      → Sorted lo (o ∷ os)
      → AllBelow hi (o ∷ os)
      → lo ≤ hi
      → let (b, ys) = find_loop r lo o os in Placed r lo (o ∷ os) b ys
  unfolding find_loop add64
  find_loop-Placed lo o [] s h le =
      let e : (lo + r.len) % u64_mod ≡ lo + r.len = omega arith in
      rw (e, end_of-eq o s.2)
        (elim (Bool-cases (leb (lo + r.len) o.base)) [
          | inl fits ↦ rw fits (first_gap lo o [] s (ground arith))
          | inr tight ↦ rw tight (last_gap lo o s h.0 (ground arith))
        ])
  find_loop-Placed lo o (n ∷ os) s h le =
      let e : (lo + r.len) % u64_mod ≡ lo + r.len = omega arith in
      rw (e, end_of-eq o s.2)
        (elim (Bool-cases (leb (lo + r.len) o.base)) [
          | inl fits ↦ rw fits (first_gap lo o (n ∷ os) s (ground arith))
          | inr tight ↦ rw tight (
              next_gap lo o (n ∷ os) _ _ s (ground arith)
                (find_loop-Placed (o.base + o.len) n os s.3 h.1 h.0))
        ])

  find_base-Placed :
      (space : VmSpace) (os : List VmObject)
      → Sorted space.start_address os
      → AllBelow hi os
      → space.start_address ≤ hi
      → let (b, ys) = find_base space r os in Placed r space.start_address os b ys
  unfolding find_base
  find_base-Placed space [] s h le = record {
    above = omega arith;
    below = omega arith;
    inserted = here;
    sorted = (omega arith, pos, omega arith, tt);
    apart = tt;
    lowest = λ c k a. k;
  }
  find_base-Placed space (o ∷ os) s h le = find_loop-Placed space.start_address o os s h le

-- On an ordered space whose ranges, and start, end low enough for the length not to wrap,
-- `space_find_free_range` always succeeds for a range that is not empty: it puts the range at the
-- lowest base, from the start address on, where it overlaps no other range, and keeps the list in
-- order.
pub find_free_range-Placed :
    (space : VmSpace) (r : VmObject) (hi : ℕ)
    → IsOrdered space
    → 0 < r.len
    → hi + r.len < u64_mod
    → AllBelow hi space.objects
    → space.start_address ≤ hi
    → (space' : VmSpace) × (b : ℕ) × (find_free_range space r ≡ some (space', b))
      × Placed r space.start_address space.objects b space'.objects
      × IsOrdered space'
unfolding find_free_range
find_free_range-Placed space r hi v pos room below le =
    let (b, os) = find_base space r space.objects in
    let p : Placed r space.start_address space.objects b os =
      find_base-Placed r hi pos room space space.objects v.sorted below le in
    let ne : (b == 0) ≡ false = ground (arith, p.above, v.start_pos) in
    (
      record space { objects = os },
      b,
      rw ne,
      p,
      record { start_pos = v.start_pos; sorted = p.sorted },
    )

-- When no base lets the range fit inside the space, `space_find_free_range` does not report it: it
-- succeeds with a range that reaches to the end address or beyond it.
pub find_free_range-ignores_end :
    (space : VmSpace) (r : VmObject) (hi : ℕ)
    → IsOrdered space
    → 0 < r.len
    → hi + r.len < u64_mod
    → AllBelow hi space.objects
    → space.start_address ≤ hi
    → ((b : ℕ) → ¬ Fits space (placed_at r b))
    → (space' : VmSpace) × (b : ℕ) × (find_free_range space r ≡ some (space', b))
      × (space.end_address ≤ b + r.len)
find_free_range-ignores_end space r hi v pos room below le full =
    let (space', b, e, p, w) = find_free_range-Placed space r hi v pos room below le in
    (
      space',
      b,
      e,
      elim (dec_lt (b + r.len) space.end_address) [
        | yes lt ↦ absurd (full b (p.above, lt, p.apart))
        | no ge ↦ omega arith
      ],
    )

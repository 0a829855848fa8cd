-- ===== src/Mm/VmSpace/Replace.antt =====
-- MAP_FIXED in kernel/mm/vmm.c: what `space_replace_before` leaves of the range that it cuts.
use monolith.Mm.VmSpace.{VmObject, check_loop, get_range, replace_before}
use monolith.Mm.VmSpace.Ranges.{Sorted, covers, end_of-eq, get_range-below}
use monolith.Prelude.{
  Bool-cases, List, [], arith, inl, inr, none, some, true, ℕ, ◌+◌, ◌<◌, ◌∷◌, ◌≡◌, ◌≤◌,
}
use monolith.Prelude.Words.{sub64, u64_mod}

get_range-le :
    (os : List VmObject) (lo addr : ℕ) (cur : VmObject)
    → Sorted lo os
    → get_range os addr ≡ some cur
    → lo ≤ addr
unfolding get_range
get_range-le [] lo addr cur s e = cc
get_range-le (o ∷ os) lo addr cur s e =
    ground (arith, end_of-eq o s.2, get_range-le os (o.base + o.len) addr cur s.3)

replaced_none :
    (r o : VmObject) (addr lo : ℕ) (os : List VmObject)
    → Sorted lo (o ∷ os)
    → r.base + r.len < u64_mod
    → o.base ≤ addr
    → addr < r.base
    → r.base < o.base + o.len
    → get_range (replace_before o r os) addr ≡ none
unfolding replace_before get_range sub64
replaced_none r o addr lo os s wrap le before inside =
    ground (arith, end_of-eq r wrap, get_range-below os (o.base + o.len) addr s.3)

-- When a range is put over an existing one by replacement and starts behind that one's base, the
-- call succeeds, and every address of the old range in front of the new one is in no range any more.
pub get_range-replaced :
    (r cur : VmObject) (lo addr : ℕ) (os : List VmObject)
    → Sorted lo os
    → 0 < r.len
    → r.base + r.len < u64_mod
    → get_range os addr ≡ some cur
    → addr < r.base
    → r.base < cur.base + cur.len
    → (ys : List VmObject) × (check_loop r true os ≡ some ys) × (get_range ys addr ≡ none)
unfolding get_range check_loop
get_range-replaced r cur lo addr [] s pos wrap found before cut = cc
get_range-replaced r cur lo addr (o ∷ os) s pos wrap found before cut =
    elim (Bool-cases (covers o addr)) [
      | inl hit ↦
          let same : o ≡ cur = ground (arith, end_of-eq o s.2) in
          let inside : r.base < o.base + o.len = rw same cut in
          (
            replace_before o r os,
            ground (arith, end_of-eq o s.2),
            replaced_none r o addr lo os s wrap (ground arith) before inside,
          )
      | inr past ↦
          let (ys, e, gone) =
            get_range-replaced r cur (o.base + o.len) addr os s.3 pos wrap
              (ground (arith, end_of-eq o s.2)) before cut in
          let le =
            get_range-le os (o.base + o.len) addr cur s.3 (ground (arith, end_of-eq o s.2)) in
          (o ∷ ys, ground (arith, end_of-eq o s.2), ground (arith, end_of-eq o s.2))
    ]

-- ===== src/Mm/VmSpace.antt =====
-- kernel/mm/vmm.c: the bookkeeping of the ranges of an address space (kernel/include/mm/vm_space.h).
-- The circular list of objects is the sequence of its entries. Each call holds the space's mutex
-- from its first access to the list to its last, so it is one step. The page tables are not in
-- this part.
pub mod Ranges
pub mod Check
pub mod Find
pub mod Replace
use mathlib.Core.Option
use monolith.Prelude.{
  Bool, List, Option, [], if◌then◌else◌, leb, ltb, none, some, ℕ, ◌&&◌, ◌-◌, ◌==◌, ◌∷◌,
}
use monolith.Prelude.Words.{add64, sub64}

-- `struct vm_object`, without its links and its operations
pub record VmObject : Type 0 where
  pub base : ℕ
  pub len : ℕ
  pub prot : ℕ
  pub flags : ℕ
  pub file : Option ℕ
  pub offset : ℕ

pub record VmSpace : Type 0 where
  pub objects : List VmObject
  pub start_address : ℕ
  pub end_address : ℕ

-- `base + length`, in 64 bits
unfoldable pub end_of : VmObject → ℕ
unfolding add64
end_of o = add64 o.base o.len

-- `space_replace_before` at the entry `before`, with the entries behind it. An entry that it unlinks
-- is not freed.
unfoldable pub replace_before : VmObject → VmObject → List VmObject → List VmObject
unfolding end_of sub64
replace_before before range rest =
    let base = end_of range in
    let moved = sub64 base before.base in
    if leb before.len moved
    then range ∷ rest
    else range ∷ record before { base = base; len = before.len - moved } ∷ rest

-- `space_replace_after` refuses.
unfoldable pub replace_after : VmObject → VmObject → List VmObject → Option (List VmObject)
replace_after after range rest = none

-- The loop of `space_check_range` and the insertion that follows it, from an entry on. `none` is
-- the result false.
unfoldable pub check_loop : VmObject → Bool → List VmObject → Option (List VmObject)
unfolding end_of replace_before replace_after
check_loop range replace [] = some (range ∷ [])
check_loop range replace (cur ∷ rest) =
    let later = Option.map (λ os. cur ∷ os) (check_loop range replace rest) in
    if leb cur.base range.base
    then (if ltb range.base (end_of cur)
        then (if replace then some (replace_before cur range rest) else none)
        else later)
    else (if ltb cur.base (end_of range)
        then (if replace then replace_after cur range rest else none)
        else some (range ∷ cur ∷ rest))

unfoldable pub check_range : VmSpace → VmObject → Bool → Option VmSpace
unfolding check_loop
check_range space range replace =
    if ltb range.base space.start_address
    then none
    else (if leb space.end_address (end_of range)
        then none
        else Option.map (λ os. record space { objects = os })
            (check_loop range replace space.objects))

-- The loop of `space_find_free_range` from the entry `cur` on, where `prev_end` is the end of the
-- entry before it: the entry's list with the range put in, and the chosen base.
unfoldable pub find_loop : VmObject → ℕ → VmObject → List VmObject → ℕ × List VmObject
unfolding end_of add64
find_loop range prev_end cur [] =
    if leb (add64 prev_end range.len) cur.base
    then (prev_end, record range { base = prev_end } ∷ cur ∷ [])
    else (end_of cur, cur ∷ record range { base = end_of cur } ∷ [])
find_loop range prev_end cur (next ∷ rest) =
    let (base, os) = find_loop range (end_of cur) next rest in
    if leb (add64 prev_end range.len) cur.base
    then (prev_end, record range { base = prev_end } ∷ cur ∷ next ∷ rest)
    else (base, cur ∷ os)

-- the base that `space_find_free_range` chooses and its new list, before it tests the base for 0
unfoldable pub find_base : VmSpace → VmObject → List VmObject → ℕ × List VmObject
unfolding find_loop
find_base space range [] = (space.start_address, record range { base = space.start_address } ∷ [])
find_base space range (cur ∷ rest) = find_loop range space.start_address cur rest

-- The result is the new space and the base that `range` gets.
unfoldable pub find_free_range : VmSpace → VmObject → Option (VmSpace × ℕ)
unfolding find_base
find_free_range space range =
    let (base, os) = find_base space range space.objects in
    if base == 0 then none else some (record space { objects = os }, base)

-- `vm_space_get_range`
unfoldable pub get_range : List VmObject → ℕ → Option VmObject
unfolding end_of
get_range [] addr = none
get_range (cur ∷ rest) addr =
    if leb cur.base addr && ltb addr (end_of cur) then some cur else get_range rest addr

-- The unlinking of `vm_space_unmap`: the first entry that starts at `addr`, and the others.
unfoldable pub take_range : List VmObject → ℕ → Option (VmObject × List VmObject)
take_range [] addr = none
take_range (cur ∷ rest) addr =
    let later =
      Option.map (λ (r : VmObject × List VmObject). (r.0, cur ∷ r.1)) (take_range rest addr) in
    if cur.base == addr then some (cur, rest) else later

-- ===== src/Mm/MemoryMap/Reserve.antt =====
-- Where `memmap_reserve` of kernel/mm/memory_map.c takes memory from.
use mathlib.Core.Option
use monolith.Mm.MemoryMap.{
  Region, RegionType, acpi_nvs, acpi_tables, allocated, dmap_base, has_room, is_usable,
  max_memmap_regions, memmap_reserve, reserve_loop, reserved, usable,
}
use monolith.Prelude.{
  ==_iff, Bool-cases, List, Option, Option-cases, [], ap, arith, false, inl, inr, length, none,
  refl, some, true, ℕ, ◌%◌, ◌*◌, ◌++◌, ◌+◌, ◌-◌, ◌/◌, ◌<◌, ◌==◌, ◌∷◌, ◌≡◌, ◌≤◌, ◌⊎◌,
}
use monolith.Prelude.Words.{add64, align_up, align_up-page, page_size, u64_mod}

-- the regions end at least a page below the end of the address space
abbrev pub AllLow : List Region → Type 0
AllLow [] = Unit
AllLow (r ∷ rs) = (r.end + page_size ≤ u64_mod) × AllLow rs

-- usable memory that is not empty and holds `size` bytes
abbrev pub Room : ℕ → Region → Type 0
Room size r = (r.kind ≡ usable) × (r.begin < r.end) × (r.begin + size ≤ r.end)

abbrev pub NoneWithRoom : ℕ → List Region → Type 0
NoneWithRoom size [] = Unit
NoneWithRoom size (r ∷ rs) = ¬ Room size r × NoneWithRoom size rs

is_usable-kind : (k : RegionType) → is_usable k ≡ true → k ≡ usable
is_usable-kind usable e = refl
is_usable-kind acpi_tables e = cc
is_usable-kind acpi_nvs e = cc
is_usable-kind reserved e = cc
is_usable-kind allocated e = cc

has_room-Room : (size : ℕ) (r : Region) → has_room size r ≡ true → Room size r
unfolding has_room
has_room-Room size r e =
    (is_usable-kind r.kind (ground (arith, e)), ground (arith, e), ground (arith, e))

Room-has_room : (size : ℕ) (r : Region) → Room size r → has_room size r ≡ true
unfolding has_room
Room-has_room size r h = rw (h.0) (ground (arith, h.1, h.2))

no-Room : (size : ℕ) (r : Region) → has_room size r ≡ false → ¬ Room size r
no-Room size r e = λ h. ground (arith, e, Room-has_room size r h)

-- `ys` is `xs` where the first region with room begins at `cut` in place of `begin`, which is the
-- first page boundary behind the reserved bytes.
pub record Cut (size : ℕ) (xs ys : List Region) (begin cut : ℕ) : Type 0 where
  pub front : List Region
  pub back : List Region
  pub region : Region
  pub before : xs ≡ front ++ (region ∷ back)
  pub after : ys ≡ front ++ (record region { begin = cut } ∷ back)
  pub first : NoneWithRoom size front
  pub room : Room size region
  pub starts : region.begin ≡ begin
  pub covers : begin + size ≤ cut
  pub tight : cut < begin + size + page_size
  pub aligned : cut % page_size ≡ 0

abbrev pub CutOk : ℕ → List Region → Option (List Region × ℕ × ℕ) → Type 0
CutOk size xs none = NoneWithRoom size xs
CutOk size xs (some (ys, begin, cut)) = Cut size xs ys begin cut

CutOk-cons :
    (size : ℕ) (r : Region) (xs : List Region) (o : Option (List Region × ℕ × ℕ))
    → ¬ Room size r
    → CutOk size xs o
    → CutOk size (r ∷ xs) (Option.map (λ (x : List Region × ℕ × ℕ). (r ∷ x.0, x.1, x.2)) o)
CutOk-cons size r xs none e c = (e, c)
CutOk-cons size r xs (some (ys, begin, cut)) e c = record {
  front = r ∷ c.front;
  back = c.back;
  region = c.region;
  before = ap (λ l. r ∷ l) c.before;
  after = ap (λ l. r ∷ l) c.after;
  first = (e, c.first);
  room = c.room;
  starts = c.starts;
  covers = c.covers;
  tight = c.tight;
  aligned = c.aligned;
}

has_room-le : (size : ℕ) (r : Region) → has_room size r ≡ true → r.begin + size ≤ r.end
unfolding has_room
has_room-le size r e = ground arith

cut-value :
    (size : ℕ) (r : Region)
    → r.end + page_size ≤ u64_mod
    → has_room size r ≡ true
    → align_up (add64 r.begin size) page_size
      ≡ (r.begin + size + (page_size - 1)) / page_size * page_size
unfolding add64
cut-value size r low e =
    let le = has_room-le size r e in
    let same : (r.begin + size) % u64_mod ≡ r.begin + size = omega arith in
    rw (add64, same) (align_up-page (r.begin + size) (omega arith))

reserve_loop-CutOk :
    (size : ℕ) (xs : List Region) → AllLow xs → CutOk size xs (reserve_loop size xs)
unfolding reserve_loop
reserve_loop-CutOk size [] low = tt
reserve_loop-CutOk size (r ∷ xs) low = elim (Bool-cases (has_room size r)) [
  | inl e ↦
      let v = cut-value size r low.0 e in
      rw (reserve_loop, e)
        (record {
          front = [];
          back = xs;
          region = r;
          before = refl;
          after = refl;
          first = tt;
          room = has_room-Room size r e;
          starts = refl;
          covers = omega (arith, v);
          tight = omega (arith, v);
          aligned = omega (arith, v);
        })
  | inr e ↦
      rw (reserve_loop, e)
        (CutOk-cons size r xs _ (no-Room size r e) (reserve_loop-CutOk size xs low.1))
]

-- what `memmap_reserve` must do for each result
abbrev pub Reserved : ℕ → List Region → Option (List Region × ℕ) → Type 0
Reserved size xs none = NoneWithRoom size xs ⊎ (length xs ≡ max_memmap_regions)
Reserved size xs (some (ys, addr)) =
    (zs : List Region) × (begin : ℕ) × (cut : ℕ) × Cut size xs zs begin cut
    × (ys ≡ zs ++ (record { begin = begin; end = cut; kind = allocated } ∷ []))
    × (addr ≡ (begin + dmap_base) % u64_mod)

-- On a map whose regions end a page below the end of the address space, `memmap_reserve` returns
-- nullptr only if no usable region is large enough or the map is full. Otherwise it takes the first
-- such region, returns the direct mapping of its begin, lets the region begin at the first page
-- boundary from the end of the reserved bytes on, and adds an allocated region for what is in front
-- of that boundary; every other region is as it was. The boundary may lie behind the region's end.
pub memmap_reserve-Reserved :
    (xs : List Region) (size : ℕ) → AllLow xs → Reserved size xs (memmap_reserve xs size)
unfolding memmap_reserve add64
memmap_reserve-Reserved xs size low = elim (Option-cases (reserve_loop size xs)) [
  | inl z ↦ rw (memmap_reserve, z) (inl (rw z at (reserve_loop-CutOk size xs low)))
  | inr ((zs, begin, cut), z) ↦
      let c : Cut size xs zs begin cut = rw z at (reserve_loop-CutOk size xs low) in
      elim (Bool-cases (length xs == max_memmap_regions)) [
        | inl full ↦
            rw (memmap_reserve, z, full) (inr ((==_iff (length xs) max_memmap_regions).0 full))
        | inr space ↦ rw (memmap_reserve, z, space) (zs, begin, cut, c, refl, refl)
      ]
]

-- ===== src/Libk/Memory.antt =====
-- kernel/libk/string.c: the memory routines, on a memory that is a sequence of bytes with its index
-- as the address, and the string routines, on the bytes of a string. A string is read as if 0
-- bytes followed it.
pub mod Copy
pub mod Compare
use monolith.Prelude.{
  List, [], drop, get_or, if◌then◌else◌, ltb, not, replicate, set, suc, zero, ℕ, ◌%◌, ◌&&◌, ◌+◌,
  ◌-◌, ◌==◌, ◌∷◌,
}

-- The loop of `memcpy`: a byte at a time, in ascending order.
unfoldable pub memcpy : List ℕ → ℕ → ℕ → ℕ → List ℕ
memcpy mem dest src zero = mem
memcpy mem dest src (suc n) = memcpy (set mem dest (get_or mem src 0)) (dest + 1) (src + 1) n

unfoldable pub memset : List ℕ → ℕ → ℕ → ℕ → List ℕ
memset mem dest byte zero = mem
memset mem dest byte (suc n) = memset (set mem dest (byte % 256)) (dest + 1) byte n

-- The loop of `memmove` for a source in front of the destination: it writes `pdest[i - 1]` and reads
-- `psrc[i - 1]`, also in ascending order.
unfoldable pub memmove_loop : List ℕ → ℕ → ℕ → ℕ → List ℕ
memmove_loop mem dest src zero = mem
memmove_loop mem dest src (suc n) =
    memmove_loop (set mem (dest - 1) (get_or mem (src - 1) 0)) (dest + 1) (src + 1) n

unfoldable pub memmove : List ℕ → ℕ → ℕ → ℕ → List ℕ
unfolding memcpy memmove_loop
memmove mem dest src n =
    if ltb dest src
    then memcpy mem dest src n
    else (if ltb src dest then memmove_loop mem dest src n else mem)

pub data Sign : Type 0 where
  negative none_differs positive : Sign

unfoldable pub memcmp : List ℕ → List ℕ → ℕ → Sign
memcmp p1 p2 zero = none_differs
memcmp p1 p2 (suc n) =
    let a = get_or p1 0 0 in
    let b = get_or p2 0 0 in
    let rest = memcmp (drop 1 p1) (drop 1 p2) n in
    if a == b then rest else (if ltb a b then negative else positive)

unfoldable pub strlen : List ℕ → ℕ
strlen [] = 0
strlen (c ∷ s) = if c == 0 then 0 else suc (strlen s)

-- the `n` bytes that `strncpy` writes
unfoldable pub strncpy : List ℕ → ℕ → List ℕ
strncpy s zero = []
strncpy [] (suc n) = 0 ∷ strncpy [] n
strncpy (c ∷ s) (suc n) = if c == 0 then replicate (suc n) 0 else c ∷ strncpy s n

-- the two bytes whose difference `strncmp` returns
unfoldable pub strncmp : List ℕ → List ℕ → ℕ → ℕ × ℕ
strncmp s d zero = (0, 0)
strncmp s d (suc n) =
    let a = get_or s 0 0 in
    let b = get_or d 0 0 in
    let rest = strncmp (drop 1 s) (drop 1 d) n in if not (a == 0) && (a == b) then rest else (a, b)

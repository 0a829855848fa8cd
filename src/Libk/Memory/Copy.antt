-- ===== src/Libk/Memory/Copy.antt =====
-- What `memcpy`, `memset` and `memmove` of kernel/libk/string.c leave in memory.
use native.Mathlib.Decide.{ℕ_discrete}
use monolith.Libk.Memory.{memcpy, memmove, memmove_loop, memset}
use monolith.Prelude.{
  ==-ne, ==-self, ==_iff, Bool, Bool-cases, List, arith, false, get_or, get_or-set_ne,
  get_or-set_self, if◌then◌else◌, inl, inr, leb, length, length-set, ltb, refl, set, suc, true,
  zero, ℕ, ◌%◌, ◌&&◌, ◌+◌, ◌-◌, ◌<◌, ◌==◌, ◌∙◌, ◌≡◌, ◌≢◌, ◌≤◌, ◌⊎◌,
}

abbrev pub in_block : ℕ → ℕ → ℕ → Bool
in_block start n k = leb start k && ltb k (start + n)

get_or-set :
    (xs : List ℕ) (i j v : ℕ)
    → i < length xs
    → get_or (set xs i v) j 0 ≡ (if i == j then v else get_or xs j 0)
get_or-set xs i j v h = elim (ℕ_discrete i j) [
  | yes e ↦ rw (← e, ==-self i) (get_or-set_self xs i v 0 h)
  | no ne ↦ rw (==-ne i j ne) (get_or-set_ne xs i j v 0 ne)
]

-- `memcpy` within memory, where the source does not start in front of a destination that it
-- overlaps, puts each source byte at its place and changes nothing else.
pub memcpy-Copied :
    (mem : List ℕ) (dest src n k : ℕ)
    → dest + n ≤ length mem
    → ((dest ≤ src) ⊎ (src + n ≤ dest))
    → get_or (memcpy mem dest src n) k 0
      ≡ (if in_block dest n k then get_or mem (src + (k - dest)) 0 else get_or mem k 0)
unfolding memcpy
memcpy-Copied mem dest src zero k fits apart = ground arith
memcpy-Copied mem dest src (suc n) k fits apart =
    let v = get_or mem src 0 in
    let rest =
      memcpy-Copied (set mem dest v) (dest + 1) (src + 1) n k (omega (arith, length-set mem dest v))
        (elim apart [ inl le ↦ inl (omega arith) | inr le ↦ inr (omega arith) ]) in
    rest ∙ (elim (ℕ_discrete dest k) [
      | yes e ↦
          let later : in_block (dest + 1) n k ≡ false = ground arith in
          let now : in_block dest (suc n) k ≡ true = ground arith in
          let start : src + (k - dest) ≡ src = omega arith in
          rw (later, now, start, get_or-set mem dest k v (omega arith), (==_iff dest k).1 e) refl
      | no ne ↦ elim (Bool-cases (in_block (dest + 1) n k)) [
        | inl later ↦
            let now : in_block dest (suc n) k ≡ true = ground arith in
            let above : dest + 1 ≤ k = ground arith in
            let below : k < dest + 1 + n = ground arith in
            let same : src + 1 + (k - (dest + 1)) ≡ src + (k - dest) = omega arith in
            let differ : dest ≢ src + (k - dest) = elim apart [
              | inl le ↦ omega arith
              | inr le ↦ omega arith
            ] in
            rw (later, now, same, get_or-set_ne mem dest (src + (k - dest)) v 0 differ) refl
        | inr later ↦
            let now : in_block dest (suc n) k ≡ false = ground arith in
            rw (later, now, get_or-set_ne mem dest k v 0 ne) refl
      ]
    ])

-- `memset` within memory fills the destination with the low byte of its argument and changes nothing
-- else.
pub memset-Filled :
    (mem : List ℕ) (dest byte n k : ℕ)
    → dest + n ≤ length mem
    → get_or (memset mem dest byte n) k 0
      ≡ (if in_block dest n k then byte % 256 else get_or mem k 0)
unfolding memset
memset-Filled mem dest byte zero k fits = ground arith
memset-Filled mem dest byte (suc n) k fits =
    memset-Filled (set mem dest (byte % 256)) (dest + 1) byte n k
      (omega (arith, length-set mem dest (byte % 256)))
    ∙ rw (get_or-set mem dest k (byte % 256) (omega arith)) (ground arith)

memmove_loop-is_memcpy :
    (mem : List ℕ) (dest src n : ℕ)
    → 0 < dest
    → 0 < src
    → memmove_loop mem dest src n ≡ memcpy mem (dest - 1) (src - 1) n
unfolding memmove_loop memcpy
memmove_loop-is_memcpy mem dest src zero d s = refl
memmove_loop-is_memcpy mem dest src (suc n) d s =
    let to : dest - 1 + 1 ≡ dest + 1 - 1 = omega arith in
    let from : src - 1 + 1 ≡ src + 1 - 1 = omega arith in
    rw (to, from)
      (memmove_loop-is_memcpy (set mem (dest - 1) (get_or mem (src - 1) 0)) (dest + 1) (src + 1) n
        (omega arith) (omega arith))

-- `memmove` to a lower address copies each byte, overlap or not, and changes nothing else.
pub memmove-down :
    (mem : List ℕ) (dest src n k : ℕ)
    → dest < src
    → dest + n ≤ length mem
    → get_or (memmove mem dest src n) k 0
      ≡ (if in_block dest n k then get_or mem (src + (k - dest)) 0 else get_or mem k 0)
unfolding memmove
memmove-down mem dest src n k lt fits =
    let down : ltb dest src ≡ true = ground arith in
    rw (memmove, down) (memcpy-Copied mem dest src n k fits (inl (omega arith)))

-- `memmove` to a higher address, from one above 0 and without overlap, copies the bytes one place
-- too low: it changes the byte in front of the destination, and never the destination's last byte.
pub memmove-up :
    (mem : List ℕ) (dest src n k : ℕ)
    → 0 < src
    → src + n < dest
    → dest + n ≤ length mem
    → get_or (memmove mem dest src n) k 0 ≡ (
        if in_block (dest - 1) n k
        then get_or mem (src - 1 + (k - (dest - 1))) 0
        else get_or mem k 0)
unfolding memmove
memmove-up mem dest src n k pos apart fits =
    let down : ltb dest src ≡ false = ground arith in
    let up : ltb src dest ≡ true = ground arith in
    rw (memmove, down, up, memmove_loop-is_memcpy mem dest src n (omega arith) pos)
      (memcpy-Copied mem (dest - 1) (src - 1) n k (omega arith) (inr (omega arith)))

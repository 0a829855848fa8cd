-- ===== src/Libk/Format.antt =====
-- kernel/libk/vsprintf.c: the printing of numbers. A text is the sequence of its bytes, and the
-- result here is what a call appends to the buffer.
pub mod Digits
pub mod Numbers
use monolith.Prelude.{
  Bool, List, Option, [], bit_and, if◌then◌else◌, length, ltb, none, not, replicate, some, suc,
  zero, ℕ, ◌%◌, ◌&&◌, ◌++◌, ◌+◌, ◌-◌, ◌/◌, ◌==◌, ◌||◌, ◌∷◌,
}

-- `digits[d]`
unfoldable pub digit_char : ℕ → ℕ
digit_char d = if ltb d 10 then 48 + d else 87 + d

-- The loop that fills `tmp_str`, lowest digit first. A number of 64 bits has at most 64 digits.
unfoldable pub digit_loop : ℕ → ℕ → ℕ → List ℕ
unfolding digit_char
digit_loop zero base num = []
digit_loop (suc fuel) base num =
    let rest = digit_loop fuel base (num / base) in
    digit_char (num % base) ∷ (if num / base == 0 then [] else rest)

-- the loop that copies `tmp_str` from its end
unfoldable pub backwards : List ℕ → List ℕ
backwards [] = []
backwards (c ∷ cs) = backwards cs ++ (c ∷ [])

abbrev pub flag_signed : ℕ
flag_signed = 1

abbrev pub flag_zero : ℕ
flag_zero = 2

-- the character that the flags choose for padding, as often as the length falls short of the width
unfoldable pub padding_of : ℕ → ℕ → ℕ → List ℕ
padding_of flags width len =
    replicate (width - len) (if bit_and flags flag_zero == 0 then 32 else 48)

-- `num_to_str` of the number with the sign and the magnitude, for a width of at least 0. The result is
-- `none` where the characters need more than the 64 bytes of `tmp_str`.
unfoldable pub num_to_str : Bool → ℕ → ℕ → ℕ → ℕ → Option (List ℕ)
unfolding digit_loop backwards padding_of
num_to_str is_negative num base flags width =
    let ds = digit_loop 64 base num in
    let tmp = if is_negative && not (bit_and flags flag_signed == 0) then ds ++ (45 ∷ []) else ds in
    if ltb base 2 || ltb 16 base
    then some []
    else (if ltb 64 (length tmp)
        then none
        else some (padding_of flags width (length tmp) ++ backwards tmp))

-- `ptr_to_str`
unfoldable pub ptr_to_str : ℕ → ℕ → ℕ → List ℕ
unfolding digit_loop backwards padding_of
ptr_to_str ptr flags width =
    let tmp = digit_loop 64 16 ptr in
    48 ∷ 120 ∷ (padding_of flags width (length tmp) ++ backwards tmp)

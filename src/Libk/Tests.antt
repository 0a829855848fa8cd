-- ===== src/Libk/Tests.antt =====
-- Runs of kernel/libk at concrete bytes and numbers, and its theorems at them.
use monolith.Libk.Format.{num_to_str, padding_of, ptr_to_str}
use monolith.Libk.Format.Digits.{read_digits}
use monolith.Libk.Format.Numbers.{fill, num_to_str-read, ptr_to_str-read}
use monolith.Libk.Memory.{memcmp, memcpy, memmove, memset, strlen, strncmp, strncpy}
use monolith.Libk.Memory.Compare.{lexicographic, memcmp-lexicographic, strncmp-strncpy}
use monolith.Libk.Memory.Copy.{memcpy-Copied, memmove-down, memmove-up, memset-Filled}
use monolith.Prelude.{
  List, [], arith, get_or, inl, length, none, refl, some, true, ℕ, ◌++◌, ◌-◌, ◌↔◌, ◌∷◌, ◌≡◌,
}

abbrev ten_bytes : List ℕ
ten_bytes = 10 ∷ 11 ∷ 12 ∷ 13 ∷ 14 ∷ 15 ∷ 16 ∷ 17 ∷ 18 ∷ 19 ∷ []

memmove_runs : memmove ten_bytes 6 1 3 ≡ 10 ∷ 11 ∷ 12 ∷ 13 ∷ 14 ∷ 10 ∷ 11 ∷ 12 ∷ 18 ∷ 19 ∷ []
unfolding memmove
memmove_runs = refl

strlen_runs : strlen (65 ∷ 66 ∷ 0 ∷ 67 ∷ []) ≡ 2
unfolding strlen
strlen_runs = refl

memcpy_runs : get_or (memcpy ten_bytes 1 3 4) 2 0 ≡ 14
memcpy_runs = memcpy-Copied ten_bytes 1 3 4 2 (omega arith) (inl (omega arith))

memset_runs : get_or (memset ten_bytes 1 300 4) 2 0 ≡ 44
memset_runs = memset-Filled ten_bytes 1 300 4 2 (omega arith)

memmove_down_runs : get_or (memmove ten_bytes 1 2 5) 5 0 ≡ 16
memmove_down_runs = memmove-down ten_bytes 1 2 5 5 (omega arith) (omega arith)

memmove-up_runs : get_or (memmove ten_bytes 6 1 3) 5 0 ≡ 10
memmove-up_runs = memmove-up ten_bytes 6 1 3 5 (omega arith) (omega arith) (omega arith)

memcmp_runs :
    memcmp (1 ∷ 2 ∷ 3 ∷ []) (1 ∷ 4 ∷ 0 ∷ []) 3 ≡ lexicographic (1 ∷ 2 ∷ 3 ∷ []) (1 ∷ 4 ∷ 0 ∷ [])
memcmp_runs = memcmp-lexicographic (1 ∷ 2 ∷ 3 ∷ []) (1 ∷ 4 ∷ 0 ∷ []) 3

strncmp_runs :
    ((strncmp (65 ∷ 0 ∷ 7 ∷ []) (65 ∷ []) 24).0 ≡ (strncmp (65 ∷ 0 ∷ 7 ∷ []) (65 ∷ []) 24).1)
    ↔ (strncpy (65 ∷ 0 ∷ 7 ∷ []) 24 ≡ strncpy (65 ∷ []) 24)
strncmp_runs = strncmp-strncpy (65 ∷ 0 ∷ 7 ∷ []) (65 ∷ []) 24

zero_padding_runs : num_to_str true 5 10 3 4 ≡ some (48 ∷ 48 ∷ 45 ∷ 53 ∷ [])
unfolding num_to_str
zero_padding_runs = refl

-- the lowest number of 64 bits, in base 2 and with its sign: 65 characters
overrun_runs : num_to_str true 0x8000000000000000 2 1 0 ≡ none
unfolding num_to_str
overrun_runs = refl

num_to_str-read_example :
    (text : List ℕ) × (num_to_str true 255 16 3 8
      ≡ some (fill 3 (8 - length (45 ∷ text)) ++ (45 ∷ text)))
    × (read_digits 16 0 text ≡ 255)
num_to_str-read_example = num_to_str-read true 255 16 3 8 (omega arith) (omega arith) (omega arith)

ptr_runs :
    (text : List ℕ) × (ptr_to_str 4096 2 16 ≡ 48 ∷ 120 ∷ (padding_of 2 16 (length text) ++ text))
    × (read_digits 16 0 text ≡ 4096)
ptr_runs = ptr_to_str-read 4096 2 16 (omega arith)

-- ===== src/Dev/Tty/Ring.antt =====
-- The bytes that wait in the ring buffer of kernel/dev/tty.c, in their order.
use monolith.Dev.Tty.{byte_at, copy_out, tty_buffer_size}
use monolith.Prelude.{
  List, [], ap, arith, drop, false, get_or, get_or-set_ne, get_or-set_self, length, ltb, refl, set,
  suc, sym, take, true, zero, ℕ, ◌%◌, ◌++◌, ◌+◌, ◌-◌, ◌<◌, ◌∙◌, ◌∷◌, ◌≡◌, ◌≢◌, ◌≤◌,
}

-- the `n` bytes from the place `h` on, around the end
abbrev pub contents : List ℕ → ℕ → ℕ → List ℕ
contents b h zero = []
contents b h (suc n) = get_or b (h % tty_buffer_size) 0 ∷ contents b (h + 1) n

pub contents-mod : (b : List ℕ) (h n : ℕ) → contents b (h % tty_buffer_size) n ≡ contents b h n
contents-mod b h zero = refl
contents-mod b h (suc n) =
    let here_same : h % tty_buffer_size % tty_buffer_size ≡ h % tty_buffer_size = omega arith in
    let next_same : (h % tty_buffer_size + 1) % tty_buffer_size ≡ (h + 1) % tty_buffer_size =
      omega arith in
    let moved : contents b (h % tty_buffer_size + 1) n ≡ contents b (h + 1) n =
      sym (contents-mod b (h % tty_buffer_size + 1) n)
      ∙ (rw next_same refl)
      ∙ contents-mod b (h + 1) n in
    rw (here_same, moved) refl

pub contents-set :
    (b : List ℕ) (h n tail c : ℕ)
    → length b ≡ tty_buffer_size
    → n < tty_buffer_size
    → (h + n) % tty_buffer_size ≡ tail
    → contents (set b tail c) h (suc n) ≡ contents b h n ++ (c ∷ [])
contents-set b h zero tail c len lt e =
    let same : h % tty_buffer_size ≡ tail = omega arith in
    let inside : tail < length b = omega arith in rw (same, get_or-set_self b tail c 0 inside) refl
contents-set b h (suc n) tail c len lt e =
    let differ : tail ≢ h % tty_buffer_size = omega arith in
    rw (get_or-set_ne b tail (h % tty_buffer_size) c 0 differ) (
      ap (λ cs. get_or b (h % tty_buffer_size) 0 ∷ cs)
        (contents-set b (h + 1) n tail c len (omega arith) (omega arith)))

pub take-contents : (b : List ℕ) (h m n : ℕ) → m ≤ n → take m (contents b h n) ≡ contents b h m
take-contents b h zero n le = refl
take-contents b h (suc m) zero le = absurd (omega arith)
take-contents b h (suc m) (suc n) le =
    ap (λ cs. get_or b (h % tty_buffer_size) 0 ∷ cs) (take-contents b (h + 1) m n (omega arith))

pub drop-contents : (b : List ℕ) (h m n : ℕ) → drop m (contents b h (m + n)) ≡ contents b (h + m) n
drop-contents b h zero n =
    let start : h + 0 ≡ h = omega arith in let all : 0 + n ≡ n = omega arith in rw (start, all) refl
drop-contents b h (suc m) n =
    let start : h + suc m ≡ h + 1 + m = omega arith in
    let all : suc m + n ≡ suc (m + n) = omega arith in rw (start, all) (drop-contents b (h + 1) m n)

pub copy-contents :
    (beyond : ℕ → ℕ) (b : List ℕ) (h n : ℕ)
    → h + n ≤ tty_buffer_size
    → copy_out beyond b h n ≡ contents b h n
unfolding copy_out byte_at
copy-contents beyond b h zero le = refl
copy-contents beyond b h (suc n) le =
    let inside : ltb h tty_buffer_size ≡ true = ground arith in
    let same : h % tty_buffer_size ≡ h = omega arith in
    rw (inside, same)
      (ap (λ cs. get_or b h 0 ∷ cs) (copy-contents beyond b (h + 1) n (omega arith)))

-- the first bytes of the memory behind the buffer, from an offset on
abbrev pub foreign : (ℕ → ℕ) → ℕ → ℕ → List ℕ
foreign beyond i zero = []
foreign beyond i (suc n) = beyond i ∷ foreign beyond (i + 1) n

pub copy-foreign :
    (beyond : ℕ → ℕ) (b : List ℕ) (i n : ℕ)
    → copy_out beyond b (tty_buffer_size + i) n ≡ foreign beyond i n
unfolding copy_out byte_at
copy-foreign beyond b i zero = refl
copy-foreign beyond b i (suc n) =
    let outside : ltb (tty_buffer_size + i) tty_buffer_size ≡ false = ground arith in
    let offset : tty_buffer_size + i - tty_buffer_size ≡ i = omega arith in
    let next : tty_buffer_size + i + 1 ≡ tty_buffer_size + (i + 1) = omega arith in
    rw (byte_at, outside, offset, next) (ap (λ cs. beyond i ∷ cs) (copy-foreign beyond b (i + 1) n))

pub copy-append :
    (beyond : ℕ → ℕ) (b : List ℕ) (h m n : ℕ)
    → copy_out beyond b h (m + n) ≡ copy_out beyond b h m ++ copy_out beyond b (h + m) n
unfolding copy_out
copy-append beyond b h zero n =
    let start : h + 0 ≡ h = omega arith in let all : 0 + n ≡ n = omega arith in rw (start, all) refl
copy-append beyond b h (suc m) n =
    let start : h + suc m ≡ h + 1 + m = omega arith in
    let all : suc m + n ≡ suc (m + n) = omega arith in
    rw (start, all) (ap (λ cs. byte_at beyond b h ∷ cs) (copy-append beyond b (h + 1) m n))

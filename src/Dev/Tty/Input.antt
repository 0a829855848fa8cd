-- ===== src/Dev/Tty/Input.antt =====
-- The input of kernel/dev/tty.c as a first-in first-out queue of bytes.
use monolith.Dev.Tty.{
  Tty, copy_out, has_flag, isig, returned, tty_buffer_size, tty_consume, tty_read, vintr,
}
use monolith.Dev.Tty.Ring.{
  contents, contents-mod, contents-set, copy-append, copy-contents, copy-foreign, drop-contents,
  foreign, take-contents,
}
use monolith.Prelude.{
  Bool, Bool-cases, List, [], arith, drop, false, get_or, if◌then◌else◌, inl, inr, length,
  length-set, ltb, refl, set, suc, sym, take, true, ℕ, ◌%◌, ◌&&◌, ◌++◌, ◌+◌, ◌-◌, ◌<◌, ◌==◌, ◌||◌,
  ◌∙◌, ◌∷◌, ◌≡◌, ◌≤◌,
}

-- the buffer has its size, and both places lie in it
pub record IsTty (t : Tty) : Type 0 where
  pub size : length t.read_buffer ≡ tty_buffer_size
  pub head_inside : t.read_buffer_head < tty_buffer_size
  pub tail_inside : t.read_buffer_tail < tty_buffer_size

-- how many bytes wait, and which
abbrev pub waiting_count : Tty → ℕ
waiting_count t = (t.read_buffer_tail + tty_buffer_size - t.read_buffer_head) % tty_buffer_size

abbrev pub waiting : Tty → List ℕ
waiting t = contents t.read_buffer t.read_buffer_head (waiting_count t)

stored-waiting :
    (t : Tty) (c : ℕ)
    → IsTty t
    → waiting_count t + 1 < tty_buffer_size
    → contents (set t.read_buffer t.read_buffer_tail c) t.read_buffer_head (
        ((t.read_buffer_tail + 1) % tty_buffer_size + tty_buffer_size - t.read_buffer_head)
        % tty_buffer_size)
      ≡ waiting t ++ (c ∷ [])
stored-waiting t c v room =
    let grown : ((t.read_buffer_tail + 1) % tty_buffer_size + tty_buffer_size - t.read_buffer_head)
          % tty_buffer_size
        ≡ suc (waiting_count t) =
      omega (arith, v.head_inside, v.tail_inside) in
    rw grown (
      contents-set t.read_buffer t.read_buffer_head (waiting_count t) t.read_buffer_tail c v.size
        (omega arith) (omega (arith, v.head_inside, v.tail_inside)))

stored-IsTty :
    (t : Tty) (c : ℕ)
    → IsTty t
    → IsTty (record t {
      read_buffer = set t.read_buffer t.read_buffer_tail c;
      read_buffer_tail = (t.read_buffer_tail + 1) % tty_buffer_size;
    })
stored-IsTty t c v = record {
  size = length-set t.read_buffer t.read_buffer_tail c ∙ v.size;
  head_inside = v.head_inside;
  tail_inside = omega arith;
}

abbrev is_interrupt : Tty → ℕ → Bool
is_interrupt t c =
    has_flag t.termios.c_lflag isig && (ltb c 128 && (c == get_or t.termios.c_cc vintr 0))

-- `tty_consume` puts the byte behind the bytes that wait if there are fewer than 4095, and drops it
-- otherwise. A byte is dropped, interrupts the foreground group, or wakes the readers.
pub tty_consume-waiting :
    (t : Tty) (c : ℕ)
    → IsTty t
    → let r = tty_consume t c in
      IsTty r.tty
      × (waiting r.tty ≡ (
          if ltb (waiting_count t + 1) tty_buffer_size then waiting t ++ (c ∷ []) else waiting t))
      × ((r.interrupts || r.wakes) ≡ ltb (waiting_count t + 1) tty_buffer_size)
unfolding tty_consume
tty_consume-waiting t c v =
    elim (Bool-cases ((t.read_buffer_tail + 1) % tty_buffer_size == t.read_buffer_head)) [
      | inl e ↦
          let full : ltb (waiting_count t + 1) tty_buffer_size ≡ false =
            ground (arith, v.head_inside, v.tail_inside) in
          rw (tty_consume, e, full) (v, refl, refl)
      | inr e ↦
          let room : ltb (waiting_count t + 1) tty_buffer_size ≡ true =
            ground (arith, v.head_inside, v.tail_inside) in
          let fits : waiting_count t + 1 < tty_buffer_size = ground arith in
          rw (tty_consume, e, room)
            (elim (Bool-cases (is_interrupt t c)) [
              | inl i ↦ rw i (stored-IsTty t c v, stored-waiting t c v fits, refl)
              | inr i ↦ rw i (stored-IsTty t c v, stored-waiting t c v fits, refl)
            ])
    ]

abbrev pub read_count : Tty → ℕ → ℕ
read_count t len = if ltb len (waiting_count t) then len else waiting_count t

rest-contents :
    (b : List ℕ) (h n left count : ℕ)
    → count ≡ n + left
    → contents b ((h + n) % tty_buffer_size) left ≡ drop n (contents b h count)
rest-contents b h n left count e = rw (e, drop-contents b h n left) (contents-mod b (h + n) left)

-- The head is moved by as many bytes as are read, and the rest still waits.
rest-waiting :
    (t : Tty) (n : ℕ)
    → IsTty t
    → n ≤ waiting_count t
    → waiting (record t { read_buffer_head = (t.read_buffer_head + n) % tty_buffer_size })
      ≡ drop n (waiting t)
rest-waiting t n v le =
    let all : waiting_count t ≡ n + (waiting_count t - n) = omega arith in
    let count : (t.read_buffer_tail + tty_buffer_size - (t.read_buffer_head + n) % tty_buffer_size)
          % tty_buffer_size
        ≡ waiting_count t - n =
      omega (arith, v.head_inside, v.tail_inside) in
    rw count
      (rest-contents t.read_buffer t.read_buffer_head n (waiting_count t - n) (waiting_count t) all)

copy-wrapped :
    (beyond : ℕ → ℕ) (b : List ℕ) (h m count : ℕ)
    → h < tty_buffer_size
    → tty_buffer_size - h ≤ count
    → copy_out beyond b h (tty_buffer_size - h + m)
      ≡ take (tty_buffer_size - h) (contents b h count) ++ foreign beyond 0 m
copy-wrapped beyond b h m count lt le =
    let end : h + (tty_buffer_size - h) ≡ tty_buffer_size + 0 = omega arith in
    rw
      (
        copy-append beyond b h (tty_buffer_size - h) m,
        end,
        copy-foreign beyond b 0 m,
        copy-contents beyond b h (tty_buffer_size - h) (omega arith),
        take-contents b h (tty_buffer_size - h) count le,
      )
      refl

read-step :
    (beyond : ℕ → ℕ) (pending : Bool) (t : Tty) (len : ℕ)
    → IsTty t
    → 0 < waiting_count t
    → tty_read beyond pending t len
      ≡ returned
          (record t {
            read_buffer_head = (t.read_buffer_head + read_count t len) % tty_buffer_size;
          })
          (copy_out beyond t.read_buffer t.read_buffer_head (read_count t len))
unfolding tty_read
read-step beyond pending t len v more =
    let differ : (t.read_buffer_head == t.read_buffer_tail) ≡ false =
      ground (arith, v.head_inside, v.tail_inside) in
    let count : (if ltb t.read_buffer_head t.read_buffer_tail
          then t.read_buffer_tail - t.read_buffer_head
          else tty_buffer_size - t.read_buffer_head + t.read_buffer_tail)
        ≡ waiting_count t =
      ground (arith, v.head_inside, v.tail_inside) in
    rw (tty_read, differ, count) refl

-- `tty_read` with bytes waiting, of which the read ones lie in front of the array's end, returns the
-- bytes that have waited longest, as many as are asked for or as there are, and leaves the others.
pub tty_read-waiting :
    (beyond : ℕ → ℕ) (pending : Bool) (t : Tty) (len : ℕ)
    → IsTty t
    → 0 < waiting_count t
    → t.read_buffer_head + read_count t len ≤ tty_buffer_size
    → (t' : Tty) × (tty_read beyond pending t len
        ≡ returned t' (take (read_count t len) (waiting t)))
      × IsTty t'
      × (waiting t' ≡ drop (read_count t len) (waiting t))
tty_read-waiting beyond pending t len v more fits =
    let n : ℕ = read_count t len in
    let le : read_count t len ≤ waiting_count t = ground arith in
    let same : copy_out beyond t.read_buffer t.read_buffer_head n ≡ take n (waiting t) =
      copy-contents beyond t.read_buffer t.read_buffer_head n fits
      ∙ sym (take-contents t.read_buffer t.read_buffer_head n (waiting_count t) le) in
    (
      record t { read_buffer_head = (t.read_buffer_head + n) % tty_buffer_size },
      rw (← same) (read-step beyond pending t len v more),
      record { size = v.size; head_inside = omega arith; tail_inside = v.tail_inside },
      rest-waiting t n v le,
    )

-- `tty_read` of more bytes than there are up to the end of the array, with more waiting, copies what
-- lies in memory behind the array in place of the bytes that wait at its front, which are dropped.
pub tty_read-wrapped :
    (beyond : ℕ → ℕ) (pending : Bool) (t : Tty) (m : ℕ)
    → IsTty t
    → tty_buffer_size - t.read_buffer_head + m ≤ waiting_count t
    → let fit = tty_buffer_size - t.read_buffer_head in
      (t' : Tty) × (tty_read beyond pending t (fit + m)
        ≡ returned t' (take fit (waiting t) ++ foreign beyond 0 m))
      × (waiting t' ≡ drop (fit + m) (waiting t))
tty_read-wrapped beyond pending t m v le =
    let fit : ℕ = tty_buffer_size - t.read_buffer_head in
    let whole : read_count t (fit + m) ≡ fit + m = ground arith in
    let same : copy_out beyond t.read_buffer t.read_buffer_head (fit + m)
        ≡ take fit (waiting t) ++ foreign beyond 0 m =
      copy-wrapped beyond t.read_buffer t.read_buffer_head m (waiting_count t) v.head_inside
        (omega arith) in
    (
      record t { read_buffer_head = (t.read_buffer_head + (fit + m)) % tty_buffer_size },
      rw (← same)
          (rw whole at (read-step beyond pending t (fit + m) v (omega (arith, v.head_inside)))),
      rest-waiting t (fit + m) v le,
    )

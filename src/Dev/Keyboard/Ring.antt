-- ===== src/Dev/Keyboard/Ring.antt =====
-- The ring of key events in kernel/dev/ps2.c as a queue.
use monolith.Dev.Keyboard.{
  KeyEvent, KeyRead, Keyboard, kbd_busy, kbd_event, kbd_nothing, kbd_read, no_event, owned_by,
  push_event, ring_size, table_of,
}
use monolith.Prelude.{
  &&_false, ==-ne, ==_iff, Bool, Bool-cases, List, [], ap, arith, false, get_or, get_or-set_ne,
  get_or-set_self, if◌then◌else◌, inl, inr, leb, length, length-set, ne_of_==, not, refl, set, suc,
  true, zero, ℕ, ◌%◌, ◌++◌, ◌+◌, ◌-◌, ◌<◌, ◌==◌, ◌||◌, ◌∙◌, ◌∷◌, ◌≡◌, ◌≢◌, ◌≤◌,
}

-- the `n` events from index `i` on, around the ring
unfoldable pub window : List KeyEvent → ℕ → ℕ → List KeyEvent
window ring i zero = []
window ring i (suc n) = get_or ring i no_event ∷ window ring ((i + 1) % ring_size) n

-- how many events wait, and which
abbrev pub waiting_count : Keyboard → ℕ
waiting_count k = (k.ring_tail + ring_size - k.ring_head) % ring_size

unfoldable pub keys_waiting : Keyboard → List KeyEvent
unfolding window
keys_waiting k = window k.ring k.ring_head (waiting_count k)

pub record IsKeyRing (k : Keyboard) : Type 0 where
  pub sized : length k.ring ≡ ring_size
  pub head_in : k.ring_head < ring_size
  pub tail_in : k.ring_tail < ring_size

window-set :
    (ring : List KeyEvent) (e : KeyEvent) (p n i : ℕ)
    → i < ring_size
    → p < ring_size
    → n ≤ (p + ring_size - i) % ring_size
    → window (set ring p e) i n ≡ window ring i n
unfolding window
window-set ring e p zero i hi hp h = refl
window-set ring e p (suc n) i hi hp h =
    rw (get_or-set_ne ring p i e no_event (λ same. omega arith)) (
      ap (λ xs. get_or ring i no_event ∷ xs)
        (window-set ring e p n ((i + 1) % ring_size) (omega arith) hp (omega arith)))

window-snoc :
    (ring : List KeyEvent) (n i : ℕ)
    → i < ring_size
    → window ring i (suc n) ≡ window ring i n ++ (get_or ring ((i + n) % ring_size) no_event ∷ [])
unfolding window
window-snoc ring zero i h = let e : (i + 0) % ring_size ≡ i = omega arith in rw e refl
window-snoc ring (suc n) i h =
    let e : ((i + 1) % ring_size + n) % ring_size ≡ (i + suc n) % ring_size = omega arith in
    ap (λ xs. get_or ring i no_event ∷ xs)
      (window-snoc ring n ((i + 1) % ring_size) (omega arith)
        ∙ ap (λ j. window ring ((i + 1) % ring_size) n ++ (get_or ring j no_event ∷ [])) e)

-- the event that `push_event` leaves at the tail
abbrev pub keys_queued : Keyboard → ℕ → Bool → KeyEvent
keys_queued k code released =
    let c = get_or (table_of k) code 0 in
    if not (c == 0)
    then record { key = c; pressed = not released }
    else if code == 0x1d
    then record { key = 0x1d; pressed = not released }
    else get_or k.ring k.ring_tail no_event

-- the ring that `push_event` leaves
abbrev written : Keyboard → ℕ → Bool → List KeyEvent
written k code released =
    if not (get_or (table_of k) code 0 == 0) || (code == 0x1d)
    then set k.ring k.ring_tail (keys_queued k code released)
    else k.ring

module _ (k : Keyboard) (r : IsKeyRing k) (code : ℕ) (released : Bool) (low : code ≤ 0x39) where
  push_full : waiting_count k ≡ 255 → push_event k code released ≡ k
  unfolding push_event
  push_full h =
      let full : ((k.ring_tail + 1) % ring_size == k.ring_head) ≡ true =
        (==_iff _ k.ring_head).1 (omega (arith, r.head_in, r.tail_in)) in
      rw (full, &&_false (leb code 0x39)) refl

  push_room :
      waiting_count k < 255
      → push_event k code released
        ≡ record k { ring = written k code released; ring_tail = (k.ring_tail + 1) % ring_size }
  unfolding push_event
  push_room h =
      let free : ((k.ring_tail + 1) % ring_size == k.ring_head) ≡ false =
        ==-ne ((k.ring_tail + 1) % ring_size) k.ring_head
          (λ same. omega (arith, r.head_in, r.tail_in)) in
      let in_table : leb code 0x39 ≡ true = ground arith in
      elim (Bool-cases (get_or (table_of k) code 0 == 0)) [
        | inr c ↦ rw (free, in_table, c) refl
        | inl c ↦ elim (Bool-cases (code == 0x1d)) [
          | inl d ↦ rw (free, in_table, c, d) refl
          | inr d ↦ rw (free, in_table, c, d) refl
        ]
      ]

  written-window :
      window (written k code released) k.ring_head (waiting_count k)
      ≡ window k.ring k.ring_head (waiting_count k)
  written-window = elim (Bool-cases (not (get_or (table_of k) code 0 == 0) || (code == 0x1d))) [
    | inl w ↦ rw w (
        window-set k.ring (keys_queued k code released) k.ring_tail (waiting_count k) k.ring_head
          r.head_in r.tail_in (omega arith))
    | inr w ↦ rw w refl
  ]

  written-tail : get_or (written k code released) k.ring_tail no_event ≡ keys_queued k code released
  written-tail = elim (Bool-cases (not (get_or (table_of k) code 0 == 0) || (code == 0x1d))) [
    | inl w ↦ rw w (
        get_or-set_self k.ring k.ring_tail (keys_queued k code released) no_event
          (omega (arith, r.sized, r.tail_in)))
    | inr w ↦ rw w (ground (arith, w))
  ]

  written-length : length (written k code released) ≡ ring_size
  written-length = elim (Bool-cases (not (get_or (table_of k) code 0 == 0) || (code == 0x1d))) [
    | inl w ↦ rw w (length-set k.ring k.ring_tail (keys_queued k code released) ∙ r.sized)
    | inr w ↦ rw w r.sized
  ]

  pushed_waiting :
      waiting_count k < 255
      → window
          (written k code released)
          k.ring_head
          (((k.ring_tail + 1) % ring_size + ring_size - k.ring_head) % ring_size)
        ≡ keys_waiting k ++ (keys_queued k code released ∷ [])
  unfolding keys_waiting
  pushed_waiting h =
      let n : ((k.ring_tail + 1) % ring_size + ring_size - k.ring_head) % ring_size
          ≡ suc (waiting_count k) =
        omega (arith, r.head_in, r.tail_in) in
      let at : (k.ring_head + waiting_count k) % ring_size ≡ k.ring_tail =
        omega (arith, r.head_in, r.tail_in) in
      rw n (
        window-snoc (written k code released) (waiting_count k) k.ring_head r.head_in
        ∙ rw at (rw (written-window, written-tail) refl))

  -- A key with a scan code in the tables queues one event behind those that wait, or none when 255
  -- wait. The event is the key's entry in the table for the shift state, or the control key, with
  -- whether it was pressed; for a key with neither it is what the ring holds at the tail.
  pub push_event-waiting :
      (keys_waiting (push_event k code released) ≡ (
        if waiting_count k == 255
        then keys_waiting k
        else keys_waiting k ++ (keys_queued k code released ∷ [])))
      × IsKeyRing (push_event k code released)
  unfolding keys_waiting
  push_event-waiting = elim (Bool-cases (waiting_count k == 255)) [
    | inl full ↦
        let e : waiting_count k ≡ 255 = (==_iff (waiting_count k) 255).0 full in
        rw (push_full e, full) (refl, r)
    | inr some_room ↦
        let e : waiting_count k < 255 = omega (arith, ne_of_== (waiting_count k) 255 some_room) in
        rw (push_room e, some_room)
          (
            pushed_waiting e,
            record { sized = written-length; head_in = r.head_in; tail_in = omega arith },
          )
  ]

-- what a read takes from the queue
abbrev pub TakesFirst : Keyboard → Keyboard × KeyRead → Type 0
TakesFirst k (k', kbd_busy) = ⊥
TakesFirst k (k', kbd_nothing) = IsKeyRing k' × (keys_waiting k ≡ []) × (k' ≡ k)
TakesFirst k (k', kbd_event e) = IsKeyRing k' × (keys_waiting k ≡ e ∷ keys_waiting k')

-- `kbd_read` by the task that has the keyboard open is not refused. It takes the first event of those
-- that wait, or nothing when none does.
pub kbd_read-TakesFirst :
    (k : Keyboard) (task : ℕ)
    → IsKeyRing k
    → owned_by k.owner task ≡ true
    → TakesFirst k (kbd_read k task)
unfolding kbd_read keys_waiting window
kbd_read-TakesFirst k task r own = elim (Bool-cases (k.ring_head == k.ring_tail)) [
  | inl e ↦
      let n : waiting_count k ≡ 0 =
        omega (arith, (==_iff k.ring_head k.ring_tail).0 e, r.tail_in) in
      rw (own, e) (r, rw n refl, refl)
  | inr e ↦
      let ne : k.ring_head ≢ k.ring_tail = ne_of_== k.ring_head k.ring_tail e in
      let left : ℕ = (k.ring_tail + ring_size - (k.ring_head + 1) % ring_size) % ring_size in
      let n : waiting_count k ≡ suc left = omega (arith, ne, r.head_in, r.tail_in) in
      rw (own, e)
        (record { sized = r.sized; head_in = omega arith; tail_in = r.tail_in }, rw n refl)
]

-- ===== src/Dev/Keyboard.antt =====
-- kernel/dev/ps2.c: the keyboard, from scan codes to the bytes of a terminal or, while a program has
-- the keyboard open, to a ring of key events. The set-up of the controller is not in this part.
pub mod Ring
pub mod Typing
mod Tests
use monolith.Prelude.{
  Bool, List, Option, [], false, get_or, if◌then◌else◌, leb, none, not, set, some, ℕ, ◌%◌, ◌&&◌,
  ◌+◌, ◌==◌, ◌||◌, ◌∷◌,
}

-- what `regular_scancodes` and `shifted_scancodes` hold, by scan code
abbrev pub regular_scancodes : List ℕ
regular_scancodes =
    0 ∷ 27 ∷ b'1' ∷ b'2' ∷ b'3' ∷ b'4' ∷ b'5' ∷ b'6' ∷ b'7' ∷ b'8' ∷ b'9' ∷ b'0' ∷ b'-' ∷ b'=' ∷ 127
    ∷ 9 ∷ b'q' ∷ b'w' ∷ b'e' ∷ b'r' ∷ b't' ∷ b'y' ∷ b'u' ∷ b'i' ∷ b'o' ∷ b'p' ∷ b'[' ∷ b']' ∷ 10 ∷ 0
    ∷ b'a' ∷ b's' ∷ b'd' ∷ b'f' ∷ b'g' ∷ b'h' ∷ b'j' ∷ b'k' ∷ b'l' ∷ b';' ∷ 39 ∷ b'`' ∷ 0 ∷ 92
    ∷ b'z' ∷ b'x' ∷ b'c' ∷ b'v' ∷ b'b' ∷ b'n' ∷ b'm' ∷ b',' ∷ b'.' ∷ b'/' ∷ 0 ∷ 0 ∷ 0 ∷ 32 ∷ []

abbrev pub shifted_scancodes : List ℕ
shifted_scancodes =
    0 ∷ 27 ∷ b'!' ∷ b'@' ∷ b'#' ∷ b'$' ∷ b'%' ∷ b'^' ∷ b'&' ∷ b'*' ∷ b'(' ∷ b')' ∷ b'_' ∷ b'+' ∷ 127
    ∷ 0 ∷ b'Q' ∷ b'W' ∷ b'E' ∷ b'R' ∷ b'T' ∷ b'Y' ∷ b'U' ∷ b'I' ∷ b'O' ∷ b'P' ∷ b'{' ∷ b'}' ∷ 10 ∷ 0
    ∷ b'A' ∷ b'S' ∷ b'D' ∷ b'F' ∷ b'G' ∷ b'H' ∷ b'J' ∷ b'K' ∷ b'L' ∷ b':' ∷ b'"' ∷ b'~' ∷ 0 ∷ b'|'
    ∷ b'Z' ∷ b'X' ∷ b'C' ∷ b'V' ∷ b'B' ∷ b'N' ∷ b'M' ∷ b'<' ∷ b'>' ∷ b'?' ∷ 0 ∷ 0 ∷ 0 ∷ 32 ∷ []

-- `struct key_event`
pub record KeyEvent : Type 0 where
  pub key : ℕ
  pub pressed : Bool

abbrev pub no_event : KeyEvent
no_event = record { key = 0; pressed = false }

abbrev pub ring_size : ℕ
ring_size = 256

-- The two bits of `keyboard0_mod` that are ever set, whether there is a `cur_tty`, the task that has
-- the keyboard open, and the ring.
pub record Keyboard : Type 0 where
  pub shift : Bool
  pub ctrl : Bool
  pub has_tty : Bool
  pub owner : Option ℕ
  pub ring : List KeyEvent
  pub ring_head : ℕ
  pub ring_tail : ℕ

-- the modifier keys
unfoldable pub apply_modifiers : Keyboard → ℕ → Bool → Keyboard
apply_modifiers k code released =
    let k' = if (code == 0x2a) || (code == 0x36) then record k { shift = not released } else k in
    if code == 0x1d then record k' { ctrl = not released } else k'

abbrev pub table_of : Keyboard → List ℕ
table_of k = if k.shift then shifted_scancodes else regular_scancodes

-- the byte that goes to `tty_consume`, if any
unfoldable pub tty_byte : Keyboard → ℕ → Option ℕ
tty_byte k code =
    if (code == 0x2e) && k.ctrl
    then some 0x03
    else if leb code 0x39 && not (get_or (table_of k) code 0 == 0)
    then some (get_or (table_of k) code 0)
    else none

-- The event for the program that has the keyboard open. The tail moves also for a key for which
-- nothing is written.
unfoldable pub push_event : Keyboard → ℕ → Bool → Keyboard
push_event k code released =
    let c = get_or (table_of k) code 0 in
    let event : ℕ → KeyEvent = λ key. record { key = key; pressed = not released } in
    let written =
      if not (c == 0)
      then set k.ring k.ring_tail (event c)
      else if code == 0x1d
      then set k.ring k.ring_tail (event 0x1d)
      else k.ring in
    if leb code 0x39 && not ((k.ring_tail + 1) % ring_size == k.ring_head)
    then record k { ring = written; ring_tail = (k.ring_tail + 1) % ring_size }
    else k

-- where a key goes, once the modifiers are known
unfoldable pub route : Keyboard → ℕ → Bool → Keyboard × Option ℕ
route k code released = elim k.owner [
  | none ↦ (k, if k.has_tty && not released then tty_byte k code else none)
  | some _ ↦ (push_event k code released, none)
]

-- `interrupt_handler`, with the byte read from port 0x60: the keyboard, and the byte for
-- `tty_consume`
unfoldable pub interrupt_handler : Keyboard → ℕ → Keyboard × Option ℕ
interrupt_handler k byte =
    let released = leb 0x80 byte in
    let code = byte % 0x80 in route (apply_modifiers k code released) code released

-- `kbd_open` by a task, and `kbd_close`. `none` is -EBUSY.
unfoldable pub kbd_open : Keyboard → ℕ → Option Keyboard
kbd_open k task = elim k.owner [ none ↦ some (record k { owner = some task }) | some _ ↦ none ]

unfoldable pub kbd_close : Keyboard → Keyboard
kbd_close k = record k { owner = none }

-- `kbd_read` by a task: -EBUSY, nothing, or an event
pub data KeyRead : Type 0 where
  kbd_busy kbd_nothing : KeyRead
  kbd_event : KeyEvent → KeyRead

abbrev pub owned_by : Option ℕ → ℕ → Bool
owned_by none task = false
owned_by (some t) task = t == task

unfoldable pub kbd_read : Keyboard → ℕ → Keyboard × KeyRead
kbd_read k task =
    if not (owned_by k.owner task)
    then (k, kbd_busy)
    else if k.ring_head == k.ring_tail
    then (k, kbd_nothing)
    else (
      record k { ring_head = (k.ring_head + 1) % ring_size },
      kbd_event (get_or k.ring k.ring_head no_event),
    )

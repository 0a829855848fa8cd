-- ===== src/Dev/Keyboard/Tests.antt =====
-- Runs of the keyboard of kernel/dev/ps2.c, and its theorems at them.
use monolith.Dev.Keyboard.{
  KeyEvent, Keyboard, apply_modifiers, interrupt_handler, kbd_open, kbd_read, no_event, push_event,
  ring_size, route, tty_byte,
}
use monolith.Dev.Keyboard.Ring.{
  IsKeyRing, TakesFirst, kbd_read-TakesFirst, keys_queued, keys_waiting, push_event-waiting,
  waiting_count,
}
use monolith.Dev.Keyboard.Typing.{strokes, typed, typed-shifted}
use monolith.Prelude.{
  [], arith, false, if◌then◌else◌, length-replicate, none, refl, replicate, some, true, ◌++◌, ◌==◌,
  ◌∷◌, ◌≡◌,
}

abbrev at_terminal : Keyboard
at_terminal = record {
  shift = false;
  ctrl = false;
  has_tty = true;
  owner = none;
  ring = replicate ring_size no_event;
  ring_head = 0;
  ring_tail = 0;
}

abbrev opened : Keyboard
opened = record at_terminal { owner = some 5; ring_tail = 255; ring_head = 250 }

-- shift, a, let go, b
typed_runs : typed at_terminal (0x2a ∷ 0x1e ∷ 0x9e ∷ 0xaa ∷ 0x30 ∷ []) ≡ b'A' ∷ b'b' ∷ []
unfolding typed interrupt_handler apply_modifiers route tty_byte
typed_runs = refl

-- control and c
interrupt_runs : typed at_terminal (0x1d ∷ 0x2e ∷ []) ≡ 0x03 ∷ []
unfolding typed interrupt_handler apply_modifiers route tty_byte
interrupt_runs = refl

open_twice : kbd_open opened 7 ≡ none
unfolding kbd_open
open_twice = refl

opened-IsKeyRing : IsKeyRing opened
opened-IsKeyRing = record {
  sized = length-replicate {A = KeyEvent} ring_size no_event;
  head_in = omega arith;
  tail_in = omega arith;
}

typed-shifted_runs :
    typed at_terminal ((0x2a ∷ strokes (0x1e ∷ [])) ++ (0xaa ∷ strokes (0x30 ∷ [])))
    ≡ b'A' ∷ b'b' ∷ []
typed-shifted_runs =
    typed-shifted at_terminal 0x2a (0x1e ∷ []) (0x30 ∷ []) (refl, refl, refl) refl (refl, tt)
      (refl, tt)

push_event-waiting_runs :
    (keys_waiting (push_event opened 0x1e false) ≡ (
      if waiting_count opened == 255
      then keys_waiting opened
      else keys_waiting opened ++ (keys_queued opened 0x1e false ∷ [])))
    × IsKeyRing (push_event opened 0x1e false)
push_event-waiting_runs = push_event-waiting opened opened-IsKeyRing 0x1e false (omega arith)

kbd_read-TakesFirst_example : TakesFirst opened (kbd_read opened 5)
kbd_read-TakesFirst_example = kbd_read-TakesFirst opened 5 opened-IsKeyRing refl

-- ===== src/Dev/Tty.antt =====
-- kernel/dev/tty.c: the input buffer, output, opening, and the ioctl calls of a terminal. The
-- device's mutex makes each access of the buffer one step.
pub mod Ring
pub mod Input
pub mod Control
use monolith.Prelude.{
  Bool, List, Option, [], bit_and, false, get_or, if◌then◌else◌, length, ltb, none, not, set, some,
  suc, true, zero, ℕ, ◌%◌, ◌&&◌, ◌+◌, ◌-◌, ◌==◌, ◌||◌, ◌∷◌,
}
use monolith.Prelude.Errno.{Result, efault, einval, enotty, enxio, eperm, err, ok}
use monolith.Sched.Task.{Task, get_pgrp_leader, is_session_leader}

abbrev pub tty_buffer_size : ℕ
tty_buffer_size = 0x1000

-- `struct termios` and `struct winsize` (kernel/include/dev/tty.h), without the speeds
pub record Termios : Type 0 where
  pub c_iflag : ℕ
  pub c_oflag : ℕ
  pub c_cflag : ℕ
  pub c_lflag : ℕ
  pub c_cc : List ℕ

pub record Winsize : Type 0 where
  pub ws_row : ℕ
  pub ws_col : ℕ
  pub ws_xpixel : ℕ
  pub ws_ypixel : ℕ

-- the flags that are tested, and the place of the interrupt character
abbrev pub isig : ℕ
isig = 1

abbrev pub echo : ℕ
echo = 8

abbrev pub icrnl : ℕ
icrnl = 256

abbrev pub onlcr : ℕ
onlcr = 4

abbrev pub vintr : ℕ
vintr = 0

abbrev pub carriage_return : ℕ
carriage_return = 13

abbrev pub newline : ℕ
newline = 10

-- `struct tty_device`, without the write buffer, which nothing uses
pub record Tty : Type 0 where
  pub read_buffer : List ℕ
  pub read_buffer_head : ℕ
  pub read_buffer_tail : ℕ
  pub session_id : ℕ
  pub fg_pgrp : ℕ
  pub termios : Termios
  pub winsize : Winsize

unfoldable pub has_flag : ℕ → ℕ → Bool
has_flag flags f = not (bit_and flags f == 0)

-- the terminal, what is output, whether SIGINT goes to the foreground group, and whether the
-- readers are woken
pub record Consumed : Type 0 where
  pub tty : Tty
  pub output : List ℕ
  pub interrupts : Bool
  pub wakes : Bool

-- `tty_consume` of a byte. The plain `char` of a byte from 128 on is negative and equals no
-- control character.
unfoldable pub tty_consume : Tty → ℕ → Consumed
unfolding has_flag
tty_consume t c =
    let next = (t.read_buffer_tail + 1) % tty_buffer_size in
    let stored : Tty = record t {
      read_buffer = set t.read_buffer t.read_buffer_tail c;
      read_buffer_tail = next;
    } in
    let is_intr = ltb c 128 && (c == get_or t.termios.c_cc vintr 0) in
    let echoed =
      if has_flag t.termios.c_iflag icrnl && (c == carriage_return) then newline else c in
    if next == t.read_buffer_head
    then record { tty = t; output = []; interrupts = false; wakes = false }
    else (if has_flag t.termios.c_lflag isig && is_intr
        then record { tty = stored; output = []; interrupts = true; wakes = false }
        else record {
          tty = stored;
          output = if has_flag t.termios.c_lflag echo then echoed ∷ [] else [];
          interrupts = false;
          wakes = true;
        })

-- the byte at an offset from the buffer's start; `beyond` is the memory behind its end
unfoldable pub byte_at : (ℕ → ℕ) → List ℕ → ℕ → ℕ
byte_at beyond b i = if ltb i tty_buffer_size then get_or b i 0 else beyond (i - tty_buffer_size)

-- `memcpy` of `n` bytes from an offset on
unfoldable pub copy_out : (ℕ → ℕ) → List ℕ → ℕ → ℕ → List ℕ
unfolding byte_at
copy_out beyond b i zero = []
copy_out beyond b i (suc n) = byte_at beyond b i ∷ copy_out beyond b (i + 1) n

pub data ReadResult : Type 0 where
  waits interrupted : ReadResult
  returned : Tty → List ℕ → ReadResult

-- A round of `tty_read`: it registers and sleeps, ends with -EINTR, or returns bytes.
unfoldable pub tty_read : (ℕ → ℕ) → Bool → Tty → ℕ → ReadResult
unfolding copy_out
tty_read beyond pending t len =
    let count =
      if ltb t.read_buffer_head t.read_buffer_tail
      then t.read_buffer_tail - t.read_buffer_head
      else tty_buffer_size - t.read_buffer_head + t.read_buffer_tail in
    let read_count = if ltb len count then len else count in
    if t.read_buffer_head == t.read_buffer_tail
    then (if pending then interrupted else waits)
    else returned
        (record t { read_buffer_head = (t.read_buffer_head + read_count) % tty_buffer_size })
        (copy_out beyond t.read_buffer t.read_buffer_head read_count)

-- the loop of `tty_write`: what it outputs
unfoldable pub write_loop : ℕ → List ℕ → List ℕ
unfolding has_flag
write_loop oflag [] = []
write_loop oflag (c ∷ cs) =
    let later = write_loop oflag cs in
    if c == 0
    then []
    else (if has_flag oflag onlcr && (c == newline) then carriage_return ∷ c ∷ later else c ∷ later)

-- `tty_write` returns the length that it was given.
unfoldable pub tty_write : Tty → List ℕ → List ℕ × ℕ
unfolding write_loop
tty_write t buffer = (write_loop t.termios.c_oflag buffer, length buffer)

-- `tty_open` of the terminal with the number, or of a device without one
unfoldable pub tty_open : Option (ℕ × Tty) → Task → Result (Tty × Task)
unfolding is_session_leader
tty_open none task = err enxio
tty_open (some (number, t)) task =
    let without : Bool = elim task.tty [ none ↦ true | some x ↦ false ] in
    if without && is_session_leader task && (t.session_id == 0)
    then ok
        (record t { session_id = task.sid; fg_pgrp = task.pgid }, record task { tty = some number })
    else ok (t, task)

abbrev pub tiocspgrp : ℕ
tiocspgrp = 0x5410

abbrev pub tcgets : ℕ
tcgets = 0x5401

abbrev pub tcsets : ℕ
tcsets = 0x5402

abbrev pub tiocgwinsz : ℕ
tiocgwinsz = 0x5413

-- what an ioctl copies to the caller
pub data Copied : Type 0 where
  nothing : Copied
  copied_termios : Termios → Copied
  copied_winsize : Winsize → Copied

-- what the caller's memory holds at `arg`
pub record UserArg : Type 0 where
  pub pgrp : ℕ
  pub new_termios : Termios

unfoldable pub outside : ℕ → Bool
outside arg = (arg == 0) || ltb 0x7fffffffffff arg

unfoldable pub set_pgrp : List Task → Task → Tty → ℕ → Result (Tty × Copied)
unfolding get_pgrp_leader
set_pgrp tasks task t pgrp =
    if not (task.sid == t.session_id) then err enotty else elim (get_pgrp_leader tasks pgrp) [
      | none ↦ err eperm
      | some leader ↦
          if leader.sid == task.sid then ok (record t { fg_pgrp = pgrp }, nothing) else err eperm
    ]

-- the switch of `tty_ioctl`, for the caller's own terminal
unfoldable pub own_ioctl : List Task → Task → Tty → ℕ → ℕ → UserArg → Result (Tty × Copied)
unfolding outside set_pgrp
own_ioctl tasks task t op arg user =
    if op == tiocspgrp
    then (if outside arg then err efault else set_pgrp tasks task t user.pgrp)
    else (if op == tcgets
        then (if outside arg then err efault else ok (t, copied_termios t.termios))
        else (if op == tcsets
            then (if outside arg
                then err efault
                else ok (record t { termios = user.new_termios }, nothing))
            else (if op == tiocgwinsz
                then (if ltb 0x7fffffffffff arg
                    then err efault
                    else ok (t, copied_winsize t.winsize))
                else err einval)))

unfoldable pub tty_ioctl :
    List Task → Task → Option (ℕ × Tty) → ℕ → ℕ → UserArg → Result (Tty × Copied)
unfolding own_ioctl
tty_ioctl tasks task none op arg user = err enotty
tty_ioctl tasks task (some (number, t)) op arg user =
    let own : Bool = elim task.tty [ none ↦ false | some x ↦ x == number ] in
    if not own then err enotty else own_ioctl tasks task t op arg user

-- ===== src/Dev/Tests.antt =====
-- Runs of kernel/dev/tty.c and kernel/sys/device.c at concrete states, and their theorems at them.
use monolith.Dev.Device.{
  blockdev_lookup, blockdev_lookup-new, blockdev_new, chardev_lookup, chardev_lookup-new,
  chardev_new,
}
use monolith.Dev.Tty.{
  Termios, Tty, Winsize, returned, tiocspgrp, tty_buffer_size, tty_consume, tty_ioctl, tty_open,
  tty_read, tty_write,
}
use monolith.Dev.Tty.Control.{Controlled, tty_ioctl-Controlled, tty_open-owned}
use monolith.Dev.Tty.Input.{IsTty, tty_consume-waiting, tty_read-waiting, tty_read-wrapped, waiting}
use monolith.Prelude.{
  [], arith, false, length-replicate, none, refl, replicate, some, true, ℕ, ◌<◌, ◌||◌, ◌∷◌, ◌≡◌,
}
use monolith.Prelude.Errno.{ok}
use monolith.Sched.Task.{Task, is_session_leader, running}

abbrev plain : Termios
plain = record { c_iflag = 256; c_oflag = 5; c_cflag = 15; c_lflag = 9; c_cc = 3 ∷ [] }

abbrev window : Winsize
window = record { ws_row = 25; ws_col = 80; ws_xpixel = 0; ws_ypixel = 0 }

-- a terminal of session 1 with a buffer of zeros
abbrev console : ℕ → ℕ → Tty
console head tail = record {
  read_buffer = replicate tty_buffer_size 0;
  read_buffer_head = head;
  read_buffer_tail = tail;
  session_id = 1;
  fg_pgrp = 1;
  termios = plain;
  winsize = window;
}

console-IsTty : (head tail : ℕ) → head < 4096 → tail < 4096 → IsTty (console head tail)
console-IsTty head tail h t = record {
  size = length-replicate {A = ℕ} 4096 0;
  head_inside = h;
  tail_inside = t;
}

write_runs : tty_write (console 0 0) (65 ∷ 10 ∷ 0 ∷ 66 ∷ []) ≡ (65 ∷ 13 ∷ 10 ∷ [], 4)
unfolding tty_write
write_runs = refl

tty_consume-waiting_runs :
    IsTty (tty_consume (console 7 7) 65).tty
    × (waiting (tty_consume (console 7 7) 65).tty ≡ 65 ∷ [])
    × (((tty_consume (console 7 7) 65).interrupts || (tty_consume (console 7 7) 65).wakes) ≡ true)
tty_consume-waiting_runs =
    tty_consume-waiting (console 7 7) 65 (console-IsTty 7 7 (omega arith) (omega arith))

tty_read-waiting_example :
    (t' : Tty) × (tty_read (λ i. 255) false (console 5 7) 10 ≡ returned t' (0 ∷ 0 ∷ []))
    × IsTty t'
    × (waiting t' ≡ [])
tty_read-waiting_example =
    tty_read-waiting (λ i. 255) false (console 5 7) 10
      (console-IsTty 5 7 (omega arith) (omega arith)) (omega arith) (omega arith)

tty_read-wrapped_runs :
    (t' : Tty) × (tty_read (λ i. 255) false (console 4095 2) 3 ≡ returned t' (0 ∷ 255 ∷ 255 ∷ []))
    × (waiting t' ≡ [])
tty_read-wrapped_runs =
    tty_read-wrapped (λ i. 255) false (console 4095 2) 2
      (console-IsTty 4095 2 (omega arith) (omega arith)) (omega arith)

abbrev leader : Task
leader = record {
  pid = 4;
  tgid = 4;
  pgid = 4;
  sid = 4;
  status = running;
  tty = none;
  cred = record { uid = 0; euid = 0; suid = 0; gid = 0; egid = 0; sgid = 0 };
  sig_pending = 0;
  sig_blocked = 0;
}

abbrev unowned : Tty
unowned = record (console 0 0) { session_id = 0; fg_pgrp = 0 }

leader_leads : is_session_leader leader ≡ true
unfolding is_session_leader
leader_leads = refl

open_runs :
    (t' : Tty) × (task' : Task) × (tty_open (some (0, unowned)) leader ≡ ok (t', task'))
    × (t' ≡ record unowned { session_id = 4; fg_pgrp = 4 })
    × (task' ≡ record leader { tty = some 0 })
    × (tty_open (some (0, t')) leader ≡ ok (t', leader))
open_runs = tty_open-owned 0 unowned leader leader refl refl leader_leads (omega arith)

abbrev owner : Task
owner = record leader { tty = some 0 }

abbrev owned : Tty
owned = record unowned { session_id = 4 }

tty_ioctl-Controlled_runs : Controlled (owner ∷ []) owner 0 owned (
    tty_ioctl
      (owner ∷ [])
      owner
      (some (0, owned))
      tiocspgrp
      4096
      (record { pgrp = 4; new_termios = plain }))
tty_ioctl-Controlled_runs =
    tty_ioctl-Controlled (owner ∷ []) owner 0 owned tiocspgrp 4096
      (record { pgrp = 4; new_termios = plain })

chardev_runs :
    chardev_lookup (chardev_new 8 (replicate 256 []) 12884901889) 12884901889
    ≡ some (record { dev = 12884901889; data_ptr = 0; fops = 8 })
chardev_runs = chardev_lookup-new 8 (replicate 256 []) 12884901889 12884901889 refl

blockdev_runs :
    blockdev_lookup (blockdev_new 8 9 (replicate 256 []) 12884901889) 12884901889
    ≡ some (record { dev = 12884901889; data_ptr = 0; fops = 8; bd_ops = 9 })
blockdev_runs = blockdev_lookup-new 8 9 (replicate 256 []) 12884901889 12884901889 refl

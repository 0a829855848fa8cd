-- ===== src/Dev/Tty/Control.antt =====
-- Sessions and foreground groups of a terminal of kernel/dev/tty.c.
use monolith.Dev.Tty.{
  Copied, Tty, UserArg, outside, own_ioctl, set_pgrp, tcgets, tcsets, tiocgwinsz, tiocspgrp,
  tty_ioctl, tty_open,
}
use monolith.Prelude.{
  &&_false, ==_iff, Bool-cases, List, Option-cases, ap, arith, false, inl, inr, ltb, none, refl,
  some, true, ℕ, ◌==◌, ◌∙◌, ◌≡◌, ◌≢◌, ◌⊎◌,
}
use monolith.Prelude.Errno.{Result, enotty, err, ok}
use monolith.Sched.Task.{Task, get_pgrp_leader, is_session_leader}

-- `tty_open` gives a terminal without a session to a session leader without a terminal. After such
-- an open, no open by any task changes the terminal's session and foreground group.
pub tty_open-owned :
    (number : ℕ) (t : Tty) (task other : Task)
    → t.session_id ≡ 0
    → task.tty ≡ none
    → is_session_leader task ≡ true
    → task.sid ≢ 0
    → (t' : Tty) × (task' : Task) × (tty_open (some (number, t)) task ≡ ok (t', task'))
      × (t' ≡ record t { session_id = task.sid; fg_pgrp = task.pgid })
      × (task' ≡ record task { tty = some number })
      × (tty_open (some (number, t')) other ≡ ok (t', other))
unfolding tty_open
tty_open-owned number t task other unused own leader sid =
    let unowned : (t.session_id == 0) ≡ true = ground arith in
    let owned : (task.sid == 0) ≡ false = ground arith in
    (
      record t { session_id = task.sid; fg_pgrp = task.pgid },
      record task { tty = some number },
      rw (tty_open, own, leader, unowned) refl,
      refl,
      refl,
      rw (tty_open, owned, &&_false) refl,
    )

-- the foreground group is as before, or one whose leader is listed and in the terminal's session
abbrev pub GroupOk : List Task → Tty → Tty → Type 0
GroupOk tasks t t' =
    (t'.session_id ≡ t.session_id)
    × (t'.read_buffer ≡ t.read_buffer)
    × ((t'.fg_pgrp ≡ t.fg_pgrp)
        ⊎ ((l : Task) × (get_pgrp_leader tasks t'.fg_pgrp ≡ some l) × (l.sid ≡ t.session_id)))

abbrev pub Controlled : List Task → Task → ℕ → Tty → Result (Tty × Copied) → Type 0
Controlled tasks task number t (err e) = Unit
Controlled tasks task number t (ok (t', c)) = (task.tty ≡ some number) × GroupOk tasks t t'

same_group : (tasks : List Task) (t : Tty) → GroupOk tasks t t
same_group tasks t = (refl, refl, inl refl)

set_pgrp-Controlled :
    (tasks : List Task) (task : Task) (number : ℕ) (t : Tty) (pgrp : ℕ)
    → task.tty ≡ some number
    → Controlled tasks task number t (set_pgrp tasks task t pgrp)
unfolding set_pgrp
set_pgrp-Controlled tasks task number t pgrp own = elim (Bool-cases (task.sid == t.session_id)) [
  | inr ne ↦ rw (set_pgrp, ne) tt
  | inl same ↦ elim (Option-cases (get_pgrp_leader tasks pgrp)) [
    | inl z ↦ rw (set_pgrp, same, z) tt
    | inr (l, z) ↦ elim (Bool-cases (l.sid == task.sid)) [
      | inr ne ↦ rw (set_pgrp, same, z, ne) tt
      | inl q ↦
          let sid : l.sid ≡ t.session_id =
            (==_iff l.sid task.sid).0 q ∙ (==_iff task.sid t.session_id).0 same in
          rw (set_pgrp, same, z, q) (own, (refl, refl, inr (l, z, sid)))
    ]
  ]
]

own_ioctl-Controlled :
    (tasks : List Task) (task : Task) (number : ℕ) (t : Tty) (op arg : ℕ) (user : UserArg)
    → task.tty ≡ some number
    → Controlled tasks task number t (own_ioctl tasks task t op arg user)
unfolding own_ioctl
own_ioctl-Controlled tasks task number t op arg user own = elim (Bool-cases (op == tiocspgrp)) [
  | inl a ↦ elim (Bool-cases (outside arg)) [
    | inl o ↦ rw (own_ioctl, a, o) tt
    | inr o ↦ rw (own_ioctl, a, o) (set_pgrp-Controlled tasks task number t user.pgrp own)
  ]
  | inr a ↦ elim (Bool-cases (op == tcgets)) [
    | inl b ↦ elim (Bool-cases (outside arg)) [
      | inl o ↦ rw (own_ioctl, a, b, o) tt
      | inr o ↦ rw (own_ioctl, a, b, o) (own, (refl, refl, inl refl))
    ]
    | inr b ↦ elim (Bool-cases (op == tcsets)) [
      | inl c ↦ elim (Bool-cases (outside arg)) [
        | inl o ↦ rw (own_ioctl, a, b, c, o) tt
        | inr o ↦ rw (own_ioctl, a, b, c, o) (own, (refl, refl, inl refl))
      ]
      | inr c ↦ elim (Bool-cases (op == tiocgwinsz)) [
        | inl d ↦ elim (Bool-cases (ltb 0x7fffffffffff arg)) [
          | inl o ↦ rw (own_ioctl, a, b, c, d, o) tt
          | inr o ↦ rw (own_ioctl, a, b, c, d, o) (own, (refl, refl, inl refl))
        ]
        | inr d ↦ rw (own_ioctl, a, b, c, d) tt
      ]
    ]
  ]
]

tty_ioctl-own :
    (tasks : List Task) (task : Task) (number : ℕ) (t : Tty) (op arg : ℕ) (user : UserArg)
    → (tty_ioctl tasks task (some (number, t)) op arg user ≡ err enotty)
      ⊎ ((task.tty ≡ some number)
          × (tty_ioctl tasks task (some (number, t)) op arg user
              ≡ own_ioctl tasks task t op arg user))
unfolding tty_ioctl
tty_ioctl-own tasks task number t op arg user = elim (Option-cases task.tty) [
  | inl z ↦ inl (rw (tty_ioctl, z) refl)
  | inr (x, z) ↦ elim (Bool-cases (x == number)) [
    | inr ne ↦ inl (rw (tty_ioctl, z, ne) refl)
    | inl q ↦ inr (z ∙ ap some ((==_iff x number).0 q), rw (tty_ioctl, z, q) refl)
  ]
]

-- Whatever the ioctl and its arguments, a terminal that accepts it is the caller's own and keeps its
-- session and its input, and its foreground group is the old one or one whose leader is listed and
-- of that session.
pub tty_ioctl-Controlled :
    (tasks : List Task) (task : Task) (number : ℕ) (t : Tty) (op arg : ℕ) (user : UserArg)
    → Controlled tasks task number t (tty_ioctl tasks task (some (number, t)) op arg user)
tty_ioctl-Controlled tasks task number t op arg user =
    elim (tty_ioctl-own tasks task number t op arg user) [
      | inl e ↦ rw e tt
      | inr (own, e) ↦ rw e (own_ioctl-Controlled tasks task number t op arg user own)
    ]

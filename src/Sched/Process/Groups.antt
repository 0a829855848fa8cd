-- ===== src/Sched/Process/Groups.antt =====
-- Sessions and process groups (kernel/sched/task_sys.c).
use monolith.Prelude.{
  Bool-cases, List, Option-cases, [], arith, false, inl, inr, none, refl, some, true, ℕ, ◌==◌, ◌∷◌,
  ◌≡◌, ◌≢◌, ◌⊎◌,
}
use monolith.Prelude.Errno.{eperm, err, ok}
use monolith.Sched.Process.{sys_getpid, sys_setpgid, sys_setsid}
use monolith.Sched.Task.{Task, get_pgrp_leader, is_session_leader}

get_pgrp_leader-pid :
    (tasks : List Task) (pgrp : ℕ) (l : Task) → get_pgrp_leader tasks pgrp ≡ some l → l.pid ≡ pgrp
unfolding get_pgrp_leader
get_pgrp_leader-pid [] pgrp l e = cc
get_pgrp_leader-pid (t ∷ ts) pgrp l e = ground (arith, get_pgrp_leader-pid ts pgrp l)

-- `sys_setsid` of a task that does not lead its process group makes it the leader of a session and
-- of a group of its own, without a terminal; after that neither `sys_setsid` nor `sys_setpgid`
-- succeeds.
pub sys_setsid_lem :
    (tasks : List Task) (task : Task) (pgid : ℕ)
    → task.tgid ≢ task.pgid
    → (task' : Task) × (sys_setsid task ≡ ok task')
      × (is_session_leader task' ≡ true)
      × (task'.pgid ≡ sys_getpid task')
      × (sys_getpid task' ≡ sys_getpid task)
      × (task'.tty ≡ none)
      × (sys_setsid task' ≡ err eperm)
      × (sys_setpgid tasks task' pgid ≡ err eperm)
unfolding sys_setsid sys_setpgid is_session_leader sys_getpid
sys_setsid_lem tasks task pgid ne = (
  record task { pgid = task.tgid; sid = task.tgid; tty = none },
  ground arith,
  ground arith,
  refl,
  refl,
  refl,
  ground arith,
  ground arith,
)

-- When `sys_setpgid` succeeds, the caller does not lead its session, only its group changes, and the
-- new group is its own, or that of a listed task of the same session whose pid is the group's
-- number.
pub sys_setpgid-ok :
    (tasks : List Task) (task task' : Task) (pgid : ℕ)
    → sys_setpgid tasks task pgid ≡ ok task'
    → (is_session_leader task ≡ false)
      × (task' ≡ record task { pgid = task'.pgid })
      × ((task'.pgid ≡ task.tgid)
          ⊎ ((l : Task) × (get_pgrp_leader tasks pgid ≡ some l)
              × (l.pid ≡ task'.pgid)
              × (l.sid ≡ task.sid)))
unfolding sys_setpgid is_session_leader
sys_setpgid-ok tasks task task' pgid e = elim (Option-cases (get_pgrp_leader tasks pgid)) [
  | inl z ↦ ground arith
  | inr (l, z) ↦
      let named : l.pid ≡ pgid = get_pgrp_leader-pid tasks pgid l z in
      elim (Bool-cases (pgid == 0)) [
        | inl own ↦ (ground arith, ground arith, inl (ground arith))
        | inr other ↦ (ground arith, ground arith, inr (l, z, ground arith, ground arith))
      ]
]

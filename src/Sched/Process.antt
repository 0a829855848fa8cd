-- ===== src/Sched/Process.antt =====
-- kernel/sched/task_sys.c: the calls that read and change a task's session, process group and
-- credentials. The calling task is an argument, and a call returns it as it leaves it.
pub mod Groups
pub mod Credentials
use monolith.Prelude.{List, if◌then◌else◌, none, some, ℕ, ◌==◌, ◌||◌}
use monolith.Prelude.Errno.{Result, eperm, err, esrch, ok}
use monolith.Sched.Task.{Task, get_pgrp_leader, lookup_by_pid}

unfoldable pub sys_getpid : Task → ℕ
sys_getpid task = task.tgid

unfoldable pub sys_setsid : Task → Result Task
sys_setsid task =
    if task.tgid == task.pgid
    then err eperm
    else ok (record task { pgid = task.tgid; sid = task.tgid; tty = none })

unfoldable pub sys_getpgid : List Task → Task → ℕ → Result ℕ
unfolding lookup_by_pid
sys_getpgid tasks task pid = if pid == 0 then ok task.pgid else elim (lookup_by_pid tasks pid) [
  | none ↦ err esrch
  | some search ↦ if search.sid == task.sid then ok search.pgid else err eperm
]

unfoldable pub sys_setpgid : List Task → Task → ℕ → Result Task
unfolding get_pgrp_leader
sys_setpgid tasks task pgid =
    if task.tgid == task.sid
    then err eperm
    else (if pgid == 0
        then ok (record task { pgid = task.tgid })
        else elim (get_pgrp_leader tasks pgid) [
          | none ↦ err esrch
          | some pgrp_leader ↦
              if pgrp_leader.sid == task.sid then ok (record task { pgid = pgid }) else err eperm
        ])

unfoldable pub sys_getuid : Task → ℕ
sys_getuid task = task.cred.uid

unfoldable pub sys_getgid : Task → ℕ
sys_getgid task = task.cred.gid

unfoldable pub sys_setuid : Task → ℕ → Result Task
sys_setuid task uid =
    let creds = task.cred in
    if creds.euid == 0
    then ok (record task { cred = record creds { uid = uid; euid = uid; suid = uid } })
    else (if creds.uid == uid || creds.suid == uid
        then ok (record task { cred = record creds { euid = uid } })
        else err eperm)

unfoldable pub sys_setgid : Task → ℕ → Result Task
sys_setgid task gid =
    let creds = task.cred in
    if creds.euid == 0
    then ok (record task { cred = record creds { gid = gid; egid = gid; sgid = gid } })
    else (if creds.gid == gid || creds.sgid == gid
        then ok (record task { cred = record creds { egid = gid } })
        else err eperm)

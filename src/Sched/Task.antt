-- ===== src/Sched/Task.antt =====
-- `struct task` (kernel/include/sched/task.h), the fields that the modelled calls use, and the
-- global list of tasks. A pid_t is held as its 32-bit pattern, since it is only compared.
use monolith.Prelude.{Bool, List, Option, [], false, if◌then◌else◌, none, some, true, ℕ, ◌==◌, ◌∷◌}

pub data TaskStatus : Type 0 where
  running sleeping intr_sleeping zombie stopped : TaskStatus

-- cred_t (kernel/include/sys/cred.h)
pub record Cred : Type 0 where
  pub uid : ℕ
  pub euid : ℕ
  pub suid : ℕ
  pub gid : ℕ
  pub egid : ℕ
  pub sgid : ℕ

pub record Task : Type 0 where
  pub pid : ℕ
  pub tgid : ℕ
  pub pgid : ℕ
  pub sid : ℕ
  pub status : TaskStatus
  pub tty : Option ℕ
  pub cred : Cred
  pub sig_pending : ℕ
  pub sig_blocked : ℕ

unfoldable pub is_session_leader : Task → Bool
is_session_leader task = task.sid == task.tgid

-- `lookup_by_pid`, over g_task_list in its order
unfoldable pub lookup_by_pid : List Task → ℕ → Option Task
lookup_by_pid [] pid = none
lookup_by_pid (cur ∷ rest) pid = if cur.pid == pid then some cur else lookup_by_pid rest pid

-- `get_pgrp_leader`
unfoldable pub get_pgrp_leader : List Task → ℕ → Option Task
get_pgrp_leader [] pgrp = none
get_pgrp_leader (cur ∷ rest) pgrp = if cur.pid == pgrp then some cur else get_pgrp_leader rest pgrp

-- is this status that one
abbrev pub same_status : TaskStatus → TaskStatus → Bool
same_status running running = true
same_status sleeping sleeping = true
same_status intr_sleeping intr_sleeping = true
same_status zombie zombie = true
same_status stopped stopped = true
same_status _ _ = false

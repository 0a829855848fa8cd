-- ===== src/Sched/Process/Credentials.antt =====
-- What a task can do to its own credentials (kernel/sched/task_sys.c).
use monolith.Prelude.{List, [], arith, refl, ℕ, ◌∙◌, ◌∷◌, ◌≡◌, ◌≢◌}
use monolith.Prelude.Errno.{err, ok}
use monolith.Sched.Process.{sys_setgid, sys_setuid}
use monolith.Sched.Task.{Task}

pub data CredCall : Type 0 where
  setuid setgid : ℕ → CredCall

-- a failing call leaves the task as it is
unfoldable pub cred_call : Task → CredCall → Task
cred_call task (setuid uid) = elim (sys_setuid task uid) [ ok t ↦ t | err e ↦ task ]
cred_call task (setgid gid) = elim (sys_setgid task gid) [ ok t ↦ t | err e ↦ task ]

unfoldable pub cred_calls : Task → List CredCall → Task
unfolding cred_call
cred_calls task [] = task
cred_calls task (c ∷ cs) = cred_calls (cred_call task c) cs

-- all three user ids are u
abbrev pub AllUids : Task → ℕ → Type 0
AllUids task u = (task.cred.uid ≡ u) × (task.cred.euid ≡ u) × (task.cred.suid ≡ u)

cred_call-AllUids :
    (task : Task) (u : ℕ) (c : CredCall) → u ≢ 0 → AllUids task u → AllUids (cred_call task c) u
unfolding cred_call sys_setuid sys_setgid
cred_call-AllUids task u (setuid uid) ne h = ground arith
cred_call-AllUids task u (setgid gid) ne h = ground arith

cred_calls-AllUids :
    (task : Task) (u : ℕ) (cs : List CredCall)
    → u ≢ 0
    → AllUids task u
    → AllUids (cred_calls task cs) u
unfolding cred_calls
cred_calls-AllUids task u [] ne h = h
cred_calls-AllUids task u (c ∷ cs) ne h =
    cred_calls-AllUids (cred_call task c) u cs ne (cred_call-AllUids task u c ne h)

-- A root task's `sys_setuid` to a user other than 0 gives up root for good: it succeeds, and after
-- whatever sequence of `sys_setuid` and `sys_setgid` calls all three user ids are still that user's.
pub setuid_drops :
    (task : Task) (u : ℕ) (cs : List CredCall)
    → task.cred.euid ≡ 0
    → u ≢ 0
    → (task' : Task) × (sys_setuid task u ≡ ok task') × AllUids (cred_calls task' cs) u
unfolding sys_setuid
setuid_drops task u cs root ne =
    let task' : Task = record task { cred = record (task.cred) { uid = u; euid = u; suid = u } } in
    (task', rw root, cred_calls-AllUids task' u cs ne (refl, refl, refl))

-- no user id is 0
abbrev pub NoRoot : Task → Type 0
NoRoot task = (task.cred.uid ≢ 0) × (task.cred.euid ≢ 0) × (task.cred.suid ≢ 0)

cred_call-NoRoot : (task : Task) (c : CredCall) → NoRoot task → NoRoot (cred_call task c)
unfolding cred_call sys_setuid sys_setgid
cred_call-NoRoot task (setuid uid) h = ground arith
cred_call-NoRoot task (setgid gid) h = ground arith

cred_call-same :
    (task : Task) (c : CredCall)
    → NoRoot task
    → ((cred_call task c).cred.uid ≡ task.cred.uid)
      × ((cred_call task c).cred.suid ≡ task.cred.suid)
unfolding cred_call sys_setuid sys_setgid
cred_call-same task (setuid uid) h = ground arith
cred_call-same task (setgid gid) h = ground arith

-- A task without any user id 0 cannot come by one through `sys_setuid` and `sys_setgid`, and keeps
-- its real and saved user id.
pub cred_calls-NoRoot :
    (task : Task) (cs : List CredCall)
    → NoRoot task
    → NoRoot (cred_calls task cs)
      × ((cred_calls task cs).cred.uid ≡ task.cred.uid)
      × ((cred_calls task cs).cred.suid ≡ task.cred.suid)
unfolding cred_calls
cred_calls-NoRoot task [] h = (h, refl, refl)
cred_calls-NoRoot task (c ∷ cs) h =
    let (k, u, s) = cred_calls-NoRoot (cred_call task c) cs (cred_call-NoRoot task c h) in
    let (u', s') = cred_call-same task c h in (k, u ∙ u', s ∙ s')

-- ===== src/Sched/Wait/Reaping.antt =====
-- Which child `sys_waitpid` of kernel/sched/task_sys.c reaps, and how its end is reported.
use mathlib.Core.Option
use native.Mathlib.Decide.{ℕ_discrete}
use monolith.Prelude.{
  ==-ne, Bool, Bool-cases, List, Option, Option-cases, [], arith, false, if◌then◌else◌, inl, inr,
  none, refl, some, true, ℕ, ◌%◌, ◌&&◌, ◌/◌, ◌==◌, ◌∷◌, ◌≡◌, ◌⊎◌,
}
use monolith.Prelude.Errno.{echild, efault, eintr}
use monolith.Sched.Wait.{
  Child, WaitResult, failed, out_status, reap_loop, reaped, sleeps, sys_waitpid,
}

abbrev pub reapable : Child → Bool
reapable c = c.is_zombie && c.can_reap

abbrev pub NoneReapable : List Child → Type 0
NoneReapable [] = Unit
NoneReapable (c ∷ cs) = (reapable c ≡ false) × NoneReapable cs

-- `rest` is `cs` without its first child that can be reaped.
pub data Reaped (child : Child) : List Child → List Child → Type 0 where
  reap_here : {cs : List Child} → reapable child ≡ true → Reaped child (child ∷ cs) cs
  reap_after :
      {c : Child} {cs rest : List Child}
      → reapable c ≡ false
      → Reaped child cs rest
      → Reaped child (c ∷ cs) (c ∷ rest)

abbrev pub Taken : List Child → Option (Child × List Child) → Type 0
Taken cs none = NoneReapable cs
Taken cs (some (child, rest)) = Reaped child cs rest

Taken-cons :
    (c : Child) (cs : List Child) (o : Option (Child × List Child))
    → reapable c ≡ false
    → Taken cs o
    → Taken (c ∷ cs) (Option.map (λ (r : Child × List Child). (r.0, c ∷ r.1)) o)
Taken-cons c cs none e t = (e, t)
Taken-cons c cs (some (child, rest)) e t = reap_after e t

reap_loop-Taken : (cs : List Child) → Taken cs (reap_loop cs)
unfolding reap_loop
reap_loop-Taken [] = tt
reap_loop-Taken (c ∷ cs) = elim (Bool-cases (reapable c)) [
  | inl e ↦ rw (reap_loop, e) (reap_here e)
  | inr e ↦ rw (reap_loop, e) (Taken-cons c cs _ e (reap_loop-Taken cs))
]

-- the macros by which a program reads a status: the signal, or 0 for an exit; the exit status
abbrev pub termination_signal : ℕ → ℕ
termination_signal status = status % 128

abbrev pub exit_status : ℕ → ℕ
exit_status status = status / 256 % 256

-- what a round must do for each result
abbrev pub Waited : List Child → Bool → Bool → WaitResult → Type 0
Waited cs pending valid sleeps = (pending ≡ false) × NoneReapable cs
Waited cs pending valid (failed rest e) =
    ((e ≡ echild) × (cs ≡ []) × (rest ≡ cs))
    ⊎ (((e ≡ eintr) × (pending ≡ true) × NoneReapable cs × (rest ≡ cs))
        ⊎ ((e ≡ efault) × (valid ≡ false) × ((child : Child) × Reaped child cs rest)))
Waited cs pending valid (reaped rest pid status) =
    (child : Child) × Reaped child cs rest
    × (pid ≡ child.pid)
    × (termination_signal status ≡ child.return_signal % 128)
    × (exit_status status ≡ (if child.return_signal == 0 then child.return_status % 256 else 0))

out_status-read :
    (c : Child)
    → (termination_signal (out_status c) ≡ c.return_signal % 128)
      × (exit_status (out_status c) ≡ (if c.return_signal == 0 then c.return_status % 256 else 0))
unfolding out_status
out_status-read c = elim (ℕ_discrete c.return_signal 0) [
  | yes z ↦ rw (out_status, z) (omega arith, omega arith)
  | no ne ↦ rw (out_status, ==-ne c.return_signal 0 ne) (omega arith, omega arith)
]

-- A round of `sys_waitpid` reaps the first child that is a zombie and can be reaped, whatever pid is
-- asked for: it alone is removed, its pid is returned, and the status reads back as its signal,
-- or as the low byte of its exit status. Without children it fails with -ECHILD, with none that can
-- be reaped it fails with -EINTR if a signal is pending and sleeps otherwise, and it fails with
-- -EFAULT only for an invalid pointer, and then with the child removed all the same.
pub sys_waitpid-Waited :
    (cs : List Child) (pid options : ℕ) (pending valid : Bool)
    → Waited cs pending valid (sys_waitpid cs pid options pending valid)
unfolding sys_waitpid
sys_waitpid-Waited [] pid options pending valid = inl (refl, refl, refl)
sys_waitpid-Waited (c ∷ cs) pid options pending valid = elim (Option-cases (reap_loop (c ∷ cs))) [
  | inl z ↦
      let t : NoneReapable (c ∷ cs) = rw z at (reap_loop-Taken (c ∷ cs)) in
      elim (Bool-cases pending) [
        | inl p ↦ rw (sys_waitpid, z, p) (inr (inl (refl, refl, t, refl)))
        | inr p ↦ rw (sys_waitpid, z, p) (refl, t)
      ]
  | inr ((child, rest), z) ↦
      let t : Reaped child (c ∷ cs) rest = rw z at (reap_loop-Taken (c ∷ cs)) in
      elim (Bool-cases valid) [
        | inl v ↦
            rw (sys_waitpid, z, v)
              (child, t, refl, (out_status-read child).0, (out_status-read child).1)
        | inr v ↦ rw (sys_waitpid, z, v) (inr (inr (refl, refl, (child, t))))
      ]
]

-- ===== src/Prelude/Errno.antt =====
-- Results of calls that return `-E…` on failure (kernel/include/ernno.h).
use monolith.Prelude.{inl, inr, refl, ◌≡◌, ◌⊎◌}

pub data Errno : Type 0 where
  eperm enoent esrch eintr ebadf echild enomem efault eexist enodev enotdir eisdir : Errno
  einval enfile emfile enotty espipe enosys eafnosupport eaddrinuse enetunreach enotsup enxio :
      Errno

pub data Result {ℓ} (A : Type ℓ) : Type ℓ where
  ok : A → Result A
  err : Errno → Result A

-- To split on a result and keep the equation.
pub Result-cases {ℓ} :
    {A : Type ℓ} (r : Result A) → ((a : A) × (r ≡ ok a)) ⊎ ((e : Errno) × (r ≡ err e))
Result-cases (ok a) = inl (a, refl)
Result-cases (err e) = inr (e, refl)

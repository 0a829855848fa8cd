-- ===== src/Sched/Mutex/Holders.antt =====
-- Who holds the mutex of kernel/sys/mutex.c.
use monolith.Prelude.{
  ==-self, Bool, Bool-cases, List, [], arith, false, if◌then◌else◌, inl, inr, length, none, not,
  refl, some, suc, true, ℕ, ◌+◌, ◌<◌, ◌||◌, ◌∷◌, ◌≡◌, ◌≤◌, ◌⊎◌,
}
use monolith.Prelude.Members.{contains}
use monolith.Sched.Mutex.{Mutex, mutex_init, mutex_lock, mutex_unlock, remove, wake_first}

-- does a task that is not dead wait
abbrev pub has_live : (ℕ → Bool) → List ℕ → Bool
has_live dead [] = false
has_live dead (t ∷ ts) = not (dead t) || has_live dead ts

-- Calls in any order, where a task calls `mutex_unlock` only while it holds the mutex. The number is
-- that of the calls of `mutex_unlock` that met a waiting task which was not dead.
pub data Calls (dead : ℕ → Bool) : ℕ → Mutex → Type 0 where
  init : Calls dead 0 mutex_init
  lock : {n : ℕ} {m : Mutex} (t : ℕ) → Calls dead n m → Calls dead n (mutex_lock m t)
  unlock :
      {n : ℕ} {m : Mutex} (t : ℕ)
      → Calls dead n m
      → contains t m.holders ≡ true
      → Calls dead (if has_live dead m.waitqueue then suc n else n) (mutex_unlock dead m t)

-- what holds after `n` unlocks that woke a task
pub record Held (n : ℕ) (m : Mutex) : Type 0 where
  pub few : length m.holders ≤ (if m.locked then 1 else 0) + n
  pub owned : m.locked ≡ true → 0 < length m.holders
  pub awaited : 0 < length m.waitqueue → 0 < length m.holders

lock-Held : (n : ℕ) (m : Mutex) (t : ℕ) → Held n m → Held n (mutex_lock m t)
unfolding mutex_lock
lock-Held n m t h = elim (Bool-cases m.locked) [
  | inl e ↦
      rw (mutex_lock, e)
        (record { few = rw e at h.few; owned = λ x. h.owned e; awaited = λ w. h.owned e })
  | inr e ↦
      rw (mutex_lock, e)
        (record {
          few = omega (arith, rw e at h.few);
          owned = λ x. omega arith;
          awaited = λ w. omega arith;
        })
]

length-remove : (t : ℕ) (xs : List ℕ) → contains t xs ≡ true → length (remove t xs) + 1 ≡ length xs
unfolding remove contains
length-remove t [] h = cc
length-remove t (x ∷ xs) h = ground (arith, h, length-remove t xs)

-- the first live task is woken, if there is one
pub wake_first-live :
    (dead : ℕ → Bool) (xs : List ℕ)
    → ((has_live dead xs ≡ false) × (wake_first dead xs ≡ none))
      ⊎ ((has_live dead xs ≡ true) × (t : ℕ) × (ts : List ℕ) × (wake_first dead xs ≡ some (t, ts)))
unfolding wake_first
wake_first-live dead [] = inl (refl, refl)
wake_first-live dead (x ∷ xs) = elim (Bool-cases (dead x)) [
  | inl d ↦ rw d (wake_first-live dead xs)
  | inr d ↦ rw d (inr (refl, x, xs, refl))
]

unlock-Held :
    (dead : ℕ → Bool) (n : ℕ) (m : Mutex) (t : ℕ)
    → Held n m
    → contains t m.holders ≡ true
    → Held (if has_live dead m.waitqueue then suc n else n) (mutex_unlock dead m t)
unfolding mutex_unlock
unlock-Held dead n m t h own =
    let less = length-remove t m.holders own in
    let most : length m.holders ≤ 1 + n = ground (arith, h.few) in
    elim (wake_first-live dead m.waitqueue) [
      | inl (l, w) ↦
          rw (mutex_unlock, l, w)
            (record {
              few = omega (arith, less, most);
              owned = λ e. cc;
              awaited = λ k. absurd (omega (arith, k));
            })
      | inr (l, u, us, w) ↦
          rw (mutex_unlock, l, w)
            (record {
              few = omega (arith, less, most);
              owned = λ e. cc;
              awaited = λ k. omega arith;
            })
    ]

-- Calls of `mutex_lock` and `mutex_unlock` in any order, where only a task that holds the mutex
-- unlocks it. At most one task more holds the mutex than there were unlocks that met a waiting live
-- task, and none more if it is not locked: until the first such unlock the mutex excludes. A locked
-- mutex has a holder, and while a task waits some task holds the mutex, so an unlock is still to come.
pub Calls-Held : {dead : ℕ → Bool} {n : ℕ} {m : Mutex} → Calls dead n m → Held n m
Calls-Held init = record {
  few = omega arith;
  owned = λ e. cc;
  awaited = λ k. absurd (omega (arith, k));
}
Calls-Held (lock {n} {m} t c) = lock-Held n m t (Calls-Held c)
Calls-Held {dead} (unlock {n} {m} t c own) = unlock-Held dead n m t (Calls-Held c) own

-- Under contention the mutex does not exclude: when the only holder unlocks while a live task is
-- first in the queue, that task holds the mutex but the mutex is not locked, so whichever task
-- calls `mutex_lock` next holds it too.
pub unlock_contended :
    (dead : ℕ → Bool) (m : Mutex) (t u v : ℕ) (rest : List ℕ)
    → m.holders ≡ t ∷ []
    → m.waitqueue ≡ u ∷ rest
    → dead u ≡ false
    → let m' = mutex_unlock dead m t in
      (m'.locked ≡ false) × (m'.holders ≡ u ∷ []) × ((mutex_lock m' v).holders ≡ v ∷ u ∷ [])
unfolding mutex_unlock mutex_lock wake_first remove
unlock_contended dead m t u v rest h w alive = ground (arith, ==-self t)

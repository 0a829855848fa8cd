-- ===== src/Prelude/Chains.antt =====
-- Hash tables with chains, as kernel/net/arp.c and kernel/sys/device.c keep them: an array of
-- chains, where the C code walks a chain with `while(entry)` and puts new entries at its front.
use monolith.Prelude.{
  Bool, List, Option, [], get_or, get_or-set_ne, get_or-set_self, if◌then◌else◌, length, length-set,
  none, refl, replicate, set, some, suc, zero, ℕ, ◌<◌, ◌∷◌, ◌≡◌, ◌≢◌,
}

module _ {ℓ} {V : Type ℓ} where
  -- the first entry of a chain that passes the test
  unfoldable pub find : (V → Bool) → List V → Option V
  find p [] = none
  find p (v ∷ vs) = if p v then some v else find p vs

  -- the chain of a hash value
  abbrev pub bucket : List (List V) → ℕ → List V
  bucket t h = get_or t h []

  unfoldable pub push_front : List (List V) → ℕ → V → List (List V)
  push_front t h v = set t h (v ∷ bucket t h)

  pub length-push_front : (t : List (List V)) (h : ℕ) (v : V) → length (push_front t h v) ≡ length t
  unfolding push_front
  length-push_front t h v = length-set t h (v ∷ bucket t h)

  -- every chain of an empty table is empty
  pub bucket-replicate : (n k : ℕ) → bucket (replicate n []) k ≡ []
  bucket-replicate zero k = refl
  bucket-replicate (suc n) zero = refl
  bucket-replicate (suc n) (suc k) = bucket-replicate n k

  pub find-push_front_self :
      (p : V → Bool) (t : List (List V)) (h : ℕ) (v : V)
      → h < length t
      → find p (bucket (push_front t h v) h) ≡ (if p v then some v else find p (bucket t h))
  unfolding push_front find
  find-push_front_self p t h v lt = rw (get_or-set_self t h (v ∷ bucket t h) [] lt)

  pub find-push_front_ne :
      (p : V → Bool) (t : List (List V)) (h k : ℕ) (v : V)
      → h ≢ k
      → find p (bucket (push_front t h v) k) ≡ find p (bucket t k)
  unfolding push_front
  find-push_front_ne p t h k v ne = rw (get_or-set_ne t h k (v ∷ bucket t h) [] ne)

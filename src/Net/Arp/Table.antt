-- ===== src/Net/Arp/Table.antt =====
-- The tables of kernel/net/arp.c: what is found, and who is woken.
use mathlib.Core.Option
use native.Mathlib.Decide.{ℕ_discrete}
use monolith.Net.Arp.{
  ArpEntry, ArpState, WaitEntry, arp_add_entry, arp_get_entry, arp_search_start, buckets,
  join_waiters, wake_waiters,
}
use monolith.Prelude.{
  ==-self, Bool-cases, List, Option, Option-cases, [], arith, false, get_or-set_self, if◌then◌else◌,
  inl, inr, length, none, refl, some, ℕ, ◌%◌, ◌++◌, ◌<◌, ◌==◌, ◌∷◌, ◌≡◌, ◌⊎◌,
}
use monolith.Prelude.Chains.{bucket, find-push_front_ne, find-push_front_self, push_front}

-- both arrays have their 32 chains
pub record IsTable (s : ArpState) : Type 0 where
  pub entries : length s.arp_table ≡ buckets
  pub waiters : length s.arp_waittable ≡ buckets

abbrev pub entry_of : ℕ → List ℕ → ℕ → ℕ → ArpEntry
entry_of address mac htype netdev = record {
  address = address;
  htype = htype;
  mac = mac;
  netdev = netdev;
}

-- the tasks that wait for the address in a chain
abbrev pub waiters_of : ℕ → List WaitEntry → List ℕ
waiters_of address [] = []
waiters_of address (w ∷ ws) = if w.address == address then w.queue else waiters_of address ws

abbrev pub waiting : ArpState → ℕ → List ℕ
waiting s address = waiters_of address (bucket s.arp_waittable (address % buckets))

add-table :
    (s : ArpState) (address : ℕ) (mac : List ℕ) (htype netdev : ℕ)
    → (arp_add_entry s address mac htype netdev).0.arp_table
      ≡ push_front s.arp_table (address % buckets) (entry_of address mac htype netdev)
unfolding arp_add_entry
add-table s address mac htype netdev =
    elim (Option-cases (wake_waiters address (bucket s.arp_waittable (address % buckets)))) [
      | inl z ↦ rw (arp_add_entry, z)
      | inr (r, z) ↦ rw (arp_add_entry, z)
    ]

-- After `arp_add_entry` the address is looked up as the new entry, and every other address as
-- before.
pub arp_get_entry-add :
    (s : ArpState) (address : ℕ) (mac : List ℕ) (htype netdev other : ℕ)
    → IsTable s
    → arp_get_entry (arp_add_entry s address mac htype netdev).0 other ≡ (
        if address == other
        then some (entry_of address mac htype netdev)
        else arp_get_entry s other)
unfolding arp_get_entry
arp_get_entry-add s address mac htype netdev other t =
    rw (arp_get_entry, add-table s address mac htype netdev)
      (elim (ℕ_discrete (address % buckets) (other % buckets)) [
        | no ne ↦
            let differ : (address == other) ≡ false = ground arith in
            rw differ (
              find-push_front_ne (λ e. e.address == other) s.arp_table (address % buckets)
                (other % buckets) (entry_of address mac htype netdev) ne)
        | yes same ↦ rw (← same) (
            find-push_front_self (λ e. e.address == other) s.arp_table (address % buckets)
              (entry_of address mac htype netdev) (omega (arith, t.entries)))
      ])

wake-waiters_of :
    (address : ℕ) (ws : List WaitEntry)
    → (elim (wake_waiters address ws) [ none ↦ [] | some (queue, rest) ↦ queue ])
      ≡ waiters_of address ws
unfolding wake_waiters
wake-waiters_of address [] = refl
wake-waiters_of address (w ∷ ws) = elim (Bool-cases (w.address == address)) [
  | inl e ↦ rw e
  | inr e ↦ rw e (wake-waiters_of address ws)
]

-- `arp_add_entry` wakes exactly the tasks that wait at the first entry for the address.
add-woken :
    (s : ArpState) (address : ℕ) (mac : List ℕ) (htype netdev : ℕ)
    → (arp_add_entry s address mac htype netdev).1 ≡ waiting s address
unfolding arp_add_entry
add-woken s address mac htype netdev =
    let h = wake-waiters_of address (bucket s.arp_waittable (address % buckets)) in
    elim (Option-cases (wake_waiters address (bucket s.arp_waittable (address % buckets)))) [
      | inl z ↦ rw (arp_add_entry, z) (rw z at h)
      | inr (r, z) ↦ rw (arp_add_entry, z) (rw z at h)
    ]

abbrev Joined : ℕ → ℕ → List WaitEntry → Option (List WaitEntry) → Type 0
Joined address task ws none = waiters_of address ws ≡ []
Joined address task ws (some c) = waiters_of address c ≡ waiters_of address ws ++ (task ∷ [])

Joined-cons :
    (address task : ℕ) (w : WaitEntry) (ws : List WaitEntry) (o : Option (List WaitEntry))
    → (w.address == address) ≡ false
    → Joined address task ws o
    → Joined address task (w ∷ ws) (Option.map (λ c. w ∷ c) o)
Joined-cons address task w ws none e h = rw e h
Joined-cons address task w ws (some c) e h = rw e h

join-Joined :
    (address task : ℕ) (ws : List WaitEntry) → Joined address task ws (join_waiters address task ws)
unfolding join_waiters
join-Joined address task [] = refl
join-Joined address task (w ∷ ws) = elim (Bool-cases (w.address == address)) [
  | inl e ↦ rw e (rw e refl)
  | inr e ↦ rw e (Joined-cons address task w ws _ e (join-Joined address task ws))
]

abbrev pub Searched : ArpState → ℕ → ℕ → ArpEntry ⊎ ArpState → Type 0
Searched s address task (inl e) = arp_get_entry s address ≡ some e
Searched s address task (inr s') =
    (arp_get_entry s address ≡ none)
    × (s'.arp_table ≡ s.arp_table)
    × (waiting s' address ≡ waiting s address ++ (task ∷ []))

-- `arp_search` returns the entry that is known for the address; without one the task waits for the
-- address behind those that wait already, and no entry changes.
pub arp_search_start-Searched :
    (s : ArpState) (address task : ℕ)
    → IsTable s
    → Searched s address task (arp_search_start s address task)
unfolding arp_search_start push_front
arp_search_start-Searched s address task t =
    let inside : address % buckets < length s.arp_waittable = omega (arith, t.waiters) in
    elim (Option-cases (arp_get_entry s address)) [
      | inr (e, z) ↦ rw (arp_search_start, z) z
      | inl z ↦
          rw (arp_search_start, z)
            (elim (Option-cases (join_waiters address task chain)) [
              | inl j ↦
                  let h : waiters_of address chain ≡ [] =
                    rw j at (join-Joined address task chain) in
                  rw (arp_search_start, j)
                    (z, refl, rw (push_front, get_or-set_self, inside, ==-self address, h) refl)
              | inr (c, j) ↦
                  let h : waiters_of address c ≡ waiters_of address chain ++ (task ∷ []) =
                    rw j at (join-Joined address task chain) in
                  rw (arp_search_start, j) (z, refl, rw (get_or-set_self, inside, h) refl)
            ])
    ]
  where
    chain : List WaitEntry
    chain = bucket s.arp_waittable (address % buckets)

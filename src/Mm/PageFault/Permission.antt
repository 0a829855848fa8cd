-- ===== src/Mm/PageFault/Permission.antt =====
-- Which page faults kernel/mm/vmm.c serves.
use mathlib.Core.Option.{some-injective}
use mathlib.Core.Path.{subst}
use monolith.Mm.PageFault.{
  FaultAction, asks_file, denied, fault_action, fault_present, fault_write, flag_cow, flag_file,
  has_bit, page_copied, refused, userspace_base, userspace_end, vm_page_fault, zero_filled,
}
use monolith.Mm.PageFault.Digits.{
  denied_iff, digit_one, digit_zero, one_not-zero, writable-has_bit, zero_not-one,
}
use monolith.Mm.VmSpace.{VmObject, get_range}
use monolith.Prelude.{
  Bool, Bool-cases, List, Option-cases, arith, false, inl, inr, ltb, refl, some, sym, true, ℕ, ◌∙◌,
  ◌≡◌, ◌≤◌,
}
use monolith.Prelude.Bits.{bit, bit-le}

-- a fault at a user address in the range, where for each of write, user and fetch that the access
-- has, the range has the permission: their binary digits are 1, 2 and 3 of the fault, and 1, 3 and 2 of
-- the permissions
pub record Allowed (objects : List VmObject) (addr flags : ℕ) (r : VmObject) : Type 0 where
  pub above : userspace_base ≤ addr
  pub below : addr ≤ userspace_end
  pub found : get_range objects addr ≡ some r
  pub can_write : bit flags 1 ≤ bit r.prot 1
  pub can_user : bit flags 2 ≤ bit r.prot 3
  pub can_fetch : bit flags 3 ≤ bit r.prot 2

-- a write to a page that is there, in a range of pages that are copied when they are written
abbrev pub Copies : ℕ → VmObject → Type 0
Copies flags r = (bit flags 0 ≡ 1) × (bit flags 1 ≡ 1) × (bit r.flags 1 ≡ 1)

-- an access to a page that is not there, in a range of a file
abbrev pub Loads : ℕ → VmObject → Type 0
Loads flags r = (bit flags 0 ≡ 0) × (bit r.flags 2 ≡ 1)

module _ (os : List VmObject) (addr flags : ℕ) (shares free_page : Bool)
    (has_fault : VmObject → Bool) where
  -- what has to hold for each action
  abbrev pub Served : Bool → FaultAction → Type 0
  Served has_task refused =
      (r : VmObject)
      → has_task ≡ true
      → Allowed os addr flags r
      → ¬ (Copies flags r × (free_page ≡ true)) × ¬ (Loads flags r × (has_fault r ≡ true))
  Served has_task (zero_filled r) =
      (has_task ≡ true)
      × Allowed os addr flags r
      × Copies flags r
      × (free_page ≡ true)
      × (shares ≡ true)
  Served has_task (page_copied r) =
      (has_task ≡ true)
      × Allowed os addr flags r
      × Copies flags r
      × (free_page ≡ true)
      × (shares ≡ false)
  Served has_task (asks_file r) =
      (has_task ≡ true) × Allowed os addr flags r × Loads flags r × (has_fault r ≡ true)

  refused-at :
      (r : VmObject)
      → get_range os addr ≡ some r
      → ¬ (Copies flags r × (free_page ≡ true))
      → ¬ (Loads flags r × (has_fault r ≡ true))
      → Served true refused
  refused-at r z no_copy no_load = λ q _ a.
      let same : r ≡ q = some-injective _ _ (sym z ∙ a.found) in
      subst
        (λ x. ¬ (Copies flags x × (free_page ≡ true)) × ¬ (Loads flags x × (has_fault x ≡ true)))
        same (no_copy, no_load)

  as_result : (has_task : Bool) (a b : FaultAction) → a ≡ b → Served has_task b → Served has_task a
  as_result has_task a b e v = subst (λ x. Served has_task x) (sym e) v

  module _ (r : VmObject) (a : Allowed os addr flags r) where
    -- an access to a page that is there
    present-Served :
        has_bit flags fault_present ≡ true
        → Served true (fault_action r flags shares free_page (has_fault r))
    unfolding fault_action
    present-Served p =
        let there : bit flags 0 ≡ 1 = digit_one 0 flags p in
        let no_load : ¬ (Loads flags r × (has_fault r ≡ true)) =
          λ l. one_not-zero (bit flags 0) there l.0.0 in
        elim (Bool-cases (has_bit flags fault_write)) [
          | inr w ↦ as_result true _ refused (rw (fault_action, p, w) refl) (
              refused-at r a.found (λ c. zero_not-one (bit flags 1) (digit_zero 1 flags w) c.0.1)
                no_load)
          | inl w ↦ elim (Bool-cases (has_bit r.flags flag_cow)) [
            | inr c ↦ as_result true _ refused (rw (fault_action, p, w, c) (ground arith)) (
                refused-at r a.found
                  (λ x. zero_not-one (bit r.flags 1) (digit_zero 1 r.flags c) x.0.2) no_load)
            | inl c ↦
                let writes : bit flags 1 ≡ 1 = digit_one 1 flags w in
                let copies : Copies flags r = (there, writes, digit_one 1 r.flags c) in
                let can : bit r.prot 1 ≡ 1 = omega (arith, a.can_write, writes, bit-le r.prot 1) in
                let q = writable-has_bit r.prot can in
                elim (Bool-cases free_page) [
                  | inr f ↦
                      as_result true _ refused (rw (fault_action, p, w, c, q, f) refl)
                        (refused-at r a.found (λ x. absurd (cc (x.1, f))) no_load)
                  | inl f ↦ elim (Bool-cases shares) [
                    | inl z ↦
                        as_result true _ (zero_filled r) (rw (fault_action, p, w, c, q, f, z) refl)
                          (refl, a, copies, f, z)
                    | inr z ↦
                        as_result true _ (page_copied r) (rw (fault_action, p, w, c, q, f, z) refl)
                          (refl, a, copies, f, z)
                  ]
                ]
          ]
        ]

    -- an access to a page that is not there
    absent-Served :
        has_bit flags fault_present ≡ false
        → Served true (fault_action r flags shares free_page (has_fault r))
    unfolding fault_action
    absent-Served p =
        let gone : bit flags 0 ≡ 0 = digit_zero 0 flags p in
        let no_copy : ¬ (Copies flags r × (free_page ≡ true)) =
          λ c. zero_not-one (bit flags 0) gone c.0.0 in
        elim (Bool-cases (has_bit r.flags flag_file)) [
          | inr f ↦ as_result true _ refused (rw (fault_action, p, f) refl) (
              refused-at r a.found no_copy
                (λ l. zero_not-one (bit r.flags 2) (digit_zero 2 r.flags f) l.0.1))
          | inl f ↦ elim (Bool-cases (has_fault r)) [
            | inr h ↦
                as_result true _ refused (rw (fault_action, p, f, h) refl)
                  (refused-at r a.found no_copy (λ l. absurd (cc (l.1, h))))
            | inl h ↦
                as_result true _ (asks_file r) (rw (fault_action, p, f, h) refl)
                  (refl, a, (gone, digit_one 2 r.flags f), h)
          ]
        ]

    action-Served : Served true (fault_action r flags shares free_page (has_fault r))
    action-Served = elim (Bool-cases (has_bit flags fault_present)) [
      | inl p ↦ present-Served p
      | inr p ↦ absent-Served p
    ]

module _ (os : List VmObject) (addr flags : ℕ) (shares free_page : Bool)
    (has_fault : VmObject → Bool) where
  refused-Served :
      (has_task : Bool)
      → ((r : VmObject) → has_task ≡ true → ¬ Allowed os addr flags r)
      → Served os addr flags shares free_page has_fault has_task refused
  refused-Served has_task h = λ r t a. absurd (h r t a)

  range-Served :
      ltb addr userspace_base ≡ false
      → ltb userspace_end addr ≡ false
      → Served os addr flags shares free_page has_fault true
          (vm_page_fault true os addr flags shares free_page has_fault)
  unfolding vm_page_fault
  range-Served low high = elim (Option-cases (get_range os addr)) [
    | inl z ↦
        as_result os addr flags shares free_page has_fault true _ refused
          (rw (vm_page_fault, low, high, z) refl)
          (refused-Served true (λ r t a. absurd (cc (z, a.found))))
    | inr (r, z) ↦ elim (Bool-cases (denied r flags)) [
      | inl d ↦
          as_result os addr flags shares free_page has_fault true _ refused
            (rw (vm_page_fault, low, high, z, d) refl)
            (refused-Served true (λ q t a.
              let same : r ≡ q = some-injective _ _ (sym z ∙ a.found) in
              let e : denied q flags ≡ false =
                (denied_iff q flags).1 (a.can_write, a.can_user, a.can_fetch) in
              absurd (cc (same, e, d))))
      | inr d ↦
          let can = (denied_iff r flags).0 d in
          as_result os addr flags shares free_page has_fault true _
            (fault_action r flags shares free_page (has_fault r))
            (rw (vm_page_fault, low, high, z, d) refl)
            (action-Served os addr flags shares free_page has_fault r (record {
              above = ground (arith, low);
              below = ground (arith, high);
              found = z;
              can_write = can.0;
              can_user = can.1;
              can_fetch = can.2;
            }))
    ]
  ]

  -- `vm_page_fault` gives a new page or asks the file only for a task, at an address of user space
  -- inside a range that grants each of write, user and fetch that the access has. A new page is for a
  -- write to a page that is there in a copied range, where there is a free page, and has zeros
  -- exactly if the page that is there is the common page of zeros; the file is asked for a page that
  -- is not there in a range of a file with a fault operation. It refuses only if the task, the
  -- address, a permission or both of these cases fail.
  pub vm_page_fault-Served :
      (has_task : Bool)
      → Served os addr flags shares free_page has_fault has_task
          (vm_page_fault has_task os addr flags shares free_page has_fault)
  unfolding vm_page_fault
  vm_page_fault-Served false =
      as_result os addr flags shares free_page has_fault false _ refused (ground arith)
        (refused-Served false (λ r t a. absurd (cc t)))
  vm_page_fault-Served true = elim (Bool-cases (ltb addr userspace_base)) [
    | inl low ↦
        as_result os addr flags shares free_page has_fault true _ refused
          (rw (vm_page_fault, low) refl)
          (refused-Served true (λ r t a. absurd (ground (arith, low, a.above))))
    | inr low ↦ elim (Bool-cases (ltb userspace_end addr)) [
      | inl high ↦
          as_result os addr flags shares free_page has_fault true _ refused
            (rw (vm_page_fault, low, high) refl)
            (refused-Served true (λ r t a. absurd (ground (arith, high, a.below))))
      | inr high ↦ range-Served low high
    ]
  ]

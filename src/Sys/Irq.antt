-- ===== src/Sys/Irq.antt =====
-- kernel/sys/irq.c: domains of hardware interrupts, and the table that gives each processor vector its
-- handler. Domains, chips, handlers and their payloads are named by numbers.
pub mod Dispatch
mod Tests
use mathlib.Core.Option
use monolith.Prelude.{
  Bool, List, Option, [], get_or, if◌then◌else◌, leb, ltb, none, set, some, true, ℕ, ◌%◌, ◌&&◌,
  ◌++◌, ◌+◌, ◌-◌, ◌==◌, ◌∷◌,
}
use monolith.Prelude.Words.{u32_mod}

-- `irq_domain_t`
pub record IrqDomain : Type 0 where
  pub first_irq : ℕ
  pub last_irq : ℕ
  pub msi_address : ℕ
  pub has_eoi : Bool

-- `virq_t`
pub record Virq : Type 0 where
  pub virq_id : ℕ
  pub hwirq : ℕ
  pub domain : IrqDomain
  pub payload : ℕ
  pub handler : Option ℕ

-- `virq_table`, by index, with `none` for an entry that was never written; `virq_alloc`; and the
-- entries that a chip has been told to enable
pub record Irqs : Type 0 where
  pub domains : List IrqDomain
  pub virq_table : List (Option Virq)
  pub virq_alloc : ℕ
  pub enabled : List ℕ

abbrev pub virq_count : ℕ
virq_count = 128

-- What a registration comes to. The C does not look whether the index is inside the table: an index
-- outside it is a result of its own.
pub data Registration : Type 0 where
  virq_none : Registration
  virq_some : ℕ → Registration
  virq_overrun : Registration

unfoldable pub find_hwirq_domain : List IrqDomain → ℕ → Option IrqDomain
find_hwirq_domain [] hwirq = none
find_hwirq_domain (cur ∷ rest) hwirq =
    if leb cur.first_irq hwirq && leb hwirq cur.last_irq
    then some cur
    else find_hwirq_domain rest hwirq

unfoldable pub irq_domain_register : Irqs → IrqDomain → Irqs
irq_domain_register s d =
    if leb d.last_irq d.first_irq then s else record s { domains = s.domains ++ (d ∷ []) }

-- the writes to the next entry of the table, and the call of the chip
unfoldable pub new_virq : Irqs → ℕ → IrqDomain → Option ℕ → ℕ → Irqs × Registration
new_virq s hwirq domain handler payload =
    let virqid = s.virq_alloc in
    let index = (virqid + u32_mod - 32) % u32_mod in
    let virq : Virq = record {
      virq_id = virqid;
      hwirq = hwirq;
      domain = domain;
      payload = payload;
      handler = handler;
    } in
    let s' = record s { virq_alloc = (virqid + 1) % u32_mod } in
    if ltb index virq_count
    then (
      record s' { virq_table = set s.virq_table index (some virq); enabled = virqid ∷ s.enabled },
      virq_some virqid,
    )
    else (s', virq_overrun)

unfoldable pub irq_register : Irqs → ℕ → Option ℕ → ℕ → Irqs × Registration
unfolding find_hwirq_domain new_virq
irq_register s hwirq handler payload = elim (find_hwirq_domain s.domains hwirq) [
  | none ↦ (s, virq_none)
  | some d ↦ new_virq s hwirq d handler payload
]

-- `msix_domain_register`: the new domain, which is not put on the list
unfoldable pub msix_domain_register : ℕ → ℕ → IrqDomain
msix_domain_register num_irqs address = record {
  first_irq = 0;
  last_irq = num_irqs;
  msi_address = address;
  has_eoi = true;
}

unfoldable pub irq_register_msi : Irqs → IrqDomain → ℕ → Option ℕ → ℕ → Irqs × Registration
unfolding new_virq
irq_register_msi s domain hwirq handler payload =
    if domain.msi_address == 0
    then (s, virq_none)
    else if leb domain.last_irq hwirq
    then (s, virq_none)
    else new_virq s hwirq domain handler payload

-- what `irq_dispatch` does: the handler that it calls, with its payload, and whether it signals the
-- end of the interrupt
pub data Dispatched : Type 0 where
  not_mapped dispatch_overrun : Dispatched
  dispatched : Option (ℕ × ℕ) → Bool → Dispatched

unfoldable pub irq_dispatch : Irqs → ℕ → Dispatched
irq_dispatch s id =
    let index = (id + u32_mod - 32) % u32_mod in
    let entry = elim (get_or s.virq_table index none) as (λ _. Dispatched) [
      | none ↦ not_mapped
      | some v ↦ dispatched (Option.map (λ f. (f, v.payload)) v.handler) v.domain.has_eoi
    ] in
    if ltb index virq_count then entry else dispatch_overrun

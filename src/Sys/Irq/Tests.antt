-- ===== src/Sys/Irq/Tests.antt =====
-- Runs of kernel/sys/irq.c, and its theorem at them.
use monolith.Prelude.{
  Option, [], arith, length-replicate, none, refl, replicate, some, true, ◌<◌, ◌∷◌, ◌≡◌, ◌≤◌, ◌⊎◌,
}
use monolith.Sys.Irq.{
  IrqDomain, Irqs, Virq, dispatched, irq_dispatch, irq_register, new_virq, virq_count, virq_none,
  virq_overrun, virq_some,
}
use monolith.Sys.Irq.Dispatch.{IsIrqs, Registered, new_virq-Outcome}

abbrev ioapic : IrqDomain
ioapic = record { first_irq = 0; last_irq = 23; msi_address = 0; has_eoi = true }

abbrev booted : Irqs
booted = record {
  domains = ioapic ∷ [];
  virq_table = replicate virq_count none;
  virq_alloc = 32;
  enabled = [];
}

-- the keyboard, on interrupt 1
dispatch_runs : irq_dispatch (irq_register booted 1 (some 9) 0).0 32 ≡ dispatched (some (9, 0)) true
unfolding irq_dispatch irq_register
dispatch_runs = refl

unknown_runs : (irq_register booted 24 (some 9) 0).1 ≡ virq_none
unfolding irq_register
unknown_runs = refl

booted-IsIrqs : IsIrqs booted
booted-IsIrqs = record {
  table_size = length-replicate {A = Option Virq} virq_count none;
  from_32 = omega arith;
}

new_virq-Outcome_example :
    ((32 < 160)
      × ((s' : Irqs) × (new_virq booted 1 ioapic (some 9) 0 ≡ (s', virq_some 32))
          × Registered booted ioapic (some 9) 0 s'))
    ⊎ ((160 ≤ 32) × ((new_virq booted 1 ioapic (some 9) 0).1 ≡ virq_overrun))
new_virq-Outcome_example = new_virq-Outcome booted 1 ioapic (some 9) 0 booted-IsIrqs

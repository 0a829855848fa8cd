-- ===== src/Dev/Device.antt =====
-- kernel/sys/device.c: the tables of character and of block devices. Their spinlocks make each call
-- one step. Data and operations are the addresses of what they point to, 0 for nullptr.
use native.Mathlib.Decide.{ℕ_discrete}
use monolith.Prelude.{
  ==-ne, List, Option, ap, arith, false, if◌then◌else◌, length, some, ℕ, ◌%◌, ◌/◌, ◌==◌, ◌^◌, ◌≡◌,
}
use monolith.Prelude.Chains.{bucket, find, find-push_front_ne, find-push_front_self, push_front}

-- `struct char_device`
pub record CharDevice : Type 0 where
  pub dev : ℕ
  pub data_ptr : ℕ
  pub fops : ℕ

-- `struct block_device`
pub record BlockDevice : Type 0 where
  pub dev : ℕ
  pub data_ptr : ℕ
  pub fops : ℕ
  pub bd_ops : ℕ

-- `dev_major` and `dev_minor` (kernel/include/sys/device.h)
unfoldable pub dev_major : ℕ → ℕ
dev_major dev = dev / 2 ^ 32 % 2 ^ 32

unfoldable pub dev_minor : ℕ → ℕ
dev_minor dev = dev % 2 ^ 32

-- The first argument is the address of default_fops.
unfoldable pub chardev_new : ℕ → List (List CharDevice) → ℕ → List (List CharDevice)
unfolding push_front dev_major
chardev_new default_fops table dev =
    push_front table (dev_major dev % 256) (record { dev = dev; data_ptr = 0; fops = default_fops })

-- The first two arguments are the addresses of default_fops and of default_bd_ops.
unfoldable pub blockdev_new : ℕ → ℕ → List (List BlockDevice) → ℕ → List (List BlockDevice)
unfolding push_front dev_major
blockdev_new default_fops default_bd_ops table dev =
    push_front table (dev_major dev % 256)
      (record { dev = dev; data_ptr = 0; fops = default_fops; bd_ops = default_bd_ops })

unfoldable pub chardev_lookup : List (List CharDevice) → ℕ → Option CharDevice
unfolding find dev_major
chardev_lookup table dev = find (λ d. d.dev == dev) (bucket table (dev_major dev % 256))

unfoldable pub blockdev_lookup : List (List BlockDevice) → ℕ → Option BlockDevice
unfolding find dev_major
blockdev_lookup table dev = find (λ d. d.dev == dev) (bucket table (dev_major dev % 256))

-- In a table of 256 chains, the device number of a `chardev_new` is looked up as the new device,
-- and every other number as before.
pub chardev_lookup-new :
    (default_fops : ℕ) (table : List (List CharDevice)) (dev other : ℕ)
    → length table ≡ 256
    → chardev_lookup (chardev_new default_fops table dev) other ≡ (
        if dev == other
        then some (record { dev = dev; data_ptr = 0; fops = default_fops })
        else chardev_lookup table other)
unfolding chardev_lookup chardev_new
chardev_lookup-new default_fops table dev other len =
    elim (ℕ_discrete (dev_major dev % 256) (dev_major other % 256)) [
      | no ne ↦
          let differ : (dev == other) ≡ false =
            ==-ne dev other (λ e. ne (ap (λ x. dev_major x % 256) e)) in
          rw differ (
            find-push_front_ne (λ d. d.dev == other) table (dev_major dev % 256)
              (dev_major other % 256) _ ne)
      | yes same ↦ rw (← same) (
          find-push_front_self (λ d. d.dev == other) table (dev_major dev % 256) _
            (omega (arith, len)))
    ]

-- In a table of 256 chains, the device number of a `blockdev_new` is looked up as the new device,
-- and every other number as before.
pub blockdev_lookup-new :
    (default_fops default_bd_ops : ℕ) (table : List (List BlockDevice)) (dev other : ℕ)
    → length table ≡ 256
    → blockdev_lookup (blockdev_new default_fops default_bd_ops table dev) other ≡ (
        if dev == other
        then some (record { dev = dev; data_ptr = 0; fops = default_fops; bd_ops = default_bd_ops })
        else blockdev_lookup table other)
unfolding blockdev_lookup blockdev_new
blockdev_lookup-new default_fops default_bd_ops table dev other len =
    elim (ℕ_discrete (dev_major dev % 256) (dev_major other % 256)) [
      | no ne ↦
          let differ : (dev == other) ≡ false =
            ==-ne dev other (λ e. ne (ap (λ x. dev_major x % 256) e)) in
          rw differ (
            find-push_front_ne (λ d. d.dev == other) table (dev_major dev % 256)
              (dev_major other % 256) _ ne)
      | yes same ↦ rw (← same) (
          find-push_front_self (λ d. d.dev == other) table (dev_major dev % 256) _
            (omega (arith, len)))
    ]

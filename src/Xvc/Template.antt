-- ===== src/Xvc/Template.antt =====
-- modules/xvc-driver/files/xvc-driver.c: the platform driver that the module's template came with. The
-- state of a run is the trace of its calls, the newest first; the answers of the kernel are the parameter
-- `Platform`, one for each call, since a probe makes each call once.
pub mod Held
pub mod Life
use thesis_software.Base.{
  ℕ, zero, suc, ◌+◌, ◌-◌, ◌%◌, ◌^◌, Bool, true, false, Option, none, some, List, [], ◌∷◌,
}
use thesis_software.Base.Int.{ℤ, pos, negsuc, minus}
use thesis_software.Xvc.Shift.{enomem}

-- `struct xvc_driver_local`.
pub record XvcDriverLocal : Type 0 where
  pub irq : ℕ
  pub mem_start : ℕ
  pub mem_end : ℕ
  pub base_addr : Option ℕ

-- A region is its start and its size; a status is 0, or an error number that the call returns as a
-- negative one; `drvdata_set` says whether it was set to the device's structure or to `NULL`.
pub data Event : Type 0 where
  memory_taken : Bool → Event
  memory_freed : Event
  region_taken : ℕ → ℕ → Bool → Event
  region_left : ℕ → ℕ → Event
  mapped : ℕ → ℕ → Option ℕ → Event
  unmapped : Option ℕ → Event
  irq_taken : ℕ → ℕ → Event
  irq_freed : ℕ → Event
  drvdata_set : Bool → Event
  driver_registered : ℕ → Event
  driver_unregistered : Event

abbrev pub Trace : Type 0
Trace = List Event

pub record Platform : Type 0 where
  -- first and last address of the device's memory
  pub memory : Option (ℕ × ℕ)
  -- what `kmalloc` finds in the structure, or `NULL`
  pub kmalloc : Option XvcDriverLocal
  pub request_mem_region : ℕ → ℕ → Bool
  pub ioremap : ℕ → ℕ → Option ℕ
  -- the number of the device's interrupt
  pub interrupt : Option ℕ
  pub request_irq : ℕ → ℕ
  pub register_driver : ℕ

-- An action gives a value and the trace behind it.
abbrev pub Act {ℓ} : Type ℓ → Type ℓ
Act A = Trace → A × Trace

infixl 5 ◌>>=◌ ◌>>◌
abbrev pub ◌>>=◌ {ℓ κ} : {A : Type ℓ} {B : Type κ} → Act A → (A → Act B) → Act B
◌>>=◌ m f t = f (m t).0 (m t).1

abbrev pub ◌>>◌ {κ} : {B : Type κ} → Act (Unit {0}) → Act B → Act B
◌>>◌ m k t = k (m t).1

abbrev pub pure {ℓ} : {A : Type ℓ} → A → Act A
pure a t = (a, t)

abbrev pub event : Event → Act (Unit {0})
event e t = (tt, e ∷ t)

-- The error numbers of the kernel.
abbrev pub eio : ℕ
eio = 5

abbrev pub ebusy : ℕ
ebusy = 16

abbrev pub enodev : ℕ
enodev = 19

-- `lp->mem_end - lp->mem_start + 1`, an `unsigned long` of 64 bits.
abbrev pub region_size : XvcDriverLocal → ℕ
region_size lp = (lp.mem_end + 2 ^ 64 - lp.mem_start + 1) % 2 ^ 64

-- What `probe` returns, and the driver's data behind it.
abbrev pub Probe : Type 0
Probe = ℤ × Option XvcDriverLocal

-- The labels of `probe`.
unfoldable pub error1 : ℤ → Act Probe
error1 rc = do event memory_freed; event (drvdata_set false); pure (rc, none)

unfoldable pub error2 : XvcDriverLocal → ℤ → Act Probe
error2 lp rc = do event (region_left lp.mem_start (region_size lp)); error1 rc

unfoldable pub error3 : XvcDriverLocal → ℤ → Act Probe
error3 lp rc = do event (irq_freed lp.irq); error2 lp rc

-- With the status of `request_irq`.
unfoldable pub with_irq : XvcDriverLocal → ℕ → Act Probe
with_irq lp zero = pure (pos 0, some lp)
with_irq lp (suc e) = error3 lp (minus (suc e))

-- With the device's interrupt.
unfoldable pub with_interrupt : Platform → XvcDriverLocal → Option ℕ → Act Probe
with_interrupt p lp none = pure (pos 0, some lp)
with_interrupt p lp (some start) = do
  let status = p.request_irq start
  event (irq_taken start status)
  with_irq (record lp { irq = start }) status

-- With the result of `ioremap`.
unfoldable pub with_mapping : Platform → XvcDriverLocal → Option ℕ → Act Probe
with_mapping p lp none = error2 (record lp { base_addr = none }) (minus eio)
with_mapping p lp (some base) = with_interrupt p (record lp { base_addr = some base }) p.interrupt

-- With the answer of `request_mem_region`.
unfoldable pub with_region : Platform → XvcDriverLocal → Bool → Act Probe
with_region p lp false = error1 (minus ebusy)
with_region p lp true = do
  let base = p.ioremap lp.mem_start (region_size lp)
  event (mapped lp.mem_start (region_size lp) base)
  with_mapping p lp base

-- With the result of `kmalloc`.
unfoldable pub with_local : Platform → ℕ × ℕ → Option XvcDriverLocal → Act Probe
with_local p r_mem none = do event (memory_taken false); pure (minus enomem, none)
with_local p (start, end) (some junk) = do
  let lp = record junk { mem_start = start; mem_end = end }
  let given = p.request_mem_region start (region_size lp)
  event (memory_taken true)
  event (drvdata_set true)
  event (region_taken start (region_size lp) given)
  with_region p lp given

-- With the device's memory.
unfoldable pub with_memory : Platform → Option (ℕ × ℕ) → Act Probe
with_memory p none = pure (minus enodev, none)
with_memory p (some r_mem) = with_local p r_mem p.kmalloc

unfoldable pub xvc_driver_probe : Platform → Act Probe
xvc_driver_probe p = with_memory p p.memory

-- With the driver's data.
unfoldable pub xvc_driver_remove : XvcDriverLocal → Act ℤ
xvc_driver_remove lp = do
  event (irq_freed lp.irq)
  event (unmapped lp.base_addr)
  event (region_left lp.mem_start (region_size lp))
  event memory_freed
  event (drvdata_set false)
  pure (pos 0)

-- A device that is bound and unbound: `remove` follows a `probe` that returns 0.
unfoldable pub after_probe : Probe → Act ℤ
after_probe (pos zero, some lp) = xvc_driver_remove lp
after_probe (rc, lp) = pure rc

unfoldable pub device_life : Platform → Act ℤ
device_life p = xvc_driver_probe p >>= after_probe

unfoldable pub xvc_driver_init : Platform → Act ℤ
xvc_driver_init p = do event (driver_registered p.register_driver); pure (minus p.register_driver)

unfoldable pub xvc_driver_exit : Act (Unit {0})
xvc_driver_exit = event driver_unregistered

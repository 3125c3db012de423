-- ===== src/Xvc/Module/Calls.antt =====
-- The kernel's device model around xvc_driver_base.c: what the module registers and takes back, in
-- order, and what it is answered. The state of a run is the trace of the calls, the newest first; the
-- answers are the parameter `Core`, which may depend on the whole trace.
use thesis_software.Base.{ℕ, Option, List, ◌∷◌}

-- A pointer of the kernel: `NULL`, an error pointer, or an object.
pub data Pointer : Type 0 where
  null : Pointer
  error : ℕ → Pointer
  object : Pointer

-- A status is 0, or an error number that the code returns as a negative one.
pub data Event : Type 0 where
  region_taken : ℕ → Event
  region_left : Event
  class_created : Pointer → Event
  class_destroyed : Event
  char_added : ℕ → Event
  char_deleted : Event
  device_created : Pointer → Event
  device_destroyed : Event
  remapped : Pointer → Event
  driver_registered : ℕ → Event
  driver_unregistered : Event

abbrev pub Trace : Type 0
Trace = List Event

pub record Core : Type 0 where
  pub take_region : Trace → ℕ
  pub create_class : Trace → Pointer
  pub add_char : Trace → ℕ
  pub create_device : Trace → Pointer
  -- start and size of the platform device's memory
  pub resource : Trace → Option (ℕ × ℕ)
  pub remap : Trace → Pointer
  pub register_driver : Trace → ℕ

-- An action gives a value and the trace behind it.
abbrev pub Act {ℓ} : Type ℓ → Type ℓ
Act A = Trace → A × Trace

infixl 5 ◌>>=◌ ◌>>◌
abbrev pub ◌>>=◌ {ℓ κ} : {A : Type ℓ} {B : Type κ} → Act A → (A → Act B) → Act B
◌>>=◌ m f t = f (m t).0 (m t).1

abbrev pub ◌>>◌ {κ} : {B : Type κ} → Act (Unit {0}) → Act B → Act B
◌>>◌ m k t = k (m t).1

abbrev pub pure {ℓ} : {A : Type ℓ} → A → Act A
pure a t = (a, t)

abbrev pub event : Event → Act (Unit {0})
event e t = (tt, e ∷ t)

-- ===== src/Xvc/Module/Balance.antt =====
-- What the module takes back when it is removed.
use thesis_software.Base.{
  zero, ◌≡◌, ◌⊎◌, Bool, true, false, Option, none, some, [], ◌∷◌, if◌then◌else◌,
}
use thesis_software.Base.Int.{ℤ, pos}
use thesis_software.Xvc.Module.Calls.{
  null, object, region_taken, region_left, class_created, class_destroyed, char_added, char_deleted,
  device_created, device_destroyed, Trace, Core,
}
use thesis_software.Xvc.Module.{ModuleState}

-- What is registered.
pub record Registry : Type 0 where
  pub region : Bool
  pub class : Bool
  pub char : Bool
  pub device : Bool

abbrev pub empty : Registry
empty = record { region = false; class = false; char = false; device = false }

abbrev then_registry : Option Registry → (Registry → Option Registry) → Option Registry
then_registry none f = none
then_registry (some r) f = f r

-- What a trace leaves registered. `none` is a misuse: something registered twice, or taken back
-- while it is not registered.
unfoldable pub registry : Trace → Option Registry
registry [] = some empty
registry (region_taken zero ∷ t) =
    then_registry (registry t) λ r. if r.region then none else some (record r { region = true })
registry (region_left ∷ t) =
    then_registry (registry t) λ r. if r.region then some (record r { region = false }) else none
registry (class_created object ∷ t) =
    then_registry (registry t) λ r. if r.class then none else some (record r { class = true })
registry (class_destroyed ∷ t) =
    then_registry (registry t) λ r. if r.class then some (record r { class = false }) else none
registry (char_added zero ∷ t) =
    then_registry (registry t) λ r. if r.char then none else some (record r { char = true })
registry (char_deleted ∷ t) =
    then_registry (registry t) λ r. if r.char then some (record r { char = false }) else none
registry (device_created object ∷ t) =
    then_registry (registry t) λ r. if r.device then none else some (record r { device = true })
registry (device_destroyed ∷ t) =
    then_registry (registry t) λ r. if r.device then some (record r { device = false }) else none
registry (_ ∷ t) = registry t

-- The kernel gives what is asked for.
pub record Succeeds (core : Core) : Type 0 where
  pub region_given : (t : Trace) → core.take_region t ≡ 0
  pub class_given : (t : Trace) → core.create_class t ≡ object
  pub char_given : (t : Trace) → core.add_char t ≡ 0
  pub device_given : (t : Trace) → core.create_device t ≡ object
  pub bridge_given : (t : Trace) → core.remap t ≡ object
  pub driver_given : (t : Trace) → core.register_driver t ≡ 0

-- Before the first device, behind a device, and with one.
record Fresh (g : ModuleState) (t : Trace) : Type 0 where
  no_class : g.dev_class ≡ null
  no_owner : g.owned ≡ false
  no_bridge : g.db_ptr ≡ null
  only_region :
      registry t ≡ some (record { region = true; class = false; char = false; device = false })

record Behind (g : ModuleState) (t : Trace) : Type 0 where
  has_class : g.dev_class ≡ object
  has_owner : g.owned ≡ true
  no_bridge : g.db_ptr ≡ null
  all_but_device :
      registry t ≡ some (record { region = true; class = true; char = true; device = false })

record Bound (g : ModuleState) (t : Trace) : Type 0 where
  has_class : g.dev_class ≡ object
  has_owner : g.owned ≡ true
  has_bridge : g.db_ptr ≡ object
  all_there : registry t ≡ some (record { region = true; class = true; char = true; device = true })

abbrev Waiting : ModuleState → Trace → Type 0
Waiting g t = Fresh g t ⊎ Behind g t

abbrev Probed : (ℤ × ModuleState) × Trace → Type 0
Probed r = (r.0.0 ≡ pos 0) × Bound r.0.1 r.1

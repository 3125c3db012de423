-- ===== src/Xvc/Module/Failures.antt =====
-- What the module leaves behind a call of the kernel that fails.
use thesis_software.Base.{ℕ, ◌≡◌, refl, sym, ap, subst, none, some, [], ◌∷◌}
use thesis_software.Base.Int.{ℤ, pos, minus}
use thesis_software.Xvc.Shift.{enomem}
use thesis_software.Xvc.Module.Calls.{
  null, error, object, region_taken, region_left, char_deleted, class_destroyed,
  driver_unregistered, class_created, char_added, driver_registered, device_created, remapped,
  Trace, Core,
}
use thesis_software.Xvc.Module.{
  ModuleState, destroy_class, delete_char, cleanup_class, xil_xvc_cleanup, finish_remap,
  remap_bridge, with_new_device, probe_bridge, with_char, with_class, probe_class, probe,
  remove_bridge, remove, with_region, xil_xvc_init, xil_xvc_exit, after_probe, sessions, after_init,
  module_life,
}
use thesis_software.Xvc.Module.Balance.{registry, empty}

-- Where the region, the driver, the class and the character device are always given and
-- `device_create` always fails, a `probe` without a class and a bridge returns 0 all the same. In a
-- module that is loaded, probed once and unloaded, the cleanup behind that `probe` leaves nothing
-- registered; the unloading then deletes the character device and gives back the region a second
-- time, which is a misuse.
pub module_life-misuse :
    (core : Core) (junk : ℤ) (e : ℕ)
    → ((t : Trace) → core.take_region t ≡ 0)
    → ((t : Trace) → core.register_driver t ≡ 0)
    → ((t : Trace) → core.create_class t ≡ object)
    → ((t : Trace) → core.add_char t ≡ 0)
    → ((t : Trace) → core.create_device t ≡ error e)
    → ((g : ModuleState) (t : Trace)
        → g.dev_class ≡ null
        → g.db_ptr ≡ null
        → (probe core junk g t).0.0 ≡ pos 0)
      × ((u : Trace) × (u
            ≡ region_left
              ∷ char_deleted
              ∷ class_destroyed
              ∷ device_created (error e)
              ∷ char_added 0
              ∷ class_created object
              ∷ driver_registered 0
              ∷ region_taken 0
              ∷ [])
          × (registry u ≡ some empty)
          × ((module_life core junk 1 []).1 ≡ region_left ∷ char_deleted ∷ driver_unregistered ∷ u)
          × (registry (module_life core junk 1 []).1 ≡ none))
unfolding probe probe_class with_class with_char probe_bridge with_new_device xil_xvc_cleanup
    cleanup_class destroy_class delete_char remove remove_bridge after_probe sessions after_init
    with_region xil_xvc_init xil_xvc_exit module_life registry
module_life-misuse core junk e region driver class char device =
    let life : (module_life core junk 1 []).1
        ≡ region_left
          ∷ char_deleted
          ∷ driver_unregistered
          ∷ region_left
          ∷ char_deleted
          ∷ class_destroyed
          ∷ device_created (error e)
          ∷ char_added 0
          ∷ class_created object
          ∷ driver_registered 0
          ∷ region_taken 0
          ∷ [] =
      rw
        (
          region [],
          driver (region_taken 0 ∷ []),
          class (driver_registered 0 ∷ region_taken 0 ∷ []),
          char (class_created object ∷ driver_registered 0 ∷ region_taken 0 ∷ []),
          device (char_added 0 ∷ class_created object ∷ driver_registered 0 ∷ region_taken 0 ∷ []),
        )
        refl in
    (
      λ g t a b.
          rw
            (
              a,
              class t,
              char (class_created object ∷ t),
              b,
              device (char_added 0 ∷ class_created object ∷ t),
            )
            refl,
      (_, refl, refl, life, ap registry life),
    )

abbrev KeepsError : Core → ℤ → ℕ → Trace → ModuleState → Type 0
KeepsError core junk e t g =
    (g' : ModuleState) × (t' : Trace) × (probe core junk g t ≡ ((minus enomem, g'), t'))
    × (g'.db_ptr ≡ error e)
    × ((junk' : ℤ) (u : Trace) → probe core junk' g' u ≡ ((pos 0, g'), u))

probe-KeepsError :
    (core : Core) (junk : ℤ) (g : ModuleState) (e : ℕ) (t : Trace)
    → ((t' : Trace) → core.create_device t' ≡ object)
    → ((t' : Trace) → core.remap t' ≡ error e)
    → KeepsError core junk e t (record g { dev_class = object; db_ptr = null })
unfolding probe probe_class probe_bridge with_new_device remap_bridge finish_remap
probe-KeepsError core junk g e t device remap =
    let made = device_created object ∷ t in
    (
      record g { dev_class = object; db_res = core.resource made; db_ptr = error e },
      remapped (error e) ∷ made,
      rw (device t, remap made) refl,
      refl,
      λ junk' u. refl,
    )

-- With a class and no bridge yet, where the device is created and the bridge's memory cannot be
-- mapped, `probe` returns -12 and keeps the error pointer as the bridge's. A `probe` behind it then
-- returns 0 without a call of the kernel, and leaves the error pointer in place.
probe-error_kept :
    (core : Core) (junk : ℤ) (g : ModuleState) (e : ℕ) (t : Trace)
    → g.dev_class ≡ object
    → g.db_ptr ≡ null
    → ((t' : Trace) → core.create_device t' ≡ object)
    → ((t' : Trace) → core.remap t' ≡ error e)
    → (g' : ModuleState) × (t' : Trace) × (probe core junk g t ≡ ((minus enomem, g'), t'))
      × (g'.db_ptr ≡ error e)
      × ((junk' : ℤ) (u : Trace) → probe core junk' g' u ≡ ((pos 0, g'), u))
probe-error_kept core junk g e t class bridge device remap =
    subst (λ c. KeepsError core junk e t (record g { dev_class = c })) (sym class)
      (subst (λ p. KeepsError core junk e t (record g { dev_class = object; db_ptr = p }))
        (sym bridge) (probe-KeepsError core junk g e t device remap))

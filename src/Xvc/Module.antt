-- ===== src/Xvc/Module.antt =====
-- modules/xvc-driver/files/xvc_driver_base.c: what the module registers. The configuration header is
-- empty, so that `CONFIG_COUNT` is 1, `GET_DB_BY_RES` is defined, and the loops over the
-- configurations have one turn.
pub mod Calls
pub mod Balance
pub mod Failures
use thesis_software.Base.{ℕ, zero, suc, Bool, true, false, Option, none, some, [], ◌∷◌}
use thesis_software.Base.Int.{ℤ, pos, negsuc, minus}
use thesis_software.Xvc.Shift.{enomem}
use thesis_software.Xvc.Module.Calls.{
  Pointer, null, error, object, region_taken, region_left, class_created, class_destroyed,
  char_added, char_deleted, device_created, device_destroyed, remapped, driver_registered,
  driver_unregistered, Core, Act, ◌>>=◌, ◌>>◌, pure, event,
}

-- The variables of the file: `xvc_dev_class`, whether `xvc_char_ioc_dev.owner` is set, `db_res` and
-- `db_ptrs[0]`.
pub record ModuleState : Type 0 where
  pub dev_class : Pointer
  pub owned : Bool
  pub db_res : Option (ℕ × ℕ)
  pub db_ptr : Pointer

abbrev pub unloaded : ModuleState
unloaded = record { dev_class = null; owned = false; db_res = none; db_ptr = null }

-- `class_destroy` does nothing to `NULL`.
unfoldable pub destroy_class : Pointer → Act (Unit {0})
destroy_class object = event class_destroyed
destroy_class _ = pure tt

unfoldable pub delete_char : Bool → Act (Unit {0})
delete_char true = event char_deleted
delete_char false = pure tt

-- `xil_xvc_cleanup`, by the class.
unfoldable pub cleanup_class : Pointer → ModuleState → Act ModuleState
cleanup_class (error e) g = pure g
cleanup_class c g = do
  destroy_class c
  delete_char g.owned
  event region_left
  pure (record g { dev_class = null })

unfoldable pub xil_xvc_cleanup : ModuleState → Act ModuleState
xil_xvc_cleanup g = cleanup_class g.dev_class g

-- With the result of `devm_ioremap_resource`.
unfoldable pub finish_remap : ModuleState → Pointer → Act (ℤ × ModuleState)
finish_remap g object = pure (pos 0, record g { db_ptr = object })
finish_remap g p = pure (minus enomem, record g { db_ptr = p })

unfoldable pub remap_bridge : Core → ModuleState → Act (ℤ × ModuleState)
remap_bridge core g t =
    let g' = record g { db_res = core.resource t } in
    finish_remap g' (core.remap t) (remapped (core.remap t) ∷ t)

-- With the result of `device_create`; a failure returns `status` as it is.
unfoldable pub with_new_device : Core → ModuleState → ℤ → Pointer → Act (ℤ × ModuleState)
with_new_device core g status (error e) = do g' ← xil_xvc_cleanup g; pure (status, g')
with_new_device core g status p = remap_bridge core g

-- The loop's turn, by the bridge's pointer.
unfoldable pub probe_bridge : Core → ModuleState → ℤ → Pointer → Act (ℤ × ModuleState)
probe_bridge core g status null t =
    with_new_device core g status (core.create_device t) (device_created (core.create_device t) ∷ t)
probe_bridge core g status p t = ((pos 0, g), t)

-- With the status of `cdev_add`.
unfoldable pub with_char : Core → ModuleState → ℕ → Act (ℤ × ModuleState)
with_char core g zero = probe_bridge core g (pos 0) g.db_ptr
with_char core g (suc e) = do g' ← xil_xvc_cleanup g; pure (minus (suc e), g')

-- With the result of `class_create`.
unfoldable pub with_class : Core → ModuleState → Pointer → Act (ℤ × ModuleState)
with_class core g (error e) t =
    let r = xil_xvc_cleanup (record g { dev_class = error e }) t in ((minus e, r.0), r.1)
with_class core g p t =
    let g' = record g { dev_class = p; owned = true } in
    with_char core g' (core.add_char t) (char_added (core.add_char t) ∷ t)

-- By the class; `status` is not set yet, and holds `junk`.
unfoldable pub probe_class : Core → ℤ → ModuleState → Pointer → Act (ℤ × ModuleState)
probe_class core junk g null t =
    with_class core g (core.create_class t) (class_created (core.create_class t) ∷ t)
probe_class core junk g p t = probe_bridge core g junk g.db_ptr t

unfoldable pub probe : Core → ℤ → ModuleState → Act (ℤ × ModuleState)
probe core junk g = probe_class core junk g g.dev_class

-- `remove`, by the bridge's pointer.
unfoldable pub remove_bridge : Pointer → ModuleState → Act ModuleState
remove_bridge null g = pure g
remove_bridge p g = do event device_destroyed; pure (record g { db_ptr = null })

unfoldable pub remove : ModuleState → Act ModuleState
remove g = remove_bridge g.db_ptr g

-- With the status of `alloc_chrdev_region`.
unfoldable pub with_region : Core → ModuleState → ℕ → Act (ℤ × ModuleState)
with_region core g zero t =
    let status = core.register_driver t in
    ((minus status, record g { db_ptr = null }), driver_registered status ∷ t)
with_region core g (suc e) t = let r = xil_xvc_cleanup g t in ((minus (suc e), r.0), r.1)

unfoldable pub xil_xvc_init : Core → ModuleState → Act (ℤ × ModuleState)
xil_xvc_init core g t =
    with_region core g (core.take_region t) (region_taken (core.take_region t) ∷ t)

unfoldable pub xil_xvc_exit : ModuleState → Act ModuleState
xil_xvc_exit g = do event driver_unregistered; xil_xvc_cleanup g

-- A device of the driver bound and unbound: a `probe` that returns 0 is followed by a `remove`.
unfoldable pub after_probe : ℤ × ModuleState → Act ModuleState
after_probe (pos zero, g) = remove g
after_probe (_, g) = pure g

unfoldable pub sessions : Core → ℤ → ℕ → ModuleState → Act ModuleState
sessions core junk zero g = pure g
sessions core junk (suc n) g = do r ← probe core junk g; g' ← after_probe r; sessions core junk n g'

-- The module from its loading to its removal, with a number of devices one behind the other; a module
-- whose start fails is not removed.
unfoldable pub after_init : Core → ℤ → ℕ → ℤ × ModuleState → Act ModuleState
after_init core junk n (negsuc e, g) = pure g
after_init core junk n (pos k, g) = do g' ← sessions core junk n g; xil_xvc_exit g'

unfoldable pub module_life : Core → ℤ → ℕ → Act ModuleState
module_life core junk n = do r ← xil_xvc_init core unloaded; after_init core junk n r

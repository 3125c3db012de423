-- ===== src/Tests/ModuleTests.antt =====
-- Runs of xvc_driver_base.c.
use thesis_software.Base.{◌≡◌, refl, none, some, [], ◌∷◌, arith, length, take, drop, replicate}
use thesis_software.Base.Int.{pos}
use thesis_software.Xvc.Kernel.{Bytes, done, copied_out}
use thesis_software.Xvc.Shift.{le_value}
use thesis_software.Xvc.Module.Calls.{
  region_left, char_deleted, class_destroyed, device_created, char_added, class_created,
  driver_registered, region_taken, driver_unregistered, Pointer, null, error, object, Trace, Core,
}
use thesis_software.Xvc.Module.{ModuleState, probe, module_life}
use thesis_software.Xvc.Module.Balance.{empty, registry}
use thesis_software.Xvc.Module.Failures.{module_life-misuse}
use thesis_software.Xvc.Ioctl.{
  xdma_rdxvc_props, debug_bridge_compat_string, char_ctrl_ioctl, char_ctrl_ioctl-props,
}
use thesis_software.Tests.ShiftTests.{answering, forty_bits}

-- A kernel with these answers to `device_create` and to the remapping.
abbrev giving : Pointer → Pointer → Core
giving device bridge = record {
  take_region = λ t. 0;
  create_class = λ t. object;
  add_char = λ t. 0;
  create_device = λ t. device;
  resource = λ t. some (0xa000_0000, 0x10000);
  remap = λ t. bridge;
  register_driver = λ t. 0;
}

module_life-misuse_example :
    ((g : ModuleState) (t : Trace)
      → g.dev_class ≡ null
      → g.db_ptr ≡ null
      → (probe (giving (error 12) object) (pos 7) g t).0.0 ≡ pos 0)
    × ((u : Trace) × (u
          ≡ region_left
            ∷ char_deleted
            ∷ class_destroyed
            ∷ device_created (error 12)
            ∷ char_added 0
            ∷ class_created object
            ∷ driver_registered 0
            ∷ region_taken 0
            ∷ [])
        × (registry u ≡ some empty)
        × ((module_life (giving (error 12) object) (pos 7) 1 []).1
            ≡ region_left ∷ char_deleted ∷ driver_unregistered ∷ u)
        × (registry (module_life (giving (error 12) object) (pos 7) 1 []).1 ≡ none))
module_life-misuse_example =
    module_life-misuse (giving (error 12) object) (pos 7) 12 (λ t. refl) (λ t. refl) (λ t. refl)
      (λ t. refl) (λ t. refl)

abbrev stack : Bytes
stack = replicate 64 0xaa

char_ctrl_ioctl-props_example :
    (out : Bytes) × (char_ctrl_ioctl
        (answering forty_bits)
        (some (0xa000_0000, 0x10000))
        stack
        xdma_rdxvc_props
        5
        []
      ≡ done (pos 0) (copied_out 5 out ∷ []))
    × (length out ≡ 80)
    × (le_value (take 8 out) ≡ 0xa000_0000)
    × (le_value (take 8 (drop 8 out)) ≡ 0x10000)
    × (take 9 (drop 16 out) ≡ debug_bridge_compat_string)
    × (drop 25 out ≡ drop 9 stack)
char_ctrl_ioctl-props_example =
    char_ctrl_ioctl-props (answering forty_bits) 0xa000_0000 0x10000 stack 5 [] (omega arith)
      (omega arith) refl (λ t' bs. refl)

-- ===== src/Tests/TemplateTests.antt =====
-- Runs of the template's driver.
use thesis_software.Base.{◌≡◌, refl, true, none, some, []}
use thesis_software.Xvc.Template.{XvcDriverLocal, Platform, xvc_driver_probe, device_life}
use thesis_software.Xvc.Template.Held.{leaking, held, Probed, xvc_driver_probe-Probed}
use thesis_software.Xvc.Template.Life.{device_life-left_over}

abbrev junk : XvcDriverLocal
junk = record { irq = 99; mem_start = 1; mem_end = 2; base_addr = none }

-- A device whose interrupt is refused.
abbrev refusing : Platform
refusing = record {
  memory = some (0xa000_0000, 0xa000_ffff);
  kmalloc = some junk;
  request_mem_region = λ start size. true;
  ioremap = λ start size. some 4096;
  interrupt = some 45;
  request_irq = λ n. 16;
  register_driver = 0;
}

xvc_driver_probe-Probed_example :
    Probed refusing
      (xvc_driver_probe refusing []).0.0
      (xvc_driver_probe refusing []).0.1
      (held (xvc_driver_probe refusing []).1)
xvc_driver_probe-Probed_example = xvc_driver_probe-Probed refusing

device_life-left_over_example : held (device_life refusing []).1 ≡ leaking 4096
device_life-left_over_example =
    device_life-left_over refusing 0xa000_0000 0xa000_ffff 4096 junk
      (record { described = refl; allocated = refl; granted = refl; remapped = refl })

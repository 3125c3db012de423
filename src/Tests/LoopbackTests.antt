-- ===== src/Tests/LoopbackTests.antt =====
-- Runs of loopback-app.c.
use thesis_software.Base.{some, []}
use thesis_software.Base.Int.{pos}
use thesis_software.Loopback.{Scan, Memory}
use thesis_software.Loopback.Main.{loopback_main}
use thesis_software.Loopback.Releases.{Frees, loopback_main-Frees}
use thesis_software.Loopback.Checks.{Checked}
use thesis_software.Loopback.Bounds.{loopback_main-Checked}
use thesis_software.Tests.DmaTests.{calm}

-- Two buffers of 64 bytes.
abbrev sysfs_scan : Scan
sysfs_scan = record { hex = λ bs. 0x3000_0000; dec = λ bs. 64; high = 0 }

-- Both buffers hold the pattern.
abbrev pattern : Memory
pattern = λ t buffer i. i

loopback_main-Frees_example : Frees 3 [] (loopback_main calm sysfs_scan pattern (some (pos 4)) [])
loopback_main-Frees_example = loopback_main-Frees 3 calm sysfs_scan pattern (some (pos 4)) []

loopback_main-Checked_example :
    Checked pattern 4 (loopback_main calm sysfs_scan pattern (some (pos 4)) [])
loopback_main-Checked_example = loopback_main-Checked calm sysfs_scan pattern (pos 4) []

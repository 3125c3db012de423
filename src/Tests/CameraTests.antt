-- ===== src/Tests/CameraTests.antt =====
-- Runs of the camera feed.
use thesis_software.Base.{none, some, [], ◌∷◌, arith}
use thesis_software.Camera.{Feed, run_feed}
use thesis_software.Camera.Ring.{Rings, run_feed-Rings}
use thesis_software.Base.Int.{pos}
use thesis_software.Camera.Start.{feed_main}
use thesis_software.Camera.Releases.{FreesFeed, feed_main-FreesFeed}
use thesis_software.Tests.DmaTests.{calm, no_numbers}

abbrev feed : Feed
feed = record { pid = some 7; phy_dest_addr = 0x4000_0000 }

run_feed-Rings_example : Rings feed (run_feed calm feed 20 [])
run_feed-Rings_example = run_feed-Rings calm feed (omega arith) 20 []

-- No memory can be mapped.
feed_main-FreesFeed_example : FreesFeed 7 [] (
    feed_main
      (record calm { map_memory = λ t fd len. none })
      no_numbers
      3
      1
      2
      (some (pos 12) ∷ [])
      [])
feed_main-FreesFeed_example =
    feed_main-FreesFeed 7 (record calm { map_memory = λ t fd len. none }) no_numbers 3 1 2
      (some (pos 12) ∷ []) []

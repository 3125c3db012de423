-- ===== src/Camera.antt =====
-- apps/filtered-camera-feed-app/files/filtered-camera-feed-app.c, in `Camera.Start` up to where its
-- devices are mapped, and here from there on: the receive channel is started and frames are received into a ring of eight. What sysfs says of the
-- buffer and the process to notify are arguments. Its dma-api.c and helper.c are those of `Dma` and
-- `Helper`.
pub mod Ring
pub mod Start
pub mod Releases
use thesis_software.Base.{
  ℕ, zero, suc, ◌+◌, ◌*◌, ◌%◌, ◌^◌, Bool, true, false, Option, none, some, ◌∷◌, ◌==◌, if◌then◌else◌,
}
use thesis_software.World.{Env, signalled, Act, ◌>>=◌, ◌>>◌, pure, event, sleep_ms}
use thesis_software.Dma.{
  dest_buf_id, DmaReturnValue, dma_received, dma_timeout, dma_failed, reset_dma_channel,
  start_dma_channel, set_dma_channel_address, set_dma_transmission_length,
  wait_dma_transmission_done,
}

-- The process to notify, and the physical address of the buffer.
pub record Feed : Type 0 where
  pub pid : Option ℕ
  pub phy_dest_addr : ℕ

pub record Frames : Type 0 where
  pub frame_index : ℕ
  pub frames_received : ℕ
  pub network_trigger_counter : ℕ

-- Whether the program goes on behind the `kill`.
unfoldable pub notify_visualizer : Env → Option ℕ → Act Bool
notify_visualizer env none t = (true, t)
notify_visualizer env (some pid) t = (env.signal t pid, signalled pid (env.signal t pid) ∷ t)

-- The counters after a frame.
abbrev pub count_frame : Frames → Frames
count_frame s =
    let i = (s.frame_index + 1) % 2 ^ 64 % 8 in
    record {
      frame_index = i;
      frames_received = (s.frames_received + 1) % 2 ^ 64;
      network_trigger_counter =
          if i == 0 then (s.network_trigger_counter + 1) % 2 ^ 64 else s.network_trigger_counter;
    }

-- The next receive transmission, into the ring.
unfoldable pub receive_next : Feed → Frames → Act (Option Frames)
receive_next c s = do
  set_dma_channel_address dest_buf_id ((c.phy_dest_addr + s.frame_index * 4096) % 2 ^ 64)
  set_dma_transmission_length dest_buf_id 4096
  pure (some s)

unfoldable pub on_frame : Env → Feed → Frames → Act (Option Frames)
on_frame env c s = do
  goes_on ← notify_visualizer env c.pid
  let next = receive_next c (count_frame s)
  if goes_on then next else pure none

unfoldable pub on_answer : Env → Feed → Frames → DmaReturnValue → Act (Option Frames)
on_answer env c s dma_received = on_frame env c s
on_answer env c s dma_timeout = pure (some s)
on_answer env c s dma_failed = pure (some s)

-- The body of the loop; `none` is `return 1`.
unfoldable pub feed_round : Env → Feed → Frames → Act (Option Frames)
feed_round env c s = do r ← wait_dma_transmission_done env dest_buf_id 10; on_answer env c s r

unfoldable pub go_on : Option Frames → (Frames → Act (Option Frames)) → Act (Option Frames)
go_on none f = pure none
go_on (some s) f = f s

-- `while (!finished_operation)`, for a number of rounds.
unfoldable pub feed_loop : Env → Feed → ℕ → Frames → Act (Option Frames)
feed_loop env c zero s = pure (some s)
feed_loop env c (suc rounds) s = do
  answer ← feed_round env c s
  go_on answer (feed_loop env c rounds)

unfoldable pub start_feed : Feed → Act (Unit {0})
start_feed c = do
  reset_dma_channel dest_buf_id
  sleep_ms 10
  start_dma_channel dest_buf_id
  set_dma_channel_address dest_buf_id c.phy_dest_addr
  set_dma_transmission_length dest_buf_id 4096

abbrev pub no_frames : Frames
no_frames = record { frame_index = 0; frames_received = 0; network_trigger_counter = 0 }

-- From the start of the channel on, for a number of rounds.
unfoldable pub run_feed : Env → Feed → ℕ → Act (Option Frames)
run_feed env c rounds = do start_feed c; feed_loop env c rounds no_frames

-- ===== src/Stream/Devices.antt =====
-- apps/stream-from-file-app/files/stream-from-file-app.c, from the `open` of the first buffer to the
-- loop: the devices are opened and mapped, released where one fails, and the channels started. What
-- sysfs says of the buffers is an argument.
pub mod Release
pub mod Ready
use Prim.Native.String.{String}
use thesis_software.Base.{ℕ, Option, none, some, ◌∷◌}
use thesis_software.World.{
  Env, opened, closed, mapped, unmapped, Act, ◌>>=◌, ◌>>◌, pure, event, sleep_ms,
}
use thesis_software.Dma.{
  src_buf_id, dest_buf_id, reset_dma_channel, start_dma_channel, set_dma_channel_address,
  set_dma_transmission_length, reg_map_size,
}
use thesis_software.Helper.{Bytes}
use thesis_software.Stream.{Setup, Round, stream_loop, first_state, bytes_per_receive_transmission}

-- The physical addresses and the sizes of the two buffers.
pub record Buffers : Type 0 where
  pub phy_src_addr : ℕ
  pub phy_dest_addr : ℕ
  pub size_src_buf : ℕ
  pub size_dest_buf : ℕ

abbrev pub udmabuf0_dev : String
udmabuf0_dev = "/dev/udmabuf0"

abbrev pub udmabuf1_dev : String
udmabuf1_dev = "/dev/udmabuf1"

abbrev pub uio_dev : String
uio_dev = "/dev/uio4"

-- `exit(1)`, `return 1`, or on to the loop with the source buffer's address.
pub data Start : Type 0 where
  exits : Start
  returns : Start
  starts : ℕ → Start

abbrev open_device : Env → String → Act (Option ℕ)
open_device env path t = let fd = env.open_file t path in (fd, opened path fd ∷ t)

abbrev map_device : Env → ℕ → ℕ → Act (Option ℕ)
map_device env fd len t = let p = env.map_memory t fd len in (p, mapped fd len p ∷ t)

-- Prepare DMAs.
unfoldable pub prepare_dmas : Buffers → Act (Unit {0})
prepare_dmas b = do
  reset_dma_channel src_buf_id
  reset_dma_channel dest_buf_id
  sleep_ms 10
  start_dma_channel dest_buf_id
  start_dma_channel src_buf_id
  set_dma_channel_address dest_buf_id b.phy_dest_addr
  set_dma_channel_address src_buf_id b.phy_src_addr
  set_dma_transmission_length dest_buf_id bytes_per_receive_transmission

-- With both buffers mapped at `src` and `dest`, and the answers of the next call.
unfoldable pub with_regs : Buffers → ℕ → ℕ → ℕ → ℕ → ℕ → Option ℕ → Act Start
with_regs b fd0 fd1 src dest fd_uio none = do
  event (closed fd_uio)
  event (unmapped src b.size_src_buf)
  event (unmapped dest b.size_dest_buf)
  event (closed fd1)
  event (closed fd0)
  pure returns
with_regs b fd0 fd1 src dest fd_uio (some regs) = do prepare_dmas b; pure (starts src)

unfoldable pub with_uio : Env → Buffers → ℕ → ℕ → ℕ → ℕ → Option ℕ → Act Start
with_uio env b fd0 fd1 src dest none = do
  event (unmapped src b.size_src_buf)
  event (unmapped dest b.size_dest_buf)
  event (closed fd1)
  event (closed fd0)
  pure returns
with_uio env b fd0 fd1 src dest (some fd_uio) = do
  regs ← map_device env fd_uio reg_map_size
  with_regs b fd0 fd1 src dest fd_uio regs

unfoldable pub with_dest : Env → Buffers → ℕ → ℕ → ℕ → Option ℕ → Act Start
with_dest env b fd0 fd1 src none = do
  event (unmapped src b.size_src_buf)
  event (closed fd1)
  event (closed fd0)
  pure returns
with_dest env b fd0 fd1 src (some dest) = do
  fd_uio ← open_device env uio_dev
  with_uio env b fd0 fd1 src dest fd_uio

unfoldable pub with_src : Env → Buffers → ℕ → ℕ → Option ℕ → Act Start
with_src env b fd0 fd1 none = do event (closed fd1); event (closed fd0); pure returns
with_src env b fd0 fd1 (some src) = do
  dest ← map_device env fd1 b.size_dest_buf
  with_dest env b fd0 fd1 src dest

unfoldable pub with_buf1 : Env → Buffers → ℕ → Option ℕ → Act Start
with_buf1 env b fd0 none = pure exits
with_buf1 env b fd0 (some fd1) = do
  src ← map_device env fd0 b.size_src_buf
  with_src env b fd0 fd1 src

unfoldable pub with_buf0 : Env → Buffers → Option ℕ → Act Start
with_buf0 env b none = pure exits
with_buf0 env b (some fd0) = do fd1 ← open_device env udmabuf1_dev; with_buf1 env b fd0 fd1

unfoldable pub open_devices : Env → Buffers → Act Start
open_devices env b = do fd0 ← open_device env udmabuf0_dev; with_buf0 env b fd0

-- The loop behind a start, for a number of rounds; `none` where there was none.
unfoldable pub after_start : Env → Setup → Buffers → ℕ → ℕ → Bytes → Start → Act (Option Round)
after_start env c b fill_rounds rounds bytes exits = pure none
after_start env c b fill_rounds rounds bytes returns = pure none
after_start env c b fill_rounds rounds bytes (starts src) = do
  let c' = record c { src_buf = src; phy_dest_addr = b.phy_dest_addr }
  r ← stream_loop env c' fill_rounds rounds (first_state c' bytes)
  pure (some r)

-- From the `open` of the first buffer on; the addresses of `c` are those of the buffers.
unfoldable pub run_streamer : Env → Setup → Buffers → ℕ → ℕ → Bytes → Act (Option Round)
run_streamer env c b fill_rounds rounds bytes = do
  start ← open_devices env b
  after_start env c b fill_rounds rounds bytes start

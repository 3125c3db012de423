-- ===== src/Dma.antt =====
-- apps/stream-from-file-app/files/dma-api.c, with its header (the copy in
-- apps/filtered-camera-feed-app is the same file): the two channels of the AXI DMA engine.
-- `regs + off` is the offset `off`: the base is where the kernel mapped the engine.
pub mod Mm2s
pub mod S2mm
pub mod Status
pub mod Channels
pub mod Wait
pub mod Sysfs
use thesis_software.Base.{
  ℕ, zero, suc, ◌/◌, ◌%◌, ◌^◌, bit_and, bit_or, Bool, true, false, not, ◌==◌, if◌then◌else◌,
}
use thesis_software.World.{Env, Act, ◌>>=◌, ◌>>◌, pure, reg_write32, reg_read32, sleep_ms}

abbrev pub reg_map_size : ℕ
reg_map_size = 0x10000

-- Control bits.
abbrev pub run_stop : ℕ
run_stop = 2 ^ 0

abbrev pub reset : ℕ
reset = 2 ^ 2

abbrev pub enable_irq : ℕ
enable_irq = 0x7000

-- Status bits.
abbrev pub status_idle : ℕ
status_idle = 2 ^ 1

abbrev pub status_err_irq : ℕ
status_err_irq = 2 ^ 14

abbrev pub src_buf_id : ℕ
src_buf_id = 0

abbrev pub dest_buf_id : ℕ
dest_buf_id = 1

pub data DmaReturnValue : Type 0 where
  dma_received dma_timeout dma_failed : DmaReturnValue

-- `(buffer_index == SRC_BUF_ID) ? src : dest`
abbrev pub channel_offset : ℕ → ℕ → ℕ → ℕ
channel_offset buffer_index src dest = if buffer_index == src_buf_id then src else dest

unfoldable pub reset_dma_channel : ℕ → Act (Unit {0})
reset_dma_channel buffer_index = reg_write32 (channel_offset buffer_index Mm2s.ctrl S2mm.ctrl) reset

unfoldable pub start_dma_channel : ℕ → Act (Unit {0})
start_dma_channel buffer_index =
    reg_write32 (channel_offset buffer_index Mm2s.ctrl S2mm.ctrl) (bit_or run_stop enable_irq)

unfoldable pub set_dma_channel_address : ℕ → ℕ → Act (Unit {0})
set_dma_channel_address buffer_index phy_address = do
  let address_lsb = bit_and phy_address 0xffff_ffff % 2 ^ 32
  let address_msb = phy_address / 2 ^ 32 % 2 ^ 32
  reg_write32 (channel_offset buffer_index Mm2s.src_addr S2mm.dest_addr) address_lsb
  reg_write32 (channel_offset buffer_index Mm2s.src_addr_msb S2mm.dest_addr_msb) address_msb

unfoldable pub set_dma_transmission_length : ℕ → ℕ → Act (Unit {0})
set_dma_transmission_length buffer_index transmission_bytes =
    reg_write32 (channel_offset buffer_index Mm2s.length S2mm.length) transmission_bytes

-- `sr & DMA_STATUS_IDLE` and `sr & DMA_STATUS_ERR_IRQ` as conditions.
unfoldable pub is_idle : ℕ → Bool
is_idle sr = not (bit_and sr status_idle == 0)

unfoldable pub is_error : ℕ → Bool
is_error sr = not (bit_and sr status_err_irq == 0)

-- The loop of `waitDmaTransmissionDone`: `timeout_ms` falls by one in each round.
unfoldable pub poll_status : Env → ℕ → ℕ → Act DmaReturnValue
poll_status env sr_off zero = do
  sr ← reg_read32 env sr_off
  if is_idle sr
      then pure dma_received
      else if is_error sr
      then pure dma_failed
      else pure dma_timeout
poll_status env sr_off (suc timeout_ms) = do
  sr ← reg_read32 env sr_off
  let again = do sleep_ms 1; poll_status env sr_off timeout_ms
  if is_idle sr then pure dma_received else if is_error sr then pure dma_failed else again

-- `timeout_ms` is a `uint8_t`.
unfoldable pub wait_dma_transmission_done : Env → ℕ → ℕ → Act DmaReturnValue
wait_dma_transmission_done env buffer_index timeout_ms =
    poll_status env (channel_offset buffer_index Mm2s.status S2mm.status) (timeout_ms % 2 ^ 8)

-- ===== src/Dma/Mm2s.antt =====
-- Register offsets of dma-api.h, memory to stream: the channel that sends.
use Prim.Native.Nat.{ℕ}

abbrev pub ctrl : ℕ
ctrl = 0x00

abbrev pub status : ℕ
status = 0x04

abbrev pub src_addr : ℕ
src_addr = 0x18

abbrev pub src_addr_msb : ℕ
src_addr_msb = 0x1c

abbrev pub length : ℕ
length = 0x28

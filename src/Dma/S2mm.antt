-- ===== src/Dma/S2mm.antt =====
-- Register offsets of dma-api.h, stream to memory: the channel that receives.
use Prim.Native.Nat.{ℕ}

abbrev pub ctrl : ℕ
ctrl = 0x30

abbrev pub status : ℕ
status = 0x34

abbrev pub dest_addr : ℕ
dest_addr = 0x48

abbrev pub dest_addr_msb : ℕ
dest_addr_msb = 0x4c

abbrev pub length : ℕ
length = 0x58

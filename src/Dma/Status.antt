-- ===== src/Dma/Status.antt =====
-- The status bits that the driver tests, as digits of the register's value.
use thesis_software.Base.{ℕ, ◌/◌, ◌%◌, ◌^◌, ◌≡◌, ◌↔◌, true, arith}
use thesis_software.Base.Bits.{bit_and_flag}
use thesis_software.Dma.{is_idle, is_error}

-- `sr & DMA_STATUS_IDLE` is true exactly when bit 1 of the register is set, and
-- `sr & DMA_STATUS_ERR_IRQ` exactly when bit 14 is.
pub status_bits :
    (sr : ℕ)
    → ((is_idle sr ≡ true) ↔ (sr / 2 % 2 ≡ 1)) × ((is_error sr ≡ true) ↔ (sr / 2 ^ 14 % 2 ≡ 1))
unfolding is_idle is_error
status_bits sr = ground (arith, bit_and_flag 1 sr, bit_and_flag 14 sr)

-- ===== src/Server/Uio.antt =====
-- The shift of apps/xvc-driver-app/files/xvcServer.c without `USE_IOCTL`: the server drives the bridge's
-- registers itself. `buffer` holds the TMS bytes and the TDI bytes behind them; `result` is what has been
-- stored of the TDO bytes, one word behind the other.
pub mod Words
pub mod Word
pub mod Loop
use thesis_software.Base.{
  ℕ, zero, suc, ◌+◌, ◌-◌, ◌/◌, ◌%◌, ◌^◌, ◌≤◌, ◌<◌, ◌≡◌, refl, inl, inr, Bool, true, false, Option,
  none, some, [], ◌∷◌, ◌++◌, ltb, ◌==◌, if◌then◌else◌, arith, Bool-cases, length, take, drop,
  length-append,
}
use thesis_software.World.{Env, Trace, wrote, got, Act, ◌>>=◌, ◌>>◌, pure, reg_write32, reg_read32}
use thesis_software.Xvc.Shift.{le_bytes, le_value}
use thesis_software.Helper.{Bytes}

-- `jtag_t`.
abbrev pub length_offset : ℕ
length_offset = 0

abbrev pub tms_offset : ℕ
tms_offset = 4

abbrev pub tdi_offset : ℕ
tdi_offset = 8

abbrev pub tdo_offset : ℕ
tdo_offset = 12

abbrev pub ctrl_offset : ℕ
ctrl_offset = 16

-- `bits_left` is negative behind a last word of 32 bits that are too many, and 0 here; it is not read
-- again then.
pub record Uio : Type 0 where
  pub bytes_left : ℕ
  pub bits_left : ℕ
  pub byte_index : ℕ
  pub result : Bytes

-- `while (ptr->ctrl_offset)`, for a number of polls: whether it has come to an end.
unfoldable pub poll_ctrl : Env → ℕ → Act Bool
poll_ctrl env zero = pure false
poll_ctrl env (suc polls) = do
  ctrl ← reg_read32 env ctrl_offset
  let again = poll_ctrl env polls
  if ctrl == 0 then pure true else again

abbrev pub shift_num_bits : Uio → ℕ
shift_num_bits s = if ltb s.bytes_left 4 then s.bits_left else 32

-- With the end of the polling.
unfoldable pub take_tdo : Env → Uio → ℕ → Bool → Act (Option Uio)
take_tdo env s bits false = pure none
take_tdo env s bits true = do
  tdo ← reg_read32 env tdo_offset
  let n = (bits + 7) / 8
  pure (
      some (record {
        bytes_left = s.bytes_left - n;
        bits_left = s.bits_left - bits;
        byte_index = s.byte_index + n;
        result = s.result ++ le_bytes n tdo;
      }))

-- A word.
unfoldable pub uio_word : Env → ℕ → ℕ → Bytes → Uio → ℕ → Act (Option Uio)
uio_word env polls nr_bytes buffer s bits = do
  let n = (bits + 7) / 8
  reg_write32 length_offset bits
  reg_write32 tms_offset (le_value (take n (drop s.byte_index buffer)))
  reg_write32 tdi_offset (le_value (take n (drop (s.byte_index + nr_bytes) buffer)))
  reg_write32 ctrl_offset 1
  ended ← poll_ctrl env polls
  take_tdo env s bits ended

unfoldable pub after_word : Option Uio → (Uio → Act (Option Uio)) → Act (Option Uio)
after_word none more = pure none
after_word (some s) more = more s

-- `while (bytesLeft > 0)`, for a number of rounds: `none` if it has not come to an end.
unfoldable pub uio_loop : Env → ℕ → ℕ → Bytes → ℕ → Uio → Act (Option Uio)
uio_loop env polls nr_bytes buffer zero s = pure none
uio_loop env polls nr_bytes buffer (suc rounds) s =
    let round : Act (Option Uio) = uio_word env polls nr_bytes buffer s (shift_num_bits s) >>= λ r.
    after_word r (uio_loop env polls nr_bytes buffer rounds) in
    if s.bytes_left == 0 then pure (some s) else round

-- The shift of `len` bits.
unfoldable pub uio_shift : Env → ℕ → ℕ → Bytes → Act (Option Uio)
uio_shift env polls len buffer =
    let nr_bytes = (len + 7) / 8 in
    uio_loop env polls nr_bytes buffer (suc nr_bytes)
      (record { bytes_left = nr_bytes; bits_left = len; byte_index = 0; result = [] })

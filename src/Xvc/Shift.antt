-- ===== src/Xvc/Shift.antt =====
-- modules/xvc-driver/files/xvc_driver.c: the shift of up to 32 bits through the debug bridge, and
-- the `ioctl` that shifts a whole request.
pub mod Word
pub mod Reference
pub mod Loop
pub mod Request
pub mod Returns
pub mod Wraps
pub mod Whole
pub mod Memory
pub mod Balance
use thesis_software.Base.{
  ℕ, zero, suc, ◌+◌, ◌-◌, ◌*◌, ◌/◌, ◌%◌, ◌^◌, bit_and, bit_or, Bool, true, false, not, ◌&&◌, ◌||◌,
  List, [], ◌∷◌, ltb, leb, ◌==◌, if◌then◌else◌,
}
use thesis_software.Base.Int.{ℤ, pos, minus, is_nonzero}
use thesis_software.Xvc.Kernel.{
  Bytes, Buffer, tms_temp, tdi_temp, tdo_temp, Event, wrote, got, allocated, freed, copied_out,
  Trace, XilXvcIoc, Kernel, Outcome, done, fault, Act, ◌>>=◌, ◌>>◌, pure, event, iowrite32,
  ioread32, fit, read_at, write_at,
}

abbrev pub length_reg_offset : ℕ
length_reg_offset = 0

abbrev pub tms_reg_offset : ℕ
tms_reg_offset = 4

abbrev pub tdi_reg_offset : ℕ
tdi_reg_offset = 8

abbrev pub tdo_reg_offset : ℕ
tdo_reg_offset = 12

abbrev pub control_reg_offset : ℕ
control_reg_offset = 16

abbrev pub etimedout : ℕ
etimedout = 110

abbrev pub enomem : ℕ
enomem = 12

abbrev pub efault : ℕ
efault = 14

-- What `xil_xvc_shift_bits` returns, with `*tdo_bits`.
pub record Shifted : Type 0 where
  pub status : ℤ
  pub tdo_bits : ℕ

-- The polling loop with `count` polls left: whether it met the end of the shift.
unfoldable pub poll_control : Kernel → ℕ → Act Bool
poll_control k zero = pure false
poll_control k (suc count) = do
  control_reg_data ← ioread32 k control_reg_offset
  let again = poll_control k count
  if bit_and control_reg_data 1 == 0 then pure true else again

unfoldable pub finish_shift : Kernel → ℕ → Bool → Act Shifted
finish_shift k old false = pure (record { status = minus etimedout; tdo_bits = old })
finish_shift k old true = do
  tdo ← ioread32 k tdo_reg_offset
  pure (record { status = pos 0; tdo_bits = tdo })

unfoldable pub xil_xvc_shift_bits : Kernel → ℕ → ℕ → ℕ → Act Shifted
xil_xvc_shift_bits k tms_bits tdi_bits old = do
  iowrite32 tms_bits tms_reg_offset
  iowrite32 tdi_bits tdi_reg_offset
  control_reg_data ← ioread32 k control_reg_offset
  iowrite32 (bit_or control_reg_data 1) control_reg_offset
  ended ← poll_control k 100
  finish_shift k old ended

-- A `u32` that a little-endian `memcpy` fills from its low end, and its low bytes.
unfoldable pub le_value : Bytes → ℕ
le_value [] = 0
le_value (b ∷ bs) = b + 256 * le_value bs

unfoldable pub le_bytes : ℕ → ℕ → Bytes
le_bytes zero v = []
le_bytes (suc n) v = (v % 256) ∷ le_bytes n (v / 256)

-- The status of the loop and the contents of `tdo_buf_temp`.
pub record Progress : Type 0 where
  pub status : ℤ
  pub tdo : Bytes

-- `if (num_bits - current_bit < shift_num_bits)`: the last word, if it is short, sets the length
-- register.
unfoldable pub set_short_length : ℕ → Act (Unit {0})
set_short_length left = if ltb left 32 then iowrite32 left length_reg_offset else pure tt

-- `current_bit += shift_num_bits` on an `int`.
unfoldable pub add_int : ℕ → ℕ → Act ℕ
add_int a b t = if ltb (a + b) (2 ^ 31) then done (a + b) t else fault t

-- The two `memcpy` into the words, the shift, and, if it succeeds, the `memcpy` out: from byte `off`
-- on, `n` bytes.
unfoldable pub transfer : Kernel → ℕ → ℕ → Bytes → Bytes → Bytes → Act Progress
transfer k off n tms tdi tdo = do
  tms_bytes ← read_at tms off n
  tdi_bytes ← read_at tdi off n
  s ← xil_xvc_shift_bits k (le_value tms_bytes) (le_value tdi_bytes) 0
  let failed = pure (record { status = s.status; tdo = tdo })
  let filled : Act Progress = do
    tdo' ← write_at tdo off (le_bytes n s.tdo_bits)
    pure (record { status = s.status; tdo = tdo' })
  if is_nonzero s.status then failed else filled

-- The loop of `xil_xvc_ioctl`; its rounds are counted by the first number.
unfoldable pub shift_loop : Kernel → ℕ → ℕ → Bytes → Bytes → ℕ → Bytes → Act Progress
shift_loop k zero num_bits tms tdi current_bit tdo = fault
shift_loop k (suc rounds) num_bits tms tdi current_bit tdo =
    let left = num_bits - current_bit in
    let shift_num_bits = if ltb left 32 then left else 32 in
    let round : Act Progress = do
      set_short_length left
      p ← transfer k (current_bit / 8) ((shift_num_bits + 7) / 8) tms tdi tdo
      let next : Act Progress = do
        next_bit ← add_int current_bit shift_num_bits
        shift_loop k rounds num_bits tms tdi next_bit p.tdo
      if is_nonzero p.status then pure p else next
    in if ltb current_bit num_bits then round else pure (record { status = pos 0; tdo = tdo })

-- `cleanup:` with the buffers that are not `NULL`.
unfoldable pub cleanup : List Buffer → ℤ → Act ℤ
cleanup [] status = pure status
cleanup (b ∷ bs) status = do event (freed b); cleanup bs status

-- What is left to do when the shifts are over.
unfoldable pub copy_back : Kernel → XilXvcIoc → Progress → Act ℤ
copy_back k obj p t =
    let all = tms_temp ∷ tdi_temp ∷ tdo_temp ∷ [] in
    if is_nonzero p.status
    then cleanup all p.status t
    else if not (k.copy_out t obj.tdo_buf p.tdo == 0)
    then cleanup all (minus efault) t
    else cleanup all p.status (copied_out obj.tdo_buf p.tdo ∷ t)

-- `kmalloc(size, GFP_KERNEL)`, with what follows a pointer that is not `NULL` and one that is.
abbrev kmalloc : Kernel → Buffer → ℕ → Act ℤ → Act ℤ → Act ℤ
kmalloc k b size allocated_it failed t =
    if k.can_allocate t b size then allocated_it (allocated b size ∷ t) else failed t

-- `copy_from_user`: the bytes left uncopied, and the buffer.
abbrev copy_from_user : Kernel → ℕ → ℕ → Act (ℕ × Bytes)
copy_from_user k src size t = done ((k.copy_in t src size).0, fit size (k.copy_in t src size).1) t

-- From the bypass bit on, with both inputs copied and the output allocated.
unfoldable pub run_request : Kernel → XilXvcIoc → Bytes → Bytes → Bytes → Act ℤ
run_request k obj tms tdi tdo = do
  iowrite32 (if obj.opcode == 2 then 2 else 0) control_reg_offset
  if leb 32 obj.length then iowrite32 0x20 length_reg_offset else pure tt
  p ← shift_loop k (suc (suc (obj.length / 32))) obj.length tms tdi 0 tdo
  copy_back k obj p

-- The TDO buffer is allocated, with whatever it holds.
unfoldable pub with_tdo : Kernel → XilXvcIoc → ℕ → Bytes → Bytes → Act ℤ
with_tdo k obj num_bytes tms tdi t =
    kmalloc k tdo_temp num_bytes (run_request k obj tms tdi (fit num_bytes (k.garbage t tdo_temp)))
      (cleanup (tms_temp ∷ tdi_temp ∷ []) (minus enomem)) t

unfoldable pub with_tdi : Kernel → XilXvcIoc → ℕ → Bytes → Act ℤ
with_tdi k obj num_bytes tms =
    let copy : Act ℤ = do
      (left, tdi) ← copy_from_user k obj.tdi_buf num_bytes
      if left == 0
          then with_tdo k obj num_bytes tms tdi
          else cleanup (tms_temp ∷ tdi_temp ∷ []) (pos left)
    in kmalloc k tdi_temp num_bytes copy (cleanup (tms_temp ∷ []) (minus enomem))

unfoldable pub with_tms : Kernel → XilXvcIoc → ℕ → Act ℤ
with_tms k obj num_bytes =
    let copy : Act ℤ = do
      (left, tms) ← copy_from_user k obj.tms_buf num_bytes
      if left == 0 then with_tdi k obj num_bytes tms else cleanup (tms_temp ∷ []) (pos left)
    in kmalloc k tms_temp num_bytes copy (cleanup [] (minus enomem))

-- `(num_bits + 7) / 8` in `u32`, kept in an `int`.
abbrev pub bytes_for : ℕ → ℕ
bytes_for num_bits = (num_bits + 7) % 2 ^ 32 / 8

unfoldable pub xil_xvc_ioctl : Kernel → ℕ → Act ℤ
xil_xvc_ioctl k arg t =
    let (left, obj) = k.copy_request t arg in
    let invalid = not (obj.opcode == 1) && not (obj.opcode == 2) in
    if not (left == 0)
    then cleanup [] (pos left) t
    else if invalid
    then pure (pos 0) t
    else with_tms k obj (bytes_for obj.length) t

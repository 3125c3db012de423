-- ===== src/Xvc/Shift/Wraps.antt =====
-- `xil_xvc_ioctl` on a length whose number of bytes wraps.
use thesis_software.Base.{
  ℕ, suc, ◌+◌, ◌/◌, ◌%◌, ◌^◌, ◌≤◌, ◌<◌, ◌≡◌, refl, ◌⊎◌, true, false, not, ◌&&◌, [], ◌∷◌, leb, ◌==◌,
  if◌then◌else◌, arith,
}
use thesis_software.Xvc.Kernel.{
  Buffer, tms_temp, tdi_temp, tdo_temp, wrote, allocated, Trace, XilXvcIoc, Kernel, fault, ◌>>=◌,
  fit, read_at,
}
use thesis_software.Xvc.Shift.{
  shift_loop, length_reg_offset, control_reg_offset, bytes_for, run_request, with_tdo, with_tdi,
  with_tms, xil_xvc_ioctl, set_short_length, transfer,
}

-- The first round on empty buffers reads out of them.
transfer_faults : (k : Kernel) (t : Trace) → transfer k 0 4 [] [] [] t ≡ fault t
unfolding transfer read_at
transfer_faults k t = refl

loop_faults :
    (k : Kernel) (rounds num_bits : ℕ) (t : Trace)
    → 32 ≤ num_bits
    → shift_loop k (suc rounds) num_bits [] [] 0 [] t ≡ fault t
unfolding shift_loop set_short_length
loop_faults k rounds num_bits t long = ground (arith, transfer_faults k t)

run_request_faults :
    (k : Kernel) (obj : XilXvcIoc) (t : Trace)
    → 32 ≤ obj.length
    → (t' : Trace) × (run_request k obj [] [] [] t ≡ fault t')
unfolding run_request
run_request_faults k obj t long =
    let whole : leb 32 obj.length ≡ true = ground arith in
    let bypass = wrote control_reg_offset ((if obj.opcode == 2 then 2 else 0) % 2 ^ 32) ∷ t in
    let start = wrote length_reg_offset 0x20 ∷ bypass in
    (start, rw (whole, loop_faults k (suc (obj.length / 32)) obj.length start long, ◌>>=◌))

module _ (k : Kernel) (obj : XilXvcIoc) (long : 32 ≤ obj.length)
    (alloc : (t : Trace) (b : Buffer) → k.can_allocate t b 0 ≡ true)
    (copies : (t : Trace) (src : ℕ) → (k.copy_in t src 0).0 ≡ 0) where
  with_tdo_faults : (t : Trace) → (t' : Trace) × (with_tdo k obj 0 [] [] t ≡ fault t')
  unfolding with_tdo fit
  with_tdo_faults t = rw (alloc t tdo_temp) (run_request_faults k obj _ long)

  with_tdi_faults : (t : Trace) → (t' : Trace) × (with_tdi k obj 0 [] t ≡ fault t')
  unfolding with_tdi fit
  with_tdi_faults t = rw (alloc t tdi_temp) (
      rw (copies (allocated tdi_temp 0 ∷ t) obj.tdi_buf)
        (with_tdo_faults (allocated tdi_temp 0 ∷ t)))

  with_tms_faults : (t : Trace) → (t' : Trace) × (with_tms k obj 0 t ≡ fault t')
  unfolding with_tms fit
  with_tms_faults t = rw (alloc t tms_temp) (
      rw (copies (allocated tms_temp 0 ∷ t) obj.tms_buf)
        (with_tdi_faults (allocated tms_temp 0 ∷ t)))

-- A length of 2 ^ 32 - 7 or more wraps to no bytes at all when 7 is added, but is not 0 for the loop:
-- where buffers of 0 bytes can be allocated and copied into, a request with such a length and a known
-- opcode makes `xil_xvc_ioctl` read outside of its buffers.
pub xil_xvc_ioctl_wraps :
    (k : Kernel) (arg : ℕ) (t : Trace)
    → (k.copy_request t arg).0 ≡ 0
    → ((k.copy_request t arg).1.opcode ≡ 1) ⊎ ((k.copy_request t arg).1.opcode ≡ 2)
    → 2 ^ 32 ≤ (k.copy_request t arg).1.length + 7
    → (k.copy_request t arg).1.length < 2 ^ 32
    → ((t' : Trace) (b : Buffer) → k.can_allocate t' b 0 ≡ true)
    → ((t' : Trace) (src : ℕ) → (k.copy_in t' src 0).0 ≡ 0)
    → (t' : Trace) × (xil_xvc_ioctl k arg t ≡ fault t')
unfolding xil_xvc_ioctl
xil_xvc_ioctl_wraps k arg t whole op big fits alloc copies =
    let obj = (k.copy_request t arg).1 in
    let none_left : bytes_for obj.length ≡ 0 = omega arith in
    let valid : (not (obj.opcode == 1) && not (obj.opcode == 2)) ≡ false = ground arith in
    rw (whole, valid, none_left) (with_tms_faults k obj (omega arith) alloc copies t)

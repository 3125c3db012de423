-- ===== src/Xvc/Shift/Whole.antt =====
-- A whole call of `xil_xvc_ioctl` whose memory is given and whose input can be read.
use thesis_software.Base.{ℕ, ◌^◌, ◌<◌, ◌≡◌, ◌⊎◌, true, false, not, ◌&&◌, ◌∷◌, ◌==◌, arith, length}
use thesis_software.Xvc.Kernel.{
  Bytes, Buffer, tms_temp, tdi_temp, tdo_temp, allocated, Trace, XilXvcIoc, Kernel, fit,
}
use thesis_software.Xvc.Shift.{bytes_for, with_tdo, with_tdi, with_tms, xil_xvc_ioctl}
use thesis_software.Xvc.Shift.Returns.{length-fit}
use thesis_software.Xvc.Shift.Request.{reference_request, run_request-reference_request}

-- The trace when all three buffers are allocated.
abbrev pub with_buffers : ℕ → Trace → Trace
with_buffers n t = allocated tdo_temp n ∷ allocated tdi_temp n ∷ allocated tms_temp n ∷ t

-- The input, as the user's memory gives it.
abbrev pub tms_of : Kernel → XilXvcIoc → Trace → Bytes
tms_of k obj t =
    let n = bytes_for obj.length in fit n (k.copy_in (allocated tms_temp n ∷ t) obj.tms_buf n).1

abbrev pub tdi_of : Kernel → XilXvcIoc → Trace → Bytes
tdi_of k obj t =
    let n = bytes_for obj.length in
    fit n (k.copy_in (allocated tdi_temp n ∷ allocated tms_temp n ∷ t) obj.tdi_buf n).1

module _ (k : Kernel) (obj : XilXvcIoc) (small : obj.length < 2 ^ 31)
    (alloc : (t : Trace) (b : Buffer) → k.can_allocate t b (bytes_for obj.length) ≡ true)
    (copies : (t : Trace) (src : ℕ) → (k.copy_in t src (bytes_for obj.length)).0 ≡ 0) where
  with_tdo-reference_request :
      (tms tdi : Bytes) (t : Trace)
      → length tms ≡ bytes_for obj.length
      → length tdi ≡ bytes_for obj.length
      → with_tdo k obj (bytes_for obj.length) tms tdi t
        ≡ reference_request k obj tms tdi (allocated tdo_temp (bytes_for obj.length) ∷ t)
  unfolding with_tdo
  with_tdo-reference_request tms tdi t a b =
      rw (alloc t tdo_temp)
        (run_request-reference_request k obj tms tdi _ _ small a b (length-fit _ _))

  with_tms-reference_request :
      (t : Trace)
      → with_tms k obj (bytes_for obj.length) t
        ≡ reference_request k obj
            (tms_of k obj t)
            (tdi_of k obj t)
            (with_buffers (bytes_for obj.length) t)
  unfolding with_tms with_tdi
  with_tms-reference_request t =
      let n = bytes_for obj.length in
      let t1 = allocated tms_temp n ∷ t in
      let t2 = allocated tdi_temp n ∷ t1 in
      rw (alloc t tms_temp, copies t1 obj.tms_buf, alloc t1 tdi_temp, copies t2 obj.tdi_buf)
        (with_tdo-reference_request (tms_of k obj t) (tdi_of k obj t) t2 (length-fit _ _)
          (length-fit _ _))

-- With its request read, a known opcode, its buffers allocated and its input copied, a call for fewer
-- than 2 ^ 31 bits is the reference on the bytes that the user's memory gave.
pub xil_xvc_ioctl-reference_request :
    (k : Kernel) (arg : ℕ) (t : Trace) (obj : XilXvcIoc)
    → k.copy_request t arg ≡ (0, obj)
    → (obj.opcode ≡ 1) ⊎ (obj.opcode ≡ 2)
    → obj.length < 2 ^ 31
    → ((t' : Trace) (b : Buffer) → k.can_allocate t' b (bytes_for obj.length) ≡ true)
    → ((t' : Trace) (src : ℕ) → (k.copy_in t' src (bytes_for obj.length)).0 ≡ 0)
    → xil_xvc_ioctl k arg t
      ≡ reference_request k obj
          (tms_of k obj t)
          (tdi_of k obj t)
          (with_buffers (bytes_for obj.length) t)
unfolding xil_xvc_ioctl
xil_xvc_ioctl-reference_request k arg t obj request op small alloc copies =
    let valid : (not (obj.opcode == 1) && not (obj.opcode == 2)) ≡ false = ground arith in
    rw (request, valid) (with_tms-reference_request k obj small alloc copies t)

-- ===== src/Xvc/Shift/Returns.antt =====
-- `xil_xvc_ioctl` comes to an end with no access out of place, on requests below 2 ^ 31 bits.
use thesis_software.Base.{
  ℕ, zero, suc, ◌^◌, ◌<◌, ◌≡◌, refl, ap, ◌∙◌, inl, inr, not, ◌&&◌, List, [], ◌∷◌, leb, ◌==◌, arith,
  Bool-cases, length,
}
use thesis_software.Base.Int.{ℤ, is_nonzero}
use thesis_software.Xvc.Kernel.{
  Bytes, Buffer, tms_temp, tdi_temp, tdo_temp, allocated, freed, Trace, XilXvcIoc, Kernel, Outcome,
  done, fault, fit,
}
use thesis_software.Xvc.Shift.{
  Progress, bytes_for, copy_back, cleanup, run_request, with_tdo, with_tdi, with_tms, xil_xvc_ioctl,
}
use thesis_software.Xvc.Shift.Reference.{byte_count, SameRun}
use thesis_software.Xvc.Shift.Request.{whole_loop-SameRun}

pub length-fit : (n : ℕ) (bs : Bytes) → length (fit n bs) ≡ n
unfolding fit
length-fit zero bs = refl
length-fit (suc n) [] = ap suc (length-fit n [])
length-fit (suc n) (b ∷ bs) = ap suc (length-fit n bs)

-- The action comes to an end with no access out of place.
abbrev pub Returns : Outcome ℤ → Type 0
Returns (done z t) = Unit {0}
Returns (fault t) = ⊥

cleanup-Returns : (bs : List Buffer) (z : ℤ) (t : Trace) → Returns (cleanup bs z t)
unfolding cleanup
cleanup-Returns [] z t = tt
cleanup-Returns (b ∷ bs) z t = cleanup-Returns bs z (freed b ∷ t)

copy_back-Returns :
    (k : Kernel) (obj : XilXvcIoc) (p : Progress) (t : Trace) → Returns (copy_back k obj p t)
unfolding copy_back
copy_back-Returns k obj p t = elim (Bool-cases (is_nonzero p.status)) [
  | inl failed ↦ rw failed (cleanup-Returns _ _ _)
  | inr ok ↦ rw ok (elim (Bool-cases (not (k.copy_out t obj.tdo_buf p.tdo == 0))) [
    | inl cut ↦ rw cut (cleanup-Returns _ _ _)
    | inr whole ↦ rw whole (cleanup-Returns _ _ _)
  ])
]

SameRun-Returns :
    (k : Kernel) (obj : XilXvcIoc) (r r' : Outcome Progress)
    → SameRun r r'
    → Returns (elim r [ done p t ↦ copy_back k obj p t | fault t ↦ fault t ])
SameRun-Returns k obj (done p t) (done p' t') h = copy_back-Returns k obj p t
SameRun-Returns k obj (done p t) (fault t') h = absurd h
SameRun-Returns k obj (fault t) r' h = absurd h

run_request-Returns :
    (k : Kernel) (obj : XilXvcIoc) (tms tdi tdo : Bytes) (t : Trace)
    → obj.length < 2 ^ 31
    → length tms ≡ bytes_for obj.length
    → length tdi ≡ bytes_for obj.length
    → length tdo ≡ bytes_for obj.length
    → Returns (run_request k obj tms tdi tdo t)
unfolding run_request
run_request-Returns k obj tms tdi tdo t small a b c =
    let n : bytes_for obj.length ≡ byte_count obj.length = omega arith in
    let whole = λ (t' : Trace).
      SameRun-Returns k obj _ _
        (whole_loop-SameRun k obj.length tms tdi tdo t' small (a ∙ n, b ∙ n, c ∙ n)) in
    elim (Bool-cases (leb 32 obj.length)) [
      | inl long ↦ rw long (whole _)
      | inr short ↦ rw short (whole _)
    ]

with_tdo-Returns :
    (k : Kernel) (obj : XilXvcIoc) (tms tdi : Bytes) (t : Trace)
    → obj.length < 2 ^ 31
    → length tms ≡ bytes_for obj.length
    → length tdi ≡ bytes_for obj.length
    → Returns (with_tdo k obj (bytes_for obj.length) tms tdi t)
unfolding with_tdo
with_tdo-Returns k obj tms tdi t small a b =
    elim (Bool-cases (k.can_allocate t tdo_temp (bytes_for obj.length))) [
      | inl ok ↦ rw ok (run_request-Returns k obj tms tdi _ _ small a b (length-fit _ _))
      | inr failed ↦ rw failed (cleanup-Returns _ _ _)
    ]

with_tdi-Returns :
    (k : Kernel) (obj : XilXvcIoc) (tms : Bytes) (t : Trace)
    → obj.length < 2 ^ 31
    → length tms ≡ bytes_for obj.length
    → Returns (with_tdi k obj (bytes_for obj.length) tms t)
unfolding with_tdi
with_tdi-Returns k obj tms t small a =
    let n = bytes_for obj.length in
    let t' = allocated tdi_temp n ∷ t in
    elim (Bool-cases (k.can_allocate t tdi_temp n)) [
      | inl ok ↦ rw ok (elim (Bool-cases ((k.copy_in t' obj.tdi_buf n).0 == 0)) [
        | inl whole ↦ rw whole (with_tdo-Returns k obj tms _ _ small a (length-fit _ _))
        | inr cut ↦ rw cut (cleanup-Returns _ _ _)
      ])
      | inr failed ↦ rw failed (cleanup-Returns _ _ _)
    ]

with_tms-Returns :
    (k : Kernel) (obj : XilXvcIoc) (t : Trace)
    → obj.length < 2 ^ 31
    → Returns (with_tms k obj (bytes_for obj.length) t)
unfolding with_tms
with_tms-Returns k obj t small =
    let n = bytes_for obj.length in
    let t' = allocated tms_temp n ∷ t in
    elim (Bool-cases (k.can_allocate t tms_temp n)) [
      | inl ok ↦ rw ok (elim (Bool-cases ((k.copy_in t' obj.tms_buf n).0 == 0)) [
        | inl whole ↦ rw whole (with_tdi-Returns k obj _ _ small (length-fit _ _))
        | inr cut ↦ rw cut (cleanup-Returns _ _ _)
      ])
      | inr failed ↦ rw failed (cleanup-Returns _ _ _)
    ]

-- `xil_xvc_ioctl` on a request of fewer than 2 ^ 31 bits returns for whatever the user's memory, the
-- allocator and the bridge answer: no read or write lies outside of its buffers, and its loop ends.
pub xil_xvc_ioctl-Returns :
    (k : Kernel) (arg : ℕ) (t : Trace)
    → (k.copy_request t arg).1.length < 2 ^ 31
    → Returns (xil_xvc_ioctl k arg t)
unfolding xil_xvc_ioctl
xil_xvc_ioctl-Returns k arg t small =
    let obj = (k.copy_request t arg).1 in
    elim (Bool-cases (not ((k.copy_request t arg).0 == 0))) [
      | inl cut ↦ rw cut (cleanup-Returns _ _ _)
      | inr whole ↦ rw whole (elim (Bool-cases (not (obj.opcode == 1) && not (obj.opcode == 2))) [
        | inl invalid ↦ rw invalid tt
        | inr valid ↦ rw valid (with_tms-Returns k obj t small)
      ])
    ]

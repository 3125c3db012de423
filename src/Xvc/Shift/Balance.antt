-- ===== src/Xvc/Shift/Balance.antt =====
-- The temporary buffers of `xil_xvc_ioctl`: each is freed once, on every path.
use thesis_software.Base.{
  ℕ, suc, ◌/◌, ◌^◌, ◌<◌, ◌≡◌, refl, ◌∙◌, inl, inr, true, not, ◌&&◌, [], ◌∷◌, leb, ◌==◌, Bool-cases,
  Option, some,
}
use thesis_software.Base.Int.{ℤ, is_nonzero}
use thesis_software.Xvc.Kernel.{
  Bytes, tms_temp, tdi_temp, tdo_temp, allocated, Trace, XilXvcIoc, Kernel, Outcome, done, fault,
  Act, ◌>>=◌,
}
use thesis_software.Xvc.Shift.{
  Progress, shift_loop, copy_back, cleanup, run_request, with_tdo, with_tdi, with_tms,
  xil_xvc_ioctl,
}
use thesis_software.Xvc.Shift.Returns.{Returns, xil_xvc_ioctl-Returns}
use thesis_software.Xvc.Shift.Memory.{Held, nothing_held, memory, Leaves, shift_loop-memory}

-- The buffers that a call has allocated when it starts to clean up, and what it frees.
cleanup-memory :
    (t : Trace) (z : ℤ)
    → ((memory t ≡ some nothing_held → Leaves (some nothing_held) (cleanup [] z t))
        × (memory t ≡ some (record nothing_held { tms = true })
            → Leaves (some nothing_held) (cleanup (tms_temp ∷ []) z t))
        × (memory t ≡ some (record nothing_held { tms = true; tdi = true })
            → Leaves (some nothing_held) (cleanup (tms_temp ∷ tdi_temp ∷ []) z t))
        × (memory t ≡ some (record { tms = true; tdi = true; tdo = true })
            → Leaves (some nothing_held) (cleanup (tms_temp ∷ tdi_temp ∷ tdo_temp ∷ []) z t)))
unfolding cleanup memory
cleanup-memory t z = ((λ e. e), (λ e. rw e refl), (λ e. rw e refl), (λ e. rw e refl))

abbrev all_held : Held
all_held = record { tms = true; tdi = true; tdo = true }

-- From here on the call ends with every buffer freed.
abbrev Frees : Outcome ℤ → Type 0
Frees = Leaves (some nothing_held)

copy_back-Frees :
    (k : Kernel) (obj : XilXvcIoc) (p : Progress) (t : Trace)
    → memory t ≡ some all_held
    → Frees (copy_back k obj p t)
unfolding copy_back
copy_back-Frees k obj p t e = elim (Bool-cases (is_nonzero p.status)) [
  | inl failed ↦ rw failed ((cleanup-memory t p.status).3 e)
  | inr ok ↦ rw ok (elim (Bool-cases (not (k.copy_out t obj.tdo_buf p.tdo == 0))) [
    | inl cut ↦ rw cut ((cleanup-memory t _).3 e)
    | inr whole ↦ rw whole ((cleanup-memory _ p.status).3 (unfold memory in e))
  ])
]

-- What follows the loop, whatever the loop did.
Frees-bind :
    (m : Option Held) (r : Outcome Progress) (f : Progress → Act ℤ)
    → Leaves m r
    → ((p : Progress) (t : Trace) → memory t ≡ m → Frees (f p t))
    → Frees (elim r [ done p t ↦ f p t | fault t ↦ fault t ])
Frees-bind m (done p t) f h k = k p t h
Frees-bind m (fault t) f h k = tt

loop-Frees :
    (k : Kernel) (obj : XilXvcIoc) (tms tdi tdo : Bytes) (t : Trace)
    → memory t ≡ some all_held
    → Frees (
        (shift_loop k (suc (suc (obj.length / 32))) obj.length tms tdi 0 tdo >>= copy_back k obj) t)
loop-Frees k obj tms tdi tdo t e =
    Frees-bind (memory t) _ (copy_back k obj) (shift_loop-memory k _ obj.length tms tdi 0 tdo t)
      (λ p t' kept. copy_back-Frees k obj p t' (kept ∙ e))

run_request-Frees :
    (k : Kernel) (obj : XilXvcIoc) (tms tdi tdo : Bytes) (t : Trace)
    → memory t ≡ some all_held
    → Frees (run_request k obj tms tdi tdo t)
unfolding run_request
run_request-Frees k obj tms tdi tdo t e = elim (Bool-cases (leb 32 obj.length)) [
  | inl long ↦ rw long (loop-Frees k obj tms tdi tdo _ (unfold memory in e))
  | inr short ↦ rw short (loop-Frees k obj tms tdi tdo _ (unfold memory in e))
]

allocated-memory :
    (t : Trace) (n : ℕ)
    → (memory t ≡ some nothing_held
        → memory (allocated tms_temp n ∷ t) ≡ some (record nothing_held { tms = true }))
      × (memory t ≡ some (record nothing_held { tms = true })
          → memory (allocated tdi_temp n ∷ t)
            ≡ some (record nothing_held { tms = true; tdi = true }))
      × (memory t ≡ some (record nothing_held { tms = true; tdi = true })
          → memory (allocated tdo_temp n ∷ t) ≡ some all_held)
unfolding memory
allocated-memory t n = ((λ e. rw e refl), (λ e. rw e refl), (λ e. rw e refl))

with_tdo-Frees :
    (k : Kernel) (obj : XilXvcIoc) (n : ℕ) (tms tdi : Bytes) (t : Trace)
    → memory t ≡ some (record nothing_held { tms = true; tdi = true })
    → Frees (with_tdo k obj n tms tdi t)
unfolding with_tdo
with_tdo-Frees k obj n tms tdi t e = elim (Bool-cases (k.can_allocate t tdo_temp n)) [
  | inl ok ↦ rw ok (run_request-Frees k obj tms tdi _ _ ((allocated-memory t n).2 e))
  | inr failed ↦ rw failed ((cleanup-memory t _).2 e)
]

with_tdi-Frees :
    (k : Kernel) (obj : XilXvcIoc) (n : ℕ) (tms : Bytes) (t : Trace)
    → memory t ≡ some (record nothing_held { tms = true })
    → Frees (with_tdi k obj n tms t)
unfolding with_tdi
with_tdi-Frees k obj n tms t e = elim (Bool-cases (k.can_allocate t tdi_temp n)) [
  | inl ok ↦ rw ok (
      let t' = allocated tdi_temp n ∷ t in
      elim (Bool-cases ((k.copy_in t' obj.tdi_buf n).0 == 0)) [
        | inl whole ↦ rw whole (with_tdo-Frees k obj n tms _ t' ((allocated-memory t n).1 e))
        | inr cut ↦ rw cut ((cleanup-memory t' _).2 ((allocated-memory t n).1 e))
      ])
  | inr failed ↦ rw failed ((cleanup-memory t _).1 e)
]

with_tms-Frees :
    (k : Kernel) (obj : XilXvcIoc) (n : ℕ) (t : Trace)
    → memory t ≡ some nothing_held
    → Frees (with_tms k obj n t)
unfolding with_tms
with_tms-Frees k obj n t e = elim (Bool-cases (k.can_allocate t tms_temp n)) [
  | inl ok ↦ rw ok (
      let t' = allocated tms_temp n ∷ t in
      elim (Bool-cases ((k.copy_in t' obj.tms_buf n).0 == 0)) [
        | inl whole ↦ rw whole (with_tdi-Frees k obj n _ t' ((allocated-memory t n).0 e))
        | inr cut ↦ rw cut ((cleanup-memory t' _).1 ((allocated-memory t n).0 e))
      ])
  | inr failed ↦ rw failed ((cleanup-memory t _).0 e)
]

ioctl-Frees :
    (k : Kernel) (arg : ℕ) (t : Trace)
    → memory t ≡ some nothing_held
    → Frees (xil_xvc_ioctl k arg t)
unfolding xil_xvc_ioctl
ioctl-Frees k arg t e =
    let obj = (k.copy_request t arg).1 in
    elim (Bool-cases (not ((k.copy_request t arg).0 == 0))) [
      | inl cut ↦ rw cut ((cleanup-memory t _).0 e)
      | inr whole ↦ rw whole (elim (Bool-cases (not (obj.opcode == 1) && not (obj.opcode == 2))) [
        | inl invalid ↦ rw invalid e
        | inr valid ↦ rw valid (with_tms-Frees k obj _ t e)
      ])
    ]

-- The two facts on one run: it comes to an end, and what it leaves allocated.
returned_memory :
    (m : Option Held) (r : Outcome ℤ)
    → Returns r
    → Leaves m r
    → (z : ℤ) × (t : Trace) × (r ≡ done z t) × (memory t ≡ m)
returned_memory m (done z t) h kept = (z, t, refl, kept)
returned_memory m (fault t) h kept = absurd h

-- A call of `xil_xvc_ioctl` on a request of fewer than 2 ^ 31 bits that starts with none of its three
-- buffers allocated returns, and has then freed each buffer that it allocated, once and not before it
-- was allocated, on its error paths too.
pub xil_xvc_ioctl-Frees :
    (k : Kernel) (arg : ℕ) (t : Trace)
    → (k.copy_request t arg).1.length < 2 ^ 31
    → memory t ≡ some nothing_held
    → (z : ℤ) × (t' : Trace) × (xil_xvc_ioctl k arg t ≡ done z t') × (memory t' ≡ some nothing_held)
xil_xvc_ioctl-Frees k arg t small e =
    returned_memory (some nothing_held) (xil_xvc_ioctl k arg t)
      (xil_xvc_ioctl-Returns k arg t small) (ioctl-Frees k arg t e)

-- ===== src/Xvc/Shift/Request.antt =====
-- A whole request through `xil_xvc_ioctl`: what it returns and hands to the user, and which lengths
-- it can take.
use thesis_software.Base.{
  ℕ, suc, ◌+◌, ◌/◌, ◌%◌, ◌^◌, ◌<◌, ◌≡◌, refl, ◌∙◌, inl, inr, [], leb, ◌==◌, if◌then◌else◌, arith,
  Bool-cases, length,
}
use thesis_software.Base.Int.{ℤ}
use thesis_software.Xvc.Kernel.{
  Bytes, Trace, XilXvcIoc, Kernel, Outcome, done, fault, Act, ◌>>=◌, ◌>>◌, pure, iowrite32,
}
use thesis_software.Xvc.Shift.{
  Progress, shift_loop, length_reg_offset, control_reg_offset, bytes_for, copy_back, run_request,
}
use thesis_software.Xvc.Shift.Reference.{byte_count, shift_words, SameRun}
use thesis_software.Xvc.Shift.Loop.{shift_loop-SameRun}

-- A request as the reference runs it: no output buffer, and the input taken apart word by word.
unfoldable pub reference_request : Kernel → XilXvcIoc → Bytes → Bytes → Act ℤ
reference_request k obj tms tdi = do
  iowrite32 (if obj.opcode == 2 then 2 else 0) control_reg_offset
  if leb 32 obj.length then iowrite32 0x20 length_reg_offset else pure tt
  p ← shift_words k (obj.length / 32) (obj.length % 32) tms tdi []
  copy_back k obj p

pub whole_loop-SameRun :
    (k : Kernel) (num_bits : ℕ) (tms tdi tdo : Bytes) (t : Trace)
    → num_bits < 2 ^ 31
    → (length tms ≡ byte_count num_bits)
      × (length tdi ≡ byte_count num_bits)
      × (length tdo ≡ byte_count num_bits)
    → SameRun
        (shift_loop k (suc (suc (num_bits / 32))) num_bits tms tdi 0 tdo t)
        (shift_words k (num_bits / 32) (num_bits % 32) tms tdi [] t)
whole_loop-SameRun k num_bits tms tdi tdo t small (a, b, c) =
    let rounds : suc (suc (num_bits / 32)) ≡ num_bits / 32 + suc (suc 0) = omega arith in
    rw rounds (
      shift_loop-SameRun k (num_bits / 32) 0 num_bits (num_bits % 32) [] tms [] tdi [] tdo t
        (record {
          left = omega arith;
          short = omega arith;
          in_range = small;
          same_start = (refl, refl);
          tms_left = omega arith;
          tdi_left = omega arith;
          free_left = omega arith;
        }))

-- What follows the loop does not look at the output of a failed run.
copy_back-SameRun :
    (k : Kernel) (obj : XilXvcIoc) (r r' : Outcome Progress)
    → SameRun r r'
    → ◌≡◌ {A = Outcome ℤ}
        (elim r [ done p t ↦ copy_back k obj p t | fault t ↦ fault t ])
        (elim r' [ done p t ↦ copy_back k obj p t | fault t ↦ fault t ])
unfolding copy_back
copy_back-SameRun k obj (done p t) (done p' t') (e, f, g) = ground arith
copy_back-SameRun k obj (done p t) (fault t') h = absurd h
copy_back-SameRun k obj (fault t) r' h = absurd h

-- A request of fewer than 2 ^ 31 bits, with its input and an output buffer of (bits + 7) / 8 bytes,
-- runs like the reference: no access is out of place, and the status, the accesses to the bridge and
-- the bytes that reach the user are those of the reference. They do not depend on what the output
-- buffer held before.
pub run_request-reference_request :
    (k : Kernel) (obj : XilXvcIoc) (tms tdi tdo : Bytes) (t : Trace)
    → obj.length < 2 ^ 31
    → length tms ≡ bytes_for obj.length
    → length tdi ≡ bytes_for obj.length
    → length tdo ≡ bytes_for obj.length
    → run_request k obj tms tdi tdo t ≡ reference_request k obj tms tdi t
unfolding run_request reference_request
run_request-reference_request k obj tms tdi tdo t small a b c =
    let n : bytes_for obj.length ≡ byte_count obj.length = omega arith in
    let same = λ (t' : Trace).
      copy_back-SameRun k obj _ _
        (whole_loop-SameRun k obj.length tms tdi tdo t' small (a ∙ n, b ∙ n, c ∙ n)) in
    elim (Bool-cases (leb 32 obj.length)) [
      | inl long ↦ rw long (same _)
      | inr short ↦ rw short (same _)
    ]

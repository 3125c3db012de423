-- ===== src/Tests/ShiftTests.antt =====
-- Runs of xvc_driver.c.
use thesis_software.Base.{◌≡◌, refl, true, some, [], ◌∷◌, arith, if◌then◌else◌, ◌==◌}
use thesis_software.Base.Int.{ℤ}
use thesis_software.Xvc.Kernel.{Bytes, Kernel, XilXvcIoc, Trace, done}
use thesis_software.Xvc.Shift.{run_request, xil_xvc_ioctl, xil_xvc_shift_bits}
use thesis_software.Xvc.Shift.Word.{WordRun, xil_xvc_shift_bits-WordRun}
use thesis_software.Xvc.Shift.Request.{reference_request, run_request-reference_request}
use thesis_software.Xvc.Shift.Returns.{Returns, xil_xvc_ioctl-Returns}
use thesis_software.Xvc.Shift.Memory.{memory, nothing_held}
use thesis_software.Xvc.Shift.Balance.{xil_xvc_ioctl-Frees}

-- A request of 40 bits at user address 0.
abbrev pub forty_bits : XilXvcIoc
forty_bits = record { opcode = 1; length = 40; tms_buf = 1; tdi_buf = 2; tdo_buf = 3 }

-- The bridge answers at once, and gives 0x11223344 for every word.
abbrev pub answering : XilXvcIoc → Kernel
answering obj = record {
  register = λ t off. if off == 12 then 0x11223344 else 0;
  can_allocate = λ t b n. true;
  garbage = λ t b. 0xaa ∷ 0xbb ∷ [];
  copy_request = λ t arg. (0, obj);
  copy_in = λ t src n. (0, 1 ∷ 2 ∷ 3 ∷ 4 ∷ 5 ∷ []);
  copy_out = λ t dst bs. 0;
}

five : Bytes
five = 1 ∷ 2 ∷ 3 ∷ 4 ∷ 5 ∷ []

xil_xvc_shift_bits-WordRun_example :
    WordRun (answering forty_bits) 5 6 0 [] (xil_xvc_shift_bits (answering forty_bits) 5 6 0 [])
xil_xvc_shift_bits-WordRun_example = xil_xvc_shift_bits-WordRun (answering forty_bits) 5 6 0 []

run_request-reference_request_example :
    run_request (answering forty_bits) forty_bits five five five []
    ≡ reference_request (answering forty_bits) forty_bits five five []
unfolding five
run_request-reference_request_example =
    run_request-reference_request (answering forty_bits) forty_bits five five five [] (omega arith)
      refl refl refl

xil_xvc_ioctl-Returns_example : Returns (xil_xvc_ioctl (answering forty_bits) 0 [])
xil_xvc_ioctl-Returns_example = xil_xvc_ioctl-Returns (answering forty_bits) 0 [] (omega arith)

xil_xvc_ioctl-Frees_example :
    (z : ℤ) × (t' : Trace) × (xil_xvc_ioctl (answering forty_bits) 0 [] ≡ done z t')
    × (memory t' ≡ some nothing_held)
unfolding memory
xil_xvc_ioctl-Frees_example = xil_xvc_ioctl-Frees (answering forty_bits) 0 [] (omega arith) refl

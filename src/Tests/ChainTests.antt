-- ===== src/Tests/ChainTests.antt =====
-- Runs of xvcServer.c with the driver behind it, with a client's script, and without the driver.
use thesis_software.Base.{
  ℕ, ◌≡◌, refl, ap, Option, none, some, List, [], ◌∷◌, ◌++◌, arith, length, take, map, drop,
}
use thesis_software.World.{Env}
use thesis_software.World
use thesis_software.Xvc
use thesis_software.Xvc.Kernel.{Kernel}
use thesis_software.Xvc.Shift.{xil_xvc_ioctl, le_bytes}
use thesis_software.Server.Sockets.{Bytes, Trace, Net, Shifting, refused, shift_asked, done}
use thesis_software.Server.{give_tdo, command, handle_data}
use thesis_software.Server.Stream.{Streams, received, Reads}
use thesis_software.Server.Chain.{
  serving, ioctl_answer, Drives, reference_answer, command-reference_answer,
}
use thesis_software.Server.Client.{shift_text}
use thesis_software.Server.Lengths.{Leaves, handle_data-AllMeasured, command-overlong}
use thesis_software.Server.Script.{Shift, asked, reply_sizes, script, sizes_of, handle_data-script}
use thesis_software.Server.Uio.{Uio, poll_ctrl, uio_shift}
use thesis_software.Server.Uio.Words.{JtagWord, words_shifted, tdo_bytes, reference_words}
use thesis_software.Server.Uio.Loop.{uio_shift-reference_words}
use thesis_software.Tests.ShiftTests.{answering, forty_bits}
use thesis_software.Tests.DmaTests.{calm}
use thesis_software.Tests.ServerTests.{writing, writing-Streams, one_byte, eight_bits}

abbrev kernel : Trace → Kernel
kernel t = answering forty_bits

abbrev or_refused : Option Shifting → Shifting
or_refused none = refused 0
or_refused (some s) = s

-- A network whose ioctl is the driver's.
abbrev driven : Bytes → Net
driven text = record (writing text) {
  shift =
      λ t v tms tdi. or_refused (ioctl_answer (xil_xvc_ioctl (serving (kernel t) v tms tdi) 0 []));
}

driven-Drives : (text : Bytes) → Drives (driven text) kernel
driven-Drives text t v tms tdi s e = ap or_refused e

driven-Streams : (text : Bytes) (fd : ℕ) → Streams (driven text) fd text
driven-Streams text fd = writing-Streams text fd

command-reference_answer_example :
    (u : Trace) × (s : Shifting) × Reads 7 [] u
    × (drop (received 7 u) eight_bits ≡ [])
    × (reference_answer (kernel u) 8 one_byte one_byte ≡ some s)
    × (command (driven eight_bits) 7 []
        ≡ give_tdo (driven eight_bits) 7 1 s (shift_asked 8 one_byte one_byte ∷ u))
unfolding received le_bytes
command-reference_answer_example =
    command-reference_answer (driven eight_bits) kernel (driven-Drives eight_bits) (λ u t b n. refl)
      7 eight_bits [] [] 8 one_byte one_byte (driven-Streams eight_bits 7) refl (omega arith) refl
      refl

-- Eight bits, and none.
abbrev two_shifts : List Shift
two_shifts =
    record { bits = 8; tms = one_byte; tdi = one_byte }
    ∷ record { bits = 0; tms = []; tdi = [] }
    ∷ []

-- A shift of -1 bits.
abbrev minus_one_bit : Bytes
minus_one_bit = shift_text 0xffff_ffff [] []

command-overlong_example :
    ((u : Trace) × Reads 7 [] u
      × (drop (received 7 u) minus_one_bit ≡ [])
      × (command (driven minus_one_bit) 7 []
          ≡ give_tdo
              (driven minus_one_bit)
              7
              0
              ((driven minus_one_bit).shift u 0xffff_ffff [] [])
              (shift_asked 0xffff_ffff [] [] ∷ u)))
    × ((t' : Xvc.Kernel.Trace) × (xil_xvc_ioctl
            (serving (answering forty_bits) 0xffff_ffff [] [])
            0
            []
          ≡ Xvc.Kernel.fault t'))
unfolding received le_bytes
command-overlong_example =
    command-overlong (driven minus_one_bit) 7 minus_one_bit [] [] 0xffff_ffff (answering forty_bits)
      (driven-Streams minus_one_bit 7) refl (omega arith) (omega arith) (λ t' b. refl)

handle_data-AllMeasured_example : Leaves (handle_data (driven eight_bits) 7 30 [])
handle_data-AllMeasured_example =
    handle_data-AllMeasured (driven eight_bits) 7 eight_bits 30 [] (driven-Streams eight_bits 7) tt

handle_data-script_example :
    (u : Trace) × (handle_data (writing (script two_shifts)) 7 3 [] ≡ done (some 1) u)
    × (asked u ≡ asked [] ++ two_shifts)
    × (reply_sizes 7 u ≡ reply_sizes 7 [] ++ sizes_of two_shifts)
unfolding received
handle_data-script_example =
    handle_data-script (writing (script two_shifts)) 7 (script two_shifts)
      (writing-Streams (script two_shifts) 7) (λ t bs. refl) (λ t v tms tdi. (tdi, refl)) two_shifts
      [] ((omega arith, refl, refl), ((omega arith, refl, refl), tt)) refl

-- A bridge that is always done.
abbrev idle : Env
idle = record calm { register = λ t off. 0 }

-- A shift of 57 bits, whose last word has 25.
uio_shift-reference_words_example :
    (s : Uio) × (u : World.Trace) × (uio_shift idle 1 57 (le_bytes 16 0xabcd) [] ≡ (some s, u))
    × (words_shifted u
        ≡ words_shifted []
          ++ reference_words 9 57 (take 8 (le_bytes 16 0xabcd)) (drop 8 (le_bytes 16 0xabcd)))
    × (tdo_bytes u ≡ tdo_bytes [] ++ s.result)
    × (length s.result ≡ 8)
unfolding poll_ctrl
uio_shift-reference_words_example =
    uio_shift-reference_words idle 1 57 (le_bytes 16 0xabcd) [] (λ u. refl)

-- Its last word has 32 bits.
last_word_too_long : map (λ (w : JtagWord). w.bits) (reference_words 9 57 [] []) ≡ 32 ∷ 32 ∷ []
unfolding reference_words
last_word_too_long = refl

-- ===== src/Tests/StreamTests.antt =====
-- Runs of the file streamer.
use thesis_software.Base.{none, ◌≡◌, refl, true, false, some, [], ◌∷◌, arith}
use thesis_software.Helper.{
  read_next_line, read_line, read_tail, skip_blanks, copy_hex, parse_line, hex_lut,
}
use thesis_software.Dma.{
  wait_dma_transmission_done, set_dma_transmission_length, set_dma_channel_address, poll_status,
  is_idle, is_error,
}
use thesis_software.Stream.{
  first_state, Setup, stream_loop, round, fill_chunk, transmit_chunk, notify, receive_frame,
  on_receive, poll_transmit, after_receive, after_fill, after_round,
}
use thesis_software.Helper.{hexchar_to_uint8}
use thesis_software.Helper.Decode.{decode}
use thesis_software.Stream.Words.{words}
use thesis_software.Stream.Sent.{sent, transmitting, bytes_at, byte_at}
use thesis_software.Stream.Steps.{Keeps}
use thesis_software.Stream.Delivery.{stream_loop-Keeps}
use thesis_software.Stream.Repeats.{Repeats, stream_loop-Repeats}
use thesis_software.Stream.Completes.{Complete, stream_loop-Complete}
use thesis_software.Stream.Devices.{Buffers, open_devices, run_streamer}
use thesis_software.Stream.Devices.Release.{Released, open_devices-Released}
use thesis_software.Stream.Devices.Ready.{Quiet}
use thesis_software.Stream.Ring.Start.{Rings, run_streamer-Rings}
use thesis_software.Base.Int.{pos}
use thesis_software.Stream.Main.{process, Around, stream_main}
use thesis_software.Stream.Main.Whole.{Delivered, stream_main-Delivers}
use thesis_software.Tests.DmaTests.{calm, no_numbers}
use thesis_software.Tests.HelperTests.{codes, zeros, word}

abbrev one_word : Setup
one_word = record {
  whole = codes "# one\n" ∷ codes "0123456789abcdef\n" ∷ [];
  loop_file = false;
  pid = some 7;
  src_buf = 64;
  phy_dest_addr = 0x4000_0000;
}

sends : sent 64 (stream_loop calm one_word 3 1 (first_state one_word zeros) []).1 ≡ word
unfolding stream_loop round fill_chunk transmit_chunk after_receive after_fill after_round
    read_next_line read_line read_tail skip_blanks copy_hex parse_line hex_lut sent bytes_at byte_at
    wait_dma_transmission_done set_dma_transmission_length set_dma_channel_address poll_status
    is_idle is_error notify receive_frame on_receive poll_transmit
sends = refl

stream_loop-Keeps_example :
    Keeps 64
      (words one_word.whole)
      (stream_loop calm one_word 129 3 (first_state one_word zeros) [])
unfolding sent transmitting
stream_loop-Keeps_example =
    stream_loop-Keeps calm one_word 129 3 zeros [] refl (omega arith) refl (ground arith) refl refl

stream_loop-Complete_example : Complete 64 (words one_word.whole) (
    stream_loop
      (record calm { register = λ t off. 2 })
      one_word
      129
      3
      (first_state one_word zeros)
      [])
unfolding sent transmitting wait_dma_transmission_done poll_status is_idle notify
stream_loop-Complete_example =
    stream_loop-Complete (record calm { register = λ t off. 2 }) one_word 129 3 zeros [] (λ u. refl)
      (λ u. refl) refl (omega arith) (omega arith) refl (ground arith) refl refl

stream_loop-Repeats_example :
    Repeats 64 (words one_word.whole) (
      stream_loop calm (record one_word { loop_file = true }) 258 3 (first_state one_word zeros) [])
unfolding sent transmitting words read_line read_tail skip_blanks copy_hex decode hexchar_to_uint8
stream_loop-Repeats_example =
    stream_loop-Repeats calm (record one_word { loop_file = true }) 258 3 zeros [] (ground arith)
      (λ e. ground (arith, e)) (omega arith) refl refl refl

abbrev buffers : Buffers
buffers = record {
  phy_src_addr = 0x3000_0000;
  phy_dest_addr = 0x4000_0000;
  size_src_buf = 1024;
  size_dest_buf = 32768;
}

quiet : Quiet []
unfolding sent transmitting
quiet = record { none_sent = λ p. refl; still_idle = refl }

run_streamer-Rings_example :
    Rings one_word buffers (run_streamer calm one_word buffers 129 3 zeros [])
run_streamer-Rings_example =
    run_streamer-Rings calm one_word buffers 129 3 zeros [] (omega arith) (omega arith) quiet

-- No memory can be mapped.
open_devices-Released_example :
    Released 7 [] (open_devices (record calm { map_memory = λ t fd len. none }) buffers [])
open_devices-Released_example =
    open_devices-Released 7 (record calm { map_memory = λ t fd len. none }) buffers []

-- The file of one word; no number comes from sysfs.
abbrev around : Around
around = record {
  env = calm;
  texts = no_numbers;
  fopen = λ path. some one_word.whole;
  old = buffers;
  old_bytes = zeros;
}

stream_main-Delivers_example :
    Delivered around
      (record { fill_rounds = 129; loop_rounds = 3 })
      one_word.whole
      (stream_main around
        (record { fill_rounds = 129; loop_rounds = 3 })
        (some ("events.txt", process (some (pos 12)) ∷ []))
        [])
stream_main-Delivers_example =
    stream_main-Delivers around (record { fill_rounds = 129; loop_rounds = 3 }) "events.txt"
      (process (some (pos 12)) ∷ []) one_word.whole refl (ground arith) refl refl (omega arith)
      (omega arith) (omega arith)

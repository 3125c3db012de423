-- ===== src/Stream.antt =====
-- apps/stream-from-file-app/files/stream-from-file-app.c: the loop of `main` that sends the lines of
-- an event file to the engine in chunks and receives frames into a ring of eight. (`Stream.Devices` has
-- what leads to the loop from the `open` of the first buffer on, `Stream.Main` what stands before it.)
pub mod Words
pub mod Sent
pub mod Fill
pub mod Steps
pub mod Delivery
pub mod Nears
pub mod Completes
pub mod Repeats
pub mod Ring
pub mod Devices
pub mod Main
use thesis_software.Base.{
  ℕ, zero, suc, ◌+◌, ◌*◌, ◌%◌, ◌^◌, Bool, true, false, not, ◌&&◌, Option, none, some, List, ◌∷◌,
  ltb, ◌==◌, if◌then◌else◌,
}
use thesis_software.World.{Env, signalled, stored, Act, ◌>>=◌, ◌>>◌, pure, event}
use thesis_software.Helper.{
  Bytes, bytes_per_line, parse_line, ReadResult, eof, bad_line, got_line, ReadState, read_next_line,
}
use thesis_software.Dma.{
  src_buf_id, dest_buf_id, DmaReturnValue, dma_received, dma_timeout, dma_failed,
  set_dma_channel_address, set_dma_transmission_length, wait_dma_transmission_done,
}

abbrev pub lines_per_chunk : ℕ
lines_per_chunk = 128

abbrev pub bytes_per_receive_transmission : ℕ
bytes_per_receive_transmission = 4096

-- What `main` has set up before the loop; `whole` is what `fgets` returns of the file from its start.
pub record Setup : Type 0 where
  pub whole : List Bytes
  pub loop_file : Bool
  -- `none` where no process was given
  pub pid : Option ℕ
  pub src_buf : ℕ
  pub phy_dest_addr : ℕ

-- The file as far as it has been read, `finished_transmitting`, and the eight bytes of `bytes`, of
-- which C leaves open what they hold at the start of a round.
pub record Reader : Type 0 where
  pub rest : List Bytes
  pub lineno : ℕ
  pub finished_transmitting : Bool
  pub bytes : Bytes

-- Behind `readNextLine` without a line: the file stays where the call left it.
abbrev pub finish : Reader → ReadState → Bytes → Reader
finish s r bytes = record {
  rest = r.rest;
  lineno = r.lineno;
  finished_transmitting = true;
  bytes = bytes;
}

-- The inner loop: how many lines it stored, or `none` if it has not ended after a number of rounds,
-- which a file without data keeps it from under `--loop`.
unfoldable pub fill_chunk : Setup → Bool → ℕ → ℕ → Reader → Act (Option (ℕ × Reader))
fill_chunk c slot zero lines_read s = pure none
fill_chunk c slot (suc rounds) lines_read s =
    let r = read_next_line s.rest s.lineno in
    let rewound = fill_chunk c slot rounds lines_read (record s { rest = c.whole; lineno = 0 }) in
    let stop = pure (some (lines_read, finish s r s.bytes)) in
    let body : Act (Option (ℕ × Reader)) = elim r.result [
      | eof ↦ if c.loop_file then rewound else stop
      | bad_line ↦ stop
      | got_line hex ↦
          let out = parse_line hex s.bytes in
          let store : Act (Option (ℕ × Reader)) = do
            event (stored (c.src_buf + lines_read * bytes_per_line) out.1)
            fill_chunk c slot rounds (lines_read + 1)
                (record s { rest = r.rest; lineno = r.lineno; bytes = out.1 })
          in if out.0 then store else pure (some (lines_read, finish s r out.1))
    ] in
    if ltb lines_read lines_per_chunk && (not s.finished_transmitting && slot)
    then body
    else pure (some (lines_read, s))

-- All that the outer loop keeps.
pub record Stream : Type 0 where
  pub reader : Reader
  pub transmit_slot_available : Bool
  pub frame_index : ℕ
  pub frames_received : ℕ
  pub network_trigger_counter : ℕ

-- The variables of `main` when its loop starts; what `bytes` holds is left open.
abbrev pub first_state : Setup → Bytes → Stream
first_state c bytes = record {
  reader = record { rest = c.whole; lineno = 0; finished_transmitting = false; bytes = bytes };
  transmit_slot_available = true;
  frame_index = 0;
  frames_received = 0;
  network_trigger_counter = 0;
}

-- `if (lines_read > 0)`: the slot afterwards.
unfoldable pub transmit_chunk : ℕ → Bool → Act Bool
transmit_chunk lines_read slot =
    let send : Act Bool = do
      set_dma_transmission_length src_buf_id (lines_read * bytes_per_line % 2 ^ 32)
      pure false
    in if ltb 0 lines_read then send else pure slot

-- `kill`, where a process was given: whether the program goes on.
unfoldable pub notify : Env → Option ℕ → Act Bool
notify env none t = (true, t)
notify env (some pid) t = (env.signal t pid, signalled pid (env.signal t pid) ∷ t)

-- A frame has come: the counters, and the next receive transmission into the ring; `none` is
-- `return 1`.
unfoldable pub receive_frame : Env → Setup → Stream → Act (Option Stream)
receive_frame env c s = do
  let frame_index = (s.frame_index + 1) % 2 ^ 64 % 8
  let counter = s.network_trigger_counter
  let s' = record s {
    frame_index = frame_index;
    frames_received = (s.frames_received + 1) % 2 ^ 64;
    network_trigger_counter = if frame_index == 0 then (counter + 1) % 2 ^ 64 else counter;
  }
  let next : Act (Option Stream) = do
    set_dma_channel_address dest_buf_id
        ((c.phy_dest_addr + frame_index * bytes_per_receive_transmission) % 2 ^ 64)
    set_dma_transmission_length dest_buf_id bytes_per_receive_transmission
    pure (some s')
  goes_on ← notify env c.pid
  if goes_on then next else pure none

unfoldable pub on_receive : Env → Setup → Stream → DmaReturnValue → Act (Option Stream)
on_receive env c s dma_received = receive_frame env c s
on_receive env c s dma_timeout = pure (some s)
on_receive env c s dma_failed = pure (some s)

abbrev pub freed_slot : Stream → DmaReturnValue → Stream
freed_slot s dma_received = record s { transmit_slot_available = true }
freed_slot s dma_timeout = s
freed_slot s dma_failed = s

unfoldable pub poll_transmit : Env → Stream → Act Stream
poll_transmit env s =
    let poll : Act Stream = do
      r ← wait_dma_transmission_done env src_buf_id 10
      pure (freed_slot s r)
    in if s.transmit_slot_available then pure s else poll

-- One round of the outer loop: it fills for ever, returns 1, or goes on.
pub data Round : Type 0 where
  spins : Round
  returns_1 : Round
  goes : Stream → Round

unfoldable pub after_receive : Env → Option Stream → Act Round
after_receive env none = pure returns_1
after_receive env (some s) = do s' ← poll_transmit env s; pure (goes s')

unfoldable pub after_fill : Env → Setup → Stream → Option (ℕ × Reader) → Act Round
after_fill env c s none = pure spins
after_fill env c s (some (lines_read, reader)) = do
  slot ← transmit_chunk lines_read s.transmit_slot_available
  r ← wait_dma_transmission_done env dest_buf_id 10
  answer ← on_receive env c (record s { reader = reader; transmit_slot_available = slot }) r
  after_receive env answer

-- A round, with a bound on the rounds of its fill loop.
unfoldable pub round : Env → Setup → ℕ → Stream → Act Round
round env c fill_rounds s = do
  filled ← fill_chunk c s.transmit_slot_available fill_rounds 0 s.reader
  after_fill env c s filled

unfoldable pub after_round : Round → (Stream → Act Round) → Act Round
after_round spins f = pure spins
after_round returns_1 f = pure returns_1
after_round (goes s) f = f s

-- `while (!finished_operation)`, for a number of rounds.
unfoldable pub stream_loop : Env → Setup → ℕ → ℕ → Stream → Act Round
stream_loop env c fill_rounds zero s = pure (goes s)
stream_loop env c fill_rounds (suc rounds) s = do
  r ← round env c fill_rounds s
  after_round r (stream_loop env c fill_rounds rounds)

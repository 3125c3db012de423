-- ===== src/Stream/Ring/Start.antt =====
-- The ring from the start of the devices on.
use thesis_software.Base.{ℕ, ◌+◌, ◌*◌, ◌^◌, ◌≤◌, ◌<◌, ◌∙◌, ap, Option, none, some, arith}
use thesis_software.World.{Env, Trace}
use thesis_software.Helper.{Bytes}
use thesis_software.Dma.Channels.{Channel}
use thesis_software.Stream.{Setup, Round, first_state}
use thesis_software.Stream.Devices.{
  Buffers, Start, exits, returns, starts, after_start, run_streamer,
}
use thesis_software.Stream.Devices.Ready.{Quiet, Prepared, StartsPrepared, open_devices-Prepared}
use thesis_software.Stream.Ring.{RingAt}
use thesis_software.Stream.Ring.Run.{RingIn, stream_loop-RingIn}

-- No loop, or a loop that keeps the receiver in the ring behind the destination buffer.
abbrev pub Rings : Setup → Buffers → Option Round × Trace → Type 0
Rings c b (none, t) = Unit {0}
Rings c b (some r, t) =
    (src : ℕ) × RingIn (record c { src_buf = src; phy_dest_addr = b.phy_dest_addr }) (r, t)

first_state-RingAt :
    (c : Setup) (b : Buffers) (bytes : Bytes) (src : ℕ) (t : Trace)
    → Prepared b src t
    → RingAt (record c { src_buf = src; phy_dest_addr = b.phy_dest_addr }) (first_state c bytes) t
first_state-RingAt c b bytes src t p = record {
  slot = omega arith;
  address = ap (λ (ch : Channel). ch.address) p.receiver_set ∙ omega arith;
  length = ap (λ (ch : Channel). ch.length) p.receiver_set;
}

after_start-Rings :
    (env : Env) (c : Setup) (b : Buffers) (fill_rounds rounds : ℕ) (bytes : Bytes) (start : Start)
    (t t0 : Trace)
    → b.phy_dest_addr + 8 * 4096 ≤ 2 ^ 64
    → StartsPrepared b t0 (start, t)
    → Rings c b (after_start env c b fill_rounds rounds bytes start t)
unfolding after_start
after_start-Rings env c b fill_rounds rounds bytes exits t t0 fits h = tt
after_start-Rings env c b fill_rounds rounds bytes returns t t0 fits h = tt
after_start-Rings env c b fill_rounds rounds bytes (starts src) t t0 fits h =
    let c' : Setup = record c { src_buf = src; phy_dest_addr = b.phy_dest_addr } in
    (
      src,
      stream_loop-RingIn env c' fits fill_rounds rounds (first_state c' bytes) t
          (first_state-RingAt c b bytes src t h.0),
    )

-- With a source buffer below 2 ^ 64 and a ring of eight frames that ends there, from a trace that has sent
-- nothing: a run of the streamer from the opening of its devices on either does not get to its loop,
-- or has, after any number of rounds, with `--loop` or without, and whatever the engine answers, the
-- receiver set to the frame of the ring whose number is that of the frames received modulo 8, with
-- the length of one frame. Where the program gives up because the process to notify is gone, and
-- where a fill loop does not end, the receiver is set to one of the eight frames, with that length.
pub run_streamer-Rings :
    (env : Env) (c : Setup) (b : Buffers) (fill_rounds rounds : ℕ) (bytes : Bytes) (t : Trace)
    → b.phy_src_addr < 2 ^ 64
    → b.phy_dest_addr + 8 * 4096 ≤ 2 ^ 64
    → Quiet t
    → Rings c b (run_streamer env c b fill_rounds rounds bytes t)
unfolding run_streamer
run_streamer-Rings env c b fill_rounds rounds bytes t src_fits fits q =
    after_start-Rings env c b fill_rounds rounds bytes _ _ t fits
      (open_devices-Prepared env b src_fits (omega (arith, fits)) t q)

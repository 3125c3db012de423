-- ===== src/Stream/Devices/Ready.antt =====
-- The start of the file streamer hands over to its loop with the engine set up.
use Prim.Native.String.{String}
use thesis_software.Base.{
  ℕ, bit_and, ◌%◌, ◌/◌, ◌+◌, ◌*◌, ◌^◌, ◌<◌, ◌≡◌, refl, ap, ◌∙◌, false, Option, none, some, [], ◌∷◌,
  length, arith,
}
use thesis_software.Base.Bits.{bit_and_low}
use thesis_software.World.{Env, Trace, opened, mapped}
use thesis_software.Helper.{Bytes}
use thesis_software.Dma.{
  reg_map_size, reset_dma_channel, start_dma_channel, set_dma_channel_address,
  set_dma_transmission_length,
}
use thesis_software.Dma.Channels.{engine, last_write}
use thesis_software.Stream.{Setup, Round, stream_loop, first_state}
use thesis_software.Stream.Words.{words, AllFile}
use thesis_software.Stream.Sent.{sent, transmitting}
use thesis_software.Stream.Steps.{Keeps}
use thesis_software.Stream.Ring.Sender.{stream_loop-sends_from}
use thesis_software.Stream.Delivery.{stream_loop-Keeps}
use thesis_software.Stream.Devices.{
  Buffers, Start, exits, returns, starts, prepare_dmas, with_regs, with_uio, with_dest, with_src,
  with_buf1, with_buf0, open_devices, after_start, run_streamer, udmabuf0_dev, udmabuf1_dev,
  uio_dev,
}

-- Both channels run with their addresses, the receiver has the length of a frame, and the sender has
-- sent nothing and waits.
pub record Prepared (b : Buffers) (p : ℕ) (t : Trace) : Type 0 where
  pub sender_runs : (engine t).sender.control ≡ 0x7001
  pub receiver_set :
      (engine t).receiver ≡ record { control = 0x7001; address = b.phy_dest_addr; length = 4096 }
  pub sender_address : (engine t).sender.address ≡ b.phy_src_addr
  pub nothing_sent : sent p t ≡ []
  pub idle : transmitting t ≡ some false

-- Nothing has been sent, from whatever address, and no transmission is under way.
pub record Quiet (t : Trace) : Type 0 where
  pub none_sent : (p : ℕ) → sent p t ≡ []
  pub still_idle : transmitting t ≡ some false

halves_join :
    (a : ℕ)
    → a < 2 ^ 64
    → a / 2 ^ 32 % 2 ^ 32 % 2 ^ 32 * 2 ^ 32 + bit_and a 0xffff_ffff % 2 ^ 32 % 2 ^ 32 ≡ a
halves_join a h = ground (arith, bit_and_low 32 a 0xffff_ffff)

prepare_dmas-Prepared :
    (b : Buffers) (p : ℕ) (t : Trace)
    → b.phy_src_addr < 2 ^ 64
    → b.phy_dest_addr < 2 ^ 64
    → Quiet t
    → Prepared b p (prepare_dmas b t).1
unfolding prepare_dmas reset_dma_channel start_dma_channel set_dma_channel_address
    set_dma_transmission_length engine last_write sent transmitting
prepare_dmas-Prepared b p t hs hd q = record {
  sender_runs = refl;
  receiver_set =
      ap (λ (x : ℕ). record { control = 0x7001; address = x; length = 4096 })
        (halves_join b.phy_dest_addr hd);
  sender_address = halves_join b.phy_src_addr hs;
  nothing_sent = q.none_sent p;
  idle = q.still_idle;
}

-- The calls behind a start that succeeds: the source buffer is what the descriptor of "/dev/udmabuf0"
-- was mapped to.
pub record Opened (b : Buffers) (t0 : Trace) (src : ℕ) (u : Trace) : Type 0 where
  pub fd0 : ℕ
  pub fd1 : ℕ
  pub dest : ℕ
  pub fd_uio : ℕ
  pub regs : ℕ
  pub calls :
      u
      ≡ (prepare_dmas b (
          mapped fd_uio reg_map_size (some regs)
          ∷ opened uio_dev (some fd_uio)
          ∷ mapped fd1 b.size_dest_buf (some dest)
          ∷ mapped fd0 b.size_src_buf (some src)
          ∷ opened udmabuf1_dev (some fd1)
          ∷ opened udmabuf0_dev (some fd0)
          ∷ t0)).1

-- A start that succeeds.
abbrev pub StartsPrepared : Buffers → Trace → Start × Trace → Type 0
StartsPrepared b t0 (exits, t) = Unit {0}
StartsPrepared b t0 (returns, t) = Unit {0}
StartsPrepared b t0 (starts src, t) = Prepared b src t × Opened b t0 src t

Quiet-mapped : {t : Trace} {fd len : ℕ} {p : Option ℕ} → Quiet t → Quiet (mapped fd len p ∷ t)
unfolding sent transmitting
Quiet-mapped q = record { none_sent = q.none_sent; still_idle = q.still_idle }

pub Quiet-opened :
    {t : Trace} {path : String} {fd : Option ℕ} → Quiet t → Quiet (opened path fd ∷ t)
unfolding sent transmitting
Quiet-opened q = record { none_sent = q.none_sent; still_idle = q.still_idle }

module _ (env : Env) (b : Buffers) (hs : b.phy_src_addr < 2 ^ 64) (hd : b.phy_dest_addr < 2 ^ 64)
    (t0 : Trace) (quiet : Quiet t0) where
  with_uio_Prepared :
      (fd0 fd1 src dest : ℕ) (fd_uio : Option ℕ)
      → StartsPrepared b t0 (
          with_uio env b fd0 fd1 src dest fd_uio (
            opened uio_dev fd_uio
            ∷ mapped fd1 b.size_dest_buf (some dest)
            ∷ mapped fd0 b.size_src_buf (some src)
            ∷ opened udmabuf1_dev (some fd1)
            ∷ opened udmabuf0_dev (some fd0)
            ∷ t0))
  unfolding with_uio with_regs
  with_uio_Prepared fd0 fd1 src dest none = tt
  with_uio_Prepared fd0 fd1 src dest (some fd_uio) = go (env.map_memory _ fd_uio reg_map_size)
    where
      go :
          (r : Option ℕ)
          → StartsPrepared b t0 (
              with_regs b fd0 fd1 src dest fd_uio r (
                mapped fd_uio reg_map_size r
                ∷ opened uio_dev (some fd_uio)
                ∷ mapped fd1 b.size_dest_buf (some dest)
                ∷ mapped fd0 b.size_src_buf (some src)
                ∷ opened udmabuf1_dev (some fd1)
                ∷ opened udmabuf0_dev (some fd0)
                ∷ t0))
      go none = tt
      go (some regs) = (
        prepare_dmas-Prepared b src _ hs hd (
            Quiet-mapped
              (Quiet-opened (Quiet-mapped (Quiet-mapped (Quiet-opened (Quiet-opened quiet)))))),
        record { fd0 = fd0; fd1 = fd1; dest = dest; fd_uio = fd_uio; regs = regs; calls = refl },
      )

  with_src_Prepared :
      (fd0 fd1 : ℕ) (src : Option ℕ)
      → StartsPrepared b t0 (
          with_src env b fd0 fd1 src (
            mapped fd0 b.size_src_buf src
            ∷ opened udmabuf1_dev (some fd1)
            ∷ opened udmabuf0_dev (some fd0)
            ∷ t0))
  unfolding with_src with_dest
  with_src_Prepared fd0 fd1 none = tt
  with_src_Prepared fd0 fd1 (some src) = go (env.map_memory _ fd1 b.size_dest_buf)
    where
      go :
          (r : Option ℕ)
          → StartsPrepared b t0 (
              with_dest env b fd0 fd1 src r (
                mapped fd1 b.size_dest_buf r
                ∷ mapped fd0 b.size_src_buf (some src)
                ∷ opened udmabuf1_dev (some fd1)
                ∷ opened udmabuf0_dev (some fd0)
                ∷ t0))
      go none = tt
      go (some dest) = with_uio_Prepared fd0 fd1 src dest _

  with_buf0_Prepared :
      (fd0 : Option ℕ) → StartsPrepared b t0 (with_buf0 env b fd0 (opened udmabuf0_dev fd0 ∷ t0))
  unfolding with_buf0 with_buf1
  with_buf0_Prepared none = tt
  with_buf0_Prepared (some fd0) = go (env.open_file _ udmabuf1_dev)
    where
      go :
          (r : Option ℕ)
          → StartsPrepared b t0
              (with_buf1 env b fd0 r (opened udmabuf1_dev r ∷ opened udmabuf0_dev (some fd0) ∷ t0))
      go none = tt
      go (some fd1) = with_src_Prepared fd0 fd1 _

  -- With physical addresses of 64 bits, a start that gets to the loop from a trace that has sent nothing
  -- has made the calls that open and map the devices, and has both channels running, the sender at the
  -- source buffer's physical address with nothing sent and no transmission under way, and the receiver
  -- at the start of the ring with the length of a frame.
  pub open_devices-Prepared : StartsPrepared b t0 (open_devices env b t0)
  unfolding open_devices
  open_devices-Prepared = with_buf0_Prepared _

-- The setup of the loop behind a start.
abbrev pub at_buffers : Setup → Buffers → ℕ → Setup
at_buffers c b src = record c { src_buf = src; phy_dest_addr = b.phy_dest_addr }

-- A run of the streamer: no loop, or a loop on the source buffer that the calls of the start mapped, with
-- the sender at its physical address, that sent from there.
abbrev pub Delivers : Env → Setup → Buffers → ℕ → ℕ → Bytes → Trace → Option Round × Trace → Type 0
Delivers env c b fill_rounds rounds bytes t0 (none, t) = Unit {0}
Delivers env c b fill_rounds rounds bytes t0 (some r, t) =
    (src : ℕ) × (u : Trace) × Opened b t0 src u
    × ((engine t).sender.address ≡ b.phy_src_addr)
    × ((r, t)
        ≡ stream_loop env (at_buffers c b src) fill_rounds rounds
            (first_state (at_buffers c b src) bytes) u)
    × Keeps src (words c.whole) (r, t)

after_start-Delivers :
    (env : Env) (c : Setup) (b : Buffers) (fill_rounds rounds : ℕ) (bytes : Bytes) (t0 : Trace)
    (start : Start) (t : Trace)
    → c.loop_file ≡ false
    → 128 < fill_rounds
    → length bytes ≡ 8
    → AllFile c.whole
    → StartsPrepared b t0 (start, t)
    → Delivers env c b fill_rounds rounds bytes t0
        (after_start env c b fill_rounds rounds bytes start t)
unfolding after_start
after_start-Delivers env c b fill_rounds rounds bytes t0 exits t once enough width file h = tt
after_start-Delivers env c b fill_rounds rounds bytes t0 returns t once enough width file h = tt
after_start-Delivers env c b fill_rounds rounds bytes t0 (starts src) t once enough width file h = (
  src,
  t,
  h.1,
  stream_loop-sends_from env (at_buffers c b src) fill_rounds rounds
        (first_state (at_buffers c b src) bytes) t
      ∙ h.0.sender_address,
  refl,
  stream_loop-Keeps env (at_buffers c b src) fill_rounds rounds bytes t once enough width file
      h.0.nothing_sent h.0.idle,
)

-- From the `open` of the first buffer on, without `--loop`, on a file of bytes below 256, with physical
-- addresses of 64 bits and 129 rounds or more for each fill loop, where nothing has been sent before: a
-- run either does not get to its loop, or has opened and mapped the devices and runs the loop on what
-- "/dev/udmabuf0" is mapped to, and has at every time the sender set to that buffer's physical address,
-- and sent from there the words of the file from their start on, in order and without a gap, with no
-- line stored and no transmission begun while one is under way.
pub run_streamer-Delivers :
    (env : Env) (c : Setup) (b : Buffers) (fill_rounds rounds : ℕ) (bytes : Bytes) (t : Trace)
    → b.phy_src_addr < 2 ^ 64
    → b.phy_dest_addr < 2 ^ 64
    → c.loop_file ≡ false
    → 128 < fill_rounds
    → length bytes ≡ 8
    → AllFile c.whole
    → Quiet t
    → Delivers env c b fill_rounds rounds bytes t (run_streamer env c b fill_rounds rounds bytes t)
unfolding run_streamer
run_streamer-Delivers env c b fill_rounds rounds bytes t hs hd once enough width file q =
    after_start-Delivers env c b fill_rounds rounds bytes t _ _ once enough width file
      (open_devices-Prepared env b hs hd t q)

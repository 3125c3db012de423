-- ===== src/Dma/Channels.antt =====
-- The two channels of the engine as an abstract device, and the operations of dma-api.c as its
-- steps.
use thesis_software.Base.{
  ℕ, ◌+◌, ◌*◌, ◌^◌, ◌<◌, ◌≡◌, zero, suc, ◌%◌, refl, inl, inr, Bool-cases, [], ◌∷◌, arith, ◌==◌,
  if◌then◌else◌,
}
use thesis_software.Base.Bits.{bit_and_low}
use thesis_software.World.{Env, wrote, Trace}
use thesis_software.Dma.{
  is_idle, is_error, poll_status, reset_dma_channel, start_dma_channel, set_dma_channel_address,
  set_dma_transmission_length,
}
use thesis_software.Dma.Mm2s
use thesis_software.Dma.S2mm

-- The value last written to a register, 0 where none was.
unfoldable pub last_write : Trace → ℕ → ℕ
last_write [] off = 0
last_write (wrote o v ∷ t) off = if o == off then v else last_write t off
last_write (_ ∷ t) off = last_write t off

-- What a channel is programmed with.
pub record Channel : Type 0 where
  pub control : ℕ
  pub address : ℕ
  pub length : ℕ

-- Both channels: number 0 sends, every other number receives.
pub record Engine : Type 0 where
  pub sender : Channel
  pub receiver : Channel

-- The engine as a trace of register writes leaves it. An address has two halves of 32 bits.
unfoldable pub engine : Trace → Engine
engine t = record {
  sender = record {
    control = last_write t Mm2s.ctrl;
    address = last_write t Mm2s.src_addr_msb * 2 ^ 32 + last_write t Mm2s.src_addr;
    length = last_write t Mm2s.length;
  };
  receiver = record {
    control = last_write t S2mm.ctrl;
    address = last_write t S2mm.dest_addr_msb * 2 ^ 32 + last_write t S2mm.dest_addr;
    length = last_write t S2mm.length;
  };
}

-- A change of the channel with a number, the other left as it is.
abbrev pub on_channel : ℕ → (Channel → Channel) → Engine → Engine
on_channel buffer_index f e =
    if buffer_index == 0
    then record e { sender = f e.sender }
    else record e { receiver = f e.receiver }

-- Each operation of dma-api.c is one step of the abstract engine: it changes one field of the
-- channel that it names, and nothing of the other. A 64-bit address arrives whole in its two
-- registers, and a length of 32 bits in its one.
pub operations_refine_engine :
    (t : Trace) (buffer_index phy_address transmission_bytes : ℕ)
    → phy_address < 2 ^ 64
    → transmission_bytes < 2 ^ 32
    → (engine (reset_dma_channel buffer_index t).1
        ≡ on_channel buffer_index (λ c. record c { control = 4 }) (engine t))
      × (engine (start_dma_channel buffer_index t).1
          ≡ on_channel buffer_index (λ c. record c { control = 0x7001 }) (engine t))
      × (engine (set_dma_channel_address buffer_index phy_address t).1
          ≡ on_channel buffer_index (λ c. record c { address = phy_address }) (engine t))
      × (engine (set_dma_transmission_length buffer_index transmission_bytes t).1
          ≡ on_channel buffer_index (λ c. record c { length = transmission_bytes }) (engine t))
unfolding engine last_write reset_dma_channel start_dma_channel set_dma_channel_address
    set_dma_transmission_length
operations_refine_engine t buffer_index phy_address transmission_bytes ha hl = (
  ground arith,
  ground arith,
  ground (arith, bit_and_low 32 phy_address 0xffff_ffff),
  ground arith,
)

-- Polls program nothing.
pub poll_status-engine :
    (env : Env) (off n : ℕ) (t : Trace) → engine (poll_status env off n t).1 ≡ engine t
unfolding poll_status engine last_write
poll_status-engine env off zero t = elim (Bool-cases (is_idle (env.register t off % 2 ^ 32))) [
  | inl idle ↦ rw idle refl
  | inr busy ↦ elim (Bool-cases (is_error (env.register t off % 2 ^ 32))) [
    | inl broken ↦ rw (busy, broken) refl
    | inr fine ↦ rw (busy, fine) refl
  ]
]
poll_status-engine env off (suc n) t = elim (Bool-cases (is_idle (env.register t off % 2 ^ 32))) [
  | inl idle ↦ rw idle refl
  | inr busy ↦ elim (Bool-cases (is_error (env.register t off % 2 ^ 32))) [
    | inl broken ↦ rw (busy, broken) refl
    | inr fine ↦ rw (busy, fine) (poll_status-engine env off n _)
  ]
]

-- ===== src/Stream/Ring.antt =====
-- The ring of eight frames behind the destination address.
pub mod Run
pub mod Sender
pub mod Start
use thesis_software.Base.{
  ℕ, ◌+◌, ◌*◌, ◌%◌, ◌^◌, ◌≤◌, ◌≡◌, refl, ap, ◌∙◌, true, Option, none, some, arith, ◌==◌,
  if◌then◌else◌,
}
use thesis_software.World.{Env, Trace}
use thesis_software.Dma.{set_dma_channel_address, set_dma_transmission_length}
use thesis_software.Dma.Channels.{Engine, last_write, engine, on_channel, operations_refine_engine}
use thesis_software.Stream.{Setup, Stream, notify, receive_frame}

-- The receiver is set to the frame of the ring that the counters name.
pub record RingAt (c : Setup) (s : Stream) (t : Trace) : Type 0 where
  pub slot : s.frame_index ≡ s.frames_received % 8
  pub address : (engine t).receiver.address ≡ c.phy_dest_addr + s.frame_index * 4096
  pub length : (engine t).receiver.length ≡ 4096

-- The counters after a frame.
abbrev pub counted : Stream → Stream
counted s =
    let i = (s.frame_index + 1) % 2 ^ 64 % 8 in
    record s {
      frame_index = i;
      frames_received = (s.frames_received + 1) % 2 ^ 64;
      network_trigger_counter =
          if i == 0 then (s.network_trigger_counter + 1) % 2 ^ 64 else s.network_trigger_counter;
    }

pub notify-engine :
    (env : Env) (pid : Option ℕ) (t : Trace) → engine (notify env pid t).1 ≡ engine t
unfolding notify engine last_write
notify-engine env none t = refl
notify-engine env (some pid) t = refl

-- A frame that comes while the receiver is set to a slot of the ring sets it to the next, the first
-- after the eighth, and leaves the sender alone, if the process to notify, where one was given, is
-- there and the ring ends below 2 ^ 64. A receive transmission never reaches over the ring's end.
pub receive_frame-RingAt :
    (env : Env) (c : Setup) (s : Stream) (t : Trace)
    → (notify env c.pid t).0 ≡ true
    → c.phy_dest_addr + 8 * 4096 ≤ 2 ^ 64
    → RingAt c s t
    → (s' : Stream) × ((receive_frame env c s t).0 ≡ some s')
      × RingAt c s' (receive_frame env c s t).1
      × ((engine (receive_frame env c s t).1).receiver.address + 4096 ≤ c.phy_dest_addr + 8 * 4096)
      × ((engine (receive_frame env c s t).1).sender ≡ (engine t).sender)
      × (s'.frames_received ≡ (s.frames_received + 1) % 2 ^ 64)
unfolding receive_frame
receive_frame-RingAt env c s t on fits ring =
    let i = (s.frame_index + 1) % 2 ^ 64 % 8 in
    let a = (c.phy_dest_addr + i * 4096) % 2 ^ 64 in
    let t1 = (notify env c.pid t).1 in
    let t2 = (set_dma_channel_address 1 a t1).1 in
    let set_address = (operations_refine_engine t1 1 a 4096 (omega arith) (omega arith)).2 in
    let set_length = (operations_refine_engine t2 1 a 4096 (omega arith) (omega arith)).3 in
    let set_both : engine (set_dma_transmission_length 1 4096 t2).1
        ≡ on_channel 1 (λ ch. record ch { length = 4096 })
            (on_channel 1 (λ ch. record ch { address = a }) (engine t)) =
      set_length
      ∙ ap (on_channel 1 (λ ch. record ch { length = 4096 })) (
          set_address
          ∙ ap (on_channel 1 (λ ch. record ch { address = a })) (notify-engine env c.pid t)) in
    let in_range : a ≡ c.phy_dest_addr + i * 4096 = omega (arith, fits) in
    rw on (
      counted s,
      refl,
      record {
        slot = omega (arith, ring.slot);
        address = ap (λ (e : Engine). e.receiver.address) set_both ∙ in_range;
        length = ap (λ (e : Engine). e.receiver.length) set_both;
      },
      omega (arith, fits, ap (λ (e : Engine). e.receiver.address) set_both, in_range),
      ap (λ (e : Engine). e.sender) set_both,
      refl,
    )

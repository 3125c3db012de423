-- ===== src/Camera/Ring.antt =====
-- The ring of eight frames of the camera feed, over a whole run.
use thesis_software.Base.{
  ℕ, zero, suc, ◌+◌, ◌*◌, ◌%◌, ◌^◌, ◌≤◌, ◌<◌, ◌≡◌, refl, ap, ◌∙◌, inl, inr, Bool-cases, Option,
  none, some, arith,
}
use thesis_software.Base.Bits.{bit_and_low}
use thesis_software.World.{Env, Trace, Act}
use thesis_software.Dma.{
  DmaReturnValue, dma_received, dma_timeout, dma_failed, set_dma_channel_address,
  set_dma_transmission_length, reset_dma_channel, start_dma_channel, wait_dma_transmission_done,
}
use thesis_software.Dma.S2mm
use thesis_software.Dma.Channels.{
  Engine, engine, last_write, on_channel, operations_refine_engine, poll_status-engine,
}
use thesis_software.Camera.{
  Feed, Frames, notify_visualizer, count_frame, receive_next, on_frame, on_answer, feed_round,
  go_on, feed_loop, start_feed, no_frames, run_feed,
}

-- The receiver is set to the frame of the ring that the counters name.
pub record RingSet (c : Feed) (s : Frames) (t : Trace) : Type 0 where
  pub slot : s.frame_index ≡ s.frames_received % 8
  pub address : (engine t).receiver.address ≡ c.phy_dest_addr + s.frame_index * 4096
  pub length : (engine t).receiver.length ≡ 4096

-- The receiver is set to one of the eight frames. Where the program gives up, its counters have moved on
-- and the receiver has not.
pub record InRing (c : Feed) (t : Trace) : Type 0 where
  pub slot : ℕ
  pub below : slot < 8
  pub address : (engine t).receiver.address ≡ c.phy_dest_addr + slot * 4096
  pub length : (engine t).receiver.length ≡ 4096

RingSet-InRing : (c : Feed) (s : Frames) (t : Trace) → RingSet c s t → InRing c t
RingSet-InRing c s t r = record {
  slot = s.frame_index;
  below = omega (arith, r.slot);
  address = r.address;
  length = r.length;
}

abbrev pub Rings : Feed → Option Frames × Trace → Type 0
Rings c (none, t) = InRing c t
Rings c (some s, t) = RingSet c s t

RingSet-same :
    (c : Feed) (s : Frames) (t t' : Trace) → engine t' ≡ engine t → RingSet c s t → RingSet c s t'
RingSet-same c s t t' e r = record {
  slot = r.slot;
  address = ap (λ (x : Engine). x.receiver.address) e ∙ r.address;
  length = ap (λ (x : Engine). x.receiver.length) e ∙ r.length;
}

notify_visualizer-engine :
    (env : Env) (pid : Option ℕ) (t : Trace) → engine (notify_visualizer env pid t).1 ≡ engine t
unfolding notify_visualizer engine last_write
notify_visualizer-engine env none t = refl
notify_visualizer-engine env (some pid) t = refl

module _ (env : Env) (c : Feed) (fits : c.phy_dest_addr + 8 * 4096 ≤ 2 ^ 64) where
  receive_next-Rings :
      (s : Frames) (t : Trace)
      → s.frame_index ≡ s.frames_received % 8
      → Rings c (receive_next c s t)
  unfolding receive_next
  receive_next-Rings s t e =
      let a = (c.phy_dest_addr + s.frame_index * 4096) % 2 ^ 64 in
      let t2 = (set_dma_channel_address 1 a t).1 in
      let set_address = (operations_refine_engine t 1 a 4096 (omega arith) (omega arith)).2 in
      let set_length = (operations_refine_engine t2 1 a 4096 (omega arith) (omega arith)).3 in
      let set_both : engine (set_dma_transmission_length 1 4096 t2).1
          ≡ on_channel 1 (λ ch. record ch { length = 4096 })
              (on_channel 1 (λ ch. record ch { address = a }) (engine t)) =
        set_length ∙ ap (on_channel 1 (λ ch. record ch { length = 4096 })) set_address in
      let in_range : a ≡ c.phy_dest_addr + s.frame_index * 4096 = omega (arith, fits, e) in
      record {
        slot = e;
        address = ap (λ (x : Engine). x.receiver.address) set_both ∙ in_range;
        length = ap (λ (x : Engine). x.receiver.length) set_both;
      }

  on_frame-Rings : (s : Frames) (t : Trace) → RingSet c s t → Rings c (on_frame env c s t)
  unfolding on_frame
  on_frame-Rings s t r = elim (Bool-cases (notify_visualizer env c.pid t).0) [
    | inl on ↦ rw on (receive_next-Rings (count_frame s) _ (omega (arith, r.slot)))
    | inr refused ↦
        rw refused
          (RingSet-InRing c s _ (RingSet-same c s t _ (notify_visualizer-engine env c.pid t) r))
  ]

  on_answer-Rings :
      (s : Frames) (r : DmaReturnValue) (t : Trace)
      → RingSet c s t
      → Rings c (on_answer env c s r t)
  unfolding on_answer
  on_answer-Rings s dma_received t h = on_frame-Rings s t h
  on_answer-Rings s dma_timeout t h = h
  on_answer-Rings s dma_failed t h = h

  feed_round-Rings : (s : Frames) (t : Trace) → RingSet c s t → Rings c (feed_round env c s t)
  unfolding feed_round wait_dma_transmission_done
  feed_round-Rings s t h =
      on_answer-Rings s _ _ (RingSet-same c s t _ (poll_status-engine env S2mm.status 10 t) h)

  go_on-Rings :
      (f : Frames → Act (Option Frames)) (o : Option Frames) (t : Trace)
      → ((s : Frames) (t' : Trace) → RingSet c s t' → Rings c (f s t'))
      → Rings c (o, t)
      → Rings c (go_on o f t)
  unfolding go_on
  go_on-Rings f none t h k = k
  go_on-Rings f (some s) t h k = h s t k

  feed_loop-Rings :
      (rounds : ℕ) (s : Frames) (t : Trace) → RingSet c s t → Rings c (feed_loop env c rounds s t)
  unfolding feed_loop
  feed_loop-Rings zero s t h = h
  feed_loop-Rings (suc rounds) s t h =
      go_on-Rings (feed_loop env c rounds) _ _ (feed_loop-Rings rounds) (feed_round-Rings s t h)

  start_feed-RingSet : (t : Trace) → RingSet c no_frames (start_feed c t).1
  unfolding start_feed reset_dma_channel start_dma_channel set_dma_channel_address
      set_dma_transmission_length engine last_write
  start_feed-RingSet t = record {
    slot = omega arith;
    address = ground (arith, bit_and_low 32 c.phy_dest_addr 0xffff_ffff, fits);
    length = refl;
  }

  -- If the ring of eight frames ends below 2 ^ 64: from its start on, for any number of rounds and
  -- whatever the engine answers, the camera feed has the receiver set to the frame whose number is that
  -- of the frames received modulo 8, with the length of one frame. Where it gives up because the
  -- process to notify is gone, the receiver is set to one of the eight frames, with that length.
  pub run_feed-Rings : (rounds : ℕ) (t : Trace) → Rings c (run_feed env c rounds t)
  unfolding run_feed
  run_feed-Rings rounds t = feed_loop-Rings rounds no_frames _ (start_feed-RingSet t)

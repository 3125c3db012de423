-- ===== src/Stream/Ring/Run.antt =====
-- The ring over a whole run of the loop.
use thesis_software.Base.{
  ℕ, zero, suc, ◌+◌, ◌*◌, ◌%◌, ◌^◌, ◌≤◌, ◌<◌, ◌≡◌, refl, sym, ap, ◌∙◌, subst, inl, inr, Bool, not,
  ◌&&◌, Option, none, some, Bool-cases, ltb, arith,
}
use thesis_software.World.{Env, Trace, Act}
use thesis_software.Helper.{parse_line, read_next_line}
use thesis_software.Dma.{
  DmaReturnValue, dma_received, dma_timeout, dma_failed, wait_dma_transmission_done,
  set_dma_transmission_length,
}
use thesis_software.Dma.Mm2s
use thesis_software.Dma.S2mm
use thesis_software.Dma.Channels.{Channel, Engine, last_write, engine, poll_status-engine}
use thesis_software.Stream.{
  Setup, Reader, Stream, fill_chunk, transmit_chunk, notify, receive_frame, on_receive, freed_slot,
  poll_transmit, Round, spins, returns_1, goes, after_receive, after_fill, round, after_round,
  stream_loop,
}
use thesis_software.Stream.Fill.{ReadResult-cases, branch}
use thesis_software.Stream.Ring.{RingAt, notify-engine, receive_frame-RingAt}

-- Two traces that leave the engine programmed alike.
pub fill_chunk-engine :
    (c : Setup) (slot : Bool) (rounds k : ℕ) (s : Reader) (t : Trace)
    → engine (fill_chunk c slot rounds k s t).1 ≡ engine t
unfolding fill_chunk
fill_chunk-engine c slot zero k s t = refl
fill_chunk-engine c slot (suc rounds) k s t =
    let r = read_next_line s.rest s.lineno in
    elim (Bool-cases (ltb k 128 && (not s.finished_transmitting && slot))) [
      | inr over ↦ rw over refl
      | inl more ↦ elim (ReadResult-cases r.result) [
        | inl e ↦
            rw (more, e)
              (branch (λ q. engine q.1 ≡ engine t) c.loop_file _ _ t
                (λ loops.
                  fill_chunk-engine c slot rounds k (record s { rest = c.whole; lineno = 0 }) t)
                (λ once. refl))
        | inr (inl e) ↦ rw (more, e) refl
        | inr (inr (hex, e)) ↦ elim (Bool-cases (parse_line hex s.bytes).0) [
          | inl word ↦
              rw (more, e, word)
                (fill_chunk-engine c slot rounds (k + 1) _ _ ∙ (unfold engine last_write in refl))
          | inr no_word ↦ rw (more, e, no_word) refl
        ]
      ]
    ]

RingAt-same :
    (c : Setup) (s s' : Stream) (t t' : Trace)
    → s'.frame_index ≡ s.frame_index
    → s'.frames_received ≡ s.frames_received
    → (engine t').receiver ≡ (engine t).receiver
    → RingAt c s t
    → RingAt c s' t'
RingAt-same c s s' t t' i n e r = record {
  slot = i ∙ (r.slot ∙ ap (λ k. k % 8) (sym n));
  address =
      ap (λ (ch : Channel). ch.address) e
      ∙ (r.address ∙ ap (λ k. c.phy_dest_addr + k * 4096) (sym i));
  length = ap (λ (ch : Channel). ch.length) e ∙ r.length;
}

-- The receiver is set to one of the eight frames. Where the program gives up, its counters have moved on
-- and the receiver has not.
pub record InRing (c : Setup) (t : Trace) : Type 0 where
  pub slot : ℕ
  pub below : slot < 8
  pub address : (engine t).receiver.address ≡ c.phy_dest_addr + slot * 4096
  pub length : (engine t).receiver.length ≡ 4096

RingAt-InRing : (c : Setup) (s : Stream) (t : Trace) → RingAt c s t → InRing c t
RingAt-InRing c s t r = record {
  slot = s.frame_index;
  below = omega (arith, r.slot);
  address = r.address;
  length = r.length;
}

-- Where a round ends.
abbrev pub RingIn : Setup → Round × Trace → Type 0
RingIn c (spins, t) = InRing c t
RingIn c (returns_1, t) = InRing c t
RingIn c (goes s, t) = RingAt c s t

abbrev RingAnswer : Setup → Option Stream × Trace → Type 0
RingAnswer c (none, t) = InRing c t
RingAnswer c (some s, t) = RingAt c s t

transmit_chunk-receiver :
    (lines_read : ℕ) (slot : Bool) (t : Trace)
    → (engine (transmit_chunk lines_read slot t).1).receiver ≡ (engine t).receiver
unfolding transmit_chunk set_dma_transmission_length engine last_write
transmit_chunk-receiver lines_read slot t = elim (Bool-cases (ltb 0 lines_read)) [
  | inl some_lines ↦ rw some_lines refl
  | inr no_lines ↦ rw no_lines refl
]

freed_slot-RingAt :
    (c : Setup) (s : Stream) (r : DmaReturnValue) (t : Trace)
    → RingAt c s t
    → RingAt c (freed_slot s r) t
freed_slot-RingAt c s dma_received t h = record {
  slot = h.slot;
  address = h.address;
  length = h.length;
}
freed_slot-RingAt c s dma_timeout t h = h
freed_slot-RingAt c s dma_failed t h = h

module _ (env : Env) (c : Setup) (fits : c.phy_dest_addr + 8 * 4096 ≤ 2 ^ 64) where
  receive-RingAnswer :
      (s : Stream) (t : Trace) → RingAt c s t → RingAnswer c (receive_frame env c s t)
  receive-RingAnswer s t r = elim (Bool-cases (notify env c.pid t).0) [
    | inl on ↦
        let (s', runs, ring, inside, sender, counts) = receive_frame-RingAt env c s t on fits r in
        subst (λ o. RingAnswer c (o, (receive_frame env c s t).1)) (sym runs) ring
    | inr refused ↦
        unfold receive_frame in
        rw refused (
          RingAt-InRing c s _ (
            RingAt-same c s s t _ refl refl
              (ap (λ (e : Engine). e.receiver) (notify-engine env c.pid t)) r))
  ]

  on_receive-RingAnswer :
      (s : Stream) (r : DmaReturnValue) (t : Trace)
      → RingAt c s t
      → RingAnswer c (on_receive env c s r t)
  unfolding on_receive
  on_receive-RingAnswer s dma_received t h = receive-RingAnswer s t h
  on_receive-RingAnswer s dma_timeout t h = h
  on_receive-RingAnswer s dma_failed t h = h

  poll_transmit-RingAt :
      (s : Stream) (t : Trace)
      → RingAt c s t
      → RingAt c (poll_transmit env s t).0 (poll_transmit env s t).1
  unfolding poll_transmit wait_dma_transmission_done
  poll_transmit-RingAt s t h =
      branch (λ q. RingAt c q.0 q.1) s.transmit_slot_available _ _ t (λ free. h)
        (λ busy. freed_slot-RingAt c s _ _ (
          RingAt-same c s s t _ refl refl
            (ap (λ (e : Engine). e.receiver) (poll_status-engine env Mm2s.status 10 t)) h))

  after_receive-RingIn :
      (answer : Option Stream) (t : Trace)
      → RingAnswer c (answer, t)
      → RingIn c (after_receive env answer t)
  unfolding after_receive
  after_receive-RingIn none t h = h
  after_receive-RingIn (some s) t h = poll_transmit-RingAt s t h

  after_fill-RingIn :
      (s : Stream) (filled : Option (ℕ × Reader)) (t : Trace)
      → RingAt c s t
      → RingIn c (after_fill env c s filled t)
  unfolding after_fill wait_dma_transmission_done
  after_fill-RingIn s none t h = RingAt-InRing c s t h
  after_fill-RingIn s (some (k, reader)) t h =
      let sent_off = transmit_chunk k s.transmit_slot_available t in
      let s' = record s { reader = reader; transmit_slot_available = sent_off.0 } in
      after_receive-RingIn _ _ (
        on_receive-RingAnswer s' _ _ (
          RingAt-same c s s' t _ refl refl
            (ap (λ (e : Engine). e.receiver) (poll_status-engine env S2mm.status 10 sent_off.1)
              ∙ transmit_chunk-receiver k s.transmit_slot_available t)
            h))

  round-RingIn :
      (fill_rounds : ℕ) (s : Stream) (t : Trace)
      → RingAt c s t
      → RingIn c (round env c fill_rounds s t)
  unfolding round
  round-RingIn fill_rounds s t h = after_fill-RingIn s _ _ (
      RingAt-same c s s t _ refl refl
        (ap (λ (e : Engine). e.receiver)
          (fill_chunk-engine c s.transmit_slot_available fill_rounds 0 s.reader t))
        h)

  after_round-RingIn :
      (f : Stream → Act Round) (r : Round) (t : Trace)
      → ((s : Stream) (t' : Trace) → RingAt c s t' → RingIn c (f s t'))
      → RingIn c (r, t)
      → RingIn c (after_round r f t)
  unfolding after_round
  after_round-RingIn f spins t g h = h
  after_round-RingIn f returns_1 t g h = h
  after_round-RingIn f (goes s) t g h = g s t h

  -- If the ring of eight frames ends below 2 ^ 64, from a receiver that is set to the frame which the counters
  -- name: after any number of rounds, with `--loop` or without, and whatever the engine answers, the
  -- receiver is set to the frame of the ring whose number is that of the frames received modulo 8, with
  -- the length of one frame. Where the program gives up because the process to notify is gone, and
  -- where a fill loop does not end, the receiver is set to one of the eight frames, with that length.
  pub stream_loop-RingIn :
      (fill_rounds rounds : ℕ) (s : Stream) (t : Trace)
      → RingAt c s t
      → RingIn c (stream_loop env c fill_rounds rounds s t)
  unfolding stream_loop
  stream_loop-RingIn fill_rounds zero s t h = h
  stream_loop-RingIn fill_rounds (suc rounds) s t h =
      after_round-RingIn (stream_loop env c fill_rounds rounds) _ _
        (stream_loop-RingIn fill_rounds rounds) (round-RingIn fill_rounds s t h)

-- ===== src/Stream/Ring/Sender.antt =====
-- The sender's address over a whole run of the loop.
use thesis_software.Base.{
  ℕ, zero, suc, ◌≡◌, refl, ap, ◌∙◌, inl, inr, Bool, Option, none, some, Bool-cases, ltb,
}
use thesis_software.World.{Env, Trace, Act}
use thesis_software.Dma.{
  DmaReturnValue, dma_received, dma_timeout, dma_failed, wait_dma_transmission_done,
  set_dma_transmission_length, set_dma_channel_address,
}
use thesis_software.Dma.Mm2s
use thesis_software.Dma.S2mm
use thesis_software.Dma.Channels.{Engine, last_write, engine, poll_status-engine}
use thesis_software.Stream.{
  Setup, Reader, Stream, transmit_chunk, notify, receive_frame, on_receive, poll_transmit, Round,
  spins, returns_1, goes, after_receive, after_fill, round, after_round, stream_loop,
}
use thesis_software.Stream.Fill.{branch}
use thesis_software.Stream.Ring.{notify-engine}
use thesis_software.Stream.Ring.Run.{fill_chunk-engine}

abbrev pub sends_from : Trace → ℕ
sends_from t = (engine t).sender.address

same_engine : (t t' : Trace) → engine t' ≡ engine t → sends_from t' ≡ sends_from t
same_engine t t' e = ap (λ (x : Engine). x.sender.address) e

transmit_chunk-sends_from :
    (lines_read : ℕ) (slot : Bool) (t : Trace)
    → sends_from (transmit_chunk lines_read slot t).1 ≡ sends_from t
unfolding transmit_chunk set_dma_transmission_length engine last_write
transmit_chunk-sends_from lines_read slot t = elim (Bool-cases (ltb 0 lines_read)) [
  | inl some_lines ↦ rw some_lines refl
  | inr no_lines ↦ rw no_lines refl
]

next_frame-sends_from :
    (a : ℕ) (t : Trace)
    → sends_from (set_dma_transmission_length 1 4096 (set_dma_channel_address 1 a t).1).1
      ≡ sends_from t
unfolding set_dma_transmission_length set_dma_channel_address engine last_write
next_frame-sends_from a t = refl

module _ (env : Env) (c : Setup) where
  receive_frame-sends_from :
      (s : Stream) (t : Trace) → sends_from (receive_frame env c s t).1 ≡ sends_from t
  unfolding receive_frame
  receive_frame-sends_from s t =
      let told = same_engine t _ (notify-engine env c.pid t) in
      elim (Bool-cases (notify env c.pid t).0) [
        | inl on ↦ rw on (next_frame-sends_from _ (notify env c.pid t).1 ∙ told)
        | inr refused ↦ rw refused told
      ]

  on_receive-sends_from :
      (s : Stream) (r : DmaReturnValue) (t : Trace)
      → sends_from (on_receive env c s r t).1 ≡ sends_from t
  unfolding on_receive
  on_receive-sends_from s dma_received t = receive_frame-sends_from s t
  on_receive-sends_from s dma_timeout t = refl
  on_receive-sends_from s dma_failed t = refl

  poll_transmit-sends_from :
      (s : Stream) (t : Trace) → sends_from (poll_transmit env s t).1 ≡ sends_from t
  unfolding poll_transmit wait_dma_transmission_done
  poll_transmit-sends_from s t =
      branch (λ q. sends_from q.1 ≡ sends_from t) s.transmit_slot_available _ _ t (λ free. refl)
        (λ busy. same_engine t _ (poll_status-engine env Mm2s.status 10 t))

  after_receive-sends_from :
      (answer : Option Stream) (t : Trace)
      → sends_from (after_receive env answer t).1 ≡ sends_from t
  unfolding after_receive
  after_receive-sends_from none t = refl
  after_receive-sends_from (some s) t = poll_transmit-sends_from s t

  after_fill-sends_from :
      (s : Stream) (filled : Option (ℕ × Reader)) (t : Trace)
      → sends_from (after_fill env c s filled t).1 ≡ sends_from t
  unfolding after_fill wait_dma_transmission_done
  after_fill-sends_from s none t = refl
  after_fill-sends_from s (some (k, reader)) t =
      let sent_off = transmit_chunk k s.transmit_slot_available t in
      after_receive-sends_from _ _
      ∙ on_receive-sends_from _ _ _
      ∙ same_engine sent_off.1 _ (poll_status-engine env S2mm.status 10 sent_off.1)
      ∙ transmit_chunk-sends_from k s.transmit_slot_available t

  after_round-sends_from :
      (f : Stream → Act Round) (r : Round) (t : Trace)
      → ((s : Stream) (t' : Trace) → sends_from (f s t').1 ≡ sends_from t')
      → sends_from (after_round r f t).1 ≡ sends_from t
  unfolding after_round
  after_round-sends_from f spins t g = refl
  after_round-sends_from f returns_1 t g = refl
  after_round-sends_from f (goes s) t g = g s t

  round-sends_from :
      (fill_rounds : ℕ) (s : Stream) (t : Trace)
      → sends_from (round env c fill_rounds s t).1 ≡ sends_from t
  unfolding round
  round-sends_from fill_rounds s t =
      after_fill-sends_from s _ _
      ∙ same_engine t _ (fill_chunk-engine c s.transmit_slot_available fill_rounds 0 s.reader t)

  -- The sender's address stays as it is, for any number of rounds.
  pub stream_loop-sends_from :
      (fill_rounds rounds : ℕ) (s : Stream) (t : Trace)
      → sends_from (stream_loop env c fill_rounds rounds s t).1 ≡ sends_from t
  unfolding stream_loop
  stream_loop-sends_from fill_rounds zero s t = refl
  stream_loop-sends_from fill_rounds (suc rounds) s t =
      after_round-sends_from (stream_loop env c fill_rounds rounds) _ _
        (stream_loop-sends_from fill_rounds rounds)
      ∙ round-sends_from fill_rounds s t

-- ===== src/Stream/Completes.antt =====
-- The outer loop comes to the end of the file, where the engine completes its transmissions.
use thesis_software.Base.{
  ℕ, zero, suc, ◌<◌, ◌≡◌, refl, sym, ap, ◌∙◌, subst, inl, inr, true, false, Option, none, some, [],
  ◌++◌, append-nil, arith, Bool-cases, length,
}
use thesis_software.World.{Env, Trace, Act}
use thesis_software.Helper.{Bytes}
use thesis_software.Dma.{
  src_buf_id, DmaReturnValue, dma_received, dma_timeout, dma_failed, wait_dma_transmission_done,
}
use thesis_software.Stream.{
  Setup, Reader, Stream, first_state, fill_chunk, transmit_chunk, notify, receive_frame, on_receive,
  poll_transmit, Round, spins, returns_1, goes, after_receive, after_fill, round, after_round,
  stream_loop,
}
use thesis_software.Stream.Words.{words, AllFile}
use thesis_software.Stream.Sent.{sent, transmitting}
use thesis_software.Stream.Fill.{left}
use thesis_software.Stream.Steps.{Keeps}
use thesis_software.Stream.Delivery.{stream_loop-Keeps}
use thesis_software.Stream.Nears.{Nears, round_fill-Nears}

-- A round that goes on, with a free slot, nearer to the end of the file.
abbrev RoundNears : ℕ → Round → Type 0
RoundNears n spins = ⊥
RoundNears n returns_1 = ⊥
RoundNears n (goes s) = (s.transmit_slot_available ≡ true) × Nears n (some (0, s.reader))

abbrev KeepsReader : Reader → Option Stream → Type 0
KeepsReader reader none = ⊥
KeepsReader reader (some s) = s.reader ≡ reader

abbrev Finished : Round → Type 0
Finished spins = ⊥
Finished returns_1 = ⊥
Finished (goes s) = s.reader.finished_transmitting ≡ true

module _ (env : Env) (c : Setup)
    (completes : (t : Trace) → (wait_dma_transmission_done env src_buf_id 10 t).0 ≡ dma_received)
    (notified : (t : Trace) → (notify env c.pid t).0 ≡ true) where
  poll_transmit-frees :
      (s : Stream) (t : Trace)
      → ((poll_transmit env s t).0.transmit_slot_available ≡ true)
        × ((poll_transmit env s t).0.reader ≡ s.reader)
  unfolding poll_transmit
  poll_transmit-frees s t = elim (Bool-cases s.transmit_slot_available) [
    | inl free ↦ rw free (refl, refl)
    | inr busy ↦ rw (busy, completes t) (refl, refl)
  ]

  on_receive-KeepsReader :
      (s : Stream) (r : DmaReturnValue) (t : Trace)
      → KeepsReader s.reader (on_receive env c s r t).0
  unfolding on_receive receive_frame
  on_receive-KeepsReader s dma_received t = rw (notified t) refl
  on_receive-KeepsReader s dma_timeout t = refl
  on_receive-KeepsReader s dma_failed t = refl

  after_receive-RoundNears :
      (n : ℕ) (reader : Reader) (answer : Option Stream) (t : Trace)
      → Nears n (some (0, reader))
      → KeepsReader reader answer
      → RoundNears n (after_receive env answer t).0
  unfolding after_receive
  after_receive-RoundNears n reader none t h k = absurd k
  after_receive-RoundNears n reader (some s) t h k =
      let (free, kept) = poll_transmit-frees s t in
      (free, subst (λ r. Nears n (some (0, r))) (sym (kept ∙ k)) h)

  after_fill-RoundNears :
      (n k : ℕ) (s : Stream) (reader : Reader) (t : Trace)
      → Nears n (some (k, reader))
      → RoundNears n (after_fill env c s (some (k, reader)) t).0
  unfolding after_fill
  after_fill-RoundNears n k s reader t h =
      let sent_off = transmit_chunk k s.transmit_slot_available t in
      let waited = wait_dma_transmission_done env 1 10 sent_off.1 in
      let s' = record s { reader = reader; transmit_slot_available = sent_off.0 } in
      after_receive-RoundNears n reader _ _ h (on_receive-KeepsReader s' waited.0 waited.1)

  filled-RoundNears :
      (n : ℕ) (s : Stream) (r : Option (ℕ × Reader)) (t : Trace)
      → Nears n r
      → RoundNears n (after_fill env c s r t).0
  filled-RoundNears n s none t h = absurd h
  filled-RoundNears n s (some (k, reader)) t h = after_fill-RoundNears n k s reader t h

  module _ (once : c.loop_file ≡ false) (fill_rounds : ℕ) (enough : 128 < fill_rounds) where
    round-RoundNears :
        (n : ℕ) (s : Stream) (t : Trace)
        → s.transmit_slot_available ≡ true
        → Nears (suc n) (some (0, s.reader))
        → RoundNears n (round env c fill_rounds s t).0
    unfolding round
    round-RoundNears n s t slot near = filled-RoundNears n s _ _ (
        subst (λ b. Nears n (fill_chunk c b fill_rounds 0 s.reader t).0) (sym slot)
          (round_fill-Nears c once n fill_rounds s.reader t enough near))

    after_round-Finished :
        (n : ℕ) (f : Stream → Act Round) (r : Round) (t : Trace)
        → RoundNears n r
        → ((s : Stream) (t' : Trace)
            → s.transmit_slot_available ≡ true
            → Nears n (some (0, s.reader))
            → Finished (f s t').0)
        → Finished (after_round r f t).0
    unfolding after_round
    after_round-Finished n f spins t h g = absurd h
    after_round-Finished n f returns_1 t h g = absurd h
    after_round-Finished n f (goes s) t h g = g s t h.0 h.1

    stream_loop-Finished :
        (rounds : ℕ) (s : Stream) (t : Trace)
        → s.transmit_slot_available ≡ true
        → Nears rounds (some (0, s.reader))
        → Finished (stream_loop env c fill_rounds rounds s t).0
    unfolding stream_loop
    stream_loop-Finished zero s t slot (inl over) = over
    stream_loop-Finished zero s t slot (inr h) = absurd (omega (arith, h))
    stream_loop-Finished (suc rounds) s t slot near =
        after_round-Finished rounds (stream_loop env c fill_rounds rounds) _ _
          (round-RoundNears rounds s t slot near) (stream_loop-Finished rounds)

-- All of the file is sent, and the loop goes on.
abbrev pub Complete : ℕ → Bytes → Round × Trace → Type 0
Complete p whole (spins, t) = ⊥
Complete p whole (returns_1, t) = ⊥
Complete p whole (goes s, t) = (s.reader.finished_transmitting ≡ true) × (sent p t ≡ whole)

Finished-Complete :
    (p : ℕ) (whole : Bytes) (r : Round) (t : Trace)
    → Finished r
    → Keeps p whole (r, t)
    → Complete p whole (r, t)
Finished-Complete p whole spins t f k = f
Finished-Complete p whole returns_1 t f k = f
Finished-Complete p whole (goes s) t f k =
    let none_left : left s.reader ≡ [] = rw f refl in
    (f, sym (append-nil (sent p t)) ∙ (ap (λ l. sent p t ++ l) (sym none_left) ∙ k.delivered))

-- Without `--loop`, on a file of bytes below 256 that `fgets` returns in fewer strings than the
-- loop has rounds, with eight bytes in `bytes`, from a trace that has sent nothing and has no
-- transmission under way, and with 129 rounds or more for each fill loop: where the engine
-- completes each transmission while the program waits for it, and the process to notify, where one
-- was given, takes its signal, the program reads the file to its end and sends all of its words,
-- each once and in their order, and its loop goes on.
pub stream_loop-Complete :
    (env : Env) (c : Setup) (fill_rounds rounds : ℕ) (bytes : Bytes) (t : Trace)
    → ((u : Trace) → (wait_dma_transmission_done env src_buf_id 10 u).0 ≡ dma_received)
    → ((u : Trace) → (notify env c.pid u).0 ≡ true)
    → c.loop_file ≡ false
    → 128 < fill_rounds
    → length c.whole < rounds
    → length bytes ≡ 8
    → AllFile c.whole
    → sent c.src_buf t ≡ []
    → transmitting t ≡ some false
    → Complete c.src_buf
        (words c.whole)
        (stream_loop env c fill_rounds rounds (first_state c bytes) t)
stream_loop-Complete env c fill_rounds rounds bytes t completes notified once enough long width file
      fresh idle =
    Finished-Complete c.src_buf (words c.whole) _ _
      (stream_loop-Finished env c completes notified once fill_rounds enough rounds
        (first_state c bytes) t refl (inr long))
      (stream_loop-Keeps env c fill_rounds rounds bytes t once enough width file fresh idle)

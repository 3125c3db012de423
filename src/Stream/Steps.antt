-- ===== src/Stream/Steps.antt =====
-- The steps of a round of the outer loop: each keeps what is sent in line with the file, and the slot
-- with the engine.
use thesis_software.Base.{
  ℕ, zero, suc, ◌*◌, ◌%◌, ◌^◌, ◌≡◌, refl, sym, ap, ◌∙◌, subst, inl, inr, Bool, true, false, not,
  ◌&&◌, Option, none, some, ◌++◌, append_assoc, arith, Bool-cases, length, ltb,
}
use thesis_software.World.{Env, Trace}
use thesis_software.Helper.{Bytes}
use thesis_software.Dma.{
  DmaReturnValue, dma_received, dma_timeout, dma_failed, wait_dma_transmission_done,
  set_dma_channel_address, set_dma_transmission_length,
}
use thesis_software.Dma.Mm2s
use thesis_software.Dma.S2mm
use thesis_software.Stream.{
  Setup, Reader, Stream, fill_chunk, transmit_chunk, notify, receive_frame, on_receive, freed_slot,
  poll_transmit, Round, spins, returns_1, goes,
}
use thesis_software.Stream.Words.{AllFile}
use thesis_software.Stream.Sent.{
  bytes_at, sent, transmitting, poll_status-sent, poll_receive-transmitting, still,
  poll_transmit-transmitting,
}
use thesis_software.Stream.Fill.{left, Filling}

-- Between the steps of a round: the bytes sent and the words left are those of the file, and the slot
-- is available exactly when no transmission is under way.
pub record Streaming (p : ℕ) (whole : Bytes) (reader : Reader) (slot : Bool) (t : Trace)
    : Type 0 where
  pub delivered : sent p t ++ left reader ≡ whole
  pub slot_free : transmitting t ≡ some (not slot)
  pub readable :
      reader.finished_transmitting ≡ false → AllFile reader.rest × (length reader.bytes ≡ 8)

-- An event that sends nothing and changes nothing under way.
Streaming-moves :
    (p : ℕ) (whole : Bytes) (reader : Reader) (slot : Bool) (t t' : Trace)
    → sent p t' ≡ sent p t
    → transmitting t' ≡ transmitting t
    → Streaming p whole reader slot t
    → Streaming p whole reader slot t'
Streaming-moves p whole reader slot t t' e f st = record {
  delivered = ap (λ b. b ++ left reader) e ∙ st.delivered;
  slot_free = f ∙ st.slot_free;
  readable = st.readable;
}

pub transmit_none :
    (p : ℕ) (whole : Bytes) (reader : Reader) (slot : Bool) (t : Trace)
    → Streaming p whole reader slot t
    → Streaming p whole reader (transmit_chunk 0 slot t).0 (transmit_chunk 0 slot t).1
unfolding transmit_chunk
transmit_none p whole reader slot t st = st

transmit_some :
    (p : ℕ) (whole before chunk : Bytes) (n : ℕ) (reader : Reader) (t : Trace)
    → Filling p chunk before (suc n) reader t
    → before ++ chunk ≡ whole
    → Streaming p whole reader (transmit_chunk (suc n) true t).0 (transmit_chunk (suc n) true t).1
unfolding transmit_chunk set_dma_transmission_length sent transmitting
transmit_some p whole before chunk n reader t f e =
    let more : ltb 0 (suc n) ≡ true = ground arith in
    let size : suc n * 8 % 2 ^ 32 % 2 ^ 32 ≡ suc n * 8 = omega (arith, f.in_chunk) in
    record {
      delivered =
          rw
            (
              more,
              size,
              append_assoc (sent p t) (bytes_at t p (suc n * 8)) (left reader),
              f.held,
              f.sent_before,
            )
            e;
      slot_free = rw more (rw (f.idle) refl);
      readable = f.readable;
    }

-- The state after a chunk was filled, where there was a slot.
pub transmit_filled :
    (p : ℕ) (whole before chunk : Bytes) (n : ℕ) (reader : Reader) (t : Trace)
    → Filling p chunk before n reader t
    → before ++ chunk ≡ whole
    → Streaming p whole reader (transmit_chunk n true t).0 (transmit_chunk n true t).1
transmit_filled p whole before chunk zero reader t f e =
    let same : left reader ≡ chunk = unfold bytes_at in f.held in
    transmit_none p whole reader true t (record {
      delivered = rw (f.sent_before) (ap (◌++◌ before) same ∙ e);
      slot_free = f.idle;
      readable = f.readable;
    })
transmit_filled p whole before chunk (suc n) reader t f e =
    transmit_some p whole before chunk n reader t f e

pub no_slot :
    (c : Setup) (rounds : ℕ) (s : Reader) (t : Trace)
    → fill_chunk c false (suc rounds) 0 s t ≡ (some (0, s), t)
unfolding fill_chunk
no_slot c rounds s t = rw (full s.finished_transmitting) refl
  where
    full : (b : Bool) → (not b && false) ≡ false
    full true = refl
    full false = refl

pub wait_receive-Streaming :
    (env : Env) (p : ℕ) (whole : Bytes) (reader : Reader) (slot : Bool) (t : Trace)
    → Streaming p whole reader slot t
    → Streaming p whole reader slot (wait_dma_transmission_done env 1 10 t).1
unfolding wait_dma_transmission_done
wait_receive-Streaming env p whole reader slot t st =
    Streaming-moves p whole reader slot t _ (poll_status-sent env S2mm.status 10 p t)
      (poll_receive-transmitting env 10 t) st

-- Where a round ends. A program that gives up has still sent a part of the file from its start.
abbrev pub Keeps : ℕ → Bytes → Round × Trace → Type 0
Keeps p whole (spins, t) = ⊥
Keeps p whole (returns_1, t) =
    ((unsent : Bytes) × (sent p t ++ unsent ≡ whole))
    × ((busy : Bool) × (transmitting t ≡ some busy))
Keeps p whole (goes s, t) = Streaming p whole s.reader s.transmit_slot_available t

abbrev pub KeepsOption : ℕ → Bytes → Option Stream × Trace → Type 0
KeepsOption p whole (none, t) = Keeps p whole (returns_1, t)
KeepsOption p whole (some s, t) = Keeps p whole (goes s, t)

given_up :
    (p : ℕ) (whole : Bytes) (reader : Reader) (slot : Bool) (t : Trace)
    → Streaming p whole reader slot t
    → Keeps p whole (returns_1, t)
given_up p whole reader slot t st = ((left reader, st.delivered), (not slot, st.slot_free))

notify-Streaming :
    (env : Env) (pid : Option ℕ) (p : ℕ) (whole : Bytes) (reader : Reader) (slot : Bool) (t : Trace)
    → Streaming p whole reader slot t
    → Streaming p whole reader slot (notify env pid t).1
unfolding notify
notify-Streaming env none p whole reader slot t st = st
notify-Streaming env (some pid) p whole reader slot t st =
    Streaming-moves p whole reader slot t _ (unfold sent in refl) (unfold transmitting in refl) st

receive_frame-Keeps :
    (env : Env) (c : Setup) (p : ℕ) (whole : Bytes) (s : Stream) (t : Trace)
    → Streaming p whole s.reader s.transmit_slot_available t
    → KeepsOption p whole (receive_frame env c s t)
unfolding receive_frame set_dma_channel_address set_dma_transmission_length
receive_frame-Keeps env c p whole s t st =
    let told = notify-Streaming env c.pid p whole s.reader s.transmit_slot_available t st in
    elim (Bool-cases (notify env c.pid t).0) [
      | inl on ↦ rw on (
          Streaming-moves p whole s.reader s.transmit_slot_available (notify env c.pid t).1 _
            (unfold sent in refl) (unfold transmitting in refl) told)
      | inr refused ↦ rw refused (given_up p whole s.reader s.transmit_slot_available _ told)
    ]

pub on_receive-Keeps :
    (env : Env) (c : Setup) (p : ℕ) (whole : Bytes) (s : Stream) (r : DmaReturnValue) (t : Trace)
    → Streaming p whole s.reader s.transmit_slot_available t
    → KeepsOption p whole (on_receive env c s r t)
unfolding on_receive
on_receive-Keeps env c p whole s dma_received t st = receive_frame-Keeps env c p whole s t st
on_receive-Keeps env c p whole s dma_timeout t st = st
on_receive-Keeps env c p whole s dma_failed t st = st

freed_slot-Streaming :
    (p : ℕ) (whole : Bytes) (s : Stream) (r : DmaReturnValue) (t : Trace)
    → sent p t ++ left s.reader ≡ whole
    → transmitting t ≡ some (still true r)
    → (s.reader.finished_transmitting ≡ false → AllFile s.reader.rest × (length s.reader.bytes ≡ 8))
    → s.transmit_slot_available ≡ false
    → Keeps p whole (goes (freed_slot s r), t)
freed_slot-Streaming p whole s dma_received t d e a b = record {
  delivered = d;
  slot_free = e;
  readable = a;
}
freed_slot-Streaming p whole s dma_timeout t d e a b = record {
  delivered = d;
  slot_free = e ∙ ap (λ b. some (not b)) (sym b);
  readable = a;
}
freed_slot-Streaming p whole s dma_failed t d e a b = record {
  delivered = d;
  slot_free = e ∙ ap (λ b. some (not b)) (sym b);
  readable = a;
}

pub poll_transmit-Streaming :
    (env : Env) (p : ℕ) (whole : Bytes) (s : Stream) (t : Trace)
    → Streaming p whole s.reader s.transmit_slot_available t
    → Keeps p whole (goes (poll_transmit env s t).0, (poll_transmit env s t).1)
unfolding poll_transmit wait_dma_transmission_done
poll_transmit-Streaming env p whole s t st = elim (Bool-cases s.transmit_slot_available) [
  | inl slot ↦ rw slot (subst (λ b. Streaming p whole s.reader b t) slot st)
  | inr busy ↦ rw busy (
      freed_slot-Streaming p whole (record s { transmit_slot_available = false }) _ _
        (ap (λ b. b ++ left s.reader) (poll_status-sent env Mm2s.status 10 p t) ∙ st.delivered)
        (poll_transmit-transmitting env 10 true t (st.slot_free ∙ ap (λ b. some (not b)) busy))
        st.readable refl)
]

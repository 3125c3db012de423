-- ===== src/Stream/Delivery.antt =====
-- The outer loop: what it sends are the words of the file, and the source buffer is left alone while
-- it is being sent.
use thesis_software.Base.{
  ℕ, zero, suc, ◌<◌, ◌≡◌, refl, sym, ap, ◌∙◌, subst, inl, inr, Bool, true, false, not, Option, none,
  some, [], ◌++◌, arith, Bool-cases, length,
}
use thesis_software.World.{Env, Trace, Act}
use thesis_software.Helper.{Bytes}
use thesis_software.Stream.{
  first_state, Setup, Reader, Stream, fill_chunk, transmit_chunk, Round, spins, returns_1, goes,
  after_receive, after_fill, round, after_round, stream_loop,
}
use thesis_software.Stream.Words.{words, AllFile}
use thesis_software.Stream.Sent.{bytes_at, sent, transmitting}
use thesis_software.Stream.Fill.{left, Filling, Filled, fill_chunk-Filled}
use thesis_software.Stream.Steps.{
  Streaming, Keeps, KeepsOption, transmit_none, transmit_filled, no_slot, wait_receive-Streaming,
  on_receive-Keeps, poll_transmit-Streaming,
}

after_receive-Keeps :
    (env : Env) (p : ℕ) (whole : Bytes) (answer : Option Stream) (t : Trace)
    → KeepsOption p whole (answer, t)
    → Keeps p whole (after_receive env answer t)
unfolding after_receive
after_receive-Keeps env p whole none t k = k
after_receive-Keeps env p whole (some s) t k = poll_transmit-Streaming env p whole s t k

after_fill-Keeps :
    (env : Env) (c : Setup) (p : ℕ) (whole : Bytes) (s : Stream) (n : ℕ) (reader : Reader)
    (t : Trace)
    → Streaming p whole reader
        (transmit_chunk n s.transmit_slot_available t).0
        (transmit_chunk n s.transmit_slot_available t).1
    → Keeps p whole (after_fill env c s (some (n, reader)) t)
unfolding after_fill
after_fill-Keeps env c p whole s n reader t st =
    let sent_off = transmit_chunk n s.transmit_slot_available t in
    let waited = wait_receive-Streaming env p whole reader sent_off.0 sent_off.1 st in
    let s' = record s { reader = reader; transmit_slot_available = sent_off.0 } in
    after_receive-Keeps env p whole _ _ (on_receive-Keeps env c p whole s' _ _ waited)

pub fill_answer-Keeps :
    (env : Env) (c : Setup) (p : ℕ) (whole before chunk : Bytes) (s : Stream)
    (r : Option (ℕ × Reader)) (t : Trace)
    → Filled p chunk before (r, t)
    → before ++ chunk ≡ whole
    → s.transmit_slot_available ≡ true
    → Keeps p whole (after_fill env c s r t)
fill_answer-Keeps env c p whole before chunk s none t f e slot = absurd f
fill_answer-Keeps env c p whole before chunk s (some (n, reader)) t f e slot =
    after_fill-Keeps env c p whole s n reader t (
      subst (λ b. Streaming p whole reader (transmit_chunk n b t).0 (transmit_chunk n b t).1)
        (sym slot) (transmit_filled p whole before chunk n reader t f e))

-- The start of a fill loop, where there is a slot.
pub start-Filling :
    (p : ℕ) (whole : Bytes) (reader : Reader) (slot : Bool) (t : Trace)
    → Streaming p whole reader slot t
    → slot ≡ true
    → Filling p (left reader) (sent p t) 0 reader t
start-Filling p whole reader slot t st free = record {
  held = unfold bytes_at in refl;
  idle = st.slot_free ∙ ap (λ b. some (not b)) free;
  sent_before = refl;
  in_chunk = omega arith;
  readable = st.readable;
}

-- A round while a transmission is under way fills nothing.
pub busy_round-Keeps :
    (env : Env) (c : Setup) (whole : Bytes) (rounds : ℕ) (s : Stream) (t : Trace)
    → Streaming c.src_buf whole s.reader s.transmit_slot_available t
    → s.transmit_slot_available ≡ false
    → Keeps c.src_buf whole (round env c (suc rounds) s t)
unfolding round
busy_round-Keeps env c whole rounds s t st busy =
    let stays : fill_chunk c s.transmit_slot_available (suc rounds) 0 s.reader t
        ≡ (some (0, s.reader), t) =
      ap (λ b. fill_chunk c b (suc rounds) 0 s.reader t) busy ∙ no_slot c rounds s.reader t in
    subst (λ (q : Option (ℕ × Reader) × Trace). Keeps c.src_buf whole (after_fill env c s q.0 q.1))
      (sym stays)
      (after_fill-Keeps env c c.src_buf whole s 0 s.reader t
        (transmit_none c.src_buf whole s.reader s.transmit_slot_available t st))

round-Keeps :
    (env : Env) (c : Setup) (whole : Bytes) (fill_rounds : ℕ) (s : Stream) (t : Trace)
    → c.loop_file ≡ false
    → 128 < fill_rounds
    → Streaming c.src_buf whole s.reader s.transmit_slot_available t
    → Keeps c.src_buf whole (round env c fill_rounds s t)
unfolding round
round-Keeps env c whole zero s t once enough st = absurd (omega (arith, enough))
round-Keeps env c whole (suc rounds) s t once enough st =
    elim (Bool-cases s.transmit_slot_available) [
      | inl slot ↦
          fill_answer-Keeps env c c.src_buf whole (sent c.src_buf t) (left s.reader) s _ _
            (subst
              (λ b.
                Filled c.src_buf (left s.reader) (sent c.src_buf t)
                  (fill_chunk c b (suc rounds) 0 s.reader t))
              (sym slot)
              (fill_chunk-Filled c (left s.reader) (sent c.src_buf t) (suc rounds) 0 s.reader t once
                (omega (arith, enough))
                (start-Filling c.src_buf whole s.reader s.transmit_slot_available t st slot)))
            st.delivered slot
      | inr busy ↦ busy_round-Keeps env c whole rounds s t st busy
    ]

after_round-Keeps :
    (p : ℕ) (whole : Bytes) (f : Stream → Act Round) (r : Round) (t : Trace)
    → ((s : Stream) (t' : Trace) → Keeps p whole (goes s, t') → Keeps p whole (f s t'))
    → Keeps p whole (r, t)
    → Keeps p whole (after_round r f t)
unfolding after_round
after_round-Keeps p whole f spins t h k = k
after_round-Keeps p whole f returns_1 t h k = k
after_round-Keeps p whole f (goes s) t h k = h s t k

loop-Keeps :
    (env : Env) (c : Setup) (whole : Bytes) (fill_rounds rounds : ℕ) (s : Stream) (t : Trace)
    → c.loop_file ≡ false
    → 128 < fill_rounds
    → Streaming c.src_buf whole s.reader s.transmit_slot_available t
    → Keeps c.src_buf whole (stream_loop env c fill_rounds rounds s t)
unfolding stream_loop
loop-Keeps env c whole fill_rounds zero s t once enough st = st
loop-Keeps env c whole fill_rounds (suc rounds) s t once enough st =
    after_round-Keeps c.src_buf whole (stream_loop env c fill_rounds rounds) _ _
      (λ s' t' k. loop-Keeps env c whole fill_rounds rounds s' t' once enough k)
      (round-Keeps env c whole fill_rounds s t once enough st)

-- Without `--loop`, on a file of bytes below 256, with eight bytes in `bytes`, from a trace that has
-- sent nothing and has no transmission under way, and with 129 rounds or more for each fill loop,
-- whatever the engine answers: no fill loop runs on for ever; after any number of rounds the bytes
-- sent, followed by those of the lines not read yet, are the words of the file, so that they are a part
-- of them from their start, and all of them once `finished_transmitting` is set; and no line is stored
-- and no transmission begun while one is under way. The same holds of what was sent where the program
-- returns 1, because the process to notify is gone.
pub stream_loop-Keeps :
    (env : Env) (c : Setup) (fill_rounds rounds : ℕ) (bytes : Bytes) (t : Trace)
    → c.loop_file ≡ false
    → 128 < fill_rounds
    → length bytes ≡ 8
    → AllFile c.whole
    → sent c.src_buf t ≡ []
    → transmitting t ≡ some false
    → Keeps c.src_buf (words c.whole) (stream_loop env c fill_rounds rounds (first_state c bytes) t)
stream_loop-Keeps env c fill_rounds rounds bytes t once enough width file fresh idle =
    loop-Keeps env c (words c.whole) fill_rounds rounds (first_state c bytes) t once enough
      (record {
        delivered = ap (λ b. b ++ words c.whole) fresh;
        slot_free = idle;
        readable = λ _. (file, width);
      })

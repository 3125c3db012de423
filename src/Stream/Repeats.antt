-- ===== src/Stream/Repeats.antt =====
-- The loop under `--loop`: the file over and over.
use thesis_software.Base.{
  ℕ, zero, suc, ◌+◌, ◌*◌, ◌<◌, ◌≡◌, ◌≢◌, refl, sym, ap, ◌∙◌, subst, inl, inr, true, false, not,
  ◌&&◌, Option, some, [], ◌++◌, append_assoc, append-nil, arith, Bool-cases, length, ltb,
}
use thesis_software.World.{Env, Trace, Act}
use thesis_software.Helper.{Bytes}
use thesis_software.Stream.{
  Setup, Reader, Stream, fill_chunk, first_state, Round, spins, returns_1, goes, after_fill, round,
  after_round, stream_loop,
}
use thesis_software.Stream.Words.{words, AllFile}
use thesis_software.Stream.Sent.{bytes_at, sent, transmitting}
use thesis_software.Stream.Fill.{left, Filling, Filled, fill_turn}
use thesis_software.Stream.Steps.{Streaming, Keeps}
use thesis_software.Stream.Delivery.{fill_answer-Keeps, start-Filling, busy_round-Keeps}

-- So many times the same bytes.
unfoldable pub repeated : ℕ → Bytes → Bytes
repeated zero bs = []
repeated (suc k) bs = repeated k bs ++ bs

-- The words of the file so many times, some of them sent before.
record Part (ws before : Bytes) (k : ℕ) (chunk : Bytes) : Type 0 where
  joined : before ++ chunk ≡ repeated k ws

Part-again :
    (ws before chunk : Bytes) (k : ℕ)
    → Part ws before k chunk
    → Part ws before (suc k) (chunk ++ ws)
unfolding repeated
Part-again ws before chunk k p = record {
  joined = sym (append_assoc before chunk ws) ∙ ap (λ l. l ++ ws) p.joined;
}

-- The end of a fill loop, with a number of turns through the file.
abbrev Looped : ℕ → Bytes → Bytes → Option (ℕ × Reader) × Trace → Type 0
Looped p ws before r = (k : ℕ) × (chunk : Bytes) × Part ws before k chunk × Filled p chunk before r

module _ (c : Setup) (file : AllFile c.whole) (some_word : words c.whole ≢ []) where
  -- Back at the start of the file.
  rewound-Filling :
      (chunk before : Bytes) (n : ℕ) (s : Reader) (t : Trace)
      → Filling c.src_buf chunk before n s t
      → s.finished_transmitting ≡ false
      → left s ≡ []
      → Filling c.src_buf
          (chunk ++ words c.whole)
          before
          n
          (record s { rest = c.whole; lineno = 0 })
          t
  rewound-Filling chunk before n s t f going over =
      let stored_so = bytes_at t c.src_buf (n * 8) in
      let same : stored_so ≡ chunk =
        sym (append-nil stored_so) ∙ (ap (λ l. stored_so ++ l) (sym over) ∙ f.held) in
      let restart : left (record s { rest = c.whole; lineno = 0 }) ≡ words c.whole =
        rw going refl in
      record {
        held = ap (λ l. stored_so ++ l) restart ∙ ap (λ l. l ++ words c.whole) same;
        idle = f.idle;
        sent_before = f.sent_before;
        in_chunk = f.in_chunk;
        readable = λ h. (file, (f.readable going).1);
      }

  fill_chunk-Looped :
      (before : Bytes) (rounds k n : ℕ) (chunk : Bytes) (s : Reader) (t : Trace)
      → 257 < rounds + 2 * n
      → Part (words c.whole) before k chunk
      → Filling c.src_buf chunk before n s t
      → Looped c.src_buf (words c.whole) before (fill_chunk c true rounds n s t)
  fill_chunk-Looped before zero k n chunk s t enough p f =
      absurd (omega (arith, enough, f.in_chunk))
  fill_chunk-Looped before (suc zero) k n chunk s t enough p f =
      absurd (omega (arith, enough, f.in_chunk))
  fill_chunk-Looped before (suc (suc rounds)) k n chunk s t enough p f =
      elim (Bool-cases (ltb n 128 && (not s.finished_transmitting && true))) [
        | inr over ↦ unfold fill_chunk in rw over (k, chunk, p, f)
        | inl more ↦
            let again = chunk ++ words c.whole in
            let s0 = record s { rest = c.whole; lineno = 0 } in
            let going : s.finished_transmitting ≡ false = ground arith in
            fill_turn (Looped c.src_buf (words c.whole) before) c chunk before (suc rounds) n s t
              more f (λ s' f'. (k, chunk, p, f'))
              (λ loops e.
                fill_turn (Looped c.src_buf (words c.whole) before) c again before rounds n s0 t
                  more (rewound-Filling chunk before n s t f going e)
                  (λ s' f'. (suc k, again, Part-again (words c.whole) before chunk k p, f'))
                  (λ loops' e'. absurd (some_word (sym (rw going refl) ∙ e')))
                  (λ s' t' f'.
                    fill_chunk-Looped before rounds (suc k) (n + 1) again s' t'
                      (omega (arith, enough)) (Part-again (words c.whole) before chunk k p) f'))
              (λ s' t' f'.
                fill_chunk-Looped before (suc rounds) k (n + 1) chunk s' t' (omega (arith, enough))
                  p f')
      ]

-- So many turns through the file, some of which is not sent yet.
abbrev pub Repeats : ℕ → Bytes → Round × Trace → Type 0
Repeats p ws r = (k : ℕ) × Keeps p (repeated k ws) r

module _ (env : Env) (c : Setup) (file : AllFile c.whole) (some_word : words c.whole ≢ []) where
  fill_answer-Repeats :
      (before : Bytes) (s : Stream) (r : Option (ℕ × Reader)) (t : Trace)
      → s.transmit_slot_available ≡ true
      → Looped c.src_buf (words c.whole) before (r, t)
      → Repeats c.src_buf (words c.whole) (after_fill env c s r t)
  fill_answer-Repeats before s r t slot (k, chunk, p, f) = (
    k,
    fill_answer-Keeps env c c.src_buf (repeated k (words c.whole)) before chunk s r t f p.joined
        slot,
  )

  round-Repeats :
      (fill_rounds k : ℕ) (s : Stream) (t : Trace)
      → 257 < fill_rounds
      → Streaming c.src_buf (repeated k (words c.whole)) s.reader s.transmit_slot_available t
      → Repeats c.src_buf (words c.whole) (round env c fill_rounds s t)
  unfolding round
  round-Repeats zero k s t enough st = absurd (omega (arith, enough))
  round-Repeats (suc rounds) k s t enough st = elim (Bool-cases s.transmit_slot_available) [
    | inl slot ↦ fill_answer-Repeats (sent c.src_buf t) s _ _ slot (
        subst
          (λ b.
            Looped c.src_buf (words c.whole) (sent c.src_buf t)
              (fill_chunk c b (suc rounds) 0 s.reader t))
          (sym slot)
          (fill_chunk-Looped c file some_word (sent c.src_buf t) (suc rounds) k 0 (left s.reader)
            s.reader t (omega (arith, enough)) (record { joined = st.delivered })
            (start-Filling c.src_buf _ s.reader s.transmit_slot_available t st slot)))
    | inr busy ↦ (k, busy_round-Keeps env c (repeated k (words c.whole)) rounds s t st busy)
  ]

  after_round-Repeats :
      (f : Stream → Act Round) (r : Round) (t : Trace)
      → ((s : Stream) (t' : Trace)
          → Repeats c.src_buf (words c.whole) (goes s, t')
          → Repeats c.src_buf (words c.whole) (f s t'))
      → Repeats c.src_buf (words c.whole) (r, t)
      → Repeats c.src_buf (words c.whole) (after_round r f t)
  unfolding after_round
  after_round-Repeats f spins t h k = k
  after_round-Repeats f returns_1 t h k = k
  after_round-Repeats f (goes s) t h k = h s t k

  loop-Repeats :
      (fill_rounds rounds : ℕ) (s : Stream) (t : Trace)
      → 257 < fill_rounds
      → Repeats c.src_buf (words c.whole) (goes s, t)
      → Repeats c.src_buf (words c.whole) (stream_loop env c fill_rounds rounds s t)
  unfolding stream_loop
  loop-Repeats fill_rounds zero s t enough r = r
  loop-Repeats fill_rounds (suc rounds) s t enough (k, st) =
      after_round-Repeats (stream_loop env c fill_rounds rounds) _ _
        (λ s' t' r. loop-Repeats fill_rounds rounds s' t' enough r)
        (round-Repeats fill_rounds k s t enough st)

-- With `--loop` or without, on a file of bytes below 256 that holds a word, with eight bytes in `bytes`, from
-- a trace that has sent nothing and has no transmission under way, and with 258 rounds or more for each
-- fill loop, whatever the engine answers: no fill loop runs on for ever; after any number of rounds the
-- bytes sent, followed by those of the lines not read yet, are the words of the file repeated a number of
-- times; and no line is stored and no transmission begun while one is under way. The same holds
-- of what was sent where the program returns 1.
pub stream_loop-Repeats :
    (env : Env) (c : Setup) (fill_rounds rounds : ℕ) (bytes : Bytes) (t : Trace)
    → AllFile c.whole
    → words c.whole ≢ []
    → 257 < fill_rounds
    → length bytes ≡ 8
    → sent c.src_buf t ≡ []
    → transmitting t ≡ some false
    → Repeats c.src_buf
        (words c.whole)
        (stream_loop env c fill_rounds rounds (first_state c bytes) t)
unfolding repeated
stream_loop-Repeats env c fill_rounds rounds bytes t file some_word enough width fresh idle =
    loop-Repeats env c file some_word fill_rounds rounds (first_state c bytes) t enough (
      1,
      record {
        delivered = ap (λ b. b ++ words c.whole) fresh;
        slot_free = idle;
        readable = λ _. (file, width);
      },
    )

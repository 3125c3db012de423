-- ===== src/Stream/Fill.antt =====
-- The fill loop: it ends, and what it stores are the next words of the file.
use thesis_software.Base.{
  ℕ, zero, suc, ◌+◌, ◌*◌, ◌≤◌, ◌<◌, ◌≡◌, refl, sym, ap, ◌∙◌, subst, ◌⊎◌, inl, inr, Bool, true,
  false, not, ◌&&◌, Option, none, some, List, [], ◌∷◌, ◌++◌, append_assoc, arith, Bool-cases,
  Option-cases, length, ltb, if◌then◌else◌, is_some,
}
use thesis_software.World.{stored, Trace, Act}
use thesis_software.Helper.{
  Bytes, hexchar_to_uint8, ReadResult, eof, bad_line, got_line, ReadState, read_next_line,
}
use thesis_software.Helper.Decode.{decode, pair_value, parse_line-decode}
use thesis_software.Stream.{Setup, Reader, finish, fill_chunk}
use thesis_software.Stream.Words.{words, then_words, AllFile, NextWord, read_next_line-NextWord}
use thesis_software.Stream.Sent.{bytes_at, sent, transmitting, bytes_at-stored}

pair_value-cases :
    (a b : Option ℕ) → (pair_value a b ≡ none) ⊎ ((v : ℕ) × (pair_value a b ≡ some v))
pair_value-cases (some a) (some b) = inr (16 * a + b, refl)
pair_value-cases (some a) none = inl refl
pair_value-cases none b = inl refl

length-decode : (s bs : Bytes) → decode s ≡ some bs → 2 * length bs ≡ length s
unfolding decode
length-decode [] bs e = ground (arith, e)
length-decode (h ∷ []) bs e = cc
length-decode (h ∷ l ∷ s) bs e = elim (pair_value-cases (hexchar_to_uint8 h) (hexchar_to_uint8 l)) [
  | inl no_pair ↦ ground (arith, no_pair)
  | inr (v, pair) ↦ elim (Option-cases (decode s)) [
    | inl stop ↦ ground (arith, pair, stop)
    | inr (bs', more) ↦ ground (arith, pair, more, length-decode s bs' more)
  ]
]

-- The words that are still to be sent.
abbrev pub left : Reader → Bytes
left s = if s.finished_transmitting then [] else words s.rest

-- In the fill loop, with `n` lines stored: `whole` are the words of the buffer and those left.
pub record Filling (p : ℕ) (whole before : Bytes) (n : ℕ) (s : Reader) (t : Trace) : Type 0 where
  pub held : bytes_at t p (n * 8) ++ left s ≡ whole
  pub idle : transmitting t ≡ some false
  pub sent_before : sent p t ≡ before
  pub in_chunk : n ≤ 128
  pub readable : s.finished_transmitting ≡ false → AllFile s.rest × (length s.bytes ≡ 8)

-- The loop has ended.
abbrev pub Filled : ℕ → Bytes → Bytes → Option (ℕ × Reader) × Trace → Type 0
Filled p whole before (none, t) = ⊥
Filled p whole before (some (n, s), t) = Filling p whole before n s t

-- The end of the file or a line in error: nothing is left.
Filling-finish :
    (p : ℕ) (whole before : Bytes) (n : ℕ) (s : Reader) (t : Trace) (r : ReadState) (bytes : Bytes)
    → Filling p whole before n s t
    → left s ≡ []
    → Filling p whole before n (finish s r bytes) t
Filling-finish p whole before n s t r bytes f e = record {
  held = ap (◌++◌ (bytes_at t p (n * 8))) (sym e) ∙ f.held;
  idle = f.idle;
  sent_before = f.sent_before;
  in_chunk = f.in_chunk;
  readable = λ h. cc;
}

-- A word stored.
Filling-store :
    (p : ℕ) (whole before : Bytes) (n : ℕ) (s : Reader) (t : Trace) (rest : List Bytes) (lineno : ℕ)
    (word : Bytes)
    → Filling p whole before n s t
    → n < 128
    → s.finished_transmitting ≡ false
    → left s ≡ word ++ words rest
    → length word ≡ 8
    → AllFile rest
    → Filling p whole before
        (n + 1)
        (record s { rest = rest; lineno = lineno; bytes = word })
        (stored (p + n * 8) word ∷ t)
unfolding transmitting sent
Filling-store p whole before n s t rest lineno word f small going e width a =
    let size : (n + 1) * 8 ≡ n * 8 + length word = omega arith in
    record {
      held =
          rw
            (
              size,
              bytes_at-stored t p (n * 8) word,
              going,
              append_assoc (bytes_at t p (n * 8)) word (words rest),
            )
            (ap (◌++◌ (bytes_at t p (n * 8))) (sym e) ∙ f.held);
      idle = rw (f.idle) refl;
      sent_before = f.sent_before;
      in_chunk = omega arith;
      readable = λ h. (a, width);
    }

pub ReadResult-cases :
    (r : ReadResult) → (r ≡ eof) ⊎ ((r ≡ bad_line) ⊎ ((hex : Bytes) × (r ≡ got_line hex)))
ReadResult-cases eof = inl refl
ReadResult-cases bad_line = inr (inl refl)
ReadResult-cases (got_line hex) = inr (inr (hex, refl))

pub branch :
    {A : Type 0} (P : A × Trace → Type 0) (b : Bool) (m n : Act A) (t : Trace)
    → (b ≡ true → P (m t))
    → (b ≡ false → P (n t))
    → P ((if b then m else n) t)
branch P true m n t x y = x refl
branch P false m n t x y = y refl

-- A turn of the fill loop that reads: it ends, or goes back to the start of the file under `--loop`, or
-- stores a word and goes on.
pub fill_turn :
    (P : Option (ℕ × Reader) × Trace → Type 0) (c : Setup) (whole before : Bytes) (rounds n : ℕ)
    (s : Reader) (t : Trace)
    → (ltb n 128 && (not s.finished_transmitting && true)) ≡ true
    → Filling c.src_buf whole before n s t
    → ((s' : Reader) → Filling c.src_buf whole before n s' t → P (some (n, s'), t))
    → (c.loop_file ≡ true
        → left s ≡ []
        → P (fill_chunk c true rounds n (record s { rest = c.whole; lineno = 0 }) t))
    → ((s' : Reader) (t' : Trace)
        → Filling c.src_buf whole before (n + 1) s' t'
        → P (fill_chunk c true rounds (n + 1) s' t'))
    → P (fill_chunk c true (suc rounds) n s t)
unfolding fill_chunk
fill_turn P c whole before rounds n s t more f ends rewinds goes_on =
    let r = read_next_line s.rest s.lineno in
    let going : s.finished_transmitting ≡ false = ground arith in
    let small : n < 128 = ground arith in
    let all : left s ≡ words s.rest = rw going refl in
    let (lines, width) = f.readable going in
    let next = read_next_line-NextWord s.rest s.lineno lines in
    elim (ReadResult-cases r.result) [
      | inl e ↦
          let over : left s ≡ [] = all ∙ subst (λ q. NextWord (words s.rest) q r.rest) e next in
          let stop =
            ends (finish s r s.bytes)
              (Filling-finish c.src_buf whole before n s t r s.bytes f over) in
          rw (more, e) (branch P c.loop_file _ _ t (λ loops. rewinds loops over) (λ once. stop))
      | inr (inl e) ↦
          rw (more, e)
            (ends _ (
              Filling-finish c.src_buf whole before n s t r s.bytes f
                (all ∙ subst (λ q. NextWord (words s.rest) q r.rest) e next)))
      | inr (inr (hex, e)) ↦
          let (ws, len, ab, af) = subst (λ q. NextWord (words s.rest) q r.rest) e next in
          let parsed = parse_line-decode hex s.bytes len width ab in
          elim (Option-cases (decode hex)) [
            | inl bad ↦
                rw (more, e, parsed.0 ∙ ap is_some bad)
                  (ends _ (
                    Filling-finish c.src_buf whole before n s t r _ f
                      (all ∙ (ws ∙ ap (λ d. then_words d (words r.rest)) bad))))
            | inr (word, good) ↦
                rw (more, e, parsed.1 word good)
                  (goes_on _ _ (
                    Filling-store c.src_buf whole before n s t r.rest r.lineno word f small going
                      (all ∙ (ws ∙ ap (λ d. then_words d (words r.rest)) good))
                      (omega (arith, length-decode hex word good, len)) af))
          ]
    ]

-- Without `--loop` the fill loop ends within 129 rounds.
pub fill_chunk-Filled :
    (c : Setup) (whole before : Bytes) (rounds n : ℕ) (s : Reader) (t : Trace)
    → c.loop_file ≡ false
    → 128 < rounds + n
    → Filling c.src_buf whole before n s t
    → Filled c.src_buf whole before (fill_chunk c true rounds n s t)
fill_chunk-Filled c whole before zero n s t once enough f =
    absurd (omega (arith, enough, f.in_chunk))
fill_chunk-Filled c whole before (suc rounds) n s t once enough f =
    elim (Bool-cases (ltb n 128 && (not s.finished_transmitting && true))) [
      | inr over ↦ unfold fill_chunk in rw over f
      | inl more ↦
          fill_turn (Filled c.src_buf whole before) c whole before rounds n s t more f (λ s' f'. f')
            (λ loops e. ground (arith, once, loops))
            (λ s' t' f'.
              fill_chunk-Filled c whole before rounds (n + 1) s' t' once (omega (arith, enough)) f')
    ]

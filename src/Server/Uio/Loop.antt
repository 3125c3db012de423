-- ===== src/Server/Uio/Loop.antt =====
-- The loop of the shift without `USE_IOCTL`.
use thesis_software.Base.{
  ℕ, zero, suc, ◌+◌, ◌-◌, ◌/◌, ◌%◌, ◌^◌, ◌≤◌, ◌<◌, ◌≡◌, refl, sym, ap, subst, ◌∙◌, inl, inr, true,
  false, some, List, [], ◌∷◌, ◌++◌, append_assoc, append-nil, ◌==◌, arith, Bool-cases, length, take,
  drop, length-append,
}
use thesis_software.World.{Env, Trace}
use thesis_software.Xvc.Shift.{le_value}
use thesis_software.Helper.{Bytes}
use thesis_software.Server.Uio.{
  Uio, poll_ctrl, shift_num_bits, uio_word, after_word, uio_loop, uio_shift,
}
use thesis_software.Server.Uio.Words.{
  JtagWord, words_shifted, tdo_bytes, word_bits, reference_words, take-drop_short, drop-drop,
}
use thesis_software.Server.Uio.Word.{WordDone, word_step}

module _ (env : Env) (polls : ℕ) (completes : (t : Trace) → (poll_ctrl env polls t).0 ≡ true)
    (nr_bytes : ℕ) (buffer : Bytes) where
  -- From the middle of a shift on.
  record LoopDone (words : List JtagWord) (s : Uio) (t : Trace) (s' : Uio) (u : Trace)
      : Type 0 where
    given : Bytes
    given_size : length given ≡ s.bytes_left
    given_out : tdo_bytes u ≡ tdo_bytes t ++ given
    taken : s'.result ≡ s.result ++ given
    asked : words_shifted u ≡ words_shifted t ++ words

  abbrev tms_from : ℕ → Bytes
  tms_from i = drop i (take nr_bytes buffer)

  abbrev tdi_from : ℕ → Bytes
  tdi_from i = drop i (drop nr_bytes buffer)

  -- The next word of the reference is the one that the loop gives the bridge.
  next_word :
      (count i len : ℕ)
      → (len == 0) ≡ false
      → i + (len + 7) / 8 ≡ nr_bytes
      → let bits = word_bits len in
        let n = (bits + 7) / 8 in
        reference_words (suc count) len (tms_from i) (tdi_from i)
        ≡ record {
          bits = bits;
          tms = le_value (take n (drop i buffer)) % 2 ^ 32;
          tdi = le_value (take n (drop (i + nr_bytes) buffer)) % 2 ^ 32;
        }
          ∷ reference_words count (len - bits) (tms_from (i + n)) (tdi_from (i + n))
  unfolding reference_words
  next_word count i len more place =
      let n = (word_bits len + 7) / 8 in
      let fits : i + n ≤ nr_bytes = ground (arith, more, place) in
      let swapped : nr_bytes + i ≡ i + nr_bytes = omega arith in
      rw
        (
          more,
          take-drop_short n i nr_bytes buffer fits,
          drop-drop n i (take nr_bytes buffer),
          drop-drop n i (drop nr_bytes buffer),
          drop-drop i nr_bytes buffer,
          swapped,
        )
        refl

  words_end : (count : ℕ) (tms tdi : Bytes) → reference_words count 0 tms tdi ≡ []
  unfolding reference_words
  words_end zero tms tdi = refl
  words_end (suc count) tms tdi = refl

  -- What the loop gives the bridge for a word.
  abbrev asked_word : ℕ → ℕ → JtagWord
  asked_word i bits = record {
    bits = bits;
    tms = le_value (take ((bits + 7) / 8) (drop i buffer)) % 2 ^ 32;
    tdi = le_value (take ((bits + 7) / 8) (drop (i + nr_bytes) buffer)) % 2 ^ 32;
  }

  LoopDone-end : (s : Uio) (t : Trace) → s.bytes_left ≡ 0 → LoopDone [] s t s t
  LoopDone-end s t e = record {
    given = [];
    given_size = sym e;
    given_out = sym (append-nil (tdo_bytes t));
    taken = sym (append-nil s.result);
    asked = sym (append-nil (words_shifted t));
  }

  LoopDone-word :
      (bits : ℕ) (words : List JtagWord) (s s1 s2 : Uio) (t t1 u : Trace)
      → WordDone env polls completes nr_bytes buffer s bits t s1 t1
      → LoopDone words s1 t1 s2 u
      → (bits + 7) / 8 ≤ s.bytes_left
      → LoopDone (asked_word s.byte_index bits ∷ words) s t s2 u
  LoopDone-word bits words s s1 s2 t t1 u w d fits = record {
    given = w.given ++ d.given;
    given_size =
        omega
          (arith, length-append w.given d.given, w.given_size, d.given_size, w.fewer_bytes, fits);
    given_out =
        d.given_out
        ∙ (ap (λ l. l ++ d.given) w.given_out ∙ append_assoc (tdo_bytes t) w.given d.given);
    taken = d.taken ∙ (ap (λ l. l ++ d.given) w.taken ∙ append_assoc s.result w.given d.given);
    asked =
        d.asked
        ∙ (ap (λ l. l ++ words) w.asked
            ∙ append_assoc (words_shifted t) (asked_word s.byte_index bits ∷ []) words);
  }

  -- The reference on the state behind a word.
  words_behind :
      (count bits i i1 len len1 : ℕ)
      → (len == 0) ≡ false
      → i + (len + 7) / 8 ≡ nr_bytes
      → bits ≡ word_bits len
      → i1 ≡ i + (bits + 7) / 8
      → len1 ≡ len - bits
      → asked_word i bits ∷ reference_words count len1 (tms_from i1) (tdi_from i1)
        ≡ reference_words (suc count) len (tms_from i) (tdi_from i)
  words_behind count bits i i1 len len1 more place b e f =
      rw (f, e, b) (sym (next_word count i len more place))

  abbrev Runs : ℕ → Uio → Trace → Type 0
  Runs rounds s t =
      (s' : Uio) × (u : Trace) × (uio_loop env polls nr_bytes buffer rounds s t ≡ (some s', u))
      × LoopDone
          (reference_words rounds s.bits_left (tms_from s.byte_index) (tdi_from s.byte_index)) s t
          s' u

  Runs-word :
      (rounds bits : ℕ) (s s1 : Uio) (t t1 : Trace)
      → WordDone env polls completes nr_bytes buffer s bits t s1 t1
      → bits ≡ shift_num_bits s
      → (s.bytes_left == 0) ≡ false
      → s.bytes_left ≡ (s.bits_left + 7) / 8
      → s.byte_index + s.bytes_left ≡ nr_bytes
      → Runs rounds s1 t1
      → Runs (suc rounds) s t
  unfolding uio_loop after_word
  Runs-word rounds bits s s1 t t1 w b more e place (s2, u, runs, d) =
      let asked_for : uio_word env polls nr_bytes buffer s (shift_num_bits s) t ≡ (some s1, t1) =
        ap (λ k. uio_word env polls nr_bytes buffer s k t) (sym b) ∙ w.runs in
      (
        s2,
        u,
        rw (more, asked_for) runs,
        subst (λ ws. LoopDone ws s t s2 u)
            (words_behind rounds bits s.byte_index s1.byte_index s.bits_left s1.bits_left
              (ground (arith, more, e)) (omega (arith, e, place)) (ground (arith, b, e)) w.further
              w.fewer_bits)
            (LoopDone-word bits _ s s1 s2 t t1 u w d (ground (arith, b, e, more))),
      )

  uio_loop-Runs :
      (rounds : ℕ) (s : Uio) (t : Trace)
      → s.bytes_left ≡ (s.bits_left + 7) / 8
      → s.byte_index + s.bytes_left ≡ nr_bytes
      → s.bytes_left < rounds
      → Runs rounds s t
  uio_loop-Runs zero s t e place enough = absurd (omega (arith, enough))
  uio_loop-Runs (suc rounds) s t e place enough = elim (Bool-cases (s.bytes_left == 0)) [
    | inl over ↦
        let none_left : s.bits_left ≡ 0 = ground arith in
        let no_words : reference_words (suc rounds) s.bits_left (tms_from s.byte_index)
              (tdi_from s.byte_index)
            ≡ [] =
          rw none_left (words_end (suc rounds) (tms_from s.byte_index) (tdi_from s.byte_index)) in
        (
          s,
          t,
          (unfold uio_loop in rw over refl),
          subst (λ ws. LoopDone ws s t s t) (sym no_words) (LoopDone-end s t (ground arith)),
        )
    | inr more ↦
        let (s1, t1, w) =
          word_step env polls completes nr_bytes buffer s (shift_num_bits s) t (ground arith) in
        Runs-word rounds (shift_num_bits s) s s1 t t1 w refl more e place (
          uio_loop-Runs rounds s1 t1 (ground (arith, w.fewer_bytes, w.fewer_bits))
            (ground (arith, w.fewer_bytes, w.further)) (ground (arith, w.fewer_bytes)))
  ]

-- The variant without the driver, with a bridge that is done within the polls: a shift of any number of bits
-- comes to an end. What it gives the bridge, in each register at the time of the start, are the words of
-- the TMS and TDI bytes in their order, of 32 bits each, the last with the bits that are left where these
-- are 24 or fewer, and with 32 where they are 25 to 31; and its result is what the bridge gives for
-- them, one TDO byte for each byte of TMS.
pub uio_shift-reference_words :
    (env : Env) (polls len : ℕ) (buffer : Bytes) (t : Trace)
    → ((u : Trace) → (poll_ctrl env polls u).0 ≡ true)
    → let n = (len + 7) / 8 in
      (s : Uio) × (u : Trace) × (uio_shift env polls len buffer t ≡ (some s, u))
      × (words_shifted u
          ≡ words_shifted t ++ reference_words (suc n) len (take n buffer) (drop n buffer))
      × (tdo_bytes u ≡ tdo_bytes t ++ s.result)
      × (length s.result ≡ n)
unfolding uio_shift
uio_shift-reference_words env polls len buffer t completes =
    let n = (len + 7) / 8 in
    let start : Uio = record { bytes_left = n; bits_left = len; byte_index = 0; result = [] } in
    let (s, u, runs, d) =
      uio_loop-Runs env polls completes n buffer (suc n) start t refl (omega arith) (omega arith) in
    (
      s,
      u,
      runs,
      d.asked,
      d.given_out ∙ ap (λ l. tdo_bytes t ++ l) (sym d.taken),
      ap length d.taken ∙ d.given_size,
    )

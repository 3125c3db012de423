-- ===== src/Server/Uio/Words.antt =====
-- What the shift without `USE_IOCTL` asks of the bridge, and what it stores of its answers.
use thesis_software.Base.{
  ℕ, zero, suc, ◌+◌, ◌-◌, ◌/◌, ◌%◌, ◌^◌, ◌≤◌, ◌≡◌, refl, ap, ◌∙◌, inl, inr, List, [], ◌∷◌, ◌++◌,
  ltb, ◌==◌, if◌then◌else◌, arith, Bool-cases, length, take, drop,
}
use thesis_software.World.{Env, Trace, wrote, got}
use thesis_software.Dma.Channels.{last_write}
use thesis_software.Xvc.Shift.{le_bytes, le_value}
use thesis_software.Helper.{Bytes}
use thesis_software.Server.Uio.{
  length_offset, tms_offset, tdi_offset, tdo_offset, ctrl_offset, poll_ctrl,
}

-- A shift of the bridge: the registers when its control register is written.
pub record JtagWord : Type 0 where
  pub bits : ℕ
  pub tms : ℕ
  pub tdi : ℕ

-- The shifts of the bridge, the oldest first.
unfoldable pub words_shifted : Trace → List JtagWord
words_shifted [] = []
words_shifted (wrote off v ∷ t) =
    if off == ctrl_offset
    then words_shifted t
      ++ record {
        bits = last_write t length_offset;
        tms = last_write t tms_offset;
        tdi = last_write t tdi_offset;
      }
        ∷ []
    else words_shifted t
words_shifted (_ ∷ t) = words_shifted t

-- What the bridge gave for them, each answer in as many bytes as its shift has.
unfoldable pub tdo_bytes : Trace → Bytes
tdo_bytes [] = []
tdo_bytes (got off v ∷ t) =
    if off == tdo_offset
    then tdo_bytes t ++ le_bytes ((last_write t length_offset + 7) / 8) v
    else tdo_bytes t
tdo_bytes (_ ∷ t) = tdo_bytes t

-- A word has 32 bits, or those of a rest of 24 bits or fewer.
abbrev pub word_bits : ℕ → ℕ
word_bits len = if ltb 24 len then 32 else len

-- TMS and TDI in words, for a number of words.
unfoldable pub reference_words : ℕ → ℕ → Bytes → Bytes → List JtagWord
reference_words zero len tms tdi = []
reference_words (suc count) len tms tdi =
    let bits = word_bits len in
    let n = (bits + 7) / 8 in
    let word : JtagWord = record {
      bits = bits;
      tms = le_value (take n tms) % 2 ^ 32;
      tdi = le_value (take n tdi) % 2 ^ 32;
    } in
    let rest = reference_words count (len - bits) (drop n tms) (drop n tdi) in
    if len == 0 then [] else word ∷ rest

pub length-le_bytes_any : (n v : ℕ) → length (le_bytes n v) ≡ n
unfolding le_bytes
length-le_bytes_any zero v = refl
length-le_bytes_any (suc n) v = omega (arith, length-le_bytes_any n (v / 256))

take-take_short : (k n : ℕ) (bs : Bytes) → k ≤ n → take k (take n bs) ≡ take k bs
take-take_short zero n bs h = refl
take-take_short (suc k) zero bs h = absurd (omega (arith, h))
take-take_short (suc k) (suc n) [] h = refl
take-take_short (suc k) (suc n) (b ∷ bs) h =
    ap (λ l. b ∷ l) (take-take_short k n bs (omega (arith, h)))

pub take-drop_short :
    (k i n : ℕ) (bs : Bytes) → i + k ≤ n → take k (drop i (take n bs)) ≡ take k (drop i bs)
take-drop_short k zero n bs h = take-take_short k n bs (omega (arith, h))
take-drop_short k (suc i) zero bs h = absurd (omega (arith, h))
take-drop_short k (suc i) (suc n) [] h = refl
take-drop_short k (suc i) (suc n) (b ∷ bs) h = take-drop_short k i n bs (omega (arith, h))

pub drop-drop : (k i : ℕ) (bs : Bytes) → drop k (drop i bs) ≡ drop (i + k) bs
drop-drop k zero bs = let e : 0 + k ≡ k = omega arith in rw e refl
drop-drop zero (suc i) [] = let e : suc i + 0 ≡ suc i = omega arith in rw e refl
drop-drop (suc k) (suc i) [] = let e : suc i + suc k ≡ suc (i + suc k) = omega arith in rw e refl
drop-drop k (suc i) (b ∷ bs) =
    let e : suc i + k ≡ suc (i + k) = omega arith in rw e (drop-drop k i bs)

-- Polls write nothing and read nothing but the control register.
pub record SameAsked (t u : Trace) : Type 0 where
  pub same_writes : (off : ℕ) → last_write u off ≡ last_write t off
  pub same_words : words_shifted u ≡ words_shifted t
  pub same_tdo : tdo_bytes u ≡ tdo_bytes t

got_ctrl-SameAsked : (t : Trace) (v : ℕ) → SameAsked t (got ctrl_offset v ∷ t)
unfolding last_write words_shifted tdo_bytes
got_ctrl-SameAsked t v = record { same_writes = λ off. refl; same_words = refl; same_tdo = refl }

pub poll_ctrl-SameAsked :
    (env : Env) (polls : ℕ) (t : Trace) → SameAsked t (poll_ctrl env polls t).1
unfolding poll_ctrl
poll_ctrl-SameAsked env zero t = record {
  same_writes = λ off. refl;
  same_words = refl;
  same_tdo = refl;
}
poll_ctrl-SameAsked env (suc polls) t =
    let v = env.register t ctrl_offset % 2 ^ 32 in
    elim (Bool-cases (v == 0)) [
      | inl over ↦ rw over (got_ctrl-SameAsked t v)
      | inr again ↦
          let rest = poll_ctrl-SameAsked env polls (got ctrl_offset v ∷ t) in
          let one = got_ctrl-SameAsked t v in
          rw again (record {
            same_writes = λ off. rest.same_writes off ∙ one.same_writes off;
            same_words = rest.same_words ∙ one.same_words;
            same_tdo = rest.same_tdo ∙ one.same_tdo;
          })
    ]

pub got_tdo :
    (t : Trace) (v bits : ℕ)
    → last_write t length_offset ≡ bits
    → tdo_bytes (got tdo_offset v ∷ t) ≡ tdo_bytes t ++ le_bytes ((bits + 7) / 8) v
unfolding tdo_bytes
got_tdo t v bits e = ap (λ k. tdo_bytes t ++ le_bytes ((k + 7) / 8) v) e

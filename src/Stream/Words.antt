-- ===== src/Stream/Words.antt =====
-- The words of an event file, read off its lines one at a time, and what `readNextLine` leaves of them.
use thesis_software.Base.{
  ℕ, ◌+◌, ◌%◌, ◌^◌, ◌≡◌, refl, subst, inl, inr, Option, none, some, List, [], ◌∷◌, ◌++◌, arith,
  Bool-cases, Option-cases, length,
}
use thesis_software.Helper.{
  Bytes, skip_blanks, is_blank, copy_hex, LineKind, skipped, malformed, digits, read_tail,
  read_line, ReadResult, eof, bad_line, got_line, read_next_line, hexchars_per_line,
}
use thesis_software.Helper.Decode.{AllBytes, decode}
use thesis_software.Helper.Reader.{copy_hex-prefix}
use thesis_software.Helper.NextLine.{LineKind-cases, read_line-digits}

abbrev pub then_words : Option Bytes → Bytes → Bytes
then_words none bs = []
then_words (some b) bs = b ++ bs

abbrev words_of : LineKind → Bytes → Bytes
words_of skipped bs = bs
words_of malformed bs = []
words_of (digits hex) bs = then_words (decode hex) bs

-- The bytes that the lines of a file stand for, up to the first line that is malformed or holds a
-- character that is no digit.
unfoldable pub words : List Bytes → Bytes
words [] = []
words (line ∷ f) = words_of (read_line line) (words f)

-- Each byte of each line is below 256.
abbrev pub AllFile : List Bytes → Type 0
AllFile [] = Unit {0}
AllFile (line ∷ f) = AllBytes line × AllFile f

AllBytes-skip_blanks : (line : Bytes) → AllBytes line → AllBytes (skip_blanks line)
unfolding skip_blanks
AllBytes-skip_blanks [] a = tt
AllBytes-skip_blanks (c ∷ cs) a = elim (Bool-cases (is_blank c)) [
  | inl blank ↦ rw blank (AllBytes-skip_blanks cs a.1)
  | inr plain ↦ rw plain a
]

AllBytes-front : (a b : Bytes) → AllBytes (a ++ b) → AllBytes a
AllBytes-front [] b h = tt
AllBytes-front (c ∷ a) b h = (h.0, AllBytes-front a b h.1)

read_line-AllBytes : (line hex : Bytes) → AllBytes line → read_line line ≡ digits hex → AllBytes hex
unfolding read_line read_tail
read_line-AllBytes line hex a e = elim (Option-cases (copy_hex 16 (skip_blanks line))) [
  | inl stop ↦ absurd (ground (arith, stop))
  | inr ((h, q), more) ↦
      let same : h ≡ hex = ground (arith, more) in
      subst AllBytes same (
        AllBytes-front h q (
          subst AllBytes (copy_hex-prefix 16 (skip_blanks line) h q more).2
            (AllBytes-skip_blanks line a)))
]

-- What a call of `readNextLine` gives of the words of the file, and what it leaves.
abbrev pub NextWord : Bytes → ReadResult → List Bytes → Type 0
NextWord ws eof rest = ws ≡ []
NextWord ws bad_line rest = ws ≡ []
NextWord ws (got_line hex) rest =
    (ws ≡ then_words (decode hex) (words rest))
    × (length hex ≡ hexchars_per_line)
    × AllBytes hex
    × AllFile rest

pub read_next_line-NextWord :
    (f : List Bytes) (n : ℕ)
    → AllFile f
    → NextWord (words f) (read_next_line f n).result (read_next_line f n).rest
unfolding read_next_line words
read_next_line-NextWord [] n a = refl
read_next_line-NextWord (line ∷ f) n a = elim (LineKind-cases (read_line line)) [
  | inl e ↦ rw (e, words, read_next_line) (read_next_line-NextWord f ((n + 1) % 2 ^ 64) a.1)
  | inr (inl e) ↦ rw (e, words, read_next_line) refl
  | inr (inr (hex, e)) ↦
      rw (e, words, read_next_line)
        (refl, (read_line-digits line hex e).0, read_line-AllBytes line hex a.0 e, a.1)
]

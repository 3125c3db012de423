-- ===== src/Helper/Reader.antt =====
-- `readNextLine`: what a returned line looks like, how far the file moves, and the reading of a
-- line that was written in the format.
use thesis_software.Base.{
  ℕ, zero, suc, ◌≡◌, ◌≢◌, refl, ap, true, false, ◌||◌, some, [], ◌∷◌, ◌++◌, arith, ◌==◌, length,
  Option-cases, inl, inr,
}
use thesis_software.Helper.{
  Bytes, is_blank, peek, ends_line, skip_blanks, copy_hex, digits, read_tail, read_line,
  hexchars_per_line,
}
use thesis_software.Helper.Digits.{is_plain}

-- No byte of the list ends a line.
abbrev pub NoEnd : Bytes → Type 0
NoEnd [] = Unit {0}
NoEnd (c ∷ cs) = (ends_line c ≡ false) × NoEnd cs

abbrev pub AllBlank : Bytes → Type 0
AllBlank [] = Unit {0}
AllBlank (c ∷ cs) = (is_blank c ≡ true) × AllBlank cs

-- What the copy loop gives: `n` bytes that end no line, taken from the front of the text.
pub copy_hex-prefix :
    (n : ℕ) (p h q : Bytes) → copy_hex n p ≡ some (h, q) → (length h ≡ n) × (NoEnd h) × (p ≡ h ++ q)
unfolding copy_hex
copy_hex-prefix zero p h q e = ground arith
copy_hex-prefix (suc n) [] h q e = cc
copy_hex-prefix (suc n) (c ∷ p) h q e = elim (Option-cases (copy_hex n p)) [
  | inl stop ↦ ground (arith, stop)
  | inr ((h', q'), more) ↦ ground (arith, copy_hex-prefix n p h' q' more)
]

skip_blanks-AllBlank : (b p : Bytes) → AllBlank b → skip_blanks (b ++ p) ≡ skip_blanks p
unfolding skip_blanks
skip_blanks-AllBlank [] p h = refl
skip_blanks-AllBlank (c ∷ b) p h = rw (h.0) (skip_blanks-AllBlank b p h.1)

copy_hex-append : (h q : Bytes) → NoEnd h → copy_hex (length h) (h ++ q) ≡ some (h, q)
unfolding copy_hex
copy_hex-append [] q a = refl
copy_hex-append (c ∷ h) q a = rw (a.0, copy_hex-append h q a.1)

-- A line that holds 16 digits between blanks, and then its end or a comment.
pub record DigitLine (line hex : Bytes) : Type 0 where
  pub indent : Bytes
  pub trail : Bytes
  pub tail : Bytes
  pub text : line ≡ indent ++ (hex ++ (trail ++ tail))
  pub indent_blank : AllBlank indent
  pub trail_blank : AllBlank trail
  pub width : length hex ≡ hexchars_per_line
  pub no_end : NoEnd hex
  pub first_plain : is_plain (peek hex) ≡ true
  pub tail_ends : (ends_line (peek tail) || peek tail == b'#') ≡ true

skip_blanks-stop : (p : Bytes) → is_blank (peek p) ≡ false → skip_blanks p ≡ p
unfolding skip_blanks
skip_blanks-stop [] h = refl
skip_blanks-stop (c ∷ p) h = rw h

peek-append : (h q : Bytes) → h ≢ [] → peek (h ++ q) ≡ peek h
peek-append [] q ne = absurd (ne refl)
peek-append (c ∷ h) q ne = refl

ends-not_blank : (c : ℕ) → (ends_line c || c == b'#') ≡ true → is_blank c ≡ false
ends-not_blank c h = ground arith

read_tail-ends :
    (hex trail tail : Bytes)
    → AllBlank trail
    → (ends_line (peek tail) || peek tail == b'#') ≡ true
    → read_tail hex (trail ++ tail) ≡ digits hex
unfolding read_tail
read_tail-ends hex trail tail b h =
    rw (skip_blanks-AllBlank trail tail b, skip_blanks-stop tail (ends-not_blank (peek tail) h))
      (rw h)

-- A string in the format gives its 16 digits: blanks, 16 characters that do not end the line and of
-- which the first is no blank and no `#`, blanks again, and the end of the line or a comment.
pub read_line-DigitLine : (line hex : Bytes) → DigitLine line hex → read_line line ≡ digits hex
unfolding read_line
read_line-DigitLine line hex d =
    let after = d.trail ++ d.tail in
    let some_hex : hex ≢ [] = λ e. absurd (omega (arith, d.width, ap (length {A = ℕ}) e)) in
    let start : peek (hex ++ after) ≡ peek hex = peek-append hex after some_hex in
    let skip : skip_blanks line ≡ hex ++ after =
      rw (d.text, skip_blanks-AllBlank d.indent (hex ++ after) d.indent_blank)
        (skip_blanks-stop (hex ++ after) (ground (arith, start, d.first_plain))) in
    let copy : copy_hex 16 (hex ++ after) ≡ some (hex, after) =
      rw (← d.width) (copy_hex-append hex after d.no_end) in
    rw skip (
      ground (
        arith,
        start,
        copy,
        read_tail-ends hex d.trail d.tail d.trail_blank d.tail_ends,
        d.first_plain,
      ))

-- ===== src/Helper/Decode.antt =====
-- `parseLine` against a decoder that reads the digits two at a time, and the printing of bytes that
-- it undoes.
use thesis_software.Base.{
  ℕ, zero, suc, ◌+◌, ◌*◌, ◌/◌, ◌%◌, ◌^◌, ◌<◌, bit_or, ◌≡◌, refl, sym, ap, ◌∙◌, Bool, true, false,
  ◌||◌, Option, none, some, [], ◌∷◌, ◌++◌, append_assoc, arith, ◌==◌, if◌then◌else◌, length,
  is_some, get_or, length-append, get_or-append, set-append,
}
use thesis_software.Base.Bits.{bit_or_shifted}
use thesis_software.Helper.{
  Bytes, hexchar_to_uint8, hex_lut, bytes_per_line, hexchars_per_line, parse_bytes, parse_line,
}
use thesis_software.Helper.Digits.{
  hex_lut-lt, hex_digit, hex_lut-hex_digit, hex_lut-hexchar_to_uint8,
}

-- Every byte of a list is below 256.
abbrev pub AllBytes : Bytes → Type 0
AllBytes [] = Unit {0}
AllBytes (c ∷ cs) = (c < 256) × AllBytes cs

-- The value of one pair of digits.
abbrev pub pair_value : Option ℕ → Option ℕ → Option ℕ
pair_value (some hi) (some lo) = some (16 * hi + lo)
pair_value (some hi) none = none
pair_value none lo = none

abbrev pub prepend : Option ℕ → Option Bytes → Option Bytes
prepend (some b) (some bs) = some (b ∷ bs)
prepend (some b) none = none
prepend none bs = none

-- Pairs of hexadecimal digits, read by `hexchar_to_uint8`.
unfoldable pub decode : Bytes → Option Bytes
decode [] = some []
decode (h ∷ []) = none
decode (h ∷ l ∷ cs) = prepend (pair_value (hexchar_to_uint8 h) (hexchar_to_uint8 l)) (decode cs)

-- Two lower-case digits for each byte.
unfoldable pub print_hex : Bytes → Bytes
print_hex [] = []
print_hex (b ∷ bs) = hex_digit (b / 16) ∷ hex_digit (b % 16) ∷ print_hex bs

pub length-print_hex : (bs : Bytes) → length (print_hex bs) ≡ 2 * length bs
unfolding print_hex
length-print_hex [] = refl
length-print_hex (b ∷ bs) = omega (arith, length-print_hex bs)

-- What the return value and `out` say of the decoded bytes: all of them behind `done`, or -1.
abbrev Agrees : Option Bytes → Bytes → Bool × Bytes → Type 0
Agrees (some bs) done r = r ≡ (true, done ++ bs)
Agrees none done r = r.0 ≡ false

step_value : ℕ → ℕ → ℕ
step_value h l = bit_or (hex_lut h * 2 ^ 4) (hex_lut l) % 2 ^ 8

-- One round at a pair of digits that follows what was read.
parse_bytes-round :
    (n : ℕ) (pre : Bytes) (h l : ℕ) (cs done : Bytes) (o : ℕ) (os : Bytes)
    → length pre ≡ 2 * length done
    → parse_bytes (suc n) (length done) (pre ++ h ∷ l ∷ cs) (done ++ o ∷ os) ≡ (
        if hex_lut h == 0xff || hex_lut l == 0xff
        then (false, done ++ o ∷ os)
        else parse_bytes n
            (length (done ++ step_value h l ∷ []))
            ((pre ++ h ∷ l ∷ []) ++ cs)
            ((done ++ step_value h l ∷ []) ++ os))
unfolding parse_bytes step_value
parse_bytes-round n pre h l cs done o os e =
    let e0 : 2 * length done ≡ length pre + 0 = omega arith in
    let e1 : 2 * length done + 1 ≡ length pre + 1 = omega arith in
    let at0 : get_or (pre ++ h ∷ l ∷ cs) (2 * length done) 0 ≡ h =
      rw e0 (get_or-append pre (h ∷ l ∷ cs) 0 0) in
    let at1 : get_or (pre ++ h ∷ l ∷ cs) (2 * length done + 1) 0 ≡ l =
      rw e1 (get_or-append pre (h ∷ l ∷ cs) 1 0) in
    rw (
      at0,
      at1,
      set-append done o os (step_value h l),
      length-append done (step_value h l ∷ []),
      append_assoc pre (h ∷ l ∷ []) cs,
      append_assoc done (step_value h l ∷ []) os,
    )

-- A pair has a value exactly when neither table entry is 0xff, and it is the one stored.
pair_value-lut :
    (h l : ℕ)
    → h < 256
    → l < 256
    → pair_value (hexchar_to_uint8 h) (hexchar_to_uint8 l)
      ≡ (if hex_lut h == 0xff || hex_lut l == 0xff then none else some (step_value h l))
unfolding step_value
pair_value-lut h l hh hl =
    rw (← hex_lut-hexchar_to_uint8 h hh, ← hex_lut-hexchar_to_uint8 l hl)
      (ground (arith, hex_lut-lt h hh, hex_lut-lt l hl, bit_or_shifted 4 (hex_lut h) (hex_lut l)))

Agrees-step :
    (v : ℕ) (o : Option Bytes) (done : Bytes) (r : Bool × Bytes)
    → Agrees o (done ++ v ∷ []) r
    → Agrees (prepend (some v) o) done r
Agrees-step v (some bs) done r h = rw (← append_assoc done (v ∷ []) bs) h
Agrees-step v none done r h = h

Agrees-branch :
    (stop : Bool) (o : Option Bytes) (v : ℕ) (done : Bytes) (r r' : Bool × Bytes)
    → r.0 ≡ false
    → Agrees o (done ++ v ∷ []) r'
    → Agrees (prepend (if stop then none else some v) o) done (if stop then r else r')
Agrees-branch true o v done r r' e h = e
Agrees-branch false o v done r r' e h = Agrees-step v o done r' h

-- The loop from any round on agrees with the decoder on the digits that are left.
parse_bytes-Agrees :
    (n : ℕ) (pre cs done os : Bytes)
    → length pre ≡ 2 * length done
    → length cs ≡ 2 * n
    → length os ≡ n
    → AllBytes cs
    → Agrees (decode cs) done (parse_bytes n (length done) (pre ++ cs) (done ++ os))
unfolding decode
parse_bytes-Agrees zero pre [] done [] e f g a = unfold parse_bytes in refl
parse_bytes-Agrees zero pre (c ∷ cs) done os e f g a = absurd (omega arith)
parse_bytes-Agrees zero pre [] done (o ∷ os) e f g a = absurd (omega arith)
parse_bytes-Agrees (suc n) pre [] done os e f g a = absurd (omega arith)
parse_bytes-Agrees (suc n) pre (h ∷ []) done os e f g a = absurd (omega arith)
parse_bytes-Agrees (suc n) pre (h ∷ l ∷ cs) done [] e f g a = absurd (omega arith)
parse_bytes-Agrees (suc n) pre (h ∷ l ∷ cs) done (o ∷ os) e f g a =
    rw (parse_bytes-round n pre h l cs done o os e, pair_value-lut h l a.0 a.1.0)
      (Agrees-branch (hex_lut h == 0xff || hex_lut l == 0xff) (decode cs) (step_value h l) done _ _
        refl
        (parse_bytes-Agrees n (pre ++ h ∷ l ∷ []) cs (done ++ step_value h l ∷ []) os
          (omega (arith, length-append pre (h ∷ l ∷ []), length-append done (step_value h l ∷ [])))
          (omega arith) (omega arith) a.1.1))

Agrees-parts :
    (o : Option Bytes) (r : Bool × Bytes)
    → Agrees o [] r
    → (r.0 ≡ is_some o) × ((bs : Bytes) → o ≡ some bs → r ≡ (true, bs))
Agrees-parts none r h = (h, λ bs e. cc)
Agrees-parts (some bs) r h = (ap (λ (p : Bool × Bytes). p.0) h, λ bs' e. ground arith)

hexchar-hex_digit : (n : ℕ) → n < 16 → hexchar_to_uint8 (hex_digit n) ≡ some n
hexchar-hex_digit n h =
    sym (hex_lut-hexchar_to_uint8 (hex_digit n) (ground arith))
    ∙ ground (arith, hex_lut-hex_digit n h)

pub AllBytes-print_hex : (bs : Bytes) → AllBytes bs → AllBytes (print_hex bs)
unfolding print_hex
AllBytes-print_hex [] a = tt
AllBytes-print_hex (b ∷ bs) a = (ground arith, (ground arith, AllBytes-print_hex bs a.1))

decode-print_hex : (bs : Bytes) → AllBytes bs → decode (print_hex bs) ≡ some bs
unfolding decode print_hex
decode-print_hex [] a = refl
decode-print_hex (b ∷ bs) a =
    let whole : 16 * (b / 16) + b % 16 ≡ b = omega arith in
    rw (
      hexchar-hex_digit (b / 16) (omega (arith, a.0)),
      hexchar-hex_digit (b % 16) (omega arith),
      decode-print_hex bs a.1,
      whole,
    )

-- `parseLine` on 16 bytes, with room for eight in `out`, returns 0 exactly when each of the 16 is a
-- hexadecimal digit, and then `out` holds the bytes that the pairs of digits stand for.
pub parse_line-decode :
    (s out : Bytes)
    → length s ≡ hexchars_per_line
    → length out ≡ bytes_per_line
    → AllBytes s
    → ((parse_line s out).0 ≡ is_some (decode s))
      × ((bs : Bytes) → decode s ≡ some bs → parse_line s out ≡ (true, bs))
unfolding parse_line
parse_line-decode s out e f a =
    Agrees-parts (decode s) _ (parse_bytes-Agrees 8 [] s [] out refl e f a)

-- Printing eight bytes as 16 digits and parsing them gives the bytes back, whatever the eight bytes of
-- `out` held.
pub parse_line-print_hex :
    (bs out : Bytes)
    → length bs ≡ bytes_per_line
    → length out ≡ bytes_per_line
    → AllBytes bs
    → parse_line (print_hex bs) out ≡ (true, bs)
parse_line-print_hex bs out e f a =
    (parse_line-decode (print_hex bs) out (omega (arith, length-print_hex bs)) f
        (AllBytes-print_hex bs a)).1
      bs (decode-print_hex bs a)

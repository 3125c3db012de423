-- ===== src/Helper.antt =====
-- apps/stream-from-file-app/files/helper.c, with its header (the copy in
-- apps/filtered-camera-feed-app is the same file): hexadecimal digits, one line of 16 digits, and
-- the reader of the next line of an event file.
--
-- A `char` is its byte. A C string is the list of its bytes before the terminator, so a pointer
-- into it is a suffix and the byte behind the end is 0. A `FILE` is the list of the strings that
-- `fgets` has still to return; what it makes of a file's bytes is not modelled.
pub mod Digits
pub mod Decode
pub mod Reader
pub mod Comments
pub mod NextLine
use thesis_software.Base.{
  ℕ, zero, suc, ◌+◌, ◌-◌, ◌*◌, ◌%◌, ◌^◌, bit_or, Bool, true, false, ◌&&◌, ◌||◌, Option, none, some,
  List, [], ◌∷◌, ◌++◌, leb, ◌==◌, if◌then◌else◌, length, get_or, set,
}

abbrev pub Bytes : Type 0
Bytes = List ℕ

-- `tolower` of the C locale.
abbrev to_lower : ℕ → ℕ
to_lower c = if leb b'A' c && leb c b'Z' then c + 32 else c

-- `none` is the return value -1, with `*out` untouched.
unfoldable pub hexchar_to_uint8 : ℕ → Option ℕ
hexchar_to_uint8 c =
    if leb b'0' c && leb c b'9'
    then some (c - b'0')
    else let d = to_lower c in if leb b'a' d && leb d b'f' then some (10 + (d - b'a')) else none

-- The designated initialisers of `HEX_LUT`; every other entry is 0xff.
abbrev hex_entries : List (ℕ × ℕ)
hex_entries =
    (b'0', 0)
    ∷ (b'1', 1)
    ∷ (b'2', 2)
    ∷ (b'3', 3)
    ∷ (b'4', 4)
    ∷ (b'5', 5)
    ∷ (b'6', 6)
    ∷ (b'7', 7)
    ∷ (b'8', 8)
    ∷ (b'9', 9)
    ∷ (b'a', 10)
    ∷ (b'b', 11)
    ∷ (b'c', 12)
    ∷ (b'd', 13)
    ∷ (b'e', 14)
    ∷ (b'f', 15)
    ∷ (b'A', 10)
    ∷ (b'B', 11)
    ∷ (b'C', 12)
    ∷ (b'D', 13)
    ∷ (b'E', 14)
    ∷ (b'F', 15)
    ∷ []

entry_of : ℕ → List (ℕ × ℕ) → ℕ
entry_of c [] = 0xff
entry_of c ((k, v) ∷ es) = if k == c then v else entry_of c es

unfoldable pub hex_lut : ℕ → ℕ
unfolding entry_of
hex_lut c = entry_of c hex_entries

abbrev pub bytes_per_line : ℕ
bytes_per_line = 8

abbrev pub hexchars_per_line : ℕ
hexchars_per_line = 16

-- The loop of `parseLine` at index `i`, with `n` rounds left: whether it returned 0, and `out`.
unfoldable pub parse_bytes : ℕ → ℕ → Bytes → Bytes → Bool × Bytes
parse_bytes zero i s out = (true, out)
parse_bytes (suc n) i s out =
    let hi = hex_lut (get_or s (2 * i) 0) in
    let lo = hex_lut (get_or s (2 * i + 1) 0) in
    let rest = parse_bytes n (i + 1) s (set out i (bit_or (hi * 2 ^ 4) lo % 2 ^ 8)) in
    if hi == 0xff || lo == 0xff then (false, out) else rest

unfoldable pub parse_line : Bytes → Bytes → Bool × Bytes
unfolding parse_bytes
parse_line s out = parse_bytes bytes_per_line 0 s out

abbrev pub is_blank : ℕ → Bool
is_blank c = c == b' ' || c == b'\t'

-- The byte that a pointer points to.
abbrev pub peek : Bytes → ℕ
peek [] = 0
peek (c ∷ _) = c

abbrev pub ends_line : ℕ → Bool
ends_line c = c == 0 || c == b'\n' || c == b'\r'

-- `while (*p == ' ' || *p == '\t') p++;`
unfoldable pub skip_blanks : Bytes → Bytes
skip_blanks [] = []
skip_blanks (c ∷ cs) = if is_blank c then skip_blanks cs else c ∷ cs

-- The loop that fills `hex16`, with `n` rounds left: the digits and the pointer behind them, or
-- `none` at the end of the line.
unfoldable pub copy_hex : ℕ → Bytes → Option (Bytes × Bytes)
copy_hex zero p = some ([], p)
copy_hex (suc n) [] = none
copy_hex (suc n) (c ∷ p) =
    if ends_line c
    then none
    else elim (copy_hex n p) [ none ↦ none | some (h, q) ↦ some (c ∷ h, q) ]

-- What one string that `fgets` returned makes of the call: `continue`, `return -1`, or `return 1`.
pub data LineKind : Type 0 where
  skipped : LineKind
  malformed : LineKind
  digits : Bytes → LineKind

unfoldable pub read_tail : Bytes → Bytes → LineKind
read_tail hex q =
    let c = peek (skip_blanks q) in if ends_line c || c == b'#' then digits hex else malformed

unfoldable pub read_line : Bytes → LineKind
read_line line =
    let p = skip_blanks line in
    if ends_line (peek p) || peek p == b'#'
    then skipped
    else elim (copy_hex hexchars_per_line p) [ none ↦ malformed | some (hex, q) ↦ read_tail hex q ]

-- `eof` is 0, `bad_line` is -1, and `got_line` is 1 with the contents of `hex16`.
pub data ReadResult : Type 0 where
  eof : ReadResult
  bad_line : ReadResult
  got_line : Bytes → ReadResult

pub record ReadState : Type 0 where
  pub result : ReadResult
  pub lineno : ℕ
  pub rest : List Bytes

-- `readNextLine` on the strings that `fgets` has still to return.
unfoldable pub read_next_line : List Bytes → ℕ → ReadState
read_next_line [] lineno = record { result = eof; lineno = lineno; rest = [] }
read_next_line (line ∷ f) lineno =
    let n = (lineno + 1) % 2 ^ 64 in
    let again = read_next_line f n in
    elim (read_line line) [
      | skipped ↦ again
      | malformed ↦ record { result = bad_line; lineno = n; rest = f }
      | digits hex ↦ record { result = got_line hex; lineno = n; rest = f }
    ]

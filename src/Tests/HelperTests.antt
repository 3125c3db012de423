-- ===== src/Tests/HelperTests.antt =====
-- Runs of helper.c.
use Prim.Native.Char.{code}
use Prim.Native.String.{String}
use thesis_software.Base.{◌≡◌, refl, true, false, some, List, [], ◌∷◌, arith, is_some}
use thesis_software.Helper.{
  Bytes, hex_lut, parse_line, read_line, digits, read_next_line, bad_line, got_line, skip_blanks,
  copy_hex, read_tail,
}
use thesis_software.Helper.Decode.{decode, print_hex, parse_line-decode, parse_line-print_hex}
use thesis_software.Helper.Reader.{DigitLine, read_line-DigitLine}
use thesis_software.Helper.NextLine.{Consumed, read_next_line-Consumed}

abbrev pub codes : String → Bytes
codes String.[] = []
codes (String.◌∷◌ c s) = code c ∷ codes s

abbrev pub zeros : Bytes
zeros = 0 ∷ 0 ∷ 0 ∷ 0 ∷ 0 ∷ 0 ∷ 0 ∷ 0 ∷ []

abbrev pub word : Bytes
word = 0x01 ∷ 0x23 ∷ 0x45 ∷ 0x67 ∷ 0x89 ∷ 0xab ∷ 0xcd ∷ 0xef ∷ []

abbrev file : List Bytes
file = codes "# events\n" ∷ codes "\n" ∷ codes "  0123456789ABCDEF # first\n" ∷ codes "zz\n" ∷ []

parses : parse_line (codes "0123456789abcdef") zeros ≡ (true, word)
unfolding parse_line hex_lut
parses = refl

refuses :
    parse_line (codes "0123456789abcdeg") zeros
    ≡ (false, 0x01 ∷ 0x23 ∷ 0x45 ∷ 0x67 ∷ 0x89 ∷ 0xab ∷ 0xcd ∷ 0 ∷ [])
unfolding parse_line hex_lut
refuses = refl

reads :
    read_next_line file 0
    ≡ record { result = got_line (codes "0123456789ABCDEF"); lineno = 3; rest = codes "zz\n" ∷ [] }
unfolding read_next_line read_line read_tail skip_blanks copy_hex
reads = refl

too_short :
    read_next_line (codes "zz\n" ∷ []) 3 ≡ record { result = bad_line; lineno = 4; rest = [] }
unfolding read_next_line read_line read_tail skip_blanks copy_hex
too_short = refl

parse_line-decode_example :
    ((parse_line (codes "0123456789abcdeg") zeros).0 ≡ is_some (decode (codes "0123456789abcdeg")))
    × ((bs : Bytes)
        → decode (codes "0123456789abcdeg") ≡ some bs
        → parse_line (codes "0123456789abcdeg") zeros ≡ (true, bs))
parse_line-decode_example =
    parse_line-decode (codes "0123456789abcdeg") zeros refl refl (omega arith)

parse_line-print_hex_example : parse_line (print_hex word) zeros ≡ (true, word)
parse_line-print_hex_example = parse_line-print_hex word zeros refl refl (omega arith)

first_line : DigitLine (codes "  0123456789ABCDEF # first\n") (codes "0123456789ABCDEF")
first_line = record {
  indent = codes "  ";
  trail = codes " ";
  tail = codes "# first\n";
  text = refl;
  indent_blank = ground arith;
  trail_blank = ground arith;
  width = refl;
  no_end = ground arith;
  first_plain = refl;
  tail_ends = refl;
}

read_line-DigitLine_example :
    read_line (codes "  0123456789ABCDEF # first\n") ≡ digits (codes "0123456789ABCDEF")
read_line-DigitLine_example =
    read_line-DigitLine (codes "  0123456789ABCDEF # first\n") (codes "0123456789ABCDEF") first_line

read_next_line-Consumed_example : Consumed file 0 (read_next_line file 0)
read_next_line-Consumed_example = read_next_line-Consumed file 0 (omega arith)

-- ===== src/Helper/NextLine.antt =====
-- `readNextLine` on a whole file: which strings it passes over, where it stops, and the line number.
use thesis_software.Base.{
  ℕ, ◌+◌, ◌-◌, ◌%◌, ◌^◌, ◌≤◌, ◌<◌, ◌≡◌, ◌⊎◌, refl, sym, ap, ◌∙◌, List, [], ◌∷◌, ◌++◌, arith, length,
  Option-cases, inl, inr,
}
use thesis_software.Helper.{
  Bytes, skip_blanks, copy_hex, LineKind, skipped, malformed, digits, read_tail, read_line,
  ReadResult, eof, bad_line, got_line, ReadState, read_next_line, hexchars_per_line,
}
use thesis_software.Helper.Comments.{
  BlankOrComment, read_line-BlankOrComment, BlankOrComment-skipped,
}
use thesis_software.Helper.Reader.{NoEnd, copy_hex-prefix}

-- Every line is blanks, and behind them nothing, the end of the line or a comment.
abbrev pub AllPassed : List Bytes → Type 0
AllPassed [] = Unit {0}
AllPassed (line ∷ f) = BlankOrComment line × AllPassed f

-- Where a call stops: `after` is the file from the string that decided on, `rest` what it leaves.
abbrev pub Stops : ReadResult → List Bytes → List Bytes → Type 0
Stops eof after rest = (after ≡ []) × (rest ≡ [])
Stops bad_line after rest =
    (line : Bytes) × (after ≡ line ∷ rest)
    × (¬ (BlankOrComment line))
    × (read_line line ≡ malformed)
Stops (got_line hex) after rest =
    (line : Bytes) × (after ≡ line ∷ rest)
    × (¬ (BlankOrComment line))
    × (read_line line ≡ digits hex)
    × (length hex ≡ hexchars_per_line)
    × (NoEnd hex)

pub record Consumed (f : List Bytes) (lineno : ℕ) (r : ReadState) : Type 0 where
  pub pre : List Bytes
  pub after : List Bytes
  pub splits : f ≡ pre ++ after
  pub passed : AllPassed pre
  pub stops : Stops r.result after r.rest
  pub counts : r.lineno ≡ (lineno + (length f - length r.rest)) % 2 ^ 64
  pub shorter : length r.rest ≤ length f

-- A line that gives digits gives 16 of them, and none ends a line.
pub read_line-digits :
    (line hex : Bytes) → read_line line ≡ digits hex → (length hex ≡ hexchars_per_line) × NoEnd hex
unfolding read_line read_tail
read_line-digits line hex e = elim (Option-cases (copy_hex 16 (skip_blanks line))) [
  | inl stop ↦ ground (arith, stop)
  | inr ((h, q), more) ↦ ground (arith, more, copy_hex-prefix 16 (skip_blanks line) h q more)
]

Consumed-skip :
    (line : Bytes) (f : List Bytes) (n : ℕ) (r : ReadState)
    → read_line line ≡ skipped
    → n < 2 ^ 64
    → Consumed f ((n + 1) % 2 ^ 64) r
    → Consumed (line ∷ f) n r
Consumed-skip line f n r e h c = record {
  pre = line ∷ c.pre;
  after = c.after;
  splits = ap (◌∷◌ line) c.splits;
  passed = (read_line-BlankOrComment line e, c.passed);
  stops = c.stops;
  counts = omega (arith, c.counts, c.shorter);
  shorter = omega (arith, c.shorter);
}

-- A line that is read as something else is neither blank nor a comment.
not_passed :
    (line : Bytes) (k : LineKind) → read_line line ≡ k → (skipped ≡ k → ⊥) → ¬ (BlankOrComment line)
not_passed line k e other b = other (sym (BlankOrComment-skipped line b) ∙ e)

pub LineKind-cases :
    (k : LineKind) → (k ≡ skipped) ⊎ ((k ≡ malformed) ⊎ ((hex : Bytes) × (k ≡ digits hex)))
LineKind-cases skipped = inl refl
LineKind-cases malformed = inr (inl refl)
LineKind-cases (digits hex) = inr (inr (hex, refl))

-- The call passes over strings that hold only spaces and tabs before their end or a `#`, stops at the
-- first string that does not, or at the end of the file, and adds to the line number, modulo 2 ^ 64,
-- the strings that it took; what it returns is what that string is read as: 16 digits, none of which
-- ends a line, or an error.
pub read_next_line-Consumed :
    (f : List Bytes) (n : ℕ) → n < 2 ^ 64 → Consumed f n (read_next_line f n)
unfolding read_next_line
read_next_line-Consumed [] n h = record {
  pre = [];
  after = [];
  splits = refl;
  passed = tt;
  stops = (refl, refl);
  counts = omega arith;
  shorter = omega arith;
}
read_next_line-Consumed (line ∷ f) n h = elim (LineKind-cases (read_line line)) [
  | inl e ↦
      rw (e, read_next_line)
        (Consumed-skip line f n (read_next_line f ((n + 1) % 2 ^ 64)) e h
          (read_next_line-Consumed f ((n + 1) % 2 ^ 64) (omega arith)))
  | inr (inl e) ↦
      rw (e, read_next_line)
        (record {
          pre = [];
          after = line ∷ f;
          splits = refl;
          passed = tt;
          stops = (line, refl, not_passed line _ e (λ k. ground (arith, k)), e);
          counts = omega arith;
          shorter = omega arith;
        })
  | inr (inr (hex, e)) ↦
      rw (e, read_next_line)
        (record {
          pre = [];
          after = line ∷ f;
          splits = refl;
          passed = tt;
          stops = (
            line,
            refl,
            not_passed line _ e (λ k. ground (arith, k)),
            e,
            (read_line-digits line hex e).0,
            (read_line-digits line hex e).1,
          );
          counts = omega arith;
          shorter = omega arith;
        })
]

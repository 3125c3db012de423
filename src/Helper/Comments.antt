-- ===== src/Helper/Comments.antt =====
-- The lines that `readNextLine` passes over.
use thesis_software.Base.{
  ◌≡◌, ◌⊎◌, inl, inr, refl, sym, ap, ◌∙◌, subst, true, false, ◌||◌, [], ◌∷◌, ◌++◌, arith, ◌==◌,
  Bool-cases, Option-cases,
}
use thesis_software.Helper.{
  Bytes, is_blank, peek, ends_line, skip_blanks, copy_hex, skipped, read_tail, read_line,
}

abbrev pub AllBlank : Bytes → Type 0
AllBlank [] = Unit {0}
AllBlank (c ∷ cs) = ((c ≡ b' ') ⊎ (c ≡ b'\t')) × AllBlank cs

-- Behind the blanks: nothing, or the end of the line, or a comment.
abbrev pub NothingIn : Bytes → Type 0
NothingIn [] = Unit {0}
NothingIn (c ∷ cs) = (c ≡ 0) ⊎ ((c ≡ b'\n') ⊎ ((c ≡ b'\r') ⊎ (c ≡ b'#')))

pub record BlankOrComment (line : Bytes) : Type 0 where
  pub blanks : Bytes
  pub rest : Bytes
  pub splits : line ≡ blanks ++ rest
  pub all_blank : AllBlank blanks
  pub nothing : NothingIn rest

skip_blanks-split : (line : Bytes) → (pre : Bytes) × (line ≡ pre ++ skip_blanks line) × AllBlank pre
unfolding skip_blanks
skip_blanks-split [] = ([], refl, tt)
skip_blanks-split (c ∷ cs) = elim (Bool-cases (is_blank c)) [
  | inl blank ↦
      let (pre, e, a) = skip_blanks-split cs in
      (c ∷ pre, rw blank (ap (λ l. c ∷ l) e), (ground arith, a))
  | inr plain ↦ ([], rw plain refl, tt)
]

NothingIn-peek : (p : Bytes) → (ends_line (peek p) || peek p == b'#') ≡ true → NothingIn p
NothingIn-peek [] h = tt
NothingIn-peek (c ∷ cs) h = ground arith

read_tail-not_skipped : (hex q : Bytes) → read_tail hex q ≡ skipped → ⊥
unfolding read_tail
read_tail-not_skipped hex q h = ground (arith, h)

pub read_line-BlankOrComment : (line : Bytes) → read_line line ≡ skipped → BlankOrComment line
unfolding read_line
read_line-BlankOrComment line h =
    let p = skip_blanks line in
    let (pre, e, a) = skip_blanks-split line in
    elim (Bool-cases (ends_line (peek p) || peek p == b'#')) [
      | inl nothing ↦ record {
        blanks = pre;
        rest = p;
        splits = e;
        all_blank = a;
        nothing = NothingIn-peek p nothing;
      }
      | inr some_text ↦ elim (Option-cases (copy_hex 16 p)) [
        | inl short ↦ absurd (ground (arith, short, some_text, h))
        | inr ((hex, q), full) ↦
            absurd (read_tail-not_skipped hex q (ground (arith, full, some_text, h)))
      ]
    ]

skip_blanks-append :
    (pre rest : Bytes) → AllBlank pre → skip_blanks (pre ++ rest) ≡ skip_blanks rest
unfolding skip_blanks
skip_blanks-append [] rest a = refl
skip_blanks-append (c ∷ pre) rest a =
    let blank : is_blank c ≡ true = ground (arith, a.0) in
    rw blank (skip_blanks-append pre rest a.1)

NothingIn-skipped :
    (rest : Bytes)
    → NothingIn rest
    → let p = skip_blanks rest in (ends_line (peek p) || peek p == b'#') ≡ true
unfolding skip_blanks
NothingIn-skipped [] h = refl
NothingIn-skipped (c ∷ cs) h =
    let plain : is_blank c ≡ false = ground (arith, h) in rw plain (ground (arith, h))

pub BlankOrComment-skipped : (line : Bytes) → BlankOrComment line → read_line line ≡ skipped
unfolding read_line
BlankOrComment-skipped line b =
    let same : skip_blanks line ≡ skip_blanks b.rest =
      ap skip_blanks b.splits ∙ skip_blanks-append b.blanks b.rest b.all_blank in
    let passes : (ends_line (peek (skip_blanks line)) || peek (skip_blanks line) == b'#') ≡ true =
      subst (λ p. (ends_line (peek p) || peek p == b'#') ≡ true) (sym same)
        (NothingIn-skipped b.rest b.nothing) in
    rw passes refl

-- ===== src/Stream/Nears.antt =====
-- The fill loop comes nearer to the end of the file.
use thesis_software.Base.{
  ℕ, zero, suc, ◌+◌, ◌≤◌, ◌<◌, ◌≡◌, refl, subst, ◌⊎◌, inl, inr, true, false, not, ◌%◌, ◌^◌, ◌&&◌,
  Option, none, some, List, [], ◌∷◌, arith, Bool-cases, length, ltb,
}
use thesis_software.World.{Trace}
use thesis_software.Helper.{
  Bytes, LineKind, skipped, malformed, digits, read_line, parse_line, ReadResult, eof, bad_line,
  got_line, ReadState, read_next_line,
}
use thesis_software.Stream.{Setup, Reader, fill_chunk}
use thesis_software.Stream.Fill.{ReadResult-cases}

-- A call that gives a line has taken one or more strings; none gives strings back.
abbrev Takes : ℕ → ReadResult → ℕ → Type 0
Takes n (got_line hex) m = m < n
Takes n eof m = m ≤ n
Takes n bad_line m = m ≤ n

Takes-suc : (n : ℕ) (r : ReadResult) (m : ℕ) → Takes n r m → Takes (suc n) r m
Takes-suc n (got_line hex) m h = omega (arith, h)
Takes-suc n eof m h = omega (arith, h)
Takes-suc n bad_line m h = omega (arith, h)

LineKind-Takes :
    (k : LineKind) (again : ReadState) (f : List Bytes) (n : ℕ)
    → Takes (length f) again.result (length again.rest)
    → let r : ReadState = elim k [
      | skipped ↦ again
      | malformed ↦ record { result = bad_line; lineno = n; rest = f }
      | digits hex ↦ record { result = got_line hex; lineno = n; rest = f }
    ] in
      Takes (suc (length f)) r.result (length r.rest)
LineKind-Takes skipped again f n h = Takes-suc (length f) again.result (length again.rest) h
LineKind-Takes malformed again f n h = omega arith
LineKind-Takes (digits hex) again f n h = omega arith

read_next_line-Takes :
    (f : List Bytes) (lineno : ℕ)
    → Takes (length f) (read_next_line f lineno).result (length (read_next_line f lineno).rest)
unfolding read_next_line
read_next_line-Takes [] lineno = omega arith
read_next_line-Takes (line ∷ f) lineno =
    let n = (lineno + 1) % 2 ^ 64 in
    LineKind-Takes (read_line line) (read_next_line f n) f n (read_next_line-Takes f n)

-- Behind the fill loop: the end of the file, or fewer strings than so many.
abbrev pub Nears : ℕ → Option (ℕ × Reader) → Type 0
Nears n none = ⊥
Nears n (some (k, s)) = (s.finished_transmitting ≡ true) ⊎ (length s.rest < n)

Nears-more : (n m : ℕ) (r : Option (ℕ × Reader)) → n ≤ m → Nears n r → Nears m r
Nears-more n m none h e = e
Nears-more n m (some (k, s)) h (inl e) = inl e
Nears-more n m (some (k, s)) h (inr e) = inr (omega (arith, h, e))

module _ (c : Setup) (once : c.loop_file ≡ false) where
  -- A turn of the fill loop that reads.
  fill_turn-Nears :
      (rounds k : ℕ) (s : Reader) (t : Trace) (n : ℕ)
      → (ltb k 128 && (not s.finished_transmitting && true)) ≡ true
      → length s.rest ≤ n
      → ((s' : Reader) (t' : Trace)
          → length s'.rest < n
          → Nears n (fill_chunk c true rounds (k + 1) s' t').0)
      → Nears n (fill_chunk c true (suc rounds) k s t).0
  unfolding fill_chunk
  fill_turn-Nears rounds k s t n reads size more =
      let r = read_next_line s.rest s.lineno in
      let takes = read_next_line-Takes s.rest s.lineno in
      elim (ReadResult-cases r.result) [
        | inl e ↦ rw (reads, e, once) (inl refl)
        | inr (inl e) ↦ rw (reads, e) (inl refl)
        | inr (inr (hex, e)) ↦
            let fewer : length r.rest < length s.rest =
              subst (λ q. Takes (length s.rest) q (length r.rest)) e takes in
            elim (Bool-cases (parse_line hex s.bytes).0) [
              | inl word ↦ rw (reads, e, word) (more _ _ (omega (arith, fewer, size)))
              | inr no_word ↦ rw (reads, e, no_word) (inl refl)
            ]
      ]

  fill_chunk-Nears :
      (rounds k : ℕ) (s : Reader) (t : Trace)
      → 128 < rounds + k
      → k ≤ 128
      → Nears (suc (length s.rest)) (fill_chunk c true rounds k s t).0
  unfolding fill_chunk
  fill_chunk-Nears zero k s t enough small = absurd (omega (arith, enough, small))
  fill_chunk-Nears (suc rounds) k s t enough small =
      elim (Bool-cases (ltb k 128 && (not s.finished_transmitting && true))) [
        | inl reads ↦
            fill_turn-Nears rounds k s t (suc (length s.rest)) reads (omega arith) (λ s' t' h.
              Nears-more (suc (length s'.rest)) (suc (length s.rest)) _ (omega (arith, h))
                (fill_chunk-Nears rounds (k + 1) s' t' (omega (arith, enough)) (ground arith)))
        | inr over ↦ rw over (inr (omega arith))
      ]

  -- The fill loop of a round with a slot.
  pub round_fill-Nears :
      (n rounds : ℕ) (s : Reader) (t : Trace)
      → 128 < rounds
      → Nears (suc n) (some (0, s))
      → Nears n (fill_chunk c true rounds 0 s t).0
  unfolding fill_chunk
  round_fill-Nears n zero s t enough near = absurd (omega (arith, enough))
  round_fill-Nears n (suc rounds) s t enough (inl over) = rw over (inl refl)
  round_fill-Nears n (suc rounds) s t enough (inr size) =
      elim (Bool-cases s.finished_transmitting) [
        | inl over ↦ rw over (inl refl)
        | inr going ↦
            fill_turn-Nears rounds 0 s t n (rw going refl) (omega (arith, size)) (λ s' t' h.
              Nears-more (suc (length s'.rest)) n _ (omega (arith, h))
                (fill_chunk-Nears rounds 1 s' t' (omega (arith, enough)) (omega arith)))
      ]

-- ===== src/Xvc/Shift/Loop.antt =====
-- The loop of `xil_xvc_ioctl` runs like the reference, from any point of a request on.
use native.Mathlib.Nat.{zero-add, suc-add}
use thesis_software.Base.{
  ℕ, zero, suc, ◌+◌, ◌-◌, ◌*◌, ◌≡◌, refl, inl, inr, false, ◌++◌, append_assoc, ltb, if◌then◌else◌,
  arith, Bool-cases, length, take, drop, length-append, length-take, length-drop, take-append-drop,
}
use thesis_software.Base.Int.{is_nonzero}
use thesis_software.Xvc.Kernel.{Bytes, Trace, Kernel, Outcome, done, ◌>>=◌}
use thesis_software.Xvc.Shift.{
  Shifted, xil_xvc_shift_bits, le_bytes, le_value, Progress, shift_loop,
}
use thesis_software.Xvc.Shift.Word.{length-le_bytes, xil_xvc_shift_bits-returns}
use thesis_software.Xvc.Shift.Reference.{
  appended, shift_words, SameRun, Middle, filled, round_filled, last_word-SameRun,
}

-- After a whole word, the rest of the request is as far from its end as before, less that word.
Middle-next :
    (num_bits words bits : ℕ) (tms tms' tdi tdi' out free done_bytes : Bytes)
    → length done_bytes ≡ 4
    → Middle num_bits (suc words) bits tms tms' tdi tdi' out free
    → Middle num_bits words bits
        (tms ++ take 4 tms')
        (drop 4 tms')
        (tdi ++ take 4 tdi')
        (drop 4 tdi')
        (out ++ done_bytes)
        (drop 4 free)
Middle-next num_bits words bits tms tms' tdi tdi' out free done_bytes four m = record {
  left = omega (arith, length-append tms (take 4 tms'), length-take 4 tms', m.left, m.tms_left);
  short = m.short;
  in_range = m.in_range;
  same_start = omega (
    arith,
    length-append tms (take 4 tms'),
    length-append tdi (take 4 tdi'),
    length-append out done_bytes,
    length-take 4 tms',
    length-take 4 tdi',
    m.tms_left,
    m.tdi_left,
    m.same_start,
  );
  tms_left = omega (arith, length-drop 4 tms', m.tms_left);
  tdi_left = omega (arith, length-drop 4 tdi', m.tdi_left);
  free_left = omega (arith, length-drop 4 free, m.free_left);
}

shift_words-run :
    (k : Kernel) (words bits : ℕ) (tms tdi out : Bytes) (t : Trace) (s : Shifted) (t' : Trace)
    → xil_xvc_shift_bits k (le_value (take 4 tms)) (le_value (take 4 tdi)) 0 t ≡ done s t'
    → shift_words k (suc words) bits tms tdi out t ≡ (
        if is_nonzero (appended out 4 s).status
        then done (appended out 4 s) t'
        else shift_words k words bits (drop 4 tms) (drop 4 tdi) (appended out 4 s).tdo t')
unfolding shift_words
shift_words-run k words bits tms tdi out t s t' run = rw (run, ◌>>=◌)

-- The next word, if the rest of the loop runs like the rest of the reference.
word_SameRun :
    (out free : Bytes) (s : Shifted) (t : Trace) (loop ref : Bytes → Outcome Progress)
    → (is_nonzero s.status ≡ false
        → SameRun
            (loop (out ++ (le_bytes 4 s.tdo_bits ++ drop 4 free)))
            (ref (out ++ le_bytes 4 s.tdo_bits)))
    → SameRun
        (if is_nonzero (filled out free 4 s).status
          then done (filled out free 4 s) t
          else loop (filled out free 4 s).tdo)
        (if is_nonzero (appended out 4 s).status
          then done (appended out 4 s) t
          else ref (appended out 4 s).tdo)
word_SameRun out free s t loop ref rest = elim (Bool-cases (is_nonzero s.status)) [
  | inl failed ↦ rw (failed, failed) (refl, refl, λ h. cc)
  | inr ok ↦ rw (ok, ok) (rest ok)
]

whole_word :
    (k : Kernel) (rounds num_bits words bits : ℕ) (tms tms' tdi tdi' out free : Bytes) (t : Trace)
    → Middle num_bits (suc words) bits tms tms' tdi tdi' out free
    → (s : Shifted) (t' : Trace)
    → xil_xvc_shift_bits k (le_value (take 4 tms')) (le_value (take 4 tdi')) 0 t ≡ done s t'
    → (is_nonzero s.status ≡ false
        → SameRun
            (shift_loop k rounds num_bits
              (tms ++ tms')
              (tdi ++ tdi')
              (8 * length tms + 32)
              (out ++ (le_bytes 4 s.tdo_bits ++ drop 4 free))
              t')
            (shift_words k words bits
              (drop 4 tms')
              (drop 4 tdi')
              (out ++ le_bytes 4 s.tdo_bits)
              t'))
    → SameRun
        (shift_loop k
          (suc rounds)
          num_bits
          (tms ++ tms')
          (tdi ++ tdi')
          (8 * length tms)
          (out ++ free)
          t)
        (shift_words k (suc words) bits tms' tdi' out t)
whole_word k rounds num_bits words bits tms tms' tdi tdi' out free t m s t' run rest =
    let whole : ltb (num_bits - 8 * length tms) 32 ≡ false = ground (arith, m.left) in
    let round =
      round_filled k rounds num_bits 32 tms tms' tdi tdi' out free t m.same_start
        (omega (arith, m.tms_left), omega (arith, m.tdi_left), omega (arith, m.free_left))
        (omega (arith, m.left)) m.in_range (rw whole refl) s t' (rw whole run) in
    rw (round, shift_words-run k words bits tms' tdi' out t s t' run)
      (word_SameRun out free s t'
        (λ tdo.
          shift_loop k rounds num_bits (tms ++ tms') (tdi ++ tdi') (8 * length tms + 32) tdo t')
        (λ o. shift_words k words bits (drop 4 tms') (drop 4 tdi') o t') rest)

-- A buffer cut four bytes further on.
cut_later : (xs ys : Bytes) → (xs ++ take 4 ys) ++ drop 4 ys ≡ xs ++ ys
cut_later xs ys = rw (append_assoc xs (take 4 ys) (drop 4 ys), take-append-drop 4 ys)

pub shift_loop-SameRun :
    (k : Kernel) (words rounds num_bits bits : ℕ) (tms tms' tdi tdi' out free : Bytes) (t : Trace)
    → Middle num_bits words bits tms tms' tdi tdi' out free
    → SameRun
        (shift_loop k
          (words + suc (suc rounds))
          num_bits
          (tms ++ tms')
          (tdi ++ tdi')
          (8 * length tms)
          (out ++ free)
          t)
        (shift_words k words bits tms' tdi' out t)
shift_loop-SameRun k zero rounds num_bits bits tms tms' tdi tdi' out free t m =
    rw zero-add (
      unfold shift_words in last_word-SameRun k rounds num_bits bits tms tms' tdi tdi' out free t m)
shift_loop-SameRun k (suc words) rounds num_bits bits tms tms' tdi tdi' out free t m =
    let (s, t', run) =
      xil_xvc_shift_bits-returns k (le_value (take 4 tms')) (le_value (take 4 tdi')) 0 t in
    let later = le_bytes 4 s.tdo_bits in
    let ih =
      shift_loop-SameRun k words rounds num_bits bits (tms ++ take 4 tms') (drop 4 tms')
        (tdi ++ take 4 tdi') (drop 4 tdi') (out ++ later) (drop 4 free) t'
        (Middle-next num_bits words bits tms tms' tdi tdi' out free later
          (length-le_bytes 4 s.tdo_bits) m) in
    let bit : 8 * length (tms ++ take 4 tms') ≡ 8 * length tms + 32 =
      omega (arith, length-append tms (take 4 tms'), length-take 4 tms', m.tms_left) in
    rw suc-add (
      whole_word k (words + suc (suc rounds)) num_bits words bits tms tms' tdi tdi' out free t m s
        t' run
        (λ ok.
          rw
            (
              ← bit,
              ← cut_later tms tms',
              ← cut_later tdi tdi',
              ← append_assoc out later (drop 4 free),
            )
            ih))

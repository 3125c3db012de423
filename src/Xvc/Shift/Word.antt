-- ===== src/Xvc/Shift/Word.antt =====
-- One word through the bridge, and the accesses to a buffer that has been filled in part.
use thesis_software.Base.{
  ℕ, zero, suc, ◌/◌, ◌%◌, ◌^◌, ◌≤◌, ◌<◌, bit_and, bit_or, ◌≡◌, refl, ◌∙◌, ◌⊎◌, inl, inr, Bool, true,
  false, not, ◌∷◌, ◌++◌, ◌==◌, arith, Bool-cases, length, take, drop, length-append, take-append,
  drop-append, drop-append_exact,
}
use thesis_software.Base.Int.{pos, minus}
use thesis_software.Xvc.Kernel.{
  Bytes, wrote, got, Trace, Kernel, Outcome, done, fault, read_at, write_at,
}
use thesis_software.Xvc.Shift.{
  Shifted, poll_control, finish_shift, xil_xvc_shift_bits, le_bytes, etimedout, tms_reg_offset,
  tdi_reg_offset, tdo_reg_offset, control_reg_offset,
}

pub read_at-append :
    (pre xs : Bytes) (n : ℕ) (t : Trace)
    → n ≤ length xs
    → read_at (pre ++ xs) (length pre) n t ≡ done (take n xs) t
unfolding read_at
read_at-append pre xs n t h = rw (drop-append_exact pre xs) (ground (arith, length-append pre xs))

pub write_at-append :
    (pre xs bs : Bytes) (t : Trace)
    → length bs ≤ length xs
    → write_at (pre ++ xs) (length pre) bs t ≡ done (pre ++ (bs ++ drop (length bs) xs)) t
unfolding write_at
write_at-append pre xs bs t h =
    rw (drop-append pre xs (length bs), take-append pre xs) (ground (arith, length-append pre xs))

pub length-le_bytes : (n v : ℕ) → length (le_bytes n v) ≡ n
unfolding le_bytes
length-le_bytes zero v = refl
length-le_bytes (suc n) v = omega (arith, length-le_bytes n (v / 256))

-- What a poll of the control register reads behind a trace.
abbrev pub control_at : Kernel → Trace → ℕ
control_at k t = k.register t control_reg_offset % 2 ^ 32

-- The trace behind a number of polls.
abbrev pub polled : Kernel → ℕ → Trace → Trace
polled k zero t = t
polled k (suc n) t = polled k n (got control_reg_offset (control_at k t) ∷ t)

-- The bridge is still shifting.
abbrev pub is_busy : ℕ → Bool
is_busy c = not (bit_and c 1 == 0)

-- The trace when the polling starts: both inputs written, then the control register read and
-- written back with its lowest bit set.
abbrev pub enabled : Kernel → ℕ → ℕ → Trace → Trace
enabled k tms tdi t =
    let t' = wrote tdi_reg_offset (tdi % 2 ^ 32) ∷ wrote tms_reg_offset (tms % 2 ^ 32) ∷ t in
    wrote control_reg_offset (bit_or (control_at k t') 1 % 2 ^ 32)
    ∷ got control_reg_offset (control_at k t')
    ∷ t'

-- How a shift of one word ends after a number of polls that saw the bridge busy: the next poll sees
-- it idle and the word is read, or the hundred polls are used up.
abbrev pub WordEnds : Kernel → ℕ → ℕ → ℕ → Trace → ℕ → Outcome Shifted → Type 0
WordEnds k tms tdi old t polls r =
    ((polls < 100)
      × (is_busy (control_at k (polled k polls (enabled k tms tdi t))) ≡ false)
      × (r ≡ (
          let t' = polled k (suc polls) (enabled k tms tdi t) in
          let v = k.register t' tdo_reg_offset % 2 ^ 32 in
          done (record { status = pos 0; tdo_bits = v }) (got tdo_reg_offset v ∷ t'))))
    ⊎ ((polls ≡ 100)
        × (r
            ≡ done (record { status = minus etimedout; tdo_bits = old })
                (polled k polls (enabled k tms tdi t))))

pub record WordRun (k : Kernel) (tms tdi old : ℕ) (t : Trace) (r : Outcome Shifted) : Type 0 where
  pub polls : ℕ
  pub busy : (i : ℕ) → i < polls → is_busy (control_at k (polled k i (enabled k tms tdi t))) ≡ true
  pub ends : WordEnds k tms tdi old t polls r

abbrev PollEnds : Kernel → ℕ → Trace → ℕ → Outcome Bool → Type 0
PollEnds k limit t polls r =
    ((polls < limit)
      × (is_busy (control_at k (polled k polls t)) ≡ false)
      × (r ≡ done true (polled k (suc polls) t)))
    ⊎ ((polls ≡ limit) × (r ≡ done false (polled k polls t)))

record PollRun (k : Kernel) (limit : ℕ) (t : Trace) (r : Outcome Bool) : Type 0 where
  polls : ℕ
  busy : (i : ℕ) → i < polls → is_busy (control_at k (polled k i t)) ≡ true
  ends : PollEnds k limit t polls r

PollRun-again :
    (k : Kernel) (limit : ℕ) (t : Trace) (r : Outcome Bool)
    → is_busy (control_at k t) ≡ true
    → PollRun k limit (got control_reg_offset (control_at k t) ∷ t) r
    → PollRun k (suc limit) t r
PollRun-again k limit t r b run = record {
  polls = suc run.polls;
  busy = busy;
  ends = ends run.ends;
}
  where
    busy : (i : ℕ) → i < suc run.polls → is_busy (control_at k (polled k i t)) ≡ true
    busy zero h = b
    busy (suc i) h = run.busy i (omega arith)

    ends :
        PollEnds k limit (got control_reg_offset (control_at k t) ∷ t) run.polls r
        → PollEnds k (suc limit) t (suc run.polls) r
    ends (inl (lt, idle, e)) = inl (omega arith, idle, e)
    ends (inr (eq, e)) = inr (omega arith, e)

poll_control-again :
    (k : Kernel) (limit : ℕ) (t : Trace)
    → is_busy (control_at k t) ≡ true
    → poll_control k (suc limit) t
      ≡ poll_control k limit (got control_reg_offset (control_at k t) ∷ t)
unfolding poll_control
poll_control-again k limit t b = ground arith

poll_control-stop :
    (k : Kernel) (limit : ℕ) (t : Trace)
    → is_busy (control_at k t) ≡ false
    → poll_control k (suc limit) t ≡ done true (got control_reg_offset (control_at k t) ∷ t)
unfolding poll_control
poll_control-stop k limit t b = ground arith

poll_control-PollRun :
    (k : Kernel) (limit : ℕ) (t : Trace) → PollRun k limit t (poll_control k limit t)
poll_control-PollRun k zero t = record {
  polls = 0;
  busy = λ i h. absurd (omega arith);
  ends = inr (refl, unfold poll_control in refl);
}
poll_control-PollRun k (suc limit) t = elim (Bool-cases (is_busy (control_at k t))) [
  | inl b ↦
      rw (poll_control-again k limit t b)
        (PollRun-again k limit t _ b (poll_control-PollRun k limit _))
  | inr b ↦
      rw (poll_control-stop k limit t b) (record {
        polls = 0;
        busy = λ i h. absurd (omega arith);
        ends = inl (omega arith, b, refl);
      })
]

shift_bits_ends :
    (k : Kernel) (tms tdi old : ℕ) (t : Trace) (r : Outcome Bool)
    → poll_control k 100 (enabled k tms tdi t) ≡ r
    → xil_xvc_shift_bits k tms tdi old t
      ≡ elim r [ done ended t' ↦ finish_shift k old ended t' | fault t' ↦ fault t' ]
unfolding xil_xvc_shift_bits
shift_bits_ends k tms tdi old t r e = rw (← e)

WordEnds-PollEnds :
    (k : Kernel) (tms tdi old : ℕ) (t : Trace) (polls : ℕ)
    → PollEnds k 100 (enabled k tms tdi t) polls (poll_control k 100 (enabled k tms tdi t))
    → WordEnds k tms tdi old t polls (xil_xvc_shift_bits k tms tdi old t)
WordEnds-PollEnds k tms tdi old t polls (inl (lt, idle, e)) =
    inl (lt, idle, shift_bits_ends k tms tdi old t _ e ∙ unfold finish_shift in refl)
WordEnds-PollEnds k tms tdi old t polls (inr (eq, e)) =
    inr (eq, shift_bits_ends k tms tdi old t _ e ∙ unfold finish_shift in refl)

-- `xil_xvc_shift_bits` writes both words, sets the lowest bit of the control register and polls it
-- at most a hundred times: it returns 0 and the word that the bridge then holds if one of the polls
-- sees the bit clear, after exactly the polls that saw it set, and -ETIMEDOUT with `*tdo_bits` as it
-- was if none does.
pub xil_xvc_shift_bits-WordRun :
    (k : Kernel) (tms tdi old : ℕ) (t : Trace)
    → WordRun k tms tdi old t (xil_xvc_shift_bits k tms tdi old t)
xil_xvc_shift_bits-WordRun k tms tdi old t =
    let run = poll_control-PollRun k 100 (enabled k tms tdi t) in
    record {
      polls = run.polls;
      busy = run.busy;
      ends = WordEnds-PollEnds k tms tdi old t run.polls run.ends;
    }

-- In both cases it returns: no access of it is out of place.
pub xil_xvc_shift_bits-returns :
    (k : Kernel) (tms tdi old : ℕ) (t : Trace)
    → (s : Shifted) × (t' : Trace) × (xil_xvc_shift_bits k tms tdi old t ≡ done s t')
xil_xvc_shift_bits-returns k tms tdi old t =
    returns (xil_xvc_shift_bits-WordRun k tms tdi old t).ends
  where
    returns :
        {polls : ℕ}
        → WordEnds k tms tdi old t polls (xil_xvc_shift_bits k tms tdi old t)
        → (s : Shifted) × (t' : Trace) × (xil_xvc_shift_bits k tms tdi old t ≡ done s t')
    returns (inl (lt, idle, e)) = (_, _, e)
    returns (inr (eq, e)) = (_, _, e)

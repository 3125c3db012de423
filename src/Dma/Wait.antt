-- ===== src/Dma/Wait.antt =====
-- `waitDmaTransmissionDone`: which poll decides, and how long the wait lasts.
use thesis_software.Base.{
  ℕ, zero, suc, ◌%◌, ◌^◌, ◌≤◌, ◌<◌, ◌≡◌, refl, ◌⊎◌, inl, inr, Bool, true, false, not, ◌||◌, ◌∷◌,
  arith, if◌then◌else◌, Bool-cases,
}
use thesis_software.World.{Env, got, slept, Trace}
use thesis_software.Dma.{
  DmaReturnValue, dma_received, dma_timeout, dma_failed, is_idle, is_error, poll_status,
  wait_dma_transmission_done, channel_offset,
}
use thesis_software.Dma.Mm2s
use thesis_software.Dma.S2mm

-- What a poll of the register reads behind a trace.
abbrev pub status_at : Env → ℕ → Trace → ℕ
status_at env off t = env.register t off % 2 ^ 32

-- The trace behind a number of polls, each of which slept for a millisecond.
abbrev pub polled : Env → ℕ → ℕ → Trace → Trace
polled env off zero t = t
polled env off (suc k) t = polled env off k (slept 1 ∷ got off (status_at env off t) ∷ t)

-- A status that lets the loop go on.
abbrev pub is_quiet : ℕ → Bool
is_quiet sr = not (is_idle sr || is_error sr)

-- What the loop returns at the status that ends it.
abbrev pub verdict : ℕ → DmaReturnValue
verdict sr = if is_idle sr then dma_received else if is_error sr then dma_failed else dma_timeout

-- Poll `last`, counted from 0, decides: all before it were quiet, and it is the last that the time
-- allows if it is quiet itself.
pub record PollRun (env : Env) (off limit : ℕ) (t : Trace) (r : DmaReturnValue × Trace)
    : Type 0 where
  pub last : ℕ
  pub in_time : last ≤ limit
  pub earlier : (k : ℕ) → k < last → is_quiet (status_at env off (polled env off k t)) ≡ true
  pub decides : (is_quiet (status_at env off (polled env off last t)) ≡ false) ⊎ (last ≡ limit)
  pub returns : r.0 ≡ verdict (status_at env off (polled env off last t))
  pub leaves : r.1 ≡ got off (status_at env off (polled env off last t)) ∷ polled env off last t

poll_status-again :
    (env : Env) (off limit : ℕ) (t : Trace)
    → is_quiet (status_at env off t) ≡ true
    → poll_status env off (suc limit) t
      ≡ poll_status env off limit (slept 1 ∷ got off (status_at env off t) ∷ t)
unfolding poll_status
poll_status-again env off limit t quiet = ground arith

PollRun-again :
    (env : Env) (off limit : ℕ) (t : Trace) (r : DmaReturnValue × Trace)
    → is_quiet (status_at env off t) ≡ true
    → PollRun env off limit (slept 1 ∷ got off (status_at env off t) ∷ t) r
    → PollRun env off (suc limit) t r
PollRun-again env off limit t r quiet run = record {
  last = suc run.last;
  in_time = omega arith;
  earlier = earlier;
  decides = ground arith;
  returns = run.returns;
  leaves = run.leaves;
}
  where
    earlier : (k : ℕ) → k < suc run.last → is_quiet (status_at env off (polled env off k t)) ≡ true
    earlier zero h = quiet
    earlier (suc k) h = run.earlier k (omega arith)

poll_status-PollRun :
    (env : Env) (off limit : ℕ) (t : Trace) → PollRun env off limit t (poll_status env off limit t)
unfolding poll_status
poll_status-PollRun env off zero t = record {
  last = 0;
  in_time = omega arith;
  earlier = λ k h. absurd (omega arith);
  decides = inr refl;
  returns = ground arith;
  leaves = ground arith;
}
poll_status-PollRun env off (suc limit) t = elim (Bool-cases (is_quiet (status_at env off t))) [
  | inl quiet ↦
      rw (poll_status-again env off limit t quiet)
        (PollRun-again env off limit t _ quiet (poll_status-PollRun env off limit _))
  | inr stop ↦ record {
    last = 0;
    in_time = omega arith;
    earlier = λ k h. absurd (omega arith);
    decides = inl stop;
    returns = ground arith;
    leaves = ground arith;
  }
]

-- `waitDmaTransmissionDone` ends within `timeout_ms` sleeps of a millisecond, for whatever the engine
-- answers: it polls the status register of its channel until a poll is idle or in error or the time
-- is over, and returns what that poll says, received where it is idle, failed where it is in error
-- only, and a timeout otherwise.
pub wait_dma_transmission_done-PollRun :
    (env : Env) (buffer_index timeout_ms : ℕ) (t : Trace)
    → timeout_ms < 256
    → PollRun env
        (channel_offset buffer_index Mm2s.status S2mm.status)
        timeout_ms
        t
        (wait_dma_transmission_done env buffer_index timeout_ms t)
unfolding wait_dma_transmission_done
wait_dma_transmission_done-PollRun env buffer_index timeout_ms t h =
    let small : timeout_ms % 2 ^ 8 ≡ timeout_ms = omega arith in
    rw small (poll_status-PollRun env _ timeout_ms t)

-- ===== src/Filter/Limits.antt =====
-- The limits that a key sets, as saturating arithmetic on 32-bit registers.
use thesis_software.Base.{
  ℕ, ◌+◌, ◌-◌, ◌%◌, ◌^◌, ◌<◌, min, ◌≡◌, refl, inl, inr, false, not, ◌||◌, some, List, [], ◌∷◌, ◌++◌,
  arith, ◌==◌, if◌then◌else◌, Bool-cases,
}
use thesis_software.World.{ready, wrote, selected, key_read, got, Trace, Env}
use thesis_software.Filter.{
  KeyAction, set_limits, quit, ignored, handle_key, apply_limits, do_key, with_key, with_selected,
  key_round, Round, go_on, leave, spike_counter_limit_offset, decay_counter_limit_offset,
}

-- What a key should do to the two limits, with no regard to the width of the registers but the
-- greatest value.
abbrev pub limits_after : ℕ → ℕ → ℕ → KeyAction
limits_after ch spike decay =
    if ch == b'+'
    then set_limits (min (spike + 100) (2 ^ 32 - 1)) decay
    else if ch == b'-'
    then set_limits (spike - 100) decay
    else if ch == b'p' || ch == b'P'
    then set_limits spike (min (decay + 10000) (2 ^ 32 - 1))
    else if ch == b'l' || ch == b'L'
    then set_limits spike (decay - 10000)
    else if ch == b'q' || ch == b'Q'
    then quit
    else ignored

-- At 32-bit values every key moves its own limit by its step, stops at 0 and at 2 ^ 32 - 1 instead
-- of wrapping, and leaves the other limit; q and Q quit, and any other key is ignored.
pub handle_key-limits_after :
    (ch spike decay : ℕ)
    → spike < 2 ^ 32
    → decay < 2 ^ 32
    → handle_key ch spike decay ≡ limits_after ch spike decay
unfolding handle_key
handle_key-limits_after ch spike decay hs hd = ground arith

-- The register writes of a trace, the newest first.
abbrev pub reg_writes : Trace → List (ℕ × ℕ)
reg_writes [] = []
reg_writes (wrote off v ∷ t) = (off, v) ∷ reg_writes t
reg_writes (_ ∷ t) = reg_writes t

-- The writes of a key that found the limits at some values: both limits, if either changes.
abbrev pub writes_after : KeyAction → ℕ → ℕ → List (ℕ × ℕ)
writes_after (set_limits next_spike next_decay) spike decay =
    if not (next_spike == spike) || not (next_decay == decay)
    then (decay_counter_limit_offset, next_decay) ∷ (spike_counter_limit_offset, next_spike) ∷ []
    else []
writes_after quit spike decay = []
writes_after ignored spike decay = []

abbrev pub ends_after : KeyAction → Round
ends_after quit = leave
ends_after _ = go_on

-- A round in which a key is read behind a trace `t`.
pub record KeyRound (env : Env) (ch : ℕ) (t : Trace) : Type 0 where
  pub not_stopped : env.sigint t ≡ false
  pub key_there : env.select_key t ≡ ready
  pub key_is : env.read_key (selected ready ∷ t) ≡ some ch

-- The values that the round reads from the two registers.
abbrev pub spike_at : Env → ℕ → Trace → ℕ
spike_at env ch t =
    env.register (key_read (some ch) ∷ selected ready ∷ t) spike_counter_limit_offset % 2 ^ 32

abbrev pub decay_at : Env → ℕ → Trace → ℕ
decay_at env ch t =
    env.register
      (got spike_counter_limit_offset (spike_at env ch t) ∷ key_read (some ch) ∷ selected ready ∷ t)
      decay_counter_limit_offset
    % 2 ^ 32

do_key-writes :
    (env : Env) (a : KeyAction) (spike decay : ℕ) (t : Trace)
    → ((n d : ℕ) → a ≡ set_limits n d → (n < 2 ^ 32) × (d < 2 ^ 32))
    → ((do_key env a spike decay t).0 ≡ ends_after a)
      × (reg_writes (do_key env a spike decay t).1 ≡ writes_after a spike decay ++ reg_writes t)
unfolding do_key apply_limits
do_key-writes env quit spike decay t h = (refl, refl)
do_key-writes env ignored spike decay t h = (refl, refl)
do_key-writes env (set_limits n d) spike decay t h =
    let fits = h n d refl in
    elim (Bool-cases (not (n == spike) || not (d == decay))) [
      | inl changed ↦ rw changed (refl, ground arith)
      | inr same ↦ rw same (refl, refl)
    ]

limits_after-lt :
    (ch spike decay n d : ℕ)
    → spike < 2 ^ 32
    → decay < 2 ^ 32
    → limits_after ch spike decay ≡ set_limits n d
    → (n < 2 ^ 32) × (d < 2 ^ 32)
limits_after-lt ch spike decay n d hs hd e = ground arith

-- A round of the loop that finds a key and reads it writes the two registers once each if the key
-- changes a limit, with the saturating values worked out from what the registers held, and writes
-- nothing otherwise; it ends the loop exactly at q and Q.
pub key_round-limits_after :
    (env : Env) (ch : ℕ) (t : Trace)
    → KeyRound env ch t
    → let a = limits_after ch (spike_at env ch t) (decay_at env ch t) in
      ((key_round env t).0 ≡ ends_after a)
      × (reg_writes (key_round env t).1
          ≡ writes_after a (spike_at env ch t) (decay_at env ch t) ++ reg_writes t)
unfolding key_round with_selected with_key
key_round-limits_after env ch t r =
    let spike = spike_at env ch t in
    let decay = decay_at env ch t in
    let hs : spike < 2 ^ 32 = omega arith in
    let hd : decay < 2 ^ 32 = omega arith in
    rw (r.not_stopped, r.key_there, r.key_is, handle_key-limits_after ch spike decay hs hd)
      (do_key-writes env (limits_after ch spike decay) spike decay _
        (λ n d e. limits_after-lt ch spike decay n d hs hd e))

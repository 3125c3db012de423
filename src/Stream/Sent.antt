-- ===== src/Stream/Sent.antt =====
-- What a trace says of the source buffer: the bytes that each transmission sends, and whether one is
-- under way.
use thesis_software.Base.{
  ℕ, zero, suc, ◌+◌, ◌-◌, ◌%◌, ◌^◌, ◌≤◌, ◌<◌, ◌≡◌, refl, ap, ◌∙◌, inl, inr, Bool, true, false, ◌&&◌,
  Option, none, some, [], ◌∷◌, ◌++◌, append_assoc, append-nil, arith, Bool-cases, length, take,
  get_or, ltb, leb, ◌==◌, if◌then◌else◌,
}
use thesis_software.World.{Env, wrote, got, slept, stored, Trace}
use thesis_software.Helper.{Bytes}
use thesis_software.Dma.{
  DmaReturnValue, dma_received, dma_timeout, dma_failed, is_idle, is_error, poll_status,
}
use thesis_software.Dma.Mm2s
use thesis_software.Dma.S2mm

-- The byte last stored at an address, 0 where none was.
unfoldable pub byte_at : Trace → ℕ → ℕ
byte_at [] a = 0
byte_at (stored p bs ∷ t) a =
    if leb p a && ltb a (p + length bs) then get_or bs (a - p) 0 else byte_at t a
byte_at (_ ∷ t) a = byte_at t a

unfoldable pub bytes_at : Trace → ℕ → ℕ → Bytes
bytes_at t p zero = []
bytes_at t p (suc n) = bytes_at t p n ++ byte_at t (p + n) ∷ []

-- All bytes sent: a write of the sender's length sends so many bytes from the source buffer.
unfoldable pub sent : ℕ → Trace → Bytes
sent p [] = []
sent p (wrote off n ∷ t) = if off == Mm2s.length then sent p t ++ bytes_at t p n else sent p t
sent p (_ ∷ t) = sent p t

-- Whether a transmission is under way: from the write of a length until the status is seen idle.
-- `none` is a misuse: a second transmission, or a store into the buffer, while one is under way.
unfoldable pub transmitting : Trace → Option Bool
transmitting [] = some false
transmitting (wrote off n ∷ t) =
    if off == Mm2s.length
    then elim (transmitting t) [ some false ↦ some true | some true ↦ none | none ↦ none ]
    else transmitting t
transmitting (got off v ∷ t) =
    if off == Mm2s.status && is_idle v
    then elim (transmitting t) [ some busy ↦ some false | none ↦ none ]
    else transmitting t
transmitting (stored p bs ∷ t) = elim (transmitting t) [
  | some false ↦ some false
  | some true ↦ none
  | none ↦ none
]
transmitting (_ ∷ t) = transmitting t

bytes_at-stored_below :
    (t : Trace) (p q : ℕ) (bs : Bytes) (n : ℕ)
    → p + n ≤ q
    → bytes_at (stored q bs ∷ t) p n ≡ bytes_at t p n
unfolding bytes_at byte_at
bytes_at-stored_below t p q bs zero h = refl
bytes_at-stored_below t p q bs (suc n) h =
    let below : leb q (p + n) ≡ false = ground arith in
    rw (bytes_at-stored_below t p q bs n (omega (arith, h)), below) refl

take_one_more :
    (bs : Bytes) (j : ℕ) → j < length bs → take j bs ++ get_or bs j 0 ∷ [] ≡ take (suc j) bs
take_one_more [] j h = absurd (omega (arith, h))
take_one_more (b ∷ bs) zero h = refl
take_one_more (b ∷ bs) (suc j) h = ap (◌∷◌ b) (take_one_more bs j (omega (arith, h)))

bytes_at-stored_part :
    (t : Trace) (p n : ℕ) (bs : Bytes) (j : ℕ)
    → j ≤ length bs
    → bytes_at (stored (p + n) bs ∷ t) p (n + j) ≡ bytes_at t p n ++ take j bs
unfolding bytes_at
bytes_at-stored_part t p n bs zero h =
    let e : n + 0 ≡ n = omega arith in
    rw (e, append-nil (bytes_at t p n)) (bytes_at-stored_below t p (p + n) bs n (omega arith))
bytes_at-stored_part t p n bs (suc j) h =
    let e : n + suc j ≡ suc (n + j) = omega arith in
    let inside : (leb (p + n) (p + (n + j)) && ltb (p + (n + j)) (p + n + length bs)) ≡ true =
      ground arith in
    let off : p + (n + j) - (p + n) ≡ j = omega arith in
    rw (e, bytes_at-stored_part t p n bs j (omega (arith, h)))
      (unfold byte_at in
        rw (inside, off, append_assoc (bytes_at t p n) (take j bs) (get_or bs j 0 ∷ []))
          (ap (◌++◌ (bytes_at t p n)) (take_one_more bs j (omega (arith, h)))))

take-length : (bs : Bytes) → take (length bs) bs ≡ bs
take-length [] = refl
take-length (b ∷ bs) = ap (◌∷◌ b) (take-length bs)

-- Bytes stored behind those that are there.
pub bytes_at-stored :
    (t : Trace) (p n : ℕ) (bs : Bytes)
    → bytes_at (stored (p + n) bs ∷ t) p (n + length bs) ≡ bytes_at t p n ++ bs
bytes_at-stored t p n bs =
    bytes_at-stored_part t p n bs (length bs) (omega arith)
    ∙ ap (◌++◌ (bytes_at t p n)) (take-length bs)

-- Polls send nothing, and those of the receiving channel do not change what is under way.
pub poll_status-sent :
    (env : Env) (off timeout_ms p : ℕ) (t : Trace)
    → sent p (poll_status env off timeout_ms t).1 ≡ sent p t
unfolding poll_status sent
poll_status-sent env off zero p t = elim (Bool-cases (is_idle (env.register t off % 2 ^ 32))) [
  | inl idle ↦ rw idle refl
  | inr busy ↦ elim (Bool-cases (is_error (env.register t off % 2 ^ 32))) [
    | inl broken ↦ rw (busy, broken) refl
    | inr fine ↦ rw (busy, fine) refl
  ]
]
poll_status-sent env off (suc timeout_ms) p t =
    elim (Bool-cases (is_idle (env.register t off % 2 ^ 32))) [
      | inl idle ↦ rw idle refl
      | inr busy ↦ elim (Bool-cases (is_error (env.register t off % 2 ^ 32))) [
        | inl broken ↦ rw (busy, broken) refl
        | inr fine ↦ rw (busy, fine) (poll_status-sent env off timeout_ms p _)
      ]
    ]

pub poll_receive-transmitting :
    (env : Env) (timeout_ms : ℕ) (t : Trace)
    → transmitting (poll_status env S2mm.status timeout_ms t).1 ≡ transmitting t
unfolding poll_status transmitting
poll_receive-transmitting env zero t =
    elim (Bool-cases (is_idle (env.register t S2mm.status % 2 ^ 32))) [
      | inl idle ↦ rw idle refl
      | inr busy ↦ elim (Bool-cases (is_error (env.register t S2mm.status % 2 ^ 32))) [
        | inl broken ↦ rw (busy, broken) refl
        | inr fine ↦ rw (busy, fine) refl
      ]
    ]
poll_receive-transmitting env (suc timeout_ms) t =
    elim (Bool-cases (is_idle (env.register t S2mm.status % 2 ^ 32))) [
      | inl idle ↦ rw idle refl
      | inr busy ↦ elim (Bool-cases (is_error (env.register t S2mm.status % 2 ^ 32))) [
        | inl broken ↦ rw (busy, broken) refl
        | inr fine ↦ rw (busy, fine) (poll_receive-transmitting env timeout_ms _)
      ]
    ]

-- Whether a transmission is still under way, by what the wait for it returned.
abbrev pub still : Bool → DmaReturnValue → Bool
still busy dma_received = false
still busy dma_timeout = busy
still busy dma_failed = busy

transmitting-idle :
    (v : ℕ) (busy : Bool) (t : Trace)
    → transmitting t ≡ some busy
    → is_idle v ≡ true
    → transmitting (got Mm2s.status v ∷ t) ≡ some false
unfolding transmitting
transmitting-idle v busy t e idle = rw idle (rw e refl)

transmitting-busy :
    (v : ℕ) (t : Trace) → is_idle v ≡ false → transmitting (got Mm2s.status v ∷ t) ≡ transmitting t
unfolding transmitting
transmitting-busy v t run = rw run refl

pub poll_transmit-transmitting :
    (env : Env) (timeout_ms : ℕ) (busy : Bool) (t : Trace)
    → transmitting t ≡ some busy
    → transmitting (poll_status env Mm2s.status timeout_ms t).1
      ≡ some (still busy (poll_status env Mm2s.status timeout_ms t).0)
unfolding poll_status
poll_transmit-transmitting env zero busy t e =
    let v = env.register t Mm2s.status % 2 ^ 32 in
    elim (Bool-cases (is_idle v)) [
      | inl idle ↦ rw idle (transmitting-idle v busy t e idle)
      | inr run ↦ elim (Bool-cases (is_error v)) [
        | inl broken ↦ rw (run, broken) (transmitting-busy v t run ∙ e)
        | inr fine ↦ rw (run, fine) (transmitting-busy v t run ∙ e)
      ]
    ]
poll_transmit-transmitting env (suc timeout_ms) busy t e =
    let v = env.register t Mm2s.status % 2 ^ 32 in
    let slept_on : transmitting (slept 1 ∷ got Mm2s.status v ∷ t)
        ≡ transmitting (got Mm2s.status v ∷ t) =
      unfold transmitting in refl in
    elim (Bool-cases (is_idle v)) [
      | inl idle ↦ rw idle (transmitting-idle v busy t e idle)
      | inr run ↦ elim (Bool-cases (is_error v)) [
        | inl broken ↦ rw (run, broken) (transmitting-busy v t run ∙ e)
        | inr fine ↦
            rw (run, fine)
              (poll_transmit-transmitting env timeout_ms busy _
                (slept_on ∙ (transmitting-busy v t run ∙ e)))
      ]
    ]

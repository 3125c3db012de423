-- ===== src/Server/Client.antt =====
-- The client's side of a connection: its requests, and the lengths of a shift at the front of a stream.
use thesis_software.Base.{
  ℕ, ◌+◌, ◌-◌, ◌*◌, ◌/◌, ◌^◌, ◌≤◌, ◌<◌, ◌≡◌, refl, ◌∙◌, ◌⊎◌, inl, inr, true, [], ◌∷◌, ◌++◌,
  append_assoc, arith, Bool-cases, length, take, drop, length-take, length-drop, length-append,
  take-append, drop-append_exact, leb, ltb,
}
use thesis_software.Xvc.Shift.{bytes_for, le_bytes}
use thesis_software.Server.Sockets.{Bytes}
use thesis_software.Server.{le_word}
use thesis_software.Server.Cases.{request_cases}
use thesis_software.Server.Request.{
  Request, shifts, bytes, claim, front, claimed, named, read_request,
}

-- What a client writes for the three requests.
abbrev pub shift_text : ℕ → Bytes → Bytes → Bytes
shift_text v tms tdi = b's' ∷ b'h' ∷ b'i' ∷ b'f' ∷ b't' ∷ b':' ∷ (le_bytes 4 v ++ (tms ++ tdi))

le_word-le_bytes : (v : ℕ) → v < 2 ^ 32 → le_word (le_bytes 4 v) ≡ v
unfolding le_word le_bytes
le_word-le_bytes v h = omega (arith, h)

-- The lengths of the two parts of a shift, as the driver counts them.
abbrev pub Measured : Request → Type 0
Measured (shifts v tms tdi rest) =
    (length tms ≡ length tdi)
    × ((v ≤ 8192) × (length tms ≡ bytes_for v) ⊎ (2 ^ 32 - 14 ≤ v) × (length tms ≡ 0))
Measured _ = Unit {0}

claim_cases :
    (v n : ℕ) → claim v ≡ bytes n → ((v ≤ 8192) × (n ≡ (v + 7) / 8)) ⊎ ((2 ^ 32 - 14 ≤ v) × (n ≡ 0))
claim_cases v n e = elim (Bool-cases (ltb v 8193)) [
  | inl small ↦ inl (ground arith, ground arith)
  | inr big ↦ elim (Bool-cases (ltb v (2 ^ 32 - 14))) [
    | inl below ↦ absurd (ground arith)
    | inr high ↦ inr (ground arith, ground arith)
  ]
]

Measured-shifts :
    (v n : ℕ) (buffer rest : Bytes)
    → claim v ≡ bytes n
    → length buffer ≡ n * 2
    → Measured (shifts v (take n buffer) (drop n buffer) rest)
Measured-shifts v n buffer rest c size =
    let a : length (take n buffer) ≡ n = omega (arith, length-take n buffer) in
    let b : length (drop n buffer) ≡ n = omega (arith, length-drop n buffer) in
    (
      omega arith,
      elim (claim_cases v n c) [
        | inl (small, e) ↦ inl (small, omega arith)
        | inr (high, e) ↦ inr (high, omega arith)
      ],
    )

-- Every shift at the front of a stream.
pub Measured-request : (bs : Bytes) → Measured (read_request bs)
Measured-request bs =
    request_cases Measured bs tt tt (λ rest. tt) (λ p rest. tt)
      (λ v n buffer rest c size less. Measured-shifts v n buffer rest c size)

front-append :
    (n : ℕ) (a b : Bytes) (k : Bytes → Bytes → Request) → length a ≡ n → front n (a ++ b) k ≡ k a b
front-append n a b k e =
    let enough : leb n (length (a ++ b)) ≡ true = ground (arith, length-append a b) in
    rw (enough, ← e, take-append a b, drop-append_exact a b) refl

length-le_bytes : (v : ℕ) → length (le_bytes 4 v) ≡ 4
unfolding le_bytes
length-le_bytes v = refl

claimed_shift :
    (v n : ℕ) (tms tdi rest : Bytes)
    → length tms ≡ n
    → length tdi ≡ n
    → claimed v ((tms ++ tdi) ++ rest) (bytes n) ≡ shifts v tms tdi rest
claimed_shift v n tms tdi rest a b =
    let shift : Bytes → Bytes → Request =
      λ buffer rest. shifts v (take n buffer) (drop n buffer) rest in
    front-append (n * 2) (tms ++ tdi) rest shift (omega (arith, length-append tms tdi))
    ∙ rw (← a, take-append tms tdi, drop-append_exact tms tdi) refl

pub read_shift :
    (v n : ℕ) (tms tdi rest : Bytes)
    → v < 2 ^ 32
    → claim v ≡ bytes n
    → length tms ≡ n
    → length tdi ≡ n
    → read_request (shift_text v tms tdi ++ rest) ≡ shifts v tms tdi rest
unfolding read_request
read_shift v n tms tdi rest h c a b =
    let data_bytes = (tms ++ tdi) ++ rest in
    let behind = (le_bytes 4 v ++ (tms ++ tdi)) ++ rest in
    let after_len : Bytes → Bytes → Request =
      λ len bs. claimed (le_word len) bs (claim (le_word len)) in
    front-append 2 (b's' ∷ b'h' ∷ []) (b'i' ∷ b'f' ∷ b't' ∷ b':' ∷ behind) named refl
    ∙ front-append 4 (b'i' ∷ b'f' ∷ b't' ∷ b':' ∷ []) behind (λ _ bs. front 4 bs after_len) refl
    ∙ rw
        (
          append_assoc (le_bytes 4 v) (tms ++ tdi) rest,
          front-append 4 (le_bytes 4 v) data_bytes after_len (length-le_bytes v),
          le_word-le_bytes v h,
          c,
        )
        (claimed_shift v n tms tdi rest a b)

-- A client that asks to shift up to 8192 bits, with as many bytes of TMS and of TDI as these are, is
-- read as it meant: its length, its TMS and TDI bytes, and behind them what it writes next.
pub read_request-shift_text :
    (v : ℕ) (tms tdi rest : Bytes)
    → v ≤ 8192
    → length tms ≡ (v + 7) / 8
    → length tdi ≡ (v + 7) / 8
    → read_request (shift_text v tms tdi ++ rest) ≡ shifts v tms tdi rest
read_request-shift_text v tms tdi rest h a b =
    let c : claim v ≡ bytes ((v + 7) / 8) = ground arith in
    read_shift v ((v + 7) / 8) tms tdi rest (omega arith) c a b

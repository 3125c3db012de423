-- ===== src/Server/Request.antt =====
-- A command of `handle_data` as one request at the front of the client's stream.
use thesis_software.Base.{
  ℕ, ◌+◌, ◌-◌, ◌*◌, ◌/◌, ◌^◌, ◌<◌, ◌≡◌, Option, none, some, [], ◌∷◌, arith, length, take, drop, leb,
  ltb, if◌then◌else◌,
}
use thesis_software.Base.Int.{ℤ}
use thesis_software.Server.Sockets.{Bytes, shift_asked, Trace, Net, Act, done, fault}
use thesis_software.Server.{
  xvc_info, Served, returned, same_bytes, reply, le_word, plus_7, div_8, fitting_bytes, give_tdo,
}
use thesis_software.Server.Stream.{received}

-- A request with what follows it in the stream.
pub data Request : Type 0 where
  info : Bytes → Request
  period : Bytes → Bytes → Request
  shifts : ℕ → Bytes → Bytes → Bytes → Request
  rejected : Request
  overflows : Request

-- How many bytes of TMS a length stands for.
pub data Claim : Type 0 where
  bytes : ℕ → Claim
  too_many : Claim
  overflow : Claim

-- Up to 8192 bits fit. A negative length has no bytes down to -14, and fits no more below.
abbrev pub claim : ℕ → Claim
claim v =
    if ltb v 8193
    then bytes ((v + 7) / 8)
    else if ltb v (2 ^ 31 - 7)
    then too_many
    else if ltb v (2 ^ 31)
    then overflow
    else if ltb v (2 ^ 32 - 14)
    then too_many
    else bytes 0

-- A fixed number of bytes taken off the front, where they are there.
abbrev pub front : ℕ → Bytes → (Bytes → Bytes → Request) → Request
front n bs k = if leb n (length bs) then k (take n bs) (drop n bs) else rejected

abbrev pub claimed : ℕ → Bytes → Claim → Request
claimed v bs (bytes n) =
    front (n * 2) bs λ buffer rest. shifts v (take n buffer) (drop n buffer) rest
claimed v bs too_many = rejected
claimed v bs overflow = overflows

abbrev pub shift_request : Bytes → Request
shift_request bs =
    front 4 bs λ _ bs. front 4 bs λ len bs. claimed (le_word len) bs (claim (le_word len))

abbrev pub named : Bytes → Bytes → Request
named cmd bs =
    if same_bytes cmd (b'g' ∷ b'e' ∷ [])
    then front 6 bs (λ _ rest. info rest)
    else if same_bytes cmd (b's' ∷ b'e' ∷ [])
    then front 9 bs (λ text rest. period (take 4 (drop 5 text)) rest)
    else if same_bytes cmd (b's' ∷ b'h' ∷ [])
    then shift_request bs
    else rejected

-- The request at the front of a stream.
unfoldable pub read_request : Bytes → Request
read_request bs = front 2 bs named

-- The arithmetic of the code finds the bytes that a length claims.
unfoldable pub counted : ℤ → Claim
counted bits = elim (fitting_bytes (div_8 bits)) [ none ↦ too_many | some n ↦ bytes n ]

abbrev pub claim_of : Option ℤ → Claim
claim_of none = overflow
claim_of (some bits) = counted bits

pub claim_of-plus_7 : (v : ℕ) → v < 2 ^ 32 → claim_of (plus_7 v) ≡ claim v
unfolding plus_7 counted div_8 fitting_bytes
claim_of-plus_7 v h = ground arith

-- What the server does once it has read a request.
unfoldable pub perform : Net → ℕ → Request → Act Served
perform net fd (info rest) t = reply net fd xvc_info t
perform net fd (period p rest) t = reply net fd p t
perform net fd (shifts v tms tdi rest) t =
    give_tdo net fd (length tms) (net.shift t v tms tdi) (shift_asked v tms tdi ∷ t)
perform net fd rejected t = done (returned 1) t
perform net fd overflows t = fault t

-- What has been read once a request is.
abbrev pub Behind : ℕ → Bytes → Request → Trace → Type 0
Behind fd stream (info rest) t = drop (received fd t) stream ≡ rest
Behind fd stream (period p rest) t = drop (received fd t) stream ≡ rest
Behind fd stream (shifts v tms tdi rest) t = drop (received fd t) stream ≡ rest
Behind fd stream rejected t = Unit {0}
Behind fd stream overflows t = Unit {0}

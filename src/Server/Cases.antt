-- ===== src/Server/Cases.antt =====
-- What the request at the front of a stream can be.
use thesis_software.Base.{
  ℕ, ◌+◌, ◌*◌, ◌≤◌, ◌<◌, ◌≡◌, refl, inl, inr, [], ◌∷◌, arith, Bool-cases, length, take, drop,
  length-take, length-drop, leb,
}
use thesis_software.Server.Sockets.{Bytes}
use thesis_software.Server.{same_bytes, le_word}
use thesis_software.Server.Request.{
  Request, info, period, shifts, rejected, overflows, Claim, bytes, too_many, overflow, claim,
  front, claimed, shift_request, named, read_request,
}

module _ (P : Request → Type 0) (bad : P rejected) where
  front_cases :
      (n : ℕ) (bs : Bytes) (k : Bytes → Bytes → Request)
      → ((a b : Bytes) → length a ≡ n → length b + n ≤ length bs → P (k a b))
      → P (front n bs k)
  front_cases n bs k h = elim (Bool-cases (leb n (length bs))) [
    | inl enough ↦
        rw enough (h _ _ (ground (arith, length-take n bs)) (ground (arith, length-drop n bs)))
    | inr short ↦ rw short bad
  ]

  module _ (over : P overflows) (m : ℕ)
      (shift : (v n : ℕ) (buffer rest : Bytes)
        → claim v ≡ bytes n
        → length buffer ≡ n * 2
        → length rest < m
        → P (shifts v (take n buffer) (drop n buffer) rest)) where
    claimed_cases :
        (v : ℕ) (bs : Bytes) (c : Claim) → claim v ≡ c → length bs < m → P (claimed v bs c)
    claimed_cases v bs (bytes n) e h =
        front_cases (n * 2) bs (λ buffer rest. shifts v (take n buffer) (drop n buffer) rest)
          (λ a b size less. shift v n a b e size (omega (arith, h, less)))
    claimed_cases v bs too_many e h = bad
    claimed_cases v bs overflow e h = over

    shift_cases : (bs : Bytes) → length bs < m → P (shift_request bs)
    shift_cases bs h =
        front_cases 4 bs (λ _ b. front 4 b λ len c. claimed (le_word len) c (claim (le_word len)))
          (λ x y e f.
            front_cases 4 y (λ len c. claimed (le_word len) c (claim (le_word len)))
              (λ u w e' f'.
                claimed_cases (le_word u) w (claim (le_word u)) refl (omega (arith, h, f, f'))))

-- A property of the request at the front of a stream, from its cases.
pub request_cases :
    (P : Request → Type 0) (bs : Bytes)
    → P rejected
    → P overflows
    → ((rest : Bytes) → P (info rest))
    → ((p rest : Bytes) → P (period p rest))
    → ((v n : ℕ) (buffer rest : Bytes)
        → claim v ≡ bytes n
        → length buffer ≡ n * 2
        → length rest < length bs
        → P (shifts v (take n buffer) (drop n buffer) rest))
    → P (read_request bs)
unfolding read_request
request_cases P bs bad over on_info on_period on_shift =
    front_cases P bad 2 bs named λ cmd b size less.
      elim (Bool-cases (same_bytes cmd (b'g' ∷ b'e' ∷ []))) [
        | inl ge ↦ rw ge (front_cases P bad 6 b (λ _ rest. info rest) (λ x y e f. on_info y))
        | inr not_ge ↦ elim (Bool-cases (same_bytes cmd (b's' ∷ b'e' ∷ []))) [
          | inl se ↦
              rw (not_ge, se)
                (front_cases P bad 9 b (λ text rest. period (take 4 (drop 5 text)) rest)
                  (λ x y e f. on_period (take 4 (drop 5 x)) y))
          | inr not_se ↦ elim (Bool-cases (same_bytes cmd (b's' ∷ b'h' ∷ []))) [
            | inl sh ↦
                rw (not_ge, not_se, sh)
                  (shift_cases P bad over (length bs) on_shift b (omega (arith, less)))
            | inr not_sh ↦ rw (not_ge, not_se, not_sh) bad
          ]
        ]
      ]

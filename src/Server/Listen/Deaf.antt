-- ===== src/Server/Listen/Deaf.antt =====
-- The loop over the descriptors without the listening socket in its set.
use thesis_software.Base.{ℕ, suc, ◌≡◌, false, Option, none, some, [], ◌∷◌}
use thesis_software.Server.Sockets.{accepted, Trace, Outcome, done, fault}
use thesis_software.Server.Listen.{
  Conns, Visited, goes_on, breaks, unended, Serving, waits, left, stuck,
}

-- How often `accept` was called.
unfoldable pub accept_count : Trace → ℕ
accept_count [] = 0
accept_count (accepted s fd ∷ t) = suc (accept_count t)
accept_count (_ ∷ t) = accept_count t

-- The socket is not in the set, and `accept` was called so often.
abbrev pub Deaf : ℕ → ℕ → Conns → Trace → Type 0
Deaf s n c t = (c.conn s ≡ false) × (accept_count t ≡ n)

abbrev pub DeafVisited : ℕ → ℕ → Visited → Trace → Type 0
DeafVisited s n (goes_on c) t = Deaf s n c t
DeafVisited s n (breaks c) t = Deaf s n c t
DeafVisited s n unended t = accept_count t ≡ n

abbrev pub DeafScanned : ℕ → ℕ → Option Conns → Trace → Type 0
DeafScanned s n none t = accept_count t ≡ n
DeafScanned s n (some c) t = Deaf s n c t

abbrev pub DeafServing : ℕ → ℕ → Serving → Trace → Type 0
DeafServing s n (waits c) t = Deaf s n c t
DeafServing s n left t = accept_count t ≡ n
DeafServing s n stuck t = accept_count t ≡ n

abbrev pub Counted {ℓ} : {A : Type ℓ} → ℕ → (A → Trace → Type 0) → Outcome A → Type 0
Counted n P (done a t) = P a t
Counted n P (fault t) = accept_count t ≡ n

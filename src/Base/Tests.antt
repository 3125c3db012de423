-- ===== src/Base/Tests.antt =====
-- Boolean tests on the native numbers and the conditional, as the C code writes them.
use Prim.Native.Nat.{ℕ, zero, suc, ◌<◌, compare, Ordering}
use mathlib.Core.Path.{◌≡◌, refl}
use mathlib.Core.Logic.{◌↔◌, ◌⊎◌, inl, inr}
use mathlib.Core.Bool.{Bool, true, false}
use mathlib.Core.Option.{Option, none, some}
use native.Mathlib.Omega.{arith}

abbrev pub ltb : ℕ → ℕ → Bool
ltb a b = elim (compare a b) [ Ordering.lt ↦ true | _ ↦ false ]

abbrev pub leb : ℕ → ℕ → Bool
leb a b = elim (compare a b) [ Ordering.gt ↦ false | _ ↦ true ]

infix 50 ◌==◌
abbrev pub ◌==◌ : ℕ → ℕ → Bool
a == b = elim (compare a b) [ Ordering.eq ↦ true | _ ↦ false ]

infix 1 if◌then◌else◌
abbrev pub if◌then◌else◌ {ℓ} : {A : Type ℓ} → Bool → A → A → A
if true then x else y = x
if false then x else y = y

pub ltb→lt : (a b : ℕ) → ltb a b ≡ true → a < b
ltb→lt a b h = ground arith

pub lt→ltb : (a b : ℕ) → a < b → ltb a b ≡ true
lt→ltb a b h = ground arith

pub ==_iff : (a b : ℕ) → ((a == b) ≡ true) ↔ (a ≡ b)
==_iff a b = ground arith

pub Bool-cases : (b : Bool) → (b ≡ true) ⊎ (b ≡ false)
Bool-cases true = inl refl
Bool-cases false = inr refl

pub Option-cases {ℓ} : {A : Type ℓ} (o : Option A) → (o ≡ none) ⊎ ((a : A) × (o ≡ some a))
Option-cases none = inl refl
Option-cases (some a) = inr (a, refl)

-- A loop body's choice with a `Bool` at each value below a bound, checked by evaluation.
unfoldable pub all_below : ℕ → (ℕ → Bool) → Bool
all_below zero p = true
all_below (suc n) p = if p n then all_below n p else false

pub all_below-true : (n : ℕ) (p : ℕ → Bool) (x : ℕ) → all_below n p ≡ true → x < n → p x ≡ true
unfolding all_below
all_below-true zero p x h lt = absurd (omega arith)
all_below-true (suc n) p x h lt = ground (arith, all_below-true n p x)

abbrev pub is_some {ℓ} : {A : Type ℓ} → Option A → Bool
is_some (some a) = true
is_some none = false

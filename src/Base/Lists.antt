-- ===== src/Base/Lists.antt =====
-- Lists as C arrays: measured, indexed and cut by native numbers.
use Prim.Native.Nat.{ℕ, zero, suc, ◌+◌, ◌-◌, min}
use mathlib.Core.Path.{◌≡◌, refl, ap}
use mathlib.Core.List.{List, [], ◌∷◌, ◌++◌, map}
use mathlib.Core.Option.{Option, none, some}
use native.Mathlib.Nat.{zero-add, suc-add}
use native.Mathlib.Omega.{arith}

module _ {ℓ} {A : Type ℓ} where
  abbrev pub length : List A → ℕ
  length [] = 0
  length (x ∷ xs) = suc (length xs)

  abbrev pub get_elem? : List A → ℕ → Option A
  get_elem? [] i = none
  get_elem? (x ∷ xs) zero = some x
  get_elem? (x ∷ xs) (suc i) = get_elem? xs i

  abbrev pub get_or : List A → ℕ → A → A
  get_or [] i d = d
  get_or (x ∷ xs) zero d = x
  get_or (x ∷ xs) (suc i) d = get_or xs i d

  -- A write out of bounds changes nothing.
  abbrev pub set : List A → ℕ → A → List A
  set [] i v = []
  set (x ∷ xs) zero v = v ∷ xs
  set (x ∷ xs) (suc i) v = x ∷ set xs i v

  abbrev pub take : ℕ → List A → List A
  take zero xs = []
  take (suc n) [] = []
  take (suc n) (x ∷ xs) = x ∷ take n xs

  abbrev pub drop : ℕ → List A → List A
  drop zero xs = xs
  drop (suc n) [] = []
  drop (suc n) (x ∷ xs) = drop n xs

  abbrev pub replicate : ℕ → A → List A
  replicate zero a = []
  replicate (suc n) a = a ∷ replicate n a

module _ {ℓ} {A : Type ℓ} where
  pub length-append : (xs ys : List A) → length (xs ++ ys) ≡ length xs + length ys
  length-append [] ys = omega arith
  length-append (x ∷ xs) ys = omega (arith, length-append xs ys)

  pub take-append-drop : (n : ℕ) (xs : List A) → take n xs ++ drop n xs ≡ xs
  take-append-drop zero xs = refl
  take-append-drop (suc n) [] = refl
  take-append-drop (suc n) (x ∷ xs) = rw (take-append-drop n xs)

  pub length-take : (n : ℕ) (xs : List A) → length (take n xs) ≡ min n (length xs)
  length-take zero xs = omega arith
  length-take (suc n) [] = omega arith
  length-take (suc n) (x ∷ xs) = omega (arith, length-take n xs)

  pub length-drop : (n : ℕ) (xs : List A) → length (drop n xs) ≡ length xs - n
  length-drop zero xs = omega arith
  length-drop (suc n) [] = omega arith
  length-drop (suc n) (x ∷ xs) = omega (arith, length-drop n xs)

  pub length-replicate : (n : ℕ) (a : A) → length (replicate n a) ≡ n
  length-replicate zero a = refl
  length-replicate (suc n) a = ap suc (length-replicate n a)

  pub length-map {κ} : {B : Type κ} (xs : List A) (f : A → B) → length (map f xs) ≡ length xs
  length-map [] f = refl
  length-map (x ∷ xs) f = ap suc (length-map xs f)

  -- Reads and writes behind a prefix.
  pub get_or-append :
      (xs ys : List A) (i : ℕ) (d : A) → get_or (xs ++ ys) (length xs + i) d ≡ get_or ys i d
  get_or-append [] ys i d = rw zero-add
  get_or-append (x ∷ xs) ys i d = rw suc-add (get_or-append xs ys i d)

  pub set-append :
      (xs : List A) (y : A) (ys : List A) (v : A) → set (xs ++ y ∷ ys) (length xs) v ≡ xs ++ v ∷ ys
  set-append [] y ys v = refl
  set-append (x ∷ xs) y ys v = rw (set-append xs y ys v)

  pub take-append : (xs ys : List A) → take (length xs) (xs ++ ys) ≡ xs
  take-append [] ys = refl
  take-append (x ∷ xs) ys = rw (take-append xs ys)

  pub drop-append : (xs ys : List A) (n : ℕ) → drop (length xs + n) (xs ++ ys) ≡ drop n ys
  drop-append [] ys n = rw zero-add
  drop-append (x ∷ xs) ys n = rw suc-add (drop-append xs ys n)

  pub drop-append_exact : (xs ys : List A) → drop (length xs) (xs ++ ys) ≡ ys
  drop-append_exact [] ys = refl
  drop-append_exact (x ∷ xs) ys = drop-append_exact xs ys

-- ===== src/World/Resources.antt =====
-- How often a trace opens and closes a descriptor, and maps and unmaps an address.
use Prim.Native.String.{String}
use thesis_software.Base.{ℕ, ◌+◌, ◌≡◌, Option, none, some, [], ◌∷◌, arith, ◌==◌, if◌then◌else◌}
use thesis_software.World.{opened, closed, mapped, unmapped, Trace}

-- 1 where two numbers are the same.
pub one_if : ℕ → ℕ → ℕ
one_if a b = if a == b then 1 else 0

-- How often a descriptor was opened and closed, and an address mapped and unmapped.
unfoldable pub opens : ℕ → Trace → ℕ
opens a [] = 0
opens a (opened path (some fd) ∷ t) = opens a t + one_if fd a
opens a (_ ∷ t) = opens a t

unfoldable pub closes : ℕ → Trace → ℕ
closes a [] = 0
closes a (closed fd ∷ t) = closes a t + one_if fd a
closes a (_ ∷ t) = closes a t

unfoldable pub maps : ℕ → Trace → ℕ
maps a [] = 0
maps a (mapped fd len (some p) ∷ t) = maps a t + one_if p a
maps a (_ ∷ t) = maps a t

unfoldable pub unmaps : ℕ → Trace → ℕ
unmaps a [] = 0
unmaps a (unmapped p len ∷ t) = unmaps a t + one_if p a
unmaps a (_ ∷ t) = unmaps a t

-- Counted from `t0` on, the number is open `o` times and mapped `m` times more.
pub record Holds (a : ℕ) (t0 : Trace) (o m : ℕ) (t : Trace) : Type 0 where
  pub opened_so : opens a t + closes a t0 ≡ opens a t0 + closes a t + o
  pub mapped_so : maps a t + unmaps a t0 ≡ maps a t0 + unmaps a t + m

abbrev pub answered : Option ℕ → ℕ → ℕ
answered none a = 0
answered (some x) a = one_if x a

pub Holds-same : (a : ℕ) (t : Trace) → Holds a t 0 0 t
Holds-same a t = record { opened_so = omega arith; mapped_so = omega arith }

pub Holds-opened :
    (a : ℕ) (t0 : Trace) (o m : ℕ) (t : Trace) (path : String) (fd : Option ℕ)
    → Holds a t0 o m t
    → Holds a t0 (o + answered fd a) m (opened path fd ∷ t)
unfolding opens closes maps unmaps
Holds-opened a t0 o m t path none h = record {
  opened_so = omega (arith, h.opened_so);
  mapped_so = h.mapped_so;
}
Holds-opened a t0 o m t path (some fd) h = record {
  opened_so = omega (arith, h.opened_so);
  mapped_so = h.mapped_so;
}

pub Holds-mapped :
    (a : ℕ) (t0 : Trace) (o m : ℕ) (t : Trace) (fd len : ℕ) (p : Option ℕ)
    → Holds a t0 o m t
    → Holds a t0 o (m + answered p a) (mapped fd len p ∷ t)
unfolding opens closes maps unmaps
Holds-mapped a t0 o m t fd len none h = record {
  opened_so = h.opened_so;
  mapped_so = omega (arith, h.mapped_so);
}
Holds-mapped a t0 o m t fd len (some p) h = record {
  opened_so = h.opened_so;
  mapped_so = omega (arith, h.mapped_so);
}

pub Holds-closed :
    (a : ℕ) (t0 : Trace) (o m : ℕ) (t : Trace) (fd : ℕ)
    → Holds a t0 (o + one_if fd a) m t
    → Holds a t0 o m (closed fd ∷ t)
unfolding opens closes maps unmaps
Holds-closed a t0 o m t fd h = record {
  opened_so = omega (arith, h.opened_so);
  mapped_so = h.mapped_so;
}

-- ===== src/Xvc/Template/Held.antt =====
-- What a device of the template's driver holds behind its probe.
use thesis_software.Base.{
  ℕ, zero, suc, ◌≡◌, refl, Bool, true, false, Option, none, some, [], ◌∷◌, ◌==◌, ◌&&◌,
  if◌then◌else◌, arith,
}
use thesis_software.Base.Int.{ℤ, pos, minus}
use thesis_software.Xvc.Template.{
  XvcDriverLocal, memory_taken, memory_freed, region_taken, region_left, mapped, unmapped,
  irq_taken, irq_freed, Trace, Platform, Probe, region_size, error1, error2, error3, with_irq,
  with_interrupt, with_mapping, with_region, with_local, with_memory, xvc_driver_probe,
}

-- What is held: the structure's memory, the region by its start and size, the mapping by its address and
-- the interrupt by its number; and how often something was given back that was not held.
pub record Held : Type 0 where
  pub memory : Bool
  pub region : Option (ℕ × ℕ)
  pub mapping : Option ℕ
  pub irq : Option ℕ
  pub misuses : ℕ

abbrev pub nothing : Held
nothing = record { memory = false; region = none; mapping = none; irq = none; misuses = 0 }

abbrev misused : Held → Held
misused h = record h { misuses = suc h.misuses }

abbrev same_number : Option ℕ → ℕ → Bool
same_number none n = false
same_number (some m) n = m == n

abbrev same_region : Option (ℕ × ℕ) → ℕ → ℕ → Bool
same_region none start size = false
same_region (some r) start size = (r.0 == start) && (r.1 == size)

abbrev unmapped_from : Held → Option ℕ → Held
unmapped_from h none = misused h
unmapped_from h (some base) =
    if same_number h.mapping base then record h { mapping = none } else misused h

unfoldable pub held : Trace → Held
held [] = nothing
held (memory_taken true ∷ t) = record (held t) { memory = true }
held (memory_freed ∷ t) =
    let h = held t in if h.memory then record h { memory = false } else misused h
held (region_taken start size true ∷ t) = record (held t) { region = some (start, size) }
held (region_left start size ∷ t) =
    let h = held t in
    if same_region h.region start size then record h { region = none } else misused h
held (mapped start size (some base) ∷ t) = record (held t) { mapping = some base }
held (unmapped base ∷ t) = unmapped_from (held t) base
held (irq_taken n zero ∷ t) = record (held t) { irq = some n }
held (irq_freed n ∷ t) =
    let h = held t in if same_number h.irq n then record h { irq = none } else misused h
held (_ ∷ t) = held t

-- All that a probe asks for, with the interrupt or without.
abbrev pub all_of : XvcDriverLocal → Option ℕ → Held
all_of lp irq = record {
  memory = true;
  region = some (lp.mem_start, region_size lp);
  mapping = lp.base_addr;
  irq = irq;
  misuses = 0;
}

-- A mapping that nobody takes back, behind an interrupt that was given back without being held.
abbrev pub leaking : ℕ → Held
leaking base = record nothing { mapping = some base; misuses = 1 }

-- What a probe returns, the driver's data, and what is held.
pub data Probed (p : Platform) (rc : ℤ) (drvdata : Option XvcDriverLocal) (h : Held) : Type 0 where
  -- refused before the interrupt
  failed : (e : ℕ) → rc ≡ minus (suc e) → drvdata ≡ none → h ≡ nothing → Probed p rc drvdata h
  -- the interrupt refused
  refused :
      (n e base : ℕ)
      → p.interrupt ≡ some n
      → p.request_irq n ≡ suc e
      → rc ≡ minus (suc e)
      → drvdata ≡ none
      → h ≡ leaking base
      → Probed p rc drvdata h
  -- no interrupt
  polled :
      (lp : XvcDriverLocal)
      → p.interrupt ≡ none
      → rc ≡ pos 0
      → drvdata ≡ some lp
      → h ≡ all_of lp none
      → Probed p rc drvdata h
  bound :
      (lp : XvcDriverLocal)
      → p.interrupt ≡ some lp.irq
      → p.request_irq lp.irq ≡ 0
      → rc ≡ pos 0
      → drvdata ≡ some lp
      → h ≡ all_of lp (some lp.irq)
      → Probed p rc drvdata h

abbrev Behind : Platform → Probe × Trace → Type 0
Behind p (r, t) = Probed p r.0 r.1 (held t)

pub same_self : (n : ℕ) → (n == n) ≡ true
same_self n = ground arith

module _ (p : Platform) (lp : XvcDriverLocal) (base : ℕ) where
  -- The structure, the region and the mapping are there.
  with_irq-Probed :
      (n status : ℕ) (t : Trace)
      → held t ≡ all_of (record lp { base_addr = some base }) none
      → p.interrupt ≡ some n
      → p.request_irq n ≡ status
      → Behind p
          (with_irq (record lp { irq = n; base_addr = some base }) status (irq_taken n status ∷ t))
  unfolding with_irq error3 error2 error1 held
  with_irq-Probed n zero t h has given =
      bound (record lp { irq = n; base_addr = some base }) has given refl refl (rw h refl)
  with_irq-Probed n (suc e) t h has given =
      refused n e base has given refl refl
        (rw (h, same_self lp.mem_start, same_self (region_size lp)) refl)

  with_interrupt-Probed :
      (irq : Option ℕ) (t : Trace)
      → held t ≡ all_of (record lp { base_addr = some base }) none
      → p.interrupt ≡ irq
      → Behind p (with_interrupt p (record lp { base_addr = some base }) irq t)
  unfolding with_interrupt
  with_interrupt-Probed none t h has = polled (record lp { base_addr = some base }) has refl refl h
  with_interrupt-Probed (some n) t h has = with_irq-Probed n (p.request_irq n) t h has refl

module _ (p : Platform) (lp : XvcDriverLocal) where
  with_mapping-Probed :
      (base : Option ℕ) (t : Trace)
      → held t ≡ record (all_of lp none) { mapping = none }
      → Behind p (with_mapping p lp base (mapped lp.mem_start (region_size lp) base ∷ t))
  unfolding with_mapping error2 error1 held
  with_mapping-Probed none t h =
      failed 4 refl refl (rw (h, same_self lp.mem_start, same_self (region_size lp)) refl)
  with_mapping-Probed (some base) t h =
      with_interrupt-Probed p lp base p.interrupt _ (rw h refl) refl

  with_region-Probed :
      (given : Bool) (t : Trace)
      → held t ≡ record nothing { memory = true }
      → Behind p (with_region p lp given (region_taken lp.mem_start (region_size lp) given ∷ t))
  unfolding with_region error1 held
  with_region-Probed false t h = failed 15 refl refl (rw h refl)
  with_region-Probed true t h =
      with_mapping-Probed (p.ioremap lp.mem_start (region_size lp)) _ (rw h refl)

with_local-Probed :
    (p : Platform) (r : ℕ × ℕ) (lp : Option XvcDriverLocal) → Behind p (with_local p r lp [])
unfolding with_local held
with_local-Probed p r none = failed 11 refl refl refl
with_local-Probed p (start, end) (some junk) =
    let lp = record junk { mem_start = start; mem_end = end } in
    with_region-Probed p lp (p.request_mem_region start (region_size lp)) _ refl

with_memory-Probed : (p : Platform) (r : Option (ℕ × ℕ)) → Behind p (with_memory p r [])
unfolding with_memory held
with_memory-Probed p none = failed 18 refl refl refl
with_memory-Probed p (some r) = with_local-Probed p r p.kmalloc

-- A probe of the template ends in one of four ways: it fails before the interrupt, with nothing held
-- and no data; the request of the interrupt fails, and an interrupt has been given back that was not
-- held, and the mapping is still there; it succeeds without an interrupt where the device has none; or
-- it succeeds with the interrupt of the device. Where it succeeds, what is held is what the driver's data
-- names.
pub xvc_driver_probe-Probed :
    (p : Platform)
    → Probed p
        (xvc_driver_probe p []).0.0
        (xvc_driver_probe p []).0.1
        (held (xvc_driver_probe p []).1)
unfolding xvc_driver_probe
xvc_driver_probe-Probed p = with_memory-Probed p p.memory

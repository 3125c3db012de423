-- ===== src/Xvc/Template/Life.antt =====
-- What is left of a device of the template's driver that was bound and unbound.
use thesis_software.Base.{ℕ, zero, suc, ◌≡◌, refl, true, Option, none, some, [], ◌∷◌}
use thesis_software.Xvc.Template.{
  XvcDriverLocal, irq_taken, Trace, Platform, ◌>>=◌, region_size, error1, error2, error3, with_irq,
  with_interrupt, with_mapping, with_region, with_local, with_memory, xvc_driver_probe,
  xvc_driver_remove, after_probe, device_life,
}
use thesis_software.Xvc.Template.Held.{Held, nothing, all_of, leaking, held, same_self}

-- The platform grants the memory, the region and the mapping.
pub record Mapped (p : Platform) (start end base : ℕ) (junk : XvcDriverLocal) : Type 0 where
  pub described : p.memory ≡ some (start, end)
  pub allocated : p.kmalloc ≡ some junk
  pub granted :
      p.request_mem_region start (region_size (record junk { mem_start = start; mem_end = end }))
      ≡ true
  pub remapped :
      p.ioremap start (region_size (record junk { mem_start = start; mem_end = end })) ≡ some base

-- What is left of a device whose memory is mapped, by the status of its interrupt.
abbrev pub left_over : ℕ → Option ℕ → Held
left_over base none = record nothing { misuses = 1 }
left_over base (some zero) = nothing
left_over base (some (suc e)) = leaking base

abbrev pub irq_status : Platform → Option ℕ → Option ℕ
irq_status p none = none
irq_status p (some n) = some (p.request_irq n)

with_irq-left_over :
    (lp : XvcDriverLocal) (base n status : ℕ) (t : Trace)
    → held t ≡ all_of lp none
    → lp.base_addr ≡ some base
    → lp.irq ≡ n
    → held ((with_irq lp status >>= after_probe) (irq_taken n status ∷ t)).1
      ≡ left_over base (some status)
unfolding with_irq error3 error2 error1 after_probe xvc_driver_remove held
with_irq-left_over lp base n zero t h b i =
    rw (h, b, i, same_self n, same_self base, same_self lp.mem_start, same_self (region_size lp))
      refl
with_irq-left_over lp base n (suc e) t h b i =
    rw (h, b, same_self lp.mem_start, same_self (region_size lp)) refl

with_interrupt-left_over :
    (p : Platform) (lp : XvcDriverLocal) (base : ℕ) (irq : Option ℕ) (t : Trace)
    → held t ≡ all_of lp none
    → lp.base_addr ≡ some base
    → held ((with_interrupt p lp irq >>= after_probe) t).1 ≡ left_over base (irq_status p irq)
unfolding with_interrupt after_probe xvc_driver_remove held
with_interrupt-left_over p lp base none t h b =
    rw (h, b, same_self base, same_self lp.mem_start, same_self (region_size lp)) refl
with_interrupt-left_over p lp base (some n) t h b =
    with_irq-left_over (record lp { irq = n }) base n (p.request_irq n) t h b refl

-- Where the memory of a device is granted and mapped, its binding and unbinding takes back all that it took
-- exactly where an interrupt is granted: without an interrupt, `remove` gives one back that was never
-- requested; and where the request is refused, `probe` does so, and the mapping is never undone.
pub device_life-left_over :
    (p : Platform) (start end base : ℕ) (junk : XvcDriverLocal)
    → Mapped p start end base junk
    → held (device_life p []).1 ≡ left_over base (irq_status p p.interrupt)
unfolding device_life xvc_driver_probe with_memory with_local with_region with_mapping held
device_life-left_over p start end base junk m =
    let lp : XvcDriverLocal = record junk {
      mem_start = start;
      mem_end = end;
      base_addr = some base;
    } in
    rw (m.described, m.allocated, m.granted, m.remapped)
      (with_interrupt-left_over _ lp base p.interrupt _ refl refl)

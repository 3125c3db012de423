-- ===== src/Server/Listen/Kept.antt =====
-- `handle_data` opens and closes nothing, and uses open descriptors only.
use thesis_software.Base.{ℕ, ◌≡◌, refl, ◌∙◌, true}
use thesis_software.Server.Sockets.{Trace, Net, Outcome, done, fault}
use thesis_software.Server.{handle_data}
use thesis_software.Server.Listen.Opened.{is_open, device_of, DeviceOpen, UsesOpen}
use thesis_software.Server.Listen.Calm.{
  Emits, silent, reads_some, reads_end, writes, asks, Emitted, handle_data-Calm,
}

-- The same descriptors are open, and only open ones were used.
pub record Keeps (t t' : Trace) : Type 0 where
  pub same : (x : ℕ) → is_open t' x ≡ is_open t x
  pub device : device_of t' ≡ device_of t
  pub uses : UsesOpen t'

abbrev pub Kept {ℓ} : {A : Type ℓ} → Trace → Outcome A → Type 0
Kept t (done a t') = Keeps t t'
Kept t (fault t') = Keeps t t'

DeviceOpen-Keeps : {t u : Trace} → Keeps t u → DeviceOpen t → DeviceOpen u
DeviceOpen-Keeps k (dev, a, b) = (dev, k.device ∙ a, k.same dev ∙ b)

Emits-Keeps :
    {fd : ℕ} {t t' : Trace}
    → is_open t fd ≡ true
    → DeviceOpen t
    → UsesOpen t
    → Emits fd t t'
    → Keeps t t'
unfolding is_open device_of UsesOpen
Emits-Keeps h d u silent = record { same = λ x. refl; device = refl; uses = u }
Emits-Keeps {fd = fd} h d u (reads_some bs e) =
    let k = Emits-Keeps h d u e in
    record { same = k.same; device = k.device; uses = (k.same fd ∙ h, k.uses) }
Emits-Keeps {fd = fd} h d u (reads_end e) =
    let k = Emits-Keeps h d u e in
    record { same = k.same; device = k.device; uses = (k.same fd ∙ h, k.uses) }
Emits-Keeps {fd = fd} h d u (writes bs all e) =
    let k = Emits-Keeps h d u e in
    record { same = k.same; device = k.device; uses = (k.same fd ∙ h, k.uses) }
Emits-Keeps h d u (asks v tms tdi e) =
    let k = Emits-Keeps h d u e in
    record { same = k.same; device = k.device; uses = (DeviceOpen-Keeps k d, k.uses) }

Emitted-Kept {ℓ} :
    {A : Type ℓ} (fd : ℕ) (t : Trace) (r : Outcome A)
    → is_open t fd ≡ true
    → DeviceOpen t
    → UsesOpen t
    → Emitted fd t r
    → Kept t r
Emitted-Kept fd t (done a t') h d u e = Emits-Keeps h d u e
Emitted-Kept fd t (fault t') h d u e = Emits-Keeps h d u e

pub handle_data-Kept :
    (net : Net) (fd commands : ℕ) (t : Trace)
    → is_open t fd ≡ true
    → DeviceOpen t
    → UsesOpen t
    → Kept t (handle_data net fd commands t)
handle_data-Kept net fd commands t h d u =
    Emitted-Kept fd t (handle_data net fd commands t) h d u (handle_data-Calm net fd commands t)

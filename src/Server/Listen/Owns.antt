-- ===== src/Server/Listen/Owns.antt =====
-- What the loop over the descriptors keeps: the set holds open descriptors, and not the device.
use thesis_software.Base.{
  ℕ, suc, ◌≤◌, ◌<◌, ◌≡◌, refl, sym, ap, ◌∙◌, inl, inr, Bool, true, false, Option, none, some, ◌∷◌,
  ltb, ◌==◌, if◌then◌else◌, ◌&&◌, arith, Bool-cases,
}
use thesis_software.Server.Sockets.{accepted, Trace, Net, Outcome, done, fault, Act}
use thesis_software.Server.Listen.{
  fd_setsize, Conns, take_connection, close_connection, Visited, goes_on, breaks, unended, Serving,
  waits, left, stuck,
}
use thesis_software.Server.Listen.Opened.{is_open, device_of, UsesOpen}
use thesis_software.Server.Listen.Kept.{Keeps}

-- `accept` gives a descriptor that is not in use.
abbrev pub AcceptsFresh : Net → Type 0
AcceptsFresh net = (t : Trace) (s n : ℕ) → net.accepts t s ≡ some n → is_open t n ≡ false

pub record Owns (dev : ℕ) (c : Conns) (t : Trace) : Type 0 where
  pub owned : (x : ℕ) → c.conn x ≡ true → is_open t x ≡ true
  pub low : (x : ℕ) → c.conn x ≡ true → x ≤ c.maxfd
  pub in_set : c.maxfd < fd_setsize
  pub device : is_open t dev ≡ true
  pub opened_last : device_of t ≡ some dev
  pub apart : c.conn dev ≡ false
  pub uses : UsesOpen t

-- A result with its trace; a fault comes behind uses of open descriptors too.
abbrev pub Leads {ℓ} : {A : Type ℓ} → (A → Trace → Type 0) → Outcome A → Type 0
Leads P (done a t) = P a t
Leads P (fault t) = UsesOpen t

pub bind-Leads {ℓ κ} :
    {A : Type ℓ} {B : Type κ} (P : A → Trace → Type 0) (Q : B → Trace → Type 0) (f : A → Act B)
    (r : Outcome A)
    → Leads P r
    → ((a : A) (t : Trace) → P a t → Leads Q (f a t))
    → Leads Q (elim r [ done a t ↦ f a t | fault t ↦ fault t ])
bind-Leads P Q f (done a t) p h = h a t p
bind-Leads P Q f (fault t) p h = p

-- The descriptors from `fd` on that were in the set at the round's start still are.
abbrev pub Pending : (ℕ → Bool) → ℕ → Conns → Type 0
Pending old fd c = (x : ℕ) → fd ≤ x → old x ≡ true → c.conn x ≡ true

abbrev pub Turned : ℕ → (ℕ → Bool) → ℕ → Visited → Trace → Type 0
Turned dev old fd (goes_on c) t = Owns dev c t × Pending old (suc fd) c
Turned dev old fd (breaks c) t = Owns dev c t
Turned dev old fd unended t = UsesOpen t

abbrev pub Scanned : ℕ → Option Conns → Trace → Type 0
Scanned dev none t = UsesOpen t
Scanned dev (some c) t = Owns dev c t

abbrev pub StillOwns : ℕ → Serving → Trace → Type 0
StillOwns dev (waits c) t = Owns dev c t
StillOwns dev left t = (is_open t dev ≡ true) × UsesOpen t
StillOwns dev stuck t = UsesOpen t

pub and_true : (a b : Bool) → (a && b) ≡ true → a ≡ true
and_true true b h = refl
and_true false b h = h

pub Owns-Keeps : {dev : ℕ} {c : Conns} {t t' : Trace} → Owns dev c t → Keeps t t' → Owns dev c t'
Owns-Keeps {dev = dev} o k = record {
  owned = λ x h. k.same x ∙ o.owned x h;
  low = o.low;
  in_set = o.in_set;
  device = k.same dev ∙ o.device;
  opened_last = k.device ∙ o.opened_last;
  apart = o.apart;
  uses = k.uses;
}

differs : (f : ℕ → Bool) (a b : ℕ) → f a ≡ false → f b ≡ true → (a == b) ≡ false
differs f a b p q = elim (Bool-cases (a == b)) [
  | inl same ↦
      let e : a ≡ b = ground arith in
      let both : true ≡ false = sym q ∙ (ap f (sym e) ∙ p) in ground arith
  | inr other ↦ other
]

kept_in : (b x : Bool) → (if b then false else x) ≡ true → (b ≡ false) × (x ≡ true)
kept_in true x h = ground arith
kept_in false x h = (refl, h)

module _ (dev : ℕ) (old : ℕ → Bool) (fd : ℕ) (c : Conns) where
  pub Pending-suc : Pending old fd c → Pending old (suc fd) c
  Pending-suc p x h e = p x (omega (arith, h)) e

  pub close_connection-Owns :
      (t : Trace)
      → Owns dev c t
      → Pending old fd c
      → c.conn fd ≡ true
      → Leads (λ c' t'. Owns dev c' t' × Pending old (suc fd) c') (close_connection fd c t)
  unfolding close_connection is_open device_of UsesOpen
  close_connection-Owns t o p h =
      let other : (dev == fd) ≡ false = differs c.conn dev fd o.apart h in
      (
        record {
          owned = λ x e.
              rw ((kept_in (x == fd) (c.conn x) e).0)
                (o.owned x (kept_in (x == fd) (c.conn x) e).1);
          low = λ x e. o.low x (kept_in (x == fd) (c.conn x) e).1;
          in_set = o.in_set;
          device = rw other o.device;
          opened_last = o.opened_last;
          apart = rw other o.apart;
          uses = (o.owned fd h, o.uses);
        },
        λ x le e. let later : (x == fd) ≡ false = ground arith in rw later (Pending-suc p x le e),
      )

  pub take_connection-Owns :
      (s : ℕ) (newfd : Option ℕ) (t : Trace)
      → Owns dev c t
      → Pending old fd c
      → is_open t s ≡ true
      → ((n : ℕ) → newfd ≡ some n → is_open t n ≡ false)
      → Leads
          (λ c' t'. Owns dev c' t' × Pending old (suc fd) c')
          (take_connection c newfd (accepted s newfd ∷ t))
  unfolding take_connection is_open device_of UsesOpen
  take_connection-Owns s none t o p h fresh = (
    record {
      owned = o.owned;
      low = o.low;
      in_set = o.in_set;
      device = o.device;
      opened_last = o.opened_last;
      apart = o.apart;
      uses = (h, o.uses);
    },
    Pending-suc p,
  )
  take_connection-Owns s (some n) t o p h fresh =
      let apart_from : (n == dev) ≡ false = differs (is_open t) n dev (fresh n refl) o.device in
      let other : (dev == n) ≡ false = ground arith in
      elim (Bool-cases (ltb n fd_setsize)) [
        | inl fits ↦ rw fits (
          record {
            owned = λ x e. ground (arith, o.owned x);
            low = λ x e. ground (arith, o.low x);
            in_set = ground arith;
            device = rw other o.device;
            opened_last = o.opened_last;
            apart = rw other o.apart;
            uses = (ground arith, (h, o.uses));
          },
          λ x le e. ground (arith, Pending-suc p x le e),
        )
        | inr beyond ↦ rw beyond (ground arith, (h, o.uses))
      ]

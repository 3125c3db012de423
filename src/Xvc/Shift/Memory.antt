-- ===== src/Xvc/Shift/Memory.antt =====
-- The temporary buffers that a trace leaves allocated; the shift itself allocates and frees none.
use thesis_software.Base.{
  ℕ, zero, suc, ◌+◌, ◌-◌, ◌/◌, ◌^◌, ◌≡◌, refl, subst, ◌∙◌, ◌⊎◌, inl, inr, Bool, true, false, [],
  ◌∷◌, ltb, leb, if◌then◌else◌, Bool-cases, length, Option, none, some,
}
use thesis_software.Base.Int.{ℤ, is_nonzero}
use thesis_software.Xvc.Kernel.{
  Bytes, Buffer, tms_temp, tdi_temp, tdo_temp, allocated, freed, Trace, Kernel, Outcome, done,
  fault, Act, ◌>>=◌, pure, read_at, write_at,
}
use thesis_software.Xvc.Shift.{
  Shifted, xil_xvc_shift_bits, Progress, set_short_length, add_int, transfer, shift_loop, le_value,
  le_bytes,
}
use thesis_software.Xvc.Shift.Word.{polled, enabled, WordEnds, xil_xvc_shift_bits-WordRun}

-- Which buffers are allocated.
pub record Held : Type 0 where
  pub tms : Bool
  pub tdi : Bool
  pub tdo : Bool

abbrev pub nothing_held : Held
nothing_held = record { tms = false; tdi = false; tdo = false }

-- `none` is a misuse: a buffer allocated twice, or freed while it is not allocated.
abbrev allocate : Buffer → Held → Option Held
allocate tms_temp h = if h.tms then none else some (record h { tms = true })
allocate tdi_temp h = if h.tdi then none else some (record h { tdi = true })
allocate tdo_temp h = if h.tdo then none else some (record h { tdo = true })

abbrev free : Buffer → Held → Option Held
free tms_temp h = if h.tms then some (record h { tms = false }) else none
free tdi_temp h = if h.tdi then some (record h { tdi = false }) else none
free tdo_temp h = if h.tdo then some (record h { tdo = false }) else none

abbrev then_held : Option Held → (Held → Option Held) → Option Held
then_held none f = none
then_held (some h) f = f h

-- The buffers that a trace leaves allocated.
unfoldable pub memory : Trace → Option Held
memory [] = some nothing_held
memory (allocated b n ∷ t) = then_held (memory t) (allocate b)
memory (freed b ∷ t) = then_held (memory t) (free b)
memory (_ ∷ t) = memory t

-- The action faults, or ends with the buffers `m` allocated.
abbrev pub Leaves {ℓ} : {A : Type ℓ} → Option Held → Outcome A → Type 0
Leaves m (done a t) = memory t ≡ m
Leaves m (fault t) = Unit {0}

polled-memory : (k : Kernel) (n : ℕ) (t : Trace) → memory (polled k n t) ≡ memory t
polled-memory k zero t = refl
polled-memory k (suc n) t = polled-memory k n _ ∙ unfold memory in refl

WordEnds-memory :
    (k : Kernel) (tms tdi old : ℕ) (t : Trace) (polls : ℕ) (r : Outcome Shifted)
    → WordEnds k tms tdi old t polls r
    → Leaves (memory t) r
unfolding memory
WordEnds-memory k tms tdi old t polls r (inl (lt, idle, e)) =
    rw e (polled-memory k (suc polls) (enabled k tms tdi t))
WordEnds-memory k tms tdi old t polls r (inr (eq, e)) =
    rw e (polled-memory k polls (enabled k tms tdi t))

shift_bits-memory :
    (k : Kernel) (tms tdi old : ℕ) (t : Trace)
    → Leaves (memory t) (xil_xvc_shift_bits k tms tdi old t)
shift_bits-memory k tms tdi old t =
    let run = xil_xvc_shift_bits-WordRun k tms tdi old t in
    WordEnds-memory k tms tdi old t run.polls _ run.ends

read_at-memory : (buf : Bytes) (off n : ℕ) (t : Trace) → Leaves (memory t) (read_at buf off n t)
unfolding read_at
read_at-memory buf off n t = elim (Bool-cases (leb (off + n) (length buf))) [
  | inl ok ↦ rw ok refl
  | inr out ↦ rw out tt
]

write_at-memory :
    (buf : Bytes) (off : ℕ) (bs : Bytes) (t : Trace) → Leaves (memory t) (write_at buf off bs t)
unfolding write_at
write_at-memory buf off bs t = elim (Bool-cases (leb (off + length bs) (length buf))) [
  | inl ok ↦ rw ok refl
  | inr out ↦ rw out tt
]

add_int-memory : (a b : ℕ) (t : Trace) → Leaves (memory t) (add_int a b t)
unfolding add_int
add_int-memory a b t = elim (Bool-cases (ltb (a + b) (2 ^ 31))) [
  | inl ok ↦ rw ok refl
  | inr out ↦ rw out tt
]

Leaves-cases :
    {A : Type 0} (m : Option Held) (r : Outcome A)
    → Leaves m r
    → ((a : A) × (t : Trace) × (r ≡ done a t) × (memory t ≡ m)) ⊎ ((t : Trace) × (r ≡ fault t))
Leaves-cases m (done a t) h = inl (a, t, refl, h)
Leaves-cases m (fault t) h = inr (t, refl)

-- The rest of an action, from what its first part leaves.
Leaves-bind :
    {A B : Type 0} (t : Trace) (r : Outcome A) (f : A → Act B)
    → Leaves (memory t) r
    → ((a : A) (t' : Trace) → Leaves (memory t') (f a t'))
    → Leaves (memory t) (elim r [ done a t' ↦ f a t' | fault t' ↦ fault t' ])
Leaves-bind t (done a t') f h k = subst (λ m. Leaves m (f a t')) h (k a t')
Leaves-bind t (fault t') f h k = tt

stored_memory :
    (buf : Bytes) (off : ℕ) (bs : Bytes) (status : ℤ) (t : Trace)
    → Leaves
        (memory t)
        ((write_at buf off bs >>= λ o. pure {A = Progress} (record { status = status; tdo = o })) t)
stored_memory buf off bs status t =
    Leaves-bind {B = Progress} t (write_at buf off bs t) _ (write_at-memory buf off bs t)
      (λ o t'. refl)

transfer-memory :
    (k : Kernel) (off n : ℕ) (tms tdi tdo : Bytes) (t : Trace)
    → Leaves (memory t) (transfer k off n tms tdi tdo t)
unfolding transfer
transfer-memory k off n tms tdi tdo t =
    Leaves-bind {B = Progress} t (read_at tms off n t) _ (read_at-memory tms off n t) λ a t1.
      Leaves-bind {B = Progress} t1 (read_at tdi off n t1) _ (read_at-memory tdi off n t1) λ b t2.
        Leaves-bind {B = Progress} t2 (xil_xvc_shift_bits k (le_value a) (le_value b) 0 t2) _
          (shift_bits-memory k (le_value a) (le_value b) 0 t2)
          λ s t3. elim (Bool-cases (is_nonzero s.status)) [
            | inl failed ↦ rw failed refl
            | inr ok ↦ rw ok (stored_memory tdo off (le_bytes n s.tdo_bits) s.status t3)
          ]

set_short_length-memory : (left : ℕ) (t : Trace) → Leaves (memory t) (set_short_length left t)
unfolding set_short_length memory
set_short_length-memory left t = elim (Bool-cases (ltb left 32)) [
  | inl short ↦ rw short refl
  | inr whole ↦ rw whole refl
]

pub shift_loop-memory :
    (k : Kernel) (rounds num_bits : ℕ) (tms tdi : Bytes) (bit : ℕ) (tdo : Bytes) (t : Trace)
    → Leaves (memory t) (shift_loop k rounds num_bits tms tdi bit tdo t)
unfolding shift_loop
shift_loop-memory k zero num_bits tms tdi bit tdo t = tt
shift_loop-memory k (suc rounds) num_bits tms tdi bit tdo t =
    let left = num_bits - bit in
    let sb = if ltb left 32 then left else 32 in
    elim (Bool-cases (ltb bit num_bits)) [
      | inl more ↦ rw more (
          Leaves-bind {B = Progress} t (set_short_length left t) _ (set_short_length-memory left t)
            λ _ t1.
              Leaves-bind {B = Progress} t1 (transfer k (bit / 8) ((sb + 7) / 8) tms tdi tdo t1) _
                (transfer-memory k (bit / 8) ((sb + 7) / 8) tms tdi tdo t1)
                λ p t2. elim (Bool-cases (is_nonzero p.status)) [
                  | inl failed ↦ rw failed refl
                  | inr ok ↦ rw ok (
                      Leaves-bind {B = Progress} t2 (add_int bit sb t2) _ (add_int-memory bit sb t2)
                        λ b t3. shift_loop-memory k rounds num_bits tms tdi b p.tdo t3)
                ])
      | inr over ↦ rw over refl
    ]

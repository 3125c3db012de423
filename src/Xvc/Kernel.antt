-- ===== src/Xvc/Kernel.antt =====
-- The kernel around xvc_driver.c: the accesses to the debug bridge and to user memory, in order, and
-- what they answer.
--
-- The state of a call is the trace of its events, the newest first. What the bridge, the allocator
-- and the user's memory answer is the parameter `Kernel`: each field may answer anything, and may
-- depend on the whole trace. A read or write outside of an allocated buffer, and an overflow of an
-- `int`, is the outcome `fault`, which C leaves undefined.
use thesis_software.Base.{
  ℕ, zero, suc, ◌+◌, ◌%◌, ◌^◌, Bool, List, [], ◌∷◌, ◌++◌, leb, if◌then◌else◌, length, take, drop,
}

abbrev pub Bytes : Type 0
Bytes = List ℕ

-- The three temporary buffers of a call.
pub data Buffer : Type 0 where
  tms_temp tdi_temp tdo_temp : Buffer

pub data Event : Type 0 where
  -- a register of the bridge at a byte offset: written, or read with its answer
  wrote : ℕ → ℕ → Event
  got : ℕ → ℕ → Event
  -- a buffer with its size, allocated and freed
  allocated : Buffer → ℕ → Event
  freed : Buffer → Event
  -- bytes handed to the user, at a user address
  copied_out : ℕ → Bytes → Event

abbrev pub Trace : Type 0
Trace = List Event

-- `struct xil_xvc_ioc`, with user addresses as numbers.
pub record XilXvcIoc : Type 0 where
  pub opcode : ℕ
  pub length : ℕ
  pub tms_buf : ℕ
  pub tdi_buf : ℕ
  pub tdo_buf : ℕ

-- Reads from the user answer how many bytes were left uncopied, and what arrived.
pub record Kernel : Type 0 where
  pub register : Trace → ℕ → ℕ
  pub can_allocate : Trace → Buffer → ℕ → Bool
  -- what an allocated buffer holds before it is written
  pub garbage : Trace → Buffer → Bytes
  pub copy_request : Trace → ℕ → ℕ × XilXvcIoc
  pub copy_in : Trace → ℕ → ℕ → ℕ × Bytes
  -- bytes left uncopied
  pub copy_out : Trace → ℕ → Bytes → ℕ

pub data Outcome {ℓ} (A : Type ℓ) : Type ℓ where
  done : A → Trace → Outcome A
  fault : Trace → Outcome A

abbrev pub Act {ℓ} : Type ℓ → Type ℓ
Act A = Trace → Outcome A

infixl 5 ◌>>=◌ ◌>>◌
abbrev pub ◌>>=◌ {ℓ κ} : {A : Type ℓ} {B : Type κ} → Act A → (A → Act B) → Act B
◌>>=◌ m f t = elim (m t) [ done a t' ↦ f a t' | fault t' ↦ fault t' ]

abbrev pub ◌>>◌ {κ} : {B : Type κ} → Act (Unit {0}) → Act B → Act B
m >> k = m >>= λ _. k

abbrev pub pure {ℓ} : {A : Type ℓ} → A → Act A
pure a t = done a t

abbrev pub event : Event → Act (Unit {0})
event e t = done tt (e ∷ t)

abbrev pub iowrite32 : ℕ → ℕ → Act (Unit {0})
iowrite32 val off = event (wrote off (val % 2 ^ 32))

abbrev pub ioread32 : Kernel → ℕ → Act ℕ
ioread32 k off t = let v = k.register t off % 2 ^ 32 in done v (got off v ∷ t)

-- A list cut or filled with zeros to a length.
unfoldable pub fit : ℕ → Bytes → Bytes
fit zero bs = []
fit (suc n) [] = 0 ∷ fit n []
fit (suc n) (b ∷ bs) = (b % 2 ^ 8) ∷ fit n bs

-- `n` bytes of a buffer from an offset on, where they lie inside of it.
unfoldable pub read_at : Bytes → ℕ → ℕ → Act Bytes
read_at buf off n t = if leb (off + n) (length buf) then done (take n (drop off buf)) t else fault t

-- A buffer with bytes stored from an offset on, where they lie inside of it.
unfoldable pub write_at : Bytes → ℕ → Bytes → Act Bytes
write_at buf off bs t =
    if leb (off + length bs) (length buf)
    then done (take off buf ++ (bs ++ drop (off + length bs) buf)) t
    else fault t

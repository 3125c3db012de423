-- ===== src/Server/Sockets.antt =====
-- The system around xvcServer.c: sockets, the driver's device, and what they answer.
--
-- A run's state is the trace of its calls, the newest first. What the kernel and the clients answer
-- is the parameter `Net`: each field may answer anything, and may depend on the whole trace. An
-- overflow of an `int` and a descriptor beyond `FD_SETSIZE` in a set are the outcome `fault`, which C
-- leaves undefined. Console output is left out.
use Prim.Native.String.{String}
use thesis_software.Base.{ℕ, ◌-◌, Bool, Option, List, ◌∷◌, take}

abbrev pub Bytes : Type 0
Bytes = List ℕ

-- `read` on a socket: bytes, the first and those behind it, or a result of 0 or less.
pub data Received : Type 0 where
  ended : Received
  chunk : ℕ → Bytes → Received

-- The ioctl XDMA_IOCXVC: an `errno`, or a result that is not negative with the bytes of TDO.
pub data Shifting : Type 0 where
  refused : ℕ → Shifting
  shifted_out : Bytes → Shifting

-- `select`: a failure, or the descriptors that can be read and those with an exception.
pub data Selected : Type 0 where
  select_failed : Selected
  select_ready : (ℕ → Bool) → (ℕ → Bool) → Selected

pub data Event : Type 0 where
  -- what a socket gave, and what was written to it, with whether all of it went out
  arrived : ℕ → Bytes → Event
  hung_up : ℕ → Event
  sent_out : ℕ → Bytes → Bool → Event
  -- length, TMS and TDI of a request to the driver
  shift_asked : ℕ → Bytes → Bytes → Event
  -- descriptor of the device, and whether it gave its properties
  props_asked : ℕ → Bool → Event
  -- descriptors: the device and the listening socket with the answers; a connection is accepted on a
  -- socket
  device_opened : String → Option ℕ → Event
  socket_made : Option ℕ → Event
  -- a socket set up: SO_REUSEADDR, whose result is not looked at, the port, and the start of listening
  reuse_set : ℕ → Event
  bound : ℕ → ℕ → Bool → Event
  listening : ℕ → Bool → Event
  host_named : Bool → Event
  select_called : Event
  accepted : ℕ → Option ℕ → Event
  no_delay_set : ℕ → Event
  closed : ℕ → Event

abbrev pub Trace : Type 0
Trace = List Event

pub record Net : Type 0 where
  pub receive : Trace → ℕ → ℕ → Received
  -- whether `write` takes all bytes
  pub takes : Trace → ℕ → Bytes → Bool
  pub shift : Trace → ℕ → Bytes → Bytes → Shifting
  pub has_props : Trace → Bool
  pub opens_device : Trace → String → Option ℕ
  pub new_socket : Trace → Option ℕ
  pub binds : Trace → ℕ → Bool
  pub listens : Trace → Bool
  pub names_host : Trace → Bool
  pub selects : Trace → Selected
  pub accepts : Trace → ℕ → Option ℕ

pub data Outcome {ℓ} (A : Type ℓ) : Type ℓ where
  done : A → Trace → Outcome A
  fault : Trace → Outcome A

abbrev pub Act {ℓ} : Type ℓ → Type ℓ
Act A = Trace → Outcome A

infixl 5 ◌>>=◌ ◌>>◌
abbrev pub ◌>>=◌ {ℓ κ} : {A : Type ℓ} {B : Type κ} → Act A → (A → Act B) → Act B
◌>>=◌ m f t = elim (m t) [ done a t' ↦ f a t' | fault t' ↦ fault t' ]

abbrev pub ◌>>◌ {κ} : {B : Type κ} → Act (Unit {0}) → Act B → Act B
m >> k = m >>= λ _. k

abbrev pub pure {ℓ} : {A : Type ℓ} → A → Act A
pure a t = done a t

abbrev pub event : Event → Act (Unit {0})
event e t = done tt (e ∷ t)

-- `write(fd, bytes, n) == n`
abbrev pub write_all : Net → ℕ → Bytes → Act Bool
write_all net fd bs t = done (net.takes t fd bs) (sent_out fd bs (net.takes t fd bs) ∷ t)

-- What one `read` of `len` bytes stores: at least one and no more than asked for.
abbrev pub stored_of : ℕ → ℕ → Bytes → Bytes
stored_of len b bs = b ∷ take (len - 1) bs

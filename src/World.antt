-- ===== src/World.antt =====
-- The system around the user-space programs: what they do to it, in order, and what it answers.
--
-- Every call of the kernel, every access to a mapped register and every sleep is an `Event`; a
-- program's state is the trace of its events, the newest first. What the kernel and the FPGA answer
-- is not code of the repository, so it is the parameter `Env`: each field may answer anything, and
-- may depend on the whole trace. Console output is left out.
pub mod Resources
use Prim.Native.String.{String}
use thesis_software.Base.{
  some, none, ltb, if◌then◌else◌, ◌&&◌, ℕ, ◌%◌, ◌^◌, Bool, Option, List, ◌∷◌,
}

-- `select`: a key is there, the time is over, a signal came, or another error.
pub data Select : Type 0 where
  ready timed_out interrupted failed : Select

pub data Event : Type 0 where
  -- a 32-bit register at a byte offset: written, or read with its answer
  wrote : ℕ → ℕ → Event
  got : ℕ → ℕ → Event
  -- milliseconds
  slept : ℕ → Event
  -- path and answer of `open`; the closed descriptor
  opened : String → Option ℕ → Event
  closed : ℕ → Event
  -- descriptor, length and answer of `mmap`; address and length of `munmap`
  mapped : ℕ → ℕ → Option ℕ → Event
  unmapped : ℕ → ℕ → Event
  -- process of `kill(pid, SIGUSR1)`, and whether it returned 0
  signalled : ℕ → Bool → Event
  -- bytes stored into a mapped buffer: address of the first
  stored : ℕ → List ℕ → Event
  -- `sigaction`, `tcgetattr` and `tcsetattr`, and whether they returned 0; the last also with
  -- whether it set the raw mode or the saved one
  handler_set : Bool → Event
  terminal_got : Bool → Event
  terminal_set : Bool → Bool → Event
  -- answers of `select` on the keyboard, and of a `read` of one byte
  selected : Select → Event
  key_read : Option ℕ → Event

abbrev pub Trace : Type 0
Trace = List Event

pub record Env : Type 0 where
  -- the value of a register when it is read
  pub register : Trace → ℕ → ℕ
  -- `open`: a descriptor, or a failure
  pub open_file : Trace → String → Option ℕ
  -- `mmap`: an address, or `MAP_FAILED`
  pub map_memory : Trace → ℕ → ℕ → Option ℕ
  -- `kill`: whether it returns 0
  pub signal : Trace → ℕ → Bool
  -- `sigaction`, `tcgetattr` and `tcsetattr`: whether they return 0
  pub set_handler : Trace → Bool
  pub get_terminal : Trace → Bool
  pub set_terminal : Trace → Bool
  pub select_key : Trace → Select
  -- the byte that `read` gives, or none
  pub read_key : Trace → Option ℕ
  -- whether SIGINT has come
  pub sigint : Trace → Bool
  -- the bytes of a file of sysfs; `none` where it cannot be read
  pub sysfs : Trace → String → Option (List ℕ)

-- An action gives a value and the trace behind it.
abbrev pub Act {ℓ} : Type ℓ → Type ℓ
Act A = Trace → A × Trace

infixl 5 ◌>>=◌ ◌>>◌
abbrev pub ◌>>=◌ {ℓ κ} : {A : Type ℓ} {B : Type κ} → Act A → (A → Act B) → Act B
◌>>=◌ m f t = f (m t).0 (m t).1

abbrev pub ◌>>◌ {ℓ κ} : {A : Type ℓ} {B : Type κ} → Act A → Act B → Act B
◌>>◌ m k t = k (m t).1

abbrev pub pure {ℓ} : {A : Type ℓ} → A → Act A
pure a t = (a, t)

abbrev pub event : Event → Act (Unit {0})
event e t = (tt, e ∷ t)

-- `*(volatile uint32_t *)(regs + off) = val`
abbrev pub reg_write32 : ℕ → ℕ → Act (Unit {0})
reg_write32 off val = event (wrote off (val % 2 ^ 32))

-- `*(volatile uint32_t *)(regs + off)`
abbrev pub reg_read32 : Env → ℕ → Act ℕ
reg_read32 env off t = let v = env.register t off % 2 ^ 32 in (v, got off v ∷ t)

-- `usleep(ms * 1000)`
abbrev pub sleep_ms : ℕ → Act (Unit {0})
sleep_ms ms = event (slept ms)

-- `open` and `mmap`, with what follows their answers.
abbrev pub open_then {ℓ} : {A : Type ℓ} → Env → String → (Option ℕ → Act A) → Act A
open_then env path f t = let fd = env.open_file t path in f fd (opened path fd ∷ t)

abbrev pub map_then {ℓ} : {A : Type ℓ} → Env → ℕ → ℕ → (Option ℕ → Act A) → Act A
map_then env fd len f t = let p = env.map_memory t fd len in f p (mapped fd len p ∷ t)

-- A `pid_t` of 32 bits, where it is positive.
abbrev pub pid_of : ℕ → Option ℕ
pid_of v = if ltb 0 (v % 2 ^ 32) && ltb (v % 2 ^ 32) (2 ^ 31) then some (v % 2 ^ 32) else none

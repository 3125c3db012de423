-- ===== src/Server/Listen/Opened.antt =====
-- Which descriptors are open, and that only open ones are used.
use thesis_software.Base.{
  ℕ, ◌≡◌, Bool, true, false, Option, none, some, [], ◌∷◌, ◌==◌, if◌then◌else◌,
}
use thesis_software.Server.Sockets.{
  shift_asked, props_asked, reuse_set, bound, listening, arrived, hung_up, sent_out, device_opened,
  socket_made, accepted, no_delay_set, closed, Trace,
}

-- A descriptor is opened by the answer that gives it, and closed by `close`.
unfoldable pub is_open : Trace → ℕ → Bool
is_open [] fd = false
is_open (device_opened path (some n) ∷ t) fd = if fd == n then true else is_open t fd
is_open (socket_made (some n) ∷ t) fd = if fd == n then true else is_open t fd
is_open (accepted s (some n) ∷ t) fd = if fd == n then true else is_open t fd
is_open (closed n ∷ t) fd = if fd == n then false else is_open t fd
is_open (_ ∷ t) fd = is_open t fd

-- The device opened last.
unfoldable pub device_of : Trace → Option ℕ
device_of [] = none
device_of (device_opened path (some n) ∷ t) = some n
device_of (_ ∷ t) = device_of t

abbrev pub DeviceOpen : Trace → Type 0
DeviceOpen t = (dev : ℕ) × (device_of t ≡ some dev) × (is_open t dev ≡ true)

-- Whatever is read from, written to, asked for its properties, bound, listened on, accepted on, set up or
-- closed is open at that time, and so is the device when it is asked to shift.
unfoldable pub UsesOpen : Trace → Type 0
UsesOpen [] = Unit {0}
UsesOpen (arrived fd bs ∷ t) = (is_open t fd ≡ true) × UsesOpen t
UsesOpen (hung_up fd ∷ t) = (is_open t fd ≡ true) × UsesOpen t
UsesOpen (sent_out fd bs all ∷ t) = (is_open t fd ≡ true) × UsesOpen t
UsesOpen (accepted s fd ∷ t) = (is_open t s ≡ true) × UsesOpen t
UsesOpen (no_delay_set fd ∷ t) = (is_open t fd ≡ true) × UsesOpen t
UsesOpen (closed fd ∷ t) = (is_open t fd ≡ true) × UsesOpen t
UsesOpen (shift_asked v tms tdi ∷ t) = DeviceOpen t × UsesOpen t
UsesOpen (props_asked dev ok ∷ t) = (is_open t dev ≡ true) × UsesOpen t
UsesOpen (reuse_set s ∷ t) = (is_open t s ≡ true) × UsesOpen t
UsesOpen (bound s p ok ∷ t) = (is_open t s ≡ true) × UsesOpen t
UsesOpen (listening s ok ∷ t) = (is_open t s ≡ true) × UsesOpen t
UsesOpen (_ ∷ t) = UsesOpen t

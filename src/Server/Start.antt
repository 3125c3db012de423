-- ===== src/Server/Start.antt =====
-- The `main` of apps/xvc-driver-app/files/xvcServer.c up to its loop, and whole. What `getopt_long` makes
-- of the arguments is an argument, with what `atoi` makes of a port.
pub mod Ready
use Prim.Native.String.{String}
use thesis_software.Base.{
  ℕ, zero, suc, ◌+◌, ◌%◌, ◌^◌, ◌<◌, ◌≡◌, refl, inl, inr, Bool, true, false, Option, none, some,
  List, [], ◌∷◌, ltb, ◌==◌, if◌then◌else◌, arith, Bool-cases,
}
use thesis_software.Base.Int.{ℤ, pos, negsuc}
use thesis_software.Server.Sockets.{
  props_asked, device_opened, socket_made, reuse_set, bound, listening, host_named, closed, Trace,
  Net, done, Act, fault, ◌>>=◌, ◌>>◌, pure, event,
}
use thesis_software.Server.Listen.{fd_setsize, Conns, Serving, waits, left, stuck, serve}
use thesis_software.Server.Listen.Opened.{is_open, UsesOpen}

-- A result of `getopt_long`; the value of a port is that of an `int`, as its bit pattern.
pub data Opt : Type 0 where
  verbose : Opt
  port : ℕ → Opt
  device : String → Opt
  usage : Opt

-- `verbose`, `XVC_PORT` and `CHAR_DEV_PATH`.
pub record Settings : Type 0 where
  pub verbosity : ℕ
  pub xvc_port : ℕ
  pub char_dev_path : String

abbrev pub first_settings : Settings
first_settings = record { verbosity = 0; xvc_port = 2542; char_dev_path = "/dev/xilinx_xvc_driver" }

-- `none` where the usage is told.
unfoldable pub read_options : List Opt → Settings → Option Settings
read_options [] c = some c
read_options (verbose ∷ os) c = read_options os (record c { verbosity = c.verbosity + 1 })
read_options (port n ∷ os) c = read_options os (record c { xvc_port = n })
read_options (device path ∷ os) c = read_options os (record c { char_dev_path = path })
read_options (usage ∷ os) c = none

-- `return`, or on to the loop with the device, the socket and the set.
pub data Started : Type 0 where
  returns : ℤ → Started
  starts : ℕ → ℕ → Conns → Started

unfoldable pub display_driver_properties : Net → ℕ → Act (Unit {0})
display_driver_properties net dev t = done tt (props_asked dev (net.has_props t) ∷ t)

-- `FD_ZERO` and `FD_SET`.
unfoldable pub first_conns : ℕ → ℕ → Act Started
first_conns dev s =
    if ltb s fd_setsize
    then pure (starts dev s (record { conn = λ fd. fd == s; maxfd = s }))
    else fault

unfoldable pub with_host : ℕ → ℕ → Bool → Act Started
with_host dev s true = first_conns dev s
with_host dev s false = do event (closed s); pure (returns (pos 1))

unfoldable pub with_listen : Net → ℕ → ℕ → Bool → Act Started
with_listen net dev s true t =
    with_host dev s (net.names_host t) (host_named (net.names_host t) ∷ t)
with_listen net dev s false t = done (returns (pos 1)) t

unfoldable pub with_bind : Net → ℕ → ℕ → Bool → Act Started
with_bind net dev s true t = with_listen net dev s (net.listens t) (listening s (net.listens t) ∷ t)
with_bind net dev s false t = done (returns (pos 1)) t

unfoldable pub with_socket : Net → Settings → ℕ → Option ℕ → Act Started
with_socket net c dev none t = done (returns (pos 1)) t
with_socket net c dev (some s) t =
    let p = c.xvc_port % 2 ^ 16 in
    let t' : Trace = reuse_set s ∷ t in
    with_bind net dev s (net.binds t' p) (bound s p (net.binds t' p) ∷ t')

-- A descriptor below 1 is a failure.
unfoldable pub with_device : Net → Settings → Option ℕ → Act Started
with_device net c none = pure (returns (negsuc 0))
with_device net c (some zero) = pure (returns (negsuc 0))
with_device net c (some (suc n)) = do
  display_driver_properties net (suc n)
  λ t. with_socket net c (suc n) (net.new_socket t) (socket_made (net.new_socket t) ∷ t)

unfoldable pub start : Net → Option Settings → Act Started
start net none t = done (returns (pos 1)) t
start net (some c) t =
    let dev = net.opens_device t c.char_dev_path in
    with_device net c dev (device_opened c.char_dev_path dev ∷ t)

-- What `main` returns, or `none` while the loop goes on.
unfoldable pub after_serve : ℕ → Serving → Act (Option ℤ)
after_serve dev (waits c) = pure none
after_serve dev left = do event (closed dev); pure (some (pos 0))
after_serve dev stuck = pure none

unfoldable pub run_started : Net → ℕ → ℕ → Started → Act (Option ℤ)
run_started net commands rounds (returns r) = pure (some r)
run_started net commands rounds (starts dev s c) = do
  r ← serve net s commands rounds c
  after_serve dev r

unfoldable pub run_server : Net → List Opt → ℕ → ℕ → Act (Option ℤ)
run_server net options commands rounds = do
  r ← start net (read_options options first_settings)
  run_started net commands rounds r

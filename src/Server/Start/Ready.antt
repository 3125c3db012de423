-- ===== src/Server/Start/Ready.antt =====
-- The server from its start on: what is open when it uses it.
use thesis_software.Base.{
  ℕ, zero, suc, ◌%◌, ◌^◌, ◌<◌, ◌≡◌, refl, inl, inr, Bool, true, false, Option, none, some, List, [],
  ◌∷◌, ltb, ◌==◌, arith, Bool-cases,
}
use thesis_software.Server.Sockets.{
  props_asked, device_opened, socket_made, reuse_set, bound, listening, host_named, Trace, Net,
  done, fault,
}
use thesis_software.Server.Listen.{fd_setsize, Serving, waits, left, stuck}
use thesis_software.Server.Listen.Opened.{is_open, device_of, UsesOpen}
use thesis_software.Server.Listen.Serve.{serve-Owns}
use thesis_software.Server.Listen.Owns.{AcceptsFresh, Owns, Leads, bind-Leads, StillOwns}
use thesis_software.Server.Start.{
  Opt, Settings, first_settings, read_options, Started, returns, starts, display_driver_properties,
  first_conns, with_host, with_listen, with_bind, with_socket, with_device, start, after_serve,
  run_started, run_server,
}

-- The calls of a start that comes to the loop.
abbrev pub Ready : Net → Settings → Trace → Started → Trace → Type 0
Ready net c t (returns r) t' = UsesOpen t'
Ready net c t (starts dev s k) t' =
    (0 < dev)
    × (s < fd_setsize)
    × Owns dev k t'
    × (t'
        ≡ host_named true
          ∷ listening s true
          ∷ bound s (c.xvc_port % 2 ^ 16) true
          ∷ reuse_set s
          ∷ socket_made (some s)
          ∷ props_asked dev (net.has_props (device_opened c.char_dev_path (some dev) ∷ t))
          ∷ device_opened c.char_dev_path (some dev)
          ∷ t)

-- `socket` gives a descriptor that is not in use.
abbrev pub SocketsFresh : Net → Type 0
SocketsFresh net = (t : Trace) (n : ℕ) → net.new_socket t ≡ some n → is_open t n ≡ false

module _ (net : Net) (c : Settings) (t : Trace) (n : ℕ) (u : UsesOpen t) where
  abbrev propped : Trace
  propped =
      props_asked (suc n) (net.has_props (device_opened c.char_dev_path (some (suc n)) ∷ t))
      ∷ device_opened c.char_dev_path (some (suc n))
      ∷ t

  propped-UsesOpen : UsesOpen propped
  unfolding UsesOpen is_open
  propped-UsesOpen = (ground arith, u)

  module _ (s : ℕ) (apart : (s == suc n) ≡ false) where
    abbrev reusable : Trace
    reusable = reuse_set s ∷ socket_made (some s) ∷ propped

    reusable-UsesOpen : UsesOpen reusable
    unfolding UsesOpen is_open
    reusable-UsesOpen = (ground arith, propped-UsesOpen)

    bound-UsesOpen : (binds : Bool) → UsesOpen (bound s (c.xvc_port % 2 ^ 16) binds ∷ reusable)
    unfolding UsesOpen is_open
    bound-UsesOpen binds = (ground arith, reusable-UsesOpen)

    listening-UsesOpen :
        (listens : Bool)
        → UsesOpen (listening s listens ∷ bound s (c.xvc_port % 2 ^ 16) true ∷ reusable)
    unfolding UsesOpen is_open
    listening-UsesOpen listens = (ground arith, bound-UsesOpen true)

    abbrev heard : Trace
    heard = listening s true ∷ bound s (c.xvc_port % 2 ^ 16) true ∷ reusable

    first_conns-Ready : Leads (Ready net c t) (first_conns (suc n) s (host_named true ∷ heard))
    unfolding first_conns is_open device_of UsesOpen
    first_conns-Ready =
        let other : (suc n == s) ≡ false = ground arith in
        elim (Bool-cases (ltb s fd_setsize)) [
          | inl fits ↦ rw fits (
            omega arith,
            ground arith,
            record {
              owned = λ x h. ground arith;
              low = λ x h. ground arith;
              in_set = ground arith;
              device = rw other (ground arith);
              opened_last = refl;
              apart = other;
              uses = listening-UsesOpen true;
            },
            refl,
          )
          | inr beyond ↦ rw beyond (listening-UsesOpen true)
        ]

    with_host-Ready :
        (named : Bool)
        → Leads (Ready net c t) (with_host (suc n) s named (host_named named ∷ heard))
    unfolding with_host is_open UsesOpen
    with_host-Ready true = first_conns-Ready
    with_host-Ready false = (ground arith, listening-UsesOpen true)

    with_listen-Ready :
        (listens : Bool)
        → Leads (Ready net c t) (
            with_listen net
              (suc n)
              s
              listens
              (listening s listens ∷ bound s (c.xvc_port % 2 ^ 16) true ∷ reusable))
    unfolding with_listen UsesOpen
    with_listen-Ready true = with_host-Ready (net.names_host heard)
    with_listen-Ready false = listening-UsesOpen false

    with_bind-Ready :
        (binds : Bool)
        → Leads
            (Ready net c t)
            (with_bind net (suc n) s binds (bound s (c.xvc_port % 2 ^ 16) binds ∷ reusable))
    unfolding with_bind UsesOpen
    with_bind-Ready true =
        with_listen-Ready (net.listens (bound s (c.xvc_port % 2 ^ 16) true ∷ reusable))
    with_bind-Ready false = bound-UsesOpen false

  with_socket-Ready :
      (s : Option ℕ)
      → ((m : ℕ) → s ≡ some m → is_open propped m ≡ false)
      → Leads (Ready net c t) (with_socket net c (suc n) s (socket_made s ∷ propped))
  unfolding with_socket UsesOpen is_open
  with_socket-Ready none fresh = propped-UsesOpen
  with_socket-Ready (some s) fresh =
      let other = fresh s refl in
      with_bind-Ready s (ground arith)
        (net.binds (reuse_set s ∷ socket_made (some s) ∷ propped) (c.xvc_port % 2 ^ 16))

with_device-Ready :
    (net : Net) (c : Settings) (t : Trace) (dev : Option ℕ)
    → SocketsFresh net
    → UsesOpen t
    → Leads (Ready net c t) (with_device net c dev (device_opened c.char_dev_path dev ∷ t))
unfolding with_device UsesOpen display_driver_properties
with_device-Ready net c t none fresh u = u
with_device-Ready net c t (some zero) fresh u = u
with_device-Ready net c t (some (suc n)) fresh u =
    with_socket-Ready net c t n u (net.new_socket (propped net c t n u))
      (fresh (propped net c t n u))

-- With the options read, as long as `socket` gives a descriptor that is not in use and only open
-- descriptors were used before: a start that comes to the loop has made these calls and no others, the
-- device opened at its path, with a descriptor above 0, its properties asked for, a socket made, its
-- address made reusable, bound to the port modulo 2 ^ 16, listening, and the host's name. The loop then starts with a set of open
-- descriptors without the device. A start that returns or faults has used open descriptors only.
pub start-Ready :
    (net : Net) (c : Settings) (t : Trace)
    → SocketsFresh net
    → UsesOpen t
    → Leads (Ready net c t) (start net (some c) t)
unfolding start
start-Ready net c t fresh u = with_device-Ready net c t (net.opens_device t c.char_dev_path) fresh u

after_serve-Returned :
    (dev : ℕ) (r : Serving) (t : Trace)
    → StillOwns dev r t
    → Leads (λ _ t'. UsesOpen t') (after_serve dev r t)
unfolding after_serve UsesOpen
after_serve-Returned dev (waits c) t o = o.uses
after_serve-Returned dev left t h = h
after_serve-Returned dev stuck t u = u

run_started-Returned :
    (net : Net) (c : Settings) (commands rounds : ℕ) (t0 : Trace) (r : Started) (t : Trace)
    → AcceptsFresh net
    → Ready net c t0 r t
    → Leads (λ _ t'. UsesOpen t') (run_started net commands rounds r t)
unfolding run_started
run_started-Returned net c commands rounds t0 (returns r) t fresh u = u
run_started-Returned net c commands rounds t0 (starts dev s k) t fresh (above, fits, o, calls) =
    bind-Leads (StillOwns dev) (λ _ t'. UsesOpen t') (after_serve dev) _
      (serve-Owns net fresh dev s commands rounds k t o) (after_serve-Returned dev)

-- A whole run, as long as `socket` and `accept` give descriptors that are not in use: whatever the
-- options, the clients and the driver, the server asks the device for its properties, sets up, binds,
-- listens and accepts on its socket, reads from and writes to its connections, and closes, while the
-- descriptor is open, and the device that it opened is open whenever it is asked to shift; where the server
-- has not come to an end, or has faulted, up to there.
pub run_server-UsesOpen :
    (net : Net) (options : List Opt) (commands rounds : ℕ)
    → SocketsFresh net
    → AcceptsFresh net
    → Leads (λ _ t. UsesOpen t) (run_server net options commands rounds [])
unfolding run_server
run_server-UsesOpen net options commands rounds sockets accepts =
    go (read_options options first_settings)
  where
    go :
        (c : Option Settings)
        → Leads
            (λ _ t. UsesOpen t)
            (elim (start net c []) [
              | done r t ↦ run_started net commands rounds r t
              | fault t ↦ fault t
            ])
    go none = unfold start run_started UsesOpen in tt
    go (some c) =
        bind-Leads (Ready net c []) (λ _ t. UsesOpen t) (run_started net commands rounds)
          (start net (some c) []) (start-Ready net c [] sockets (unfold UsesOpen in tt))
          (λ r t q. run_started-Returned net c commands rounds [] r t accepts q)

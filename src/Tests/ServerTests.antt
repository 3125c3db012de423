-- ===== src/Tests/ServerTests.antt =====
-- Runs of xvcServer.c.
use thesis_software.Base.{
  ℕ, zero, suc, ◌-◌, ◌<◌, ◌≡◌, refl, sym, ap, Bool, true, false, Option, none, some, [], ◌∷◌, arith,
  if◌then◌else◌, ◌==◌, ltb, length, drop, take-append-drop,
}
use thesis_software.Xvc.Shift.{le_bytes}
use thesis_software.Server.Sockets.{
  Bytes, Received, ended, chunk, select_failed, select_ready, shifted_out, Trace, Net,
}
use thesis_software.Server.{command, handle_data}
use thesis_software.Server.Stream.{Continues, received, Streams}
use thesis_software.Server.Performs.{Performs, command-Performs}
use thesis_software.Server.Request.{read_request}
use thesis_software.Server.Session.{Ends, handle_data-Ends}
use thesis_software.Server.Client.{shift_text}
use thesis_software.Server.Listen.{Conns, serve}
use thesis_software.Server.Listen.Opened.{is_open, UsesOpen}
use thesis_software.Server.Listen.Owns.{AcceptsFresh, Leads}
use thesis_software.Server.Listen.Turns.{Gives, Serves, serve-Serves}
use thesis_software.Server.Start.Ready.{Ready, SocketsFresh, start-Ready, run_server-UsesOpen}
use thesis_software.Server.Start.{device, port, first_settings, start, run_server}

abbrev given : Bytes → Received
given [] = ended
given (b ∷ bs) = chunk b bs

-- Descriptor `n`, where it is not in use.
abbrev fresh_one : ℕ → Trace → Option ℕ
fresh_one n t = if is_open t n then none else some n

-- A network whose clients all write one text; one that hangs up ends the run.
abbrev pub writing : Bytes → Net
writing text = record {
  receive = λ t fd len. given (drop (received fd t) text);
  takes = λ t fd bs. true;
  shift = λ t v tms tdi. shifted_out tdi;
  has_props = λ t. true;
  opens_device = λ t path. some 3;
  new_socket = fresh_one 5;
  binds = λ t p. true;
  listens = λ t. true;
  names_host = λ t. true;
  selects =
      λ t. if ltb 0 (received 7 t) then select_failed else select_ready (λ fd. true) (λ fd. false);
  accepts = λ t s. fresh_one 7 t;
}

given-Continues : (len : ℕ) (rest : Bytes) → Continues (given rest) (suc len) rest
given-Continues len [] = refl
given-Continues len (b ∷ bs) =
    let one_less : suc len - 1 ≡ len = omega arith in
    (drop len bs, rw one_less (ap (λ rest. b ∷ rest) (sym (take-append-drop len bs))))

pub writing-Streams : (text : Bytes) (fd : ℕ) → Streams (writing text) fd text
writing-Streams text fd t len = given-Continues len (drop (received fd t) text)

fresh_one-fresh : (n : ℕ) (t : Trace) (m : ℕ) → fresh_one n t ≡ some m → is_open t m ≡ false
fresh_one-fresh n t m = go (is_open t n) refl
  where
    go : (b : Bool) → is_open t n ≡ b → (if b then none else some n) ≡ some m → is_open t m ≡ false
    go true e h = ground arith
    go false e h = let same : n ≡ m = ground arith in rw (← same) e

writing-AcceptsFresh : (text : Bytes) → AcceptsFresh (writing text)
writing-AcceptsFresh text t s n = fresh_one-fresh 7 t n

writing-SocketsFresh : (text : Bytes) → SocketsFresh (writing text)
writing-SocketsFresh text t n = fresh_one-fresh 5 t n

abbrev pub one_byte : Bytes
one_byte = 0xff ∷ []

-- "shift:" with eight bits.
abbrev pub eight_bits : Bytes
eight_bits = shift_text 8 one_byte one_byte

command-Performs_example :
    Performs
      (writing eight_bits)
      7
      eight_bits
      (read_request eight_bits)
      []
      (command (writing eight_bits) 7 [])
unfolding received
command-Performs_example =
    command-Performs (writing eight_bits) 7 eight_bits (writing-Streams eight_bits 7) eight_bits []
      refl

handle_data-Ends_example : Ends (handle_data (writing eight_bits) 7 30 [])
unfolding received le_bytes
handle_data-Ends_example =
    handle_data-Ends (writing eight_bits) 7 eight_bits 30 [] (writing-Streams eight_bits 7)
      (omega arith)

-- A set with a socket.
abbrev pub socket_only : Conns
socket_only = record { conn = λ fd. fd == 5; maxfd = 5 }

nothing_written-Ends : (fd : ℕ) (t : Trace) → Ends (handle_data (writing []) fd 1 t)
nothing_written-Ends fd t =
    handle_data-Ends (writing []) fd [] 1 t (writing-Streams [] fd) (go (received fd t))
  where
    go : (n : ℕ) → length {A = ℕ} (drop n []) < 1
    go zero = omega arith
    go (suc n) = omega arith

serve-Serves_example : Gives Serves (serve (writing []) 5 1 2 socket_only [])
serve-Serves_example =
    serve-Serves (writing []) 5 1 nothing_written-Ends 2 socket_only [] (omega arith)

start-Ready_example :
    Leads
      (Ready (writing eight_bits) first_settings [])
      (start (writing eight_bits) (some first_settings) [])
unfolding UsesOpen
start-Ready_example =
    start-Ready (writing eight_bits) first_settings [] (writing-SocketsFresh eight_bits) tt

run_server-UsesOpen_example :
    Leads
      (λ _ t. UsesOpen t)
      (run_server (writing eight_bits) (port 80 ∷ device "/dev/xvc" ∷ []) 4 3 [])
run_server-UsesOpen_example =
    run_server-UsesOpen (writing eight_bits) (port 80 ∷ device "/dev/xvc" ∷ []) 4 3
      (writing-SocketsFresh eight_bits) (writing-AcceptsFresh eight_bits)

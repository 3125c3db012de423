-- ===== src/Server/Listen.antt =====
-- The `main` of apps/xvc-driver-app/files/xvcServer.c: the options, the start, and the loop over the
-- descriptors. What `getopt_long` makes of the arguments is an argument.
pub mod Opened
pub mod Calm
pub mod Kept
pub mod Deaf
pub mod Owns
pub mod Serve
pub mod Turns
use Prim.Native.String.{String}
use thesis_software.Base.{
  ℕ, zero, suc, ◌+◌, ◌%◌, ◌^◌, Bool, true, false, Option, none, some, List, [], ◌∷◌, ltb, leb, ◌==◌,
  if◌then◌else◌, ◌&&◌,
}
use thesis_software.Base.Int.{ℤ, pos, negsuc}
use thesis_software.Server.Sockets.{
  Selected, select_failed, select_ready, props_asked, device_opened, socket_made, bound, listening,
  host_named, select_called, accepted, no_delay_set, closed, Net, Act, fault, ◌>>=◌, ◌>>◌, pure,
  event,
}
use thesis_software.Server.{handle_data}

-- `FD_SETSIZE`.
abbrev pub fd_setsize : ℕ
fd_setsize = 1024

-- The set of descriptors and the largest one.
pub record Conns : Type 0 where
  pub conn : ℕ → Bool
  pub maxfd : ℕ

-- `FD_SET` and `FD_CLR`.
abbrev pub with_fd : ℕ → (ℕ → Bool) → ℕ → Bool
with_fd n conn fd = if fd == n then true else conn fd

abbrev pub without_fd : ℕ → (ℕ → Bool) → ℕ → Bool
without_fd n conn fd = if fd == n then false else conn fd

-- With the answer of `accept`.
unfoldable pub take_connection : Conns → Option ℕ → Act Conns
take_connection c none = pure c
take_connection c (some newfd) = do
  event (no_delay_set newfd)
  if ltb newfd fd_setsize
      then pure (record {
        conn = with_fd newfd c.conn;
        maxfd = if ltb c.maxfd newfd then newfd else c.maxfd;
      })
      else fault

unfoldable pub accept_connection : Net → ℕ → Conns → Act Conns
accept_connection net s c t = take_connection c (net.accepts t s) (accepted s (net.accepts t s) ∷ t)

unfoldable pub close_connection : ℕ → Conns → Act Conns
close_connection fd c = do
  event (closed fd)
  pure (record { conn = without_fd fd c.conn; maxfd = c.maxfd })

-- A turn of the inner loop: on to the next descriptor, `break`, or a `handle_data` that has not come to
-- an end.
pub data Visited : Type 0 where
  goes_on : Conns → Visited
  breaks : Conns → Visited
  unended : Visited

-- With what `handle_data` returned.
unfoldable pub after_data : ℕ → Conns → Option ℕ → Act Visited
after_data fd c none = pure unended
after_data fd c (some zero) = pure (goes_on c)
after_data fd c (some (suc n)) = do c' ← close_connection fd c; pure (goes_on c')

-- A descriptor that can be read.
unfoldable pub serve_ready : Net → ℕ → ℕ → ℕ → Conns → Act Visited
serve_ready net s commands fd c =
    let accepts = accept_connection net s c >>= λ c'. pure (goes_on c') in
    let handles = handle_data net fd commands >>= after_data fd c in
    if fd == s then accepts else handles

-- A descriptor with an exception.
unfoldable pub abort_connection : ℕ → ℕ → Conns → Act Visited
abort_connection s fd c = do
  c' ← close_connection fd c
  pure (if fd == s then breaks c' else goes_on c')

unfoldable pub visit : Net → ℕ → ℕ → (ℕ → Bool) → (ℕ → Bool) → ℕ → Conns → Act Visited
visit net s commands read except fd c =
    let served = serve_ready net s commands fd c in
    let aborted = abort_connection s fd c in
    if read fd then served else if except fd then aborted else pure (goes_on c)

unfoldable pub after_visit : Visited → (Conns → Act (Option Conns)) → Act (Option Conns)
after_visit (goes_on c) more = more c
after_visit (breaks c) more = pure (some c)
after_visit unended more = pure none

-- The inner loop from a descriptor on, for a number of turns: `none` if it has not come to an end.
unfoldable pub scan : Net → ℕ → ℕ → (ℕ → Bool) → (ℕ → Bool) → ℕ → ℕ → Conns → Act (Option Conns)
scan net s commands read except zero fd c = pure none
scan net s commands read except (suc turns) fd c =
    let turn =
      visit net s commands read except fd c
      >>= (λ v. after_visit v (scan net s commands read except turns (suc fd))) in
    if leb fd c.maxfd then turn else pure (some c)

-- The outer loop: before another round, or left, or in a round that has not come to an end.
pub data Serving : Type 0 where
  waits : Conns → Serving
  left : Serving
  stuck : Serving

unfoldable pub after_scan : Option Conns → (Conns → Act Serving) → Act Serving
after_scan none more = pure stuck
after_scan (some c) more = more c

-- With the answer of `select`; it clears what was not in the sets that it was given.
unfoldable pub after_select : Net → ℕ → ℕ → Conns → Selected → (Conns → Act Serving) → Act Serving
after_select net s commands c select_failed more = pure left
after_select net s commands c (select_ready reads excepts) more = do
  r ←
      scan net s commands (λ fd. c.conn fd && reads fd) (λ fd. c.conn fd && excepts fd)
        (suc fd_setsize) 0 c
  after_scan r more

unfoldable pub serve : Net → ℕ → ℕ → ℕ → Conns → Act Serving
serve net s commands zero c t = pure (waits c) t
serve net s commands (suc rounds) c t =
    after_select net s commands c (net.selects t) (serve net s commands rounds) (select_called ∷ t)

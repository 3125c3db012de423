-- ===== src/Server.antt =====
-- apps/xvc-driver-app/files/xvcServer.c: one connection. `sread` and the commands of `handle_data`,
-- with the driver's ioctl (`USE_IOCTL` is defined). The loop over the connections is in
-- `Server.Listen`, and the start in `Server.Start`.
pub mod Sockets
pub mod Stream
pub mod Request
pub mod Performs
pub mod Cases
pub mod Session
pub mod Client
pub mod Chain
pub mod Lengths
pub mod Script
pub mod Uio
pub mod Listen
pub mod Start
use thesis_software.Base.{
  ℕ, zero, suc, ◌+◌, ◌-◌, ◌*◌, ◌/◌, ◌%◌, ◌^◌, ◌<◌, Bool, true, false, not, Option, none, some, List,
  [], ◌∷◌, ◌++◌, ltb, leb, ◌==◌, if◌then◌else◌, length, take, drop, replicate, ◌&&◌,
}
use thesis_software.Base.Int.{ℤ, pos, negsuc, minus}
use Prim.Native.Char.{code}
use Prim.Native.String.{String}
use thesis_software.Server.Sockets.{
  Bytes, Received, ended, chunk, Shifting, refused, shifted_out, arrived, hung_up, sent_out,
  shift_asked, Net, Outcome, done, fault, Act, ◌>>=◌, ◌>>◌, pure, event, write_all, stored_of,
}

abbrev pub put_before : Bytes → Option Bytes → Option Bytes
put_before now none = none
put_before now (some rest) = some (now ++ rest)

-- With the answer of `read`.
unfoldable pub sread_more : Received → ℕ → ℕ → (ℕ → Act (Option Bytes)) → Act (Option Bytes)
sread_more ended fd len more = do event (hung_up fd); pure none
sread_more (chunk b bs) fd len more = do
  let now = stored_of len b bs
  event (arrived fd now)
  rest ← more (len - length now)
  pure (put_before now rest)

-- `sread`: the bytes, or `none` where it returns 0 or less. `rounds` counts the reads that are left;
-- each brings a byte or more.
unfoldable pub sread_from : Net → ℕ → ℕ → ℕ → Act (Option Bytes)
sread_from net fd zero len t = done (some []) t
sread_from net fd (suc rounds) len t =
    let read_on = sread_more (net.receive t fd len) fd len (sread_from net fd rounds) t in
    if len == 0 then done (some []) t else read_on

unfoldable pub sread : Net → ℕ → ℕ → Act (Option Bytes)
sread net fd len = sread_from net fd len len

abbrev codes : String → Bytes
codes String.[] = []
codes (String.◌∷◌ c s) = code c ∷ codes s

abbrev pub buffer_size : ℕ
buffer_size = 2048

-- `xvcInfo`, as `sprintf` makes it of `bufferSize`.
abbrev pub xvc_info : Bytes
xvc_info = codes "xvcServer_v1.0:2048\n"

-- A command behind its name, in a round of the loop: the next one is read, `return`, or `break`, behind
-- which the function returns 0.
pub data Served : Type 0 where
  next_command : Served
  returned : ℕ → Served

abbrev pub same_bytes : Bytes → Bytes → Bool
same_bytes [] [] = true
same_bytes (x ∷ xs) (y ∷ ys) = x == y && same_bytes xs ys
same_bytes _ _ = false

-- The end of a command that replies and breaks.
unfoldable pub reply : Net → ℕ → Bytes → Act Served
reply net fd bs = do all ← write_all net fd bs; if all then pure (returned 0) else pure (returned 1)

unfoldable pub get_info : Net → ℕ → Option Bytes → Act Served
get_info net fd none = pure (returned 1)
get_info net fd (some rest) = reply net fd xvc_info

-- The nine bytes behind "se" end in the period.
unfoldable pub set_tck : Net → ℕ → Option Bytes → Act Served
set_tck net fd none = pure (returned 1)
set_tck net fd (some rest) = reply net fd (take 4 (drop 5 rest))

-- A little-endian `u32`.
unfoldable pub le_word : Bytes → ℕ
le_word [] = 0
le_word (b ∷ bs) = b % 2 ^ 8 + 256 * le_word bs

-- `len + 7` for the `int` with the bit pattern `v`; `none` is an overflow.
unfoldable pub plus_7 : ℕ → Option ℤ
plus_7 v =
    if ltb v (2 ^ 31 - 7)
    then some (pos (v + 7))
    else if ltb v (2 ^ 31)
    then none
    else if ltb (v + 7) (2 ^ 32)
    then some (minus (2 ^ 32 - (v + 7)))
    else some (pos (v + 7 - 2 ^ 32))

-- `/ 8`, which rounds to 0.
unfoldable pub div_8 : ℤ → ℤ
div_8 (pos n) = pos (n / 8)
div_8 (negsuc n) = minus ((n + 1) / 8)

-- `nr_bytes` where twice as much fits the buffer; the comparison is that of `size_t`, in which a
-- negative number is large.
unfoldable pub fitting_bytes : ℤ → Option ℕ
fitting_bytes (pos n) = if ltb buffer_size (n * 2) then none else some n
fitting_bytes (negsuc n) = none

-- What the driver's answer leads to; `result` holds zeros where the driver wrote nothing.
unfoldable pub give_tdo : Net → ℕ → ℕ → Shifting → Act Served
give_tdo net fd nr_bytes (refused e) = pure (returned e)
give_tdo net fd nr_bytes (shifted_out tdo) = do
  all ← write_all net fd (take nr_bytes (tdo ++ replicate nr_bytes 0))
  if all then pure next_command else pure (returned 1)

-- With the TMS and TDI bytes, one behind the other.
unfoldable pub shift_data : Net → ℕ → ℕ → ℕ → Option Bytes → Act Served
shift_data net fd v nr_bytes none t = done (returned 1) t
shift_data net fd v nr_bytes (some buffer) t =
    let tms = take nr_bytes buffer in
    let tdi = drop nr_bytes buffer in
    give_tdo net fd nr_bytes (net.shift t v tms tdi) (shift_asked v tms tdi ∷ t)

unfoldable pub shift_bytes : Net → ℕ → ℕ → Option ℕ → Act Served
shift_bytes net fd v none = pure (returned 1)
shift_bytes net fd v (some nr_bytes) = do
  buffer ← sread net fd (nr_bytes * 2)
  shift_data net fd v nr_bytes buffer

unfoldable pub shift_count : Net → ℕ → ℕ → Option ℤ → Act Served
shift_count net fd v none = fault
shift_count net fd v (some bits) = shift_bytes net fd v (fitting_bytes (div_8 bits))

unfoldable pub shift_length : Net → ℕ → Option Bytes → Act Served
shift_length net fd none = pure (returned 1)
shift_length net fd (some len) = shift_count net fd (le_word len) (plus_7 (le_word len))

unfoldable pub shift_command : Net → ℕ → Option Bytes → Act Served
shift_command net fd none = pure (returned 1)
shift_command net fd (some rest) = do len ← sread net fd 4; shift_length net fd len

-- The `if` on the first two bytes.
unfoldable pub dispatch : Net → ℕ → Option Bytes → Act Served
dispatch net fd none = pure (returned 1)
dispatch net fd (some cmd) =
    let info = sread net fd 6 >>= get_info net fd in
    let tck = sread net fd 9 >>= set_tck net fd in
    let shift = sread net fd 4 >>= shift_command net fd in
    if same_bytes cmd (b'g' ∷ b'e' ∷ [])
    then info
    else if same_bytes cmd (b's' ∷ b'e' ∷ [])
    then tck
    else if same_bytes cmd (b's' ∷ b'h' ∷ [])
    then shift
    else pure (returned 1)

unfoldable pub command : Net → ℕ → Act Served
command net fd = do cmd ← sread net fd 2; dispatch net fd cmd

-- `handle_data`, for a number of commands: what it returns, or `none` if it has not come to an end.
unfoldable pub after_command : Served → Act (Option ℕ) → Act (Option ℕ)
after_command (returned n) more = pure (some n)
after_command next_command more = more

unfoldable pub handle_data : Net → ℕ → ℕ → Act (Option ℕ)
handle_data net fd zero = pure none
handle_data net fd (suc commands) = do
  r ← command net fd
  after_command r (handle_data net fd commands)

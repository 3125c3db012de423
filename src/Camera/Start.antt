-- ===== src/Camera/Start.antt =====
-- The `main` of apps/filtered-camera-feed-app/files/filtered-camera-feed-app.c: its argument, the values of
-- sysfs, the devices with their releases, and the loop.
use thesis_software.Base.{ℕ, suc, Option, none, some, List, [], ◌∷◌, ltb, if◌then◌else◌, length}
use thesis_software.Base.Int.{ℤ, pos}
use thesis_software.World.{
  pid_of, open_then, map_then, Env, closed, unmapped, Act, ◌>>=◌, ◌>>◌, pure, event,
}
use thesis_software.Dma.{dest_buf_id, reg_map_size}
use thesis_software.Dma.Sysfs.{Texts, get_phy_addr, get_buf_size}
use thesis_software.Camera.{Feed, Frames, run_feed}

-- `exit(1)`, `return 1` before the loop, or the loop's answer for a number of rounds.
pub data FeedEnd : Type 0 where
  feed_exits : FeedEnd
  feed_returns : FeedEnd
  feed_ran : Option Frames → FeedEnd

-- An argument as `strtol` reads it: a whole number, or none.
abbrev pub Arg : Type 0
Arg = Option ℤ

-- The loop over the arguments: `none` is `return 1`.
unfoldable pub read_pid : List Arg → Option ℕ → Option (Option ℕ)
read_pid [] pid = some pid
read_pid (some (pos (suc v)) ∷ args) pid = read_pid args (pid_of (suc v))
read_pid (_ ∷ args) pid = none

module _ (env : Env) (rounds size_dest : ℕ) (feed : Feed) where
  unfoldable pub feed_mapped : ℕ → ℕ → ℕ → Option ℕ → Act FeedEnd
  feed_mapped fd1 dest fd_uio none = do
    event (closed fd_uio)
    event (unmapped dest size_dest)
    event (closed fd1)
    pure feed_returns
  feed_mapped fd1 dest fd_uio (some regs) = do r ← run_feed env feed rounds; pure (feed_ran r)

  unfoldable pub feed_uio : ℕ → ℕ → Option ℕ → Act FeedEnd
  feed_uio fd1 dest none = do event (unmapped dest size_dest); event (closed fd1); pure feed_returns
  feed_uio fd1 dest (some fd_uio) = map_then env fd_uio reg_map_size (feed_mapped fd1 dest fd_uio)

  unfoldable pub feed_dest : ℕ → Option ℕ → Act FeedEnd
  feed_dest fd1 none = do event (closed fd1); pure feed_returns
  feed_dest fd1 (some dest) = open_then env "/dev/uio4" (feed_uio fd1 dest)

  unfoldable pub feed_buf1 : Option ℕ → Act FeedEnd
  feed_buf1 none = pure feed_exits
  feed_buf1 (some fd1) = map_then env fd1 size_dest (feed_dest fd1)

  unfoldable pub open_feed : Act FeedEnd
  open_feed = open_then env "/dev/udmabuf1" feed_buf1

-- With the size of the buffer.
unfoldable pub feed_sized : Env → ℕ → Feed → Option (ℤ × ℕ) → Act FeedEnd
feed_sized env rounds feed none = pure feed_exits
feed_sized env rounds feed (some (status, size_dest)) = open_feed env rounds size_dest feed

-- With the process to notify; the address and the size hold `old_addr` and `old_size` before they are
-- read.
unfoldable pub feed_pid : Env → Texts → ℕ → ℕ → ℕ → Option (Option ℕ) → Act FeedEnd
feed_pid env texts rounds old_addr old_size none = pure feed_returns
feed_pid env texts rounds old_addr old_size (some pid) = do
  (status, phy_dest_addr) ← get_phy_addr env texts dest_buf_id old_addr
  size ← get_buf_size env texts dest_buf_id old_size
  feed_sized env rounds (record { pid = pid; phy_dest_addr = phy_dest_addr }) size

-- Behind the name of the program, one argument at most.
unfoldable pub feed_main : Env → Texts → ℕ → ℕ → ℕ → List Arg → Act FeedEnd
feed_main env texts rounds old_addr old_size args =
    if ltb 1 (length args)
    then pure feed_exits
    else feed_pid env texts rounds old_addr old_size (read_pid args none)

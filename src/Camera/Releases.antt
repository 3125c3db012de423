-- ===== src/Camera/Releases.antt =====
-- What a start of the camera feed that fails gives back.
use Prim.Native.String.{String}
use thesis_software.Base.{
  ℕ, ◌+◌, ◌≡◌, Option, none, some, List, ◌∷◌, ltb, length, arith, Bool-cases, inl, inr,
}
use thesis_software.Base.Int.{ℤ}
use thesis_software.World.{Env, Trace, opened}
use thesis_software.World.Resources.{
  one_if, opens, closes, maps, unmaps, Holds, answered, Holds-same, Holds-opened, Holds-mapped,
  Holds-closed,
}
use thesis_software.Dma.{dest_buf_id}
use thesis_software.Dma.Sysfs.{
  Texts, get_phy_addr, get_buf_size, sysfs_u64, sysfs_opened, size_opened,
}
use thesis_software.Camera.{Feed}
use thesis_software.Camera.Start.{
  Arg, FeedEnd, feed_exits, feed_returns, feed_ran, read_pid, feed_mapped, feed_uio, feed_dest,
  feed_buf1, open_feed, feed_sized, feed_pid, feed_main,
}

-- For a run that returns before its loop: a number is open and mapped as often as before.
abbrev pub FreesFeed : ℕ → Trace → FeedEnd × Trace → Type 0
FreesFeed a t0 (feed_exits, t) = Unit {0}
FreesFeed a t0 (feed_returns, t) =
    (opens a t + closes a t0 ≡ opens a t0 + closes a t)
    × (maps a t + unmaps a t0 ≡ maps a t0 + unmaps a t)
FreesFeed a t0 (feed_ran r, t) = Unit {0}

module _ (a : ℕ) (t0 : Trace) (env : Env) (rounds : ℕ) where
  module _ (size_dest : ℕ) (feed : Feed) where
    feed_mapped-FreesFeed :
        (fd1 dest fd_uio : ℕ) (regs : Option ℕ) (t : Trace)
        → Holds a t0 (0 + one_if fd1 a + one_if fd_uio a) (0 + one_if dest a + answered regs a) t
        → FreesFeed a t0 (feed_mapped env rounds size_dest feed fd1 dest fd_uio regs t)
    unfolding feed_mapped opens closes maps unmaps
    feed_mapped-FreesFeed fd1 dest fd_uio none t h =
        (omega (arith, h.opened_so), omega (arith, h.mapped_so))
    feed_mapped-FreesFeed fd1 dest fd_uio (some regs) t h = tt

    feed_uio-FreesFeed :
        (fd1 dest : ℕ) (fd_uio : Option ℕ) (t : Trace)
        → Holds a t0 (0 + one_if fd1 a + answered fd_uio a) (0 + one_if dest a) t
        → FreesFeed a t0 (feed_uio env rounds size_dest feed fd1 dest fd_uio t)
    unfolding feed_uio opens closes maps unmaps
    feed_uio-FreesFeed fd1 dest none t h = (omega (arith, h.opened_so), omega (arith, h.mapped_so))
    feed_uio-FreesFeed fd1 dest (some fd_uio) t h =
        feed_mapped-FreesFeed fd1 dest fd_uio _ _ (Holds-mapped a t0 _ _ t fd_uio _ _ h)

    feed_dest-FreesFeed :
        (fd1 : ℕ) (dest : Option ℕ) (t : Trace)
        → Holds a t0 (0 + one_if fd1 a) (0 + answered dest a) t
        → FreesFeed a t0 (feed_dest env rounds size_dest feed fd1 dest t)
    unfolding feed_dest opens closes maps unmaps
    feed_dest-FreesFeed fd1 none t h = (omega (arith, h.opened_so), omega (arith, h.mapped_so))
    feed_dest-FreesFeed fd1 (some dest) t h =
        feed_uio-FreesFeed fd1 dest _ _ (Holds-opened a t0 _ _ t _ _ h)

    feed_buf1-FreesFeed :
        (fd1 : Option ℕ) (t : Trace)
        → Holds a t0 (0 + answered fd1 a) 0 t
        → FreesFeed a t0 (feed_buf1 env rounds size_dest feed fd1 t)
    unfolding feed_buf1
    feed_buf1-FreesFeed none t h = tt
    feed_buf1-FreesFeed (some fd1) t h =
        feed_dest-FreesFeed fd1 _ _ (Holds-mapped a t0 _ _ t fd1 _ _ h)

  feed_sized-FreesFeed :
      (feed : Feed) (size : Option (ℤ × ℕ)) (t : Trace)
      → Holds a t0 0 0 t
      → FreesFeed a t0 (feed_sized env rounds feed size t)
  unfolding feed_sized open_feed
  feed_sized-FreesFeed feed none t h = tt
  feed_sized-FreesFeed feed (some (status, size_dest)) t h =
      feed_buf1-FreesFeed size_dest feed _ _ (Holds-opened a t0 0 0 t _ _ h)

  -- The readers of sysfs leave nothing open.
  sysfs_u64-Holds :
      (texts : Texts) (path : String) (t : Trace)
      → Holds a t0 0 0 t
      → Holds a t0 0 0 (sysfs_u64 env texts path t).1
  unfolding sysfs_u64
  sysfs_u64-Holds texts path t h =
      go (env.open_file t path) (Holds-opened a t0 0 0 t path (env.open_file t path) h)
    where
      go :
          (fd : Option ℕ)
          → Holds a t0 (0 + answered fd a) 0 (opened path fd ∷ t)
          → Holds a t0 0 0 (sysfs_opened env texts path fd (opened path fd ∷ t)).1
      go none h' = unfold sysfs_opened in h'
      go (some fd) h' = unfold sysfs_opened in Holds-closed a t0 0 0 _ fd h'

  get_buf_size-Holds :
      (texts : Texts) (index old : ℕ) (t : Trace)
      → Holds a t0 0 0 t
      → Holds a t0 0 0 (get_buf_size env texts index old t).1
  unfolding get_buf_size
  get_buf_size-Holds texts index old t h =
      go (texts.size_path index) (env.open_file t (texts.size_path index))
        (Holds-opened a t0 0 0 t _ _ h)
    where
      go :
          (path : String) (fd : Option ℕ)
          → Holds a t0 (0 + answered fd a) 0 (opened path fd ∷ t)
          → Holds a t0 0 0 (size_opened env texts path old fd (opened path fd ∷ t)).1
      go path none h' = unfold size_opened in h'
      go path (some fd) h' = unfold size_opened in Holds-closed a t0 0 0 _ fd h'

  feed_pid-FreesFeed :
      (texts : Texts) (old_addr old_size : ℕ) (pid : Option (Option ℕ)) (t : Trace)
      → Holds a t0 0 0 t
      → FreesFeed a t0 (feed_pid env texts rounds old_addr old_size pid t)
  unfolding feed_pid get_phy_addr
  feed_pid-FreesFeed texts old_addr old_size none t h =
      (omega (arith, h.opened_so), omega (arith, h.mapped_so))
  feed_pid-FreesFeed texts old_addr old_size (some pid) t h = feed_sized-FreesFeed _ _ _ (
      get_buf_size-Holds texts dest_buf_id old_size _
        (sysfs_u64-Holds texts (texts.phys_addr_path dest_buf_id) t h))

-- A camera feed that returns before its loop, for its argument or a device that cannot be opened or
-- mapped, has given back all that it took: each number `a` was opened as often more than before as it
-- was closed, and mapped as often as unmapped.
pub feed_main-FreesFeed :
    (a : ℕ) (env : Env) (texts : Texts) (rounds old_addr old_size : ℕ) (args : List Arg) (t : Trace)
    → FreesFeed a t (feed_main env texts rounds old_addr old_size args t)
unfolding feed_main
feed_main-FreesFeed a env texts rounds old_addr old_size args t =
    elim (Bool-cases (ltb 1 (length args))) [
      | inl many ↦ rw many tt
      | inr few ↦ rw few (
          feed_pid-FreesFeed a t env rounds texts old_addr old_size (read_pid args none) t
            (Holds-same a t))
    ]

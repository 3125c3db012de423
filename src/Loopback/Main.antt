-- ===== src/Loopback/Main.antt =====
-- The `main` of apps/loopback-app-c/files/loopback-app.c: the argument, the values of sysfs, and the
-- devices.
use thesis_software.Base.{ℕ, ◌-◌, ◌^◌, ◌||◌, Option, none, some, ltb, if◌then◌else◌}
use thesis_software.Base.Int.{ℤ}
use thesis_software.World.{open_then, map_then, Env, closed, unmapped, Act, ◌>>◌, pure, event}
use thesis_software.Loopback.{
  Scan, read_file_u64, read_file_u32, Sizes, End, exits_1, returns_1, or_exit, to_size_t, Memory,
  regs_size, run_loopback,
}

module _ (env : Env) (memory : Memory) (s : Sizes) where
  unfoldable pub on_regs : ℕ → ℕ → ℕ → ℕ → ℕ → Option ℕ → Act End
  on_regs fd0 fd1 src dest fd_uio none = do
    event (closed fd_uio)
    event (unmapped src s.size_src)
    event (unmapped dest s.size_dest)
    event (closed fd1)
    event (closed fd0)
    pure returns_1
  on_regs fd0 fd1 src dest fd_uio (some regs) = run_loopback env memory s (record {
    fd_buf0 = fd0;
    fd_buf1 = fd1;
    src_buf = src;
    dest_buf = dest;
    fd_uio = fd_uio;
    reg_map = regs;
  })

  unfoldable pub on_uio : ℕ → ℕ → ℕ → ℕ → Option ℕ → Act End
  on_uio fd0 fd1 src dest none = do
    event (unmapped src s.size_src)
    event (unmapped dest s.size_dest)
    event (closed fd1)
    event (closed fd0)
    pure returns_1
  on_uio fd0 fd1 src dest (some fd_uio) =
      map_then env fd_uio regs_size (on_regs fd0 fd1 src dest fd_uio)

  unfoldable pub on_dest : ℕ → ℕ → ℕ → Option ℕ → Act End
  on_dest fd0 fd1 src none = do
    event (unmapped src s.size_src)
    event (closed fd1)
    event (closed fd0)
    pure returns_1
  on_dest fd0 fd1 src (some dest) = open_then env "/dev/uio4" (on_uio fd0 fd1 src dest)

  unfoldable pub on_src : ℕ → ℕ → Option ℕ → Act End
  on_src fd0 fd1 none = do event (closed fd1); event (closed fd0); pure returns_1
  on_src fd0 fd1 (some src) = map_then env fd1 s.size_dest (on_dest fd0 fd1 src)

  unfoldable pub on_buf1 : ℕ → Option ℕ → Act End
  on_buf1 fd0 none = pure exits_1
  on_buf1 fd0 (some fd1) = map_then env fd0 s.size_src (on_src fd0 fd1)

  unfoldable pub on_buf0 : Option ℕ → Act End
  on_buf0 none = pure exits_1
  on_buf0 (some fd0) = open_then env "/dev/udmabuf1" (on_buf1 fd0)

  -- Behind the reads of sysfs; a `size_t` is not below 0.
  unfoldable pub on_sizes : Act End
  on_sizes =
      let opens = open_then env "/dev/udmabuf0" on_buf0 in
      if ltb (2 ^ 32 - 1) s.phy_dest || ltb (2 ^ 32 - 1) s.phy_src
      then pure exits_1
      else if ltb s.size_src s.transmission_bytes || ltb s.size_dest s.transmission_bytes
      then pure exits_1
      else opens

abbrev pub sizes : ℤ → ℕ → ℕ → ℕ → ℕ → Sizes
sizes n phy_src phy_dest size_src size_dest = record {
  transmission_bytes = to_size_t n;
  phy_src = phy_src;
  phy_dest = phy_dest;
  size_src = size_src;
  size_dest = size_dest;
}

-- The values of sysfs, the last one first.
abbrev pub with_sizes : Env → Memory → ℤ → ℕ → ℕ → ℕ → ℕ → Act End
with_sizes env memory n phy_src phy_dest size_src size_dest =
    on_sizes env memory (sizes n phy_src phy_dest size_src size_dest)

unfoldable pub read_size_dest : Env → Scan → Memory → ℤ → ℕ → ℕ → ℕ → Act End
read_size_dest env scan memory n phy_src phy_dest size_src =
    or_exit (read_file_u32 env scan "/sys/class/u-dma-buf/udmabuf1/size")
      (with_sizes env memory n phy_src phy_dest size_src)

unfoldable pub read_size_src : Env → Scan → Memory → ℤ → ℕ → ℕ → Act End
read_size_src env scan memory n phy_src phy_dest =
    or_exit (read_file_u32 env scan "/sys/class/u-dma-buf/udmabuf0/size")
      (read_size_dest env scan memory n phy_src phy_dest)

unfoldable pub read_phy_dest : Env → Scan → Memory → ℤ → ℕ → Act End
read_phy_dest env scan memory n phy_src =
    or_exit (read_file_u64 env scan "/sys/class/u-dma-buf/udmabuf1/phys_addr")
      (read_size_src env scan memory n phy_src)

-- The argument, as `atoi` reads it, where there is one.
unfoldable pub loopback_main : Env → Scan → Memory → Option ℤ → Act End
loopback_main env scan memory none = pure exits_1
loopback_main env scan memory (some n) =
    or_exit (read_file_u64 env scan "/sys/class/u-dma-buf/udmabuf0/phys_addr")
      (read_phy_dest env scan memory n)

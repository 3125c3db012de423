-- ===== src/Loopback/Bounds.antt =====
-- The accesses of loopback-app.c to its buffers, over a whole run.
use thesis_software.Base.{
  ℕ, ◌-◌, ◌^◌, ◌≤◌, inl, inr, Bool-cases, ◌||◌, ltb, Option, none, some, arith,
}
use thesis_software.Base.Int.{ℤ}
use thesis_software.World.{Env, Trace, Act}
use thesis_software.Loopback.{
  Scan, Sizes, End, exits_1, read_file_u64, read_file_u32, or_exit, to_size_t, Memory,
}
use thesis_software.Loopback.Main.{
  on_regs, on_uio, on_dest, on_src, on_buf1, on_buf0, on_sizes, sizes, with_sizes, read_size_dest,
  read_size_src, read_phy_dest, loopback_main,
}
use thesis_software.Loopback.Checks.{Checked, run_loopback-Checked}

module _ (env : Env) (memory : Memory) (s : Sizes) where
  abbrev Ends : End × Trace → Type 0
  Ends = Checked memory s.transmission_bytes

  module _ (src_fits : s.transmission_bytes ≤ s.size_src)
      (dest_fits : s.transmission_bytes ≤ s.size_dest) where
    on_regs-Checked :
        (fd0 fd1 src dest fd_uio : ℕ) (regs : Option ℕ) (t : Trace)
        → Ends (on_regs env memory s fd0 fd1 src dest fd_uio regs t)
    unfolding on_regs
    on_regs-Checked fd0 fd1 src dest fd_uio none t = tt
    on_regs-Checked fd0 fd1 src dest fd_uio (some regs) t =
        run_loopback-Checked env memory s _ src_fits dest_fits t

    on_uio-Checked :
        (fd0 fd1 src dest : ℕ) (fd_uio : Option ℕ) (t : Trace)
        → Ends (on_uio env memory s fd0 fd1 src dest fd_uio t)
    unfolding on_uio
    on_uio-Checked fd0 fd1 src dest none t = tt
    on_uio-Checked fd0 fd1 src dest (some fd_uio) t = on_regs-Checked fd0 fd1 src dest fd_uio _ _

    on_dest-Checked :
        (fd0 fd1 src : ℕ) (dest : Option ℕ) (t : Trace)
        → Ends (on_dest env memory s fd0 fd1 src dest t)
    unfolding on_dest
    on_dest-Checked fd0 fd1 src none t = tt
    on_dest-Checked fd0 fd1 src (some dest) t = on_uio-Checked fd0 fd1 src dest _ _

    on_src-Checked :
        (fd0 fd1 : ℕ) (src : Option ℕ) (t : Trace) → Ends (on_src env memory s fd0 fd1 src t)
    unfolding on_src
    on_src-Checked fd0 fd1 none t = tt
    on_src-Checked fd0 fd1 (some src) t = on_dest-Checked fd0 fd1 src _ _

    on_buf1-Checked : (fd0 : ℕ) (fd1 : Option ℕ) (t : Trace) → Ends (on_buf1 env memory s fd0 fd1 t)
    unfolding on_buf1
    on_buf1-Checked fd0 none t = tt
    on_buf1-Checked fd0 (some fd1) t = on_src-Checked fd0 fd1 _ _

    on_buf0-Checked : (fd0 : Option ℕ) (t : Trace) → Ends (on_buf0 env memory s fd0 t)
    unfolding on_buf0
    on_buf0-Checked none t = tt
    on_buf0-Checked (some fd0) t = on_buf1-Checked fd0 _ _

  -- Behind the reads of sysfs, with the guard on the sizes.
  on_sizes-Checked : (t : Trace) → Ends (on_sizes env memory s t)
  unfolding on_sizes
  on_sizes-Checked t =
      elim (Bool-cases (ltb (2 ^ 32 - 1) s.phy_dest || ltb (2 ^ 32 - 1) s.phy_src)) [
        | inl far ↦ rw far tt
        | inr near ↦
            elim (Bool-cases
              (ltb s.size_src s.transmission_bytes || ltb s.size_dest s.transmission_bytes)) [
                | inl long ↦ rw (near, long) tt
                | inr fits ↦
                    rw (near, fits)
                      (on_buf0-Checked (ground (arith, fits)) (ground (arith, fits)) _ _)
              ]
      ]

or_exit-Checked :
    (memory : Memory) (n : ℕ) (m : Act (Option ℕ)) (f : ℕ → Act End) (t : Trace)
    → ((v : ℕ) (t' : Trace) → Checked memory n (f v t'))
    → Checked memory n (or_exit m f t)
or_exit-Checked memory n m f t goes = go (m t).0
  where
    go :
        (o : Option ℕ)
        → Checked memory n (elim o [ none ↦ (exits_1, (m t).1) | some v ↦ f v (m t).1 ])
    go none = tt
    go (some v) = goes v _

-- Whatever sysfs says, a run that is asked for some bytes never reads or writes outside of the buffers, as
-- their sizes are in sysfs; the only number with which it can do so is 0. Where it returns 0, it had
-- bytes to send, the two buffers that it gives back hold as many, and its comparison finds them equal
-- exactly if they agree, when it starts to give back what it holds, on all of those bytes but the last,
-- which it does not look at. A number below 0 counts as the `size_t` that it is made.
pub loopback_main-Checked :
    (env : Env) (scan : Scan) (memory : Memory) (n : ℤ) (t : Trace)
    → Checked memory (to_size_t n) (loopback_main env scan memory (some n) t)
unfolding loopback_main read_phy_dest read_size_src read_size_dest
loopback_main-Checked env scan memory n t =
    let u64 = read_file_u64 env scan in
    let u32 = read_file_u32 env scan in
    let behind = or_exit-Checked memory (to_size_t n) in
    behind (u64 "/sys/class/u-dma-buf/udmabuf0/phys_addr") (read_phy_dest env scan memory n) t
      λ phy_src t1.
        behind (u64 "/sys/class/u-dma-buf/udmabuf1/phys_addr")
          (read_size_src env scan memory n phy_src) t1
          λ phy_dest t2.
            behind (u32 "/sys/class/u-dma-buf/udmabuf0/size")
              (read_size_dest env scan memory n phy_src phy_dest) t2
              λ size_src t3.
                behind (u32 "/sys/class/u-dma-buf/udmabuf1/size")
                  (with_sizes env memory n phy_src phy_dest size_src) t3
                  λ size_dest t4.
                    on_sizes-Checked env memory (sizes n phy_src phy_dest size_src size_dest) t4

-- ===== src/Loopback/Releases.antt =====
-- What a run of the loopback test gives back.
use Prim.Native.String.{String}
use thesis_software.Base.{
  ℕ, zero, suc, ◌+◌, ◌-◌, ◌^◌, ◌≡◌, inl, inr, Bool, true, false, ◌||◌, Option, none, some, ◌∷◌, ltb,
  ◌==◌, arith, Bool-cases,
}
use thesis_software.Base.Int.{ℤ}
use thesis_software.World.{Env, Trace, got, slept, opened, stored, Act, pure, reg_read32}
use thesis_software.World.Resources.{
  one_if, opens, closes, maps, unmaps, Holds, answered, Holds-same, Holds-opened, Holds-mapped,
  Holds-closed,
}
use thesis_software.Dma.{is_idle, is_error}
use thesis_software.Helper.{Bytes}
use thesis_software.Loopback.{
  Scan, read_opened, read_file, Sizes, End, exits_1, returns_1, faults, finishes, or_exit, Devices,
  Memory, s2mm_status, fill_from, program_channels, on_status, wait_done, close_all, check_bytes,
  after_receive_wait, after_send_wait, run_filled, run_loopback, beyond,
}
use thesis_software.Loopback.Checks.{branch}
use thesis_software.Loopback.Main.{
  on_regs, on_uio, on_dest, on_src, on_buf1, on_buf0, on_sizes, sizes, with_sizes, read_size_dest,
  read_size_src, read_phy_dest, loopback_main,
}

-- For a run that returns: a number is open and mapped as often as before.
abbrev pub Frees : ℕ → Trace → End × Trace → Type 0
Frees a t0 (exits_1, t) = Unit {0}
Frees a t0 (faults, t) = Unit {0}
Frees a t0 (returns_1, t) =
    (opens a t + closes a t0 ≡ opens a t0 + closes a t)
    × (maps a t + unmaps a t0 ≡ maps a t0 + unmaps a t)
Frees a t0 (finishes ok, t) =
    (opens a t + closes a t0 ≡ opens a t0 + closes a t)
    × (maps a t + unmaps a t0 ≡ maps a t0 + unmaps a t)

module _ (a : ℕ) (t0 : Trace) where
  on_status-Holds :
      (sr : ℕ) (waits : Act Bool) (o m : ℕ) (t : Trace)
      → Holds a t0 o m t
      → Holds a t0 o m (waits t).1
      → Holds a t0 o m (on_status sr waits t).1
  unfolding on_status
  on_status-Holds sr waits o m t h later = elim (Bool-cases (is_idle sr)) [
    | inl idle ↦ rw idle h
    | inr busy ↦ elim (Bool-cases (is_error sr)) [
      | inl error ↦ rw (busy, error) h
      | inr fine ↦ rw (busy, fine) later
    ]
  ]

  quiet-Holds :
      (off v ms o m : ℕ) (t : Trace)
      → Holds a t0 o m t
      → Holds a t0 o m (got off v ∷ t) × Holds a t0 o m (slept ms ∷ got off v ∷ t)
  unfolding opens closes maps unmaps
  quiet-Holds off v ms o m t h = (
    record { opened_so = h.opened_so; mapped_so = h.mapped_so },
    record { opened_so = h.opened_so; mapped_so = h.mapped_so },
  )

  wait_done-Holds :
      (env : Env) (sr_off n o m : ℕ) (t : Trace)
      → Holds a t0 o m t
      → Holds a t0 o m (wait_done env sr_off n t).1
  unfolding wait_done
  wait_done-Holds env sr_off zero o m t h =
      let q = quiet-Holds sr_off (reg_read32 env sr_off t).0 1 o m t h in
      on_status-Holds (reg_read32 env sr_off t).0 (pure false) o m _ q.0 q.0
  wait_done-Holds env sr_off (suc n) o m t h =
      let q = quiet-Holds sr_off (reg_read32 env sr_off t).0 1 o m t h in
      on_status-Holds (reg_read32 env sr_off t).0 _ o m _ q.0
        (wait_done-Holds env sr_off n o m _ q.1)

  module _ (env : Env) (memory : Memory) (s : Sizes) where
    -- All that is held.
    abbrev HoldsAll : Devices → Trace → Type 0
    HoldsAll d t =
        Holds a t0 (0 + one_if d.fd_buf0 a + one_if d.fd_buf1 a + one_if d.fd_uio a)
          (0 + one_if d.src_buf a + one_if d.dest_buf a + one_if d.reg_map a) t

    check_bytes-Frees :
        (d : Devices) (t : Trace) → HoldsAll d t → Frees a t0 (check_bytes memory s d t)
    unfolding check_bytes close_all opens closes maps unmaps
    check_bytes-Frees d t h =
        branch (Frees a t0)
          (s.transmission_bytes == 0
            || (beyond s.size_src s.transmission_bytes || beyond s.size_dest s.transmission_bytes))
          _ _ (λ outside. tt) (λ inside. (omega (arith, h.opened_so), omega (arith, h.mapped_so)))

    after_receive_wait-Frees :
        (d : Devices) (ok : Bool) (t : Trace)
        → HoldsAll d t
        → Frees a t0 (after_receive_wait memory s d ok t)
    unfolding after_receive_wait
    after_receive_wait-Frees d false t h = tt
    after_receive_wait-Frees d true t h = check_bytes-Frees d t h

    after_send_wait-Frees :
        (d : Devices) (ok : Bool) (t : Trace)
        → HoldsAll d t
        → Frees a t0 (after_send_wait env memory s d ok t)
    unfolding after_send_wait
    after_send_wait-Frees d false t h = tt
    after_send_wait-Frees d true t h =
        after_receive_wait-Frees d _ _ (wait_done-Holds env s2mm_status 10 _ _ t h)

    program-HoldsAll :
        (d : Devices) (bs : Bytes) (t : Trace)
        → HoldsAll d t
        → HoldsAll d (program_channels s (stored d.src_buf bs ∷ t)).1
    unfolding program_channels opens closes maps unmaps
    program-HoldsAll d bs t h = record { opened_so = h.opened_so; mapped_so = h.mapped_so }

    run_filled-Frees :
        (d : Devices) (t : Trace) → HoldsAll d t → Frees a t0 (run_filled env memory s d t)
    unfolding run_filled
    run_filled-Frees d t h =
        after_send_wait-Frees d _ _ (
          wait_done-Holds env _ 10 _ _ _
            (program-HoldsAll d (fill_from 0 s.transmission_bytes) t h))

    run_loopback-Frees :
        (d : Devices) (t : Trace) → HoldsAll d t → Frees a t0 (run_loopback env memory s d t)
    unfolding run_loopback
    run_loopback-Frees d t h =
        branch (Frees a t0) (beyond s.size_src s.transmission_bytes) _ _ (λ outside. tt)
          (λ inside. run_filled-Frees d t h)

    on_regs-Frees :
        (fd0 fd1 src dest fd_uio : ℕ) (regs : Option ℕ) (t : Trace)
        → Holds a t0
            (0 + one_if fd0 a + one_if fd1 a + one_if fd_uio a)
            (0 + one_if src a + one_if dest a + answered regs a)
            t
        → Frees a t0 (on_regs env memory s fd0 fd1 src dest fd_uio regs t)
    unfolding on_regs opens closes maps unmaps
    on_regs-Frees fd0 fd1 src dest fd_uio none t h =
        (omega (arith, h.opened_so), omega (arith, h.mapped_so))
    on_regs-Frees fd0 fd1 src dest fd_uio (some regs) t h = run_loopback-Frees _ t h

    on_uio-Frees :
        (fd0 fd1 src dest : ℕ) (fd_uio : Option ℕ) (t : Trace)
        → Holds a t0
            (0 + one_if fd0 a + one_if fd1 a + answered fd_uio a)
            (0 + one_if src a + one_if dest a)
            t
        → Frees a t0 (on_uio env memory s fd0 fd1 src dest fd_uio t)
    unfolding on_uio opens closes maps unmaps
    on_uio-Frees fd0 fd1 src dest none t h =
        (omega (arith, h.opened_so), omega (arith, h.mapped_so))
    on_uio-Frees fd0 fd1 src dest (some fd_uio) t h =
        on_regs-Frees fd0 fd1 src dest fd_uio _ _ (Holds-mapped a t0 _ _ t fd_uio _ _ h)

    on_dest-Frees :
        (fd0 fd1 src : ℕ) (dest : Option ℕ) (t : Trace)
        → Holds a t0 (0 + one_if fd0 a + one_if fd1 a) (0 + one_if src a + answered dest a) t
        → Frees a t0 (on_dest env memory s fd0 fd1 src dest t)
    unfolding on_dest opens closes maps unmaps
    on_dest-Frees fd0 fd1 src none t h = (omega (arith, h.opened_so), omega (arith, h.mapped_so))
    on_dest-Frees fd0 fd1 src (some dest) t h =
        on_uio-Frees fd0 fd1 src dest _ _ (Holds-opened a t0 _ _ t _ _ h)

    on_src-Frees :
        (fd0 fd1 : ℕ) (src : Option ℕ) (t : Trace)
        → Holds a t0 (0 + one_if fd0 a + one_if fd1 a) (0 + answered src a) t
        → Frees a t0 (on_src env memory s fd0 fd1 src t)
    unfolding on_src opens closes maps unmaps
    on_src-Frees fd0 fd1 none t h = (omega (arith, h.opened_so), omega (arith, h.mapped_so))
    on_src-Frees fd0 fd1 (some src) t h =
        on_dest-Frees fd0 fd1 src _ _ (Holds-mapped a t0 _ _ t fd1 _ _ h)

    on_buf1-Frees :
        (fd0 : ℕ) (fd1 : Option ℕ) (t : Trace)
        → Holds a t0 (0 + one_if fd0 a + answered fd1 a) 0 t
        → Frees a t0 (on_buf1 env memory s fd0 fd1 t)
    unfolding on_buf1
    on_buf1-Frees fd0 none t h = tt
    on_buf1-Frees fd0 (some fd1) t h = on_src-Frees fd0 fd1 _ _ (Holds-mapped a t0 _ _ t fd0 _ _ h)

    on_buf0-Frees :
        (fd0 : Option ℕ) (t : Trace)
        → Holds a t0 (0 + answered fd0 a) 0 t
        → Frees a t0 (on_buf0 env memory s fd0 t)
    unfolding on_buf0
    on_buf0-Frees none t h = tt
    on_buf0-Frees (some fd0) t h = on_buf1-Frees fd0 _ _ (Holds-opened a t0 _ _ t _ _ h)

    on_sizes-Frees : (t : Trace) → Holds a t0 0 0 t → Frees a t0 (on_sizes env memory s t)
    unfolding on_sizes
    on_sizes-Frees t h =
        elim (Bool-cases (ltb (2 ^ 32 - 1) s.phy_dest || ltb (2 ^ 32 - 1) s.phy_src)) [
          | inl far ↦ rw far tt
          | inr near ↦
              elim (Bool-cases
                (ltb s.size_src s.transmission_bytes || ltb s.size_dest s.transmission_bytes)) [
                  | inl long ↦ rw (near, long) tt
                  | inr fits ↦ rw (near, fits) (on_buf0-Frees _ _ (Holds-opened a t0 0 0 t _ _ h))
                ]
        ]

  -- A value read from sysfs leaves nothing open.
  read_file-Frees :
      (env : Env) (content : Bytes → ℕ) (path : String) (f : ℕ → Act End) (t : Trace)
      → Holds a t0 0 0 t
      → ((n : ℕ) (t' : Trace) → Holds a t0 0 0 t' → Frees a t0 (f n t'))
      → Frees a t0 (or_exit (read_file env content path) f t)
  unfolding read_file
  read_file-Frees env content path f t h goes =
      go (env.open_file t path) (Holds-opened a t0 0 0 t path (env.open_file t path) h)
    where
      go :
          (fd : Option ℕ)
          → Holds a t0 (0 + answered fd a) 0 (opened path fd ∷ t)
          → Frees a t0 (or_exit (λ t'. read_opened env content path fd (opened path fd ∷ t)) f t)
      go none h' = unfold read_opened in tt
      go (some fd) h' = unfold read_opened in goes _ _ (Holds-closed a t0 0 0 _ fd h')

-- A run of the loopback test that returns, with an error or behind the comparison, has given back all
-- that it took: each number `a` was opened as often more than before as it was closed, and mapped as
-- often as unmapped. A run that ends with `exit` or reads outside of a buffer is left out.
pub loopback_main-Frees :
    (a : ℕ) (env : Env) (scan : Scan) (memory : Memory) (args : Option ℤ) (t : Trace)
    → Frees a t (loopback_main env scan memory args t)
unfolding loopback_main read_phy_dest read_size_src read_size_dest
loopback_main-Frees a env scan memory none t = tt
loopback_main-Frees a env scan memory (some n) t =
    read_file-Frees a t env _ _ (read_phy_dest env scan memory n) t (Holds-same a t)
      λ phy_src t1 h1.
        read_file-Frees a t env _ _ (read_size_src env scan memory n phy_src) t1 h1
          λ phy_dest t2 h2.
            read_file-Frees a t env _ _ (read_size_dest env scan memory n phy_src phy_dest) t2 h2
              λ size_src t3 h3.
                read_file-Frees a t env _ _ (with_sizes env memory n phy_src phy_dest size_src) t3
                  h3
                  λ size_dest t4 h4.
                    on_sizes-Frees a t env memory (sizes n phy_src phy_dest size_src size_dest) t4
                      h4

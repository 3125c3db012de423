-- ===== src/Stream/Devices/Release.antt =====
-- What the start of the file streamer leaves open and mapped where it fails.
use thesis_software.Base.{ℕ, ◌+◌, ◌≡◌, Option, none, some, arith}
use thesis_software.World.{Env, Trace}
use thesis_software.World.Resources.{
  one_if, opens, closes, maps, unmaps, Holds, answered, Holds-same, Holds-opened, Holds-mapped,
}
use thesis_software.Stream.Devices.{
  Buffers, Start, exits, returns, starts, with_regs, with_uio, with_dest, with_src, with_buf1,
  with_buf0, open_devices,
}

-- For a start that failed and returned: each descriptor and address is open and mapped as often as
-- before.
abbrev pub Released : ℕ → Trace → Start × Trace → Type 0
Released a t0 (exits, t) = Unit {0}
Released a t0 (returns, t) =
    (opens a t + closes a t0 ≡ opens a t0 + closes a t)
    × (maps a t + unmaps a t0 ≡ maps a t0 + unmaps a t)
Released a t0 (starts src, t) = Unit {0}

with_regs-Released :
    (a : ℕ) (b : Buffers) (fd0 fd1 src dest fd_uio : ℕ) (regs : Option ℕ) (t0 t : Trace)
    → Holds a t0
        (0 + one_if fd0 a + one_if fd1 a + one_if fd_uio a)
        (0 + one_if src a + one_if dest a + answered regs a)
        t
    → Released a t0 (with_regs b fd0 fd1 src dest fd_uio regs t)
unfolding with_regs opens closes maps unmaps
with_regs-Released a b fd0 fd1 src dest fd_uio none t0 t h =
    (omega (arith, h.opened_so), omega (arith, h.mapped_so))
with_regs-Released a b fd0 fd1 src dest fd_uio (some regs) t0 t h = tt

with_uio-Released :
    (a : ℕ) (env : Env) (b : Buffers) (fd0 fd1 src dest : ℕ) (fd_uio : Option ℕ) (t0 t : Trace)
    → Holds a t0
        (0 + one_if fd0 a + one_if fd1 a + answered fd_uio a)
        (0 + one_if src a + one_if dest a)
        t
    → Released a t0 (with_uio env b fd0 fd1 src dest fd_uio t)
unfolding with_uio opens closes maps unmaps
with_uio-Released a env b fd0 fd1 src dest none t0 t h =
    (omega (arith, h.opened_so), omega (arith, h.mapped_so))
with_uio-Released a env b fd0 fd1 src dest (some fd_uio) t0 t h =
    with_regs-Released a b fd0 fd1 src dest fd_uio _ t0 _ (Holds-mapped a t0 _ _ t fd_uio _ _ h)

with_dest-Released :
    (a : ℕ) (env : Env) (b : Buffers) (fd0 fd1 src : ℕ) (dest : Option ℕ) (t0 t : Trace)
    → Holds a t0 (0 + one_if fd0 a + one_if fd1 a) (0 + one_if src a + answered dest a) t
    → Released a t0 (with_dest env b fd0 fd1 src dest t)
unfolding with_dest opens closes maps unmaps
with_dest-Released a env b fd0 fd1 src none t0 t h =
    (omega (arith, h.opened_so), omega (arith, h.mapped_so))
with_dest-Released a env b fd0 fd1 src (some dest) t0 t h =
    with_uio-Released a env b fd0 fd1 src dest _ t0 _ (Holds-opened a t0 _ _ t _ _ h)

with_src-Released :
    (a : ℕ) (env : Env) (b : Buffers) (fd0 fd1 : ℕ) (src : Option ℕ) (t0 t : Trace)
    → Holds a t0 (0 + one_if fd0 a + one_if fd1 a) (0 + answered src a) t
    → Released a t0 (with_src env b fd0 fd1 src t)
unfolding with_src opens closes maps unmaps
with_src-Released a env b fd0 fd1 none t0 t h =
    (omega (arith, h.opened_so), omega (arith, h.mapped_so))
with_src-Released a env b fd0 fd1 (some src) t0 t h =
    with_dest-Released a env b fd0 fd1 src _ t0 _ (Holds-mapped a t0 _ _ t fd1 _ _ h)

with_buf1-Released :
    (a : ℕ) (env : Env) (b : Buffers) (fd0 : ℕ) (fd1 : Option ℕ) (t0 t : Trace)
    → Holds a t0 (0 + one_if fd0 a + answered fd1 a) 0 t
    → Released a t0 (with_buf1 env b fd0 fd1 t)
unfolding with_buf1
with_buf1-Released a env b fd0 none t0 t h = tt
with_buf1-Released a env b fd0 (some fd1) t0 t h =
    with_src-Released a env b fd0 fd1 _ t0 _ (Holds-mapped a t0 _ _ t fd0 _ _ h)

with_buf0-Released :
    (a : ℕ) (env : Env) (b : Buffers) (fd0 : Option ℕ) (t0 t : Trace)
    → Holds a t0 (0 + answered fd0 a) 0 t
    → Released a t0 (with_buf0 env b fd0 t)
unfolding with_buf0
with_buf0-Released a env b none t0 t h = tt
with_buf0-Released a env b (some fd0) t0 t h =
    with_buf1-Released a env b fd0 _ t0 _ (Holds-opened a t0 _ _ t _ _ h)

-- Where the start fails at a `mmap` or at the device of the engine and returns 1, every descriptor and
-- every mapping that it made has been given back: each number `a` was opened as often more than before
-- as it was closed, and mapped as often as unmapped.
pub open_devices-Released :
    (a : ℕ) (env : Env) (b : Buffers) (t : Trace) → Released a t (open_devices env b t)
unfolding open_devices
open_devices-Released a env b t =
    with_buf0-Released a env b _ t _ (Holds-opened a t 0 0 t _ _ (Holds-same a t))

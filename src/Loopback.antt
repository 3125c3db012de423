-- ===== src/Loopback.antt =====
-- apps/loopback-app-c/files/loopback-app.c: a block of bytes is sent through the DMA engine and back.
--
-- Parameters are what `sscanf` makes of a text, and what a mapped buffer holds when it is read. That the
-- program reads or writes outside of a buffer, whose sizes are those it maps, is the end `faults`.
pub mod Main
pub mod Releases
pub mod Checks
pub mod Bounds
use Prim.Native.String.{String}
use thesis_software.Base.{
  ℕ, zero, suc, ◌+◌, ◌-◌, ◌*◌, ◌%◌, ◌^◌, Bool, true, false, ◌&&◌, ◌||◌, Option, none, some, List,
  [], ◌∷◌, ltb, ◌==◌, if◌then◌else◌,
}
use thesis_software.Base.Int.{ℤ, pos, negsuc}
use thesis_software.World.{
  Env, Trace, opened, closed, mapped, unmapped, stored, Act, ◌>>=◌, ◌>>◌, pure, event, reg_write32,
  reg_read32, sleep_ms,
}
use thesis_software.Dma.{is_idle, is_error}
use thesis_software.Helper.{Bytes}

abbrev pub mm2s_crtl : ℕ
mm2s_crtl = 0x00

abbrev pub mm2s_status : ℕ
mm2s_status = 0x04

abbrev pub mm2s_src_addr : ℕ
mm2s_src_addr = 0x18

abbrev pub mm2s_length : ℕ
mm2s_length = 0x28

abbrev pub s2mm_crtl : ℕ
s2mm_crtl = 0x30

abbrev pub s2mm_status : ℕ
s2mm_status = 0x34

abbrev pub s2mm_dest_addr : ℕ
s2mm_dest_addr = 0x48

abbrev pub s2mm_length : ℕ
s2mm_length = 0x58

-- `DMA_CRTL_RESET`, and `DMA_CRTL_RUN_STOP | DMA_CTRL_EN_IRQ`.
abbrev pub crtl_reset : ℕ
crtl_reset = 4

abbrev pub crtl_run : ℕ
crtl_run = 0x7001

abbrev pub regs_size : ℕ
regs_size = 0x10000

-- What `sscanf` stores: the 32 bits of "%x" and of "%d". The upper half of a variable of 64 bits keeps
-- what it held.
pub record Scan : Type 0 where
  pub hex : Bytes → ℕ
  pub dec : Bytes → ℕ
  pub high : ℕ

-- What a file of sysfs holds.
abbrev pub file_bytes : Option Bytes → Bytes
file_bytes none = []
file_bytes (some bs) = bs

-- With the answer of `open`; `none` is `exit(1)`.
unfoldable pub read_opened : Env → (Bytes → ℕ) → String → Option ℕ → Act (Option ℕ)
read_opened env content path none t = (none, t)
read_opened env content path (some fd) t =
    (some (content (file_bytes (env.sysfs t path))), closed fd ∷ t)

unfoldable pub read_file : Env → (Bytes → ℕ) → String → Act (Option ℕ)
read_file env content path t =
    let fd = env.open_file t path in read_opened env content path fd (opened path fd ∷ t)

abbrev pub read_file_u64 : Env → Scan → String → Act (Option ℕ)
read_file_u64 env scan path = read_file env (λ bs. scan.hex bs % 2 ^ 32 + 2 ^ 32 * scan.high) path

abbrev pub read_file_u32 : Env → Scan → String → Act (Option ℕ)
read_file_u32 env scan path = read_file env (λ bs. scan.dec bs % 2 ^ 32) path

-- The number of bytes, the addresses and the sizes.
pub record Sizes : Type 0 where
  pub transmission_bytes : ℕ
  pub phy_src : ℕ
  pub phy_dest : ℕ
  pub size_src : ℕ
  pub size_dest : ℕ

-- `exit(1)`, `return 1`, an access outside of a buffer, or `return 0` with `ok`.
pub data End : Type 0 where
  exits_1 : End
  returns_1 : End
  faults : End
  finishes : Bool → End

abbrev pub or_exit : Act (Option ℕ) → (ℕ → Act End) → Act End
or_exit m f t = elim (m t).0 [ none ↦ (exits_1, (m t).1) | some n ↦ f n (m t).1 ]

-- An `int` as a `size_t`.
abbrev pub to_size_t : ℤ → ℕ
to_size_t (pos n) = n
to_size_t (negsuc n) = 2 ^ 64 - (n + 1)

-- The bytes of the source from the index `i` on.
abbrev pub fill_from : ℕ → ℕ → Bytes
fill_from i zero = []
fill_from i (suc n) = i % 256 ∷ fill_from (suc i) n

unfoldable pub program_channels : Sizes → Act (Unit {0})
program_channels s = do
  reg_write32 mm2s_crtl crtl_reset
  reg_write32 s2mm_crtl crtl_reset
  sleep_ms 10
  reg_write32 s2mm_crtl crtl_run
  reg_write32 s2mm_dest_addr s.phy_dest
  reg_write32 mm2s_crtl crtl_run
  reg_write32 mm2s_src_addr s.phy_src
  reg_write32 s2mm_length s.transmission_bytes
  reg_write32 mm2s_length s.transmission_bytes

-- With the status, and what comes behind a time that is not over; `false` is `exit(1)`.
unfoldable pub on_status : ℕ → Act Bool → Act Bool
on_status sr waits t = if is_idle sr then (true, t) else if is_error sr then (false, t) else waits t

unfoldable pub wait_done : Env → ℕ → ℕ → Act Bool
wait_done env sr_off zero = do sr ← reg_read32 env sr_off; on_status sr (pure false)
wait_done env sr_off (suc timeout_ms) = do
  sr ← reg_read32 env sr_off
  on_status sr (do sleep_ms 1; wait_done env sr_off timeout_ms)

-- The comparison from the index `i` on, for a number of bytes.
unfoldable pub compare_from : (ℕ → ℕ) → (ℕ → ℕ) → ℕ → ℕ → Bool → Bool
compare_from src dest i zero ok = ok
compare_from src dest i (suc n) ok =
    compare_from src dest (suc i) n (if dest i == src i then ok else false)

-- The descriptors and addresses that are held.
pub record Devices : Type 0 where
  pub fd_buf0 : ℕ
  pub fd_buf1 : ℕ
  pub src_buf : ℕ
  pub dest_buf : ℕ
  pub fd_uio : ℕ
  pub reg_map : ℕ

unfoldable pub close_all : Sizes → Devices → Act (Unit {0})
close_all s d = do
  event (unmapped d.reg_map regs_size)
  event (closed d.fd_uio)
  event (unmapped d.src_buf s.size_src)
  event (closed d.fd_buf0)
  event (unmapped d.dest_buf s.size_dest)
  event (closed d.fd_buf1)

-- The bytes of the mapped buffers, at the time and from the address given.
abbrev pub Memory : Type 0
Memory = Trace → ℕ → ℕ → ℕ

-- Some access to a buffer of `size` bytes with the indices below `n` is outside of it.
abbrev pub beyond : ℕ → ℕ → Bool
beyond size n = ltb size n

-- The two buffers are read, the source first, on the indices below `transmission_bytes - 1`, which is the
-- largest `size_t` where there are no bytes, and then on that index.
unfoldable pub check_bytes : Memory → Sizes → Devices → Act End
check_bytes memory s d t =
    let ok =
      compare_from (memory t d.src_buf) (memory t d.dest_buf) 0 (s.transmission_bytes - 1) true in
    if s.transmission_bytes == 0
      || (beyond s.size_src s.transmission_bytes || beyond s.size_dest s.transmission_bytes)
    then (faults, t)
    else (do close_all s d; pure (finishes ok)) t

unfoldable pub after_receive_wait : Memory → Sizes → Devices → Bool → Act End
after_receive_wait memory s d false = pure exits_1
after_receive_wait memory s d true = check_bytes memory s d

unfoldable pub after_send_wait : Env → Memory → Sizes → Devices → Bool → Act End
after_send_wait env memory s d false = pure exits_1
after_send_wait env memory s d true = do
  received ← wait_done env s2mm_status 10
  after_receive_wait memory s d received

unfoldable pub run_filled : Env → Memory → Sizes → Devices → Act End
run_filled env memory s d = do
  event (stored d.src_buf (fill_from 0 s.transmission_bytes))
  program_channels s
  sent ← wait_done env mm2s_status 10
  after_send_wait env memory s d sent

-- The filling of the source writes on the indices below `transmission_bytes`.
unfoldable pub run_loopback : Env → Memory → Sizes → Devices → Act End
run_loopback env memory s d t =
    if beyond s.size_src s.transmission_bytes then (faults, t) else run_filled env memory s d t

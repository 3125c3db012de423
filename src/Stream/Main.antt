-- ===== src/Stream/Main.antt =====
-- The `main` of apps/stream-from-file-app/files/stream-from-file-app.c, whole: its arguments, the file, the
-- values of sysfs, and what follows them.
pub mod Whole
use Prim.Native.String.{String}
use thesis_software.Base.{
  ℕ, suc, ◌%◌, ◌^◌, ◌<◌, ◌≡◌, refl, Bool, true, false, Option, none, some, List, [], ◌∷◌, ltb,
  if◌then◌else◌, length, take, arith, Bool-cases, inl, inr,
}
use thesis_software.Base.Int.{ℤ, pos, negsuc}
use thesis_software.World.{Env, Trace, pid_of, opened, closed, Act, ◌>>=◌, ◌>>◌, pure, event}
use thesis_software.Dma.{src_buf_id, dest_buf_id}
use thesis_software.Dma.Sysfs.{
  Texts, Parsed, number, out_of_range, no_number, parsed_number, sysfs_number, sysfs_opened,
  sysfs_u64, or_old, get_phy_addr, found, size_opened, get_buf_size,
}
use thesis_software.Helper.{Bytes}
use thesis_software.Stream.{Setup, Round}
use thesis_software.Stream.Words.{words, AllFile}
use thesis_software.Stream.Devices.{Buffers, run_streamer}
use thesis_software.Stream.Devices.Ready.{Quiet, Quiet-opened, Delivers, run_streamer-Delivers}

-- An argument behind the file's path: "--loop", or one as `strtol` reads it, a whole number or none.
pub data StreamArg : Type 0 where
  loop_flag : StreamArg
  process : Option ℤ → StreamArg

-- `loop_file` and `pid`; `none` is `return 1`.
unfoldable pub read_stream_args : List StreamArg → Bool → Option ℕ → Option (Bool × Option ℕ)
read_stream_args [] loop_file pid = some (loop_file, pid)
read_stream_args (loop_flag ∷ args) loop_file pid = read_stream_args args true pid
read_stream_args (process (some (pos (suc v))) ∷ args) loop_file pid =
    read_stream_args args loop_file (pid_of (suc v))
read_stream_args (_ ∷ args) loop_file pid = none

-- What is around a run: the system, the C library, the texts that `fgets` gives for a path, and what the
-- variables hold before they are set.
pub record Around : Type 0 where
  pub env : Env
  pub texts : Texts
  pub fopen : String → Option (List Bytes)
  pub old : Buffers
  pub old_bytes : Bytes

-- The rounds of the fill loop, and those of the loop.
pub record Rounds : Type 0 where
  pub fill_rounds : ℕ
  pub loop_rounds : ℕ

-- With the size of the destination, of the source, the file, and the arguments; `none` is an end before
-- the loop.
unfoldable pub with_size_dest :
    Around → Rounds → Setup → ℕ → ℕ → ℕ → Option (ℤ × ℕ) → Act (Option Round)
with_size_dest w n c phy_src phy_dest size_src none = pure none
with_size_dest w n c phy_src phy_dest size_src (some (status, size_dest)) =
    run_streamer w.env c
      (record {
        phy_src_addr = phy_src;
        phy_dest_addr = phy_dest;
        size_src_buf = size_src;
        size_dest_buf = size_dest;
      })
      n.fill_rounds n.loop_rounds w.old_bytes

unfoldable pub with_size_src : Around → Rounds → Setup → ℕ → ℕ → Option (ℤ × ℕ) → Act (Option Round)
with_size_src w n c phy_src phy_dest none = pure none
with_size_src w n c phy_src phy_dest (some (status, size_src)) = do
  size_dest ← get_buf_size w.env w.texts dest_buf_id w.old.size_dest_buf
  with_size_dest w n c phy_src phy_dest size_src size_dest

unfoldable pub with_file :
    Around → Rounds → Bool × Option ℕ → Option (List Bytes) → Act (Option Round)
with_file w n args none = pure none
with_file w n args (some whole) = do
  (status_src, phy_src) ← get_phy_addr w.env w.texts src_buf_id w.old.phy_src_addr
  (status_dest, phy_dest) ← get_phy_addr w.env w.texts dest_buf_id w.old.phy_dest_addr
  size_src ← get_buf_size w.env w.texts src_buf_id w.old.size_src_buf
  with_size_src w n
      (record {
        whole = whole;
        loop_file = args.0;
        pid = args.1;
        src_buf = 0;
        phy_dest_addr = phy_dest;
      })
      phy_src phy_dest size_src

unfoldable pub with_args : Around → Rounds → String → Option (Bool × Option ℕ) → Act (Option Round)
with_args w n path none = pure none
with_args w n path (some args) = with_file w n args (w.fopen path)

-- The path and at most two more arguments.
unfoldable pub stream_main : Around → Rounds → Option (String × List StreamArg) → Act (Option Round)
stream_main w n none = pure none
stream_main w n (some (path, args)) =
    if ltb 2 (length args) then pure none else with_args w n path (read_stream_args args false none)

-- ===== src/Stream/Main/Whole.antt =====
-- The whole streamer, from its arguments on.
use Prim.Native.String.{String}
use thesis_software.Base.{
  ℕ, zero, suc, ◌^◌, ◌<◌, ◌≡◌, refl, Bool, true, false, Option, none, some, List, [], ◌∷◌, ltb,
  length, take, arith, Bool-cases, inl, inr,
}
use thesis_software.Base.Int.{ℤ, pos, negsuc}
use thesis_software.World.{Env, Trace, pid_of, opened, closed}
use thesis_software.Dma.{src_buf_id, dest_buf_id}
use thesis_software.Dma.Sysfs.{
  Texts, Parsed, number, out_of_range, no_number, parsed_number, sysfs_number, sysfs_opened,
  sysfs_u64, or_old, get_phy_addr, size_opened, get_buf_size,
}
use thesis_software.Helper.{Bytes}
use thesis_software.Stream.{Setup, Round}
use thesis_software.Stream.Words.{AllFile}
use thesis_software.Stream.Devices.{Buffers}
use thesis_software.Stream.Devices.Ready.{Quiet, Quiet-opened, Delivers, run_streamer-Delivers}
use thesis_software.Stream.Sent.{sent, transmitting}
use thesis_software.Stream.Main.{
  StreamArg, loop_flag, process, read_stream_args, Around, Rounds, with_size_dest, with_size_src,
  with_file, with_args, stream_main,
}

-- Whether "--loop" is among the arguments.
abbrev pub has_loop : List StreamArg → Bool
has_loop [] = false
has_loop (loop_flag ∷ args) = true
has_loop (process p ∷ args) = has_loop args

-- The loop is off where the arguments are accepted.
abbrev Once : Option (Bool × Option ℕ) → Type 0
Once none = Unit {0}
Once (some a) = a.0 ≡ false

read_stream_args-Once :
    (args : List StreamArg) (pid : Option ℕ)
    → has_loop args ≡ false
    → Once (read_stream_args args false pid)
unfolding read_stream_args
read_stream_args-Once [] pid h = refl
read_stream_args-Once (loop_flag ∷ args) pid h = ground arith
read_stream_args-Once (process none ∷ args) pid h = tt
read_stream_args-Once (process (some (pos zero)) ∷ args) pid h = tt
read_stream_args-Once (process (some (pos (suc v))) ∷ args) pid h =
    read_stream_args-Once args (pid_of (suc v)) h
read_stream_args-Once (process (some (negsuc v)) ∷ args) pid h = tt

Quiet-closed : {t : Trace} {fd : ℕ} → Quiet t → Quiet (closed fd ∷ t)
unfolding sent transmitting
Quiet-closed q = record { none_sent = q.none_sent; still_idle = q.still_idle }

-- A value of sysfs is a number of 64 bits, and its reading sends nothing.
sysfs_u64-Quiet :
    (env : Env) (texts : Texts) (path : String) (t : Trace)
    → Quiet t
    → Quiet (sysfs_u64 env texts path t).1
unfolding sysfs_u64
sysfs_u64-Quiet env texts path t q = go (env.open_file t path)
  where
    go : (fd : Option ℕ) → Quiet (sysfs_opened env texts path fd (opened path fd ∷ t)).1
    go none = unfold sysfs_opened in Quiet-opened q
    go (some fd) = unfold sysfs_opened in Quiet-closed (Quiet-opened q)

get_buf_size-Quiet :
    (env : Env) (texts : Texts) (index old : ℕ) (t : Trace)
    → Quiet t
    → Quiet (get_buf_size env texts index old t).1
unfolding get_buf_size
get_buf_size-Quiet env texts index old t q =
    go (texts.size_path index) (env.open_file t (texts.size_path index))
  where
    go :
        (path : String) (fd : Option ℕ)
        → Quiet (size_opened env texts path old fd (opened path fd ∷ t)).1
    go path none = unfold size_opened in Quiet-opened q
    go path (some fd) = unfold size_opened in Quiet-closed (Quiet-opened q)

sysfs_number-lt :
    (texts : Texts) (old : ℕ) (bs : Option (List ℕ))
    → old < 2 ^ 64
    → or_old old (sysfs_number texts bs) < 2 ^ 64
unfolding sysfs_number
sysfs_number-lt texts old none h = h
sysfs_number-lt texts old (some []) h = h
sysfs_number-lt texts old (some (b ∷ bs)) h = go (texts.parse (take 1023 (b ∷ bs)))
  where
    go : (r : Parsed) → or_old old (parsed_number r) < 2 ^ 64
    go (number v) = omega arith
    go out_of_range = h
    go no_number = h

get_phy_addr-lt :
    (env : Env) (texts : Texts) (index old : ℕ) (t : Trace)
    → old < 2 ^ 64
    → (get_phy_addr env texts index old t).0.1 < 2 ^ 64
unfolding get_phy_addr sysfs_u64
get_phy_addr-lt env texts index old t h =
    go (texts.phys_addr_path index) (env.open_file t (texts.phys_addr_path index))
  where
    go :
        (path : String) (fd : Option ℕ)
        → or_old old (sysfs_opened env texts path fd (opened path fd ∷ t)).0 < 2 ^ 64
    go path none = unfold sysfs_opened in h
    go path (some fd) =
        unfold sysfs_opened in
        sysfs_number-lt texts old (env.sysfs (opened path (some fd) ∷ t) path) h

get_phy_addr-Quiet :
    (env : Env) (texts : Texts) (index old : ℕ) (t : Trace)
    → Quiet t
    → Quiet (get_phy_addr env texts index old t).1
unfolding get_phy_addr
get_phy_addr-Quiet env texts index old t q =
    sysfs_u64-Quiet env texts (texts.phys_addr_path index) t q

-- What sysfs gives as the source buffer's physical address, from the start on.
abbrev pub source_address : Around → ℕ
source_address w = (get_phy_addr w.env w.texts src_buf_id w.old.phy_src_addr []).0.1

-- No loop, or a loop that delivers the file from the source buffer at that address.
abbrev pub Delivered : Around → Rounds → List Bytes → Option Round × Trace → Type 0
Delivered w n whole (none, t) = Unit {0}
Delivered w n whole (some r, t) =
    (c : Setup) × (b : Buffers) × (t0 : Trace) × (c.whole ≡ whole)
    × (b.phy_src_addr ≡ source_address w)
    × Delivers w.env c b n.fill_rounds n.loop_rounds w.old_bytes t0 (some r, t)

Delivers-Delivered :
    (w : Around) (n : Rounds) (c : Setup) (b : Buffers) (t0 : Trace) (q : Option Round × Trace)
    → b.phy_src_addr ≡ source_address w
    → Delivers w.env c b n.fill_rounds n.loop_rounds w.old_bytes t0 q
    → Delivered w n c.whole q
Delivers-Delivered w n c b t0 (none, t) e h = tt
Delivers-Delivered w n c b t0 (some r, t) e h = (c, b, t0, refl, e, h)

module _ (w : Around) (n : Rounds) (wide : length w.old_bytes ≡ 8) (enough : 128 < n.fill_rounds)
    (src_fits : w.old.phy_src_addr < 2 ^ 64) (dest_fits : w.old.phy_dest_addr < 2 ^ 64) where
  with_size_dest-Delivers :
      (c : Setup) (phy_src phy_dest size_src : ℕ) (size : Option (ℤ × ℕ)) (t : Trace)
      → phy_src < 2 ^ 64
      → phy_src ≡ source_address w
      → phy_dest < 2 ^ 64
      → c.loop_file ≡ false
      → AllFile c.whole
      → Quiet t
      → Delivered w n c.whole (with_size_dest w n c phy_src phy_dest size_src size t)
  unfolding with_size_dest
  with_size_dest-Delivers c phy_src phy_dest size_src none t a e b once file q = tt
  with_size_dest-Delivers c phy_src phy_dest size_src (some (status, size)) t a e b once file q =
      Delivers-Delivered w n c _ t _ e (
        run_streamer-Delivers w.env c _ n.fill_rounds n.loop_rounds w.old_bytes t a b once enough
          wide file q)

  with_size_src-Delivers :
      (c : Setup) (phy_src phy_dest : ℕ) (size : Option (ℤ × ℕ)) (t : Trace)
      → phy_src < 2 ^ 64
      → phy_src ≡ source_address w
      → phy_dest < 2 ^ 64
      → c.loop_file ≡ false
      → AllFile c.whole
      → Quiet t
      → Delivered w n c.whole (with_size_src w n c phy_src phy_dest size t)
  unfolding with_size_src
  with_size_src-Delivers c phy_src phy_dest none t a e b once file q = tt
  with_size_src-Delivers c phy_src phy_dest (some (status, size)) t a e b once file q =
      with_size_dest-Delivers c phy_src phy_dest size _ _ a e b once file
        (get_buf_size-Quiet w.env w.texts dest_buf_id w.old.size_dest_buf t q)

  with_file-Delivers :
      (args : Bool × Option ℕ) (whole : List Bytes)
      → args.0 ≡ false
      → AllFile whole
      → Quiet []
      → Delivered w n whole (with_file w n args (some whole) [])
  unfolding with_file
  with_file-Delivers args whole once file q =
      let src = get_phy_addr w.env w.texts src_buf_id w.old.phy_src_addr [] in
      let dest = get_phy_addr w.env w.texts dest_buf_id w.old.phy_dest_addr src.1 in
      with_size_src-Delivers
        (record {
          whole = whole;
          loop_file = args.0;
          pid = args.1;
          src_buf = 0;
          phy_dest_addr = dest.0.1;
        })
        src.0.1 dest.0.1 _ _
        (get_phy_addr-lt w.env w.texts src_buf_id w.old.phy_src_addr [] src_fits) refl
        (get_phy_addr-lt w.env w.texts dest_buf_id w.old.phy_dest_addr src.1 dest_fits) once file
        (get_buf_size-Quiet w.env w.texts src_buf_id w.old.size_src_buf dest.1 (
          get_phy_addr-Quiet w.env w.texts dest_buf_id w.old.phy_dest_addr src.1
            (get_phy_addr-Quiet w.env w.texts src_buf_id w.old.phy_src_addr [] q)))

-- The whole streamer, on a file of bytes below 256 and without "--loop" among its arguments, with 129
-- rounds or more for each fill loop: whatever the system answers, a run from its start either does not
-- get to its loop, or has opened and mapped the devices and runs the loop on what "/dev/udmabuf0" is
-- mapped to, and has at every time the sender set to the physical address that sysfs gives for that
-- buffer, and sent from there the words of the file from their start on, in order and without a gap,
-- with no line stored and no transmission begun while one is under way.
pub stream_main-Delivers :
    (w : Around) (n : Rounds) (path : String) (args : List StreamArg) (whole : List Bytes)
    → w.fopen path ≡ some whole
    → AllFile whole
    → has_loop args ≡ false
    → length w.old_bytes ≡ 8
    → 128 < n.fill_rounds
    → w.old.phy_src_addr < 2 ^ 64
    → w.old.phy_dest_addr < 2 ^ 64
    → Delivered w n whole (stream_main w n (some (path, args)) [])
unfolding stream_main
stream_main-Delivers w n path args whole opens file once wide enough src_fits dest_fits =
    elim (Bool-cases (ltb 2 (length args))) [
      | inl many ↦ rw many tt
      | inr few ↦
          rw few (go (read_stream_args args false none) (read_stream_args-Once args none once))
    ]
  where
    go : (a : Option (Bool × Option ℕ)) → Once a → Delivered w n whole (with_args w n path a [])
    go none h = unfold with_args in tt
    go (some a) h =
        unfold with_args in
        rw opens (
          with_file-Delivers w n wide enough src_fits dest_fits a whole h file (record {
            none_sent = λ p. unfold sent in refl;
            still_idle = unfold transmitting in refl;
          }))

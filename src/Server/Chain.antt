-- ===== src/Server/Chain.antt =====
-- The server on top of the driver: the ioctl of apps/xvc-driver-app/files/xvcServer.c is
-- modules/xvc-driver/files/xvc_driver.c. From a client's text to the bytes that it gets back.
use thesis_software.Base.{
  ℕ, suc, ◌+◌, ◌/◌, ◌^◌, ◌≤◌, ◌<◌, ◌≡◌, refl, sym, ap, ◌∙◌, subst, inl, true, Option, none, some,
  [], ◌∷◌, ◌++◌, ◌==◌, if◌then◌else◌, arith, length, drop,
}
use thesis_software.Base.Int.{ℤ, pos, negsuc}
use thesis_software.Xvc.Kernel
use thesis_software.Xvc.Kernel.{Kernel, XilXvcIoc, Buffer, Outcome, done, fault, copied_out, fit}
use thesis_software.Xvc.Shift.{bytes_for, xil_xvc_ioctl}
use thesis_software.Xvc.Shift.Request.{reference_request}
use thesis_software.Xvc.Shift.Returns.{Returns, xil_xvc_ioctl-Returns}
use thesis_software.Xvc.Shift.Whole.{with_buffers, xil_xvc_ioctl-reference_request}
use thesis_software.Server.Sockets.{Bytes, Trace, Net, Shifting, refused, shifted_out, shift_asked}
use thesis_software.Server.{give_tdo, command}
use thesis_software.Server.Stream.{Streams, received, Reads}
use thesis_software.Server.Request.{shifts, read_request, perform, Behind}
use thesis_software.Server.Performs.{command-Performs}
use thesis_software.Server.Client.{shift_text, read_request-shift_text}

-- `xvc_ioc`; the addresses stand for `buffer`, `buffer + nr_bytes` and `result`.
abbrev pub server_request : ℕ → XilXvcIoc
server_request v = record { opcode = 1; length = v; tms_buf = 1; tdi_buf = 2; tdo_buf = 3 }

-- The kernel at the call of a process whose memory holds the two inputs.
abbrev pub serving : Kernel → ℕ → Bytes → Bytes → Kernel
serving k v tms tdi = record k {
  copy_request = λ t arg. (0, server_request v);
  copy_in = λ t src n. (0, if src == 1 then tms else tdi);
  copy_out = λ t dst bs. 0;
}

-- The bytes that the user got last.
unfoldable pub last_out : Kernel.Trace → Bytes
last_out [] = []
last_out (copied_out dst bs ∷ t) = bs
last_out (_ ∷ t) = last_out t

-- What the process sees of the driver's result; nothing where the driver has faulted.
unfoldable pub ioctl_answer : Outcome ℤ → Option Shifting
ioctl_answer (done (pos n) t) = some (shifted_out (last_out t))
ioctl_answer (done (negsuc e) t) = some (refused (suc e))
ioctl_answer (fault t) = none

-- The network's ioctl is the driver's.
abbrev pub Drives : Net → (Trace → Kernel) → Type 0
Drives net k =
    (t : Trace) (v : ℕ) (tms tdi : Bytes) (s : Shifting)
    → ioctl_answer (xil_xvc_ioctl (serving (k t) v tms tdi) 0 []) ≡ some s
    → net.shift t v tms tdi ≡ s

-- The answer of the reference.
abbrev pub reference_answer : Kernel → ℕ → Bytes → Bytes → Option Shifting
reference_answer k v tms tdi =
    let n = bytes_for v in
    ioctl_answer (
      reference_request (serving k v tms tdi) (server_request v) (fit n tms) (fit n tdi)
        (with_buffers n []))

pub perform-give_tdo :
    (net : Net) (fd v n : ℕ) (tms tdi rest : Bytes) (u : Trace)
    → length tms ≡ n
    → perform net fd (shifts v tms tdi rest) u
      ≡ give_tdo net fd n (net.shift u v tms tdi) (shift_asked v tms tdi ∷ u)
unfolding perform
perform-give_tdo net fd v n tms tdi rest u e =
    ap (λ m. give_tdo net fd m (net.shift u v tms tdi) (shift_asked v tms tdi ∷ u)) e

answers : (r : Outcome ℤ) → Returns r → (s : Shifting) × (ioctl_answer r ≡ some s)
unfolding ioctl_answer
answers (done (pos n) t) h = (shifted_out (last_out t), refl)
answers (done (negsuc e) t) h = (refused (suc e), refl)
answers (fault t) h = absurd h

module _ (net : Net) (k : Trace → Kernel) (drives : Drives net k)
    (alloc : (u : Trace) (t : Kernel.Trace) (b : Buffer) (n : ℕ)
      → (k u).can_allocate t b n ≡ true) where
  -- The ioctl on a request that fits.
  shift-reference_answer :
      (t : Trace) (v : ℕ) (tms tdi : Bytes)
      → v < 2 ^ 31
      → reference_answer (k t) v tms tdi ≡ some (net.shift t v tms tdi)
  shift-reference_answer t v tms tdi small =
      let k' = serving (k t) v tms tdi in
      let run =
        xil_xvc_ioctl-reference_request k' 0 [] (server_request v) refl (inl refl) small
          (λ t' b. alloc t t' b (bytes_for v)) (λ t' src. refl) in
      let (s, e) = answers (xil_xvc_ioctl k' 0 []) (xil_xvc_ioctl-Returns k' 0 [] small) in
      ap ioctl_answer (sym run) ∙ (e ∙ ap some (sym (drives t v tms tdi s e)))

  -- A client that asks to shift up to 8192 bits, on a connection that is a stream of bytes to a server whose
  -- ioctl is the driver's, with memory for its buffers: the server reads the request and asks the
  -- driver, whose answer is that of the reference on the TMS and TDI bytes of the client; the server
  -- then gives the client the reference's TDO bytes, or returns its error.
  pub command-reference_answer :
      (fd : ℕ) (stream rest : Bytes) (t : Trace) (v : ℕ) (tms tdi : Bytes)
      → Streams net fd stream
      → drop (received fd t) stream ≡ shift_text v tms tdi ++ rest
      → v ≤ 8192
      → length tms ≡ (v + 7) / 8
      → length tdi ≡ (v + 7) / 8
      → (u : Trace) × (s : Shifting) × Reads fd t u
        × (drop (received fd u) stream ≡ rest)
        × (reference_answer (k u) v tms tdi ≡ some s)
        × (command net fd t ≡ give_tdo net fd ((v + 7) / 8) s (shift_asked v tms tdi ∷ u))
  command-reference_answer fd stream rest t v tms tdi streams at small a b =
      let p = command-Performs net fd stream streams (shift_text v tms tdi ++ rest) t at in
      let req : read_request (shift_text v tms tdi ++ rest) ≡ shifts v tms tdi rest =
        read_request-shift_text v tms tdi rest small a b in
      (
        p.read,
        net.shift p.read v tms tdi,
        p.reads,
        subst (λ r. Behind fd stream r p.read) req p.behind,
        shift-reference_answer p.read v tms tdi (omega arith),
        p.runs
            ∙ (ap (λ r. perform net fd r p.read) req
                ∙ perform-give_tdo net fd v ((v + 7) / 8) tms tdi rest p.read a),
      )

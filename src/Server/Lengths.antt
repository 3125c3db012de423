-- ===== src/Server/Lengths.antt =====
-- The lengths that `handle_data` hands to the ioctl of the driver.
use thesis_software.Base.{
  ℕ, zero, suc, ◌-◌, ◌^◌, ◌≤◌, ◌<◌, ◌≡◌, refl, sym, ap, ◌∙◌, subst, ◌⊎◌, inl, inr, true, Option, [],
  ◌∷◌, ◌++◌, arith, Bool-cases, length, take, drop, replicate,
}
use thesis_software.Xvc.Kernel
use thesis_software.Xvc.Kernel.{Kernel, Buffer}
use thesis_software.Xvc.Shift.{bytes_for, xil_xvc_ioctl}
use thesis_software.Xvc.Shift.Wraps.{xil_xvc_ioctl_wraps}
use thesis_software.Server.Sockets.{
  Bytes, Shifting, refused, shifted_out, shift_asked, Trace, Net, Outcome, Act, done, fault,
}
use thesis_software.Server.{
  Served, next_command, returned, reply, give_tdo, command, after_command, handle_data,
}
use thesis_software.Server.Stream.{Streams, received, Reads, same, arrive, hang}
use thesis_software.Server.Performs.{command-Performs}
use thesis_software.Server.Request.{
  Request, info, period, shifts, rejected, overflows, bytes, claim, read_request, perform, Behind,
}
use thesis_software.Server.Client.{shift_text, Measured, Measured-request, read_shift}
use thesis_software.Server.Chain.{serving, perform-give_tdo}

-- Of every shift that the driver was asked for.
abbrev pub AllMeasured : Trace → Type 0
AllMeasured [] = Unit {0}
AllMeasured (shift_asked v tms tdi ∷ t) =
    (length tms ≡ length tdi)
    × ((v ≤ 8192) × (length tms ≡ bytes_for v) ⊎ (2 ^ 32 - 14 ≤ v) × (length tms ≡ 0))
    × AllMeasured t
AllMeasured (_ ∷ t) = AllMeasured t

abbrev pub Leaves : {A : Type 0} → Outcome A → Type 0
Leaves (done x t) = AllMeasured t
Leaves (fault t) = AllMeasured t

Reads-AllMeasured : {fd : ℕ} {t u : Trace} → Reads fd t u → AllMeasured t → AllMeasured u
Reads-AllMeasured same h = h
Reads-AllMeasured (arrive bs r) h = Reads-AllMeasured r h
Reads-AllMeasured (hang r) h = Reads-AllMeasured r h

reply-AllMeasured :
    (net : Net) (fd : ℕ) (bs : Bytes) (t : Trace) → AllMeasured t → Leaves (reply net fd bs t)
unfolding reply
reply-AllMeasured net fd bs t h = elim (Bool-cases (net.takes t fd bs)) [
  | inl all ↦ rw all h
  | inr cut ↦ rw cut h
]

give_tdo-AllMeasured :
    (net : Net) (fd n : ℕ) (answer : Shifting) (t : Trace)
    → AllMeasured t
    → Leaves (give_tdo net fd n answer t)
unfolding give_tdo
give_tdo-AllMeasured net fd n (refused e) t h = h
give_tdo-AllMeasured net fd n (shifted_out tdo) t h =
    elim (Bool-cases (net.takes t fd (take n (tdo ++ replicate n 0)))) [
      | inl all ↦ rw all h
      | inr cut ↦ rw cut h
    ]

perform-AllMeasured :
    (net : Net) (fd : ℕ) (req : Request) (t : Trace)
    → Measured req
    → AllMeasured t
    → Leaves (perform net fd req t)
unfolding perform
perform-AllMeasured net fd (info rest) t m h = reply-AllMeasured net fd _ t h
perform-AllMeasured net fd (period p rest) t m h = reply-AllMeasured net fd p t h
perform-AllMeasured net fd (shifts v tms tdi rest) t m h =
    give_tdo-AllMeasured net fd (length tms) (net.shift t v tms tdi) (shift_asked v tms tdi ∷ t)
      (m.0, m.1, h)
perform-AllMeasured net fd rejected t m h = h
perform-AllMeasured net fd overflows t m h = h

after_command-AllMeasured :
    (more : Act (Option ℕ)) (r : Outcome Served)
    → Leaves r
    → ((t : Trace) → AllMeasured t → Leaves (more t))
    → Leaves (elim r [ done s t ↦ after_command s more t | fault t ↦ fault t ])
unfolding after_command
after_command-AllMeasured more (done next_command t) g h = h t g
after_command-AllMeasured more (done (returned n) t) g h = g
after_command-AllMeasured more (fault t) g h = g

-- Whatever a client writes, on a connection that is a stream of bytes, after any number of commands, and
-- however `handle_data` ends: each shift that it hands to the driver has as many bytes of TMS as of
-- TDI; either it has at most 8192 bits, and its bytes are as many as the driver copies, or its length
-- is one of the fourteen largest, the negative numbers from -14 on, and it has none. So it was, by
-- hypothesis, of the shifts before.
pub handle_data-AllMeasured :
    (net : Net) (fd : ℕ) (stream : Bytes) (commands : ℕ) (t : Trace)
    → Streams net fd stream
    → AllMeasured t
    → Leaves (handle_data net fd commands t)
unfolding handle_data
handle_data-AllMeasured net fd stream zero t streams h = h
handle_data-AllMeasured net fd stream (suc commands) t streams h =
    let rest = drop (received fd t) stream in
    let p = command-Performs net fd stream streams rest t refl in
    let left =
      perform-AllMeasured net fd (read_request rest) p.read (Measured-request rest)
        (Reads-AllMeasured p.reads h) in
    after_command-AllMeasured (handle_data net fd commands) (command net fd t)
      (subst Leaves (sym p.runs) left)
      (λ t' m. handle_data-AllMeasured net fd stream commands t' streams m)

-- A client can make the driver access its buffers out of their bounds. On a connection that is a stream of
-- bytes, with a request for a negative number of bits from -7 on at its front and no bytes for it: the
-- server reads the request and asks the driver for a shift of that length without bytes; the driver
-- asked so, where buffers of 0 bytes can be allocated, faults.
pub command-overlong :
    (net : Net) (fd : ℕ) (stream rest : Bytes) (t : Trace) (v : ℕ) (k : Kernel)
    → Streams net fd stream
    → drop (received fd t) stream ≡ shift_text v [] [] ++ rest
    → 2 ^ 32 - 7 ≤ v
    → v < 2 ^ 32
    → ((t' : Kernel.Trace) (b : Buffer) → k.can_allocate t' b 0 ≡ true)
    → ((u : Trace) × Reads fd t u
        × (drop (received fd u) stream ≡ rest)
        × (command net fd t ≡ give_tdo net fd 0 (net.shift u v [] []) (shift_asked v [] [] ∷ u)))
      × ((t' : Kernel.Trace) × (xil_xvc_ioctl (serving k v [] []) 0 [] ≡ Kernel.fault t'))
command-overlong net fd stream rest t v k streams at big fits alloc =
    let p = command-Performs net fd stream streams (shift_text v [] [] ++ rest) t at in
    let c : claim v ≡ bytes 0 = ground arith in
    let req : read_request (shift_text v [] [] ++ rest) ≡ shifts v [] [] rest =
      read_shift v 0 [] [] rest fits c refl refl in
    (
      (
        p.read,
        p.reads,
        subst (λ r. Behind fd stream r p.read) req p.behind,
        p.runs
            ∙ (ap (λ r. perform net fd r p.read) req
                ∙ perform-give_tdo net fd v 0 [] [] rest p.read refl),
      ),
      xil_xvc_ioctl_wraps (serving k v [] []) 0 [] refl (inl refl) (omega (arith, big))
          (omega (arith, fits)) alloc (λ t' src. refl),
    )

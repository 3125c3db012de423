-- ===== src/Server/Script.antt =====
-- A client that writes shift after shift and closes its side.
use thesis_software.Base.{
  ℕ, suc, ◌+◌, ◌/◌, ◌≤◌, ◌≡◌, refl, sym, ap, ◌∙◌, subst, true, some, List, [], ◌∷◌, ◌++◌,
  append_assoc, append-nil, ◌==◌, if◌then◌else◌, arith, length, take, drop, replicate,
  length-append, length-take, length-replicate,
}
use thesis_software.Server.Sockets.{
  Bytes, Trace, Net, done, ◌>>=◌, shifted_out, sent_out, shift_asked,
}
use thesis_software.Server.{
  Served, next_command, returned, give_tdo, command, after_command, handle_data,
}
use thesis_software.Server.Stream.{Streams, received, Reads, same, arrive, hang}
use thesis_software.Server.Request.{shifts, read_request, perform, Behind}
use thesis_software.Server.Performs.{command-Performs}
use thesis_software.Server.Client.{shift_text, read_request-shift_text}
use thesis_software.Server.Chain.{perform-give_tdo}

-- A shift with its length in bits.
pub record Shift : Type 0 where
  pub bits : ℕ
  pub tms : Bytes
  pub tdi : Bytes

abbrev pub Fits : Shift → Type 0
Fits s = (s.bits ≤ 8192) × (length s.tms ≡ (s.bits + 7) / 8) × (length s.tdi ≡ (s.bits + 7) / 8)

abbrev pub AllFit : List Shift → Type 0
AllFit [] = Unit {0}
AllFit (s ∷ ss) = Fits s × AllFit ss

abbrev pub script : List Shift → Bytes
script [] = []
script (s ∷ ss) = shift_text s.bits s.tms s.tdi ++ script ss

-- What the driver was asked for, and how many bytes each reply had, the oldest first.
unfoldable pub asked : Trace → List Shift
asked [] = []
asked (shift_asked v tms tdi ∷ t) = asked t ++ record { bits = v; tms = tms; tdi = tdi } ∷ []
asked (_ ∷ t) = asked t

unfoldable pub reply_sizes : ℕ → Trace → List ℕ
reply_sizes fd [] = []
reply_sizes fd (sent_out fd' bs all ∷ t) =
    if fd' == fd then reply_sizes fd t ++ length bs ∷ [] else reply_sizes fd t
reply_sizes fd (_ ∷ t) = reply_sizes fd t

abbrev pub sizes_of : List Shift → List ℕ
sizes_of [] = []
sizes_of (s ∷ ss) = (s.bits + 7) / 8 ∷ sizes_of ss

Reads-asked :
    {fd : ℕ} {t u : Trace}
    → Reads fd t u
    → (asked u ≡ asked t) × (reply_sizes fd u ≡ reply_sizes fd t)
unfolding asked reply_sizes
Reads-asked same = (refl, refl)
Reads-asked (arrive bs r) = Reads-asked r
Reads-asked (hang r) = Reads-asked r

-- A shift of the script, served.
record Shifted (fd : ℕ) (stream : Bytes) (s : Shift) (rest : Bytes) (t u : Trace) : Type 0 where
  behind : drop (received fd u) stream ≡ rest
  was_asked : asked u ≡ asked t ++ s ∷ []
  replied : reply_sizes fd u ≡ reply_sizes fd t ++ (s.bits + 7) / 8 ∷ []

handle_data-command :
    (net : Net) (fd n : ℕ) (t u : Trace) (s : Served)
    → command net fd t ≡ done s u
    → handle_data net fd (suc n) t ≡ after_command s (handle_data net fd n) u
unfolding handle_data
handle_data-command net fd n t u s e =
    ap (λ r. ◌>>=◌ (λ _. r) (λ s'. after_command s' (handle_data net fd n)) t) e

module _ (net : Net) (fd : ℕ) (stream : Bytes) (streams : Streams net fd stream)
    (takes : (t : Trace) (bs : Bytes) → net.takes t fd bs ≡ true)
    (shifts_all : (t : Trace) (v : ℕ) (tms tdi : Bytes)
      → (tdo : Bytes) × (net.shift t v tms tdi ≡ shifted_out tdo)) where
  give_tdo-Shifted :
      (s : Shift) (rest tdo : Bytes) (t u : Trace)
      → Reads fd t u
      → drop (received fd u) stream ≡ rest
      → (u' : Trace) × (give_tdo net fd
            ((s.bits + 7) / 8)
            (shifted_out tdo)
            (shift_asked s.bits s.tms s.tdi ∷ u)
          ≡ done next_command u')
        × Shifted fd stream s rest t u'
  unfolding give_tdo asked reply_sizes received
  give_tdo-Shifted s rest tdo t u reads at =
      let n = (s.bits + 7) / 8 in
      let zeros : Bytes = replicate n 0 in
      let out = take n (tdo ++ zeros) in
      let size : length out ≡ n = omega (
        arith,
        length-take n (tdo ++ zeros),
        length-append tdo zeros,
        length-replicate {A = ℕ} n 0,
      ) in
      let own : (fd == fd) ≡ true = ground arith in
      let (same_asked, same_sizes) = Reads-asked reads in
      (
        sent_out fd out (net.takes (shift_asked s.bits s.tms s.tdi ∷ u) fd out)
            ∷ shift_asked s.bits s.tms s.tdi
            ∷ u,
        rw (takes _ out) refl,
        record {
          behind = at;
          was_asked = ap (λ l. l ++ s ∷ []) same_asked;
          replied = rw (own, size, same_sizes) refl;
        },
      )

  -- One shift of the script.
  command-Shifted :
      (s : Shift) (rest : Bytes) (t : Trace)
      → Fits s
      → drop (received fd t) stream ≡ shift_text s.bits s.tms s.tdi ++ rest
      → (u : Trace) × (command net fd t ≡ done next_command u) × Shifted fd stream s rest t u
  command-Shifted s rest t (small, a, b) at =
      let p = command-Performs net fd stream streams (shift_text s.bits s.tms s.tdi ++ rest) t at in
      let req : read_request (shift_text s.bits s.tms s.tdi ++ rest)
          ≡ shifts s.bits s.tms s.tdi rest =
        read_request-shift_text s.bits s.tms s.tdi rest small a b in
      let (tdo, gives) = shifts_all p.read s.bits s.tms s.tdi in
      let (u, run, sh) =
        give_tdo-Shifted s rest tdo t p.read p.reads
          (subst (λ r. Behind fd stream r p.read) req p.behind) in
      let asks = shift_asked s.bits s.tms s.tdi ∷ p.read in
      (
        u,
        p.runs
            ∙ (ap (λ r. perform net fd r p.read) req
                ∙ (perform-give_tdo net fd s.bits ((s.bits + 7) / 8) s.tms s.tdi rest p.read a
                    ∙ (ap (λ x. give_tdo net fd ((s.bits + 7) / 8) x asks) gives ∙ run))),
        sh,
      )

  -- A client that writes a script of shifts of up to 8192 bits and closes its side, on a connection that
  -- is a stream of bytes and takes what is written, to a server whose driver refuses no shift: the
  -- driver is asked for exactly these shifts, in their order, each with its own TMS and TDI bytes, the
  -- client gets one reply for each, of (bits + 7) / 8 bytes, and the server then returns 1.
  pub handle_data-script :
      (ss : List Shift) (t : Trace)
      → AllFit ss
      → drop (received fd t) stream ≡ script ss
      → (u : Trace) × (handle_data net fd (suc (length ss)) t ≡ done (some 1) u)
        × (asked u ≡ asked t ++ ss)
        × (reply_sizes fd u ≡ reply_sizes fd t ++ sizes_of ss)
  unfolding after_command
  handle_data-script [] t fit at =
      let p = command-Performs net fd stream streams [] t at in
      let (same_asked, same_sizes) = Reads-asked p.reads in
      let ends : command net fd t ≡ done (returned 1) p.read =
        p.runs ∙ (unfold read_request perform in refl) in
      (
        p.read,
        handle_data-command net fd 0 t p.read (returned 1) ends,
        same_asked ∙ sym (append-nil (asked t)),
        same_sizes ∙ sym (append-nil (reply_sizes fd t)),
      )
  handle_data-script (s ∷ ss) t (fit, fits) at =
      let (u, run, sh) = command-Shifted s (script ss) t fit at in
      let (v, rest, all_asked, all_replied) = handle_data-script ss u fits sh.behind in
      (
        v,
        handle_data-command net fd (suc (length ss)) t u next_command run ∙ rest,
        all_asked ∙ (ap (λ l. l ++ ss) sh.was_asked ∙ append_assoc (asked t) (s ∷ []) ss),
        all_replied
            ∙ (ap (λ l. l ++ sizes_of ss) sh.replied
                ∙ append_assoc (reply_sizes fd t) ((s.bits + 7) / 8 ∷ []) (sizes_of ss)),
      )

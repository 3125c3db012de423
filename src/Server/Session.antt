-- ===== src/Server/Session.antt =====
-- A connection from its first command to its end.
use thesis_software.Base.{
  ℕ, zero, suc, ◌<◌, ◌≡◌, refl, sym, subst, inl, inr, Option, none, some, ◌++◌, arith, Bool-cases,
  length, take, drop, replicate,
}
use thesis_software.Server.Sockets.{
  Bytes, Shifting, refused, shifted_out, Trace, Net, Outcome, Act, done, fault,
}
use thesis_software.Server.{
  Served, next_command, returned, reply, give_tdo, command, after_command, handle_data,
}
use thesis_software.Server.Stream.{Streams, received}
use thesis_software.Server.Cases.{request_cases}
use thesis_software.Server.Performs.{command-Performs}
use thesis_software.Server.Request.{
  Request, info, period, shifts, rejected, overflows, read_request, perform, Behind,
}

-- A request takes its bytes off the stream.
abbrev Shorter : ℕ → Request → Type 0
Shorter n (shifts v tms tdi rest) = length rest < n
Shorter n _ = Unit {0}

Shorter-request : (bs : Bytes) → Shorter (length bs) (read_request bs)
Shorter-request bs =
    request_cases (Shorter (length bs)) bs tt tt (λ rest. tt) (λ p rest. tt)
      (λ v n buffer rest e size less. less)

-- Where another command follows, less of the stream is left for it.
abbrev Goes : ℕ → Bytes → ℕ → Outcome Served → Type 0
Goes fd stream m (done next_command t) = length (drop (received fd t) stream) < m
Goes fd stream m (done (returned n) t) = Unit {0}
Goes fd stream m (fault t) = Unit {0}

reply-Goes :
    (net : Net) (fd m : ℕ) (stream bs : Bytes) (t : Trace) → Goes fd stream m (reply net fd bs t)
unfolding reply
reply-Goes net fd m stream bs t = elim (Bool-cases (net.takes t fd bs)) [
  | inl all ↦ rw all tt
  | inr cut ↦ rw cut tt
]

give_tdo-Goes :
    (net : Net) (fd m n : ℕ) (stream rest : Bytes) (answer : Shifting) (t : Trace)
    → drop (received fd t) stream ≡ rest
    → length rest < m
    → Goes fd stream m (give_tdo net fd n answer t)
unfolding give_tdo
give_tdo-Goes net fd m n stream rest (refused e) t at h = tt
give_tdo-Goes net fd m n stream rest (shifted_out tdo) t at h =
    elim (Bool-cases (net.takes t fd (take n (tdo ++ replicate n 0)))) [
      | inl all ↦ rw all (unfold received in rw at h)
      | inr cut ↦ rw cut tt
    ]

perform-Goes :
    (net : Net) (fd m : ℕ) (stream : Bytes) (req : Request) (t : Trace)
    → Behind fd stream req t
    → Shorter m req
    → Goes fd stream m (perform net fd req t)
unfolding perform
perform-Goes net fd m stream (info rest) t b h = reply-Goes net fd m stream _ t
perform-Goes net fd m stream (period p rest) t b h = reply-Goes net fd m stream p t
perform-Goes net fd m stream (shifts v tms tdi rest) t b h =
    give_tdo-Goes net fd m (length tms) stream rest (net.shift t v tms tdi) _ (unfold received in b)
      h
perform-Goes net fd m stream rejected t b h = tt
perform-Goes net fd m stream overflows t b h = tt

-- The function has returned, or the arithmetic on a length overflowed.
abbrev pub Ends : Outcome (Option ℕ) → Type 0
Ends (done none t) = ⊥
Ends (done (some n) t) = Unit {0}
Ends (fault t) = Unit {0}

after_command-Ends :
    (fd : ℕ) (stream : Bytes) (m : ℕ) (more : Act (Option ℕ)) (r : Outcome Served)
    → Goes fd stream m r
    → ((t : Trace) → length (drop (received fd t) stream) < m → Ends (more t))
    → Ends (elim r [ done s t ↦ after_command s more t | fault t ↦ fault t ])
unfolding after_command
after_command-Ends fd stream m more (done next_command t) g h = h t g
after_command-Ends fd stream m more (done (returned n) t) g h = tt
after_command-Ends fd stream m more (fault t) g h = tt

-- On a connection that is a stream of bytes, `handle_data` comes to an end with the stream: it needs no
-- more commands than there are bytes left, and one.
pub handle_data-Ends :
    (net : Net) (fd : ℕ) (stream : Bytes) (commands : ℕ) (t : Trace)
    → Streams net fd stream
    → length (drop (received fd t) stream) < commands
    → Ends (handle_data net fd commands t)
unfolding handle_data
handle_data-Ends net fd stream zero t streams h = absurd (omega (arith, h))
handle_data-Ends net fd stream (suc commands) t streams h =
    let rest = drop (received fd t) stream in
    let p = command-Performs net fd stream streams rest t refl in
    let goes =
      perform-Goes net fd (length rest) stream (read_request rest) p.read p.behind
        (Shorter-request rest) in
    after_command-Ends fd stream (length rest) (handle_data net fd commands) (command net fd t)
      (subst (Goes fd stream (length rest)) (sym p.runs) goes)
      (λ t' less. handle_data-Ends net fd stream commands t' streams (omega (arith, h, less)))

-- ===== src/Server/Listen/Serve.antt =====
-- The loop keeps its set: every turn, every round, every number of rounds.
use thesis_software.Base.{
  ℕ, zero, suc, ◌≡◌, sym, ap, ◌∙◌, inl, inr, Bool, true, Option, none, some, ◌∷◌, leb, ◌==◌,
  if◌then◌else◌, ◌&&◌, arith, Bool-cases,
}
use thesis_software.Server.Sockets.{
  Selected, select_failed, select_ready, select_called, accepted, Trace, Net, Outcome, done, fault,
  Act, pure,
}
use thesis_software.Server.{handle_data}
use thesis_software.Server.Listen.{
  fd_setsize, Conns, take_connection, accept_connection, close_connection, Visited, goes_on, breaks,
  unended, after_data, serve_ready, abort_connection, visit, after_visit, scan, Serving, after_scan,
  after_select, serve,
}
use thesis_software.Server.Listen.Opened.{is_open, device_of, UsesOpen}
use thesis_software.Server.Listen.Kept.{Keeps, Kept, handle_data-Kept}
use thesis_software.Server.Listen.Owns.{
  AcceptsFresh, Owns, Leads, bind-Leads, Pending, Turned, Scanned, StillOwns, and_true, Owns-Keeps,
  Pending-suc, close_connection-Owns, take_connection-Owns,
}

module _ (net : Net) (fresh : AcceptsFresh net) (dev s commands : ℕ) (old : ℕ → Bool) where
  module _ (fd : ℕ) (c : Conns) (t : Trace) (o : Owns dev c t) (p : Pending old fd c) where
    after_data-Turned :
        (r : Option ℕ) (t' : Trace)
        → Keeps t t'
        → c.conn fd ≡ true
        → Leads (Turned dev old fd) (after_data fd c r t')
    unfolding after_data
    after_data-Turned none t' k h = k.uses
    after_data-Turned (some zero) t' k h = (Owns-Keeps o k, Pending-suc dev old fd c p)
    after_data-Turned (some (suc n)) t' k h =
        bind-Leads _ (Turned dev old fd) (λ c'. pure (goes_on c')) (close_connection fd c t')
          (close_connection-Owns dev old fd c t' (Owns-Keeps o k) p h) (λ c' t' q. q)

    handled-Turned :
        (r : Outcome (Option ℕ))
        → Kept t r
        → c.conn fd ≡ true
        → Leads
            (Turned dev old fd)
            (elim r [ done a t' ↦ after_data fd c a t' | fault t' ↦ fault t' ])
    handled-Turned (done a t') k h = after_data-Turned a t' k h
    handled-Turned (fault t') k h = k.uses

    serve_ready-Turned :
        c.conn fd ≡ true → Leads (Turned dev old fd) (serve_ready net s commands fd c t)
    unfolding serve_ready accept_connection
    serve_ready-Turned h = elim (Bool-cases (fd == s)) [
      | inl listener ↦
          let e : fd ≡ s = ground arith in
          rw listener (
            bind-Leads _ (Turned dev old fd) (λ c'. pure (goes_on c'))
              (take_connection c (net.accepts t s) (accepted s (net.accepts t s) ∷ t))
              (take_connection-Owns dev old fd c s (net.accepts t s) t o p
                (ap (is_open t) (sym e) ∙ o.owned fd h) (fresh t s))
              (λ c' t' q. q))
      | inr connection ↦ rw connection (
          handled-Turned (handle_data net fd commands t)
            (handle_data-Kept net fd commands t (o.owned fd h) (dev, o.opened_last, o.device)
              o.uses)
            h)
    ]

    abort_connection-Turned :
        c.conn fd ≡ true → Leads (Turned dev old fd) (abort_connection s fd c t)
    unfolding abort_connection
    abort_connection-Turned h =
        bind-Leads _ (Turned dev old fd) (λ c'. pure (if fd == s then breaks c' else goes_on c'))
          (close_connection fd c t) (close_connection-Owns dev old fd c t o p h)
          (λ c' t' q. elim (Bool-cases (fd == s)) [
            | inl listener ↦ rw listener q.0
            | inr connection ↦ rw connection q
          ])

    visit-Turned :
        (reads excepts : ℕ → Bool)
        → Leads
            (Turned dev old fd)
            (visit net s commands (λ x. old x && reads x) (λ x. old x && excepts x) fd c t)
    unfolding visit
    visit-Turned reads excepts = elim (Bool-cases (old fd && reads fd)) [
      | inl read ↦
          rw read (serve_ready-Turned (p fd (omega arith) (and_true (old fd) (reads fd) read)))
      | inr quiet ↦ elim (Bool-cases (old fd && excepts fd)) [
        | inl except ↦
            rw (quiet, except)
              (abort_connection-Turned (p fd (omega arith) (and_true (old fd) (excepts fd) except)))
        | inr none_there ↦ rw (quiet, none_there) (o, Pending-suc dev old fd c p)
      ]
    ]

  after_visit-Scanned :
      (fd : ℕ) (more : Conns → Act (Option Conns)) (v : Visited) (t : Trace)
      → Turned dev old fd v t
      → ((c : Conns) (t' : Trace)
          → Owns dev c t'
          → Pending old (suc fd) c
          → Leads (Scanned dev) (more c t'))
      → Leads (Scanned dev) (after_visit v more t)
  unfolding after_visit
  after_visit-Scanned fd more (goes_on c) t (o, p) h = h c t o p
  after_visit-Scanned fd more (breaks c) t o h = o
  after_visit-Scanned fd more unended t u h = u

  scan-Scanned :
      (reads excepts : ℕ → Bool) (turns fd : ℕ) (c : Conns) (t : Trace)
      → Owns dev c t
      → Pending old fd c
      → Leads
          (Scanned dev)
          (scan net s commands (λ x. old x && reads x) (λ x. old x && excepts x) turns fd c t)
  unfolding scan
  scan-Scanned reads excepts zero fd c t o p = o.uses
  scan-Scanned reads excepts (suc turns) fd c t o p =
      let read : ℕ → Bool = λ x. old x && reads x in
      let except : ℕ → Bool = λ x. old x && excepts x in
      let more = scan net s commands read except turns (suc fd) in
      elim (Bool-cases (leb fd c.maxfd)) [
        | inl another ↦ rw another (
            bind-Leads (Turned dev old fd) (Scanned dev) (λ v. after_visit v more)
              (visit net s commands read except fd c t) (visit-Turned fd c t o p reads excepts)
              (λ v t' q.
                after_visit-Scanned fd more v t' q (scan-Scanned reads excepts turns (suc fd))))
        | inr over ↦ rw over o
      ]

module _ (net : Net) (fresh : AcceptsFresh net) (dev s commands : ℕ) where
  after_scan-StillOwns :
      (r : Option Conns) (more : Conns → Act Serving) (t : Trace)
      → Scanned dev r t
      → ((c : Conns) (t' : Trace) → Owns dev c t' → Leads (StillOwns dev) (more c t'))
      → Leads (StillOwns dev) (after_scan r more t)
  unfolding after_scan
  after_scan-StillOwns none more t u h = u
  after_scan-StillOwns (some c) more t o h = h c t o

  after_select-StillOwns :
      (r : Selected) (more : Conns → Act Serving) (c : Conns) (t : Trace)
      → Owns dev c t
      → ((c : Conns) (t' : Trace) → Owns dev c t' → Leads (StillOwns dev) (more c t'))
      → Leads (StillOwns dev) (after_select net s commands c r more t)
  unfolding after_select
  after_select-StillOwns select_failed more c t o h = (o.device, o.uses)
  after_select-StillOwns (select_ready reads excepts) more c t o h =
      bind-Leads (Scanned dev) (StillOwns dev) (λ r. after_scan r more) _
        (scan-Scanned net fresh dev s commands c.conn reads excepts (suc fd_setsize) 0 c t o
          (λ x le e. e))
        (λ r t' q. after_scan-StillOwns r more t' q h)

  select_called-Owns : (c : Conns) (t : Trace) → Owns dev c t → Owns dev c (select_called ∷ t)
  unfolding is_open device_of UsesOpen
  select_called-Owns c t o = record {
    owned = o.owned;
    low = o.low;
    in_set = o.in_set;
    device = o.device;
    opened_last = o.opened_last;
    apart = o.apart;
    uses = o.uses;
  }

  -- For any answers of the system, as long as `accept` gives a descriptor that is not in use: from a set
  -- of open descriptors of at most `maxfd`, without the device, the server reads from, writes to, sets up,
  -- accepts on and closes open descriptors only, and keeps its set so, with the device open. A fault
  -- comes behind uses of open descriptors too.
  pub serve-Owns :
      (rounds : ℕ) (c : Conns) (t : Trace)
      → Owns dev c t
      → Leads (StillOwns dev) (serve net s commands rounds c t)
  unfolding serve
  serve-Owns zero c t o = o
  serve-Owns (suc rounds) c t o =
      after_select-StillOwns (net.selects t) (serve net s commands rounds) c (select_called ∷ t)
        (select_called-Owns c t o) (serve-Owns rounds)

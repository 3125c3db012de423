-- ===== src/Server/Listen/Turns.antt =====
-- The loop over the descriptors comes to an end.
use thesis_software.Base.{
  ℕ, zero, suc, ◌+◌, ◌≤◌, ◌<◌, inl, inr, Bool, Option, none, some, ◌∷◌, ltb, leb, ◌==◌, ◌&&◌, arith,
  Bool-cases,
}
use thesis_software.Server.Sockets.{
  Selected, select_failed, select_ready, accepted, Trace, Net, Outcome, done, fault, Act, pure,
}
use thesis_software.Server.{handle_data}
use thesis_software.Server.Session.{Ends}
use thesis_software.Server.Listen.{
  fd_setsize, Conns, take_connection, accept_connection, close_connection, Visited, goes_on, breaks,
  unended, after_data, serve_ready, abort_connection, visit, after_visit, scan, Serving, waits,
  left, stuck, after_scan, after_select, serve,
}

abbrev Fits : Visited → Type 0
Fits (goes_on c) = c.maxfd < fd_setsize
Fits (breaks c) = c.maxfd < fd_setsize
Fits unended = ⊥

abbrev FitsSome : Option Conns → Type 0
FitsSome none = ⊥
FitsSome (some c) = c.maxfd < fd_setsize

-- The loop has been left, or waits again.
abbrev pub Serves : Serving → Type 0
Serves (waits c) = Unit {0}
Serves left = Unit {0}
Serves stuck = ⊥

-- A fault, or a result with a property.
abbrev pub Gives {ℓ} : {A : Type ℓ} → (A → Type 0) → Outcome A → Type 0
Gives P (done a t) = P a
Gives P (fault t) = Unit {0}

bind-Gives {ℓ κ} :
    {A : Type ℓ} {B : Type κ} (P : A → Type 0) (Q : B → Type 0) (f : A → Act B) (r : Outcome A)
    → Gives P r
    → ((a : A) (t : Trace) → P a → Gives Q (f a t))
    → Gives Q (elim r [ done a t ↦ f a t | fault t ↦ fault t ])
bind-Gives P Q f (done a t) p h = h a t p
bind-Gives P Q f (fault t) p h = tt

take_connection-Fits :
    (c : Conns) (newfd : Option ℕ) (t : Trace)
    → c.maxfd < fd_setsize
    → Gives (λ c'. c'.maxfd < fd_setsize) (take_connection c newfd t)
unfolding take_connection
take_connection-Fits c none t h = h
take_connection-Fits c (some n) t h = elim (Bool-cases (ltb n fd_setsize)) [
  | inl fits ↦ rw fits (ground arith)
  | inr beyond ↦ rw beyond tt
]

module _ (net : Net) (s commands : ℕ)
    (ends : (fd : ℕ) (t : Trace) → Ends (handle_data net fd commands t)) where
  handled-Fits :
      (fd : ℕ) (c : Conns) (r : Outcome (Option ℕ))
      → c.maxfd < fd_setsize
      → Ends r
      → Gives Fits (elim r [ done a t ↦ after_data fd c a t | fault t ↦ fault t ])
  unfolding after_data close_connection
  handled-Fits fd c (done none t) h e = e
  handled-Fits fd c (done (some zero) t) h e = h
  handled-Fits fd c (done (some (suc n)) t) h e = h
  handled-Fits fd c (fault t) h e = tt

  serve_ready-Fits :
      (fd : ℕ) (c : Conns) (t : Trace)
      → c.maxfd < fd_setsize
      → Gives Fits (serve_ready net s commands fd c t)
  unfolding serve_ready accept_connection
  serve_ready-Fits fd c t h = elim (Bool-cases (fd == s)) [
    | inl listener ↦ rw listener (
        bind-Gives _ Fits (λ c'. pure (goes_on c'))
          (take_connection c (net.accepts t s) (accepted s (net.accepts t s) ∷ t))
          (take_connection-Fits c (net.accepts t s) _ h) (λ c' t' h'. h'))
    | inr connection ↦
        rw connection (handled-Fits fd c (handle_data net fd commands t) h (ends fd t))
  ]

  visit-Fits :
      (read except : ℕ → Bool) (fd : ℕ) (c : Conns) (t : Trace)
      → c.maxfd < fd_setsize
      → Gives Fits (visit net s commands read except fd c t)
  unfolding visit abort_connection close_connection
  visit-Fits read except fd c t h = elim (Bool-cases (read fd)) [
    | inl now ↦ rw now (serve_ready-Fits fd c t h)
    | inr quiet ↦ elim (Bool-cases (except fd)) [
      | inl broken ↦ elim (Bool-cases (fd == s)) [
        | inl listener ↦ rw (quiet, broken, listener) h
        | inr connection ↦ rw (quiet, broken, connection) h
      ]
      | inr none_there ↦ rw (quiet, none_there) h
    ]
  ]

  after_visit-Fits :
      (v : Visited) (more : Conns → Act (Option Conns)) (t : Trace)
      → Fits v
      → ((c : Conns) (t' : Trace) → c.maxfd < fd_setsize → Gives FitsSome (more c t'))
      → Gives FitsSome (after_visit v more t)
  unfolding after_visit
  after_visit-Fits (goes_on c) more t f h = h c t f
  after_visit-Fits (breaks c) more t f h = f
  after_visit-Fits unended more t f h = f

  scan-Fits :
      (read except : ℕ → Bool) (turns fd : ℕ) (c : Conns) (t : Trace)
      → c.maxfd < fd_setsize
      → fd ≤ fd_setsize
      → fd_setsize < turns + fd
      → Gives FitsSome (scan net s commands read except turns fd c t)
  unfolding scan
  scan-Fits read except zero fd c t h low enough = absurd (omega (arith, low, enough))
  scan-Fits read except (suc turns) fd c t h low enough = elim (Bool-cases (leb fd c.maxfd)) [
    | inl another ↦
        let more = scan net s commands read except turns (suc fd) in
        rw another (
          bind-Gives Fits FitsSome (λ v. after_visit v more)
            (visit net s commands read except fd c t) (visit-Fits read except fd c t h)
            (λ v t' f. after_visit-Fits v more t' f (λ c' t'' h'.
              scan-Fits read except turns (suc fd) c' t'' h' (ground arith)
                (omega (arith, enough)))))
    | inr over ↦ rw over h
  ]

  after_scan-Serves :
      (r : Option Conns) (more : Conns → Act Serving) (t : Trace)
      → FitsSome r
      → ((c : Conns) (t' : Trace) → c.maxfd < fd_setsize → Gives Serves (more c t'))
      → Gives Serves (after_scan r more t)
  unfolding after_scan
  after_scan-Serves none more t f h = f
  after_scan-Serves (some c) more t f h = h c t f

  after_select-Serves :
      (c : Conns) (r : Selected) (more : Conns → Act Serving) (t : Trace)
      → c.maxfd < fd_setsize
      → ((c : Conns) (t' : Trace) → c.maxfd < fd_setsize → Gives Serves (more c t'))
      → Gives Serves (after_select net s commands c r more t)
  unfolding after_select
  after_select-Serves c select_failed more t h goes = tt
  after_select-Serves c (select_ready reads excepts) more t h goes =
      bind-Gives FitsSome Serves (λ r. after_scan r more) _
        (scan-Fits (λ fd. c.conn fd && reads fd) (λ fd. c.conn fd && excepts fd) (suc fd_setsize) 0
          c t h (omega arith) (omega arith))
        (λ r t' f. after_scan-Serves r more t' f goes)

  -- Where `handle_data` always comes to an end, so does each round of the server over its descriptors,
  -- in the `FD_SETSIZE` turns and one that it is given, as long as the set starts below `FD_SETSIZE`: it
  -- waits again, or has left the loop, or has faulted.
  pub serve-Serves :
      (rounds : ℕ) (c : Conns) (t : Trace)
      → c.maxfd < fd_setsize
      → Gives Serves (serve net s commands rounds c t)
  unfolding serve
  serve-Serves zero c t h = tt
  serve-Serves (suc rounds) c t h =
      after_select-Serves c (net.selects t) (serve net s commands rounds) _ h (serve-Serves rounds)

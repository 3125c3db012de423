-- ===== src/Server/Stream.antt =====
-- `sread` on a connection that is a stream of bytes: how the network cuts the stream does not matter.
use thesis_software.Base.{
  ℕ, zero, suc, ◌+◌, ◌-◌, ◌≤◌, ◌<◌, ◌≡◌, refl, sym, ap, ◌∙◌, subst, ◌⊎◌, inl, inr, false, Option,
  none, some, [], ◌∷◌, ◌++◌, arith, length, take, drop, length-take, length-append,
  drop-append_exact, ◌==◌, if◌then◌else◌,
}
use thesis_software.Server.Sockets.{
  Bytes, Received, ended, chunk, arrived, hung_up, Trace, Net, Outcome, done, fault, stored_of,
}
use thesis_software.Server.{put_before, sread_more, sread_from, sread}

-- How many bytes of a connection have arrived.
unfoldable pub received : ℕ → Trace → ℕ
received fd [] = 0
received fd (arrived fd' bs ∷ t) = if fd' == fd then received fd t + length bs else received fd t
received fd (_ ∷ t) = received fd t

-- A read gives the next bytes of the stream, as many as it likes, or ends where the stream has ended.
abbrev pub Continues : Received → ℕ → Bytes → Type 0
Continues ended len rest = rest ≡ []
Continues (chunk b bs) len rest = (after : Bytes) × (rest ≡ stored_of len b bs ++ after)

-- The client of a connection has written `stream` and closed its side.
abbrev pub Streams : Net → ℕ → Bytes → Type 0
Streams net fd stream =
    (t : Trace) (len : ℕ)
    → Continues (net.receive t fd (suc len)) (suc len) (drop (received fd t) stream)

-- Only reads of the connection were added.
pub data Reads (fd : ℕ) (t : Trace) : Trace → Type 0 where
  same : Reads fd t t
  arrive : {t' : Trace} (bs : Bytes) → Reads fd t t' → Reads fd t (arrived fd bs ∷ t')
  hang : {t' : Trace} → Reads fd t t' → Reads fd t (hung_up fd ∷ t')

pub Reads-trans : {fd : ℕ} {t u v : Trace} → Reads fd t u → Reads fd u v → Reads fd t v
Reads-trans r same = r
Reads-trans r (arrive bs s) = arrive bs (Reads-trans r s)
Reads-trans r (hang s) = hang (Reads-trans r s)

-- The next `n` bytes of `rest` came, or it ended before them.
abbrev pub SreadEnds : ℕ → Bytes → Bytes → ℕ → Trace → Outcome (Option Bytes) → Type 0
SreadEnds fd stream rest n t r =
    ((t' : Trace) × (n ≤ length rest)
      × (r ≡ done (some (take n rest)) t')
      × (drop (received fd t') stream ≡ drop n rest)
      × Reads fd t t')
    ⊎ ((t' : Trace) × (length rest < n) × (r ≡ done none t') × Reads fd t t')

abbrev no_bytes : Bytes
no_bytes = []

drop_nil : (n : ℕ) → drop n (no_bytes) ≡ []
drop_nil zero = refl
drop_nil (suc n) = refl

drop-add : (m n : ℕ) (xs : Bytes) → drop (m + n) xs ≡ drop n (drop m xs)
drop-add zero n xs = ap (λ k. drop k xs) (omega arith)
drop-add (suc m) n [] = drop_nil (suc m + n) ∙ sym (drop_nil n)
drop-add (suc m) n (x ∷ xs) =
    let e : suc m + n ≡ suc (m + n) = omega arith in rw e (drop-add m n xs)

-- A list cut behind its front.
take-append_past :
    (n : ℕ) (xs ys : Bytes) → length xs ≤ n → take n (xs ++ ys) ≡ xs ++ take (n - length xs) ys
take-append_past n [] ys h = ap (λ k. take k ys) (omega arith)
take-append_past zero (x ∷ xs) ys h = absurd (omega (arith, h))
take-append_past (suc n) (x ∷ xs) ys h =
    ap (◌∷◌ x)
      (take-append_past n xs ys (omega (arith, h)) ∙ ap (λ k. xs ++ take k ys) (omega arith))

drop-append_past :
    (n : ℕ) (xs ys : Bytes) → length xs ≤ n → drop n (xs ++ ys) ≡ drop (n - length xs) ys
drop-append_past n [] ys h = ap (λ k. drop k ys) (omega arith)
drop-append_past zero (x ∷ xs) ys h = absurd (omega (arith, h))
drop-append_past (suc n) (x ∷ xs) ys h =
    drop-append_past n xs ys (omega (arith, h)) ∙ ap (λ k. drop k ys) (omega arith)

received-arrived :
    (fd : ℕ) (bs : Bytes) (t : Trace) → received fd (arrived fd bs ∷ t) ≡ received fd t + length bs
unfolding received
received-arrived fd bs t = ground arith

-- The bytes of one read in front of those of the reads behind it.
behind-SreadEnds :
    (fd : ℕ) (stream now after : Bytes) (n : ℕ) (t : Trace) (r : Outcome (Option Bytes))
    → length now ≤ n
    → SreadEnds fd stream after (n - length now) (arrived fd now ∷ t) r
    → SreadEnds fd stream
        (now ++ after)
        n
        t
        (elim r [ done rest t' ↦ done (put_before now rest) t' | fault t' ↦ fault t' ])
behind-SreadEnds fd stream now after n t r h (inl (t', le, run, at, reads)) = inl (
  t',
  omega (arith, le, h, length-append now after),
  rw run (ap (λ bs. done (some bs) t') (sym (take-append_past n now after h))),
  at ∙ sym (drop-append_past n now after h),
  Reads-trans (arrive now same) reads,
)
behind-SreadEnds fd stream now after n t r h (inr (t', lt, run, reads)) = inr (
  t',
  omega (arith, lt, h, length-append now after),
  rw run refl,
  Reads-trans (arrive now same) reads,
)

-- Between an answer and the reads behind it.
sread_more-SreadEnds :
    (fd : ℕ) (stream rest : Bytes) (len : ℕ) (t : Trace) (answer : Received)
    (more : ℕ → Trace → Outcome (Option Bytes))
    → drop (received fd t) stream ≡ rest
    → Continues answer (suc len) rest
    → ((n : ℕ) (t' : Trace) (rest' : Bytes)
        → n ≤ len
        → drop (received fd t') stream ≡ rest'
        → SreadEnds fd stream rest' n t' (more n t'))
    → SreadEnds fd stream rest (suc len) t (sread_more answer fd (suc len) more t)
unfolding sread_more
sread_more-SreadEnds fd stream rest len t ended more at e ih =
    inr (hung_up fd ∷ t, omega (arith, ap (length {A = ℕ}) e), refl, hang same)
sread_more-SreadEnds fd stream rest len t (chunk b bs) more at (after, e) ih =
    let now = stored_of (suc len) b bs in
    let fits : length now ≤ suc len = omega (arith, length-take (suc len - 1) bs) in
    let shorter : suc len - length now ≤ len = omega arith in
    let at1 : drop (received fd (arrived fd now ∷ t)) stream ≡ after =
      ap (λ k. drop k stream) (received-arrived fd now t)
      ∙ (drop-add (received fd t) (length now) stream
          ∙ (ap (drop (length now)) (at ∙ e) ∙ drop-append_exact now after)) in
    rw e (
      behind-SreadEnds fd stream now after (suc len) t _ fits
        (ih (suc len - length now) (arrived fd now ∷ t) after shorter at1))

sread_from-SreadEnds :
    (net : Net) (fd : ℕ) (stream : Bytes)
    → Streams net fd stream
    → (rounds len : ℕ) (t : Trace) (rest : Bytes) → len ≤ rounds
    → drop (received fd t) stream ≡ rest
    → SreadEnds fd stream rest len t (sread_from net fd rounds len t)
unfolding sread_from
sread_from-SreadEnds net fd stream streams zero zero t rest h at =
    inl (t, omega arith, refl, at, same)
sread_from-SreadEnds net fd stream streams zero (suc len) t rest h at = absurd (omega (arith, h))
sread_from-SreadEnds net fd stream streams (suc rounds) zero t rest h at =
    inl (t, omega arith, refl, at, same)
sread_from-SreadEnds net fd stream streams (suc rounds) (suc len) t rest h at =
    let more : (suc len == 0) ≡ false = ground arith in
    rw more (
      sread_more-SreadEnds fd stream rest len t (net.receive t fd (suc len))
        (sread_from net fd rounds) at
        (subst (Continues (net.receive t fd (suc len)) (suc len)) at (streams t len))
        (λ n t' rest' small at'.
          sread_from-SreadEnds net fd stream streams rounds n t' rest' (omega (arith, h, small))
            at'))

-- On a connection that is a stream of bytes, `sread` of `n` bytes gives the next `n` bytes of it, or ends
-- with the stream where it holds fewer, however the network cuts it up; it reads from no other
-- connection.
pub sread-SreadEnds :
    (net : Net) (fd : ℕ) (stream rest : Bytes) (n : ℕ) (t : Trace)
    → Streams net fd stream
    → drop (received fd t) stream ≡ rest
    → SreadEnds fd stream rest n t (sread net fd n t)
unfolding sread
sread-SreadEnds net fd stream rest n t streams at =
    sread_from-SreadEnds net fd stream streams n n t rest (omega arith) at

-- ===== src/Server/Listen/Calm.antt =====
-- What `handle_data` does: it uses its own connection and the driver, and nothing else.
use thesis_software.Base.{
  ℕ, zero, suc, ◌-◌, ◌*◌, inl, inr, Bool, true, false, Option, none, some, [], ◌∷◌, ◌==◌,
  if◌then◌else◌, Bool-cases, length, take, drop,
}
use thesis_software.Base.Int.{ℤ}
use thesis_software.Server.Sockets.{
  Bytes, Received, ended, chunk, Shifting, refused, shifted_out, arrived, hung_up, sent_out,
  shift_asked, Trace, Net, Outcome, done, fault, Act, ◌>>=◌, pure, event, stored_of,
}
use thesis_software.Server.{
  put_before, sread_more, sread_from, sread, xvc_info, Served, next_command, returned, same_bytes,
  reply, get_info, set_tck, le_word, plus_7, div_8, fitting_bytes, give_tdo, shift_data,
  shift_bytes, shift_count, shift_length, shift_command, dispatch, command, after_command,
  handle_data,
}

-- What `handle_data` does on a connection: it reads from it, writes to it, and asks the driver.
pub data Emits (fd : ℕ) (t : Trace) : Trace → Type 0 where
  silent : Emits fd t t
  reads_some : (bs : Bytes) {u : Trace} → Emits fd t u → Emits fd t (arrived fd bs ∷ u)
  reads_end : {u : Trace} → Emits fd t u → Emits fd t (hung_up fd ∷ u)
  writes :
      (bs : Bytes) (all : Bool) {u : Trace} → Emits fd t u → Emits fd t (sent_out fd bs all ∷ u)
  asks :
      (v : ℕ) (tms tdi : Bytes) {u : Trace} → Emits fd t u → Emits fd t (shift_asked v tms tdi ∷ u)

abbrev pub Emitted {ℓ} : {A : Type ℓ} → ℕ → Trace → Outcome A → Type 0
Emitted fd t (done a t') = Emits fd t t'
Emitted fd t (fault t') = Emits fd t t'

abbrev pub Calm {ℓ} : {A : Type ℓ} → ℕ → Act A → Type 0
Calm fd m = (t : Trace) → Emitted fd t (m t)

pure-Calm {ℓ} : {A : Type ℓ} (fd : ℕ) (a : A) → Calm fd (pure a)
pure-Calm fd a t = silent

fault-Calm {ℓ} : (A : Type ℓ) (fd : ℕ) → Calm {A = A} fd fault
fault-Calm A fd t = silent

Emits-trans : {fd : ℕ} {t u v : Trace} → Emits fd t u → Emits fd u v → Emits fd t v
Emits-trans e silent = e
Emits-trans e (reads_some bs f) = reads_some bs (Emits-trans e f)
Emits-trans e (reads_end f) = reads_end (Emits-trans e f)
Emits-trans e (writes bs all f) = writes bs all (Emits-trans e f)
Emits-trans e (asks v tms tdi f) = asks v tms tdi (Emits-trans e f)

Emitted-trans {ℓ} :
    {A : Type ℓ} {fd : ℕ} {t u : Trace} (r : Outcome A)
    → Emits fd t u
    → Emitted fd u r
    → Emitted fd t r
Emitted-trans (done a v) k l = Emits-trans k l
Emitted-trans (fault v) k l = Emits-trans k l

bind-Calm {ℓ κ} :
    {A : Type ℓ} {B : Type κ} (fd : ℕ) (m : Act A) (f : A → Act B)
    → Calm fd m
    → ((a : A) → Calm fd (f a))
    → Calm fd (m >>= f)
bind-Calm fd m f c d t = go (m t) (c t)
  where
    go :
        (r : Outcome _)
        → Emitted fd t r
        → Emitted fd t (elim r [ done a t' ↦ f a t' | fault t' ↦ fault t' ])
    go (done a t') k = Emitted-trans (f a t') k (d a t')
    go (fault t') k = k

if-Calm {ℓ} :
    {A : Type ℓ} (fd : ℕ) (b : Bool) (m n : Act A)
    → Calm fd m
    → Calm fd n
    → Calm fd (if b then m else n)
if-Calm fd true m n c d = c
if-Calm fd false m n c d = d

hung_up-Calm : (fd : ℕ) → Calm fd (event (hung_up fd))
hung_up-Calm fd t = reads_end silent

arrived-Calm : (fd : ℕ) (bs : Bytes) → Calm fd (event (arrived fd bs))
arrived-Calm fd bs t = reads_some bs silent

module _ (net : Net) (fd : ℕ) where
  sread_more-Calm :
      (r : Received) (len : ℕ) (more : ℕ → Act (Option Bytes))
      → ((n : ℕ) → Calm fd (more n))
      → Calm fd (sread_more r fd len more)
  unfolding sread_more
  sread_more-Calm ended len more c =
      let ends : Act (Option Bytes) = pure none in
      bind-Calm fd (event (hung_up fd)) (λ _. ends) (hung_up-Calm fd)
        (λ _. pure-Calm {A = Option Bytes} fd none)
  sread_more-Calm (chunk b bs) len more c =
      let now = stored_of len b bs in
      let put : Option Bytes → Act (Option Bytes) = λ rest. pure (put_before now rest) in
      let reads = more (len - length now) in
      bind-Calm fd (event (arrived fd now)) (λ _. reads >>= put) (arrived-Calm fd now)
        (λ _.
          bind-Calm fd reads put (c (len - length now))
            (λ rest. pure-Calm fd (put_before now rest)))

  sread_from-Calm : (rounds len : ℕ) → Calm fd (sread_from net fd rounds len)
  unfolding sread_from
  sread_from-Calm zero len t = pure-Calm {A = Option Bytes} fd (some []) t
  sread_from-Calm (suc rounds) len t = elim (Bool-cases (len == 0)) [
    | inl none_left ↦ rw none_left (pure-Calm {A = Option Bytes} fd (some []) t)
    | inr some_left ↦ rw some_left (
        sread_more-Calm (net.receive t fd len) len (sread_from net fd rounds)
          (λ n. sread_from-Calm rounds n) t)
  ]

  sread-Calm : (len : ℕ) → Calm fd (sread net fd len)
  unfolding sread
  sread-Calm len = sread_from-Calm len len

  -- A command that goes on with what it has read.
  read-Calm :
      (len : ℕ) (f : Option Bytes → Act Served)
      → ((r : Option Bytes) → Calm fd (f r))
      → Calm fd (sread net fd len >>= f)
  read-Calm len f c = bind-Calm fd (sread net fd len) f (sread-Calm len) c

  sent-Calm {ℓ} :
      {A : Type ℓ} (bs : Bytes) (a b : A) (t : Trace)
      → Emitted fd t
          ((if net.takes t fd bs then pure a else pure b) (sent_out fd bs (net.takes t fd bs) ∷ t))
  sent-Calm bs a b t = elim (Bool-cases (net.takes t fd bs)) [
    | inl all ↦ rw all (writes bs true silent)
    | inr cut ↦ rw cut (writes bs false silent)
  ]

  reply-Calm : (bs : Bytes) → Calm fd (reply net fd bs)
  unfolding reply
  reply-Calm bs t = sent-Calm bs (returned 0) (returned 1) t

  get_info-Calm : (r : Option Bytes) → Calm fd (get_info net fd r)
  unfolding get_info
  get_info-Calm none = pure-Calm fd (returned 1)
  get_info-Calm (some rest) = reply-Calm xvc_info

  set_tck-Calm : (r : Option Bytes) → Calm fd (set_tck net fd r)
  unfolding set_tck
  set_tck-Calm none = pure-Calm fd (returned 1)
  set_tck-Calm (some rest) = reply-Calm _

  give_tdo-Calm : (n : ℕ) (r : Shifting) → Calm fd (give_tdo net fd n r)
  unfolding give_tdo
  give_tdo-Calm n (refused e) t = pure-Calm fd (returned e) t
  give_tdo-Calm n (shifted_out tdo) t = sent-Calm _ next_command (returned 1) t

  shift_data-Calm : (v n : ℕ) (r : Option Bytes) → Calm fd (shift_data net fd v n r)
  unfolding shift_data
  shift_data-Calm v n none t = pure-Calm fd (returned 1) t
  shift_data-Calm v n (some buffer) t =
      Emitted-trans (give_tdo net fd n _ _) (asks v (take n buffer) (drop n buffer) silent)
        (give_tdo-Calm n (net.shift t v (take n buffer) (drop n buffer)) _)

  shift_bytes-Calm : (v : ℕ) (n : Option ℕ) → Calm fd (shift_bytes net fd v n)
  unfolding shift_bytes
  shift_bytes-Calm v none = pure-Calm fd (returned 1)
  shift_bytes-Calm v (some n) = read-Calm (n * 2) (shift_data net fd v n) (shift_data-Calm v n)

  shift_count-Calm : (v : ℕ) (bits : Option ℤ) → Calm fd (shift_count net fd v bits)
  unfolding shift_count
  shift_count-Calm v none = fault-Calm Served fd
  shift_count-Calm v (some bits) = shift_bytes-Calm v (fitting_bytes (div_8 bits))

  shift_length-Calm : (len : Option Bytes) → Calm fd (shift_length net fd len)
  unfolding shift_length
  shift_length-Calm none = pure-Calm fd (returned 1)
  shift_length-Calm (some len) = shift_count-Calm (le_word len) (plus_7 (le_word len))

  shift_command-Calm : (r : Option Bytes) → Calm fd (shift_command net fd r)
  unfolding shift_command
  shift_command-Calm none = pure-Calm fd (returned 1)
  shift_command-Calm (some rest) = read-Calm 4 (shift_length net fd) shift_length-Calm

  dispatch-Calm : (r : Option Bytes) → Calm fd (dispatch net fd r)
  unfolding dispatch
  dispatch-Calm none = pure-Calm fd (returned 1)
  dispatch-Calm (some cmd) =
      if-Calm fd (same_bytes cmd (b'g' ∷ b'e' ∷ [])) _ _
        (read-Calm 6 (get_info net fd) get_info-Calm)
        (if-Calm fd (same_bytes cmd (b's' ∷ b'e' ∷ [])) _ _
          (read-Calm 9 (set_tck net fd) set_tck-Calm)
          (if-Calm fd (same_bytes cmd (b's' ∷ b'h' ∷ [])) _ _
            (read-Calm 4 (shift_command net fd) shift_command-Calm) (pure-Calm fd (returned 1))))

  command-Calm : Calm fd (command net fd)
  unfolding command
  command-Calm = read-Calm 2 (dispatch net fd) dispatch-Calm

  after_command-Calm :
      (s : Served) (more : Act (Option ℕ)) → Calm fd more → Calm fd (after_command s more)
  unfolding after_command
  after_command-Calm next_command more c = c
  after_command-Calm (returned n) more c = pure-Calm {A = Option ℕ} fd (some n)

  pub handle_data-Calm : (commands : ℕ) → Calm fd (handle_data net fd commands)
  unfolding handle_data
  handle_data-Calm zero = pure-Calm {A = Option ℕ} fd none
  handle_data-Calm (suc commands) =
      bind-Calm fd (command net fd) _ command-Calm
        (λ s. after_command-Calm s (handle_data net fd commands) (handle_data-Calm commands))

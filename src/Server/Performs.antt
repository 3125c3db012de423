-- ===== src/Server/Performs.antt =====
-- A command of `handle_data` reads one request and does what it asks for.
use thesis_software.Base.{
  ℕ, ◌*◌, ◌^◌, ◌<◌, ◌≡◌, refl, sym, ◌∙◌, inl, inr, true, false, Option, none, some, [], ◌∷◌, arith,
  Bool-cases, length, take, drop, length-take, leb,
}
use thesis_software.Base.Int.{ℤ}
use thesis_software.Server.Sockets.{Bytes, Trace, Net, Outcome, Act, done, fault, ◌>>=◌}
use thesis_software.Server.{
  xvc_info, Served, returned, same_bytes, reply, get_info, set_tck, le_word, plus_7, div_8,
  fitting_bytes, shift_data, shift_bytes, shift_count, shift_length, shift_command, dispatch,
  command, sread,
}
use thesis_software.Server.Stream.{
  Streams, received, Reads, same, Reads-trans, SreadEnds, sread-SreadEnds,
}
use thesis_software.Server.Request.{
  Request, info, period, shifts, bytes, too_many, claim, front, claimed, named, read_request,
  counted, claim_of, claim_of-plus_7, perform, Behind,
}

-- First only reads, and then what the request asks for.
pub record Performs (net : Net) (fd : ℕ) (stream : Bytes) (req : Request) (t : Trace)
    (r : Outcome Served) : Type 0 where
  pub read : Trace
  pub reads : Reads fd t read
  pub runs : r ≡ perform net fd req read
  pub behind : Behind fd stream req read

le_word-lt : (bs : Bytes) → length bs ≡ 4 → le_word bs < 2 ^ 32
unfolding le_word
le_word-lt [] e = omega arith
le_word-lt (a ∷ []) e = omega arith
le_word-lt (a ∷ b ∷ []) e = omega arith
le_word-lt (a ∷ b ∷ c ∷ []) e = omega arith
le_word-lt (a ∷ b ∷ c ∷ d ∷ []) e = omega arith
le_word-lt (a ∷ b ∷ c ∷ d ∷ x ∷ bs) e = absurd (omega arith)

module _ (net : Net) (fd : ℕ) (stream : Bytes) (streams : Streams net fd stream) where
  -- `sread` and what follows it, against `front`.
  front-Performs :
      (n : ℕ) (bs : Bytes) (t : Trace) (next : Option Bytes → Act Served)
      (k : Bytes → Bytes → Request)
      → drop (received fd t) stream ≡ bs
      → ((t' : Trace) → next none t' ≡ done (returned 1) t')
      → ((t' : Trace) (a b : Bytes)
          → drop (received fd t') stream ≡ b
          → length a ≡ n
          → Performs net fd stream (k a b) t' (next (some a) t'))
      → Performs net fd stream (front n bs k) t ((sread net fd n >>= next) t)
  front-Performs n bs t next k at ends goes =
      go (sread net fd n t) (sread-SreadEnds net fd stream bs n t streams at)
    where
      go :
          (r : Outcome (Option Bytes))
          → SreadEnds fd stream bs n t r
          → Performs net fd stream
              (front n bs k)
              t
              (elim r [ done a t' ↦ next a t' | fault t' ↦ fault t' ])
      go r (inl (t', le, run, at', rs)) =
          let enough : leb n (length bs) ≡ true = ground arith in
          let p = goes t' (take n bs) (drop n bs) at' (omega (arith, length-take n bs)) in
          rw (run, enough)
            (record {
              read = p.read;
              reads = Reads-trans rs p.reads;
              runs = p.runs;
              behind = p.behind;
            })
      go r (inr (t', lt, run, rs)) =
          let short : leb n (length bs) ≡ false = ground arith in
          rw (run, short)
            (record { read = t'; reads = rs; runs = ends t' ∙ unfold perform in refl; behind = tt })

  -- The TMS and TDI bytes, and the driver.
  shift_data-Performs :
      (v n : ℕ) (buffer rest : Bytes) (t : Trace)
      → drop (received fd t) stream ≡ rest
      → length buffer ≡ n * 2
      → Performs net fd stream
          (shifts v (take n buffer) (drop n buffer) rest)
          t
          (shift_data net fd v n (some buffer) t)
  unfolding shift_data perform
  shift_data-Performs v n buffer rest t at size =
      let e : length (take n buffer) ≡ n = omega (arith, length-take n buffer) in
      record { read = t; reads = same; runs = rw e refl; behind = at }

  shift_count-Performs :
      (v : ℕ) (bits : Option ℤ) (bs : Bytes) (t : Trace)
      → drop (received fd t) stream ≡ bs
      → Performs net fd stream (claimed v bs (claim_of bits)) t (shift_count net fd v bits t)
  unfolding shift_count counted
  shift_count-Performs v none bs t at = record {
    read = t;
    reads = same;
    runs = unfold perform in refl;
    behind = tt;
  }
  shift_count-Performs v (some bits) bs t at = go (fitting_bytes (div_8 bits))
    where
      go :
          (n : Option ℕ)
          → Performs net fd stream
              (claimed v bs (elim n [ none ↦ too_many | some n ↦ bytes n ]))
              t
              (shift_bytes net fd v n t)
      go none =
          unfold shift_bytes in
          record { read = t; reads = same; runs = unfold perform in refl; behind = tt }
      go (some n) =
          unfold shift_bytes in
          front-Performs (n * 2) bs t (shift_data net fd v n)
            (λ buffer rest. shifts v (take n buffer) (drop n buffer) rest) at
            (λ t'. unfold shift_data in refl)
            (λ t' a b at' size. shift_data-Performs v n a b t' at' size)

  shift_length-Performs :
      (len bs : Bytes) (t : Trace)
      → drop (received fd t) stream ≡ bs
      → le_word len < 2 ^ 32
      → Performs net fd stream
          (claimed (le_word len) bs (claim (le_word len)))
          t
          (shift_length net fd (some len) t)
  unfolding shift_length
  shift_length-Performs len bs t at h =
      rw (← claim_of-plus_7 (le_word len) h)
        (shift_count-Performs (le_word len) (plus_7 (le_word len)) bs t at)

  shift_command-Performs :
      (bs : Bytes) (t : Trace) (text : Bytes)
      → drop (received fd t) stream ≡ bs
      → Performs net fd stream
          (front 4 bs λ len bs. claimed (le_word len) bs (claim (le_word len)))
          t
          (shift_command net fd (some text) t)
  unfolding shift_command
  shift_command-Performs bs t text at =
      front-Performs 4 bs t (shift_length net fd)
        (λ len bs. claimed (le_word len) bs (claim (le_word len))) at
        (λ t'. unfold shift_length in refl)
        (λ t' a b at' size. shift_length-Performs a b t' at' (le_word-lt a size))

  reply-Performs :
      (req : Request) (bs : Bytes) (t : Trace)
      → perform net fd req t ≡ reply net fd bs t
      → Behind fd stream req t
      → Performs net fd stream req t (reply net fd bs t)
  reply-Performs req bs t e b = record { read = t; reads = same; runs = sym e; behind = b }

  dispatch-Performs :
      (cmd bs : Bytes) (t : Trace)
      → drop (received fd t) stream ≡ bs
      → Performs net fd stream (named cmd bs) t (dispatch net fd (some cmd) t)
  unfolding dispatch
  dispatch-Performs cmd bs t at = elim (Bool-cases (same_bytes cmd (b'g' ∷ b'e' ∷ []))) [
    | inl ge ↦ rw ge (
        front-Performs 6 bs t (get_info net fd) (λ _ rest. info rest) at
          (λ t'. unfold get_info in refl)
          (λ t' a b at' size.
            unfold get_info in reply-Performs (info b) xvc_info t' (unfold perform in refl) at'))
    | inr not_ge ↦ elim (Bool-cases (same_bytes cmd (b's' ∷ b'e' ∷ []))) [
      | inl se ↦
          rw (not_ge, se)
            (front-Performs 9 bs t (set_tck net fd)
              (λ text rest. period (take 4 (drop 5 text)) rest) at (λ t'. unfold set_tck in refl)
              (λ t' a b at' size.
                unfold set_tck in
                reply-Performs (period (take 4 (drop 5 a)) b) (take 4 (drop 5 a)) t'
                  (unfold perform in refl) at'))
      | inr not_se ↦ elim (Bool-cases (same_bytes cmd (b's' ∷ b'h' ∷ []))) [
        | inl sh ↦
            rw (not_ge, not_se, sh)
              (front-Performs 4 bs t (shift_command net fd)
                (λ _ bs. front 4 bs λ len bs. claimed (le_word len) bs (claim (le_word len))) at
                (λ t'. unfold shift_command in refl)
                (λ t' a b at' size. shift_command-Performs b t' a at'))
        | inr not_sh ↦
            rw (not_ge, not_se, not_sh)
              (record { read = t; reads = same; runs = unfold perform in refl; behind = tt })
      ]
    ]
  ]

  -- On a connection that is a stream of bytes, a round of `handle_data` is the reading of one request
  -- off the front of the stream and then what the request asks for: `getinfo` and `settck` with their
  -- replies, `shift` with the number of bytes that its length stands for. A name that is not known, a
  -- request that the stream ends in, and a shift that does not fit the buffer are rejected; a length
  -- of 2 ^ 31 - 7 and more overflows while it is positive.
  pub command-Performs :
      (rest : Bytes) (t : Trace)
      → drop (received fd t) stream ≡ rest
      → Performs net fd stream (read_request rest) t (command net fd t)
  unfolding command read_request
  command-Performs rest t at =
      front-Performs 2 rest t (dispatch net fd) named at (λ t'. unfold dispatch in refl)
        (λ t' a b at' size. dispatch-Performs a b t' at')

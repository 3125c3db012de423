-- ===== src/Server/Uio/Word.antt =====
-- A word of the shift without `USE_IOCTL`.
use thesis_software.Base.{
  ℕ, ◌+◌, ◌-◌, ◌/◌, ◌%◌, ◌^◌, ◌≤◌, ◌≡◌, refl, ap, ◌∙◌, true, some, [], ◌∷◌, ◌++◌, arith, length,
  take, drop,
}
use thesis_software.World.{Env, Trace, wrote, got}
use thesis_software.Dma.Channels.{last_write}
use thesis_software.Xvc.Shift.{le_bytes, le_value}
use thesis_software.Helper.{Bytes}
use thesis_software.Server.Uio.{
  Uio, length_offset, tms_offset, tdi_offset, tdo_offset, ctrl_offset, poll_ctrl, take_tdo,
  uio_word,
}
use thesis_software.Server.Uio.Words.{
  words_shifted, tdo_bytes, length-le_bytes_any, poll_ctrl-SameAsked, got_tdo,
}

module _ (env : Env) (polls : ℕ) (completes : (t : Trace) → (poll_ctrl env polls t).0 ≡ true)
    (nr_bytes : ℕ) (buffer : Bytes) where
  -- A word of up to 32 bits.
  pub record WordDone (s : Uio) (bits : ℕ) (t : Trace) (s' : Uio) (u : Trace) : Type 0 where
    pub runs : uio_word env polls nr_bytes buffer s bits t ≡ (some s', u)
    pub fewer_bytes : s'.bytes_left ≡ s.bytes_left - (bits + 7) / 8
    pub fewer_bits : s'.bits_left ≡ s.bits_left - bits
    pub further : s'.byte_index ≡ s.byte_index + (bits + 7) / 8
    pub given : Bytes
    pub given_size : length given ≡ (bits + 7) / 8
    pub given_out : tdo_bytes u ≡ tdo_bytes t ++ given
    pub taken : s'.result ≡ s.result ++ given
    pub asked :
        words_shifted u
        ≡ words_shifted t
          ++ record {
            bits = bits;
            tms = le_value (take ((bits + 7) / 8) (drop s.byte_index buffer)) % 2 ^ 32;
            tdi = le_value (take ((bits + 7) / 8) (drop (s.byte_index + nr_bytes) buffer)) % 2 ^ 32;
          }
            ∷ []

  pub word_step :
      (s : Uio) (bits : ℕ) (t : Trace)
      → bits ≤ 32
      → (s' : Uio) × (u : Trace) × WordDone s bits t s' u
  unfolding uio_word take_tdo words_shifted last_write tdo_bytes
  word_step s bits t h =
      let n = (bits + 7) / 8 in
      let asking : Trace =
        wrote ctrl_offset 1
        ∷ wrote tdi_offset (le_value (take n (drop (s.byte_index + nr_bytes) buffer)) % 2 ^ 32)
        ∷ wrote tms_offset (le_value (take n (drop s.byte_index buffer)) % 2 ^ 32)
        ∷ wrote length_offset (bits % 2 ^ 32)
        ∷ t in
      let polled = (poll_ctrl env polls asking).1 in
      let quiet = poll_ctrl-SameAsked env polls asking in
      let tdo = env.register polled tdo_offset % 2 ^ 32 in
      let small : bits % 2 ^ 32 ≡ bits = omega (arith, h) in
      let length_so : last_write polled length_offset ≡ bits =
        quiet.same_writes length_offset ∙ small in
      (
        record {
          bytes_left = s.bytes_left - n;
          bits_left = s.bits_left - bits;
          byte_index = s.byte_index + n;
          result = s.result ++ le_bytes n tdo;
        },
        got tdo_offset tdo ∷ polled,
        record {
          runs = rw (completes asking) refl;
          fewer_bytes = refl;
          fewer_bits = refl;
          further = refl;
          given = le_bytes n tdo;
          given_size = length-le_bytes_any n tdo;
          given_out =
              got_tdo polled tdo bits length_so ∙ ap (λ l. l ++ le_bytes n tdo) quiet.same_tdo;
          taken = refl;
          asked =
              quiet.same_words
              ∙ ap
                  (λ k.
                    words_shifted t
                    ++ record {
                      bits = k;
                      tms = le_value (take n (drop s.byte_index buffer)) % 2 ^ 32;
                      tdi = le_value (take n (drop (s.byte_index + nr_bytes) buffer)) % 2 ^ 32;
                    }
                      ∷ [])
                  small;
        },
      )

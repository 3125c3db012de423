-- ===== src/Xvc/Shift/Reference.antt =====
-- The loop of `xil_xvc_ioctl` against a reference that takes the inputs apart word by word, with no
-- offsets, no buffer that is filled in place and no access that could be out of place.
use thesis_software.Base.{
  ℕ, zero, suc, ◌+◌, ◌-◌, ◌*◌, ◌/◌, ◌^◌, ◌≤◌, ◌<◌, ◌≡◌, refl, sym, inl, inr, true, false, [], ◌∷◌,
  ◌++◌, append-nil, ltb, ◌==◌, if◌then◌else◌, arith, Bool-cases, length, take, drop,
}
use thesis_software.Base.Int.{ℤ, pos, negsuc, is_nonzero}
use thesis_software.Xvc.Kernel.{
  Bytes, wrote, Trace, Kernel, Outcome, done, fault, Act, ◌>>=◌, pure, read_at, write_at,
}
use thesis_software.Xvc.Shift.{
  Shifted, xil_xvc_shift_bits, le_bytes, le_value, Progress, set_short_length, add_int, transfer,
  shift_loop, length_reg_offset,
}
use thesis_software.Xvc.Shift.Word.{
  read_at-append, write_at-append, length-le_bytes, xil_xvc_shift_bits-returns,
}

-- The bytes of a number of bits below 2 ^ 32 - 7.
abbrev pub byte_count : ℕ → ℕ
byte_count bits = (bits + 7) / 8

-- The output so far and the status, behind one more word of `n` bytes.
abbrev pub appended : Bytes → ℕ → Shifted → Progress
appended out n s =
    if is_nonzero s.status
    then record { status = s.status; tdo = out }
    else record { status = s.status; tdo = out ++ le_bytes n s.tdo_bits }

-- A last word of `bits` < 32 bits, if there are any, behind the output so far.
abbrev pub last_word : Kernel → ℕ → Bytes → Bytes → Bytes → Act Progress
last_word k bits tms tdi out t =
    let n = byte_count bits in
    let word : Outcome Progress =
      (xil_xvc_shift_bits k (le_value (take n tms)) (le_value (take n tdi)) 0 >>= λ s.
      pure (appended out n s))
        (wrote length_reg_offset bits ∷ t) in
    if bits == 0 then done (record { status = pos 0; tdo = out }) t else word

-- `words` whole words and then the last one.
unfoldable pub shift_words : Kernel → ℕ → ℕ → Bytes → Bytes → Bytes → Act Progress
shift_words k zero bits tms tdi out t = last_word k bits tms tdi out t
shift_words k (suc words) bits tms tdi out t =
    (xil_xvc_shift_bits k (le_value (take 4 tms)) (le_value (take 4 tdi)) 0 >>= λ s t'.
    let p = appended out 4 s in
    let next = shift_words k words bits (drop 4 tms) (drop 4 tdi) p.tdo t' in
    if is_nonzero p.status then done p t' else next)
      t

-- Both return, with the same status behind the same trace, and with the same output bytes unless
-- the status is an error.
abbrev pub SameRun : Outcome Progress → Outcome Progress → Type 0
SameRun (done p t) (done p' t') =
    (p.status ≡ p'.status) × (t ≡ t') × (is_nonzero p.status ≡ false → p.tdo ≡ p'.tdo)
SameRun (fault _) _ = ⊥
SameRun (done _ _) (fault _) = ⊥

-- The loop in the middle of a request: what is behind `current_bit` and what is left.
pub record Middle (num_bits words bits : ℕ) (tms tms' tdi tdi' out free : Bytes) : Type 0 where
  pub left : num_bits ≡ 8 * length tms + (32 * words + bits)
  pub short : bits < 32
  pub in_range : num_bits < 2 ^ 31
  pub same_start : (length tdi ≡ length tms) × (length out ≡ length tms)
  pub tms_left : length tms' ≡ byte_count (32 * words + bits)
  pub tdi_left : length tdi' ≡ byte_count (32 * words + bits)
  pub free_left : length free ≡ byte_count (32 * words + bits)

-- What a transfer leaves in the output, filled behind `out`.
abbrev pub filled : Bytes → Bytes → ℕ → Shifted → Progress
filled out free n s =
    if is_nonzero s.status
    then record { status = s.status; tdo = out ++ free }
    else record { status = s.status; tdo = out ++ (le_bytes n s.tdo_bits ++ drop n free) }

transfer-append :
    (k : Kernel) (n : ℕ) (tms tms' tdi tdi' out free : Bytes) (t : Trace)
    → (length tdi ≡ length tms) × (length out ≡ length tms)
    → (n ≤ length tms') × (n ≤ length tdi') × (n ≤ length free)
    → {s : Shifted} {t' : Trace}
    → xil_xvc_shift_bits k (le_value (take n tms')) (le_value (take n tdi')) 0 t ≡ done s t'
    → transfer k (length tms) n (tms ++ tms') (tdi ++ tdi') (out ++ free) t
      ≡ done (filled out free n s) t'
unfolding transfer
transfer-append k n tms tms' tdi tdi' out free t (e, f) (a, b, c) {s} {t'} run =
    let tdi_read : read_at (tdi ++ tdi') (length tms) n t ≡ done (take n tdi') t =
      rw (← e) (read_at-append tdi tdi' n t b) in
    let stored : write_at (out ++ free) (length tms) (le_bytes n s.tdo_bits) t'
        ≡ done (out ++ (le_bytes n s.tdo_bits ++ drop (length (le_bytes n s.tdo_bits)) free)) t' =
      rw (← f) (write_at-append out free (le_bytes n s.tdo_bits) t' (rw length-le_bytes c)) in
    ground
      (arith, read_at-append tms tms' n t a, tdi_read, run, stored, length-le_bytes n s.tdo_bits)

add_int-fits : (a b : ℕ) (t : Trace) → a + b < 2 ^ 31 → add_int a b t ≡ done (a + b) t
unfolding add_int
add_int-fits a b t h = ground arith

-- A round, from what its transfer gives.
round_step :
    (k : Kernel) (rounds num_bits bit : ℕ) (tms tdi tdo : Bytes) (t : Trace)
    → bit < num_bits
    → num_bits < 2 ^ 31
    → (sb : ℕ) → sb ≡ (if ltb (num_bits - bit) 32 then num_bits - bit else 32)
    → {p : Progress} {t' : Trace}
    → transfer k
        (bit / 8)
        ((sb + 7) / 8)
        tms
        tdi
        tdo
        (if ltb (num_bits - bit) 32 then wrote length_reg_offset sb ∷ t else t)
      ≡ done p t'
    → shift_loop k (suc rounds) num_bits tms tdi bit tdo t ≡ (
        if is_nonzero p.status
        then done p t'
        else shift_loop k rounds num_bits tms tdi (bit + sb) p.tdo t')
unfolding shift_loop set_short_length
round_step k rounds num_bits bit tms tdi tdo t lt small sb e {p} {t'} run =
    ground (arith, add_int-fits bit sb t')

loop_end :
    (k : Kernel) (rounds num_bits : ℕ) (tms tdi tdo : Bytes) (t : Trace)
    → shift_loop k (suc rounds) num_bits tms tdi num_bits tdo t
      ≡ done (record { status = pos 0; tdo = tdo }) t
unfolding shift_loop
loop_end k rounds num_bits tms tdi tdo t = ground arith

empty : (xs : Bytes) → length xs ≡ 0 → xs ≡ []
empty [] e = refl
empty (x ∷ xs) e = absurd (omega arith)

zero_status : (z : ℤ) → is_nonzero z ≡ false → pos 0 ≡ z
zero_status (pos zero) h = refl
zero_status (pos (suc n)) h = cc
zero_status (negsuc n) h = cc

drop_all : (xs : Bytes) (n : ℕ) → length xs ≤ n → drop n xs ≡ []
drop_all [] zero h = refl
drop_all [] (suc n) h = refl
drop_all (x ∷ xs) zero h = absurd (omega arith)
drop_all (x ∷ xs) (suc n) h = drop_all xs n (omega arith)

-- A round of the loop at `bits` left over, or at a whole word.
pub round_filled :
    (k : Kernel) (rounds num_bits sb : ℕ) (tms tms' tdi tdi' out free : Bytes) (t : Trace)
    → (length tdi ≡ length tms) × (length out ≡ length tms)
    → (byte_count sb ≤ length tms') × (byte_count sb ≤ length tdi') × (byte_count sb ≤ length free)
    → 8 * length tms < num_bits
    → num_bits < 2 ^ 31
    → sb ≡ (if ltb (num_bits - 8 * length tms) 32 then num_bits - 8 * length tms else 32)
    → (s : Shifted) (t' : Trace)
    → xil_xvc_shift_bits k
        (le_value (take (byte_count sb) tms'))
        (le_value (take (byte_count sb) tdi'))
        0
        (if ltb (num_bits - 8 * length tms) 32 then wrote length_reg_offset sb ∷ t else t)
      ≡ done s t'
    → shift_loop k
        (suc rounds)
        num_bits
        (tms ++ tms')
        (tdi ++ tdi')
        (8 * length tms)
        (out ++ free)
        t
      ≡ (if is_nonzero (filled out free (byte_count sb) s).status
          then done (filled out free (byte_count sb) s) t'
          else shift_loop k rounds num_bits
              (tms ++ tms')
              (tdi ++ tdi')
              (8 * length tms + sb)
              (filled out free (byte_count sb) s).tdo
              t')
round_filled k rounds num_bits sb tms tms' tdi tdi' out free t same fits lt small e s t' run =
    let index : 8 * length tms / 8 ≡ length tms = omega arith in
    round_step k rounds num_bits (8 * length tms) (tms ++ tms') (tdi ++ tdi') (out ++ free) t lt
      small sb e
      (rw index (transfer-append k (byte_count sb) tms tms' tdi tdi' out free _ same fits run))

last_word-run :
    (k : Kernel) (b : ℕ) (tms tdi out : Bytes) (t : Trace) (s : Shifted) (t' : Trace)
    → xil_xvc_shift_bits k
        (le_value (take (byte_count (suc b)) tms))
        (le_value (take (byte_count (suc b)) tdi))
        0
        (wrote length_reg_offset (suc b) ∷ t)
      ≡ done s t'
    → last_word k (suc b) tms tdi out t ≡ done (appended out (byte_count (suc b)) s) t'
last_word-run k b tms tdi out t s t' run =
    let more : (suc b == 0) ≡ false = ground arith in rw (more, run, ◌>>=◌)

SameRun-last :
    (out free : Bytes) (n : ℕ) (s : Shifted) (t : Trace)
    → drop n free ≡ []
    → SameRun
        (if is_nonzero (filled out free n s).status
          then done (filled out free n s) t
          else done (record { status = pos 0; tdo = (filled out free n s).tdo }) t)
        (done (appended out n s) t)
SameRun-last out free n s t e = elim (Bool-cases (is_nonzero s.status)) [
  | inl failed ↦ rw (failed, failed) (refl, refl, λ h. cc)
  | inr ok ↦
      rw (ok, ok) (zero_status s.status ok, refl, λ _. rw (e, append-nil (le_bytes n s.tdo_bits)))
]

last_word_after :
    (k : Kernel) (rounds num_bits b : ℕ) (tms tms' tdi tdi' out free : Bytes) (t : Trace)
    → Middle num_bits 0 (suc b) tms tms' tdi tdi' out free
    → (s : Shifted) (t' : Trace)
    → xil_xvc_shift_bits k
        (le_value (take (byte_count (suc b)) tms'))
        (le_value (take (byte_count (suc b)) tdi'))
        0
        (wrote length_reg_offset (suc b) ∷ t)
      ≡ done s t'
    → SameRun
        (shift_loop k
          (suc (suc rounds))
          num_bits
          (tms ++ tms')
          (tdi ++ tdi')
          (8 * length tms)
          (out ++ free)
          t)
        (last_word k (suc b) tms' tdi' out t)
last_word_after k rounds num_bits b tms tms' tdi tdi' out free t m s t' run =
    let left : num_bits - 8 * length tms ≡ suc b = omega (arith, m.left) in
    let short : ltb (num_bits - 8 * length tms) 32 ≡ true = ground (arith, m.short, left) in
    let round =
      round_filled k (suc rounds) num_bits (suc b) tms tms' tdi tdi' out free t m.same_start
        (omega (arith, m.tms_left), omega (arith, m.tdi_left), omega (arith, m.free_left))
        (omega (arith, m.left)) m.in_range (rw short (sym left)) s t' (rw short run) in
    let last : 8 * length tms + suc b ≡ num_bits = omega (arith, m.left) in
    let none_free : drop (byte_count (suc b)) free ≡ [] =
      drop_all free (byte_count (suc b)) (omega (arith, m.free_left)) in
    rw
      (
        round,
        last,
        loop_end k rounds num_bits (tms ++ tms') (tdi ++ tdi')
            (filled out free (byte_count (suc b)) s).tdo t',
        last_word-run k b tms' tdi' out t s t' run,
      )
      (SameRun-last out free (byte_count (suc b)) s t' none_free)

-- The last word.
pub last_word-SameRun :
    (k : Kernel) (rounds num_bits bits : ℕ) (tms tms' tdi tdi' out free : Bytes) (t : Trace)
    → Middle num_bits 0 bits tms tms' tdi tdi' out free
    → SameRun
        (shift_loop k
          (suc (suc rounds))
          num_bits
          (tms ++ tms')
          (tdi ++ tdi')
          (8 * length tms)
          (out ++ free)
          t)
        (last_word k bits tms' tdi' out t)
last_word-SameRun k rounds num_bits zero tms tms' tdi tdi' out free t m =
    let ends : num_bits ≡ 8 * length tms = omega (arith, m.left) in
    rw (← ends, loop_end k (suc rounds) num_bits (tms ++ tms') (tdi ++ tdi') (out ++ free) t)
      (refl, refl, λ _. rw (empty free (omega (arith, m.free_left))) (append-nil out))
last_word-SameRun k rounds num_bits (suc b) tms tms' tdi tdi' out free t m =
    let n = byte_count (suc b) in
    let (s, t', run) =
      xil_xvc_shift_bits-returns k (le_value (take n tms')) (le_value (take n tdi')) 0
        (wrote length_reg_offset (suc b) ∷ t) in
    last_word_after k rounds num_bits b tms tms' tdi tdi' out free t m s t' run

-- ===== src/Loopback/Checks.antt =====
-- What the comparison of the loopback test finds.
use thesis_software.Base.{
  ℕ, zero, suc, ◌+◌, ◌-◌, ◌≤◌, ◌<◌, ◌≡◌, refl, sym, ◌∙◌, ◌↔◌, inl, inr, Bool, true, false, ◌||◌,
  ◌==◌, if◌then◌else◌, arith, Bool-cases,
}
use thesis_software.World.{Env, Trace}
use thesis_software.Loopback.{
  Sizes, End, exits_1, returns_1, faults, finishes, Devices, Memory, compare_from, close_all,
  check_bytes, after_receive_wait, after_send_wait, run_filled, run_loopback, beyond,
}

module _ (src dest : ℕ → ℕ) where
  -- A mismatch is not forgotten.
  compare_from-false : (i n : ℕ) → compare_from src dest i n false ≡ false
  unfolding compare_from
  compare_from-false i zero = refl
  compare_from-false i (suc n) = elim (Bool-cases (dest i == src i)) [
    | inl same ↦ rw same (compare_from-false (suc i) n)
    | inr other ↦ rw other (compare_from-false (suc i) n)
  ]

  compare_from_sound :
      (i n j : ℕ) → compare_from src dest i n true ≡ true → i ≤ j → j < i + n → dest j ≡ src j
  unfolding compare_from
  compare_from_sound i zero j h low high = absurd (omega (arith, low, high))
  compare_from_sound i (suc n) j h low high = elim (Bool-cases (dest i == src i)) [
    | inl same ↦ elim (Bool-cases (j == i)) [
      | inl here ↦ let e : j ≡ i = ground arith in rw e (ground arith)
      | inr later ↦
          compare_from_sound (suc i) n j (rw same at h) (ground arith) (omega (arith, high))
    ]
    | inr other ↦
        let no : false ≡ true = sym (compare_from-false (suc i) n) ∙ (rw other at h) in ground arith
  ]

  compare_from_complete :
      (i n : ℕ)
      → ((j : ℕ) → i ≤ j → j < i + n → dest j ≡ src j)
      → compare_from src dest i n true ≡ true
  unfolding compare_from
  compare_from_complete i zero h = refl
  compare_from_complete i (suc n) h =
      let here : dest i ≡ src i = h i (omega arith) (omega arith) in
      let same : (dest i == src i) ≡ true = ground arith in
      rw same (
        compare_from_complete (suc i) n
          (λ j low high. h j (omega (arith, low)) (omega (arith, high))))

pub branch :
    (P : End × Trace → Type 0) (b : Bool) (x y : End × Trace)
    → (b ≡ true → P x)
    → (b ≡ false → P y)
    → P (if b then x else y)
branch P true x y on off = on refl
branch P false x y on off = off refl

-- How a run that sends `n` bytes ends: what is behind the descriptors, the addresses and the sizes that it
-- gives back last are two buffers that hold the bytes.
abbrev pub Checked : Memory → ℕ → End × Trace → Type 0
Checked memory n (exits_1, t) = Unit {0}
Checked memory n (returns_1, t) = Unit {0}
Checked memory n (faults, t) = n ≡ 0
Checked memory n (finishes ok, t) =
    (0 < n)
    × ((s : Sizes) × (d : Devices) × (u : Trace) × (t ≡ (close_all s d u).1)
        × (n ≤ s.size_src)
        × (n ≤ s.size_dest)
        × ((ok ≡ true) ↔ ((i : ℕ) → i + 1 < n → memory u d.dest_buf i ≡ memory u d.src_buf i)))

module _ (env : Env) (memory : Memory) (s : Sizes) (d : Devices)
    (src_fits : s.transmission_bytes ≤ s.size_src)
    (dest_fits : s.transmission_bytes ≤ s.size_dest) where
  check_bytes-Checked : (t : Trace) → Checked memory s.transmission_bytes (check_bytes memory s d t)
  unfolding check_bytes close_all
  check_bytes-Checked t =
      branch (Checked memory s.transmission_bytes)
        (s.transmission_bytes == 0
          || (beyond s.size_src s.transmission_bytes || beyond s.size_dest s.transmission_bytes))
        _ _ (λ outside. ground (arith, outside, src_fits, dest_fits))
        (λ inside. (
          ground (arith, inside),
          (
            s,
            d,
            t,
            refl,
            src_fits,
            dest_fits,
            (
              (λ e i h.
                  compare_from_sound (memory t d.src_buf) (memory t d.dest_buf) 0
                    (s.transmission_bytes - 1) i e (omega arith) (omega (arith, h))),
              λ h.
                  compare_from_complete (memory t d.src_buf) (memory t d.dest_buf) 0
                    (s.transmission_bytes - 1) (λ j low high. h j (omega (arith, high))),
            ),
          ),
        ))

  after_receive_wait-Checked :
      (ok : Bool) (t : Trace)
      → Checked memory s.transmission_bytes (after_receive_wait memory s d ok t)
  unfolding after_receive_wait
  after_receive_wait-Checked false t = tt
  after_receive_wait-Checked true t = check_bytes-Checked t

  after_send_wait-Checked :
      (ok : Bool) (t : Trace)
      → Checked memory s.transmission_bytes (after_send_wait env memory s d ok t)
  unfolding after_send_wait
  after_send_wait-Checked false t = tt
  after_send_wait-Checked true t = after_receive_wait-Checked _ _

  -- With buffers that hold the bytes to send.
  pub run_loopback-Checked :
      (t : Trace) → Checked memory s.transmission_bytes (run_loopback env memory s d t)
  unfolding run_loopback run_filled
  run_loopback-Checked t =
      branch (Checked memory s.transmission_bytes) (beyond s.size_src s.transmission_bytes) _ _
        (λ outside. absurd (ground (arith, outside, src_fits)))
        (λ inside. after_send_wait-Checked _ _)

-- ===== src/Filter/Stop.antt =====
-- The filter control ends once SIGINT has come.
use thesis_software.Base.{
  ℕ, zero, suc, ◌+◌, ◌≤◌, ◌≡◌, refl, ◌∙◌, inl, inr, true, false, not, ◌||◌, Option, none, some, [],
  ◌∷◌, ◌==◌, arith, Bool-cases,
}
use thesis_software.World.{
  Select, ready, timed_out, interrupted, failed, selected, terminal_got, Trace, Env,
}
use thesis_software.Filter.{
  KeyAction, set_limits, quit, ignored, apply_limits, do_key, with_key, with_selected, key_round,
  ends, key_loop, Globals, exited, exit_with, after_loop, set_terminal_raw, main_loop, main_mapped,
  main_opened, main_started, main,
}

-- How often `select` has been called.
unfoldable pub selects : Trace → ℕ
selects [] = 0
selects (selected s ∷ t) = suc (selects t)
selects (_ ∷ t) = selects t

do_key-selects :
    (env : Env) (a : KeyAction) (s d : ℕ) (t : Trace) → selects (do_key env a s d t).1 ≡ selects t
unfolding do_key apply_limits selects
do_key-selects env quit s d t = refl
do_key-selects env ignored s d t = refl
do_key-selects env (set_limits n m) s d t = elim (Bool-cases (not (n == s) || not (m == d))) [
  | inl changed ↦ rw changed refl
  | inr same ↦ rw same refl
]

with_key-selects :
    (env : Env) (key : Option ℕ) (t : Trace) → selects (with_key env key t).1 ≡ selects t
unfolding with_key
with_key-selects env none t = refl
with_key-selects env (some ch) t = do_key-selects env _ _ _ _ ∙ unfold selects in refl

with_selected-selects :
    (env : Env) (s : Select) (t : Trace) → selects (with_selected env s t).1 ≡ selects t
unfolding with_selected
with_selected-selects env ready t = with_key-selects env (env.read_key t) _ ∙ unfold selects in refl
with_selected-selects env timed_out t = refl
with_selected-selects env interrupted t = refl
with_selected-selects env failed t = refl

-- A round that is not stopped by the signal waits once.
key_round-selects :
    (env : Env) (t : Trace) → env.sigint t ≡ false → selects (key_round env t).1 ≡ suc (selects t)
unfolding key_round
key_round-selects env t on =
    rw on (with_selected-selects env (env.select_key t) _ ∙ unfold selects in refl)

module _ (env : Env) (k : ℕ) (stops : (t : Trace) → k ≤ selects t → env.sigint t ≡ true) where
  key_loop-stops : (n : ℕ) (t : Trace) → k ≤ selects t + n → (key_loop env (suc n) t).0 ≡ true
  unfolding key_loop
  key_loop-stops zero t h = unfold key_round in rw (stops t (omega (arith, h))) refl
  key_loop-stops (suc n) t h = elim (Bool-cases (env.sigint t)) [
    | inl stop ↦ unfold key_round in rw stop refl
    | inr on ↦ elim (Bool-cases (ends (key_round env t).0)) [
      | inl leave ↦ rw leave refl
      | inr more ↦
          rw more
            (key_loop-stops n (key_round env t).1 (omega (arith, h, key_round-selects env t on)))
    ]
  ]

  enough : (m : ℕ) → k ≤ m + k
  enough m = omega arith

  main_loop-stops : (g : Globals) (t : Trace) → (main_loop env (suc k) g t).0 ≡ exited 0
  unfolding main_loop after_loop exit_with
  main_loop-stops g t = rw (key_loop-stops k _ (enough _)) refl

  main_mapped-stops :
      (fd p : ℕ) (t : Trace) → (code : ℕ) × ((main_mapped env (suc k) fd p t).0 ≡ exited code)
  unfolding main_mapped set_terminal_raw
  main_mapped-stops fd p t = elim (Bool-cases (env.get_terminal t)) [
    | inl got_it ↦ rw got_it (elim (Bool-cases (env.set_terminal (terminal_got true ∷ t))) [
      | inl set_it ↦ rw set_it (0, main_loop-stops _ _)
      | inr refused ↦ rw refused (1, unfold exit_with in refl)
    ])
    | inr no_terminal ↦ rw no_terminal (1, unfold exit_with in refl)
  ]

  main_opened-stops :
      (fd : ℕ) (p : Option ℕ) (t : Trace)
      → (code : ℕ) × ((main_opened env (suc k) fd p t).0 ≡ exited code)
  unfolding main_opened exit_with
  main_opened-stops fd none t = (1, refl)
  main_opened-stops fd (some p) t = main_mapped-stops fd p t

  main_started-stops :
      (fd : Option ℕ) (t : Trace) → (code : ℕ) × ((main_started env (suc k) fd t).0 ≡ exited code)
  unfolding main_started exit_with
  main_started-stops none t = (1, refl)
  main_started-stops (some fd) t = main_opened-stops fd _ _

  -- If SIGINT has come by the time that the loop has waited `k` times, the program ends, and needs no
  -- more than `k + 1` rounds for it, whatever else the system answers.
  pub main-stops : (t : Trace) → (code : ℕ) × ((main env (suc k) t).0 ≡ exited code)
  unfolding main exit_with
  main-stops t = elim (Bool-cases (env.set_handler t)) [
    | inl ok ↦ rw ok (main_started-stops _ _)
    | inr refused ↦ rw refused (1, refl)
  ]

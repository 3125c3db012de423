-- ===== src/Filter/Cleanup.antt =====
-- The exits of the filter control: nothing stays open, mapped or raw.
use thesis_software.Base.{
  ℕ, zero, suc, ◌≡◌, refl, ◌∙◌, inl, inr, Bool, true, false, not, ◌||◌, Option, none, some, [], ◌∷◌,
  arith, ◌==◌, if◌then◌else◌, Bool-cases,
}
use thesis_software.World.{
  Select, ready, timed_out, interrupted, failed, opened, closed, mapped, unmapped, handler_set,
  terminal_got, terminal_set, Trace, Env,
}
use thesis_software.Filter.{
  KeyAction, set_limits, quit, ignored, apply_limits, do_key, with_key, with_selected, key_round,
  key_loop, ends, main_started, Globals, cleanup, exit_with, after_loop, main_loop, main_mapped,
  main_opened, main, Progress, running, exited, reg_map_size, uio_dev,
}

-- What the process holds: a descriptor, a mapping, and a terminal that it has tried to make raw.
pub record Held : Type 0 where
  pub fd : Option ℕ
  pub map : Option ℕ
  pub raw : Bool

abbrev pub nothing_held : Held
nothing_held = record { fd = none; map = none; raw = false }

abbrev then_held : Option Held → (Held → Option Held) → Option Held
then_held none f = none
then_held (some h) f = f h

abbrev is_same : Option ℕ → ℕ → Bool
is_same none n = false
is_same (some m) n = m == n

-- A trace read as what it leaves held; `none` where something is closed or unmapped that is not held.
pub resources : Trace → Option Held
resources [] = some nothing_held
resources (opened path (some fd) ∷ t) =
    then_held (resources t) λ h. some (record h { fd = some fd })
resources (closed fd ∷ t) =
    then_held (resources t) λ h. if is_same h.fd fd then some (record h { fd = none }) else none
resources (mapped fd len (some p) ∷ t) =
    then_held (resources t) λ h. if is_same h.fd fd then some (record h { map = some p }) else none
resources (unmapped p len ∷ t) =
    then_held (resources t) λ h. if is_same h.map p then some (record h { map = none }) else none
resources (terminal_set raw ok ∷ t) = then_held (resources t) λ h. some (record h { raw = raw })
resources (_ ∷ t) = resources t

-- The loop only reads, waits and writes registers.
do_key-resources :
    (env : Env) (a : KeyAction) (s d : ℕ) (t : Trace)
    → resources (do_key env a s d t).1 ≡ resources t
unfolding do_key apply_limits resources
do_key-resources env quit s d t = refl
do_key-resources env ignored s d t = refl
do_key-resources env (set_limits n m) s d t = elim (Bool-cases (not (n == s) || not (m == d))) [
  | inl changed ↦ rw changed refl
  | inr same ↦ rw same refl
]

with_key-resources :
    (env : Env) (key : Option ℕ) (t : Trace) → resources (with_key env key t).1 ≡ resources t
unfolding with_key
with_key-resources env none t = refl
with_key-resources env (some ch) t = do_key-resources env _ _ _ _ ∙ unfold resources in refl

with_selected-resources :
    (env : Env) (s : Select) (t : Trace) → resources (with_selected env s t).1 ≡ resources t
unfolding with_selected
with_selected-resources env ready t =
    with_key-resources env (env.read_key t) _ ∙ unfold resources in refl
with_selected-resources env timed_out t = refl
with_selected-resources env interrupted t = refl
with_selected-resources env failed t = refl

key_round-resources : (env : Env) (t : Trace) → resources (key_round env t).1 ≡ resources t
unfolding key_round
key_round-resources env t = elim (Bool-cases (env.sigint t)) [
  | inl stop ↦ rw stop refl
  | inr on ↦ rw on (with_selected-resources env (env.select_key t) _ ∙ unfold resources in refl)
]

key_loop-resources :
    (env : Env) (rounds : ℕ) (t : Trace) → resources (key_loop env rounds t).1 ≡ resources t
unfolding key_loop
key_loop-resources env zero t = refl
key_loop-resources env (suc rounds) t = elim (Bool-cases (ends (key_round env t).0)) [
  | inl stop ↦ rw stop (key_round-resources env t)
  | inr on ↦ rw on (key_loop-resources env rounds _ ∙ key_round-resources env t)
]

-- What the globals say of what is held.
abbrev held_by : Globals → Held
held_by g = record { fd = g.fd_uio; map = g.reg_map; raw = g.term_saved }

-- The run is still in its loop, or has ended with nothing held.
abbrev pub EndsClean : Progress × Trace → Type 0
EndsClean (running, t) = Unit {0}
EndsClean (exited code, t) = resources t ≡ some nothing_held

exit_with_clean :
    (env : Env) (code : ℕ) (map fd : Option ℕ) (saved : Bool) (t : Trace)
    → resources t ≡ some (record { fd = fd; map = map; raw = saved })
    → EndsClean (exit_with env code (record { reg_map = map; fd_uio = fd; term_saved = saved }) t)
unfolding exit_with cleanup resources
exit_with_clean env code none none true t e = ground arith
exit_with_clean env code map fd saved t e = ground arith

exit_with-EndsClean :
    (env : Env) (code : ℕ) (g : Globals) (t : Trace)
    → resources t ≡ some (held_by g)
    → EndsClean (exit_with env code g t)
exit_with-EndsClean env code g t e = exit_with_clean env code g.reg_map g.fd_uio g.term_saved t e

after_loop-EndsClean :
    (env : Env) (g : Globals) (ended : Bool) (t : Trace)
    → resources t ≡ some (held_by g)
    → EndsClean (after_loop env g ended t)
unfolding after_loop
after_loop-EndsClean env g true t e = exit_with-EndsClean env 0 g t e
after_loop-EndsClean env g false t e = tt

main_loop-EndsClean :
    (env : Env) (rounds : ℕ) (g : Globals) (t : Trace)
    → resources t ≡ some (held_by g)
    → EndsClean (main_loop env rounds g t)
unfolding main_loop
main_loop-EndsClean env rounds g t e =
    after_loop-EndsClean env g _ _ (key_loop-resources env rounds _ ∙ unfold resources in e)

main_mapped-EndsClean :
    (env : Env) (rounds fd p : ℕ) (t : Trace)
    → resources t ≡ some (record { fd = some fd; map = some p; raw = false })
    → EndsClean (main_mapped env rounds fd p t)
unfolding main_mapped
main_mapped-EndsClean env rounds fd p t e =
    let t1 = terminal_got true ∷ t in
    elim (Bool-cases (env.get_terminal t)) [
      | inl got_it ↦ rw got_it (elim (Bool-cases (env.set_terminal t1)) [
        | inl set_it ↦
            rw set_it (main_loop-EndsClean env rounds _ _ (unfold resources in rw e refl))
        | inr refused ↦ rw refused (exit_with-EndsClean env 1 _ _ (unfold resources in rw e refl))
      ])
      | inr no_terminal ↦ rw no_terminal (exit_with-EndsClean env 1 _ _ (unfold resources in e))
    ]

main_opened-EndsClean :
    (env : Env) (rounds fd : ℕ) (p : Option ℕ) (t : Trace)
    → resources t ≡ some (record { fd = some fd; map = none; raw = false })
    → EndsClean (main_opened env rounds fd p (mapped fd reg_map_size p ∷ t))
unfolding main_opened resources
main_opened-EndsClean env rounds fd none t e = exit_with-EndsClean env 1 _ _ e
main_opened-EndsClean env rounds fd (some p) t e =
    main_mapped-EndsClean env rounds fd p _ (ground (arith, e))

main_started-EndsClean :
    (env : Env) (rounds : ℕ) (fd : Option ℕ) (t : Trace)
    → resources t ≡ some nothing_held
    → EndsClean (main_started env rounds fd (opened uio_dev fd ∷ t))
unfolding main_started resources
main_started-EndsClean env rounds none t e = exit_with-EndsClean env 1 _ _ e
main_started-EndsClean env rounds (some fd) t e =
    main_opened-EndsClean env rounds fd _ _ (rw e refl)

-- Every run of the filter control that ends, by a quit key, SIGINT or a failure of any call, ends with
-- its device closed and its registers unmapped, if they were opened and mapped, each once, and with the
-- saved settings given to the terminal last, if it was given others.
pub main-EndsClean : (env : Env) (rounds : ℕ) → EndsClean (main env rounds [])
unfolding main resources
main-EndsClean env rounds = elim (Bool-cases (env.set_handler [])) [
  | inl ok ↦ rw ok (main_started-EndsClean env rounds _ (handler_set true ∷ []) refl)
  | inr refused ↦ rw refused (exit_with-EndsClean env 1 _ (handler_set false ∷ []) refl)
]

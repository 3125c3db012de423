-- ===== src/Filter.antt =====
-- apps/filter-control-app/files/filter-control-app.c, with filter-constants.h: the keyboard control
-- of the two limits of the neural filter. The divider and the messages are console output, and left
-- out.
pub mod Limits
pub mod Cleanup
pub mod Stop
use Prim.Native.String.{String}
use thesis_software.Base.{
  ℕ, zero, suc, ◌+◌, ◌-◌, ◌*◌, ◌/◌, ◌%◌, ◌^◌, Bool, true, false, not, ◌&&◌, ◌||◌, Option, none,
  some, List, [], ◌∷◌, ltb, ◌==◌, if◌then◌else◌,
}
use thesis_software.World.{
  Select, ready, timed_out, interrupted, failed, Event, opened, closed, mapped, unmapped,
  handler_set, terminal_got, terminal_set, selected, key_read, Trace, Env, Act, ◌>>=◌, ◌>>◌, pure,
  event, reg_write32, reg_read32,
}

abbrev pub reg_map_size : ℕ
reg_map_size = 0x10000

abbrev pub decay_counter_limit_offset : ℕ
decay_counter_limit_offset = 0x8

abbrev pub spike_counter_limit_offset : ℕ
spike_counter_limit_offset = 0xc

abbrev pub decay_increment : ℕ
decay_increment = 10000

abbrev pub spike_increment : ℕ
spike_increment = 100

abbrev pub uint32_max : ℕ
uint32_max = 0xffff_ffff

-- What a key does, at the current values of the two registers.
pub data KeyAction : Type 0 where
  set_limits : ℕ → ℕ → KeyAction
  quit : KeyAction
  ignored : KeyAction

unfoldable pub handle_key : ℕ → ℕ → ℕ → KeyAction
handle_key ch cur_spike cur_decay =
    if ch == b'+'
    then set_limits
        (if ltb (uint32_max - spike_increment) cur_spike
          then uint32_max
          else (cur_spike + spike_increment) % 2 ^ 32)
        cur_decay
    else if ch == b'-'
    then set_limits (if ltb cur_spike spike_increment then 0 else cur_spike - spike_increment)
        cur_decay
    else if ch == b'p' || ch == b'P'
    then set_limits cur_spike (
        if ltb (uint32_max - decay_increment) cur_decay
        then uint32_max
        else (cur_decay + decay_increment) % 2 ^ 32)
    else if ch == b'l' || ch == b'L'
    then set_limits cur_spike
        (if ltb cur_decay decay_increment then 0 else cur_decay - decay_increment)
    else if ch == b'q' || ch == b'Q'
    then quit
    else ignored

-- Writes both limits if either has changed, and reads them back.
unfoldable pub apply_limits : Env → ℕ → ℕ → ℕ → ℕ → Act (Unit {0})
apply_limits env cur_spike cur_decay next_spike next_decay =
    let write : Act (Unit {0}) = do
      reg_write32 spike_counter_limit_offset next_spike
      reg_write32 decay_counter_limit_offset next_decay
      _verify_spike ← reg_read32 env spike_counter_limit_offset
      _verify_decay ← reg_read32 env decay_counter_limit_offset
      pure tt
    in if not (next_spike == cur_spike) || not (next_decay == cur_decay) then write else pure tt

-- The loop goes on, or ends: by `g_stop`, or by the `break` behind a failed `select`.
pub data Round : Type 0 where
  go_on : Round
  leave : Round

unfoldable pub do_key : Env → KeyAction → ℕ → ℕ → Act Round
do_key env quit cur_spike cur_decay = pure leave
do_key env ignored cur_spike cur_decay = pure go_on
do_key env (set_limits next_spike next_decay) cur_spike cur_decay = do
  apply_limits env cur_spike cur_decay next_spike next_decay
  pure go_on

-- From the `read` of a key on.
unfoldable pub with_key : Env → Option ℕ → Act Round
with_key env none = pure go_on
with_key env (some ch) = do
  cur_spike ← reg_read32 env spike_counter_limit_offset
  cur_decay ← reg_read32 env decay_counter_limit_offset
  do_key env (handle_key ch cur_spike cur_decay) cur_spike cur_decay

-- What the answer of `select` leads to.
unfoldable pub with_selected : Env → Select → Act Round
with_selected env failed t = (leave, t)
with_selected env interrupted t = (go_on, t)
with_selected env timed_out t = (go_on, t)
with_selected env ready t = with_key env (env.read_key t) (key_read (env.read_key t) ∷ t)

-- One round of the `while` loop. A quit key sets `g_stop`, which the loop's test meets at once.
unfoldable pub key_round : Env → Act Round
key_round env t =
    if env.sigint t
    then (leave, t)
    else with_selected env (env.select_key t) (selected (env.select_key t) ∷ t)

abbrev pub ends : Round → Bool
ends leave = true
ends go_on = false

-- The loop, for a number of rounds: whether it has ended.
unfoldable pub key_loop : Env → ℕ → Act Bool
key_loop env zero = pure false
key_loop env (suc rounds) = do
  r ← key_round env
  let more = key_loop env rounds
  if ends r then pure true else more

-- The globals that `cleanup` reads; `none` is `NULL`, or -1.
pub record Globals : Type 0 where
  pub reg_map : Option ℕ
  pub fd_uio : Option ℕ
  pub term_saved : Bool

-- `restore_terminal` and the rest of `cleanup`, which runs at exit.
unfoldable pub restore_terminal : Env → Globals → Act (Unit {0})
restore_terminal env g t =
    if g.term_saved then (tt, terminal_set false (env.set_terminal t) ∷ t) else (tt, t)

abbrev unmap_regs : Option ℕ → Act (Unit {0})
unmap_regs none = pure tt
unmap_regs (some p) = event (unmapped p reg_map_size)

abbrev close_uio : Option ℕ → Act (Unit {0})
close_uio none = pure tt
close_uio (some fd) = event (closed fd)

unfoldable pub cleanup : Env → Globals → Act (Unit {0})
unfolding restore_terminal
cleanup env g = do restore_terminal env g; unmap_regs g.reg_map; close_uio g.fd_uio

-- `set_terminal_raw`: whether it returns 0, and `g_term_saved`.
unfoldable pub set_terminal_raw : Env → Act (Bool × Bool)
set_terminal_raw env t =
    let t1 = terminal_got (env.get_terminal t) ∷ t in
    let t2 = terminal_set true (env.set_terminal t1) ∷ t1 in
    if env.get_terminal t then ((env.set_terminal t1, true), t2) else ((false, false), t1)

-- How far a run of the program has come: still in the loop, or exited with a code.
pub data Progress : Type 0 where
  running : Progress
  exited : ℕ → Progress

-- Behind `exit` or a return from `main`: `cleanup` runs.
unfoldable pub exit_with : Env → ℕ → Globals → Act Progress
unfolding cleanup
exit_with env code g = do cleanup env g; pure (exited code)

-- Behind the loop, if it has ended.
unfoldable pub after_loop : Env → Globals → Bool → Act Progress
after_loop env g true = exit_with env 0 g
after_loop env g false = pure running

unfoldable pub main_loop : Env → ℕ → Globals → Act Progress
main_loop env rounds g = do
  _spike ← reg_read32 env spike_counter_limit_offset
  _decay ← reg_read32 env decay_counter_limit_offset
  ended ← key_loop env rounds
  after_loop env g ended

unfoldable pub main_mapped : Env → ℕ → ℕ → ℕ → Act Progress
unfolding set_terminal_raw
main_mapped env rounds fd p = do
  (ok, saved) ← set_terminal_raw env
  let g : Globals = record { reg_map = some p; fd_uio = some fd; term_saved = saved }
  if ok then main_loop env rounds g else exit_with env 1 g

-- From the `mmap` of the registers on, with its answer.
unfoldable pub main_opened : Env → ℕ → ℕ → Option ℕ → Act Progress
main_opened env rounds fd none =
    exit_with env 1 (record { reg_map = none; fd_uio = some fd; term_saved = false })
main_opened env rounds fd (some p) = main_mapped env rounds fd p

-- From the `open` of the device on, with its answer.
unfoldable pub main_started : Env → ℕ → Option ℕ → Act Progress
main_started env rounds none t =
    exit_with env 1 (record { reg_map = none; fd_uio = none; term_saved = false }) t
main_started env rounds (some fd) t =
    let answer = env.map_memory t fd reg_map_size in
    main_opened env rounds fd answer (mapped fd reg_map_size answer ∷ t)

abbrev pub uio_dev : String
uio_dev = "/dev/uio5"

-- `main`, with a bound on the rounds of its loop.
unfoldable pub main : Env → ℕ → Act Progress
main env rounds t =
    let t1 = handler_set (env.set_handler t) ∷ t in
    let answer = env.open_file t1 uio_dev in
    let none_yet : Globals = record { reg_map = none; fd_uio = none; term_saved = false } in
    if env.set_handler t
    then main_started env rounds answer (opened uio_dev answer ∷ t1)
    else exit_with env 1 none_yet t1

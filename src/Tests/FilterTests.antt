-- ===== src/Tests/FilterTests.antt =====
-- Runs of the filter control.
use thesis_software.Base.{ℕ, leb, ◌++◌, ◌≡◌, refl, some, [], arith}
use thesis_software.World.{timed_out, Env}
use thesis_software.Filter.{handle_key, set_limits, main, key_round, exited}
use thesis_software.Filter.Limits.{
  limits_after, KeyRound, key_round-limits_after, ends_after, reg_writes, writes_after, spike_at,
  decay_at,
}
use thesis_software.Filter.Cleanup.{EndsClean, main-EndsClean}
use thesis_software.Filter.Stop.{selects, main-stops}
use thesis_software.Tests.DmaTests.{calm}

saturates : handle_key b'+' 0xffff_ffff 5 ≡ set_limits 0xffff_ffff 5
unfolding handle_key
saturates = refl

plus_round : KeyRound calm b'+' []
plus_round = record { not_stopped = refl; key_there = refl; key_is = refl }

key_round-limits_after_example :
    let a = limits_after b'+' (spike_at calm b'+' []) (decay_at calm b'+' []) in
    ((key_round calm []).0 ≡ ends_after a)
    × (reg_writes (key_round calm []).1
        ≡ writes_after a (spike_at calm b'+' []) (decay_at calm b'+' []) ++ reg_writes [])
key_round-limits_after_example = key_round-limits_after calm b'+' [] plus_round

abbrev quitting : Env
quitting = record calm { read_key = λ t. some b'q' }

main-EndsClean_example : EndsClean (main quitting 3 [])
main-EndsClean_example = main-EndsClean quitting 3

-- SIGINT comes while the program waits for the second time.
abbrev interrupting : Env
interrupting = record calm { sigint = λ t. leb 2 (selects t); select_key = λ t. timed_out }

main-stops_example : (code : ℕ) × ((main interrupting 3 []).0 ≡ exited code)
main-stops_example = main-stops interrupting 2 (λ t h. ground arith) []

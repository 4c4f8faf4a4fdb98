-- ===== src/Store/Lock/Tests.antt =====
-- Two writers and a lock file that was left behind.
use artesca_vss_console.Common.{none, some, List, [], ◌∷◌, ◌≡◌, refl, arith}
use artesca_vss_console.Store.Lock.{
  wants, holding, ended, Volume, Action, create, stat, release, tick, step, run, on_create, on_stat,
  on_release, create_with, stat_with,
}
use artesca_vss_console.Store.Lock.Exclusive.{IsExclusive, run-IsExclusive, race, race-holders}

abbrev fresh : Volume
fresh = record { lock = none; now = 100_000; writers = wants 110_000 ∷ wants 110_000 ∷ [] }

abbrev passed_on : Volume
passed_on = record { lock = some 100_050; now = 100_050; writers = ended ∷ holding ∷ [] }

abbrev turns : List Action
turns = create 0 ∷ create 1 ∷ stat 1 ∷ tick 50 ∷ release 0 ∷ create 1 ∷ []

turning : run turns fresh ≡ some passed_on
unfolding run step on_create create_with on_stat stat_with on_release
turning = refl

run-IsExclusive_example : IsExclusive passed_on
run-IsExclusive_example = run-IsExclusive turns fresh passed_on turning refl (omega arith)

race-holders_example :
    run race (record { lock = some 0; now = 60_000; writers = wants 70_000 ∷ wants 70_000 ∷ [] })
    ≡ some (record { lock = some 60_000; now = 60_000; writers = holding ∷ holding ∷ [] })
race-holders_example = race-holders 0 60_000 70_000 70_000 [] refl

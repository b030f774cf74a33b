-- ===== src/Routing/Circuit/Scenarios.antt =====
-- Runs of a breaker that opens after two failures and cools down for ten time units.
use aegis_route.Base.{◌≡◌, refl, string_key, true, false, List, [], ◌∷◌, arith, All, keep}
use aegis_route.Base.Map.{lookup, insert}
use aegis_route.Routing.Circuit.{Breaker, new_breaker, allow, report_failure, circuit}
use aegis_route.Routing.Circuit.Phase.{
  phase, healthy, tripped, step, admits, allows, succeeds, fails, step-Refines,
}
use aegis_route.Routing.Circuit.History.{
  Event, on, run, answers, phase-run-keep, answers_of_tripped,
}
use aegis_route.Routing.Circuit.Probes.{phase-run_failures, allow-report}

abbrev start : Breaker
unfolding new_breaker
start = new_breaker 2 10 true

abbrev failing : List Event
failing =
    record { now = 1; backend = "fast"; op = fails }
    ∷ record { now = 2; backend = "fast"; op = fails }
    ∷ []

abbrev mixed : List Event
mixed =
    record { now = 3; backend = "fast"; op = allows }
    ∷ record { now = 4; backend = "cheap"; op = fails }
    ∷ record { now = 11; backend = "fast"; op = succeeds }
    ∷ []

abbrev recovery : List Event
recovery =
    record { now = 12; backend = "fast"; op = allows }
    ∷ record { now = 13; backend = "fast"; op = allows }
    ∷ record { now = 14; backend = "fast"; op = succeeds }
    ∷ []

failing_opens : phase (run start failing) "fast" ≡ tripped 2
unfolding run step report_failure phase new_breaker lookup insert
failing_opens = refl

recovery-answers : answers "fast" (run start failing) recovery ≡ true ∷ false ∷ []
unfolding run answers step report_failure allow new_breaker lookup insert
recovery-answers = refl

step-Refines_example :
    (phase (step start 1 "fast" fails) "cheap" ≡ healthy 0) × ((allow start 1 "fast").1 ≡ true)
unfolding new_breaker phase circuit lookup admits
step-Refines_example = step-Refines start 1 "fast" "cheap" fails

phase-run-keep_example :
    phase (run start mixed) "fast" ≡ phase (run start (keep (on "fast") mixed)) "fast"
phase-run-keep_example = phase-run-keep "fast" start mixed

answers_of_tripped_example :
    (phase (run (run start failing) mixed) "fast" ≡ tripped 2)
    × All (λ a. a ≡ false) (answers "fast" (run start failing) mixed)
unfolding run step report_failure new_breaker lookup insert
answers_of_tripped_example =
    answers_of_tripped "fast" 2 mixed (run start failing) failing_opens (omega arith)

phase-run_failures_example :
    (phase (run start (record { now = 1; backend = "fast"; op = fails } ∷ [])) "fast" ≡ healthy 1)
    × (phase (run start failing) "fast" ≡ tripped 2)
unfolding new_breaker phase circuit lookup
phase-run_failures_example =
    phase-run_failures "fast" start 0 (record { now = 1; backend = "fast"; op = fails } ∷ []) []
      (record { now = 2; backend = "fast"; op = fails }) refl ((refl, refl), ((refl, refl), tt))
      refl

allow-report_example : (allow (step start 1 "fast" fails) 2 "fast").1 ≡ true
unfolding step report_failure new_breaker phase lookup insert
allow-report_example = allow-report start 1 2 "fast" fails (λ e. cc) (omega arith)

-- ===== src/Routing/Selector/Scenarios.antt =====
-- Two backends of one priority, one of them three times as heavy, and one of a later priority.
use mathlib.Core.List.{Perm, Nodup, Nodup-cons, Nodup-nil, not-mem-nil}
use aegis_route.Base.{
  ℕ, ◌+◌, ◌≡◌, refl, nat_key, string_key, true, false, some, List, [], ◌∷◌, arith, not-mem_of_All,
}
use aegis_route.Base.Int.{pos}
use aegis_route.Base.Map.{lookup, insert}
use aegis_route.Models.{ModelBackend, mock}
use aegis_route.Routing.Circuit.{new_breaker, allow}
use aegis_route.Routing.Selector.Order.{pick, order}
use aegis_route.Routing.Selector.Order.Draw.{pick-interval, sum_weights}
use aegis_route.Routing.Selector.Order.Arrange.{IsLawful}
use aegis_route.Routing.Selector.Order.Sorted.{IsOrdered, order-IsOrdered}
use aegis_route.Routing.Selector.{
  Selector, new_selector, attempt, select, release, semaphore_at, not_found, routable,
}
use aegis_route.Routing.Selector.Slots.{Inv, attempt-Inv, new_selector-Inv}
use aegis_route.Routing.Selector.Slots.Select.{select-Inv}
use aegis_route.Routing.Selector.Slots.Release.{release_once}
use aegis_route.Routing.Selector.Choice.First.{Expected, select-Expected}

abbrev fast : ModelBackend
fast = record {
  id = 1;
  name = "fast";
  base_url = "http://mock-llm-fast:8081";
  model_name = "llama-fast";
  kind = mock;
  enabled = true;
  priority = pos 0;
  weight = pos 3;
  max_in_flight = pos 1;
}

abbrev cheap : ModelBackend
cheap = record fast { id = 2; name = "cheap"; weight = pos 1 }

abbrev spare : ModelBackend
spare = record fast { id = 3; name = "spare"; priority = pos 1; weight = pos 1 }

abbrev rows : List ModelBackend
rows = spare ∷ fast ∷ cheap ∷ []

abbrev low_draw : ℕ → ℕ → ℕ
low_draw k n = 0

low_draw-IsLawful : IsLawful low_draw
low_draw-IsLawful k n h = h

abbrev start : Selector
unfolding new_breaker new_selector
start = new_selector (new_breaker 2 10 false) true

abbrev now : ℕ → ℕ
now i = i

pick-interval_example : pick (pos 3) (fast ∷ cheap ∷ spare ∷ []) ≡ some (cheap, fast ∷ spare ∷ [])
unfolding sum_weights
pick-interval_example =
    pick-interval (fast ∷ []) cheap (spare ∷ []) 3 (omega arith) (omega arith) (omega arith)

order-IsOrdered_example : Perm rows (order low_draw 0 rows).0 × IsOrdered (order low_draw 0 rows).0
order-IsOrdered_example = order-IsOrdered low_draw 0 rows low_draw-IsLawful (omega arith)

select-Inv_example : Inv (select low_draw start now not_found (some rows) []).0
unfolding new_selector new_breaker
select-Inv_example =
    select-Inv low_draw start now not_found (some rows) []
      (new_selector-Inv (new_breaker 2 10 false) true)

abbrev one_call : Selector
one_call = (attempt start 0 [] fast).0

one_call-Inv : Inv one_call
unfolding new_selector new_breaker
one_call-Inv = attempt-Inv start 0 [] fast refl (new_selector-Inv (new_breaker 2 10 false) true)

release_once_example :
    ((semaphore_at (release one_call 0) 0).slots + 1 ≡ (semaphore_at one_call 0).slots)
    × (release (release one_call 0) 0 ≡ release one_call 0)
unfolding new_selector new_breaker attempt allow lookup insert
release_once_example =
    release_once one_call 0 (record { sem = 0; backend = "fast"; done = false }) 0 one_call-Inv refl
      refl

distinct_ids : Nodup {A = ℕ} (3 ∷ 1 ∷ 2 ∷ [])
distinct_ids = Nodup-cons.1 (
  not-mem_of_All 3 (1 ∷ 2 ∷ []) (omega arith),
  Nodup-cons.1 (not-mem_of_All 1 (2 ∷ []) (omega arith), Nodup-cons.1 (not-mem-nil, Nodup-nil)),
)

select-Expected_example :
    Expected low_draw start now [] rows (select low_draw start now not_found (some rows) []).1
unfolding new_selector new_breaker routable
select-Expected_example =
    select-Expected low_draw start now not_found rows [] low_draw-IsLawful (λ e. cc) distinct_ids
      (new_selector-Inv (new_breaker 2 10 false) true)

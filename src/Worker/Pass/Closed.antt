-- ===== src/Worker/Pass/Closed.antt =====
-- The job of a pool whose goroutines have returned.
use aegis_route.Base.{
  ℕ, ◌+◌, ◌<◌, ◌≡◌, refl, inl, inr, Bool, true, false, not, nat_key, ◌==◌, ==_refl, List, [], ◌∷◌,
  arith, Bool-cases, tally, length,
}
use aegis_route.Models.{Uuid, BatchJobItem}
use aegis_route.Jobs.Store.{items_of, is_queued, is_terminal, count_status}
use aegis_route.Jobs.Store.Ids.{live}
use aegis_route.Jobs.Store.Outcome.{some_item}
use aegis_route.Worker.Pass.{Member, Pool, all_back}
use aegis_route.Worker.Pass.Steps.{holds, is_drained, is_stopped, IsSound}

back-holds : (x : Uuid) (ms : List Member) → all_back ms ≡ true → tally (holds x) ms ≡ 0
back-holds x [] back = refl
back-holds x (m ∷ ms) back = ground (arith, back-holds x ms)

back-counts :
    (ms : List Member) → all_back ms ≡ true → tally is_drained ms + tally is_stopped ms ≡ length ms
back-counts [] back = refl
back-counts (m ∷ ms) back = ground (arith, back-counts ms)

none_open :
    (its : List BatchJobItem)
    → ((x : Uuid) → live x its ≡ 0)
    → count_status is_queued its ≡ 0
    → some_item (λ s. not (is_terminal s)) its ≡ false
unfolding count_status
none_open [] idle empty = refl
none_open (it ∷ its) idle empty =
    let rest = none_open its (λ x. omega (arith, idle x)) (omega arith) in
    ground (arith, idle it.id, ==_refl {K = Uuid} it.id, rest)

-- When the goroutines of a pass that is neither broken nor shut down have returned, every item of the
-- job is terminal.
pub pool-Closed :
    (job : Uuid) (p : Pool)
    → IsSound job p
    → all_back p.members ≡ true
    → p.ended ≡ false
    → 0 < length p.members
    → some_item (λ s. not (is_terminal s)) (items_of p.store job) ≡ false
pool-Closed job p sound back on some_members =
    let none_stopped : tally is_stopped p.members ≡ 0 =
      elim (Bool-cases (zero_test (tally is_stopped p.members))) [
        | inl is ↦ ground (arith, is)
        | inr is ↦ ground (arith, is, on, sound.left (ground (arith, is)))
      ] in
    none_open (items_of p.store job) (λ x. omega (arith, sound.held x, back-holds x p.members back))
      (sound.empty (omega (arith, none_stopped, back-counts p.members back, some_members)))
  where
    zero_test : ℕ → Bool
    zero_test n = n == 0

-- ===== src/Routing/Selector/Slots/Select.antt =====
-- Select and the slots of the semaphores.
use aegis_route.Base.{
  ℕ, suc, ◌≡◌, nat_key, String, string_key, true, Option, none, some, List, [], ◌∷◌, arith, inl,
  inr, Bool-cases, Option-cases, All, keep,
}
use aegis_route.Base.Int.{pos, ltb_ℤ}
use aegis_route.Models.{Uuid, ModelBackend}
use aegis_route.Routing.Selector.Order.{order}
use aegis_route.Routing.Selector.Order.Arrange.{tiers-All, sort_by_priority-All}
use aegis_route.Routing.Selector.{
  PolicyAnswer, found, not_found, failed, select, choose, try_all, Selector, semaphore_at, attempt,
  routable,
}
use aegis_route.Routing.Selector.Slots.{Inv, attempt-Inv}

abbrev pub HasRoom : ModelBackend → Type 0
HasRoom b = ltb_ℤ (pos 0) b.max_in_flight ≡ true

try_all-Inv :
    (bs : List ModelBackend) (s : Selector) (now : ℕ → ℕ) (exclude : List Uuid)
    (policy : String × String)
    → All HasRoom bs
    → Inv s
    → Inv (try_all s now exclude policy bs).0
unfolding try_all
try_all-Inv [] s now exclude policy h v = v
try_all-Inv (b ∷ bs) s now exclude policy h v =
    let next = attempt-Inv s (now 0) exclude b h.0 v in
    elim (Option-cases (attempt s (now 0) exclude b).1) [
      | inl e ↦ rw (e, try_all) (try_all-Inv bs _ (λ i. now (suc i)) exclude policy h.1 next)
      | inr (l, e) ↦ rw (e, try_all) next
    ]

pub keep-HasRoom : (rows : List ModelBackend) → All HasRoom (keep routable rows)
unfolding routable
keep-HasRoom [] = tt
keep-HasRoom (b ∷ rows) = elim (Bool-cases (routable b)) [
  | inl good ↦ rw good (ground arith, keep-HasRoom rows)
  | inr bad ↦ rw bad (keep-HasRoom rows)
]

pub rng-Inv : (s : Selector) (k : ℕ) → Inv s → Inv (record s { rng = k })
unfolding semaphore_at
rng-Inv s k v = record {
  counted = v.counted;
  bounded = v.bounded;
  sem_fresh = v.sem_fresh;
  sems_known = v.sems_known;
  lease_fresh = v.lease_fresh;
}

module _ (intn : ℕ → ℕ → ℕ) where
  choose-Inv :
      (bs : List ModelBackend) (s : Selector) (now : ℕ → ℕ) (exclude : List Uuid)
      (policy : String × String)
      → All HasRoom bs
      → Inv s
      → Inv (choose intn s now exclude policy bs).0
  unfolding choose order
  choose-Inv [] s now exclude policy h v = v
  choose-Inv (b ∷ bs) s now exclude policy h v =
      try_all-Inv (order intn s.rng (b ∷ bs)).0 _ now exclude policy
        (tiers-All intn HasRoom _ s.rng _ (sort_by_priority-All HasRoom (b ∷ bs) h)) (rng-Inv s _ v)

  -- Select keeps the invariant: it never takes a slot past a semaphore's capacity, and it gives back
  -- the slot of every candidate that it does not return.
  pub select-Inv :
      (s : Selector) (now : ℕ → ℕ) (policy : PolicyAnswer) (rows : Option (List ModelBackend))
      (exclude : List Uuid)
      → Inv s
      → Inv (select intn s now policy rows exclude).0
  unfolding select
  select-Inv s now failed rows exclude v = v
  select-Inv s now not_found none exclude v = v
  select-Inv s now not_found (some rows) exclude v =
      choose-Inv (keep routable rows) s now exclude _ (keep-HasRoom rows) v
  select-Inv s now (found p) none exclude v = v
  select-Inv s now (found p) (some rows) exclude v =
      choose-Inv (keep routable rows) s now exclude _ (keep-HasRoom rows) v

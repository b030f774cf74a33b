-- ===== src/Routing/Selector/Choice/First.antt =====
-- The answer of Select.
use mathlib.Core.List.{Nodup, Mem, Nodup-cons, mem-cons_self, mem-cons_of_mem}
use mathlib.Core.List.Perm
use aegis_route.Base.{
  ℕ, suc, ◌≡◌, ◌≢◌, refl, nat_key, String, string_key, true, false, Option, none, some, List, [],
  ◌∷◌, map, arith, inl, inr, Bool-cases, Option-cases, All, keep,
}
use aegis_route.Models.{Uuid, ModelBackend}
use aegis_route.Routing.Selector.Order.{order}
use aegis_route.Routing.Selector.Order.Arrange.{IsLawful, tiers-All, sort_by_priority-All}
use aegis_route.Routing.Selector.Order.Draw.{HasWeight}
use aegis_route.Routing.Selector.Order.Sorted.{order-IsOrdered}
use aegis_route.Routing.Selector.{
  semaphore_at, current, Selector, Selected, selected, refused, no_backends, no_capacity,
  PolicyAnswer, found, not_found, failed, attempt, try_all, choose, select, routable,
}
use aegis_route.Routing.Selector.Slots.{Inv, attempt-Inv}
use aegis_route.Routing.Selector.Slots.Select.{HasRoom, rng-Inv, keep-HasRoom}
use aegis_route.Routing.Selector.Choice.{
  taken, available, first_available, attempt-available, available-skip,
}

-- The answer that a reference choice amounts to.
abbrev pub Answer : Option ModelBackend → Selected → Type 0
Answer none r = r ≡ refused no_capacity
Answer (some b) (selected sel l) = sel.backend ≡ b
Answer (some b) (refused e) = ⊥

abbrev IsApart : Uuid → ModelBackend → Type 0
IsApart id c = c.id ≢ id

abbrev AreApart : List ModelBackend → Type 0
AreApart [] = Unit {0}
AreApart (b ∷ bs) = All (IsApart b.id) bs × AreApart bs

first_available-skip :
    (bs : List ModelBackend) (s : Selector) (now : ℕ) (later : ℕ → ℕ) (exclude : List Uuid)
    (b : ModelBackend)
    → Inv s
    → All (IsApart b.id) bs
    → (attempt s now exclude b).1 ≡ none
    → first_available (attempt s now exclude b).0 later exclude bs
      ≡ first_available s later exclude bs
unfolding first_available
first_available-skip [] s now later exclude b v apart skipped = refl
first_available-skip (c ∷ bs) s now later exclude b v apart skipped = rw (
  available-skip s now (later 0) exclude b c v apart.0 skipped,
  first_available-skip bs s now (λ i. later (suc i)) exclude b v apart.1 skipped,
)

try_all-Answer :
    (bs : List ModelBackend) (s : Selector) (now : ℕ → ℕ) (exclude : List Uuid)
    (policy : String × String)
    → All HasRoom bs
    → AreApart bs
    → Inv s
    → Answer (first_available s now exclude bs) (try_all s now exclude policy bs).1
unfolding try_all first_available
try_all-Answer [] s now exclude policy room apart v = refl
try_all-Answer (b ∷ bs) s now exclude policy room apart v =
    let taken = attempt-available s (now 0) exclude b room.0 v in
    elim (Option-cases (attempt s (now 0) exclude b).1) [
      | inl e ↦
          let off : available s (now 0) exclude b ≡ false = ground arith in
          rw
            (
              e,
              try_all,
              off,
              ← first_available-skip bs s (now 0) (λ i. now (suc i)) exclude b v apart.0 e,
            )
            (try_all-Answer bs (attempt s (now 0) exclude b).0 (λ i. now (suc i)) exclude policy
              room.1 apart.1 (attempt-Inv s (now 0) exclude b room.0 v))
      | inr (l, e) ↦
          let on : available s (now 0) exclude b ≡ true = ground arith in rw (e, try_all, on) refl
    ]

AreApart-of_Nodup : (bs : List ModelBackend) → Nodup (map (λ b. b.id) bs) → AreApart bs
AreApart-of_Nodup [] h = tt
AreApart-of_Nodup (b ∷ bs) h =
    let (fresh, rest) = Nodup-cons.0 h in (apart bs fresh, AreApart-of_Nodup bs rest)
  where
    apart : (cs : List ModelBackend) → ¬ Mem b.id (map (λ c. c.id) cs) → All (IsApart b.id) cs
    apart [] n = tt
    apart (c ∷ cs) n = ((λ e. n (rw e mem-cons_self)), apart cs (λ m. n (mem-cons_of_mem c.id m)))

taken-rng : (s : Selector) (k : ℕ) (b : ModelBackend) → taken (record s { rng = k }) b ≡ taken s b
unfolding taken current semaphore_at
taken-rng s k b = ground arith

available-rng :
    (s : Selector) (k now : ℕ) (exclude : List Uuid) (b : ModelBackend)
    → available (record s { rng = k }) now exclude b ≡ available s now exclude b
unfolding available
available-rng s k now exclude b = rw (taken-rng s k b)

first_available-rng :
    (bs : List ModelBackend) (s : Selector) (k : ℕ) (now : ℕ → ℕ) (exclude : List Uuid)
    → first_available (record s { rng = k }) now exclude bs ≡ first_available s now exclude bs
unfolding first_available
first_available-rng [] s k now exclude = refl
first_available-rng (b ∷ bs) s k now exclude =
    rw (available-rng s k (now 0) exclude b, first_available-rng bs s k (λ i. now (suc i)) exclude)

keep-HasWeight : (rows : List ModelBackend) → All HasWeight (keep routable rows)
unfolding routable
keep-HasWeight [] = tt
keep-HasWeight (b ∷ rows) = elim (Bool-cases (routable b)) [
  | inl good ↦ rw good (ground arith, keep-HasWeight rows)
  | inr bad ↦ rw bad (keep-HasWeight rows)
]

module _ (intn : ℕ → ℕ → ℕ) (lawful : IsLawful intn) where
  order-HasRoom :
      (k : ℕ) (bs : List ModelBackend) → All HasRoom bs → All HasRoom (order intn k bs).0
  unfolding order
  order-HasRoom k bs h = tiers-All intn HasRoom _ k _ (sort_by_priority-All HasRoom bs h)

  order-AreApart :
      (k : ℕ) (bs : List ModelBackend)
      → All HasWeight bs
      → Nodup (map (λ b. b.id) bs)
      → AreApart (order intn k bs).0
  order-AreApart k bs w d =
      AreApart-of_Nodup (order intn k bs).0
        (Perm.nodup (Perm.map (λ b. b.id) (order-IsOrdered intn k bs lawful w).0) d)

-- What Select answers for the routable rows: the first available backend in the order drawn for them.
abbrev pub Expected :
    (ℕ → ℕ → ℕ) → Selector → (ℕ → ℕ) → List Uuid → List ModelBackend → Selected → Type 0
Expected intn s now exclude [] r = r ≡ refused no_backends
Expected intn s now exclude (b ∷ bs) r =
    Answer (first_available s now exclude (order intn s.rng (b ∷ bs)).0) r

module _ (intn : ℕ → ℕ → ℕ) where
  choose-Expected :
      (bs : List ModelBackend) (s : Selector) (now : ℕ → ℕ) (exclude : List Uuid)
      (policy : String × String)
      → IsLawful intn
      → All HasRoom bs
      → All HasWeight bs
      → Nodup (map (λ b. b.id) bs)
      → Inv s
      → Expected intn s now exclude bs (choose intn s now exclude policy bs).1
  unfolding choose
  choose-Expected [] s now exclude policy lawful room w d v = refl
  choose-Expected (b ∷ bs) s now exclude policy lawful room w d v =
      let (ordered, k) = order intn s.rng (b ∷ bs) in
      rw (← first_available-rng ordered s k now exclude) (
        try_all-Answer ordered (record s { rng = k }) now exclude policy
          (order-HasRoom intn lawful s.rng (b ∷ bs) room)
          (order-AreApart intn lawful s.rng (b ∷ bs) w d) (rng-Inv s k v))

  -- When both stores answer and the routable rows have distinct ids, Select returns the first
  -- available of them in the order drawn, no_capacity when none is available, and no_backends when
  -- no row is routable. A backend is available when it is not excluded, its semaphore has room and
  -- its circuit lets a call through, all judged in the state before the call.
  pub select-Expected :
      (s : Selector) (now : ℕ → ℕ) (policy : PolicyAnswer) (rows : List ModelBackend)
      (exclude : List Uuid)
      → IsLawful intn
      → policy ≢ failed
      → Nodup (map (λ b. b.id) (keep routable rows))
      → Inv s
      → Expected intn s now exclude
          (keep routable rows)
          (select intn s now policy (some rows) exclude).1
  unfolding select
  select-Expected s now failed rows exclude lawful answered d v = absurd (answered refl)
  select-Expected s now not_found rows exclude lawful answered d v =
      choose-Expected (keep routable rows) s now exclude _ lawful (keep-HasRoom rows)
        (keep-HasWeight rows) d v
  select-Expected s now (found p) rows exclude lawful answered d v =
      choose-Expected (keep routable rows) s now exclude _ lawful (keep-HasRoom rows)
        (keep-HasWeight rows) d v

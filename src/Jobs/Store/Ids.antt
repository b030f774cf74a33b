-- ===== src/Jobs/Store/Ids.antt =====
-- Items by id: how often an id occurs in the store, and what an update by id leaves running.
use aegis_route.Base.{
  ℕ, ◌+◌, ◌≤◌, ◌≡◌, refl, ◌⊎◌, inl, inr, true, false, ◌&&◌, nat_key, ◌==◌, Option, List, [], ◌∷◌,
  arith, Bool-cases, tally, String,
}
use aegis_route.Base.Map.{Map, lookup}
use aegis_route.Models.{Uuid, BatchJobItem, ItemStatus}
use aegis_route.Jobs.Status.{valid_item_transition}
use aegis_route.Jobs.Store.{
  MemStore, items_of, or_empty, is_running, is_queued, is_terminal, count_status, Update, missing,
  stopped, written, map_update, or_later, finished, update_item, update_items, after_update,
  update_item_terminal,
}
use aegis_route.Jobs.Store.Changes.{
  Pairwise, MapStep, Found, MapStep-refl, lookup-MapStep, update_items-Found,
}
use aegis_route.Jobs.Store.Items.{ItemStep, Evolves, Op, step, step-MapStep}

-- How many items have the id, and how many of those are running.
abbrev pub times : Uuid → List BatchJobItem → ℕ
times x = tally (λ it. it.id == x)

abbrev pub live : Uuid → List BatchJobItem → ℕ
live x = tally (λ it. it.id == x && is_running it.status)

-- A number of every job's items, added up.
abbrev pub total : (List BatchJobItem → ℕ) → Map Uuid (List BatchJobItem) → ℕ
total f [] = 0
total f ((job, its) ∷ m) = f its + total f m

-- No two items of the store have one id.
abbrev pub HasUniqueIds : MemStore → Type 0
HasUniqueIds s = (x : Uuid) → total (times x) s.items ≤ 1

live_le : (x : Uuid) (its : List BatchJobItem) → live x its ≤ times x its
live_le x [] = omega arith
live_le x (it ∷ its) = ground (arith, live_le x its)

live-total :
    (x job : Uuid) (m : Map Uuid (List BatchJobItem))
    → live x (or_empty (lookup job m)) ≤ total (live x) m
unfolding lookup
live-total x job [] = omega arith
live-total x job ((j, its) ∷ m) = elim (Bool-cases (j == job)) [
  | inl here ↦ rw here (omega arith)
  | inr there ↦ rw there (omega (arith, live-total x job m))
]

times-Evolves : (x : Uuid) (as_ bs : List BatchJobItem) → Evolves as_ bs → times x bs ≡ times x as_
times-Evolves x [] [] h = refl
times-Evolves x [] (b ∷ bs) h = absurd h
times-Evolves x (a ∷ as_) [] h = absurd h
times-Evolves x (a ∷ as_) (b ∷ bs) ((how, id, _, _, _), h) = rw (id, times-Evolves x as_ bs h) refl

total-MapStep :
    (x : Uuid) (m out : Map Uuid (List BatchJobItem))
    → MapStep ItemStep m out
    → total (times x) out ≡ total (times x) m
total-MapStep x [] [] h = refl
total-MapStep x [] (e ∷ out) h = absurd h
total-MapStep x (e ∷ m) [] h = absurd h
total-MapStep x ((j, as_) ∷ m) ((k, bs) ∷ out) ((at, h), later) =
    rw (times-Evolves x as_ bs h, total-MapStep x m out later) refl

-- No call gives an id to another item.
pub step-HasUniqueIds :
    (s : MemStore) (now : ℕ) (op : Op) → HasUniqueIds s → HasUniqueIds (step s now op)
step-HasUniqueIds s now op unique x =
    rw (total-MapStep x s.items (step s now op).items (step-MapStep s now op)) (unique x)

-- What a search for an id comes to, by a count of the items with the id and of those that run.
abbrev Closes : {A : Type 0} → (A → ℕ) → (A → ℕ) → A → Update A → Type 0
Closes all runs a missing = all a ≡ 0
Closes all runs a stopped = (1 ≤ all a) × (all a ≤ 1 → runs a ≡ 0)
Closes all runs a (written out) = (1 ≤ all a) × (all a ≤ 1 → runs out ≡ 0)

runs_to :
    (a b : ItemStatus)
    → is_terminal b ≡ true
    → valid_item_transition a b ≡ false
    → is_running a ≡ false
unfolding valid_item_transition
runs_to a b final bad = ground arith

module _ (now : ℕ) (id : Uuid) (status : ItemStatus) (response error : Option String)
    (final : is_terminal status ≡ true) where
  cons-Closes :
      (it : BatchJobItem) (its : List BatchJobItem) (r : Update (List BatchJobItem))
      → (it.id == id) ≡ false
      → Closes (times id) (live id) its r
      → Closes (times id) (live id) (it ∷ its) (map_update (λ l. it ∷ l) r)
  cons-Closes it its missing miss h = rw miss (omega (arith, h))
  cons-Closes it its stopped miss (one, h) =
      rw miss (omega arith, λ le. omega (arith, h (omega arith)))
  cons-Closes it its (written out) miss (one, h) =
      rw miss (omega arith, λ le. omega (arith, h (omega arith)))

  update_item-Closes :
      (its : List BatchJobItem)
      → Closes
          (times id)
          (live id)
          its
          (update_item (finished now status response error) id status its)
  unfolding update_item finished
  update_item-Closes [] = refl
  update_item-Closes (it ∷ its) =
      let few = live_le id its in
      elim (Bool-cases (it.id == id)) [
        | inl hit ↦ elim (Bool-cases (valid_item_transition it.status status)) [
          | inl fine ↦ rw fine (rw hit (ground (arith, hit), λ le. ground (arith, hit, few)))
          | inr bad ↦
              let still = runs_to it.status status final bad in
              rw bad (rw hit (ground (arith, hit), λ le. ground (arith, hit, few, still)))
        ]
        | inr miss ↦ rw miss (cons-Closes it its _ miss (update_item-Closes its))
      ]

  or_later-Closes :
      (job : Uuid) (its : List BatchJobItem) (m : Map Uuid (List BatchJobItem))
      (r : Update (List BatchJobItem)) (later : Update (Map Uuid (List BatchJobItem)))
      → Closes (times id) (live id) its r
      → Closes (total (times id)) (total (live id)) m later
      → (total (live id) m ≤ total (times id) m)
      → Closes (total (times id)) (total (live id)) ((job, its) ∷ m) (or_later (job, its) m r later)
  or_later-Closes job its m missing missing h k few = omega arith
  or_later-Closes job its m missing stopped h (one, k) few =
      (omega arith, λ le. omega (arith, k (omega arith), live_le id its))
  or_later-Closes job its m missing (written out) h (one, k) few =
      (omega arith, λ le. omega (arith, k (omega arith), live_le id its))
  or_later-Closes job its m stopped later (one, h) k few =
      (omega arith, λ le. omega (arith, h (omega arith)))
  or_later-Closes job its m (written out) later (one, h) k few =
      (omega arith, λ le. omega (arith, h (omega arith)))

  total_le : (m : Map Uuid (List BatchJobItem)) → total (live id) m ≤ total (times id) m
  total_le [] = omega arith
  total_le ((job, its) ∷ m) = omega (arith, live_le id its, total_le m)

  update_items-Closes :
      (m : Map Uuid (List BatchJobItem))
      → Closes
          (total (times id))
          (total (live id))
          m
          (update_items (finished now status response error) id status m)
  unfolding update_items
  update_items-Closes [] = refl
  update_items-Closes ((job, its) ∷ m) =
      or_later-Closes job its m _ _ (update_item-Closes its) (update_items-Closes m) (total_le m)

  after_update-Closes :
      (s : MemStore) (r : Update (Map Uuid (List BatchJobItem)))
      → HasUniqueIds s
      → Closes (total (times id)) (total (live id)) s.items r
      → total (live id) (after_update s r).0.items ≡ 0
  unfolding after_update
  after_update-Closes s missing unique h = omega (arith, total_le s.items)
  after_update-Closes s stopped unique (one, h) = h (unique id)
  after_update-Closes s (written m) unique (one, h) = h (unique id)

  -- After an update with a terminal status no item with its id is running, whatever the update answers.
  pub update-closes :
      (s : MemStore) (job : Uuid)
      → HasUniqueIds s
      → live id (items_of (update_item_terminal s now id status response error).0 job) ≡ 0
  unfolding update_item_terminal items_of
  update-closes s job unique =
      let at = after_update-Closes s _ unique (update_items-Closes s.items) in
      rw final (
        omega (
          arith,
          at,
          live-total id job
              (after_update s
                (update_items (finished now status response error) id status s.items)).0.items,
        ))

-- What an update leaves of an item: the item, or one with the id that neither waits nor runs.
abbrev Spares : Uuid → BatchJobItem → BatchJobItem → Type 0
Spares id a b =
    (b ≡ a)
    ⊎ ((b.id ≡ id) × (a.id ≡ id) × (is_queued b.status ≡ false) × (is_running b.status ≡ false))

live-Spares :
    (id x : Uuid) (as_ bs : List BatchJobItem)
    → (id == x) ≡ false
    → Pairwise (Spares id) as_ bs
    → live x bs ≡ live x as_
live-Spares id x [] [] apart h = refl
live-Spares id x [] (b ∷ bs) apart h = absurd h
live-Spares id x (a ∷ as_) [] apart h = absurd h
live-Spares id x (a ∷ as_) (b ∷ bs) apart (inl is, h) =
    rw (is, live-Spares id x as_ bs apart h) refl
live-Spares id x (a ∷ as_) (b ∷ bs) apart (inr (at, was, _, _), h) =
    rw (at, was, apart, live-Spares id x as_ bs apart h) refl

queued-Spares :
    (id : Uuid) (as_ bs : List BatchJobItem)
    → Pairwise (Spares id) as_ bs
    → count_status is_queued bs ≤ count_status is_queued as_
unfolding count_status
queued-Spares id [] [] h = omega arith
queued-Spares id [] (b ∷ bs) h = absurd h
queued-Spares id (a ∷ as_) [] h = absurd h
queued-Spares id (a ∷ as_) (b ∷ bs) (inl is, h) = rw is (omega (arith, queued-Spares id as_ bs h))
queued-Spares id (a ∷ as_) (b ∷ bs) (inr (at, was, waits, _), h) =
    rw waits (omega (arith, queued-Spares id as_ bs h))

module _ (now : ℕ) (id : Uuid) (status : ItemStatus) (response error : Option String)
    (final : is_terminal status ≡ true) where
  after_update-Spares :
      (s : MemStore) (r : Update (Map Uuid (List BatchJobItem)))
      → Found (MapStep (Spares id)) s.items r
      → MapStep (Spares id) s.items (after_update s r).0.items
  unfolding after_update
  after_update-Spares s missing h = MapStep-refl (Spares id) (λ a. inl refl) s.items
  after_update-Spares s stopped h = MapStep-refl (Spares id) (λ a. inl refl) s.items
  after_update-Spares s (written m) h = h

  update-Spares :
      (s : MemStore) (job : Uuid)
      → Pairwise
          (Spares id)
          (items_of s job)
          (items_of (update_item_terminal s now id status response error).0 job)
  unfolding update_item_terminal items_of finished
  update-Spares s job = rw final (
      lookup-MapStep (Spares id) (λ a. inl refl) job s.items _
        (after_update-Spares s _ (
          update_items-Found (Spares id) (λ a. inl refl) now id status response error
            (λ it at fine. inr (at, at, ground arith, ground arith)) s.items)))

  -- The items with another id run as before the update, and no item is queued by it.
  pub update-spares :
      (s : MemStore) (job : Uuid)
      → let its = items_of (update_item_terminal s now id status response error).0 job in
        ((x : Uuid) → (id == x) ≡ false → live x its ≡ live x (items_of s job))
        × (count_status is_queued its ≤ count_status is_queued (items_of s job))
  update-spares s job = (
    λ x apart. live-Spares id x _ _ apart (update-Spares s job),
    queued-Spares id _ _ (update-Spares s job),
  )

-- ===== src/Jobs/Store/Changes.antt =====
-- Changes of the store's items, item by item: what the writes of one job's items and an update by id
-- come to on the whole map.
use mathlib.Core.Path.{subst}
use aegis_route.Base.{
  ℕ, ◌≡◌, refl, inl, inr, true, nat_key, ◌==◌, ==_iff, Option, some, List, [], ◌∷◌, Bool-cases,
  Option-cases, String, arith,
}
use aegis_route.Base.Map.{Map, lookup, insert}
use aegis_route.Models.{Uuid, BatchJobItem, ItemStatus}
use aegis_route.Jobs.Status.{valid_item_transition}
use aegis_route.Jobs.Store.{
  MemStore, items_of, or_empty, write_items, put_items, Update, missing, stopped, written,
  map_update, or_later, finished, update_item, update_items,
}

-- Two lists of one length, related position by position.
abbrev pub Pairwise : {A : Type 0} → (A → A → Type 0) → List A → List A → Type 0
Pairwise R [] [] = Unit {0}
Pairwise R [] (b ∷ bs) = ⊥
Pairwise R (a ∷ as_) [] = ⊥
Pairwise R (a ∷ as_) (b ∷ bs) = R a b × Pairwise R as_ bs

pub Pairwise-refl :
    {A : Type 0} (R : A → A → Type 0) → ((a : A) → R a a) → (as_ : List A) → Pairwise R as_ as_
Pairwise-refl R same [] = tt
Pairwise-refl R same (a ∷ as_) = (same a, Pairwise-refl R same as_)

-- The entries of the map before and after: the same jobs, with related items.
abbrev EntryStep :
    (BatchJobItem → BatchJobItem → Type 0)
    → Uuid × List BatchJobItem
    → Uuid × List BatchJobItem
    → Type 0
EntryStep R (j, as_) (k, bs) = (j ≡ k) × Pairwise R as_ bs

abbrev pub MapStep :
    (BatchJobItem → BatchJobItem → Type 0)
    → Map Uuid (List BatchJobItem)
    → Map Uuid (List BatchJobItem)
    → Type 0
MapStep R = Pairwise (EntryStep R)

-- What a search by id has found.
abbrev pub Found : {A : Type 0} → (A → A → Type 0) → A → Update A → Type 0
Found R a missing = Unit {0}
Found R a stopped = Unit {0}
Found R a (written out) = R a out

module _ (R : BatchJobItem → BatchJobItem → Type 0) (same : (a : BatchJobItem) → R a a) where
  pub MapStep-refl : (m : Map Uuid (List BatchJobItem)) → MapStep R m m
  MapStep-refl m = Pairwise-refl (EntryStep R) (λ e. (refl, Pairwise-refl R same e.1)) m

  pub lookup-MapStep :
      (job : Uuid) (m out : Map Uuid (List BatchJobItem))
      → MapStep R m out
      → Pairwise R (or_empty (lookup job m)) (or_empty (lookup job out))
  unfolding lookup
  lookup-MapStep job [] [] h = tt
  lookup-MapStep job [] (e ∷ out) h = absurd h
  lookup-MapStep job (e ∷ m) [] h = absurd h
  lookup-MapStep job ((j, as_) ∷ m) ((k, bs) ∷ out) ((at, h), later) =
      rw at (elim (Bool-cases (k == job)) [
        | inl here ↦ rw here h
        | inr there ↦ rw there (lookup-MapStep job m out later)
      ])

  insert-MapStep :
      (job : Uuid) (old its : List BatchJobItem) (m : Map Uuid (List BatchJobItem))
      → lookup job m ≡ some old
      → Pairwise R old its
      → MapStep R m (insert job its m)
  unfolding lookup insert
  insert-MapStep job old its [] found h = ground arith
  insert-MapStep job old its ((j, as_) ∷ m) found h = elim (Bool-cases (j == job)) [
    | inl here ↦
        let is : as_ ≡ old = ground arith in
        rw here (((==_iff {K = Uuid} j job).0 here, rw is h), MapStep-refl m)
    | inr there ↦
        rw there ((refl, Pairwise-refl R same as_), insert-MapStep job old its m (ground arith) h)
  ]

  pub put_items-MapStep :
      (s : MemStore) (job : Uuid) (its : List BatchJobItem)
      → Pairwise R (items_of s job) its
      → MapStep R s.items (put_items s job its).items
  unfolding put_items items_of
  put_items-MapStep s job its h = elim (Option-cases (lookup job s.items)) [
    | inl gone ↦ rw (gone, write_items) (MapStep-refl s.items)
    | inr (old, found) ↦
        let from : Pairwise R old its = subst (λ o. Pairwise R (or_empty o) its) found h in
        rw (found, write_items) (insert-MapStep job old its s.items found from)
  ]

  module _ (now : ℕ) (id : Uuid) (status : ItemStatus) (response error : Option String)
      (allowed : (it : BatchJobItem)
        → it.id ≡ id
        → valid_item_transition it.status status ≡ true
        → R it (finished now status response error it)) where
    cons-Found :
        (it : BatchJobItem) (its : List BatchJobItem) (r : Update (List BatchJobItem))
        → Found (Pairwise R) its r
        → Found (Pairwise R) (it ∷ its) (map_update (λ l. it ∷ l) r)
    cons-Found it its missing h = tt
    cons-Found it its stopped h = tt
    cons-Found it its (written out) h = (same it, h)

    update_item-Found :
        (its : List BatchJobItem)
        → Found (Pairwise R) its (update_item (finished now status response error) id status its)
    unfolding update_item
    update_item-Found [] = tt
    update_item-Found (it ∷ its) = elim (Bool-cases (it.id == id)) [
      | inl hit ↦ elim (Bool-cases (valid_item_transition it.status status)) [
        | inl fine ↦ rw hit (
            rw fine
              (allowed it ((==_iff {K = Uuid} it.id id).0 hit) fine, Pairwise-refl R same its))
        | inr bad ↦ rw hit (rw bad tt)
      ]
      | inr miss ↦ rw miss (cons-Found it its _ (update_item-Found its))
    ]

    or_later-Found :
        (job : Uuid) (its : List BatchJobItem) (m : Map Uuid (List BatchJobItem))
        (r : Update (List BatchJobItem)) (later : Update (Map Uuid (List BatchJobItem)))
        → Found (Pairwise R) its r
        → Found (MapStep R) m later
        → Found (MapStep R) ((job, its) ∷ m) (or_later (job, its) m r later)
    or_later-Found job its m missing missing h k = tt
    or_later-Found job its m missing stopped h k = tt
    or_later-Found job its m missing (written out) h k = ((refl, Pairwise-refl R same its), k)
    or_later-Found job its m stopped later h k = tt
    or_later-Found job its m (written out) later h k = ((refl, h), MapStep-refl m)

    -- What an update by id makes of the map, whatever the search comes to.
    pub update_items-Found :
        (m : Map Uuid (List BatchJobItem))
        → Found (MapStep R) m (update_items (finished now status response error) id status m)
    unfolding update_items
    update_items-Found [] = tt
    update_items-Found ((job, its) ∷ m) =
        or_later-Found job its m _ _ (update_item-Found its) (update_items-Found m)

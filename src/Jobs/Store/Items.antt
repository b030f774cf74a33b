-- ===== src/Jobs/Store/Items.antt =====
-- How the store's methods change the items of a job.
use aegis_route.Base.{
  ℕ, ◌+◌, ◌≤◌, ◌≡◌, refl, ◌⊎◌, inl, inr, true, nat_key, ltb, Option, List, [], ◌∷◌, arith,
  Bool-cases, String,
}
use aegis_route.Base.Map.{Map, lookup}
use aegis_route.Models.{Uuid, BatchJobItem, BatchJobOutbox, ItemStatus}
use aegis_route.Jobs.Status.{valid_item_transition}
use aegis_route.Jobs.Store.Changes.{
  Pairwise, Pairwise-refl, MapStep, MapStep-refl, Found, lookup-MapStep, put_items-MapStep,
  update_items-Found,
}
use aegis_route.Jobs.Store.{
  MemStore, items_of, mark_job_running, requeued, requeue_running_items, claim_next,
  claim_next_queued_item, Update, missing, stopped, written, finished, after_update,
  update_item_terminal, recompute_and_update_job_status, change_outbox, mark_outbox_published,
  mark_outbox_failed_attempt, is_terminal, is_queued,
}

-- What may become of an item: nothing, or a change of status that the machine allows. Its id, its
-- request and its custom id stay, and its attempts do not fall.
abbrev pub ItemStep : BatchJobItem → BatchJobItem → Type 0
ItemStep a b =
    ((b ≡ a) ⊎ (valid_item_transition a.status b.status ≡ true))
    × (b.id ≡ a.id)
    × (b.request ≡ a.request)
    × (b.custom_id ≡ a.custom_id)
    × (a.attempts ≤ b.attempts)

abbrev pub Evolves : List BatchJobItem → List BatchJobItem → Type 0
Evolves = Pairwise ItemStep

ItemStep-refl : (it : BatchJobItem) → ItemStep it it
ItemStep-refl it = (inl refl, refl, refl, refl, omega arith)

pub Evolves-refl : (its : List BatchJobItem) → Evolves its its
Evolves-refl its = Pairwise-refl ItemStep ItemStep-refl its

requeued-Evolves : (now : ℕ) (its : List BatchJobItem) → Evolves its (requeued now its)
unfolding requeued valid_item_transition
requeued-Evolves now [] = tt
requeued-Evolves now (it ∷ its) = (ground arith, requeued-Evolves now its)

claim_next-Evolves :
    (now max : ℕ) (its : List BatchJobItem) → Evolves its (claim_next now max its).0
unfolding claim_next valid_item_transition
claim_next-Evolves now max [] = tt
claim_next-Evolves now max (it ∷ its) = elim (Bool-cases (is_queued it.status)) [
  | inl waits ↦ elim (Bool-cases (ltb max (it.attempts + 1))) [
    | inl over ↦ rw waits (rw over (ground arith, Evolves-refl its))
    | inr under ↦ rw waits (rw under (ground arith, Evolves-refl its))
  ]
  | inr other ↦ rw other ((inl refl, refl, refl, refl, omega arith), claim_next-Evolves now max its)
]

after_update-MapStep :
    (s : MemStore) (r : Update (Map Uuid (List BatchJobItem)))
    → Found (MapStep ItemStep) s.items r
    → MapStep ItemStep s.items (after_update s r).0.items
unfolding after_update
after_update-MapStep s missing h = MapStep-refl ItemStep ItemStep-refl s.items
after_update-MapStep s stopped h = MapStep-refl ItemStep ItemStep-refl s.items
after_update-MapStep s (written m) h = h

update-MapStep :
    (s : MemStore) (now : ℕ) (id : Uuid) (status : ItemStatus) (response error : Option String)
    → MapStep ItemStep s.items (update_item_terminal s now id status response error).0.items
unfolding update_item_terminal finished
update-MapStep s now id status response error = elim (Bool-cases (is_terminal status)) [
  | inl final ↦ rw final (
      after_update-MapStep s _ (
        update_items-Found ItemStep ItemStep-refl now id status response error
          (λ it at fine. (inr fine, refl, refl, refl, omega arith)) s.items))
  | inr other ↦ rw other (MapStep-refl ItemStep ItemStep-refl s.items)
]

-- A call on the store, but for the creation of a job.
pub data Op : Type 0 where
  marks_running requeues recomputes publishes : Uuid → Op
  claims : Uuid → ℕ → Op
  updates : Uuid → ItemStatus → Option String → Option String → Op
  fails_publish : Uuid → String → Op

unfoldable pub step : MemStore → ℕ → Op → MemStore
step s now (marks_running job) = (mark_job_running s now job).0
step s now (requeues job) = (requeue_running_items s now job).0
step s now (claims job max) = (claim_next_queued_item s now job max).0
step s now (updates id status response error) =
    (update_item_terminal s now id status response error).0
step s now (recomputes job) = (recompute_and_update_job_status s now job).0
step s now (publishes id) = (mark_outbox_published s now id).0
step s now (fails_publish id e) = (mark_outbox_failed_attempt s now id e).0

items-mark_job_running :
    (s : MemStore) (now : ℕ) (j : Uuid) → (mark_job_running s now j).0.items ≡ s.items
unfolding mark_job_running
items-mark_job_running s now j = ground arith

items-recompute :
    (s : MemStore) (now : ℕ) (j : Uuid)
    → (recompute_and_update_job_status s now j).0.items ≡ s.items
unfolding recompute_and_update_job_status
items-recompute s now j = ground arith

items-change_outbox :
    (s : MemStore) (f : BatchJobOutbox → BatchJobOutbox) (id : Uuid)
    → (change_outbox f s id (lookup id s.outbox)).0.items ≡ s.items
unfolding change_outbox
items-change_outbox s f id = ground arith

kept_items : (m out : Map Uuid (List BatchJobItem)) → out ≡ m → MapStep ItemStep m out
kept_items m out e = rw e (MapStep-refl ItemStep ItemStep-refl m)

-- No call drops an entry of the map of items, or changes an item otherwise than ItemStep.
pub step-MapStep :
    (s : MemStore) (now : ℕ) (op : Op) → MapStep ItemStep s.items (step s now op).items
unfolding step
step-MapStep s now (marks_running j) = kept_items _ _ (items-mark_job_running s now j)
step-MapStep s now (requeues j) =
    unfold requeue_running_items in
    put_items-MapStep ItemStep ItemStep-refl s j _ (requeued-Evolves now (items_of s j))
step-MapStep s now (claims j max) =
    unfold claim_next_queued_item in
    put_items-MapStep ItemStep ItemStep-refl s j _ (claim_next-Evolves now max (items_of s j))
step-MapStep s now (updates id status response error) =
    update-MapStep s now id status response error
step-MapStep s now (recomputes j) = kept_items _ _ (items-recompute s now j)
step-MapStep s now (publishes id) =
    unfold mark_outbox_published in kept_items _ _ (items-change_outbox s _ id)
step-MapStep s now (fails_publish id e) =
    unfold mark_outbox_failed_attempt in kept_items _ _ (items-change_outbox s _ id)

-- No call loses, adds or reorders items, or moves one against the status machine.
pub step-Evolves :
    (s : MemStore) (now : ℕ) (op : Op) (job : Uuid)
    → Evolves (items_of s job) (items_of (step s now op) job)
unfolding items_of
step-Evolves s now op job =
    lookup-MapStep ItemStep ItemStep-refl job s.items (step s now op).items (step-MapStep s now op)

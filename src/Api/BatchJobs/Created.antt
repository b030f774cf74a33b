-- ===== src/Api/BatchJobs/Created.antt =====
-- What an accepted batch leaves behind, and what a tenant sees of another tenant's.
use aegis_route.Base.{
  ℕ, suc, ◌≡◌, ◌≢◌, refl, ap, ◌∙◌, ◌⊎◌, inl, inr, nat_key, ==_refl, ==_ne, String, Option, none,
  some, List, [], ◌∷◌, ◌++◌, arith, length, Option-cases,
}
use aegis_route.Base.Fate.{Fate, works, fails, lost}
use aegis_route.Base.Map.{lookup, lookup-insert_self}
use aegis_route.Models.{
  Uuid, BatchJob, BatchJobItem, BatchJobOutbox, JobStatus, ItemStatus, OutboxStatus,
}
use aegis_route.Jobs.Store.{
  MemStore, new_mem_store, items_of, stored_items, create_with_items_and_outbox,
}
use aegis_route.Jobs.Store.Queries.{get, items, of_tenant}
use aegis_route.Jobs.Store.{mark_outbox_published, mark_outbox_failed_attempt}
use aegis_route.Jobs.Store.Outbox.{
  published_at, failed_at, lookup-mark_outbox_published, lookup-mark_outbox_failed_attempt,
  mark_outbox_published-spares, mark_outbox_failed_attempt-spares,
}
use aegis_route.Queue.{MemQueue, publish}
use aegis_route.Idempotency.{Coordinator}
use aegis_route.Api.Chat.{Principal}
use aegis_route.Api.Batch.{BatchItemInput, Gathered}
use aegis_route.Api.BatchJobs.{
  BatchEnv, BatchWorld, BatchAnswers, job_items, new_job, after_publish, hand_off, get_batch_job,
  list_batch_job_items, for_job,
}

length-job_items : (its : List BatchItemInput) → length (job_items its) ≡ length its
unfolding job_items
length-job_items [] = refl
length-job_items (it ∷ its) = ap suc (length-job_items its)

-- The job's items are those of the batch, in order: each with its id and its body, queued, never tried.
abbrev pub Taken : Uuid → List BatchItemInput → List BatchJobItem → Type 0
Taken job [] [] = Unit {0}
Taken job [] (it ∷ its) = ⊥
Taken job (input ∷ inputs) [] = ⊥
Taken job (input ∷ inputs) (it ∷ its) =
    (it.job_id ≡ job)
    × (it.custom_id ≡ input.custom_id)
    × (it.request ≡ input.body)
    × (it.status ≡ ItemStatus.queued)
    × (it.attempts ≡ 0)
    × Taken job inputs its

stored_items-Taken :
    (now : ℕ) (job : Uuid) (item_id : ℕ → Uuid) (inputs : List BatchItemInput)
    → Taken job inputs (stored_items now job item_id (job_items inputs))
unfolding stored_items job_items
stored_items-Taken now job item_id [] = tt
stored_items-Taken now job item_id (input ∷ inputs) =
    (refl, refl, refl, refl, refl, stored_items-Taken now job (λ i. item_id (suc i)) inputs)

module _ {F : Type 0} (env : BatchEnv F) (s : MemStore) (who : Principal) where
  -- Another tenant's job looks like no job: reading it or its items by any text gets the same response as
  -- from an empty store.
  pub other_tenant-hidden :
      (text : String) (id : Uuid) (job : BatchJob)
      → env.parse_id text ≡ some id
      → lookup id s.jobs ≡ some job
      → job.tenant_id ≢ who.tenant_id
      → (get_batch_job env s (some who) text ≡ get_batch_job env new_mem_store (some who) text)
        × (list_batch_job_items env s (some who) text
            ≡ list_batch_job_items env new_mem_store (some who) text)
  unfolding get_batch_job list_batch_job_items for_job get items of_tenant new_mem_store lookup
  other_tenant-hidden text id job named found other =
      rw (named, found, ==_ne job.tenant_id who.tenant_id other) (refl, refl)

-- The outbox row of the job and the queue. Either the job is not in the queue and its row is pending,
-- because the publish failed or the answer of the creation was lost; or it is in the queue, and the row
-- is published, or still pending because its mark failed.
abbrev pub IsHanded : Fate → Fate → BatchJobOutbox → String → MemQueue → MemQueue → Type 0
IsHanded creates marks ob job q q' =
    ((q'.published ≡ q.published)
      × (ob.status ≡ OutboxStatus.pending)
      × ((q.publish_err ≢ none) ⊎ (creates ≡ lost)))
    ⊎ ((q'.published ≡ q.published ++ job ∷ [])
        × ((ob.status ≡ OutboxStatus.published)
            ⊎ ((ob.status ≡ OutboxStatus.pending) × (marks ≡ fails))))

-- The job of the id: the caller's, queued, with the items of the batch counted.
abbrev pub IsAccepted : MemStore → Uuid → Principal → Gathered → Type 0
IsAccepted s id who g =
    (job : BatchJob) × (lookup id s.jobs ≡ some job)
    × (job.tenant_id ≡ who.tenant_id)
    × (job.api_key_id ≡ who.api_key_id)
    × (job.model ≡ g.model)
    × (job.status ≡ JobStatus.queued)
    × (job.total_items ≡ length g.items)
    × Taken id g.items (items_of s id)

IsAccepted-same :
    (s s' : MemStore) (id : Uuid) (who : Principal) (g : Gathered)
    → (s'.jobs ≡ s.jobs) × (s'.items ≡ s.items)
    → IsAccepted s id who g
    → IsAccepted s' id who g
unfolding items_of
IsAccepted-same s s' id who g (jobs, its) accepted = rw (jobs, its) accepted

-- What a publish answers and leaves.
publish-answer :
    (q : MemQueue) (job : String)
    → (((publish q job).1 ≡ none) × ((publish q job).0.published ≡ q.published ++ job ∷ []))
      ⊎ ((e : String) × ((publish q job).1 ≡ some e)
          × ((publish q job).0.published ≡ q.published)
          × (q.publish_err ≢ none))
unfolding publish
publish-answer q job = elim (Option-cases q.publish_err) [
  | inl none_ ↦ inl (ground arith, ground arith)
  | inr (e, set) ↦ inr (e, ground arith, ground arith, λ unset. ground arith)
]

module _ {S F : Type 0} (env : BatchEnv F) (c : Coordinator S) (now : BatchAnswers S)
    (w : BatchWorld S) (who : Principal) (g : Gathered) where
  abbrev made : MemStore × BatchJob × BatchJobOutbox
  made =
      create_with_items_and_outbox w.store now.created_at now.job_id now.item_id now.outbox_id
        (new_job who g.model) (job_items g.items)

  -- The job is accepted in the store, and its outbox row and the queue are as they should be.
  abbrev Handed : MemStore → MemQueue → Fate → Type 0
  Handed s q' marks =
      IsAccepted s now.job_id who g
      × ((ob : BatchJobOutbox) × (lookup now.outbox_id s.outbox ≡ some ob)
          × (ob.job_id ≡ now.job_id)
          × IsHanded now.creates marks ob (env.shown now.job_id) w.queue q')

  made-IsAccepted : IsAccepted made.0 now.job_id who g
  unfolding create_with_items_and_outbox items_of new_job
  made-IsAccepted =
      let its = stored_items now.created_at now.job_id now.item_id (job_items g.items) in
      rw (lookup-insert_self now.job_id its w.store.items) (
        made.1,
        lookup-insert_self now.job_id made.1 w.store.jobs,
        refl,
        refl,
        refl,
        refl,
        length-job_items g.items,
        stored_items-Taken now.created_at now.job_id now.item_id g.items,
      )

  made_outbox : lookup now.outbox_id made.0.outbox ≡ some made.2
  unfolding create_with_items_and_outbox
  made_outbox = lookup-insert_self now.outbox_id made.2 w.store.outbox

  -- Without a mark.
  unmarked-Handed :
      (q' : MemQueue) (marks : Fate)
      → IsHanded now.creates marks made.2 (env.shown now.job_id) w.queue q'
      → Handed made.0 q' marks
  unmarked-Handed q' marks how =
      (made-IsAccepted, (made.2, made_outbox, (unfold create_with_items_and_outbox in refl), how))

  published-Handed :
      (q' : MemQueue) (marks : Fate)
      → q'.published ≡ w.queue.published ++ env.shown now.job_id ∷ []
      → Handed (mark_outbox_published made.0 now.marked_at now.outbox_id).0 q' marks
  published-Handed q' marks took = (
    IsAccepted-same made.0 _ now.job_id who g
        (mark_outbox_published-spares made.0 now.marked_at now.outbox_id) made-IsAccepted,
    (
      published_at now.marked_at made.2,
      lookup-mark_outbox_published made.0 now.marked_at now.outbox_id now.outbox_id
          ∙ rw (==_refl {K = Uuid} now.outbox_id, made_outbox)
              (unfold create_with_items_and_outbox in refl),
      unfold create_with_items_and_outbox in refl,
      inr (took, inl refl),
    ),
  )

  failed-Handed :
      (q' : MemQueue) (marks : Fate) (e : String)
      → q'.published ≡ w.queue.published
      → w.queue.publish_err ≢ none
      → Handed (mark_outbox_failed_attempt made.0 now.marked_at now.outbox_id e).0 q' marks
  failed-Handed q' marks e same set = (
    IsAccepted-same made.0 _ now.job_id who g
        (mark_outbox_failed_attempt-spares made.0 now.marked_at now.outbox_id e) made-IsAccepted,
    (
      failed_at now.marked_at e made.2,
      lookup-mark_outbox_failed_attempt made.0 now.marked_at now.outbox_id now.outbox_id e
          ∙ rw (==_refl {K = Uuid} now.outbox_id, made_outbox)
              (unfold create_with_items_and_outbox in refl),
      unfold create_with_items_and_outbox in refl,
      inl (same, (unfold create_with_items_and_outbox in refl), inl set),
    ),
  )

  after_publish-Handed :
      (q' : MemQueue) (o : Option String) (marks : Fate)
      → ((o ≡ none) × (q'.published ≡ w.queue.published ++ env.shown now.job_id ∷ []))
        ⊎ ((e : String) × (o ≡ some e)
            × (q'.published ≡ w.queue.published)
            × (w.queue.publish_err ≢ none))
      → Handed (after_publish marks made.0 now.marked_at now.outbox_id o) q' marks
  unfolding after_publish
  after_publish-Handed q' none works (inl (done, took)) = published-Handed q' works took
  after_publish-Handed q' none lost (inl (done, took)) = published-Handed q' lost took
  after_publish-Handed q' none fails (inl (done, took)) =
      unmarked-Handed q' fails
        (inr (took, inr ((unfold create_with_items_and_outbox in refl), refl)))
  after_publish-Handed q' none marks (inr (e, failed, same, set)) = ground arith
  after_publish-Handed q' (some x) marks (inl (done, took)) = ground arith
  after_publish-Handed q' (some x) works (inr (e, failed, same, set)) =
      failed-Handed q' works x same set
  after_publish-Handed q' (some x) lost (inr (e, failed, same, set)) =
      failed-Handed q' lost x same set
  after_publish-Handed q' (some x) fails (inr (e, failed, same, set)) =
      unmarked-Handed q' fails (inl (same, (unfold create_with_items_and_outbox in refl), inl set))

  hand_off-created :
      (creates : Fate)
      → now.creates ≡ creates
      → creates ≢ fails
      → Handed (hand_off env c now w who g).0.store (hand_off env c now w who g).0.queue now.marks
  unfolding hand_off
  hand_off-created works is took =
      let handed =
        after_publish-Handed (publish w.queue (env.shown now.job_id)).0
          (publish w.queue (env.shown now.job_id)).1 now.marks
          (publish-answer w.queue (env.shown now.job_id)) in
      rw is (unfold create_with_items_and_outbox in rw is at handed)
  hand_off-created lost is took =
      let handed =
        unmarked-Handed w.queue now.marks
          (inl (refl, (unfold create_with_items_and_outbox in refl), inr is)) in
      rw is (rw is at handed)
  hand_off-created fails is took = absurd (took refl)

  -- An accepted batch is never orphaned. Unless the creation fails, the caller's job is there, queued and
  -- counted, with the items of the batch in order, each queued with its id and its body; and its outbox
  -- row is pending and the job not in the queue, because the publish failed or the answer of the creation
  -- was lost, or the job is in the queue and the row published, or still pending because its mark failed.
  pub hand_off-Accepted :
      now.creates ≢ fails
      → let (w', r) = hand_off env c now w who g in
        IsAccepted w'.store now.job_id who g
        × ((ob : BatchJobOutbox) × (lookup now.outbox_id w'.store.outbox ≡ some ob)
            × (ob.job_id ≡ now.job_id)
            × IsHanded now.creates now.marks ob (env.shown now.job_id) w.queue w'.queue)
  hand_off-Accepted took = hand_off-created now.creates refl took

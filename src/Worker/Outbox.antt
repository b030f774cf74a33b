-- ===== src/Worker/Outbox.antt =====
-- The outbox drain and the queue.
use aegis_route.Base.{
  ℕ, suc, ◌≡◌, refl, sym, ap, ◌∙◌, ◌⊎◌, inl, inr, Bool, true, false, ◌||◌, nat_key, string_key,
  ◌==◌, ==_iff, ==_refl, String, if◌then◌else◌, Option, none, some, List, [], ◌∷◌, ◌++◌, All, arith,
  Bool-cases, Option-cases,
}
use aegis_route.Base.Fate.{Fate, works, fails, lost, leaves}
use aegis_route.Base.Map.{lookup}
use aegis_route.Models.{Uuid, BatchJobOutbox, OutboxStatus}
use aegis_route.Jobs.Store.{MemStore, is_pending, mark_outbox_published, mark_outbox_failed_attempt}
use aegis_route.Jobs.Store.Outbox.{
  changed, published_at, failed_at, lookup-mark_outbox_published, lookup-mark_outbox_failed_attempt,
}
use aegis_route.Jobs.Store.Queries.{pending_outbox}
use aegis_route.Queue.{MemQueue, publish}
use aegis_route.Worker.{Counters, drain_row, drain_rows, drain_outbox_once}

abbrev pub has_text : String → List String → Bool
has_text x [] = false
has_text x (y ∷ ys) = (y == x) || has_text x ys

has_text-append :
    (x y : String) (ys : List String) → has_text x (ys ++ y ∷ []) ≡ (has_text x ys || (y == x))
has_text-append x y [] = ground arith
has_text-append x y (z ∷ ys) = ground (arith, has_text-append x y ys)

has_text-last : (x : String) (ys : List String) → has_text x (ys ++ x ∷ []) ≡ true
has_text-last x ys = rw (has_text-append x x ys, ==_refl x) (ground arith)

has_text-before :
    (x y : String) (ys : List String) → has_text x ys ≡ true → has_text x (ys ++ y ∷ []) ≡ true
has_text-before x y ys h = rw (has_text-append x y ys, h) refl

-- Where a row after a mark comes from.
came_from :
    (f : BatchJobOutbox → BatchJobOutbox) (here : Bool) (o : Option BatchJobOutbox)
    (row : BatchJobOutbox)
    → (if here then changed f o else o) ≡ some row
    → (old : BatchJobOutbox) × (o ≡ some old) × ((row ≡ old) ⊎ ((here ≡ true) × (row ≡ f old)))
came_from f true none row e = ground arith
came_from f false o row e = (row, e, inl refl)
came_from f true (some old) row e = elim (Bool-cases (is_pending old.status)) [
  | inl waits ↦ (old, refl, inr (refl, ground arith))
  | inr done ↦ (old, refl, inl (ground arith))
]

module _ (shown : Uuid → String) where
  -- The queue has the job of every row that is marked published.
  abbrev pub IsCovered : MemStore → MemQueue → Type 0
  IsCovered s q =
      (id : Uuid) (ob : BatchJobOutbox)
      → lookup id s.outbox ≡ some ob
      → ob.status ≡ OutboxStatus.published
      → has_text (shown ob.job_id) q.published ≡ true

  -- The row read is of the same job as the one stored under its id.
  abbrev pub IsOf : MemStore → BatchJobOutbox → Type 0
  IsOf s ob = (row : BatchJobOutbox) → lookup ob.id s.outbox ≡ some row → row.job_id ≡ ob.job_id

  -- What a mark keeps: every row comes from a row of the same job.
  abbrev Follows : MemStore → MemStore → Type 0
  Follows s s' =
      (id : Uuid) (ob : BatchJobOutbox)
      → lookup id s'.outbox ≡ some ob
      → (old : BatchJobOutbox) × (lookup id s.outbox ≡ some old) × (ob.job_id ≡ old.job_id)

  IsOf-Follows :
      (s s' : MemStore) (rows : List BatchJobOutbox)
      → Follows s s'
      → All (IsOf s) rows
      → All (IsOf s') rows
  IsOf-Follows s s' [] follows of = tt
  IsOf-Follows s s' (ob ∷ rows) follows of = (
    λ row found. let (old, was, same) = follows ob.id row found in same ∙ of.0 old was,
    IsOf-Follows s s' rows follows of.1,
  )

  published-Follows :
      (s : MemStore) (now : ℕ) (at : Uuid) → Follows s (mark_outbox_published s now at).0
  published-Follows s now at id ob found =
      let (old, was, how) =
        came_from (published_at now) (at == id) (lookup id s.outbox) ob
          (sym (lookup-mark_outbox_published s now at id) ∙ found) in
      (
        old,
        was,
        elim how [ inl same ↦ ap (λ r. r.job_id) same | inr (here, new) ↦ ap (λ r. r.job_id) new ],
      )

  failed-Follows :
      (s : MemStore) (now : ℕ) (at : Uuid) (e : String)
      → Follows s (mark_outbox_failed_attempt s now at e).0
  failed-Follows s now at e id ob found =
      let (old, was, how) =
        came_from (failed_at now e) (at == id) (lookup id s.outbox) ob
          (sym (lookup-mark_outbox_failed_attempt s now at id e) ∙ found) in
      (
        old,
        was,
        elim how [ inl same ↦ ap (λ r. r.job_id) same | inr (here, new) ↦ ap (λ r. r.job_id) new ],
      )

  published-IsCovered :
      (s : MemStore) (q q' : MemQueue) (now : ℕ) (ob : BatchJobOutbox)
      → IsCovered s q
      → IsOf s ob
      → q'.published ≡ q.published ++ shown ob.job_id ∷ []
      → IsCovered (mark_outbox_published s now ob.id).0 q'
  published-IsCovered s q q' now ob covered of took id row found published =
      let (old, was, how) =
        came_from (published_at now) (ob.id == id) (lookup id s.outbox) row
          (sym (lookup-mark_outbox_published s now ob.id id) ∙ found) in
      rw took (elim how [
        | inl same ↦
            has_text-before _ _ q.published (covered id row (was ∙ ap some (sym same)) published)
        | inr (here, new) ↦
            let at : ob.id ≡ id = (==_iff {K = Uuid} ob.id id).0 here in
            let job : row.job_id ≡ ob.job_id = ap (λ r. r.job_id) new ∙ of old (rw at was) in
            rw job (has_text-last (shown ob.job_id) q.published)
      ])

  failed-IsCovered :
      (s : MemStore) (q : MemQueue) (now : ℕ) (at : Uuid) (e : String)
      → IsCovered s q
      → IsCovered (mark_outbox_failed_attempt s now at e).0 q
  failed-IsCovered s q now at e covered id row found published =
      let (old, was, how) =
        came_from (failed_at now e) (at == id) (lookup id s.outbox) row
          (sym (lookup-mark_outbox_failed_attempt s now at id e) ∙ found) in
      elim how [
        | inl same ↦ covered id row (was ∙ ap some (sym same)) published
        | inr (here, new) ↦
            rw (ap (λ r. r.job_id) new)
              (covered id old was (sym (ap (λ r. r.status) new) ∙ published))
      ]

  -- The answer of a publish, and the queue's list after it.
  pub publish-published :
      (q : MemQueue) (job : String)
      → (((publish q job).1 ≡ none) × ((publish q job).0.published ≡ q.published ++ job ∷ []))
        ⊎ ((e : String) × ((publish q job).1 ≡ some e)
            × ((publish q job).0.published ≡ q.published))
  unfolding publish
  publish-published q job = elim (Option-cases q.publish_err) [
    | inl none_ ↦ inl (ground arith, ground arith)
    | inr (e, set) ↦ inr (e, ground arith, ground arith)
  ]

  leaves-IsOf :
      (s s' : MemStore) (fate : Fate) (rows : List BatchJobOutbox)
      → Follows s s'
      → All (IsOf s) rows
      → All (IsOf (leaves fate s s')) rows
  leaves-IsOf s s' works rows follows of = IsOf-Follows s s' rows follows of
  leaves-IsOf s s' fails rows follows of = of
  leaves-IsOf s s' lost rows follows of = IsOf-Follows s s' rows follows of

  leaves-IsCovered :
      (s s' : MemStore) (fate : Fate) (q : MemQueue)
      → IsCovered s q
      → IsCovered s' q
      → IsCovered (leaves fate s s') q
  leaves-IsCovered s s' works q before after = after
  leaves-IsCovered s s' fails q before after = before
  leaves-IsCovered s s' lost q before after = after

  drain_row-IsCovered :
      (now : ℕ) (fate : Fate) (ob : BatchJobOutbox) (rows : List BatchJobOutbox) (s : MemStore)
      (m : Counters) (q q' : MemQueue) (o : Option String)
      → ((o ≡ none) × (q'.published ≡ q.published ++ shown ob.job_id ∷ []))
        ⊎ ((e : String) × (o ≡ some e) × (q'.published ≡ q.published))
      → IsOf s ob
      → All (IsOf s) rows
      → IsCovered s q
      → let (s', q'', m') = drain_row shown now fate ob s m (q', o) in
        IsCovered s' q'' × All (IsOf s') rows
  unfolding drain_row
  drain_row-IsCovered now fate ob rows s m q q' none (inl (done, took)) of ofs covered =
      let s' = (mark_outbox_published s now ob.id).0 in
      (
        leaves-IsCovered s s' fate q'
            (λ id row found published. rw took (
              has_text-before (shown row.job_id) (shown ob.job_id) q.published
                (covered id row found published)))
            (published-IsCovered s q q' now ob covered of took),
        leaves-IsOf s s' fate rows (published-Follows s now ob.id) ofs,
      )
  drain_row-IsCovered now fate ob rows s m q q' none (inr (e, failed, same)) of ofs covered =
      ground arith
  drain_row-IsCovered now fate ob rows s m q q' (some x) (inl (done, took)) of ofs covered =
      ground arith
  drain_row-IsCovered now fate ob rows s m q q' (some x) (inr (e, failed, same)) of ofs covered =
      let s' = (mark_outbox_failed_attempt s now ob.id x).0 in
      (
        leaves-IsCovered s s' fate q'
            (λ id row found published. rw same (covered id row found published))
            (λ id row found published.
              rw same (failed-IsCovered s q now ob.id x covered id row found published)),
        leaves-IsOf s s' fate rows (failed-Follows s now ob.id x) ofs,
      )

  drain_rows-IsCovered :
      (now : ℕ) (ended : ℕ → Bool) (fates : ℕ → Fate) (rows : List BatchJobOutbox) (s : MemStore)
      (q : MemQueue) (m : Counters)
      → All (IsOf s) rows
      → IsCovered s q
      → let (s', q', m') = drain_rows shown now ended fates rows s q m in IsCovered s' q'
  unfolding drain_rows
  drain_rows-IsCovered now ended fates [] s q m of covered = covered
  drain_rows-IsCovered now ended fates (ob ∷ rows) s q m of covered =
      let (s', q', m') = drain_row shown now (fates 0) ob s m (publish q (shown ob.job_id)) in
      let (covered', of') =
        drain_row-IsCovered now (fates 0) ob rows s m q (publish q (shown ob.job_id)).0
          (publish q (shown ob.job_id)).1 (publish-published q (shown ob.job_id)) of.0 of.1
          covered in
      let rest =
        drain_rows-IsCovered now (λ i. ended (suc i)) (λ i. fates (suc i)) rows s' q' m' of'
          covered' in
      elim (Bool-cases (ended 0)) [ inl stopped ↦ rw stopped covered | inr going ↦ rw going rest ]

  -- A drain of the outbox keeps this: the queue has the job of every row that is marked published.
  -- It does so whether publishing works or fails, whatever the fate of the marks and of the read, and
  -- wherever the context ends it, when the rows it reads are of the jobs of the rows stored under their
  -- ids.
  pub drain_outbox_once-IsCovered :
      (now batch : ℕ) (reads over : Bool) (ended : ℕ → Bool) (fates : ℕ → Fate) (s : MemStore)
      (q : MemQueue) (m : Counters)
      → All (IsOf s) (pending_outbox s batch)
      → IsCovered s q
      → let (s', q', m') = drain_outbox_once shown now batch reads over ended fates s q m in
        IsCovered s' q'
  unfolding drain_outbox_once
  drain_outbox_once-IsCovered now batch true over ended fates s q m of covered =
      drain_rows-IsCovered now ended fates (pending_outbox s batch) s q m of covered
  drain_outbox_once-IsCovered now batch false over ended fates s q m of covered = covered

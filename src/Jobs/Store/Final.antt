-- ===== src/Jobs/Store/Final.antt =====
-- The count of a job's items, and the status that a recompute gives a job whose items are terminal.
use aegis_route.Base.{
  ℕ, suc, ◌≡◌, ◌≢◌, refl, sym, ap, ◌∙◌, inl, inr, true, false, not, nat_key, some, List, [], ◌∷◌,
  arith, Bool-cases, length,
}
use aegis_route.Base.Map.{lookup, lookup-insert_self}
use aegis_route.Models.{Uuid, BatchJob, BatchJobItem, JobStatus}
use aegis_route.Jobs.Status.{valid_job_transition}
use aegis_route.Jobs.Store.{
  MemStore, items_of, is_terminal, mark_running, mark_job_running, recompute, recomputed,
  recompute_and_update_job_status,
}
use aegis_route.Jobs.Store.Items.{Op, step, step-Evolves}
use aegis_route.Jobs.Store.Changes.{Pairwise}
use aegis_route.Jobs.Store.Outcome.{
  some_item, describe, IsFinal, is_silent, jobs-silent, recomputed_status,
}

-- The job is known, and its total counts its items.
abbrev pub HasCount : MemStore → Uuid → Type 0
HasCount s job =
    (j : BatchJob) × (lookup job s.jobs ≡ some j) × (j.total_items ≡ length (items_of s job))

length-Pairwise :
    {A : Type 0} (R : A → A → Type 0) (as_ bs : List A) → Pairwise R as_ bs → length bs ≡ length as_
length-Pairwise R [] [] h = refl
length-Pairwise R [] (b ∷ bs) h = absurd h
length-Pairwise R (a ∷ as_) [] h = absurd h
length-Pairwise R (a ∷ as_) (b ∷ bs) (r, h) = ap suc (length-Pairwise R as_ bs h)

-- A call that touches no job keeps the count.
pub silent-HasCount :
    (s : MemStore) (now : ℕ) (op : Op) (job : Uuid)
    → is_silent op ≡ true
    → HasCount s job
    → HasCount (step s now op) job
silent-HasCount s now op job silent (j, found, count) = (
  j,
  rw (jobs-silent s now op silent) found,
  count ∙ sym (length-Pairwise _ _ _ (step-Evolves s now op job)),
)

-- Marking the job running keeps the count.
pub mark-HasCount :
    (s : MemStore) (now : ℕ) (job : Uuid)
    → HasCount s job
    → HasCount (mark_job_running s now job).0 job
unfolding mark_job_running items_of
mark-HasCount s now job (j, found, count) =
    elim (Bool-cases (valid_job_transition j.status JobStatus.running)) [
      | inl fine ↦
          rw (found, mark_running, fine)
            (
              record j { status = JobStatus.running; updated_at = now },
              lookup-insert_self job _ s.jobs,
              count,
            )
      | inr already ↦ rw (found, mark_running, already) (j, found, count)
    ]

describe-ne-running :
    (its : List BatchJobItem)
    → some_item (λ s. not (is_terminal s)) its ≡ false
    → describe its ≢ JobStatus.running
unfolding describe
describe-ne-running its closed = ground arith

-- A recompute of a counted job whose items are all terminal answers with its final status.
pub recompute-IsFinal :
    (s : MemStore) (now : ℕ) (job : Uuid)
    → HasCount s job
    → some_item (λ st. not (is_terminal st)) (items_of s job) ≡ false
    → let (s', r) = recompute_and_update_job_status s now job in
      (status : JobStatus) × (r ≡ some status) × IsFinal s' job status
unfolding recompute_and_update_job_status items_of
recompute-IsFinal s now job (j, found, count) closed =
    let j' = recomputed now (items_of s job) j in
    let fits = recomputed_status s now job j (describe (items_of s job)) count refl in
    rw (found, recompute)
      (
        describe (items_of s job),
        ap some fits,
        (
          j',
          lookup-insert_self job j' s.jobs,
          fits,
          unfold recomputed in count,
          refl,
          describe-ne-running (items_of s job) closed,
        ),
      )

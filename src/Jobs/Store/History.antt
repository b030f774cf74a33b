-- ===== src/Jobs/Store/History.antt =====
-- The store after any calls in any order.
use aegis_route.Base.{
  ap, ℕ, zero, suc, ◌≡◌, ◌∙◌, inl, inr, true, nat_key, Option, none, some, List, [], ◌∷◌, arith,
  false, ◌==◌, All,
}
use aegis_route.Base.Map.{lookup, lookup-insert}
use aegis_route.Models.{Uuid, BatchJob, BatchJobItem, ItemStatus}
use aegis_route.Jobs.Status.{valid_item_transition}
use aegis_route.Jobs.Store.{
  MemStore, items_of, or_empty, is_terminal, stored_items, create_with_items_and_outbox,
}
use aegis_route.Jobs.Store.Items.{Evolves, Evolves-refl, ItemStep, Op, step, step-Evolves}

-- A call on the store that changes it: the creation of a job, by the uuids made for it, or another.
pub data Call : Type 0 where
  creates : Uuid → (ℕ → Uuid) → Uuid → BatchJob → List BatchJobItem → Call
  on_jobs : Op → Call

unfoldable pub apply : MemStore → ℕ → Call → MemStore
unfolding step
apply s now (creates job_id item_id outbox_id job its) =
    (create_with_items_and_outbox s now job_id item_id outbox_id job its).0
apply s now (on_jobs op) = step s now op

-- Timed calls, oldest first.
unfoldable pub run : MemStore → List (ℕ × Call) → MemStore
unfolding apply
run s [] = s
run s ((now, call) ∷ calls) = run (apply s now call) calls

-- A creation makes another uuid than the job's.
abbrev pub Spares : Uuid → ℕ × Call → Type 0
Spares job (now, creates job_id item_id outbox_id new its) = (job_id == job) ≡ false
Spares job (now, on_jobs op) = Unit {0}

pub apply-Evolves :
    (s : MemStore) (now : ℕ) (call : Call) (job : Uuid)
    → Spares job (now, call)
    → Evolves (items_of s job) (items_of (apply s now call) job)
unfolding apply create_with_items_and_outbox items_of
apply-Evolves s now (creates job_id item_id outbox_id new its) job apart =
    rw (lookup-insert job_id job (stored_items now job_id item_id its) s.items, apart)
      (Evolves-refl (or_empty (lookup job s.items)))
apply-Evolves s now (on_jobs op) job apart = unfold items_of in step-Evolves s now op job

abbrev pub item_at : ℕ → List BatchJobItem → Option BatchJobItem
item_at i [] = none
item_at zero (it ∷ its) = some it
item_at (suc i) (it ∷ its) = item_at i its

pub terminal_step : (a b : BatchJobItem) → is_terminal a.status ≡ true → ItemStep a b → b ≡ a
unfolding valid_item_transition
terminal_step a b final (inl same, _, _, _, _) = same
terminal_step a b final (inr moved, _, _, _, _) = absurd (no_move a.status b.status final moved)
  where
    no_move : (s t : ItemStatus) → is_terminal s ≡ true → valid_item_transition s t ≡ true → ⊥
    no_move s t f m = ground arith

item_at-Evolves :
    (i : ℕ) (as_ bs : List BatchJobItem) (a : BatchJobItem)
    → Evolves as_ bs
    → item_at i as_ ≡ some a
    → is_terminal a.status ≡ true
    → item_at i bs ≡ some a
item_at-Evolves i [] bs a h e final = cc
item_at-Evolves i (x ∷ as_) [] a h e final = absurd h
item_at-Evolves zero (x ∷ as_) (b ∷ bs) a h e final =
    let p : x ≡ a = cc in ap some (terminal_step x b (rw p final) h.0 ∙ p)
item_at-Evolves (suc i) (x ∷ as_) (b ∷ bs) a h e final = item_at-Evolves i as_ bs a h.1 e final

-- A terminal item is never changed again, whatever is called, the creation of other jobs included:
-- redelivered messages, late updates and requeues. It relies on new jobs having other uuids.
pub terminal-run :
    (s : MemStore) (calls : List (ℕ × Call)) (job : Uuid) (i : ℕ) (it : BatchJobItem)
    → All (Spares job) calls
    → item_at i (items_of s job) ≡ some it
    → is_terminal it.status ≡ true
    → item_at i (items_of (run s calls) job) ≡ some it
unfolding run
terminal-run s [] job i it apart e final = e
terminal-run s ((now, call) ∷ calls) job i it (here, apart) e final =
    terminal-run (apply s now call) calls job i it apart
      (item_at-Evolves i _ _ it (apply-Evolves s now call job here) e final) final

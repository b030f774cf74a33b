-- ===== src/Jobs/Store/Queries.antt =====
-- internal/jobs/memstore.go: the reads, which see one tenant's jobs only, and the outbox.
pub mod Tenants
use aegis_route.Base.{
  ℕ, Bool, true, false, ◌&&◌, ◌||◌, nat_key, ◌==◌, String, ltb, if◌then◌else◌, Option, none, some,
  List, [], ◌∷◌, map, keep, take,
}
use aegis_route.Base.Text.{str_lt}
use aegis_route.Base.Map.{Map, lookup}
use aegis_route.Models.{Uuid, BatchJob, BatchJobItem, BatchJobOutbox}
use aegis_route.Jobs.Store.{MemStore, items_of, is_pending}

-- sort.Slice by a strict order.
unfoldable pub insert_sorted {ℓ} : {A : Type ℓ} → (A → A → Bool) → A → List A → List A
insert_sorted less a [] = a ∷ []
insert_sorted less a (b ∷ bs) = if less b a then b ∷ insert_sorted less a bs else a ∷ b ∷ bs

unfoldable pub sort_slice {ℓ} : {A : Type ℓ} → (A → A → Bool) → List A → List A
unfolding insert_sorted
sort_slice less [] = []
sort_slice less (a ∷ as_) = insert_sorted less a (sort_slice less as_)

-- The job, unless it is another tenant's.
unfoldable pub of_tenant : Uuid → Option BatchJob → Option BatchJob
of_tenant tenant none = none
of_tenant tenant (some job) = if job.tenant_id == tenant then some job else none

-- Get; `none` is ErrNotFound.
unfoldable pub get : MemStore → Uuid → Uuid → Option BatchJob
unfolding of_tenant
get s tenant id = of_tenant tenant (lookup id s.jobs)

values : {V : Type 0} → Map Uuid V → List V
values [] = []
values ((k, v) ∷ m) = v ∷ values m

-- Newest first; jobs of one time by falling id, whose texts and numbers have one order.
newer : BatchJob → BatchJob → Bool
newer a b = if a.created_at == b.created_at then ltb b.id a.id else ltb b.created_at a.created_at

unfoldable pub list_jobs : MemStore → Uuid → List BatchJob
unfolding sort_slice newer values
list_jobs s tenant = sort_slice newer (keep (λ j. j.tenant_id == tenant) (values s.jobs))

by_custom_id : BatchJobItem → BatchJobItem → Bool
unfolding str_lt
by_custom_id a b = str_lt a.custom_id b.custom_id

items_for : MemStore → Uuid → Option BatchJob → Option (List BatchJobItem)
unfolding sort_slice by_custom_id
items_for s id none = none
items_for s id (some job) = some (sort_slice by_custom_id (items_of s id))

-- Items; `none` is ErrNotFound.
unfoldable pub items : MemStore → Uuid → Uuid → Option (List BatchJobItem)
unfolding items_for get
items s tenant id = items_for s id (get s tenant id)

older : BatchJobOutbox → BatchJobOutbox → Bool
older a b = if a.created_at == b.created_at then ltb a.id b.id else ltb a.created_at b.created_at

-- PendingOutbox: oldest first, at most `limit` of them.
unfoldable pub pending_outbox : MemStore → ℕ → List BatchJobOutbox
unfolding sort_slice older values
pending_outbox s limit =
    take limit (sort_slice older (keep (λ ob. is_pending ob.status) (values s.outbox)))

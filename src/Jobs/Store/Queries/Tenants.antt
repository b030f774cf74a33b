-- ===== src/Jobs/Store/Queries/Tenants.antt =====
-- What the reads return.
use mathlib.Core.List.{Perm}
use mathlib.Core.List.Perm
use aegis_route.Base.{
  ◌≡◌, refl, ◌≢◌, inl, inr, Bool, nat_key, ◌==◌, ==_iff, Option, none, some, List, [], ◌∷◌, arith,
  All, keep, Bool-cases,
}
use aegis_route.Base.Map.{lookup}
use aegis_route.Models.{Uuid, BatchJob}
use aegis_route.Jobs.Store.{MemStore}
use aegis_route.Jobs.Store.Queries.{
  insert_sorted, sort_slice, of_tenant, get, list_jobs, items, values, newer,
}

insert_sorted-perm {ℓ} :
    {A : Type ℓ} (less : A → A → Bool) (a : A) (bs : List A)
    → Perm (a ∷ bs) (insert_sorted less a bs)
unfolding insert_sorted
insert_sorted-perm less a [] = Perm.refl (a ∷ [])
insert_sorted-perm less a (b ∷ bs) = elim (Bool-cases (less b a)) [
  | inl past ↦ rw past (Perm.trans (Perm.swap b a bs) (Perm.cons b (insert_sorted-perm less a bs)))
  | inr here ↦ rw here (Perm.refl (a ∷ b ∷ bs))
]

pub sort_slice-perm {ℓ} :
    {A : Type ℓ} (less : A → A → Bool) (bs : List A) → Perm bs (sort_slice less bs)
unfolding sort_slice
sort_slice-perm less [] = Perm.refl []
sort_slice-perm less (b ∷ bs) =
    Perm.trans (Perm.cons b (sort_slice-perm less bs))
      (insert_sorted-perm less b (sort_slice less bs))

module _ {ℓ κ} {A : Type ℓ} (P : A → Type κ) (less : A → A → Bool) where
  insert_sorted-All : (a : A) (bs : List A) → P a → All P bs → All P (insert_sorted less a bs)
  unfolding insert_sorted
  insert_sorted-All a [] p h = (p, tt)
  insert_sorted-All a (b ∷ bs) p h = elim (Bool-cases (less b a)) [
    | inl past ↦ rw past (h.0, insert_sorted-All a bs p h.1)
    | inr here ↦ rw here (p, h)
  ]

  sort_slice-All : (bs : List A) → All P bs → All P (sort_slice less bs)
  unfolding sort_slice
  sort_slice-All [] h = tt
  sort_slice-All (b ∷ bs) h = insert_sorted-All b (sort_slice less bs) h.0 (sort_slice-All bs h.1)

keep-tenant :
    (tenant : Uuid) (js : List BatchJob)
    → All (λ j. j.tenant_id ≡ tenant) (keep (λ j. j.tenant_id == tenant) js)
keep-tenant tenant [] = tt
keep-tenant tenant (j ∷ js) = elim (Bool-cases (j.tenant_id == tenant)) [
  | inl own ↦ rw own ((==_iff {K = Uuid} j.tenant_id tenant).0 own, keep-tenant tenant js)
  | inr other ↦ rw other (keep-tenant tenant js)
]

-- A job that a read returned: the one stored under the id, and the tenant's.
abbrev pub Owned : MemStore → Uuid → Uuid → Option BatchJob → Type 0
Owned s tenant id none = Unit {0}
Owned s tenant id (some job) = (lookup id s.jobs ≡ some job) × (job.tenant_id ≡ tenant)

get-Owned :
    (s : MemStore) (tenant id : Uuid) (o : Option BatchJob)
    → lookup id s.jobs ≡ o
    → Owned s tenant id (of_tenant tenant o)
unfolding of_tenant
get-Owned s tenant id none e = tt
get-Owned s tenant id (some job) e = elim (Bool-cases (job.tenant_id == tenant)) [
  | inl own ↦ rw own (e, (==_iff {K = Uuid} job.tenant_id tenant).0 own)
  | inr other ↦ rw other tt
]

items-of_none :
    (s : MemStore) (tenant id : Uuid) (job : BatchJob)
    → lookup id s.jobs ≡ some job
    → job.tenant_id ≢ tenant
    → items s tenant id ≡ none
unfolding items
items-of_none s tenant id job e other = ground (arith, ==_iff {K = Uuid} job.tenant_id tenant)

-- No read shows a tenant another tenant's job: Get and List return the tenant's own jobs only, and
-- the id of another tenant's job has no items, exactly as an unknown id.
pub reads-Owned :
    (s : MemStore) (tenant id theirs : Uuid) (job : BatchJob)
    → lookup theirs s.jobs ≡ some job
    → job.tenant_id ≢ tenant
    → Owned s tenant id (get s tenant id)
      × All (λ j. j.tenant_id ≡ tenant) (list_jobs s tenant)
      × (get s tenant theirs ≡ none)
      × (items s tenant theirs ≡ none)
unfolding get list_jobs
reads-Owned s tenant id theirs job e other = (
  get-Owned s tenant id (lookup id s.jobs) refl,
  sort_slice-All _ newer _ (keep-tenant tenant (values s.jobs)),
  ground (arith, ==_iff {K = Uuid} job.tenant_id tenant),
  items-of_none s tenant theirs job e other,
)

-- ===== src/Idempotency/Repo.antt =====
-- internal/db/idempotency_repo.go: the statements on the table idempotency_records, whose unique index
-- on scope and key makes it a map. The status is one of the two that the table's CHECK allows. `now`
-- is the database's clock, but the application's in a lookup, and the id that a record gets is the
-- argument `id`. A jsonb column holds what the database makes of a text, or refuses it.
pub mod Records
use aegis_route.Base.{
  ℕ, ◌+◌, Bool, true, false, ◌&&◌, ◌||◌, not, nat_key, string_key, pair_key, ◌==◌, String, ltb, leb,
  if◌then◌else◌, Option, none, some, List, [], ◌∷◌,
}
use aegis_route.Base.Fate.{Fate, works, leaves, is_error}
use aegis_route.Base.Map.{Map, lookup, insert}
use aegis_route.Models.{Uuid, IdempotencyRecord, IdempotencyStatus}
use aegis_route.Idempotency.{
  LookupResult, BeginAnswer, began, record_active, begin_failed, IdempotencyStore, classify,
  is_completed, is_locked, Outcome,
}

abbrev pub Table : Type 0
Table = Map (String × String) IdempotencyRecord

-- A jsonb column: `jsonb text` is what it gives back of the text.
pub record Jsonb : Type 0 where
  pub is_blank : String → Bool
  pub jsonb : String → Option String

found_record : String → ℕ → Option IdempotencyRecord → LookupResult
unfolding classify
found_record request_hash now none = record { outcome = Outcome.absent; rec = none }
found_record request_hash now (some rec) = record {
  outcome = classify (some rec) request_hash now;
  rec = some rec;
}

unfoldable pub lookup_record : Table → ℕ → String → String → String → LookupResult
unfolding found_record
lookup_record t now scope key request_hash = found_record request_hash now (lookup (scope, key) t)

-- The row that Begin writes.
unfoldable pub pending_record : ℕ → Uuid → String → String → String → ℕ → ℕ → IdempotencyRecord
pending_record now id scope key request_hash ttl lock_ttl = record {
  id = id;
  scope = scope;
  idem_key = key;
  request_hash = request_hash;
  status = IdempotencyStatus.pending;
  locked_until = some (now + lock_ttl);
  response_status = none;
  response_headers = none;
  response_body = none;
  created_at = now;
  expires_at = now + ttl;
}

-- The condition of ON CONFLICT … DO UPDATE.
unfoldable pub is_reclaimable : ℕ → IdempotencyRecord → Bool
is_reclaimable now rec =
    leb rec.expires_at now
    || (not (is_completed rec.status) && not (is_locked now rec.locked_until))

begin_at : Table → ℕ → IdempotencyRecord → Option IdempotencyRecord → Table × BeginAnswer
unfolding is_reclaimable
begin_at t now new none = (insert (new.scope, new.idem_key) new t, began new.id)
begin_at t now new (some rec) =
    if is_reclaimable now rec
    then (insert (new.scope, new.idem_key) new t, began new.id)
    else (t, record_active)

unfoldable pub begin_record :
    Table → ℕ → Uuid → String → String → String → ℕ → ℕ → Table × BeginAnswer
unfolding begin_at pending_record
begin_record t now id scope key request_hash ttl lock_ttl =
    begin_at t now (pending_record now id scope key request_hash ttl lock_ttl)
      (lookup (scope, key) t)

-- `id = $1 AND status = 'pending'`
abbrev pub is_own : Uuid → IdempotencyRecord → Bool
is_own id rec = rec.id == id && not (is_completed rec.status)

-- The row with a response.
unfoldable pub completed_record : ℕ → String → Option String → IdempotencyRecord → IdempotencyRecord
completed_record status headers body rec = record rec {
  status = IdempotencyStatus.completed;
  locked_until = none;
  response_status = some status;
  response_headers = some headers;
  response_body = body;
}

unfoldable pub update_rows : Uuid → (IdempotencyRecord → IdempotencyRecord) → Table → Table
update_rows id f [] = []
update_rows id f ((k, rec) ∷ t) = (k, if is_own id rec then f rec else rec) ∷ update_rows id f t

-- Some row is the caller's pending one.
unfoldable pub owns_row : Uuid → Table → Bool
owns_row id [] = false
owns_row id ((k, rec) ∷ t) = is_own id rec || owns_row id t

unfoldable pub delete_rows : Uuid → Table → Table
delete_rows id [] = []
delete_rows id ((k, rec) ∷ t) =
    let rest = delete_rows id t in if is_own id rec then rest else (k, rec) ∷ rest

unfoldable pub release_record : Table → Uuid → Table
unfolding delete_rows
release_record t id = delete_rows id t

-- A column's new content: NULL for a blank text, else the text as jsonb; `none` when it is refused.
unfoldable pub column : Jsonb → String → Option (Option String)
column db text =
    if db.is_blank text
    then some none
    else elim (db.jsonb text) [ none ↦ none | some t ↦ some (some t) ]

-- COALESCE($3, '{}'::jsonb)
abbrev pub or_object : Option String → String
or_object none = "{}"
or_object (some text) = text

complete_with : Table → Uuid → ℕ → Option (Option String) → Option (Option String) → Table × Bool
unfolding update_rows completed_record owns_row
complete_with t id status (some headers) (some body) =
    if owns_row id t
    then (update_rows id (completed_record status (or_object headers) body) t, true)
    else (t, false)
complete_with t id status _ _ = (t, false)

unfoldable pub complete_record : Jsonb → Table → Uuid → ℕ → String → String → Table × Bool
unfolding complete_with column
complete_record db t id status headers body =
    complete_with t id status (column db headers) (column db body)

-- What Postgres does with the four statements: whether a lookup is answered, and the fates of the others.
pub record RepoFates : Type 0 where
  pub lookups : Bool
  pub begins : Fate
  pub completes : Fate
  pub releases : Fate

-- A Postgres that answers.
abbrev pub answering : RepoFates
answering = record { lookups = true; begins = works; completes = works; releases = works }

begin_answered : Fate → Table → Table × BeginAnswer → Table × BeginAnswer
begin_answered fate t r = if is_error fate then (leaves fate t r.0, begin_failed) else r

complete_answered : Fate → Table → Table × Bool → Table × Bool
complete_answered fate t r = (leaves fate t r.0, not (is_error fate) && r.1)

-- The repository as the store of a coordinator.
unfoldable pub idempotency_repo : Jsonb → RepoFates → IdempotencyStore Table
unfolding begin_answered complete_answered
idempotency_repo db fates = record {
  lookup = λ t now scope key request_hash.
      if fates.lookups then some (lookup_record t now scope key request_hash) else none;
  begin = λ t now id scope key request_hash ttl lock_ttl.
      begin_answered fates.begins t (begin_record t now id scope key request_hash ttl lock_ttl);
  complete = λ t id status headers body.
      complete_answered fates.completes t (complete_record db t id status headers body);
  release = λ t id. (leaves fates.releases t (release_record t id), not (is_error fates.releases));
}

-- ===== src/Idempotency/Repo/Records.antt =====
-- What the statements on idempotency_records do to a record that someone holds.
use aegis_route.Base.{
  ℕ, ◌≡◌, refl, ◌∙◌, inl, inr, Bool, true, false, nat_key, string_key, pair_key, ◌==◌, ==_iff,
  ==_refl, String, if◌then◌else◌, Option, none, some, List, [], ◌∷◌, arith, All, Bool-cases,
  Option-cases,
}
use aegis_route.Base.Map.{lookup, insert, lookup-insert, lookup-insert_self}
use aegis_route.Models.{Uuid, IdempotencyRecord, IdempotencyStatus}
use aegis_route.Idempotency.{began, record_active, classify, is_completed, Outcome}
use aegis_route.Idempotency.Repo.{
  Table, Jsonb, pending_record, is_reclaimable, begin_at, begin_record, is_own, completed_record,
  update_rows, owns_row, delete_rows, release_record, column, complete_with, complete_record,
  or_object,
}

-- The outcomes with which a record blocks new work of the same body.
abbrev pub is_held : Outcome → Bool
is_held Outcome.replay = true
is_held Outcome.in_progress = true
is_held _ = false

-- The condition of the SQL statement is the classification of the Go code, on the record's own body:
-- Begin takes over a record exactly when a request with the record's body finds it absent or stale, and
-- otherwise leaves the table as it is and answers that the record is active.
pub begin_record-classify :
    (t : Table) (now : ℕ) (id : Uuid) (scope key request_hash : String) (ttl lock_ttl : ℕ)
    (rec : IdempotencyRecord)
    → lookup (scope, key) t ≡ some rec
    → begin_record t now id scope key request_hash ttl lock_ttl ≡ (
        if is_held (classify (some rec) rec.request_hash now) then (t, record_active) else (
          insert (scope, key) (pending_record now id scope key request_hash ttl lock_ttl) t,
          began id,
        ))
unfolding begin_record begin_at is_reclaimable classify pending_record
begin_record-classify t now id scope key request_hash ttl lock_ttl rec found =
    rw found (ground (arith, ==_refl rec.request_hash))

-- A statement that changes the table.
pub data Op : Type 0 where
  begins : (now : ℕ) → Uuid → (scope key request_hash : String) → (ttl lock_ttl : ℕ) → Op
  completes : Uuid → ℕ → (headers body : String) → Op
  releases : Uuid → Op

module _ (db : Jsonb) where
  unfoldable pub step : Table → Op → Table
  unfolding begin_record complete_record release_record
  step t (begins now id scope key request_hash ttl lock_ttl) =
      (begin_record t now id scope key request_hash ttl lock_ttl).0
  step t (completes id status headers body) = (complete_record db t id status headers body).0
  step t (releases id) = release_record t id

  unfoldable pub run : Table → List Op → Table
  unfolding step
  run t [] = t
  run t (op ∷ ops) = run (step t op) ops

-- A statement that has no power over the record: a Begin while it is held, and the end of another
-- owner's record, or any end once it is completed.
abbrev pub Spares : IdempotencyRecord → Op → Type 0
Spares rec (begins now id scope key request_hash ttl lock_ttl) =
    is_held (classify (some rec) rec.request_hash now) ≡ true
Spares rec (completes id status headers body) = is_own id rec ≡ false
Spares rec (releases id) = is_own id rec ≡ false

lookup-update_rows :
    (k : String × String) (id : Uuid) (f : IdempotencyRecord → IdempotencyRecord) (t : Table)
    (rec : IdempotencyRecord)
    → lookup k t ≡ some rec
    → lookup k (update_rows id f t) ≡ some (if is_own id rec then f rec else rec)
unfolding lookup update_rows
lookup-update_rows k id f [] rec found = ground arith
lookup-update_rows k id f ((j, x) ∷ t) rec found = elim (Bool-cases (j == k)) [
  | inl same ↦ let is : x ≡ rec = ground arith in rw (same, is) refl
  | inr other ↦ rw other (lookup-update_rows k id f t rec (ground arith))
]

lookup-delete_rows :
    (k : String × String) (id : Uuid) (t : Table) (rec : IdempotencyRecord)
    → lookup k t ≡ some rec
    → is_own id rec ≡ false
    → lookup k (delete_rows id t) ≡ some rec
unfolding lookup delete_rows
lookup-delete_rows k id [] rec found spared = ground arith
lookup-delete_rows k id ((j, x) ∷ t) rec found spared = elim (Bool-cases (j == k)) [
  | inl same ↦ let is : x ≡ rec = ground arith in rw (is, spared, same) refl
  | inr other ↦
      let rest = lookup-delete_rows k id t rec (ground arith) spared in
      elim (Bool-cases (is_own id x)) [ inl own ↦ rw own rest | inr alien ↦ rw (alien, other) rest ]
]

begin_at-apart :
    (k : String × String) (t : Table) (now : ℕ) (new : IdempotencyRecord)
    (o : Option IdempotencyRecord)
    → ((new.scope, new.idem_key) == k) ≡ false
    → lookup k (begin_at t now new o).0 ≡ lookup k t
unfolding begin_at
begin_at-apart k t now new none other =
    lookup-insert (new.scope, new.idem_key) k new t ∙ rw other refl
begin_at-apart k t now new (some rec) other = elim (Bool-cases (is_reclaimable now rec)) [
  | inl free ↦ rw free (lookup-insert (new.scope, new.idem_key) k new t ∙ rw other refl)
  | inr held ↦ rw held refl
]

begin_record-keeps :
    (k : String × String) (t : Table) (now : ℕ) (id : Uuid) (scope key request_hash : String)
    (ttl lock_ttl : ℕ) (rec : IdempotencyRecord)
    → lookup k t ≡ some rec
    → is_held (classify (some rec) rec.request_hash now) ≡ true
    → lookup k (begin_record t now id scope key request_hash ttl lock_ttl).0 ≡ some rec
begin_record-keeps k t now id scope key request_hash ttl lock_ttl rec found held =
    elim (Bool-cases ((scope, key) == k)) [
      | inl same ↦
          let here : lookup (scope, key) t ≡ some rec = rw ((==_iff (scope, key) k).0 same) found in
          rw (begin_record-classify t now id scope key request_hash ttl lock_ttl rec here, held)
            found
      | inr other ↦
          unfold begin_record in
          begin_at-apart k t now (pending_record now id scope key request_hash ttl lock_ttl)
            (lookup (scope, key) t) (unfold pending_record in other)
          ∙ found
    ]

complete_with-lookup :
    (k : String × String) (t : Table) (id : Uuid) (status : ℕ)
    (headers body : Option (Option String)) (rec : IdempotencyRecord)
    → lookup k t ≡ some rec
    → is_own id rec ≡ false
    → lookup k (complete_with t id status headers body).0 ≡ some rec
unfolding complete_with
complete_with-lookup k t id status (some headers) (some body) rec found spared =
    ground (
      arith,
      lookup-update_rows k id (completed_record status (or_object headers) body) t rec found,
    )
complete_with-lookup k t id status none body rec found spared = found
complete_with-lookup k t id status (some headers) none rec found spared = found

step-keeps :
    (db : Jsonb) (k : String × String) (t : Table) (op : Op) (rec : IdempotencyRecord)
    → lookup k t ≡ some rec
    → Spares rec op
    → lookup k (step db t op) ≡ some rec
unfolding step complete_record release_record
step-keeps db k t (begins now id scope key request_hash ttl lock_ttl) rec found spared =
    begin_record-keeps k t now id scope key request_hash ttl lock_ttl rec found spared
step-keeps db k t (completes id status headers body) rec found spared =
    complete_with-lookup k t id status (column db headers) (column db body) rec found spared
step-keeps db k t (releases id) rec found spared = lookup-delete_rows k id t rec found spared

-- A record stays as it is through any statements that have no power over it: those of other owners,
-- and every Begin while the record is held. So a lock excludes until it lapses or its owner ends it,
-- and a completed response is final until it expires.
pub run-keeps :
    (db : Jsonb) (k : String × String) (t : Table) (ops : List Op) (rec : IdempotencyRecord)
    → lookup k t ≡ some rec
    → All (Spares rec) ops
    → lookup k (run db t ops) ≡ some rec
unfolding run
run-keeps db k t [] rec found spared = found
run-keeps db k t (op ∷ ops) rec found spared =
    run-keeps db k (step db t op) ops rec (step-keeps db k t op rec found spared.0) spared.1

owns_row-lookup :
    (k : String × String) (t : Table) (rec : IdempotencyRecord) (id : Uuid)
    → lookup k t ≡ some rec
    → is_own id rec ≡ true
    → owns_row id t ≡ true
unfolding lookup owns_row
owns_row-lookup k [] rec id found own = ground arith
owns_row-lookup k ((j, x) ∷ t) rec id found own = elim (Bool-cases (j == k)) [
  | inl same ↦ let is : x ≡ rec = ground arith in rw (is, own) refl
  | inr other ↦ rw (owns_row-lookup k t rec id (ground arith) own) (ground arith)
]

pub complete_record-completed :
    (db : Jsonb) (k : String × String) (t : Table) (rec : IdempotencyRecord) (status : ℕ)
    (headers body : String) (headers_column body_column : Option String)
    → lookup k t ≡ some rec
    → is_completed rec.status ≡ false
    → column db headers ≡ some headers_column
    → column db body ≡ some body_column
    → ((complete_record db t rec.id status headers body).1 ≡ true)
      × (lookup k (complete_record db t rec.id status headers body).0
          ≡ some (completed_record status (or_object headers_column) body_column rec))
unfolding complete_record complete_with
complete_record-completed db k t rec status headers body headers_column body_column found open_
      takes_headers takes_body =
    let own : is_own rec.id rec ≡ true = rw (==_refl rec.id, open_) refl in
    rw (takes_headers, takes_body, owns_row-lookup k t rec rec.id found own)
      (refl, lookup-update_rows k rec.id _ t rec found ∙ rw own refl)

-- The row holds the response: completed, no longer locked, with the status, the headers ("{}" when their
-- column is NULL) and the body; whose it is and how long it lives stay.
abbrev pub IsAnswer :
    IdempotencyRecord → ℕ → Option String → Option String → IdempotencyRecord → Type 0
IsAnswer old status headers_column body_column new =
    (new.status ≡ IdempotencyStatus.completed)
    × (new.locked_until ≡ none)
    × (new.response_status ≡ some status)
    × (new.response_headers ≡ some (elim headers_column [ none ↦ "{}" | some text ↦ text ]))
    × (new.response_body ≡ body_column)
    × ((new.id ≡ old.id) × (new.scope ≡ old.scope) × (new.idem_key ≡ old.idem_key))
    × ((new.request_hash ≡ old.request_hash) × (new.expires_at ≡ old.expires_at))

completed_record-IsAnswer :
    (rec : IdempotencyRecord) (status : ℕ) (headers_column body_column : Option String)
    → IsAnswer rec status headers_column body_column
        (completed_record status (or_object headers_column) body_column rec)
unfolding completed_record
completed_record-IsAnswer rec status none body_column =
    (refl, refl, refl, refl, refl, (refl, refl, refl), (refl, refl))
completed_record-IsAnswer rec status (some text) body_column =
    (refl, refl, refl, refl, refl, (refl, refl, refl), (refl, refl))

-- Complete by the owner of a pending record stores the response, where the columns take it: the row is
-- then completed and unlocked, has the status, the headers' column, or "{}" when that is NULL, and the
-- body's column, and keeps its id, scope, key, request hash and expiry.
pub complete_record-owner :
    (db : Jsonb) (k : String × String) (t : Table) (rec : IdempotencyRecord) (status : ℕ)
    (headers body : String) (headers_column body_column : Option String)
    → lookup k t ≡ some rec
    → is_completed rec.status ≡ false
    → column db headers ≡ some headers_column
    → column db body ≡ some body_column
    → ((complete_record db t rec.id status headers body).1 ≡ true)
      × ((new : IdempotencyRecord) × (lookup k (complete_record db t rec.id status headers body).0
            ≡ some new)
          × IsAnswer rec status headers_column body_column new)
complete_record-owner db k t rec status headers body headers_column body_column found open_
      takes_headers takes_body =
    let (done, stored) =
      complete_record-completed db k t rec status headers body headers_column body_column found
        open_ takes_headers takes_body in
    (
      done,
      (
        completed_record status (or_object headers_column) body_column rec,
        stored,
        completed_record-IsAnswer rec status headers_column body_column,
      ),
    )

pub begin_at-began :
    (t : Table) (now : ℕ) (id : Uuid) (scope key request_hash : String) (ttl lock_ttl : ℕ)
    (id' : Uuid)
    → (begin_record t now id scope key request_hash ttl lock_ttl).1 ≡ began id'
    → lookup (scope, key) (begin_record t now id scope key request_hash ttl lock_ttl).0
      ≡ some (pending_record now id scope key request_hash ttl lock_ttl)
unfolding begin_record begin_at pending_record
begin_at-began t now id scope key request_hash ttl lock_ttl id' won =
    elim (Option-cases (lookup (scope, key) t)) [
      | inl fresh ↦ rw fresh (lookup-insert_self (scope, key) _ t)
      | inr (rec, found) ↦ elim (Bool-cases (is_reclaimable now rec)) [
        | inl free ↦ rw (found, free) (lookup-insert_self (scope, key) _ t)
        | inr held ↦ ground arith
      ]
    ]

-- A Begin that wins answers with the uuid it was given.
pub begin_record-own :
    (t : Table) (now : ℕ) (id other : Uuid) (scope key hash : String) (ttl lock_ttl : ℕ)
    → (begin_record t now id scope key hash ttl lock_ttl).1 ≡ began other
    → other ≡ id
unfolding begin_record begin_at pending_record
begin_record-own t now id other scope key hash ttl lock_ttl same =
    elim (Option-cases (lookup (scope, key) t)) [
      | inl free ↦ ground (arith, free)
      | inr (rec, held) ↦ elim (Bool-cases (is_reclaimable now rec)) [
        | inl lapsed ↦ ground (arith, held, lapsed)
        | inr kept ↦ ground (arith, held, kept)
      ]
    ]

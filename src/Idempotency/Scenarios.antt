-- ===== src/Idempotency/Scenarios.antt =====
-- A request that completes, another owner's statements, and two retries.
use aegis_route.Base.{
  ◌≡◌, ◌≢◌, refl, true, nat_key, string_key, pair_key, ◌==◌, String, if◌then◌else◌, none, some,
  List, [], ◌∷◌, arith, All,
}
use aegis_route.Base.Map.{Map, lookup, insert}
use aegis_route.Models.{IdempotencyRecord}
use aegis_route.Idempotency.{
  Libraries, decision, Action, StoredResponse, check, begin, complete, without_request_id, classify,
  began, record_active,
}
use aegis_route.Idempotency.Repo.{
  Table, Jsonb, idempotency_repo, pending_record, begin_record, complete_record, column,
}
use aegis_route.Idempotency.Repo.Records.{
  is_held, begin_record-classify, Op, begins, completes, releases, run, Spares, run-keeps,
  complete_record-owner, IsAnswer,
}
use aegis_route.Idempotency.Replay.{IsJson, over, opened, Sent, check-complete}

abbrev json_headers : Map String String
json_headers = ("Content-Type", "application/json") ∷ []

abbrev sent_headers : Map String String
sent_headers = ("X-Request-ID", "req-1") ∷ json_headers

abbrev libraries : Libraries
libraries = record {
  marshal = λ h. "{\"Content-Type\":\"application/json\"}";
  unmarshal = λ text. some json_headers;
  equal_fold = λ a b. a == b;
}

abbrev jsonb_text : Jsonb
jsonb_text = record { is_blank = λ text. text == ""; jsonb = λ text. some text }

abbrev row : IdempotencyRecord
row = pending_record 10 5 "scope" "key" "hash-a" 1000 60

abbrev table : Table
table = (("scope", "key"), row) ∷ []

begin_record-classify_example : begin_record table 100 6 "scope" "key" "hash-a" 1000 60 ≡ (
    if is_held (classify (some row) row.request_hash 100) then (table, record_active) else (
      insert ("scope", "key") (pending_record 100 6 "scope" "key" "hash-a" 1000 60) table,
      began 6,
    ))
begin_record-classify_example =
    begin_record-classify table 100 6 "scope" "key" "hash-a" 1000 60 row (unfold lookup in refl)

abbrev others : List Op
others = begins 20 7 "scope" "key" "hash-a" 1000 60 ∷ completes 7 200 "{}" "{}" ∷ releases 9 ∷ []

others-Spares : All (Spares row) others
unfolding pending_record classify
others-Spares = (refl, (refl, (refl, tt)))

run-keeps_example : lookup ("scope", "key") (run jsonb_text table others) ≡ some row
run-keeps_example =
    run-keeps jsonb_text ("scope", "key") table others row (unfold lookup in refl) others-Spares

complete_record-owner_example :
    ((complete_record jsonb_text table row.id 200 "{}" "[]").1 ≡ true)
    × ((new : IdempotencyRecord) × (lookup
            ("scope", "key")
            (complete_record jsonb_text table row.id 200 "{}" "[]").0
          ≡ some new)
        × IsAnswer row 200 (some "{}") (some "[]") new)
complete_record-owner_example =
    complete_record-owner jsonb_text ("scope", "key") table row 200 "{}" "[]" (some "{}")
      (some "[]") (unfold lookup in refl) (unfold pending_record in refl) (unfold column in refl)
      (unfold column in refl)

headers-IsJson : IsJson libraries jsonb_text (without_request_id libraries sent_headers)
unfolding column without_request_id
headers-IsJson =
    ("{\"Content-Type\":\"application/json\"}", json_headers, refl, refl, refl, λ k. refl)

begins-opened :
    (begin libraries (over jsonb_text 1000 60) [] 10 10 5 "scope" "key" "hash-a").1
    ≡ some (opened 5)
unfolding begin idempotency_repo begin_record pending_record lookup
begins-opened = refl

check-complete_example :
    let c = over jsonb_text 1000 60 in
    let t1 = run jsonb_text (begin libraries c [] 10 10 5 "scope" "key" "hash-a").0 others in
    let t2 = run jsonb_text (complete libraries c t1 5 200 sent_headers "[]").0 others in
    (stored : StoredResponse) × Sent libraries 200 sent_headers (some "[]") stored
    × (check libraries c t2 900 "scope" "key" "hash-a"
        ≡ some (record { action = Action.replay; record_id = none; stored = some stored }))
    × ((other : String)
        → "hash-a" ≢ other
        → check libraries c t2 900 "scope" "key" other ≡ some (decision Action.conflict_body))
check-complete_example =
    check-complete libraries jsonb_text 1000 60 [] 10 10 5 "scope" "key" "hash-a" others 200
      sent_headers "[]" (some "[]") others 900 headers-IsJson refl begins-opened others-Spares
      (unfold column in refl) (omega arith, (tt, (tt, tt))) (omega arith)

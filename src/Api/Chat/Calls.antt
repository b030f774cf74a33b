-- ===== src/Api/Chat/Calls.antt =====
-- The failover loop of a completion request: its end, and what every call leaves behind.
use aegis_route.Base.{
  ℕ, zero, suc, ◌≡◌, ◌≢◌, ◌⊎◌, Bool, true, false, ◌&&◌, not, nat_key, string_key, String,
  if◌then◌else◌, Option, none, some, List, [], ◌∷◌, ◌++◌, map, length,
}
use aegis_route.Models.{Uuid}
use aegis_route.Worker.{answered, do_failed, Verdict, success, failure, canceled}
use aegis_route.Worker.Items.{has}
use aegis_route.Api.Gate.{Response}
use aegis_route.Api.Chat.{
  Stage, Selection, Pick, picked, unpicked, CallTurn, CacheFates, Plan, InferenceRow,
}

-- Select answers with a backend of the pool that has not been tried.
abbrev pub Excludes : List Uuid → (ℕ → List Uuid → Pick) → Type 0
Excludes pool select =
    (i : ℕ) (tried : List Uuid) (sel : Selection)
    → select i tried ≡ picked sel
    → (has sel.id pool ≡ true) × (has sel.id tried ≡ false)

-- A call fails over when it failed transiently while the caller was there, and still is.
abbrev pub goes_on : CallTurn → Bool
goes_on turn = elim turn.do_answer [
  | answered body ↦ false
  | do_failed text transient ↦ transient && (not turn.ended_call && not turn.ended_after)
]

-- What the breaker is to hear of a call: success when the backend answered, with an error or not; nothing
-- certain when the caller went away first; else a failure.
abbrev pub verdict_on : CallTurn → Verdict
verdict_on turn = elim turn.do_answer [
  | answered body ↦ success
  | do_failed text transient ↦
      if turn.ended_call then canceled else if transient then failure else success
]

-- The calls that follow an answer of Select.
abbrev pub calls_after :
    Pick → CallTurn → (Uuid → List (Selection × CallTurn)) → List (Selection × CallTurn)
calls_after (unpicked e) turn again = []
calls_after (picked sel) turn again =
    let rest = again sel.id in (sel, turn) ∷ (if goes_on turn then rest else [])

-- The calls of backends in at most so many turns, from the i-th: each of a backend that Select answers
-- with, and after it the next ones as long as they fail over.
unfoldable pub calls_from :
    (ℕ → List Uuid → Pick) → (ℕ → CallTurn) → ℕ → ℕ → List Uuid → List (Selection × CallTurn)
calls_from select turns zero i tried = []
calls_from select turns (suc fuel) i tried =
    calls_after (select i tried) (turns i)
      (λ id. calls_from select turns fuel (suc i) (tried ++ id ∷ []))

abbrev pub backends_of : List InferenceRow → List (Option Uuid)
backends_of rows = map (λ row. row.backend_id) rows

-- From s to s', each call released its backend's slot once, gave its backend one verdict, the one that its
-- turn stands for, and added one row for its backend to the ledger, all in the order of the calls.
abbrev pub Accounts : Stage → List (Selection × CallTurn) → Stage → Type 0
Accounts s calls s' =
    (s'.released ≡ s.released ++ map (λ call. call.0.name) calls)
    × (s'.reports ≡ s.reports ++ map (λ call. (call.0.name, verdict_on call.1)) calls)
    × (backends_of s'.ledger ≡ backends_of s.ledger ++ map (λ call. some call.0.id) calls)

-- The loop has come to a response, and its calls are accounted for.
abbrev pub Served : Stage → List (Selection × CallTurn) → Stage × Option Response → Type 0
Served s calls (s', o) = (o ≢ none) × Accounts s calls s'

-- From s to s': the calls are accounted for; or, for a request that may be cached, no backend is called,
-- and the ledger gets one row without a backend, or none when the request has no canonical text.
abbrev pub Answered : Plan → Stage → List (Selection × CallTurn) → Stage × Option Response → Type 0
Answered plan s calls (s', o) =
    (o ≢ none)
    × (Accounts s calls s'
        ⊎ ((plan.eligible ≡ true)
            × (s'.released ≡ s.released)
            × (s'.reports ≡ s.reports)
            × ((backends_of s'.ledger ≡ backends_of s.ledger ++ none ∷ [])
                ⊎ ((plan.canonical ≡ none) × (s'.ledger ≡ s.ledger)))))

module _ (render : ℕ → String → String → String) (quoted : String → String) (fates : CacheFates)
    (select : ℕ → List Uuid → Pick) (turns : ℕ → CallTurn) (plan : Plan) (pool : List Uuid)
    (s : Stage) where
  abbrev loop_calls : List (Selection × CallTurn)
  loop_calls = calls_from select turns (suc (length pool)) 0 []

-- ===== src/Api/Chat/Cached.antt =====
-- The response cache across two completion requests.
use aegis_route.Base.{
  ℕ, zero, suc, ◌≡◌, refl, sym, ap, ◌∙◌, inl, inr, Bool, true, false, ◌&&◌, not, nat_key,
  string_key, ◌==◌, String, if◌then◌else◌, if-both, Option, none, some, List, [], ◌∷◌, ◌++◌, arith,
  Bool-cases,
}
use aegis_route.Base.Int.{pos}
use aegis_route.Base.Map.{lookup, lookup-insert_self}
use aegis_route.Models.{Uuid}
use aegis_route.Worker.{
  SelectFailure, no_backends, no_capacity, other_failure, DoAnswer, answered, do_failed,
}
use aegis_route.Api.Gate.{Response, json_type, error_response}
use aegis_route.Api.Chat.{
  Stage, Entry, Selection, Pick, picked, unpicked, CallTurn, CacheFates, Plan, hit, miss,
  select_error_parts, upstream_error_parts, record_inference, cache_hit, entry_content_type,
  is_empty, error_parts, call_backend, completed, after_call, after_select, route_from, serve,
  with_canonical, after_get,
}

-- What Put stores of a response.
abbrev pub entry_of : String → Entry
entry_of body = record { status_code = 200; content_type = json_type; body = body }

module _ (render : ℕ → String → String → String) (quoted : String → String) (fates : CacheFates)
    (select : ℕ → List Uuid → Pick) (turns : ℕ → CallTurn) (plan : Plan)
    (stores : (plan.eligible && fates.writes) ≡ true) where
  -- A 200 is in the cache.
  abbrev IsCached : Stage × Option Response → Type 0
  IsCached (s, o) =
      (r : Response)
      → o ≡ some r
      → r.status ≡ 200
      → lookup plan.key s.cache ≡ some (entry_of r.body)

  select_error_status :
      (e : SelectFailure) (failed_over : Bool)
      → ((select_error_parts quoted plan.model e failed_over).0 == 200) ≡ false
  unfolding select_error_parts
  select_error_status no_backends false = refl
  select_error_status no_backends true = refl
  select_error_status no_capacity failed_over = refl
  select_error_status (other_failure text) failed_over = refl

  refusal-IsCached :
      (s : Stage) (parts : ℕ × String × String)
      → (parts.0 == 200) ≡ false
      → IsCached (s, some (error_parts render quoted fates select turns plan miss parts))
  unfolding error_parts error_response
  refusal-IsCached s (status, code, message) other r same is = ground arith

  after_call-IsCached :
      (tried : List Uuid) (turn : CallTurn) (sel : Selection) (x : Stage × Bool) (a : DoAnswer)
      (again : Stage × Option Response)
      → IsCached again
      → IsCached (after_call render quoted fates select turns plan miss tried turn sel x a again)
  unfolding after_call completed upstream_error_parts
  after_call-IsCached tried turn sel (s, failover) (answered body) again rest = λ r same is.
      let same_body : r.body ≡ body = ground arith in
      rw (stores, same_body) (lookup-insert_self plan.key (entry_of body) s.cache)
  after_call-IsCached tried turn sel (s, failover) (do_failed text transient) again rest =
      if-both IsCached (failover && not turn.ended_after) _ _ (λ more. rest)
        (λ done. refusal-IsCached s (upstream_error_parts transient) (bad transient))
    where
      bad : (t : Bool) → ◌==◌ {K = ℕ} (if t then 503 else 502) 200 ≡ false
      bad true = refl
      bad false = refl

  chosen :
      (s : Stage) (i : ℕ) (tried : List Uuid) (p : Pick)
      (again : List Uuid → Stage → Stage × Option Response)
      → ((tried' : List Uuid) (s' : Stage) → IsCached (again tried' s'))
      → IsCached (after_select render quoted fates select turns plan miss tried (turns i) s p again)
  unfolding after_select
  chosen s i tried (unpicked e) again rest =
      refusal-IsCached s (select_error_parts quoted plan.model e (not (is_empty tried)))
        (select_error_status e (not (is_empty tried)))
  chosen s i tried (picked sel) again rest =
      let x = call_backend plan miss s sel (turns i) in
      after_call-IsCached tried (turns i) sel x (turns i).do_answer
        (again (tried ++ sel.id ∷ []) x.0) (rest (tried ++ sel.id ∷ []) x.0)

  route_from-IsCached :
      (fuel i : ℕ) (tried : List Uuid) (s : Stage)
      → IsCached (route_from render quoted fates select turns plan miss fuel i tried s)
  unfolding route_from
  route_from-IsCached zero i tried s = λ r same is. ground arith
  route_from-IsCached (suc fuel) i tried s =
      chosen s i tried (select i tried) _ (λ tried' s'. route_from-IsCached fuel (suc i) tried' s')

module _ (render : ℕ → String → String → String) (quoted : String → String) (fates : CacheFates)
    (select : ℕ → List Uuid → Pick) (turns : ℕ → CallTurn) (plan : Plan) (fuel : ℕ) (s : Stage)
    (canonical : String) (eligible : plan.eligible ≡ true)
    (canonical_is : plan.canonical ≡ some canonical) where
  serve-miss :
      lookup plan.key s.cache ≡ none
      → serve render quoted fates select turns plan fuel s
        ≡ route_from render quoted fates select turns plan miss fuel 0 [] s
  unfolding serve with_canonical after_get
  serve-miss fresh = elim (Bool-cases fates.reads) [
    | inl works ↦ rw (eligible, canonical_is, works, fresh) refl
    | inr down ↦ rw (eligible, canonical_is, down) refl
  ]

  serve-hit :
      (entry : Entry)
      → fates.reads ≡ true
      → lookup plan.key s.cache ≡ some entry
      → serve render quoted fates select turns plan fuel s ≡ (
        (cache_hit render quoted fates select turns plan fuel s entry).0,
        some (cache_hit render quoted fates select turns plan fuel s entry).1,
      )
  unfolding serve with_canonical after_get
  serve-hit entry works found = rw (eligible, canonical_is, works, found) refl

-- A response is served again from the cache. A request that may be cached, found no entry, and got a 200
-- with Redis taking the entry; then the next request of the same caller with the same canonical body,
-- while the entry lives and Redis answers, gets the same body with a 200 as a hit. No backend is asked,
-- and the ledger gets one row without a backend.
pub serve-cached :
    (render : ℕ → String → String → String) (quoted : String → String) (fates fates' : CacheFates)
    (select select' : ℕ → List Uuid → Pick) (turns turns' : ℕ → CallTurn) (plan : Plan)
    (fuel fuel' : ℕ) (s s' : Stage) (canonical : String) (r : Response)
    → plan.eligible ≡ true
    → plan.canonical ≡ some canonical
    → fates.writes ≡ true
    → fates'.reads ≡ true
    → lookup plan.key s.cache ≡ none
    → serve render quoted fates select turns plan fuel s ≡ (s', some r)
    → r.status ≡ 200
    → let again = serve render quoted fates' select' turns' plan fuel' s' in
      (again.1
        ≡ some (record {
          status = 200;
          headers = ("Content-Type", json_type) ∷ ("X-AegisRoute-Cache", "HIT") ∷ [];
          body = r.body;
        }))
      × (again.0 ≡ record_inference s' plan none hit true (pos 0))
unfolding cache_hit entry_content_type
serve-cached render quoted fates fates' select select' turns turns' plan fuel fuel' s s' canonical r
      eligible canonical_is writes reads fresh served fine =
    let routed =
      sym (
        serve-miss render quoted fates select turns plan fuel s canonical eligible canonical_is
          fresh)
      ∙ served in
    let found =
      cached_by (route_from render quoted fates select turns plan miss fuel 0 [] s) routed (
        route_from-IsCached render quoted fates select turns plan (rw (eligible, writes) refl) fuel
          0 [] s) in
    rw
      (serve-hit render quoted fates' select' turns' plan fuel' s' canonical eligible canonical_is
        (entry_of r.body) reads found)
      (refl, refl)
  where
    cached_by :
        (x : Stage × Option Response)
        → x ≡ (s', some r)
        → ((r : Response)
            → x.1 ≡ some r
            → r.status ≡ 200
            → lookup plan.key x.0.cache ≡ some (entry_of r.body))
        → lookup plan.key s'.cache ≡ some (entry_of r.body)
    cached_by x same stored =
        sym (ap (λ y. lookup plan.key y.0.cache) same) ∙ stored r (ap (λ y. y.1) same) fine

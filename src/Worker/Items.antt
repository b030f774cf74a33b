-- ===== src/Worker/Items.antt =====
-- The loop of processItem: its end, and the slots it takes.
use aegis_route.Base.{
  ℕ, zero, suc, ◌+◌, ◌≤◌, ◌<◌, ◌≡◌, ◌≢◌, refl, ap, ◌∙◌, inl, inr, Bool, true, false, ◌&&◌, ◌||◌,
  not, nat_key, string_key, ◌==◌, ==_iff, String, if◌then◌else◌, Option, none, List, [], ◌∷◌, ◌++◌,
  map, length, arith, Bool-cases,
}
use aegis_route.Models.{Uuid}
use aegis_route.Worker.{
  SelectAnswer, selected, refused, DoAnswer, answered, do_failed, Turn, Trace, Verdict, Ending,
  report, call_with, call_backend, after_select, turns_from, run_item, is_answered,
}

-- The id is among the ids.
abbrev pub has : Uuid → List Uuid → Bool
has id [] = false
has id (x ∷ xs) = (x == id) || has id xs

-- How many ids of the pool have not been tried.
abbrev pub untried : List Uuid → List Uuid → ℕ
untried tried [] = 0
untried tried (x ∷ xs) = (if has x tried then 0 else 1) + untried tried xs

-- Select answers with a backend of the pool that has not been tried.
abbrev pub Excludes : List Uuid → (ℕ → List Uuid → SelectAnswer) → Type 0
Excludes pool select =
    (i : ℕ) (tried : List Uuid) (id : Uuid) (name : String)
    → select i tried ≡ selected id name
    → (has id pool ≡ true) × (has id tried ≡ false)

has-append : (x id : Uuid) (xs : List Uuid) → has x (xs ++ id ∷ []) ≡ (has x xs || (id == x))
has-append x id [] = ground arith
has-append x id (y ∷ xs) = ground (arith, has-append x id xs)

untried-append :
    (id : Uuid) (tried pool : List Uuid) → untried (tried ++ id ∷ []) pool ≤ untried tried pool
untried-append id tried [] = omega arith
untried-append id tried (x ∷ xs) = ground (arith, has-append x id tried, untried-append id tried xs)

pub untried-lt :
    (id : Uuid) (tried pool : List Uuid)
    → has id pool ≡ true
    → has id tried ≡ false
    → untried (tried ++ id ∷ []) pool < untried tried pool
untried-lt id tried [] among fresh = ground arith
untried-lt id tried (x ∷ xs) among fresh = elim (Bool-cases (x == id)) [
  | inl same ↦ ground (
    arith,
    ==_iff {K = Uuid} x id,
    has-append x id tried,
    untried-append id tried xs,
    ==_iff {K = Uuid} id x,
  )
  | inr other ↦ ground (
    arith,
    has-append x id tried,
    untried-append id tried xs,
    untried-lt id tried xs (ground arith) fresh,
  )
]

pub untried-length : (pool : List Uuid) → untried [] pool ≡ length pool
untried-length [] = refl
untried-length (x ∷ xs) = omega (arith, untried-length xs)

-- The backends released are those reported, in one order.
abbrev pub Settled : Trace → Type 0
Settled t = map (λ r. r.0) t.reports ≡ t.released

pub map-append_last :
    (rs : List (String × Verdict)) (r : String × Verdict)
    → map (λ r. r.0) (rs ++ r ∷ []) ≡ map (λ r. r.0) rs ++ r.0 ∷ []
map-append_last [] r = refl
map-append_last (x ∷ rs) r = ap (λ l. x.0 ∷ l) (map-append_last rs r)

report-Settled : (t : Trace) (name : String) (v : Verdict) → Settled t → Settled (report t name v)
unfolding report
report-Settled t name v settled =
    map-append_last t.reports (name, v) ∙ ap (λ l. l ++ name ∷ []) settled

call_with-Settled :
    (t : Trace) (name : String) (ended : Bool) (a : DoAnswer)
    → Settled t
    → Settled (call_with t name ended a).0
unfolding call_with
call_with-Settled t name ended (answered body) settled = report-Settled t name _ settled
call_with-Settled t name true (do_failed text transient) settled = report-Settled t name _ settled
call_with-Settled t name false (do_failed text true) settled = report-Settled t name _ settled
call_with-Settled t name false (do_failed text false) settled = report-Settled t name _ settled

abbrev untouched : Trace
untouched = record { released = []; reports = [] }

module _ (quoted : String → String) (select : ℕ → List Uuid → SelectAnswer) (turns : ℕ → Turn) where
  -- What the turns after this one leave, when they are asked for.
  abbrev rest_of : ℕ → ℕ → String → List Uuid → Trace → Option Ending × Trace
  rest_of fuel i model tried t = turns_from quoted select turns fuel (suc i) model tried t

  answer-ends :
      (fuel i : ℕ) (model : String) (tried pool : List Uuid) (t : Trace) (a : SelectAnswer)
      → Excludes pool select
      → select i tried ≡ a
      → untried tried pool < suc fuel
      → ((tried' : List Uuid) (t' : Trace)
          → untried tried' pool < fuel
          → (rest_of fuel i model tried' t').0 ≢ none)
      → (after_select quoted select turns model tried (turns i) t a (rest_of fuel i model)).0 ≢ none
  unfolding after_select
  answer-ends fuel i model tried pool t (refused e) excludes same enough rest = λ q. ground arith
  answer-ends fuel i model tried pool t (selected id name) excludes same enough rest =
      let (among, fresh) = excludes i tried id name same in
      let (t', failover) = call_backend t name (turns i) in
      let later =
        rest (tried ++ id ∷ []) t' (omega (arith, untried-lt id tried pool among fresh)) in
      elim (Bool-cases
        (not (is_answered (turns i).do_answer) && (failover && not (turns i).ended_after))) [
          | inl again ↦ rw again later
          | inr done ↦ rw done (λ q. ground arith)
        ]

  turns_from-ends :
      (fuel i : ℕ) (model : String) (tried pool : List Uuid) (t : Trace)
      → Excludes pool select
      → untried tried pool < fuel
      → (turns_from quoted select turns fuel i model tried t).0 ≢ none
  unfolding turns_from
  turns_from-ends zero i model tried pool t excludes enough = ground arith
  turns_from-ends (suc fuel) i model tried pool t excludes enough =
      let later =
        answer-ends fuel i model tried pool t (select i tried) excludes refl enough
          (λ tried' t' less. turns_from-ends fuel (suc i) model tried' pool t' excludes less) in
      elim (Bool-cases (turns i).ended_before) [
        | inl ended ↦ rw ended (λ q. ground arith)
        | inr going ↦ rw going later
      ]

  answer-Settled :
      (fuel i : ℕ) (model : String) (tried : List Uuid) (t : Trace) (a : SelectAnswer)
      → Settled t
      → ((tried' : List Uuid) (t' : Trace)
          → Settled t'
          → Settled (rest_of fuel i model tried' t').1)
      → Settled
          (after_select quoted select turns model tried (turns i) t a (rest_of fuel i model)).1
  unfolding after_select call_backend
  answer-Settled fuel i model tried t (refused e) settled rest = settled
  answer-Settled fuel i model tried t (selected id name) settled rest =
      let (t', failover) = call_backend t name (turns i) in
      let called = call_with-Settled t name (turns i).ended_call (turns i).do_answer settled in
      elim (Bool-cases
        (not (is_answered (turns i).do_answer) && (failover && not (turns i).ended_after))) [
          | inl again ↦ rw again (rest (tried ++ id ∷ []) t' called)
          | inr done ↦ rw done called
        ]

  turns_from-Settled :
      (fuel i : ℕ) (model : String) (tried : List Uuid) (t : Trace)
      → Settled t
      → Settled (turns_from quoted select turns fuel i model tried t).1
  unfolding turns_from
  turns_from-Settled zero i model tried t settled = settled
  turns_from-Settled (suc fuel) i model tried t settled =
      let later =
        answer-Settled fuel i model tried t (select i tried) settled
          (λ tried' t' s. turns_from-Settled fuel (suc i) model tried' t' s) in
      elim (Bool-cases (turns i).ended_before) [
        | inl ended ↦ rw ended settled
        | inr going ↦ rw going later
      ]

  -- An item is brought to an end: when Select never answers with a backend that was tried and has a
  -- pool of n to choose from, the loop ends within n + 1 turns; and the backends whose slots it
  -- releases are, one for one and in order, those that get a verdict.
  pub run_item-ends :
      (pool : List Uuid) (model : String)
      → Excludes pool select
      → ((run_item quoted select turns (suc (length pool)) model).0 ≢ none)
        × Settled (run_item quoted select turns (suc (length pool)) model).1
  unfolding run_item
  run_item-ends pool model excludes = elim (Bool-cases (model == "")) [
    | inl blank ↦ rw blank ((λ q. ground arith), refl)
    | inr named ↦ rw named (
      turns_from-ends (suc (length pool)) 0 model [] pool untouched excludes
          (omega (arith, untried-length pool)),
      turns_from-Settled (suc (length pool)) 0 model [] untouched refl,
    )
  ]

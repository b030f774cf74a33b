-- ===== src/Worker/Pass/Progress.antt =====
-- How long the pool of a pass can run.
use aegis_route.Base.{
  ℕ, zero, suc, ◌+◌, ◌*◌, ◌≤◌, ◌<◌, ◌≡◌, ◌≢◌, refl, inl, inr, Bool, true, false, nat_key,
  if◌then◌else◌, Option, none, some, List, [], ◌∷◌, arith, Bool-cases, String,
}
use aegis_route.Models.{Uuid, BatchJobItem, ItemStatus}
use aegis_route.Jobs.Store.{
  MemStore, items_of, is_queued, is_terminal, count_status, claim_next_queued_item, ClaimResult,
  claim_none, claim_claimed, claim_exhausted, update_item_terminal,
}
use aegis_route.Jobs.Store.Ids.{update-spares}
use aegis_route.Jobs.Store.Claims.{queued-claim_next}
use aegis_route.Jobs.Store.Counts.{items_of-claim}
use aegis_route.Queue.{Message}
use aegis_route.Worker.{Ending, shut_down, result, finish_item, after_write}
use aegis_route.Worker.Pass.{
  Fate, works, fails, lost, Member, looping, ready, drained, stopped, holding, Pool, Event, tests,
  finishes, panics, ends, elsewhere, get_elem?, set, Printers, all_back, after_claim, claim_step,
  after_finish, finish_step, member_step, moved, pool_step, pool_run,
}

-- How much a goroutine has before it, apart from the items still queued.
abbrev pub weight : Member → ℕ
weight looping = 2
weight ready = 1
weight (holding it) = 3
weight _ = 0

abbrev pub weights : List Member → ℕ
weights [] = 0
weights (m ∷ ms) = weight m + weights ms

abbrev queued : MemStore → Uuid → ℕ
queued s job = count_status is_queued (items_of s job)

-- A bound on the moves that the pool has left.
abbrev pub left_over : Uuid → Pool → ℕ
left_over job p = 3 * queued p.store job + weights p.members

-- The event is the next one of a goroutine in this state.
abbrev fits : Option Member → Event → Bool
fits (some looping) (tests i) = true
fits (some ready) (Event.claims i now fate dlq) = true
fits (some (holding it)) (finishes i now ending fate) = true
fits (some (holding it)) (panics i) = true
fits _ _ = false

-- The event moves a goroutine of the pool.
abbrev pub is_move : Pool → Event → Bool
is_move p (tests i) = fits (get_elem? p.members i) (tests i)
is_move p (Event.claims i now fate dlq) = fits (get_elem? p.members i) (Event.claims i now fate dlq)
is_move p (finishes i now ending fate) = fits (get_elem? p.members i) (finishes i now ending fate)
is_move p (panics i) = fits (get_elem? p.members i) (panics i)
is_move p _ = false

weights-set :
    (ms : List Member) (i : ℕ) (m m' : Member)
    → get_elem? ms i ≡ some m
    → weights (set ms i m') + weight m ≡ weights ms + weight m'
weights-set [] i m m' at = ground arith
weights-set (x ∷ ms) zero m m' at = ground arith
weights-set (x ∷ ms) (suc i) m m' at = omega (arith, weights-set ms i m m' at)

-- What a claim's answer says of the items that left the queue.
abbrev taken : ClaimResult → ℕ
taken claim_none = 0
taken (claim_claimed it) = 1
taken (claim_exhausted it) = 1

queued-claim :
    (s : MemStore) (now : ℕ) (job : Uuid) (max : ℕ)
    → let (s', r) = claim_next_queued_item s now job max in taken r + queued s' job ≡ queued s job
queued-claim s now job max =
    rw (items_of-claim s now job max)
      (unfold claim_next_queued_item in queued-claim_next now max (items_of s job))

queued-update :
    (s : MemStore) (now : ℕ) (id : Uuid) (status : ItemStatus) (response error : Option String)
    (job : Uuid)
    → queued (update_item_terminal s now id status response error).0 job ≤ queued s job
queued-update s now id status response error job = elim (Bool-cases (is_terminal status)) [
  | inl final ↦ (update-spares now id status response error final s job).1
  | inr other ↦ unfold update_item_terminal in rw other (omega arith)
]

-- Another process's call is no event of the pool itself.
abbrev pub IsOwn : Event → Type 0
IsOwn (elsewhere now op) = ⊥
IsOwn _ = Unit {0}

abbrev pub AllOwn : List Event → Type 0
AllOwn [] = Unit {0}
AllOwn (e ∷ es) = IsOwn e × AllOwn es

module _ (print : Printers) (max : ℕ) (msg : Message) (job : Uuid) where
  after_claim-falls :
      (p : Pool) (i : ℕ) (dlq : Fate) (s : MemStore) (r : ClaimResult)
      → get_elem? p.members i ≡ some ready
      → taken r + queued s job ≡ queued p.store job
      → left_over job (after_claim print max msg job (record p { store = s }) i dlq r)
        < left_over job p
  unfolding after_claim
  after_claim-falls p i dlq s claim_none at less =
      omega (arith, less, weights-set p.members i ready drained at)
  after_claim-falls p i dlq s (claim_claimed it) at less =
      omega (arith, less, weights-set p.members i ready (holding it) at)
  after_claim-falls p i dlq s (claim_exhausted it) at less =
      omega (arith, less, weights-set p.members i ready looping at)

  claim_step-falls :
      (p : Pool) (i now : ℕ) (fate dlq : Fate)
      → get_elem? p.members i ≡ some ready
      → left_over job (claim_step print max msg job p i now fate dlq) < left_over job p
  unfolding claim_step
  claim_step-falls p i now works dlq at =
      after_claim-falls p i dlq (claim_next_queued_item p.store now job max).0
        (claim_next_queued_item p.store now job max).1 at (queued-claim p.store now job max)
  claim_step-falls p i now fails dlq at = omega (arith, weights-set p.members i ready stopped at)
  claim_step-falls p i now lost dlq at =
      omega (arith, queued-claim p.store now job max, weights-set p.members i ready stopped at)

  finish_step-falls :
      (p : Pool) (i now : ℕ) (it : BatchJobItem) (ending : Ending) (fate : Fate)
      → get_elem? p.members i ≡ some (holding it)
      → left_over job (finish_step p i now it.id ending fate) < left_over job p
  unfolding finish_step finish_item after_finish after_write
  finish_step-falls p i now it shut_down fate at =
      omega (arith, weights-set p.members i (holding it) stopped at)
  finish_step-falls p i now it (result status response error) fate at = ground (
    arith,
    at,
    queued-update p.store now it.id status response error job,
    weights-set p.members i (holding it) stopped at,
    weights-set p.members i (holding it) looping at,
  )

  member_step-falls :
      (p : Pool) (i : ℕ) (m : Member) (e : Event)
      → get_elem? p.members i ≡ some m
      → left_over job (member_step print max msg job p i m e) + (if fits (some m) e then 1 else 0)
        ≤ left_over job p
  unfolding member_step
  member_step-falls p i looping (tests j) at =
      ground (
        arith,
        weights-set p.members i looping stopped at,
        weights-set p.members i looping ready at,
      )
  member_step-falls p i ready (Event.claims j now fate dlq) at =
      omega (arith, claim_step-falls p i now fate dlq at)
  member_step-falls p i (holding it) (finishes j now ending fate) at =
      omega (arith, finish_step-falls p i now it ending fate at)
  member_step-falls p i (holding it) (panics j) at =
      omega (arith, weights-set p.members i (holding it) stopped at)
  member_step-falls p i m e at = omega arith

  moved-falls :
      (p : Pool) (i : ℕ) (o : Option Member) (e : Event)
      → get_elem? p.members i ≡ o
      → left_over job (moved print max msg job p i o e) + (if fits o e then 1 else 0)
        ≤ left_over job p
  unfolding moved
  moved-falls p i none e at = ground arith
  moved-falls p i (some m) e at = member_step-falls p i m e at

  pool_step-falls :
      (p : Pool) (e : Event)
      → IsOwn e
      → left_over job (pool_step print max msg job p e) + (if is_move p e then 1 else 0)
        ≤ left_over job p
  unfolding pool_step
  pool_step-falls p (tests i) own = moved-falls p i (get_elem? p.members i) (tests i) refl
  pool_step-falls p (Event.claims i now fate dlq) own =
      moved-falls p i (get_elem? p.members i) (Event.claims i now fate dlq) refl
  pool_step-falls p (finishes i now ending fate) own =
      moved-falls p i (get_elem? p.members i) (finishes i now ending fate) refl
  pool_step-falls p (panics i) own = moved-falls p i (get_elem? p.members i) (panics i) refl
  pool_step-falls p ends own = omega arith
  pool_step-falls p (elsewhere now op) own = absurd own

  -- How many of the events move a goroutine.
  abbrev pub moves : Pool → List Event → ℕ
  moves p [] = 0
  moves p (e ∷ es) = (if is_move p e then 1 else 0) + moves (pool_step print max msg job p e) es

  moves_le :
      (p : Pool) (es : List Event)
      → AllOwn es
      → moves p es + left_over job (pool_run print max msg job p es) ≤ left_over job p
  unfolding pool_run
  moves_le p [] own = omega arith
  moves_le p (e ∷ es) (here, later) =
      omega (arith, pool_step-falls p e here, moves_le (pool_step print max msg job p e) es later)

next_move :
    (ms : List Member)
    → all_back ms ≡ false
    → (i : ℕ) × (m : Member) × (get_elem? ms i ≡ some m) × (weight m ≢ 0)
next_move [] waits = ground arith
next_move (looping ∷ ms) waits = (0, looping, refl, λ e. ground arith)
next_move (ready ∷ ms) waits = (0, ready, refl, λ e. ground arith)
next_move (holding it ∷ ms) waits = (0, holding it, refl, λ e. ground arith)
next_move (drained ∷ ms) waits = let (i, m, at, busy) = next_move ms waits in (suc i, m, at, busy)
next_move (stopped ∷ ms) waits = let (i, m, at, busy) = next_move ms waits in (suc i, m, at, busy)

fitting :
    (p : Pool) (i : ℕ) (m : Member)
    → get_elem? p.members i ≡ some m
    → weight m ≢ 0
    → (e : Event) × (is_move p e ≡ true)
fitting p i looping at busy = (tests i, rw at refl)
fitting p i ready at busy = (Event.claims i 0 works works, rw at refl)
fitting p i (holding it) at busy =
    (finishes i 0 (result ItemStatus.failed none none) works, rw at refl)
fitting p i drained at busy = absurd (busy refl)
fitting p i stopped at busy = absurd (busy refl)

-- The pool comes to an end. However long the list of its own events, the moves among them and the bound
-- that is left at the end (three for each queued item, and up to three for each goroutine) are no more
-- than the bound at the start, whatever the calls answer; and while some goroutine has not returned a
-- move is possible.
pub pool-terminates :
    (print : Printers) (max : ℕ) (msg : Message) (job : Uuid) (p : Pool) (es : List Event)
    → AllOwn es
    → let p' = pool_run print max msg job p es in
      (moves print max msg job p es + left_over job p' ≤ left_over job p)
      × (all_back p'.members ≡ false → (e : Event) × (is_move p' e ≡ true))
pool-terminates print max msg job p es own = (
  moves_le print max msg job p es own,
  λ waits.
      let p' = pool_run print max msg job p es in
      let (i, m, at, busy) = next_move p'.members waits in fitting p' i m at busy,
)

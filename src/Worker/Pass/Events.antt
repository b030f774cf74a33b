-- ===== src/Worker/Pass/Events.antt =====
-- Every event of the pool keeps the invariant of the pass.
use aegis_route.Base.{
  ℕ, ◌≡◌, refl, sym, inl, inr, true, false, nat_key, ◌==◌, ==_iff, if◌then◌else◌, Option, none,
  some, List, [], ◌∷◌, arith, Bool-cases, String,
}
use aegis_route.Base.Map.{lookup}
use aegis_route.Models.{Uuid, BatchJobItem, ItemStatus}
use aegis_route.Jobs.Store.{
  MemStore, StoreError, not_found, not_terminal, items_of, is_terminal, claim_next_queued_item,
  ClaimResult, claim_none, claim_claimed, claim_exhausted, update_item_terminal,
}
use aegis_route.Jobs.Store.Items.{Op, updates, step}
use aegis_route.Jobs.Store.Ids.{step-HasUniqueIds, update-closes, update-spares}
use aegis_route.Jobs.Store.Outcome.{is_silent}
use aegis_route.Jobs.Store.Final.{silent-HasCount}
use aegis_route.Queue.{Message}
use aegis_route.Worker.{Counters, Ending, shut_down, result, finish_item, after_write}
use aegis_route.Worker.Pass.{
  Fate, is_error, Member, looping, ready, drained, stopped, holding, Pool, Event, tests, finishes,
  panics, ends, elsewhere, get_elem?, set, goes, Printers, after_claim, claim_step, after_finish,
  finish_step, member_step, moved, pool_step, pool_run,
}
use aegis_route.Worker.Pass.Steps.{
  holds, is_drained, is_stopped, IsSound, Invariant, IsApart, tally-set, goes-IsSound,
  claimed-IsSound,
}

-- What is sound is read off the store, the goroutines and the context.
IsSound-same :
    (job : Uuid) (p q : Pool)
    → q.store ≡ p.store
    → q.members ≡ p.members
    → q.ended ≡ p.ended
    → IsSound job p
    → IsSound job q
IsSound-same job p q s m e sound = record {
  unique = rw s sound.unique;
  counted = rw s sound.counted;
  held = λ x. rw (s, m) (sound.held x);
  empty = rw (s, m) sound.empty;
  left = rw (m, e) sound.left;
}

module _ (print : Printers) (max : ℕ) (msg : Message) (job : Uuid) where
  after_claim-IsSound :
      (p : Pool) (i now : ℕ) (dlq : Fate) (r : ClaimResult)
      → get_elem? p.members i ≡ some ready
      → (claim_next_queued_item p.store now job max).1 ≡ r
      → IsSound job p
      → IsSound job (
          after_claim print max msg job
            (record p { store = (claim_next_queued_item p.store now job max).0 })
            i
            dlq
            r)
  unfolding after_claim
  after_claim-IsSound p i now dlq claim_none at is sound =
      claimed-IsSound job p i now max drained claim_none at is (λ x. refl) (λ e. refl) refl sound
  after_claim-IsSound p i now dlq (claim_claimed it) at is sound =
      claimed-IsSound job p i now max (holding it) (claim_claimed it) at is (λ x. refl)
        (λ e. ground arith) refl sound
  after_claim-IsSound p i now dlq (claim_exhausted it) at is sound =
      IsSound-same job
        (goes (record p { store = (claim_next_queued_item p.store now job max).0 }) i looping) _
        refl refl refl
        (claimed-IsSound job p i now max looping (claim_exhausted it) at is (λ x. refl)
          (λ e. ground arith) refl sound)

  claim_step-Invariant :
      (p : Pool) (i now : ℕ) (fate dlq : Fate)
      → get_elem? p.members i ≡ some ready
      → IsSound job p
      → Invariant job (claim_step print max msg job p i now fate dlq)
  unfolding claim_step
  claim_step-Invariant p i now fate dlq at sound = elim (Bool-cases (is_error fate)) [
    | inl bad ↦ rw bad (λ whole. ground arith)
    | inr good ↦ rw good (λ whole. after_claim-IsSound p i now dlq _ at refl sound)
  ]

  -- The goroutine has written its item's result, whatever the store answered.
  written-IsSound :
      (p : Pool) (i now : ℕ) (it : BatchJobItem) (status : ItemStatus)
      (response error : Option String) (counters : Counters)
      → get_elem? p.members i ≡ some (holding it)
      → is_terminal status ≡ true
      → IsSound job p
      → IsSound job (record p {
        store = (update_item_terminal p.store now it.id status response error).0;
        counters = counters;
        members = set p.members i looping;
      })
  written-IsSound p i now it status response error counters at final sound =
      let closed = update-closes now it.id status response error final p.store job sound.unique in
      let (others, fewer) = update-spares now it.id status response error final p.store job in
      record {
        unique =
            unfold step in
            step-HasUniqueIds p.store now (updates it.id status response error) sound.unique;
        counted =
            unfold step in
            silent-HasCount p.store now (updates it.id status response error) job
              (unfold is_silent in refl) sound.counted;
        held = λ x. elim (Bool-cases (it.id == x)) [
          | inl same ↦ rw (sym ((==_iff {K = Uuid} it.id x).0 same)) (omega (arith, closed))
          | inr apart ↦ ground (
            arith,
            apart,
            others x apart,
            sound.held x,
            tally-set (holds x) p.members i (holding it) looping at,
          )
        ];
        empty = λ some_drained. omega (
          arith,
          fewer,
          sound.empty (
              ground
                (arith, some_drained, tally-set is_drained p.members i (holding it) looping at)),
        );
        left = λ some_stopped. sound.left (
            ground (arith, some_stopped, tally-set is_stopped p.members i (holding it) looping at));
      }

  -- An update with a status that is not terminal is refused.
  refused :
      (s : MemStore) (now : ℕ) (id : Uuid) (status : ItemStatus) (response error : Option String)
      → is_terminal status ≡ false
      → (update_item_terminal s now id status response error).1 ≡ some not_terminal
  unfolding update_item_terminal
  refused s now id status response error other = rw other refl

  after_finish-Invariant :
      (p : Pool) (i : ℕ) (s : MemStore) (m : Counters) (status : ItemStatus) (e : Option StoreError)
      → ((counters : Counters)
          → is_terminal status ≡ true
          → IsSound job
              (record p { store = s; counters = counters; members = set p.members i looping }))
      → (is_terminal status ≡ false → e ≡ some not_terminal)
      → Invariant job (after_finish p i (s, (after_write m status e).0, (after_write m status e).1))
  unfolding after_finish after_write
  after_finish-Invariant p i s m status none sound bad = elim (Bool-cases (is_terminal status)) [
    | inl final ↦ λ whole. sound _ final
    | inr other ↦ λ whole. ground (arith, bad other)
  ]
  after_finish-Invariant p i s m status (some not_found) sound bad =
      elim (Bool-cases (is_terminal status)) [
        | inl final ↦ λ whole. sound _ final
        | inr other ↦ λ whole. ground (arith, bad other)
      ]
  after_finish-Invariant p i s m status (some not_terminal) sound bad = λ whole. ground arith

  finish_step-Invariant :
      (p : Pool) (i now : ℕ) (it : BatchJobItem) (ending : Ending) (fate : Fate)
      → get_elem? p.members i ≡ some (holding it)
      → IsSound job p
      → Invariant job (finish_step p i now it.id ending fate)
  unfolding finish_step finish_item
  finish_step-Invariant p i now it shut_down fate at sound = λ whole. ground arith
  finish_step-Invariant p i now it (result status response error) fate at sound =
      elim (Bool-cases (is_error fate)) [
        | inl bad ↦ rw bad (λ whole. ground arith)
        | inr good ↦ rw good (
            after_finish-Invariant p i
              (update_item_terminal p.store now it.id status response error).0 p.counters status _
              (λ counters final.
                written-IsSound p i now it status response error counters at final sound)
              (refused p.store now it.id status response error))
      ]

  tests-IsSound :
      (p : Pool) (i : ℕ)
      → get_elem? p.members i ≡ some looping
      → IsSound job p
      → IsSound job (goes p i (if p.ended then stopped else ready))
  tests-IsSound p i at sound = elim (Bool-cases p.ended) [
    | inl over ↦
        goes-IsSound job p i looping (if p.ended then stopped else ready) at (λ x. refl)
          (λ e. ground (arith, over)) (λ e. over) sound
    | inr on ↦
        goes-IsSound job p i looping (if p.ended then stopped else ready) at (λ x. refl)
          (λ e. ground (arith, on)) (λ e. ground (arith, on)) sound
  ]

  member_step-Invariant :
      (p : Pool) (i : ℕ) (m : Member) (e : Event)
      → get_elem? p.members i ≡ some m
      → IsSound job p
      → Invariant job (member_step print max msg job p i m e)
  unfolding member_step
  member_step-Invariant p i looping (tests j) at sound = λ whole. tests-IsSound p i at sound
  member_step-Invariant p i ready (Event.claims j now fate dlq) at sound =
      claim_step-Invariant p i now fate dlq at sound
  member_step-Invariant p i (holding it) (finishes j now ending fate) at sound =
      finish_step-Invariant p i now it ending fate at sound
  member_step-Invariant p i (holding it) (panics j) at sound = λ whole. ground arith
  member_step-Invariant p i m e at sound = λ whole. sound

  moved-Invariant :
      (p : Pool) (i : ℕ) (o : Option Member) (e : Event)
      → get_elem? p.members i ≡ o
      → Invariant job p
      → p.broken ≡ false
      → Invariant job (moved print max msg job p i o e)
  unfolding moved
  moved-Invariant p i none e at inv whole = inv
  moved-Invariant p i (some m) e at inv whole = member_step-Invariant p i m e at (inv whole)

  member_step-broken :
      (p : Pool) (i : ℕ) (m : Member) (e : Event)
      → p.broken ≡ true
      → (member_step print max msg job p i m e).broken ≡ true
  unfolding member_step claim_step after_claim finish_step after_finish
  member_step-broken p i m e broken = ground arith

  -- A broken pass stays broken.
  moved-broken :
      (p : Pool) (i : ℕ) (o : Option Member) (e : Event)
      → p.broken ≡ true
      → (moved print max msg job p i o e).broken ≡ true
  unfolding moved
  moved-broken p i none e broken = broken
  moved-broken p i (some m) e broken = member_step-broken p i m e broken

  moves-Invariant :
      (p : Pool) (i : ℕ) (e : Event)
      → Invariant job p
      → Invariant job (moved print max msg job p i (get_elem? p.members i) e)
  moves-Invariant p i e inv whole = elim (Bool-cases p.broken) [
    | inl broken ↦ ground (arith, whole, moved-broken p i (get_elem? p.members i) e broken)
    | inr fine ↦ moved-Invariant p i (get_elem? p.members i) e refl inv fine whole
  ]

  ends-IsSound : (p : Pool) → IsSound job p → IsSound job (record p { ended = true })
  ends-IsSound p sound = record {
    unique = sound.unique;
    counted = sound.counted;
    held = sound.held;
    empty = sound.empty;
    left = λ some_stopped. refl;
  }

  elsewhere-IsSound :
      (p : Pool) (now : ℕ) (op : Op)
      → items_of (step p.store now op) job ≡ items_of p.store job
      → lookup job (step p.store now op).jobs ≡ lookup job p.store.jobs
      → IsSound job p
      → IsSound job (record p { store = step p.store now op })
  elsewhere-IsSound p now op items jobs sound =
      let (j, found, count) = sound.counted in
      record {
        unique = step-HasUniqueIds p.store now op sound.unique;
        counted = (j, rw jobs found, rw items count);
        held = λ x. rw items (sound.held x);
        empty = λ some_drained. rw items (sound.empty some_drained);
        left = sound.left;
      }

  pub pool_step-Invariant :
      (p : Pool) (e : Event)
      → IsApart job p e
      → Invariant job p
      → Invariant job (pool_step print max msg job p e)
  unfolding pool_step
  pool_step-Invariant p (tests i) apart inv = moves-Invariant p i (tests i) inv
  pool_step-Invariant p (Event.claims i now fate dlq) apart inv =
      moves-Invariant p i (Event.claims i now fate dlq) inv
  pool_step-Invariant p (finishes i now ending fate) apart inv =
      moves-Invariant p i (finishes i now ending fate) inv
  pool_step-Invariant p (panics i) apart inv = moves-Invariant p i (panics i) inv
  pool_step-Invariant p ends apart inv = λ whole. ends-IsSound p (inv whole)
  pool_step-Invariant p (elsewhere now op) (items, jobs) inv =
      λ whole. elsewhere-IsSound p now op items jobs (inv whole)

  -- No other process touches the job during the events.
  abbrev pub IsAlone : Pool → List Event → Type 0
  IsAlone p [] = Unit {0}
  IsAlone p (e ∷ es) = IsApart job p e × IsAlone (pool_step print max msg job p e) es

  pub pool_run-Invariant :
      (p : Pool) (es : List Event)
      → IsAlone p es
      → Invariant job p
      → Invariant job (pool_run print max msg job p es)
  unfolding pool_run
  pool_run-Invariant p [] alone inv = inv
  pool_run-Invariant p (e ∷ es) (apart, alone) inv =
      pool_run-Invariant (pool_step print max msg job p e) es alone
        (pool_step-Invariant p e apart inv)

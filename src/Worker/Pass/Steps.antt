-- ===== src/Worker/Pass/Steps.antt =====
-- The invariant of the pool of a pass, and the events that keep it.
use aegis_route.Base.{
  ℕ, zero, suc, ◌+◌, ◌≤◌, ◌<◌, ◌≡◌, refl, ap, ◌∙◌, inl, inr, Bool, true, false, nat_key, ◌==◌,
  if◌then◌else◌, some, List, [], ◌∷◌, arith, Bool-cases, tally, length,
}
use aegis_route.Base.Map.{lookup}
use aegis_route.Models.{Uuid, BatchJobItem}
use aegis_route.Jobs.Store.{
  items_of, is_queued, count_status, claim_next_queued_item, ClaimResult, claim_none, claim_claimed,
  claim_exhausted,
}
use aegis_route.Jobs.Store.Items.{claims, step}
use aegis_route.Jobs.Store.Ids.{live, HasUniqueIds, step-HasUniqueIds}
use aegis_route.Jobs.Store.Counts.{handed, NoneQueued, claim-counts}
use aegis_route.Jobs.Store.Outcome.{is_silent}
use aegis_route.Jobs.Store.Final.{HasCount, silent-HasCount}
use aegis_route.Worker.Pass.{
  Member, ready, drained, stopped, holding, Pool, Event, elsewhere, get_elem?, set, goes,
}

abbrev pub holds : Uuid → Member → Bool
holds x (holding it) = it.id == x
holds x _ = false

abbrev pub is_drained : Member → Bool
is_drained drained = true
is_drained _ = false

abbrev pub is_stopped : Member → Bool
is_stopped stopped = true
is_stopped _ = false

-- While the pass is not broken: ids are unique, the job is counted, a running item of the job is held by
-- a goroutine, nothing is queued once a goroutine has found nothing, and a goroutine gives up only when
-- the context has ended.
pub record IsSound (job : Uuid) (p : Pool) : Type 0 where
  pub unique : HasUniqueIds p.store
  pub counted : HasCount p.store job
  pub held : (x : Uuid) → live x (items_of p.store job) ≤ tally (holds x) p.members
  pub empty : 0 < tally is_drained p.members → count_status is_queued (items_of p.store job) ≡ 0
  pub left : 0 < tally is_stopped p.members → p.ended ≡ true

abbrev pub Invariant : Uuid → Pool → Type 0
Invariant job p = p.broken ≡ false → IsSound job p

-- The event is not another process's, or leaves the job and its items as they are.
abbrev pub IsApart : Uuid → Pool → Event → Type 0
IsApart job p (elsewhere now op) =
    (items_of (step p.store now op) job ≡ items_of p.store job)
    × (lookup job (step p.store now op).jobs ≡ lookup job p.store.jobs)
IsApart job p _ = Unit {0}

pub tally-set :
    (q : Member → Bool) (ms : List Member) (i : ℕ) (m m' : Member)
    → get_elem? ms i ≡ some m
    → tally q (set ms i m') + (if q m then 1 else 0) ≡ tally q ms + (if q m' then 1 else 0)
tally-set q [] i m m' at = ground arith
tally-set q (x ∷ ms) zero m m' at = ground arith
tally-set q (x ∷ ms) (suc i) m m' at = omega (arith, tally-set q ms i m m' at)

pub length-set : (ms : List Member) (i : ℕ) (m : Member) → length (set ms i m) ≡ length ms
length-set [] i m = refl
length-set (x ∷ ms) zero m = refl
length-set (x ∷ ms) (suc i) m = ap suc (length-set ms i m)

module _ (job : Uuid) where
  -- A goroutine goes on from m to m' over the same store.
  pub goes-IsSound :
      (p : Pool) (i : ℕ) (m m' : Member)
      → get_elem? p.members i ≡ some m
      → ((x : Uuid) → holds x m ≡ false)
      → (is_drained m' ≡ true → count_status is_queued (items_of p.store job) ≡ 0)
      → (is_stopped m' ≡ true → p.ended ≡ true)
      → IsSound job p
      → IsSound job (goes p i m')
  goes-IsSound p i m m' at free none_left gone sound = record {
    unique = sound.unique;
    counted = sound.counted;
    held = λ x. ground (arith, sound.held x, free x, tally-set (holds x) p.members i m m' at);
    empty = λ some_drained. elim (Bool-cases (is_drained m')) [
      | inl here ↦ none_left here
      | inr other ↦
          sound.empty
            (ground (arith, other, some_drained, tally-set is_drained p.members i m m' at))
    ];
    left = λ some_stopped. elim (Bool-cases (is_stopped m')) [
      | inl here ↦ gone here
      | inr other ↦
          sound.left (ground (arith, other, some_stopped, tally-set is_stopped p.members i m m' at))
    ];
  }

  -- The pool after a claim that hands out what the goroutine goes on to hold.
  pub claimed-IsSound :
      (p : Pool) (i now max : ℕ) (m' : Member) (r : ClaimResult)
      → get_elem? p.members i ≡ some ready
      → (claim_next_queued_item p.store now job max).1 ≡ r
      → ((x : Uuid) → handed x r ≡ (if holds x m' then 1 else 0))
      → (is_drained m' ≡ true → r ≡ claim_none)
      → is_stopped m' ≡ false
      → IsSound job p
      → IsSound job
          (goes (record p { store = (claim_next_queued_item p.store now job max).0 }) i m')
  claimed-IsSound p i now max m' r at is takes drains going sound =
      let (lives, fewer, noned) = claim-counts p.store now job max in
      let queued_none : r ≡ claim_none → count_status is_queued (items_of p.store job) ≡ 0 = λ e.
        nothing (items_of p.store job) (claim_next_queued_item p.store now job max).1 (is ∙ e)
          noned in
      record {
        unique = unfold step in step-HasUniqueIds p.store now (claims job max) sound.unique;
        counted =
            unfold step in
            silent-HasCount p.store now (claims job max) job (unfold is_silent in refl)
              sound.counted;
        held = λ x. ground (
          arith,
          sound.held x,
          lives x,
          is,
          takes x,
          tally-set (holds x) p.members i ready m' at,
        );
        empty = λ some_drained. elim (Bool-cases (is_drained m')) [
          | inl here ↦ omega (arith, fewer, queued_none (drains here))
          | inr other ↦ omega (
            arith,
            fewer,
            sound.empty
                (ground (arith, other, some_drained, tally-set is_drained p.members i ready m' at)),
          )
        ];
        left = λ some_stopped.
            sound.left
              (ground (arith, going, some_stopped, tally-set is_stopped p.members i ready m' at));
      }
    where
      nothing :
          (its : List BatchJobItem) (r : ClaimResult)
          → r ≡ claim_none
          → NoneQueued its r
          → count_status is_queued its ≡ 0
      nothing its claim_none e h = h
      nothing its (claim_claimed it) e h = ground arith
      nothing its (claim_exhausted it) e h = ground arith

-- ===== src/Jobs/Store/Claims.antt =====
-- What a claim hands out.
use aegis_route.Base.{
  ℕ, ◌+◌, ◌≤◌, ◌≡◌, refl, ap, true, false, nat_key, ltb, some, List, [], ◌∷◌, ◌++◌, arith, All,
  Bool-cases, inl, inr,
}
use aegis_route.Models.{BatchJobItem, ItemStatus}
use aegis_route.Jobs.Store.{
  is_queued, claim_next, ClaimResult, claim_none, claim_claimed, claim_exhausted, count_status,
  exhausted_error,
}

abbrev pub IsWaiting : BatchJobItem → Type 0
IsWaiting it = is_queued it.status ≡ true

abbrev pub IsBusy : BatchJobItem → Type 0
IsBusy it = is_queued it.status ≡ false

-- The item handed out: the first queued one, running, with one attempt more, and within the limit.
pub record Claimed (max : ℕ) (its out : List BatchJobItem) (got : BatchJobItem) : Type 0 where
  pub before : List BatchJobItem
  pub item : BatchJobItem
  pub after : List BatchJobItem
  pub split : its ≡ before ++ item ∷ after
  pub skipped : All IsBusy before
  pub waits : IsWaiting item
  pub allowed : item.attempts + 1 ≤ max
  pub runs : got.status ≡ ItemStatus.running
  pub counted : got.attempts ≡ item.attempts + 1
  pub same : got.id ≡ item.id
  pub result : out ≡ before ++ got ∷ after

-- The item given up: the first queued one, failed, because its attempts have run out.
pub record Exhausted (max : ℕ) (its out : List BatchJobItem) (got : BatchJobItem) : Type 0 where
  pub before : List BatchJobItem
  pub item : BatchJobItem
  pub after : List BatchJobItem
  pub split : its ≡ before ++ item ∷ after
  pub skipped : All IsBusy before
  pub waits : IsWaiting item
  pub spent : max ≤ item.attempts
  pub fails : got.status ≡ ItemStatus.failed
  pub reason : got.error ≡ some (exhausted_error item.attempts max)
  pub same : got.id ≡ item.id
  pub result : out ≡ before ++ got ∷ after

abbrev pub Claims : ℕ → List BatchJobItem → List BatchJobItem × ClaimResult → Type 0
Claims max its (out, claim_none) = (out ≡ its) × All IsBusy its
Claims max its (out, claim_claimed it) = Claimed max its out it
Claims max its (out, claim_exhausted it) = Exhausted max its out it

Claims-cons :
    (max : ℕ) (it : BatchJobItem) (its out : List BatchJobItem) (r : ClaimResult)
    → IsBusy it
    → Claims max its (out, r)
    → Claims max (it ∷ its) (it ∷ out, r)
Claims-cons max it its out claim_none busy (e, all) = (rw e, (busy, all))
Claims-cons max it its out (claim_claimed got) busy c = record {
  before = it ∷ c.before;
  item = c.item;
  after = c.after;
  split = ap (◌∷◌ it) c.split;
  skipped = (busy, c.skipped);
  waits = c.waits;
  allowed = c.allowed;
  runs = c.runs;
  counted = c.counted;
  same = c.same;
  result = ap (◌∷◌ it) c.result;
}
Claims-cons max it its out (claim_exhausted got) busy c = record {
  before = it ∷ c.before;
  item = c.item;
  after = c.after;
  split = ap (◌∷◌ it) c.split;
  skipped = (busy, c.skipped);
  waits = c.waits;
  spent = c.spent;
  fails = c.fails;
  reason = c.reason;
  same = c.same;
  result = ap (◌∷◌ it) c.result;
}

-- A claim takes the first queued item and no other: it hands the item out with one attempt more
-- while that is within the limit, fails it for good when it is not, and finds nothing exactly when
-- no item is queued.
pub claim_next-Claims :
    (now max : ℕ) (its : List BatchJobItem) → Claims max its (claim_next now max its)
unfolding claim_next
claim_next-Claims now max [] = (refl, tt)
claim_next-Claims now max (it ∷ its) = elim (Bool-cases (is_queued it.status)) [
  | inl waits ↦ elim (Bool-cases (ltb max (it.attempts + 1))) [
    | inl over ↦ rw waits (
        rw over (record {
          before = [];
          item = it;
          after = its;
          split = refl;
          skipped = tt;
          waits = waits;
          spent = ground arith;
          fails = refl;
          reason = refl;
          same = refl;
          result = refl;
        }))
    | inr under ↦ rw waits (
        rw under (record {
          before = [];
          item = it;
          after = its;
          split = refl;
          skipped = tt;
          waits = waits;
          allowed = ground arith;
          runs = refl;
          counted = refl;
          same = refl;
          result = refl;
        }))
  ]
  | inr busy ↦ rw busy (Claims-cons max it its _ _ busy (claim_next-Claims now max its))
]

pub queued-claim_next :
    (now max : ℕ) (its : List BatchJobItem)
    → (elim (claim_next now max its).1 as (λ r. ℕ) [
      | claim_none ↦ 0
      | claim_claimed it ↦ 1
      | claim_exhausted it ↦ 1
    ])
        + count_status is_queued (claim_next now max its).0
      ≡ count_status is_queued its
unfolding claim_next count_status
queued-claim_next now max [] = refl
queued-claim_next now max (it ∷ its) = ground (arith, queued-claim_next now max its)

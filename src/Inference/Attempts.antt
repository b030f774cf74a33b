-- ===== src/Inference/Attempts.antt =====
-- The attempts of a call, and its waits.
use aegis_route.Base.{
  ℕ, zero, suc, ◌+◌, ◌≤◌, ◌<◌, ◌≡◌, refl, ◌⊎◌, inl, inr, Bool, true, false, ◌&&◌, not, String,
  arith, Bool-cases, All, All-append,
}
use Prim.Native.Nat.{pred}
use aegis_route.Inference.Backoff.{IsJitter, backoff-le-max}
use aegis_route.Inference.{
  Client, Round, Result, Trace, attempt, failure, context_ended, is_transient, retry, do_call, wait,
  count_retry, observe, ends,
}

compare-cases : (i j : ℕ) → i < suc j → (i < j) ⊎ (i ≡ j)
compare-cases i j below = ground arith

abbrev pub before_last : ℕ → ℕ
before_last zero = 0
before_last (suc k) = k

below_one : (i : ℕ) → i < 1 → i ≡ 0
below_one i below = omega arith

module _ (int63n : ℕ → ℕ → ℕ) (c : Client) (backend : String) (rounds : ℕ → Round) where
  -- The result of the attempt of the i-th round, from 0.
  abbrev pub result_of : ℕ → Result
  result_of i = (attempt c backend (rounds i)).0

  -- The i-th attempt may be followed by another: its failure is transient and the caller waits.
  abbrev pub is_retriable : ℕ → Bool
  is_retriable i = is_transient (result_of i) && not (rounds i).ended_after

  -- The call ended after k attempts: all but the last were retriable, and either the last decided it,
  -- or the context ended in the wait for one more.
  abbrev pub Ended : ℕ → Result → Type 0
  Ended k result =
      (0 < k)
      × (k ≤ c.max_attempts)
      × ((i : ℕ) → suc i < k → is_retriable i ≡ true)
      × (((result ≡ result_of (before_last k))
            × ((is_retriable (before_last k) ≡ false) ⊎ (k ≡ c.max_attempts)))
          ⊎ ((result ≡ failure backend 0 false context_ended)
              × (k < c.max_attempts)
              × (is_retriable (before_last k) ≡ true)
              × ((rounds k).waited ≡ false)))

  ends-retriable : (i : ℕ) → ends (result_of i) (rounds i) ≡ not (is_retriable i)
  unfolding ends is_transient
  ends-retriable i = ground arith

  -- The last attempt decides the call.
  decided :
      (k j : ℕ) (result : Result)
      → k ≡ suc j
      → suc j ≤ c.max_attempts
      → ((i : ℕ) → i < j → is_retriable i ≡ true)
      → result ≡ result_of j
      → (is_retriable j ≡ false) ⊎ (suc j ≡ c.max_attempts)
      → Ended k result
  decided k j result at some_left before is last =
      rw (at) (omega arith, some_left, (λ i below. before i (omega arith)), inl (is, last))

  -- The context ends in the wait after the j-th attempt.
  interrupted :
      (k j : ℕ)
      → k ≡ suc j
      → suc j < c.max_attempts
      → ((i : ℕ) → i < suc j → is_retriable i ≡ true)
      → (rounds (suc j)).waited ≡ false
      → Ended k (failure backend 0 false context_ended)
  interrupted k j at some_left before not_waited = rw (at) (
    omega arith,
    omega arith,
    (λ i below. before i (omega arith)),
    inr (refl, some_left, before j (omega arith), not_waited),
  )

  -- One more retriable attempt.
  extend :
      (j : ℕ)
      → ((i : ℕ) → i < suc j → is_retriable i ≡ true)
      → is_retriable (suc j) ≡ true
      → (i : ℕ) → i < suc (suc j)
      → is_retriable i ≡ true
  extend j before this i below = elim (compare-cases i (suc j) below) [
    | inl earlier ↦ before i earlier
    | inr same ↦ rw same this
  ]

  retry-Ended :
      (left j : ℕ) (last : Result) (t : Trace)
      → t.attempts ≡ suc j
      → suc j + left ≡ c.max_attempts
      → last ≡ result_of j
      → ((i : ℕ) → i < suc j → is_retriable i ≡ true)
      → let (result, t') = retry int63n c backend rounds left (suc j) last t in
        Ended t'.attempts result
  unfolding retry wait count_retry observe attempt
  retry-Ended zero j last t at total is before =
      decided t.attempts j last at (omega arith) (λ i below. before i (omega arith)) is
        (inr (omega arith))
  retry-Ended (suc left) j last t at total is before = elim (Bool-cases (rounds (suc j)).waited) [
    | inr not_waited ↦ rw not_waited (interrupted t.attempts j at (omega arith) before not_waited)
    | inl waited ↦ elim (Bool-cases (is_retriable (suc j))) [
      | inl retriable ↦
          rw (waited, ends-retriable (suc j), retriable)
            (retry-Ended left (suc j) (result_of (suc j)) _ (omega arith) (omega arith) refl
              (extend j before retriable))
      | inr final ↦
          rw (waited, ends-retriable (suc j), final)
            (decided (t.attempts + 1) (suc j) (result_of (suc j)) (omega arith) (omega arith) before
              refl (inl final))
    ]
  ]

  -- A call makes between one and max_attempts attempts. Each but the last failed with a transient error
  -- while the caller waited on; the call answers with the last attempt's result, and that attempt was
  -- not retriable or was the last allowed one, or else the context ended in the wait for another.
  pub do_call-Ended :
      0 < c.max_attempts
      → let (result, t) = do_call int63n c backend rounds in Ended t.attempts result
  unfolding do_call observe
  do_call-Ended some_ = elim (Bool-cases (is_retriable 0)) [
    | inl retriable ↦
        rw (ends-retriable 0, retriable)
          (retry-Ended (pred c.max_attempts) 0 (result_of 0) _ refl (ground arith) refl
            (λ i below. rw (below_one i below) retriable))
    | inr final ↦
        rw (ends-retriable 0, final)
          (decided 1 0 (result_of 0) refl some_ (λ i below. ground arith) refl (inl final))
  ]

  -- Each retry is counted once, and no wait exceeds the maximum.
  abbrev pub IsTidy : Trace → Type 0
  IsTidy t = (suc t.retries ≡ t.attempts) × All (λ w. w ≤ c.backoff_max) t.waits

  retry-IsTidy :
      IsJitter int63n
      → (left i : ℕ) (last : Result) (t : Trace) → IsTidy t
      → IsTidy (retry int63n c backend rounds left i last t).1
  unfolding retry wait count_retry observe attempt
  retry-IsTidy jitter zero i last t tidy = tidy
  retry-IsTidy jitter (suc left) i last t tidy =
      let waits =
        All-append (λ w. w ≤ c.backoff_max) t.waits _ tidy.1
          (backoff-le-max int63n i c.backoff_base c.backoff_max i jitter, _) in
      let rest = retry-IsTidy jitter left (suc i) (result_of i) _ (omega (arith, tidy.0), waits) in
      elim (Bool-cases (rounds i).waited) [
        | inr not_waited ↦ rw not_waited (tidy.0, waits)
        | inl waited ↦ elim (Bool-cases (ends (result_of i) (rounds i))) [
          | inl final ↦ rw (waited, final) (omega (arith, tidy.0), waits)
          | inr again ↦ rw (waited, again) rest
        ]
      ]

  -- A call counts exactly one retry for each attempt after the first, and waits for no longer than
  -- backoff_max before any of them, when the jitter is drawn below its bound.
  pub do_call-IsTidy : IsJitter int63n → IsTidy (do_call int63n c backend rounds).1
  unfolding do_call observe
  do_call-IsTidy jitter = elim (Bool-cases (ends (result_of 0) (rounds 0))) [
    | inl final ↦ rw final (refl, _)
    | inr again ↦ rw again (retry-IsTidy jitter (pred c.max_attempts) 1 (result_of 0) _ (refl, _))
  ]

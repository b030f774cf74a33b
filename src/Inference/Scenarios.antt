-- ===== src/Inference/Scenarios.antt =====
-- A backend that is unavailable twice and then answers.
use aegis_route.Base.{ℕ, zero, suc, ◌+◌, ◌-◌, ◌*◌, ◌^◌, ◌≡◌, refl, true, false, arith}
use Prim.Native.Nat.{min}
use aegis_route.Base.Int.{pos}
use aegis_route.Inference.Backoff.{IsJitter, backoff_ceiling, ceiling_exact}
use aegis_route.Inference.Attempts.{Ended, IsTidy, do_call-Ended, do_call-IsTidy}
use aegis_route.Inference.{Client, new, Round, reply, attempt, do_call}

abbrev three_tries : Client
three_tries = new (record {
  max_attempts = pos 3;
  backoff_base = 50;
  backoff_max = 120;
  max_response_bytes = pos 0;
})

abbrev answered : ℕ → Round
answered status = record {
  transport = reply status 2 "{}";
  ended = false;
  ended_after = false;
  waited = true;
}

abbrev recovering : ℕ → Round
recovering zero = answered 503
recovering (suc zero) = answered 502
recovering _ = answered 200

abbrev highest : ℕ → ℕ → ℕ
highest k n = n - 1

highest-IsJitter : IsJitter highest
highest-IsJitter k n some_ = omega arith

ceiling_exact_example : backoff_ceiling 50 120 2 ≡ min 120 (50 * 2 ^ (2 - 1))
ceiling_exact_example = ceiling_exact 50 120 2 (omega arith) (omega arith) (omega arith)

do_call-Ended_example :
    let (result, t) = do_call highest three_tries "fast" recovering in
    Ended highest three_tries "fast" recovering t.attempts result
do_call-Ended_example =
    do_call-Ended highest three_tries "fast" recovering (unfold new in omega arith)

do_call-IsTidy_example :
    IsTidy highest three_tries "fast" recovering (do_call highest three_tries "fast" recovering).1
do_call-IsTidy_example = do_call-IsTidy highest three_tries "fast" recovering highest-IsJitter

-- The third attempt is the one that succeeds.
three_attempts : (do_call highest three_tries "fast" recovering).1.attempts ≡ 3
unfolding do_call new attempt
three_attempts = refl

-- A shift that wraps around to a small positive number is taken for the bound.
wrapped_ceiling : backoff_ceiling (2 ^ 33 + 1) (60 * 10 ^ 9) 32 ≡ 2 ^ 31
unfolding backoff_ceiling
wrapped_ceiling = refl

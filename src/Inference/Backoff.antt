-- ===== src/Inference/Backoff.antt =====
-- internal/inference/client.go, `backoff`: the full-jitter wait before a retry. Durations are int64
-- numbers of nanoseconds; a negative one takes the branches of 0, and is 0 here.
use aegis_route.Base.{
  ℕ, zero, suc, ◌+◌, ◌-◌, ◌*◌, ◌%◌, ◌^◌, ◌≤◌, ◌<◌, ◌≡◌, Bool, ◌&&◌, nat_key, ◌==◌, ltb,
  if◌then◌else◌, arith, inl, inr, Bool-cases,
}
use Prim.Native.Nat.{min}
use native.Mathlib.Nat.{mod-eq_of_lt, mul-pos, min-eq_left, min-eq_right}

-- `base << shift` on int64, as the bits of the word.
unfoldable pub shl64 : ℕ → ℕ → ℕ
shl64 base shift = (base * 2 ^ shift) % 2 ^ 64

-- A word that is positive as an int64.
abbrev pub is_positive64 : ℕ → Bool
is_positive64 w = ltb 0 w && ltb w (2 ^ 63)

-- The bound of the draw before the retry that follows the n-th failed attempt.
unfoldable pub backoff_ceiling : ℕ → ℕ → ℕ → ℕ
unfolding shl64
backoff_ceiling base max n =
    let exp = shl64 base (n - 1) in
    if ltb (n - 1) 63 && (is_positive64 exp && ltb exp max) then exp else max

-- `int63n k` is the k-th draw of rng.Int63n.
unfoldable pub backoff : (ℕ → ℕ → ℕ) → ℕ → ℕ → ℕ → ℕ → ℕ
unfolding backoff_ceiling
backoff int63n k base max n =
    let ceil = backoff_ceiling base max n in
    if base == 0 then 0 else if ceil == 0 then 0 else int63n k (ceil + 1)

-- A draw of rng.Int63n is below its bound.
abbrev pub IsJitter : (ℕ → ℕ → ℕ) → Type 0
IsJitter int63n = (k n : ℕ) → 0 < n → int63n k n < n

pow2-pos : (k : ℕ) → 0 < 2 ^ k
pow2-pos zero = omega arith
pow2-pos (suc k) = omega (arith, pow2-pos k)

shl64-exact : (base shift : ℕ) → base * 2 ^ shift < 2 ^ 63 → shl64 base shift ≡ base * 2 ^ shift
unfolding shl64
shl64-exact base shift fits = mod-eq_of_lt {n = base * 2 ^ shift} {m = 2 ^ 64} (omega arith)

smaller :
    (e max shift : ℕ)
    → 0 < e
    → shift < 63
    → e < 2 ^ 63
    → (if ltb shift 63 && (is_positive64 e && ltb e max) then e else max) ≡ min max e
smaller e max shift some_ short fits = elim (Bool-cases (ltb e max)) [
  | inl below ↦ ground (arith, min-eq_right {n = e} {m = max} (ground arith))
  | inr not_below ↦ ground (arith, min-eq_left {n = max} {m = e} (ground arith))
]

-- Where the shift is below 63 and the product fits an int64, the bound of the draw is the documented
-- one, the smaller of the maximum and base · 2ⁿ⁻¹.
pub ceiling_exact :
    (base max n : ℕ)
    → 0 < base
    → n - 1 < 63
    → base * 2 ^ (n - 1) < 2 ^ 63
    → backoff_ceiling base max n ≡ min max (base * 2 ^ (n - 1))
unfolding backoff_ceiling
ceiling_exact base max n some_ shift fits = rw (shl64-exact base (n - 1) fits) (
    smaller (base * 2 ^ (n - 1)) max (n - 1)
      (mul-pos {m = base} {n = 2 ^ (n - 1)} some_ (pow2-pos (n - 1))) shift fits)

ceiling_le : (base max n : ℕ) → backoff_ceiling base max n ≤ max
unfolding backoff_ceiling
ceiling_le base max n = ground arith

-- A wait is never longer than the configured maximum, whatever the base, the number of the attempt
-- and the overflow of the shift.
pub backoff-le-max :
    (int63n : ℕ → ℕ → ℕ) (k base max n : ℕ) → IsJitter int63n → backoff int63n k base max n ≤ max
unfolding backoff
backoff-le-max int63n k base max n jitter =
    ground (arith, ceiling_le base max n, jitter k (backoff_ceiling base max n + 1) (omega arith))

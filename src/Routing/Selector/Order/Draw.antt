-- ===== src/Routing/Selector/Order/Draw.antt =====
-- One weighted draw.
use aegis_route.Base.{
  ℕ, ◌+◌, ◌-◌, ◌≤◌, ◌<◌, ◌≡◌, refl, sym, ◌∙◌, inl, inr, Option, none, some, List, [], ◌∷◌, ◌++◌,
  All, ap, arith, ltb, Bool-cases, ltb→lt,
}
use aegis_route.Base.Int.{ℤ, pos, ltb_ℤ, pos_part, ◌+ℤ◌, ◌-ℤ◌}
use aegis_route.Models.{ModelBackend}
use aegis_route.Routing.Selector.Order.{pick, put_back, total_weight}

-- A weight that Select lets through.
abbrev pub HasWeight : ModelBackend → Type 0
HasWeight b = 0 < pos_part b.weight

-- The sum of the weights as a natural number.
unfoldable pub sum_weights : List ModelBackend → ℕ
sum_weights [] = 0
sum_weights (b ∷ bs) = pos_part b.weight + sum_weights bs

pub total_weight-pos :
    (bs : List ModelBackend) → All HasWeight bs → total_weight bs ≡ pos (sum_weights bs)
unfolding total_weight sum_weights ◌+ℤ◌
total_weight-pos [] h = refl
total_weight-pos (b ∷ bs) h = rw (total_weight-pos bs h.1) (ground arith)

pick_hit :
    (b : ModelBackend) (bs : List ModelBackend) (n : ℕ)
    → n < pos_part b.weight
    → pick (pos n) (b ∷ bs) ≡ some (b, bs)
unfolding pick ◌-ℤ◌
pick_hit b bs n h = ground arith

pick_miss :
    (b : ModelBackend) (bs : List ModelBackend) (n : ℕ)
    → HasWeight b
    → pos_part b.weight ≤ n
    → pick (pos n) (b ∷ bs) ≡ put_back b (pick (pos (n - pos_part b.weight)) bs)
unfolding pick ◌-ℤ◌
pick_miss b bs n w h = ground arith

-- The numbers below the total fall into one interval for each backend of the pool, in the pool's
-- order and as long as the backend's weight; a draw in the interval takes that backend and leaves the
-- others in order.
pub pick-interval :
    (xs : List ModelBackend) (b : ModelBackend) (ys : List ModelBackend) (n : ℕ)
    → All HasWeight (xs ++ b ∷ ys)
    → sum_weights xs ≤ n
    → n < sum_weights xs + pos_part b.weight
    → pick (pos n) (xs ++ b ∷ ys) ≡ some (b, xs ++ ys)
unfolding sum_weights
pick-interval [] b ys n w low high = pick_hit b ys n (omega arith)
pick-interval (x ∷ xs) b ys n w low high = rw (
  pick_miss x (xs ++ b ∷ ys) n w.0 (omega arith),
  pick-interval xs b ys (n - pos_part x.weight) w.1 (omega arith) (omega arith),
)

-- Below the total some backend is taken.
pub pick-some :
    (bs : List ModelBackend) (n : ℕ)
    → All HasWeight bs
    → n < sum_weights bs
    → (c : ModelBackend) × (rest : List ModelBackend) × (pick (pos n) bs ≡ some (c, rest))
unfolding sum_weights
pick-some [] n w h = absurd (omega arith)
pick-some (b ∷ bs) n w h = elim (Bool-cases (ltb n (pos_part b.weight))) [
  | inl hit ↦ (b, bs, pick_hit b bs n (ltb→lt _ _ hit))
  | inr miss ↦
      let (c, rest, e) = pick-some bs (n - pos_part b.weight) w.1 (ground arith) in
      (c, b ∷ rest, rw (pick_miss b bs n w.0 (ground arith), e))
]

some_pair {ℓ κ} :
    {A : Type ℓ} {B : Type κ} (a a' : A) (b b' : B)
    → ◌≡◌ {A = Option (A × B)} (some (a, b)) (some (a', b'))
    → (a ≡ a') × (b ≡ b')
some_pair a a' b b' e = (cc, cc)

-- A backend taken out of the pool, and the pool without it.
abbrev pub TakenFrom : List ModelBackend → ModelBackend → List ModelBackend → Type 0
TakenFrom bs c rest =
    (xs : List ModelBackend) × (ys : List ModelBackend) × (bs ≡ xs ++ c ∷ ys) × (rest ≡ xs ++ ys)

TakenFrom-put_back :
    (b : ModelBackend) (bs : List ModelBackend) (o : Option (ModelBackend × List ModelBackend))
    → ((c : ModelBackend) (rest : List ModelBackend) → o ≡ some (c, rest) → TakenFrom bs c rest)
    → (c : ModelBackend) (rest : List ModelBackend) → put_back b o ≡ some (c, rest)
    → TakenFrom (b ∷ bs) c rest
TakenFrom-put_back b bs none ih c rest e = cc
TakenFrom-put_back b bs (some (d, left)) ih c rest e =
    let (p, q) = some_pair d c (b ∷ left) rest e in
    let (xs, ys, h, k) = ih c left (rw p) in (b ∷ xs, ys, rw h, sym q ∙ ap (◌∷◌ b) k)

-- A draw takes one backend out of the pool and leaves the others in order.
pub pick-TakenFrom :
    (bs : List ModelBackend) (n : ℤ) (c : ModelBackend) (rest : List ModelBackend)
    → pick n bs ≡ some (c, rest)
    → TakenFrom bs c rest
unfolding pick
pick-TakenFrom [] n c rest e = cc
pick-TakenFrom (b ∷ bs) n c rest e = elim (Bool-cases (ltb_ℤ (n -ℤ b.weight) (pos 0))) [
  | inl hit ↦
      let (p, q) = some_pair b c bs rest (rw (hit, pick) at e) in
      ([], bs, ap (λ x. x ∷ bs) p, sym q)
  | inr miss ↦
      TakenFrom-put_back b bs (pick (n -ℤ b.weight) bs) (pick-TakenFrom bs (n -ℤ b.weight)) c rest
        (rw (miss, pick) at e)
]

-- ===== src/Routing/Selector/Order/Sorted.antt =====
-- What the order of the candidates is.
use mathlib.Core.List.{Perm}
use aegis_route.Base.{
  ℕ, zero, suc, ◌≡◌, List, [], ◌∷◌, ◌++◌, All, All-append, arith, Bool-cases, true, length, inl,
  inr,
}
use aegis_route.Base.Int.{ℤ, ltb_ℤ, eqb_ℤ, leb_ℤ}
use aegis_route.Models.{ModelBackend}
use aegis_route.Routing.Selector.Order.{
  weighted_shuffle, tier, beyond, tiers, order, sort_by_priority, insert_by_priority,
}
use aegis_route.Routing.Selector.Order.Draw.{HasWeight}
use aegis_route.Routing.Selector.Order.Arrange.{
  IsLawful, order-perm, tiers-All, shuffle-All, All-tier, insert_by_priority-All,
}

-- `b` may stand before `c`: its priority number is not higher.
abbrev pub NotAbove : ModelBackend → ModelBackend → Type 0
NotAbove b c = leb_ℤ b.priority c.priority ≡ true

-- The priority numbers do not fall along the list.
abbrev pub IsOrdered : List ModelBackend → Type 0
IsOrdered [] = Unit {0}
IsOrdered (b ∷ bs) = All (NotAbove b) bs × IsOrdered bs

All-map {ℓ κ ι} :
    {A : Type ℓ} {P : A → Type κ} {Q : A → Type ι} (f : (a : A) → P a → Q a) (xs : List A)
    → All P xs
    → All Q xs
All-map f [] h = tt
All-map f (x ∷ xs) h = (f x h.0, All-map f xs h.1)

insert_by_priority-IsOrdered :
    (b : ModelBackend) (bs : List ModelBackend) → IsOrdered bs → IsOrdered (insert_by_priority b bs)
unfolding insert_by_priority
insert_by_priority-IsOrdered b [] h = (tt, tt)
insert_by_priority-IsOrdered b (c ∷ cs) h = elim (Bool-cases (ltb_ℤ c.priority b.priority)) [
  | inl past ↦ rw past (
    insert_by_priority-All (NotAbove c) b cs (ground arith) h.0,
    insert_by_priority-IsOrdered b cs h.1,
  )
  | inr here ↦ rw here ((ground arith, All-map (λ x below. ground arith) cs h.0), h)
]

sort_by_priority-IsOrdered : (bs : List ModelBackend) → IsOrdered (sort_by_priority bs)
unfolding sort_by_priority
sort_by_priority-IsOrdered [] = tt
sort_by_priority-IsOrdered (b ∷ bs) =
    insert_by_priority-IsOrdered b (sort_by_priority bs) (sort_by_priority-IsOrdered bs)

-- Of the priority `p`.
abbrev At : ℤ → ModelBackend → Type 0
At p b = eqb_ℤ b.priority p ≡ true

-- Of a priority number not below `p`.
abbrev From : ℤ → ModelBackend → Type 0
From p b = leb_ℤ p b.priority ≡ true

tier-At : (p : ℤ) (bs : List ModelBackend) → All (At p) (tier p bs)
unfolding tier
tier-At p [] = tt
tier-At p (b ∷ bs) = elim (Bool-cases (eqb_ℤ b.priority p)) [
  | inl same ↦ rw same (same, tier-At p bs)
  | inr other ↦ rw other tt
]

beyond-IsOrdered : (p : ℤ) (bs : List ModelBackend) → IsOrdered bs → IsOrdered (beyond p bs)
unfolding beyond
beyond-IsOrdered p [] h = tt
beyond-IsOrdered p (b ∷ bs) h = elim (Bool-cases (eqb_ℤ b.priority p)) [
  | inl same ↦ rw same (beyond-IsOrdered p bs h.1)
  | inr other ↦ rw other h
]

IsOrdered-append :
    (p : ℤ) (xs ys : List ModelBackend)
    → All (At p) xs
    → All (From p) ys
    → IsOrdered ys
    → IsOrdered (xs ++ ys)
IsOrdered-append p [] ys at from h = h
IsOrdered-append p (x ∷ xs) ys at from h = (
  All-append (NotAbove x) xs ys (All-map (λ y same. ground arith) xs at.1)
      (All-map (λ y above. ground arith) ys from),
  IsOrdered-append p xs ys at.1 from h,
)

module _ (intn : ℕ → ℕ → ℕ) where
  tiers-IsOrdered :
      (fuel k : ℕ) (bs : List ModelBackend) → IsOrdered bs → IsOrdered (tiers intn fuel k bs).0
  unfolding tiers
  tiers-IsOrdered zero k bs h = tt
  tiers-IsOrdered (suc fuel) k [] h = tt
  tiers-IsOrdered (suc fuel) k (b ∷ bs) h =
      let p = b.priority in
      let (_, k') = weighted_shuffle intn k (b ∷ tier p bs) in
      IsOrdered-append p _ _
        (shuffle-All intn (At p) k (b ∷ tier p bs) (ground arith, tier-At p bs))
        (tiers-All intn (From p) fuel k' (beyond p bs) (All-tier (From p) p bs h.0).1)
        (tiers-IsOrdered fuel k' (beyond p bs) (beyond-IsOrdered p bs h.1))

  -- Select tries every candidate once, lowest priority number first, whatever the draws, provided
  -- that the weights are positive and that a draw below a positive bound is below it.
  pub order-IsOrdered :
      (k : ℕ) (bs : List ModelBackend)
      → IsLawful intn
      → All HasWeight bs
      → Perm bs (order intn k bs).0 × IsOrdered (order intn k bs).0
  unfolding order
  order-IsOrdered k bs lawful w = (
    order-perm intn lawful k bs w,
    tiers-IsOrdered (length (sort_by_priority bs)) k (sort_by_priority bs)
        (sort_by_priority-IsOrdered bs),
  )

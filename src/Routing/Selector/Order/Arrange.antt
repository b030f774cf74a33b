-- ===== src/Routing/Selector/Order/Arrange.antt =====
-- The lists that the order of the candidates is made of.
use mathlib.Core.List.{Perm, perm_middle}
use mathlib.Core.List.Perm
use mathlib.Core.Path.{subst}
use aegis_route.Base.{
  ℕ, zero, suc, nat_key, ◌==◌, ◌≤◌, ◌<◌, ◌≡◌, refl, some, List, [], ◌∷◌, ◌++◌, All, arith,
  Bool-cases, length, length-append, All-append, inl, inr, Option-cases,
}
use aegis_route.Base.Int.{ℤ, pos, ltb_ℤ, pos_part}
use aegis_route.Models.{ModelBackend}
use aegis_route.Routing.Selector.Order.{
  pick, total_weight, draws, weighted_shuffle, tier, beyond, tiers, order, sort_by_priority,
  insert_by_priority,
}
use aegis_route.Routing.Selector.Order.Draw.{
  HasWeight, sum_weights, total_weight-pos, pick-some, TakenFrom, pick-TakenFrom,
}

insert_by_priority-perm :
    (b : ModelBackend) (bs : List ModelBackend) → Perm (b ∷ bs) (insert_by_priority b bs)
unfolding insert_by_priority
insert_by_priority-perm b [] = Perm.refl (b ∷ [])
insert_by_priority-perm b (c ∷ cs) = elim (Bool-cases (ltb_ℤ c.priority b.priority)) [
  | inl past ↦ rw past (Perm.trans (Perm.swap c b cs) (Perm.cons c (insert_by_priority-perm b cs)))
  | inr here ↦ rw here (Perm.refl (b ∷ c ∷ cs))
]

sort_by_priority-perm : (bs : List ModelBackend) → Perm bs (sort_by_priority bs)
unfolding sort_by_priority
sort_by_priority-perm [] = Perm.refl []
sort_by_priority-perm (b ∷ bs) =
    Perm.trans (Perm.cons b (sort_by_priority-perm bs))
      (insert_by_priority-perm b (sort_by_priority bs))

tier-append-beyond : (p : ℤ) (bs : List ModelBackend) → tier p bs ++ beyond p bs ≡ bs
unfolding tier beyond
tier-append-beyond p [] = refl
tier-append-beyond p (b ∷ bs) = ground (arith, tier-append-beyond p bs)

length-beyond-le : (p : ℤ) (bs : List ModelBackend) → length (beyond p bs) ≤ length bs
unfolding beyond
length-beyond-le p [] = omega arith
length-beyond-le p (b ∷ bs) = ground (arith, length-beyond-le p bs)

All-unappend {ℓ κ} :
    {A : Type ℓ} (P : A → Type κ) (xs ys : List A) → All P (xs ++ ys) → All P xs × All P ys
All-unappend P [] ys h = (tt, h)
All-unappend P (x ∷ xs) ys h = let (a, b) = All-unappend P xs ys h.1 in ((h.0, a), b)

module _ {κ} (P : ModelBackend → Type κ) where
  pub insert_by_priority-All :
      (b : ModelBackend) (bs : List ModelBackend) → P b → All P bs → All P (insert_by_priority b bs)
  unfolding insert_by_priority
  insert_by_priority-All b [] p h = (p, tt)
  insert_by_priority-All b (c ∷ cs) p h = elim (Bool-cases (ltb_ℤ c.priority b.priority)) [
    | inl past ↦ rw past (h.0, insert_by_priority-All b cs p h.1)
    | inr here ↦ rw here (p, h)
  ]

  pub sort_by_priority-All : (bs : List ModelBackend) → All P bs → All P (sort_by_priority bs)
  unfolding sort_by_priority
  sort_by_priority-All [] h = tt
  sort_by_priority-All (b ∷ bs) h =
      insert_by_priority-All b (sort_by_priority bs) h.0 (sort_by_priority-All bs h.1)

  All-TakenFrom :
      (bs : List ModelBackend) (c : ModelBackend) (rest : List ModelBackend)
      → TakenFrom bs c rest
      → All P bs
      → P c × All P rest
  All-TakenFrom bs c rest (xs, ys, e, f) h =
      let (before, at) = All-unappend P xs (c ∷ ys) (rw e at h) in
      (at.0, rw f (All-append P xs ys before at.1))

  pub All-tier :
      (p : ℤ) (bs : List ModelBackend) → All P bs → All P (tier p bs) × All P (beyond p bs)
  All-tier p bs h = All-unappend P (tier p bs) (beyond p bs) (rw (tier-append-beyond p bs) h)

TakenFrom-perm :
    (bs : List ModelBackend) (c : ModelBackend) (rest : List ModelBackend)
    → TakenFrom bs c rest
    → Perm bs (c ∷ rest)
TakenFrom-perm bs c rest (xs, ys, e, f) = rw (e, f) (perm_middle xs ys)

length-TakenFrom :
    (bs : List ModelBackend) (c : ModelBackend) (rest : List ModelBackend)
    → TakenFrom bs c rest
    → length bs ≡ suc (length rest)
length-TakenFrom bs c rest (xs, ys, e, f) =
    rw (e, f) (omega (arith, length-append xs (c ∷ ys), length-append xs ys))

-- `math/rand`: a draw below a positive bound is below it.
abbrev pub IsLawful : (ℕ → ℕ → ℕ) → Type 0
IsLawful intn = (k n : ℕ) → 0 < n → intn k n < n

module _ (intn : ℕ → ℕ → ℕ) where
  draws-All {κ} :
      (P : ModelBackend → Type κ) (fuel k : ℕ) (bs : List ModelBackend)
      → All P bs
      → All P (draws intn fuel k bs).0
  unfolding draws
  draws-All P zero k bs h = tt
  draws-All P (suc fuel) k [] h = tt
  draws-All P (suc fuel) k (b ∷ bs) h =
      elim (Option-cases (pick (pos (intn k (pos_part (total_weight (b ∷ bs))))) (b ∷ bs))) [
        | inl e ↦ rw (e, draws) (draws-All P fuel (suc k) (b ∷ bs) h)
        | inr ((c, rest), e) ↦
            let (pc, pr) = All-TakenFrom P (b ∷ bs) c rest (pick-TakenFrom (b ∷ bs) _ c rest e) h in
            rw (e, draws) (pc, draws-All P fuel (suc k) rest pr)
      ]

  pub shuffle-All {κ} :
      (P : ModelBackend → Type κ) (k : ℕ) (bs : List ModelBackend)
      → All P bs
      → All P (weighted_shuffle intn k bs).0
  unfolding weighted_shuffle
  shuffle-All P k bs h = elim (Bool-cases (length bs == 1)) [
    | inl one ↦ rw one h
    | inr other ↦ rw other (draws-All P (length bs) k bs h)
  ]

  pub tiers-All {κ} :
      (P : ModelBackend → Type κ) (fuel k : ℕ) (bs : List ModelBackend)
      → All P bs
      → All P (tiers intn fuel k bs).0
  unfolding tiers
  tiers-All P zero k bs h = tt
  tiers-All P (suc fuel) k [] h = tt
  tiers-All P (suc fuel) k (b ∷ bs) h =
      let (same, others) = All-tier P b.priority bs h.1 in
      let (_, k') = weighted_shuffle intn k (b ∷ tier b.priority bs) in
      All-append P _ _ (shuffle-All P k (b ∷ tier b.priority bs) (h.0, same))
        (tiers-All P fuel k' (beyond b.priority bs) others)

  module _ (lawful : IsLawful intn) where
    draw-some :
        (k : ℕ) (b : ModelBackend) (bs : List ModelBackend)
        → All HasWeight (b ∷ bs)
        → (c : ModelBackend) × (rest : List ModelBackend) × (pick
              (pos (intn k (pos_part (total_weight (b ∷ bs)))))
              (b ∷ bs)
            ≡ some (c, rest))
    unfolding sum_weights
    draw-some k b bs w = rw (total_weight-pos (b ∷ bs) w) (
        pick-some (b ∷ bs) (intn k (sum_weights (b ∷ bs))) w
          (lawful k (sum_weights (b ∷ bs)) (omega arith)))

    draws-perm :
        (fuel k : ℕ) (bs : List ModelBackend)
        → All HasWeight bs
        → length bs ≤ fuel
        → Perm bs (draws intn fuel k bs).0
    unfolding draws
    draws-perm zero k [] w h = Perm.refl []
    draws-perm zero k (b ∷ bs) w h = absurd (omega arith)
    draws-perm (suc fuel) k [] w h = Perm.refl []
    draws-perm (suc fuel) k (b ∷ bs) w h =
        let (c, rest, e) = draw-some k b bs w in
        let taken = pick-TakenFrom (b ∷ bs) _ c rest e in
        rw (e, draws)
          (Perm.trans (TakenFrom-perm (b ∷ bs) c rest taken) (
            Perm.cons c (
              draws-perm fuel (suc k) rest (All-TakenFrom HasWeight (b ∷ bs) c rest taken w).1
                (omega (arith, length-TakenFrom (b ∷ bs) c rest taken)))))

    shuffle-perm :
        (k : ℕ) (bs : List ModelBackend) → All HasWeight bs → Perm bs (weighted_shuffle intn k bs).0
    unfolding weighted_shuffle
    shuffle-perm k bs w = elim (Bool-cases (length bs == 1)) [
      | inl one ↦ rw one (Perm.refl bs)
      | inr other ↦ rw other (draws-perm (length bs) k bs w (omega arith))
    ]

    tiers-perm :
        (fuel k : ℕ) (bs : List ModelBackend)
        → All HasWeight bs
        → length bs ≤ fuel
        → Perm bs (tiers intn fuel k bs).0
    unfolding tiers
    tiers-perm zero k [] w h = Perm.refl []
    tiers-perm zero k (b ∷ bs) w h = absurd (omega arith)
    tiers-perm (suc fuel) k [] w h = Perm.refl []
    tiers-perm (suc fuel) k (b ∷ bs) w h =
        let (same, others) = All-tier HasWeight b.priority bs w.1 in
        let (_, k') = weighted_shuffle intn k (b ∷ tier b.priority bs) in
        subst (λ l. Perm (b ∷ l) (tiers intn (suc fuel) k (b ∷ bs)).0)
          (tier-append-beyond b.priority bs)
          (Perm.append (shuffle-perm k (b ∷ tier b.priority bs) (w.0, same)) (
            tiers-perm fuel k' (beyond b.priority bs) others
              (omega (arith, length-beyond-le b.priority bs))))

    pub order-perm :
        (k : ℕ) (bs : List ModelBackend) → All HasWeight bs → Perm bs (order intn k bs).0
    unfolding order
    order-perm k bs w =
        let sorted = sort_by_priority bs in
        Perm.trans (sort_by_priority-perm bs)
          (tiers-perm (length sorted) k sorted (sort_by_priority-All HasWeight bs w) (omega arith))

-- ===== src/Routing/Selector/Order.antt =====
-- internal/routing/selector.go, `order` and `weightedShuffle`: lowest priority number first, and
-- within one priority successive weighted draws without replacement.
pub mod Draw
pub mod Arrange
pub mod Sorted
use aegis_route.Base.{
  ℕ, zero, suc, ◌+◌, Bool, true, false, ◌&&◌, Option, none, some, List, [], ◌∷◌, ◌++◌, nat_key,
  ◌==◌, length, if◌then◌else◌,
}
use aegis_route.Base.Int.{ℤ, pos, ltb_ℤ, eqb_ℤ, pos_part, ◌+ℤ◌, ◌-ℤ◌}
use aegis_route.Models.{ModelBackend}

-- sort.SliceStable by priority.
unfoldable pub insert_by_priority : ModelBackend → List ModelBackend → List ModelBackend
insert_by_priority b [] = b ∷ []
insert_by_priority b (c ∷ cs) =
    if ltb_ℤ c.priority b.priority then c ∷ insert_by_priority b cs else b ∷ c ∷ cs

unfoldable pub sort_by_priority : List ModelBackend → List ModelBackend
unfolding insert_by_priority
sort_by_priority [] = []
sort_by_priority (b ∷ bs) = insert_by_priority b (sort_by_priority bs)

-- `total += b.Weight` over the pool.
unfoldable pub total_weight : List ModelBackend → ℤ
total_weight [] = pos 0
total_weight (b ∷ bs) = b.weight +ℤ total_weight bs

abbrev pub put_back :
    ModelBackend
    → Option (ModelBackend × List ModelBackend)
    → Option (ModelBackend × List ModelBackend)
put_back b none = none
put_back b (some (c, rest)) = some (c, b ∷ rest)

-- The walk over the pool: `n -= b.Weight`, and the first backend at which n is negative is taken out.
unfoldable pub pick : ℤ → List ModelBackend → Option (ModelBackend × List ModelBackend)
pick n [] = none
pick n (b ∷ bs) =
    let left = n -ℤ b.weight in
    if ltb_ℤ left (pos 0) then some (b, bs) else put_back b (pick left bs)

-- The elements at the front that share the priority, and those from the first other one on.
unfoldable pub tier : ℤ → List ModelBackend → List ModelBackend
tier p [] = []
tier p (b ∷ bs) = if eqb_ℤ b.priority p then b ∷ tier p bs else []

unfoldable pub beyond : ℤ → List ModelBackend → List ModelBackend
beyond p [] = []
beyond p (b ∷ bs) = let rest = beyond p bs in if eqb_ℤ b.priority p then rest else b ∷ bs

module _ (intn : ℕ → ℕ → ℕ) where
  -- The loop of weightedShuffle from the k-th draw on; a draw that takes no backend is repeated.
  unfoldable pub draws : ℕ → ℕ → List ModelBackend → List ModelBackend × ℕ
  draws zero k pool = ([], k)
  draws (suc fuel) k [] = ([], k)
  draws (suc fuel) k (b ∷ bs) =
      elim (pick (pos (intn k (pos_part (total_weight (b ∷ bs))))) (b ∷ bs)) [
        | none ↦ draws fuel (suc k) (b ∷ bs)
        | some (c, rest) ↦ let (out, k') = draws fuel (suc k) rest in (c ∷ out, k')
      ]

  -- weightedShuffle. Each round takes one backend out, so the pool's length is fuel enough.
  unfoldable pub weighted_shuffle : ℕ → List ModelBackend → List ModelBackend × ℕ
  unfolding draws
  weighted_shuffle k bs = if length bs == 1 then (bs, k) else draws (length bs) k bs

  -- The loop over the tiers of the sorted candidates; each round uses up at least one.
  unfoldable pub tiers : ℕ → ℕ → List ModelBackend → List ModelBackend × ℕ
  unfolding weighted_shuffle tier beyond
  tiers zero k bs = ([], k)
  tiers (suc fuel) k [] = ([], k)
  tiers (suc fuel) k (b ∷ bs) =
      let (out, k') = weighted_shuffle k (b ∷ tier b.priority bs) in
      let (rest, k'') = tiers fuel k' (beyond b.priority bs) in (out ++ rest, k'')

  unfoldable pub order : ℕ → List ModelBackend → List ModelBackend × ℕ
  unfolding sort_by_priority tiers
  order k bs = let sorted = sort_by_priority bs in tiers (length sorted) k sorted

-- ===== src/Base/Map.antt =====
-- Go's map as an association list. A client reads it through `lookup` and the laws; the order of
-- the entries is the order in which the model iterates (Go leaves that order open).
use Prim.Native.Nat.{ℕ, ◌+◌, ◌<◌}
use mathlib.Core.Bool.{Bool, true}
use mathlib.Core.Path.{◌≡◌, refl}
use mathlib.Core.Option.{Option, none, some}
use mathlib.Core.List.{List, [], ◌∷◌}
use native.Mathlib.Omega.{arith}
use aegis_route.Base.Tests.{Key, ◌==◌, ==_iff, ==_refl, if◌then◌else◌}

abbrev pub Map : Type 0 → Type 0 → Type 0
Map K V = List (K × V)

module _ {K V : Type 0} ⦃key : Key K⦄ where
  -- v, ok := m[k]
  unfoldable pub lookup : K → Map K V → Option V
  lookup k [] = none
  lookup k ((at, v) ∷ entries) = if at == k then some v else lookup k entries

  -- m[k] = v
  unfoldable pub insert : K → V → Map K V → Map K V
  insert k v [] = (k, v) ∷ []
  insert k v ((at, old) ∷ entries) =
      if at == k then (k, v) ∷ entries else (at, old) ∷ insert k v entries

  -- A read after a write.
  pub lookup-insert :
      (written read : K) (new : V) (entries : Map K V)
      → lookup read (insert written new entries)
        ≡ (if written == read then some new else lookup read entries)
  unfolding insert lookup
  lookup-insert written read new [] = refl
  lookup-insert written read new ((other, old) ∷ entries) = ground (
    arith,
    ==_iff other read,
    ==_iff other written,
    ==_iff written read,
    lookup-insert written read new entries,
  )

  pub lookup-insert_self :
      (at : K) (new : V) (entries : Map K V) → lookup at (insert at new entries) ≡ some new
  lookup-insert_self at new entries = rw (lookup-insert at at new entries, ==_refl at) refl

  -- delete(m, k)
  unfoldable pub delete : K → Map K V → Map K V
  delete k [] = []
  delete k ((j, w) ∷ m) = let rest = delete k m in if j == k then rest else (j, w) ∷ rest

  pub lookup-delete :
      (k j : K) (m : Map K V) → lookup j (delete k m) ≡ (if k == j then none else lookup j m)
  unfolding lookup delete
  lookup-delete k j [] = ground arith
  lookup-delete k j ((i, w) ∷ m) =
      ground (arith, ==_iff k j, ==_iff i k, ==_iff i j, lookup-delete k j m)

  -- How many entries hold a value that passes a test.
  abbrev pub count : (V → Bool) → Map K V → ℕ
  count p [] = 0
  count p ((k, v) ∷ m) = (if p v then 1 else 0) + count p m

  pub count-insert_fresh :
      (p : V → Bool) (k : K) (v : V) (m : Map K V)
      → lookup k m ≡ none
      → count p (insert k v m) ≡ count p m + (if p v then 1 else 0)
  unfolding lookup insert
  count-insert_fresh p k v [] h = omega arith
  count-insert_fresh p k v ((j, w) ∷ m) h = ground (arith, count-insert_fresh p k v m)

  pub count-insert_old :
      (p : V → Bool) (k : K) (v w : V) (m : Map K V)
      → lookup k m ≡ some w
      → count p (insert k v m) + (if p w then 1 else 0) ≡ count p m + (if p v then 1 else 0)
  unfolding lookup insert
  count-insert_old p k v w [] h = cc
  count-insert_old p k v w ((j, x) ∷ m) h = ground (arith, count-insert_old p k v w m)

  pub count-ne-zero :
      (p : V → Bool) (k : K) (w : V) (m : Map K V)
      → lookup k m ≡ some w
      → p w ≡ true
      → 0 < count p m
  unfolding lookup
  count-ne-zero p k w [] h t = cc
  count-ne-zero p k w ((j, x) ∷ m) h t = ground (arith, count-ne-zero p k w m)

-- ===== src/Base/Tests.antt =====
-- Boolean tests on the native numbers, the conditional, and equality of map keys.
use Prim.Native.Nat.{ℕ, ◌<◌, compare, Ordering}
use Prim.Native.String.{String}
use mathlib.Core.Path.{◌≡◌, refl, ap₂, ◌∙◌}
use mathlib.Core.Logic.{◌↔◌, ◌⊎◌, inl, inr}
use mathlib.Core.Bool.{Bool, true, false, ◌&&◌}
use mathlib.Core.Option.{Option, none, some}
use native.Mathlib.Omega.{arith}
use text.Mathlib.Text.{◌==◌ as str_eq}
use text.Mathlib.TextEquality.{eq_iff}

abbrev pub ltb : ℕ → ℕ → Bool
ltb a b = elim (compare a b) [ Ordering.lt ↦ true | _ ↦ false ]

abbrev pub leb : ℕ → ℕ → Bool
leb a b = elim (compare a b) [ Ordering.gt ↦ false | _ ↦ true ]

abbrev pub nat_eq : ℕ → ℕ → Bool
nat_eq a b = elim (compare a b) [ Ordering.eq ↦ true | _ ↦ false ]

infix 1 if◌then◌else◌
abbrev pub if◌then◌else◌ {ℓ} : {A : Type ℓ} → Bool → A → A → A
if true then x else y = x
if false then x else y = y

-- A predicate on both branches holds of the conditional.
pub if-both {ℓ κ} :
    {A : Type ℓ} (P : A → Type κ) (b : Bool) (x y : A)
    → (b ≡ true → P x)
    → (b ≡ false → P y)
    → P (if b then x else y)
if-both P true x y h k = h refl
if-both P false x y h k = k refl

pub ltb→lt : (a b : ℕ) → ltb a b ≡ true → a < b
ltb→lt a b h = ground arith

pub lt→ltb : (a b : ℕ) → a < b → ltb a b ≡ true
lt→ltb a b h = ground arith

pub nat_eq_iff : (a b : ℕ) → (nat_eq a b ≡ true) ↔ (a ≡ b)
nat_eq_iff a b = ground arith

pub Bool-cases : (b : Bool) → (b ≡ true) ⊎ (b ≡ false)
Bool-cases true = inl refl
Bool-cases false = inr refl

pub Option-cases {ℓ} : {A : Type ℓ} (o : Option A) → (o ≡ none) ⊎ ((a : A) × (o ≡ some a))
Option-cases none = inl refl
Option-cases (some a) = inr (a, refl)

-- The comparison of a type of map keys.
pub record Key (K : Type 0) : Type 0 where
  pub same : K → K → Bool
  pub same_iff : (a b : K) → (same a b ≡ true) ↔ (a ≡ b)

infix 50 ◌==◌
abbrev pub ◌==◌ : {K : Type 0} ⦃k : Key K⦄ → K → K → Bool
◌==◌ ⦃k⦄ = k.same

pub ==_iff : {K : Type 0} ⦃k : Key K⦄ (a b : K) → ((a == b) ≡ true) ↔ (a ≡ b)
==_iff ⦃k⦄ = k.same_iff

pub ==_refl : {K : Type 0} ⦃k : Key K⦄ (a : K) → (a == a) ≡ true
==_refl ⦃k⦄ a = (k.same_iff a a).1 refl

pub ==_ne : {K : Type 0} ⦃k : Key K⦄ (a b : K) → ¬ (a ≡ b) → (a == b) ≡ false
==_ne a b h = elim (Bool-cases (a == b)) [ inl e ↦ absurd (h ((==_iff a b).0 e)) | inr e ↦ e ]

instance abbrev pub nat_key : Key ℕ
nat_key = record { same = nat_eq; same_iff = nat_eq_iff }

instance abbrev pub string_key : Key String
string_key = record { same = str_eq; same_iff = eq_iff }

pub pair_iff :
    {K L : Type 0} ⦃k : Key K⦄ ⦃l : Key L⦄ (a b : K × L)
    → ((a.0 == b.0 && a.1 == b.1) ≡ true) ↔ (a ≡ b)
pair_iff a b = (to (a.0 == b.0) (a.1 == b.1) refl refl, λ e. rw e (rw (==_refl b.0) (==_refl b.1)))
  where
    to : (p q : Bool) → (a.0 == b.0) ≡ p → (a.1 == b.1) ≡ q → (p && q) ≡ true → a ≡ b
    to true q e f h = ap₂ (λ x y. (x, y)) ((==_iff a.0 b.0).0 e) ((==_iff a.1 b.1).0 (f ∙ h))
    to false q e f h = ground arith

instance abbrev pub pair_key : {K L : Type 0} ⦃k : Key K⦄ ⦃l : Key L⦄ → Key (K × L)
pair_key = record { same = λ a b. a.0 == b.0 && a.1 == b.1; same_iff = pair_iff }

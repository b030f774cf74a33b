-- ===== src/Base/Fate.antt =====
-- The fate of a call on another process.
use mathlib.Core.Bool.{Bool, true, false}

-- The fate of a call on Postgres or Redis: it works, it fails and changes nothing, or it takes effect
-- and its answer is lost.
pub data Fate : Type 0 where
  works fails lost : Fate

-- What a call leaves.
abbrev pub leaves {ℓ} : {A : Type ℓ} → Fate → A → A → A
leaves fails old new = old
leaves _ old new = new

abbrev pub is_error : Fate → Bool
is_error works = false
is_error _ = true

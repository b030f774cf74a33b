-- ===== src/Queue/Claim.antt =====
-- Claim, which recovers deliveries that nobody acknowledged.
use aegis_route.Base.{
  ℕ, ◌≡◌, refl, sym, inl, inr, true, nat_key, ◌==◌, if◌then◌else◌, Option, none, some, [], ◌∷◌,
  arith, Bool-cases,
}
use mathlib.Core.List.{Mem, mem-cons_self, mem-cons_of_mem}
use aegis_route.Base.Map.{Map, lookup}
use aegis_route.Queue.{InflightMsg, MemQueue, is_idle, redelivered, idle_messages, claim}

-- What a claim makes of a delivery.
abbrev pub refreshed : ℕ → ℕ → Option InflightMsg → Option InflightMsg
refreshed now min_idle none = none
refreshed now min_idle (some e) =
    some (if is_idle now min_idle e then record e { delivered_at = now } else e)

pub lookup-redelivered :
    (now min_idle n : ℕ) (m : Map ℕ InflightMsg)
    → lookup n (redelivered now min_idle m) ≡ refreshed now min_idle (lookup n m)
unfolding lookup redelivered
lookup-redelivered now min_idle n [] = refl
lookup-redelivered now min_idle n ((id, e) ∷ m) = elim (Bool-cases (id == n)) [
  | inl same ↦ rw same refl
  | inr other ↦ rw other (lookup-redelivered now min_idle n m)
]

idle_messages-Mem :
    (now min_idle n : ℕ) (e : InflightMsg) (m : Map ℕ InflightMsg)
    → lookup n m ≡ some e
    → is_idle now min_idle e ≡ true
    → Mem e.msg (idle_messages now min_idle m)
unfolding lookup idle_messages
idle_messages-Mem now min_idle n e [] found idle = ground arith
idle_messages-Mem now min_idle n e ((id, x) ∷ m) found idle = elim (Bool-cases (id == n)) [
  | inl same ↦
      let is : x ≡ e = ground arith in
      let idle_x : is_idle now min_idle x ≡ true = rw is idle in
      rw (sym is) (rw idle_x mem-cons_self)
  | inr other ↦
      let rest = idle_messages-Mem now min_idle n e m (ground arith) idle in
      elim (Bool-cases (is_idle now min_idle x)) [
        | inl too ↦ rw too (mem-cons_of_mem x.msg rest)
        | inr fresh ↦ rw fresh rest
      ]
]

-- A claim hands out every message whose delivery has been idle for min_idle, and it stays in flight
-- with the time of the claim; a delivery that is not idle stays as it was.
pub claim-Redelivers :
    (q : MemQueue) (now min_idle n : ℕ)
    → (lookup n (claim q now min_idle).0.inflight ≡ refreshed now min_idle (lookup n q.inflight))
      × ((e : InflightMsg)
          → lookup n q.inflight ≡ some e
          → is_idle now min_idle e ≡ true
          → Mem e.msg (claim q now min_idle).1)
unfolding claim
claim-Redelivers q now min_idle n = (
  lookup-redelivered now min_idle n q.inflight,
  λ e found idle. idle_messages-Mem now min_idle n e q.inflight found idle,
)

pub refreshed-some :
    (now min_idle : ℕ) (o : Option InflightMsg) (e : InflightMsg)
    → refreshed now min_idle o ≡ some e
    → (old : InflightMsg) × (o ≡ some old) × (e.msg ≡ old.msg)
refreshed-some now min_idle none e same = ground arith
refreshed-some now min_idle (some old) e same = (old, refl, ground arith)

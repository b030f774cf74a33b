-- ===== src/Queue.antt =====
-- internal/redisstore/memqueue.go: the in-memory queue with the semantics of the stream. Each method is
-- one hold of the mutex; the clock's reading is an argument, and a message's id is the number that
-- `mem-%d` prints, which the code only compares.
pub mod Claim
pub mod Delivery
pub mod Kept
mod Scenarios
use aegis_route.Base.{
  ℕ, suc, ◌+◌, ◌-◌, Bool, true, false, nat_key, leb, if◌then◌else◌, String, Option, none, some,
  List, [], ◌∷◌, ◌++◌, length,
}
use aegis_route.Base.Map.{Map, insert, delete}
use aegis_route.Models.{Uuid}

pub record Message : Type 0 where
  pub id : ℕ
  pub job_id : String

pub record DlqEntry : Type 0 where
  pub msg : Message
  pub reason : String

pub record InflightMsg : Type 0 where
  pub msg : Message
  pub delivered_at : ℕ

pub record MemQueue : Type 0 where
  pub next_id : ℕ
  pub pending : List Message
  pub inflight : Map ℕ InflightMsg
  pub dlq : List DlqEntry
  pub published : List String
  pub acked : List Message
  pub publish_err : Option String

unfoldable pub new_mem_queue : MemQueue
new_mem_queue = record {
  next_id = 0;
  pending = [];
  inflight = [];
  dlq = [];
  published = [];
  acked = [];
  publish_err = none;
}

unfoldable pub set_publish_err : MemQueue → Option String → MemQueue
set_publish_err q e = record q { publish_err = e }

publish_with : MemQueue → String → Option String → MemQueue × Option String
publish_with q job (some e) = (q, some e)
publish_with q job none =
    let n = q.next_id + 1 in
    (
      record q {
        next_id = n;
        pending = q.pending ++ record { id = n; job_id = job } ∷ [];
        published = q.published ++ job ∷ [];
      },
      none,
    )

unfoldable pub publish : MemQueue → String → MemQueue × Option String
unfolding publish_with
publish q job = publish_with q job q.publish_err

take_first : MemQueue → ℕ → List Message → MemQueue × Option Message
take_first q now [] = (q, none)
take_first q now (msg ∷ rest) = (
  record q {
    pending = rest;
    inflight = insert msg.id (record { msg = msg; delivered_at = now }) q.inflight;
  },
  some msg,
)

unfoldable pub take_one : MemQueue → ℕ → MemQueue × Option Message
unfolding take_first
take_one q now = take_first q now q.pending

unfoldable pub ack : MemQueue → Message → MemQueue
ack q msg = record q { inflight = delete msg.id q.inflight; acked = q.acked ++ msg ∷ [] }

-- A delivery that has been idle for min_idle.
abbrev pub is_idle : ℕ → ℕ → InflightMsg → Bool
is_idle now min_idle e = leb (e.delivered_at + min_idle) now

-- The deliveries after a claim: an idle one is delivered again, now.
unfoldable pub redelivered : ℕ → ℕ → Map ℕ InflightMsg → Map ℕ InflightMsg
redelivered now min_idle [] = []
redelivered now min_idle ((id, e) ∷ m) =
    (id, if is_idle now min_idle e then record e { delivered_at = now } else e)
    ∷ redelivered now min_idle m

unfoldable pub idle_messages : ℕ → ℕ → Map ℕ InflightMsg → List Message
idle_messages now min_idle [] = []
idle_messages now min_idle ((id, e) ∷ m) =
    let rest = idle_messages now min_idle m in if is_idle now min_idle e then e.msg ∷ rest else rest

unfoldable pub claim : MemQueue → ℕ → ℕ → MemQueue × List Message
unfolding redelivered idle_messages
claim q now min_idle = (
  record q { inflight = redelivered now min_idle q.inflight },
  idle_messages now min_idle q.inflight,
)

unfoldable pub publish_dlq : MemQueue → Message → String → MemQueue
publish_dlq q msg reason = record q { dlq = q.dlq ++ record { msg = msg; reason = reason } ∷ [] }

abbrev pub publish_count : MemQueue → ℕ
publish_count q = length q.published

abbrev pub in_flight_count : MemQueue → ℕ
in_flight_count q = length q.inflight

abbrev pub pending_count : MemQueue → ℕ
pending_count q = length q.pending

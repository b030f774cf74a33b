-- ===== src/Jobs/Store/Outbox.antt =====
-- What the two marks do to the rows of the outbox.
use aegis_route.Base.{
  ℕ, ◌+◌, ◌≡◌, inl, inr, nat_key, ◌==◌, ==_iff, String, if◌then◌else◌, Option, none, some, arith,
  Option-cases,
}
use aegis_route.Base.Map.{lookup, lookup-insert}
use aegis_route.Models.{Uuid, BatchJobOutbox, OutboxStatus}
use aegis_route.Jobs.Store.{
  MemStore, is_pending, change_outbox, mark_outbox_published, mark_outbox_failed_attempt,
}

-- The row after a change that only a pending row takes.
abbrev pub changed :
    (BatchJobOutbox → BatchJobOutbox) → Option BatchJobOutbox → Option BatchJobOutbox
changed f none = none
changed f (some ob) = some (if is_pending ob.status then f ob else ob)

lookup-change_outbox :
    (f : BatchJobOutbox → BatchJobOutbox) (s : MemStore) (id j : Uuid)
    → lookup j (change_outbox f s id (lookup id s.outbox)).0.outbox
      ≡ (if id == j then changed f (lookup j s.outbox) else lookup j s.outbox)
unfolding change_outbox
lookup-change_outbox f s id j = elim (Option-cases (lookup id s.outbox)) [
  | inl none_ ↦ ground (arith, ==_iff {K = Uuid} id j)
  | inr (ob, found) ↦ ground (arith, ==_iff {K = Uuid} id j, lookup-insert id j (f ob) s.outbox)
]

abbrev pub published_at : ℕ → BatchJobOutbox → BatchJobOutbox
published_at now ob = record ob {
  status = OutboxStatus.published;
  published_at = some now;
  updated_at = now;
}

abbrev pub failed_at : ℕ → String → BatchJobOutbox → BatchJobOutbox
failed_at now e ob = record ob { attempts = ob.attempts + 1; last_error = some e; updated_at = now }

pub lookup-mark_outbox_published :
    (s : MemStore) (now : ℕ) (id j : Uuid)
    → lookup j (mark_outbox_published s now id).0.outbox
      ≡ (if id == j then changed (published_at now) (lookup j s.outbox) else lookup j s.outbox)
unfolding mark_outbox_published
lookup-mark_outbox_published s now id j = lookup-change_outbox (published_at now) s id j

pub lookup-mark_outbox_failed_attempt :
    (s : MemStore) (now : ℕ) (id j : Uuid) (e : String)
    → lookup j (mark_outbox_failed_attempt s now id e).0.outbox
      ≡ (if id == j then changed (failed_at now e) (lookup j s.outbox) else lookup j s.outbox)
unfolding mark_outbox_failed_attempt
lookup-mark_outbox_failed_attempt s now id j e = lookup-change_outbox (failed_at now e) s id j

-- The marks change the outbox only.
pub mark_outbox_published-spares :
    (s : MemStore) (now : ℕ) (id : Uuid)
    → let s' = (mark_outbox_published s now id).0 in (s'.jobs ≡ s.jobs) × (s'.items ≡ s.items)
unfolding mark_outbox_published change_outbox
mark_outbox_published-spares s now id = ground arith

pub mark_outbox_failed_attempt-spares :
    (s : MemStore) (now : ℕ) (id : Uuid) (e : String)
    → let s' = (mark_outbox_failed_attempt s now id e).0 in
      (s'.jobs ≡ s.jobs) × (s'.items ≡ s.items)
unfolding mark_outbox_failed_attempt change_outbox
mark_outbox_failed_attempt-spares s now id e = ground arith

-- ===== src/Worker/Pass/Kept.antt =====
-- What no event of the pool changes: the number of its goroutines, and the acknowledgements.
use aegis_route.Base.{
  ℕ, ◌≡◌, refl, true, ◌∙◌, nat_key, Option, none, some, List, [], ◌∷◌, arith, length,
}
use aegis_route.Models.{Uuid}
use aegis_route.Jobs.Store.{MemStore}
use aegis_route.Jobs.Store.Items.{step}
use aegis_route.Queue.{Message, publish_dlq}
use aegis_route.Worker.Pass.{
  Event, Member, Pool, Printers, after_claim, after_finish, claim_step, elsewhere, ends,
  finish_step, finishes, get_elem?, member_step, moved, panics, pool_run, pool_step, tests,
}
use aegis_route.Worker.Pass.Steps.{length-set}

module _ (print : Printers) (max : ℕ) (msg : Message) (job : Uuid) where
  -- A view of the pool that neither a member's move nor what happens around the pool changes.
  module _ {A : Type 0} (view : Pool → A)
      (member_keeps : (p : Pool) (i : ℕ) (m : Member) (e : Event)
        → view (member_step print max msg job p i m e) ≡ view p)
      (ends_keeps : (p : Pool) → view (record p { ended = true }) ≡ view p)
      (store_keeps : (p : Pool) (s : MemStore) → view (record p { store = s }) ≡ view p) where
    moved-keeps :
        (p : Pool) (i : ℕ) (o : Option Member) (e : Event)
        → view (moved print max msg job p i o e) ≡ view p
    unfolding moved
    moved-keeps p i none e = refl
    moved-keeps p i (some m) e = member_keeps p i m e

    pool_step-keeps : (p : Pool) (e : Event) → view (pool_step print max msg job p e) ≡ view p
    unfolding pool_step
    pool_step-keeps p (tests i) = moved-keeps p i (get_elem? p.members i) (tests i)
    pool_step-keeps p (Event.claims i now fate dlq) =
        moved-keeps p i (get_elem? p.members i) (Event.claims i now fate dlq)
    pool_step-keeps p (finishes i now ending fate) =
        moved-keeps p i (get_elem? p.members i) (finishes i now ending fate)
    pool_step-keeps p (panics i) = moved-keeps p i (get_elem? p.members i) (panics i)
    pool_step-keeps p ends = ends_keeps p
    pool_step-keeps p (elsewhere now op) = store_keeps p (step p.store now op)

    pool_run-keeps : (p : Pool) (es : List Event) → view (pool_run print max msg job p es) ≡ view p
    unfolding pool_run
    pool_run-keeps p [] = refl
    pool_run-keeps p (e ∷ es) =
        pool_run-keeps (pool_step print max msg job p e) es ∙ pool_step-keeps p e

  member_step-acked :
      (p : Pool) (i : ℕ) (m : Member) (e : Event)
      → (member_step print max msg job p i m e).queue.acked ≡ p.queue.acked
  unfolding member_step claim_step after_claim finish_step after_finish publish_dlq
  member_step-acked p i m e = ground arith

  pub pool_run-acked :
      (p : Pool) (es : List Event) → (pool_run print max msg job p es).queue.acked ≡ p.queue.acked
  pool_run-acked = pool_run-keeps (λ p. p.queue.acked) member_step-acked (λ p. refl) (λ p s. refl)

  member_step-length :
      (p : Pool) (i : ℕ) (m : Member) (e : Event)
      → length (member_step print max msg job p i m e).members ≡ length p.members
  unfolding member_step claim_step after_claim finish_step after_finish
  member_step-length p i m e = grind (arith, length-set)

  pub pool_run-length :
      (p : Pool) (es : List Event)
      → length (pool_run print max msg job p es).members ≡ length p.members
  pool_run-length =
      pool_run-keeps (λ p. length p.members) member_step-length (λ p. refl) (λ p s. refl)

-- ===== src/Issues/Outbox/Passed.antt =====
-- No later pass lists an action that a pass has taken, whatever became of it.
use generic_coding_agent.Prelude.{
  ℕ, zero, suc, String, Bool, false, List, [], ◌∷◌, keep_if, take, ◌≡◌, refl, any, arith,
  Bool-cases, inl, inr,
}
use generic_coding_agent.Prelude.Text.{str_eq}
use generic_coding_agent.Json.{Fields}
use generic_coding_agent.Issues.Models.{OutboundAction, OutboundActionStatus, is_pending}
use generic_coding_agent.Issues.Tables.{Tables, WorkError, unit_of_work}
use generic_coding_agent.Issues.Work.{save_outbound_action}
use generic_coding_agent.Issues.Contracts.{Ensures-result, ok-Ensures}
use generic_coding_agent.Issues.Outbox.Publish.{Draws}
use generic_coding_agent.Issues.Outbox.Handlers.{Services, Handled, done, failed}
use generic_coding_agent.Issues.Outbox.Process.{
  EventIds, insert_action, oldest_first, list_pending_outbound, leased, succeeded, succeed, fail,
  give_up, finish, process_one,
}
use generic_coding_agent.Issues.Outbox.Once.{
  is_listed, IsTaken, save_outbound_action-IsTaken, conclude-IsTaken, handle-IsTaken,
}

abbrev pub has_id : String → OutboundAction → Bool
has_id id a = str_eq a.id id

module _ (id : String) where
  any-insert_action :
      (a : OutboundAction) (xs : List OutboundAction)
      → str_eq a.id id ≡ false
      → any (has_id id) xs ≡ false
      → any (has_id id) (insert_action a xs) ≡ false
  unfolding insert_action
  any-insert_action a [] f h = ground arith
  any-insert_action a (x ∷ xs) f h = let rest = any-insert_action a xs f in ground arith

  any-oldest_first :
      (xs : List OutboundAction)
      → any (is_listed id) xs ≡ false
      → any (has_id id) (oldest_first (keep_if (λ (a : OutboundAction). is_pending a.status) xs))
        ≡ false
  unfolding oldest_first
  any-oldest_first [] h = refl
  any-oldest_first (x ∷ xs) h =
      let rest = any-oldest_first xs in
      let inserted =
        any-insert_action x
          (oldest_first (keep_if (λ (a : OutboundAction). is_pending a.status) xs)) in
      elim (Bool-cases (is_pending x.status)) [ inl e ↦ ground arith | inr e ↦ ground arith ]

  any-take :
      (n : ℕ) (xs : List OutboundAction)
      → any (has_id id) xs ≡ false
      → any (has_id id) (take n xs) ≡ false
  any-take zero xs h = refl
  any-take (suc n) [] h = refl
  any-take (suc n) (x ∷ xs) h = let rest = any-take n xs in ground arith

  list_pending_outbound-IsTaken :
      (limit : ℕ) (t : Tables)
      → IsTaken id t
      → any (has_id id) (list_pending_outbound limit t) ≡ false
  unfolding list_pending_outbound
  list_pending_outbound-IsTaken limit t h = any-take _ _ (any-oldest_first t.outbound h)

module _ (services : Services) (draws : Draws) (ids : EventIds) (action : OutboundAction) where
  give_up-IsTaken :
      (a : OutboundAction) (now : ℕ) (error : String) (t : Tables) (w : services.W)
      → IsTaken a.id t
      → IsTaken a.id (give_up services ids now a error t w).1
  unfolding give_up fail
  give_up-IsTaken a now error t w h = Ensures-result (IsTaken a.id) _ t h (
      (conclude-IsTaken ids.failed_id now
          (record a { status = OutboundActionStatus.failed; last_error = services.redact error }) _
          refl).runs
        t tt)

  succeed-IsTaken :
      (a : OutboundAction) (now : ℕ) (result : Fields) (t : Tables)
      → IsTaken a.id t
      → IsTaken a.id (unit_of_work (succeed ids.succeeded_id now a result) t).1
  unfolding succeed
  succeed-IsTaken a now result t h =
      Ensures-result (IsTaken a.id) _ t h
        ((conclude-IsTaken ids.succeeded_id now (succeeded result a) _ refl).runs t tt)

  finish-IsTaken :
      (a : OutboundAction) (now : ℕ) (m : Handled services)
      → IsTaken a.id m.1
      → IsTaken a.id (finish services ids now a m).1
  unfolding finish
  finish-IsTaken a now (failed e, t, w) h = give_up-IsTaken a now e t w h
  finish-IsTaken a now (done result, t, w) h =
      let ended = succeed-IsTaken a now result t h in
      let given_up = λ (e : WorkError).
        give_up-IsTaken (succeeded result a) now (services.error_text e)
          (unit_of_work (succeed ids.succeeded_id now a result) t).1 w ended in
      grind (arith, given_up)

  taken :
      (t : Tables) (w : services.W)
      → (str_eq draws.note_id action.id ≡ false) × (str_eq draws.merge_id action.id ≡ false)
      → IsTaken action.id (process_one services draws ids action t w).1
  unfolding process_one unit_of_work save_outbound_action
  taken t w fresh =
      let now = draws.now in
      let stored =
        ok-Ensures (IsTaken action.id) _ _
          ((save_outbound_action-IsTaken (leased now action) now refl).runs t tt) in
      finish-IsTaken (leased now action) now _
        (handle-IsTaken services (leased now action) draws action.id fresh _ w stored)

  -- After a pass on an action, whether it succeeds, fails or raises, `list_pending_outbound` gives no row
  -- with its identifier, at any limit, when the notes and merges that the pass inserts have other
  -- identifiers.
  pub process_one-IsTaken :
      (t : Tables) (w : services.W) (limit : ℕ)
      → (str_eq draws.note_id action.id ≡ false) × (str_eq draws.merge_id action.id ≡ false)
      → any
          (has_id action.id)
          (list_pending_outbound limit (process_one services draws ids action t w).1)
        ≡ false
  process_one-IsTaken t w limit fresh =
      list_pending_outbound-IsTaken action.id limit _ (taken t w fresh)

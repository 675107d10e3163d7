-- ===== src/Issues/Outbox/Once.antt =====
-- An action that a pass takes is not pending afterwards.
use generic_coding_agent.Prelude.{
  ℕ, String, Bool, false, ◌&&◌, ◌++◌, List, [], ◌∷◌, ◌≡◌, refl, any, arith, Bool-cases, inl, inr,
  find_first, Option,
}
use generic_coding_agent.Prelude.Text.{str_eq}
use generic_coding_agent.Json.{Fields}
use generic_coding_agent.Issues.Models.{
  IssueSession, IssueGeneration, ScmLink, OutboundAction, is_pending,
}
use generic_coding_agent.Issues.Tables.{Tables, WorkError, ok, err}
use generic_coding_agent.Issues.Work.{
  replace, is_refused, save_outbound_action, insert_outbound_action, upsert_scm_link, save_session,
  save_generation, append_event,
}
use generic_coding_agent.Issues.Contracts.{
  Keeps, Contract, Ensures-ok, Ensures-err, Ensures-option, ensures_rules, keeps_rules,
  Contract-chain, Ensures-result,
}
use generic_coding_agent.Issues.Ingestion.Records.{new_note}
use generic_coding_agent.Issues.Outbox.Publish.{
  Published, Draws, maybe_merge, merge_action, record_publication,
}
use generic_coding_agent.Issues.Outbox.Handlers.{
  Services, Attempt, done, failed, calling, post_issue_note, merge_mr, branch_of, true_text,
  publish, record_published, publish_for, publish_changes,
}
use generic_coding_agent.Issues.Outbox.Process.{conclude, handle}
use generic_coding_agent.Issues.Contracts.Statements.{
  query_rules, save_session-Keeps, save_generation-Keeps, append_event-Keeps,
}

abbrev pub is_listed : String → OutboundAction → Bool
is_listed id a = str_eq a.id id && is_pending a.status

-- No row with the identifier is pending.
abbrev pub IsTaken : String → Tables → Type 0
IsTaken id t = any (is_listed id) t.outbound ≡ false

module _ (id : String) where
  append_one-IsTaken :
      (a : OutboundAction) (xs : List OutboundAction)
      → str_eq a.id id ≡ false
      → any (is_listed id) xs ≡ false
      → any (is_listed id) (xs ++ a ∷ []) ≡ false
  append_one-IsTaken a [] f h = ground arith
  append_one-IsTaken a (x ∷ xs) f h = let rest = append_one-IsTaken a xs f in ground arith

  replace-IsTaken :
      (a : OutboundAction) (xs : List OutboundAction)
      → is_pending a.status ≡ false
      → any (is_listed id) (replace (λ (b : OutboundAction). str_eq b.id id) a xs) ≡ false
  replace-IsTaken a [] f = refl
  replace-IsTaken a (x ∷ xs) f =
      let rest = replace-IsTaken a xs f in
      elim (Bool-cases (str_eq x.id id)) [ inl e ↦ ground arith | inr e ↦ ground arith ]

  insert_outbound_action-IsTaken :
      (a : OutboundAction) → str_eq a.id id ≡ false → Keeps (IsTaken id) (insert_outbound_action a)
  unfolding insert_outbound_action
  insert_outbound_action-IsTaken a f = record {
    runs = λ t p. elim (Bool-cases (is_refused a t)) [
      | inl h ↦
          rw (h, insert_outbound_action)
            (Ensures-option (IsTaken id)
              (find_first (λ (b : OutboundAction). str_eq b.effect_key a.effect_key) t.outbound)
              (err WorkError.integrity) (λ b. ok b t) (λ e. Ensures-err _ (IsTaken id) _)
              (λ b e. Ensures-ok (IsTaken id) b t p))
      | inr h ↦
          rw (h, insert_outbound_action)
            (Ensures-ok (IsTaken id) a _ (append_one-IsTaken a t.outbound f p))
    ];
  }

  upsert_scm_link-IsTaken :
      (now : ℕ) (link : ScmLink) → Keeps (IsTaken id) (upsert_scm_link now link)
  unfolding upsert_scm_link
  upsert_scm_link-IsTaken now link = record {
    runs = λ t p.
        Ensures-option (IsTaken id)
          (find_first (λ (l : ScmLink). str_eq l.generation_id link.generation_id) t.links) _ _
          (λ e. search ensures_rules) (λ l e. search ensures_rules);
  }

  save_session-IsTaken :
      (now : ℕ) (session : IssueSession) → Keeps (IsTaken id) (save_session now session)
  save_session-IsTaken = save_session-Keeps _ (λ t xs h. h)

  save_generation-IsTaken :
      (now : ℕ) (generation : IssueGeneration) → Keeps (IsTaken id) (save_generation now generation)
  save_generation-IsTaken = save_generation-Keeps _ (λ t xs h. h)

  append_event-IsTaken :
      (event_id : String) (now : ℕ) (session kind : String) (payload : Fields)
      (generation_id turn_id : Option String)
      → Keeps (IsTaken id) (append_event event_id now session kind payload generation_id turn_id)
  append_event-IsTaken = append_event-Keeps _ (λ t xs h. h)

module _ (action : OutboundAction) where
  pub save_outbound_action-IsTaken :
      (now : ℕ)
      → is_pending action.status ≡ false
      → Contract (λ t. Unit {0}) (save_outbound_action now action) (IsTaken action.id)
  unfolding save_outbound_action
  save_outbound_action-IsTaken now f = record {
    runs = λ t p.
        Ensures-ok (IsTaken action.id) _ _
          (replace-IsTaken action.id (record action { updated_at = now }) t.outbound f);
  }

module _ (id : String) (draws : Draws)
    (fresh : (str_eq draws.note_id id ≡ false) × (str_eq draws.merge_id id ≡ false)) where
  maybe_merge-IsTaken :
      (is_allowed : Bool) (session : IssueSession) (generation : IssueGeneration) (link : ScmLink)
      (published : Published)
      → Keeps (IsTaken id) (maybe_merge is_allowed draws session generation link published)
  unfolding maybe_merge merge_action
  maybe_merge-IsTaken is_allowed session generation link published = search (
    keeps_rules,
    insert_outbound_action-IsTaken id (merge_action draws session generation link published.mr_iid)
        fresh.1,
  )

  note-IsTaken :
      (session_id generation_id : String) (turn_id : Option String) (key : String)
      (payload : Fields)
      → Keeps (IsTaken id) (
          insert_outbound_action
            (new_note draws.note_id draws.now session_id generation_id turn_id key payload))
  unfolding new_note
  note-IsTaken session_id generation_id turn_id key payload =
      insert_outbound_action-IsTaken id
        (new_note draws.note_id draws.now session_id generation_id turn_id key payload) fresh.0

  record_publication-IsTaken :
      (is_allowed : Bool) (action : OutboundAction) (session : IssueSession)
      (seen : IssueGeneration) (branch : String) (published : Published)
      → Keeps
          (IsTaken id)
          (record_publication is_allowed draws action session seen branch published)
  unfolding record_publication
  record_publication-IsTaken is_allowed action session seen branch published =
      search
        (
          keeps_rules, query_rules, upsert_scm_link-IsTaken, save_session-IsTaken,
          save_generation-IsTaken, note-IsTaken, maybe_merge-IsTaken,
        )
        depth 20

pub conclude-IsTaken :
    (event_id : String) (now : ℕ) (a : OutboundAction) (payload : Fields)
    → is_pending a.status ≡ false
    → Contract (λ t. Unit {0}) (conclude event_id now a payload) (IsTaken a.id)
unfolding conclude
conclude-IsTaken event_id now a payload f =
    Contract-chain _ _ (save_outbound_action-IsTaken a now f)
      (λ saved. search (keeps_rules, append_event-IsTaken))

module _ (services : Services) (action : OutboundAction) where
  calling-same : (t : Tables) (m : Attempt Fields × services.W) → (calling services t m).1 ≡ t
  unfolding calling
  calling-same t (attempt, w) = refl

  post_issue_note-same : (t : Tables) (w : services.W) → (post_issue_note services action t w).1 ≡ t
  unfolding post_issue_note
  post_issue_note-same t w = grind (arith, calling-same)

  merge_mr-same : (t : Tables) (w : services.W) → (merge_mr services action t w).1 ≡ t
  unfolding merge_mr
  merge_mr-same t w = grind (arith, calling-same)

  module _ (draws : Draws) (id : String)
      (fresh : (str_eq draws.note_id id ≡ false) × (str_eq draws.merge_id id ≡ false)) where
    record_published-IsTaken :
        (session : IssueSession) (generation : IssueGeneration) (t : Tables)
        (m : Attempt Published × services.W)
        → IsTaken id t
        → IsTaken id (record_published services draws action session generation t m).1
    unfolding record_published
    record_published-IsTaken session generation t (done published, w) h =
        let recorded =
          Ensures-result (IsTaken id)
            (record_publication (services.is_allowed session.project_id) draws action session
              generation (branch_of services session generation) published)
            t h
            ((record_publication-IsTaken id draws fresh (services.is_allowed session.project_id)
                action session generation (branch_of services session generation) published).runs
              t h) in
        ground arith
    record_published-IsTaken session generation t (failed e, w) h = h

    publish_for-IsTaken :
        (session : IssueSession) (generation : IssueGeneration) (link : Option ScmLink) (t : Tables)
        (w : services.W)
        → IsTaken id t
        → IsTaken id (publish_for services draws action session generation link t w).1
    unfolding publish_for
    publish_for-IsTaken session generation link t w h =
        let workspace = true_text services "workspace_path" "" action.payload in
        let recorded =
          record_published-IsTaken session generation t
            (publish services action workspace session generation link w) h in
        ground arith

    publish_changes-IsTaken :
        (t : Tables) (w : services.W)
        → IsTaken id t
        → IsTaken id (publish_changes services draws action t w).1
    unfolding publish_changes
    publish_changes-IsTaken t w h = grind (arith, publish_for-IsTaken)

    pub handle-IsTaken :
        (t : Tables) (w : services.W)
        → IsTaken id t
        → IsTaken id (handle services draws action t w).1
    unfolding handle
    handle-IsTaken t w h =
        let note = post_issue_note-same t w in
        let merge = merge_mr-same t w in
        let published = publish_changes-IsTaken t w h in ground arith

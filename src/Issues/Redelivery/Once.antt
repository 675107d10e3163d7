-- ===== src/Issues/Redelivery/Once.antt =====
-- An ingestion stores its delivery, and a repetition finds it.
use generic_coding_agent.Prelude.{
  String, Bool, true, false, not, Option, none, some, [], ◌∷◌, ◌++◌, ◌≡◌, refl, any-In,
  Option-cases, inl, inr, find_first, find_first-In, any-find_first, subst, In, ◌∙◌, both_true,
}
use generic_coding_agent.Prelude.Int.{ℤ}
use generic_coding_agent.Prelude.Text.{str_eq, eq_iff}
use generic_coding_agent.Issues.Models.{IssueSession, InboundEvent}
use generic_coding_agent.Issues.Tables.{Tables, committed, ok, ◌>>=◌, pure}
use generic_coding_agent.Issues.Work.{insert_inbound_event, find_delivery}
use generic_coding_agent.Issues.Contracts.{
  unit_of_work-ok, Ensures, ok-Ensures, Ensures-ok, Contract, Contract-chain, Contract-if,
  ensures_rules, keeps_rules,
}
use generic_coding_agent.Issues.Contracts.Chains.{
  kept_rules, active_generation-Keeps, respond-Keeps, resolve_session-Keeps, retitle-Keeps,
}
use generic_coding_agent.Issues.Events.{
  NormalizedGitLabEvent, WebhookRegistration, ActorDecision, authorize,
}
use generic_coding_agent.Issues.Ingestion.Records.{
  Environment, Draws, IngestResult, outcome, inbound_event, store_only,
}
use generic_coding_agent.Issues.Ingestion.Start.{start_turn, start_session}
use generic_coding_agent.Issues.Ingestion.Existing.{handle_existing}
use generic_coding_agent.Issues.Ingestion.Ingest.{
  resolve_session, open_session, dispatch, ingest_unless, ingest_event, duplicate_caught, ingest,
}
use generic_coding_agent.Issues.Redelivery.{
  Always, Always-IsKept, IsDelivered, IsDelivered-IsKept, any-append_one, is_delivery,
}

module _ (env : Environment) (draws : Draws) (event : NormalizedGitLabEvent) where
  delivered :
      (stored : InboundEvent) (t : Tables)
      → is_delivery event.delivery_id stored ≡ true
      → IsDelivered event.delivery_id (record t { inbound = t.inbound ++ stored ∷ [] })
  delivered stored t h = any-append_one (is_delivery event.delivery_id) stored t.inbound h

  insert_inbound_event-delivers :
      (authorized : Bool) (reason : String) (session_id generation_id : Option String)
      → Contract Always
          (insert_inbound_event
            (inbound_event env draws event authorized reason session_id generation_id))
          (IsDelivered event.delivery_id)
  unfolding insert_inbound_event inbound_event
  insert_inbound_event-delivers authorized reason session_id generation_id = record {
    runs = λ t d.
        let this : is_delivery event.delivery_id
              (inbound_event env draws event authorized reason session_id generation_id)
            ≡ true =
          (eq_iff event.delivery_id event.delivery_id).1 refl in
        search (ensures_rules, delivered);
  }

  store_only-delivers :
      (authorized : Bool) (reason : String)
      → Contract Always
          (store_only env draws event authorized reason)
          (IsDelivered event.delivery_id)
  unfolding store_only
  store_only-delivers authorized reason =
      Contract-chain _ _ (insert_inbound_event-delivers authorized reason none none)
        (λ stored. search keeps_rules)

  start_turn-delivers :
      (registration : WebhookRegistration) (decision : ActorDecision) (issue_iid : ℤ)
      → Contract Always
          (start_turn env draws event registration decision issue_iid)
          (IsDelivered event.delivery_id)
  unfolding start_turn
  start_turn-delivers registration decision issue_iid =
      let after = IsDelivered-IsKept event.delivery_id in
      Contract-chain _ _ (Always-IsKept.by_upsert_session _) λ upserted.
        Contract-chain _ _ (retitle-Keeps Always-IsKept _ _ _) λ titled.
          Contract-chain _ _ (Always-IsKept.by_insert_generation _) λ generation.
            Contract-chain _ _ (Always-IsKept.by_save_session _ _) λ session.
              Contract-chain _ _ (Always-IsKept.by_insert_turn _) λ inserted.
                Contract-chain _ _ (Always-IsKept.by_create_turn_job _ _ _ _ _ _ _) λ created.
                  Contract-chain _ _ (Always-IsKept.by_save_turn _ _) λ turn.
                    Contract-chain _ _ (insert_inbound_event-delivers _ _ _ _)
                      λ inbound. search kept_rules depth 8

  start_session-delivers :
      (registration : WebhookRegistration) (decision : ActorDecision)
      → Contract Always
          (start_session env draws event registration decision)
          (IsDelivered event.delivery_id)
  unfolding start_session
  start_session-delivers registration decision = elim (Option-cases event.issue_iid) [
    | inl e ↦ rw (e, start_session) (search store_only-delivers)
    | inr (issue_iid, e) ↦
        rw (e, start_session) (search (Contract-if, store_only-delivers, start_turn-delivers))
  ]

  handle_existing-delivers :
      (session : IssueSession) (decision : ActorDecision)
      → Contract Always
          (handle_existing env draws session event decision)
          (IsDelivered event.delivery_id)
  unfolding handle_existing
  handle_existing-delivers session decision =
      let after = IsDelivered-IsKept event.delivery_id in
      Contract-chain _ _ (active_generation-Keeps Always-IsKept _) λ generation.
        Contract-chain _ _ (insert_inbound_event-delivers _ _ _ _)
          λ inbound. search (kept_rules, respond-Keeps)

  dispatch-delivers :
      (registration : WebhookRegistration) (decision : ActorDecision)
      (session : Option IssueSession)
      → Contract Always
          (dispatch env draws event registration decision session)
          (IsDelivered event.delivery_id)
  unfolding dispatch open_session
  dispatch-delivers registration decision none =
      search (Contract-if, store_only-delivers, start_session-delivers)
  dispatch-delivers registration decision (some session) = search handle_existing-delivers

  ingest_unless-delivers :
      (registration : WebhookRegistration)
      → Contract Always
          (ingest_unless env draws event registration none)
          (IsDelivered event.delivery_id)
  unfolding ingest_unless
  ingest_unless-delivers registration =
      Contract-if (not event.relevant) (store_only env draws event false event.ignore_reason)
        (resolve_session event
          >>= dispatch env draws event registration (authorize env.access_level event registration))
        (λ h. store_only-delivers false event.ignore_reason)
        (λ h.
          Contract-chain _ _ (resolve_session-Keeps Always-IsKept event)
            (dispatch-delivers registration (authorize env.access_level event registration)))

  -- An event that is ingested has its delivery stored.
  ingest_event-delivers :
      (registration : WebhookRegistration)
      → Contract Always (ingest_event env draws event registration) (IsDelivered event.delivery_id)
  unfolding ingest_event find_delivery ◌>>=◌ ingest_unless pure
  ingest_event-delivers registration = record {
    runs = λ t a. elim (Option-cases (find_first (is_delivery event.delivery_id) t.inbound)) [
      | inl e ↦ rw e ((ingest_unless-delivers registration).runs t a)
      | inr (stored, e) ↦
          let (i, d) = find_first-In (is_delivery event.delivery_id) t.inbound stored e in
          rw e (
            Ensures-ok (IsDelivered event.delivery_id) _ t
              (any-In (is_delivery event.delivery_id) stored t.inbound i d))
    ];
  }

found_stored :
    (env : Environment) (draws : Draws) (event : NormalizedGitLabEvent)
    (registration : WebhookRegistration) (t : Tables) (stored : InboundEvent)
    → find_first (is_delivery event.delivery_id) t.inbound ≡ some stored
    → ingest_event env draws event registration t
      ≡ ok (outcome "duplicate" event stored.issue_session_id none (some stored.id)) t
unfolding ingest_event find_delivery ◌>>=◌ ingest_unless pure
found_stored env draws event registration t stored f = rw f refl

ingest-stored :
    (env : Environment) (draws : Draws) (event : NormalizedGitLabEvent)
    (registration : WebhookRegistration) (t : Tables) (stored : InboundEvent)
    → find_first (is_delivery event.delivery_id) t.inbound ≡ some stored
    → ingest env draws event registration t
      ≡ (committed (outcome "duplicate" event stored.issue_session_id none (some stored.id)), t)
unfolding ingest duplicate_caught
ingest-stored env draws event registration t stored f =
    rw
      (unit_of_work-ok (ingest_event env draws event registration) t _ t
        (found_stored env draws event registration t stored f))
      refl

-- Once `ingest_event` has answered a delivery, the table of events holds one with its identifier, and a
-- repetition, under any registration and with any other contents, is answered "duplicate" with the
-- identifier and the session of that event and changes no table.
pub ingest-once :
    (env : Environment) (draws again : Draws) (event repeated : NormalizedGitLabEvent)
    (registration other : WebhookRegistration) (t t' : Tables) (result : IngestResult)
    → ingest_event env draws event registration t ≡ ok result t'
    → repeated.delivery_id ≡ event.delivery_id
    → (stored : InboundEvent) × In stored t'.inbound
      × (stored.delivery_id ≡ event.delivery_id)
      × (ingest env again repeated other t' ≡ (
        committed (outcome "duplicate" repeated stored.issue_session_id none (some stored.id)),
        t',
      ))
ingest-once env draws again event repeated registration other t t' result h q =
    let after = (ingest_event-delivers env draws event registration).runs t tt in
    let d : IsDelivered event.delivery_id t' =
      ok-Ensures (IsDelivered event.delivery_id) result t'
        (subst (Ensures (IsDelivered event.delivery_id)) h after) in
    let d' : IsDelivered repeated.delivery_id t' = rw q d in
    let (stored, f) = any-find_first (is_delivery repeated.delivery_id) t'.inbound d' in
    let (i, same) = find_first-In (is_delivery repeated.delivery_id) t'.inbound stored f in
    (
      stored,
      i,
      (eq_iff stored.delivery_id repeated.delivery_id).0
            (both_true (str_eq stored.provider "gitlab") _ same).1
          ∙ q,
      ingest-stored env again repeated other t' stored f,
    )

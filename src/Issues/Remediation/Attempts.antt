-- ===== src/Issues/Remediation/Attempts.antt =====
-- The attempts at a repair stay within their number.
use generic_coding_agent.Prelude.{
  ℕ, suc, ◌≤◌, leb, String, Bool, true, false, not, Option, none, some, List, [], ◌∷◌, ◌≡◌, ◌∙◌, In,
  In-map, arith, if◌then◌else◌, subst, Bool-cases, inl, inr,
}
use generic_coding_agent.Prelude.Text.{str_eq, ◌<>◌}
use generic_coding_agent.Prelude.Int.{ℤ}
use generic_coding_agent.Json.{Fields}
use generic_coding_agent.Issues.Contracts.Values.{Gives, ok-Gives, read-Gives}
use generic_coding_agent.Issues.Models.{OutboundAction, IssueGeneration, IssueSession, Turn}
use generic_coding_agent.Issues.Tables.{Tables, WorkError, ok, ◌>>=◌, pure}
use generic_coding_agent.Issues.Work.{
  replace, get_generation, save_generation, active_turn, save_session, insert_turn, save_turn,
  create_turn_job, append_event, insert_outbound_action,
}
use generic_coding_agent.Issues.Contracts.{
  Ensures, Ensures-ok, Ensures-result, Keeps, Keeps-chain, chain_at, if_at, if_cases, ensures_rules,
  keeps_rules,
}
use generic_coding_agent.Issues.Contracts.Statements.{
  save_session-Keeps, insert_turn-Keeps, save_turn-Keeps, create_turn_job-Keeps, append_event-Keeps,
  insert_outbound_action-Keeps, query_rules,
}
use generic_coding_agent.Issues.Remediation.{
  Environment, Draws, FailedJob, give_up, schedule, schedule_unless, schedule_actionable,
  actionable, ignored, remediate, maybe_schedule_pipeline_remediation,
}
use generic_coding_agent.Issues.Events.{awaits_merge}

-- No stored generation has more attempts than it may.
abbrev pub IsCapped : Tables → Type 0
IsCapped t =
    (g : IssueGeneration) → In g t.generations → g.remediation_attempts ≤ g.max_remediation_attempts

module _ (now : ℕ) (saved : IssueGeneration)
    (capped : saved.remediation_attempts ≤ saved.max_remediation_attempts) where
  replace-IsCapped :
      (test : IssueGeneration → Bool) (version : ℕ) (t : Tables)
      → IsCapped t
      → IsCapped (record t {
        generations =
            replace test (record saved { version = version; updated_at = now }) t.generations;
      })
  replace-IsCapped test version t c g i =
      let (z, j, e) =
        In-map (λ x. if test x then record saved { version = version; updated_at = now } else x) g
          t.generations i in
      elim (Bool-cases (test z)) [
        | inl f ↦
            let same : g ≡ record saved { version = version; updated_at = now } = e ∙ rw f in
            rw same capped
        | inr f ↦ let same : g ≡ z = e ∙ rw f in rw same (c z j)
      ]

  save_generation-IsCapped : Keeps IsCapped (save_generation now saved)
  unfolding save_generation
  save_generation-IsCapped = record { runs = λ t c. search (ensures_rules, replace-IsCapped) }

-- The other statements do not touch the generations.
save_session-IsCapped :
    (now : ℕ) (session : IssueSession) → Keeps IsCapped (save_session now session)
save_session-IsCapped = save_session-Keeps _ (λ t xs c. c)

insert_turn-IsCapped : (turn : Turn) → Keeps IsCapped (insert_turn turn)
insert_turn-IsCapped = insert_turn-Keeps _ (λ t xs c. c)

save_turn-IsCapped : (now : ℕ) (turn : Turn) → Keeps IsCapped (save_turn now turn)
save_turn-IsCapped = save_turn-Keeps _ (λ t xs c. c)

create_turn_job-IsCapped :
    (number_text : ℤ → String) (ticks : ℕ) (id : String) (turn : Turn) (session : IssueSession)
    (generation : IssueGeneration) (task : String)
    → Keeps IsCapped (create_turn_job number_text ticks id turn session generation task)
create_turn_job-IsCapped = create_turn_job-Keeps _ (λ t xs c. c)

append_event-IsCapped :
    (id : String) (now : ℕ) (session kind : String) (payload : Fields)
    (generation_id turn_id : Option String)
    → Keeps IsCapped (append_event id now session kind payload generation_id turn_id)
append_event-IsCapped = append_event-Keeps _ (λ t xs c. c)

insert_outbound_action-IsCapped :
    (action : OutboundAction) → Keeps IsCapped (insert_outbound_action action)
insert_outbound_action-IsCapped = insert_outbound_action-Keeps _ (λ t xs c. c)

ruleset capped_rules = (
  keeps_rules, query_rules, save_generation-IsCapped, save_session-IsCapped, insert_turn-IsCapped,
  save_turn-IsCapped, create_turn_job-IsCapped, append_event-IsCapped,
  insert_outbound_action-IsCapped,
)

module _ (draws : Draws) (session_id generation_id : String) (seen : IssueGeneration) (t : Tables)
    (fresh : get_generation generation_id t ≡ ok seen t) (capped : IsCapped t) where
  seen_stored : In seen t.generations
  unfolding get_generation
  seen_stored =
      let R : IssueGeneration → Tables → Type 0 =
        λ g t'. (str_eq g.id generation_id ≡ true) × In g t.generations × (t' ≡ t) in
      (ok-Gives R seen t (
        subst (Gives R) fresh (
          read-Gives (λ (g : IssueGeneration). str_eq g.id generation_id) t.generations
            WorkError.not_found t))).1

  give_up-IsCapped : Ensures IsCapped (give_up draws session_id generation_id t)
  unfolding give_up
  give_up-IsCapped =
      let within = capped seen seen_stored in
      chain_at IsCapped _ _ t t seen fresh (
        (Keeps-chain _ _ (save_generation-IsCapped draws.now _ within)
            (λ saved. search capped_rules)).runs
          t capped)

  schedule-IsCapped :
      (env : Environment) (items : List (String × String))
      → leb seen.max_remediation_attempts seen.remediation_attempts ≡ false
      → Ensures IsCapped (schedule env draws session_id generation_id items t)
  unfolding schedule
  schedule-IsCapped env items left =
      let within : suc seen.remediation_attempts ≤ seen.max_remediation_attempts = ground arith in
      chain_at IsCapped _ _ t t seen fresh (
        (Keeps-chain _ _ (save_generation-IsCapped draws.now _ within)
            (λ saved. search capped_rules depth 10)).runs
          t capped)

  schedule_unless-IsCapped :
      (env : Environment) (items : List (String × String)) (active : Option Turn)
      → leb seen.max_remediation_attempts seen.remediation_attempts ≡ false
      → Ensures IsCapped (schedule_unless env draws session_id generation_id items active t)
  unfolding schedule_unless pure
  schedule_unless-IsCapped env items (some turn) left = Ensures-ok IsCapped _ t capped
  schedule_unless-IsCapped env items none left = schedule-IsCapped env items left

  schedule_actionable-IsCapped :
      (env : Environment) (items : List (String × String))
      → leb seen.max_remediation_attempts seen.remediation_attempts ≡ false
      → Ensures IsCapped (schedule_actionable env draws session_id generation_id items t)
  unfolding schedule_actionable active_turn ◌>>=◌ pure
  schedule_actionable-IsCapped env [] left = Ensures-ok IsCapped _ t capped
  schedule_actionable-IsCapped env (item ∷ items) left =
      schedule_unless-IsCapped env (item ∷ items) _ left

  ignored-IsCapped : (detail : String) → Ensures IsCapped (ignored detail t)
  unfolding pure
  ignored-IsCapped detail = Ensures-ok IsCapped _ t capped

  work-IsCapped :
      (env : Environment) (pipeline_status : String) (failed_jobs : List FailedJob)
      → Ensures IsCapped
          (remediate env draws session_id generation_id pipeline_status failed_jobs seen t)
  unfolding remediate
  work-IsCapped env pipeline_status failed_jobs =
      if_at IsCapped (not (awaits_merge seen.status)) (ignored "generation is not awaiting merge") _
        t (ignored-IsCapped _)
        (if_at IsCapped (not (str_eq pipeline_status "failed"))
          (ignored ("pipeline status=" <> pipeline_status)) _ t (ignored-IsCapped _)
          (if_cases IsCapped (leb seen.max_remediation_attempts seen.remediation_attempts)
            (give_up draws session_id generation_id)
            (schedule_actionable env draws session_id generation_id (actionable env failed_jobs)) t
            give_up-IsCapped (schedule_actionable-IsCapped env (actionable env failed_jobs))))

-- A pass over a failed pipeline, on a generation that is still as it was read, leaves every stored
-- generation with at most as many attempts as it may have, if they had so before.
pub remediate-IsCapped :
    (env : Environment) (draws : Draws) (session_id generation_id pipeline_status : String)
    (failed_jobs : List FailedJob) (seen : IssueGeneration) (t : Tables)
    → get_generation generation_id t ≡ ok seen t
    → IsCapped t
    → IsCapped
        (maybe_schedule_pipeline_remediation env draws session_id generation_id pipeline_status
          failed_jobs seen t).1
unfolding maybe_schedule_pipeline_remediation
remediate-IsCapped env draws session_id generation_id pipeline_status failed_jobs seen t fresh
      capped =
    Ensures-result IsCapped
      (remediate env draws session_id generation_id pipeline_status failed_jobs seen) t capped
      (work-IsCapped draws session_id generation_id seen t fresh capped env pipeline_status
        failed_jobs)

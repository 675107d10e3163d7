-- ===== src/Issues/Events/Queueing.antt =====
-- When an event queues a turn, described by what waits for what.
use generic_coding_agent.Prelude.{
  ◌≡◌, refl, Bool, true, false, not, ◌&&◌, ◌||◌, Option, some, arith, if◌then◌else◌,
}
use generic_coding_agent.Prelude.Text.{str_eq, opt_eq-some}
use generic_coding_agent.Issues.Models.{IssueGeneration, GenerationStatus, WaitReason}
use generic_coding_agent.Issues.Events.{
  NormalizedGitLabEvent, ActorDecision, commands, is_uncommanded, has_note, awaits_merge,
  waits_for_human, waits_for_clarification, is_reopenable, should_queue_turn,
}

-- A turn is queued for three kinds of events only: "/agent fix" on an open merge request, "/agent run"
-- on a generation that waits for neither a merge nor an answer, and a comment on a generation that
-- waits for a human, for a reason that a comment settles.
abbrev pub queues : IssueGeneration → NormalizedGitLabEvent → Bool
queues generation event =
    (commands "/agent fix" event && awaits_merge generation.status)
    || (commands "/agent run" event
        && not (awaits_merge generation.status)
        && not (waits_for_clarification generation.wait_reason))
    || (not (commands "/agent fix" event)
        && not (commands "/agent run" event)
        && has_note event
        && waits_for_human generation.status
        && (waits_for_clarification generation.wait_reason && is_uncommanded event
            || is_reopenable generation.wait_reason))

-- No event carries two commands.
commands-distinct :
    (event : NormalizedGitLabEvent)
    → commands "/agent fix" event ≡ true
    → commands "/agent run" event ≡ false
commands-distinct event h = rw (opt_eq-some event.command "/agent fix" h)

-- The code's cascade of tests, as one condition.
cascade :
    (authorized fix run awaits human clarifies reopens uncommanded noted pipeline : Bool)
    → (fix ≡ true → run ≡ false)
    → (awaits ≡ true → human ≡ false)
    → (clarifies ≡ true → reopens ≡ false)
    → (if fix
        then authorized && awaits
        else if run
        then (if awaits then false else if clarifies then false else authorized)
        else if human
        then (if clarifies
            then authorized && noted && uncommanded
            else if reopens
            then authorized && (run || noted)
            else false)
        else if awaits
        then fix && authorized
        else if pipeline
        then awaits
        else false)
      ≡ (authorized
          && (fix && awaits
              || run && not awaits && not clarifies
              || not fix && not run && noted && human && (clarifies && uncommanded || reopens)))
cascade false fix run awaits human clarifies reopens uncommanded noted pipeline p q r = ground arith
cascade true true run awaits human clarifies reopens uncommanded noted pipeline p q r =
    rw (p refl) (ground arith)
cascade true false true awaits human clarifies reopens uncommanded noted pipeline p q r =
    ground arith
cascade true false false awaits human clarifies reopens uncommanded noted pipeline p q r =
    ground arith

awaits_merge-waits_for_human :
    (s : GenerationStatus) → awaits_merge s ≡ true → waits_for_human s ≡ false
awaits_merge-waits_for_human GenerationStatus.awaiting_merge h = refl
awaits_merge-waits_for_human GenerationStatus.waiting_human h = cc
awaits_merge-waits_for_human _ h = refl

waits_for_clarification-is_reopenable :
    (w : Option WaitReason) → waits_for_clarification w ≡ true → is_reopenable w ≡ false
waits_for_clarification-is_reopenable (some WaitReason.clarification) h = refl
waits_for_clarification-is_reopenable _ h = cc

-- `_should_queue_turn` is the authorisation and that description: the branch for failed pipelines
-- adds nothing, and no event of an unauthorised actor queues a turn.
pub should_queue_turn-eq :
    (generation : IssueGeneration) (event : NormalizedGitLabEvent) (decision : ActorDecision)
    → should_queue_turn generation event decision ≡ (decision.authorized && queues generation event)
unfolding should_queue_turn
should_queue_turn-eq generation event decision =
    cascade decision.authorized (commands "/agent fix" event) (commands "/agent run" event)
      (awaits_merge generation.status) (waits_for_human generation.status)
      (waits_for_clarification generation.wait_reason) (is_reopenable generation.wait_reason)
      (is_uncommanded event) (has_note event)
      (str_eq event.event_type "Pipeline Hook" && str_eq event.pipeline_status "failed")
      (commands-distinct event) (awaits_merge-waits_for_human generation.status)
      (waits_for_clarification-is_reopenable generation.wait_reason)

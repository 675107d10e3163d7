-- ===== src/Agent/Answers.antt =====
-- What the tool calls of one turn leave in the conversation.
use generic_coding_agent.Prelude.{
  ◌≡◌, refl, sym, subst, ap, ◌∙◌, String, Bool, true, false, not, ◌||◌, some, List, [], ◌∷◌, ◌++◌,
  any, keep_if, In, keep_if-In, Bool-cases, inl, inr, arith,
}
use generic_coding_agent.Prelude.Text.{str_eq, some-opt_eq}
use generic_coding_agent.Agent.{
  ToolCall, Message, Environment, Agent, answers, requested, pending_tool_calls, persist, announce,
  answered, settle, run_tool, run_call, run_tool_calls,
}

any-append :
    (p : Message → Bool) (ms : List Message) (m : Message)
    → any p (ms ++ m ∷ []) ≡ (any p ms || p m)
any-append p [] m = ground arith
any-append p (n ∷ ms) m = ground (arith, any-append p ms m)

requested-append :
    (ms : List Message) (m : Message)
    → str_eq m.role "assistant" ≡ false
    → requested (ms ++ m ∷ []) ≡ requested ms
requested-append [] m h = rw h refl
requested-append (n ∷ ms) m h = rw (requested-append ms m h) refl

-- The message of role "tool" that answers a call.
abbrev reply : ToolCall → String → Message
reply call output = record {
  role = "tool";
  content = output;
  tool_calls = [];
  tool_call_id = some call.id;
}

pub pair-eq : {X : Type 0} (p : Bool × X) → p.0 ≡ false → p ≡ (false, p.1)
pair-eq p e = ap (λ x. (x, p.1)) e

module _ (env : Environment) where
  -- A step that keeps the requests, the answers and the step count.
  abbrev pub Continues : Agent env → Agent env → Type 0
  Continues a b =
      (requested b.session.messages ≡ requested a.session.messages)
      × ((id : String)
          → any (answers id) a.session.messages ≡ true
          → any (answers id) b.session.messages ≡ true)
      × (b.session.step_count ≡ a.session.step_count)

  true≢false : {X : Type 0} (p q : Bool × X) → p.0 ≡ true → q.0 ≡ false → p ≡ q → ⊥
  true≢false p q a b h = ground arith

  settle-false :
      (call : ToolCall) (output : String) (ok fatal : Bool) (a b : Agent env)
      → settle env call output ok fatal a ≡ (false, b)
      → persist env a ≡ b
  unfolding settle
  settle-false call output ok fatal a b h = ground arith

  run_call-messages :
      (call : ToolCall) (a b : Agent env)
      → run_call env call a ≡ (false, b)
      → (output : String) × (b.session.messages ≡ a.session.messages ++ reply call output ∷ [])
        × (b.session.step_count ≡ a.session.step_count)
  unfolding run_call settle announce answered persist
  run_call-messages call a b h =
      let before = announce env call a in
      let ran = run_tool env call.name call.arguments before.world in
      let kept =
        settle-false call ran.0.0 ran.0.1 ran.0.2 (answered env call ran.0.0 ran.1 before) b h in
      (
        ran.0.0,
        ap (λ (x : Agent env). x.session.messages) (sym kept),
        ap (λ (x : Agent env). x.session.step_count) (sym kept),
      )

  run_call-Continues :
      (call : ToolCall) (a b : Agent env)
      → run_call env call a ≡ (false, b)
      → Continues a b × (any (answers call.id) b.session.messages ≡ true)
  run_call-Continues call a b h =
      let (output, messages, steps) = run_call-messages call a b h in
      (
        (
          rw messages (requested-append a.session.messages (reply call output) refl),
          λ id seen.
              rw (messages, any-append (answers id) a.session.messages (reply call output), seen)
                refl,
          steps,
        ),
        rw
            (
              messages,
              any-append (answers call.id) a.session.messages (reply call output),
              some-opt_eq (some call.id) call.id refl,
            )
            (ground arith),
      )

  pub run_tool_calls-Continues :
      (calls : List ToolCall) (a b : Agent env)
      → run_tool_calls env calls a ≡ (false, b)
      → Continues a b × ((c : ToolCall) → In c calls → any (answers c.id) b.session.messages ≡ true)
  unfolding run_tool_calls
  run_tool_calls-Continues [] a b h =
      subst
        (λ x. Continues a x × ((c : ToolCall) → ⊥ → any (answers c.id) x.session.messages ≡ true))
        (ap (λ p. p.1) h) ((refl, λ id seen. seen, refl), λ c c∈. absurd c∈)
  run_tool_calls-Continues (call ∷ calls) a b h = elim (Bool-cases (run_call env call a).0) [
    | inl stops ↦ absurd (true≢false _ _ refl refl ((rw (stops, run_tool_calls) at h)))
    | inr goes ↦
        let ((req, seen, steps), done) =
          run_call-Continues call a (run_call env call a).1 (pair-eq (run_call env call a) goes) in
        let ((req', seen', steps'), rest) =
          run_tool_calls-Continues calls (run_call env call a).1 b
            (rw (goes, run_tool_calls) at h) in
        (
          (req' ∙ req, λ id s. seen' id (seen id s), steps' ∙ steps),
          λ c c∈. elim c∈ [ inl e ↦ rw e (seen' call.id done) | inr i ↦ rest c i ],
        )
  ]

  keep_if-none :
      (p : ToolCall → Bool) (xs : List ToolCall)
      → ((c : ToolCall) → In c xs → p c ≡ false)
      → keep_if p xs ≡ []
  keep_if-none p [] h = refl
  keep_if-none p (x ∷ xs) h = rw (h x (inl refl)) (keep_if-none p xs (λ c c∈. h c (inr c∈)))

  -- When the pending calls of a turn have run and none of them ended the run, no call is pending: the
  -- provider is asked again only after each of its calls is answered. No step is counted for it.
  pub run_tool_calls-pending :
      (a b : Agent env)
      → run_tool_calls env (pending_tool_calls a.session.messages) a ≡ (false, b)
      → (pending_tool_calls b.session.messages ≡ []) × (b.session.step_count ≡ a.session.step_count)
  unfolding pending_tool_calls
  run_tool_calls-pending a b h =
      let ((req, seen, steps), done) = run_tool_calls-Continues _ a b h in
      let settled : (c : ToolCall)
          → In c (requested b.session.messages)
          → not (any (answers c.id) b.session.messages) ≡ false =
        λ c c∈. elim (Bool-cases (any (answers c.id) a.session.messages)) [
          | inl before ↦ rw (seen c.id before) refl
          | inr open_ ↦ rw (done c (keep_if-In _ c _ (subst (In c) req c∈) (rw open_ refl))) refl
        ] in
      (keep_if-none _ _ settled, steps)

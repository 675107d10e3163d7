-- ===== src/Agent/Outcomes.antt =====
-- What a run hands to its caller, and what it leaves in the session store.
use generic_coding_agent.Prelude.{
  ◌≡◌, refl, subst, ℕ, suc, zero, String, Bool, true, false, ◌||◌, ◌&&◌, leb, any, none, some, List,
  [], ◌∷◌, Bool-cases, Option-cases, inl, inr, arith, if◌then◌else◌,
}
use generic_coding_agent.Prelude.Text.{str_eq}
use generic_coding_agent.Agent.{
  status_completed, status_failed, ToolCall, hosted_control_tool_names, get_item, Session,
  Environment, Agent, returned, raised, again, pending_tool_calls, persist, text_or_none, result_of,
  end_with, settle, run_call, run_tool_calls, ask, exhaust, interrupt, turn, loop, run,
}
use generic_coding_agent.Agent.Termination.{List-cases, Turn-cases}

returned-injective : {env : Environment} {a b : Agent env} → returned a ≡ returned b → a ≡ b
returned-injective h = cc

raised≢returned : {env : Environment} {a b : Agent env} → raised a ≡ returned b → ⊥
raised≢returned h = cc

again≢returned : {env : Environment} {a b : Agent env} → again a ≡ returned b → ⊥
again≢returned h = cc

some_pair-injective : {A : Type 0} (p q : Bool × A) → some p ≡ some q → p.1 ≡ q.1
some_pair-injective p q h = cc

false≢true : {A : Type 0} (p q : Bool × A) → p.0 ≡ false → q.0 ≡ true → some p ≡ some q → ⊥
false≢true p q a b h = ground arith

module _ (env : Environment) where
  -- The session holds the provider's own state, and is the last that was saved, if there is a store.
  abbrev pub IsPersisted : Agent env → Type 0
  IsPersisted b =
      (b.session.provider_state ≡ env.get_state b.provider)
      × (before : List (Session env.floats)) × (b.saved
          ≡ (if env.has_store then b.session ∷ before else before))

  persist-IsPersisted : (a : Agent env) → IsPersisted (persist env a)
  unfolding persist
  persist-IsPersisted a = (refl, a.saved, refl)

  end_with-IsPersisted :
      (status message kind : String) (a : Agent env)
      → IsPersisted (end_with env status message kind a)
  unfolding end_with persist
  end_with-IsPersisted status message kind a = (refl, a.saved, refl)

  interrupt-IsPersisted : (a : Agent env) → IsPersisted (interrupt env a)
  unfolding interrupt persist
  interrupt-IsPersisted a = (refl, a.saved, refl)

  settle-IsPersisted :
      (call : ToolCall) (output : String) (ok fatal : Bool) (a : Agent env)
      → IsPersisted (settle env call output ok fatal a).1
  unfolding settle
  settle-IsPersisted call output ok true a = end_with-IsPersisted _ _ _ a
  settle-IsPersisted call output ok false a = elim (Bool-cases (str_eq call.name "finish" && ok)) [
    | inl e ↦ rw (e, settle) (end_with-IsPersisted status_completed output "changes_ready" a)
    | inr e ↦ elim (Bool-cases (any (str_eq call.name) hosted_control_tool_names && ok)) [
      | inl f ↦ rw (e, f, settle) (end_with-IsPersisted _ _ _ a)
      | inr f ↦ rw (e, f, settle) (persist-IsPersisted a)
    ]
  ]

  run_tool_calls-IsPersisted :
      (calls : List ToolCall) (a : Agent env)
      → (run_tool_calls env calls a).0 ≡ true
      → IsPersisted (run_tool_calls env calls a).1
  unfolding run_tool_calls run_call
  run_tool_calls-IsPersisted [] a h = absurd (ground (arith, h))
  run_tool_calls-IsPersisted (call ∷ calls) a h = elim (Bool-cases (run_call env call a).0) [
    | inl stops ↦ rw (stops, run_tool_calls) (settle-IsPersisted call _ _ _ _)
    | inr goes ↦
        rw (goes, run_tool_calls)
          (run_tool_calls-IsPersisted calls (run_call env call a).1
            (rw (goes, run_tool_calls) at h))
  ]

  ask-IsPersisted : (a b : Agent env) → ask env a ≡ returned b → IsPersisted b
  unfolding ask
  ask-IsPersisted a b h = elim (Option-cases (env.complete a.session.messages a.provider).0) [
    | inl lost ↦ absurd (raised≢returned (rw (lost, ask) at h))
    | inr (r, got) ↦ elim (List-cases r.tool_calls) [
      | inl none_ ↦
          let e = returned-injective (rw (got, none_, ask) at h) in
          subst IsPersisted e (persist-IsPersisted _)
      | inr (c, cs, some_) ↦ absurd (again≢returned (rw (got, some_, ask) at h))
    ]
  ]

  turn-IsPersisted : (a b : Agent env) → turn env a ≡ returned b → IsPersisted b
  unfolding turn exhaust
  turn-IsPersisted a b h = elim (List-cases (pending_tool_calls a.session.messages)) [
    | inl quiet ↦ elim (Bool-cases (leb env.max_steps a.session.step_count)) [
      | inl over ↦
          subst IsPersisted (returned-injective (rw (quiet, over, turn) at h))
            (end_with-IsPersisted _ _ _ a)
      | inr within ↦ ask-IsPersisted a b (rw (quiet, within, turn) at h)
    ]
    | inr (c, cs, some_) ↦ elim (Bool-cases (run_tool_calls env (c ∷ cs) a).0) [
      | inl stops ↦
          subst IsPersisted (returned-injective (rw (some_, stops, turn) at h))
            (run_tool_calls-IsPersisted (c ∷ cs) a stops)
      | inr goes ↦ absurd (again≢returned (rw (some_, goes, turn) at h))
    ]
  ]

  loop-IsPersisted : (fuel : ℕ) (a b : Agent env) → loop env fuel a ≡ some (true, b) → IsPersisted b
  unfolding loop
  loop-IsPersisted zero a b h = ground arith
  loop-IsPersisted (suc fuel) a b h =
      let (c, cases) = Turn-cases env (turn env a) in
      elim cases [
        | inl r ↦
            subst IsPersisted (some_pair-injective _ (true, b) (rw (r, loop) at h))
              (turn-IsPersisted a c r)
        | inr (inl r) ↦ absurd (false≢true _ (true, b) refl refl (rw (r, loop) at h))
        | inr (inr r) ↦ loop-IsPersisted fuel c b (rw (r, loop) at h)
      ]

  -- When a run on a session that has not ended returns, the session holds the provider's own state,
  -- and the last session saved is the one that it leaves, if there is a store.
  pub run-IsPersisted :
      (fuel : ℕ) (a b : Agent env)
      → (str_eq a.session.status status_completed || str_eq a.session.status status_failed) ≡ false
      → run env fuel a ≡ some (true, b)
      → IsPersisted b
  unfolding run
  run-IsPersisted fuel a b live h = elim (Bool-cases (str_eq a.session.inflight_tool_call_id "")) [
    | inr cut ↦
        subst IsPersisted (some_pair-injective _ (true, b) (rw (live, cut, run) at h))
          (interrupt-IsPersisted a)
    | inl idle ↦ loop-IsPersisted fuel _ b (rw (live, idle, run) at h)
  ]

  -- No run on a session that has not ended hands its outcome on, whichever way it returns, with a
  -- provider whose state has no item "outcome_kind": `_persist` replaces the dictionary that the
  -- outcome was written to.
  pub run_loses_outcome :
      (fuel : ℕ) (a b : Agent env)
      → ((p : env.P) → get_item "outcome_kind" (env.get_state p) ≡ none)
      → (str_eq a.session.status status_completed || str_eq a.session.status status_failed) ≡ false
      → run env fuel a ≡ some (true, b)
      → (result_of env b).outcome_kind ≡ none
  unfolding result_of text_or_none
  run_loses_outcome fuel a b plain live h =
      let (state, _, _) = run-IsPersisted fuel a b live h in rw (state, plain b.provider) refl

-- ===== src/Agent/Termination.antt =====
-- The agent's loop ends, within its step budget.
use generic_coding_agent.Prelude.{
  ◌≡◌, refl, sym, ◌∙◌, ℕ, suc, zero, ◌+◌, ◌*◌, ◌-◌, ◌≤◌, max, leb, String, Bool, true, false, ◌||◌,
  some, List, [], ◌∷◌, Bool-cases, ◌≢◌, ◌⊎◌, inl, inr, arith,
}
use generic_coding_agent.Prelude.Text.{str_eq}
use generic_coding_agent.Agent.{
  status_completed, status_failed, status_active, ToolCall, Environment, Agent, Turn, returned,
  raised, again, pending_tool_calls, persist, end_with, announce, answered, settle, run_call,
  run_tool_calls, record_response, ask, exhaust, interrupt, turn, loop, run,
}
use generic_coding_agent.Agent.Answers.{pair-eq, run_tool_calls-pending}

pub List-cases : {A : Type 0} (xs : List A) → (xs ≡ []) ⊎ ((y : A) × (ys : List A) × (xs ≡ y ∷ ys))
List-cases [] = inl refl
List-cases (x ∷ xs) = inr (x, xs, refl)

leb-false : (m n : ℕ) → leb m n ≡ false → suc n ≤ m
leb-false m n h = ground arith

cons≢nil : {A : Type 0} {x : A} {xs : List A} → (x ∷ xs) ≡ [] → ⊥
cons≢nil h = cc

module _ (env : Environment) where
  abbrev pub steps : Agent env → ℕ
  steps agent = agent.session.step_count

  exhaust-steps : (a : Agent env) → steps (exhaust env a) ≡ steps a
  unfolding exhaust end_with persist
  exhaust-steps a = refl

  settle-steps :
      (call : ToolCall) (output : String) (ok fatal : Bool) (a : Agent env)
      → steps (settle env call output ok fatal a).1 ≡ steps a
  unfolding settle end_with persist
  settle-steps call output ok fatal a = ground arith

  run_tool_calls-steps :
      (calls : List ToolCall) (a : Agent env) → steps (run_tool_calls env calls a).1 ≡ steps a
  unfolding run_tool_calls run_call announce answered persist
  run_tool_calls-steps [] a = refl
  run_tool_calls-steps (call ∷ calls) a =
      let kept : steps (run_call env call a).1 ≡ steps a =
        settle-steps call _ _ _ (answered env call _ _ (announce env call a)) in
      elim (Bool-cases (run_call env call a).0) [
        | inl stops ↦ rw (stops, run_tool_calls) kept
        | inr goes ↦
            rw (goes, run_tool_calls) (run_tool_calls-steps calls (run_call env call a).1 ∙ kept)
      ]

  -- How a turn ends.
  pub Turn-cases :
      (t : Turn env) → (b : Agent env) × ((t ≡ returned b) ⊎ (t ≡ raised b) ⊎ (t ≡ again b))
  Turn-cases (returned b) = (b, inl refl)
  Turn-cases (raised b) = (b, inr (inl refl))
  Turn-cases (again b) = (b, inr (inr refl))

  -- What the turn that asks the provider counts.
  ask-again : (a b : Agent env) → ask env a ≡ again b → steps b ≡ suc (steps a)
  unfolding ask persist record_response
  ask-again a b h = ground arith

  ask-returned : (a b : Agent env) → ask env a ≡ returned b → steps b ≡ suc (steps a)
  unfolding ask persist record_response
  ask-returned a b h = ground arith

  ask-raised : (a b : Agent env) → ask env a ≡ raised b → steps b ≡ steps a
  unfolding ask persist record_response
  ask-raised a b h = ground arith

  -- One turn: it ends the run, or asks within the budget, or answers the calls that are pending.
  turn-cases :
      (a : Agent env)
      → (b : Agent env) × ((((turn env a ≡ returned b) ⊎ (turn env a ≡ raised b))
            × (steps b ≤ max env.max_steps (steps a)))
          ⊎ ((turn env a ≡ again b) × (suc (steps a) ≤ env.max_steps) × (steps b ≡ suc (steps a)))
          ⊎ ((turn env a ≡ again b)
              × (pending_tool_calls a.session.messages ≢ [])
              × (pending_tool_calls b.session.messages ≡ [])
              × (steps b ≡ steps a)))
  unfolding turn
  turn-cases a = elim (List-cases (pending_tool_calls a.session.messages)) [
    | inl quiet ↦ elim (Bool-cases (leb env.max_steps (steps a))) [
      | inl over ↦
          (exhaust env a, inl (inl (rw (quiet, over, turn) refl), omega (arith, exhaust-steps a)))
      | inr within ↦
          let (b, cases) = Turn-cases (ask env a) in
          let room = leb-false env.max_steps (steps a) within in
          let asks : turn env a ≡ ask env a = rw (quiet, within, turn) refl in
          (
            b,
            elim cases [
              | inl r ↦ inl (inl (asks ∙ r), omega (arith, ask-returned a b r))
              | inr (inl r) ↦ inl (inr (asks ∙ r), omega (arith, ask-raised a b r))
              | inr (inr r) ↦ inr (inl (asks ∙ r, omega arith, ask-again a b r))
            ],
          )
    ]
    | inr (c, cs, some_) ↦ elim (Bool-cases (run_tool_calls env (c ∷ cs) a).0) [
      | inl stops ↦ (
        (run_tool_calls env (c ∷ cs) a).1,
        inl (inl (rw (some_, stops, turn) refl), omega (arith, run_tool_calls-steps (c ∷ cs) a)),
      )
      | inr goes ↦
          let b = (run_tool_calls env (c ∷ cs) a).1 in
          let (quiet, same) =
            run_tool_calls-pending env a b
              (rw some_ (pair-eq (run_tool_calls env (c ∷ cs) a) goes)) in
          (
            b,
            inr (
                inr (
                  rw (some_, goes, turn) refl,
                  λ none_. cons≢nil (sym some_ ∙ none_),
                  quiet,
                  same,
                )),
          )
    ]
  ]

  -- What is said of the end of the loop.
  abbrev pub Ends : ℕ → Agent env → Type 0
  Ends fuel a =
      (done : Bool) × (b : Agent env) × (loop env fuel a ≡ some (done, b))
      × (steps b ≤ max env.max_steps (steps a))

  spare :
      {quiet : Type 0} (fuel gap : ℕ)
      → (quiet × (2 * gap + 1 ≤ suc fuel)) ⊎ (2 * gap + 2 ≤ suc fuel)
      → (quiet → ⊥)
      → 2 * gap + 1 ≤ fuel
  spare fuel gap (inl (q, h)) busy = absurd (busy q)
  spare fuel gap (inr h) busy = omega arith

  loop-Ends :
      (fuel gap : ℕ) (a : Agent env)
      → env.max_steps ≤ steps a + gap
      → ((pending_tool_calls a.session.messages ≡ []) × (2 * gap + 1 ≤ fuel)) ⊎ (2 * gap + 2 ≤ fuel)
      → Ends fuel a
  unfolding loop
  loop-Ends zero gap a bound enough = absurd (ground arith)
  loop-Ends (suc fuel) gap a bound enough =
      let (b, cases) = turn-cases a in
      elim cases [
        | inl (inl done, few) ↦ (true, b, rw (done, loop) refl, few)
        | inl (inr done, few) ↦ (false, b, rw (done, loop) refl, few)
        | inr (inl (asked, within, more)) ↦
            let (d, c, ended, few) =
              loop-Ends fuel (gap - 1) b (omega arith) (inr (ground arith)) in
            (d, c, rw (asked, loop) ended, omega arith)
        | inr (inr (ran, open_, quiet, same)) ↦
            let (d, c, ended, few) =
              loop-Ends fuel gap b (omega arith) (inl (quiet, spare fuel gap enough open_)) in
            (d, c, rw (ran, loop) ended, omega arith)
      ]

  -- A run, from whatever session it starts, returns or ends with an exception of the provider after
  -- at most two turns of its loop for each step that its budget leaves, and two more; it counts no
  -- step beyond the budget.
  pub run_terminates :
      (fuel : ℕ) (a : Agent env)
      → 2 * (env.max_steps - steps a) + 2 ≤ fuel
      → (done : Bool) × (b : Agent env) × (run env fuel a ≡ some (done, b))
        × (steps b ≤ max env.max_steps (steps a))
  unfolding run interrupt persist
  run_terminates fuel a enough =
      elim (Bool-cases
        (str_eq a.session.status status_completed || str_eq a.session.status status_failed)) [
          | inl ended ↦ (true, a, rw (ended, run) refl, omega arith)
          | inr live ↦ elim (Bool-cases (str_eq a.session.inflight_tool_call_id "")) [
            | inr cut ↦ (true, interrupt env a, rw (live, cut, run) refl, omega arith)
            | inl idle ↦
                let (done, b, ended, few) =
                  loop-Ends fuel (env.max_steps - steps a)
                    (record a { session = record a.session { status = status_active } })
                    (omega arith) (inr enough) in
                (done, b, rw (live, idle, run) ended, few)
          ]
        ]

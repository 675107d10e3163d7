-- ===== src/ToolPolicy/Capabilities.antt =====
-- The limit on the capabilities of the tools that a phase exposes.
use generic_coding_agent.Prelude.{
  ◌≡◌, refl, sym, subst, String, true, false, some, List, any, In, In-keep_if, any-false-In,
  Bool-cases, Option-cases, ◌⊎◌, inl, inr, arith,
}
use generic_coding_agent.ToolPolicy.{
  Tool, get, is_registered, ToolPolicyConfig, Resolved, PolicyError, ok, err, validate_tool_policy,
  item, default_names, capability_limit, is_within, is_forbidden, limited, tool_names_for_phase,
}

ok-injective : {A : Type 0} {a b : A} → ok a ≡ ok b → a ≡ b
ok-injective h = cc

ok≢err : {A : Type 0} {a : A} {e : PolicyError} → ok a ≡ err e → ⊥
ok≢err h = cc

Resolved-cases :
    {A : Type 0} (r : Resolved A) → ((e : PolicyError) × (r ≡ err e)) ⊎ ((a : A) × (r ≡ ok a))
Resolved-cases (err e) = inl (e, refl)
Resolved-cases (ok a) = inr (a, refl)

is_forbidden-false :
    (limit : List String) (registry : List Tool) (name : String) (tool : Tool)
    → get name registry ≡ some tool
    → is_forbidden limit registry name ≡ false
    → is_within limit tool.capabilities ≡ true
unfolding is_forbidden
is_forbidden-false limit registry name tool found h = ground (arith, rw (found, is_forbidden) at h)

limited-is_within :
    (registry : List Tool) (phase : String) (candidates names limit : List String) (name : String)
    (tool : Tool)
    → limited registry phase candidates ≡ ok names
    → capability_limit phase ≡ some limit
    → In name names
    → get name registry ≡ some tool
    → is_within limit tool.capabilities ≡ true
unfolding limited
limited-is_within registry phase candidates names limit name tool h bounded exposed found =
    elim (Bool-cases (any (is_forbidden limit registry) candidates)) [
      | inl bad ↦ cc
      | inr good ↦
          let kept =
            In-keep_if (is_registered registry) name candidates
              (subst (In name) (sym (ok-injective (rw (bounded, good, limited) at h))) exposed) in
          is_forbidden-false limit registry name tool found
            (any-false-In (is_forbidden limit registry) name candidates good kept.0)
    ]

-- A phase with a capability limit, which planning and review have, exposes no registered tool whose
-- capabilities are none or go beyond the limit, whatever the repository's configuration says.
pub tool_names_for_phase-is_within :
    (registry : List Tool) (config : ToolPolicyConfig) (phase workflow : String)
    (names limit : List String) (name : String) (tool : Tool)
    → tool_names_for_phase registry config phase workflow ≡ ok names
    → capability_limit phase ≡ some limit
    → In name names
    → get name registry ≡ some tool
    → is_within limit tool.capabilities ≡ true
unfolding tool_names_for_phase
tool_names_for_phase-is_within registry config phase workflow names limit name tool h bounded
      exposed found =
    elim (Option-cases (validate_tool_policy registry config)) [
      | inr (e, refused) ↦ absurd (ok≢err (sym (rw (refused, tool_names_for_phase) at h)))
      | inl valid ↦ elim (Option-cases (item phase config.phases)) [
        | inr (override, listed) ↦
            limited-is_within registry phase _ names limit name tool
              (rw (valid, listed, tool_names_for_phase) at h) bounded exposed found
        | inl unlisted ↦ elim (Resolved-cases (default_names registry config phase workflow)) [
          | inl (e, failed) ↦
              absurd (ok≢err (sym (rw (valid, unlisted, failed, tool_names_for_phase) at h)))
          | inr (base, listed) ↦
              limited-is_within registry phase _ names limit name tool
                (rw (valid, unlisted, listed, tool_names_for_phase) at h) bounded exposed found
        ]
      ]
    ]

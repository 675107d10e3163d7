-- ===== src/Issues/Contracts/Values.antt =====
-- Contracts on what a work returns beside the tables.
use generic_coding_agent.Prelude.{
  ℕ, suc, ◌++◌, append_one-In, Bool-cases, Option-cases, inl, inr, ◌⊎◌, find_first, find_first-In,
  Bool, true, false, ◌&&◌, ◌==◌, ==_iff, List, [], ◌∷◌, ◌≡◌, refl, subst, In, map-In, length,
  keep_if, if◌then◌else◌,
}
use generic_coding_agent.Prelude.Text.{str_eq, eq_iff}
use generic_coding_agent.Prelude.Unique.{selected}
use generic_coding_agent.Issues.Models.{IssueSession, IssueGeneration, Turn, OutboundAction}
use generic_coding_agent.Issues.Tables.{Tables, Work, WorkError, Worked, ok, err, ◌>>=◌}
use generic_coding_agent.Issues.Contracts.{Ensures}
use generic_coding_agent.Issues.Work.{
  row_or, replace, turn_at_version, save_turn, save_generation, save_session, is_refused,
  insert_outbound_action,
}

unfoldable pub Gives : {A : Type 0} → (A → Tables → Type 0) → Worked A → Type 0
Gives R (ok a t) = R a t
Gives R (err e) = Unit {0}

pub Gives-ok :
    {A : Type 0} (R : A → Tables → Type 0) (a : A) (t : Tables) → R a t → Gives R (ok a t)
unfolding Gives
Gives-ok R a t r = r

pub ok-Gives :
    {A : Type 0} (R : A → Tables → Type 0) (a : A) (t : Tables) → Gives R (ok a t) → R a t
unfolding Gives
ok-Gives R a t r = r

pub Gives-err : {A : Type 0} (R : A → Tables → Type 0) (e : WorkError) → Gives R (err e)
unfolding Gives
Gives-err R e = tt

pub Gives-if :
    {A : Type 0} (R : A → Tables → Type 0) (b : Bool) (w v : Worked A)
    → (b ≡ true → Gives R w)
    → (b ≡ false → Gives R v)
    → Gives R (if b then w else v)
Gives-if R true w v h k = h refl
Gives-if R false w v h k = k refl

pub Gives-weaken :
    {A : Type 0} (R S : A → Tables → Type 0) (w : Worked A)
    → ((a : A) (t : Tables) → R a t → S a t)
    → Gives R w
    → Gives S w
unfolding Gives
Gives-weaken R S (ok a t) f h = f a t h
Gives-weaken R S (err e) f h = tt

given :
    {A B : Type 0} (R : A → Tables → Type 0) (S : B → Tables → Type 0) (w : Worked A)
    (f : A → Work B)
    → Gives R w
    → ((a : A) (t : Tables) → R a t → Gives S (f a t))
    → Gives S (elim w [ ok a t ↦ f a t | err e ↦ err e ])
unfolding Gives
given R S (ok a t) f h k = k a t h
given R S (err e) f h k = tt

pub Gives-chain :
    {A B : Type 0} (R : A → Tables → Type 0) (S : B → Tables → Type 0) (m : Work A) (f : A → Work B)
    (t : Tables)
    → Gives R (m t)
    → ((a : A) (u : Tables) → R a u → Gives S (f a u))
    → Gives S ((m >>= f) t)
unfolding ◌>>=◌
Gives-chain R S m f t h k = given R S (m t) f h k

pub Ensures-Gives :
    {A : Type 0} (Q : Tables → Type 0) (w : Worked A)
    → Ensures Q w
    → Gives (λ (a : A) (t : Tables). Q t) w
unfolding Gives Ensures
Ensures-Gives Q (ok a t) h = h
Ensures-Gives Q (err e) h = tt

pub ruleset gives_rules = (Gives-if, Gives-ok, Gives-err)

-- The row that a query reads.
pub read-Gives :
    {A : Type 0} (test : A → Bool) (xs : List A) (e : WorkError) (t : Tables)
    → Gives
        (λ (a : A) (t' : Tables). (test a ≡ true) × In a xs × (t' ≡ t))
        (row_or e (find_first test xs) t)
read-Gives test xs e t = elim (Option-cases (find_first test xs)) [
  | inl f ↦ rw f (Gives-err _ e)
  | inr (a, f) ↦ let (i, h) = find_first-In test xs a f in rw f (Gives-ok _ a t (h, i, refl))
]

-- A row that is replaced is there.
replace-In :
    {A : Type 0} (test : A → Bool) (new : A) (xs : List A)
    → (length (keep_if test xs) == 1) ≡ true
    → In new (replace test new xs)
replace-In test new xs h =
    let (z, i, e) = selected test xs ((==_iff _ _).0 h) in
    subst (λ x. In x (replace test new xs)) (rw e refl)
      (map-In (λ x. if test x then new else x) z xs i)

-- A save returns the new row, which is in its table, and leaves the other tables.
abbrev pub IsSavedTurn : Turn → Tables → Turn → Tables → Type 0
IsSavedTurn turn t u t' =
    (u.id ≡ turn.id)
    × (u.status ≡ turn.status)
    × (u.outcome_kind ≡ turn.outcome_kind)
    × (u.generation_id ≡ turn.generation_id)
    × (u.issue_session_id ≡ turn.issue_session_id)
    × In u t'.turns
    × (t'.outbound ≡ t.outbound)

saved_turn :
    (now : ℕ) (turn : Turn) (t : Tables)
    → (length (keep_if (turn_at_version turn) t.turns) == 1) ≡ true
    → IsSavedTurn turn t
        (record turn { version = suc turn.version; updated_at = now })
        (record t {
          turns =
              replace
                (turn_at_version turn)
                (record turn { version = suc turn.version; updated_at = now })
                t.turns;
        })
saved_turn now turn t h =
    (refl, refl, refl, refl, refl, replace-In (turn_at_version turn) _ t.turns h, refl)

pub save_turn-Gives :
    (now : ℕ) (turn : Turn) (t : Tables) → Gives (IsSavedTurn turn t) (save_turn now turn t)
unfolding save_turn
save_turn-Gives now turn t = search (gives_rules, saved_turn)

abbrev pub IsSavedGeneration : IssueGeneration → Tables → IssueGeneration → Tables → Type 0
IsSavedGeneration generation t g t' =
    (g.id ≡ generation.id)
    × (g.status ≡ generation.status)
    × (g.wait_reason ≡ generation.wait_reason)
    × In g t'.generations
    × (t'.turns ≡ t.turns)
    × (t'.outbound ≡ t.outbound)

saved_generation :
    (now : ℕ) (generation : IssueGeneration) (t : Tables)
    → (length (
          keep_if
            (λ (g : IssueGeneration). str_eq g.id generation.id && g.version == generation.version)
            t.generations)
        == 1)
      ≡ true
    → IsSavedGeneration generation t
        (record generation { version = suc generation.version; updated_at = now })
        (record t {
          generations =
              replace
                (λ (g : IssueGeneration).
                  str_eq g.id generation.id && g.version == generation.version)
                (record generation { version = suc generation.version; updated_at = now })
                t.generations;
        })
saved_generation now generation t h = (
  refl,
  refl,
  refl,
  replace-In (λ (g : IssueGeneration). str_eq g.id generation.id && g.version == generation.version)
      _ t.generations h,
  refl,
  refl,
)

pub save_generation-Gives :
    (now : ℕ) (generation : IssueGeneration) (t : Tables)
    → Gives (IsSavedGeneration generation t) (save_generation now generation t)
unfolding save_generation
save_generation-Gives now generation t = search (gives_rules, saved_generation)

abbrev pub IsSavedSession : IssueSession → Tables → IssueSession → Tables → Type 0
IsSavedSession session t s t' =
    (s.id ≡ session.id)
    × (s.status ≡ session.status)
    × In s t'.sessions
    × (t'.turns ≡ t.turns)
    × (t'.generations ≡ t.generations)
    × (t'.outbound ≡ t.outbound)

saved_session :
    (now : ℕ) (session : IssueSession) (t : Tables)
    → (length (
          keep_if
            (λ (s : IssueSession). str_eq s.id session.id && s.version == session.version)
            t.sessions)
        == 1)
      ≡ true
    → IsSavedSession session t
        (record session { version = suc session.version; updated_at = now })
        (record t {
          sessions =
              replace
                (λ (s : IssueSession). str_eq s.id session.id && s.version == session.version)
                (record session { version = suc session.version; updated_at = now })
                t.sessions;
        })
saved_session now session t h = (
  refl,
  refl,
  replace-In (λ (s : IssueSession). str_eq s.id session.id && s.version == session.version) _
      t.sessions h,
  refl,
  refl,
  refl,
)

pub save_session-Gives :
    (now : ℕ) (session : IssueSession) (t : Tables)
    → Gives (IsSavedSession session t) (save_session now session t)
unfolding save_session
save_session-Gives now session t = search (gives_rules, saved_session)

-- The action that is inserted, or the one that has its effect key.
abbrev pub HasEffect : OutboundAction → Tables → Tables → Type 0
HasEffect action before t =
    (a : OutboundAction) × In a t.outbound
    × (a.effect_key ≡ action.effect_key)
    × ((a ≡ action) ⊎ In a before.outbound)

inserted_action :
    (action : OutboundAction) (t : Tables)
    → HasEffect action t (record t { outbound = t.outbound ++ action ∷ [] })
inserted_action action t = (action, append_one-In action t.outbound, refl, inl refl)

pub insert_outbound_action-Gives :
    (action : OutboundAction) (t : Tables)
    → Gives
        (λ (a : OutboundAction) (t' : Tables). HasEffect action t t')
        (insert_outbound_action action t)
unfolding insert_outbound_action
insert_outbound_action-Gives action t =
    let R : OutboundAction → Tables → Type 0 = λ a t'. HasEffect action t t' in
    elim (Bool-cases (is_refused action t)) [
      | inr h ↦ rw (h, insert_outbound_action) (Gives-ok R action _ (inserted_action action t))
      | inl h ↦
          let test : OutboundAction → Bool = λ a. str_eq a.effect_key action.effect_key in
          elim (Option-cases (find_first test t.outbound)) [
            | inl e ↦ rw (h, insert_outbound_action) (rw e (Gives-err R _))
            | inr (a, e) ↦
                let (i, same) = find_first-In test t.outbound a e in
                rw (h, insert_outbound_action)
                  (rw e
                    (Gives-ok R a t (a, i, (eq_iff a.effect_key action.effect_key).0 same, inr i)))
          ]
    ]

-- ===== src/Issues/Consistency/Sequence.antt =====
-- The numbers of a session's events: the next one is above all.
use generic_coding_agent.Prelude.{
  ℕ, suc, ◌≤◌, String, true, false, ◌&&◌, ◌||◌, ◌==◌, Option, List, [], ◌∷◌, ◌++◌, ◌≡◌, arith, any,
  In, either_false, inl, inr, refl,
}
use generic_coding_agent.Prelude.Text.{str_eq, eq_iff}
use generic_coding_agent.Json.{Fields}
use generic_coding_agent.Issues.Models.{SessionEvent}
use generic_coding_agent.Issues.Tables.{Tables, ok}
use generic_coding_agent.Issues.Work.{has_session, max_seq, append_event}

-- No event of a session has a number above the greatest.
max_seq-bound :
    (session : String) (events : List SessionEvent) (e : SessionEvent)
    → In e events
    → str_eq e.issue_session_id session ≡ true
    → e.seq ≤ max_seq session events
unfolding max_seq
max_seq-bound session [] e i h = absurd i
max_seq-bound session (f ∷ events) e (inl q) h =
    let here : str_eq f.issue_session_id session ≡ true = rw (← q) h in rw q (ground arith)
max_seq-bound session (f ∷ events) e (inr i) h =
    let below = max_seq-bound session events e i h in ground arith

no_collision :
    (session : String) (id : String) (n : ℕ) (events : List SessionEvent)
    → any (λ (e : SessionEvent). str_eq e.id id) events ≡ false
    → ((e : SessionEvent) → In e events → str_eq e.issue_session_id session ≡ true → e.seq ≤ n)
    → any
        (λ (e : SessionEvent).
          str_eq e.id id || str_eq e.issue_session_id session && e.seq == suc n)
        events
      ≡ false
no_collision session id n [] h bound = refl
no_collision session id n (e ∷ events) h bound =
    let rest =
      no_collision session id n events (either_false (str_eq e.id id) _ h).1
        (λ f i. bound f (inr i)) in
    let here = bound e (inl refl) in ground arith

-- An event with a fresh identifier is appended to a session that exists: the number that
-- `append_event` gives it, one above the session's greatest, is never taken.
pub append_event-succeeds :
    (id : String) (now : ℕ) (session kind : String) (payload : Fields)
    (generation_id turn_id : Option String) (t : Tables)
    → any (λ (e : SessionEvent). str_eq e.id id) t.events ≡ false
    → has_session t session ≡ true
    → (e : SessionEvent) × (append_event id now session kind payload generation_id turn_id t
        ≡ ok e (record t { events = t.events ++ e ∷ [] }))
      × (e.issue_session_id ≡ session)
      × ((f : SessionEvent) → In f t.events → f.issue_session_id ≡ session → suc f.seq ≤ e.seq)
unfolding append_event
append_event-succeeds id now session kind payload generation_id turn_id t fresh there = (
  record {
    issue_session_id = session;
    seq = suc (max_seq session t.events);
    kind = kind;
    id = id;
    generation_id = generation_id;
    turn_id = turn_id;
    payload = payload;
    created_at = now;
  },
  rw
      (
        no_collision session id (max_seq session t.events) t.events fresh
            (max_seq-bound session t.events),
        there,
      )
      refl,
  refl,
  λ f i q.
      let bound = max_seq-bound session t.events f i (rw q ((eq_iff session session).1 refl)) in
      omega arith,
)

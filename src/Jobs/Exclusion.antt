-- ===== src/Jobs/Exclusion.antt =====
-- In every sequence of steps the jobs table stays well formed: one running job to a repository, one job to
-- an idempotency key.
use mathlib.Core.Bool.{false≢true}
use generic_coding_agent.Prelude.{
  ℕ, ◌≡◌, ◌≢◌, refl, subst, sym, ◌∙◌, ap, inl, inr, String, Bool, true, false, none, [], ◌∷◌, ◌++◌,
  any, any-false-In, In, arith, Bool-cases,
}
use generic_coding_agent.Prelude.Text.{is_blank, eq_iff}
use generic_coding_agent.Prelude.Int.{ℤ}
use generic_coding_agent.Issues.Models.{IssueSession, IssueGeneration, Turn}
use generic_coding_agent.Issues.Work.Jobs.{turn_row, turn_key, is_taken, turn_spec}
use generic_coding_agent.Result.{ok}
use generic_coding_agent.Jobs.Models.{Job, JobStatus, is_active}
use generic_coding_agent.Jobs.Lifecycle.{transition_job, allowed, moved}
use generic_coding_agent.Jobs.Lifecycle.Transitions.{transition_job_cases, allowed_active}
use generic_coding_agent.Jobs.Store.Table.{Row, Db, row_of, record_worker_heartbeat}
use generic_coding_agent.Jobs.Store.WellFormed.{
  IsCoherent, IsWellFormed, IsExclusive, HasUniqueKeys,
}
use generic_coding_agent.Jobs.Store.Handles.{Fits, Knows, own-Fits}
use generic_coding_agent.Jobs.Store.Preserves.{
  Follows, Follows-refl, save-Follows, insert_job-Follows, append-Follows,
}
use generic_coding_agent.Jobs.Store.Preserves.Leases.{
  taken_back-Fits, requeue_expired-Follows, touch_lease-Follows, release_lease-Follows,
}
use generic_coding_agent.Jobs.Store.Claiming.{claim_next-Tracks, claim-Tracks}
use generic_coding_agent.Jobs.Store.Create.{new_job}
use generic_coding_agent.Jobs.Store.Lease.{reclaimed_job}
use generic_coding_agent.Jobs.Interleaving.{
  System, Edited, Step, insert, insert_turn, claim_any, claim_one, expire, touch, release, beat,
  read, edit, move, drop_lease, reclaim, store, Reach, here, next, start,
}

pub record IsSound (s : System) : Type 0 where
  pub formed : IsWellFormed s.db.jobs
  pub known : (h : Job) → In h s.copies → Knows h s.db.jobs

-- A transaction that follows keeps the copies.
follow :
    (s : System) (db : Db) → IsSound s → Follows s.db.jobs db.jobs → IsSound (record s { db = db })
follow s db v f = record { formed = f.formed; known = λ h i. f.remembers h (v.known h i) }

-- A new copy must fit its row.
hold :
    (s : System) (j : Job)
    → IsSound s
    → Knows j s.db.jobs
    → IsSound (record s { copies = j ∷ s.copies })
hold s j v k = record {
  formed = v.formed;
  known = λ h i. elim i [ inl e ↦ rw e k | inr old ↦ v.known h old ];
}

Edited-Fits : (h j : Job) (r : Row) → Edited h j → Fits h r → Fits j r
Edited-Fits h j r e f = record {
  fits_id = f.fits_id ∙ sym e.same_id;
  fits_url = e.same_url ∙ f.fits_url;
  behind = omega (arith, e.same_version, f.behind);
  current = λ v a.
      let (active, owner) =
        f.current (sym e.same_version ∙ v) (ap is_active (sym e.same_status) ∙ a) in
      (active, e.same_owner ∙ owner);
}

moved_calm-Fits :
    (stamp : ℕ) (h : Job) (to : JobStatus) (error : String) (r : Row)
    → to ≢ JobStatus.running
    → allowed h.status to ≡ true
    → Fits h r
    → Fits (moved stamp h to error) r
unfolding moved
moved_calm-Fits stamp h to error r calm may f = record {
  fits_id = f.fits_id;
  fits_url = f.fits_url;
  behind = f.behind;
  current = λ v a.
      let (active, owner) = f.current v (allowed_active h.status to may calm a) in
      (active, rw a owner);
}

moved-Fits :
    (stamp : ℕ) (h j : Job) (to : JobStatus) (error : String) (r : Row)
    → to ≢ JobStatus.running
    → transition_job stamp h to error ≡ ok j
    → Fits h r
    → Fits j r
moved-Fits stamp h j to error r calm e f = elim (transition_job_cases stamp h j to error e) [
  | inl (_, same) ↦ subst (λ x. Fits x r) same f
  | inr (may, same) ↦ subst (λ x. Fits x r) same (moved_calm-Fits stamp h to error r calm may f)
]

dropped-Fits :
    (h : Job) (r : Row)
    → is_active h.status ≡ false
    → Fits h r
    → Fits (record h { lease_owner = none; lease_expires_at = none }) r
dropped-Fits h r idle f = record {
  fits_id = f.fits_id;
  fits_url = f.fits_url;
  behind = f.behind;
  current = λ v a. absurd (false≢true (sym idle ∙ a));
}

reclaimed-Fits : (stamp : ℕ) (h : Job) (r : Row) → Fits h r → Fits (reclaimed_job stamp h) r
unfolding reclaimed_job
reclaimed-Fits stamp h r f =
    taken_back-Fits stamp "operator requeue cleared worker lease"
      "operator requeue after final attempt" h r f

beat-jobs :
    (now : ℕ) (worker : String) (claimed : Bool) (db : Db)
    → (record_worker_heartbeat now worker claimed db).1.jobs ≡ db.jobs
unfolding record_worker_heartbeat
beat-jobs now worker claimed db = elim (Bool-cases (is_blank worker)) [
  | inl e ↦ rw e
  | inr e ↦ rw e
]

turn_row-IsCoherent :
    (number_text : ℤ → String) (ticks : ℕ) (id : String) (turn : Turn) (session : IssueSession)
    (generation : IssueGeneration) (task : String)
    → IsCoherent (turn_row number_text ticks id turn session generation task)
unfolding turn_row row_of turn_spec new_job
turn_row-IsCoherent number_text ticks id turn session generation task = record {
  same_id = refl;
  same_url = refl;
  same_status = refl;
  same_version = refl;
  same_owner = refl;
}

insert_turn-Follows :
    (number_text : ℤ → String) (ticks : ℕ) (id : String) (turn : Turn) (session : IssueSession)
    (generation : IssueGeneration) (task : String) (db : Db)
    → IsWellFormed db.jobs
    → any (is_taken id (turn_key turn)) db.jobs ≡ false
    → Follows db.jobs (db.jobs ++ turn_row number_text ticks id turn session generation task ∷ [])
unfolding turn_row row_of new_job is_taken
insert_turn-Follows number_text ticks id turn session generation task db w free =
    append-Follows (turn_row number_text ticks id turn session generation task) db.jobs
      (λ r i.
        ground (arith, any-false-In (is_taken id (turn_key turn)) r db.jobs free i, eq_iff r.id id))
      (λ r key i p q.
        ground (arith, any-false-In (is_taken id (turn_key turn)) r db.jobs free i, eq_iff key key))
      refl (turn_row-IsCoherent number_text ticks id turn session generation task) w

-- Every transaction and every assignment keeps the system sound.
pub Step-IsSound : {s t : System} → Step s t → IsSound s → IsSound t
Step-IsSound {s} (insert stamp id spec key n) v = follow s _ v (
    insert_job-Follows spec key (new_job stamp id spec key n) s.db v.formed
      (unfold new_job in refl))
Step-IsSound {s} (insert_turn number_text ticks id turn session generation task free) v =
    follow s _ v
      (insert_turn-Follows number_text ticks id turn session generation task s.db v.formed free)
Step-IsSound {s} (claim_any stamp now worker lease) v =
    follow s _ v (claim_next-Tracks stamp now worker lease s.db v.formed).0
Step-IsSound {s} (claim_one stamp now job_id worker lease) v =
    follow s _ v (claim-Tracks stamp now worker lease s.db v.formed job_id).0
Step-IsSound {s} (expire stamp now) v =
    follow s _ v (requeue_expired-Follows stamp now s.db v.formed)
Step-IsSound {s} (touch stamp now job_id worker lease) v =
    follow s _ v (touch_lease-Follows stamp now job_id worker lease s.db v.formed)
Step-IsSound {s} (release stamp job_id worker) v =
    follow s _ v (release_lease-Follows stamp job_id worker s.db v.formed)
Step-IsSound {s} (beat now worker claimed) v =
    follow s _ v (rw (beat-jobs now worker claimed s.db) (Follows-refl s.db.jobs v.formed))
Step-IsSound {s} (read r i) v = hold s r.job v (r, i, own-Fits r (v.formed.coherent r i))
Step-IsSound {s} (edit h j i e) v =
    let (r, k, f) = v.known h i in hold s j v (r, k, Edited-Fits h j r e f)
Step-IsSound {s} (move stamp h j to error i calm e) v =
    let (r, k, f) = v.known h i in hold s j v (r, k, moved-Fits stamp h j to error r calm e f)
Step-IsSound {s} (drop_lease h i idle) v =
    let (r, k, f) = v.known h i in hold s _ v (r, k, dropped-Fits h r idle f)
Step-IsSound {s} (reclaim stamp h i) v =
    let (r, k, f) = v.known h i in hold s _ v (r, k, reclaimed-Fits stamp h r f)
Step-IsSound {s} (store now h i) v = follow s _ v (save-Follows now h s.db v.formed (v.known h i))

start-IsSound : IsSound start
start-IsSound = record {
  formed = record {
    distinct = tt;
    coherent = λ r i. absurd i;
    unique_keys = λ a b key i. absurd i;
    exclusive = λ a b i. absurd i;
  };
  known = λ h i. absurd i;
}

Reach-IsSound : {s t : System} → IsSound s → Reach s t → IsSound t
Reach-IsSound v here = v
Reach-IsSound v (next r st) = Step-IsSound st (Reach-IsSound v r)

-- After any sequence, from an empty database, of the steps of Jobs.Interleaving, which are creations of jobs
-- and of GitLab turns, claims, renewals, releases, expiries and saves of copies that were read and changed: two
-- jobs of one repository are never running or publishing at a time, and no two rows share an
-- idempotency key.
pub repository-IsExclusive :
    {s : System} → Reach start s → IsExclusive s.db.jobs × HasUniqueKeys s.db.jobs
repository-IsExclusive r =
    let v = Reach-IsSound start-IsSound r in (v.formed.exclusive, v.formed.unique_keys)

-- After any sequence of the steps of Jobs.Interleaving, from an empty database, the columns of each row for the id, the
-- repository, the status, the version and the lease's owner agree with the job stored in it.
pub rows-IsCoherent : {s : System} → Reach start s → (r : Row) → In r s.db.jobs → IsCoherent r
rows-IsCoherent r = (Reach-IsSound start-IsSound r).formed.coherent

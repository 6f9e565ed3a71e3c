-- ===== src/Api.antt =====
-- src/impostarr/api/routes.py: the routes that change a job. A route is a function on the tables,
-- with what Sonarr was asked, the files that were copied and the events that were published; its
-- reply is a result or the status of an HTTP error. Each job's file is given with it, since its
-- foreign key is never dangling. Scores and the constant columns of a human verdict are left out.
pub mod Approve
pub mod Review
pub mod Fence
pub mod Approval
pub mod Rejected
pub mod Parking
mod Tests
use impostarr.Prelude.{ℕ, Bool, Option, none, some, List, [], ◌∷◌, ◌++◌, ◌==◌, if◌then◌else◌, any}
use impostarr.IdSet.{IdSet}
use impostarr.Jobs.Rows.{Row, Status}
use impostarr.Jobs.{Result, ok, invalid_transition, lease_lost, park, unpark, requeue}
use impostarr.Scoring.Route.{Action}
use impostarr.Remediate.{Entry, Request, FileCopy, TrashEntry}

pub record HumanIdent : Type 0 where
  pub season : ℕ
  pub episodes : List ℕ

pub data Source : Type 0 where
  pipeline human : Source

-- A row of `verdicts`.
pub record VerdictRow : Type 0 where
  pub job_id : ℕ
  pub outcome : Status
  pub source : Source
  pub human_ident : Option HumanIdent
  pub proposed_action : Option Action
  pub remediation_log : List Entry

-- A row of `frame_hashes`.
pub record HashRow : Type 0 where
  pub id : ℕ
  pub file_id : ℕ

-- A row of `phash_corpus` that a human verdict has written.
pub record HumanEntry : Type 0 where
  pub frame_hash_id : ℕ
  pub season : ℕ
  pub episodes : List ℕ

-- Rows are listed in the order of their ids.
pub record Tables : Type 0 where
  pub jobs : List Row
  pub verdicts : List VerdictRow
  pub hashes : List HashRow
  pub corpus : List HumanEntry
  pub trash_items : List TrashEntry
  pub requests : List Request
  pub copies : List FileCopy
  pub events : List (ℕ × Status)

-- A reply: a result, or 400, 404, 409 or 500.
pub data Reply {ℓ} (A : Type ℓ) : Type ℓ where
  result : A → Reply A
  bad_request not_found conflict server_error : Reply A

-- `session.get(Job, job_id)`
unfoldable pub job_in : List Row → ℕ → Option Row
job_in [] id = none
job_in (r ∷ rs) id = let rest = job_in rs id in if r.id == id then some r else rest

abbrev pub or_older : Option VerdictRow → Option VerdictRow → Option VerdictRow
or_older (some v) older = some v
or_older none older = older

-- `_latest_verdict`
unfoldable pub latest_verdict : List VerdictRow → ℕ → Option VerdictRow
latest_verdict [] id = none
latest_verdict (v ∷ vs) id =
    or_older (latest_verdict vs id) (if v.job_id == id then some v else none)

abbrev pub of_job : ℕ → VerdictRow → Bool
of_job id v = v.job_id == id

-- The latest verdict of a job is rewritten.
unfoldable pub rewrite_latest : ℕ → (VerdictRow → VerdictRow) → List VerdictRow → List VerdictRow
rewrite_latest id f [] = []
rewrite_latest id f (v ∷ vs) =
    let rest = rewrite_latest id f vs in
    if any (of_job id) vs then v ∷ rest else if v.job_id == id then f v ∷ vs else v ∷ vs

abbrev pub publish : ℕ → Status → Tables → Tables
publish job_id s t = record t { events = t.events ++ (job_id, s) ∷ [] }

-- The job of a route, or 404.
abbrev pub with_job :
    {A : Type 0} → Tables → Option Row → (Row → Tables × Reply A) → Tables × Reply A
with_job t none route = (t, not_found)
with_job t (some job) route = route job

-- After a transition of the queue: its rows are committed, and the status is the job's new one.
unfoldable pub after_transition : ℕ → Tables → Result (List Row × Row) → Tables × Reply Status
after_transition job_id t (ok (rows, job)) =
    (publish job_id job.status (record t { jobs = rows }), result job.status)
after_transition job_id t invalid_transition = (t, conflict)
after_transition job_id t lease_lost = (t, server_error)

-- `_transition_endpoint`. `race` is what other sessions commit before the transition.
unfoldable pub transition_endpoint :
    (List Row → Row → Result (List Row × Row))
    → (Tables → Tables)
    → ℕ
    → Tables
    → Tables × Reply Status
unfolding job_in after_transition
transition_endpoint fn race job_id t =
    with_job t (job_in t.jobs job_id) λ job. after_transition job_id (race t) (fn (race t).jobs job)

unfoldable pub park_job : (Tables → Tables) → ℕ → Tables → Tables × Reply Status
unfolding transition_endpoint park
park_job = transition_endpoint park

unfoldable pub unpark_job : (Tables → Tables) → ℕ → Tables → Tables × Reply Status
unfolding transition_endpoint unpark
unpark_job = transition_endpoint unpark

unfoldable pub rerun_job : (Tables → Tables) → ℕ → Tables → Tables × Reply Status
unfolding transition_endpoint requeue
rerun_job = transition_endpoint requeue

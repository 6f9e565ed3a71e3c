-- ===== src/Api/Approval.antt =====
-- `approve_job` and `replace_job` of src/impostarr/api/routes.py: the claim before a remediation, and
-- the lease after it.
use text.Mathlib.TextPositions.{eq_refl}
use impostarr.Prelude.{
  ℕ, ◌<◌, ◌≡◌, refl, ◌⊎◌, inl, inr, String, Bool, true, ◌&&◌, Bool-cases, Option, none, some, List,
  [], ◌∷◌, arith, ◌==◌, any, count,
}
use impostarr.Jobs.Rows.{Status, quarantine, Row, is}
use impostarr.Jobs.{ok, invalid_transition, claim_for_api, update, lease, leased}
use impostarr.Jobs.Calls.{review_statuses}
use impostarr.Jobs.Fencing.{Holds}
use impostarr.Scoring.Route.{Action, remap, replace}
use impostarr.Remediate.{MediaFile, Settings, Flow, go, halt, released, lost, refused, raised}
use impostarr.Remediate.Leads.{Leads, Never}
use impostarr.Remediate.Lease.{GivesBack, replace-GivesBack, remap-GivesBack}
use impostarr.Pipeline.World.{status_in}
use impostarr.Api.{
  VerdictRow, Tables, Reply, result, not_found, conflict, server_error, job_in, latest_verdict,
  with_job,
}
use impostarr.Api.Approve.{
  Approved, approved, unresolved, nothing_to_approve, approval_failed, approved_action,
  approve_action, approve_on, approve_job, replace_on, replace_job, claim_and_remediate,
  after_claim, remediate, remediate_latest, remediate_flow, after_flow, tables_of, reply_status,
  run_of,
}
use impostarr.Api.Review.{Outside}

-- The rows that a claim by the API takes.
abbrev pub api_claimable : Row → List Status → Row → Bool
api_claimable job from_statuses r = r.id == job.id && any (is r.status) from_statuses

claim_for_api_cases :
    (rows : List Row) (job : Row) (now : ℕ) (worker : String) (from_statuses : List Status)
    → (claim_for_api rows job now worker from_statuses ≡ invalid_transition)
      ⊎ ((0 < count (api_claimable job from_statuses) rows)
          × (claim_for_api rows job now worker from_statuses
              ≡ ok (
                update (api_claimable job from_statuses) (lease worker now) rows,
                lease worker now job,
              )))
unfolding claim_for_api
claim_for_api_cases rows job now worker from_statuses = ground arith

claimed_held :
    (rows : List Row) (job : Row) (now : ℕ) (worker : String) (from_statuses : List Status)
    → 0 < count (api_claimable job from_statuses) rows
    → Holds (update (api_claimable job from_statuses) (lease worker now) rows) job worker
unfolding update
claimed_held [] job now worker from_statuses h = h
claimed_held (r ∷ rs) job now worker from_statuses h =
    ground (arith, eq_refl worker, claimed_held rs job now worker from_statuses)

module _ (settings : Settings) (o : Outside) (file : MediaFile) (now : ℕ) (worker : String)
    (t : Tables) where
  -- What a claim and a remediation of a job leave, by the reply.
  abbrev pub IsSettled : List Status → Row → Tables × Reply Status → Type 0
  IsSettled from_statuses job (t', result s) =
      (0 < count (api_claimable job from_statuses) (o.race t).jobs)
      × (count (leased job worker) t'.jobs ≡ 0)
      × (status_in t'.jobs job.id ≡ some s)
  IsSettled from_statuses job (t', conflict) = (t' ≡ t) ⊎ (t' ≡ o.race t)
  IsSettled from_statuses job (t', server_error) =
      (t' ≡ t) ⊎ (0 < count (api_claimable job from_statuses) (o.race t).jobs)
  IsSettled from_statuses job (t', _) = t' ≡ t

  module _ (from_statuses : List Status) (job : Row) (rows : List Row)
      (hit : 0 < count (api_claimable job from_statuses) (o.race t).jobs)
      (held : Holds rows (lease worker now job) worker) where
    status-IsSettled :
        (t1 : Tables) (s : Option Status)
        → count (leased job worker) t1.jobs ≡ 0
        → status_in t1.jobs job.id ≡ s
        → IsSettled from_statuses job (reply_status job.id t1 s)
    status-IsSettled t1 none h e = inr hit
    status-IsSettled t1 (some s) h e = (hit, h, e)

    flow-IsSettled :
        (t1 : Tables) (flow : Flow)
        → Leads Never (GivesBack settings (lease worker now job) worker rows refl held) flow
        → IsSettled from_statuses job (after_flow job.id t1 flow)
    unfolding after_flow
    flow-IsSettled t1 (go r) h = absurd h
    flow-IsSettled t1 (halt r (released s)) h =
        status-IsSettled (tables_of t1 job.id r) (status_in r.rows job.id) h refl
    flow-IsSettled t1 (halt r lost) h = inr hit
    flow-IsSettled t1 (halt r refused) h = inr hit
    flow-IsSettled t1 (halt r raised) h = inr hit

    flow-GivesBack :
        (action : Action) (t1 : Tables) (v : VerdictRow)
        → t1.jobs ≡ rows
        → Leads Never
            (GivesBack settings (lease worker now job) worker rows refl held)
            (remediate_flow settings o file now worker (lease worker now job) action (run_of t1 v))
    unfolding remediate_flow
    flow-GivesBack (remap ids) t1 v e =
        remap-GivesBack settings (lease worker now job) worker rows refl held file ids o.remap
          (run_of t1 v) e
    flow-GivesBack replace t1 v e =
        replace-GivesBack settings (lease worker now job) worker rows refl held file o.replace
          (run_of t1 v) e

    latest-IsSettled :
        (action : Action) (t1 : Tables) (v : Option VerdictRow)
        → t1.jobs ≡ rows
        → IsSettled from_statuses job
            (remediate_latest settings o file now worker (lease worker now job) action t1 v)
    unfolding remediate_latest
    latest-IsSettled action t1 none e = inr hit
    latest-IsSettled action t1 (some v) e = flow-IsSettled t1 _ (flow-GivesBack action t1 v e)

    remediate-IsSettled :
        (action : Action) (t1 : Tables)
        → t1.jobs ≡ rows
        → IsSettled from_statuses job
            (remediate settings o file now worker (lease worker now job) action t1)
    unfolding remediate
    remediate-IsSettled action t1 e = elim (Bool-cases o.has_runtime) [
      | inl up ↦ rw up (latest-IsSettled action t1 (latest_verdict t1.verdicts job.id) e)
      | inr down ↦ rw down (inr hit)
    ]

  claim-IsSettled :
      (from_statuses : List Status) (action : Action) (job : Row)
      → IsSettled from_statuses job
          (claim_and_remediate settings o file now worker from_statuses action t job)
  unfolding claim_and_remediate after_claim
  claim-IsSettled from_statuses action job =
      let rows = update (api_claimable job from_statuses) (lease worker now) (o.race t).jobs in
      elim (claim_for_api_cases (o.race t).jobs job now worker from_statuses) [
        | inl e ↦ rw e (inr refl)
        | inr h ↦ rw (h.1) (
            remediate-IsSettled from_statuses job rows h.0
              (claimed_held (o.race t).jobs job now worker from_statuses h.0) action
              (record (o.race t) { jobs = rows }) refl)
      ]

  approved-IsSettled :
      (job : Row) (a : Approved)
      → IsSettled (quarantine ∷ []) job (approve_action settings o file now worker t job a)
  unfolding approve_action
  approved-IsSettled job (approved action) = claim-IsSettled (quarantine ∷ []) action job
  approved-IsSettled job unresolved = inl refl
  approved-IsSettled job nothing_to_approve = inl refl
  approved-IsSettled job approval_failed = inl refl

  -- The job with its claim, or a job that does not exist.
  abbrev pub Settles : List Status → ℕ → Tables × Reply Status → Type 0
  Settles from_statuses job_id x =
      ((job_in t.jobs job_id ≡ none) × (x ≡ (t, not_found)))
      ⊎ ((job : Row) × (job_in t.jobs job_id ≡ some job) × IsSettled from_statuses job x)

  approve_with :
      (job_id : ℕ) (found : Option Row)
      → job_in t.jobs job_id ≡ found
      → Settles
          (quarantine ∷ [])
          job_id
          (with_job t found (approve_on settings o file now worker job_id t))
  unfolding approve_on
  approve_with job_id none e = inl (e, refl)
  approve_with job_id (some job) e = inr (
    job,
    e,
    elim (Bool-cases (is job.status quarantine)) [
      | inl q ↦ rw q (approved-IsSettled job (approved_action o (latest_verdict t.verdicts job_id)))
      | inr n ↦ rw n (inl refl)
    ],
  )

  -- An approval that is refused leaves the tables as they were, or as other sessions have left them
  -- meanwhile. One with a result has claimed the job in quarantine; after it no row of the job is
  -- active and claimed by the operator, and the result is the job's status. One that ends with 500
  -- has changed nothing, unless it has claimed the job in quarantine.
  pub approve_job-IsSettled :
      (job_id : ℕ)
      → Settles (quarantine ∷ []) job_id (approve_job settings o file now worker job_id t)
  unfolding approve_job
  approve_job-IsSettled job_id = approve_with job_id (job_in t.jobs job_id) refl

  replace_with :
      (job_id : ℕ) (found : Option Row)
      → job_in t.jobs job_id ≡ found
      → Settles review_statuses job_id (with_job t found (replace_on settings o file now worker t))
  unfolding replace_on
  replace_with job_id none e = inl (e, refl)
  replace_with job_id (some job) e = inr (
    job,
    e,
    elim (Bool-cases (any (is job.status) review_statuses)) [
      | inl q ↦ rw q (claim-IsSettled review_statuses replace job)
      | inr n ↦ rw n (inl refl)
    ],
  )

  -- The same of a replacement, which claims the job in quarantine or inconclusive.
  pub replace_job-IsSettled :
      (job_id : ℕ)
      → Settles review_statuses job_id (replace_job settings o file now worker job_id t)
  unfolding replace_job
  replace_job-IsSettled job_id = replace_with job_id (job_in t.jobs job_id) refl

claim_hits :
    (rows : List Row) (job : Row) (now : ℕ) (worker : String)
    → any (is job.status) review_statuses ≡ true
    → 0 < count (api_claimable job review_statuses) rows
    → claim_for_api rows job now worker review_statuses
      ≡ ok
          (update (api_claimable job review_statuses) (lease worker now) rows, lease worker now job)
unfolding claim_for_api
claim_hits rows job now worker review hit = ground arith

-- A job in review that has no verdict: `replace_job` claims it, and then ends with 500, since the
-- remediator raises. The job is left active, with a lease whose heartbeat nobody renews.
pub replace_job-unjudged :
    (settings : Settings) (o : Outside) (file : MediaFile) (now : ℕ) (worker : String) (t : Tables)
    (job_id : ℕ) (job : Row)
    → job_in t.jobs job_id ≡ some job
    → any (is job.status) review_statuses ≡ true
    → 0 < count (api_claimable job review_statuses) (o.race t).jobs
    → latest_verdict (o.race t).verdicts job.id ≡ none
    → let rows = update (api_claimable job review_statuses) (lease worker now) (o.race t).jobs in
      (replace_job settings o file now worker job_id t
        ≡ (record (o.race t) { jobs = rows }, server_error))
      × Holds rows job worker
unfolding replace_job replace_on claim_and_remediate after_claim remediate remediate_latest
replace_job-unjudged settings o file now worker t job_id job found review hit bare = (
  elim (Bool-cases o.has_runtime) [
    | inl up ↦
        rw (found, review, claim_hits (o.race t).jobs job now worker review hit, up, bare) refl
    | inr down ↦ rw (found, review, claim_hits (o.race t).jobs job now worker review hit, down) refl
  ],
  claimed_held (o.race t).jobs job now worker review_statuses hit,
)

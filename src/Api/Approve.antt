-- ===== src/Api/Approve.antt =====
-- src/impostarr/api/routes.py: `approve_job`, `reject_job` and `replace_job`.
use impostarr.Prelude.{ℕ, String, Option, none, some, List, [], ◌∷◌, if◌then◌else◌, any}
use impostarr.Jobs.Rows.{Row, Status, quarantine, is}
use impostarr.Jobs.{Result, ok, invalid_transition, lease_lost, claim_for_api}
use impostarr.Jobs.Calls.{review_statuses}
use impostarr.Scoring.Route.{Action, remap, replace}
use impostarr.Remediate.{MediaFile, Settings, Run, Flow, go, halt, released, lost, refused, raised}
use impostarr.Remediate.Replace
use impostarr.Remediate.Replace.{ReplaceAnswers}
use impostarr.Remediate.Remap
use impostarr.Remediate.Remap.{RemapAnswers, TargetEpisode}
use impostarr.Pipeline.World.{status_in}
use impostarr.Api.{
  HumanIdent, Source, human, VerdictRow, Tables, Reply, result, conflict, server_error, job_in,
  latest_verdict, rewrite_latest, publish, with_job,
}
use impostarr.Api.Review.{Outside, Resolved, failed, resolved, resolve_human_ident_ids}

-- The action that an approval carries out; `unresolved` is a human ident that names no episodes.
pub data Approved : Type 0 where
  approved : Action → Approved
  unresolved nothing_to_approve approval_failed : Approved

abbrev pub of_resolved : Resolved → Approved
of_resolved failed = approval_failed
of_resolved (resolved none) = unresolved
of_resolved (resolved (some ids)) = approved (remap ids)

abbrev pub of_ident : Outside → Source → Option HumanIdent → Approved
of_ident o human (some ident) = of_resolved (resolve_human_ident_ids o ident)
of_ident o _ _ = nothing_to_approve

abbrev pub of_proposal : Outside → VerdictRow → Option Action → Approved
of_proposal o v (some action) = approved action
of_proposal o v none = of_ident o v.source v.human_ident

abbrev pub approved_action : Outside → Option VerdictRow → Approved
approved_action o none = nothing_to_approve
approved_action o (some v) = of_proposal o v v.proposed_action

abbrev pub run_of : Tables → VerdictRow → Run
run_of t v = record {
  rows = t.jobs;
  log = v.remediation_log;
  proposed = none;
  trash_items = t.trash_items;
  requests = t.requests;
  copies = t.copies;
}

abbrev pub proposed_or : Option (List ℕ) → Option Action → Option Action
proposed_or none before = before
proposed_or (some ids) before = some (remap ids)

-- What a run of the remediator leaves, with the job's latest verdict.
abbrev pub tables_of : Tables → ℕ → Run → Tables
tables_of t job_id r = record t {
  jobs = r.rows;
  verdicts =
      rewrite_latest job_id
        (λ v. record v {
          remediation_log = r.log;
          proposed_action = proposed_or r.proposed v.proposed_action;
        })
        t.verdicts;
  trash_items = r.trash_items;
  requests = r.requests;
  copies = r.copies;
}

-- The status that another session reads afterwards.
abbrev pub reply_status : ℕ → Tables → Option Status → Tables × Reply Status
reply_status job_id t none = (t, server_error)
reply_status job_id t (some s) = (publish job_id s t, result s)

-- The remediator has returned, or has raised, which no handler of a route catches.
unfoldable pub after_flow : ℕ → Tables → Flow → Tables × Reply Status
after_flow job_id t (go r) = reply_status job_id (tables_of t job_id r) (status_in r.rows job_id)
after_flow job_id t (halt r (released s)) =
    reply_status job_id (tables_of t job_id r) (status_in r.rows job_id)
after_flow job_id t (halt r lost) = (tables_of t job_id r, server_error)
after_flow job_id t (halt r refused) = (tables_of t job_id r, server_error)
after_flow job_id t (halt r raised) = (tables_of t job_id r, server_error)

module _ (settings : Settings) (o : Outside) (file : MediaFile) (now : ℕ) (worker : String) where
  unfoldable pub remediate_flow : Row → Action → Run → Flow
  unfolding Remap.remap Replace.replace
  remediate_flow job (remap ids) r = Remap.remap settings job worker file ids o.remap r
  remediate_flow job replace r = Replace.replace settings job worker file o.replace r

  -- The remediator reads the latest verdict first, and raises when the job has none.
  unfoldable pub remediate_latest :
      Row → Action → Tables → Option VerdictRow → Tables × Reply Status
  unfolding after_flow remediate_flow
  remediate_latest job action t none = (t, server_error)
  remediate_latest job action t (some v) =
      after_flow job.id t (remediate_flow job action (run_of t v))

  unfoldable pub remediate : Row → Action → Tables → Tables × Reply Status
  unfolding remediate_latest latest_verdict
  remediate job action t =
      if o.has_runtime
      then remediate_latest job action t (latest_verdict t.verdicts job.id)
      else (t, server_error)

  -- After the claim of a job by the API.
  unfoldable pub after_claim : Action → Tables → Result (List Row × Row) → Tables × Reply Status
  unfolding remediate
  after_claim action t (ok (rows, job)) = remediate job action (record t { jobs = rows })
  after_claim action t invalid_transition = (t, conflict)
  after_claim action t lease_lost = (t, server_error)

  unfoldable pub claim_and_remediate : List Status → Action → Tables → Row → Tables × Reply Status
  unfolding after_claim claim_for_api
  claim_and_remediate from_statuses action t job =
      after_claim action (o.race t) (claim_for_api (o.race t).jobs job now worker from_statuses)

  unfoldable pub approve_action : Tables → Row → Approved → Tables × Reply Status
  unfolding claim_and_remediate
  approve_action t job (approved action) = claim_and_remediate (quarantine ∷ []) action t job
  approve_action t job unresolved = (t, conflict)
  approve_action t job nothing_to_approve = (t, conflict)
  approve_action t job approval_failed = (t, server_error)

  unfoldable pub approve_on : ℕ → Tables → Row → Tables × Reply Status
  unfolding approve_action latest_verdict resolve_human_ident_ids
  approve_on job_id t job =
      if is job.status quarantine
      then approve_action t job (approved_action o (latest_verdict t.verdicts job_id))
      else (t, conflict)

  unfoldable pub approve_job : ℕ → Tables → Tables × Reply Status
  unfolding approve_on job_in
  approve_job job_id t = with_job t (job_in t.jobs job_id) (approve_on job_id t)

  unfoldable pub replace_on : Tables → Row → Tables × Reply Status
  unfolding claim_and_remediate
  replace_on t job =
      if any (is job.status) review_statuses
      then claim_and_remediate review_statuses replace t job
      else (t, conflict)

  unfoldable pub replace_job : ℕ → Tables → Tables × Reply Status
  unfolding replace_on job_in
  replace_job job_id t = with_job t (job_in t.jobs job_id) (replace_on t)

abbrev pub clear_proposal : VerdictRow → VerdictRow
clear_proposal v = record v { proposed_action = none }

unfoldable pub reject_on : ℕ → Tables → Row → Tables × Reply Status
unfolding rewrite_latest
reject_on job_id t job =
    if is job.status quarantine
    then (
      publish job_id quarantine
          (record t { verdicts = rewrite_latest job_id clear_proposal t.verdicts }),
      result quarantine,
    )
    else (t, conflict)

unfoldable pub reject_job : ℕ → Tables → Tables × Reply Status
unfolding reject_on job_in
reject_job job_id t = with_job t (job_in t.jobs job_id) (reject_on job_id t)

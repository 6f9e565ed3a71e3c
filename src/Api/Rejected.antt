-- ===== src/Api/Rejected.antt =====
-- `reject_job` of src/impostarr/api/routes.py, and an approval after it.
use impostarr.Prelude.{
  ℕ, String, ◌≡◌, refl, ◌∙◌, ap, inl, inr, true, false, Bool-cases, Option, none, some, List, [],
  ◌∷◌, arith, ◌==◌, any,
}
use impostarr.Jobs.Rows.{Row, quarantine}
use impostarr.Remediate.{MediaFile, Settings}
use impostarr.Api.{
  pipeline, VerdictRow, Tables, result, conflict, job_in, latest_verdict, of_job, rewrite_latest,
  publish,
}
use impostarr.Api.Approve.{
  clear_proposal, reject_job, reject_on, approve_job, approve_on, approve_action,
  nothing_to_approve, approved_action,
}
use impostarr.Api.Review.{Outside}

abbrev rewritten : (VerdictRow → VerdictRow) → Option VerdictRow → Option VerdictRow
rewritten f none = none
rewritten f (some v) = some (f v)

-- `latest_verdict` finds a verdict exactly when there is one of the job.
no_verdict :
    (vs : List VerdictRow) (id : ℕ) → any (of_job id) vs ≡ false → latest_verdict vs id ≡ none
unfolding latest_verdict
no_verdict [] id h = refl
no_verdict (v ∷ vs) id h = ground (arith, no_verdict vs id)

some_verdict :
    (vs : List VerdictRow) (id : ℕ)
    → any (of_job id) vs ≡ true
    → (v : VerdictRow) × (latest_verdict vs id ≡ some v)
unfolding latest_verdict
some_verdict [] id h = absurd cc
some_verdict (v ∷ vs) id h = elim (Bool-cases (any (of_job id) vs)) [
  | inl e ↦ let (w, k) = some_verdict vs id e in (w, rw k refl)
  | inr e ↦ (v, ground (arith, no_verdict vs id e))
]

module _ (id : ℕ) (f : VerdictRow → VerdictRow)
    (keeps : (v : VerdictRow) → (f v).job_id ≡ v.job_id) where
  latest_verdict-rewrite_latest :
      (vs : List VerdictRow)
      → latest_verdict (rewrite_latest id f vs) id ≡ rewritten f (latest_verdict vs id)
  unfolding latest_verdict rewrite_latest
  latest_verdict-rewrite_latest [] = refl
  latest_verdict-rewrite_latest (v ∷ vs) = elim (Bool-cases (any (of_job id) vs)) [
    | inl e ↦ let (w, k) = some_verdict vs id e in rw (e, latest_verdict-rewrite_latest vs, k) refl
    | inr e ↦ elim (Bool-cases (v.job_id == id)) [
      | inl own ↦ rw (e, own, no_verdict vs id e, keeps v, own) refl
      | inr other ↦ rw (e, other, no_verdict vs id e, other) refl
    ]
  ]

abbrev pub IsPipelines : Option VerdictRow → Type 0
IsPipelines none = Unit
IsPipelines (some v) = v.source ≡ pipeline

pipelines_nothing :
    (o : Outside) (v : Option VerdictRow)
    → IsPipelines v
    → approved_action o (rewritten clear_proposal v) ≡ nothing_to_approve
pipelines_nothing o none h = refl
pipelines_nothing o (some v) h = rw h refl

cleared :
    (o : Outside) (job_id : ℕ) (t : Tables)
    → IsPipelines (latest_verdict t.verdicts job_id)
    → approved_action o (latest_verdict (rewrite_latest job_id clear_proposal t.verdicts) job_id)
      ≡ nothing_to_approve
cleared o job_id t h =
    ap (approved_action o)
      (latest_verdict-rewrite_latest job_id clear_proposal (λ v. refl) t.verdicts)
    ∙ pipelines_nothing o (latest_verdict t.verdicts job_id) h

-- A job in quarantine, whose latest verdict, if it has one, is of the pipeline. It can be rejected:
-- its reply is the status of the job, and nothing changes but verdicts. An approval after that,
-- while nothing else has happened, is refused with 409 and changes nothing, whatever all else
-- outside answers.
pub reject_job-approve_job :
    (settings : Settings) (o : Outside) (file : MediaFile) (now : ℕ) (worker : String) (t : Tables)
    (job_id : ℕ) (job : Row)
    → job_in t.jobs job_id ≡ some job
    → job.status ≡ quarantine
    → IsPipelines (latest_verdict t.verdicts job_id)
    → let left =
        publish job_id quarantine
          (record t { verdicts = rewrite_latest job_id clear_proposal t.verdicts }) in
      (reject_job job_id t ≡ (left, result quarantine))
      × (approve_job settings o file now worker job_id left ≡ (left, conflict))
unfolding reject_job reject_on approve_job approve_on approve_action
reject_job-approve_job settings o file now worker t job_id job found q h =
    (rw (found, q) refl, rw (found, q, cleared o job_id t h) refl)

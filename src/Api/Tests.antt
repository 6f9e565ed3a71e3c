-- ===== src/Api/Tests.antt =====
-- The routes of src/impostarr/api/routes.py on one job in quarantine.
use impostarr.Prelude.{ℕ, ◌≡◌, refl, none, some, List, [], ◌∷◌, arith, true, false}
use impostarr.Jobs.{update, lease}
use impostarr.Jobs.Fencing.{Holds}
use impostarr.Jobs.Calls.{review_statuses}
use impostarr.Jobs.Rows.{Row, Status, hold, quarantine, pending, matched}
use impostarr.Scoring.Route.{remap}
use impostarr.Remediate.{MediaFile, Settings, success, linked}
use impostarr.Remediate.Remap.{TargetEpisode, fetched}
use impostarr.Api.{
  Tables, VerdictRow, pipeline, job_in, latest_verdict, rewrite_latest, result, conflict,
  server_error, publish, park_job, unpark_job,
}
use impostarr.Api.Approve.{replace_job, reject_job, clear_proposal, approve_job}
use impostarr.Api.Review.{human_verdict, Outside, is_claimed, ignore, VerdictRequest, post_verdict}
use impostarr.Api.Fence.{IsFenced, post_verdict-IsFenced, post_verdict-race}
use impostarr.Api.Approval.{Settles, api_claimable, approve_job-IsSettled, replace_job-unjudged}
use impostarr.Api.Rejected.{reject_job-approve_job}
use impostarr.Api.Parking.{parked_tables, park_job-unpark_job}

abbrev job : Status → Row
job s = record {
  id = 1;
  file_id = 7;
  status = s;
  attempts = 0;
  claimed_by = none;
  claimed_at = none;
  heartbeat_at = none;
  created_at = 3;
}

abbrev judged : VerdictRow
judged = record {
  job_id = 1;
  outcome = quarantine;
  source = pipeline;
  human_ident = none;
  proposed_action = some (remap (12 ∷ []));
  remediation_log = [];
}

abbrev tables : Status → List VerdictRow → Tables
tables s verdicts = record {
  jobs = job s ∷ [];
  verdicts = verdicts;
  hashes = record { id = 4; file_id = 7 } ∷ [];
  corpus = [];
  trash_items = [];
  requests = [];
  copies = [];
  events = [];
}

abbrev file : MediaFile
file = record {
  id = 7;
  series_id = 2;
  episode_ids = 11 ∷ [];
  episode_file_id = 70;
  history_id = some 9;
  suffix = [];
}

abbrev episode : ℕ → ℕ → TargetEpisode
episode id n = record { id = id; season_number = 1; episode_number = n; has_file = false }

abbrev outside : (Tables → Tables) → Outside
outside race = record {
  race = race;
  has_runtime = true;
  episodes = some (episode 11 1 ∷ episode 12 2 ∷ []);
  replace = record {
    mark = success;
    mkdir = true;
    link = linked;
    delete = success;
    search = success;
  };
  remap = record {
    episodes = fetched (episode 11 1 ∷ episode 12 2 ∷ []);
    mkdir = true;
    link = linked;
    delete = success;
    candidates = fetched [];
    import = success;
  };
}

abbrev settings : Settings
settings = record { dry_run = false; trash_enabled = true; expires_at = 90 }

abbrev quiet : Outside
quiet = outside (λ t. t)

abbrev claimed : VerdictRequest
claimed = record { verdict = is_claimed; ident = none }

abbrev ignored : VerdictRequest
ignored = record { verdict = ignore; ident = none }

abbrev in_review : Tables
in_review = tables quarantine (judged ∷ [])

post_verdict-IsFenced_example :
    IsFenced 1 claimed in_review in_review (post_verdict quiet file 1 claimed in_review)
post_verdict-IsFenced_example = post_verdict-IsFenced quiet file 1 claimed in_review

approve_job-IsSettled_example :
    Settles settings quiet file 50 "api-anon" in_review
      (quarantine ∷ [])
      1
      (approve_job settings quiet file 50 "api-anon" 1 in_review)
approve_job-IsSettled_example = approve_job-IsSettled settings quiet file 50 "api-anon" in_review 1

-- What the rival's verdict leaves.
abbrev after_rival : Tables
after_rival = record in_review {
  jobs = job matched ∷ [];
  verdicts = judged ∷ human_verdict 1 claimed ∷ [];
  corpus = record { frame_hash_id = 4; season = 1; episodes = 1 ∷ [] } ∷ [];
  events = (1, matched) ∷ [];
}

post_verdict-race_example :
    post_verdict (outside (λ t. after_rival)) file 1 ignored in_review ≡ (after_rival, conflict)
unfolding post_verdict update
post_verdict-race_example =
    post_verdict-race (outside (λ t. after_rival)) quiet file 1 ignored none in_review after_rival
      (record { job_status = matched; proposed_remap = none }) refl refl refl

replace_job-unjudged_example :
    let rows =
      update
        (api_claimable (job quarantine) review_statuses)
        (lease "api-anon" 50)
        (job quarantine ∷ []) in
    (replace_job settings quiet file 50 "api-anon" 1 (tables quarantine [])
      ≡ (record (tables quarantine []) { jobs = rows }, server_error))
    × Holds rows (job quarantine) "api-anon"
unfolding job_in latest_verdict
replace_job-unjudged_example =
    replace_job-unjudged settings quiet file 50 "api-anon" (tables quarantine []) 1 (job quarantine)
      refl refl (omega arith) refl

reject_job-approve_job_example :
    let left =
      publish 1 quarantine
        (record in_review { verdicts = rewrite_latest 1 clear_proposal (judged ∷ []) }) in
    (reject_job 1 in_review ≡ (left, result quarantine))
    × (approve_job settings quiet file 50 "api-anon" 1 left ≡ (left, conflict))
unfolding job_in latest_verdict
reject_job-approve_job_example =
    reject_job-approve_job settings quiet file 50 "api-anon" in_review 1 (job quarantine) refl refl
      refl

park_job-unpark_job_example :
    let waiting = tables pending [] in
    let parked = parked_tables (job pending) waiting in
    (park_job (λ w. w) 1 waiting ≡ (parked, result hold))
    × (unpark_job (λ w. w) 1 parked
        ≡ (publish 1 pending (record parked { jobs = job pending ∷ [] }), result pending))
unfolding job_in
park_job-unpark_job_example = park_job-unpark_job (job pending) (tables pending []) refl refl refl

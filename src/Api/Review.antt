-- ===== src/Api/Review.antt =====
-- src/impostarr/api/routes.py: `post_verdict`, the ident of an operator as ids of episodes,
-- and what the routes of a review meet outside.
use impostarr.Prelude.{
  ℕ, Bool, true, false, ◌&&◌, Option, none, some, List, [], ◌∷◌, ◌++◌, map, filter, ◌==◌,
  if◌then◌else◌, any,
}
use impostarr.IdSet.{IdSet, add, member}
use impostarr.Jobs.Rows.{Row, Status, matched, quarantine, inconclusive, is}
use impostarr.Jobs.{Result, ok, invalid_transition, lease_lost, set_status_checked}
use impostarr.Jobs.Calls.{review_statuses}
use impostarr.Remediate.{MediaFile}
use impostarr.Remediate.Replace.{ReplaceAnswers}
use impostarr.Remediate.Remap.{RemapAnswers, TargetEpisode}
use impostarr.Pipeline.{sort_numbers}
use impostarr.Api.{
  HumanIdent, human, VerdictRow, HashRow, HumanEntry, Tables, Reply, result, bad_request, conflict,
  server_error, job_in, publish, with_job,
}

pub data Judgement : Type 0 where
  is_claimed is_other ignore : Judgement

pub record VerdictRequest : Type 0 where
  pub verdict : Judgement
  pub ident : Option HumanIdent

-- The body of the reply to a verdict.
pub record VerdictReply : Type 0 where
  pub job_status : Status
  pub proposed_remap : Option IdSet

-- What a route meets outside: whether the instance of the file has a runtime, and the answer of its
-- client to a request for the episodes, with `none` for an exception. `race` is what other sessions
-- commit after the route has read the job and before it moves it.
pub record Outside : Type 0 where
  pub race : Tables → Tables
  pub has_runtime : Bool
  pub episodes : Option (List TargetEpisode)
  pub replace : ReplaceAnswers
  pub remap : RemapAnswers

unfoldable pub find_numbered : List TargetEpisode → ℕ → ℕ → Option ℕ
find_numbered [] season number = none
find_numbered (ep ∷ eps) season number =
    let rest = find_numbered eps season number in
    if ep.season_number == season && ep.episode_number == number then some ep.id else rest

abbrev pub add_found : Option ℕ → Option IdSet → Option IdSet
add_found (some id) (some ids) = some (add id ids)
add_found _ _ = none

unfoldable pub find_all : List TargetEpisode → ℕ → List ℕ → Option IdSet
unfolding find_numbered add
find_all eps season [] = some []
find_all eps season (n ∷ ns) = add_found (find_numbered eps season n) (find_all eps season ns)

-- The error of a runtime or of the client, or the ids if each of them is found.
pub data Resolved : Type 0 where
  failed : Resolved
  resolved : Option IdSet → Resolved

abbrev pub resolve_in : Bool → Option (List TargetEpisode) → HumanIdent → Resolved
resolve_in true (some eps) ident = resolved (find_all eps ident.season ident.episodes)
resolve_in _ _ ident = failed

-- `_resolve_human_ident_ids`
unfoldable pub resolve_human_ident_ids : Outside → HumanIdent → Resolved
unfolding find_all
resolve_human_ident_ids o ident = resolve_in o.has_runtime o.episodes ident

abbrev pub or_earlier : Option HashRow → Option HashRow → Option HashRow
or_earlier (some h) earlier = some h
or_earlier none earlier = earlier

-- `_latest_frame_hash`
unfoldable pub latest_frame_hash : List HashRow → ℕ → Option HashRow
latest_frame_hash [] file_id = none
latest_frame_hash (h ∷ hs) file_id =
    or_earlier (latest_frame_hash hs file_id) (if h.file_id == file_id then some h else none)

abbrev pub corpus_rows : HashRow → List TargetEpisode → List HumanEntry
corpus_rows hash [] = []
corpus_rows hash (ep ∷ eps) =
    record {
      frame_hash_id = hash.id;
      season = ep.season_number;
      episodes = sort_numbers (map (λ e. e.episode_number) (ep ∷ eps));
    }
    ∷ []

-- `_write_phash_corpus_for_verdict`
unfoldable pub write_phash_corpus_for_verdict :
    MediaFile → HashRow → List TargetEpisode → Tables → Tables
unfolding sort_numbers
write_phash_corpus_for_verdict file hash episodes t = record t {
  corpus = t.corpus ++ corpus_rows hash (filter (λ ep. member ep.id file.episode_ids) episodes);
}

-- The status that each verdict moves the job to.
abbrev pub target_status : Judgement → Status
target_status is_claimed = matched
target_status is_other = quarantine
target_status ignore = inconclusive

abbrev pub ident_of : Judgement → Option HumanIdent → Option HumanIdent
ident_of is_other ident = ident
ident_of _ ident = none

abbrev pub human_verdict : ℕ → VerdictRequest → VerdictRow
human_verdict job_id body = record {
  job_id = job_id;
  outcome = target_status body.verdict;
  source = human;
  human_ident = ident_of body.verdict body.ident;
  proposed_action = none;
  remediation_log = [];
}

abbrev pub add_verdict : ℕ → VerdictRequest → Tables → Tables
add_verdict job_id body t = record t { verdicts = t.verdicts ++ human_verdict job_id body ∷ [] }

abbrev pub reply_verdict : ℕ → Status → Option IdSet → Tables → Tables × Reply VerdictReply
reply_verdict job_id s proposed t =
    (publish job_id s t, result (record { job_status = s; proposed_remap = proposed }))

unfoldable pub write_claimed :
    MediaFile
    → ℕ
    → Status
    → HashRow
    → Tables
    → Bool
    → Option (List TargetEpisode)
    → Tables × Reply VerdictReply
unfolding write_phash_corpus_for_verdict
write_claimed file job_id s hash t true (some eps) =
    reply_verdict job_id s none (write_phash_corpus_for_verdict file hash eps t)
write_claimed file job_id s hash t _ _ = (t, server_error)

-- The corpus after a verdict that the file is what it claims to be.
unfoldable pub after_claimed :
    Outside → MediaFile → ℕ → Status → Option HashRow → Tables → Tables × Reply VerdictReply
unfolding write_claimed
after_claimed o file job_id s none t = reply_verdict job_id s none t
after_claimed o file job_id s (some hash) t =
    write_claimed file job_id s hash t o.has_runtime o.episodes

abbrev pub after_other : ℕ → Status → Tables → Resolved → Tables × Reply VerdictReply
after_other job_id s t failed = (t, server_error)
after_other job_id s t (resolved ids) = reply_verdict job_id s ids t

-- What follows the stored verdict.
unfoldable pub after_verdict :
    Outside
    → MediaFile
    → ℕ
    → Status
    → Tables
    → Judgement
    → Option HumanIdent
    → Tables × Reply VerdictReply
unfolding after_claimed latest_frame_hash resolve_human_ident_ids
after_verdict o file job_id s t is_claimed ident =
    after_claimed o file job_id s (latest_frame_hash t.hashes file.id) t
after_verdict o file job_id s t is_other (some ident) =
    after_other job_id s t (resolve_human_ident_ids o ident)
after_verdict o file job_id s t is_other none = (t, server_error)
after_verdict o file job_id s t ignore ident = reply_verdict job_id s none t

-- After the fence, which raises before any verdict is written.
unfoldable pub after_fence :
    Outside
    → MediaFile
    → ℕ
    → VerdictRequest
    → Tables
    → Result (List Row × Row)
    → Tables × Reply VerdictReply
unfolding after_verdict
after_fence o file job_id body t (ok (rows, job)) =
    after_verdict o file job_id job.status (add_verdict job_id body (record t { jobs = rows }))
      body.verdict body.ident
after_fence o file job_id body t invalid_transition = (t, conflict)
after_fence o file job_id body t lease_lost = (t, server_error)

-- `is_other` with no ident.
abbrev pub lacks_ident : Judgement → Option HumanIdent → Bool
lacks_ident is_other none = true
lacks_ident _ _ = false

unfoldable pub verdict_on :
    Outside → MediaFile → ℕ → VerdictRequest → Tables → Row → Tables × Reply VerdictReply
unfolding after_fence set_status_checked
verdict_on o file job_id body t job =
    if any (is job.status) review_statuses
    then if lacks_ident body.verdict body.ident
      then (t, bad_request)
      else after_fence o file job_id body (o.race t)
          (set_status_checked (o.race t).jobs job (target_status body.verdict) job.status)
    else (t, conflict)

unfoldable pub post_verdict :
    Outside → MediaFile → ℕ → VerdictRequest → Tables → Tables × Reply VerdictReply
unfolding verdict_on job_in
post_verdict o file job_id body t =
    with_job t (job_in t.jobs job_id) (verdict_on o file job_id body t)

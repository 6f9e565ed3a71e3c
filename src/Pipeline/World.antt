-- ===== src/Pipeline/World.antt =====
-- `process_job` of src/impostarr/pipeline.py: the world of its tables, what the outside answers, and how
-- a body ends.
use impostarr.Prelude.{
  ℕ, String, Bool, true, false, ◌&&◌, Option, none, some, List, [], ◌∷◌, ◌++◌, map, ◌==◌,
  if◌then◌else◌,
}
use impostarr.Candidates.{ExternalIds}
use impostarr.Jobs.Rows.{Status, error, Row}
use impostarr.Jobs.{Result, ok, invalid_transition, lease_lost, release}
use impostarr.Scoring.{ScoringConfig}
use impostarr.Scoring.Route.{
  Thresholds, InstanceFlags, Action, remap, Outcome, matched, quarantine_outcome, inconclusive,
  remediate, RoutingDecision,
}
use impostarr.Remediate.{Entry, Request, FileCopy, TrashEntry, Run, Settings}
use impostarr.Remediate.Replace.{ReplaceAnswers}
use impostarr.Remediate.Remap.{RemapAnswers}
use impostarr.Pipeline.{SeriesContext, Resolution, no_match, malformed, resolved}
use impostarr.Pipeline.Assets.{
  Segment, Payload, ExtractedAsset, AssetRow, Extraction, Got, got, missing, StageResult,
  stage_probe, stage_audio, stage_transcript,
}
use impostarr.Pipeline.Assets
use impostarr.Pipeline.Assets.Fanned.{SubFingerprint, FrameFingerprint, FrameHashRow, FrameHashSeq}
use impostarr.Pipeline.Plugins.{AssetFingerprints, Digests, ResultRow, Turn}
use impostarr.Pipeline.Duplicates.{Duplicate, Hashing}

-- `models.Verdict`, of a pipeline's source.
pub record Verdict (F : Type 0) : Type 0 where
  pub job_id : ℕ
  pub s_claimed : Option F
  pub s_alt : Option F
  pub outcome : Outcome
  pub proposed_action : Option Action
  pub remediation_log : List Entry
  pub dupe_info : Option (Duplicate F)

-- `models.PhashCorpusEntry`
pub record CorpusEntry (F : Type 0) : Type 0 where
  pub frame_hash_id : ℕ
  pub external_ids : ExternalIds
  pub season : ℕ
  pub episodes : List ℕ
  pub confidence : F

pub record World (F : Type 0) : Type 0 where
  pub jobs : List Row
  pub assets : List (AssetRow F)
  pub hash_rows : List (FrameHashRow F)
  pub results : List (ResultRow F)
  pub verdicts : List (Verdict F)
  pub corpus : List (CorpusEntry F)
  pub trash_items : List TrashEntry
  pub requests : List Request
  pub copies : List FileCopy
  pub events : List (ℕ × Status)

-- What the stages of a job meet outside. `context` is the series context, cached or fetched, with
-- `none` for an error of Sonarr; `of_hashes` digests the frame hashes.
pub record Answers (F : Type 0) : Type 0 where
  pub context : Option SeriesContext
  pub probe_fp : Option String
  pub probe : Extraction (ExtractedAsset F)
  pub audio_fp : Option String
  pub audio : Extraction (ExtractedAsset F)
  pub sub_fp : SubFingerprint
  pub subs : Extraction (List (ExtractedAsset F))
  pub frame_fp : FrameFingerprint F
  pub frames : Extraction (FrameHashSeq F × List (ExtractedAsset F))
  pub transcript : Extraction (List (Segment F))
  pub hashing : Hashing F
  pub of_hashes : List String → String
  pub digests : Digests
  pub turns : List (Turn F)
  pub replace : ReplaceAnswers
  pub remap : RemapAnswers

-- The settings that a job reads, with `FRAME_SAMPLE_N` and `DUPLICATE_SIMILARITY_THRESHOLD`.
pub record Config (F : Type 0) : Type 0 where
  pub scoring : ScoringConfig F
  pub thresholds : Thresholds F
  pub flags : InstanceFlags
  pub remediation : Settings
  pub frame_sample_n : ℕ
  pub duplicate_threshold : F

-- How the body of `process_job` ends: at its end, by a lost lease, or by another exception, with the
-- session's copy of the job.
pub data Body (F : Type 0) : Type 0 where
  done : World F → Body F
  lease_gone : World F → Body F
  crashed : World F → Row → Body F

-- How a call ends: it returns, or raises `LeaseLost`, or, if the last release is refused,
-- `InvalidTransition`.
pub data ProcessEnd : Type 0 where
  returned lease_was_lost not_released : ProcessEnd

-- The stages whose results the plugins see.
pub record Extracted (F : Type 0) : Type 0 where
  pub probe : Option (ExtractedAsset F)
  pub audio : Option (ExtractedAsset F)
  pub subs : Option (List (ExtractedAsset F))
  pub frames : Option (FrameHashSeq F × FrameHashRow F)

abbrev pub is_absent : {A : Type 0} → Option A → Bool
is_absent none = true
is_absent (some _) = false

abbrev pub all_missing : {F : Type 0} → Extracted F → Bool
all_missing e = is_absent e.probe && is_absent e.audio && is_absent e.subs && is_absent e.frames

-- The status of a release that `route` asks for.
abbrev pub status_of : Outcome → Status
status_of matched = Status.matched
status_of quarantine_outcome = Status.quarantine
status_of inconclusive = Status.inconclusive
status_of remediate = Status.remediated

-- `session.get(Job, id).status`
abbrev pub status_in : List Row → ℕ → Option Status
status_in [] id = none
status_in (r ∷ rs) id = if r.id == id then some r.status else status_in rs id

abbrev pub option_map : {A B : Type 0} → (A → B) → Option A → Option B
option_map f none = none
option_map f (some a) = some (f a)

abbrev pub list_or_nil : {A : Type 0} → Option (List A) → List A
list_or_nil none = []
list_or_nil (some xs) = xs

-- The proposal of a verdict: none for what is done at once.
abbrev pub proposal : RoutingDecision → Option Action
proposal d = if d.auto then none else d.action

abbrev pub action_of : Option (List ℕ) → Option Action → Option Action
action_of none before = before
action_of (some targets) before = some (remap targets)

module _ {F : Type 0} where
  abbrev pub publish : ℕ → Status → World F → World F
  publish job_id s w = record w { events = w.events ++ (job_id, s) ∷ [] }

  -- After a call of `jobs.release` by the job's own session.
  unfoldable pub after_release :
      World F → Row → Result (List Row × Row) → (World F → Row → Body F) → Body F
  after_release w job (ok (rows, copy)) k = k (record w { jobs = rows }) copy
  after_release w job invalid_transition k = crashed w job
  after_release w job lease_lost k = lease_gone w

  unfoldable pub release_then : World F → Row → Status → String → (World F → Row → Body F) → Body F
  unfolding after_release
  release_then w job s worker k = after_release w job (release w.jobs job s worker) k

  -- A job that cannot be processed.
  unfoldable pub give_up : World F → Row → String → Body F
  unfolding release_then
  give_up w job worker = release_then w job error worker (λ w' copy. done (publish job.id error w'))

  -- A stage's result is handed on, unless it has raised.
  abbrev pub after_stage : {A : Type 0} → World F → Row → Got A → (Option A → Body F) → Body F
  after_stage w job (got a) k = k (some a)
  after_stage w job missing k = k none
  after_stage w job Assets.raised k = crashed w job

  abbrev pub fingerprints_of :
      (List String → String) → Extracted F → Option (Option (Payload F)) → AssetFingerprints
  fingerprints_of of_hashes e transcript = record {
    probe = option_map (λ a. a.input_fingerprint) e.probe;
    audio = option_map (λ a. a.input_fingerprint) e.audio;
    subs = map (λ a. a.input_fingerprint) (list_or_nil e.subs);
    transcript = transcript_fp transcript e.audio;
    frames = option_map (λ f. of_hashes f.0.hashes) e.frames;
  }
    where
      transcript_fp : Option (Option (Payload F)) → Option (ExtractedAsset F) → Option String
      transcript_fp (some (some payload)) audio = option_map (λ a. a.input_fingerprint) audio
      transcript_fp _ audio = none

  -- The run of a remediation begins with the verdict that was just stored, the latest of the job.
  abbrev pub run_of : World F → Verdict F → Run
  run_of w v = record {
    rows = w.jobs;
    log = v.remediation_log;
    proposed = none;
    trash_items = w.trash_items;
    requests = w.requests;
    copies = w.copies;
  }

  -- What a remediation leaves, its verdict included.
  abbrev pub world_of : World F → Verdict F → Run → World F
  world_of w v r = record w {
    jobs = r.rows;
    trash_items = r.trash_items;
    requests = r.requests;
    copies = r.copies;
    verdicts =
        w.verdicts
        ++ record v {
          remediation_log = r.log;
          proposed_action = action_of r.proposed v.proposed_action;
        }
          ∷ [];
  }

  abbrev pub corpus_entry : FrameHashRow F → SeriesContext → ℕ → List ℕ → F → CorpusEntry F
  corpus_entry row ctx season numbers confidence = record {
    frame_hash_id = row.id;
    external_ids = ctx.external_ids;
    season = season;
    episodes = numbers;
    confidence = confidence;
  }

  -- `_write_phash_corpus`; what the outer session has of the job goes with an exception.
  unfoldable pub write_phash_corpus :
      World F → Row → FrameHashRow F → SeriesContext → F → Resolution → Body F
  write_phash_corpus w copy row ctx confidence no_match = done w
  write_phash_corpus w copy row ctx confidence malformed = crashed w copy
  write_phash_corpus w copy row ctx confidence (resolved season numbers) =
      done (record w { corpus = w.corpus ++ corpus_entry row ctx season numbers confidence ∷ [] })

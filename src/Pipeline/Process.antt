-- ===== src/Pipeline/Process.antt =====
-- `process_job` of src/impostarr/pipeline.py: one job through the stages, the scores, the verdict and
-- its remediation, on the world of Pipeline.World. All that the outside answers is given beforehand. A
-- cancellation from outside is left out, and so are the texts of the log.
pub mod Stages
pub mod Unattended
pub mod Corpus
pub mod Lease
mod Tests
use impostarr.Prelude.{
  ℕ, String, Bool, true, false, not, ◌&&◌, Option, none, some, List, [], ◌∷◌, ◌++◌, map, ◌==◌,
  if◌then◌else◌,
}
use impostarr.Float.{Float}
use impostarr.IdSet.{IdSet, of_list}
use impostarr.Candidates.{ExternalIds}
use impostarr.Jobs.Rows.{Status, active, error, Row, is}
use impostarr.Jobs.{Result, ok, invalid_transition, lease_lost, release, settle}
use impostarr.Scoring.{PluginOutcome, ScoringConfig, ScoreSheet, aggregate}
use impostarr.Scoring.Route.{
  Thresholds, InstanceFlags, Action, remap, replace, Outcome, matched, quarantine_outcome,
  inconclusive, remediate, RoutingDecision, route,
}
use impostarr.Remediate.{
  Entry, Request, FileCopy, TrashEntry, Run, MediaFile, Settings, Flow, go, halt, Ending, released,
  lost, refused, raised,
}
use impostarr.Remediate.Replace
use impostarr.Remediate.Replace.{ReplaceAnswers}
use impostarr.Remediate.Remap
use impostarr.Remediate.Remap.{RemapAnswers}
use impostarr.Pipeline.{
  SeriesContext, ClaimedIdent, Resolution, no_match, malformed, resolved, season_and_numbers,
}
use impostarr.Pipeline.Assets.{
  Segment, Payload, ExtractedAsset, AssetRow, Extraction, Got, got, missing, StageResult,
  stage_probe, stage_audio, stage_transcript,
}
use impostarr.Pipeline.Assets
use impostarr.Pipeline.Assets.Frames.{stage_frames}
use impostarr.Pipeline.Assets.Fanned.{
  SubFingerprint, FrameFingerprint, FrameHashRow, FrameHashSeq, FrameStage, stage_subs,
}
use impostarr.Pipeline.Plugins.{
  AssetFingerprints, Digests, ResultRow, Turn, Staged, plugin_fingerprint, run_plugin_stage,
}
use impostarr.Pipeline.Duplicates.{Duplicate, Hashing, check_duplicates}
use impostarr.Pipeline.World.{
  Verdict, CorpusEntry, World, Answers, Config, Body, done, lease_gone, crashed, ProcessEnd,
  returned, lease_was_lost, not_released, Extracted, is_absent, all_missing, status_of, status_in,
  option_map, list_or_nil, proposal, action_of, publish, after_release, release_then, give_up,
  after_stage, fingerprints_of, run_of, world_of, corpus_entry, write_phash_corpus,
}

module _ {F : Type 0} (o : Float F) (cfg : Config F) (a : Answers F) (job : Row) (worker : String)
    (file : MediaFile) where
  -- Whether a score is good enough for the corpus.
  abbrev pub stored_score : Option F → Bool
  stored_score none = false
  stored_score (some s) = o.le cfg.thresholds.phash_store s

  unfoldable pub write_scored :
      World F → Row → FrameHashRow F → SeriesContext → Option F → List ℕ → Body F
  unfolding write_phash_corpus season_and_numbers
  write_scored w copy row ctx none ids = done w
  write_scored w copy row ctx (some s) ids =
      if stored_score (some s)
      then write_phash_corpus w copy row ctx s (season_and_numbers ids ctx.episodes)
      else done w

  -- The end of the body: the final status decides what goes to the corpus.
  unfoldable pub write_corpus :
      World F
      → Row
      → Option (FrameHashSeq F × FrameHashRow F)
      → SeriesContext
      → ClaimedIdent
      → ScoreSheet F
      → Option Action
      → Status
      → Body F
  unfolding write_scored
  write_corpus w copy (some (seq, row)) ctx claimed sheet action Status.matched =
      write_scored w copy row ctx sheet.s_claimed claimed.episode_ids
  write_corpus w copy (some (seq, row)) ctx claimed sheet (some (remap ids)) Status.remediated =
      write_scored w copy row ctx sheet.s_alt ids
  write_corpus w copy _ ctx claimed sheet action final = done w

  -- The status that a remediation has left, read by a session of its own.
  unfoldable pub after_remediation :
      World F
      → Option (FrameHashSeq F × FrameHashRow F)
      → SeriesContext
      → ClaimedIdent
      → ScoreSheet F
      → Option Action
      → Option Status
      → Body F
  unfolding write_corpus
  after_remediation w frames ctx claimed sheet action none = crashed w job
  after_remediation w frames ctx claimed sheet action (some final) =
      write_corpus (publish job.id final w) job frames ctx claimed sheet action final

  unfoldable pub after_flow :
      World F
      → Verdict F
      → Option (FrameHashSeq F × FrameHashRow F)
      → SeriesContext
      → ClaimedIdent
      → ScoreSheet F
      → Option Action
      → Flow
      → Body F
  unfolding after_remediation
  after_flow w v frames ctx claimed sheet action (halt r lost) = lease_gone (world_of w v r)
  after_flow w v frames ctx claimed sheet action (halt r refused) = crashed (world_of w v r) job
  after_flow w v frames ctx claimed sheet action (halt r raised) = crashed (world_of w v r) job
  after_flow w v frames ctx claimed sheet action (halt r (released s)) =
      after_remediation (world_of w v r) frames ctx claimed sheet action (status_in r.rows job.id)
  after_flow w v frames ctx claimed sheet action (go r) =
      after_remediation (world_of w v r) frames ctx claimed sheet action (status_in r.rows job.id)

  -- The remediation of an automatic decision.
  unfoldable pub remediation_flow : Option Action → Run → Flow
  unfolding Remap.remap Replace.replace
  remediation_flow (some (remap ids)) r = Remap.remap cfg.remediation job worker file ids a.remap r
  remediation_flow _ r = Replace.replace cfg.remediation job worker file a.replace r

  -- What follows the verdict.
  unfoldable pub act :
      World F
      → Verdict F
      → Option (FrameHashSeq F × FrameHashRow F)
      → SeriesContext
      → ClaimedIdent
      → ScoreSheet F
      → Option Action
      → Outcome
      → Body F
  unfolding after_flow remediation_flow release_then write_corpus
  act w v frames ctx claimed sheet action remediate =
      after_flow w v frames ctx claimed sheet action (remediation_flow action (run_of w v))
  act w v frames ctx claimed sheet action outcome =
      release_then (record w { verdicts = w.verdicts ++ v ∷ [] }) job (status_of outcome) worker
        (λ w' copy.
          write_corpus (publish job.id (status_of outcome) w') copy frames ctx claimed sheet action
            (status_of outcome))

  abbrev pub verdict_of : ScoreSheet F → RoutingDecision → Option (Duplicate F) → Verdict F
  verdict_of sheet d dupe_info = record {
    job_id = job.id;
    s_claimed = sheet.s_claimed;
    s_alt = sheet.s_alt;
    outcome = d.outcome;
    proposed_action = proposal d;
    remediation_log = [];
    dupe_info = dupe_info;
  }

  -- Scores and routing; `none` is the error of a sheet.
  unfoldable pub decide :
      World F
      → Option (FrameHashSeq F × FrameHashRow F)
      → SeriesContext
      → ClaimedIdent
      → Option (Duplicate F)
      → Option (ScoreSheet F)
      → Body F
  unfolding act route
  decide w frames ctx claimed dupe_info none = crashed w job
  decide w frames ctx claimed dupe_info (some sheet) =
      let d = route o sheet cfg.thresholds cfg.flags in
      act w (verdict_of sheet d dupe_info) frames ctx claimed sheet d.action d.outcome

  unfoldable pub score_outcomes :
      World F
      → Option (FrameHashSeq F × FrameHashRow F)
      → SeriesContext
      → ClaimedIdent
      → Option (Duplicate F)
      → Option (List (PluginOutcome F))
      → Body F
  unfolding decide aggregate
  score_outcomes w frames ctx claimed dupe_info none = crashed w job
  score_outcomes w frames ctx claimed dupe_info (some outcomes) =
      decide w frames ctx claimed dupe_info
        (aggregate o outcomes (of_list claimed.episode_ids) cfg.scoring)

  abbrev pub duplicate_of :
      List (FrameHashRow F) → Option (FrameHashSeq F × FrameHashRow F) → Option (Duplicate F)
  duplicate_of rows none = none
  duplicate_of rows (some (seq, row)) =
      check_duplicates o a.hashing cfg.duplicate_threshold rows file.id seq

  -- The plugins, on what was extracted and transcribed.
  unfoldable pub identify :
      World F → SeriesContext → ClaimedIdent → Extracted F → Option (Option (Payload F)) → Body F
  unfolding score_outcomes run_plugin_stage plugin_fingerprint check_duplicates
  identify w ctx claimed e transcript =
      let staged =
        run_plugin_stage job.id ctx.episodes
          (plugin_fingerprint a.digests (fingerprints_of a.of_hashes e transcript) claimed ctx)
          w.results a.turns in
      score_outcomes (record w { results = staged.rows }) e.frames ctx claimed
        (duplicate_of w.hash_rows e.frames) staged.outcomes

  unfoldable pub transcribe : World F → SeriesContext → ClaimedIdent → Extracted F → Body F
  unfolding identify stage_transcript give_up
  transcribe w ctx claimed e =
      let s = stage_transcript o w.assets file.id e.audio a.transcript in
      if all_missing e
      then give_up w job worker
      else after_stage (record w { assets = s.rows }) job s.result
          (identify (record w { assets = s.rows }) ctx claimed e)

  -- The four extraction stages, each on the assets that the one before has left.
  unfoldable pub extract : World F → SeriesContext → ClaimedIdent → Body F
  unfolding transcribe stage_probe stage_audio stage_subs stage_frames
  extract w ctx claimed =
      let p = stage_probe w.assets file.id a.probe_fp a.probe in
      let w1 = record w { assets = p.rows } in
      after_stage w1 job p.result λ probe_asset.
        let u = stage_audio w1.assets file.id a.audio_fp a.audio in
        let w2 = record w1 { assets = u.rows } in
        after_stage w2 job u.result λ audio_asset.
          let s = stage_subs a.sub_fp w2.assets file.id probe_asset a.subs in
          let w3 = record w2 { assets = s.rows } in
          after_stage w3 job s.result λ subs_assets.
            let f =
              stage_frames a.frame_fp cfg.frame_sample_n w3.assets w3.hash_rows file.id probe_asset
                a.frames in
            let w4 = record w3 { assets = f.rows; hash_rows = f.hash_rows } in
            after_stage w4 job f.result λ frames. transcribe w4 ctx claimed (record {
              probe = probe_asset;
              audio = audio_asset;
              subs = subs_assets;
              frames = frames;
            })

  -- `_build_claimed_ident`
  unfoldable pub build_claimed : World F → SeriesContext → Resolution → Body F
  unfolding extract give_up
  build_claimed w ctx no_match = give_up w job worker
  build_claimed w ctx malformed = crashed w job
  build_claimed w ctx (resolved season numbers) =
      extract w ctx (record { season = season; episodes = numbers; episode_ids = file.episode_ids })

  unfoldable pub process_body : World F → Option SeriesContext → Body F
  unfolding build_claimed season_and_numbers
  process_body w none = crashed w job
  process_body w (some ctx) = build_claimed w ctx (season_and_numbers file.episode_ids ctx.episodes)

  unfoldable pub after_last_release : World F → Result (List Row × Row) → World F × ProcessEnd
  after_last_release w (ok (rows, copy)) =
      (publish job.id error (record w { jobs = rows }), returned)
  after_last_release w invalid_transition = (w, not_released)
  after_last_release w lease_lost = (w, lease_was_lost)

  -- The handlers around the body.
  unfoldable pub catch_all : Body F → World F × ProcessEnd
  unfolding after_last_release release
  catch_all (done w) = (w, returned)
  catch_all (lease_gone w) = (w, lease_was_lost)
  catch_all (crashed w copy) =
      if is copy.status active
      then after_last_release w (release w.jobs copy error worker)
      else (w, returned)

  unfoldable pub process_job : World F → World F × ProcessEnd
  unfolding catch_all process_body
  process_job w = catch_all (process_body w a.context)

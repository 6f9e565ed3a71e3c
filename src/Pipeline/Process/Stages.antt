-- ===== src/Pipeline/Process/Stages.antt =====
-- `process_job` of src/impostarr/pipeline.py: what holds at the end of a job, from what holds of its
-- last part. `Ends D L C b`: if the body `b` is done, its world meets `D`; if the lease was lost, it
-- meets `L`; and if it has crashed, the world and the copy of the job meet `C`.
use impostarr.Prelude.{
  ℕ, String, true, Option, none, some, List, [], ◌∷◌, ◌≡◌, refl, Bool-cases, inl, inr, any, ◌++◌,
}
use impostarr.Float.{Float}
use impostarr.IdSet.{of_list}
use impostarr.Jobs.Rows.{Row, Status, is}
use impostarr.Jobs.{Result, ok, invalid_transition, lease_lost, release}
use impostarr.Scoring.{PluginOutcome, ScoreSheet, aggregate}
use impostarr.Scoring.Route.{route, Action, remap}
use impostarr.Remediate.{MediaFile}
use impostarr.Pipeline.{
  SeriesContext, ClaimedIdent, Resolution, no_match, malformed, resolved, season_and_numbers,
}
use impostarr.Pipeline.Assets.{
  Payload, AssetRow, Got, got, missing, raised, stage_probe, stage_audio, stage_transcript,
}
use impostarr.Pipeline.Assets.Frames.{stage_frames}
use impostarr.Pipeline.Assets.Fanned.{FrameHashRow, FrameHashSeq, stage_subs}
use impostarr.Pipeline.Plugins.{ResultRow, plugin_fingerprint, run_plugin_stage}
use impostarr.Pipeline.Duplicates.{Duplicate}
use impostarr.Pipeline.World.{
  World, Answers, Config, Body, done, lease_gone, crashed, Extracted, all_missing, after_stage,
  fingerprints_of, give_up, release_then, after_release, corpus_entry, write_phash_corpus,
}
use impostarr.Pipeline.Process.{
  verdict_of, decide, score_outcomes, duplicate_of, identify, transcribe, extract, build_claimed,
  process_body, act, write_scored, write_corpus,
}

module _ {F : Type 0} (D L : World F → Type 0) (C : World F → Row → Type 0) where
  abbrev pub Ends : Body F → Type 0
  Ends (done w) = D w
  Ends (lease_gone w) = L w
  Ends (crashed w copy) = C w copy

  pub release_then-Ends :
      (w : World F) (job : Row) (s : Status) (worker : String) (k : World F → Row → Body F)
      → ((rows : List Row) (copy : Row)
          → release w.jobs job s worker ≡ ok (rows, copy)
          → Ends (k (record w { jobs = rows }) copy))
      → (release w.jobs job s worker ≡ invalid_transition → C w job)
      → (release w.jobs job s worker ≡ lease_lost → L w)
      → Ends (release_then w job s worker k)
  unfolding release_then after_release
  release_then-Ends w job s worker k good bad gone = go (release w.jobs job s worker) refl
    where
      go :
          (r : Result (List Row × Row))
          → release w.jobs job s worker ≡ r
          → Ends (after_release w job r k)
      go (ok (rows, copy)) e = good rows copy e
      go invalid_transition e = bad e
      go lease_lost e = gone e

  module _ (o : Float F) (cfg : Config F) (a : Answers F) (job : Row) (worker : String)
      (file : MediaFile) where
    write_scored-Ends :
        (w : World F) (copy : Row) (row : FrameHashRow F) (ctx : SeriesContext) (score : Option F)
        (ids : List ℕ)
        → D w
        → C w copy
        → ((s : F) (season : ℕ) (numbers : List ℕ)
            → o.le cfg.thresholds.phash_store s ≡ true
            → D (record w { corpus = w.corpus ++ corpus_entry row ctx season numbers s ∷ [] }))
        → Ends (write_scored o cfg a job worker file w copy row ctx score ids)
    unfolding write_scored write_phash_corpus
    write_scored-Ends w copy row ctx none ids d c k = d
    write_scored-Ends w copy row ctx (some s) ids d c k =
        elim (Bool-cases (o.le cfg.thresholds.phash_store s)) [
          | inl e ↦ rw e (go (season_and_numbers ids ctx.episodes) e)
          | inr e ↦ rw e d
        ]
      where
        go :
            (r : Resolution)
            → o.le cfg.thresholds.phash_store s ≡ true
            → Ends (write_phash_corpus w copy row ctx s r)
        go no_match e = d
        go malformed e = c
        go (resolved season numbers) e = k s season numbers e

    -- The corpus is written for a file that is matched or remapped, with a score that reaches the
    -- threshold.
    pub write_corpus-Ends :
        (w : World F) (copy : Row) (frames : Option (FrameHashSeq F × FrameHashRow F))
        (ctx : SeriesContext) (claimed : ClaimedIdent) (sheet : ScoreSheet F)
        (action : Option Action) (final : Status)
        → D w
        → C w copy
        → ((row : FrameHashRow F) (s : F) (season : ℕ) (numbers : List ℕ)
            → o.le cfg.thresholds.phash_store s ≡ true
            → any (is final) (Status.matched ∷ Status.remediated ∷ []) ≡ true
            → D (record w { corpus = w.corpus ++ corpus_entry row ctx season numbers s ∷ [] }))
        → Ends (write_corpus o cfg a job worker file w copy frames ctx claimed sheet action final)
    unfolding write_corpus
    write_corpus-Ends w copy (some (seq, row)) ctx claimed sheet action Status.matched d c k =
        write_scored-Ends w copy row ctx sheet.s_claimed claimed.episode_ids d c
          (λ s n ns e. k row s n ns e refl)
    write_corpus-Ends w copy (some (seq, row)) ctx claimed sheet (some (remap ids))
          Status.remediated d c k =
        write_scored-Ends w copy row ctx sheet.s_alt ids d c (λ s n ns e. k row s n ns e refl)
    write_corpus-Ends w copy _ ctx claimed sheet action final d c k = d

  after_stage-Ends :
      {A : Type 0} (w : World F) (job : Row) (g : Got A) (k : Option A → Body F)
      → C w job
      → ((x : Option A) → Ends (k x))
      → Ends (after_stage w job g k)
  after_stage-Ends w job (got a) k c h = h (some a)
  after_stage-Ends w job missing k c h = h none
  after_stage-Ends w job raised k c h = c

  module _ (o : Float F) (cfg : Config F) (a : Answers F) (job : Row) (worker : String)
      (file : MediaFile) (I : World F → Type 0)
      (keeps_assets : (w : World F) (rows : List (AssetRow F))
        → I w
        → I (record w { assets = rows }))
      (keeps_hashes : (w : World F) (rows : List (FrameHashRow F))
        → I w
        → I (record w { hash_rows = rows }))
      (keeps_results : (w : World F) (rows : List (ResultRow F))
        → I w
        → I (record w { results = rows }))
      (breaks : (w : World F) → I w → C w job)
      (gives_up : (w : World F) → I w → Ends (give_up w job worker))
      (acts : (w : World F) (frames : Option (FrameHashSeq F × FrameHashRow F))
          (ctx : SeriesContext) (claimed : ClaimedIdent) (dupe_info : Option (Duplicate F))
          (sheet : ScoreSheet F)
        → I w
        → let d = route o sheet cfg.thresholds cfg.flags in
          Ends (
            act o cfg a job worker file w
              (verdict_of o cfg a job worker file sheet d dupe_info)
              frames
              ctx
              claimed
              sheet
              d.action
              d.outcome)) where
    decide-Ends :
        (w : World F) (frames : Option (FrameHashSeq F × FrameHashRow F)) (ctx : SeriesContext)
        (claimed : ClaimedIdent) (dupe_info : Option (Duplicate F)) (sheet : Option (ScoreSheet F))
        → I w
        → Ends (decide o cfg a job worker file w frames ctx claimed dupe_info sheet)
    unfolding decide
    decide-Ends w frames ctx claimed dupe_info none i = breaks w i
    decide-Ends w frames ctx claimed dupe_info (some sheet) i =
        acts w frames ctx claimed dupe_info sheet i

    score_outcomes-Ends :
        (w : World F) (frames : Option (FrameHashSeq F × FrameHashRow F)) (ctx : SeriesContext)
        (claimed : ClaimedIdent) (dupe_info : Option (Duplicate F))
        (outcomes : Option (List (PluginOutcome F)))
        → I w
        → Ends (score_outcomes o cfg a job worker file w frames ctx claimed dupe_info outcomes)
    unfolding score_outcomes
    score_outcomes-Ends w frames ctx claimed dupe_info none i = breaks w i
    score_outcomes-Ends w frames ctx claimed dupe_info (some outcomes) i =
        decide-Ends w frames ctx claimed dupe_info
          (aggregate o outcomes (of_list claimed.episode_ids) cfg.scoring) i

    identify-Ends :
        (w : World F) (ctx : SeriesContext) (claimed : ClaimedIdent) (e : Extracted F)
        (transcript : Option (Option (Payload F)))
        → I w
        → Ends (identify o cfg a job worker file w ctx claimed e transcript)
    unfolding identify
    identify-Ends w ctx claimed e transcript i =
        let staged =
          run_plugin_stage job.id ctx.episodes
            (plugin_fingerprint a.digests (fingerprints_of a.of_hashes e transcript) claimed ctx)
            w.results a.turns in
        score_outcomes-Ends (record w { results = staged.rows }) e.frames ctx claimed
          (duplicate_of o cfg a job worker file w.hash_rows e.frames) staged.outcomes
          (keeps_results w staged.rows i)

    transcribe-Ends :
        (w : World F) (ctx : SeriesContext) (claimed : ClaimedIdent) (e : Extracted F)
        → I w
        → Ends (transcribe o cfg a job worker file w ctx claimed e)
    unfolding transcribe
    transcribe-Ends w ctx claimed e i =
        let s = stage_transcript o w.assets file.id e.audio a.transcript in
        let w' : World F = record w { assets = s.rows } in
        let i' = keeps_assets w s.rows i in
        elim (Bool-cases (all_missing e)) [
          | inl m ↦ rw m (gives_up w i)
          | inr m ↦ rw m (
              after_stage-Ends w' job s.result (identify o cfg a job worker file w' ctx claimed e)
                (breaks w' i') (λ t. identify-Ends w' ctx claimed e t i'))
        ]

    extract-Ends :
        (w : World F) (ctx : SeriesContext) (claimed : ClaimedIdent)
        → I w
        → Ends (extract o cfg a job worker file w ctx claimed)
    unfolding extract
    extract-Ends w ctx claimed i =
        let p = stage_probe w.assets file.id a.probe_fp a.probe in
        let i1 = keeps_assets w p.rows i in
        after_stage-Ends (record w { assets = p.rows }) job p.result _ (breaks _ i1)
          λ probe_asset.
            let u = stage_audio p.rows file.id a.audio_fp a.audio in
            let i2 = keeps_assets _ u.rows i1 in
            after_stage-Ends (record w { assets = u.rows }) job u.result _ (breaks _ i2)
              λ audio_asset.
                let s = stage_subs a.sub_fp u.rows file.id probe_asset a.subs in
                let i3 = keeps_assets _ s.rows i2 in
                after_stage-Ends (record w { assets = s.rows }) job s.result _ (breaks _ i3)
                  λ subs_assets.
                    let f =
                      stage_frames a.frame_fp cfg.frame_sample_n s.rows w.hash_rows file.id
                        probe_asset a.frames in
                    let i4 = keeps_hashes _ f.hash_rows (keeps_assets _ f.rows i3) in
                    after_stage-Ends (record w { assets = f.rows; hash_rows = f.hash_rows }) job
                      f.result _ (breaks _ i4) λ frames. transcribe-Ends _ ctx claimed _ i4

    build_claimed-Ends :
        (w : World F) (ctx : SeriesContext) (r : Resolution)
        → I w
        → Ends (build_claimed o cfg a job worker file w ctx r)
    unfolding build_claimed
    build_claimed-Ends w ctx no_match i = gives_up w i
    build_claimed-Ends w ctx malformed i = breaks w i
    build_claimed-Ends w ctx (resolved season numbers) i = extract-Ends w ctx _ i

    pub process_body-Ends :
        (w : World F) (ctx : Option SeriesContext)
        → I w
        → Ends (process_body o cfg a job worker file w ctx)
    unfolding process_body
    process_body-Ends w none i = breaks w i
    process_body-Ends w (some ctx) i =
        build_claimed-Ends w ctx (season_and_numbers file.episode_ids ctx.episodes) i

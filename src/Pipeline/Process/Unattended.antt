-- ===== src/Pipeline/Process/Unattended.antt =====
-- `process_job` of src/impostarr/pipeline.py: a job is remediated only as `route` decides.
use impostarr.Prelude.{String, true, Option, List, ◌≡◌, ◌≢◌, refl, Bool-cases, inl, inr, arith}
use impostarr.Float.{Float}
use impostarr.Jobs.Rows.{Row, Status, is, active}
use impostarr.Jobs.{Result, ok, invalid_transition, lease_lost, release}
use impostarr.Scoring.{ScoreSheet}
use impostarr.Scoring.Route.{
  Outcome, matched, quarantine_outcome, inconclusive, remediate, Action, route,
}
use impostarr.Remediate.{MediaFile}
use impostarr.Pipeline.{SeriesContext, ClaimedIdent}
use impostarr.Pipeline.Assets.Fanned.{FrameHashRow, FrameHashSeq}
use impostarr.Pipeline.World.{
  Verdict, World, Answers, Config, Body, done, lease_gone, crashed, give_up, publish, release_then,
}
use impostarr.Pipeline.Process.{act, process_job, catch_all, write_corpus, after_last_release}
use impostarr.Pipeline.Process.Stages.{
  Ends, release_then-Ends, write_corpus-Ends, process_body-Ends,
}

module _ {F : Type 0} (w0 : World F) where
  -- Nothing more was asked of Sonarr, copied, or put into the trash.
  abbrev pub IsUntouched : World F → Type 0
  IsUntouched w =
      (w.requests ≡ w0.requests) × (w.copies ≡ w0.copies) × (w.trash_items ≡ w0.trash_items)

  abbrev UntouchedBody : Body F → Type 0
  UntouchedBody = Ends IsUntouched IsUntouched (λ w copy. IsUntouched w)

  module _ (o : Float F) (cfg : Config F) (a : Answers F) (job : Row) (worker : String)
      (file : MediaFile) where
    released :
        (w : World F) (s : Status) (frames : Option (FrameHashSeq F × FrameHashRow F))
        (ctx : SeriesContext) (claimed : ClaimedIdent) (sheet : ScoreSheet F)
        (action : Option Action)
        → IsUntouched w
        → UntouchedBody (
            release_then w job s worker (λ w' copy.
              write_corpus o cfg a job worker file
                (publish job.id s w')
                copy
                frames
                ctx
                claimed
                sheet
                action
                s))
    released w s frames ctx claimed sheet action i =
        release_then-Ends _ _ _ w job s worker _
          (λ rows copy e.
            write_corpus-Ends _ _ _ o cfg a job worker file _ copy frames ctx claimed sheet action s
              i i (λ _ _ _ _ _ _. i))
          (λ _. i) (λ _. i)

    act-IsUntouched :
        (w : World F) (v : Verdict F) (frames : Option (FrameHashSeq F × FrameHashRow F))
        (ctx : SeriesContext) (claimed : ClaimedIdent) (sheet : ScoreSheet F)
        (action : Option Action) (outcome : Outcome)
        → outcome ≢ remediate
        → IsUntouched w
        → UntouchedBody (act o cfg a job worker file w v frames ctx claimed sheet action outcome)
    unfolding act
    act-IsUntouched w v frames ctx claimed sheet action matched n i =
        released _ Status.matched frames ctx claimed sheet action i
    act-IsUntouched w v frames ctx claimed sheet action quarantine_outcome n i =
        released _ Status.quarantine frames ctx claimed sheet action i
    act-IsUntouched w v frames ctx claimed sheet action inconclusive n i =
        released _ Status.inconclusive frames ctx claimed sheet action i
    act-IsUntouched w v frames ctx claimed sheet action remediate n i = absurd (n refl)

    give_up-IsUntouched : (w : World F) → IsUntouched w → UntouchedBody (give_up w job worker)
    unfolding give_up
    give_up-IsUntouched w i =
        release_then-Ends _ _ _ w job Status.error worker _ (λ rows copy e. i) (λ _. i) (λ _. i)

    attended :
        (sheet : ScoreSheet F)
        → cfg.flags.approval_required ≡ true
        → (route o sheet cfg.thresholds cfg.flags).outcome ≢ remediate
    unfolding route
    attended sheet h e = ground arith

    after_last_release-IsUntouched :
        (w : World F) (r : Result (List Row × Row))
        → IsUntouched w
        → IsUntouched (after_last_release o cfg a job worker file w r).0
    unfolding after_last_release
    after_last_release-IsUntouched w (ok p) i = i
    after_last_release-IsUntouched w invalid_transition i = i
    after_last_release-IsUntouched w lease_lost i = i

    catch_all-IsUntouched :
        (b : Body F) → UntouchedBody b → IsUntouched (catch_all o cfg a job worker file b).0
    unfolding catch_all
    catch_all-IsUntouched (done w) i = i
    catch_all-IsUntouched (lease_gone w) i = i
    catch_all-IsUntouched (crashed w copy) i = elim (Bool-cases (is copy.status active)) [
      | inl e ↦ rw e (after_last_release-IsUntouched w (release w.jobs copy Status.error worker) i)
      | inr e ↦ rw e i
    ]

    -- With approval required, processing a job asks nothing of Sonarr that would change it, copies no
    -- file and puts none into the trash, whatever the plugins and all else outside answer.
    pub process_job-IsUntouched :
        cfg.flags.approval_required ≡ true → IsUntouched (process_job o cfg a job worker file w0).0
    unfolding process_job
    process_job-IsUntouched h = catch_all-IsUntouched _ (
        process_body-Ends _ _ _ o cfg a job worker file IsUntouched (λ w rows i. i) (λ w rows i. i)
          (λ w rows i. i) (λ w i. i) give_up-IsUntouched
          (λ w frames ctx claimed dupe_info sheet i.
            act-IsUntouched w _ frames ctx claimed sheet _ _ (attended sheet h) i)
          w0 a.context (refl, refl, refl))

-- ===== src/Pipeline/Process/Lease.antt =====
-- `process_job` of src/impostarr/pipeline.py: a job that was claimed is let go of.
use impostarr.Prelude.{
  String, true, false, Option, none, some, List, ◌≡◌, ◌⊎◌, refl, Bool-cases, inl, inr, count,
}
use impostarr.Float.{Float}
use impostarr.Jobs.Rows.{Row, Status, is, active}
use impostarr.Jobs.{Result, ok, invalid_transition, lease_lost, release, leased, check_transition}
use impostarr.Jobs.Fencing.{Holds, release_held, release-lets_go, release_none}
use impostarr.Scoring.{ScoreSheet}
use impostarr.Scoring.Route.{
  Outcome, matched, quarantine_outcome, inconclusive, remediate, Action, remap, replace, route,
}
use impostarr.Remediate.{MediaFile, Flow, go, halt, released, lost, refused, raised}
use impostarr.Remediate.Leads.{Leads, Never}
use impostarr.Remediate.Lease.{GivesBack, replace-GivesBack, remap-GivesBack}
use impostarr.Pipeline.{SeriesContext, ClaimedIdent}
use impostarr.Pipeline.Assets.Fanned.{FrameHashRow, FrameHashSeq}
use impostarr.Pipeline.World.{
  Verdict, World, Answers, Config, Body, done, lease_gone, crashed, give_up, publish, release_then,
  world_of, status_in, run_of,
}
use impostarr.Pipeline.Process.{
  act, process_job, catch_all, write_corpus, after_last_release, after_flow, after_remediation,
  remediation_flow, verdict_of,
}
use impostarr.Pipeline.Process.Stages.{
  Ends, release_then-Ends, write_corpus-Ends, process_body-Ends,
}

module _ {F : Type 0} (o : Float F) (cfg : Config F) (a : Answers F) (job : Row) (worker : String)
    (file : MediaFile) (is_active : job.status ≡ active) where
  -- No row of the job is active and claimed by the worker.
  abbrev pub IsLetGo : World F → Type 0
  IsLetGo w = count (leased job worker) w.jobs ≡ 0

  abbrev pub HoldsJob : World F → Type 0
  HoldsJob w = Holds w.jobs job worker

  -- A body that has crashed has let go, or still holds the job, of which its copy is as it was.
  abbrev Crash : World F → Row → Type 0
  Crash w copy = IsLetGo w ⊎ ((copy ≡ job) × HoldsJob w)

  abbrev LetsGo : Body F → Type 0
  LetsGo = Ends IsLetGo IsLetGo Crash

  release_then-LetsGo :
      (w : World F) (s : Status) (k : World F → Row → Body F)
      → check_transition job.status s ≡ true
      → HoldsJob w
      → ((rows : List Row) (copy : Row)
          → count (leased job worker) rows ≡ 0
          → LetsGo (k (record w { jobs = rows }) copy))
      → LetsGo (release_then w job s worker k)
  release_then-LetsGo w s k c h next =
      let held = release_held w.jobs job s worker c h in
      release_then-Ends _ _ _ w job s worker k
        (λ rows copy e. next rows copy (release-lets_go w.jobs rows job copy s worker e))
        (λ e. absurd cc) (λ e. absurd cc)

  ending :
      (w : World F) (copy : Row) (s : Status) (frames : Option (FrameHashSeq F × FrameHashRow F))
      (ctx : SeriesContext) (claimed : ClaimedIdent) (sheet : ScoreSheet F) (action : Option Action)
      → IsLetGo w
      → LetsGo (
          write_corpus o cfg a job worker file
            (publish job.id s w)
            copy
            frames
            ctx
            claimed
            sheet
            action
            s)
  ending w copy s frames ctx claimed sheet action i =
      write_corpus-Ends _ _ _ o cfg a job worker file (publish job.id s w) copy frames ctx claimed
        sheet action s i (inl i) (λ _ _ _ _ _ _. i)

  settled_job :
      (w : World F) (s : Status) (frames : Option (FrameHashSeq F × FrameHashRow F))
      (ctx : SeriesContext) (claimed : ClaimedIdent) (sheet : ScoreSheet F) (action : Option Action)
      → check_transition job.status s ≡ true
      → HoldsJob w
      → LetsGo (
          release_then w job s worker (λ w' copy.
            write_corpus o cfg a job worker file
              (publish job.id s w')
              copy
              frames
              ctx
              claimed
              sheet
              action
              s))
  settled_job w s frames ctx claimed sheet action c h =
      release_then-LetsGo w s _ c h
        (λ rows copy e. ending (record w { jobs = rows }) copy s frames ctx claimed sheet action e)

  after_remediation-LetsGo :
      (w : World F) (frames : Option (FrameHashSeq F × FrameHashRow F)) (ctx : SeriesContext)
      (claimed : ClaimedIdent) (sheet : ScoreSheet F) (action : Option Action) (s : Option Status)
      → IsLetGo w
      → LetsGo (after_remediation o cfg a job worker file w frames ctx claimed sheet action s)
  unfolding after_remediation
  after_remediation-LetsGo w frames ctx claimed sheet action none i = inl i
  after_remediation-LetsGo w frames ctx claimed sheet action (some s) i =
      ending w job s frames ctx claimed sheet action i

  after_flow-LetsGo :
      (w : World F) (v : Verdict F) (frames : Option (FrameHashSeq F × FrameHashRow F))
      (ctx : SeriesContext) (claimed : ClaimedIdent) (sheet : ScoreSheet F) (action : Option Action)
      (flow : Flow) (h : HoldsJob w)
      → Leads Never (GivesBack cfg.remediation job worker w.jobs is_active h) flow
      → LetsGo (after_flow o cfg a job worker file w v frames ctx claimed sheet action flow)
  unfolding after_flow
  after_flow-LetsGo w v frames ctx claimed sheet action (halt r lost) h l = l
  after_flow-LetsGo w v frames ctx claimed sheet action (halt r refused) h l = inl l
  after_flow-LetsGo w v frames ctx claimed sheet action (halt r raised) h l = inr (refl, rw l h)
  after_flow-LetsGo w v frames ctx claimed sheet action (halt r (released s)) h l =
      after_remediation-LetsGo (world_of w v r) frames ctx claimed sheet action
        (status_in r.rows job.id) l
  after_flow-LetsGo w v frames ctx claimed sheet action (go r) h l = absurd l

  remediation_flow-GivesBack :
      (action : Option Action) (w : World F) (v : Verdict F) (h : HoldsJob w)
      → Leads Never
          (GivesBack cfg.remediation job worker w.jobs is_active h)
          (remediation_flow o cfg a job worker file action (run_of w v))
  unfolding remediation_flow
  remediation_flow-GivesBack (some (remap ids)) w v h =
      remap-GivesBack cfg.remediation job worker w.jobs is_active h file ids a.remap (run_of w v)
        refl
  remediation_flow-GivesBack (some replace) w v h =
      replace-GivesBack cfg.remediation job worker w.jobs is_active h file a.replace (run_of w v)
        refl
  remediation_flow-GivesBack none w v h =
      replace-GivesBack cfg.remediation job worker w.jobs is_active h file a.replace (run_of w v)
        refl

  act-LetsGo :
      (w : World F) (v : Verdict F) (frames : Option (FrameHashSeq F × FrameHashRow F))
      (ctx : SeriesContext) (claimed : ClaimedIdent) (sheet : ScoreSheet F) (action : Option Action)
      (outcome : Outcome)
      → HoldsJob w
      → LetsGo (act o cfg a job worker file w v frames ctx claimed sheet action outcome)
  unfolding act
  act-LetsGo w v frames ctx claimed sheet action matched h =
      settled_job _ Status.matched frames ctx claimed sheet action (rw is_active refl) h
  act-LetsGo w v frames ctx claimed sheet action quarantine_outcome h =
      settled_job _ Status.quarantine frames ctx claimed sheet action (rw is_active refl) h
  act-LetsGo w v frames ctx claimed sheet action inconclusive h =
      settled_job _ Status.inconclusive frames ctx claimed sheet action (rw is_active refl) h
  act-LetsGo w v frames ctx claimed sheet action remediate h =
      after_flow-LetsGo w v frames ctx claimed sheet action _ h
        (remediation_flow-GivesBack action w v h)

  give_up-LetsGo : (w : World F) → HoldsJob w → LetsGo (give_up w job worker)
  unfolding give_up
  give_up-LetsGo w h = release_then-LetsGo w Status.error _ (rw is_active refl) h (λ rows copy e. e)

  last_release :
      (w : World F) (copy : Row) (r : Result (List Row × Row))
      → release w.jobs copy Status.error worker ≡ r
      → Crash w copy
      → IsLetGo (after_last_release o cfg a job worker file w r).0
  unfolding after_last_release
  last_release w copy (ok (rows, copy')) e (inl i) =
      release_none w.jobs rows job copy copy' Status.error worker e i
  last_release w copy invalid_transition e (inl i) = i
  last_release w copy lease_lost e (inl i) = i
  last_release w copy (ok (rows, copy')) e (inr (same, h)) =
      release-lets_go w.jobs rows job copy' Status.error worker (rw same at e)
  last_release w copy invalid_transition e (inr (same, h)) =
      let held = release_held w.jobs job Status.error worker (rw is_active refl) h in
      let e' = rw same at e in absurd cc
  last_release w copy lease_lost e (inr (same, h)) =
      let held = release_held w.jobs job Status.error worker (rw is_active refl) h in
      let e' = rw same at e in absurd cc

  not_active : (copy : Row) → copy ≡ job → is copy.status active ≡ false → ⊥
  not_active copy same e = let e' : is active active ≡ false = rw (same, is_active) at e in cc

  catch_all-LetsGo : (b : Body F) → LetsGo b → IsLetGo (catch_all o cfg a job worker file b).0
  unfolding catch_all
  catch_all-LetsGo (done w) i = i
  catch_all-LetsGo (lease_gone w) i = i
  catch_all-LetsGo (crashed w copy) i = elim (Bool-cases (is copy.status active)) [
    | inl e ↦ rw e (last_release w copy (release w.jobs copy Status.error worker) refl i)
    | inr e ↦ rw e (elim i [ inl k ↦ k | inr h ↦ absurd (not_active copy h.0 e) ])
  ]

  -- When a job is claimed by the worker, as the copy of it says, then however its processing ends,
  -- by a return or by an exception, and whatever all else outside answers, no row of the job is left
  -- active and claimed by the worker.
  pub process_job-IsLetGo :
      (w : World F) → HoldsJob w → IsLetGo (process_job o cfg a job worker file w).0
  unfolding process_job
  process_job-IsLetGo w h = catch_all-LetsGo _ (
      process_body-Ends _ _ _ o cfg a job worker file HoldsJob (λ w rows i. i) (λ w rows i. i)
        (λ w rows i. i) (λ w i. inr (refl, i)) give_up-LetsGo
        (λ w frames ctx claimed dupe_info sheet i.
          let d = route o sheet cfg.thresholds cfg.flags in
          act-LetsGo w (verdict_of o cfg a job worker file sheet d dupe_info) frames ctx claimed
            sheet d.action d.outcome i)
        w a.context h)

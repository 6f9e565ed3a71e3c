-- ===== src/Pipeline/Process/Corpus.antt =====
-- `process_job` of src/impostarr/pipeline.py: what goes to the corpus of frame hashes.
use impostarr.Prelude.{
  String, true, Option, none, some, List, [], ◌∷◌, ◌++◌, ◌≡◌, ◌⊎◌, refl, Bool-cases, inl, inr, any,
  ap,
}
use impostarr.Float.{Float}
use impostarr.Jobs.Rows.{Row, Status, is, active}
use impostarr.Jobs.{Result, ok, invalid_transition, lease_lost, release}
use impostarr.Scoring.{ScoreSheet}
use impostarr.Scoring.Route.{
  Outcome, matched, quarantine_outcome, inconclusive, remediate, Action, route,
}
use impostarr.Remediate.{MediaFile, Flow, go, halt, released, lost, refused, raised}
use impostarr.Pipeline.{SeriesContext, ClaimedIdent}
use impostarr.Pipeline.Assets.Fanned.{FrameHashRow, FrameHashSeq}
use impostarr.Pipeline.World.{
  Verdict, World, CorpusEntry, Answers, Config, Body, done, lease_gone, crashed, give_up, publish,
  release_then, world_of, status_in, run_of, corpus_entry,
}
use impostarr.Pipeline.Process.{
  act, process_job, catch_all, write_corpus, after_last_release, after_flow, after_remediation,
  remediation_flow, verdict_of,
}
use impostarr.Pipeline.Process.Stages.{
  Ends, release_then-Ends, write_corpus-Ends, process_body-Ends,
}

module _ {F : Type 0} (w0 : World F) (o : Float F) (cfg : Config F) (a : Answers F) (job : Row)
    (worker : String) (file : MediaFile) where
  -- The corpus as it was.
  abbrev pub IsSame : World F → Type 0
  IsSame w = w.corpus ≡ w0.corpus

  -- One entry more: its score reaches the threshold, and the last event says that the job is matched
  -- or remediated.
  pub record IsStored (w : World F) : Type 0 where
    pub entry : CorpusEntry F
    pub final : Status
    pub added : w.corpus ≡ w0.corpus ++ entry ∷ []
    pub good : o.le cfg.thresholds.phash_store entry.confidence ≡ true
    pub settled : any (is final) (Status.matched ∷ Status.remediated ∷ []) ≡ true
    pub said : w.events ≡ w0.events ++ (job.id, final) ∷ []

  abbrev pub IsKept : World F → Type 0
  IsKept w = IsSame w ⊎ IsStored w

  abbrev KeptBody : Body F → Type 0
  KeptBody = Ends IsKept IsSame (λ w copy. IsSame w)

  abbrev IsBefore : World F → Type 0
  IsBefore w = IsSame w × (w.events ≡ w0.events)

  ending :
      (w : World F) (copy : Row) (s : Status) (frames : Option (FrameHashSeq F × FrameHashRow F))
      (ctx : SeriesContext) (claimed : ClaimedIdent) (sheet : ScoreSheet F) (action : Option Action)
      → IsBefore w
      → KeptBody (
          write_corpus o cfg a job worker file
            (publish job.id s w)
            copy
            frames
            ctx
            claimed
            sheet
            action
            s)
  ending w copy s frames ctx claimed sheet action i =
      write_corpus-Ends _ _ _ o cfg a job worker file (publish job.id s w) copy frames ctx claimed
        sheet action s (inl i.0) i.0
        (λ row score season numbers e f. inr (record {
          entry = corpus_entry row ctx season numbers score;
          final = s;
          added = ap (λ l. l ++ corpus_entry row ctx season numbers score ∷ []) i.0;
          good = e;
          settled = f;
          said = ap (λ l. l ++ (job.id, s) ∷ []) i.1;
        }))

  settled_job :
      (w : World F) (s : Status) (frames : Option (FrameHashSeq F × FrameHashRow F))
      (ctx : SeriesContext) (claimed : ClaimedIdent) (sheet : ScoreSheet F) (action : Option Action)
      → IsBefore w
      → KeptBody (
          release_then w job s worker (λ w' copy.
            write_corpus o cfg a job worker file
              (publish job.id s w')
              copy
              frames
              ctx
              claimed
              sheet
              action
              s))
  settled_job w s frames ctx claimed sheet action i =
      release_then-Ends _ _ _ w job s worker _
        (λ rows copy e. ending (record w { jobs = rows }) copy s frames ctx claimed sheet action i)
        (λ _. i.0) (λ _. i.0)

  after_remediation-IsKept :
      (w : World F) (frames : Option (FrameHashSeq F × FrameHashRow F)) (ctx : SeriesContext)
      (claimed : ClaimedIdent) (sheet : ScoreSheet F) (action : Option Action) (s : Option Status)
      → IsBefore w
      → KeptBody (after_remediation o cfg a job worker file w frames ctx claimed sheet action s)
  unfolding after_remediation
  after_remediation-IsKept w frames ctx claimed sheet action none i = i.0
  after_remediation-IsKept w frames ctx claimed sheet action (some s) i =
      ending w job s frames ctx claimed sheet action i

  after_flow-IsKept :
      (w : World F) (v : Verdict F) (frames : Option (FrameHashSeq F × FrameHashRow F))
      (ctx : SeriesContext) (claimed : ClaimedIdent) (sheet : ScoreSheet F) (action : Option Action)
      (flow : Flow)
      → IsBefore w
      → KeptBody (after_flow o cfg a job worker file w v frames ctx claimed sheet action flow)
  unfolding after_flow
  after_flow-IsKept w v frames ctx claimed sheet action (halt r lost) i = i.0
  after_flow-IsKept w v frames ctx claimed sheet action (halt r refused) i = i.0
  after_flow-IsKept w v frames ctx claimed sheet action (halt r raised) i = i.0
  after_flow-IsKept w v frames ctx claimed sheet action (halt r (released s)) i =
      after_remediation-IsKept (world_of w v r) frames ctx claimed sheet action
        (status_in r.rows job.id) i
  after_flow-IsKept w v frames ctx claimed sheet action (go r) i =
      after_remediation-IsKept (world_of w v r) frames ctx claimed sheet action
        (status_in r.rows job.id) i

  act-IsKept :
      (w : World F) (v : Verdict F) (frames : Option (FrameHashSeq F × FrameHashRow F))
      (ctx : SeriesContext) (claimed : ClaimedIdent) (sheet : ScoreSheet F) (action : Option Action)
      (outcome : Outcome)
      → IsBefore w
      → KeptBody (act o cfg a job worker file w v frames ctx claimed sheet action outcome)
  unfolding act
  act-IsKept w v frames ctx claimed sheet action matched i =
      settled_job _ Status.matched frames ctx claimed sheet action i
  act-IsKept w v frames ctx claimed sheet action quarantine_outcome i =
      settled_job _ Status.quarantine frames ctx claimed sheet action i
  act-IsKept w v frames ctx claimed sheet action inconclusive i =
      settled_job _ Status.inconclusive frames ctx claimed sheet action i
  act-IsKept w v frames ctx claimed sheet action remediate i =
      after_flow-IsKept w v frames ctx claimed sheet action
        (remediation_flow o cfg a job worker file action (run_of w v)) i

  give_up-IsKept : (w : World F) → IsBefore w → KeptBody (give_up w job worker)
  unfolding give_up
  give_up-IsKept w i =
      release_then-Ends _ _ _ w job Status.error worker _ (λ rows copy e. inl i.0) (λ _. i.0)
        (λ _. i.0)

  after_last_release-IsSame :
      (w : World F) (r : Result (List Row × Row))
      → IsSame w
      → IsSame (after_last_release o cfg a job worker file w r).0
  unfolding after_last_release
  after_last_release-IsSame w (ok p) i = i
  after_last_release-IsSame w invalid_transition i = i
  after_last_release-IsSame w lease_lost i = i

  catch_all-IsKept : (b : Body F) → KeptBody b → IsKept (catch_all o cfg a job worker file b).0
  unfolding catch_all
  catch_all-IsKept (done w) i = i
  catch_all-IsKept (lease_gone w) i = inl i
  catch_all-IsKept (crashed w copy) i = elim (Bool-cases (is copy.status active)) [
    | inl e ↦ rw e (inl (after_last_release-IsSame w (release w.jobs copy Status.error worker) i))
    | inr e ↦ rw e (inl i)
  ]

  -- Processing a job leaves the corpus as it is, or adds one entry to it: then the entry's score
  -- reaches the threshold, and the one event of the job says that it is matched or remediated.
  pub process_job-IsKept : IsKept (process_job o cfg a job worker file w0).0
  unfolding process_job
  process_job-IsKept = catch_all-IsKept _ (
      process_body-Ends _ _ _ o cfg a job worker file IsBefore (λ w rows i. i) (λ w rows i. i)
        (λ w rows i. i) (λ w i. i.0) give_up-IsKept
        (λ w frames ctx claimed dupe_info sheet i.
          let d = route o sheet cfg.thresholds cfg.flags in
          act-IsKept w (verdict_of o cfg a job worker file sheet d dupe_info) frames ctx claimed
            sheet d.action d.outcome i)
        w0 a.context (refl, refl))

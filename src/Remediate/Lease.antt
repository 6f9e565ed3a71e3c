-- ===== src/Remediate/Lease.antt =====
-- src/impostarr/remediate.py: the lease of a job under `replace` and `remap`. A worker that holds it
-- gives it back with the release at the end, and still holds it when the call raises.
use impostarr.Prelude.{
  ℕ, String, true, false, not, ◌&&◌, ◌≡◌, refl, Option, none, some, List, [], ◌∷◌, ◌++◌, count, any,
}
use impostarr.IdSet.{IdSet}
use impostarr.Jobs.Rows.{Status, active, quarantine, remediated, Row}
use impostarr.Jobs.{check_transition, leased}
use impostarr.Jobs.Fencing.{Holds, release_held, release-lets_go}
use impostarr.Remediate.{
  StepName, Run, MediaFile, Settings, Request, Answer, success, sonarr_error, other_error, Flow, go,
  halt, Ending, released, refused, lost, raised, log_step, finish, fail, attempt, guard,
  was_interrupted, interruption_guard, place, settled,
}
use impostarr.Remediate.Replace.{
  ReplaceAnswers, blocklist, keep_copy, delete, search_again, replace,
}
use impostarr.Remediate.Remap.{
  RemapAnswers, TargetEpisode, Fetched, fetched, fetch_sonarr_error, fetch_other_error, ImportPath,
  check_targets, stage, delete_record, import_staged, import_found, import_match, find_candidate,
  propose_if_released, missing_ids, is_nonempty, remap,
}
use impostarr.Remediate.Leads.{Leads, Never, if-Leads}
use impostarr.Remediate.Stages.{replace-finish-Leads, remap-finish-Leads}

module _ (s : Settings) (job : Row) (worker : String) (rows : List Row)
    (is_active : job.status ≡ active) (holds : Holds rows job worker) where
  -- The rows are as they were.
  abbrev pub IsHeld : Run → Type 0
  IsHeld r = r.rows ≡ rows

  -- A call that raises has left the rows, and a call that ends otherwise has given the lease back.
  abbrev pub GivesBack : Run → Ending → Type 0
  GivesBack r raised = r.rows ≡ rows
  GivesBack r _ = count (leased job worker) r.rows ≡ 0

  settled-GivesBack :
      (G : Run → Type 0) (r : Run) (new : Status)
      → check_transition job.status new ≡ true
      → IsHeld r
      → Leads G GivesBack (finish job worker new r)
  unfolding finish settled
  settled-GivesBack G r new c h =
      let e = release_held rows job new worker c holds in
      rw (h, e) (release-lets_go rows _ job _ new worker e)

  -- A failed step gives the lease back.
  fail-GivesBack :
      (G : Run → Type 0) (step : StepName) (r : Run)
      → IsHeld r
      → Leads G GivesBack (fail s job worker step r)
  fail-GivesBack G step r h =
      settled-GivesBack G (log_step s step false false r) quarantine (rw is_active refl) h

  answered-GivesBack :
      (step : StepName) (a : Answer) (r : Run)
      → IsHeld r
      → Leads IsHeld GivesBack (elim a [
        | success ↦ go (log_step s step true false r)
        | sonarr_error ↦ fail s job worker step r
        | other_error ↦ halt r raised
      ])
  answered-GivesBack step success r h = h
  answered-GivesBack step sonarr_error r h = fail-GivesBack IsHeld step r h
  answered-GivesBack step other_error r h = h

  attempt-GivesBack :
      (step : StepName) (q : Request) (a : Answer) (r : Run)
      → IsHeld r
      → Leads IsHeld GivesBack (attempt s job worker step q a r)
  unfolding attempt
  attempt-GivesBack step q a r h =
      if-Leads _ _ s.dry_run _ _ (λ _. h)
        (λ _. answered-GivesBack step a (record r { requests = r.requests ++ q ∷ [] }) h)

  guard-GivesBack : (r : Run) → IsHeld r → Leads IsHeld GivesBack (guard s job worker r)
  unfolding guard
  guard-GivesBack r h =
      if-Leads _ _ (was_interrupted r.log) _ _
        (λ _.
          settled-GivesBack IsHeld (log_step s interruption_guard false false r) quarantine
            (rw is_active refl) h)
        (λ _. h)

  finish-GivesBack : (r : Run) → IsHeld r → Leads Never GivesBack (finish job worker remediated r)
  finish-GivesBack r h = settled-GivesBack Never r remediated (rw is_active refl) h

  module _ (file : MediaFile) (a : ReplaceAnswers) where
    blocklist-GivesBack :
        (id : Option ℕ) (r : Run)
        → IsHeld r
        → Leads IsHeld GivesBack (blocklist s job worker file a id r)
    unfolding blocklist
    blocklist-GivesBack none r h = h
    blocklist-GivesBack (some id) r h = attempt-GivesBack _ _ a.mark r h

    keep_copy-GivesBack :
        (r : Run) → IsHeld r → Leads IsHeld GivesBack (keep_copy s job worker file a r)
    unfolding keep_copy
    keep_copy-GivesBack r h =
        if-Leads _ _ (not s.trash_enabled) _ _ (λ _. h)
          (λ _.
            if-Leads _ _ s.dry_run _ _ (λ _. h)
              (λ _.
                if-Leads _ _ (a.mkdir && place a.link) _ _ (λ _. h)
                  (λ _. fail-GivesBack IsHeld _ r h)))

    pub replace-GivesBack :
        (r : Run) → IsHeld r → Leads Never GivesBack (replace s job worker file a r)
    replace-GivesBack r h =
        replace-finish-Leads s job worker GivesBack file a r IsHeld IsHeld IsHeld IsHeld IsHeld
          (guard-GivesBack r h) (blocklist-GivesBack file.history_id) keep_copy-GivesBack
          (unfold delete in attempt-GivesBack _ _ a.delete)
          (unfold search_again in attempt-GivesBack _ _ a.search) finish-GivesBack

  module _ (file : MediaFile) (targets : IdSet) (a : RemapAnswers) where
    propose-GivesBack :
        (flow : Flow)
        → Leads IsHeld GivesBack flow
        → Leads IsHeld GivesBack (propose_if_released targets flow)
    propose-GivesBack (go r) h = h
    propose-GivesBack (halt r (released new)) h = h
    propose-GivesBack (halt r lost) h = h
    propose-GivesBack (halt r refused) h = h
    propose-GivesBack (halt r raised) h = h

    check_targets-GivesBack :
        (eps : List TargetEpisode) (r : Run)
        → IsHeld r
        → Leads IsHeld GivesBack (check_targets s job worker file targets a eps r)
    unfolding check_targets
    check_targets-GivesBack eps r h =
        if-Leads _ _ (is_nonempty (missing_ids targets eps)) _ _ (λ _. fail-GivesBack IsHeld _ r h)
          (λ _.
            if-Leads _ _ (any (λ ep. ep.has_file) eps) _ _
              (λ _. propose-GivesBack _ (fail-GivesBack IsHeld _ r h)) (λ _. h))

    stage-GivesBack :
        (name : List ℕ) (r : Run)
        → IsHeld r
        → Leads IsHeld GivesBack (stage s job worker file targets a name r)
    unfolding stage
    stage-GivesBack name r h =
        if-Leads _ _ s.dry_run _ _ (λ _. h)
          (λ _.
            if-Leads _ _ (a.mkdir && place a.link) _ _ (λ _. h) (λ _. fail-GivesBack IsHeld _ r h))

    import_match-GivesBack :
        (ids : List ℕ) (path : Option ImportPath) (r : Run)
        → IsHeld r
        → Leads IsHeld GivesBack (import_match s job worker file targets a ids path r)
    unfolding import_match
    import_match-GivesBack ids none r h = fail-GivesBack IsHeld _ r h
    import_match-GivesBack ids (some path) r h = attempt-GivesBack _ _ a.import _ h

    import_found-GivesBack :
        (name ids : List ℕ) (f : Fetched ImportPath) (r : Run)
        → IsHeld r
        → Leads IsHeld GivesBack (import_found s job worker file targets a name ids f r)
    unfolding import_found
    import_found-GivesBack name ids (fetched c) r h =
        import_match-GivesBack ids (find_candidate name c) r h
    import_found-GivesBack name ids fetch_sonarr_error r h = fail-GivesBack IsHeld _ r h
    import_found-GivesBack name ids fetch_other_error r h = h

    import_staged-GivesBack :
        (name ids : List ℕ) (r : Run)
        → IsHeld r
        → Leads IsHeld GivesBack (import_staged s job worker file targets a name ids r)
    unfolding import_staged
    import_staged-GivesBack name ids r h =
        if-Leads _ _ s.dry_run _ _ (λ _. h) (λ _. import_found-GivesBack name ids a.candidates r h)

    pub remap-GivesBack :
        (r : Run) → IsHeld r → Leads Never GivesBack (remap s job worker file targets a r)
    remap-GivesBack r h =
        remap-finish-Leads s job worker GivesBack file targets a r IsHeld IsHeld IsHeld IsHeld
          IsHeld (guard-GivesBack r h) (λ q k. k) (λ eps q _ k. check_targets-GivesBack _ q k)
          (λ q k. k)
          (λ eps n q _ _ k. (
            stage-GivesBack n q k,
            (unfold delete_record in attempt-GivesBack _ _ a.delete, import_staged-GivesBack n _),
          ))
          finish-GivesBack

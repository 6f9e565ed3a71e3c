-- ===== src/Remediate/Carried.antt =====
-- src/impostarr/remediate.py: conditions that the stages of `replace` and `remap` hand on.
use impostarr.Prelude.{
  ℕ, String, Bool, true, false, not, ◌&&◌, ◌≡◌, refl, Option, none, some, List, [], ◌∷◌, ◌++◌, ◌==◌,
  any, any-append, arith, ap, ◌∙◌,
}
use impostarr.IdSet.{IdSet}
use impostarr.Jobs.Rows.{Row}
use impostarr.Remediate.{
  StepName, Request, delete_file, mark_failed, FileCopy, to_trash, to_staging, Run, MediaFile,
  Settings, Answer, Ending, place, trash, attempt, guard, raised, hardlink,
  manual_import_candidates, manual_import, log_step, fail,
}
use impostarr.Remediate.Replace.{ReplaceAnswers, blocklist, keep_copy}
use impostarr.Remediate.Remap.{
  RemapAnswers, fetched, Fetched, ImportPath, fetch_sonarr_error, fetch_other_error, find_candidate,
  TargetEpisode, check_targets, stage, import_match, import_found, import_staged,
}
use impostarr.Remediate.Leads.{Leads, if-Leads, fail-Leads, attempt-Leads, guard-Leads}
use impostarr.Remediate.Checks.{check_targets-Leads}

abbrev pub is_delete : Request → Bool
is_delete (delete_file id) = true
is_delete _ = false

abbrev pub is_to_trash : FileCopy → Bool
is_to_trash to_trash = true
is_to_trash (to_staging name) = false

abbrev pub deletes : Run → Bool
deletes r = any is_delete r.requests

-- A copy in the trash, with its row.
abbrev pub in_trash : MediaFile → Run → Bool
in_trash file r = any is_to_trash r.copies && any (λ t. t.file_id == file.id) r.trash_items

-- A copy in staging.
abbrev pub in_staging : Run → Bool
in_staging r = any (λ c. not (is_to_trash c)) r.copies

pub mark_no_delete :
    (h : ℕ) (q : Run) → deletes q ≡ false → any is_delete (q.requests ++ mark_failed h ∷ []) ≡ false
mark_no_delete h q k = rw (any-append is_delete q.requests (mark_failed h ∷ []), k) refl

pub delete_sent : (id : ℕ) (q : Run) → any is_delete (q.requests ++ delete_file id ∷ []) ≡ true
delete_sent id q = rw (any-append is_delete q.requests (delete_file id ∷ [])) (ground arith)

-- Conditions that a run without a request to delete meets are met by what comes before one.
module _ (s : Settings) (job : Row) (worker : String) (H : Run → Ending → Type 0)
    (spare : (q : Run) (e : Ending) → deletes q ≡ false → H q e) where
  pub guarded :
      (r : Run) → deletes r ≡ false → Leads (λ q. deletes q ≡ false) H (guard s job worker r)
  guarded r k = guard-Leads _ H s job worker r (λ _. k) (λ _ rows e n. spare _ e k)

  pub blocklisted :
      (file : MediaFile) (a : ReplaceAnswers) (history_id : Option ℕ) (q : Run)
      → deletes q ≡ false
      → Leads (λ q'. deletes q' ≡ false) H (blocklist s job worker file a history_id q)
  unfolding blocklist
  blocklisted file a none q k = k
  blocklisted file a (some h) q k =
      attempt-Leads _ H s job worker _ _ _ q (λ _. k) (λ _ _. mark_no_delete h q k)
        (λ _ _ rows e n. spare _ e (mark_no_delete h q k))
        (λ _ _. spare _ raised (mark_no_delete h q k))

  pub kept :
      (file : MediaFile) (a : ReplaceAnswers) (q : Run)
      → deletes q ≡ false
      → Leads (λ q'. deletes q' ≡ false) H (keep_copy s job worker file a q)
  unfolding keep_copy
  kept file a q k =
      if-Leads _ H (not s.trash_enabled) _ _ (λ _. k)
        (λ _.
          if-Leads _ H s.dry_run _ _ (λ _. k)
            (λ _.
              if-Leads _ H (a.mkdir && place a.link) _ _ (λ _. k)
                (λ _. fail-Leads _ H s job worker trash q (λ rows e n. spare _ e k))))

  module _ (file : MediaFile) (targets : IdSet) (a : RemapAnswers) where
    pub checked :
        (eps : List TargetEpisode) (q : Run)
        → deletes q ≡ false
        → Leads (λ q'. deletes q' ≡ false) H (check_targets s job worker file targets a eps q)
    checked eps q k =
        check_targets-Leads _ H s job worker file targets a eps q
          (λ q' e _ re _ _ _. spare q' e (ap (any is_delete) re ∙ k)) (λ _ _. k)

    pub staged :
        (name : List ℕ) (q : Run)
        → s.dry_run ≡ false
        → deletes q ≡ false
        → Leads
            (λ q'. (deletes q' ≡ false) × (in_staging q' ≡ true))
            H
            (stage s job worker file targets a name q)
    unfolding stage
    staged name q real k =
        if-Leads _ H s.dry_run _ _ (λ n. ground arith)
          (λ _.
            if-Leads _ H (a.mkdir && place a.link) _ _
              (λ _. (
                k,
                rw (any-append (λ c. not (is_to_trash c)) q.copies (to_staging name ∷ []))
                    (ground arith),
              ))
              (λ _. fail-Leads _ H s job worker hardlink q (λ rows e n. spare _ e k)))

-- A condition that a log entry and a request leave as it is holds through the import.
module _ (s : Settings) (job : Row) (worker : String) (K : Run → Type 0) (H : Run → Ending → Type 0)
    (logged : (q : Run) (step : StepName) (fine : Bool) → K q → K (log_step s step fine false q))
    (sent : (q : Run) (m : Request) → K q → K (record q { requests = q.requests ++ m ∷ [] }))
    (stop : (q : Run) (rows : List Row) (e : Ending) → K q → H (record q { rows = rows }) e) where
  pub attempted :
      (step : StepName) (m : Request) (answer : Answer) (q : Run)
      → K q
      → Leads K H (attempt s job worker step m answer q)
  attempted step m answer q k =
      attempt-Leads K H s job worker step m answer q (λ _. logged q step true k)
        (λ _ _. logged _ step true (sent q m k))
        (λ _ _ rows e n. stop _ rows e (logged _ step false (sent q m k)))
        (λ _ _. stop _ q.rows raised (sent q m k))

  pub failed : (step : StepName) (q : Run) → K q → Leads K H (fail s job worker step q)
  failed step q k =
      fail-Leads K H s job worker step q (λ rows e n. stop _ rows e (logged q step false k))

  module _ (file : MediaFile) (targets : IdSet) (a : RemapAnswers) where
    pub matched :
        (ids : List ℕ) (found : Option ImportPath) (q : Run)
        → K q
        → Leads K H (import_match s job worker file targets a ids found q)
    unfolding import_match
    matched ids none q k = failed manual_import_candidates q k
    matched ids (some path) q k =
        attempted _ _ a.import _ (logged q manual_import_candidates true k)

    pub found :
        (name ids : List ℕ) (fetch : Fetched ImportPath) (q : Run)
        → K q
        → Leads K H (import_found s job worker file targets a name ids fetch q)
    unfolding import_found
    found name ids (fetched candidates) q k = matched ids (find_candidate name candidates) q k
    found name ids fetch_sonarr_error q k = failed manual_import_candidates q k
    found name ids fetch_other_error q k = stop q q.rows raised k

    pub imported :
        (name ids : List ℕ) (q : Run)
        → K q
        → Leads K H (import_staged s job worker file targets a name ids q)
    unfolding import_staged
    imported name ids q k =
        if-Leads K H s.dry_run _ _ (λ _. logged q manual_import true k)
          (λ _. found name ids a.candidates q k)

-- ===== src/Remediate/Imported.antt =====
-- `Remediator.remap` of src/impostarr/remediate.py: what has been imported when it ends as remediated.
use impostarr.Prelude.{ℕ, String, true, false, ◌≡◌, some, List, [], ◌∷◌, ◌++◌, any}
use impostarr.IdSet.{IdSet, IsIncreasing, of_list}
use impostarr.Jobs.Rows.{Row}
use impostarr.Remediate.{
  Request, delete_file, import_file, to_staging, Run, MediaFile, Settings, Ending,
}
use impostarr.Remediate.Remap.{
  RemapAnswers, Fetched, fetched, ImportPath, TargetEpisode, target_episodes, stage, delete_record,
  import_staged, staged_name, path_name, ids_of, missing_ids, is_nonempty,
}
use impostarr.Remediate.Leads.{Leads, is_remediated}

-- The episodes that Sonarr lists.
abbrev pub listed : Fetched TargetEpisode → List TargetEpisode
listed (fetched eps) = eps
listed _ = []

module _ (s : Settings) (job : Row) (worker : String) (r : Run) (file : MediaFile) (targets : IdSet)
    (a : RemapAnswers) where
  abbrev slots : List TargetEpisode
  slots = target_episodes targets (listed a.episodes)

  -- The targets are in the series and free; a copy of the file is staged under the name of the
  -- targets; the file was deleted, and then the staged copy imported into exactly the targets.
  abbrev pub IsImported : Run → Type 0
  IsImported q =
      (any (λ ep. ep.has_file) slots ≡ false)
      × (is_nonempty (missing_ids targets slots) ≡ false)
      × ((name : List ℕ) × (path : ImportPath) × (staged_name slots file.suffix ≡ some name)
          × (path_name path ≡ name)
          × (q.copies ≡ r.copies ++ to_staging name ∷ [])
          × (q.requests
              ≡ delete_file file.episode_file_id ∷ import_file path file.series_id targets ∷ []))

  module _ (real : s.dry_run ≡ false) (fresh : r.requests ≡ [])
      (increasing : IsIncreasing targets) where
    abbrev Done : Run → Ending → Type 0
    Done q e = is_remediated e ≡ true → IsImported q

    abbrev Checked : Run → Type 0
    Checked q =
        (any (λ ep. ep.has_file) slots ≡ false)
        × (is_nonempty (missing_ids targets slots) ≡ false)
        × (q.copies ≡ r.copies)
        × (q.requests ≡ [])

    -- Staged, with these requests sent.
    abbrev HasStaged : List Request → Run → Type 0
    HasStaged sent q =
        (any (λ ep. ep.has_file) slots ≡ false)
        × (is_nonempty (missing_ids targets slots) ≡ false)
        × ((n : List ℕ)
            → staged_name slots file.suffix ≡ some n
            → q.copies ≡ r.copies ++ to_staging n ∷ [])
        × (q.requests ≡ sent)

    abbrev TransfersAt : List ℕ → List TargetEpisode → Run → Type 0
    TransfersAt n eps q =
        Leads (HasStaged []) Done (stage s job worker file targets a n q)
        × (((q' : Run)
              → HasStaged [] q'
              → Leads (HasStaged (delete_file file.episode_file_id ∷ [])) Done
                  (delete_record s job worker file targets a q'))
            × ((q' : Run)
                → HasStaged (delete_file file.episode_file_id ∷ []) q'
                → Leads IsImported Done (
                    import_staged s job worker file targets a n
                      (of_list (ids_of (target_episodes targets eps))) q')))

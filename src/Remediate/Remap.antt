-- ===== src/Remediate/Remap.antt =====
-- `Remediator.remap` of src/impostarr/remediate.py: stage a copy under the name of the target
-- episodes, delete the mislabelled file, and import the staged one. The quality and the languages
-- that the import passes on from the matched candidate are left out.
use impostarr.Prelude.{
  ℕ, String, Bool, true, false, not, ◌&&◌, Option, none, some, List, [], ◌∷◌, ◌++◌, map, leb,
  if◌then◌else◌, any, filter,
}
use impostarr.IdSet.{IdSet, of_list, member}
use impostarr.Text.{join_with, pad2, same_codes}
use impostarr.Jobs.Rows.{Row, remediated}
use impostarr.Remediate.{
  hardlink, manual_import_candidates, execute_manual_import, manual_import, delete_episode_file,
  episode_resolution, occupied_check, Run, MediaFile, Settings, Answer, LinkAnswer, Flow, go, halt,
  released, raised, ◌>>=◌, log_step, finish, fail, attempt, place, guard, delete_file, import_file,
  to_staging,
}

-- The fields of Sonarr's `Episode` that `remap` reads.
pub record TargetEpisode : Type 0 where
  pub id : ℕ
  pub season_number : ℕ
  pub episode_number : ℕ
  pub has_file : Bool

-- The path of a `ManualImportItem`, in its parts.
abbrev pub ImportPath : Type 0
ImportPath = List (List ℕ)

-- What a GET gives back: a list, or an exception.
pub data Fetched {ℓ} (A : Type ℓ) : Type ℓ where
  fetched : List A → Fetched A
  fetch_sonarr_error : Fetched A
  fetch_other_error : Fetched A

pub record RemapAnswers : Type 0 where
  pub episodes : Fetched TargetEpisode
  pub mkdir : Bool
  pub link : LinkAnswer
  pub delete : Answer
  pub candidates : Fetched ImportPath
  pub import : Answer

-- `sorted(..., key=lambda ep: ep.episode_number)`, which keeps the order of equal numbers.
unfoldable pub insert : TargetEpisode → List TargetEpisode → List TargetEpisode
insert ep [] = ep ∷ []
insert ep (e ∷ es) =
    let rest = insert ep es in
    if leb ep.episode_number e.episode_number then ep ∷ e ∷ es else e ∷ rest

unfoldable pub sort_episodes : List TargetEpisode → List TargetEpisode
sort_episodes [] = []
sort_episodes (ep ∷ eps) = insert ep (sort_episodes eps)

abbrev pub target_episodes : IdSet → List TargetEpisode → List TargetEpisode
target_episodes targets eps = sort_episodes (filter (λ ep. member ep.id targets) eps)

abbrev pub ids_of : List TargetEpisode → List ℕ
ids_of eps = map (λ ep. ep.id) eps

-- `target_episode_ids - resolved_ids`
abbrev pub missing_ids : IdSet → List TargetEpisode → List ℕ
missing_ids targets eps = filter (λ n. not (member n (ids_of eps))) targets

abbrev pub is_nonempty {ℓ} : {A : Type ℓ} → List A → Bool
is_nonempty [] = false
is_nonempty (x ∷ xs) = true

abbrev numbered : ℕ → ℕ → List ℕ
numbered letter n = letter ∷ pad2 n

-- `S{season:02d}E{n:02d}-E{n:02d}...` and the suffix; `none` for the IndexError of no episode.
unfoldable pub staged_name : List TargetEpisode → List ℕ → Option (List ℕ)
staged_name [] suffix = none
staged_name (ep ∷ eps) suffix = some (
    numbered 83 ep.season_number
    ++ join_with 45 (map (λ e. numbered 69 e.episode_number) (ep ∷ eps))
    ++ suffix)

-- `Path(path).name`
abbrev pub path_name : ImportPath → List ℕ
path_name [] = []
path_name (part ∷ []) = part
path_name (part ∷ next ∷ parts) = path_name (next ∷ parts)

-- The first candidate with the name of the staged file.
abbrev pub find_candidate : List ℕ → List ImportPath → Option ImportPath
find_candidate name [] = none
find_candidate name (c ∷ cs) =
    if same_codes (path_name c) name then some c else find_candidate name cs

-- The proposed action is committed by `release`, and not kept when that raises.
abbrev pub propose_if_released : IdSet → Flow → Flow
propose_if_released targets (halt r (released new)) =
    halt (record r { proposed = some targets }) (released new)
propose_if_released targets flow = flow

module _ (s : Settings) (job : Row) (worker : String) (file : MediaFile) (targets : IdSet)
    (a : RemapAnswers) where
  -- Refuse targets that are not in the series, and targets that have a file already.
  unfoldable pub check_targets : List TargetEpisode → Run → Flow
  check_targets eps r =
      if is_nonempty (missing_ids targets eps)
      then fail s job worker episode_resolution r
      else if any (λ ep. ep.has_file) eps
      then propose_if_released targets (fail s job worker occupied_check r)
      else go r

  -- Preserve the file's data in staging, before the record of it is deleted.
  unfoldable pub stage : List ℕ → Run → Flow
  stage name r =
      if s.dry_run
      then go (log_step s hardlink true false r)
      else if a.mkdir && place a.link
      then go
          (log_step s hardlink true false (record r { copies = r.copies ++ to_staging name ∷ [] }))
      else fail s job worker hardlink r

  unfoldable pub delete_record : Run → Flow
  unfolding attempt
  delete_record =
      attempt s job worker delete_episode_file (delete_file file.episode_file_id) a.delete

  -- The import of the matched candidate.
  unfoldable pub import_match : List ℕ → Option ImportPath → Run → Flow
  unfolding attempt
  import_match ids none r = fail s job worker manual_import_candidates r
  import_match ids (some path) r =
      attempt s job worker execute_manual_import (import_file path file.series_id ids) a.import
        (log_step s manual_import_candidates true false r)

  unfoldable pub import_found : List ℕ → List ℕ → Fetched ImportPath → Run → Flow
  unfolding import_match
  import_found name ids (fetched candidates) r = import_match ids (find_candidate name candidates) r
  import_found name ids fetch_sonarr_error r = fail s job worker manual_import_candidates r
  import_found name ids fetch_other_error r = halt r raised

  unfoldable pub import_staged : List ℕ → List ℕ → Run → Flow
  unfolding import_found
  import_staged name ids r =
      if s.dry_run
      then go (log_step s manual_import true false r)
      else import_found name ids a.candidates r

  -- What follows the checks, under the name of the staged file.
  unfoldable pub transfer : List TargetEpisode → Option (List ℕ) → Run → Flow
  unfolding stage delete_record import_staged
  transfer eps none r = halt r raised
  transfer eps (some name) r = do
    staged ← stage name r
    deleted ← delete_record staged
    imported ← import_staged name (of_list (ids_of eps)) deleted
    finish job worker remediated imported

  unfoldable pub remap_onto : List TargetEpisode → Run → Flow
  unfolding check_targets transfer
  remap_onto eps r = do
    checked ← check_targets eps r
    transfer eps (staged_name eps file.suffix) checked

  -- Any error of the GET is raised.
  unfoldable pub remap_fetched : Fetched TargetEpisode → Run → Flow
  unfolding remap_onto
  remap_fetched (fetched eps) r = remap_onto (target_episodes targets eps) r
  remap_fetched fetch_sonarr_error r = halt r raised
  remap_fetched fetch_other_error r = halt r raised

  unfoldable pub remap : Run → Flow
  unfolding guard remap_fetched
  remap r = do unguarded ← guard s job worker r; remap_fetched a.episodes unguarded

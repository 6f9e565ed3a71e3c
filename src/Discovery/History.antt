-- ===== src/Discovery/History.antt =====
-- `poll_once` of src/impostarr/discovery.py: a batch of history records. The cache of a poll, by
-- series, changes no answer, and is left out.
use impostarr.Prelude.{ℕ, suc, Bool, ◌&&◌, Option, none, some, List, [], ◌∷◌, ◌==◌, if◌then◌else◌}
use impostarr.Discovery.{
  InstanceConfig, EpisodeFile, Tables, Files, file_exists, Captured, Import, capture_file, captured,
  skipped, raised,
}

pub record HistoryRecord : Type 0 where
  pub id : ℕ
  pub series_id : ℕ
  pub episode_id : ℕ
  pub episode_file_id : Option ℕ

pub data FileAnswer : Type 0 where
  got : EpisodeFile → FileAnswer
  gone : FileAnswer
  file_error : FileAnswer

pub record SeriesEpisode : Type 0 where
  pub id : ℕ
  pub episode_file_id : ℕ
  pub has_file : Bool

pub record Sonarr : Type 0 where
  pub episode_file : ℕ → FileAnswer
  pub episodes : ℕ → Option (List SeriesEpisode)

-- `_episode_ids_by_file(series_id).get(file_id, [])`
unfoldable pub episode_ids_by_file : List SeriesEpisode → ℕ → List ℕ
episode_ids_by_file [] file_id = []
episode_ids_by_file (ep ∷ eps) file_id =
    let rest = episode_ids_by_file eps file_id in
    if ep.has_file && ep.episode_file_id == file_id then ep.id ∷ rest else rest

-- The ids of the file, or those of the record where there are none.
abbrev pub or_fallback : List ℕ → List ℕ → List ℕ
or_fallback [] fallback = fallback
or_fallback (x ∷ xs) fallback = x ∷ xs

unfoldable pub resolve_episode_ids : Sonarr → HistoryRecord → ℕ → Option (List ℕ)
unfolding episode_ids_by_file
resolve_episode_ids sonarr r file_id = elim (sonarr.episodes r.series_id) [
  | none ↦ none
  | some eps ↦ some (or_fallback (episode_ids_by_file eps file_id) (r.episode_id ∷ []))
]

pub record Progress : Type 0 where
  pub tables : Tables
  pub created : ℕ
  pub skips : ℕ
  pub last_id : ℕ

abbrev pub after_capture : Progress → Captured → Option Progress
after_capture p (captured t) = some (record p { tables = t; created = suc p.created })
after_capture p (skipped errored) =
    some (record p { skips = if errored then suc p.skips else p.skips })
after_capture p raised = none

abbrev pub import_of : Sonarr → HistoryRecord → ℕ → EpisodeFile → Import
import_of sonarr r id f = record {
  file = f;
  series_id = r.series_id;
  episode_ids = resolve_episode_ids sonarr r id;
  history_id = some r.id;
}

abbrev pub answered :
    InstanceConfig
    → Files
    → Sonarr
    → ℕ
    → ℕ
    → HistoryRecord
    → ℕ
    → Progress
    → FileAnswer
    → Option Progress
answered cfg disk sonarr now instance_id r id p (got f) =
    after_capture p (capture_file cfg disk p.tables now instance_id (import_of sonarr r id f))
answered cfg disk sonarr now instance_id r id p gone = some p
answered cfg disk sonarr now instance_id r id p file_error = none

abbrev pub poll_file :
    InstanceConfig → Files → Sonarr → ℕ → ℕ → HistoryRecord → Progress → Option ℕ → Option Progress
poll_file cfg disk sonarr now instance_id r p none = some p
poll_file cfg disk sonarr now instance_id r p (some id) =
    if file_exists p.tables instance_id id
    then some p
    else answered cfg disk sonarr now instance_id r id p (sonarr.episode_file id)

unfoldable pub poll_record :
    InstanceConfig → Files → Sonarr → ℕ → ℕ → HistoryRecord → Progress → Option Progress
unfolding capture_file resolve_episode_ids
poll_record cfg disk sonarr now instance_id r p =
    poll_file cfg disk sonarr now instance_id r (record p { last_id = r.id }) r.episode_file_id

-- An error ends the batch.
abbrev pub and_then : Option Progress → (Progress → Option Progress) → Option Progress
and_then none f = none
and_then (some p) f = f p

unfoldable pub poll_records :
    InstanceConfig → Files → Sonarr → ℕ → ℕ → List HistoryRecord → Progress → Option Progress
unfolding poll_record
poll_records cfg disk sonarr now instance_id [] p = some p
poll_records cfg disk sonarr now instance_id (r ∷ rs) p =
    and_then (poll_record cfg disk sonarr now instance_id r p)
      (λ q. poll_records cfg disk sonarr now instance_id rs q)

-- `history_since(watermark)` has given these records; the last id is the new watermark.
unfoldable pub poll_once :
    InstanceConfig → Files → Sonarr → ℕ → ℕ → List HistoryRecord → ℕ → Tables → Option Progress
unfolding poll_records
poll_once cfg disk sonarr now instance_id records watermark t =
    poll_records cfg disk sonarr now instance_id records
      (record { tables = t; created = 0; skips = 0; last_id = watermark })

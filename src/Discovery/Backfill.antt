-- ===== src/Discovery/Backfill.antt =====
-- `backfill_step` of src/impostarr/discovery.py: the walk over the library, from the cursor. What
-- Sonarr lists is given beforehand, with `none` for an error, which is raised.
use impostarr.Prelude.{
  ℕ, suc, Bool, true, false, Option, none, some, List, [], ◌∷◌, ltb, leb, ◌==◌, filter,
  if◌then◌else◌,
}
use impostarr.Discovery.{
  InstanceConfig, EpisodeFile, Tables, Files, Captured, captured, skipped, raised, Import,
  capture_file,
}
use impostarr.Discovery.History.{SeriesEpisode, episode_ids_by_file}

pub record Cursor : Type 0 where
  pub series_id : ℕ
  pub episode_file_id : ℕ

pub record Library : Type 0 where
  pub all_series : Option (List ℕ)
  pub episodes : ℕ → Option (List SeriesEpisode)
  pub episode_files : ℕ → Option (List EpisodeFile)

pub record Walk : Type 0 where
  pub tables : Tables
  pub created : ℕ
  pub skips : ℕ
  pub processed : ℕ
  pub new_cursor : Option Cursor

-- `sorted(..., key=lambda f: f.id)`
unfoldable pub insert_file : EpisodeFile → List EpisodeFile → List EpisodeFile
insert_file f [] = f ∷ []
insert_file f (g ∷ gs) =
    let rest = insert_file f gs in if leb f.id g.id then f ∷ g ∷ gs else g ∷ rest

unfoldable pub sort_files : List EpisodeFile → List EpisodeFile
unfolding insert_file
sort_files [] = []
sort_files (f ∷ fs) = insert_file f (sort_files fs)

unfoldable pub insert_series : ℕ → List ℕ → List ℕ
insert_series s [] = s ∷ []
insert_series s (t ∷ ts) = let rest = insert_series s ts in if leb s t then s ∷ t ∷ ts else t ∷ rest

unfoldable pub sort_series : List ℕ → List ℕ
unfolding insert_series
sort_series [] = []
sort_series (s ∷ ss) = insert_series s (sort_series ss)

-- The series from the first one whose id is not below the start.
unfoldable pub from_series : Option ℕ → List ℕ → List ℕ
from_series none ss = ss
from_series (some start) [] = []
from_series (some start) (s ∷ ss) =
    let rest = from_series (some start) ss in if leb start s then s ∷ ss else rest

-- A walk that goes on, with whether the files or the series were exhausted; or an error.
pub data Walked : Type 0 where
  walked : Walk → Bool → Walked
  walk_error : Walked

abbrev pub count_file : ℕ → EpisodeFile → Walk → Walk
count_file series f w = record w {
  processed = suc w.processed;
  new_cursor = some (record { series_id = series; episode_file_id = f.id });
}

abbrev pub after_file : Walk → Captured → Option Walk
after_file w (captured t) = some (record w { tables = t; created = suc w.created })
after_file w (skipped errored) =
    some (record w { skips = if errored then suc w.skips else w.skips })
after_file w raised = none

abbrev pub then_walk : Option Walk → (Walk → Walked) → Walked
then_walk none f = walk_error
then_walk (some w) f = f w

abbrev pub then_series : Walked → (Walk → Walked) → Walked
then_series walk_error f = walk_error
then_series (walked w false) f = walked w false
then_series (walked w true) f = f w

abbrev pub import_file : ℕ → List SeriesEpisode → EpisodeFile → Import
import_file series eps f = record {
  file = f;
  series_id = series;
  episode_ids = some (episode_ids_by_file eps f.id);
  history_id = none;
}

-- The files of the cursor's series that come after it.
abbrev pub files_after : Option Cursor → ℕ → List EpisodeFile → List EpisodeFile
files_after none series fs = fs
files_after (some c) series fs =
    if series == c.series_id then filter (λ f. ltb c.episode_file_id f.id) fs else fs

-- The cursor is set back when every series is exhausted.
abbrev pub end_cursor : Walked → Option (Walk × Option Cursor)
end_cursor walk_error = none
end_cursor (walked w true) = some (w, none)
end_cursor (walked w false) = some (w, w.new_cursor)

abbrev pub start_series : Option Cursor → Option ℕ
start_series none = none
start_series (some c) = some c.series_id

abbrev pub start_walk : Tables → Walk
start_walk t = record { tables = t; created = 0; skips = 0; processed = 0; new_cursor = none }

module _ (cfg : InstanceConfig) (disk : Files) (library : Library)
    (now instance_id batch_size : ℕ) where
  abbrev pub walk_file : ℕ → List SeriesEpisode → EpisodeFile → Walk → Option Walk
  walk_file series eps f w =
      after_file (count_file series f w)
        (capture_file cfg disk w.tables now instance_id (import_file series eps f))

  unfoldable pub walk_files : ℕ → List SeriesEpisode → List EpisodeFile → Walk → Walked
  walk_files series eps [] w = walked w true
  walk_files series eps (f ∷ fs) w =
      let rest = then_walk (walk_file series eps f w) (λ v. walk_files series eps fs v) in
      if leb batch_size w.processed then walked w false else rest

  abbrev pub fetched_files :
      Option Cursor → ℕ → Option (List SeriesEpisode) → Option (List EpisodeFile) → Walk → Walked
  fetched_files start series (some eps) (some fs) w =
      walk_files series eps (files_after start series (sort_files fs)) w
  fetched_files start series _ _ w = walk_error

  unfoldable pub walk_series : Option Cursor → List ℕ → Walk → Walked
  unfolding walk_files
  walk_series start [] w = walked w true
  walk_series start (s ∷ ss) w =
      let rest =
        then_series (fetched_files start s (library.episodes s) (library.episode_files s) w)
          (λ v. walk_series start ss v) in
      if leb batch_size w.processed then walked w false else rest

  abbrev pub walk_library :
      Option ℕ → Option Cursor → Option (List ℕ) → Tables → Option (Walk × Option Cursor)
  walk_library from start none t = none
  walk_library from start (some ss) t =
      end_cursor (walk_series start (from_series from (sort_series ss)) (start_walk t))

  -- With a series given, from its first file; otherwise from the cursor, which `reset` has dropped.
  unfoldable pub backfill_step :
      Option Cursor → Bool → Option ℕ → Tables → Option (Walk × Option Cursor)
  unfolding walk_series from_series sort_series
  backfill_step cursor reset (some series_id) t =
      walk_library (some series_id) none library.all_series t
  backfill_step cursor true none t = walk_library none none library.all_series t
  backfill_step cursor false none t = walk_library (start_series cursor) cursor library.all_series t

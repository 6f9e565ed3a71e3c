-- ===== src/Discovery.antt =====
-- src/impostarr/discovery.py: what `Discoverer` shares, the paths and the capture of a file. A path is
-- the list of its parts, and a part a list of code points. What Sonarr and the disk answer is given
-- beforehand, by functions of what is asked. The columns that are only copied are left out. A call
-- that raises commits nothing.
pub mod Paths
pub mod History
pub mod Poll
pub mod Backfill
mod Ordered
pub mod Resume
pub mod Again
mod Tests
use impostarr.Prelude.{
  ℕ, suc, ◌+◌, Bool, true, false, not, ◌&&◌, ◌||◌, Option, none, some, List, [], ◌∷◌, ◌++◌, map,
  ltb, ◌==◌, length, any, if◌then◌else◌,
}
use impostarr.Text.{same_codes}
use impostarr.Jobs.Rows.{Row}
use impostarr.Jobs.{create_job}

abbrev pub Parts : Type 0
Parts = List (List ℕ)

pub record PathMapping : Type 0 where
  pub sonarr : Parts
  pub local : Parts

-- `path.relative_to(prefix)`, with `none` for a path that is not below the prefix.
unfoldable pub relative_to : Parts → Parts → Option Parts
relative_to path [] = some path
relative_to [] (p ∷ prefix) = none
relative_to (x ∷ path) (p ∷ prefix) =
    let rest = relative_to path prefix in if same_codes x p then rest else none

abbrev pub is_relative_to : Parts → Parts → Bool
is_relative_to path prefix = elim (relative_to path prefix) [ none ↦ false | some rest ↦ true ]

abbrev pub better : Parts → PathMapping → Option PathMapping → Bool
better path m best =
    is_relative_to path m.sonarr
    && elim best [ none ↦ true | some b ↦ ltb (length b.sonarr) (length m.sonarr) ]

-- The loop over the mappings.
unfoldable pub best_mapping : Parts → List PathMapping → Option PathMapping → Option PathMapping
best_mapping path [] best = best
best_mapping path (m ∷ ms) best = best_mapping path ms (if better path m best then some m else best)

abbrev pub rebased : PathMapping → Option Parts → Option Parts
rebased m none = none
rebased m (some rest) = some (m.local ++ rest)

abbrev pub relocate : Parts → Option PathMapping → Option Parts
relocate path none = none
relocate path (some m) = rebased m (relative_to path m.sonarr)

unfoldable pub map_local_path : List PathMapping → Parts → Option Parts
unfolding best_mapping relative_to
map_local_path mappings path = relocate path (best_mapping path mappings none)

unfoldable pub watch_dirs_allowed : List Parts → Parts → Bool
watch_dirs_allowed [] path = true
watch_dirs_allowed (d ∷ ds) path = any (is_relative_to path) (d ∷ ds)

pub record InstanceConfig : Type 0 where
  pub path_mappings : List PathMapping
  pub watch_dirs : List Parts

pub record EpisodeFile : Type 0 where
  pub id : ℕ
  pub series_id : ℕ
  pub path : Parts

-- The columns of `File` that discovery decides on.
pub record FileRow : Type 0 where
  pub instance_id : ℕ
  pub episode_file_id : ℕ
  pub local_path : Parts
  pub content_hash : ℕ
  pub series_id : ℕ
  pub episode_ids : List ℕ
  pub history_id : Option ℕ

pub record Tables : Type 0 where
  pub files : List FileRow
  pub jobs : List Row

pub data Presence : Type 0 where
  present absent unreadable : Presence

-- The disk: whether a file exists, and its hash, with `none` for an OSError.
pub record Files : Type 0 where
  pub exists : Parts → Presence
  pub hash_file : Parts → Option ℕ

abbrev pub is_file : ℕ → ℕ → FileRow → Bool
is_file instance_id episode_file_id f =
    f.instance_id == instance_id && f.episode_file_id == episode_file_id

unfoldable pub file_exists : Tables → ℕ → ℕ → Bool
file_exists t instance_id episode_file_id = any (is_file instance_id episode_file_id) t.files

-- `(created, errored)`, with the tables; a raised error ends the batch.
pub data Captured : Type 0 where
  captured : Tables → Captured
  skipped : Bool → Captured
  raised : Captured

-- What is asked of Sonarr for a file, and written for it.
pub record Import : Type 0 where
  pub file : EpisodeFile
  pub series_id : ℕ
  pub episode_ids : Option (List ℕ)
  pub history_id : Option ℕ

-- The rows that are added; the id of a file is its place in the table.
abbrev pub add_rows : Tables → ℕ → ℕ → Import → Parts → ℕ → List ℕ → Tables
add_rows t now instance_id i path hash ids = record {
  files =
      t.files
      ++ record {
        instance_id = instance_id;
        episode_file_id = i.file.id;
        local_path = path;
        content_hash = hash;
        series_id = i.series_id;
        episode_ids = ids;
        history_id = i.history_id;
      }
        ∷ [];
  jobs = (create_job t.jobs now (suc (length t.files)) false).0;
}

abbrev pub hashed : Tables → ℕ → ℕ → Import → Parts → List ℕ → Option ℕ → Captured
hashed t now instance_id i path ids none = skipped true
hashed t now instance_id i path ids (some hash) =
    captured (add_rows t now instance_id i path hash ids)

abbrev pub resolved : Files → Tables → ℕ → ℕ → Import → Parts → Option (List ℕ) → Captured
resolved disk t now instance_id i path none = raised
resolved disk t now instance_id i path (some ids) =
    hashed t now instance_id i path ids (disk.hash_file path)

abbrev pub probed : Files → Tables → ℕ → ℕ → Import → Parts → Presence → Captured
probed disk t now instance_id i path unreadable = skipped true
probed disk t now instance_id i path absent = skipped false
probed disk t now instance_id i path present = resolved disk t now instance_id i path i.episode_ids

abbrev pub located : InstanceConfig → Files → Tables → ℕ → ℕ → Import → Option Parts → Captured
located cfg disk t now instance_id i none = skipped false
located cfg disk t now instance_id i (some path) =
    if watch_dirs_allowed cfg.watch_dirs path
    then probed disk t now instance_id i path (disk.exists path)
    else skipped false

-- `episode_ids` is what the resolver would give, with `none` for an error, which is raised only when
-- the file has passed the tests before.
unfoldable pub capture_file : InstanceConfig → Files → Tables → ℕ → ℕ → Import → Captured
unfolding file_exists map_local_path watch_dirs_allowed
capture_file cfg disk t now instance_id i =
    if file_exists t instance_id i.file.id
    then skipped false
    else located cfg disk t now instance_id i (map_local_path cfg.path_mappings i.file.path)

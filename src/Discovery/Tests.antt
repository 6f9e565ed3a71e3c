-- ===== src/Discovery/Tests.antt =====
-- A poll of two records, of one file, under two mappings.
use impostarr.Prelude.{
  ◌+◌, ◌≡◌, refl, true, false, some, List, [], ◌∷◌, length, ℕ, Option, none, arith, if◌then◌else◌,
  ◌==◌,
}
use impostarr.Text.{same_codes}
use impostarr.Jobs.{create_job}
use impostarr.Discovery.{
  Parts, PathMapping, InstanceConfig, Files, present, FileRow, Tables, map_local_path, capture_file,
}
use impostarr.Discovery.History.{
  Sonarr, got, HistoryRecord, Progress, poll_once, episode_ids_by_file,
}
use impostarr.Discovery.Backfill.{Cursor, Library, Walk, backfill_step, sort_files}
use impostarr.Discovery.Resume.{Advanced, backfill_step-Advanced}
use impostarr.Discovery.Paths.{IsMapped, map_local_path-IsMapped}
use impostarr.Discovery.Poll.{IsDistinct, poll_once-IsDistinct}
use impostarr.Discovery.Again.{poll_once-again}

abbrev mappings : List PathMapping
mappings =
    record { sonarr = (1 ∷ []) ∷ []; local = (8 ∷ []) ∷ [] }
    ∷ record { sonarr = (1 ∷ []) ∷ (2 ∷ []) ∷ []; local = (9 ∷ []) ∷ [] }
    ∷ []

abbrev path : Parts
path = (1 ∷ []) ∷ (2 ∷ []) ∷ (3 ∷ []) ∷ []

mapped : map_local_path mappings path ≡ some ((9 ∷ []) ∷ (3 ∷ []) ∷ [])
unfolding map_local_path same_codes
mapped = refl

map_local_path-IsMapped_example : IsMapped mappings path (map_local_path mappings path)
map_local_path-IsMapped_example = map_local_path-IsMapped mappings path

abbrev config : InstanceConfig
config = record { path_mappings = mappings; watch_dirs = [] }

abbrev disk : Files
disk = record { exists = λ p. present; hash_file = λ p. some 77 }

abbrev sonarr : Sonarr
sonarr = record {
  episode_file = λ id. got (record { id = id; series_id = 4; path = path });
  episodes = λ series. some (record { id = 51; episode_file_id = 6; has_file = true } ∷ []);
}

abbrev records : List HistoryRecord
records =
    record { id = 101; series_id = 4; episode_id = 51; episode_file_id = some 6 }
    ∷ record { id = 102; series_id = 4; episode_id = 52; episode_file_id = some 6 }
    ∷ []

abbrev empty : Tables
empty = record { files = []; jobs = [] }

abbrev polled : Progress
polled = record {
  tables = record {
    files =
        record {
          instance_id = 1;
          episode_file_id = 6;
          local_path = (9 ∷ []) ∷ (3 ∷ []) ∷ [];
          content_hash = 77;
          series_id = 4;
          episode_ids = 51 ∷ [];
          history_id = some 101;
        }
        ∷ [];
    jobs = (create_job [] 30 1 false).0;
  };
  created = 1;
  skips = 0;
  last_id = 102;
}

poll_run : poll_once config disk sonarr 30 1 records 100 empty ≡ some polled
unfolding poll_once map_local_path same_codes
poll_run = refl

poll_once-IsDistinct_example :
    (length polled.tables.files ≡ length empty.files + polled.created)
    × (length polled.tables.jobs ≡ length empty.jobs + polled.created)
    × IsDistinct polled.tables.files
poll_once-IsDistinct_example =
    poll_once-IsDistinct config disk sonarr 30 1 records 100 empty polled tt poll_run

poll_once-again_example :
    (q : Progress) × (poll_once config disk sonarr 30 1 records 102 polled.tables ≡ some q)
    × (q.tables ≡ polled.tables)
    × (q.created ≡ 0)
poll_once-again_example =
    poll_once-again config disk sonarr 30 1 records 100 102 empty polled poll_run

-- Two series out of order, with two files and one.
abbrev library : Library
library = record {
  all_series = some (5 ∷ 4 ∷ []);
  episodes = λ series. some [];
  episode_files = λ series.
      if series == 4
      then some (
          record { id = 7; series_id = 4; path = path }
          ∷ record { id = 6; series_id = 4; path = path }
          ∷ [])
      else some (record { id = 3; series_id = 5; path = path } ∷ []);
}

abbrev cursor : Option Cursor
cursor = some (record { series_id = 4; episode_file_id = 6 })

abbrev row : ℕ → ℕ → FileRow
row id series = record {
  instance_id = 1;
  episode_file_id = id;
  local_path = (9 ∷ []) ∷ (3 ∷ []) ∷ [];
  content_hash = 77;
  series_id = series;
  episode_ids = [];
  history_id = none;
}

abbrev stepped : Walk
stepped = record {
  tables = record { files = row 7 4 ∷ []; jobs = (create_job [] 30 1 false).0 };
  created = 1;
  skips = 0;
  processed = 1;
  new_cursor = some (record { series_id = 4; episode_file_id = 7 });
}

backfill_run :
    backfill_step config disk library 30 1 1 cursor false none empty
    ≡ some (stepped, stepped.new_cursor)
unfolding backfill_step capture_file map_local_path same_codes sort_files episode_ids_by_file
backfill_run = refl

backfill_step-Advanced_example :
    Advanced config disk library 30 1 1 cursor stepped stepped.new_cursor
backfill_step-Advanced_example =
    backfill_step-Advanced config disk library 30 1 1 cursor empty stepped stepped.new_cursor
      (omega arith) backfill_run

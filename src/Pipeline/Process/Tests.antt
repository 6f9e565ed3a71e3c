-- ===== src/Pipeline/Process/Tests.antt =====
-- `process_job` on a file with one plugin, which is sure of the claimed episode or of another.
use impostarr.Prelude.{
  ℕ, String, ◌≡◌, refl, none, some, [], ◌∷◌, arith, length, true, false, Bool, str_eq,
  if◌then◌else◌, ◌*◌,
}
use impostarr.Float.{milli}
use impostarr.IdSet.{of_list, add}
use impostarr.Candidates.{PluginResult, ok, tvdb_order}
use impostarr.Normalize.{Episode, match_tvdb, find_id}
use impostarr.Normalize.Matching.{in_claimed}
use impostarr.Jobs.Rows.{Row, Status, active}
use impostarr.Scoring.KeyDict.{set_default, put}
use impostarr.Scoring.Keys.{key_eq}
use impostarr.Scoring.{
  linear, gather, zip_strict, score_all, file_reports, per_plugin, fuse, reject_outliers,
}
use impostarr.Remediate.{MediaFile, success, linked}
use impostarr.Remediate.Remap.{TargetEpisode, fetched}
use impostarr.Pipeline.{SeriesContext}
use impostarr.Pipeline.Assets.{extracted, extract_error}
use impostarr.Pipeline.Assets.Fanned.{FrameHashSeq, FrameHashRow}
use impostarr.Pipeline.Plugins.{Turn, LoadedPlugin}
use impostarr.Pipeline.Duplicates.{
  Hashing, check_duplicates, best_match, hamming_similarity, sum_similarity,
}
use impostarr.Pipeline.World.{World, Answers, Config, ProcessEnd}
use impostarr.Pipeline.Process.{process_job}
use impostarr.Pipeline.Process.Unattended.{IsUntouched, process_job-IsUntouched}
use impostarr.Pipeline.Process.Corpus.{IsKept, process_job-IsKept}
use impostarr.Pipeline.Process.Lease.{IsLetGo, process_job-IsLetGo}

abbrev episode : ℕ → ℕ → Episode
episode id number = record {
  id = id;
  season_number = some 1;
  episode_number = some number;
  absolute_episode_number = none;
  scene_season_number = none;
  scene_episode_number = none;
  scene_absolute_episode_number = none;
}

abbrev context : SeriesContext
context = record {
  external_ids = record { tvdb = some 5; tmdb = none; imdb = none };
  episodes = episode 101 1 ∷ episode 102 2 ∷ [];
}

abbrev says : ℕ → ℕ → PluginResult ℕ
says one two = record {
  status = ok;
  has_reason = false;
  candidates = in_claimed one 1 (1 ∷ []) tvdb_order ∷ in_claimed two 1 (2 ∷ []) tvdb_order ∷ [];
}

abbrev llm : LoadedPlugin ℕ
llm = record { name = "llm"; version = "1"; config = none; weight = 1000; daily_budget = none }

abbrev turn : PluginResult ℕ → Turn ℕ
turn result = record { loaded = llm; asked_at = 5; answer = some result; stored_at = 6 }

abbrev target : TargetEpisode
target = record { id = 102; season_number = 1; episode_number = 2; has_file = false }

abbrev frames : FrameHashSeq ℕ
frames = record { algo = "phash"; version = 1; timestamps = 0 ∷ []; hashes = "ff" ∷ [] }

abbrev answers : PluginResult ℕ → Answers ℕ
answers result = record {
  context = some context;
  probe_fp = some "fp";
  probe = extract_error;
  audio_fp = some "fa";
  audio = extract_error;
  sub_fp = λ idx codec. some "fs";
  subs = extract_error;
  frame_fp = λ i total. some "ff";
  frames = extracted (frames, []);
  transcript = extract_error;
  hashing = record { distance = λ x y. 0; of_nat = λ n. n };
  of_hashes = λ hs. "hashes";
  digests = record { of_series = λ ctx. "series"; of_input = λ input. input.plugin_name };
  turns = turn result ∷ [];
  replace = record {
    mark = success;
    mkdir = true;
    link = linked;
    delete = success;
    search = success;
  };
  remap = record {
    episodes = fetched (target ∷ []);
    mkdir = true;
    link = linked;
    delete = success;
    candidates = fetched [];
    import = success;
  };
}

abbrev config : Bool → Config ℕ
config approval = record {
  scoring = record {
    fusion = linear;
    eps = 20;
    outlier_rejection = false;
    outlier_high = 800;
    outlier_low = 200;
    outlier_min_agreeing = 2;
  };
  thresholds = record {
    quarantine = 700;
    auto = 400;
    alt = 700;
    alt_margin = 300;
    auto_min_evidence = 1;
    phash_store = 850;
  };
  flags = record { auto_remap = true; auto_replace = true; approval_required = approval };
  remediation = record { dry_run = false; trash_enabled = true; expires_at = 30 };
  frame_sample_n = 1;
  duplicate_threshold = 900;
}

abbrev job : Row
job = record {
  id = 1;
  file_id = 9;
  status = active;
  attempts = 0;
  claimed_by = some "w";
  claimed_at = some 3;
  heartbeat_at = some 4;
  created_at = 2;
}

abbrev file : MediaFile
file = record {
  id = 9;
  series_id = 5;
  episode_ids = 101 ∷ [];
  episode_file_id = 7;
  history_id = none;
  suffix = [];
}

abbrev world : World ℕ
world = record {
  jobs = job ∷ [];
  assets = [];
  hash_rows = [];
  results = [];
  verdicts = [];
  corpus = [];
  trash_items = [];
  requests = [];
  copies = [];
  events = [];
}

abbrev run : Bool → PluginResult ℕ → World ℕ × ProcessEnd
run approval result = process_job milli (config approval) (answers result) job "w" file world

-- A sure match is published as such, and goes to the corpus.
sure_match :
    ((run false (says 900 100)).0.events ≡ (1, Status.matched) ∷ [])
    × (length (run false (says 900 100)).0.corpus ≡ 1)
unfolding process_job gather zip_strict score_all file_reports set_default per_plugin match_tvdb
    find_id put key_eq add of_list fuse reject_outliers
sure_match = (refl, refl)

process_job-IsUntouched_example : IsUntouched world (run true (says 100 900)).0
process_job-IsUntouched_example =
    process_job-IsUntouched world milli (config true) (answers (says 100 900)) job "w" file refl

process_job-IsKept_example :
    IsKept world milli
      (config false)
      (answers (says 900 100))
      job
      "w"
      file
      (run false (says 900 100)).0
process_job-IsKept_example =
    process_job-IsKept world milli (config false) (answers (says 900 100)) job "w" file

process_job-IsLetGo_example :
    IsLetGo milli
      (config false)
      (answers (says 100 900))
      job
      "w"
      file
      refl
      (run false (says 100 900)).0
process_job-IsLetGo_example =
    process_job-IsLetGo milli (config false) (answers (says 100 900)) job "w" file refl world
      (omega arith)

abbrev hashed : ℕ → String → FrameHashRow ℕ
hashed file_id h = record {
  id = file_id;
  file_id = file_id;
  algo = "phash";
  version = 1;
  timestamps = 0 ∷ [];
  hashes = h ∷ [];
}

-- Hashes that are not the same differ in 16 bits; integers are thousands.
abbrev hashing : Hashing ℕ
hashing = record { distance = λ x y. if str_eq x y then 0 else 16; of_nat = λ n. n * 1000 }

-- The file's own row is passed over, and of two that are equally similar the first is reported.
duplicate_found :
    check_duplicates milli hashing 900
      (hashed 9 "ff" ∷ hashed 3 "aa" ∷ hashed 4 "ff" ∷ hashed 5 "ff" ∷ [])
      9
      frames
    ≡ some (record { duplicate_of_file_id = 4; similarity = 1000 })
unfolding check_duplicates best_match hamming_similarity sum_similarity
duplicate_found = refl

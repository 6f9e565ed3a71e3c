-- ===== src/RefSubs.antt =====
-- src/impostarr/refsubs.py: reference subtitles, from a manual directory, a cache, or OpenSubtitles
-- within a daily quota. The service's state holds the token, the quota file, the files on disk, the
-- requests that were sent, and what the other side will answer to the next ones, each answer with
-- the date on which it comes. Languages, titles and ids of IMDb are lists of code points. One caller
-- is modelled, so the locks and the pacing of requests are left out.
mod Spent
pub mod Client
pub mod Fetch
pub mod Imdb
mod Kept
pub mod Quota
pub mod Found
mod Tests
use impostarr.Prelude.{
  ℕ, suc, ◌+◌, ◌-◌, Bool, true, false, ◌&&◌, Option, none, some, List, [], ◌∷◌, ◌++◌, ltb, leb,
  ◌==◌, if◌then◌else◌, any, String,
}
use impostarr.Text.{codes, pad2, same_codes}

-- The settings of `RefSubsConfig` that are read.
pub record RefSubsConfig : Type 0 where
  pub daily_quota : ℕ
  pub has_cache_dir : Bool
  pub has_manual_dir : Bool
  pub languages : List (List ℕ)

-- `series_ext_ids`
pub record SeriesExtIds : Type 0 where
  pub tvdb : Option ℕ
  pub imdb : Option (List ℕ)
  pub title : Option (List ℕ)

-- A file of the manual or of the cache directory: the directory of a series, and a name.
pub data SubPath : Type 0 where
  manual cached : ℕ → List ℕ → SubPath

abbrev pub same_path : SubPath → SubPath → Bool
same_path (manual t n) (manual u m) = t == u && same_codes n m
same_path (cached t n) (cached u m) = t == u && same_codes n m
same_path _ _ = false

-- The quota file: the date, and the count on it.
pub record QuotaData : Type 0 where
  pub date : ℕ
  pub count : ℕ

-- An item of a search: the ids of its files, and how often it was downloaded.
pub record Item : Type 0 where
  pub files : List (Option ℕ)
  pub download_count : ℕ

-- A response, with the keys of its JSON that are read; or an `httpx.HTTPError`.
pub data Reply : Type 0 where
  http_error : Reply
  response :
      (status_code : ℕ)
      → (is_json : Bool) → (token : Option (List ℕ)) → (items : List Item)
      → (link : Option (List ℕ)) → Reply

pub data Request : Type 0 where
  post_login : Request
  get_subtitles : Request
  post_download : ℕ → Request
  get_link : List ℕ → Request

-- `quota` is the quota file, or `none` when there is none that can be read. `links` counts the
-- download links that OpenSubtitles has given.
pub record Service : Type 0 where
  pub token : Option (List ℕ)
  pub quota : Option QuotaData
  pub files : List SubPath
  pub today : ℕ
  pub replies : List (ℕ × Reply)
  pub sent : List Request
  pub links : ℕ

-- What a call gives, or that it raises.
pub data Outcome {ℓ} (A : Type ℓ) : Type ℓ where
  gives : A → Outcome A
  raises : Outcome A

abbrev pub path_exists : Service → SubPath → Bool
path_exists s p = any (same_path p) s.files

abbrev pub add_language : List (List ℕ) → List (List ℕ) → List (List ℕ)
add_language ordered [] = ordered
add_language ordered (lang ∷ langs) =
    add_language (if any (same_codes lang) ordered then ordered else ordered ++ lang ∷ []) langs

-- `_language_order`; an empty language counts as none.
unfoldable pub language_order : RefSubsConfig → Option (List ℕ) → List (List ℕ)
language_order cfg (some (c ∷ cs)) = add_language ((c ∷ cs) ∷ []) cfg.languages
language_order cfg _ = add_language [] cfg.languages

-- `_srt_name`
unfoldable pub srt_name : ℕ → ℕ → List ℕ → List ℕ
unfolding pad2 codes
srt_name season episode [] = 83 ∷ pad2 season ++ 69 ∷ pad2 episode ++ codes ".srt"
srt_name season episode language =
    83 ∷ pad2 season ++ 69 ∷ pad2 episode ++ 46 ∷ language ++ codes ".srt"

-- The loop over the languages, and the name without one.
unfoldable pub manual_name : Service → ℕ → ℕ → ℕ → List (List ℕ) → Option SubPath
unfolding srt_name
manual_name s tvdb season episode [] =
    let legacy = manual tvdb (srt_name season episode []) in
    if path_exists s legacy then some legacy else none
manual_name s tvdb season episode (lang ∷ langs) =
    let rest = manual_name s tvdb season episode langs in
    let path = manual tvdb (srt_name season episode lang) in
    if path_exists s path then some path else rest

-- `_manual_path`
unfoldable pub manual_path : RefSubsConfig → Service → ℕ → ℕ → ℕ → List (List ℕ) → Option SubPath
unfolding manual_name
manual_path cfg s tvdb season episode langs =
    if cfg.has_manual_dir then manual_name s tvdb season episode langs else none

abbrev pub fresh_quota : ℕ → Option QuotaData → QuotaData
fresh_quota today none = record { date = today; count = 0 }
fresh_quota today (some q) = if q.date == today then q else record { date = today; count = 0 }

-- `_load_quota`
unfoldable pub load_quota : Service → QuotaData
load_quota s = fresh_quota s.today s.quota

-- `_write_quota`
abbrev pub write_quota : QuotaData → Service → Service
write_quota q s = record s { quota = some q }

-- `quota_status`: what was used, of the limit.
unfoldable pub quota_status : RefSubsConfig → Service → Option (ℕ × ℕ)
unfolding load_quota
quota_status cfg s =
    if cfg.has_cache_dir then some ((load_quota s).count, cfg.daily_quota) else none

abbrev pub count_up : QuotaData → QuotaData
count_up q = record q { count = q.count + 1 }

-- `max(0, count - 1)`
abbrev pub count_down : QuotaData → QuotaData
count_down q = record q { count = q.count - 1 }

-- `_reserve_quota`
unfoldable pub reserve_quota : RefSubsConfig → Service → Service × Bool
unfolding load_quota
reserve_quota cfg s =
    if leb cfg.daily_quota (load_quota s).count
    then (s, false)
    else (write_quota (count_up (load_quota s)) s, true)

-- `_release_quota`
unfoldable pub release_quota : Service → Service
unfolding load_quota
release_quota s = write_quota (count_down (load_quota s)) s

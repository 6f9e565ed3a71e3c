-- ===== src/RefSubs/Fetch.antt =====
-- src/impostarr/refsubs.py: the search, the download, and `get`.
use impostarr.Prelude.{
  ℕ, zero, suc, ◌+◌, ◌-◌, ◌*◌, Bool, true, false, ◌&&◌, Option, none, some, List, [], ◌∷◌, ◌++◌,
  ltb, leb, ◌==◌, if◌then◌else◌, all,
}
use impostarr.RefSubs.{
  RefSubsConfig, SeriesExtIds, SubPath, cached, Item, Reply, http_error, response, get_subtitles,
  post_download, get_link, Service, Outcome, gives, raises, path_exists, language_order, srt_name,
  manual_path, reserve_quota, release_quota,
}
use impostarr.RefSubs.Client.{send, authed_request}

-- `removeprefix("tt")`
abbrev pub remove_tt : List ℕ → List ℕ
remove_tt (t ∷ u ∷ rest) = if t == 116 && u == 116 then rest else t ∷ u ∷ rest
remove_tt text = text

-- Of the characters that `isdigit` takes, the digits of ASCII.
abbrev pub is_digit : ℕ → Bool
is_digit c = leb 48 c && leb c 57

-- `int(text)`, from the number read so far.
unfoldable pub read_int : ℕ → List ℕ → ℕ
read_int n [] = n
read_int n (c ∷ cs) = read_int (n * 10 + (c - 48)) cs

abbrev pub digits_only : List ℕ → Bool
digits_only [] = false
digits_only (c ∷ cs) = all is_digit (c ∷ cs)

-- `_numeric_imdb_id`, for digits of ASCII
unfoldable pub numeric_imdb_id : Option (List ℕ) → Option ℕ
unfolding read_int
numeric_imdb_id none = none
numeric_imdb_id (some raw) =
    if digits_only (remove_tt raw) then some (read_int 0 (remove_tt raw)) else none

-- The best item so far: its count, where `none` is -1, and the id of its first file.
abbrev pub improves : Option ℕ → ℕ → Bool
improves none count = true
improves (some best) count = ltb best count

-- `best_download_count` and `best_file_id` after one more item; an item without files is skipped.
abbrev pub consider : List (Option ℕ) → ℕ → Option ℕ × Option ℕ → Option ℕ × Option ℕ
consider [] count best = best
consider (first ∷ rest) count (best_count, best_id) =
    if improves best_count count then (some count, first) else (best_count, best_id)

unfoldable pub best_item : List Item → Option ℕ × Option ℕ → Option ℕ × Option ℕ
best_item [] best = best
best_item (item ∷ items) best = best_item items (consider item.files item.download_count best)

abbrev pub read_items : Service × Outcome (Option Reply) → Service × Outcome (Option ℕ)
read_items (s, raises) = (s, raises)
read_items (s, gives none) = (s, gives none)
read_items (s, gives (some http_error)) = (s, gives none)
read_items (s, gives (some (response status is_json token items link))) =
    if is_json then (s, gives (best_item items (none, none)).1) else (s, raises)

-- `_search_query`; the parameters of a search are left out.
unfoldable pub search_query : Service → Service × Outcome (Option ℕ)
unfolding authed_request best_item
search_query s = read_items (authed_request get_subtitles s)

-- The next strategy, when this one has found nothing.
abbrev pub or_next :
    Service × Outcome (Option ℕ)
    → (Service → Service × Outcome (Option ℕ))
    → Service × Outcome (Option ℕ)
or_next (s, raises) next = (s, raises)
or_next (s, gives none) next = next s
or_next (s, gives (some id)) next = (s, gives (some id))

-- A strategy is tried only when what it searches by is there.
abbrev pub strategy : Bool → Service → Service × Outcome (Option ℕ)
strategy available s = if available then search_query s else (s, gives none)

abbrev pub is_some : {A : Type 0} → Option A → Bool
is_some none = false
is_some (some _) = true

abbrev pub has_title : Option (List ℕ) → Bool
has_title (some (c ∷ cs)) = true
has_title _ = false

-- `_search`
unfoldable pub search : SeriesExtIds → Service → Service × Outcome (Option ℕ)
unfolding search_query numeric_imdb_id
search ids s =
    or_next (strategy (is_some (numeric_imdb_id ids.imdb)) s)
      λ s1. or_next (strategy (is_some ids.tvdb) s1) λ s2. strategy (has_title ids.title) s2

-- A link counts, from which on the reservation is kept.
abbrev pub count_link : Service → Service
count_link s = record s { links = s.links + 1 }

abbrev pub read_link : Service × Outcome (Option Reply) → Service × Outcome (Option (List ℕ))
read_link (s, raises) = (s, raises)
read_link (s, gives none) = (s, gives none)
read_link (s, gives (some http_error)) = (s, gives none)
read_link (s, gives (some (response status false token items link))) = (s, raises)
read_link (s, gives (some (response status true token items (some (c ∷ cs))))) =
    (count_link s, gives (some (c ∷ cs)))
read_link (s, gives (some (response status true token items _))) = (s, gives none)

-- `_download`
unfoldable pub download : ℕ → Service → Service × Outcome (Option (List ℕ))
unfolding authed_request
download file_id s = read_link (authed_request (post_download file_id) s)

abbrev pub keep_file : SubPath → Service × Reply → Service × Option SubPath
keep_file path (s, http_error) = (s, none)
keep_file path (s, response status is_json token items link) =
    if leb 400 status then (s, none) else (record s { files = s.files ++ path ∷ [] }, some path)

-- `_save`, on a disk that can be written.
unfoldable pub save : List ℕ → SubPath → Service → Service × Option SubPath
unfolding send
save link path s = keep_file path (send (get_link link) s)

-- An exception is caught, and without a link the reservation is taken back.
unfoldable pub after_download :
    SubPath → Service × Outcome (Option (List ℕ)) → Service × Option SubPath
unfolding release_quota save
after_download path (s, raises) = (release_quota s, none)
after_download path (s, gives none) = (release_quota s, none)
after_download path (s, gives (some link)) = save link path s

unfoldable pub after_search : SubPath → Service × Outcome (Option ℕ) → Service × Option SubPath
unfolding after_download download
after_search path (s, raises) = (release_quota s, none)
after_search path (s, gives none) = (release_quota s, none)
after_search path (s, gives (some file_id)) = after_download path (download file_id s)

abbrev pub when_reserved :
    Service × Bool → (Service → Service × Option SubPath) → Service × Option SubPath
when_reserved (s, true) next = next s
when_reserved (s, false) next = (s, none)

-- `_fetch`
unfoldable pub fetch : RefSubsConfig → SeriesExtIds → SubPath → Service → Service × Option SubPath
unfolding reserve_quota after_search search
fetch cfg ids path s = when_reserved (reserve_quota cfg s) λ s1. after_search path (search ids s1)

abbrev pub or_language :
    Service × Option SubPath → (Service → Service × Option SubPath) → Service × Option SubPath
or_language (s, some path) next = (s, some path)
or_language (s, none) next = next s

abbrev pub cache_path : ℕ → ℕ → ℕ → List ℕ → SubPath
cache_path tvdb season episode lang = cached tvdb (srt_name season episode lang)

-- The loop over the languages: the cache, and then a request, for each.
unfoldable pub try_languages :
    RefSubsConfig → SeriesExtIds → ℕ → ℕ → ℕ → List (List ℕ) → Service → Service × Option SubPath
unfolding fetch srt_name
try_languages cfg ids tvdb season episode [] s = (s, none)
try_languages cfg ids tvdb season episode (lang ∷ langs) s =
    let path = cache_path tvdb season episode lang in
    or_language (if path_exists s path then (s, some path) else fetch cfg ids path s)
      (try_languages cfg ids tvdb season episode langs)

abbrev pub or_manual :
    Option SubPath → Service → Service × Option SubPath → Service × Option SubPath
or_manual (some path) s looked_up = (s, some path)
or_manual none s looked_up = looked_up

-- With the id of the series, which is not 0.
unfoldable pub get_for :
    RefSubsConfig → SeriesExtIds → ℕ → ℕ → ℕ → List (List ℕ) → Service → Service × Option SubPath
unfolding manual_path try_languages
get_for cfg ids tvdb season episode langs s =
    or_manual (manual_path cfg s tvdb season episode langs) s
      (if cfg.has_cache_dir then try_languages cfg ids tvdb season episode langs s else (s, none))

-- An id of none or 0 counts as missing.
unfoldable pub get_by_id :
    RefSubsConfig
    → SeriesExtIds
    → Option ℕ
    → ℕ
    → ℕ
    → List (List ℕ)
    → Service
    → Service × Option SubPath
unfolding get_for
get_by_id cfg ids none season episode langs s = (s, none)
get_by_id cfg ids (some zero) season episode langs s = (s, none)
get_by_id cfg ids (some (suc n)) season episode langs s =
    get_for cfg ids (suc n) season episode langs s

-- `get`
unfoldable pub get :
    RefSubsConfig → SeriesExtIds → ℕ → ℕ → Option (List ℕ) → Service → Service × Option SubPath
unfolding get_by_id language_order
get cfg ids season episode language s =
    get_by_id cfg ids ids.tvdb season episode (language_order cfg language) s

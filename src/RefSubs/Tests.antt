-- ===== src/RefSubs/Tests.antt =====
-- A first subtitle, and the quota that it uses.
use impostarr.Prelude.{◌≡◌, refl, none, some, [], ◌∷◌, arith, length, true}
use impostarr.Text.{codes}
use impostarr.RefSubs.{RefSubsConfig, SeriesExtIds, SubPath, cached, Reply, response, Service}
use impostarr.RefSubs.Fetch.{numeric_imdb_id, get}
use impostarr.RefSubs.Imdb.{printed, numeric_imdb_id-printed}
use impostarr.RefSubs.Spent.{IsAccounted}
use impostarr.RefSubs.Quota.{get-IsAccounted}

abbrev cfg : RefSubsConfig
cfg = record {
  daily_quota = 2;
  has_cache_dir = true;
  has_manual_dir = true;
  languages = codes "en" ∷ [];
}

abbrev ids : SeriesExtIds
ids = record { tvdb = some 5; imdb = some (codes "tt42"); title = none }

abbrev page : Reply
page =
    response 200 true none
      (record { files = []; download_count = 9 }
        ∷ record { files = some 7 ∷ []; download_count = 3 }
        ∷ record { files = some 8 ∷ []; download_count = 3 }
        ∷ [])
      none

-- A login, a search that is limited once, a link, and the file.
abbrev start : Service
start = record {
  token = none;
  quota = some (record { date = 3; count = 2 });
  files = [];
  today = 4;
  replies =
      (4, response 200 true (some (codes "t")) [] none)
      ∷ (4, response 429 true none [] none)
      ∷ (4, page)
      ∷ (4, response 200 true none [] (some (codes "link")))
      ∷ (4, response 200 true none [] none)
      ∷ [];
  sent = [];
  links = 0;
}

abbrev path : SubPath
path = cached 5 (codes "S01E02.en.srt")

first_subtitle :
    let r = get cfg ids 1 2 none start in
    (r.1 ≡ some path) × (r.0.quota ≡ some (record { date = 4; count = 1 })) × (length r.0.sent ≡ 5)
unfolding get codes
first_subtitle = (refl, refl, refl)

numeric_imdb_id-printed_example :
    (numeric_imdb_id (some (116 ∷ 116 ∷ printed 1086788)) ≡ some 1086788)
    × (numeric_imdb_id (some (printed 1086788)) ≡ some 1086788)
numeric_imdb_id-printed_example = numeric_imdb_id-printed 1086788

get-IsAccounted_example : IsAccounted 4 2 start (get cfg ids 1 2 none start).0
get-IsAccounted_example =
    get-IsAccounted 4 2 cfg ids 1 2 none start refl
      (refl, (refl, (refl, (refl, (refl, (refl, tt)))))) (omega arith)

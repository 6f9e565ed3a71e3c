-- ===== src/RefSubs/Quota.antt =====
-- src/impostarr/refsubs.py: the daily quota counts the download links that OpenSubtitles has given.
use impostarr.Prelude.{
  ℕ, zero, suc, ◌≤◌, ◌<◌, ◌+◌, Bool, true, false, Option, none, some, List, [], ◌∷◌, ◌≡◌, refl, ap,
  if◌then◌else◌, leb, ◌==◌, ==_iff, Bool-cases, inl, inr, arith,
}
use impostarr.RefSubs.{
  RefSubsConfig, SeriesExtIds, SubPath, QuotaData, post_download, get_link, Service, Outcome, gives,
  raises, fresh_quota, load_quota, reserve_quota, path_exists, language_order, manual_path,
}
use impostarr.RefSubs.Client.{send, authed_request}
use impostarr.RefSubs.Fetch.{
  search, download, save, after_download, after_search, when_reserved, fetch, or_language,
  cache_path, try_languages, or_manual, get_for, get_by_id, get,
}
use impostarr.RefSubs.Kept.{authed_request-keeps, search-keeps}
use impostarr.RefSubs.Spent.{
  IsOnDay, used, IsAccounted, IsReserved, send-IsReserved, send-IsAccounted, renew-IsReserved,
  release-IsAccounted, Linked, read_link-Linked, keep_file-IsAccounted,
}

module _ (d limit : ℕ) where
  after_download-IsAccounted :
      (before : Service) (path : SubPath) (x : Service × Outcome (Option (List ℕ)))
      → used d limit before < limit
      → Linked d limit before x
      → IsAccounted d limit before (after_download path x).0
  unfolding after_download Linked save
  after_download-IsAccounted before path (s, raises) w i =
      release-IsAccounted d limit before s (omega arith) i
  after_download-IsAccounted before path (s, gives none) w i =
      release-IsAccounted d limit before s (omega arith) i
  after_download-IsAccounted before path (s, gives (some link)) w i =
      keep_file-IsAccounted d limit before path (send (get_link link) s)
        (send-IsAccounted d limit before (get_link link) s i)

  after_search-IsAccounted :
      (before : Service) (path : SubPath) (x : Service × Outcome (Option ℕ))
      → used d limit before < limit
      → IsReserved d limit before x.0
      → IsAccounted d limit before (after_search path x).0
  unfolding after_search download
  after_search-IsAccounted before path (s, raises) w i =
      release-IsAccounted d limit before s (omega arith) i
  after_search-IsAccounted before path (s, gives none) w i =
      release-IsAccounted d limit before s (omega arith) i
  after_search-IsAccounted before path (s, gives (some id)) w i =
      after_download-IsAccounted before path _ w (
        read_link-Linked d limit before (authed_request (post_download id) s) w (
          authed_request-keeps (IsReserved d limit before) (send-IsReserved d limit before)
            (renew-IsReserved d limit before) (post_download id) s i))

  if_IsAccounted :
      (b : Bool) (s : Service) (path : Option SubPath) (x : Service × Option SubPath)
      → IsAccounted d limit s s
      → IsAccounted d limit s x.0
      → IsAccounted d limit s (if b then (s, path) else x).0
  if_IsAccounted true s path x i j = i
  if_IsAccounted false s path x i j = j

  flip_if :
      (b : Bool) (s : Service) (x : Service × Option SubPath)
      → IsAccounted d limit s s
      → IsAccounted d limit s x.0
      → IsAccounted d limit s (if b then x else (s, none)).0
  flip_if true s x i j = j
  flip_if false s x i j = i

  fresh-date : (q : Option QuotaData) → (fresh_quota d q).date ≡ d
  fresh-date none = refl
  fresh-date (some q) = elim (Bool-cases (q.date == d)) [
    | inl e ↦ rw e ((==_iff q.date d).0 e)
    | inr e ↦ rw e refl
  ]

  -- A reservation is made below the limit.
  abbrev Reservation : Service → Service × Bool → Type 0
  Reservation s (s', true) = IsReserved d limit s s' × (used d limit s < limit)
  Reservation s (s', false) = IsAccounted d limit s s'

  reserve-Reservation :
      (cfg : RefSubsConfig) (s : Service)
      → cfg.daily_quota ≡ limit
      → IsOnDay d limit s
      → used d limit s ≤ limit
      → Reservation s (reserve_quota cfg s)
  unfolding reserve_quota load_quota
  reserve-Reservation cfg s l i w =
      elim (Bool-cases (leb cfg.daily_quota (fresh_quota s.today s.quota).count)) [
        | inl e ↦ rw e (record { on_day = i; balance = omega arith; within = w })
        | inr e ↦
            let below : used d limit s < limit =
              let e' : leb limit (used d limit s) ≡ false = rw (l, i.0) at e in ground arith in
            rw e (
              record {
                on_day = i;
                reserved = rw i.0 (
                    ap (λ t. some (record { date = t; count = used d limit s + 1 }))
                      (fresh-date s.quota));
                no_link = refl;
              },
              below,
            )
      ]

  when_reserved-IsAccounted :
      (s : Service) (x : Service × Bool) (next : Service → Service × Option SubPath)
      → Reservation s x
      → ((s' : Service)
          → used d limit s < limit
          → IsReserved d limit s s'
          → IsAccounted d limit s (next s').0)
      → IsAccounted d limit s (when_reserved x next).0
  when_reserved-IsAccounted s (s', true) next r k = k s' r.1 r.0
  when_reserved-IsAccounted s (s', false) next r k = r

  fetch-IsAccounted :
      (cfg : RefSubsConfig) (ids : SeriesExtIds) (path : SubPath) (s : Service)
      → cfg.daily_quota ≡ limit
      → IsOnDay d limit s
      → used d limit s ≤ limit
      → IsAccounted d limit s (fetch cfg ids path s).0
  unfolding fetch
  fetch-IsAccounted cfg ids path s l i w =
      when_reserved-IsAccounted s (reserve_quota cfg s) (λ s1. after_search path (search ids s1))
        (reserve-Reservation cfg s l i w)
        (λ s' b r. after_search-IsAccounted s path (search ids s') b (
          search-keeps (IsReserved d limit s) (send-IsReserved d limit s)
            (renew-IsReserved d limit s) ids s' r))

  IsAccounted-trans :
      (a b c : Service)
      → IsAccounted d limit a b
      → IsAccounted d limit b c
      → IsAccounted d limit a c
  IsAccounted-trans a b c i j = record {
    on_day = j.on_day;
    balance = omega (arith, i.balance, j.balance);
    within = j.within;
  }

  or_language-IsAccounted :
      (s : Service) (x : Service × Option SubPath) (next : Service → Service × Option SubPath)
      → IsAccounted d limit s x.0
      → ((s' : Service)
          → IsOnDay d limit s'
          → used d limit s' ≤ limit
          → IsAccounted d limit s' (next s').0)
      → IsAccounted d limit s (or_language x next).0
  or_language-IsAccounted s (s', some p) next i k = i
  or_language-IsAccounted s (s', none) next i k =
      IsAccounted-trans s s' (next s').0 i (k s' i.on_day i.within)

  try_languages-IsAccounted :
      (cfg : RefSubsConfig) (ids : SeriesExtIds) (tvdb season episode : ℕ) (langs : List (List ℕ))
      (s : Service)
      → cfg.daily_quota ≡ limit
      → IsOnDay d limit s
      → used d limit s ≤ limit
      → IsAccounted d limit s (try_languages cfg ids tvdb season episode langs s).0
  unfolding try_languages
  try_languages-IsAccounted cfg ids tvdb season episode [] s l i w = record {
    on_day = i;
    balance = omega arith;
    within = w;
  }
  try_languages-IsAccounted cfg ids tvdb season episode (lang ∷ langs) s l i w =
      let path = cache_path tvdb season episode lang in
      or_language-IsAccounted s
        (if path_exists s path then (s, some path) else fetch cfg ids path s)
        (try_languages cfg ids tvdb season episode langs)
        (if_IsAccounted (path_exists s path) s (some path) _
          (record { on_day = i; balance = omega arith; within = w })
          (fetch-IsAccounted cfg ids path s l i w))
        (λ s' i' w'. try_languages-IsAccounted cfg ids tvdb season episode langs s' l i' w')

  or_manual-IsAccounted :
      (s : Service) (m : Option SubPath) (x : Service × Option SubPath)
      → IsAccounted d limit s s
      → IsAccounted d limit s x.0
      → IsAccounted d limit s (or_manual m s x).0
  or_manual-IsAccounted s (some p) x i j = i
  or_manual-IsAccounted s none x i j = j

  get_by_id-IsAccounted :
      (cfg : RefSubsConfig) (ids : SeriesExtIds) (tvdb : Option ℕ) (season episode : ℕ)
      (langs : List (List ℕ)) (s : Service)
      → cfg.daily_quota ≡ limit
      → IsOnDay d limit s
      → used d limit s ≤ limit
      → IsAccounted d limit s (get_by_id cfg ids tvdb season episode langs s).0
  unfolding get_by_id get_for
  get_by_id-IsAccounted cfg ids none season episode langs s l i w = record {
    on_day = i;
    balance = omega arith;
    within = w;
  }
  get_by_id-IsAccounted cfg ids (some zero) season episode langs s l i w = record {
    on_day = i;
    balance = omega arith;
    within = w;
  }
  get_by_id-IsAccounted cfg ids (some (suc n)) season episode langs s l i w =
      let unchanged : IsAccounted d limit s s = record {
        on_day = i;
        balance = omega arith;
        within = w;
      } in
      or_manual-IsAccounted s (manual_path cfg s (suc n) season episode langs) _ unchanged (
        flip_if cfg.has_cache_dir s _ unchanged
          (try_languages-IsAccounted cfg ids (suc n) season episode langs s l i w))

  -- On one day, with an answer to every request on that day, and with no more used d limit of the quota than
  -- its limit, a call of `get` uses one unit for each link that OpenSubtitles gives it and none for
  -- all that fails before, and never more than the limit.
  pub get-IsAccounted :
      (cfg : RefSubsConfig) (ids : SeriesExtIds) (season episode : ℕ) (language : Option (List ℕ))
      (s : Service)
      → cfg.daily_quota ≡ limit
      → IsOnDay d limit s
      → used d limit s ≤ limit
      → IsAccounted d limit s (get cfg ids season episode language s).0
  unfolding get
  get-IsAccounted cfg ids season episode language s l i w =
      get_by_id-IsAccounted cfg ids ids.tvdb season episode (language_order cfg language) s l i w

-- ===== src/RefSubs/Kept.antt =====
-- src/impostarr/refsubs.py: what every exchange with OpenSubtitles keeps, if a single request and a
-- new token keep it.
use impostarr.Prelude.{
  ℕ, zero, suc, Bool, true, false, Option, none, some, List, if◌then◌else◌, leb, ◌==◌,
}
use impostarr.RefSubs.{
  SeriesExtIds, Reply, http_error, response, Request, post_login, get_subtitles, Service, Outcome,
  gives, raises,
}
use impostarr.RefSubs.Client.{
  send, read_token, after_login, login_attempts, login, logged_in, ensure, ensure_login,
  retry_logged_in, relogin, after_attempt, request_attempts, when_logged_in, authed_request,
}
use impostarr.RefSubs.Fetch.{
  read_items, search_query, or_next, strategy, search, numeric_imdb_id, is_some, has_title,
}

-- Whichever the test, both keep it.
if_keeps :
    {A B : Type 0} (P : A → Type 0) (b : Bool) (x y : A × B)
    → P x.0
    → P y.0
    → P (if b then x else y).0
if_keeps P true x y p q = p
if_keeps P false x y p q = q

module _ (P : Service → Type 0) (sends : (q : Request) (s : Service) → P s → P (send q s).0)
    (renews : (t : Option (List ℕ)) (s : Service) → P s → P (record s { token = t })) where
  read_token-keeps :
      (s : Service) (status : ℕ) (is_json : Bool) (t : Option (List ℕ))
      → P s
      → P (read_token s status is_json t).0
  read_token-keeps s status is_json t p =
      if_keeps P (leb 400 status) _ _ p (if_keeps P is_json _ _ (renews t s p) p)

  after_login-keeps :
      (x : Service × Reply) (again : Service → Service × Outcome (Option (List ℕ)))
      → P x.0
      → ((s : Service) → P s → P (again s).0)
      → P (after_login x again).0
  after_login-keeps (s, http_error) again p k = p
  after_login-keeps (s, response status is_json t items link) again p k =
      if_keeps P (status == 429) _ _ (k s p) (read_token-keeps s status is_json t p)

  login_attempts-keeps : (n : ℕ) (s : Service) → P s → P (login_attempts n s).0
  unfolding login_attempts
  login_attempts-keeps zero s p = p
  login_attempts-keeps (suc n) s p =
      after_login-keeps (send post_login s) (login_attempts n) (sends post_login s p)
        (login_attempts-keeps n)

  logged_in-keeps : (x : Service × Outcome (Option (List ℕ))) → P x.0 → P (logged_in x).0
  logged_in-keeps (s, gives none) p = p
  logged_in-keeps (s, gives (some t)) p = p
  logged_in-keeps (s, raises) p = p

  login-keeps : (s : Service) → P s → P (logged_in (login s)).0
  unfolding login
  login-keeps s p = logged_in-keeps (login_attempts 2 s) (login_attempts-keeps 2 s p)

  ensure-keeps : (t : Option (List ℕ)) (s : Service) → P s → P (ensure t s).0
  ensure-keeps (some t) s p = p
  ensure-keeps none s p = login-keeps s p

  retry-keeps : (q : Request) (x : Service × Outcome Bool) → P x.0 → P (retry_logged_in q x).0
  retry-keeps q (s, gives true) p = sends q s p
  retry-keeps q (s, gives false) p = p
  retry-keeps q (s, raises) p = p

  relogin-keeps : (q : Request) (x : Service × Reply) → P x.0 → P (relogin q x).0
  relogin-keeps q (s, http_error) p = p
  relogin-keeps q (s, response status is_json t items link) p =
      if_keeps P (status == 401) _ _ (retry-keeps q (logged_in (login s)) (login-keeps s p)) p

  after_attempt-keeps :
      (x : Service × Outcome (Option Reply)) (again : Service → Service × Outcome (Option Reply))
      → P x.0
      → ((s : Service) → P s → P (again s).0)
      → P (after_attempt x again).0
  after_attempt-keeps (s, raises) again p k = p
  after_attempt-keeps (s, gives none) again p k = p
  after_attempt-keeps (s, gives (some http_error)) again p k = p
  after_attempt-keeps (s, gives (some (response status is_json t items link))) again p k =
      if_keeps P (status == 429) _ _ (k s p) (if_keeps P (leb 400 status) _ _ p p)

  request_attempts-keeps : (n : ℕ) (q : Request) (s : Service) → P s → P (request_attempts n q s).0
  unfolding request_attempts
  request_attempts-keeps zero q s p = p
  request_attempts-keeps (suc n) q s p =
      after_attempt-keeps (relogin q (send q s)) (request_attempts n q)
        (relogin-keeps q (send q s) (sends q s p)) (request_attempts-keeps n q)

  when_logged_in-keeps :
      (x : Service × Outcome Bool) (next : Service → Service × Outcome (Option Reply))
      → P x.0
      → ((s : Service) → P s → P (next s).0)
      → P (when_logged_in x next).0
  when_logged_in-keeps (s, gives true) next p k = k s p
  when_logged_in-keeps (s, gives false) next p k = p
  when_logged_in-keeps (s, raises) next p k = p

  pub authed_request-keeps : (q : Request) (s : Service) → P s → P (authed_request q s).0
  unfolding authed_request ensure_login
  authed_request-keeps q s p =
      when_logged_in-keeps (ensure s.token s) (request_attempts 2 q) (ensure-keeps s.token s p)
        (request_attempts-keeps 2 q)

  read_items-keeps : (x : Service × Outcome (Option Reply)) → P x.0 → P (read_items x).0
  read_items-keeps (s, raises) p = p
  read_items-keeps (s, gives none) p = p
  read_items-keeps (s, gives (some http_error)) p = p
  read_items-keeps (s, gives (some (response status is_json t items link))) p =
      if_keeps P is_json _ _ p p

  strategy-keeps : (b : Bool) (s : Service) → P s → P (strategy b s).0
  unfolding search_query
  strategy-keeps true s p =
      read_items-keeps (authed_request get_subtitles s) (authed_request-keeps get_subtitles s p)
  strategy-keeps false s p = p

  or_next-keeps :
      (x : Service × Outcome (Option ℕ)) (next : Service → Service × Outcome (Option ℕ))
      → P x.0
      → ((s : Service) → P s → P (next s).0)
      → P (or_next x next).0
  or_next-keeps (s, raises) next p k = p
  or_next-keeps (s, gives none) next p k = k s p
  or_next-keeps (s, gives (some id)) next p k = p

  pub search-keeps : (ids : SeriesExtIds) (s : Service) → P s → P (search ids s).0
  unfolding search
  search-keeps ids s p =
      or_next-keeps (strategy (is_some (numeric_imdb_id ids.imdb)) s) _ (strategy-keeps _ s p)
        λ s1 p1.
          or_next-keeps (strategy (is_some ids.tvdb) s1) _ (strategy-keeps _ s1 p1)
            λ s2 p2. strategy-keeps (has_title ids.title) s2 p2

-- ===== src/RefSubs/Client.antt =====
-- src/impostarr/refsubs.py: the requests to OpenSubtitles, with their logins and retries.
use impostarr.Prelude.{
  ℕ, zero, suc, Bool, true, false, Option, none, some, List, [], ◌∷◌, ◌++◌, leb, ◌==◌,
  if◌then◌else◌,
}
use impostarr.RefSubs.{
  Reply, http_error, response, Request, post_login, Service, Outcome, gives, raises,
}

-- The next answer, and the date on which it comes; after the last one the other side is silent.
abbrev pub take_reply : Service → List (ℕ × Reply) → Service × Reply
take_reply s [] = (s, http_error)
take_reply s ((day, reply) ∷ rest) = (record s { replies = rest; today = day }, reply)

-- `_paced_request`, and the GET of a link.
unfoldable pub send : Request → Service → Service × Reply
send request s = take_reply (record s { sent = s.sent ++ request ∷ [] }) s.replies

-- A response of a login that is no 429 has the token, or none.
abbrev pub read_token : Service → ℕ → Bool → Option (List ℕ) → Service × Outcome (Option (List ℕ))
read_token s status is_json token =
    if leb 400 status
    then (s, gives none)
    else if is_json
    then (record s { token = token }, gives token)
    else (s, raises)

abbrev pub after_login :
    Service × Reply
    → (Service → Service × Outcome (Option (List ℕ)))
    → Service × Outcome (Option (List ℕ))
after_login (s, http_error) again = (s, gives none)
after_login (s, response status is_json token items link) again =
    if status == 429 then again s else read_token s status is_json token

-- The loop of `_login`, for a number of attempts: the last one gives up at a 429.
unfoldable pub login_attempts : ℕ → Service → Service × Outcome (Option (List ℕ))
unfolding send
login_attempts zero s = (s, gives none)
login_attempts (suc n) s = after_login (send post_login s) (login_attempts n)

-- `_login`
unfoldable pub login : Service → Service × Outcome (Option (List ℕ))
unfolding login_attempts
login = login_attempts 2

abbrev pub logged_in : Service × Outcome (Option (List ℕ)) → Service × Outcome Bool
logged_in (s, gives none) = (s, gives false)
logged_in (s, gives (some token)) = (s, gives true)
logged_in (s, raises) = (s, raises)

abbrev pub ensure : Option (List ℕ) → Service → Service × Outcome Bool
ensure (some token) s = (s, gives true)
ensure none s = logged_in (login s)

-- `_ensure_login`
unfoldable pub ensure_login : Service → Service × Outcome Bool
unfolding login
ensure_login s = ensure s.token s

-- A 401 is answered by a login and the same request again; `none` gives up.
abbrev pub retry_logged_in : Request → Service × Outcome Bool → Service × Outcome (Option Reply)
retry_logged_in request (s, gives true) =
    let (s', reply) = send request s in (s', gives (some reply))
retry_logged_in request (s, gives false) = (s, gives none)
retry_logged_in request (s, raises) = (s, raises)

abbrev pub relogin : Request → Service × Reply → Service × Outcome (Option Reply)
relogin request (s, http_error) = (s, gives none)
relogin request (s, response status is_json token items link) =
    if status == 401
    then retry_logged_in request (logged_in (login s))
    else (s, gives (some (response status is_json token items link)))

-- What an attempt's answer leads to: another attempt, a response, or none.
abbrev pub after_attempt :
    Service × Outcome (Option Reply)
    → (Service → Service × Outcome (Option Reply))
    → Service × Outcome (Option Reply)
after_attempt (s, raises) again = (s, raises)
after_attempt (s, gives none) again = (s, gives none)
after_attempt (s, gives (some http_error)) again = (s, gives none)
after_attempt (s, gives (some (response status is_json token items link))) again =
    if status == 429
    then again s
    else if leb 400 status
    then (s, gives none)
    else (s, gives (some (response status is_json token items link)))

-- The loop of `_authed_request`, for a number of attempts.
unfoldable pub request_attempts : ℕ → Request → Service → Service × Outcome (Option Reply)
unfolding send login
request_attempts zero request s = (s, gives none)
request_attempts (suc n) request s =
    after_attempt (relogin request (send request s)) (request_attempts n request)

abbrev pub when_logged_in :
    Service × Outcome Bool
    → (Service → Service × Outcome (Option Reply))
    → Service × Outcome (Option Reply)
when_logged_in (s, gives true) next = next s
when_logged_in (s, gives false) next = (s, gives none)
when_logged_in (s, raises) next = (s, raises)

-- `_authed_request`
unfoldable pub authed_request : Request → Service → Service × Outcome (Option Reply)
unfolding request_attempts ensure_login
authed_request request s = when_logged_in (ensure_login s) (request_attempts 2 request)

-- ===== src/Jobs/Calls.antt =====
-- Sequences of calls of src/impostarr/jobs.py from workers and the API, and how the repository
-- makes them: worker.py and pipeline.py release to a terminal status, api/routes.py judges jobs in
-- review. A call that raises leaves the table as it was. The calls follow each other; what is
-- committed between the statements of one is an argument of the call itself.
use impostarr.Prelude.{ℕ, String, ◌≡◌, Bool, true, Option, none, some, List, [], ◌∷◌, any}
use impostarr.Jobs.Rows.{Status, Row, is, matched, quarantine, inconclusive}
use impostarr.Jobs.{
  terminal_statuses, create_job, claim_next, heartbeat, release, reap_stale, park, unpark, requeue,
  claim_for_api, set_status_checked,
}
use impostarr.Jobs.Update.{committed}

-- The statuses that await human review: `VERDICT_ALLOWED_STATUSES` of api/routes.py.
abbrev pub review_statuses : List Status
review_statuses = quarantine ∷ inconclusive ∷ []

-- The target of a human verdict in `post_verdict` of api/routes.py.
abbrev pub verdict_statuses : List Status
verdict_statuses = matched ∷ quarantine ∷ inconclusive ∷ []

-- A call with its arguments; a `Row` is the caller's copy of the job, of any age.
pub data Call : Type 0 where
  create : ℕ → ℕ → Bool → Call
  claim : ℕ → String → Call
  beat : Row → ℕ → String → Call
  finish : Row → Status → String → Call
  reap_before : ℕ → Call
  hold_back : Row → Call
  let_go : Row → Call
  rerun : Row → Call
  approve : Row → ℕ → String → Call
  regrab : Row → ℕ → String → Call
  judge : Row → Status → Status → Call

pub after_claim : List Row → Option (List Row × Option Row) → List Row
after_claim rows none = rows
after_claim rows (some (rows', _)) = rows'

-- The table after a call.
unfoldable pub step : List Row → Call → List Row
unfolding after_claim
step rows (create now file_id parked) = (create_job rows now file_id parked).0
step rows (claim now worker) = after_claim rows (claim_next ((λ xs. xs) ∷ []) rows now worker)
step rows (beat job now worker) = committed rows (heartbeat rows job now worker)
step rows (finish job new worker) = committed rows (release rows job new worker)
step rows (reap_before cutoff) = (reap_stale (λ xs. xs) rows cutoff).0
step rows (hold_back job) = committed rows (park rows job)
step rows (let_go job) = committed rows (unpark rows job)
step rows (rerun job) = committed rows (requeue rows job)
step rows (approve job now worker) =
    committed rows (claim_for_api rows job now worker (quarantine ∷ []))
step rows (regrab job now worker) =
    committed rows (claim_for_api rows job now worker review_statuses)
step rows (judge job new expected) = committed rows (set_status_checked rows job new expected)

unfoldable pub run : List Row → List Call → List Row
run rows [] = rows
run rows (c ∷ cs) = run (step rows c) cs

-- The arguments that the repository's callers pass.
abbrev pub IsMade : Call → Type 0
IsMade (finish job new worker) = any (is new) terminal_statuses ≡ true
IsMade (judge job new expected) =
    (any (is new) verdict_statuses ≡ true) × (any (is expected) review_statuses ≡ true)
IsMade _ = Unit

-- ===== src/Jobs.antt =====
-- src/impostarr/jobs.py and the Job table of src/impostarr/models.py: the rows and the queue's
-- state machine. A session call is a function on the rows of the table; a call that raises has
-- rolled back, so an error result carries no rows. The `job` argument of a call is the caller's
-- copy of a row, which may be stale. Times are numbers of ticks. `updated_at` is left out, and so
-- are the `result_fields` of `release`, which no caller passes.
pub mod Rows
mod Update
pub mod Claim
pub mod Calls
pub mod Soundness
pub mod Fencing
pub mod Settled
mod Tests
use impostarr.Prelude.{
  ℕ, suc, ◌+◌, String, Bool, true, false, not, ◌&&◌, Option, none, some, List, [], ◌∷◌, ◌++◌, map,
  str_eq, ltb, ◌==◌, if◌then◌else◌, any, count,
}
use impostarr.Jobs.Rows.{
  Status, hold, pending, active, matched, quarantine, inconclusive, error, remediated, is, Row,
  next_id, before,
}

-- `MAX_ATTEMPTS`
abbrev pub max_attempts : ℕ
max_attempts = 3

-- `TERMINAL_STATUSES`
abbrev pub terminal_statuses : List Status
terminal_statuses = matched ∷ quarantine ∷ inconclusive ∷ error ∷ remediated ∷ []

-- `VALID_TRANSITIONS`; a status with no entry has no way out.
abbrev pub valid_transitions : Status → List Status
valid_transitions hold = pending ∷ []
valid_transitions pending = hold ∷ active ∷ []
valid_transitions active = pending ∷ terminal_statuses
valid_transitions matched = pending ∷ []
valid_transitions quarantine = pending ∷ active ∷ matched ∷ quarantine ∷ inconclusive ∷ []
valid_transitions inconclusive = pending ∷ active ∷ matched ∷ quarantine ∷ inconclusive ∷ []
valid_transitions error = pending ∷ []
valid_transitions remediated = []

pub data Result {ℓ} (A : Type ℓ) : Type ℓ where
  ok : A → Result A
  invalid_transition : Result A
  lease_lost : Result A

-- `new_status in allowed`
abbrev pub check_transition : Status → Status → Bool
check_transition from new = any (is new) (valid_transitions from)

-- The rows that an UPDATE selects are rewritten, and `rowcount` is their number.
unfoldable pub update : (Row → Bool) → (Row → Row) → List Row → List Row
update p f = map (λ r. if p r then f r else r)

-- An UPDATE whose rowcount is 0 is rolled back and raises.
pub fenced :
    (Row → Bool) → (Row → Row) → Result (List Row × Row) → List Row → Row → Result (List Row × Row)
fenced p f failed rows job = if count p rows == 0 then failed else ok (update p f rows, f job)

-- `Job.claimed_by == worker_id`; a NULL is equal to nothing.
abbrev pub claimed : String → Row → Bool
claimed worker r = elim r.claimed_by [ none ↦ false | some w ↦ str_eq w worker ]

abbrev pub lease : String → ℕ → Row → Row
lease worker now r = record r {
  status = active;
  claimed_by = some worker;
  claimed_at = some now;
  heartbeat_at = some now;
}

-- The status with the lease fields cleared.
abbrev pub settle : Status → Row → Row
settle new r = record r { status = new; claimed_by = none; claimed_at = none; heartbeat_at = none }

unfoldable pub create_job : List Row → ℕ → ℕ → Bool → List Row × Row
create_job rows now file_id parked =
    let job : Row = record {
      id = next_id rows;
      file_id = file_id;
      status = if parked then hold else pending;
      attempts = 0;
      claimed_by = none;
      claimed_at = none;
      heartbeat_at = none;
      created_at = now;
    } in
    (rows ++ job ∷ [], job)

older : Row → Option Row → Option Row
older r none = some r
older r (some q) = if before r q then some r else some q

-- The SELECT of `claim_next`: the pending row that is first by (created_at, id).
unfoldable pub select_next : List Row → Option Row
unfolding older
select_next [] = none
select_next (r ∷ rs) = if is r.status pending then older r (select_next rs) else select_next rs

abbrev pub claimable : Row → Row → Bool
claimable job r = r.id == job.id && is r.status pending

-- One round of the loop for each element of `races`, which is what other sessions commit between
-- that round's SELECT and its UPDATE. A round whose UPDATE matches no row is rolled back and
-- retried. `none`: the loop is still running when the list ends.
unfoldable pub claim_next :
    List (List Row → List Row) → List Row → ℕ → String → Option (List Row × Option Row)
claim_next [] rows now worker = none
claim_next (race ∷ races) rows now worker =
    let retry = claim_next races (race rows) now worker in
    elim (select_next rows) [
      | none ↦ some (rows, none)
      | some job ↦
          if count (claimable job) (race rows) == 0
          then retry
          else some
              (update (claimable job) (lease worker now) (race rows), some (lease worker now job))
    ]

abbrev pub leased : Row → String → Row → Bool
leased job worker r = r.id == job.id && is r.status active && claimed worker r

unfoldable pub heartbeat : List Row → Row → ℕ → String → Result (List Row × Row)
unfolding fenced
heartbeat rows job now worker =
    fenced (leased job worker) (λ r. record r { heartbeat_at = some now }) lease_lost rows job

unfoldable pub release : List Row → Row → Status → String → Result (List Row × Row)
unfolding fenced
release rows job new worker =
    if check_transition job.status new
    then fenced (leased job worker) (settle new) lease_lost rows job
    else invalid_transition

-- `Job.heartbeat_at < cutoff`, which no NULL satisfies.
abbrev pub stale : ℕ → Row → Bool
stale cutoff r = is r.status active && elim r.heartbeat_at [ none ↦ false | some t ↦ ltb t cutoff ]

-- What is written over a row, from the copy that the SELECT has loaded.
abbrev pub reap_from : Row → Row → Row
reap_from copy r =
    let attempts = copy.attempts + 1 in
    record (settle (if ltb max_attempts attempts then error else pending) r) { attempts = attempts }

abbrev pub reap : Row → Row
reap r = reap_from r r

-- The flush writes each copy that was stale at its primary key, whatever the row is by then; a row
-- keeps its place in the table.
unfoldable pub flush_reaped : ℕ → List Row → List Row → List Row
flush_reaped cutoff [] rows = rows
flush_reaped cutoff (copy ∷ copies) [] = []
flush_reaped cutoff (copy ∷ copies) (r ∷ rs) =
    (if stale cutoff copy then reap_from copy r else r) ∷ flush_reaped cutoff copies rs

-- `cutoff` is the time `lease_timeout_s` ago; `race` is what other sessions commit between the SELECT
-- and the flush.
unfoldable pub reap_stale : (List Row → List Row) → List Row → ℕ → List Row × ℕ
unfolding flush_reaped
reap_stale race rows cutoff = (flush_reaped cutoff rows (race rows), count (stale cutoff) rows)

abbrev pub has_status : Row → Status → Row → Bool
has_status job s r = r.id == job.id && is r.status s

abbrev pub set_status : Status → Row → Row
set_status new r = record r { status = new }

unfoldable pub park : List Row → Row → Result (List Row × Row)
unfolding fenced
park rows job =
    if check_transition job.status hold
    then fenced (has_status job pending) (set_status hold) invalid_transition rows job
    else invalid_transition

unfoldable pub unpark : List Row → Row → Result (List Row × Row)
unfolding fenced
unpark rows job =
    if check_transition job.status pending
    then fenced (has_status job hold) (set_status pending) invalid_transition rows job
    else invalid_transition

abbrev pub restart : Row → Row
restart r = record (settle pending r) { attempts = 0 }

unfoldable pub requeue : List Row → Row → Result (List Row × Row)
unfolding fenced
requeue rows job =
    if check_transition job.status pending
    then fenced (has_status job job.status) restart invalid_transition rows job
    else invalid_transition

unfoldable pub claim_for_api : List Row → Row → ℕ → String → List Status → Result (List Row × Row)
unfolding fenced
claim_for_api rows job now worker from_statuses =
    if check_transition job.status active
    then fenced (λ r. r.id == job.id && any (is r.status) from_statuses) (lease worker now)
        invalid_transition rows job
    else invalid_transition

unfoldable pub set_status_checked : List Row → Row → Status → Status → Result (List Row × Row)
unfolding fenced
set_status_checked rows job new expected =
    if check_transition expected new
    then fenced (has_status job expected) (set_status new) invalid_transition rows job
    else invalid_transition

-- ===== src/Jobs/Fencing.antt =====
-- The lease fence of `heartbeat` and `release` in src/impostarr/jobs.py: who may touch a row, and
-- what a worker whose lease is gone can do.
use impostarr.Prelude.{
  ℕ, ◌+◌, ◌≤◌, ◌<◌, String, ◌≡◌, refl, ◌⊎◌, Bool, true, false, List, [], ◌∷◌, arith, str_eq, ◌==◌,
  if◌then◌else◌, count,
}
use impostarr.Jobs.Rows.{Status, Row}
use impostarr.Jobs.{
  ok, invalid_transition, lease_lost, heartbeat, release, update, claimable, lease, leased, settle,
  check_transition,
}

-- The rows of a job's id.
abbrev pub same_id : Row → Row → Bool
same_id job r = r.id == job.id

-- What the fence lets through: some row of the job is active and claimed by the worker.
abbrev pub Holds : List Row → Row → String → Type 0
Holds rows job worker = 0 < count (leased job worker) rows

-- `release` by cases: a transition that is not valid is refused first, whoever asks; a worker that
-- does not hold the lease is refused next; and only a holder writes, its own rows and no others.
pub release_outcomes :
    (rows : List Row) (job : Row) (new : Status) (worker : String)
    → ((check_transition job.status new ≡ false)
        × (release rows job new worker ≡ invalid_transition))
      ⊎ ((check_transition job.status new ≡ true)
          × (¬ Holds rows job worker)
          × (release rows job new worker ≡ lease_lost))
      ⊎ ((check_transition job.status new ≡ true)
          × Holds rows job worker
          × (release rows job new worker
              ≡ ok (update (leased job worker) (settle new) rows, settle new job)))
unfolding release
release_outcomes rows job new worker = ground arith

pub heartbeat_lost :
    (rows : List Row) (job : Row) (now : ℕ) (worker : String)
    → count (leased job worker) rows ≡ 0
    → heartbeat rows job now worker ≡ lease_lost
unfolding heartbeat
heartbeat_lost rows job now worker h = rw h

pub release_lost :
    (rows : List Row) (job : Row) (new : Status) (worker : String)
    → check_transition job.status new ≡ true
    → count (leased job worker) rows ≡ 0
    → release rows job new worker ≡ lease_lost
unfolding release
release_lost rows job new worker c h = rw (c, h)

-- In each row the new holder takes the place of the old.
module _ (p : Row → Bool) (f : Row → Row) (job : Row) (worker : String)
    (takes : (r : Row)
      → (if leased job worker (if p r then f r else r) then 1 else 0) + (if p r then 1 else 0)
        ≤ (if same_id job r then 1 else 0)) where
  taken :
      (rows : List Row)
      → count (leased job worker) (update p f rows) + count p rows ≤ count (same_id job) rows
  unfolding update
  taken [] = omega arith
  taken (r ∷ rs) = ground (arith, takes r, taken rs)

-- Once a job, of which the table has one row, has been claimed by another worker, the earlier
-- holder's heartbeat and its release, from any copy of the job that may be released, are refused.
pub claim-fences_old_holder :
    (rows : List Row) (job : Row) (now later : ℕ) (new : Status) (old worker : String)
    → str_eq worker old ≡ false
    → count (same_id job) rows ≡ 1
    → 0 < count (claimable job) rows
    → check_transition job.status new ≡ true
    → let rows' = update (claimable job) (lease worker now) rows in
      (heartbeat rows' job later old ≡ lease_lost) × (release rows' job new old ≡ lease_lost)
claim-fences_old_holder rows job now later new old worker ne one hit c =
    let gone : count (leased job old) (update (claimable job) (lease worker now) rows) ≡ 0 = omega (
      arith,
      taken (claimable job) (lease worker now) job old (λ r. ground (arith, ne)) rows,
      hit,
      one,
    ) in
    (heartbeat_lost _ job later old gone, release_lost _ job new old c gone)

-- The rows that a worker lets go of are not claimed by it any more.
released_none :
    (job copy : Row) (new : Status) (worker : String)
    → copy.id ≡ job.id
    → (rows : List Row)
    → count (leased copy worker) (update (leased job worker) (settle new) rows) ≡ 0
unfolding update
released_none job copy new worker same [] = refl
released_none job copy new worker same (r ∷ rs) =
    ground (arith, released_none job copy new worker same rs)

released_rows :
    (rows rows' : List Row) (job job' : Row) (new : Status) (worker : String)
    → release rows job new worker ≡ ok (rows', job')
    → update (leased job worker) (settle new) rows ≡ rows'
unfolding release
released_rows rows rows' job job' new worker e = ground arith

-- Settling rows gives no one a lease.
settled_none :
    (p : Row → Bool) (job : Row) (new : Status) (worker : String) (rows : List Row)
    → count (leased job worker) rows ≡ 0
    → count (leased job worker) (update p (settle new) rows) ≡ 0
unfolding update
settled_none p job new worker [] h = refl
settled_none p job new worker (r ∷ rs) h = ground (arith, settled_none p job new worker rs)

-- So does a release, whatever copy it is made from.
pub release_none :
    (rows rows' : List Row) (job copy copy' : Row) (new : Status) (worker : String)
    → release rows copy new worker ≡ ok (rows', copy')
    → count (leased job worker) rows ≡ 0
    → count (leased job worker) rows' ≡ 0
release_none rows rows' job copy copy' new worker e h =
    rw (← released_rows rows rows' copy copy' new worker e)
      (settled_none (leased copy worker) job new worker rows h)

pub release-lets_go :
    (rows rows' : List Row) (job job' : Row) (new : Status) (worker : String)
    → release rows job new worker ≡ ok (rows', job')
    → count (leased job worker) rows' ≡ 0
release-lets_go rows rows' job job' new worker e =
    rw (← released_rows rows rows' job job' new worker e)
      (released_none job job new worker refl rows)

pub release_held :
    (rows : List Row) (job : Row) (new : Status) (worker : String)
    → check_transition job.status new ≡ true
    → Holds rows job worker
    → release rows job new worker
      ≡ ok (update (leased job worker) (settle new) rows, settle new job)
unfolding release
release_held rows job new worker c h = ground arith

-- A worker that has released a job holds it no more: from any copy of the job, its next heartbeat
-- is refused, and so is a second release to a status that the copy may move to.
pub release-once :
    (rows rows' : List Row) (job job' copy : Row) (new next : Status) (later : ℕ) (worker : String)
    → release rows job new worker ≡ ok (rows', job')
    → copy.id ≡ job.id
    → check_transition copy.status next ≡ true
    → (heartbeat rows' copy later worker ≡ lease_lost)
      × (release rows' copy next worker ≡ lease_lost)
release-once rows rows' job job' copy new next later worker e same c =
    let gone : count (leased copy worker) rows' ≡ 0 =
      rw (← released_rows rows rows' job job' new worker e)
        (released_none job copy new worker same rows) in
    (heartbeat_lost rows' copy later worker gone, release_lost rows' copy next worker c gone)

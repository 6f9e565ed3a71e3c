-- ===== src/Jobs/Settled.antt =====
-- Where a job of src/impostarr/jobs.py comes to rest, and what `requeue` does to a leased job.
use impostarr.Prelude.{ℕ, ◌≤◌, ◌<◌, String, ◌≡◌, refl, true, List, [], ◌∷◌, arith, count}
use impostarr.Jobs.Rows.{Status, Row, active, remediated}
use impostarr.Jobs.{
  ok, lease_lost, heartbeat, release, requeue, update, leased, restart, has_status,
  check_transition,
}
use impostarr.Jobs.Fencing.{heartbeat_lost, release_lost}

-- A remediated row stays so.
abbrev pub Stays : Row → Row → Type 0
Stays r s = r.status ≡ remediated → s.status ≡ remediated

rerun_none :
    (job : Row) (worker : String)
    → job.status ≡ active
    → (rows : List Row)
    → count (leased job worker) (update (has_status job job.status) restart rows) ≡ 0
unfolding update
rerun_none job worker a [] = refl
rerun_none job worker a (r ∷ rs) = ground (arith, rerun_none job worker a rs)

requeue_hits :
    (rows : List Row) (job : Row)
    → job.status ≡ active
    → 0 < count (has_status job job.status) rows
    → requeue rows job ≡ ok (update (has_status job job.status) restart rows, restart job)
unfolding requeue
requeue_hits rows job a h = ground arith

held :
    (rows : List Row) (job : Row) (worker : String)
    → job.status ≡ active
    → count (leased job worker) rows ≤ count (has_status job job.status) rows
held [] job worker a = omega arith
held (r ∷ rs) job worker a = ground (arith, held rs job worker a)

-- `requeue` does not refuse a job that is active: it takes the lease away from the worker that is
-- processing the job, whose heartbeat and release then fail.
pub requeue-steals :
    (rows : List Row) (job : Row) (worker : String) (new : Status) (later : ℕ)
    → job.status ≡ active
    → 0 < count (leased job worker) rows
    → check_transition job.status new ≡ true
    → (rows' : List Row) × (job' : Row) × (requeue rows job ≡ ok (rows', job'))
      × (heartbeat rows' job later worker ≡ lease_lost)
      × (release rows' job new worker ≡ lease_lost)
requeue-steals rows job worker new later a h c =
    let rows' = update (has_status job job.status) restart rows in
    let gone = rerun_none job worker a rows in
    (
      rows',
      restart job,
      requeue_hits rows job a (omega (arith, h, held rows job worker a)),
      heartbeat_lost rows' job later worker gone,
      release_lost rows' job new worker c gone,
    )

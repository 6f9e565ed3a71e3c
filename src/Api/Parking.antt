-- ===== src/Api/Parking.antt =====
-- `park_job` and `unpark_job` of src/impostarr/api/routes.py.
use impostarr.Prelude.{
  ℕ, ◌<◌, ◌≡◌, refl, ap, inl, inr, Bool, true, false, Bool-cases, ==_iff, some, List, [], ◌∷◌,
  arith, ◌==◌, count,
}
use impostarr.Jobs.Rows.{Row, Status, hold, pending}
use impostarr.Jobs.{ok, park, unpark, update, has_status, set_status}
use impostarr.Api.{
  Tables, result, job_in, publish, after_transition, transition_endpoint, park_job, unpark_job,
}

abbrev pub has_id : ℕ → Row → Bool
has_id id r = r.id == id

none_there :
    (rows : List Row) (job : Row) (p : Status)
    → count (has_id job.id) rows ≡ 0
    → (update (has_status job p) (set_status hold) rows ≡ rows)
      × (update (has_status job hold) (set_status pending) rows ≡ rows)
unfolding update
none_there [] job p h = (refl, refl)
none_there (r ∷ rs) job p h =
    (ground (arith, none_there rs job p), ground (arith, none_there rs job p))

some_eq : (r job : Row) → some r ≡ some job → r ≡ job
some_eq r job e = cc

repaid : (r : Row) → r.status ≡ pending → set_status pending (set_status hold r) ≡ r
repaid r e = rw (← e) refl

-- The rows are parked and unparked.
abbrev Parks : Row → List Row → Type 0
Parks job rows =
    let rows1 = update (has_status job pending) (set_status hold) rows in
    (0 < count (has_status job pending) rows)
    × (job_in rows1 job.id ≡ some (set_status hold job))
    × (0 < count (has_status job hold) rows1)
    × (update (has_status job hold) (set_status pending) rows1 ≡ rows)

own-Parks :
    (job : Row) (rows : List Row)
    → job.status ≡ pending
    → count (has_id job.id) rows ≡ 0
    → Parks job (job ∷ rows)
unfolding update job_in
own-Parks job rows e h =
    let (kept, back) = none_there rows job pending h in
    let same : (job.id == job.id) ≡ true = (==_iff job.id job.id).1 refl in
    let waits : has_status job pending job ≡ true = rw (same, e) refl in
    let parked : has_status job hold (set_status hold job) ≡ true = rw same refl in
    rw (waits, parked, same, kept, back, repaid job e) (omega arith, refl, omega arith, refl)

other-Parks :
    (job r : Row) (rows : List Row)
    → (r.id == job.id) ≡ false
    → Parks job rows
    → Parks job (r ∷ rows)
unfolding update job_in
other-Parks job r rows e h =
    let waits : has_status job pending r ≡ false = rw e refl in
    let parked : has_status job hold r ≡ false = rw e refl in
    rw (waits, parked, e) (h.0, h.1, h.2, ap (λ rs. r ∷ rs) h.3)

pending-Parks :
    (job : Row) (rows : List Row)
    → job.status ≡ pending
    → job_in rows job.id ≡ some job
    → count (has_id job.id) rows ≡ 1
    → Parks job rows
unfolding job_in
pending-Parks job [] e found one = absurd cc
pending-Parks job (r ∷ rs) e found one = elim (Bool-cases (r.id == job.id)) [
  | inl own ↦
      let same : r ≡ job = some_eq r job (ground (arith, own, found)) in
      rw same (own-Parks job rs e (ground (arith, own, one)))
  | inr other ↦
      other-Parks job r rs other
        (pending-Parks job rs e (ground (arith, other, found)) (ground (arith, other, one)))
]

park_hits :
    (rows : List Row) (job : Row)
    → job.status ≡ pending
    → 0 < count (has_status job pending) rows
    → park rows job
      ≡ ok (update (has_status job pending) (set_status hold) rows, set_status hold job)
unfolding park
park_hits rows job e hit = ground arith

unpark_hits :
    (rows : List Row) (job : Row)
    → job.status ≡ hold
    → 0 < count (has_status job hold) rows
    → unpark rows job
      ≡ ok (update (has_status job hold) (set_status pending) rows, set_status pending job)
unfolding unpark
unpark_hits rows job e hit = ground arith

-- The tables after the job is parked.
abbrev pub parked_tables : Row → Tables → Tables
parked_tables job t =
    publish job.id hold
      (record t { jobs = update (has_status job pending) (set_status hold) t.jobs })

module _ (job : Row) (t : Tables) (is_pending : job.status ≡ pending)
    (found : job_in t.jobs job.id ≡ some job) (one : count (has_id job.id) t.jobs ≡ 1) where
  -- A pending job, whose id no other row has, can be parked and then unparked, while nothing else
  -- happens: the replies are its statuses, and the jobs are as they were.
  pub park_job-unpark_job :
      (park_job (λ w. w) job.id t ≡ (parked_tables job t, result hold))
      × (unpark_job (λ w. w) job.id (parked_tables job t) ≡ (
        publish job.id pending (record (parked_tables job t) { jobs = t.jobs }),
        result pending,
      ))
  unfolding park_job unpark_job transition_endpoint after_transition
  park_job-unpark_job =
      let rows1 = update (has_status job pending) (set_status hold) t.jobs in
      let (waits, held, parked, back) = pending-Parks job t.jobs is_pending found one in
      (
        rw (found, park_hits t.jobs job is_pending waits) refl,
        rw (held, unpark_hits rows1 (set_status hold job) refl parked, back) refl,
      )

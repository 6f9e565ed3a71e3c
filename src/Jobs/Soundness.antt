-- ===== src/Jobs/Soundness.antt =====
-- What every sequence of calls of src/impostarr/jobs.py keeps true of each row, and how the status
-- of a row may change.
use impostarr.Prelude.{
  ℕ, ◌+◌, ◌≤◌, String, ◌≡◌, refl, ◌⊎◌, inl, inr, Bool, true, false, ◌&&◌, Option, none, some, List,
  [], ◌∷◌, arith, ◌==◌, if◌then◌else◌, Bool-cases, Option-cases, All, All-append, any, count,
}
use impostarr.Jobs.Rows.{Status, Row, is, active, pending, quarantine, hold, error}
use impostarr.Jobs.{
  Result, invalid_transition, lease_lost, create_job, claim_next, select_next, heartbeat, release,
  reap_stale, reap, stale, park, unpark, requeue, claim_for_api, set_status_checked, update, fenced,
  claimable, lease, leased, settle, restart, has_status, set_status, check_transition, max_attempts,
  terminal_statuses,
}
use impostarr.Jobs.Update.{
  flush_reaped-alone, Tracks, Tracks-refl, Tracks-append, update-All, update-Tracks, fenced-All,
  fenced-Tracks, committed,
}
use impostarr.Jobs.Calls.{
  Call, create, claim, beat, finish, reap_before, hold_back, let_go, rerun, approve, regrab, judge,
  step, run, IsMade, review_statuses,
}

abbrev pub is_some {ℓ} : {A : Type ℓ} → Option A → Bool
is_some none = false
is_some (some _) = true

-- A row holds a lease exactly while it is active, and is given up after `max_attempts` requeues.
pub record IsSound (r : Row) : Type 0 where
  pub claimed : is_some r.claimed_by ≡ is r.status active
  pub since : is_some r.claimed_at ≡ is r.status active
  pub beating : is_some r.heartbeat_at ≡ is r.status active
  pub tried : r.attempts ≤ max_attempts + (if is r.status error then 1 else 0)

-- A status stays or moves along an edge of `VALID_TRANSITIONS`; the row keeps its identity.
pub record Moves (r s : Row) : Type 0 where
  pub id : r.id ≡ s.id
  pub file_id : r.file_id ≡ s.file_id
  pub created_at : r.created_at ≡ s.created_at
  pub status : (r.status ≡ s.status) ⊎ (check_transition r.status s.status ≡ true)

Moves-refl : (r : Row) → Moves r r
Moves-refl r = record { id = refl; file_id = refl; created_at = refl; status = inl refl }

abbrev Ok : Row → Row → Type 0
Ok r s = (IsSound r → IsSound s) × Moves r s

Ok-refl : (r : Row) → Ok r r
Ok-refl r = ((λ h. h), Moves-refl r)

lease-Ok :
    (r : Row) (worker : String) (now : ℕ)
    → check_transition r.status active ≡ true
    → Ok r (lease worker now r)
lease-Ok r worker now h = ((λ s. ground arith), ground arith)

settle-Ok :
    (r : Row) (new : Status)
    → is r.status active ≡ true
    → check_transition active new ≡ true
    → Ok r (settle new r)
settle-Ok r new a h = ((λ s. ground arith), ground arith)

claim-Ok :
    (job : Row) (worker : String) (now : ℕ) (r : Row)
    → claimable job r ≡ true
    → Ok r (lease worker now r)
claim-Ok job worker now r h = lease-Ok r worker now (ground arith)

beat-Ok :
    (job : Row) (worker : String) (now : ℕ) (r : Row)
    → leased job worker r ≡ true
    → Ok r (record r { heartbeat_at = some now })
beat-Ok job worker now r h = ((λ s. ground arith), ground arith)

finish-Ok :
    (job : Row) (worker : String) (new : Status)
    → any (is new) terminal_statuses ≡ true
    → (r : Row) → leased job worker r ≡ true
    → Ok r (settle new r)
finish-Ok job worker new t r h = settle-Ok r new (ground arith) (ground arith)

reap-Ok : (cutoff : ℕ) (r : Row) → stale cutoff r ≡ true → Ok r (reap r)
reap-Ok cutoff r h = ((λ s. ground arith), ground arith)

status-Ok :
    (job : Row) (old new : Status)
    → check_transition old new ≡ true
    → is old active ≡ false
    → is new active ≡ false
    → is old error ≡ false
    → (r : Row) → has_status job old r ≡ true
    → Ok r (set_status new r)
status-Ok job old new c a b e r h = ((λ s. ground arith), ground arith)

restart-Ok :
    (job : Row)
    → check_transition job.status pending ≡ true
    → (r : Row) → has_status job job.status r ≡ true
    → Ok r (restart r)
restart-Ok job c r h = ((λ s. ground arith), ground arith)

review-Ok :
    (job : Row) (worker : String) (now : ℕ) (from : List Status)
    → ((s : Status) → any (is s) from ≡ true → check_transition s active ≡ true)
    → (r : Row) → (r.id == job.id && any (is r.status) from) ≡ true
    → Ok r (lease worker now r)
review-Ok job worker now from g r h = lease-Ok r worker now (g r.status (ground arith))

-- What a call does to the whole table.
abbrev Keeps : List Row → List Row → Type 0
Keeps rows rows' = Tracks Moves rows rows' × (All IsSound rows → All IsSound rows')

Keeps-refl : (rows : List Row) → Keeps rows rows
Keeps-refl rows = (Tracks-refl Moves Moves-refl rows, λ h. h)

module _ (p : Row → Bool) (f : Row → Row) (step_ok : (r : Row) → p r ≡ true → Ok r (f r)) where
  Keeps-update : (rows : List Row) → Keeps rows (update p f rows)
  Keeps-update rows = (
    update-Tracks Moves Moves-refl p f (λ r e. (step_ok r e).1) rows,
    update-All IsSound p f (λ r e. (step_ok r e).0) rows,
  )

  Keeps-fenced :
      (rows : List Row) (job : Row) (failed : Result (List Row × Row))
      → committed rows failed ≡ rows
      → Keeps rows (committed rows (fenced p f failed rows job))
  Keeps-fenced rows job failed e = (
    fenced-Tracks Moves Moves-refl p f (λ r e. (step_ok r e).1) rows job failed e,
    fenced-All IsSound p f (λ r e. (step_ok r e).0) rows job failed e,
  )

Keeps-checked :
    (rows : List Row) (b : Bool) (x : Result (List Row × Row))
    → (b ≡ true → Keeps rows (committed rows x))
    → Keeps rows (committed rows (if b then x else invalid_transition))
Keeps-checked rows true x h = h refl
Keeps-checked rows false x h = Keeps-refl rows

Keeps-create :
    (rows : List Row) (now file_id : ℕ) (parked : Bool)
    → Keeps rows (create_job rows now file_id parked).0
unfolding create_job
Keeps-create rows now file_id parked =
    (Tracks-append Moves Moves-refl rows _, λ h. All-append IsSound rows _ h (ground arith, tt))

Keeps-claim :
    (rows : List Row) (now : ℕ) (worker : String) → Keeps rows (step rows (claim now worker))
unfolding step claim_next
Keeps-claim rows now worker = elim (Option-cases (select_next rows)) [
  | inl e ↦ rw (e, claim_next) (Keeps-refl rows)
  | inr (job, e) ↦ elim (Bool-cases (count (claimable job) rows == 0)) [
    | inl lost ↦ rw (e, lost, claim_next) (Keeps-refl rows)
    | inr won ↦
        rw (e, won, claim_next)
          (Keeps-update (claimable job) (lease worker now) (claim-Ok job worker now) rows)
  ]
]

Keeps-review :
    (rows : List Row) (job : Row) (now : ℕ) (worker : String) (from : List Status)
    → ((s : Status) → any (is s) from ≡ true → check_transition s active ≡ true)
    → Keeps rows (committed rows (claim_for_api rows job now worker from))
unfolding claim_for_api
Keeps-review rows job now worker from g =
    Keeps-checked rows (check_transition job.status active) _
      (λ _. Keeps-fenced _ _ (review-Ok job worker now from g) rows job invalid_transition refl)

Keeps-judge :
    (rows : List Row) (job : Row) (new expected : Status)
    → IsMade (judge job new expected)
    → Keeps rows (committed rows (set_status_checked rows job new expected))
unfolding set_status_checked
Keeps-judge rows job new expected made = Keeps-checked rows (check_transition expected new) _ (λ c.
    Keeps-fenced _ _ (status-Ok job expected new c (ground arith) (ground arith) (ground arith))
      rows job invalid_transition refl)

-- The lemma for each call, at the arguments that the repository passes.
step-Keeps : (rows : List Row) (c : Call) → IsMade c → Keeps rows (step rows c)
unfolding step create_job heartbeat release reap_stale park unpark requeue
step-Keeps rows (create now file_id parked) m = Keeps-create rows now file_id parked
step-Keeps rows (claim now worker) m = Keeps-claim rows now worker
step-Keeps rows (beat job now worker) m =
    Keeps-fenced _ _ (beat-Ok job worker now) rows job lease_lost refl
step-Keeps rows (finish job new worker) m =
    Keeps-checked rows (check_transition job.status new) _
      (λ _. Keeps-fenced _ _ (finish-Ok job worker new m) rows job lease_lost refl)
step-Keeps rows (reap_before cutoff) m =
    rw (flush_reaped-alone cutoff rows) (Keeps-update (stale cutoff) reap (reap-Ok cutoff) rows)
step-Keeps rows (hold_back job) m = Keeps-checked rows (check_transition job.status hold) _ (λ _.
    Keeps-fenced _ _ (status-Ok job pending hold refl refl refl refl) rows job invalid_transition
      refl)
step-Keeps rows (let_go job) m = Keeps-checked rows (check_transition job.status pending) _ (λ _.
    Keeps-fenced _ _ (status-Ok job hold pending refl refl refl refl) rows job invalid_transition
      refl)
step-Keeps rows (rerun job) m =
    Keeps-checked rows (check_transition job.status pending) _
      (λ c. Keeps-fenced _ _ (restart-Ok job c) rows job invalid_transition refl)
step-Keeps rows (approve job now worker) m =
    Keeps-review rows job now worker (quarantine ∷ []) (λ s h. ground arith)
step-Keeps rows (regrab job now worker) m =
    Keeps-review rows job now worker review_statuses (λ s h. ground arith)
step-Keeps rows (judge job new expected) m = Keeps-judge rows job new expected m

-- From a table of sound rows, any calls of workers, reaper and API, in any order and with copies
-- of jobs of any age, lead to a table of sound rows: a row has its three lease fields exactly while
-- it is active, and has used up at most `max_attempts` attempts, or one more once it is in error.
pub run-IsSound :
    (rows : List Row) (calls : List Call)
    → All IsMade calls
    → All IsSound rows
    → All IsSound (run rows calls)
unfolding run
run-IsSound rows [] m h = h
run-IsSound rows (c ∷ cs) m h = run-IsSound (step rows c) cs m.1 ((step-Keeps rows c m.0).1 h)

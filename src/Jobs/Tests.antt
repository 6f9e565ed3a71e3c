-- ===== src/Jobs/Tests.antt =====
-- The queue's theorems at a small table: one job that worker "w-0" holds, and two that wait.
use impostarr.Prelude.{suc, ℕ, ◌≡◌, refl, Option, none, some, List, [], ◌∷◌, arith, All}
use impostarr.Jobs.Rows.{Row, pending, active, matched, quarantine, remediated}
use impostarr.Jobs.{
  ok, lease_lost, update, settle, lease, claimable, select_next, claim_next, heartbeat, release,
  requeue, reap_stale,
}
use impostarr.Jobs.Claim.{Claims, claim_next-Claims, claim_next-returns}
use impostarr.Jobs.Calls.{Call, beat, claim, finish, judge, reap_before, run, IsMade}
use impostarr.Jobs.Soundness.{IsSound, run-IsSound}
use impostarr.Jobs.Fencing.{claim-fences_old_holder}
use impostarr.Jobs.Settled.{requeue-steals}

abbrev waiting : ℕ → ℕ → Row
waiting id created = record {
  id = id;
  file_id = id;
  status = pending;
  attempts = 0;
  claimed_by = none;
  claimed_at = none;
  heartbeat_at = none;
  created_at = created;
}

abbrev held : Row
held = lease "w-0" 50 (waiting 1 10)

abbrev table : List Row
table = held ∷ waiting 2 30 ∷ waiting 3 20 ∷ []

-- The third job is older than the second, and is claimed first.
abbrev claimed_table : List Row
claimed_table = held ∷ waiting 2 30 ∷ lease "w-1" 60 (waiting 3 20) ∷ []

claim_oldest :
    claim_next ((λ xs. xs) ∷ []) table 60 "w-1"
    ≡ some (claimed_table, some (lease "w-1" 60 (waiting 3 20)))
unfolding claim_next select_next update
claim_oldest = refl

claim_next-Claims_example :
    Claims ((λ xs. xs) ∷ []) table 60 "w-1" claimed_table (some (lease "w-1" 60 (waiting 3 20)))
claim_next-Claims_example =
    claim_next-Claims ((λ xs. xs) ∷ []) table claimed_table 60 "w-1"
      (some (lease "w-1" 60 (waiting 3 20))) claim_oldest

-- Another worker takes the third job between the two statements.
abbrev taken : List Row → List Row
taken rows = claimed_table

claim_next-returns_example :
    (r : List Row × Option Row) × (claim_next (taken ∷ (λ xs. xs) ∷ []) table 70 "w-2" ≡ some r)
claim_next-returns_example = claim_next-returns (taken ∷ []) table 70 "w-2"

-- A worker whose heartbeat is late ends its job between the reaper's SELECT and its flush: the job
-- is remediated, and is then pending again.
reaped_over :
    (reap_stale (λ rows. settle remediated held ∷ []) (held ∷ []) 1000).0
    ≡ record (settle pending held) { attempts = suc held.attempts } ∷ []
unfolding reap_stale
reaped_over = refl

table-IsSound : All IsSound table
table-IsSound = ground arith

abbrev day : List Call
day =
    claim 60 "w-1"
    ∷ reap_before 55
    ∷ beat held 70 "w-0"
    ∷ finish (lease "w-1" 60 (waiting 3 20)) quarantine "w-1"
    ∷ judge (settle quarantine (waiting 3 20)) matched quarantine
    ∷ []

day-IsMade : All IsMade day
day-IsMade = ground arith

run-IsSound_example : All IsSound (run table day)
run-IsSound_example = run-IsSound table day day-IsMade table-IsSound

claim-fences_old_holder_example :
    let rows' = update (claimable (waiting 2 30)) (lease "w-1" 60) table in
    (heartbeat rows' (waiting 2 30) 70 "w-0" ≡ lease_lost)
    × (release rows' (waiting 2 30) active "w-0" ≡ lease_lost)
claim-fences_old_holder_example =
    claim-fences_old_holder table (waiting 2 30) 60 70 active "w-0" "w-1" refl refl (ground arith)
      refl

abbrev released : List Row
released = settle matched held ∷ waiting 2 30 ∷ waiting 3 20 ∷ []

release-held : release table held matched "w-0" ≡ ok (released, settle matched held)
unfolding release update
release-held = refl

requeue-steals_example :
    (rows' : List Row) × (job' : Row) × (requeue table held ≡ ok (rows', job'))
    × (heartbeat rows' held 90 "w-0" ≡ lease_lost)
    × (release rows' held matched "w-0" ≡ lease_lost)
requeue-steals_example = requeue-steals table held "w-0" matched 90 refl (ground arith) refl

-- ===== src/Worker/Pass.antt =====
-- One pass of the worker loop of src/impostarr/worker.py, by its ending.
use impostarr.Prelude.{
  ℕ, zero, suc, ◌+◌, ◌%◌, ◌<◌, ◌≡◌, ◌⊎◌, true, false, none, some, List, length, All,
}
use impostarr.Jobs.Rows.{Row, is, pending}
use impostarr.Jobs.{claim_next}
use impostarr.Jobs.Claim.{Races, Claims}
use impostarr.Throttle.{TokenBucket, in_active_hours, has_capacity, consume}
use impostarr.Worker.{Deps, Loop, PassEnd, slept, ran, claiming, died, Moment, deps_at}

-- No row is pending.
abbrev pub Drained : List Row → Type 0
Drained rows = All (λ r. is r.status pending ≡ false) rows

module _ (m : Moment) (deps : List Deps) (races : ℕ → Races) where
  -- The index at a turn of a round that starts here.
  abbrev pub turn_at : ℕ → ℕ → ℕ
  turn_at start zero = start
  turn_at start (suc j) = (turn_at start j + 1) % length deps

  -- The turn of these dependencies, with so many turns to go, and the index after it.
  abbrev pub IsTurn : ℕ → ℕ → ℕ → Deps → ℕ → Type 0
  IsTurn start j k d idx =
      (j + k + 1 ≡ length deps)
      × (deps_at deps (turn_at start j) ≡ some d)
      × (idx ≡ turn_at start (suc j))

  -- How a round of claims ends, from this index, on these rows and with this bucket. A claim is made
  -- on these rows, or on rows that an earlier claim of the round has found without a pending one.
  abbrev pub IsClaimed : ℕ → List Row → TokenBucket → Loop × PassEnd → Type 0
  IsClaimed start rows bucket (l, slept) = Drained l.rows × (l.bucket ≡ bucket)
  IsClaimed start rows bucket (l, died) = ⊥
  IsClaimed start rows bucket (l, claiming) =
      (l.bucket ≡ bucket)
      × ((rows' : List Row) × (d : Deps) × (j : ℕ) × (k : ℕ) × IsTurn start j k d l.idx
          × (claim_next (races k) rows' m.now d.worker_id ≡ none)
          × ((rows' ≡ rows) ⊎ Drained rows'))
  IsClaimed start rows bucket (l, ran job d) =
      (l.bucket ≡ consume m.window bucket m.later)
      × ((rows' : List Row) × (j : ℕ) × (k : ℕ) × IsTurn start j k d l.idx
          × ((rows' ≡ rows) ⊎ Drained rows')
          × Claims (races k) rows' m.now d.worker_id l.rows (some job))

  abbrev pub Within : Loop × PassEnd → Type 0
  Within p = p.0.idx < length deps

  -- A pass that goes on to claim: no pause, in the active hours, with capacity.
  abbrev pub Open : Loop → Type 0
  Open l =
      (m.paused ≡ false)
      × (in_active_hours m.active_hours m.hour ≡ some true)
      × ((has_capacity m.window l.bucket m.clock).0 ≡ true)

  -- The reasons for which a pass makes no claim.
  abbrev pub Closed : Loop → Type 0
  Closed l =
      (m.paused ≡ true)
      ⊎ ((in_active_hours m.active_hours m.hour ≡ some false)
          ⊎ ((has_capacity m.window l.bucket m.clock).0 ≡ false))

  abbrev pub IsPassed : Loop → Loop × PassEnd → Type 0
  IsPassed l (l', slept) = (Closed l × (l'.rows ≡ l.rows)) ⊎ (Open l × Drained l'.rows)
  IsPassed l (l', died) =
      (m.paused ≡ false) × (in_active_hours m.active_hours m.hour ≡ none) × (l'.rows ≡ l.rows)
  IsPassed l (l', claiming) =
      Open l
      × IsClaimed l.idx l.rows (m.others (has_capacity m.window l.bucket m.clock).1) (l', claiming)
  IsPassed l (l', ran job d) =
      Open l
      × IsClaimed l.idx l.rows (m.others (has_capacity m.window l.bucket m.clock).1) (l', ran job d)

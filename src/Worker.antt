-- ===== src/Worker.antt =====
-- src/impostarr/worker.py: one pass of `_worker_loop`, with the throttle, the round over the
-- instances and the claim. The time of the bucket is another than that of the rows. The sleeps, and
-- the tasks around a job, are left out.
pub mod Pass
mod Tests
use impostarr.Prelude.{
  ℕ, zero, suc, ◌+◌, ◌%◌, String, Bool, true, false, Option, none, some, List, [], ◌∷◌, length,
  ◌==◌, ◌||◌, if◌then◌else◌,
}
use impostarr.Jobs.Rows.{Row}
use impostarr.Jobs.{claim_next}
use impostarr.Jobs.Claim.{Races}
use impostarr.Throttle.{TokenBucket, in_active_hours, has_capacity, consume}

-- `PipelineDeps`: the instance that it is for, and the id of the worker task.
pub record Deps : Type 0 where
  pub instance_name : String
  pub worker_id : String

-- The index of a task's round, the pool's bucket, and the jobs.
pub record Loop : Type 0 where
  pub idx : ℕ
  pub bucket : TokenBucket
  pub rows : List Row

-- How a pass ends: with a sleep, with a job that is run, inside a claim that other sessions keep
-- from ending, or with an exception that ends the task.
pub data PassEnd : Type 0 where
  slept : PassEnd
  ran : Row → Deps → PassEnd
  claiming died : PassEnd

-- The settings that a pass reads, with the hour and the times: of the question to the bucket, of the
-- token, and of the claims. The other tasks of the pool share the bucket: `others` is what they do to
-- it while this task waits for its claims.
pub record Moment : Type 0 where
  pub paused : Bool
  pub active_hours : Option (List ℕ)
  pub hour : ℕ
  pub window : ℕ
  pub clock : ℕ
  pub others : TokenBucket → TokenBucket
  pub later : ℕ
  pub now : ℕ

unfoldable pub deps_at : List Deps → ℕ → Option Deps
deps_at [] i = none
deps_at (d ∷ ds) zero = some d
deps_at (d ∷ ds) (suc i) = deps_at ds i

abbrev pub no_instances : List Deps → Bool
no_instances [] = true
no_instances _ = false

module _ (m : Moment) (deps : List Deps) where
  abbrev pub after_claim :
      Deps → Loop → Option (List Row × Option Row) → (Loop → Loop × PassEnd) → Loop × PassEnd
  after_claim d l none next = (l, claiming)
  after_claim d l (some (rows, none)) next = next (record l { rows = rows })
  after_claim d l (some (rows, some job)) next =
      (record l { rows = rows; bucket = consume m.window l.bucket m.later }, ran job d)

  -- A claim for the instance at the index, which moves on.
  unfoldable pub claim_for : Option Deps → Races → Loop → (Loop → Loop × PassEnd) → Loop × PassEnd
  unfolding claim_next consume
  claim_for none races l next = (l, died)
  claim_for (some d) races l next =
      after_claim d (record l { idx = (l.idx + 1) % length deps })
        (claim_next races l.rows m.now d.worker_id) next

  -- The round, with so many claims to go. `races` has what other sessions commit in each of them.
  unfoldable pub claim_round : ℕ → (ℕ → Races) → Loop → Loop × PassEnd
  unfolding claim_for deps_at
  claim_round zero races l = (l, slept)
  claim_round (suc k) races l = claim_for (deps_at deps l.idx) (races k) l (claim_round k races)

  abbrev pub when_capacity : Loop → Bool × TokenBucket → (ℕ → Races) → Loop × PassEnd
  when_capacity l (false, bucket) races = (record l { bucket = bucket }, slept)
  when_capacity l (true, bucket) races =
      claim_round (length deps) races (record l { bucket = m.others bucket })

  abbrev pub when_active : Loop → Option Bool → (ℕ → Races) → Loop × PassEnd
  when_active l none races = (l, died)
  when_active l (some false) races = (l, slept)
  when_active l (some true) races = when_capacity l (has_capacity m.window l.bucket m.clock) races

  unfoldable pub worker_pass : (ℕ → Races) → Loop → Loop × PassEnd
  unfolding claim_round in_active_hours has_capacity
  worker_pass races l =
      if no_instances deps || m.paused
      then (l, slept)
      else when_active l (in_active_hours m.active_hours m.hour) races

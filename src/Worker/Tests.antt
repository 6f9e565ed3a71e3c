-- ===== src/Worker/Tests.antt =====
-- A pass of the worker loop of src/impostarr/worker.py over two instances.
use impostarr.Prelude.{ℕ, ◌≡◌, refl, false, none, [], ◌∷◌}
use impostarr.Jobs.Rows.{Row, pending}
use impostarr.Jobs.{select_next, lease, claim_next}
use impostarr.Jobs.Claim.{Races}
use impostarr.Throttle.{in_active_hours, has_capacity}
use impostarr.Worker.{Deps, Loop, Moment, ran, deps_at, claim_for, claim_round, worker_pass}

abbrev waiting : Row
waiting = record {
  id = 1;
  file_id = 7;
  status = pending;
  attempts = 0;
  claimed_by = none;
  claimed_at = none;
  heartbeat_at = none;
  created_at = 3;
}

abbrev tv : Deps
tv = record { instance_name = "tv"; worker_id = "w-0" }

abbrev anime : Deps
anime = record { instance_name = "anime"; worker_id = "w-0" }

abbrev moment : Moment
moment = record {
  paused = false;
  active_hours = none;
  hour = 12;
  window = 3600;
  clock = 5;
  others = λ b. b;
  later = 6;
  now = 40;
}

-- No other session is at work.
abbrev alone : ℕ → Races
alone k = (λ xs. xs) ∷ []

-- The round has come to the second instance.
abbrev second : Loop
second = record {
  idx = 1;
  bucket = record { jobs_per_hour = none; timestamps = [] };
  rows = waiting ∷ [];
}

-- The job, of whatever instance its file is, runs with the dependencies of the second instance.
pass_ends :
    (worker_pass moment (tv ∷ anime ∷ []) alone second).1 ≡ ran (lease "w-0" 40 waiting) anime
unfolding worker_pass claim_round claim_for claim_next in_active_hours has_capacity deps_at
    select_next
pass_ends = refl

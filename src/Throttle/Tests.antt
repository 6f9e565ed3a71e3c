-- ===== src/Throttle/Tests.antt =====
-- A bucket in an hour of 60 ticks, shared by two tasks of a pool.
use impostarr.Prelude.{ℕ, ◌<◌, ◌≡◌, refl, some, List, [], ◌∷◌, arith, count}
use impostarr.Throttle.{Pool, PoolStep, asks, takes, finds_none, claims}
use impostarr.Throttle.Window.{within, claims-bounded}

abbrev pool : ℕ → Pool
pool n = record { bucket = record { jobs_per_hour = some n; timestamps = [] }; checked = 0 }

-- One task after the other: the ask at 30 finds no capacity.
abbrev in_turn : List (ℕ × PoolStep)
in_turn =
    (1, asks)
    ∷ (1, takes)
    ∷ (2, asks)
    ∷ (3, finds_none)
    ∷ (5, asks)
    ∷ (5, takes)
    ∷ (30, asks)
    ∷ (61, asks)
    ∷ (61, takes)
    ∷ []

claims_run : claims 60 1 (pool 2) in_turn ≡ 1 ∷ 5 ∷ 61 ∷ []
unfolding claims
claims_run = refl

-- Both tasks ask before either has claimed a job.
abbrev at_once : List (ℕ × PoolStep)
at_once = (1, asks) ∷ (1, asks) ∷ (2, takes) ∷ (3, takes) ∷ []

-- So the pool claims two jobs, with a limit of one.
claims_over : claims 60 2 (pool 1) at_once ≡ 2 ∷ 3 ∷ []
unfolding claims
claims_over = refl

claims-bounded_example : count (within 60 30) (claims 60 2 (pool 1) at_once) < 3
claims-bounded_example = claims-bounded 60 30 1 2 at_once (ground arith) (omega arith)

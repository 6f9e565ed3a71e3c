-- ===== src/Throttle.antt =====
-- src/impostarr/throttle.py: when the worker pool may claim a job. A time is a number of ticks. Of the
-- spellings that `int` reads, only digits are: signs, spaces and underscores are left out.
pub mod Window
pub mod Hours
mod Tests
use impostarr.Prelude.{
  ℕ, ◌+◌, ◌-◌, ◌*◌, Bool, true, false, not, ◌&&◌, ◌||◌, Option, none, some, List, [], ◌∷◌, ◌++◌,
  ltb, leb, ◌==◌, length, filter, if◌then◌else◌,
}

-- `active_hours.split("-", 1)`: the text before the first dash, and what follows it.
unfoldable pub split_dash : List ℕ → Option (List ℕ × List ℕ)
split_dash [] = none
split_dash (c ∷ cs) =
    if c == 45
    then some ([], cs)
    else elim (split_dash cs) [ none ↦ none | some p ↦ some (c ∷ p.0, p.1) ]

-- `int(s)` of a text of digits, read after the number so far.
unfoldable pub digits : ℕ → List ℕ → Option ℕ
digits n [] = some n
digits n (c ∷ cs) =
    let rest = digits (n * 10 + (c - 48)) cs in if leb 48 c && leb c 57 then rest else none

unfoldable pub to_int : List ℕ → Option ℕ
unfolding digits
to_int [] = none
to_int (c ∷ cs) = digits 0 (c ∷ cs)

-- The hour is in the range, which may wrap past midnight.
abbrev pub in_range : ℕ → ℕ → ℕ → Bool
in_range start end hour =
    if leb start end then leb start hour && leb hour end else leb start hour || leb hour end

unfoldable pub both : Option ℕ → Option ℕ → ℕ → Option Bool
both (some start) (some end) hour = some (in_range start end hour)
both _ _ hour = none

unfoldable pub between : Option (List ℕ × List ℕ) → ℕ → Option Bool
unfolding both
between none hour = none
between (some p) hour = both (to_int p.0) (to_int p.1) hour

-- `none` is the ValueError of a text that is no range.
unfoldable pub in_active_hours : Option (List ℕ) → ℕ → Option Bool
unfolding between both split_dash to_int
in_active_hours none now_hour = some true
in_active_hours (some []) now_hour = some true
in_active_hours (some (c ∷ cs)) now_hour = between (split_dash (c ∷ cs)) now_hour

pub record TokenBucket : Type 0 where
  pub jobs_per_hour : Option ℕ
  pub timestamps : List ℕ

-- `t > now - WINDOW_S`, with the window's length moved to the other side.
abbrev pub recent : ℕ → ℕ → ℕ → Bool
recent window now t = ltb now (t + window)

unfoldable pub prune : ℕ → TokenBucket → ℕ → TokenBucket
prune window b now = record b { timestamps = filter (recent window now) b.timestamps }

-- The limit that is set, if it is neither None nor 0.
abbrev pub limit : TokenBucket → Option ℕ
limit b = elim b.jobs_per_hour [ none ↦ none | some n ↦ if n == 0 then none else some n ]

abbrev pub capacity : ℕ → Option ℕ → TokenBucket → ℕ → Bool × TokenBucket
capacity window none b now = (true, b)
capacity window (some n) b now =
    let pruned = prune window b now in (ltb (length pruned.timestamps) n, pruned)

unfoldable pub has_capacity : ℕ → TokenBucket → ℕ → Bool × TokenBucket
unfolding prune
has_capacity window b now = capacity window (limit b) b now

unfoldable pub consume : ℕ → TokenBucket → ℕ → TokenBucket
unfolding prune
consume window b now =
    let pruned = prune window b now in record pruned { timestamps = pruned.timestamps ++ now ∷ [] }

-- A pool shares its bucket among its tasks. `checked` tasks have found capacity and are claiming,
-- which other tasks do not wait for.
pub record Pool : Type 0 where
  pub bucket : TokenBucket
  pub checked : ℕ

-- What a task does with the bucket: it asks for capacity, or it takes a token for the job that it
-- has claimed, or it has found no job.
pub data PoolStep : Type 0 where
  asks takes finds_none : PoolStep

abbrev pub after_ask : ℕ → Bool × TokenBucket → Pool
after_ask checked (true, bucket) = record { bucket = bucket; checked = checked + 1 }
after_ask checked (false, bucket) = record { bucket = bucket; checked = checked }

-- A step at a time, in a pool of so many tasks, with whether a job is claimed. Only a task that is
-- not claiming asks, and only one that has found capacity takes a token.
unfoldable pub pool_step : ℕ → ℕ → ℕ → PoolStep → Pool → Pool × Bool
unfolding has_capacity consume
pool_step window tasks now asks p =
    if ltb p.checked tasks
    then (after_ask p.checked (has_capacity window p.bucket now), false)
    else (p, false)
pool_step window tasks now takes p =
    if ltb 0 p.checked
    then (record { bucket = consume window p.bucket now; checked = p.checked - 1 }, true)
    else (p, false)
pool_step window tasks now finds_none p = (record p { checked = p.checked - 1 }, false)

-- The times of the claims of a pool whose tasks take these steps.
unfoldable pub claims : ℕ → ℕ → Pool → List (ℕ × PoolStep) → List ℕ
unfolding pool_step
claims window tasks p [] = []
claims window tasks p (s ∷ steps) =
    let next = pool_step window tasks s.0 s.1 p in
    let rest = claims window tasks next.0 steps in if next.1 then s.0 ∷ rest else rest

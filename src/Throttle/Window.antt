-- ===== src/Throttle/Window.antt =====
-- `TokenBucket` of src/impostarr/throttle.py: the claims that fall into one window.
use impostarr.Prelude.{
  ℕ, ◌+◌, ◌-◌, ltb, ◌≤◌, ◌<◌, ◌≡◌, refl, ap, inl, inr, Bool, ◌&&◌, Bool-cases, some, List, [], ◌∷◌,
  ◌++◌, arith, ltb, leb, length, filter, count,
}
use impostarr.Throttle.{
  TokenBucket, recent, prune, limit, has_capacity, consume, capacity, Pool, PoolStep, asks, takes,
  finds_none, pool_step, claims,
}

-- The claims of the window that ends at a time.
abbrev pub within : ℕ → ℕ → ℕ → Bool
within window time t = leb t time && recent window time t

-- The times of the steps do not decrease, and are no earlier than this one.
abbrev pub IsForward : ℕ → List (ℕ × PoolStep) → Type 0
IsForward last [] = Unit
IsForward last (s ∷ steps) = (last ≤ s.0) × IsForward s.0 steps

count-append : (p : ℕ → Bool) (xs ys : List ℕ) → count p (xs ++ ys) ≡ count p xs + count p ys
count-append p [] ys = omega arith
count-append p (x ∷ xs) ys = ground (arith, count-append p xs ys)

length-filter-count : (p : ℕ → Bool) (xs : List ℕ) → length (filter p xs) ≡ count p xs
length-filter-count p [] = refl
length-filter-count p (x ∷ xs) = ground (arith, length-filter-count p xs)

-- What is recent later is recent now.
count-filter :
    (w now time : ℕ) (ts : List ℕ)
    → now ≤ time
    → count (recent w time) (filter (recent w now) ts) ≡ count (recent w time) ts
count-filter w now time [] h = refl
count-filter w now time (t ∷ ts) h = ground (arith, count-filter w now time ts)

count-recent :
    (w now time : ℕ) (ts : List ℕ) → now ≤ time → count (recent w time) ts ≤ count (recent w now) ts
count-recent w now time [] h = omega arith
count-recent w now time (t ∷ ts) h = ground (arith, count-recent w now time ts)

count-within : (w time : ℕ) (ts : List ℕ) → count (within w time) ts ≤ count (recent w time) ts
count-within w time [] = omega arith
count-within w time (t ∷ ts) = ground (arith, count-within w time ts)

-- The bucket keeps the claims so far that a window can still hold. No window holds too many, also with
-- those of the tasks that are claiming.
record Tracks (w time n tasks last : ℕ) (past : List ℕ) (p : Pool) : Type 0 where
  limited : limit p.bucket ≡ some n
  claiming : p.checked ≤ tasks
  few : count (within w time) past < n + tasks
  owed : last ≤ time → count (recent w time) past + p.checked < n + tasks
  kept : last ≤ time → count (recent w time) past ≤ count (recent w time) p.bucket.timestamps

pruned_length :
    (w now : ℕ) (b : TokenBucket)
    → length (prune w b now).timestamps ≡ count (recent w now) b.timestamps
unfolding prune
pruned_length w now b = length-filter-count (recent w now) b.timestamps

-- A task with no capacity has only pruned the bucket, and one with capacity is claiming too.
has_capacity-limited :
    (w now n : ℕ) (b : TokenBucket)
    → limit b ≡ some n
    → has_capacity w b now ≡ (ltb (length (prune w b now).timestamps) n, prune w b now)
unfolding has_capacity
has_capacity-limited w now n b l = ap (λ o. capacity w o b now) l

wait-Tracks :
    (w time n tasks last now : ℕ) (past : List ℕ) (p : Pool)
    → last ≤ now
    → Tracks w time n tasks last past p
    → Tracks w time n tasks now past (record p { bucket = prune w p.bucket now })
unfolding prune
wait-Tracks w time n tasks last now past p h t = record {
  limited = t.limited;
  claiming = t.claiming;
  few = t.few;
  owed = λ g. ground (arith, t.owed);
  kept = λ g. ground (arith, t.kept, count-filter w now time p.bucket.timestamps);
}

ask-Tracks :
    (w time n tasks now : ℕ) (past : List ℕ) (p : Pool)
    → p.checked < tasks
    → count (recent w now) p.bucket.timestamps < n
    → Tracks w time n tasks now past p
    → Tracks w time n tasks now past (record p { checked = p.checked + 1 })
ask-Tracks w time n tasks now past p free room t = record {
  limited = t.limited;
  claiming = omega (arith, free);
  few = t.few;
  owed = λ g. omega (arith, free, room, t.kept g, count-recent w now time p.bucket.timestamps g);
  kept = t.kept;
}

take-Tracks :
    (w time n tasks last now : ℕ) (past : List ℕ) (p : Pool)
    → last ≤ now
    → 0 < p.checked
    → Tracks w time n tasks last past p
    → Tracks w time n tasks now
        (now ∷ past)
        (record { bucket = consume w p.bucket now; checked = p.checked - 1 })
unfolding consume prune
take-Tracks w time n tasks last now past p h some_checked t = record {
  limited = t.limited;
  claiming = omega (arith, t.claiming);
  few = ground (arith, t.few, t.owed, count-within w time past);
  owed = λ g. ground (arith, t.owed);
  kept = λ g.
      rw
        (
          count-append (recent w time) (filter (recent w now) p.bucket.timestamps) (now ∷ []),
          count-filter w now time p.bucket.timestamps g,
        )
        (ground (arith, t.kept));
}

none-Tracks :
    (w time n tasks last now : ℕ) (past : List ℕ) (p : Pool)
    → last ≤ now
    → Tracks w time n tasks last past p
    → Tracks w time n tasks now past (record p { checked = p.checked - 1 })
none-Tracks w time n tasks last now past p h t = record {
  limited = t.limited;
  claiming = omega (arith, t.claiming);
  few = t.few;
  owed = λ g. ground (arith, t.owed);
  kept = λ g. ground (arith, t.kept);
}

stay-Tracks :
    (w time n tasks last now : ℕ) (past : List ℕ) (p : Pool)
    → last ≤ now
    → Tracks w time n tasks last past p
    → Tracks w time n tasks now past p
stay-Tracks w time n tasks last now past p h t = record {
  limited = t.limited;
  claiming = t.claiming;
  few = t.few;
  owed = λ g. ground (arith, t.owed);
  kept = λ g. ground (arith, t.kept);
}

claims-few :
    (w time n tasks : ℕ) (steps : List (ℕ × PoolStep)) (last : ℕ) (past : List ℕ) (p : Pool)
    → IsForward last steps
    → Tracks w time n tasks last past p
    → count (within w time) past + count (within w time) (claims w tasks p steps) < n + tasks
unfolding claims pool_step
claims-few w time n tasks [] last past p f t = ground (arith, t.few)
claims-few w time n tasks ((now, asks) ∷ steps) last past p f t =
    elim (Bool-cases (ltb p.checked tasks)) [
      | inl free ↦
          let pruned = prune w p.bucket now in
          let waiting : Pool = record p { bucket = pruned } in
          let track = wait-Tracks w time n tasks last now past p f.0 t in
          elim (Bool-cases (ltb (length pruned.timestamps) n)) [
            | inl room ↦
                let few : count (recent w now) pruned.timestamps < n = ground (
                  arith,
                  room,
                  pruned_length w now p.bucket,
                  count-filter w now now p.bucket.timestamps,
                ) in
                rw (free, has_capacity-limited w now n p.bucket t.limited, room)
                  (claims-few w time n tasks steps now past
                    (record waiting { checked = p.checked + 1 }) f.1
                    (ask-Tracks w time n tasks now past waiting (ground (arith, free)) few track))
            | inr full ↦
                rw (free, has_capacity-limited w now n p.bucket t.limited, full)
                  (claims-few w time n tasks steps now past waiting f.1 track)
          ]
      | inr busy ↦ rw busy (
          claims-few w time n tasks steps now past p f.1
            (stay-Tracks w time n tasks last now past p f.0 t))
    ]
claims-few w time n tasks ((now, takes) ∷ steps) last past p f t =
    elim (Bool-cases (ltb 0 p.checked)) [
      | inl claimed ↦
          let next : Pool = record { bucket = consume w p.bucket now; checked = p.checked - 1 } in
          rw claimed (
            ground (
              arith,
              claims-few w time n tasks steps now (now ∷ past) next f.1
                  (take-Tracks w time n tasks last now past p f.0 (ground (arith, claimed)) t),
            ))
      | inr none ↦ rw none (
          claims-few w time n tasks steps now past p f.1
            (stay-Tracks w time n tasks last now past p f.0 t))
    ]
claims-few w time n tasks ((now, finds_none) ∷ steps) last past p f t =
    claims-few w time n tasks steps now past (record p { checked = p.checked - 1 }) f.1
      (none-Tracks w time n tasks last now past p f.0 t)

-- However the tasks of a pool interleave their questions to a bucket, which is new and has a limit,
-- and their claims, at times that do not decrease, no window has as many claims as the limit and the
-- number of tasks together: of a pool of one task, no more than the limit.
pub claims-bounded :
    (window time n tasks : ℕ) (steps : List (ℕ × PoolStep))
    → IsForward 0 steps
    → 0 < n
    → count (within window time) (
        claims window tasks
          (record { bucket = record { jobs_per_hour = some n; timestamps = [] }; checked = 0 })
          steps)
      < n + tasks
claims-bounded window time n tasks steps f p = omega (
  arith,
  claims-few window time n tasks steps 0 []
      (record { bucket = record { jobs_per_hour = some n; timestamps = [] }; checked = 0 }) f
      (record {
        limited = ground arith;
        claiming = omega arith;
        few = omega arith;
        owed = λ g. omega arith;
        kept = λ g. omega arith;
      }),
)

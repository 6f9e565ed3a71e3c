-- ===== src/Jobs/Claim.antt =====
-- `claim_next` of src/impostarr/jobs.py: which row is chosen, and that the loop ends.
use impostarr.Prelude.{
  ◌&&◌, ℕ, ◌≤◌, ◌<◌, String, ◌≡◌, refl, ap, subst, inl, inr, Bool, true, false, Option, none, some,
  List, [], ◌∷◌, ◌++◌, arith, ◌==◌, if◌then◌else◌, Bool-cases, Option-cases, All, count,
}
use impostarr.Jobs.Rows.{Row, is, pending, before}
use impostarr.Jobs.{update, select_next, claimable, claim_next, lease, older}

-- `job` is pending and no pending row of the table is older.
abbrev pub IsOldest : Row → List Row → Type 0
IsOldest job rows = All (λ r. is r.status pending ≡ true → before job r ≡ true) rows

before_trans : (a b c : Row) → before a b ≡ true → before b c ≡ true → before a c ≡ true
before_trans a b c h k = ground arith

before_total : (a b : Row) → before a b ≡ false → before b a ≡ true
before_total a b h = ground arith

before_refl : (a : Row) → before a a ≡ true
before_refl a = ground arith

IsOldest-weaken :
    (a b : Row) → before a b ≡ true → (rows : List Row) → IsOldest b rows → IsOldest a rows
IsOldest-weaken a b e [] h = tt
IsOldest-weaken a b e (r ∷ rs) h = (λ k. before_trans a b r e (h.0 k), IsOldest-weaken a b e rs h.1)

abbrev Selects : Option Row → List Row → Type 0
Selects none rows = All (λ r. is r.status pending ≡ false) rows
Selects (some job) rows =
    (is job.status pending ≡ true) × (0 < count (claimable job) rows) × IsOldest job rows

claimable_self : (r : Row) → is r.status pending ≡ true → claimable r r ≡ true
claimable_self r e = ground arith

older-none :
    (r : Row) (rs : List Row)
    → is r.status pending ≡ true
    → Selects none rs
    → Selects (some r) (r ∷ rs)
older-none r rs e h =
    (e, rw (claimable_self r e) (omega arith), (λ _. before_refl r, none_older rs h))
  where
    none_older : (xs : List Row) → Selects none xs → IsOldest r xs
    none_older [] k = tt
    none_older (x ∷ xs) k = ((λ p. ground arith), none_older xs k.1)

count-cons : (p : Row → Bool) (r : Row) (rs : List Row) → count p rs ≤ count p (r ∷ rs)
count-cons p r rs = ground arith

older-some :
    (r q : Row) (rs : List Row) (b : Bool)
    → before r q ≡ b
    → is r.status pending ≡ true
    → Selects (some q) rs
    → Selects (if b then some r else some q) (r ∷ rs)
older-some r q rs true e k h =
    (k, rw (claimable_self r k) (omega arith), ((λ _. before_refl r), IsOldest-weaken r q e rs h.2))
older-some r q rs false e k h =
    (h.0, omega (arith, count-cons (claimable q) r rs, h.1), ((λ _. before_total r q e), h.2))

Selects-skip :
    (o : Option Row) (r : Row) (rs : List Row)
    → is r.status pending ≡ false
    → Selects o rs
    → Selects o (r ∷ rs)
Selects-skip none r rs e h = (e, h)
Selects-skip (some job) r rs e h =
    (h.0, omega (arith, count-cons (claimable job) r rs, h.1), ((λ k. ground arith), h.2))

older-Selects :
    (o : Option Row) (r : Row) (rs : List Row)
    → is r.status pending ≡ true
    → Selects o rs
    → Selects (older r o) (r ∷ rs)
unfolding older
older-Selects none r rs e h = older-none r rs e h
older-Selects (some q) r rs e h = older-some r q rs (before r q) refl e h

select_next-Selects : (rows : List Row) → Selects (select_next rows) rows
unfolding select_next
select_next-Selects [] = tt
select_next-Selects (r ∷ rs) = elim (Bool-cases (is r.status pending)) [
  | inl e ↦ rw e (older-Selects (select_next rs) r rs e (select_next-Selects rs))
  | inr e ↦ rw e (Selects-skip (select_next rs) r rs e (select_next-Selects rs))
]

-- What the SELECT returns is pending, is a row of the table, and is the oldest of the pending rows.
pub select_next-IsOldest :
    (rows : List Row) (job : Row)
    → select_next rows ≡ some job
    → (is job.status pending ≡ true) × (0 < count (claimable job) rows) × IsOldest job rows
select_next-IsOldest rows job e = subst (λ o. Selects o rows) e (select_next-Selects rows)

-- The row of the job, while it is pending.
abbrev pub still_pending : Row → Row → Bool
still_pending job r = r.id == job.id && is r.status pending

-- What other sessions commit, in the rounds of a call.
abbrev pub Races : Type 0
Races = List (List Row → List Row)

-- The rows that the SELECT of the round after these rounds sees, if none of them writes.
unfoldable pub seen_after : Races → List Row → List Row
seen_after [] rows = rows
seen_after (race ∷ races) rows = seen_after races (race rows)

-- What a finished call of `claim_next` on these rows has done. With no job, the rows are what the
-- other sessions had left before some round, and none is pending. With a job, there is a round whose
-- SELECT saw what the other sessions had left before it. The job is a pending row of these rows, and
-- the oldest. After what was committed in that round it was still pending, and the UPDATE alone was
-- written.
abbrev pub Claims : Races → List Row → ℕ → String → List Row → Option Row → Type 0
Claims races rows now worker rows' none =
    (earlier : Races) × (rest : Races) × (races ≡ earlier ++ rest)
    × (rows' ≡ seen_after earlier rows)
    × All (λ r. is r.status pending ≡ false) rows'
Claims races rows now worker rows' (some job') =
    (earlier : Races) × (race : List Row → List Row) × (rest : Races) × (job : Row) × (races
      ≡ earlier ++ race ∷ rest)
    × (0 < count (still_pending job) (seen_after earlier rows))
    × IsOldest job (seen_after earlier rows)
    × (is job.status pending ≡ true)
    × (0 < count (still_pending job) (race (seen_after earlier rows)))
    × (rows' ≡ update (still_pending job) (lease worker now) (race (seen_after earlier rows)))
    × (job' ≡ lease worker now job)

abbrev Finished : Races → List Row → ℕ → String → Option (List Row × Option Row) → Type 0
Finished races rows now worker none = Unit
Finished races rows now worker (some (rows', o)) = Claims races rows now worker rows' o

module _ (now : ℕ) (worker : String) where
  -- A call that has retried after a round.
  later-Finished :
      (race : List Row → List Row) (races : Races) (rows : List Row)
      (retry : Option (List Row × Option Row))
      → Finished races (race rows) now worker retry
      → Finished (race ∷ races) rows now worker retry
  unfolding seen_after
  later-Finished race races rows none h = tt
  later-Finished race races rows (some (rows', none)) (earlier, rest, e, h, n) =
      (race ∷ earlier, rest, ap (λ rs. race ∷ rs) e, h, n)
  later-Finished race races rows (some (rows', some job')) h =
      (race ∷ h.0, h.1, h.2, h.3, ap (λ rs. race ∷ rs) h.4, h.5, h.6, h.7, h.8, h.9, h.10)

  round-Finished :
      (race : List Row → List Row) (races : Races) (rows : List Row) (b : Bool)
      (retry : Option (List Row × Option Row))
      → (job : Row) → (count (claimable job) (race rows) == 0) ≡ b
      → Selects (some job) rows
      → Finished races (race rows) now worker retry
      → Finished (race ∷ races) rows now worker (
          if b
          then retry
          else some
              (update (claimable job) (lease worker now) (race rows), some (lease worker now job)))
  unfolding seen_after
  round-Finished race races rows true retry job e s h = later-Finished race races rows retry h
  round-Finished race races rows false retry job e s h =
      ([], race, races, job, refl, s.1, s.2, s.0, ground arith, refl, refl)

  claim_next-Finished :
      (races : Races) (rows : List Row)
      → Finished races rows now worker (claim_next races rows now worker)
  unfolding claim_next seen_after
  claim_next-Finished [] rows = tt
  claim_next-Finished (race ∷ races) rows = elim (Option-cases (select_next rows)) [
    | inl e ↦
        rw (e, claim_next)
          ([], race ∷ races, refl, refl, subst (λ o. Selects o rows) e (select_next-Selects rows))
    | inr (job, e) ↦
        rw (e, claim_next)
          (round-Finished race races rows (count (claimable job) (race rows) == 0)
            (claim_next races (race rows) now worker) job refl
            (subst (λ o. Selects o rows) e (select_next-Selects rows))
            (claim_next-Finished races (race rows)))
  ]

-- Whatever other sessions commit in its rounds, a call of `claim_next` that returns has either left
-- what they had committed before some round, with no pending row, or has leased one row to the
-- worker. That is the oldest pending row of what they had committed before some round, it was still
-- pending after what they committed in that round, and nothing else was written.
pub claim_next-Claims :
    (races : Races) (rows rows' : List Row) (now : ℕ) (worker : String) (o : Option Row)
    → claim_next races rows now worker ≡ some (rows', o)
    → Claims races rows now worker rows' o
claim_next-Claims races rows rows' now worker o e =
    subst (Finished races rows now worker) e (claim_next-Finished now worker races rows)

-- If in some round nothing intervenes, the loop has returned by the end of that round.
pub claim_next-returns :
    (races : Races) (rows : List Row) (now : ℕ) (worker : String)
    → (r : List Row × Option Row) × (claim_next (races ++ (λ xs. xs) ∷ []) rows now worker ≡ some r)
unfolding claim_next
claim_next-returns [] rows now worker = elim (Option-cases (select_next rows)) [
  | inl e ↦ ((rows, none), rw (e, claim_next))
  | inr (job, e) ↦
      let hit = (select_next-IsOldest rows job e).1 in
      (
        (update (claimable job) (lease worker now) rows, some (lease worker now job)),
        rw (e, claim_next) (ground (arith, hit)),
      )
]
claim_next-returns (race ∷ races) rows now worker = elim (Option-cases (select_next rows)) [
  | inl e ↦ ((rows, none), rw (e, claim_next))
  | inr (job, e) ↦ elim (Bool-cases (count (claimable job) (race rows) == 0)) [
    | inl lost ↦
        let (r, ends) = claim_next-returns races (race rows) now worker in
        (r, rw (e, lost, claim_next) ends)
    | inr won ↦ (
      (update (claimable job) (lease worker now) (race rows), some (lease worker now job)),
      rw (e, won, claim_next),
    )
  ]
]

-- With no other session at work, a call of `claim_next` leases what its first SELECT returns.
pub claim_next-alone :
    (races : Races) (rows : List Row) (now : ℕ) (worker : String) (job : Row)
    → select_next rows ≡ some job
    → claim_next ((λ xs. xs) ∷ races) rows now worker
      ≡ some (update (claimable job) (lease worker now) rows, some (lease worker now job))
unfolding claim_next
claim_next-alone races rows now worker job e =
    let s = subst (λ o. Selects o rows) e (select_next-Selects rows) in
    let hit : (count (claimable job) rows == 0) ≡ false = ground (arith, s.1) in
    rw (e, claim_next, hit) refl

-- ===== src/Jobs/Update.antt =====
-- What an UPDATE statement and a fenced call of src/impostarr/jobs.py keep, row by row.
use impostarr.Prelude.{
  ℕ, ◌≡◌, refl, inl, inr, Bool, true, false, List, [], ◌∷◌, ◌++◌, ◌==◌, if◌then◌else◌, Bool-cases,
  All, count,
}
use impostarr.Jobs.Rows.{Row}
use impostarr.Jobs.{Result, ok, update, fenced, stale, reap, flush_reaped}

-- `R` relates each old row to the row that stands at its place; new rows may follow.
abbrev pub Tracks : (Row → Row → Type 0) → List Row → List Row → Type 0
Tracks R [] ss = Unit
Tracks R (r ∷ rs) [] = ⊥
Tracks R (r ∷ rs) (s ∷ ss) = R r s × Tracks R rs ss

-- The rows after a call: an error has rolled back.
abbrev pub committed : List Row → Result (List Row × Row) → List Row
committed rows (ok (rows', _)) = rows'
committed rows _ = rows

module _ (P : Row → Type 0) (p : Row → Bool) (f : Row → Row)
    (keep : (r : Row) → p r ≡ true → P r → P (f r)) where
  choose-keep : (r : Row) (b : Bool) → p r ≡ b → P r → P (if b then f r else r)
  choose-keep r true e h = keep r e h
  choose-keep r false e h = h

  pub update-All : (rows : List Row) → All P rows → All P (update p f rows)
  unfolding update
  update-All [] h = h
  update-All (r ∷ rs) h = (choose-keep r (p r) refl h.0, update-All rs h.1)

  pub fenced-All :
      (rows : List Row) (job : Row) (failed : Result (List Row × Row))
      → committed rows failed ≡ rows
      → All P rows
      → All P (committed rows (fenced p f failed rows job))
  unfolding fenced
  fenced-All rows job failed e h = elim (Bool-cases (count p rows == 0)) [
    | inl none_hit ↦ rw none_hit (rw e h)
    | inr hit ↦ rw hit (update-All rows h)
  ]

module _ (R : Row → Row → Type 0) (same : (r : Row) → R r r) where
  pub Tracks-refl : (rows : List Row) → Tracks R rows rows
  Tracks-refl [] = tt
  Tracks-refl (r ∷ rs) = (same r, Tracks-refl rs)

  pub Tracks-append : (rows new : List Row) → Tracks R rows (rows ++ new)
  Tracks-append [] new = tt
  Tracks-append (r ∷ rs) new = (same r, Tracks-append rs new)

  module _ (p : Row → Bool) (f : Row → Row) (move : (r : Row) → p r ≡ true → R r (f r)) where
    choose-move : (r : Row) (b : Bool) → p r ≡ b → R r (if b then f r else r)
    choose-move r true e = move r e
    choose-move r false e = same r

    pub update-Tracks : (rows : List Row) → Tracks R rows (update p f rows)
    unfolding update
    update-Tracks [] = tt
    update-Tracks (r ∷ rs) = (choose-move r (p r) refl, update-Tracks rs)

    pub fenced-Tracks :
        (rows : List Row) (job : Row) (failed : Result (List Row × Row))
        → committed rows failed ≡ rows
        → Tracks R rows (committed rows (fenced p f failed rows job))
    unfolding fenced
    fenced-Tracks rows job failed e = elim (Bool-cases (count p rows == 0)) [
      | inl none_hit ↦ rw none_hit (rw e (Tracks-refl rows))
      | inr hit ↦ rw hit (update-Tracks rows)
    ]

pub Tracks-trans :
    (R : Row → Row → Type 0)
    → ((r s t : Row) → R r s → R s t → R r t)
    → (a b c : List Row) → Tracks R a b
    → Tracks R b c
    → Tracks R a c
Tracks-trans R join [] b c h k = tt
Tracks-trans R join (r ∷ rs) [] c h k = absurd h
Tracks-trans R join (r ∷ rs) (s ∷ ss) [] h k = absurd k
Tracks-trans R join (r ∷ rs) (s ∷ ss) (t ∷ ts) h k =
    (join r s t h.0 k.0, Tracks-trans R join rs ss ts h.1 k.1)

-- With no other session at work, the reaper rewrites the rows that are stale.
pub flush_reaped-alone :
    (cutoff : ℕ) (rows : List Row) → flush_reaped cutoff rows rows ≡ update (stale cutoff) reap rows
unfolding flush_reaped update
flush_reaped-alone cutoff [] = refl
flush_reaped-alone cutoff (r ∷ rs) = rw (flush_reaped-alone cutoff rs) refl

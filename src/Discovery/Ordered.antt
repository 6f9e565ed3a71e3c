-- ===== src/Discovery/Ordered.antt =====
-- src/impostarr/discovery.py: the order in which `backfill_step` walks series and files.
use impostarr.Prelude.{
  ℕ, ◌≤◌, ◌<◌, inl, inr, Bool-cases, some, List, [], ◌∷◌, arith, ltb, leb, filter, All, All-weaken,
}
use impostarr.Discovery.{EpisodeFile}
use impostarr.Discovery.Backfill.{insert_series, sort_series, from_series}

abbrev pub IsSorted : List ℕ → Type 0
IsSorted [] = Unit
IsSorted (s ∷ ss) = All (λ t. s ≤ t) ss × IsSorted ss

All-insert :
    (m s : ℕ) (ss : List ℕ) → m ≤ s → All (λ t. m ≤ t) ss → All (λ t. m ≤ t) (insert_series s ss)
unfolding insert_series
All-insert m s [] h a = (h, tt)
All-insert m s (t ∷ ts) h a = elim (Bool-cases (leb s t)) [
  | inl l ↦ rw (l) (h, a)
  | inr l ↦ rw (l) (a.0, All-insert m s ts h a.1)
]

insert-IsSorted : (s : ℕ) (ss : List ℕ) → IsSorted ss → IsSorted (insert_series s ss)
unfolding insert_series
insert-IsSorted s [] i = (tt, tt)
insert-IsSorted s (t ∷ ts) i = elim (Bool-cases (leb s t)) [
  | inl l ↦
      let below : s ≤ t = ground arith in
      rw (l) ((below, All-weaken (λ u. t ≤ u) (λ u. s ≤ u) (λ u h. omega (arith, below)) ts i.0), i)
  | inr l ↦ rw (l) (All-insert t s ts (ground arith) i.0, insert-IsSorted s ts i.1)
]

pub sort-IsSorted : (ss : List ℕ) → IsSorted (sort_series ss)
unfolding sort_series
sort-IsSorted [] = tt
sort-IsSorted (s ∷ ss) = insert-IsSorted s (sort_series ss) (sort-IsSorted ss)

pub from_start :
    (start : ℕ) (ss : List ℕ) → IsSorted ss → All (λ s. start ≤ s) (from_series (some start) ss)
unfolding from_series
from_start start [] i = tt
from_start start (s ∷ ss) i = elim (Bool-cases (leb start s)) [
  | inl l ↦
      let above : start ≤ s = ground arith in
      rw (l) (above, All-weaken (λ t. s ≤ t) (λ t. start ≤ t) (λ t h. omega (arith, above)) ss i.0)
  | inr l ↦ rw (l) (from_start start ss i.1)
]

pub All-any : {A : Type 0} (P : A → Type 0) → ((x : A) → P x) → (xs : List A) → All P xs
All-any P h [] = tt
All-any P h (x ∷ xs) = (h x, All-any P h xs)

pub filter-All : (m : ℕ) (fs : List EpisodeFile) → All (λ f. m < f.id) (filter (λ f. ltb m f.id) fs)
filter-All m [] = tt
filter-All m (f ∷ fs) = elim (Bool-cases (ltb m f.id)) [
  | inl l ↦ rw (l) (ground arith, filter-All m fs)
  | inr l ↦ rw (l) (filter-All m fs)
]

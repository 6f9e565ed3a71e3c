-- ===== src/Discovery/Resume.antt =====
-- `backfill_step` of src/impostarr/discovery.py: how far a step gets.
use impostarr.Prelude.{
  ℕ, ◌≤◌, ◌<◌, ◌≡◌, refl, sym, subst, ◌∙◌, ◌⊎◌, inl, inr, true, false, Bool-cases, Option, none,
  some, List, [], ◌∷◌, arith, leb, ◌==◌, ==_iff, All, All-weaken,
}
use impostarr.Discovery.{
  InstanceConfig, EpisodeFile, Tables, Files, Captured, captured, skipped, raised,
}
use impostarr.Discovery.History.{SeriesEpisode}
use impostarr.Discovery.Backfill.{
  Cursor, Library, Walk, sort_files, sort_series, from_series, Walked, walked, walk_error,
  count_file, after_file, then_walk, then_series, walk_files, files_after, fetched_files,
  walk_series, end_cursor, start_series, start_walk, walk_library, backfill_step,
}
use impostarr.Discovery.Ordered.{IsSorted, sort-IsSorted, from_start, All-any, filter-All}

-- The second cursor comes after the first in the walk; all come after none.
abbrev pub After : Option Cursor → Cursor → Type 0
After none d = Unit
After (some c) d =
    (c.series_id < d.series_id)
    ⊎ ((c.series_id ≡ d.series_id) × (c.episode_file_id < d.episode_file_id))

abbrev Follows : Option Cursor → ℕ → EpisodeFile → Type 0
Follows start series f = After start (record { series_id = series; episode_file_id = f.id })

-- A series that the walk may come to.
abbrev Reachable : Option Cursor → ℕ → Type 0
Reachable none series = Unit
Reachable (some c) series = c.series_id ≤ series

module _ (cfg : InstanceConfig) (disk : Files) (library : Library) (now instance_id batch_size : ℕ)
    (start : Option Cursor) where
  next_files :
      (series : ℕ) (fs : List EpisodeFile)
      → Reachable start series
      → All (Follows start series) (files_after start series fs)
  next_files series fs reach = next_after start series fs reach
    where
      next_after :
          (c : Option Cursor) (series : ℕ) (fs : List EpisodeFile)
          → Reachable c series
          → All (Follows c series) (files_after c series fs)
      next_after none series fs reach = All-any _ (λ f. tt) fs
      next_after (some c) series fs reach = elim (Bool-cases (series == c.series_id)) [
        | inl e ↦
            let same : c.series_id ≡ series = sym ((==_iff series c.series_id).0 e) in
            rw (e) (
              All-weaken (λ f. c.episode_file_id < f.id) (Follows (some c) series)
                (λ f h. inr (same, h)) _ (filter-All c.episode_file_id fs))
        | inr n ↦ rw (n) (All-any _ (λ f. inl (ground arith)) fs)
      ]

  -- The counts of a walk, and the cursor that it would leave.
  abbrev pub IsOnWay : Walk → Type 0
  IsOnWay w =
      (w.created ≤ w.processed)
      × (w.processed ≤ batch_size)
      × ((w.processed ≡ 0) ⊎ ((d : Cursor) × (w.new_cursor ≡ some d) × After start d))

  -- A walk that has not exhausted its list has used up the batch.
  abbrev Reaches : Walked → Type 0
  Reaches walk_error = Unit
  Reaches (walked w true) = IsOnWay w
  Reaches (walked w false) = IsOnWay w × (w.processed ≡ batch_size)

  abbrev ReachesOne : Option Walk → Type 0
  ReachesOne none = Unit
  ReachesOne (some w) = IsOnWay w

  then_walk-Reaches :
      (o : Option Walk) (f : Walk → Walked)
      → ReachesOne o
      → ((w : Walk) → IsOnWay w → Reaches (f w))
      → Reaches (then_walk o f)
  then_walk-Reaches none f i h = tt
  then_walk-Reaches (some w) f i h = h w i

  then_series-Reaches :
      (x : Walked) (f : Walk → Walked)
      → Reaches x
      → ((w : Walk) → IsOnWay w → Reaches (f w))
      → Reaches (then_series x f)
  then_series-Reaches walk_error f i h = tt
  then_series-Reaches (walked w true) f i h = h w i
  then_series-Reaches (walked w false) f i h = i

  after_file-Reaches :
      (series : ℕ) (f : EpisodeFile) (w : Walk) (c : Captured)
      → w.processed < batch_size
      → Follows start series f
      → IsOnWay w
      → ReachesOne (after_file (count_file series f w) c)
  after_file-Reaches series f w (captured t) l a i =
      (omega (arith, i.0), omega (arith, l), inr (_, refl, a))
  after_file-Reaches series f w (skipped errored) l a i =
      (omega (arith, i.0), omega (arith, l), inr (_, refl, a))
  after_file-Reaches series f w raised l a i = tt

  full-Reaches :
      (w : Walk) → leb batch_size w.processed ≡ true → IsOnWay w → Reaches (walked w false)
  full-Reaches w l i = (i, ground (arith, i.1))

  walk_files-Reaches :
      (series : ℕ) (eps : List SeriesEpisode) (fs : List EpisodeFile) (w : Walk)
      → All (Follows start series) fs
      → IsOnWay w
      → Reaches (walk_files cfg disk library now instance_id batch_size series eps fs w)
  unfolding walk_files
  walk_files-Reaches series eps [] w a i = i
  walk_files-Reaches series eps (f ∷ fs) w a i = elim (Bool-cases (leb batch_size w.processed)) [
    | inl l ↦ rw (l) (full-Reaches w l i)
    | inr l ↦ rw (l) (
        then_walk-Reaches _ _ (after_file-Reaches series f w _ (ground arith) a.0 i)
          (λ v j. walk_files-Reaches series eps fs v a.1 j))
  ]

  fetched_files-Reaches :
      (series : ℕ) (eps : Option (List SeriesEpisode)) (fs : Option (List EpisodeFile)) (w : Walk)
      → Reachable start series
      → IsOnWay w
      → Reaches (fetched_files cfg disk library now instance_id batch_size start series eps fs w)
  fetched_files-Reaches series (some eps) (some fs) w r i =
      walk_files-Reaches series eps _ w (next_files series (sort_files fs) r) i
  fetched_files-Reaches series none fs w r i = tt
  fetched_files-Reaches series (some eps) none w r i = tt

  walk_series-Reaches :
      (ss : List ℕ) (w : Walk)
      → All (Reachable start) ss
      → IsOnWay w
      → Reaches (walk_series cfg disk library now instance_id batch_size start ss w)
  unfolding walk_series
  walk_series-Reaches [] w a i = i
  walk_series-Reaches (s ∷ ss) w a i = elim (Bool-cases (leb batch_size w.processed)) [
    | inl l ↦ rw (l) (full-Reaches w l i)
    | inr l ↦ rw (l) (
        then_series-Reaches _ _
          (fetched_files-Reaches s (library.episodes s) (library.episode_files s) w a.0 i)
          (λ v j. walk_series-Reaches ss v a.1 j))
  ]

  -- What a step has done: it is complete, or it has used up the batch and its cursor has moved on.
  abbrev pub Advanced : Walk → Option Cursor → Type 0
  Advanced w o =
      (w.created ≤ w.processed)
      × (w.processed ≤ batch_size)
      × ((o ≡ none) ⊎ ((d : Cursor) × (o ≡ some d) × (w.processed ≡ batch_size) × After start d))

  end-Advanced :
      (x : Walked) (w : Walk) (o : Option Cursor)
      → 0 < batch_size
      → Reaches x
      → end_cursor x ≡ some (w, o)
      → Advanced w o
  end-Advanced walk_error w o p r e = ground arith
  end-Advanced (walked v true) w o p r e =
      let same : v ≡ w = ground arith in
      subst (λ z. Advanced z o) same (r.0, r.1, inl (ground arith))
  end-Advanced (walked v false) w o p r e =
      let same : v ≡ w = ground arith in
      let cursor : v.new_cursor ≡ o = ground arith in
      subst (λ z. Advanced z o) same
        (
          r.0.0,
          r.0.1,
          elim r.0.2 [ inl zero ↦ ground arith | inr k ↦ inr (k.0, sym cursor ∙ k.1, r.1, k.2) ],
        )

Reachable-from :
    (c : Option Cursor) (ss : List ℕ)
    → IsSorted ss
    → All (Reachable c) (from_series (start_series c) ss)
Reachable-from none ss i = All-any _ (λ s. tt) _
Reachable-from (some c) ss i = from_start c.series_id ss i

library-Advanced :
    (cfg : InstanceConfig) (disk : Files) (library : Library) (now instance_id batch_size : ℕ)
    (cursor : Option Cursor) (all_series : Option (List ℕ)) (t : Tables) (w : Walk)
    (o : Option Cursor)
    → 0 < batch_size
    → walk_library cfg disk library now instance_id batch_size
        (start_series cursor)
        cursor
        all_series
        t
      ≡ some (w, o)
    → Advanced cfg disk library now instance_id batch_size cursor w o
library-Advanced cfg disk library now instance_id batch_size cursor none t w o p e = ground arith
library-Advanced cfg disk library now instance_id batch_size cursor (some ss) t w o p e =
    end-Advanced cfg disk library now instance_id batch_size cursor _ w o p
      (walk_series-Reaches cfg disk library now instance_id batch_size cursor _ (start_walk t)
        (Reachable-from cursor (sort_series ss) (sort-IsSorted ss))
        (omega arith, omega arith, inl refl))
      e

-- A step of at least one file, resumed from the cursor, captures no more files than it processes, and
-- processes no more than the batch. Unless it ends complete, with no cursor, it has processed exactly
-- the batch, and leaves a cursor that comes after the one it started from, by series and then by file.
pub backfill_step-Advanced :
    (cfg : InstanceConfig) (disk : Files) (library : Library) (now instance_id batch_size : ℕ)
    (cursor : Option Cursor) (t : Tables) (w : Walk) (o : Option Cursor)
    → 0 < batch_size
    → backfill_step cfg disk library now instance_id batch_size cursor false none t ≡ some (w, o)
    → Advanced cfg disk library now instance_id batch_size cursor w o
unfolding backfill_step
backfill_step-Advanced cfg disk library now instance_id batch_size cursor t w o p e =
    library-Advanced cfg disk library now instance_id batch_size cursor library.all_series t w o p e

-- ===== src/Pipeline.antt =====
-- src/impostarr/pipeline.py: what the stages of a job share. The series context, the ident that
-- Sonarr claims for a file, and the season and numbers that a set of episode ids stands for.
pub mod World
pub mod Plugins
pub mod Assets
pub mod Duplicates
pub mod Process
use text.Mathlib.TextPositions.{eq_refl}
use impostarr.Prelude.{
  ℕ, String, Option, none, some, List, [], ◌∷◌, leb, if◌then◌else◌, filter, str_eq, ◌==◌, ◌&&◌, ◌≡◌,
  refl, inl, inr, Option-cases, ==_iff,
}
use impostarr.IdSet.{member}
use impostarr.Candidates.{ExternalIds}
use impostarr.Normalize.{Episode}

-- `SeriesContext`: of the series, the ids under which other databases know it. The reference
-- subtitles are no data, and are left out.
pub record SeriesContext : Type 0 where
  pub external_ids : ExternalIds
  pub episodes : List Episode

pub record ClaimedIdent : Type 0 where
  pub season : ℕ
  pub episodes : List ℕ
  pub episode_ids : List ℕ

-- What `_season_and_numbers` returns; `malformed` is the error of an episode without a number.
pub data Resolution : Type 0 where
  no_match malformed : Resolution
  resolved : ℕ → List ℕ → Resolution

-- `sorted` of integers.
unfoldable pub insert_number : ℕ → List ℕ → List ℕ
insert_number n [] = n ∷ []
insert_number n (m ∷ ms) = let rest = insert_number n ms in if leb n m then n ∷ m ∷ ms else m ∷ rest

unfoldable pub sort_numbers : List ℕ → List ℕ
unfolding insert_number
sort_numbers [] = []
sort_numbers (n ∷ ns) = insert_number n (sort_numbers ns)

abbrev pub cons_number : Option ℕ → Option (List ℕ) → Option (List ℕ)
cons_number (some n) (some ns) = some (n ∷ ns)
cons_number _ _ = none

-- `ep["episode_number"] for ep in matched`
unfoldable pub episode_numbers : List Episode → Option (List ℕ)
episode_numbers [] = some []
episode_numbers (ep ∷ eps) = cons_number ep.episode_number (episode_numbers eps)

abbrev pub matched_episodes : List ℕ → List Episode → List Episode
matched_episodes ids episodes = filter (λ ep. member ep.id ids) episodes

abbrev pub resolution : Option ℕ → Option (List ℕ) → Resolution
resolution (some season) (some numbers) = resolved season (sort_numbers numbers)
resolution _ _ = malformed

unfoldable pub resolve_matched : List Episode → Resolution
unfolding episode_numbers sort_numbers
resolve_matched [] = no_match
resolve_matched (ep ∷ eps) = resolution ep.season_number (episode_numbers (ep ∷ eps))

-- `_season_and_numbers`
unfoldable pub season_and_numbers : List ℕ → List Episode → Resolution
unfolding resolve_matched
season_and_numbers episode_ids episodes = resolve_matched (matched_episodes episode_ids episodes)

-- `PipelineDeps.series_cache`
abbrev pub SeriesCache : Type 0
SeriesCache = List ((String × ℕ) × SeriesContext)

unfoldable pub cached_context : SeriesCache → String → ℕ → Option SeriesContext
cached_context [] instance_name series_id = none
cached_context (((name, id), ctx) ∷ rest) instance_name series_id =
    if str_eq name instance_name && id == series_id
    then some ctx
    else cached_context rest instance_name series_id

abbrev pub remember :
    SeriesCache → String → ℕ → Option SeriesContext → SeriesCache × Option SeriesContext
remember cache instance_name series_id none = (cache, none)
remember cache instance_name series_id (some ctx) =
    (((instance_name, series_id), ctx) ∷ cache, some ctx)

abbrev pub use_context :
    SeriesCache
    → String
    → ℕ
    → Option SeriesContext
    → Option SeriesContext
    → SeriesCache × Option SeriesContext
use_context cache instance_name series_id answer (some ctx) = (cache, some ctx)
use_context cache instance_name series_id answer none =
    remember cache instance_name series_id answer

-- `_get_series_context`, with what Sonarr would answer; `none` is its error, which is not kept.
unfoldable pub get_series_context :
    SeriesCache → String → ℕ → Option SeriesContext → SeriesCache × Option SeriesContext
unfolding cached_context
get_series_context cache instance_name series_id answer =
    use_context cache instance_name series_id answer (cached_context cache instance_name series_id)

-- What was remembered is found.
remember_found :
    (cache : SeriesCache) (name : String) (id : ℕ) (answer : Option SeriesContext)
    (ctx : SeriesContext)
    → (remember cache name id answer).1 ≡ some ctx
    → cached_context (remember cache name id answer).0 name id ≡ some ctx
unfolding cached_context
remember_found cache name id none ctx h = absurd cc
remember_found cache name id (some c) ctx h = rw (eq_refl name, (==_iff id id).1 refl) h

use_context-again :
    (cache : SeriesCache) (name : String) (id : ℕ) (answer later : Option SeriesContext)
    (ctx : SeriesContext) (found : Option SeriesContext)
    → cached_context cache name id ≡ found
    → (use_context cache name id answer found).1 ≡ some ctx
    → let cache' = (use_context cache name id answer found).0 in
      use_context cache' name id later (cached_context cache' name id) ≡ (cache', some ctx)
use_context-again cache name id answer later ctx (some c) e h = rw e (rw h refl)
use_context-again cache name id answer later ctx none e h =
    rw (remember_found cache name id answer ctx h) refl

-- A series is fetched once: its context is found from then on, whatever Sonarr would answer.
pub get_series_context-again :
    (cache : SeriesCache) (name : String) (id : ℕ) (answer later : Option SeriesContext)
    (ctx : SeriesContext)
    → (get_series_context cache name id answer).1 ≡ some ctx
    → let cache' = (get_series_context cache name id answer).0 in
      get_series_context cache' name id later ≡ (cache', some ctx)
unfolding get_series_context
get_series_context-again cache name id answer later ctx h =
    use_context-again cache name id answer later ctx (cached_context cache name id) refl h

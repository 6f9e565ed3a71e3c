-- ===== src/Normalize.antt =====
-- src/impostarr/normalize.py: a plugin's candidate, mapped to the ids of Sonarr's episodes.
pub mod Matching
mod Tests
use impostarr.Prelude.{
  ℕ, ◌≡◌, Bool, true, false, ◌&&◌, Option, none, some, List, [], ◌∷◌, ◌==◌, if◌then◌else◌,
}
use impostarr.Candidates.{
  ExternalIds, SeriesRef, claimed_series, external, CandidateIdent, Numbering, tvdb_order,
  tmdb_order, absolute, scene, Candidate,
}
use impostarr.IdSet.{IdSet, add}

-- The keys of `Episode.model_dump()` that are read: a missing key and None are the same to `get`.
pub record Episode : Type 0 where
  pub id : ℕ
  pub season_number : Option ℕ
  pub episode_number : Option ℕ
  pub absolute_episode_number : Option ℕ
  pub scene_season_number : Option ℕ
  pub scene_episode_number : Option ℕ
  pub scene_absolute_episode_number : Option ℕ

-- `NormalizedCandidate | Unnormalizable`
pub data Normalized : Type 0 where
  in_series : IdSet → Normalized
  cross_series : ExternalIds → Normalized
  junk : Normalized
  unnormalizable : Normalized

-- `ep.get(key) == n`
abbrev pub equals : Option ℕ → ℕ → Bool
equals none n = false
equals (some m) n = m == n

-- The id of the first episode that passes the test.
unfoldable pub find_id : (Episode → Bool) → List Episode → Option ℕ
find_id p [] = none
find_id p (ep ∷ eps) = if p ep then some ep.id else find_id p eps

abbrev pub by_numbers : ℕ → ℕ → Episode → Bool
by_numbers season epnum ep = equals ep.season_number season && equals ep.episode_number epnum

abbrev pub by_absolute : ℕ → Episode → Bool
by_absolute epnum ep = equals ep.absolute_episode_number epnum

abbrev pub by_scene : ℕ → ℕ → Episode → Bool
by_scene season epnum ep =
    equals ep.scene_season_number season && equals ep.scene_episode_number epnum

abbrev pub by_scene_absolute : ℕ → Episode → Bool
by_scene_absolute epnum ep = equals ep.scene_absolute_episode_number epnum

unfoldable pub match_tvdb : List Episode → ℕ → ℕ → Option ℕ
match_tvdb episodes season epnum = find_id (by_numbers season epnum) episodes

unfoldable pub match_absolute : List Episode → ℕ → ℕ → Option ℕ
match_absolute episodes season epnum = find_id (by_absolute epnum) episodes

abbrev pub or_else : Option ℕ → Option ℕ → Option ℕ
or_else none o = o
or_else (some n) o = some n

unfoldable pub match_scene : List Episode → ℕ → ℕ → Option ℕ
match_scene episodes season epnum = or_else (find_id (by_scene season epnum) episodes) (
    or_else (find_id (by_scene_absolute epnum) episodes)
      (find_id (by_numbers season epnum) episodes))

-- `_MATCHERS`
unfoldable pub matcher : Numbering → List Episode → ℕ → ℕ → Option ℕ
matcher tvdb_order = match_tvdb
matcher tmdb_order = match_tvdb
matcher absolute = match_absolute
matcher scene = match_scene

-- The loop over `ident.episodes`, from the ids found so far.
unfoldable pub match_all : (ℕ → Option ℕ) → List ℕ → IdSet → Normalized
match_all find [] ids = in_series ids
match_all find (epnum ∷ rest) ids = elim (find epnum) [
  | none ↦ unnormalizable
  | some matched_id ↦ match_all find rest (add matched_id ids)
]

-- `none` is the KeyError of `_MATCHERS[None]`.
unfoldable pub normalize : {F : Type 0} → Candidate F → List Episode → Option Normalized
unfolding match_all matcher
normalize candidate episodes = elim candidate.ident [
  | none ↦ some junk
  | some ident ↦ elim ident.series [
    | external ids ↦ some (cross_series ids)
    | claimed_series ↦ elim candidate.numbering [
      | none ↦ none
      | some numbering ↦
          some (match_all (matcher numbering episodes ident.season) ident.episodes [])
    ]
  ]
]

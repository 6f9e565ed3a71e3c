-- ===== src/Normalize/Tests.antt =====
-- `normalize` at a small series.
use impostarr.Prelude.{ℕ, ◌≡◌, refl, ◌⊎◌, true, false, Option, none, some, List, [], ◌∷◌, arith}
use impostarr.Candidates.{Candidate, tvdb_order}
use impostarr.IdSet.{IdSet, IsIncreasing, member, add}
use impostarr.Normalize.{
  Episode, in_series, unnormalizable, normalize, matcher, match_scene, match_all, match_tvdb,
  find_id,
}
use impostarr.Normalize.Matching.{in_claimed, all_found, stands_for, normalize_all_or_nothing}

abbrev plain : ℕ → ℕ → Option ℕ → Episode
plain id number scene_absolute = record {
  id = id;
  season_number = some 1;
  episode_number = some number;
  absolute_episode_number = none;
  scene_season_number = none;
  scene_episode_number = none;
  scene_absolute_episode_number = scene_absolute;
}

-- The second episode's scene number is the first's plain number.
abbrev series : List Episode
series = plain 101 1 none ∷ plain 102 2 (some 1) ∷ plain 103 3 none ∷ []

abbrev parts : List ℕ → Candidate ℕ
parts epnums = in_claimed 900 1 epnums tvdb_order

two_parts : normalize (parts (3 ∷ 1 ∷ [])) series ≡ some (in_series (101 ∷ 103 ∷ []))
unfolding normalize match_all matcher match_tvdb find_id add
two_parts = refl

missing_part : normalize (parts (3 ∷ 9 ∷ [])) series ≡ some unnormalizable
unfolding normalize match_all matcher match_tvdb find_id add
missing_part = refl

normalize_all_or_nothing_example :
    let find = matcher tvdb_order series 1 in
    let r = normalize (parts (3 ∷ 1 ∷ [])) series in
    ((all_found find (3 ∷ 1 ∷ []) ≡ false) × (r ≡ some unnormalizable))
    ⊎ ((all_found find (3 ∷ 1 ∷ []) ≡ true)
        × ((ids : IdSet) × (r ≡ some (in_series ids))
            × IsIncreasing ids
            × ((n : ℕ) → member n ids ≡ stands_for find (3 ∷ 1 ∷ []) n)))
normalize_all_or_nothing_example =
    normalize_all_or_nothing {F = ℕ} 900 1 (3 ∷ 1 ∷ []) tvdb_order series

scene_found : match_scene series 1 1 ≡ some 102
unfolding match_scene find_id
scene_found = refl

stands_same :
    (n : ℕ)
    → stands_for (matcher tvdb_order series 1) (3 ∷ 1 ∷ []) n
      ≡ stands_for (matcher tvdb_order series 1) (1 ∷ 3 ∷ 1 ∷ []) n
unfolding matcher match_tvdb find_id
stands_same n = ground arith

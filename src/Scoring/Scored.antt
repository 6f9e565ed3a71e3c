-- ===== src/Scoring/Scored.antt =====
-- The scores of `aggregate` of src/impostarr/scoring.py, in terms of what each applicable plugin said
-- of each key, and when they raise.
use impostarr.Prelude.{
  ◌≡◌, ◌≢◌, refl, sym, subst, ap, ◌∙◌, ◌⊎◌, inl, inr, arith, any, Bool, true, false, Option, none,
  some, List, [], ◌∷◌, map, Bool-cases, length, All,
}
use mathlib.Core.Option.{some-injective}
use impostarr.Float.{Float}
use impostarr.IdSet.{IdSet}
use impostarr.Scoring.Keys.{Key, episodes, key_eq, key_eq_iff, key_eq_refl}
use impostarr.Scoring.KeyDict.{Dict, get, get_or, IsDistinct}
use impostarr.Scoring.{
  PluginOutcome, Report, ScoringConfig, gather, logodds, fused, fuse_raises, fuse, cons_score,
  reject_outliers, score_all, full_sheet, aggregate_on,
}
use impostarr.Scoring.Reports.{
  said, get-gather, IsZipped, plugins_said, gather_total, gather-IsDistinct,
}

from_or : {A : Type 0} (x : Option (List A)) (l : List A) → get_or x [] ≡ l → l ≢ [] → x ≡ some l
from_or none l e h = absurd (h (sym e))
from_or (some m) l e h = ap some e

nil_ne_cons : {A : Type 0} (x : A) (xs : List A) → ¬ (◌≡◌ {A = List A} [] (x ∷ xs))
nil_ne_cons x xs h = cc

pub none-some : {A : Type 0} (x : A) → ¬ (◌≡◌ {A = Option A} none (some x))
none-some x h = cc

module _ {F : Type 0} (o : Float F) (cfg : ScoringConfig F) where
  -- The score of a key from the reports on it.
  abbrev pub scored : Key → List (Report F) → F
  scored k reports = fused o (reject_outliers o k reports cfg).0 cfg

  -- The score of a key on which some plugin has an opinion.
  abbrev pub score_on : Key → Key → List (PluginOutcome F) → F
  score_on claimed k outcomes = scored k (said o claimed k outcomes)

  unfoldable pub map_get : Key → Option (List (Report F)) → Option F
  map_get k none = none
  map_get k (some reports) = some (scored k reports)

  -- The scores of the keys, where none raises.
  unfoldable pub scores_of : Dict (List (Report F)) → Dict F
  scores_of = map (λ e. (e.0, scored e.0 e.1))

  -- The fusion of the reports on this key raises.
  abbrev raises_on : Key × List (Report F) → Bool
  raises_on e = fuse_raises o (reject_outliers o e.0 e.1 cfg).0 cfg

  fuse-fused :
      (reports : List (Report F))
      → fuse_raises o reports cfg ≡ false
      → fuse o reports cfg ≡ some (fused o reports cfg)
  unfolding fuse
  fuse-fused reports e = rw e refl

  fuse-raises :
      (reports : List (Report F)) → fuse_raises o reports cfg ≡ true → fuse o reports cfg ≡ none
  unfolding fuse
  fuse-raises reports e = rw e refl

  -- Linear fusion does not raise.
  raises-logodds :
      (reports : List (Report F)) → fuse_raises o reports cfg ≡ true → cfg.fusion ≡ logodds
  unfolding fuse_raises
  raises-logodds reports e = ground arith

  no_cons : (k : Key) (s : Option F) → cons_score o k s none ≡ none
  no_cons k none = refl
  no_cons k (some s) = refl

  score_all-scores_of :
      (d : Dict (List (Report F)))
      → any raises_on d ≡ false
      → score_all o cfg d ≡ some (scores_of d)
  unfolding score_all scores_of
  score_all-scores_of [] h = refl
  score_all-scores_of ((k, reports) ∷ d) h =
      let here : raises_on (k, reports) ≡ false = ground (arith, h) in
      let there : any raises_on d ≡ false = ground (arith, h) in
      rw (fuse-fused (reject_outliers o k reports cfg).0 here, score_all-scores_of d there) refl

  skips :
      (k j : Key) (reports rs : List (Report F)) (d : Dict (List (Report F)))
      → get k d ≡ none
      → get j d ≡ some rs
      → get j ((k, reports) ∷ d) ≡ some rs
  unfolding get
  skips k j reports rs d missing found = elim (Bool-cases (key_eq k j)) [
    | inl e ↦
        let q : k ≡ j = (key_eq_iff k j).0 e in
        let stuck : ◌≡◌ {A = Option (List (Report F))} none (some rs) =
          sym missing ∙ (rw q found) in
        absurd (none-some rs stuck)
    | inr e ↦ rw e found
  ]

  score_all-raises :
      (d : Dict (List (Report F)))
      → IsDistinct d
      → any raises_on d ≡ true
      → (k : Key) × (reports : List (Report F)) × (get k d ≡ some reports)
        × (raises_on (k, reports) ≡ true)
        × (score_all o cfg d ≡ none)
  unfolding score_all get
  score_all-raises [] distinct h = absurd (ground (arith, h))
  score_all-raises ((k, reports) ∷ d) distinct h = elim (Bool-cases (raises_on (k, reports))) [
    | inl e ↦ (
      k,
      reports,
      rw (key_eq_refl k) refl,
      e,
      rw (fuse-raises (reject_outliers o k reports cfg).0 e) refl,
    )
    | inr e ↦
        let (j, rs, found, up, failed) = score_all-raises d distinct.1 (ground (arith, h, e)) in
        (j, rs, skips k j reports rs d distinct.0 found, up, rw failed (no_cons k _))
  ]

  pub get-scores_of :
      (k : Key) (d : Dict (List (Report F))) → get k (scores_of d) ≡ map_get k (get k d)
  unfolding scores_of get map_get
  get-scores_of k [] = refl
  get-scores_of k ((j, reports) ∷ d) = elim (Bool-cases (key_eq j k)) [
    | inl e ↦ let q : j ≡ k = (key_eq_iff j k).0 e in rw e (rw q)
    | inr e ↦ rw e (get-scores_of k d)
  ]

  pub scores_of-IsDistinct : (d : Dict (List (Report F))) → IsDistinct d → IsDistinct (scores_of d)
  unfolding scores_of map_get
  scores_of-IsDistinct [] h = tt
  scores_of-IsDistinct ((k, reports) ∷ d) h =
      (get-scores_of k d ∙ ap (map_get k) h.0, scores_of-IsDistinct d h.1)

  -- The reports on a key, where some plugin has an opinion on it.
  pub get-said :
      (claimed k : Key) (outcomes : List (PluginOutcome F)) (d : Dict (List (Report F)))
      → gather o claimed outcomes [] ≡ some d
      → said o claimed k outcomes ≢ []
      → get k d ≡ some (said o claimed k outcomes)
  unfolding get
  get-said claimed k outcomes d e h =
      from_or (get k d) (said o claimed k outcomes) (get-gather o claimed k outcomes [] d e) h

  -- The claimed key's score: none without an applicable plugin.
  abbrev pub claimed_score : Key → List (PluginOutcome F) → Option F
  claimed_score claimed [] = none
  claimed_score claimed (first ∷ rest) = some (score_on claimed claimed (first ∷ rest))

  said_claimed :
      (claimed : Key) (first : PluginOutcome F) (rest : List (PluginOutcome F))
      → All (IsZipped o) (first ∷ rest)
      → said o claimed claimed (first ∷ rest) ≢ []
  said_claimed claimed first rest z e =
      nil_ne_cons first.plugin_name (map (λ oc. oc.plugin_name) rest)
        (rw e at (plugins_said o claimed (first ∷ rest) z))

  -- The reports on a key that are fused.
  abbrev pub pool_on : Key → Key → List (PluginOutcome F) → List (Report F)
  pool_on claimed k outcomes = (reject_outliers o k (said o claimed k outcomes) cfg).0

  -- The log-odds of the reports on some key raise.
  abbrev pub Raises : Key → List (PluginOutcome F) → Type 0
  Raises claimed outcomes =
      (k : Key) × (cfg.fusion ≡ logodds) × (fuse o (pool_on claimed k outcomes) cfg ≡ none)

  -- No fusion of the reports on a key raises.
  abbrev pub IsScored : Key → List (PluginOutcome F) → Type 0
  IsScored claimed outcomes =
      (k : Key)
      → said o claimed k outcomes ≢ []
      → fuse o (pool_on claimed k outcomes) cfg ≡ some (score_on claimed k outcomes)

  -- `aggregate` on some applicable outcomes.
  abbrev Ends : IdSet → PluginOutcome F → List (PluginOutcome F) → Dict (List (Report F)) → Type 0
  Ends claimed_ids first rest d =
      let claimed = episodes claimed_ids in
      (Raises claimed (first ∷ rest) × (aggregate_on o claimed_ids cfg (first ∷ rest) ≡ none))
      ⊎ (IsScored claimed (first ∷ rest)
          × (aggregate_on o claimed_ids cfg (first ∷ rest)
              ≡ some (
                  full_sheet o claimed (length (first ∷ rest)) cfg d (scores_of d)
                    (score_on claimed claimed (first ∷ rest)))))

  in_dict :
      (k : Key) (reports : List (Report F)) (d : Dict (List (Report F)))
      → get k d ≡ some reports
      → any raises_on d ≡ false
      → fuse o (reject_outliers o k reports cfg).0 cfg ≡ some (scored k reports)
  unfolding get
  in_dict k reports [] g h = cc
  in_dict k reports ((j, rs) ∷ d) g h = elim (Bool-cases (key_eq j k)) [
    | inl e ↦
        let q : j ≡ k = (key_eq_iff j k).0 e in
        let r : rs ≡ reports = some-injective _ _ (rw e at g) in
        let here : raises_on (j, rs) ≡ false = ground (arith, h) in
        rw (← q, ← r) (fuse-fused (reject_outliers o j rs cfg).0 here)
    | inr e ↦ in_dict k reports d (rw e at g) (ground (arith, h))
  ]

  pub aggregate_on-Ends :
      (claimed_ids : IdSet) (first : PluginOutcome F) (rest : List (PluginOutcome F))
      → All (IsZipped o) (first ∷ rest)
      → (d : Dict (List (Report F))) × (gather o (episodes claimed_ids) (first ∷ rest) [] ≡ some d)
        × Ends claimed_ids first rest d
  unfolding aggregate_on map_get get
  aggregate_on-Ends claimed_ids first rest z =
      let claimed = episodes claimed_ids in
      let (d, e) = gather_total o claimed (first ∷ rest) [] z in
      (
        d,
        e,
        elim (Bool-cases (any raises_on d)) [
          | inl up ↦
              let (k, reports, found, bad, failed) =
                score_all-raises d (gather-IsDistinct o claimed (first ∷ rest) [] d tt e) up in
              let q : reports ≡ said o claimed k (first ∷ rest) =
                ap (λ x. get_or x []) (sym found) ∙ get-gather o claimed k (first ∷ rest) [] d e in
              inl (
                (
                  k,
                  raises-logodds (reject_outliers o k reports cfg).0 bad,
                  subst (λ l. fuse o (reject_outliers o k l cfg).0 cfg ≡ none) q
                      (fuse-raises (reject_outliers o k reports cfg).0 bad),
                ),
                rw (e, aggregate_on) (rw failed refl),
              )
          | inr fine ↦
              let there : get claimed (scores_of d)
                  ≡ some (score_on claimed claimed (first ∷ rest)) =
                get-scores_of claimed d
                ∙ ap (map_get claimed) (
                    get-said claimed claimed (first ∷ rest) d e
                      (said_claimed claimed first rest z)) in
              inr (
                (λ k h.
                    in_dict k (said o claimed k (first ∷ rest)) d
                      (get-said claimed k (first ∷ rest) d e h) fine),
                rw (e, aggregate_on) (rw (score_all-scores_of d fine, there) refl),
              )
        ],
      )

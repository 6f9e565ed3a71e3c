-- ===== src/Scoring/Sheet.antt =====
-- The sheet that `aggregate` of src/impostarr/scoring.py returns: its claimed score and its alternate.
use impostarr.Prelude.{
  ℕ, ◌≡◌, ◌≢◌, refl, sym, subst, ap, ◌∙◌, ◌⊎◌, inl, inr, true, false, Option, none, some, List, [],
  ◌∷◌, map, length, filter, All,
}
use mathlib.Core.Option.{some-injective}
use impostarr.Float.{Float, IsOrdered}
use impostarr.IdSet.{IdSet}
use impostarr.Scoring.Keys.{Key, episodes, key_eq, key_repr, text_le}
use impostarr.Scoring.KeyDict.{Dict, get, get_or}
use impostarr.Scoring.{
  PluginOutcome, Report, ScoringConfig, ScoreSheet, gather, alternate, full_sheet, aggregate_on,
  aggregate, applicable, empty_sheet, option_map, not_claimed,
}
use impostarr.Scoring.Reports.{said, get-gather, IsZipped, plugins_said, gather-IsDistinct}
use impostarr.Scoring.Entries.{In-get, get-In, In-filter, filter-In}
use impostarr.Scoring.Alternate.{In, IsBest, alternate-IsBest}
use impostarr.Scoring.Scored.{
  none-some, scored, score_on, map_get, scores_of, Raises, IsScored, aggregate_on-Ends,
  claimed_score, get-said, get-scores_of, scores_of-IsDistinct,
}

module _ {F : Type 0} (o : Float F) (cfg : ScoringConfig F) where
  -- The sheet of these outcomes, in terms of what was said of the claimed key.
  abbrev pub IsSheet : IdSet → List (PluginOutcome F) → ScoreSheet F → Type 0
  IsSheet claimed_ids outcomes sheet =
      let claimed = episodes claimed_ids in
      (sheet.applicable_count ≡ length outcomes)
      × (sheet.s_claimed ≡ claimed_score o cfg claimed outcomes)
      × (map (λ r. r.plugin) (said o claimed claimed outcomes)
          ≡ map (λ oc. oc.plugin_name) outcomes)
      × IsScored o cfg claimed outcomes

  claimed_on :
      (claimed_ids : IdSet) (outcomes : List (PluginOutcome F))
      → All (IsZipped o) outcomes
      → (Raises o cfg (episodes claimed_ids) outcomes
          × (aggregate_on o claimed_ids cfg outcomes ≡ none))
        ⊎ ((sheet : ScoreSheet F) × (aggregate_on o claimed_ids cfg outcomes ≡ some sheet)
            × IsSheet claimed_ids outcomes sheet)
  claimed_on claimed_ids [] z =
      unfold aggregate_on said in
      inr (empty_sheet o, refl, (refl, refl, refl, λ k h. absurd (h refl)))
  claimed_on claimed_ids (first ∷ rest) z =
      let claimed = episodes claimed_ids in
      let (d, e, ends) = aggregate_on-Ends o cfg claimed_ids first rest z in
      elim ends [
        | inl raised ↦ inl raised
        | inr full ↦ inr (
          full_sheet o claimed (length (first ∷ rest)) cfg d (scores_of o cfg d)
              (score_on o cfg claimed claimed (first ∷ rest)),
          full.1,
          (
            unfold full_sheet in refl,
            unfold full_sheet in refl,
            plugins_said o claimed (first ∷ rest) z,
            full.0,
          ),
        )
      ]

  -- With as many normalized candidates as candidates in each applicable outcome, `aggregate` raises
  -- only with log-odds, when the fusion of the reports on some key raises. Otherwise it returns a
  -- sheet, and no fusion of reports raises. The sheet counts the applicable outcomes. Without any it
  -- has no score for the claimed episode; else that score is the fusion, after outlier rejection, of
  -- the reports on the claimed key, to which every applicable plugin has contributed exactly one.
  pub aggregate-claimed :
      (results : List (PluginOutcome F)) (claimed_ids : IdSet)
      → All (IsZipped o) (applicable o results)
      → (Raises o cfg (episodes claimed_ids) (applicable o results)
          × (aggregate o results claimed_ids cfg ≡ none))
        ⊎ ((sheet : ScoreSheet F) × (aggregate o results claimed_ids cfg ≡ some sheet)
            × IsSheet claimed_ids (applicable o results) sheet)
  unfolding aggregate
  aggregate-claimed results claimed_ids z = claimed_on claimed_ids (applicable o results) z

  abbrev IsAlternate : Key → List (PluginOutcome F) → Key → Option F → Type 0
  IsAlternate claimed outcomes alt s_alt =
      (key_eq alt claimed ≡ false)
      × (s_alt ≡ some (score_on o cfg claimed alt outcomes))
      × ((other : Key)
          → key_eq other claimed ≡ false
          → said o claimed other outcomes ≢ []
          → (o.le (score_on o cfg claimed other outcomes) (score_on o cfg claimed alt outcomes)
              ≡ true)
            × (o.le (score_on o cfg claimed alt outcomes) (score_on o cfg claimed other outcomes)
                  ≡ true
                → text_le (key_repr alt) (key_repr other) ≡ true))

  score_of_said :
      (k : Key) (s : F) (x : Option (List (Report F))) (l : List (Report F))
      → map_get o cfg k x ≡ some s
      → get_or x [] ≡ l
      → s ≡ scored o cfg k l
  unfolding map_get
  score_of_said k s none l h e = cc
  score_of_said k s (some reports) l h e =
      let q : scored o cfg k reports ≡ s = cc in sym q ∙ ap (scored o cfg k) e

  -- An entry of the scores is the score of what was said on its key.
  entry_score :
      (claimed k : Key) (s : F) (outcomes : List (PluginOutcome F)) (d : Dict (List (Report F)))
      → gather o claimed outcomes [] ≡ some d
      → In (k, s) (scores_of o cfg d)
      → s ≡ score_on o cfg claimed k outcomes
  unfolding get
  entry_score claimed k s outcomes d e m =
      let distinct =
        scores_of-IsDistinct o cfg d (gather-IsDistinct o claimed outcomes [] d tt e) in
      score_of_said k s (get k d) (said o claimed k outcomes)
        (sym (get-scores_of o cfg k d) ∙ In-get o k s (scores_of o cfg d) distinct m)
        (get-gather o claimed k outcomes [] d e)

  said_entry :
      (claimed k : Key) (outcomes : List (PluginOutcome F)) (d : Dict (List (Report F)))
      → gather o claimed outcomes [] ≡ some d
      → said o claimed k outcomes ≢ []
      → In (k, score_on o cfg claimed k outcomes) (scores_of o cfg d)
  unfolding map_get
  said_entry claimed k outcomes d e h =
      get-In o k _ (scores_of o cfg d)
        (get-scores_of o cfg k d ∙ ap (map_get o cfg k) (get-said o cfg claimed k outcomes d e h))

  best-IsAlternate :
      (claimed k : Key) (s : F) (outcomes : List (PluginOutcome F)) (d : Dict (List (Report F)))
      → gather o claimed outcomes [] ≡ some d
      → IsBest o (k, s) (filter (not_claimed o claimed) (scores_of o cfg d))
      → IsAlternate claimed outcomes k (some s)
  best-IsAlternate claimed k s outcomes d e b =
      let (m, n) = In-filter o claimed k s (scores_of o cfg d) b.in_list in
      let q : s ≡ score_on o cfg claimed k outcomes = entry_score claimed k s outcomes d e m in
      (
        n,
        ap some q,
        λ other ne h.
            let m' =
              filter-In o claimed other _ (scores_of o cfg d)
                (said_entry claimed other outcomes d e h) ne in
            (rw (← q) (b.greatest other _ m'), λ up. b.least other _ m' (rw q up)),
      )

  module _ (ord : IsOrdered o) (claimed : Key) (outcomes : List (PluginOutcome F))
      (d : Dict (List (Report F))) (e : gather o claimed outcomes [] ≡ some d) where
    pick_alternate :
        (alt : Key) (x : Option (Key × F))
        → alternate o (filter (not_claimed o claimed) (scores_of o cfg d)) ≡ x
        → option_map o (λ y. y.0) x ≡ some alt
        → IsAlternate claimed outcomes alt (option_map o (λ y. y.1) x)
    pick_alternate alt none q a = cc
    pick_alternate alt (some (k, s)) q a =
        let p : k ≡ alt = cc in
        rw (← p) (best-IsAlternate claimed k s outcomes d e (alternate-IsBest o ord _ _ q))

    full-IsAlternate :
        (alt : Key) (count : ℕ) (s_claimed : F)
        → (full_sheet o claimed count cfg d (scores_of o cfg d) s_claimed).alt_key ≡ some alt
        → IsAlternate claimed outcomes alt
            (full_sheet o claimed count cfg d (scores_of o cfg d) s_claimed).s_alt
    unfolding full_sheet
    full-IsAlternate alt count s_claimed a = pick_alternate alt _ refl a

  IsAlternate-on :
      (claimed_ids : IdSet) (outcomes : List (PluginOutcome F)) (sheet : ScoreSheet F) (alt : Key)
      → IsOrdered o
      → All (IsZipped o) outcomes
      → aggregate_on o claimed_ids cfg outcomes ≡ some sheet
      → sheet.alt_key ≡ some alt
      → IsAlternate (episodes claimed_ids) outcomes alt sheet.s_alt
  IsAlternate-on claimed_ids [] sheet alt ord z e a =
      let q : empty_sheet o ≡ sheet = unfold aggregate_on in some-injective _ _ e in
      let stuck : none ≡ some alt = rw (← q) at a in cc
  IsAlternate-on claimed_ids (first ∷ rest) sheet alt ord z e a =
      let claimed = episodes claimed_ids in
      let (d, g, ends) = aggregate_on-Ends o cfg claimed_ids first rest z in
      elim ends [
        | inl raised ↦ absurd (none-some sheet (sym raised.1 ∙ e))
        | inr full ↦
            let q = some-injective _ _ (sym full.1 ∙ e) in
            subst (λ x. x.alt_key ≡ some alt → IsAlternate claimed (first ∷ rest) alt x.s_alt) q
              (full-IsAlternate ord claimed (first ∷ rest) d g alt (length (first ∷ rest))
                (score_on o cfg claimed claimed (first ∷ rest)))
              a
      ]

  -- The alternate of a sheet is a key other than the claimed one, on which some applicable plugin
  -- has an opinion. Its score is that of the reports on it; no other unclaimed key with an opinion
  -- scores more, and one that scores as much has no smaller text.
  pub aggregate-alternate :
      (results : List (PluginOutcome F)) (claimed_ids : IdSet) (sheet : ScoreSheet F) (alt : Key)
      → IsOrdered o
      → All (IsZipped o) (applicable o results)
      → aggregate o results claimed_ids cfg ≡ some sheet
      → sheet.alt_key ≡ some alt
      → let claimed = episodes claimed_ids in
        let outcomes = applicable o results in
        (key_eq alt claimed ≡ false)
        × (sheet.s_alt ≡ some (score_on o cfg claimed alt outcomes))
        × ((other : Key)
            → key_eq other claimed ≡ false
            → said o claimed other outcomes ≢ []
            → (o.le (score_on o cfg claimed other outcomes) (score_on o cfg claimed alt outcomes)
                ≡ true)
              × (o.le (score_on o cfg claimed alt outcomes) (score_on o cfg claimed other outcomes)
                    ≡ true
                  → text_le (key_repr alt) (key_repr other) ≡ true))
  unfolding aggregate
  aggregate-alternate results claimed_ids sheet alt ord z e a =
      IsAlternate-on claimed_ids (applicable o results) sheet alt ord z e a

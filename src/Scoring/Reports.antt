-- ===== src/Scoring/Reports.antt =====
-- The reports that `aggregate` of src/impostarr/scoring.py gathers for a key, against a direct
-- description: one report from each applicable plugin that has an opinion on the key.
use impostarr.Prelude.{
  String, ◌≡◌, refl, sym, ap, ◌∙◌, ◌↔◌, inl, inr, Bool, true, false, Option, none, some, List, [],
  ◌∷◌, ◌++◌, map, arith, if◌then◌else◌, Bool-cases, Option-cases, All,
}
use mathlib.Core.List.{append_assoc, append-nil}
use impostarr.Float.{Float, max}
use impostarr.Candidates.{Candidate}
use impostarr.Normalize.{Normalized, in_series, cross_series, junk, unnormalizable}
use impostarr.Scoring.Keys.{
  Key, episodes, cross, junk_key, key_for, key_eq, key_eq_iff, key_eq_refl,
}
use impostarr.Scoring.KeyDict.{
  Dict, get, put, set_default, get_or, IsDistinct, get-put, get-set_default, put-IsDistinct,
  set_default-IsDistinct,
}
use impostarr.Scoring.{PluginOutcome, Report, zip_strict, per_plugin, file_reports, gather}

-- Whether a candidate is normalized to the key.
abbrev pub names_key : Key → Normalized → Bool
names_key k norm = elim (key_for norm) [ none ↦ false | some j ↦ key_eq j k ]

module _ {F : Type 0} (o : Float F) where
  -- The best of a plugin's confidences for one key, and of `best` so far.
  unfoldable pub best_for : Key → List (Candidate F × Normalized) → Option F → Option F
  best_for k [] best = best
  best_for k ((cand, norm) ∷ rest) best = best_for k rest (
      if names_key k norm then some (max o (get_or best cand.confidence) cand.confidence) else best)

  -- A plugin that says nothing of the claimed key counts as 0.0 there.
  abbrev pub or_claimed : Key → Key → Option F → Option F
  or_claimed claimed k none = if key_eq claimed k then some o.nought else none
  or_claimed claimed k (some c) = some c

  abbrev pub opinion : Key → Key → PluginOutcome F → Option F
  opinion claimed k outcome = elim (zip_strict outcome.result.candidates outcome.normalized) [
    | none ↦ none
    | some pairs ↦ or_claimed claimed k (best_for k pairs none)
  ]

  -- The reports on a key, one for each plugin with an opinion, in the order of the plugins.
  unfoldable pub said : Key → Key → List (PluginOutcome F) → List (Report F)
  said claimed k [] = []
  said claimed k (outcome ∷ rest) = elim (opinion claimed k outcome) [
    | none ↦ said claimed k rest
    | some c ↦
        record { plugin = outcome.plugin_name; weight = outcome.weight; confidence = c }
        ∷ said claimed k rest
  ]

  best_step :
      (k j : Key) (c : F) (d : Dict F)
      → get k (put j (max o (get_or (get j d) c) c) d)
        ≡ (if key_eq j k then some (max o (get_or (get k d) c) c) else get k d)
  best_step k j c d = ground (arith, get-put j k (max o (get_or (get j d) c) c) d, key_eq_iff j k)

  get-per_plugin :
      (k : Key) (pairs : List (Candidate F × Normalized)) (d : Dict F)
      → get k (per_plugin o pairs d) ≡ best_for k pairs (get k d)
  unfolding per_plugin best_for
  get-per_plugin k [] d = refl
  get-per_plugin k ((cand, unnormalizable) ∷ rest) d = get-per_plugin k rest d
  get-per_plugin k ((cand, in_series ids) ∷ rest) d =
      get-per_plugin k rest _ ∙ ap (best_for k rest) (best_step k (episodes ids) cand.confidence d)
  get-per_plugin k ((cand, cross_series ids) ∷ rest) d =
      get-per_plugin k rest _ ∙ ap (best_for k rest) (best_step k (cross ids) cand.confidence d)
  get-per_plugin k ((cand, junk) ∷ rest) d =
      get-per_plugin k rest _ ∙ ap (best_for k rest) (best_step k junk_key cand.confidence d)

  per_plugin-IsDistinct :
      (pairs : List (Candidate F × Normalized)) (d : Dict F)
      → IsDistinct d
      → IsDistinct (per_plugin o pairs d)
  unfolding per_plugin
  per_plugin-IsDistinct [] d h = h
  per_plugin-IsDistinct ((cand, unnormalizable) ∷ rest) d h = per_plugin-IsDistinct rest d h
  per_plugin-IsDistinct ((cand, in_series ids) ∷ rest) d h =
      per_plugin-IsDistinct rest _ (put-IsDistinct (episodes ids) _ d h)
  per_plugin-IsDistinct ((cand, cross_series ids) ∷ rest) d h =
      per_plugin-IsDistinct rest _ (put-IsDistinct (cross ids) _ d h)
  per_plugin-IsDistinct ((cand, junk) ∷ rest) d h =
      per_plugin-IsDistinct rest _ (put-IsDistinct junk_key _ d h)

  -- The dictionary of one plugin, with the default for the claimed key.
  abbrev plugin_dict : Key → List (Candidate F × Normalized) → Dict F
  plugin_dict claimed pairs = set_default claimed o.nought (per_plugin o pairs [])

  plugin_default :
      (claimed k : Key) (here best at_claimed : Option F)
      → ((key_eq claimed k ≡ true) ↔ (claimed ≡ k))
      → (claimed ≡ k → at_claimed ≡ here)
      → here ≡ best
      → (if key_eq claimed k then some (get_or at_claimed o.nought) else here)
        ≡ or_claimed claimed k best
  plugin_default claimed k none best at_claimed iff same e = elim (Bool-cases (key_eq claimed k)) [
    | inl q ↦ rw (q, ← e, same (iff.0 q)) (rw q)
    | inr q ↦ rw (q, ← e) (rw q)
  ]
  plugin_default claimed k (some c) best at_claimed iff same e =
      elim (Bool-cases (key_eq claimed k)) [
        | inl q ↦ rw (q, ← e, same (iff.0 q))
        | inr q ↦ rw (q, ← e)
      ]

  get-plugin_dict :
      (claimed k : Key) (pairs : List (Candidate F × Normalized))
      → get k (plugin_dict claimed pairs) ≡ or_claimed claimed k (best_for k pairs none)
  unfolding get
  get-plugin_dict claimed k pairs =
      let d = per_plugin o pairs [] in
      get-set_default claimed k o.nought d
      ∙ plugin_default claimed k (get k d) (best_for k pairs none) (get claimed d)
          (key_eq_iff claimed k) (λ e. rw e) (get-per_plugin k pairs [])

  -- What one more plugin does to the reports on a key.
  abbrev filed : String → F → Option F → Option (List (Report F)) → Option (List (Report F))
  filed name weight none old = old
  filed name weight (some c) old =
      some (get_or old [] ++ record { plugin = name; weight = weight; confidence = c } ∷ [])

  file_one :
      (k j : Key) (name : String) (weight c : F) (in_rest own : Option F)
      (old at_j now : Option (List (Report F)))
      → ((key_eq j k ≡ true) ↔ (j ≡ k))
      → (j ≡ k → own ≡ in_rest)
      → (j ≡ k → at_j ≡ old)
      → own ≡ none
      → now ≡ (
          if key_eq j k
          then some
              (get_or at_j [] ++ record { plugin = name; weight = weight; confidence = c } ∷ [])
          else old)
      → filed name weight in_rest now
        ≡ filed name weight (if key_eq j k then some c else in_rest) old
  file_one k j name weight c in_rest own old at_j now iff e1 e2 n p =
      elim (Bool-cases (key_eq j k)) [
        | inl q ↦
            let gone : in_rest ≡ none = sym (e1 (iff.0 q)) ∙ n in rw (p, q, gone, e2 (iff.0 q))
        | inr q ↦ rw (p, q)
      ]

  get-file_reports :
      (k : Key) (name : String) (weight : F) (items : Dict F) (reports : Dict (List (Report F)))
      → IsDistinct items
      → get k (file_reports o name weight items reports)
        ≡ filed name weight (get k items) (get k reports)
  unfolding file_reports get
  get-file_reports k name weight [] reports h = refl
  get-file_reports k name weight ((j, c) ∷ items) reports h =
      let report : Report F = record { plugin = name; weight = weight; confidence = c } in
      let reports' = put j (get_or (get j reports) [] ++ report ∷ []) reports in
      get-file_reports k name weight items reports' h.1
      ∙ file_one k j name weight c (get k items) (get j items) (get k reports) (get j reports)
          (get k reports') (key_eq_iff j k) (λ e. rw e) (λ e. rw e) h.0
          (get-put j k (get_or (get j reports) [] ++ report ∷ []) reports)

  -- What one outcome adds, and what the rest adds after it.
  one_more :
      (name : String) (weight : F) (own : Option F) (old : Option (List (Report F)))
      (rest : List (Report F))
      → get_or (filed name weight own old) [] ++ rest
        ≡ get_or old [] ++ elim own [
          | none ↦ rest
          | some c ↦ record { plugin = name; weight = weight; confidence = c } ∷ rest
        ]
  one_more name weight none old rest = refl
  one_more name weight (some c) old rest =
      append_assoc (get_or old []) (record { plugin = name; weight = weight; confidence = c } ∷ [])
        rest

  -- The dictionary of reports is, key by key, the direct description.
  pub get-gather :
      (claimed k : Key) (outcomes : List (PluginOutcome F)) (reports d : Dict (List (Report F)))
      → gather o claimed outcomes reports ≡ some d
      → get_or (get k d) [] ≡ get_or (get k reports) [] ++ said claimed k outcomes
  unfolding gather said
  get-gather claimed k [] reports d e = let q : reports ≡ d = cc in rw (← q, append-nil)
  get-gather claimed k (outcome ∷ rest) reports d e =
      elim (Option-cases (zip_strict outcome.result.candidates outcome.normalized)) [
        | inl z ↦
            let stuck : gather o claimed (outcome ∷ rest) reports ≡ none = rw (z, gather) in cc
        | inr (pairs, z) ↦
            let name = outcome.plugin_name in
            let weight = outcome.weight in
            let own = or_claimed claimed k (best_for k pairs none) in
            let reports' = file_reports o name weight (plugin_dict claimed pairs) reports in
            let goes_on : gather o claimed (outcome ∷ rest) reports
                ≡ gather o claimed rest reports' =
              rw (z, gather) in
            let said_here : said claimed k (outcome ∷ rest) ≡ elim own [
              | none ↦ said claimed k rest
              | some c ↦
                  record { plugin = name; weight = weight; confidence = c } ∷ said claimed k rest
            ] =
              rw (z, said) in
            let filed_here : get k reports' ≡ filed name weight own (get k reports) =
              get-file_reports k name weight (plugin_dict claimed pairs) reports
                (set_default-IsDistinct claimed o.nought _ (per_plugin-IsDistinct pairs [] tt))
              ∙ ap (λ x. filed name weight x (get k reports)) (get-plugin_dict claimed k pairs) in
            get-gather claimed k rest reports' d (sym goes_on ∙ e)
            ∙ ap (λ x. get_or x [] ++ said claimed k rest) filed_here
            ∙ one_more name weight own (get k reports) (said claimed k rest)
            ∙ ap (λ x. get_or (get k reports) [] ++ x) (sym said_here)
      ]

  -- On the claimed key every plugin has an opinion.
  claimed_opinion :
      (claimed : Key) (best : Option F) → (c : F) × (or_claimed claimed claimed best ≡ some c)
  claimed_opinion claimed none = (o.nought, rw (key_eq_refl claimed))
  claimed_opinion claimed (some c) = (c, refl)

  -- Each outcome has as many normalized candidates as candidates, as `zip(…, strict=True)` wants.
  abbrev pub IsZipped : PluginOutcome F → Type 0
  IsZipped outcome =
      (pairs : List (Candidate F × Normalized)) × (zip_strict outcome.result.candidates
          outcome.normalized
        ≡ some pairs)

  -- The reports on the claimed key come from every plugin, each once, in order.
  pub plugins_said :
      (claimed : Key) (outcomes : List (PluginOutcome F))
      → All IsZipped outcomes
      → map (λ r. r.plugin) (said claimed claimed outcomes) ≡ map (λ oc. oc.plugin_name) outcomes
  unfolding said
  plugins_said claimed [] z = refl
  plugins_said claimed (outcome ∷ rest) z =
      let (pairs, zipped) = z.0 in
      let (c, own) = claimed_opinion claimed (best_for claimed pairs none) in
      rw (zipped, said) (rw own (ap (λ t. outcome.plugin_name ∷ t) (plugins_said claimed rest z.1)))

  pub gather_total :
      (claimed : Key) (outcomes : List (PluginOutcome F)) (reports : Dict (List (Report F)))
      → All IsZipped outcomes
      → (d : Dict (List (Report F))) × (gather o claimed outcomes reports ≡ some d)
  unfolding gather
  gather_total claimed [] reports z = (reports, refl)
  gather_total claimed (outcome ∷ rest) reports z =
      let reports' =
        file_reports o outcome.plugin_name outcome.weight (plugin_dict claimed z.0.0) reports in
      let (d, e) = gather_total claimed rest reports' z.1 in (d, rw (z.0.1, gather) e)

  file_reports-IsDistinct :
      (name : String) (weight : F) (items : Dict F) (reports : Dict (List (Report F)))
      → IsDistinct reports
      → IsDistinct (file_reports o name weight items reports)
  unfolding file_reports
  file_reports-IsDistinct name weight [] reports h = h
  file_reports-IsDistinct name weight ((j, c) ∷ items) reports h =
      file_reports-IsDistinct name weight items _ (put-IsDistinct j _ reports h)

  pub gather-IsDistinct :
      (claimed : Key) (outcomes : List (PluginOutcome F)) (reports d : Dict (List (Report F)))
      → IsDistinct reports
      → gather o claimed outcomes reports ≡ some d
      → IsDistinct d
  unfolding gather
  gather-IsDistinct claimed [] reports d h e = let q : reports ≡ d = cc in rw (← q) h
  gather-IsDistinct claimed (outcome ∷ rest) reports d h e =
      elim (Option-cases (zip_strict outcome.result.candidates outcome.normalized)) [
        | inl z ↦
            let stuck : gather o claimed (outcome ∷ rest) reports ≡ none = rw (z, gather) in cc
        | inr (pairs, z) ↦
            let reports' =
              file_reports o outcome.plugin_name outcome.weight (plugin_dict claimed pairs)
                reports in
            let goes_on : gather o claimed (outcome ∷ rest) reports
                ≡ gather o claimed rest reports' =
              rw (z, gather) in
            gather-IsDistinct claimed rest reports' d
              (file_reports-IsDistinct outcome.plugin_name outcome.weight
                (plugin_dict claimed pairs) reports h)
              (sym goes_on ∙ e)
      ]

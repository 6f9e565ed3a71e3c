-- ===== src/Pipeline/Plugins/Zipped.antt =====
-- src/impostarr/pipeline.py: what the plugin stage hands on to `aggregate`.
use impostarr.Prelude.{
  ℕ, String, ◌≡◌, ◌⊎◌, refl, inl, inr, Bool, true, Option, none, some, List, [], ◌∷◌, Bool-cases,
  All, All-append, subst, all, &&_true, length, ltb,
}
use impostarr.IdSet.{IdSet}
use impostarr.Float.{Float}
use impostarr.Candidates.{Candidate, PluginResult, coupled, valid_result}
use impostarr.Normalize.{Episode, Normalized}
use impostarr.Normalize.Matching.{normalize_total}
use impostarr.Scoring.{
  PluginOutcome, ScoringConfig, ScoreSheet, aggregate, applicable, zip_strict, is_ok,
}
use impostarr.Scoring.Reports.{IsZipped}
use impostarr.Scoring.Keys.{episodes}
use impostarr.Scoring.Scored.{Raises}
use impostarr.Scoring.Sheet.{aggregate-claimed}
use impostarr.Pipeline.Plugins.{
  LoadedPlugin, after_plugin-cons, newer, ResultRow, Turn, Progress, answered, exhausted, validated,
  stored_result, normalize_each, store, run_cached, run_plugin, run_plugin_stage, newest, key_of,
  conclude, out_of_budget,
}
use impostarr.Pipeline.Plugins.Recall.{IsValidated}

module _ {F : Type 0} (o : Float F) (job_id : ℕ) (eps : List Episode)
    (fingerprint : LoadedPlugin F → String) where
  -- Coupled candidates are all normalized, each to one.
  normalize_each_total :
      (cs : List (Candidate F))
      → all coupled cs ≡ true
      → (ns : List Normalized) × (normalize_each eps cs ≡ some ns)
        × ((pairs : List (Candidate F × Normalized)) × (zip_strict cs ns ≡ some pairs))
  unfolding normalize_each zip_strict
  normalize_each_total [] h = ([], refl, ([], refl))
  normalize_each_total (c ∷ cs) h =
      let (n, e) = normalize_total c eps (&&_true (coupled c) (all coupled cs) h).0 in
      let (ns, f, (pairs, z)) =
        normalize_each_total cs (&&_true (coupled c) (all coupled cs) h).1 in
      (n ∷ ns, rw (e, f) refl, ((c, n) ∷ pairs, rw z refl))

  -- The outcome belongs to the plugin, and has a normalized candidate for each candidate.
  abbrev pub IsOutcomeOf : LoadedPlugin F → PluginOutcome F → Type 0
  IsOutcomeOf loaded out =
      (out.plugin_name ≡ loaded.name) × (out.weight ≡ loaded.weight) × IsZipped o out

  conclude_total :
      (loaded : LoadedPlugin F) (result : PluginResult F)
      → all coupled result.candidates ≡ true
      → (out : PluginOutcome F) × (conclude job_id eps fingerprint loaded result ≡ some out)
        × IsOutcomeOf loaded out
  conclude_total loaded result h =
      let (ns, e, z) = normalize_each_total result.candidates h in
      (
        record {
          plugin_name = loaded.name;
          weight = loaded.weight;
          result = result;
          normalized = ns;
        },
        rw e refl,
        (refl, refl, z),
      )

  abbrev pub IsValidRow : ResultRow F → Type 0
  IsValidRow r = validated (stored_result r) ≡ true

  abbrev Found : (ResultRow F → Type 0) → Option (ResultRow F) → Type 0
  Found P none = Unit
  Found P (some r) = P r

  newer-Found :
      (P : ResultRow F → Type 0) (q : ResultRow F) (r : Option (ResultRow F))
      → P q
      → Found P r
      → P (newer q r)
  newer-Found P q none h k = h
  newer-Found P q (some r) h k = elim (Bool-cases (ltb q.created_at r.created_at)) [
    | inl e ↦ rw e k
    | inr e ↦ rw e h
  ]

  -- The row that is found is a row of the table.
  newest-Found :
      (P : ResultRow F → Type 0) (p : ResultRow F → Bool) (rows : List (ResultRow F))
      → All P rows
      → Found P (newest p rows)
  unfolding newest
  newest-Found P p [] a = tt
  newest-Found P p (q ∷ qs) a =
      let rest = newest-Found P p qs a.1 in
      elim (Bool-cases (p q)) [
        | inl e ↦ rw e (newer-Found P q (newest p qs) a.0 rest)
        | inr e ↦ rw e rest
      ]

  -- The plugin has an outcome of its own, and leaves rows that are valid.
  abbrev Goes : LoadedPlugin F → Progress F → Type 0
  Goes loaded p =
      ((out : PluginOutcome F) × (p.outcome ≡ some out) × IsOutcomeOf loaded out)
      × All IsValidRow p.rows

  store-Goes :
      (rows : List (ResultRow F)) (turn : Turn F) (result : PluginResult F)
      → validated result ≡ true
      → All IsValidRow rows
      → Goes turn.loaded
          (store job_id eps fingerprint rows turn result (normalize_each eps result.candidates))
  unfolding store
  store-Goes rows turn result v a =
      let (ns, e, z) =
        normalize_each_total result.candidates
          (&&_true (all coupled result.candidates) (valid_result result) v).0 in
      rw e (
        (
          (
            record {
              plugin_name = turn.loaded.name;
              weight = turn.loaded.weight;
              result = result;
              normalized = ns;
            },
            refl,
            (refl, refl, z),
          ),
          All-append IsValidRow rows _ a (v, tt),
        ))

  run_cached-Goes :
      (rows : List (ResultRow F)) (turn : Turn F) (cached : Option (ResultRow F))
      → newest (key_of job_id eps fingerprint turn.loaded) rows ≡ cached
      → IsValidated job_id eps fingerprint turn
      → All IsValidRow rows
      → Goes turn.loaded (run_cached job_id eps fingerprint rows turn cached)
  unfolding run_cached
  run_cached-Goes rows turn (some row) n v a =
      let good =
        subst (Found IsValidRow) n
          (newest-Found IsValidRow (key_of job_id eps fingerprint turn.loaded) rows a) in
      rw good (
        conclude_total turn.loaded (stored_result row)
            (&&_true _ (valid_result (stored_result row)) good).0,
        a,
      )
  run_cached-Goes rows turn none n v a =
      elim (Bool-cases (exhausted rows turn.loaded turn.asked_at)) [
        | inl e ↦ rw e (conclude_total turn.loaded out_of_budget refl, a)
        | inr e ↦ rw e (store-Goes rows turn (answered turn.answer) v a)
      ]

  run_plugin-Goes :
      (rows : List (ResultRow F)) (turn : Turn F)
      → IsValidated job_id eps fingerprint turn
      → All IsValidRow rows
      → Goes turn.loaded (run_plugin job_id eps fingerprint rows turn)
  unfolding run_plugin
  run_plugin-Goes rows turn v a =
      run_cached-Goes rows turn (newest (key_of job_id eps fingerprint turn.loaded) rows) refl v a

  -- One outcome for each plugin, in order.
  pub AreOutcomes : List (Turn F) → List (PluginOutcome F) → Type 0
  AreOutcomes [] [] = Unit
  AreOutcomes (turn ∷ turns) (out ∷ outs) = IsOutcomeOf turn.loaded out × AreOutcomes turns outs
  AreOutcomes _ _ = ⊥

  run_plugin_stage-Outcomes :
      (rows : List (ResultRow F)) (turns : List (Turn F))
      → All (IsValidated job_id eps fingerprint) turns
      → All IsValidRow rows
      → (outs : List (PluginOutcome F)) × ((run_plugin_stage job_id eps fingerprint rows
            turns).outcomes
          ≡ some outs)
        × AreOutcomes turns outs
  unfolding run_plugin_stage AreOutcomes
  run_plugin_stage-Outcomes rows [] v a = ([], refl, tt)
  run_plugin_stage-Outcomes rows (turn ∷ turns) v a =
      let ((out, here, own), valid) = run_plugin-Goes rows turn v.0 a in
      let p = run_plugin job_id eps fingerprint rows turn in
      let (outs, there, rest) = run_plugin_stage-Outcomes p.rows turns v.1 valid in
      (
        out ∷ outs,
        after_plugin-cons p (λ rows'. run_plugin_stage job_id eps fingerprint rows' turns) out outs
            here there,
        (own, rest),
      )

  AreOutcomes-IsZipped :
      (turns : List (Turn F)) (outs : List (PluginOutcome F))
      → AreOutcomes turns outs
      → All (IsZipped o) (applicable o outs)
  unfolding AreOutcomes
  AreOutcomes-IsZipped [] [] h = tt
  AreOutcomes-IsZipped [] (x ∷ xs) h = absurd h
  AreOutcomes-IsZipped (t ∷ ts) [] h = absurd h
  AreOutcomes-IsZipped (t ∷ ts) (x ∷ xs) h =
      let rest = AreOutcomes-IsZipped ts xs h.1 in
      elim (Bool-cases (is_ok x.result.status)) [ inl e ↦ rw e (h.0.2, rest) | inr e ↦ rw e rest ]

  -- When the plugins' results and the stored rows have passed the validators, the stage does not
  -- raise: every plugin has one outcome, in order and under its name and its weight. For these
  -- outcomes `aggregate` raises only with log-odds, when the fusion of the reports on some key raises,
  -- and else returns a sheet, which counts those that are ok.
  pub run_plugin_stage-aggregate :
      (rows : List (ResultRow F)) (turns : List (Turn F)) (claimed_ids : IdSet)
      (cfg : ScoringConfig F)
      → All (IsValidated job_id eps fingerprint) turns
      → All IsValidRow rows
      → (outs : List (PluginOutcome F)) × ((run_plugin_stage job_id eps fingerprint rows
            turns).outcomes
          ≡ some outs)
        × AreOutcomes turns outs
        × ((Raises o cfg (episodes claimed_ids) (applicable o outs)
              × (aggregate o outs claimed_ids cfg ≡ none))
            ⊎ ((sheet : ScoreSheet F) × (aggregate o outs claimed_ids cfg ≡ some sheet)
                × (sheet.applicable_count ≡ length (applicable o outs))))
  run_plugin_stage-aggregate rows turns claimed_ids cfg v a =
      let (outs, e, own) = run_plugin_stage-Outcomes rows turns v a in
      (
        outs,
        e,
        own,
        elim (aggregate-claimed o cfg outs claimed_ids (AreOutcomes-IsZipped turns outs own)) [
          | inl raised ↦ inl raised
          | inr sheet ↦ inr (sheet.0, sheet.1, sheet.2.0)
        ],
      )

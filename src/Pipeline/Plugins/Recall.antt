-- ===== src/Pipeline/Plugins/Recall.antt =====
-- src/impostarr/pipeline.py: the cache of the plugin stage. A stored result that is ok is found
-- again, by every later stage for the same job.
use text.Mathlib.TextPositions.{eq_refl}
use impostarr.Prelude.{
  ℕ, String, ◌≡◌, refl, sym, inl, inr, Bool, true, false, Option, none, some, List, [], ◌∷◌, ◌++◌,
  arith, str_eq, str_eq_iff, ==_iff, Bool-cases, All, subst, ap, ◌∙◌, map,
}
use mathlib.Core.Option.{some-injective}
use impostarr.Candidates.{PluginResult, abstain}
use impostarr.Normalize.{Episode, Normalized}
use impostarr.Scoring.{PluginOutcome, is_ok}
use impostarr.Pipeline.Plugins.{
  LoadedPlugin, none_ne_some, after_plugin-some, ResultRow, Turn, Progress, Staged, answered,
  exhausted, rows-after_plugin, is_reusable, normalize_each, store, run_cached, run_plugin,
  run_plugin_stage, newest, key_of, row_of, outcome_of, reuse, validated, out_of_budget,
}

abstained :
    {F : Type 0} (loaded : LoadedPlugin F) (o : PluginOutcome F)
    (normalized : Option (List Normalized))
    → outcome_of loaded out_of_budget normalized ≡ some o
    → is_ok o.result.status ≡ true
    → ⊥
abstained loaded o none h k = none_ne_some h
abstained loaded o (some n) h k =
    let q : is_ok abstain ≡ true =
      rw (sym (ap (λ o. o.result.status) (some-injective _ _ h))) at k in
    cc

-- A row that fails the test does not change what is found.
newest-skip :
    {F : Type 0} (p : ResultRow F → Bool) (rows : List (ResultRow F)) (row : ResultRow F)
    → p row ≡ false
    → newest p (rows ++ row ∷ []) ≡ newest p rows
unfolding newest
newest-skip p [] row h = rw h refl
newest-skip p (r ∷ rs) row h = rw (newest-skip p rs row h) refl

-- The first row that passes the test is found.
newest-add :
    {F : Type 0} (p : ResultRow F → Bool) (rows : List (ResultRow F)) (row : ResultRow F)
    → p row ≡ true
    → newest p rows ≡ none
    → newest p (rows ++ row ∷ []) ≡ some row
unfolding newest
newest-add p [] row h n = rw h refl
newest-add p (r ∷ rs) row h n = ground (arith, newest-add p rs row h)

module _ {F : Type 0} (job_id : ℕ) (episodes : List Episode)
    (fingerprint : LoadedPlugin F → String) where
  abbrev key : LoadedPlugin F → ResultRow F → Bool
  key = key_of job_id episodes fingerprint

  abbrev plugin : List (ResultRow F) → Turn F → Progress F
  plugin = run_plugin job_id episodes fingerprint

  abbrev stage : List (ResultRow F) → List (Turn F) → Staged F
  stage = run_plugin_stage job_id episodes fingerprint

  -- The plugin's outcome is that of a stored row.
  abbrev Recalls : List (ResultRow F) → LoadedPlugin F → PluginOutcome F → Type 0
  Recalls rows loaded o =
      (row : ResultRow F) × (newest (key loaded) rows ≡ some row)
      × (reuse job_id episodes fingerprint loaded row ≡ some o)

  Recalls-run :
      (rows : List (ResultRow F)) (turn : Turn F) (o : PluginOutcome F)
      → Recalls rows turn.loaded o
      → plugin rows turn ≡ record { rows = rows; outcome = some o }
  unfolding run_plugin
  Recalls-run rows turn o (row, found, again) = unfold run_cached in rw (found) (rw again refl)

  -- Where the stored row of one plugin would serve another, the two look for the same rows.
  same_key :
      (a b : LoadedPlugin F) (result : PluginResult F) (normalized : List Normalized) (now : ℕ)
      → key a (row_of job_id b (fingerprint b) result normalized now) ≡ true
      → key a ≡ key b
  same_key a b result normalized now h =
      let n : str_eq b.name a.name ≡ true = ground arith in
      let f : str_eq (fingerprint b) (fingerprint a) ≡ true = ground arith in
      ap (λ t. is_reusable job_id t (fingerprint a)) (sym ((str_eq_iff b.name a.name).0 n))
      ∙ ap (λ t. is_reusable job_id b.name t)
          (sym ((str_eq_iff (fingerprint b) (fingerprint a)).0 f))

  store-keeps :
      (rows : List (ResultRow F)) (loaded : LoadedPlugin F) (turn : Turn F)
      (result : PluginResult F) (normalized : Option (List Normalized)) (row : ResultRow F)
      → newest (key turn.loaded) rows ≡ none
      → newest (key loaded) rows ≡ some row
      → newest (key loaded) (store job_id episodes fingerprint rows turn result normalized).rows
        ≡ some row
  unfolding store
  store-keeps rows loaded turn result none row n h = h
  store-keeps rows loaded turn result (some normalized) row n h =
      let stored =
        row_of job_id turn.loaded (fingerprint turn.loaded) result normalized turn.stored_at in
      elim (Bool-cases (key loaded stored)) [
        | inl e ↦ absurd (
            none_ne_some (
              sym n
              ∙ ap (λ p. newest p rows)
                  (sym (same_key loaded turn.loaded result normalized turn.stored_at e))
              ∙ h))
        | inr e ↦ newest-skip (key loaded) rows stored e ∙ h
      ]

  run_cached-keeps :
      (rows : List (ResultRow F)) (loaded : LoadedPlugin F) (turn : Turn F) (row : ResultRow F)
      (cached : Option (ResultRow F))
      → newest (key turn.loaded) rows ≡ cached
      → newest (key loaded) rows ≡ some row
      → newest (key loaded) (run_cached job_id episodes fingerprint rows turn cached).rows
        ≡ some row
  unfolding run_cached
  run_cached-keeps rows loaded turn row (some _) n h = h
  run_cached-keeps rows loaded turn row none n h =
      elim (Bool-cases (exhausted rows turn.loaded turn.asked_at)) [
        | inl e ↦ rw e h
        | inr e ↦ rw e (
            store-keeps rows loaded turn (answered turn.answer)
              (normalize_each episodes (answered turn.answer).candidates) row n h)
      ]

  Recalls-keep :
      (rows : List (ResultRow F)) (loaded : LoadedPlugin F) (turn : Turn F) (o : PluginOutcome F)
      → Recalls rows loaded o
      → Recalls (plugin rows turn).rows loaded o
  unfolding run_plugin
  Recalls-keep rows loaded turn o (row, found, again) =
      (row, run_cached-keeps rows loaded turn row (newest (key turn.loaded) rows) refl found, again)

  -- A plugin's answer has passed its validators.
  abbrev pub IsValidated : Turn F → Type 0
  IsValidated turn = validated (answered turn.answer) ≡ true

  own_key :
      (loaded : LoadedPlugin F) (result : PluginResult F) (normalized : List Normalized) (now : ℕ)
      → is_ok result.status ≡ true
      → key loaded (row_of job_id loaded (fingerprint loaded) result normalized now) ≡ true
  own_key loaded result normalized now h =
      rw ((==_iff job_id job_id).1 refl, eq_refl loaded.name, eq_refl (fingerprint loaded), h) refl

  store-Recalls :
      (rows : List (ResultRow F)) (turn : Turn F) (o : PluginOutcome F) (result : PluginResult F)
      (normalized : Option (List Normalized))
      → newest (key turn.loaded) rows ≡ none
      → validated result ≡ true
      → normalize_each episodes result.candidates ≡ normalized
      → (store job_id episodes fingerprint rows turn result normalized).outcome ≡ some o
      → is_ok o.result.status ≡ true
      → Recalls (store job_id episodes fingerprint rows turn result normalized).rows turn.loaded o
  unfolding store
  store-Recalls rows turn o result none n v e h k = absurd (none_ne_some h)
  store-Recalls rows turn o result (some normalized) n v e h k =
      let stored =
        row_of job_id turn.loaded (fingerprint turn.loaded) result normalized turn.stored_at in
      let same : outcome_of turn.loaded result (some normalized) ≡ some o = h in
      let good : is_ok result.status ≡ true =
        rw (sym (ap (λ o. o.result.status) (some-injective _ _ h))) at k in
      (
        stored,
        newest-add (key turn.loaded) rows stored
            (own_key turn.loaded result normalized turn.stored_at good) n,
        rw (v, e) same,
      )

  run_cached-Recalls :
      (rows : List (ResultRow F)) (turn : Turn F) (o : PluginOutcome F)
      (cached : Option (ResultRow F))
      → newest (key turn.loaded) rows ≡ cached
      → IsValidated turn
      → (run_cached job_id episodes fingerprint rows turn cached).outcome ≡ some o
      → is_ok o.result.status ≡ true
      → Recalls (run_cached job_id episodes fingerprint rows turn cached).rows turn.loaded o
  unfolding run_cached
  run_cached-Recalls rows turn o (some row) n v h k = (row, n, h)
  run_cached-Recalls rows turn o none n v h k =
      elim (Bool-cases (exhausted rows turn.loaded turn.asked_at)) [
        | inl e ↦
            absurd (abstained turn.loaded o (normalize_each {F = F} episodes []) (rw e at h) k)
        | inr e ↦ rw e (
            store-Recalls rows turn o (answered turn.answer)
              (normalize_each episodes (answered turn.answer).candidates) n v refl (rw e at h) k)
      ]

  plugin-Recalls :
      (rows : List (ResultRow F)) (turn : Turn F) (o : PluginOutcome F)
      → IsValidated turn
      → (plugin rows turn).outcome ≡ some o
      → is_ok o.result.status ≡ true
      → Recalls (plugin rows turn).rows turn.loaded o
  unfolding run_plugin
  plugin-Recalls rows turn o v h k =
      run_cached-Recalls rows turn o (newest (key turn.loaded) rows) refl v h k

  -- Each plugin's outcome is that of a stored row.
  RecallsAll : List (ResultRow F) → List (Turn F) → List (PluginOutcome F) → Type 0
  RecallsAll rows [] [] = Unit
  RecallsAll rows (turn ∷ turns) (o ∷ os) = Recalls rows turn.loaded o × RecallsAll rows turns os
  RecallsAll rows _ _ = ⊥

  stage-keeps :
      (rows : List (ResultRow F)) (loaded : LoadedPlugin F) (turns : List (Turn F))
      (o : PluginOutcome F)
      → Recalls rows loaded o
      → Recalls (stage rows turns).rows loaded o
  unfolding run_plugin_stage
  stage-keeps rows loaded [] o h = h
  stage-keeps rows loaded (turn ∷ turns) o h =
      let first = Recalls-keep rows loaded turn o h in
      rows-after_plugin (λ rows'. Recalls rows' loaded o) (plugin rows turn)
        (λ rows'. stage rows' turns) first
        (stage-keeps (plugin rows turn).rows loaded turns o first)

  -- A stage whose outcomes are all ok leaves rows that recall them.
  stage-RecallsAll :
      (rows : List (ResultRow F)) (turns : List (Turn F)) (os : List (PluginOutcome F))
      → All IsValidated turns
      → (stage rows turns).outcomes ≡ some os
      → All (λ o. is_ok o.result.status ≡ true) os
      → RecallsAll (stage rows turns).rows turns os
  unfolding run_plugin_stage RecallsAll
  stage-RecallsAll rows [] os v e a = rw (sym (some-injective _ _ e)) tt
  stage-RecallsAll rows (turn ∷ turns) os v e a =
      let next : List (ResultRow F) → Staged F = λ rows'. stage rows' turns in
      let (o, rest, here, there, split, kept) = after_plugin-some (plugin rows turn) next os e in
      let fine : All (λ o. is_ok o.result.status ≡ true) (o ∷ rest) = rw split at a in
      let first = plugin-Recalls rows turn o v.0 here fine.0 in
      let held : RecallsAll (stage (plugin rows turn).rows turns).rows (turn ∷ turns) (o ∷ rest) = (
        stage-keeps (plugin rows turn).rows turn.loaded turns o first,
        stage-RecallsAll (plugin rows turn).rows turns rest v.1 there fine.1,
      ) in
      rw split (subst (λ rows'. RecallsAll rows' (turn ∷ turns) (o ∷ rest)) (sym kept) held)

  RecallsAll-stage :
      (rows : List (ResultRow F)) (turns again : List (Turn F)) (os : List (PluginOutcome F))
      → map (λ t. t.loaded) turns ≡ map (λ t. t.loaded) again
      → RecallsAll rows turns os
      → stage rows again ≡ record { rows = rows; outcomes = some os }
  unfolding run_plugin_stage RecallsAll
  RecallsAll-stage rows [] [] [] e r = refl
  RecallsAll-stage rows [] [] (o ∷ os) e r = absurd r
  RecallsAll-stage rows [] (t ∷ ts) os e r = absurd cc
  RecallsAll-stage rows (t ∷ ts) [] os e r = absurd cc
  RecallsAll-stage rows (turn ∷ turns) (t ∷ ts) [] e r = absurd r
  RecallsAll-stage rows (turn ∷ turns) (t ∷ ts) (o ∷ os) e r =
      let same : turn.loaded ≡ t.loaded = cc in
      let rest : map (λ t. t.loaded) turns ≡ map (λ t. t.loaded) ts = cc in
      let first = Recalls-run rows t o (rw same at r.0) in
      rw (first) (rw (RecallsAll-stage rows turns ts os rest r.1) refl)

  -- When a stage, whose plugins give results that have passed their validators, has all its results
  -- ok, then a later stage asks none of them: it has the same outcomes and leaves the rows as they
  -- are. The later stage is for the same job, with the same episodes of the series, the same plugins
  -- and, for each plugin, the same fingerprint of its assets, the claimed ident and the series
  -- context. What the plugins would answer now may be different.
  pub run_plugin_stage-again :
      (rows : List (ResultRow F)) (turns again : List (Turn F)) (os : List (PluginOutcome F))
      → All IsValidated turns
      → (run_plugin_stage job_id episodes fingerprint rows turns).outcomes ≡ some os
      → All (λ o. is_ok o.result.status ≡ true) os
      → map (λ t. t.loaded) turns ≡ map (λ t. t.loaded) again
      → let rows' = (run_plugin_stage job_id episodes fingerprint rows turns).rows in
        run_plugin_stage job_id episodes fingerprint rows' again
        ≡ record { rows = rows'; outcomes = some os }
  run_plugin_stage-again rows turns again os v e a same =
      RecallsAll-stage (stage rows turns).rows turns again os same
        (stage-RecallsAll rows turns os v e a)

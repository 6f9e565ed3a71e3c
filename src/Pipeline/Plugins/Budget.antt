-- ===== src/Pipeline/Plugins/Budget.antt =====
-- src/impostarr/pipeline.py: the daily budget of a plugin.
use impostarr.Prelude.{
  ℕ, ◌≤◌, ◌<◌, String, ◌≡◌, inl, inr, true, false, Option, none, some, List, [], ◌∷◌, arith, str_eq,
  str_eq_iff, leb, Bool-cases, count, count-append, All,
}
use impostarr.Candidates.{PluginResult}
use impostarr.Normalize.{Episode, Normalized}
use impostarr.Pipeline.Plugins.{
  LoadedPlugin, ResultRow, Turn, start_of_day, executed_since, answered, exhausted,
  rows-after_plugin, normalize_each, store, run_cached, run_plugin, run_plugin_stage, newest,
  key_of, row_of, plugin_executions_today,
}

module _ {F : Type 0} (job_id : ℕ) (episodes : List Episode) (fingerprint : LoadedPlugin F → String)
    (name : String) (budget start : ℕ) where
  abbrev pub executions : List (ResultRow F) → ℕ
  executions rows = count (executed_since name start) rows

  -- The plugin of the name has the budget, and is asked on the day that begins at `start`.
  abbrev pub IsBudgeted : Turn F → Type 0
  IsBudgeted turn =
      str_eq turn.loaded.name name ≡ true
      → (turn.loaded.daily_budget ≡ some budget) × (start_of_day turn.asked_at ≡ start)

  spare :
      (rows : List (ResultRow F)) (turn : Turn F)
      → IsBudgeted turn
      → exhausted rows turn.loaded turn.asked_at ≡ false
      → str_eq turn.loaded.name name ≡ true
      → executions rows < budget
  unfolding plugin_executions_today
  spare rows turn w e h =
      let (b, s) = w h in
      let n : turn.loaded.name ≡ name = (str_eq_iff turn.loaded.name name).0 h in
      let e' : leb budget (count (executed_since name start) rows) ≡ false = rw (b, s, n) at e in
      ground arith

  store-executions :
      (rows : List (ResultRow F)) (turn : Turn F) (result : PluginResult F)
      (normalized : Option (List Normalized))
      → executions rows ≤ budget
      → (str_eq turn.loaded.name name ≡ true → executions rows < budget)
      → executions (store job_id episodes fingerprint rows turn result normalized).rows ≤ budget
  unfolding store
  store-executions rows turn result none h s = h
  store-executions rows turn result (some normalized) h s =
      let row =
        row_of job_id turn.loaded (fingerprint turn.loaded) result normalized turn.stored_at in
      ground (arith, count-append (executed_since name start) rows (row ∷ []))

  run_cached-executions :
      (rows : List (ResultRow F)) (turn : Turn F) (cached : Option (ResultRow F))
      → IsBudgeted turn
      → executions rows ≤ budget
      → executions (run_cached job_id episodes fingerprint rows turn cached).rows ≤ budget
  unfolding run_cached
  run_cached-executions rows turn (some row) w h = h
  run_cached-executions rows turn none w h =
      elim (Bool-cases (exhausted rows turn.loaded turn.asked_at)) [
        | inl e ↦ rw e h
        | inr e ↦ rw e (
            store-executions rows turn (answered turn.answer)
              (normalize_each episodes (answered turn.answer).candidates) h (spare rows turn w e))
      ]

  -- When the plugins of a name have a daily budget and are asked on the same day, a stage that finds
  -- no more of their executions on that day than the budget allows leaves no more than it allows.
  pub run_plugin_stage-executions :
      (rows : List (ResultRow F)) (turns : List (Turn F))
      → All IsBudgeted turns
      → executions rows ≤ budget
      → executions (run_plugin_stage job_id episodes fingerprint rows turns).rows ≤ budget
  unfolding run_plugin_stage
  run_plugin_stage-executions rows [] w h = h
  run_plugin_stage-executions rows (turn ∷ turns) w h =
      let first =
        run_cached-executions rows turn
          (newest (key_of job_id episodes fingerprint turn.loaded) rows) w.0 h in
      rows-after_plugin (λ rows. executions rows ≤ budget)
        (run_plugin job_id episodes fingerprint rows turn)
        (λ rows'. run_plugin_stage job_id episodes fingerprint rows' turns)
        (unfold run_plugin in first)
        (run_plugin_stage-executions (run_plugin job_id episodes fingerprint rows turn).rows turns
          w.1 (unfold run_plugin in first))

-- ===== src/Pipeline/Plugins.antt =====
-- The plugin stage of src/impostarr/pipeline.py. The table of plugin results is a list of rows,
-- oldest first, and a stage that raises has kept the rows that it committed. When a plugin is asked,
-- what it answers and when its row is stored are given with the plugin. The digests over JSON are
-- parameters. That a stored candidate has its confidence in range is not checked again.
pub mod Budget
pub mod Recall
pub mod Zipped
mod Tests
use impostarr.Prelude.{
  ℕ, ◌-◌, ◌*◌, ◌/◌, ◌%◌, String, Bool, true, false, ◌&&◌, Option, none, some, List, [], ◌∷◌, ◌++◌,
  str_eq, ltb, leb, ◌==◌, if◌then◌else◌, all, count, inl, inr, Option-cases, ◌≡◌, refl, sym, ◌∙◌,
}
use mathlib.Core.Option.{some-injective}
use impostarr.Candidates.{
  Candidate, PluginResult, ResultStatus, abstain, failed, coupled, valid_result,
}
use impostarr.Normalize.{Episode, Normalized, normalize}
use impostarr.Scoring.{PluginOutcome, is_ok}
use impostarr.Pipeline.{SeriesContext, ClaimedIdent}

-- `LoadedPlugin`, with the name and the version of its plugin; the configuration as its JSON text.
pub record LoadedPlugin (F : Type 0) : Type 0 where
  pub name : String
  pub version : String
  pub config : Option String
  pub weight : F
  pub daily_budget : Option ℕ

-- The fingerprints of the assets that a plugin can see.
pub record AssetFingerprints : Type 0 where
  pub probe : Option String
  pub audio : Option String
  pub subs : List String
  pub transcript : Option String
  pub frames : Option String

-- What `_plugin_fingerprint` digests.
pub record FingerprintInput : Type 0 where
  pub plugin_name : String
  pub plugin_version : String
  pub plugin_config : Option String
  pub asset_fingerprints : AssetFingerprints
  pub claimed : ClaimedIdent
  pub series_digest : String

-- `xxhash.xxh64` over the sorted JSON of a series context, and of a fingerprint's input.
pub record Digests : Type 0 where
  pub of_series : SeriesContext → String
  pub of_input : FingerprintInput → String

pub record ResultRow (F : Type 0) : Type 0 where
  pub job_id : ℕ
  pub plugin_name : String
  pub plugin_version : String
  pub status : ResultStatus
  pub has_reason : Bool
  pub candidates : List (Candidate F)
  pub normalized : List Normalized
  pub input_fingerprint : String
  pub created_at : ℕ

-- A plugin with the time it is asked, its answer, where `none` is an exception, and the time at
-- which its row is stored. Times are microseconds of UTC.
pub record Turn (F : Type 0) : Type 0 where
  pub loaded : LoadedPlugin F
  pub asked_at : ℕ
  pub answer : Option (PluginResult F)
  pub stored_at : ℕ

-- The rows after a plugin, with its outcome unless it has raised.
pub record Progress (F : Type 0) : Type 0 where
  pub rows : List (ResultRow F)
  pub outcome : Option (PluginOutcome F)

-- The rows after the stage, with its outcomes unless it has raised.
pub record Staged (F : Type 0) : Type 0 where
  pub rows : List (ResultRow F)
  pub outcomes : Option (List (PluginOutcome F))

abbrev pub day : ℕ
day = 86_400_000_000

-- `now.replace(hour=0, minute=0, second=0, microsecond=0)`
abbrev pub start_of_day : ℕ → ℕ
start_of_day now = now - now % day

abbrev pub cons_normalized : Option Normalized → Option (List Normalized) → Option (List Normalized)
cons_normalized (some n) (some ns) = some (n ∷ ns)
cons_normalized _ _ = none

pub none_ne_some : {A : Type 0} {a : A} → ◌≡◌ {A = Option A} none (some a) → ⊥
none_ne_some h = cc

module _ {F : Type 0} where
  -- `_plugin_fingerprint`
  unfoldable pub plugin_fingerprint :
      Digests → AssetFingerprints → ClaimedIdent → SeriesContext → LoadedPlugin F → String
  plugin_fingerprint digests asset_fingerprints claimed ctx loaded = digests.of_input (record {
    plugin_name = loaded.name;
    plugin_version = loaded.version;
    plugin_config = loaded.config;
    asset_fingerprints = asset_fingerprints;
    claimed = claimed;
    series_digest = digests.of_series ctx;
  })

  abbrev pub executed_since : String → ℕ → ResultRow F → Bool
  executed_since name start r = str_eq r.plugin_name name && leb start r.created_at

  -- `_plugin_executions_today`
  unfoldable pub plugin_executions_today : List (ResultRow F) → String → ℕ → ℕ
  plugin_executions_today rows name now = count (executed_since name (start_of_day now)) rows

  abbrev pub is_reusable : ℕ → String → String → ResultRow F → Bool
  is_reusable job_id name fp r =
      r.job_id == job_id
      && str_eq r.plugin_name name
      && str_eq r.input_fingerprint fp
      && is_ok r.status

  abbrev pub newer : ResultRow F → Option (ResultRow F) → ResultRow F
  newer r none = r
  newer r (some q) = if ltb r.created_at q.created_at then q else r

  -- The newest row that passes the test: the first of those with the same time.
  unfoldable pub newest : (ResultRow F → Bool) → List (ResultRow F) → Option (ResultRow F)
  newest p [] = none
  newest p (r ∷ rs) = if p r then some (newer r (newest p rs)) else newest p rs

  -- What the validators of `PluginResult` and of its candidates require.
  abbrev pub validated : PluginResult F → Bool
  validated r = all coupled r.candidates && valid_result r

  abbrev pub stored_result : ResultRow F → PluginResult F
  stored_result r = record {
    status = r.status;
    has_reason = r.has_reason;
    candidates = r.candidates;
  }

  -- `[normalize(c, ctx, claimed) for c in candidates]`; `none` when one raises.
  unfoldable pub normalize_each : List Episode → List (Candidate F) → Option (List Normalized)
  unfolding normalize
  normalize_each episodes [] = some []
  normalize_each episodes (c ∷ cs) =
      cons_normalized (normalize c episodes) (normalize_each episodes cs)

  abbrev pub outcome_of :
      LoadedPlugin F → PluginResult F → Option (List Normalized) → Option (PluginOutcome F)
  outcome_of loaded result none = none
  outcome_of loaded result (some normalized) = some (record {
    plugin_name = loaded.name;
    weight = loaded.weight;
    result = result;
    normalized = normalized;
  })

  abbrev pub row_of :
      ℕ → LoadedPlugin F → String → PluginResult F → List Normalized → ℕ → ResultRow F
  row_of job_id loaded fp result normalized now = record {
    job_id = job_id;
    plugin_name = loaded.name;
    plugin_version = loaded.version;
    status = result.status;
    has_reason = result.has_reason;
    candidates = result.candidates;
    normalized = normalized;
    input_fingerprint = fp;
    created_at = now;
  }

  -- An exception of a plugin becomes an error result.
  abbrev pub answered : Option (PluginResult F) → PluginResult F
  answered (some result) = result
  answered none = record { status = failed; has_reason = true; candidates = [] }

  -- "daily budget reached"
  abbrev pub out_of_budget : PluginResult F
  out_of_budget = record { status = abstain; has_reason = true; candidates = [] }

  abbrev pub exhausted : List (ResultRow F) → LoadedPlugin F → ℕ → Bool
  exhausted rows loaded now = elim loaded.daily_budget [
    | none ↦ false
    | some budget ↦ leb budget (plugin_executions_today rows loaded.name now)
  ]

  abbrev pub cons_outcome : PluginOutcome F → Staged F → Staged F
  cons_outcome o s = elim s.outcomes [ none ↦ s | some os ↦ record s { outcomes = some (o ∷ os) } ]

  -- The next plugin, unless this one has raised.
  abbrev pub after_plugin : Progress F → (List (ResultRow F) → Staged F) → Staged F
  after_plugin p next = elim p.outcome [
    | none ↦ record { rows = p.rows; outcomes = none }
    | some o ↦ cons_outcome o (next p.rows)
  ]

  -- What holds of the rows after a plugin, and of those after the next ones, holds in the end.
  pub rows-after_plugin :
      (P : List (ResultRow F) → Type 0) (p : Progress F) (next : List (ResultRow F) → Staged F)
      → P p.rows
      → P (next p.rows).rows
      → P (after_plugin p next).rows
  rows-after_plugin P p next h k = elim (Option-cases p.outcome) [
    | inl e ↦ rw e h
    | inr (o, e) ↦
        rw e (elim (Option-cases (next p.rows).outcomes) [ inl f ↦ rw f k | inr (os, f) ↦ rw f k ])
  ]

  pub after_plugin-cons :
      (p : Progress F) (next : List (ResultRow F) → Staged F) (o : PluginOutcome F)
      (os : List (PluginOutcome F))
      → p.outcome ≡ some o
      → (next p.rows).outcomes ≡ some os
      → (after_plugin p next).outcomes ≡ some (o ∷ os)
  after_plugin-cons p next o os e f = rw e (rw f refl)

  -- A stage that has not raised has the outcome of its first plugin, and those of the next ones.
  pub after_plugin-some :
      (p : Progress F) (next : List (ResultRow F) → Staged F) (os : List (PluginOutcome F))
      → (after_plugin p next).outcomes ≡ some os
      → (o : PluginOutcome F) × (rest : List (PluginOutcome F)) × (p.outcome ≡ some o)
        × ((next p.rows).outcomes ≡ some rest)
        × (os ≡ o ∷ rest)
        × ((after_plugin p next).rows ≡ (next p.rows).rows)
  after_plugin-some p next os h = elim (Option-cases p.outcome) [
    | inl e ↦ absurd (none_ne_some (rw e at h))
    | inr (o, e) ↦ elim (Option-cases (next p.rows).outcomes) [
      | inl f ↦ absurd (none_ne_some (rw (e, f) at h))
      | inr (rest, f) ↦ (o, rest, e, f, sym (some-injective _ _ (rw (e, f) at h)), rw e (rw f refl))
    ]
  ]

module _ {F : Type 0} (job_id : ℕ) (episodes : List Episode)
    (fingerprint : LoadedPlugin F → String) where
  abbrev pub conclude : LoadedPlugin F → PluginResult F → Option (PluginOutcome F)
  conclude loaded result = outcome_of loaded result (normalize_each episodes result.candidates)

  -- The row of an execution, which is stored before its outcome is appended.
  unfoldable pub store :
      List (ResultRow F) → Turn F → PluginResult F → Option (List Normalized) → Progress F
  store rows turn result none = record { rows = rows; outcome = none }
  store rows turn result (some normalized) = record {
    rows =
        rows
        ++ row_of job_id turn.loaded (fingerprint turn.loaded) result normalized turn.stored_at
          ∷ [];
    outcome = outcome_of turn.loaded result (some normalized);
  }

  -- Ask the plugin, if its budget allows.
  unfoldable pub run_uncached : List (ResultRow F) → Turn F → Progress F
  unfolding store plugin_executions_today normalize_each
  run_uncached rows turn =
      if exhausted rows turn.loaded turn.asked_at
      then record { rows = rows; outcome = conclude turn.loaded out_of_budget }
      else store rows turn (answered turn.answer)
          (normalize_each episodes (answered turn.answer).candidates)

  -- Validating a stored result that is not valid raises.
  abbrev pub reuse : LoadedPlugin F → ResultRow F → Option (PluginOutcome F)
  reuse loaded row =
      if validated (stored_result row) then conclude loaded (stored_result row) else none

  unfoldable pub run_cached : List (ResultRow F) → Turn F → Option (ResultRow F) → Progress F
  unfolding run_uncached
  run_cached rows turn none = run_uncached rows turn
  run_cached rows turn (some row) = record { rows = rows; outcome = reuse turn.loaded row }

  abbrev pub key_of : LoadedPlugin F → ResultRow F → Bool
  key_of loaded = is_reusable job_id loaded.name (fingerprint loaded)

  unfoldable pub run_plugin : List (ResultRow F) → Turn F → Progress F
  unfolding run_cached newest
  run_plugin rows turn = run_cached rows turn (newest (key_of turn.loaded) rows)

  -- `_run_plugin_stage`
  unfoldable pub run_plugin_stage : List (ResultRow F) → List (Turn F) → Staged F
  unfolding run_plugin
  run_plugin_stage rows [] = record { rows = rows; outcomes = some [] }
  run_plugin_stage rows (turn ∷ turns) =
      after_plugin (run_plugin rows turn) (λ rows'. run_plugin_stage rows' turns)

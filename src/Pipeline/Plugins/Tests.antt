-- ===== src/Pipeline/Plugins/Tests.antt =====
-- The plugin stage with two plugins, one of which has a budget of one execution a day.
use impostarr.Prelude.{
  ◌⊎◌, ℕ, String, ◌≡◌, ◌≤◌, refl, true, false, none, some, List, [], ◌∷◌, arith, length,
}
use impostarr.Float.{milli}
use impostarr.Candidates.{Candidate, PluginResult, tvdb_order, ok, valid_result}
use impostarr.Normalize.{Episode, in_series, normalize, match_all, matcher, match_tvdb, find_id}
use impostarr.IdSet.{add}
use impostarr.Normalize.Matching.{in_claimed}
use impostarr.Scoring.{PluginOutcome, ScoringConfig, ScoreSheet, linear, aggregate, applicable}
use impostarr.Pipeline.Plugins.{
  LoadedPlugin, Turn, Digests, run_plugin_stage, run_plugin, run_cached, run_uncached, store,
  newest, plugin_executions_today, normalize_each,
}
use impostarr.Pipeline.Plugins.Budget.{executions, run_plugin_stage-executions}
use impostarr.Pipeline.Plugins.Recall.{run_plugin_stage-again}
use impostarr.Scoring.Keys.{episodes}
use impostarr.Scoring.Scored.{Raises}
use impostarr.Pipeline.Plugins.Zipped.{AreOutcomes, run_plugin_stage-aggregate}

abbrev episode : Episode
episode = record {
  id = 101;
  season_number = some 1;
  episode_number = some 1;
  absolute_episode_number = none;
  scene_season_number = none;
  scene_episode_number = none;
  scene_absolute_episode_number = none;
}

abbrev digests : Digests
digests = record { of_series = λ ctx. "series"; of_input = λ input. input.plugin_name }

abbrev claimed_candidate : Candidate ℕ
claimed_candidate = in_claimed 900 1 (1 ∷ []) tvdb_order

abbrev sure : PluginResult ℕ
sure = record { status = ok; has_reason = false; candidates = claimed_candidate ∷ [] }

abbrev llm : LoadedPlugin ℕ
llm = record { name = "llm"; version = "1"; config = none; weight = 1000; daily_budget = some 1 }

abbrev whisper : LoadedPlugin ℕ
whisper = record {
  name = "whisper";
  version = "1";
  config = none;
  weight = 500;
  daily_budget = none;
}

abbrev turn : LoadedPlugin ℕ → Turn ℕ
turn loaded = record {
  loaded = loaded;
  asked_at = 86_400_000_005;
  answer = some sure;
  stored_at = 86_400_000_009;
}

abbrev turns : List (Turn ℕ)
turns = turn llm ∷ turn whisper ∷ []

abbrev by_name : LoadedPlugin ℕ → String
by_name loaded = loaded.name

abbrev failing : LoadedPlugin ℕ → Turn ℕ
failing loaded = record { loaded = loaded; asked_at = 7; answer = none; stored_at = 8 }

abbrev outcome : LoadedPlugin ℕ → PluginOutcome ℕ
outcome l = record {
  plugin_name = l.name;
  weight = l.weight;
  result = sure;
  normalized = in_series (101 ∷ []) ∷ [];
}

abbrev outcomes : List (PluginOutcome ℕ)
outcomes = outcome llm ∷ outcome whisper ∷ []

abbrev cfg : ScoringConfig ℕ
cfg = record {
  fusion = linear;
  eps = 20;
  outlier_rejection = true;
  outlier_high = 800;
  outlier_low = 200;
  outlier_min_agreeing = 2;
}

cached :
    length
      (run_plugin_stage 1
        (episode ∷ [])
        by_name
        (run_plugin_stage 1 (episode ∷ []) by_name [] turns).rows
        turns).rows
    ≡ 2
unfolding run_plugin_stage run_plugin run_cached run_uncached store newest plugin_executions_today
    normalize_each normalize match_all matcher match_tvdb find_id add valid_result
cached = refl

over_budget :
    length
      (run_plugin_stage 2
        (episode ∷ [])
        by_name
        (run_plugin_stage 1 (episode ∷ []) by_name [] turns).rows
        turns).rows
    ≡ 3
unfolding run_plugin_stage run_plugin run_cached run_uncached store newest plugin_executions_today
    normalize_each normalize match_all matcher match_tvdb find_id add valid_result
over_budget = refl

run_plugin_stage-executions_example :
    executions {F = ℕ} 2
      (episode ∷ [])
      by_name
      "llm"
      1
      86_400_000_000
      (run_plugin_stage 2 (episode ∷ []) by_name [] turns).rows
    ≤ 1
run_plugin_stage-executions_example =
    run_plugin_stage-executions {F = ℕ} 2 (episode ∷ []) by_name "llm" 1 86_400_000_000 [] turns
      ((λ h. (refl, refl)), ((λ h. absurd cc), tt)) (omega arith)

-- The second stage is asked with plugins that would fail.
run_plugin_stage-again_example :
    let stage = run_plugin_stage 1 (episode ∷ []) by_name in
    stage (stage [] turns).rows (failing llm ∷ failing whisper ∷ [])
    ≡ record { rows = (stage [] turns).rows; outcomes = some outcomes }
unfolding run_plugin_stage run_plugin run_cached run_uncached store newest plugin_executions_today
    normalize_each normalize match_all matcher match_tvdb find_id add valid_result
run_plugin_stage-again_example =
    run_plugin_stage-again 1 (episode ∷ []) by_name [] turns (failing llm ∷ failing whisper ∷ [])
      outcomes (refl, (refl, tt)) refl (refl, (refl, tt)) refl

run_plugin_stage-aggregate_example :
    (outs : List (PluginOutcome ℕ)) × ((run_plugin_stage 1 (episode ∷ []) by_name [] turns).outcomes
      ≡ some outs)
    × AreOutcomes milli 1 (episode ∷ []) by_name turns outs
    × ((Raises milli cfg (episodes (101 ∷ [])) (applicable milli outs)
          × (aggregate milli outs (101 ∷ []) cfg ≡ none))
        ⊎ ((sheet : ScoreSheet ℕ) × (aggregate milli outs (101 ∷ []) cfg ≡ some sheet)
            × (sheet.applicable_count ≡ length (applicable milli outs))))
unfolding valid_result
run_plugin_stage-aggregate_example =
    run_plugin_stage-aggregate milli 1 (episode ∷ []) by_name [] turns (101 ∷ []) cfg
      (refl, (refl, tt)) tt

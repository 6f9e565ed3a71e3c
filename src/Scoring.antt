-- ===== src/Scoring.antt =====
-- src/impostarr/scoring.py, up to `aggregate`: what the plugins report is gathered by candidate
-- key, outliers are dropped, and each key's reports are fused into one score.
pub mod Keys
pub mod KeyDict
pub mod Reports
pub mod Alternate
mod Entries
pub mod Scored
pub mod Sheet
pub mod Route
pub mod Remap
pub mod Outliers
pub mod Best
mod Tests
use impostarr.Prelude.{
  ℕ, String, Bool, true, false, not, ◌&&◌, Option, none, some, List, [], ◌∷◌, ◌++◌, map, ltb, leb,
  if◌then◌else◌, length, filter, all, any, ◌||◌,
}
use impostarr.Float.{Float, max, min, lt, is_zero}
use impostarr.Candidates.{Candidate, PluginResult, ResultStatus, ok, abstain, failed}
use impostarr.IdSet.{IdSet}
use impostarr.Normalize.{Normalized}
use impostarr.Scoring.Keys.{Key, episodes, Kind, key_for, kind_of_key, key_eq, key_repr, text_le}
use impostarr.Scoring.KeyDict.{Dict, get, put, set_default, get_or}

pub record PluginOutcome (F : Type 0) : Type 0 where
  pub plugin_name : String
  pub weight : F
  pub result : PluginResult F
  pub normalized : List Normalized

-- `_Report`
pub record Report (F : Type 0) : Type 0 where
  pub plugin : String
  pub weight : F
  pub confidence : F

-- An entry of `outliers_excluded`.
pub record Outlier (F : Type 0) : Type 0 where
  pub plugin : String
  pub confidence : F
  pub candidate : List ℕ

pub data Fusion : Type 0 where
  linear logodds : Fusion

-- `ScoringConfig` of src/impostarr/config.py
pub record ScoringConfig (F : Type 0) : Type 0 where
  pub fusion : Fusion
  pub eps : F
  pub outlier_rejection : Bool
  pub outlier_high : F
  pub outlier_low : F
  pub outlier_min_agreeing : ℕ

pub record ScoreSheet (F : Type 0) : Type 0 where
  pub s_claimed : Option F
  pub s_alt : Option F
  pub alt_key : Option Key
  pub alt_kind : Option Kind
  pub applicable_count : ℕ
  pub per_candidate : List (List ℕ × F)
  pub outliers_excluded : List (Outlier F)

abbrev pub is_ok : ResultStatus → Bool
is_ok ok = true
is_ok abstain = false
is_ok failed = false

-- `zip(…, strict=True)`; `none` is its ValueError.
unfoldable pub zip_strict : {A B : Type 0} → List A → List B → Option (List (A × B))
zip_strict [] [] = some []
zip_strict [] (y ∷ ys) = none
zip_strict (x ∷ xs) [] = none
zip_strict (x ∷ xs) (y ∷ ys) = elim (zip_strict xs ys) [
  | none ↦ none
  | some rest ↦ some ((x, y) ∷ rest)
]

module _ {F : Type 0} (o : Float F) where
  -- The plugin's own dictionary: its best confidence for each key.
  unfoldable pub per_plugin : List (Candidate F × Normalized) → Dict F → Dict F
  per_plugin [] d = d
  per_plugin ((cand, norm) ∷ rest) d = elim (key_for norm) [
    | none ↦ per_plugin rest d
    | some key ↦
        per_plugin rest (put key (max o (get_or (get key d) cand.confidence) cand.confidence) d)
  ]

  -- `for key, confidence in per_plugin.items()`
  unfoldable pub file_reports :
      String → F → Dict F → Dict (List (Report F)) → Dict (List (Report F))
  file_reports name weight [] reports = reports
  file_reports name weight ((key, confidence) ∷ rest) reports = file_reports name weight rest (
      put key
        (get_or (get key reports) []
          ++ record { plugin = name; weight = weight; confidence = confidence } ∷ [])
        reports)

  -- The loop over the applicable outcomes.
  unfoldable pub gather :
      Key → List (PluginOutcome F) → Dict (List (Report F)) → Option (Dict (List (Report F)))
  gather claimed_key [] reports = some reports
  gather claimed_key (outcome ∷ rest) reports =
      elim (zip_strict outcome.result.candidates outcome.normalized) [
        | none ↦ none
        | some pairs ↦ gather claimed_key rest (
            file_reports outcome.plugin_name outcome.weight
              (set_default claimed_key o.nought (per_plugin pairs [])) reports)
      ]

  abbrev clamp : F → F → F
  clamp eps confidence = min o (max o confidence eps) (o.sub o.unit eps)

  -- `total_logit`
  total_logit : F → List (Report F) → F → F
  total_logit eps [] total = total
  total_logit eps (r ∷ rs) total =
      let c = clamp eps r.confidence in
      total_logit eps rs (o.add total (o.mul r.weight (o.log (o.div c (o.sub o.unit c)))))

  -- `c / (1.0 - c)` and its `math.log`: a ZeroDivisionError, or a ValueError.
  logit_raises : F → Report F → Bool
  logit_raises eps r =
      let c = clamp eps r.confidence in
      is_zero o (o.sub o.unit c) || o.le (o.div c (o.sub o.unit c)) o.nought

  -- `_fuse` by log-odds: a single report is only clamped.
  fuse_logodds : F → F → List (Report F) → F
  unfolding total_logit
  fuse_logodds eps sum_w (r ∷ []) = clamp eps r.confidence
  fuse_logodds eps sum_w reports =
      o.div o.unit (o.add o.unit (o.exp (o.neg (o.div (total_logit eps reports o.nought) sum_w))))

  logodds_raises : F → F → List (Report F) → Bool
  unfolding logit_raises total_logit
  logodds_raises eps sum_w (r ∷ []) = false
  logodds_raises eps sum_w reports =
      any (logit_raises eps) reports
      || o.exp_overflows (o.neg (o.div (total_logit eps reports o.nought) sum_w))

  abbrev pub sum_weights : List (Report F) → F
  sum_weights reports = o.sum (map (λ r. r.weight) reports)

  -- What `_fuse` returns where it does not raise.
  unfoldable pub fused : List (Report F) → ScoringConfig F → F
  unfolding fuse_logodds
  fused reports cfg =
      let sum_w = sum_weights reports in
      if o.le sum_w o.nought then o.nought else elim cfg.fusion [
        | linear ↦ o.div (o.sum (map (λ r. o.mul r.weight r.confidence) reports)) sum_w
        | logodds ↦ fuse_logodds cfg.eps sum_w reports
      ]

  unfoldable pub fuse_raises : List (Report F) → ScoringConfig F → Bool
  unfolding logodds_raises
  fuse_raises reports cfg =
      let sum_w = sum_weights reports in
      if o.le sum_w o.nought
      then false
      else elim cfg.fusion [ linear ↦ false | logodds ↦ logodds_raises cfg.eps sum_w reports ]

  -- `_fuse`; `none` when the log-odds raise.
  unfoldable pub fuse : List (Report F) → ScoringConfig F → Option F
  unfolding fused fuse_raises
  fuse reports cfg = if fuse_raises reports cfg then none else some (fused reports cfg)

  abbrev pub is_high : ScoringConfig F → Report F → Bool
  is_high cfg r = o.le cfg.outlier_high r.confidence

  abbrev pub is_low : ScoringConfig F → Report F → Bool
  is_low cfg r = o.le r.confidence cfg.outlier_low

  -- The reports that are not high, `r[2] < cfg.outlier_high`.
  abbrev pub not_high : ScoringConfig F → Report F → Bool
  not_high cfg r = lt o r.confidence cfg.outlier_high

  -- Whether `_reject_outliers` drops the low reports.
  unfoldable pub rejects : List (Report F) → ScoringConfig F → Bool
  rejects reports cfg =
      cfg.outlier_rejection
      && leb cfg.outlier_min_agreeing (length (filter (is_high cfg) reports))
      && ltb 0 (length (filter (not_high cfg) reports))
      && all (is_low cfg) (filter (not_high cfg) reports)

  abbrev pub excluded : Key → Report F → Outlier F
  excluded key r = record { plugin = r.plugin; confidence = r.confidence; candidate = key_repr key }

  -- `_reject_outliers`: the pool, and the entries that it appends.
  unfoldable pub reject_outliers :
      Key → List (Report F) → ScoringConfig F → List (Report F) × List (Outlier F)
  unfolding rejects
  reject_outliers key reports cfg =
      if rejects reports cfg
      then (filter (is_high cfg) reports, map (excluded key) (filter (not_high cfg) reports))
      else (reports, [])

  abbrev pub cons_score : Key → Option F → Option (Dict F) → Option (Dict F)
  cons_score key (some s) (some d) = some ((key, s) ∷ d)
  cons_score key _ _ = none

  -- The loop that scores each key; the keys of a dictionary are distinct.
  unfoldable pub score_all : ScoringConfig F → Dict (List (Report F)) → Option (Dict F)
  unfolding fuse reject_outliers
  score_all cfg [] = some []
  score_all cfg ((key, reports) ∷ d) =
      cons_score key (fuse (reject_outliers key reports cfg).0 cfg) (score_all cfg d)

  unfoldable pub outliers_of : ScoringConfig F → Dict (List (Report F)) → List (Outlier F)
  outliers_of cfg [] = []
  outliers_of cfg ((key, reports) ∷ d) = (reject_outliers key reports cfg).1 ++ outliers_of cfg d

  -- `sorted(…, key=_key_repr)`: stable insertion.
  unfoldable pub insert_sorted : Key × F → Dict F → Dict F
  insert_sorted (k, s) [] = (k, s) ∷ []
  insert_sorted (k, s) ((j, t) ∷ d) =
      let rest = insert_sorted (k, s) d in
      if text_le (key_repr k) (key_repr j) then (k, s) ∷ (j, t) ∷ d else (j, t) ∷ rest

  unfoldable pub sort_by_repr : Dict F → Dict F
  unfolding insert_sorted
  sort_by_repr [] = []
  sort_by_repr (e ∷ d) = insert_sorted e (sort_by_repr d)

  -- `max(…, key=…)`: the first element with the greatest score.
  unfoldable pub first_max : Key × F → Dict F → Key × F
  first_max (k, s) [] = (k, s)
  first_max (k, s) ((j, t) ∷ d) = first_max (if lt o s t then (j, t) else (k, s)) d

  unfoldable pub alternate : Dict F → Option (Key × F)
  unfolding sort_by_repr first_max
  alternate d = elim (sort_by_repr d) [ [] ↦ none | e ∷ rest ↦ some (first_max e rest) ]

  -- `{_key_repr(key): score …}`: a text that comes again overwrites.
  put_text : List ℕ → F → List (List ℕ × F) → List (List ℕ × F)
  put_text t s [] = (t, s) ∷ []
  put_text t s ((u, r) ∷ d) =
      let rest = put_text t s d in if text_le t u && text_le u t then (u, s) ∷ d else (u, r) ∷ rest

  by_repr : Dict F → List (List ℕ × F) → List (List ℕ × F)
  unfolding put_text
  by_repr [] d = d
  by_repr ((k, s) ∷ rest) d = by_repr rest (put_text (key_repr k) s d)

  abbrev pub empty_sheet : ScoreSheet F
  empty_sheet = record {
    s_claimed = none;
    s_alt = none;
    alt_key = none;
    alt_kind = none;
    applicable_count = 0;
    per_candidate = [];
    outliers_excluded = [];
  }

  abbrev pub not_claimed : Key → Key × F → Bool
  not_claimed claimed_key (k, s) = not (key_eq k claimed_key)

  abbrev pub option_map : {A B : Type 0} → (A → B) → Option A → Option B
  option_map f none = none
  option_map f (some a) = some (f a)

  -- The sheet for the reports of at least one applicable plugin.
  unfoldable pub full_sheet :
      Key → ℕ → ScoringConfig F → Dict (List (Report F)) → Dict F → F → ScoreSheet F
  unfolding by_repr
  full_sheet claimed_key applicable_count cfg reports scores s_claimed =
      let alt = alternate (filter (not_claimed claimed_key) scores) in
      record {
        s_claimed = some s_claimed;
        s_alt = option_map (λ e. e.1) alt;
        alt_key = option_map (λ e. e.0) alt;
        alt_kind = option_map (λ e. kind_of_key e.0) alt;
        applicable_count = applicable_count;
        per_candidate = by_repr scores [];
        outliers_excluded = outliers_of cfg reports;
      }

  abbrev pub scored_sheet :
      Key → ℕ → ScoringConfig F → Dict (List (Report F)) → Option (Dict F) → Option (ScoreSheet F)
  scored_sheet claimed_key applicable_count cfg reports none = none
  scored_sheet claimed_key applicable_count cfg reports (some scores) =
      option_map (full_sheet claimed_key applicable_count cfg reports scores)
        (get claimed_key scores)

  abbrev pub applicable : List (PluginOutcome F) → List (PluginOutcome F)
  applicable = filter (λ outcome. is_ok outcome.result.status)

  -- The sheet for the applicable outcomes; `none` when a score raises, and a missing claimed key would
  -- be a KeyError.
  unfoldable pub aggregate_on :
      IdSet → ScoringConfig F → List (PluginOutcome F) → Option (ScoreSheet F)
  unfolding full_sheet get score_all
  aggregate_on claimed_ids cfg [] = some empty_sheet
  aggregate_on claimed_ids cfg (first ∷ rest) =
      elim (gather (episodes claimed_ids) (first ∷ rest) []) [
        | none ↦ none
        | some reports ↦
            scored_sheet (episodes claimed_ids) (length (first ∷ rest)) cfg reports
              (score_all cfg reports)
      ]

  unfoldable pub aggregate :
      List (PluginOutcome F) → IdSet → ScoringConfig F → Option (ScoreSheet F)
  unfolding aggregate_on
  aggregate results claimed_ids cfg = aggregate_on claimed_ids cfg (applicable results)

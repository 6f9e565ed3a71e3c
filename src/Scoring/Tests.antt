-- ===== src/Scoring/Tests.antt =====
-- Scoring and routing at three plugins, with confidences in thousandths.
use impostarr.Prelude.{
  ℕ, String, ◌≡◌, ◌≢◌, refl, ◌⊎◌, ◌↔◌, true, false, none, some, List, [], ◌∷◌, ◌-◌, leb, All,
}
use impostarr.Float.{milli, milli-IsOrdered}
use impostarr.Text.{codes}
use impostarr.Candidates.{Candidate, tvdb_order, ok, abstain}
use impostarr.IdSet.{IdSet}
use impostarr.Normalize.{Normalized, in_series}
use impostarr.Normalize.Matching.{in_claimed}
use impostarr.Scoring.Keys.{Key, episodes, key_eq, key_repr, text_le, in_series_kind}
use impostarr.Scoring.KeyDict.{get, put, set_default}
use impostarr.Scoring.{
  PluginOutcome, Report, ScoringConfig, ScoreSheet, linear, logodds, aggregate, applicable,
  reject_outliers, zip_strict, gather, per_plugin, file_reports, fuse, score_all, outliers_of,
  alternate,
}
use impostarr.Scoring.Reports.{IsZipped, said, best_for}
use impostarr.Scoring.Scored.{score_on, Raises}
use impostarr.Scoring.Sheet.{IsSheet, aggregate-claimed, aggregate-alternate}
use impostarr.Scoring.Route.{
  Thresholds, InstanceFlags, MayRemediate, remap, remediate, route, route-remediate_iff,
}
use impostarr.Scoring.Remap.{aggregate-route-remap}

abbrev on : ℕ → ℕ → Candidate ℕ
on confidence number = in_claimed confidence 1 (number ∷ []) tvdb_order

-- A plugin that gives the claimed episode 7 and the episode 8 these confidences.
abbrev plugin : String → ℕ → ℕ → PluginOutcome ℕ
plugin name seven eight = record {
  plugin_name = name;
  weight = 1000;
  result = record { status = ok; has_reason = false; candidates = on seven 7 ∷ on eight 8 ∷ [] };
  normalized = in_series (7 ∷ []) ∷ in_series (8 ∷ []) ∷ [];
}

abbrev silent : PluginOutcome ℕ
silent = record {
  plugin_name = "c";
  weight = 1000;
  result = record { status = abstain; has_reason = true; candidates = [] };
  normalized = [];
}

abbrev outcomes : List (PluginOutcome ℕ)
outcomes = plugin "a" 100 900 ∷ silent ∷ plugin "b" 300 950 ∷ []

abbrev cfg : ScoringConfig ℕ
cfg = record {
  fusion = linear;
  eps = 20;
  outlier_rejection = true;
  outlier_high = 800;
  outlier_low = 200;
  outlier_min_agreeing = 2;
}

abbrev by_logodds : ScoringConfig ℕ
by_logodds = record cfg { fusion = logodds }

abbrev report : String → ℕ → Report ℕ
report name confidence = record { plugin = name; weight = 1000; confidence = confidence }

abbrev thresholds : Thresholds ℕ
thresholds = record {
  quarantine = 800;
  auto = 400;
  alt = 800;
  alt_margin = 200;
  auto_min_evidence = 2;
  phash_store = 900;
}

abbrev flags : InstanceFlags
flags = record { auto_remap = true; auto_replace = false; approval_required = false }

abbrev claimed_ids : IdSet
claimed_ids = 7 ∷ []

outcomes-IsZipped : All (IsZipped milli) (applicable milli outcomes)
unfolding zip_strict
outcomes-IsZipped = ((_, refl), ((_, refl), tt))

abbrev sheet : ScoreSheet ℕ
sheet = record {
  s_claimed = some 200;
  s_alt = some 925;
  alt_key = some (episodes (8 ∷ []));
  alt_kind = some in_series_kind;
  applicable_count = 2;
  per_candidate = (codes "in_series:7", 200) ∷ (codes "in_series:8", 925) ∷ [];
  outliers_excluded = [];
}

aggregated : aggregate milli outcomes claimed_ids cfg ≡ some sheet
unfolding aggregate gather zip_strict per_plugin file_reports set_default get put key_eq fuse
    reject_outliers score_all outliers_of alternate key_repr text_le codes
aggregated = refl

-- One low report against two high ones is excluded.
abbrev mixed : List (Report ℕ)
mixed = report "a" 900 ∷ report "b" 100 ∷ report "c" 850 ∷ []

aggregate-claimed_example :
    (Raises milli by_logodds (episodes claimed_ids) (applicable milli outcomes)
      × (aggregate milli outcomes claimed_ids by_logodds ≡ none))
    ⊎ ((result : ScoreSheet ℕ) × (aggregate milli outcomes claimed_ids by_logodds ≡ some result)
        × IsSheet milli by_logodds claimed_ids (applicable milli outcomes) result)
aggregate-claimed_example =
    aggregate-claimed milli by_logodds outcomes claimed_ids outcomes-IsZipped

-- With an `eps` of 0, two plugins that are certain of a key make its fusion raise.
certain_raises :
    fuse milli (report "a" 1000 ∷ report "b" 1000 ∷ []) (record by_logodds { eps = 0 }) ≡ none
unfolding fuse
certain_raises = refl

aggregate-alternate_example :
    let claimed = episodes claimed_ids in
    let heard = applicable milli outcomes in
    let alt = episodes (8 ∷ []) in
    (key_eq alt claimed ≡ false)
    × (sheet.s_alt ≡ some (score_on milli cfg claimed alt heard))
    × ((other : Key)
        → key_eq other claimed ≡ false
        → said milli claimed other heard ≢ []
        → (leb (score_on milli cfg claimed other heard) (score_on milli cfg claimed alt heard)
            ≡ true)
          × (leb (score_on milli cfg claimed alt heard) (score_on milli cfg claimed other heard)
                ≡ true
              → text_le (key_repr alt) (key_repr other) ≡ true))
aggregate-alternate_example =
    aggregate-alternate milli cfg outcomes claimed_ids sheet (episodes (8 ∷ [])) milli-IsOrdered
      outcomes-IsZipped aggregated refl

routed : (route milli sheet thresholds flags).action ≡ some (remap (8 ∷ []))
unfolding route
routed = refl

aggregate-route-remap_example :
    let target =
      score_on milli cfg (episodes claimed_ids) (episodes (8 ∷ [])) (applicable milli outcomes) in
    (s : ℕ) × (sheet.s_claimed ≡ some s)
    × (◌≢◌ {A = IdSet} (8 ∷ []) claimed_ids)
    × (leb 400 s ≡ false)
    × (leb 800 target ≡ true)
    × (leb 200 (target - s) ≡ true)
aggregate-route-remap_example =
    aggregate-route-remap milli cfg outcomes claimed_ids (8 ∷ []) sheet thresholds flags
      milli-IsOrdered outcomes-IsZipped aggregated routed

route-remediate_iff_example :
    ((route milli sheet thresholds flags).outcome ≡ remediate)
    ↔ ((s : ℕ) × MayRemediate milli sheet thresholds flags s)
route-remediate_iff_example = route-remediate_iff milli sheet thresholds flags

abbrev repeated : List (Candidate ℕ × Normalized)
repeated =
    (on 300 7, in_series (7 ∷ []))
    ∷ (on 800 8, in_series (8 ∷ []))
    ∷ (on 600 7, in_series (7 ∷ []))
    ∷ []

best_repeated : best_for milli (episodes claimed_ids) repeated none ≡ some 600
unfolding best_for key_eq
best_repeated = refl

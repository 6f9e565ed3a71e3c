-- ===== src/Scoring/Outliers.antt =====
-- `_reject_outliers` of src/impostarr/scoring.py.
use impostarr.Prelude.{
  suc, ◌+◌, ◌≤◌, ◌<◌, ◌≡◌, refl, ap, ◌⊎◌, inl, inr, true, List, [], ◌∷◌, map, arith, Bool-cases,
  length, filter, all, All,
}
use impostarr.Float.{Float}
use impostarr.Scoring.Keys.{Key}
use impostarr.Scoring.{
  Report, ScoringConfig, is_high, is_low, not_high, rejects, reject_outliers, excluded,
}

module _ {F : Type 0} (o : Float F) (cfg : ScoringConfig F) where
  split_sizes :
      (reports : List (Report F))
      → length (filter (is_high o cfg) reports) + length (filter (not_high o cfg) reports)
        ≡ length reports
  split_sizes [] = refl
  split_sizes (r ∷ rs) = ground (arith, split_sizes rs)

  high_kept :
      (reports : List (Report F))
      → All (λ r. o.le cfg.outlier_high r.confidence ≡ true) (filter (is_high o cfg) reports)
  high_kept [] = tt
  high_kept (r ∷ rs) = ground (arith, high_kept rs)

  low_dropped :
      (key : Key) (reports : List (Report F))
      → all (is_low o cfg) reports ≡ true
      → All (λ x. o.le x.confidence cfg.outlier_low ≡ true) (map (excluded o key) reports)
  low_dropped key [] h = tt
  low_dropped key (r ∷ rs) h = ground (arith, low_dropped key rs)

  length-excluded :
      (key : Key) (reports : List (Report F))
      → length (map (excluded o key) reports) ≡ length reports
  length-excluded key [] = refl
  length-excluded key (r ∷ rs) = ap suc (length-excluded key rs)

  rejects_parts :
      (reports : List (Report F))
      → rejects o reports cfg ≡ true
      → (cfg.outlier_rejection ≡ true)
        × (cfg.outlier_min_agreeing ≤ length (filter (is_high o cfg) reports))
        × (0 < length (filter (not_high o cfg) reports))
        × (all (is_low o cfg) (filter (not_high o cfg) reports) ≡ true)
  unfolding rejects
  rejects_parts reports h = ground arith

  -- `_reject_outliers` either keeps every report and excludes none, or it keeps exactly the high
  -- reports, of which there are at least `outlier_min_agreeing`, and excludes at least one report,
  -- all of them low; no report is lost or counted twice.
  pub reject_outliers-split :
      (key : Key) (reports : List (Report F))
      → let (pool, out) = reject_outliers o key reports cfg in
        ((pool ≡ reports) × (out ≡ []))
        ⊎ ((cfg.outlier_rejection ≡ true)
            × (pool ≡ filter (is_high o cfg) reports)
            × (cfg.outlier_min_agreeing ≤ length pool)
            × (0 < length out)
            × All (λ x. o.le x.confidence cfg.outlier_low ≡ true) out
            × (length pool + length out ≡ length reports))
  unfolding reject_outliers
  reject_outliers-split key reports = elim (Bool-cases (rejects o reports cfg)) [
    | inl e ↦
        let (on, agree, some_low, low) = rejects_parts reports e in
        let kept = length-excluded key (filter (not_high o cfg) reports) in
        rw e (
          inr (
            on,
            refl,
            agree,
            omega (arith, kept, some_low),
            low_dropped key (filter (not_high o cfg) reports) low,
            omega (arith, kept, split_sizes reports),
          ))
    | inr e ↦ inl (rw e, rw e)
  ]

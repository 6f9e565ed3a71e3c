-- ===== src/Scoring/Route.antt =====
-- `route` of src/impostarr/scoring.py: where a scored file goes. The `reason` text is left out.
use impostarr.Prelude.{
  ℕ, ◌≡◌, ◌≤◌, ◌≢◌, ◌↔◌, inl, inr, Bool, true, false, not, ◌&&◌, Option, none, some, arith, leb,
  if◌then◌else◌, Option-cases,
}
use impostarr.Float.{Float}
use impostarr.IdSet.{IdSet}
use impostarr.Scoring.Keys.{Key, episodes, Kind, in_series_kind}
use impostarr.Scoring.{ScoreSheet}

-- `Thresholds` of src/impostarr/config.py
pub record Thresholds (F : Type 0) : Type 0 where
  pub quarantine : F
  pub auto : F
  pub alt : F
  pub alt_margin : F
  pub auto_min_evidence : ℕ
  pub phash_store : F

pub record InstanceFlags : Type 0 where
  pub auto_remap : Bool
  pub auto_replace : Bool
  pub approval_required : Bool

pub data Action : Type 0 where
  remap : IdSet → Action
  replace : Action

pub data Outcome : Type 0 where
  matched quarantine_outcome inconclusive remediate : Outcome

pub record RoutingDecision : Type 0 where
  pub outcome : Outcome
  pub action : Option Action
  pub auto : Bool

module _ {F : Type 0} (o : Float F) where
  -- Whether the alternate is good enough, and far enough above the claimed episode.
  unfoldable pub credible : Option F → F → Thresholds F → Bool
  credible none s_claimed thresholds = false
  credible (some s_alt) s_claimed thresholds =
      o.le thresholds.alt s_alt && o.le thresholds.alt_margin (o.sub s_alt s_claimed)

  -- `Remap(target_episode_ids=sheet.alt_key)` for a credible alternate of the series. The kind of a
  -- sheet's alternate is that of its key, so an in-series kind comes with a set of ids.
  unfoldable pub propose : Bool → Option Kind → Option Key → Action
  propose true (some in_series_kind) (some (episodes ids)) = remap ids
  propose _ _ _ = replace

  abbrev pub flag_for : Action → InstanceFlags → Bool
  flag_for (remap _) flags = flags.auto_remap
  flag_for replace flags = flags.auto_replace

  -- The remediation path of `route`, for a score below the auto threshold.
  unfoldable pub remediation : ScoreSheet F → F → Thresholds F → InstanceFlags → RoutingDecision
  unfolding credible propose
  remediation sheet s_claimed thresholds flags =
      let action =
        propose (credible sheet.s_alt s_claimed thresholds) sheet.alt_kind sheet.alt_key in
      let auto =
        leb thresholds.auto_min_evidence sheet.applicable_count
        && flag_for action flags
        && not flags.approval_required in
      record {
        outcome = if auto then remediate else quarantine_outcome;
        action = some action;
        auto = auto;
      }

  unfoldable pub route : ScoreSheet F → Thresholds F → InstanceFlags → RoutingDecision
  unfolding remediation
  route sheet thresholds flags = elim sheet.s_claimed [
    | none ↦ record { outcome = inconclusive; action = none; auto = false }
    | some s_claimed ↦
        if o.le thresholds.quarantine s_claimed
        then record { outcome = matched; action = none; auto = false }
        else if o.le thresholds.auto s_claimed
        then record { outcome = quarantine_outcome; action = none; auto = false }
        else remediation sheet s_claimed thresholds flags
  ]

  -- The action that the remediation path proposes.
  abbrev pub proposed : ScoreSheet F → F → Thresholds F → Action
  proposed sheet s_claimed thresholds =
      propose (credible sheet.s_alt s_claimed thresholds) sheet.alt_kind sheet.alt_key

  -- What it takes to act without a human.
  pub record MayRemediate (sheet : ScoreSheet F) (thresholds : Thresholds F) (flags : InstanceFlags)
      (s_claimed : F) : Type 0 where
    pub scored : sheet.s_claimed ≡ some s_claimed
    pub not_matched : o.le thresholds.quarantine s_claimed ≡ false
    pub below_auto : o.le thresholds.auto s_claimed ≡ false
    pub evidence : thresholds.auto_min_evidence ≤ sheet.applicable_count
    pub enabled : flag_for (proposed sheet s_claimed thresholds) flags ≡ true
    pub unattended : flags.approval_required ≡ false

  -- `route` sends a file to remediation exactly when it has a score below both thresholds, enough
  -- plugins were applicable, the instance enables the proposed action, and no approval is required.
  pub route-remediate_iff :
      (sheet : ScoreSheet F) (thresholds : Thresholds F) (flags : InstanceFlags)
      → ((route sheet thresholds flags).outcome ≡ remediate)
        ↔ ((s_claimed : F) × MayRemediate sheet thresholds flags s_claimed)
  unfolding route
  route-remediate_iff sheet thresholds flags = (
    λ h. elim (Option-cases sheet.s_claimed) [
      | inl e ↦ absurd (ground arith)
      | inr (s, e) ↦ (s, ground arith)
    ],
    λ m. ground (arith, m.1),
  )

  -- The decision with `auto` taken back: a remediation becomes a quarantine that proposes it.
  abbrev pub demoted : RoutingDecision → RoutingDecision
  demoted d = record d { outcome = if d.auto then quarantine_outcome else d.outcome; auto = false }

  -- Requiring approval changes no decision but for `auto`: what would be remediated is quarantined
  -- with the same proposed action, and all else is routed as without it.
  pub route-approval :
      (sheet : ScoreSheet F) (thresholds : Thresholds F) (flags : InstanceFlags)
      → route sheet thresholds (record flags { approval_required = true })
        ≡ demoted (route sheet thresholds (record flags { approval_required = false }))
  unfolding route
  route-approval sheet thresholds flags = ground arith

  -- A decision is automatic exactly when it remediates, and has an action exactly when there is a
  -- score below both thresholds; so a matched or inconclusive file has none.
  pub route-consistent :
      (sheet : ScoreSheet F) (thresholds : Thresholds F) (flags : InstanceFlags)
      → let d = route sheet thresholds flags in
        ((d.auto ≡ true) ↔ (d.outcome ≡ remediate))
        × (d.outcome ≡ matched → d.action ≡ none)
        × (d.outcome ≡ inconclusive → (d.action ≡ none) × (sheet.s_claimed ≡ none))
        × (d.action ≡ none → d.outcome ≢ remediate)
  unfolding route
  route-consistent sheet thresholds flags = ground arith

-- ===== src/Scoring/Remap.antt =====
-- `aggregate` followed by `route` in src/impostarr/scoring.py: what a proposed remap is aimed at.
use impostarr.Prelude.{
  ◌≡◌, ◌≢◌, refl, sym, ◌∙◌, inl, inr, Bool, true, false, Option, none, some, List, arith,
  Option-cases, All,
}
use mathlib.Core.Option.{some-injective}
use impostarr.Float.{Float, IsOrdered}
use impostarr.IdSet.{IdSet}
use impostarr.Scoring.Keys.{Key, episodes, Kind, key_eq, key_eq_refl}
use impostarr.Scoring.{ScoreSheet, PluginOutcome, ScoringConfig, aggregate, applicable}
use impostarr.Scoring.Reports.{IsZipped}
use impostarr.Scoring.Scored.{score_on}
use impostarr.Scoring.Sheet.{aggregate-alternate}
use impostarr.Scoring.Route.{Thresholds, InstanceFlags, remap, credible, propose, route}

no_self : (ids : IdSet) → key_eq (episodes ids) (episodes ids) ≡ false → ⊥
no_self ids h = let p = key_eq_refl (episodes ids) in cc

module _ {F : Type 0} (o : Float F) where
  credible_parts :
      (s_alt : Option F) (s : F) (th : Thresholds F)
      → credible o s_alt s th ≡ true
      → (a : F) × (s_alt ≡ some a)
        × (o.le th.alt a ≡ true)
        × (o.le th.alt_margin (o.sub a s) ≡ true)
  unfolding credible
  credible_parts none s th h = absurd (ground arith)
  credible_parts (some a) s th h = (a, refl, ground arith, ground arith)

  propose_parts :
      (c : Bool) (kind : Option Kind) (key : Option Key) (ids : IdSet)
      → propose o c kind key ≡ remap ids
      → (c ≡ true) × (key ≡ some (episodes ids))
  unfolding propose
  propose_parts c kind key ids h = ground arith

  remediates :
      (sheet : ScoreSheet F) (s : F) (th : Thresholds F) (flags : InstanceFlags) (ids : IdSet)
      → sheet.s_claimed ≡ some s
      → (route o sheet th flags).action ≡ some (remap ids)
      → (o.le th.auto s ≡ false)
        × (propose o (credible o sheet.s_alt s th) sheet.alt_kind sheet.alt_key ≡ remap ids)
  remediates sheet s th flags ids e h = unfold route in (ground arith, ground arith)

  route-remap :
      (sheet : ScoreSheet F) (th : Thresholds F) (flags : InstanceFlags) (ids : IdSet)
      → (route o sheet th flags).action ≡ some (remap ids)
      → (s : F) × (sheet.s_claimed ≡ some s)
        × (o.le th.auto s ≡ false)
        × (sheet.alt_key ≡ some (episodes ids))
        × (credible o sheet.s_alt s th ≡ true)
  route-remap sheet th flags ids h = elim (Option-cases sheet.s_claimed) [
    | inl e ↦ absurd (unfold route in ground arith)
    | inr (s, e) ↦
        let (below, proposes) = remediates sheet s th flags ids e h in
        let (c, key) =
          propose_parts (credible o sheet.s_alt s th) sheet.alt_kind sheet.alt_key ids proposes in
        (s, e, below, key, c)
  ]

  -- If `route` proposes to remap a file on the strength of a sheet that `aggregate` returned, the
  -- target is not the claimed set of episodes; the claimed score is below the auto threshold; and
  -- the score of what the plugins said of the target reaches the alternate's threshold and is above
  -- the claimed score by the required margin.
  pub aggregate-route-remap :
      (cfg : ScoringConfig F) (results : List (PluginOutcome F)) (claimed_ids ids : IdSet)
      (sheet : ScoreSheet F) (th : Thresholds F) (flags : InstanceFlags)
      → IsOrdered o
      → All (IsZipped o) (applicable o results)
      → aggregate o results claimed_ids cfg ≡ some sheet
      → (route o sheet th flags).action ≡ some (remap ids)
      → let target = score_on o cfg (episodes claimed_ids) (episodes ids) (applicable o results) in
        (s : F) × (sheet.s_claimed ≡ some s)
        × (ids ≢ claimed_ids)
        × (o.le th.auto s ≡ false)
        × (o.le th.alt target ≡ true)
        × (o.le th.alt_margin (o.sub target s) ≡ true)
  aggregate-route-remap cfg results claimed_ids ids sheet th flags ord z e h =
      let (s, claimed, below, key, good) = route-remap sheet th flags ids h in
      let (ne, alt, best) =
        aggregate-alternate o cfg results claimed_ids sheet (episodes ids) ord z e key in
      let (a, at, enough, far) = credible_parts sheet.s_alt s th good in
      let target : some
            (score_on o cfg (episodes claimed_ids) (episodes ids) (applicable o results))
          ≡ some a =
        sym alt ∙ at in
      let q = some-injective _ _ target in
      (s, claimed, λ e. absurd (no_self claimed_ids (rw e at ne)), below, rw q enough, rw q far)

-- ===== src/Remediate/Checks.antt =====
-- `Remediator.remap` of src/impostarr/remediate.py: what its checks on the targets let through.
use impostarr.Prelude.{String, List, some, false, ◌≡◌, refl, any, ◌⊎◌, inl, inr}
use impostarr.IdSet.{IdSet}
use impostarr.Jobs.Rows.{Row}
use impostarr.Remediate.{
  Run, MediaFile, Settings, Flow, go, halt, Ending, released, refused, lost, raised, fail, log_step,
  episode_resolution, occupied_check,
}
use impostarr.Remediate.Remap.{
  RemapAnswers, TargetEpisode, check_targets, propose_if_released, is_nonempty, missing_ids,
}
use impostarr.Remediate.Leads.{Leads, is_remediated, if-Leads, fail-Leads}

module _ (G : Run → Type 0) (H : Run → Ending → Type 0) where
  propose-Leads :
      (J : Run → Ending → Type 0) (targets : IdSet) (x : Flow)
      → Leads G J x
      → ((r : Run) (e : Ending) → J r e → H r e × H (record r { proposed = some targets }) e)
      → Leads G H (propose_if_released targets x)
  propose-Leads J targets (go r) l h = l
  propose-Leads J targets (halt r (released new)) l h = (h r (released new) l).1
  propose-Leads J targets (halt r lost) l h = (h r lost l).0
  propose-Leads J targets (halt r refused) l h = (h r refused l).0
  propose-Leads J targets (halt r raised) l h = (h r raised l).0

  -- The ending of a refusal, which changes the log, the rows and the proposal.
  abbrev pub Refusal : Settings → Run → Type 0
  Refusal s r =
      (r' : Run) (e : Ending)
      → is_remediated e ≡ false
      → r'.requests ≡ r.requests
      → r'.copies ≡ r.copies
      → r'.trash_items ≡ r.trash_items
      → (r'.log ≡ (log_step s episode_resolution false false r).log)
        ⊎ (r'.log ≡ (log_step s occupied_check false false r).log)
      → H r' e

  pub check_targets-Leads :
      (s : Settings) (job : Row) (worker : String) (file : MediaFile) (targets : IdSet)
      (a : RemapAnswers) (eps : List TargetEpisode) (r : Run)
      → Refusal s r
      → (is_nonempty (missing_ids targets eps) ≡ false → any (λ ep. ep.has_file) eps ≡ false → G r)
      → Leads G H (check_targets s job worker file targets a eps r)
  unfolding check_targets
  check_targets-Leads s job worker file targets a eps r refuse pass =
      if-Leads G H (is_nonempty (missing_ids targets eps)) _ _
        (λ _.
          fail-Leads G H s job worker episode_resolution r
            (λ rows e n. refuse _ e n refl refl refl (inl refl)))
        (λ m.
          if-Leads G H (any (λ ep. ep.has_file) eps) _ _
            (λ _.
              propose-Leads
                (λ r' e.
                  (is_remediated e ≡ false)
                  × (r'.requests ≡ r.requests)
                  × (r'.copies ≡ r.copies)
                  × (r'.trash_items ≡ r.trash_items)
                  × (r'.log ≡ (log_step s occupied_check false false r).log))
                targets (fail s job worker occupied_check r)
                (fail-Leads G _ s job worker occupied_check r
                  (λ rows e n. (n, refl, refl, refl, refl)))
                (λ r' e k. (
                  refuse r' e k.0 k.1 k.2 k.3 (inr k.4),
                  refuse (record r' { proposed = some targets }) e k.0 k.1 k.2 k.3 (inr k.4),
                )))
            (λ o. pass m o))

-- ===== src/Remediate/Quiet.antt =====
-- src/impostarr/remediate.py: the calls of `replace` and `remap` that touch nothing, since an
-- earlier one was interrupted or since it is a dry run.
use impostarr.Prelude.{
  ℕ, String, Bool, true, false, not, ◌||◌, ◌≡◌, refl, ◌∙◌, Option, none, some, List, [], ◌∷◌, ◌++◌,
  inl, inr, any-append, arith,
}
use impostarr.IdSet.{IdSet}
use impostarr.Jobs.Rows.{Row}
use impostarr.Remediate.{
  StepName, trash, hardlink, episode_resolution, occupied_check, mark_history_failed, manual_import,
  Entry, is_mutating_entry, was_interrupted, Run, MediaFile, Settings, Ending, guard, log_step,
  Request, Answer, attempt, fail,
}
use impostarr.Remediate.Replace.{
  ReplaceAnswers, blocklist, keep_copy, delete, search_again, replace,
}
use impostarr.Remediate.Remap.{
  RemapAnswers, target_episodes, stage, delete_record, import_staged, remap,
}
use impostarr.Remediate.Leads.{
  Leads, Never, is_remediated, if-Leads, fail-Leads, attempt-Leads, guard-Leads,
}
use impostarr.Remediate.Checks.{Refusal, check_targets-Leads}
use impostarr.Remediate.Stages.{replace-Leads, remap-Leads}

-- No request, no copy and no trash row more than before.
abbrev pub IsUntouched : Run → Run → Type 0
IsUntouched r r' =
    (r'.requests ≡ r.requests) × (r'.copies ≡ r.copies) × (r'.trash_items ≡ r.trash_items)

-- Untouched, and with a log that does not count as interrupted.
abbrev pub IsQuiet : Run → Run → Type 0
IsQuiet r r' = IsUntouched r r' × (was_interrupted r'.log ≡ false)

pub interrupted-append :
    (log : List Entry) (e : Entry)
    → was_interrupted (log ++ e ∷ []) ≡ (was_interrupted log || is_mutating_entry e)
interrupted-append [] e = ground arith
interrupted-append (x ∷ xs) e = ground (arith, interrupted-append xs e)

-- A log that counts as interrupted still does with more entries.
pub interrupted-more :
    (log more : List Entry) → was_interrupted log ≡ true → was_interrupted (log ++ more) ≡ true
interrupted-more log more i = rw (any-append is_mutating_entry log more, i) refl

-- An entry of a dry run counts for nothing.
dry-IsQuiet :
    (s : Settings) (step : StepName) (fine note : Bool) (r r' : Run)
    → s.dry_run ≡ true
    → IsQuiet r r'
    → IsQuiet r (log_step s step fine note r')
dry-IsQuiet s step fine note r r' d q =
    (q.0, rw (interrupted-append r'.log _, q.1, d) (ground arith))

module _ (s : Settings) (job : Row) (worker : String) (r : Run) where
  abbrev Ends : Run → Ending → Type 0
  Ends r' e = IsQuiet r r'

  abbrev Refuses : Run → Ending → Type 0
  Refuses r' e = IsUntouched r r' × (is_remediated e ≡ false)

  dry_attempt :
      (step : StepName) (q : Request) (a : Answer) (r' : Run)
      → s.dry_run ≡ true
      → IsQuiet r r'
      → Leads (IsQuiet r) Ends (attempt s job worker step q a r')
  dry_attempt step q a r' d k =
      attempt-Leads (IsQuiet r) Ends s job worker step q a r'
        (λ _. dry-IsQuiet s step true false r r' d k) (λ n. ground arith) (λ n. ground arith)
        (λ n. ground arith)

  dry_fail :
      (step : StepName) (r' : Run)
      → s.dry_run ≡ true
      → IsQuiet r r'
      → Leads (IsQuiet r) Ends (fail s job worker step r')
  dry_fail step r' d k =
      fail-Leads (IsQuiet r) Ends s job worker step r'
        (λ rows e _. dry-IsQuiet s step false false r r' d k)

  dry_guard : was_interrupted r.log ≡ false → Leads (IsQuiet r) Ends (guard s job worker r)
  dry_guard w =
      guard-Leads (IsQuiet r) Ends s job worker r (λ _. ((refl, refl, refl), w)) (λ i. ground arith)

  stopped_guard : was_interrupted r.log ≡ true → Leads Never Refuses (guard s job worker r)
  stopped_guard w =
      guard-Leads Never Refuses s job worker r (λ i. ground arith)
        (λ i rows e n. ((refl, refl, refl), n))

  module _ (file : MediaFile) (a : ReplaceAnswers) where
    dry_blocklist :
        (history_id : Option ℕ) (r' : Run)
        → s.dry_run ≡ true
        → IsQuiet r r'
        → Leads (IsQuiet r) Ends (blocklist s job worker file a history_id r')
    unfolding blocklist
    dry_blocklist none r' d k = dry-IsQuiet s mark_history_failed true true r r' d k
    dry_blocklist (some h) r' d k = dry_attempt _ _ _ r' d k

    dry_keep_copy :
        (r' : Run)
        → s.dry_run ≡ true
        → IsQuiet r r'
        → Leads (IsQuiet r) Ends (keep_copy s job worker file a r')
    unfolding keep_copy
    dry_keep_copy r' d k =
        if-Leads (IsQuiet r) Ends (not s.trash_enabled) _ _ (λ _. k)
          (λ _.
            if-Leads (IsQuiet r) Ends s.dry_run _ _ (λ _. dry-IsQuiet s trash true false r r' d k)
              (λ n. ground arith))

    -- A dry run of `replace`, on a log that does not count as interrupted, sends no request, makes no
    -- copy and adds no trash row, and leaves a log that does not block a later call.
    pub replace-dry :
        s.dry_run ≡ true
        → was_interrupted r.log ≡ false
        → Leads Never Ends (replace s job worker file a r)
    unfolding replace delete search_again
    replace-dry d w =
        replace-Leads s job worker Ends file a r (IsQuiet r) (IsQuiet r) (IsQuiet r) (IsQuiet r)
          (IsQuiet r) (dry_guard w) (λ q k. dry_blocklist file.history_id q d k)
          (λ q k. dry_keep_copy q d k) (λ q k. dry_attempt _ _ _ q d k)
          (λ q k. dry_attempt _ _ _ q d k) (λ q k. ((λ rows. k), (k, k)))

    -- After an interrupted call `replace` sends no request, makes no copy and adds no trash row, and
    -- it does not end as remediated.
    pub replace-interrupted :
        was_interrupted r.log ≡ true → Leads Never Refuses (replace s job worker file a r)
    replace-interrupted w =
        replace-Leads s job worker Refuses file a r Never Never Never Never Never (stopped_guard w)
          (λ q n. elim n [ ]) (λ q n. elim n [ ]) (λ q n. elim n [ ]) (λ q n. elim n [ ])
          (λ q n. elim n [ ])

  module _ (file : MediaFile) (targets : IdSet) (a : RemapAnswers) where
    dry-Refusal : (q : Run) → s.dry_run ≡ true → IsQuiet r q → Refusal (IsQuiet r) Ends s q
    dry-Refusal q d k r' e n re co tr lg = elim lg [
      | inl l ↦ (
        (re ∙ k.0.0, co ∙ k.0.1, tr ∙ k.0.2),
        rw (l) (dry-IsQuiet s episode_resolution false false r q d k).1,
      )
      | inr l ↦ (
        (re ∙ k.0.0, co ∙ k.0.1, tr ∙ k.0.2),
        rw (l) (dry-IsQuiet s occupied_check false false r q d k).1,
      )
    ]

    dry_stage :
        (name : List ℕ) (q : Run)
        → s.dry_run ≡ true
        → IsQuiet r q
        → Leads (IsQuiet r) Ends (stage s job worker file targets a name q)
    unfolding stage
    dry_stage name q d k =
        if-Leads (IsQuiet r) Ends s.dry_run _ _ (λ _. dry-IsQuiet s hardlink true false r q d k)
          (λ n. ground arith)

    dry_import :
        (name ids : List ℕ) (q : Run)
        → s.dry_run ≡ true
        → IsQuiet r q
        → Leads (IsQuiet r) Ends (import_staged s job worker file targets a name ids q)
    unfolding import_staged
    dry_import name ids q d k =
        if-Leads (IsQuiet r) Ends s.dry_run _ _
          (λ _. dry-IsQuiet s manual_import true false r q d k) (λ n. ground arith)

    -- A dry run of `remap`, on a log that does not count as interrupted, sends no request, makes no
    -- copy and adds no trash row, and leaves a log that does not block a later call.
    pub remap-dry :
        s.dry_run ≡ true
        → was_interrupted r.log ≡ false
        → Leads Never Ends (remap s job worker file targets a r)
    unfolding delete_record
    remap-dry d w =
        remap-Leads s job worker Ends file targets a r (IsQuiet r) (IsQuiet r) (IsQuiet r)
          (IsQuiet r) (IsQuiet r) (dry_guard w) (λ q k. k)
          (λ eps q e k.
            check_targets-Leads (IsQuiet r) Ends s job worker file targets a
              (target_episodes targets eps) q (dry-Refusal q d k) (λ _ _. k))
          (λ q k. k)
          (λ eps n q e en k. (
            dry_stage n q d k,
            ((λ q' k'. dry_attempt _ _ _ q' d k'), (λ q' k'. dry_import n _ q' d k')),
          ))
          (λ q k. ((λ rows. k), (k, k)))

    -- After an interrupted call `remap` sends no request, makes no copy and adds no trash row, and
    -- it does not end as remediated.
    pub remap-interrupted :
        was_interrupted r.log ≡ true → Leads Never Refuses (remap s job worker file targets a r)
    remap-interrupted w =
        remap-Leads s job worker Refuses file targets a r Never Never Never Never Never
          (stopped_guard w) (λ q n. elim n [ ]) (λ eps q e n. elim n [ ]) (λ q n. elim n [ ])
          (λ eps m q e en n. elim n [ ]) (λ q n. elim n [ ])

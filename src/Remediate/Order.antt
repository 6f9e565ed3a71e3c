-- ===== src/Remediate/Order.antt =====
-- src/impostarr/remediate.py: a file is deleted only when a copy of it is kept, and once it is
-- deleted no call that reads the log of its verdict acts again. A later verdict has its own log.
use impostarr.Prelude.{
  ℕ, String, true, false, not, ◌&&◌, ◌≡◌, ◌⊎◌, sym, subst, List, [], ◌∷◌, ◌++◌, ◌==◌, any-append,
  arith,
}
use impostarr.IdSet.{IdSet}
use impostarr.Jobs.Rows.{Row}
use impostarr.Remediate.{
  StepName, Entry, Request, delete_file, to_trash, was_interrupted, Run, MediaFile, Settings,
  Answer, success, Ending, place, trash, attempt, raised, delete_episode_file,
}
use impostarr.Remediate.Replace.{ReplaceAnswers, keep_copy, delete, search_again, replace}
use impostarr.Remediate.Remap.{RemapAnswers, target_episodes, delete_record, remap}
use impostarr.Remediate.Leads.{
  Leads, Never, is_remediated, if-Leads, fail-Leads, attempt-Leads, Leads-weaken, test_or,
}
use impostarr.Remediate.Stages.{replace-Leads, remap-Leads}
use impostarr.Remediate.Quiet.{
  IsUntouched, interrupted-append, interrupted-more, replace-interrupted, remap-interrupted,
}
use impostarr.Remediate.Carried.{
  is_to_trash, deletes, in_trash, in_staging, guarded, blocklisted, kept, checked, staged,
  attempted, imported,
}

module _ (s : Settings) (job : Row) (worker : String) (r : Run) (real : s.dry_run ≡ false) where
  module _ (file : MediaFile) (a : ReplaceAnswers) (enabled : s.trash_enabled ≡ true)
      (fresh : deletes r ≡ false) where
    abbrev Trashed : Run → Ending → Type 0
    Trashed q e = deletes q ≡ true → in_trash file q ≡ true

    spared : (q : Run) (e : Ending) → deletes q ≡ false → Trashed q e
    spared q e k d = ground arith

    copied :
        (q : Run)
        → deletes q ≡ false
        → Leads (λ q'. in_trash file q' ≡ true) Trashed (keep_copy s job worker file a q)
    unfolding keep_copy
    copied q k =
        if-Leads _ Trashed (not s.trash_enabled) _ _ (λ n. ground arith)
          (λ _.
            if-Leads _ Trashed s.dry_run _ _ (λ n. ground arith)
              (λ _.
                if-Leads _ Trashed (a.mkdir && place a.link) _ _
                  (λ _.
                    rw
                      (
                        any-append is_to_trash q.copies (to_trash ∷ []),
                        any-append (λ t. t.file_id == file.id) q.trash_items _,
                      )
                      (ground arith))
                  (λ _. fail-Leads _ Trashed s job worker trash q (λ rows e n d. ground arith))))

    after_copy :
        (step : StepName) (m : Request) (answer : Answer) (q : Run)
        → in_trash file q ≡ true
        → Leads (λ q'. in_trash file q' ≡ true) Trashed (attempt s job worker step m answer q)
    after_copy step m answer q k =
        attempt-Leads _ Trashed s job worker step m answer q (λ _. k) (λ _ _. k)
          (λ _ _ rows e n d. k) (λ _ _ d. k)

    replace-IsTrashed : Leads Never Trashed (replace s job worker file a r)
    unfolding delete search_again
    replace-IsTrashed =
        replace-Leads s job worker Trashed file a r (λ q. deletes q ≡ false)
          (λ q. deletes q ≡ false) (λ q. in_trash file q ≡ true) (λ q. in_trash file q ≡ true)
          (λ q. in_trash file q ≡ true) (guarded s job worker Trashed spared r fresh)
          (blocklisted s job worker Trashed spared file a file.history_id) copied (after_copy _ _ _)
          (after_copy _ _ _) (λ q k. ((λ rows d. k), ((λ d. k), (λ d. k))))

    -- With trash enabled, a call of `replace` that is no dry run, and starts with no request to
    -- delete sent, sends one only when the file has its copy in the trash and its trash row.
    pub replace-keeps_copy :
        Leads Never
          (λ q e. (deletes q ≡ false) ⊎ (in_trash file q ≡ true))
          (replace s job worker file a r)
    replace-keeps_copy =
        Leads-weaken Never Trashed _ (replace s job worker file a r) replace-IsTrashed
          (λ q e t. test_or (deletes q) t)

  -- A delete that Sonarr has confirmed is in the log.
  abbrev Sealed : Answer → Run → Ending → Type 0
  Sealed answer q e = answer ≡ success → deletes q ≡ true → was_interrupted q.log ≡ true

  unsent : (answer : Answer) (q : Run) (e : Ending) → deletes q ≡ false → Sealed answer q e
  unsent answer q e k t d = ground arith

  sealing :
      (answer : Answer) (id : ℕ) (q : Run)
      → deletes q ≡ false
      → Leads
          (λ q'. was_interrupted q'.log ≡ true)
          (Sealed answer)
          (attempt s job worker delete_episode_file (delete_file id) answer q)
  sealing answer id q k =
      attempt-Leads _ (Sealed answer) s job worker _ _ answer q (λ n. ground arith)
        (λ n _. rw (interrupted-append q.log _, n) (ground arith)) (λ _ f rows e n t. ground arith)
        (λ _ f t. ground arith)

  Sealed-attempt :
      (answer answer' : Answer) (step : StepName) (m : Request) (q : Run)
      → was_interrupted q.log ≡ true
      → Leads
          (λ q'. was_interrupted q'.log ≡ true)
          (Sealed answer)
          (attempt s job worker step m answer' q)
  Sealed-attempt answer answer' step m q k =
      attempt-Leads _ (Sealed answer) s job worker step m answer' q
        (λ n. rw (interrupted-append q.log _, k) (ground arith))
        (λ n _. rw (interrupted-append q.log _, k) (ground arith))
        (λ _ _ rows e n t d. rw (interrupted-append q.log _, k) (ground arith)) (λ _ _ t d. k)

  module _ (file : MediaFile) (a : ReplaceAnswers) (fresh : deletes r ≡ false) where
    replace-IsSealed : Leads Never (Sealed a.delete) (replace s job worker file a r)
    unfolding delete search_again
    replace-IsSealed =
        replace-Leads s job worker (Sealed a.delete) file a r (λ q. deletes q ≡ false)
          (λ q. deletes q ≡ false) (λ q. deletes q ≡ false) (λ q. was_interrupted q.log ≡ true)
          (λ q. was_interrupted q.log ≡ true)
          (guarded s job worker (Sealed a.delete) (unsent a.delete) r fresh)
          (blocklisted s job worker (Sealed a.delete) (unsent a.delete) file a file.history_id)
          (kept s job worker (Sealed a.delete) (unsent a.delete) file a)
          (sealing a.delete file.episode_file_id) (Sealed-attempt a.delete a.search _ _)
          (λ q k. ((λ rows t d. k), ((λ t d. k), (λ t d. k))))

  module _ (file : MediaFile) (targets : IdSet) (a : RemapAnswers) (fresh : deletes r ≡ false) where
    abbrev Staged : Run → Ending → Type 0
    Staged q e = deletes q ≡ true → in_staging q ≡ true

    unstaged : (q : Run) (e : Ending) → deletes q ≡ false → Staged q e
    unstaged q e k d = ground arith

    remap-IsStaged : Leads Never Staged (remap s job worker file targets a r)
    unfolding delete_record
    remap-IsStaged =
        remap-Leads s job worker Staged file targets a r (λ q. deletes q ≡ false)
          (λ q. deletes q ≡ false) (λ q. (deletes q ≡ false) × (in_staging q ≡ true))
          (λ q. in_staging q ≡ true) (λ q. in_staging q ≡ true)
          (guarded s job worker Staged unstaged r fresh) (λ q. unstaged q raised)
          (λ eps q e.
            checked s job worker Staged unstaged file targets a (target_episodes targets eps) q)
          (λ q. unstaged q raised)
          (λ eps n q e en k. (
            staged s job worker Staged unstaged file targets a n q real k,
            (
              (λ q' k'.
                  attempted s job worker (λ q. in_staging q ≡ true) Staged (λ q step fine k. k)
                    (λ q m k. k) (λ q rows e k d. k) delete_episode_file _ a.delete q' k'.1),
              imported s job worker (λ q. in_staging q ≡ true) Staged (λ q step fine k. k)
                  (λ q m k. k) (λ q rows e k d. k) file targets a n _,
            ),
          ))
          (λ q k. ((λ rows d. k), ((λ d. k), (λ d. k))))

    -- A call of `remap` that is no dry run, and starts with no request to delete sent, sends one only
    -- when the file has a copy in staging.
    pub remap-keeps_copy :
        Leads Never
          (λ q e. (deletes q ≡ false) ⊎ (in_staging q ≡ true))
          (remap s job worker file targets a r)
    remap-keeps_copy =
        Leads-weaken Never Staged _ (remap s job worker file targets a r) remap-IsStaged
          (λ q e t. test_or (deletes q) t)

    remap-IsSealed : Leads Never (Sealed a.delete) (remap s job worker file targets a r)
    unfolding delete_record
    remap-IsSealed =
        remap-Leads s job worker (Sealed a.delete) file targets a r (λ q. deletes q ≡ false)
          (λ q. deletes q ≡ false) (λ q. (deletes q ≡ false) × (in_staging q ≡ true))
          (λ q. was_interrupted q.log ≡ true) (λ q. was_interrupted q.log ≡ true)
          (guarded s job worker (Sealed a.delete) (unsent a.delete) r fresh)
          (λ q. unsent a.delete q raised)
          (λ eps q e.
            checked s job worker (Sealed a.delete) (unsent a.delete) file targets a
              (target_episodes targets eps) q)
          (λ q. unsent a.delete q raised)
          (λ eps n q e en k. (
            staged s job worker (Sealed a.delete) (unsent a.delete) file targets a n q real k,
            (
              (λ q' k'. sealing a.delete file.episode_file_id q' k'.0),
              imported s job worker (λ q. was_interrupted q.log ≡ true) (Sealed a.delete)
                  (λ q step fine k. rw (interrupted-append q.log _, k) (ground arith)) (λ q m k. k)
                  (λ q rows e k t d. k) file targets a n _,
            ),
          ))
          (λ q k. ((λ rows t d. k), ((λ t d. k), (λ t d. k))))

-- Every call that reads this log, as it is or with more entries, leaves the requests and the copies
-- as it finds them. Settings, job, file, rows, requests and answers may be others.
abbrev pub IsSettled : Run → Type 0
IsSettled q =
    (w : Run) (more : List Entry) (s : Settings) (job : Row) (worker : String) (file : MediaFile)
    → w.log ≡ q.log ++ more
    → ((a : ReplaceAnswers)
        → Leads Never (λ w' e. IsUntouched w w') (replace s job worker file a w))
      × ((targets : IdSet) (a : RemapAnswers)
          → Leads Never (λ w' e. IsUntouched w w') (remap s job worker file targets a w))

interrupted-IsSettled : (q : Run) → was_interrupted q.log ≡ true → IsSettled q
interrupted-IsSettled q i w more s job worker file e =
    let i' : was_interrupted w.log ≡ true =
      subst (λ log. was_interrupted log ≡ true) (sym e) (interrupted-more q.log more i) in
    (
      (λ a.
          Leads-weaken Never (λ w' e. IsUntouched w w' × (is_remediated e ≡ false)) _
            (replace s job worker file a w) (replace-interrupted s job worker w file a i')
            (λ w' e u. u.0)),
      (λ targets a.
          Leads-weaken Never (λ w' e. IsUntouched w w' × (is_remediated e ≡ false)) _
            (remap s job worker file targets a w)
            (remap-interrupted s job worker w file targets a i') (λ w' e u. u.0)),
    )

-- After a call of `replace` that is no dry run, starts with no request to delete sent, and is
-- answered with success to one if it sends it, either none was sent, or no call of `replace` or
-- `remap` that reads the same verdict's log, as left or with entries added, sends a request, makes a
-- copy or adds a trash row, whatever its settings, job, file, rows and answers. A later verdict of the
-- file has a log of its own, and is not meant.
pub replace-once :
    (s : Settings) (job : Row) (worker : String) (file : MediaFile) (a : ReplaceAnswers) (r : Run)
    → s.dry_run ≡ false
    → deletes r ≡ false
    → a.delete ≡ success
    → Leads Never (λ q e. (deletes q ≡ false) ⊎ IsSettled q) (replace s job worker file a r)
replace-once s job worker file a r real fresh t =
    Leads-weaken Never (λ q e. a.delete ≡ success → deletes q ≡ true → was_interrupted q.log ≡ true)
      _ (replace s job worker file a r) (replace-IsSealed s job worker r real file a fresh)
      (λ q e h. test_or (deletes q) (λ d. interrupted-IsSettled q (h t d)))

-- After a call of `remap` that is no dry run, starts with no request to delete sent, and is
-- answered with success to one if it sends it, either none was sent, or no call of `replace` or
-- `remap` that reads the same verdict's log, as left or with entries added, sends a request, makes a
-- copy or adds a trash row, whatever its settings, job, file, rows and answers. A later verdict of the
-- file has a log of its own, and is not meant.
pub remap-once :
    (s : Settings) (job : Row) (worker : String) (file : MediaFile) (targets : IdSet)
    (a : RemapAnswers) (r : Run)
    → s.dry_run ≡ false
    → deletes r ≡ false
    → a.delete ≡ success
    → Leads Never (λ q e. (deletes q ≡ false) ⊎ IsSettled q) (remap s job worker file targets a r)
remap-once s job worker file targets a r real fresh t =
    Leads-weaken Never (λ q e. a.delete ≡ success → deletes q ≡ true → was_interrupted q.log ≡ true)
      _ (remap s job worker file targets a r)
      (remap-IsSealed s job worker r real file targets a fresh)
      (λ q e h. test_or (deletes q) (λ d. interrupted-IsSettled q (h t d)))

-- ===== src/Remediate/Completed.antt =====
-- `replace` of src/impostarr/remediate.py: when a call ends as remediated, and what it has then done.
use impostarr.Prelude.{
  ℕ, String, true, false, not, ◌&&◌, ◌≡◌, refl, ◌∙◌, ap, sym, ◌↔◌, inl, inr, ◌⊎◌, Option, none,
  some, List, [], ◌∷◌, ◌++◌, arith,
}
use impostarr.Jobs.{Result, ok, invalid_transition, lease_lost, release}
use impostarr.Jobs.Rows.{remediated, Row}
use impostarr.Remediate.{
  delete_file, search_episodes, was_interrupted, success, StepName, Request, Run, MediaFile,
  Settings, Answer, Flow, go, halt, Ending, attempt, place, trash, finish, settled,
}
use impostarr.Remediate.Leads.{
  Leads, Never, is_remediated, if-Leads, fail-Leads, attempt-Leads, guard-Leads,
}
use impostarr.Remediate.Stages.{replace-finish-Leads}
use impostarr.Remediate.Replace.{
  ReplaceAnswers, blocklist, keep_copy, delete, search_again, replace,
}
use impostarr.Remediate.Carried.{deletes, in_trash}
use impostarr.Remediate.Finished.{
  marks, marked, kept_copy, replacement, replace-remediated, replace-succeeds, true-false,
}
use impostarr.Remediate.Order.{replace-keeps_copy}

module _ (s : Settings) (job : Row) (worker : String) (file : MediaFile) (a : ReplaceAnswers)
    (r : Run) where
  -- The run is not an interrupted one, each request is answered with success, a copy is made if one
  -- is wanted, and the queue accepts the release.
  abbrev pub Succeeds : Type 0
  Succeeds =
      (was_interrupted r.log ≡ false)
      × (marked file.history_id a.mark ≡ true)
      × (kept_copy s a ≡ true)
      × (a.delete ≡ success)
      × (a.search ≡ success)
      × ((p : List Row × Row) × (release r.rows job remediated worker ≡ ok p))

  abbrev Ends : Run → Ending → Type 0
  Ends q e = is_remediated e ≡ true → Succeeds

  -- What holds after each stage.
  abbrev Guarded : Run → Type 0
  Guarded q = (q.rows ≡ r.rows) × (was_interrupted r.log ≡ false)

  abbrev Marked : Run → Type 0
  Marked q = Guarded q × (marked file.history_id a.mark ≡ true)

  abbrev Copied : Run → Type 0
  Copied q = Marked q × (kept_copy s a ≡ true)

  abbrev Deleted : Run → Type 0
  Deleted q = Copied q × (a.delete ≡ success)

  abbrev Searched : Run → Type 0
  Searched q = Deleted q × (a.search ≡ success)

  module _ (real : s.dry_run ≡ false) where
    -- A stage that sends a request goes on only with success, and leaves the rows.
    sends :
        (P : Run → Type 0) (step : StepName) (m : Request) (answer : Answer) (q : Run)
        → ((q' : Run) → q'.rows ≡ q.rows → answer ≡ success → P q')
        → Leads P Ends (attempt s job worker step m answer q)
    sends P step m answer q k =
        attempt-Leads P Ends s job worker step m answer q (λ d. ground arith) (λ _ e. k _ refl e)
          (λ _ _ rows e n d. ground arith) (λ _ _ d. ground arith)

    marks_it :
        (h : Option ℕ) (q : Run)
        → Guarded q
        → Leads
            (λ q'. Guarded q' × (marked h a.mark ≡ true))
            Ends
            (blocklist s job worker file a h q)
    unfolding blocklist
    marks_it none q g = (g, refl)
    marks_it (some h) q g = sends _ _ _ a.mark q (λ q' k e. ((k ∙ g.0, g.1), rw e refl))

    copies_it : (q : Run) → Marked q → Leads Copied Ends (keep_copy s job worker file a q)
    unfolding keep_copy
    copies_it q g =
        if-Leads Copied Ends (not s.trash_enabled) _ _ (λ off. (g, ground (arith, off)))
          (λ _.
            if-Leads Copied Ends s.dry_run _ _ (λ d. absurd (ground (arith, d)))
              (λ _.
                if-Leads Copied Ends (a.mkdir && place a.link) _ _
                  (λ made. (g, ground (arith, made)))
                  (λ _. fail-Leads Copied Ends s job worker trash q (λ rows e n d. ground arith))))

    settles :
        (q : Run) (res : Result (List Row × Row))
        → release r.rows job remediated worker ≡ res
        → Searched q
        → Leads Never Ends (settled q remediated res)
    unfolding settled
    settles q (ok p) e g = λ d. (g.0.0.0.0.1, g.0.0.0.1, g.0.0.1, g.0.1, g.1, (p, e))
    settles q invalid_transition e g = λ d. ground arith
    settles q lease_lost e g = λ d. ground arith

    replace-Ends : Leads Never Ends (replace s job worker file a r)
    unfolding delete search_again finish
    replace-Ends =
        replace-finish-Leads s job worker Ends file a r Guarded Marked Copied Deleted Searched
          (guard-Leads Guarded Ends s job worker r (λ n. (refl, n)) (λ _ rows e n d. ground arith))
          (marks_it file.history_id) copies_it
          (λ q g.
            sends Deleted _ _ a.delete q (λ q' k e. ((((k ∙ g.0.0.0, g.0.0.1), g.0.1), g.1), e)))
          (λ q g.
            sends Searched _ _ a.search q
              (λ q' k e. (((((k ∙ g.0.0.0.0, g.0.0.0.1), g.0.0.1), g.0.1), g.1), e)))
          (λ q g. settles q _ (ap (λ rows. release rows job remediated worker) (sym g.0.0.0.0.0)) g)

    -- What a call that ends as remediated has done.
    abbrev pub IsReplaced : Run → Type 0
    IsReplaced q =
        (q.requests ≡ replacement file) × (s.trash_enabled ≡ true → in_trash file q ≡ true)

    deletes_one :
        (q : Run) (h : Option ℕ)
        → q.requests
          ≡ marks h ++ delete_file file.episode_file_id ∷ search_episodes file.episode_ids ∷ []
        → deletes q ≡ true
    deletes_one q none e = rw e refl
    deletes_one q (some id) e = rw e refl

    both :
        (x : Flow)
        → Leads Never Ends x
        → (Succeeds → Leads Never (λ q e. is_remediated e ≡ true) x)
        → Leads Never (λ q e. (is_remediated e ≡ false) ⊎ (q.requests ≡ replacement file)) x
        → (s.trash_enabled ≡ true
            → Leads Never (λ q e. (deletes q ≡ false) ⊎ (in_trash file q ≡ true)) x)
        → Leads Never
            (λ q e. ((is_remediated e ≡ true) ↔ Succeeds) × (is_remediated e ≡ true → IsReplaced q))
            x
    both (go q) ends succeeds asked trashed = ends
    both (halt q e) ends succeeds asked trashed = (
      (ends, succeeds),
      λ done.
          let sent : q.requests ≡ replacement file = elim asked [
            | inl other ↦ absurd (true-false done other)
            | inr there ↦ there
          ] in
          (
            sent,
            λ on. elim (trashed on) [
              | inl kept ↦ absurd (true-false (deletes_one q file.history_id sent) kept)
              | inr there ↦ there
            ],
          ),
    )

    -- A call of `replace` that is no dry run, and starts with no request sent, ends as remediated
    -- exactly when its log does not count as interrupted, each of its requests is answered with
    -- success, its copy is made if one is wanted, and the queue accepts the release. Then it has sent
    -- these requests, in this order: to blocklist the release, if its history is known, to delete the
    -- file, and to search its episodes again; and with trash enabled, the file has its copy in the
    -- trash and its trash row.
    pub replace-remediated_iff :
        r.requests ≡ []
        → Leads Never
            (λ q e. ((is_remediated e ≡ true) ↔ Succeeds) × (is_remediated e ≡ true → IsReplaced q))
            (replace s job worker file a r)
    replace-remediated_iff fresh =
        both (replace s job worker file a r) replace-Ends
          (λ c. replace-succeeds s job worker file a r c.5.0 c.0 c.1 c.2 c.3 c.4 c.5.1)
          (replace-remediated s job worker r real fresh file a)
          (λ on. replace-keeps_copy s job worker r real file a on (rw fresh refl))

-- ===== src/Remediate/Finished.antt =====
-- src/impostarr/remediate.py: what has been done when a call ends as remediated.
use impostarr.Jobs.{release, ok}
use impostarr.Jobs.Rows.{remediated, Row}
use impostarr.Remediate.{
  was_interrupted, success, StepName, trash, Request, delete_file, mark_failed, search_episodes,
  Run, MediaFile, Settings, Answer, sonarr_error, other_error, Ending, attempt, place,
}
use impostarr.Remediate.Leads.{
  finish-accepted-Leads, Leads, Never, is_remediated, if-Leads, fail-Leads, attempt-Leads,
  guard-Leads, Leads-weaken, test_or,
}
use impostarr.Remediate.Stages.{replace-finish-Leads, replace-Leads}
use impostarr.Prelude.{
  ℕ, String, Bool, true, false, not, ◌&&◌, ◌||◌, ◌≡◌, refl, ◌∙◌, ap, ◌⊎◌, Option, none, some, List,
  [], ◌∷◌, ◌++◌, arith,
}
use impostarr.Remediate.Replace.{
  ReplaceAnswers, blocklist, keep_copy, delete, search_again, replace,
}

-- The request to blocklist a release that is known.
abbrev pub marks : Option ℕ → List Request
marks none = []
marks (some history_id) = mark_failed history_id ∷ []

-- The request to blocklist is answered with success, if there is one.
abbrev pub marked : Option ℕ → Answer → Bool
marked (some history_id) sonarr_error = false
marked (some history_id) other_error = false
marked _ _ = true

-- A copy is made, if one is wanted.
abbrev pub kept_copy : Settings → ReplaceAnswers → Bool
kept_copy s a = not s.trash_enabled || (a.mkdir && place a.link)

-- What `replace` asks of Sonarr, in order.
abbrev pub replacement : MediaFile → List Request
replacement file =
    marks file.history_id
    ++ delete_file file.episode_file_id ∷ search_episodes file.episode_ids ∷ []

pub true-false : {b : Bool} → b ≡ true → b ≡ false → ⊥
true-false h k = cc

marks_twice : (h : Option ℕ) (a b : Request) → (marks h ++ a ∷ []) ++ b ∷ [] ≡ marks h ++ a ∷ b ∷ []
marks_twice none a b = refl
marks_twice (some h) a b = refl

module _ (s : Settings) (job : Row) (worker : String) (r : Run) (real : s.dry_run ≡ false)
    (fresh : r.requests ≡ []) where
  -- A stage that sends one request more.
  sends :
      (P : Run → Type 0) (before : List Request) (step : StepName) (m : Request) (answer : Answer)
      (q : Run)
      → q.requests ≡ before
      → Leads
          (λ q'. q'.requests ≡ before ++ m ∷ [])
          (λ q' e. is_remediated e ≡ true → P q')
          (attempt s job worker step m answer q)
  sends P before step m answer q k =
      attempt-Leads _ _ s job worker step m answer q (λ d. ground arith)
        (λ _ _. ap (λ l. l ++ m ∷ []) k) (λ _ _ rows e n d. ground arith) (λ _ _ d. ground arith)

  module _ (file : MediaFile) (a : ReplaceAnswers) where
    abbrev Asked : Run → Type 0
    Asked q = q.requests ≡ replacement file

    abbrev Done : Run → Ending → Type 0
    Done q e = is_remediated e ≡ true → Asked q

    blocklists :
        (h : Option ℕ) (q : Run)
        → q.requests ≡ []
        → Leads (λ q'. q'.requests ≡ marks h) Done (blocklist s job worker file a h q)
    unfolding blocklist
    blocklists none q k = k
    blocklists (some h) q k = sends Asked [] _ _ a.mark q k

    keeps :
        (q : Run)
        → q.requests ≡ marks file.history_id
        → Leads (λ q'. q'.requests ≡ marks file.history_id) Done (keep_copy s job worker file a q)
    unfolding keep_copy
    keeps q k =
        if-Leads _ Done (not s.trash_enabled) _ _ (λ _. k)
          (λ _.
            if-Leads _ Done s.dry_run _ _ (λ _. k)
              (λ _.
                if-Leads _ Done (a.mkdir && place a.link) _ _ (λ _. k)
                  (λ _. fail-Leads _ Done s job worker trash q (λ rows e n d. ground arith))))

    replace-IsDone : Leads Never Done (replace s job worker file a r)
    unfolding delete search_again
    replace-IsDone =
        replace-Leads s job worker Done file a r (λ q. q.requests ≡ [])
          (λ q. q.requests ≡ marks file.history_id) (λ q. q.requests ≡ marks file.history_id)
          (λ q. q.requests ≡ marks file.history_id ++ delete_file file.episode_file_id ∷ [])
          (λ q.
            q.requests
            ≡ (marks file.history_id ++ delete_file file.episode_file_id ∷ [])
              ++ search_episodes file.episode_ids ∷ [])
          (guard-Leads _ Done s job worker r (λ _. fresh) (λ _ rows e n d. ground arith))
          (blocklists file.history_id) keeps (sends Asked _ _ _ a.delete)
          (sends Asked _ _ _ a.search)
          (λ q k. (
            (λ rows d. k ∙ marks_twice file.history_id _ _),
            ((λ d. ground arith), (λ d. ground arith)),
          ))

    -- A call of `replace` that is no dry run, and starts with no request sent, ends as remediated
    -- only when it has sent these requests, in this order: to blocklist the release, if its history
    -- is known, to delete the file, and to search its episodes again.
    pub replace-remediated :
        Leads Never
          (λ q e. (is_remediated e ≡ false) ⊎ (q.requests ≡ replacement file))
          (replace s job worker file a r)
    replace-remediated =
        Leads-weaken Never Done _ (replace s job worker file a r) replace-IsDone
          (λ q e d. test_or (is_remediated e) d)

module _ (s : Settings) (job : Row) (worker : String) (file : MediaFile) (a : ReplaceAnswers)
    (r : Run) where
  abbrev Succeeds : Run → Ending → Type 0
  Succeeds q e = is_remediated e ≡ true

  keeps_rows :
      (step : StepName) (m : Request) (answer : Answer) (q : Run)
      → answer ≡ success
      → q.rows ≡ r.rows
      → Leads (λ q'. q'.rows ≡ r.rows) Succeeds (attempt s job worker step m answer q)
  keeps_rows step m answer q t k =
      attempt-Leads _ Succeeds s job worker step m answer q (λ _. k) (λ _ _. k)
        (λ _ f rows e n. ground arith) (λ _ f. ground arith)

  blocklists_rows :
      (h : Option ℕ) (q : Run)
      → marked h a.mark ≡ true
      → q.rows ≡ r.rows
      → Leads (λ q'. q'.rows ≡ r.rows) Succeeds (blocklist s job worker file a h q)
  unfolding blocklist
  blocklists_rows none q t k = k
  blocklists_rows (some h) q t k = keeps_rows _ _ a.mark q (ground arith) k

  copies_rows :
      (q : Run)
      → kept_copy s a ≡ true
      → q.rows ≡ r.rows
      → Leads (λ q'. q'.rows ≡ r.rows) Succeeds (keep_copy s job worker file a q)
  unfolding keep_copy
  copies_rows q c k =
      if-Leads _ Succeeds (not s.trash_enabled) _ _ (λ _. k)
        (λ on.
          if-Leads _ Succeeds s.dry_run _ _ (λ _. k)
            (λ _.
              if-Leads _ Succeeds (a.mkdir && place a.link) _ _ (λ _. k)
                (λ n.
                  let no : kept_copy s a ≡ false = rw (on, n) refl in absurd (true-false c no))))

  -- A call of `replace` on a log that does not count as interrupted, whose requests all succeed, whose
  -- copy can be made if one is wanted, and on whose rows the queue accepts the release, ends as remediated.
  pub replace-succeeds :
      (p : List Row × Row)
      → was_interrupted r.log ≡ false
      → marked file.history_id a.mark ≡ true
      → kept_copy s a ≡ true
      → a.delete ≡ success
      → a.search ≡ success
      → release r.rows job remediated worker ≡ ok p
      → Leads Never (λ q e. is_remediated e ≡ true) (replace s job worker file a r)
  unfolding delete search_again
  replace-succeeds p w m c d f accepted =
      replace-finish-Leads s job worker Succeeds file a r (λ q. q.rows ≡ r.rows)
        (λ q. q.rows ≡ r.rows) (λ q. q.rows ≡ r.rows) (λ q. q.rows ≡ r.rows) (λ q. q.rows ≡ r.rows)
        (guard-Leads _ Succeeds s job worker r (λ _. refl) (λ i. ground arith))
        (λ q. blocklists_rows file.history_id q m) (λ q. copies_rows q c)
        (λ q. keeps_rows _ _ a.delete q d) (λ q. keeps_rows _ _ a.search q f)
        (λ q k.
          finish-accepted-Leads Never Succeeds job worker remediated q p
            (ap (λ rows. release rows job remediated worker) k ∙ accepted) refl)

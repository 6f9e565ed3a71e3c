-- ===== src/Remediate/Replace.antt =====
-- `Remediator.replace` of src/impostarr/remediate.py: blocklist, trash, delete and search again.
use impostarr.Prelude.{
  ℕ, String, Bool, true, false, not, ◌&&◌, Option, none, some, [], ◌∷◌, ◌++◌, if◌then◌else◌,
}
use impostarr.Jobs.Rows.{Row, remediated}
use impostarr.Remediate.{
  trash, mark_history_failed, delete_episode_file, episode_search, Run, MediaFile, Settings, Answer,
  LinkAnswer, Flow, go, ◌>>=◌, log_step, finish, fail, attempt, place, guard, mark_failed,
  delete_file, search_episodes, TrashEntry, to_trash,
}

-- The answers that a call of `replace` meets; `mkdir` is whether the trash directory can be made.
pub record ReplaceAnswers : Type 0 where
  pub mark : Answer
  pub mkdir : Bool
  pub link : LinkAnswer
  pub delete : Answer
  pub search : Answer

module _ (s : Settings) (job : Row) (worker : String) (file : MediaFile) (a : ReplaceAnswers) where
  -- Step 1: blocklist the release, or note that it cannot be.
  unfoldable pub blocklist : Option ℕ → Run → Flow
  unfolding attempt
  blocklist none r = go (log_step s mark_history_failed true true r)
  blocklist (some history_id) r =
      attempt s job worker mark_history_failed (mark_failed history_id) a.mark r

  abbrev trash_entry : TrashEntry
  trash_entry = record {
    file_id = file.id;
    job_id = job.id;
    series_id = file.series_id;
    episode_ids = file.episode_ids;
    expires_at = s.expires_at;
  }

  -- Step 2, if trash is enabled: keep a copy, before anything is deleted.
  unfoldable pub keep_copy : Run → Flow
  keep_copy r =
      if not s.trash_enabled
      then go r
      else if s.dry_run
      then go (log_step s trash true false r)
      else if a.mkdir && place a.link
      then go (
          log_step s trash true false (record r {
            copies = r.copies ++ to_trash ∷ [];
            trash_items = r.trash_items ++ trash_entry ∷ [];
          }))
      else fail s job worker trash r

  -- Step 3.
  unfoldable pub delete : Run → Flow
  unfolding attempt
  delete = attempt s job worker delete_episode_file (delete_file file.episode_file_id) a.delete

  -- Step 4.
  unfoldable pub search_again : Run → Flow
  unfolding attempt
  search_again = attempt s job worker episode_search (search_episodes file.episode_ids) a.search

  unfoldable pub replace : Run → Flow
  unfolding guard blocklist keep_copy delete search_again finish
  replace r = do
    unguarded ← guard s job worker r
    blocklisted ← blocklist file.history_id unguarded
    kept ← keep_copy blocklisted
    deleted ← delete kept
    searched ← search_again deleted
    finish job worker remediated searched

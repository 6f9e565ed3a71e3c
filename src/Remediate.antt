-- ===== src/Remediate.antt =====
-- src/impostarr/remediate.py: what `replace` and `remap` share. A run works on the job table, the
-- latest verdict's log and proposal, and the trash table, and it records each request that is sent
-- to change Sonarr and each file that is linked or copied. What Sonarr and the file system answer
-- is given beforehand. A log entry keeps the facts that the interruption guard reads from its text:
-- whether it begins with "DRY-RUN: ", and whether it is the note on a missing download history.
pub mod Replace
pub mod Remap
pub mod Leads
mod Tests
pub mod Imported
pub mod Finished
pub mod Completed
mod Targets
mod Carried
pub mod Order
mod Checks
mod Stages
pub mod Quiet
pub mod Lease
use impostarr.Prelude.{
  ℕ, String, Bool, true, false, not, ◌&&◌, Option, none, some, List, [], ◌∷◌, ◌++◌, if◌then◌else◌,
  any,
}
use impostarr.Jobs.Rows.{Status, Row, quarantine, remediated}
use impostarr.Jobs.{Result, ok, invalid_transition, lease_lost, release}

pub data StepName : Type 0 where
  trash hardlink mark_history_failed delete_episode_file manual_import_candidates
        execute_manual_import manual_import episode_search interruption_guard episode_resolution
        occupied_check :
      StepName

-- `MUTATING_STEPS`
abbrev pub mutating_step : StepName → Bool
mutating_step interruption_guard = false
mutating_step episode_resolution = false
mutating_step occupied_check = false
mutating_step _ = true

-- An entry of `remediation_log`.
pub record Entry : Type 0 where
  pub step : StepName
  pub ok : Bool
  pub dry_run : Bool
  pub no_history_note : Bool

abbrev pub is_mark : StepName → Bool
is_mark mark_history_failed = true
is_mark _ = false

-- `_is_mutating_entry`
abbrev pub is_mutating_entry : Entry → Bool
is_mutating_entry e =
    e.ok && not e.dry_run && not (is_mark e.step && e.no_history_note) && mutating_step e.step

-- `_was_interrupted`
abbrev pub was_interrupted : List Entry → Bool
was_interrupted = any is_mutating_entry

-- A request that would change Sonarr.
pub data Request : Type 0 where
  mark_failed : ℕ → Request
  delete_file : ℕ → Request
  search_episodes : List ℕ → Request
  import_file : List (List ℕ) → ℕ → List ℕ → Request

-- A file that is linked or copied: into the trash, or into staging under a name.
pub data FileCopy : Type 0 where
  to_trash : FileCopy
  to_staging : List ℕ → FileCopy

-- The columns of `TrashItem` that `replace` fills in from the file and the job.
pub record TrashEntry : Type 0 where
  pub file_id : ℕ
  pub job_id : ℕ
  pub series_id : ℕ
  pub episode_ids : List ℕ
  pub expires_at : ℕ

pub record Run : Type 0 where
  pub rows : List Row
  pub log : List Entry
  pub proposed : Option (List ℕ)
  pub trash_items : List TrashEntry
  pub requests : List Request
  pub copies : List FileCopy

-- The columns of `File` that a remediation reads.
pub record MediaFile : Type 0 where
  pub id : ℕ
  pub series_id : ℕ
  pub episode_ids : List ℕ
  pub episode_file_id : ℕ
  pub history_id : Option ℕ
  pub suffix : List ℕ

-- The answer to a request: a `SonarrError` is caught, any other exception is not.
pub data Answer : Type 0 where
  success sonarr_error other_error : Answer

-- What `os.link` does, and `shutil.copy2` after an EXDEV.
pub data LinkAnswer : Type 0 where
  linked link_error : LinkAnswer
  cross_device : Bool → LinkAnswer

-- The remediator and the client of an instance: both take `dry_run` from the settings, and the
-- client drops every request that would change something.
pub record Settings : Type 0 where
  pub dry_run : Bool
  pub trash_enabled : Bool
  pub expires_at : ℕ

-- How a call of `replace` or `remap` ends.
pub data Ending : Type 0 where
  released : Status → Ending
  lost : Ending
  refused : Ending
  raised : Ending

-- A stage goes on with the run, or has ended the call.
pub data Flow : Type 0 where
  go : Run → Flow
  halt : Run → Ending → Flow

infixl 5 ◌>>=◌
abbrev pub ◌>>=◌ : Flow → (Run → Flow) → Flow
go r >>= f = f r
halt r e >>= f = halt r e

-- `self._log`: the entry is marked in a dry run.
abbrev pub log_step : Settings → StepName → Bool → Bool → Run → Run
log_step s step fine note r = record r {
  log =
      r.log ++ record { step = step; ok = fine; dry_run = s.dry_run; no_history_note = note } ∷ [];
}

unfoldable pub settled : Run → Status → Result (List Row × Row) → Flow
settled r new (ok (rows, _)) = halt (record r { rows = rows }) (released new)
settled r new invalid_transition = halt r refused
settled r new lease_lost = halt r lost

-- `jobs.release` at the end of the call, on the job as the session has read it.
unfoldable pub finish : Row → String → Status → Run → Flow
unfolding settled
finish job worker new r = settled r new (release r.rows job new worker)

-- Log a failure and give the job to an operator.
abbrev pub fail : Settings → Row → String → StepName → Run → Flow
fail s job worker step r = finish job worker quarantine (log_step s step false false r)

-- A request with its log entry, in its try block.
unfoldable pub attempt : Settings → Row → String → StepName → Request → Answer → Run → Flow
attempt s job worker step request answer r =
    let sent = record r { requests = r.requests ++ request ∷ [] } in
    if s.dry_run then go (log_step s step true false r) else elim answer [
      | success ↦ go (log_step s step true false sent)
      | sonarr_error ↦ fail s job worker step sent
      | other_error ↦ halt sent raised
    ]

-- `os.link`, or `shutil.copy2` across devices: whether the copy is there, with `none` for an error.
abbrev pub place : LinkAnswer → Bool
place linked = true
place link_error = false
place (cross_device copied) = copied

-- The interruption guard.
unfoldable pub guard : Settings → Row → String → Run → Flow
guard s job worker r =
    if was_interrupted r.log
    then finish job worker quarantine (log_step s interruption_guard false false r)
    else go r

-- ===== src/Remediate/Tests.antt =====
-- Runs of `replace` and `remap` on a small job, and the properties at them.
use impostarr.Jobs.{release}
use impostarr.Jobs.Rows.{Row, active}
use impostarr.Remediate.Completed.{Succeeds, IsReplaced, replace-remediated_iff}
use impostarr.Prelude.{◌≡◌, refl, ◌⊎◌, ◌↔◌, Bool, true, false, none, some, List, [], ◌∷◌}
use impostarr.Remediate.{
  Entry, Run, MediaFile, Settings, success, linked, cross_device, Flow, go, halt,
  delete_episode_file, mark_failed, delete_file, search_episodes, Request, finish,
}
use impostarr.Remediate.Replace.{ReplaceAnswers, replace}
use impostarr.Text.{same_codes, pad2, join_with}
use impostarr.Remediate.Remap.{
  sort_episodes, insert, staged_name, RemapAnswers, fetched, TargetEpisode, remap,
}
use impostarr.Remediate.Leads.{Leads, Never, is_remediated}
use impostarr.Remediate.Quiet.{IsUntouched, replace-interrupted, remap-interrupted}
use impostarr.Remediate.Order.{replace-keeps_copy, IsSettled, replace-once}
use impostarr.Remediate.Carried.{deletes, in_trash}

abbrev job : Row
job = record {
  id = 7;
  file_id = 3;
  status = active;
  attempts = 0;
  claimed_by = some "w";
  claimed_at = some 5;
  heartbeat_at = some 5;
  created_at = 1;
}

abbrev file : MediaFile
file = record {
  id = 3;
  series_id = 11;
  episode_ids = 21 ∷ [];
  episode_file_id = 31;
  history_id = some 41;
  suffix = 46 ∷ 109 ∷ [];
}

abbrev real : Settings
real = record { dry_run = false; trash_enabled = true; expires_at = 99 }

abbrev dry : Settings
dry = record { dry_run = true; trash_enabled = true; expires_at = 99 }

abbrev start : Run
start = record {
  rows = job ∷ [];
  log = [];
  proposed = none;
  trash_items = [];
  requests = [];
  copies = [];
}

abbrev deleted : Entry
deleted = record { step = delete_episode_file; ok = true; dry_run = false; no_history_note = false }

abbrev resumed : Run
resumed = record start { log = deleted ∷ [] }

abbrev replies : ReplaceAnswers
replies = record {
  mark = success;
  mkdir = true;
  link = cross_device true;
  delete = success;
  search = success;
}

abbrev slot : TargetEpisode
slot = record { id = 22; season_number = 1; episode_number = 4; has_file = false }

-- The staged file is found under its name, S01E04.m.
abbrev remap_replies : RemapAnswers
remap_replies = record {
  episodes = fetched (slot ∷ []);
  mkdir = true;
  link = linked;
  delete = success;
  candidates = fetched (((115 ∷ []) ∷ (83 ∷ 48 ∷ 49 ∷ 69 ∷ 48 ∷ 52 ∷ 46 ∷ 109 ∷ []) ∷ []) ∷ []);
  import = success;
}

-- How a call has ended.
abbrev ended : Flow → Bool
ended (go r) = false
ended (halt r e) = is_remediated e

abbrev sent : Flow → List Request
sent (go r) = r.requests
sent (halt r e) = r.requests

replace_run :
    sent (replace real job "w" file replies start)
    ≡ mark_failed 41 ∷ delete_file 31 ∷ search_episodes (21 ∷ []) ∷ []
unfolding replace release
replace_run = refl

remap_run : ended (remap real job "w" file (22 ∷ []) remap_replies start) ≡ true
unfolding remap sort_episodes insert staged_name same_codes pad2 join_with finish release
remap_run = refl

replace-interrupted_example :
    Leads Never
      (λ q e. IsUntouched resumed q × (is_remediated e ≡ false))
      (replace real job "w" file replies resumed)
replace-interrupted_example = replace-interrupted real job "w" resumed file replies refl

remap-interrupted_example :
    Leads Never
      (λ q e. IsUntouched resumed q × (is_remediated e ≡ false))
      (remap real job "w" file (22 ∷ []) remap_replies resumed)
remap-interrupted_example = remap-interrupted real job "w" resumed file (22 ∷ []) remap_replies refl

replace-keeps_copy_example :
    Leads Never
      (λ q e. (deletes q ≡ false) ⊎ (in_trash file q ≡ true))
      (replace real job "w" file replies start)
replace-keeps_copy_example = replace-keeps_copy real job "w" start refl file replies refl refl

replace-once_example :
    Leads Never (λ q e. (deletes q ≡ false) ⊎ IsSettled q) (replace real job "w" file replies start)
replace-once_example = replace-once real job "w" file replies start refl refl refl

replace-remediated_iff_example :
    Leads Never
      (λ q e.
        ((is_remediated e ≡ true) ↔ Succeeds real job "w" file replies start)
        × (is_remediated e ≡ true → IsReplaced real job "w" file replies start refl q))
      (replace real job "w" file replies start)
replace-remediated_iff_example = replace-remediated_iff real job "w" file replies start refl refl

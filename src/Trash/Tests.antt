-- ===== src/Trash/Tests.antt =====
-- A trash of two items, the first of which has expired.
use impostarr.Prelude.{ℕ, ◌≡◌, refl, Bool, true, none, List, [], ◌∷◌}
use impostarr.Remediate.{linked}
use impostarr.Trash.{
  TrashItem, Disk, lookup, remove, leave, restored, done, restore, sweep_expired, Call, sweep,
  delete_early, put_back, calls,
}
use impostarr.Trash.Restore.{Keeps, restore-Keeps}
use impostarr.Trash.Leaving.{Settles, calls-Settles}

abbrev old : TrashItem
old = record {
  id = 1;
  original_path = 10;
  trash_path = 20;
  expires_at = 5;
  deleted_at = none;
  outcome = none;
}

abbrev young : TrashItem
young = record {
  id = 2;
  original_path = 11;
  trash_path = 21;
  expires_at = 90;
  deleted_at = none;
  outcome = none;
}

abbrev disk : Disk
disk = (20, 7) ∷ (21, 8) ∷ []

abbrev always : ℕ → Bool
always path = true

sweep_run : (sweep_expired always 50 (old ∷ young ∷ []) disk).1 ≡ (21, 8) ∷ []
unfolding sweep_expired remove
sweep_run = refl

restored_young : restore linked 50 young disk ≡ done (leave 50 restored young) ((11, 8) ∷ disk)
unfolding restore
restored_young = refl

restore-Keeps_example :
    (lookup 11 disk ≡ none)
    × ((lookup 11 ((11, 8) ∷ disk) ≡ lookup 21 disk)
        × Keeps 21 disk ((11, 8) ∷ disk)
        × (leave 50 restored young ≡ leave 50 restored young))
restore-Keeps_example =
    restore-Keeps linked 50 21 young (leave 50 restored young) disk ((11, 8) ∷ disk) restored_young

abbrev three_calls : List Call
three_calls = put_back linked 40 2 ∷ sweep 99 ∷ delete_early 99 2 ∷ []

calls-Settles_example :
    Settles (old ∷ young ∷ []) (calls always three_calls (old ∷ young ∷ [], disk)).0
calls-Settles_example = calls-Settles always three_calls (old ∷ young ∷ [], disk)

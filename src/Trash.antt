-- ===== src/Trash.antt =====
-- src/impostarr/trash.py, and the TrashItem table of src/impostarr/models.py. A path is a number, and
-- a disk gives the contents at a path. Whether a file can be unlinked is given beforehand.
pub mod Sweep
pub mod Restore
pub mod Leaving
mod Tests
use impostarr.Prelude.{
  ℕ, suc, Bool, true, false, not, ◌&&◌, Option, none, some, List, [], ◌∷◌, ◌++◌, ltb, ◌==◌,
  if◌then◌else◌, count, filter, map,
}
use impostarr.Remediate.{LinkAnswer, linked, link_error, cross_device}

-- `TRASH_OUTCOMES`
pub data Outcome : Type 0 where
  expired deleted restored : Outcome

pub record TrashItem : Type 0 where
  pub id : ℕ
  pub original_path : ℕ
  pub trash_path : ℕ
  pub expires_at : ℕ
  pub deleted_at : Option ℕ
  pub outcome : Option Outcome

-- The contents of the files, by path.
abbrev pub Disk : Type 0
Disk = List (ℕ × ℕ)

unfoldable pub lookup : ℕ → Disk → Option ℕ
lookup path [] = none
lookup path (f ∷ fs) = if f.0 == path then some f.1 else lookup path fs

unfoldable pub remove : ℕ → Disk → Disk
remove path [] = []
remove path (f ∷ fs) = if f.0 == path then remove path fs else f ∷ remove path fs

-- A file that is missing, or that cannot be unlinked, is only logged.
unfoldable pub unlink_tolerant : (ℕ → Bool) → ℕ → Disk → Disk
unfolding remove
unlink_tolerant allowed path disk = if allowed path then remove path disk else disk

-- `deleted_at` and `outcome`, which are set together.
abbrev pub leave : ℕ → Outcome → TrashItem → TrashItem
leave now outcome item = record item { deleted_at = some now; outcome = some outcome }

abbrev pub is_active : TrashItem → Bool
is_active item = elim item.deleted_at [ none ↦ true | some t ↦ false ]

-- `TrashItem.expires_at < now, TrashItem.deleted_at.is_(None)`
abbrev pub is_expired : ℕ → TrashItem → Bool
is_expired now item = ltb item.expires_at now && is_active item

-- The rows are marked, the files of those that expired unlinked, and their number returned.
unfoldable pub sweep_expired : (ℕ → Bool) → ℕ → List TrashItem → Disk → List TrashItem × Disk × ℕ
unfolding unlink_tolerant
sweep_expired allowed now [] disk = ([], disk, 0)
sweep_expired allowed now (item ∷ items) disk =
    let swept = sweep_expired allowed now items (unlink_tolerant allowed item.trash_path disk) in
    let passed = sweep_expired allowed now items disk in
    if is_expired now item
    then (leave now expired item ∷ swept.0, swept.1, suc swept.2)
    else (item ∷ passed.0, passed.1, passed.2)

unfoldable pub delete_now : (ℕ → Bool) → ℕ → TrashItem → Disk → TrashItem × Disk
unfolding unlink_tolerant
delete_now allowed now item disk =
    (leave now deleted item, unlink_tolerant allowed item.trash_path disk)

pub data Restored : Type 0 where
  done : TrashItem → Disk → Restored
  restore_conflict : Restored
  os_error : Restored

-- `os.link`, or `shutil.copy2` across devices: the contents at another path, or an OSError.
abbrev pub link_or_copy : LinkAnswer → Option ℕ → ℕ → Disk → Option Disk
link_or_copy answer none target disk = none
link_or_copy linked (some contents) target disk = some ((target, contents) ∷ disk)
link_or_copy link_error (some contents) target disk = none
link_or_copy (cross_device copied) (some contents) target disk =
    if copied then some ((target, contents) ∷ disk) else none

abbrev pub mark_restored : ℕ → TrashItem → Option Disk → Restored
mark_restored now item none = os_error
mark_restored now item (some disk) = done (leave now restored item) disk

-- Nothing is overwritten, and the copy in the trash stays where it is.
abbrev pub restore_unless : Option ℕ → LinkAnswer → ℕ → TrashItem → Disk → Restored
restore_unless (some there) answer now item disk = restore_conflict
restore_unless none answer now item disk =
    mark_restored now item
      (link_or_copy answer (lookup item.trash_path disk) item.original_path disk)

unfoldable pub restore : LinkAnswer → ℕ → TrashItem → Disk → Restored
unfolding lookup
restore answer now item disk = restore_unless (lookup item.original_path disk) answer now item disk

-- What a route answers: 404, 409, 500 for an error of the file system, or 200.
pub data Answered {ℓ} (A : Type ℓ) : Type ℓ where
  not_found : Answered A
  conflict : Answered A
  failed : Answered A
  answered : A → Answered A

unfoldable pub find_item : ℕ → List TrashItem → Option TrashItem
find_item id [] = none
find_item id (item ∷ items) = if item.id == id then some item else find_item id items

abbrev pub unless_left : Option TrashItem → Answered TrashItem
unless_left none = not_found
unless_left (some item) = if is_active item then answered item else conflict

-- `_get_active_trash_item`
unfoldable pub get_active_trash_item : ℕ → List TrashItem → Answered TrashItem
unfolding find_item
get_active_trash_item id items = unless_left (find_item id items)

-- The row with this id, rewritten.
unfoldable pub put : TrashItem → List TrashItem → List TrashItem
put item [] = []
put item (x ∷ xs) = if x.id == item.id then item ∷ xs else x ∷ put item xs

unfoldable pub delete_got :
    (ℕ → Bool) → ℕ → List TrashItem → Disk → Answered TrashItem → Answered (List TrashItem × Disk)
unfolding delete_now put
delete_got allowed now items disk not_found = not_found
delete_got allowed now items disk conflict = conflict
delete_got allowed now items disk failed = failed
delete_got allowed now items disk (answered item) =
    let gone = delete_now allowed now item disk in answered (put gone.0 items, gone.1)

unfoldable pub delete_trash_item :
    (ℕ → Bool) → ℕ → ℕ → List TrashItem → Disk → Answered (List TrashItem × Disk)
unfolding delete_got get_active_trash_item
delete_trash_item allowed now id items disk =
    delete_got allowed now items disk (get_active_trash_item id items)

unfoldable pub put_restored : List TrashItem → Restored → Answered (List TrashItem × Disk)
unfolding put
put_restored items (done item disk) = answered (put item items, disk)
put_restored items restore_conflict = conflict
put_restored items os_error = failed

unfoldable pub restore_got :
    LinkAnswer → ℕ → List TrashItem → Disk → Answered TrashItem → Answered (List TrashItem × Disk)
unfolding put_restored restore
restore_got link now items disk not_found = not_found
restore_got link now items disk conflict = conflict
restore_got link now items disk failed = failed
restore_got link now items disk (answered item) = put_restored items (restore link now item disk)

unfoldable pub restore_trash_item :
    LinkAnswer → ℕ → ℕ → List TrashItem → Disk → Answered (List TrashItem × Disk)
unfolding restore_got get_active_trash_item
restore_trash_item link now id items disk =
    restore_got link now items disk (get_active_trash_item id items)

-- The calls that change the table.
pub data Call : Type 0 where
  sweep : ℕ → Call
  delete_early : ℕ → ℕ → Call
  put_back : LinkAnswer → ℕ → ℕ → Call

-- A route that does not answer with 200 has changed nothing.
abbrev pub state_of :
    List TrashItem → Disk → Answered (List TrashItem × Disk) → List TrashItem × Disk
state_of items disk (answered p) = p
state_of items disk _ = (items, disk)

unfoldable pub call : (ℕ → Bool) → Call → List TrashItem × Disk → List TrashItem × Disk
unfolding sweep_expired delete_trash_item restore_trash_item
call allowed (sweep now) s = let r = sweep_expired allowed now s.0 s.1 in (r.0, r.1)
call allowed (delete_early now id) s = state_of s.0 s.1 (delete_trash_item allowed now id s.0 s.1)
call allowed (put_back link now id) s = state_of s.0 s.1 (restore_trash_item link now id s.0 s.1)

unfoldable pub calls : (ℕ → Bool) → List Call → List TrashItem × Disk → List TrashItem × Disk
unfolding call
calls allowed [] s = s
calls allowed (c ∷ cs) s = calls allowed cs (call allowed c s)

-- ===== src/Trash/Restore.antt =====
-- `restore` of src/impostarr/trash.py, and that an item leaves the trash once.
use impostarr.Prelude.{
  ℕ, ◌≡◌, refl, subst, ap, ◌∙◌, ◌⊎◌, inl, inr, true, false, Bool-cases, Option, none, some, ◌∷◌,
  arith, ◌==◌, ==_iff,
}
use impostarr.Remediate.{LinkAnswer, linked, link_error, cross_device}
use impostarr.Trash.{
  TrashItem, restored, Disk, lookup, leave, done, restore, link_or_copy, mark_restored,
  restore_unless,
}

-- The file at a path is as before, unless nothing was there.
abbrev pub Keeps : ℕ → Disk → Disk → Type 0
Keeps p before after = (lookup p before ≡ none) ⊎ (lookup p after ≡ lookup p before)

add-Keeps :
    (c target p : ℕ) (disk disk' : Disk)
    → lookup target disk ≡ none
    → (target, c) ∷ disk ≡ disk'
    → (lookup target disk' ≡ some c) × Keeps p disk disk'
unfolding lookup
add-Keeps c target p disk disk' n h =
    subst (λ d. (lookup target d ≡ some c) × Keeps p disk d) h
      (
        ground arith,
        elim (Bool-cases (target == p)) [
          | inl e ↦ inl (subst (λ q. lookup q disk ≡ none) ((==_iff target p).0 e) n)
          | inr e ↦ inr (rw (e) refl)
        ],
      )

link-Keeps :
    (answer : LinkAnswer) (found : Option ℕ) (target p : ℕ) (disk disk' : Disk)
    → lookup target disk ≡ none
    → link_or_copy answer found target disk ≡ some disk'
    → (lookup target disk' ≡ found) × Keeps p disk disk'
link-Keeps answer none target p disk disk' n h = ground arith
link-Keeps linked (some c) target p disk disk' n h =
    add-Keeps c target p disk disk' n (ground arith)
link-Keeps link_error (some c) target p disk disk' n h = ground arith
link-Keeps (cross_device true) (some c) target p disk disk' n h =
    add-Keeps c target p disk disk' n (ground arith)
link-Keeps (cross_device false) (some c) target p disk disk' n h = ground arith

marked :
    (answer : LinkAnswer) (now p : ℕ) (item item' : TrashItem) (disk disk' : Disk)
    (made : Option Disk)
    → lookup item.original_path disk ≡ none
    → link_or_copy answer (lookup item.trash_path disk) item.original_path disk ≡ made
    → mark_restored now item made ≡ done item' disk'
    → (lookup item.original_path disk' ≡ lookup item.trash_path disk)
      × Keeps p disk disk'
      × (item' ≡ leave now restored item)
marked answer now p item item' disk disk' none n l h = ground arith
marked answer now p item item' disk disk' (some d) n l h =
    let same : d ≡ disk' = ground arith in
    let k =
      link-Keeps answer (lookup item.trash_path disk) item.original_path p disk disk' n
        (l ∙ ap some same) in
    (k.0, k.1, ground arith)

unless :
    (answer : LinkAnswer) (now p : ℕ) (item item' : TrashItem) (disk disk' : Disk)
    (there : Option ℕ)
    → lookup item.original_path disk ≡ there
    → restore_unless there answer now item disk ≡ done item' disk'
    → (lookup item.original_path disk ≡ none)
      × ((lookup item.original_path disk' ≡ lookup item.trash_path disk)
          × Keeps p disk disk'
          × (item' ≡ leave now restored item))
unless answer now p item item' disk disk' (some t) n h = ground arith
unless answer now p item item' disk disk' none n h =
    (n, marked answer now p item item' disk disk' _ n refl h)

-- A restore that succeeds has found nothing at the original path, puts there what the copy in the
-- trash holds, and changes no file that was there before, the copy in the trash included; and it
-- marks the item as restored.
pub restore-Keeps :
    (answer : LinkAnswer) (now p : ℕ) (item item' : TrashItem) (disk disk' : Disk)
    → restore answer now item disk ≡ done item' disk'
    → (lookup item.original_path disk ≡ none)
      × ((lookup item.original_path disk' ≡ lookup item.trash_path disk)
          × Keeps p disk disk'
          × (item' ≡ leave now restored item))
unfolding restore
restore-Keeps answer now p item item' disk disk' h =
    unless answer now p item item' disk disk' (lookup item.original_path disk) refl h

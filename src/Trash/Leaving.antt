-- ===== src/Trash/Leaving.antt =====
-- src/impostarr/trash.py and its routes in src/impostarr/api/routes.py: an item leaves the trash once.
use impostarr.Prelude.{
  ℕ, ◌≡◌, refl, sym, subst, ap, ◌∙◌, ◌⊎◌, inl, inr, Bool, true, Bool-cases, Option, none, some,
  List, [], ◌∷◌, arith, ◌==◌, ==_iff,
}
use impostarr.Remediate.{LinkAnswer}
use impostarr.Trash.{
  TrashItem, Outcome, deleted, restored, Disk, unlink_tolerant, leave, is_active, is_expired,
  sweep_expired, delete_now, Restored, done, restore_conflict, os_error, restore, Answered,
  not_found, conflict, failed, answered, find_item, get_active_trash_item, put, delete_got,
  delete_trash_item, put_restored, restore_got, restore_trash_item, Call, sweep, delete_early,
  put_back, call, calls, state_of, unless_left,
}
use impostarr.Trash.Restore.{restore-Keeps}

-- An item that has left the trash is as it was, and every item keeps its id.
abbrev pub Settles : List TrashItem → List TrashItem → Type 0
Settles [] [] = Unit
Settles (x ∷ xs) (y ∷ ys) = ((y.id ≡ x.id) × ((is_active x ≡ true) ⊎ (y ≡ x))) × Settles xs ys
Settles _ _ = ⊥

Settles-refl : (xs : List TrashItem) → Settles xs xs
Settles-refl [] = tt
Settles-refl (x ∷ xs) = ((refl, inr refl), Settles-refl xs)

Settles-trans : (xs ys zs : List TrashItem) → Settles xs ys → Settles ys zs → Settles xs zs
Settles-trans [] [] [] a b = tt
Settles-trans [] (y ∷ ys) zs a b = elim a [ ]
Settles-trans (x ∷ xs) [] zs a b = elim a [ ]
Settles-trans [] [] (z ∷ zs) a b = elim b [ ]
Settles-trans (x ∷ xs) (y ∷ ys) [] a b = elim b [ ]
Settles-trans (x ∷ xs) (y ∷ ys) (z ∷ zs) a b = (
  (
    b.0.0 ∙ a.0.0,
    elim a.0.1 [
      | inl active ↦ inl active
      | inr same ↦ elim b.0.1 [
        | inl active ↦ inl (ap is_active (sym same) ∙ active)
        | inr same' ↦ inr (same' ∙ same)
      ]
    ],
  ),
  Settles-trans xs ys zs a.1 b.1,
)

put-Settles :
    (x y : TrashItem) (items : List TrashItem)
    → find_item y.id items ≡ some x
    → is_active x ≡ true
    → Settles items (put y items)
unfolding find_item put
put-Settles x y [] f a = ground arith
put-Settles x y (i ∷ is) f a = elim (Bool-cases (i.id == y.id)) [
  | inl e ↦ rw (e) (
    (sym ((==_iff i.id y.id).0 e), inl (let same : i ≡ x = ground arith in ap is_active same ∙ a)),
    Settles-refl is,
  )
  | inr e ↦ rw (e) ((refl, inr refl), put-Settles x y is (ground arith) a)
]

sweep-Settles :
    (allowed : ℕ → Bool) (now : ℕ) (items : List TrashItem) (disk : Disk)
    → Settles items (sweep_expired allowed now items disk).0
unfolding sweep_expired
sweep-Settles allowed now [] disk = tt
sweep-Settles allowed now (i ∷ is) disk = elim (Bool-cases (is_expired now i)) [
  | inl e ↦ rw (e) (
    (refl, inl (ground arith)),
    sweep-Settles allowed now is (unlink_tolerant allowed i.trash_path disk),
  )
  | inr e ↦ rw (e) ((refl, inr refl), sweep-Settles allowed now is disk)
]

find_item-id :
    (id : ℕ) (x : TrashItem) (items : List TrashItem) → find_item id items ≡ some x → x.id ≡ id
unfolding find_item
find_item-id id x [] f = ground arith
find_item-id id x (i ∷ is) f = elim (Bool-cases (i.id == id)) [
  | inl e ↦ let same : i ≡ x = ground arith in ap (λ y. y.id) (sym same) ∙ (==_iff i.id id).0 e
  | inr e ↦ find_item-id id x is (ground arith)
]

-- An item that a route has found, and that is still in the trash, may be marked.
mark-Settles :
    (id now : ℕ) (o : Outcome) (x : TrashItem) (items : List TrashItem)
    → find_item id items ≡ some x
    → is_active x ≡ true
    → Settles items (put (leave now o x) items)
mark-Settles id now o x items f a =
    put-Settles x (leave now o x) items
      (ap (λ k. find_item k items) (find_item-id id x items f) ∙ f) a

active_found :
    (id : ℕ) (x : TrashItem) (items : List TrashItem) (found : Option TrashItem)
    → find_item id items ≡ found
    → unless_left found ≡ answered x
    → (find_item id items ≡ some x) × (is_active x ≡ true)
active_found id x items none f h = ground arith
active_found id x items (some y) f h = elim (Bool-cases (is_active y)) [
  | inl a ↦ let same : y ≡ x = ground arith in (f ∙ ap some same, ap is_active (sym same) ∙ a)
  | inr a ↦ ground arith
]

delete-Settles :
    (allowed : ℕ → Bool) (now id : ℕ) (items : List TrashItem) (disk : Disk)
    (got : Answered TrashItem)
    → get_active_trash_item id items ≡ got
    → Settles items (state_of items disk (delete_got allowed now items disk got)).0
unfolding delete_got delete_now get_active_trash_item
delete-Settles allowed now id items disk not_found g = Settles-refl items
delete-Settles allowed now id items disk conflict g = Settles-refl items
delete-Settles allowed now id items disk failed g = Settles-refl items
delete-Settles allowed now id items disk (answered x) g =
    let k = active_found id x items (find_item id items) refl g in
    mark-Settles id now deleted x items k.0 k.1

restored-Settles :
    (answer : LinkAnswer) (now id : ℕ) (x : TrashItem) (items : List TrashItem) (disk : Disk)
    (r : Restored)
    → restore answer now x disk ≡ r
    → find_item id items ≡ some x
    → is_active x ≡ true
    → Settles items (state_of items disk (put_restored items r)).0
unfolding put_restored
restored-Settles answer now id x items disk restore_conflict e f a = Settles-refl items
restored-Settles answer now id x items disk os_error e f a = Settles-refl items
restored-Settles answer now id x items disk (done y d) e f a =
    subst (λ z. Settles items (put z items)) (sym (restore-Keeps answer now 0 x y disk d e).1.2)
      (mark-Settles id now restored x items f a)

restore_route-Settles :
    (answer : LinkAnswer) (now id : ℕ) (items : List TrashItem) (disk : Disk)
    (got : Answered TrashItem)
    → get_active_trash_item id items ≡ got
    → Settles items (state_of items disk (restore_got answer now items disk got)).0
unfolding restore_got get_active_trash_item
restore_route-Settles answer now id items disk not_found g = Settles-refl items
restore_route-Settles answer now id items disk conflict g = Settles-refl items
restore_route-Settles answer now id items disk failed g = Settles-refl items
restore_route-Settles answer now id items disk (answered x) g =
    let k = active_found id x items (find_item id items) refl g in
    restored-Settles answer now id x items disk (restore answer now x disk) refl k.0 k.1

call-Settles :
    (allowed : ℕ → Bool) (c : Call) (s : List TrashItem × Disk) → Settles s.0 (call allowed c s).0
unfolding call delete_trash_item restore_trash_item
call-Settles allowed (sweep now) s = sweep-Settles allowed now s.0 s.1
call-Settles allowed (delete_early now id) s = delete-Settles allowed now id s.0 s.1 _ refl
call-Settles allowed (put_back answer now id) s = restore_route-Settles answer now id s.0 s.1 _ refl

-- However sweeps, early deletes and restores follow each other, an item that has left the trash keeps
-- its outcome and every other column, and no row is dropped.
pub calls-Settles :
    (allowed : ℕ → Bool) (cs : List Call) (s : List TrashItem × Disk)
    → Settles s.0 (calls allowed cs s).0
unfolding calls
calls-Settles allowed [] s = Settles-refl s.0
calls-Settles allowed (c ∷ cs) s =
    Settles-trans s.0 (call allowed c s).0 (calls allowed cs (call allowed c s)).0
      (call-Settles allowed c s) (calls-Settles allowed cs (call allowed c s))

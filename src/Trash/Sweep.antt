-- ===== src/Trash/Sweep.antt =====
-- `sweep_expired` of src/impostarr/trash.py, and that an item leaves the trash once.
use impostarr.Prelude.{
  ℕ, suc, ◌≡◌, refl, ap, ◌∙◌, inl, inr, Bool, false, ◌&&◌, Bool-cases, List, [], ◌∷◌, map, count,
  any, arith, ◌==◌, if◌then◌else◌,
}
use impostarr.Trash.{
  TrashItem, expired, Disk, lookup, remove, unlink_tolerant, leave, is_expired, sweep_expired,
}

-- What a sweep does to a row.
abbrev pub swept : ℕ → TrashItem → TrashItem
swept now item = if is_expired now item then leave now expired item else item

-- A sweep marks exactly the items that have expired and are still in the trash, counts them, and
-- leaves none for a sweep at the same time.
pub sweep_expired_lem :
    (allowed : ℕ → Bool) (now : ℕ) (items : List TrashItem) (disk : Disk)
    → ((sweep_expired allowed now items disk).0 ≡ map (swept now) items)
      × ((sweep_expired allowed now items disk).2 ≡ count (is_expired now) items)
      × (count (is_expired now) (sweep_expired allowed now items disk).0 ≡ 0)
unfolding sweep_expired
sweep_expired_lem allowed now [] disk = (refl, refl, refl)
sweep_expired_lem allowed now (i ∷ is) disk = elim (Bool-cases (is_expired now i)) [
  | inl e ↦
      let h = sweep_expired_lem allowed now is (unlink_tolerant allowed i.trash_path disk) in
      rw (e) (ap (λ l. leave now expired i ∷ l) h.0, ap suc h.1, ground (arith, h.2))
  | inr e ↦
      let h = sweep_expired_lem allowed now is disk in
      rw (e) (ap (λ l. i ∷ l) h.0, h.1, ground (arith, h.2))
]

lookup-remove :
    (p q : ℕ) (disk : Disk) → (q == p) ≡ false → lookup p (remove q disk) ≡ lookup p disk
unfolding lookup remove
lookup-remove p q [] n = refl
lookup-remove p q (f ∷ fs) n = ground (arith, lookup-remove p q fs n)

lookup-unlink :
    (allowed : ℕ → Bool) (p q : ℕ) (disk : Disk)
    → (q == p) ≡ false
    → lookup p (unlink_tolerant allowed q disk) ≡ lookup p disk
unfolding unlink_tolerant
lookup-unlink allowed p q disk n = elim (Bool-cases (allowed q)) [
  | inl a ↦ rw (a) (lookup-remove p q disk n)
  | inr a ↦ rw (a) refl
]

-- A sweep leaves every file as it is that is not the copy of an item that has expired.
pub sweep_expired-lookup :
    (allowed : ℕ → Bool) (now p : ℕ) (items : List TrashItem) (disk : Disk)
    → any (λ i. is_expired now i && i.trash_path == p) items ≡ false
    → lookup p (sweep_expired allowed now items disk).1 ≡ lookup p disk
unfolding sweep_expired
sweep_expired-lookup allowed now p [] disk n = refl
sweep_expired-lookup allowed now p (i ∷ is) disk n = elim (Bool-cases (is_expired now i)) [
  | inl e ↦ rw (e) (
      sweep_expired-lookup allowed now p is (unlink_tolerant allowed i.trash_path disk)
        (ground arith)
      ∙ lookup-unlink allowed p i.trash_path disk (ground arith))
  | inr e ↦ rw (e) (sweep_expired-lookup allowed now p is disk (ground arith))
]

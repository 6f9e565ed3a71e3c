-- ===== src/Remediate/Targets.antt =====
-- `Remediator.remap` of src/impostarr/remediate.py: the episodes that its checks have let through.
use impostarr.Prelude.{
  ℕ, true, false, not, ◌||◌, ◌≡◌, refl, ◌∙◌, ap, inl, inr, List, [], ◌∷◌, filter, ◌==◌, ==_iff,
  Bool-cases, arith, some,
}
use impostarr.IdSet.{
  IdSet, IsIncreasing, member, of_list, member-of_list, of_list-IsIncreasing, increasing_ext,
}
use impostarr.Text.{same_codes, same_codes-eq}
use impostarr.Remediate.Remap.{
  TargetEpisode, ImportPath, insert, sort_episodes, target_episodes, ids_of, missing_ids,
  is_nonempty, path_name, find_candidate,
}

member-insert :
    (n : ℕ) (ep : TargetEpisode) (eps : List TargetEpisode)
    → member n (ids_of (insert ep eps)) ≡ (ep.id == n || member n (ids_of eps))
unfolding insert
member-insert n ep [] = refl
member-insert n ep (e ∷ es) = ground (arith, member-insert n ep es)

member-sort :
    (n : ℕ) (eps : List TargetEpisode)
    → member n (ids_of (sort_episodes eps)) ≡ member n (ids_of eps)
unfolding sort_episodes
member-sort n [] = refl
member-sort n (e ∷ es) = rw (member-insert n e (sort_episodes es), member-sort n es) refl

same_member : (m n : ℕ) (t : IdSet) → (m == n) ≡ true → member m t ≡ member n t
same_member m n t h = ap (λ k. member k t) ((==_iff m n).0 h)

filter_members :
    (n : ℕ) (t : IdSet) (eps : List TargetEpisode)
    → member n (ids_of (filter (λ ep. member ep.id t) eps)) ≡ true
    → member n t ≡ true
filter_members n t [] h = ground arith
filter_members n t (e ∷ es) h = elim (Bool-cases (member e.id t)) [
  | inl m ↦ ground (arith, filter_members n t es, same_member e.id n t)
  | inr m ↦ ground (arith, filter_members n t es)
]

none_missing :
    (n : ℕ) (t s : IdSet)
    → is_nonempty (filter (λ k. not (member k s)) t) ≡ false
    → member n t ≡ true
    → member n s ≡ true
none_missing n [] s h m = ground arith
none_missing n (x ∷ xs) s h m = ground (arith, none_missing n xs s, same_member x n s)

-- With no target missing, the ids of the target episodes are the targets.
pub resolved_ids :
    (t : IdSet) (eps : List TargetEpisode)
    → IsIncreasing t
    → is_nonempty (missing_ids t (target_episodes t eps)) ≡ false
    → of_list (ids_of (target_episodes t eps)) ≡ t
resolved_ids t eps i m =
    let both : (n : ℕ) → member n (ids_of (target_episodes t eps)) ≡ member n t = λ n. ground (
      arith,
      none_missing n t (ids_of (target_episodes t eps)),
      filter_members n t eps,
      member-sort n (filter (λ ep. member ep.id t) eps),
    ) in
    increasing_ext (of_list (ids_of (target_episodes t eps))) t (of_list-IsIncreasing _) i
      (λ n. member-of_list n (ids_of (target_episodes t eps)) ∙ both n)

-- The candidate that is found has the name.
pub found_name :
    (name : List ℕ) (cs : List ImportPath) (path : ImportPath)
    → find_candidate name cs ≡ some path
    → path_name path ≡ name
found_name name [] path h = ground arith
found_name name (c ∷ cs) path h = elim (Bool-cases (same_codes (path_name c) name)) [
  | inl s ↦ ground (arith, same_codes-eq (path_name c) name)
  | inr s ↦ ground (arith, found_name name cs path)
]

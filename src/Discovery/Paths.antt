-- ===== src/Discovery/Paths.antt =====
-- `_map_local_path` of src/impostarr/discovery.py: the mapping that is taken.
use impostarr.Prelude.{
  ℕ, ◌≤◌, ◌≡◌, refl, sym, subst, ◌⊎◌, inl, inr, Bool, true, not, ◌&&◌, ◌||◌, Bool-cases, Option,
  none, some, List, [], ◌∷◌, ◌++◌, all, arith, leb, length, if◌then◌else◌,
}
use impostarr.Text.{same_codes-eq}
use impostarr.Discovery.{
  Parts, PathMapping, relative_to, is_relative_to, better, best_mapping, relocate, rebased,
  map_local_path,
}

relative_to-append :
    (path prefix rest : Parts) → relative_to path prefix ≡ some rest → path ≡ prefix ++ rest
unfolding relative_to
relative_to-append path [] rest h = ground arith
relative_to-append [] (p ∷ prefix) rest h = ground arith
relative_to-append (x ∷ path) (p ∷ prefix) rest h =
    ground (arith, relative_to-append path prefix rest, same_codes-eq x p)

abbrev pub Among : PathMapping → List PathMapping → Type 0
Among b [] = ⊥
Among b (m ∷ ms) = (b ≡ m) ⊎ Among b ms

-- The mapping leads no further down the path than the best.
abbrev no_longer : Parts → ℕ → PathMapping → Bool
no_longer path n m = not (is_relative_to path m.sonarr) || leb (length m.sonarr) n

-- The best mapping so far is one of those seen, and none of them is longer.
abbrev IsBest : Parts → List PathMapping → Option PathMapping → Type 0
IsBest path ms none = all (λ m. not (is_relative_to path m.sonarr)) ms ≡ true
IsBest path ms (some b) =
    Among b ms
    × ((is_relative_to path b.sonarr ≡ true) × (all (no_longer path (length b.sonarr)) ms ≡ true))

all_longer :
    (path : Parts) (m n : ℕ) (ms : List PathMapping)
    → m ≤ n
    → all (no_longer path m) ms ≡ true
    → all (no_longer path n) ms ≡ true
all_longer path m n [] h a = refl
all_longer path m n (x ∷ xs) h a = ground (arith, all_longer path m n xs)

all_unrelated :
    (path : Parts) (n : ℕ) (ms : List PathMapping)
    → all (λ m. not (is_relative_to path m.sonarr)) ms ≡ true
    → all (no_longer path n) ms ≡ true
all_unrelated path n [] a = refl
all_unrelated path n (x ∷ xs) a = ground (arith, all_unrelated path n xs)

next-IsBest :
    (path : Parts) (m : PathMapping) (seen : List PathMapping) (best : Option PathMapping)
    → IsBest path seen best
    → IsBest path (m ∷ seen) (if better path m best then some m else best)
next-IsBest path m seen none h = elim (Bool-cases (is_relative_to path m.sonarr)) [
  | inl r ↦ rw (r) (inl refl, (r, ground (arith, all_unrelated path (length m.sonarr) seen)))
  | inr r ↦ rw (r) (ground arith)
]
next-IsBest path m seen (some b) h = elim (Bool-cases (better path m (some b))) [
  | inl r ↦ rw (r) (
    inl refl,
    (ground arith, ground (arith, all_longer path (length b.sonarr) (length m.sonarr) seen)),
  )
  | inr r ↦ rw (r) (inr h.0, (h.1.0, ground arith))
]

-- The elements before the rest, the last first.
abbrev rev_onto : List PathMapping → List PathMapping → List PathMapping
rev_onto [] seen = seen
rev_onto (m ∷ ms) seen = rev_onto ms (m ∷ seen)

best_mapping-IsBest :
    (path : Parts) (ms seen : List PathMapping) (best : Option PathMapping)
    → IsBest path seen best
    → IsBest path (rev_onto ms seen) (best_mapping path ms best)
unfolding best_mapping
best_mapping-IsBest path [] seen best h = h
best_mapping-IsBest path (m ∷ ms) seen best h =
    best_mapping-IsBest path ms (m ∷ seen) (if better path m best then some m else best)
      (next-IsBest path m seen best h)

Among-rev :
    (b : PathMapping) (ms seen : List PathMapping)
    → Among b (rev_onto ms seen)
    → Among b ms ⊎ Among b seen
Among-rev b [] seen a = inr a
Among-rev b (m ∷ ms) seen a = elim (Among-rev b ms (m ∷ seen) a) [
  | inl x ↦ inl (inr x)
  | inr x ↦ elim x [ inl y ↦ inl (inl y) | inr y ↦ inr y ]
]

all-rev :
    (p : PathMapping → Bool) (ms seen : List PathMapping)
    → all p (rev_onto ms seen) ≡ (all p ms && all p seen)
all-rev p [] seen = refl
all-rev p (m ∷ ms) seen = ground (arith, all-rev p ms (m ∷ seen))

-- The mapped path, by the mapping that is taken: no mapping relates the path to a longer prefix.
abbrev pub IsMapped : List PathMapping → Parts → Option Parts → Type 0
IsMapped ms path none = all (λ m. not (is_relative_to path m.sonarr)) ms ≡ true
IsMapped ms path (some q) =
    (b : PathMapping) × (rest : Parts) × Among b ms
    × (path ≡ b.sonarr ++ rest)
    × (q ≡ b.local ++ rest)
    × (all (no_longer path (length b.sonarr)) ms ≡ true)

related :
    (path : Parts) (b : PathMapping) (r : Option Parts)
    → relative_to path b.sonarr ≡ r
    → is_relative_to path b.sonarr ≡ true
    → (rest : Parts) × (relative_to path b.sonarr ≡ some rest)
related path b none e h = ground arith
related path b (some rest) e h = (rest, e)

relocated :
    (ms : List PathMapping) (path : Parts) (best : Option PathMapping)
    → IsBest path (rev_onto ms []) best
    → IsMapped ms path (relocate path best)
relocated ms path none h = ground (arith, all-rev (λ m. not (is_relative_to path m.sonarr)) ms [])
relocated ms path (some b) h =
    let found = related path b (relative_to path b.sonarr) refl h.1.0 in
    let among : Among b ms = elim (Among-rev b ms [] h.0) [ inl x ↦ x | inr x ↦ elim x [ ] ] in
    let far : all (no_longer path (length b.sonarr)) ms ≡ true =
      ground (arith, h.1.1, all-rev (no_longer path (length b.sonarr)) ms []) in
    subst (λ o. IsMapped ms path (rebased b o)) (sym found.1)
      (b, found.0, among, relative_to-append path b.sonarr found.0 found.1, refl, far)

-- A path with no mapping is related to none of the prefixes; a mapped path is the local prefix of a
-- mapping and what follows its Sonarr prefix in the path, and no longer prefix fits.
pub map_local_path-IsMapped :
    (ms : List PathMapping) (path : Parts) → IsMapped ms path (map_local_path ms path)
unfolding map_local_path
map_local_path-IsMapped ms path =
    relocated ms path (best_mapping path ms none) (best_mapping-IsBest path ms [] none refl)

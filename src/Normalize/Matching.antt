-- ===== src/Normalize/Matching.antt =====
-- Which ids `normalize` of src/impostarr/normalize.py finds, and when it finds none.
use impostarr.Prelude.{
  ℕ, ◌≡◌, refl, sym, subst, ◌∙◌, ◌⊎◌, inl, inr, Bool, true, false, not, ◌&&◌, ◌||◌, Option, none,
  some, List, [], ◌∷◌, arith, ◌==◌, Bool-cases, Option-cases, any, all,
}
use impostarr.Candidates.{claimed_series, Numbering, Candidate, coupled, is_none}
use impostarr.IdSet.{IdSet, add, member, member-add, IsIncreasing, add-IsIncreasing, increasing_ext}
use impostarr.Normalize.{
  Episode, Normalized, in_series, unnormalizable, equals, find_id, by_numbers, by_scene,
  by_scene_absolute, match_scene, matcher, match_all, normalize,
}

-- Some number of the list stands for the id.
abbrev pub stands_for : (ℕ → Option ℕ) → List ℕ → ℕ → Bool
stands_for find epnums n = any (λ e. equals (find e) n) epnums

abbrev pub all_found : (ℕ → Option ℕ) → List ℕ → Bool
all_found find epnums = all (λ e. not (is_none (find e))) epnums

-- A set that holds the ids of the numbers, with those found before, and nothing else.
abbrev Collects : (ℕ → Option ℕ) → List ℕ → IdSet → Normalized → Type 0
Collects find epnums ids r =
    (found : IdSet) × (r ≡ in_series found)
    × IsIncreasing found
    × ((n : ℕ) → member n found ≡ (member n ids || stands_for find epnums n))

Collects-step :
    (find : ℕ → Option ℕ) (e m : ℕ) (es : List ℕ) (ids : IdSet) (r : Normalized)
    → find e ≡ some m
    → Collects find es (add m ids) r
    → Collects find (e ∷ es) ids r
Collects-step find e m es ids r p (found, eq, inc, mem) =
    (found, eq, inc, λ n. mem n ∙ rw p (ground (arith, member-add n m ids)))

match_all-Collects :
    (find : ℕ → Option ℕ) (epnums : List ℕ) (ids : IdSet)
    → IsIncreasing ids
    → all_found find epnums ≡ true
    → Collects find epnums ids (match_all find epnums ids)
unfolding match_all
match_all-Collects find [] ids i h = (ids, refl, i, λ n. ground arith)
match_all-Collects find (e ∷ es) ids i h = elim (Option-cases (find e)) [
  | inl p ↦ absurd (ground arith)
  | inr (m, p) ↦
      let on : match_all find (e ∷ es) ids ≡ match_all find es (add m ids) = rw (p, match_all) in
      subst (Collects find (e ∷ es) ids) (sym on) (
        Collects-step find e m es ids _ p
          (match_all-Collects find es (add m ids) (add-IsIncreasing m ids i) (ground arith)))
]

match_all-missing :
    (find : ℕ → Option ℕ) (epnums : List ℕ) (ids : IdSet)
    → all_found find epnums ≡ false
    → match_all find epnums ids ≡ unnormalizable
unfolding match_all
match_all-missing find [] ids h = ground arith
match_all-missing find (e ∷ es) ids h = elim (Option-cases (find e)) [
  | inl p ↦ rw (p, match_all)
  | inr (m, p) ↦ rw (p, match_all) (match_all-missing find es (add m ids) (ground arith))
]

-- A candidate of the claimed series, in some numbering.
abbrev pub in_claimed : {F : Type 0} → F → ℕ → List ℕ → Numbering → Candidate F
in_claimed conf season epnums numbering = record {
  confidence = conf;
  ident = some (record { series = claimed_series; season = season; episodes = epnums });
  numbering = some numbering;
}

-- All or nothing: a candidate of the claimed series is unnormalizable if one of its episode numbers
-- has no match, and otherwise it is the set of exactly the ids that its numbers stand for.
pub normalize_all_or_nothing :
    {F : Type 0} (conf : F) (season : ℕ) (epnums : List ℕ) (numbering : Numbering)
    (episodes : List Episode)
    → let find = matcher numbering episodes season in
      let r = normalize (in_claimed conf season epnums numbering) episodes in
      ((all_found find epnums ≡ false) × (r ≡ some unnormalizable))
      ⊎ ((all_found find epnums ≡ true)
          × ((ids : IdSet) × (r ≡ some (in_series ids))
              × IsIncreasing ids
              × ((n : ℕ) → member n ids ≡ stands_for find epnums n)))
unfolding normalize
normalize_all_or_nothing conf season epnums numbering episodes =
    let find = matcher numbering episodes season in
    elim (Bool-cases (all_found find epnums)) [
      | inl found ↦
          let (ids, e, inc, mem) = match_all-Collects find epnums [] tt found in
          inr (found, (ids, rw e, inc, mem))
      | inr missing ↦ inl (missing, rw (match_all-missing find epnums [] missing))
    ]

-- A candidate that has passed its validator is never looked up under a missing numbering.
pub normalize_total :
    {F : Type 0} (c : Candidate F) (episodes : List Episode)
    → coupled c ≡ true
    → (r : Normalized) × (normalize c episodes ≡ some r)
unfolding normalize
normalize_total c episodes h = elim (Option-cases (normalize c episodes)) [
  | inl e ↦ absurd (ground arith)
  | inr r ↦ r
]

find_id-some :
    (p : Episode → Bool) (eps : List Episode) (id : ℕ)
    → find_id p eps ≡ some id
    → any (λ ep. p ep && (ep.id == id)) eps ≡ true
unfolding find_id
find_id-some p [] id h = ground arith
find_id-some p (ep ∷ eps) id h = ground (arith, find_id-some p eps id)

find_id-none : (p : Episode → Bool) (eps : List Episode) → find_id p eps ≡ none → any p eps ≡ false
unfolding find_id
find_id-none p [] h = refl
find_id-none p (ep ∷ eps) h = ground (arith, find_id-none p eps)

-- Scene numbering: an id comes from the first of the three tiers in which some episode matches.
pub match_scene_precedence :
    (episodes : List Episode) (season epnum id : ℕ)
    → match_scene episodes season epnum ≡ some id
    → (any (λ ep. by_scene season epnum ep && (ep.id == id)) episodes ≡ true)
      ⊎ ((any (by_scene season epnum) episodes ≡ false)
          × (any (λ ep. by_scene_absolute epnum ep && (ep.id == id)) episodes ≡ true))
      ⊎ ((any (by_scene season epnum) episodes ≡ false)
          × (any (by_scene_absolute epnum) episodes ≡ false)
          × (any (λ ep. by_numbers season epnum ep && (ep.id == id)) episodes ≡ true))
unfolding match_scene
match_scene_precedence episodes season epnum id h = ground (
  arith,
  find_id-some (by_scene season epnum) episodes id,
  find_id-none (by_scene season epnum) episodes,
  find_id-some (by_scene_absolute epnum) episodes id,
  find_id-none (by_scene_absolute epnum) episodes,
  find_id-some (by_numbers season epnum) episodes id,
)

-- The order and the repetitions of the numbers in an ident do not matter: two lists that stand for
-- the same ids are normalized to the same set.
pub normalize_order :
    {F : Type 0} (conf : F) (season : ℕ) (one two : List ℕ) (numbering : Numbering)
    (episodes : List Episode)
    → ((n : ℕ)
        → stands_for (matcher numbering episodes season) one n
          ≡ stands_for (matcher numbering episodes season) two n)
    → all_found (matcher numbering episodes season) one ≡ true
    → all_found (matcher numbering episodes season) two ≡ true
    → normalize (in_claimed conf season one numbering) episodes
      ≡ normalize (in_claimed conf season two numbering) episodes
unfolding normalize
normalize_order conf season one two numbering episodes same f1 f2 =
    let find = matcher numbering episodes season in
    let (a, ea, inc_a, mem_a) = match_all-Collects find one [] tt f1 in
    let (b, eb, inc_b, mem_b) = match_all-Collects find two [] tt f2 in
    rw (ea, eb, increasing_ext a b inc_a inc_b (λ n. mem_a n ∙ same n ∙ sym (mem_b n)))

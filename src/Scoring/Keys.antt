-- ===== src/Scoring/Keys.antt =====
-- Candidate keys of src/impostarr/scoring.py, their text form, and dictionaries over them.
use impostarr.Prelude.{
  ℕ, suc, String, ◌≡◌, ◌↔◌, refl, Bool, true, false, ◌&&◌, Option, none, some, List, [], ◌∷◌, ◌++◌,
  arith, str_eq, str_eq_iff, ltb, ◌==◌, if◌then◌else◌,
}
use impostarr.Text.{codes, decimal, join_comma}
use impostarr.Candidates.{ExternalIds}
use impostarr.IdSet.{IdSet, same, same-eq, same_refl}
use impostarr.Normalize.{Normalized, in_series, cross_series, junk, unnormalizable}

pub data Key : Type 0 where
  episodes : IdSet → Key
  cross : ExternalIds → Key
  junk_key : Key

pub data Kind : Type 0 where
  in_series_kind cross_series_kind junk_kind : Kind

-- `_key_for`; a candidate that is unnormalizable is skipped before it.
abbrev pub key_for : Normalized → Option Key
key_for (in_series ids) = some (episodes ids)
key_for (cross_series ids) = some (cross ids)
key_for junk = some junk_key
key_for unnormalizable = none

-- `_kind_of_key`
abbrev pub kind_of_key : Key → Kind
kind_of_key (episodes _) = in_series_kind
kind_of_key (cross _) = cross_series_kind
kind_of_key junk_key = junk_kind

abbrev same_number : Option ℕ → Option ℕ → Bool
same_number none none = true
same_number (some m) (some n) = m == n
same_number _ _ = false

abbrev same_text : Option String → Option String → Bool
same_text none none = true
same_text (some s) (some t) = str_eq s t
same_text _ _ = false

-- Equality of keys, which the source takes from frozensets and tuples.
unfoldable pub key_eq : Key → Key → Bool
key_eq (episodes s) (episodes t) = same s t
key_eq (cross a) (cross b) =
    same_number a.tvdb b.tvdb && same_number a.tmdb b.tmdb && same_text a.imdb b.imdb
key_eq junk_key junk_key = true
key_eq _ _ = false

same_text-eq : (s t : Option String) → same_text s t ≡ true → s ≡ t
same_text-eq none none h = refl
same_text-eq none (some t) h = ground arith
same_text-eq (some s) none h = ground arith
same_text-eq (some s) (some t) h = ground (arith, str_eq_iff s t)

same_text_refl : (s : Option String) → same_text s s ≡ true
same_text_refl none = refl
same_text_refl (some s) = ground (arith, str_eq_iff s s)

pub key_eq-eq : (j k : Key) → key_eq j k ≡ true → j ≡ k
unfolding key_eq
key_eq-eq (episodes s) (episodes t) h = ground (arith, same-eq s t)
key_eq-eq (cross a) (cross b) h = ground (arith, same_text-eq a.imdb b.imdb)
key_eq-eq junk_key junk_key h = refl
key_eq-eq _ _ h = ground arith

pub key_eq_refl : (k : Key) → key_eq k k ≡ true
unfolding key_eq
key_eq_refl (episodes s) = same_refl s
key_eq_refl (cross a) = ground (arith, same_text_refl a.imdb)
key_eq_refl junk_key = refl

pub key_eq_iff : (j k : Key) → (key_eq j k ≡ true) ↔ (j ≡ k)
key_eq_iff j k = (key_eq-eq j k, λ e. rw e (key_eq_refl k))

shown : IdSet → List (List ℕ)
unfolding decimal
shown [] = []
shown (n ∷ ns) = decimal (suc n) n [] ∷ shown ns

item : List ℕ → Option (List ℕ) → List (List ℕ) → List (List ℕ)
item name none rest = rest
item name (some value) rest = (name ++ value) ∷ rest

shown_number : Option ℕ → Option (List ℕ)
unfolding decimal
shown_number none = none
shown_number (some n) = some (decimal (suc n) n [])

shown_text : Option String → Option (List ℕ)
unfolding codes
shown_text none = none
shown_text (some s) = some (codes s)

-- `_key_repr`, as code points; the items of external ids are sorted by their names.
unfoldable pub key_repr : Key → List ℕ
unfolding join_comma shown item shown_number shown_text codes
key_repr (episodes ids) = codes "in_series:" ++ join_comma (shown ids)
key_repr (cross ids) =
    codes "cross:"
    ++ join_comma (
        item (codes "imdb=") (shown_text ids.imdb) (
          item (codes "tmdb=") (shown_number ids.tmdb)
            (item (codes "tvdb=") (shown_number ids.tvdb) [])))
key_repr junk_key = codes "junk"

-- The order of strings: code point by code point.
unfoldable pub text_le : List ℕ → List ℕ → Bool
text_le [] t = true
text_le (x ∷ xs) [] = false
text_le (x ∷ xs) (y ∷ ys) = if ltb x y then true else if x == y then text_le xs ys else false

pub text_le_refl : (s : List ℕ) → text_le s s ≡ true
unfolding text_le
text_le_refl [] = refl
text_le_refl (x ∷ xs) = ground (arith, text_le_refl xs)

pub text_le_total : (s t : List ℕ) → text_le s t ≡ false → text_le t s ≡ true
unfolding text_le
text_le_total [] t h = ground arith
text_le_total (x ∷ xs) [] h = refl
text_le_total (x ∷ xs) (y ∷ ys) h = ground (arith, text_le_total xs ys)

pub text_le_trans : (s t u : List ℕ) → text_le s t ≡ true → text_le t u ≡ true → text_le s u ≡ true
unfolding text_le
text_le_trans [] t u h k = refl
text_le_trans (x ∷ xs) [] u h k = ground arith
text_le_trans (x ∷ xs) (y ∷ ys) [] h k = ground arith
text_le_trans (x ∷ xs) (y ∷ ys) (z ∷ zs) h k = ground (arith, text_le_trans xs ys zs)

repr_test :
    key_repr (cross (record { tvdb = some 7; tmdb = none; imdb = some "tt1" }))
    ≡ codes "cross:imdb=tt1,tvdb=7"
unfolding key_repr
repr_test = refl

repr_ids : key_repr (episodes (9 ∷ 120 ∷ [])) ≡ codes "in_series:9,120"
unfolding key_repr
repr_ids = refl

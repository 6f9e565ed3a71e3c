-- ===== src/Scoring/KeyDict.antt =====
-- Dictionaries over candidate keys, in the order of insertion.
use impostarr.Prelude.{
  ◌≡◌, refl, inl, inr, Option, none, some, List, [], ◌∷◌, arith, if◌then◌else◌, Option-cases,
}
use impostarr.Scoring.Keys.{Key, key_eq, key_eq_iff}

abbrev pub Dict : Type 0 → Type 0
Dict V = List (Key × V)

module _ {V : Type 0} where
  unfoldable pub get : Key → Dict V → Option V
  get k [] = none
  get k ((j, v) ∷ d) = if key_eq j k then some v else get k d

  -- `d[k] = v`: a key that is there keeps its place.
  unfoldable pub put : Key → V → Dict V → Dict V
  put k v [] = (k, v) ∷ []
  put k v ((j, w) ∷ d) = if key_eq j k then (j, v) ∷ d else (j, w) ∷ put k v d

  -- `d.get(k, v)`
  abbrev pub get_or : Option V → V → V
  get_or none v = v
  get_or (some w) v = w

  -- `d.setdefault(k, v)`, for its effect.
  unfoldable pub set_default : Key → V → Dict V → Dict V
  unfolding get
  set_default k v d = elim (get k d) [ none ↦ put k v d | some _ ↦ d ]

  -- No key stands twice.
  abbrev pub IsDistinct : Dict V → Type 0
  IsDistinct [] = Unit
  IsDistinct ((k, v) ∷ d) = (get k d ≡ none) × IsDistinct d

  pub get-put :
      (k j : Key) (v : V) (d : Dict V)
      → get j (put k v d) ≡ (if key_eq k j then some v else get j d)
  unfolding get put
  get-put k j v [] = refl
  get-put k j v ((i, w) ∷ d) =
      ground (arith, key_eq_iff i k, key_eq_iff i j, key_eq_iff k j, get-put k j v d)

  pub get-set_default :
      (k j : Key) (v : V) (d : Dict V)
      → get j (set_default k v d) ≡ (if key_eq k j then some (get_or (get k d) v) else get j d)
  unfolding set_default
  get-set_default k j v d = elim (Option-cases (get k d)) [
    | inl e ↦ rw (e, set_default) (get-put k j v d)
    | inr (w, e) ↦ rw (e, set_default) (ground (arith, key_eq_iff k j))
  ]

  pub put-IsDistinct : (k : Key) (v : V) (d : Dict V) → IsDistinct d → IsDistinct (put k v d)
  unfolding get put
  put-IsDistinct k v [] h = (refl, tt)
  put-IsDistinct k v ((i, w) ∷ d) h =
      ground (arith, key_eq_iff i k, key_eq_iff k i, get-put k i v d, put-IsDistinct k v d)

  pub set_default-IsDistinct :
      (k : Key) (v : V) (d : Dict V) → IsDistinct d → IsDistinct (set_default k v d)
  unfolding set_default
  set_default-IsDistinct k v d h = elim (Option-cases (get k d)) [
    | inl e ↦ rw (e, set_default) (put-IsDistinct k v d h)
    | inr (w, e) ↦ rw (e, set_default) h
  ]

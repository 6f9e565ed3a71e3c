-- ===== src/Scoring/Entries.antt =====
-- Entries of a dictionary of scores, by membership and by lookup.
use impostarr.Prelude.{
  ◌≡◌, sym, ap, ◌∙◌, ◌⊎◌, inl, inr, true, false, some, [], ◌∷◌, arith, Bool-cases, filter,
}
use impostarr.Float.{Float}
use impostarr.Scoring.Keys.{Key, key_eq, key_eq_iff}
use impostarr.Scoring.KeyDict.{Dict, get, IsDistinct}
use impostarr.Scoring.{not_claimed}
use impostarr.Scoring.Alternate.{In}

true-false : true ≡ false → ⊥
true-false h = cc

module _ {F : Type 0} (o : Float F) where
  -- With distinct keys an entry of the list is what the key gives.
  pub In-get : (k : Key) (s : F) (d : Dict F) → IsDistinct d → In (k, s) d → get k d ≡ some s
  unfolding get
  In-get k s [] h m = absurd m
  In-get k s ((j, t) ∷ d) h (inl e) = ground (arith, key_eq_iff j k)
  In-get k s ((j, t) ∷ d) h (inr m) = ground (arith, In-get k s d h.1 m, key_eq_iff j k)

  pub get-In : (k : Key) (s : F) (d : Dict F) → get k d ≡ some s → In (k, s) d
  unfolding get
  get-In k s [] h = cc
  get-In k s ((j, t) ∷ d) h = ground (arith, get-In k s d, key_eq_iff j k)

  kept_In :
      (claimed k j : Key) (s t : F) (d : Dict F)
      → key_eq j claimed ≡ false
      → ◌≡◌ {A = Key × F} (k, s) (j, t) ⊎ In (k, s) (filter (not_claimed o claimed) d)
      → (In (k, s) (filter (not_claimed o claimed) d) → In (k, s) d × (key_eq k claimed ≡ false))
      → In (k, s) ((j, t) ∷ d) × (key_eq k claimed ≡ false)
  kept_In claimed k j s t d e (inl p) rest = let r : k ≡ j = ap (λ x. x.0) p in (inl p, rw r e)
  kept_In claimed k j s t d e (inr m) rest = (inr (rest m).0, (rest m).1)

  pub In-filter :
      (claimed k : Key) (s : F) (d : Dict F)
      → In (k, s) (filter (not_claimed o claimed) d)
      → In (k, s) d × (key_eq k claimed ≡ false)
  In-filter claimed k s [] m = absurd m
  In-filter claimed k s ((j, t) ∷ d) m = elim (Bool-cases (key_eq j claimed)) [
    | inl e ↦
        let skip : In (k, s) (filter (not_claimed o claimed) d) = rw e at m in
        let (m', n) = In-filter claimed k s d skip in (inr m', n)
    | inr e ↦ kept_In claimed k j s t d e (rw e at m) (λ m'. In-filter claimed k s d m')
  ]

  pub filter-In :
      (claimed k : Key) (s : F) (d : Dict F)
      → In (k, s) d
      → key_eq k claimed ≡ false
      → In (k, s) (filter (not_claimed o claimed) d)
  filter-In claimed k s [] m e = absurd m
  filter-In claimed k s ((j, t) ∷ d) m e = elim (Bool-cases (key_eq j claimed)) [
    | inl q ↦ rw q (elim m [
      | inl p ↦ let r : k ≡ j = cc in absurd (true-false (sym q ∙ rw r at e))
      | inr m' ↦ filter-In claimed k s d m' e
    ])
    | inr q ↦ rw q (elim m [ inl p ↦ inl p | inr m' ↦ inr (filter-In claimed k s d m' e) ])
  ]

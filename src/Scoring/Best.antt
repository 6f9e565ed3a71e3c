-- ===== src/Scoring/Best.antt =====
-- The best confidence of one plugin for a key, in `aggregate` of src/impostarr/scoring.py.
use impostarr.Prelude.{
  ◌≡◌, sym, ◌∙◌, ◌⊎◌, inl, inr, true, false, none, some, List, [], ◌∷◌, arith, Bool-cases, All,
}
use impostarr.Float.{Float, IsOrdered, max}
use impostarr.Candidates.{Candidate}
use impostarr.Normalize.{Normalized}
use impostarr.Scoring.Keys.{Key}
use impostarr.Scoring.Reports.{names_key, best_for}

yes_no : true ≡ false → ⊥
yes_no h = cc

module _ {F : Type 0} (o : Float F) (ord : IsOrdered o) (k : Key) where
  -- Some candidate for the key has this confidence.
  abbrev pub Attains : F → List (Candidate F × Normalized) → Type 0
  Attains c [] = ⊥
  Attains c ((cand, norm) ∷ rest) =
      ((names_key k norm ≡ true) × (cand.confidence ≡ c)) ⊎ Attains c rest

  -- No candidate for the key has a greater confidence.
  abbrev pub Bounds : F → List (Candidate F × Normalized) → Type 0
  Bounds c pairs = All (λ p. names_key k p.1 ≡ true → o.le p.0.confidence c ≡ true) pairs

  max_left : (a b : F) → o.le a (max o a b) ≡ true
  max_left a b = ground (arith, ord.refl_le a, ord.total b a)

  max_right : (a b : F) → o.le b (max o a b) ≡ true
  max_right a b = ground (arith, ord.refl_le b)

  max_same : (a : F) → max o a a ≡ a
  max_same a = ground arith

  best_above :
      (pairs : List (Candidate F × Normalized)) (b c : F)
      → best_for o k pairs (some b) ≡ some c
      → (o.le b c ≡ true) × Bounds c pairs
  unfolding best_for
  best_above [] b c e = let q : b ≡ c = cc in (rw (← q) (ord.refl_le b), tt)
  best_above ((cand, norm) ∷ rest) b c e = elim (Bool-cases (names_key k norm)) [
    | inl h ↦
        let (up, bounds) = best_above rest (max o b cand.confidence) c (rw h at e) in
        (
          ord.trans _ _ _ (max_left b cand.confidence) up,
          ((λ _. ord.trans _ _ _ (max_right b cand.confidence) up), bounds),
        )
    | inr h ↦
        let (up, bounds) = best_above rest b c (rw h at e) in
        (up, ((λ t. absurd (yes_no (sym t ∙ h))), bounds))
  ]

  max_choice : (a b : F) → (max o a b ≡ a) ⊎ (max o a b ≡ b)
  max_choice a b = ground arith

  best_attained :
      (pairs : List (Candidate F × Normalized)) (b c : F)
      → best_for o k pairs (some b) ≡ some c
      → (b ≡ c) ⊎ Attains c pairs
  unfolding best_for
  best_attained [] b c e = inl (cc)
  best_attained ((cand, norm) ∷ rest) b c e = elim (Bool-cases (names_key k norm)) [
    | inl h ↦ elim (best_attained rest (max o b cand.confidence) c (rw h at e)) [
      | inr m ↦ inr (inr m)
      | inl q ↦ elim (max_choice b cand.confidence) [
        | inl p ↦ inl (sym p ∙ q)
        | inr p ↦ inr (inl (h, sym p ∙ q))
      ]
    ]
    | inr h ↦ elim (best_attained rest b c (rw h at e)) [ inl q ↦ inl q | inr m ↦ inr (inr m) ]
  ]

  -- A plugin's report on a key is its greatest confidence among the candidates that are normalized
  -- to the key: one of them has it, and none has more.
  pub best_for-IsMax :
      (pairs : List (Candidate F × Normalized)) (c : F)
      → best_for o k pairs none ≡ some c
      → Bounds c pairs × Attains c pairs
  unfolding best_for
  best_for-IsMax [] c e = cc
  best_for-IsMax ((cand, norm) ∷ rest) c e = elim (Bool-cases (names_key k norm)) [
    | inl h ↦
        let e' : best_for o k rest (some cand.confidence) ≡ some c = rw max_same at (rw h at e) in
        let (up, bounds) = best_above rest cand.confidence c e' in
        (
          ((λ _. up), bounds),
          elim (best_attained rest cand.confidence c e') [ inl q ↦ inl (h, q) | inr m ↦ inr m ],
        )
    | inr h ↦
        let (bounds, there) = best_for-IsMax rest c (rw h at e) in
        (((λ t. absurd (yes_no (sym t ∙ h))), bounds), inr there)
  ]

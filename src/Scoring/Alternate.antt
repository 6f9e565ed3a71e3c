-- ===== src/Scoring/Alternate.antt =====
-- The alternate of `aggregate` in src/impostarr/scoring.py: the greatest score, and among equal
-- scores the least text.
use impostarr.Prelude.{
  ◌≡◌, refl, subst, ◌⊎◌, inl, inr, true, false, none, some, [], ◌∷◌, arith, Bool-cases,
}
use impostarr.Float.{Float, lt, IsOrdered}
use impostarr.Scoring.Keys.{Key, key_repr, text_le, text_le_refl, text_le_total, text_le_trans}
use impostarr.Scoring.KeyDict.{Dict}
use impostarr.Scoring.{insert_sorted, sort_by_repr, first_max, alternate}

module _ {F : Type 0} where
  -- The entry stands in the list.
  abbrev pub In : Key × F → Dict F → Type 0
  In e [] = ⊥
  In e (x ∷ d) = (e ≡ x) ⊎ In e d

  -- The text of `k` is not above any text of the list.
  abbrev Precedes : Key → Dict F → Type 0
  Precedes k d = (j : Key) (t : F) → In (j, t) d → text_le (key_repr k) (key_repr j) ≡ true

  abbrev IsSorted : Dict F → Type 0
  IsSorted [] = Unit
  IsSorted ((k, s) ∷ d) = Precedes k d × IsSorted d

module _ {F : Type 0} (o : Float F) where
  In-insert : (e x : Key × F) (d : Dict F) → In e (insert_sorted o x d) → (e ≡ x) ⊎ In e d
  unfolding insert_sorted
  In-insert e (k, s) [] h = h
  In-insert e (k, s) ((j, t) ∷ d) h = ground (arith, In-insert e (k, s) d)

  insert-In : (e x : Key × F) (d : Dict F) → (e ≡ x) ⊎ In e d → In e (insert_sorted o x d)
  unfolding insert_sorted
  insert-In e (k, s) [] h = h
  insert-In e (k, s) ((j, t) ∷ d) h = ground (arith, insert-In e (k, s) d)

  In-sort : (e : Key × F) (d : Dict F) → In e (sort_by_repr o d) → In e d
  unfolding sort_by_repr
  In-sort e [] h = h
  In-sort e (x ∷ d) h = ground (arith, In-insert e x (sort_by_repr o d), In-sort e d)

  sort-In : (e : Key × F) (d : Dict F) → In e d → In e (sort_by_repr o d)
  unfolding sort_by_repr
  sort-In e [] h = h
  sort-In e (x ∷ d) h = insert-In e x (sort_by_repr o d) (ground (arith, sort-In e d))

  Precedes-insert :
      (i k : Key) (s : F) (d : Dict F)
      → text_le (key_repr i) (key_repr k) ≡ true
      → Precedes i d
      → Precedes i (insert_sorted o (k, s) d)
  Precedes-insert i k s d h p j t m = elim (In-insert (j, t) (k, s) d m) [
    | inl e ↦ let q : j ≡ k = cc in rw q h
    | inr m' ↦ p j t m'
  ]

  insert-IsSorted :
      (k : Key) (s : F) (d : Dict F) → IsSorted d → IsSorted (insert_sorted o (k, s) d)
  unfolding insert_sorted
  insert-IsSorted k s [] h = ((λ j t m. absurd m), tt)
  insert-IsSorted k s ((j, t) ∷ d) h = elim (Bool-cases (text_le (key_repr k) (key_repr j))) [
    | inl e ↦
        rw (e, insert_sorted)
          (
            λ i u m. elim m [
              | inl q ↦ let r : i ≡ j = cc in rw r e
              | inr m' ↦ text_le_trans _ _ _ e (h.0 i u m')
            ],
            h,
          )
    | inr e ↦
        rw (e, insert_sorted)
          (Precedes-insert j k s d (text_le_total _ _ e) h.0, insert-IsSorted k s d h.1)
  ]

  sort-IsSorted : (d : Dict F) → IsSorted (sort_by_repr o d)
  unfolding sort_by_repr
  sort-IsSorted [] = tt
  sort-IsSorted ((k, s) ∷ d) = insert-IsSorted k s (sort_by_repr o d) (sort-IsSorted d)

  -- `e` has the greatest score of the list, and the least text among those of that score.
  pub record IsBest (e : Key × F) (d : Dict F) : Type 0 where
    pub in_list : In e d
    pub greatest : (j : Key) (t : F) → In (j, t) d → o.le t e.1 ≡ true
    pub least :
        (j : Key) (t : F)
        → In (j, t) d
        → o.le e.1 t ≡ true
        → text_le (key_repr e.0) (key_repr j) ≡ true

  module _ (ord : IsOrdered o) where
    keeps-IsBest :
        (k j : Key) (s t : F) (d : Dict F) (r : Key × F)
        → text_le (key_repr k) (key_repr j) ≡ true
        → lt o s t ≡ false
        → IsBest r ((k, s) ∷ d)
        → IsBest r ((k, s) ∷ (j, t) ∷ d)
    keeps-IsBest k j s t d r before e b =
        let le_s : o.le t s ≡ true = ground arith in
        record {
          in_list = ground (arith, b.in_list);
          greatest = λ i u m. elim m [
            | inl q ↦ b.greatest i u (inl q)
            | inr (inl q) ↦
                let p : u ≡ t = cc in rw p (ord.trans _ _ _ le_s (b.greatest k s (inl refl)))
            | inr (inr m') ↦ b.greatest i u (inr m')
          ];
          least = λ i u m h. elim m [
            | inl q ↦ b.least i u (inl q) h
            | inr (inl q) ↦
                let p : u ≡ t = cc in
                let p' : i ≡ j = cc in
                rw p' (
                  text_le_trans _ _ _ (b.least k s (inl refl) (ord.trans _ _ _ (rw p at h) le_s))
                    before)
            | inr (inr m') ↦ b.least i u (inr m') h
          ];
        }

    takes-IsBest :
        (k j : Key) (s t : F) (d : Dict F) (r : Key × F)
        → lt o s t ≡ true
        → IsBest r ((j, t) ∷ d)
        → IsBest r ((k, s) ∷ (j, t) ∷ d)
    takes-IsBest k j s t d r e b =
        let not_le : o.le t s ≡ false = ground arith in
        let le_t : o.le s t ≡ true = ord.total t s not_le in
        record {
          in_list = inr b.in_list;
          greatest = λ i u m. elim m [
            | inl q ↦ let p : u ≡ s = cc in rw p (ord.trans _ _ _ le_t (b.greatest j t (inl refl)))
            | inr m' ↦ b.greatest i u m'
          ];
          least = λ i u m h. elim m [
            | inl q ↦
                let p : u ≡ s = cc in
                let back : o.le t s ≡ true =
                  ord.trans _ _ _ (b.greatest j t (inl refl)) (rw p at h) in
                cc
            | inr m' ↦ b.least i u m' h
          ];
        }

    only-IsBest : (k : Key) (s : F) → IsBest (k, s) ((k, s) ∷ [])
    only-IsBest k s = record {
      in_list = inl refl;
      greatest = λ i u m. elim m [
        | inl q ↦ let p : u ≡ s = cc in rw p (ord.refl_le s)
        | inr m' ↦ absurd m'
      ];
      least = λ i u m h. elim m [
        | inl q ↦ let p : i ≡ k = cc in rw p (text_le_refl (key_repr k))
        | inr m' ↦ absurd m'
      ];
    }

    first_max-IsBest :
        (k : Key) (s : F) (d : Dict F)
        → IsSorted ((k, s) ∷ d)
        → IsBest (first_max o (k, s) d) ((k, s) ∷ d)
    unfolding first_max
    first_max-IsBest k s [] h = only-IsBest k s
    first_max-IsBest k s ((j, t) ∷ d) h = elim (Bool-cases (lt o s t)) [
      | inl e ↦ rw (e, first_max) (takes-IsBest k j s t d _ e (first_max-IsBest j t d h.1))
      | inr e ↦
          rw (e, first_max)
            (keeps-IsBest k j s t d _ (h.0 j t (inl refl)) e
              (first_max-IsBest k s d ((λ i u m. h.0 i u (inr m)), h.1.1)))
    ]

    IsBest-unsort : (d : Dict F) (e : Key × F) → IsBest e (sort_by_repr o d) → IsBest e d
    IsBest-unsort d e b = record {
      in_list = In-sort e d b.in_list;
      greatest = λ j t m. b.greatest j t (sort-In (j, t) d m);
      least = λ j t m h. b.least j t (sort-In (j, t) d m) h;
    }

    IsBest-of_sorted :
        (l : Dict F) (e : Key × F)
        → IsSorted l
        → (elim l [ [] ↦ none | x ∷ rest ↦ some (first_max o x rest) ]) ≡ some e
        → IsBest e l
    IsBest-of_sorted [] e s h = cc
    IsBest-of_sorted ((k, t) ∷ l) e s h =
        let q : first_max o (k, t) l ≡ e = cc in rw (← q) (first_max-IsBest k t l s)

    -- The alternate of a list of scores is its best entry.
    pub alternate-IsBest : (d : Dict F) (e : Key × F) → alternate o d ≡ some e → IsBest e d
    unfolding alternate
    alternate-IsBest d e h =
        IsBest-unsort d e (IsBest-of_sorted (sort_by_repr o d) e (sort-IsSorted d) h)

    some_of_sorted :
        (l : Dict F) → (elim l [ [] ↦ none | x ∷ rest ↦ some (first_max o x rest) ]) ≡ none → l ≡ []
    some_of_sorted [] h = refl
    some_of_sorted (x ∷ l) h = cc

    -- There is no alternate only if there is nothing to choose from.
    pub alternate-none : (d : Dict F) (e : Key × F) → alternate o d ≡ none → ¬ In e d
    unfolding alternate
    alternate-none d e h m = subst (In e) (some_of_sorted (sort_by_repr o d) h) (sort-In e d m)

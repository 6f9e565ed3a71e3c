-- ===== src/Pipeline/Duplicates.antt =====
-- `_check_duplicates` of src/impostarr/pipeline.py, with `hamming_similarity` of
-- src/impostarr/assets/extract.py. The distance of two perceptual hashes is a parameter, and so are
-- the floats that stand for integers. The warnings are left out.
use impostarr.Prelude.{
  ℕ, suc, String, ◌≡◌, refl, inl, inr, Bool, true, false, not, ◌&&◌, Option, none, some, List, [],
  ◌∷◌, ◌==◌, if◌then◌else◌, filter, Bool-cases, All, All-weaken, subst, ◌⊎◌,
}
use mathlib.Core.Option.{some-injective}
use impostarr.Float.{Float, IsOrdered, lt}
use impostarr.Pipeline.Assets.Frames.{seq_of}
use impostarr.Pipeline.Assets.Fanned.{FrameHashRow, FrameHashSeq}

-- What the verdict keeps of a duplicate, but for its path.
pub record Duplicate (F : Type 0) : Type 0 where
  pub duplicate_of_file_id : ℕ
  pub similarity : F

-- `imagehash`: the number of bits in which two hashes differ; and floats for integers.
pub record Hashing (F : Type 0) : Type 0 where
  pub distance : String → String → ℕ
  pub of_nat : ℕ → F

abbrev phash_bits : ℕ
phash_bits = 64

module _ {F : Type 0} (o : Float F) (h : Hashing F) where
  -- The loop over the frames that both have: the total so far, and the number of frames.
  unfoldable pub sum_similarity : List String → List String → F → ℕ → F × ℕ
  sum_similarity (a ∷ as1) (b ∷ bs) total n =
      sum_similarity as1 bs
        (o.add total (o.sub o.unit (o.div (h.of_nat (h.distance a b)) (h.of_nat phash_bits))))
        (suc n)
  sum_similarity _ _ total n = (total, n)

  unfoldable pub hamming_similarity : FrameHashSeq F → FrameHashSeq F → F
  unfolding sum_similarity
  hamming_similarity seq_a seq_b =
      let (total, n) = sum_similarity seq_a.hashes seq_b.hashes o.nought 0 in
      if n == 0 then o.nought else o.div total (h.of_nat n)

  -- `if best is None or similarity > best["similarity"]`
  abbrev pub better_match : F → Option (Duplicate F) → Bool
  better_match similarity none = true
  better_match similarity (some best) = lt o best.similarity similarity

  abbrev pub similarity_to : FrameHashSeq F → FrameHashRow F → F
  similarity_to seq other = hamming_similarity seq (seq_of other)

  abbrev pub match_of : FrameHashSeq F → FrameHashRow F → Duplicate F
  match_of seq other = record {
    duplicate_of_file_id = other.file_id;
    similarity = similarity_to seq other;
  }

  -- The best match after one more file.
  abbrev pub next_best :
      F → FrameHashSeq F → FrameHashRow F → Option (Duplicate F) → Option (Duplicate F)
  next_best threshold seq other best =
      if o.le threshold (similarity_to seq other) && better_match (similarity_to seq other) best
      then some (match_of seq other)
      else best

  -- The loop over the other files' hashes.
  unfoldable pub best_match :
      F → FrameHashSeq F → List (FrameHashRow F) → Option (Duplicate F) → Option (Duplicate F)
  unfolding hamming_similarity
  best_match threshold seq [] best = best
  best_match threshold seq (other ∷ others) best =
      best_match threshold seq others (next_best threshold seq other best)

  abbrev pub other_files : ℕ → List (FrameHashRow F) → List (FrameHashRow F)
  other_files file_id rows = filter (λ r. not (r.file_id == file_id)) rows

  -- `_check_duplicates`
  unfoldable pub check_duplicates :
      F → List (FrameHashRow F) → ℕ → FrameHashSeq F → Option (Duplicate F)
  unfolding best_match
  check_duplicates threshold rows file_id seq =
      best_match threshold seq (other_files file_id rows) none

module _ {F : Type 0} (o : Float F) (h : Hashing F) (ord : IsOrdered o) (threshold : F)
    (seq : FrameHashSeq F) where
  abbrev similar : FrameHashRow F → F
  similar = similarity_to o h seq

  -- There is a match at least as similar.
  abbrev Covers : F → Option (Duplicate F) → Type 0
  Covers x none = ⊥
  Covers x (some d) = o.le x d.similarity ≡ true

  next_best-Covers :
      (other : FrameHashRow F) (best : Option (Duplicate F)) (x : F)
      → Covers x best
      → Covers x (next_best o h threshold seq other best)
  next_best-Covers other none x c = absurd c
  next_best-Covers other (some b) x c = elim (Bool-cases (o.le threshold (similar other))) [
    | inl e ↦ elim (Bool-cases (o.le (similar other) b.similarity)) [
      | inl f ↦ rw (e, f) c
      | inr f ↦
          rw (e, f)
            (ord.trans x b.similarity (similar other) c (ord.total (similar other) b.similarity f))
    ]
    | inr e ↦ rw e c
  ]

  next_best-itself :
      (other : FrameHashRow F) (best : Option (Duplicate F))
      → o.le threshold (similar other) ≡ true
      → Covers (similar other) (next_best o h threshold seq other best)
  next_best-itself other none e = rw e (ord.refl_le (similar other))
  next_best-itself other (some b) e = elim (Bool-cases (o.le (similar other) b.similarity)) [
    | inl f ↦ rw (e, f) f
    | inr f ↦ rw (e, f) (ord.refl_le (similar other))
  ]

  best_match-Covers :
      (others : List (FrameHashRow F)) (best : Option (Duplicate F)) (x : F)
      → Covers x best
      → Covers x (best_match o h threshold seq others best)
  unfolding best_match
  best_match-Covers [] best x c = c
  best_match-Covers (other ∷ others) best x c =
      best_match-Covers others (next_best o h threshold seq other best) x
        (next_best-Covers other best x c)

  -- Every file that reaches the threshold is covered.
  best_match-All :
      (others : List (FrameHashRow F)) (best : Option (Duplicate F))
      → All
          (λ r.
            o.le threshold (similar r) ≡ true
            → Covers (similar r) (best_match o h threshold seq others best))
          others
  unfolding best_match
  best_match-All [] best = tt
  best_match-All (other ∷ others) best = (
    λ e.
        best_match-Covers others (next_best o h threshold seq other best) (similar other)
          (next_best-itself other best e),
    best_match-All others (next_best o h threshold seq other best),
  )

  -- The match is one of the files, and reaches the threshold.
  abbrev pub Matches : Duplicate F → List (FrameHashRow F) → Type 0
  Matches d [] = ⊥
  Matches d (r ∷ rs) =
      ((o.le threshold (similar r) ≡ true) × (match_of o h seq r ≡ d)) ⊎ Matches d rs

  next_best-origin :
      (other : FrameHashRow F) (best : Option (Duplicate F)) (d : Duplicate F)
      → next_best o h threshold seq other best ≡ some d
      → (best ≡ some d) ⊎ ((o.le threshold (similar other) ≡ true) × (match_of o h seq other ≡ d))
  next_best-origin other best d e = elim (Bool-cases (o.le threshold (similar other))) [
    | inl f ↦ elim (Bool-cases (better_match o h (similar other) best)) [
      | inl g ↦ inr (f, some-injective _ _ (rw (f, g) at e))
      | inr g ↦ inl (rw (f, g) at e)
    ]
    | inr f ↦ inl (rw f at e)
  ]

  best_match-origin :
      (others : List (FrameHashRow F)) (best : Option (Duplicate F)) (d : Duplicate F)
      → best_match o h threshold seq others best ≡ some d
      → (best ≡ some d) ⊎ Matches d others
  unfolding best_match
  best_match-origin [] best d e = inl e
  best_match-origin (other ∷ others) best d e =
      elim (best_match-origin others (next_best o h threshold seq other best) d e) [
        | inl f ↦ elim (next_best-origin other best d f) [ inl g ↦ inl g | inr g ↦ inr (inl g) ]
        | inr m ↦ inr (inr m)
      ]

  -- The duplicate that is reported, if any: none when every other file is below the threshold, and
  -- else one of the other files that reach it, such that none of them is more similar.
  pub data IsBestDuplicate (others : List (FrameHashRow F)) : Option (Duplicate F) → Type 0 where
    no_duplicate :
        All (λ r. o.le threshold (similar r) ≡ false) others → IsBestDuplicate others none
    duplicate :
        (d : Duplicate F)
        → Matches d others
        → All (λ r. o.le threshold (similar r) ≡ true → o.le (similar r) d.similarity ≡ true) others
        → IsBestDuplicate others (some d)

  uncovered : (b : Bool) → (b ≡ true → ⊥) → b ≡ false
  uncovered true f = absurd (f refl)
  uncovered false f = refl

  best_match-IsBest :
      (others : List (FrameHashRow F)) (best : Option (Duplicate F))
      → best_match o h threshold seq others none ≡ best
      → IsBestDuplicate others best
  best_match-IsBest others none e = no_duplicate (
      All-weaken _ _
        (λ r c. uncovered (o.le threshold (similar r)) (λ t. subst (Covers (similar r)) e (c t)))
        others (best_match-All others none))
  best_match-IsBest others (some d) e = elim (best_match-origin others none d e) [
    | inl f ↦ absurd cc
    | inr m ↦ duplicate d m (
        All-weaken _ _ (λ r c t. subst (Covers (similar r)) e (c t)) others
          (best_match-All others none))
  ]

  -- Of the other files whose frames are similar enough, `_check_duplicates` reports one that no other
  -- is more similar than, and it reports none only when there is no such file.
  pub check_duplicates-IsBest :
      (rows : List (FrameHashRow F)) (file_id : ℕ)
      → IsBestDuplicate
          (other_files o h file_id rows)
          (check_duplicates o h threshold rows file_id seq)
  unfolding check_duplicates
  check_duplicates-IsBest rows file_id = best_match-IsBest (other_files o h file_id rows) _ refl

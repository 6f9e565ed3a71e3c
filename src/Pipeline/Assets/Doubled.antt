-- ===== src/Pipeline/Assets/Doubled.antt =====
-- src/impostarr/pipeline.py: subtitles that are stored a second time under the same fingerprints.
-- The lookup by fingerprint does not expect it.
use impostarr.Prelude.{
  ℕ, ◌<◌, ◌+◌, String, ◌≡◌, refl, inl, inr, Bool, true, ◌&&◌, Option, none, some, List, [], ◌∷◌,
  arith, str_eq, str_eq_iff, ==_iff, if◌then◌else◌, filter, count, count-append,
  length-filter-count, Bool-cases, length, any,
}
use impostarr.Pipeline.Assets.{
  subs, is_type, ExtractedAsset, AssetRow, Extraction, extracted, raised, next_asset_id,
  one_or_none, has_fp, asset_row_by_fp, persist_asset_row,
}
use impostarr.Pipeline.Assets.Fanned.{
  SubFingerprint, rows_by_fp, persist_all, extract_subs, use_sub_lookups, stage_expected_subs,
  stage_subs, expected_sub_fingerprints, cons_lookup,
}

many : {A : Type 0} (xs : List A) → 1 < length xs → one_or_none xs ≡ none
many [] h = absurd (omega arith)
many (x ∷ []) h = absurd (omega arith)
many (x ∷ y ∷ ys) h = refl

cons_lookup-none : {A : Type 0} (x : Option (Option A)) → cons_lookup x none ≡ none
cons_lookup-none none = refl
cons_lookup-none (some x) = refl

module _ {F : Type 0} where
  -- A subtitle with the fingerprint.
  abbrev pub is_sub : String → ExtractedAsset F → Bool
  is_sub fp a = is_type a.type subs && str_eq a.input_fingerprint fp

  count-persist :
      (rows : List (AssetRow F)) (file_id : ℕ) (fp : String) (a : ExtractedAsset F)
      → count (has_fp file_id subs fp) (persist_asset_row rows file_id a)
        ≡ count (has_fp file_id subs fp) rows + (if is_sub fp a then 1 else 0)
  unfolding persist_asset_row
  count-persist rows file_id fp a =
      let row : AssetRow F = record { id = next_asset_id rows; file_id = file_id; asset = a } in
      ground (
        arith,
        count-append (has_fp file_id subs fp) rows (row ∷ []),
        (==_iff file_id file_id).1 refl,
      )

  count-persist_all :
      (rows : List (AssetRow F)) (file_id : ℕ) (fp : String) (assets : List (ExtractedAsset F))
      → count (has_fp file_id subs fp) (persist_all rows file_id assets)
        ≡ count (has_fp file_id subs fp) rows + count (is_sub fp) assets
  unfolding persist_all
  count-persist_all rows file_id fp [] = omega arith
  count-persist_all rows file_id fp (a ∷ rest) = ground (
    arith,
    count-persist rows file_id fp a,
    count-persist_all (persist_asset_row rows file_id a) file_id fp rest,
  )

  rows_by_fp-none :
      (rows : List (AssetRow F)) (file_id : ℕ) (fp : String) (fps : List String)
      → 1 < count (has_fp file_id subs fp) rows
      → any (λ t. str_eq t fp) fps ≡ true
      → rows_by_fp rows file_id subs fps ≡ none
  unfolding rows_by_fp
  rows_by_fp-none rows file_id fp [] h i = absurd cc
  rows_by_fp-none rows file_id fp (t ∷ ts) h i = elim (Bool-cases (str_eq t fp)) [
    | inl e ↦
        let two : 1 < length (filter (has_fp file_id subs fp) rows) =
          rw (length-filter-count (has_fp file_id subs fp) rows) h in
        rw ((str_eq_iff t fp).0 e, many (filter (has_fp file_id subs fp) rows) two) refl
    | inr e ↦
        rw (rows_by_fp-none rows file_id fp ts h (rw e at i))
          (cons_lookup-none (asset_row_by_fp rows file_id subs t))
  ]

  -- A file whose subtitles are in the table, and which loses its probe while they are extracted, has
  -- them stored again under the same fingerprints; after that, whenever it has its probe and expects
  -- one of these fingerprints, the stage raises, whatever an extraction would do, and leaves the table
  -- as it is.
  pub stage_subs-raises :
      (fingerprint : SubFingerprint) (rows : List (AssetRow F)) (file_id : ℕ) (fp : String)
      (assets : List (ExtractedAsset F)) (probe_asset : ExtractedAsset F)
      (later : Extraction (List (ExtractedAsset F))) (fps : List String)
      → 0 < count (has_fp file_id subs fp) rows
      → 0 < count (is_sub fp) assets
      → expected_sub_fingerprints fingerprint probe_asset.payload ≡ some fps
      → any (λ t. str_eq t fp) fps ≡ true
      → let rows' = (stage_subs fingerprint rows file_id none (extracted assets)).rows in
        stage_subs fingerprint rows' file_id (some probe_asset) later
        ≡ record { rows = rows'; result = raised }
  unfolding stage_subs
  stage_subs-raises fingerprint rows file_id fp assets probe_asset later [] h k e i = absurd cc
  stage_subs-raises fingerprint rows file_id fp assets probe_asset later (t ∷ ts) h k e i =
      let rows' = persist_all rows file_id assets in
      let two : 1 < count (has_fp file_id subs fp) rows' =
        omega (arith, count-persist_all rows file_id fp assets) in
      unfold extract_subs stage_expected_subs use_sub_lookups in
      rw e (rw (rows_by_fp-none rows' file_id fp (t ∷ ts) two i) refl)

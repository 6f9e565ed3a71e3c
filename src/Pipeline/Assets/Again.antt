-- ===== src/Pipeline/Assets/Again.antt =====
-- src/impostarr/pipeline.py: a stage that has stored its asset finds it again.
use text.Mathlib.TextPositions.{eq_refl}
use impostarr.Prelude.{
  ℕ, String, ◌≡◌, ◌≢◌, refl, inl, inr, true, ◌&&◌, Option, none, some, List, [], ◌∷◌, ◌++◌, arith,
  ◌==◌, ==_iff, filter-append, Bool-cases,
}
use impostarr.Float.{Float}
use impostarr.Pipeline.Assets.{
  AssetType, transcript, is_type, Payload, Segment, ExtractedAsset, AssetRow, Extraction, extracted,
  extract_error, crashed, got, next_asset_id, one_or_none, has_fp, asset_row_by_fp, latest_asset,
  later, persist_asset_row, persist_extracted, use_cached, stage_single, transcript_asset,
  transcribe_slice, transcribe_once, stage_slice, stage_transcript,
}

none_found : {A : Type 0} (xs : List A) → one_or_none xs ≡ some none → xs ≡ []
none_found [] e = refl
none_found (x ∷ []) e = absurd cc
none_found (x ∷ y ∷ ys) e = absurd cc

is_type_refl : (t : AssetType) → is_type t t ≡ true
is_type_refl t = ground arith

module _ {F : Type 0} where
  -- What an extraction gives is of the stage's type and has the fingerprint that the stage expects.
  abbrev pub IsExpected : AssetType → String → Extraction (ExtractedAsset F) → Type 0
  IsExpected type fp (extracted a) = (a.type ≡ type) × (a.input_fingerprint ≡ fp)
  IsExpected type fp _ = Unit

  asset_row_by_fp-persist :
      (rows : List (AssetRow F)) (file_id : ℕ) (type : AssetType) (fp : String)
      (a : ExtractedAsset F)
      → a.type ≡ type
      → a.input_fingerprint ≡ fp
      → asset_row_by_fp rows file_id type fp ≡ some none
      → (row : AssetRow F) × (asset_row_by_fp (persist_asset_row rows file_id a) file_id type fp
          ≡ some (some row))
        × (row.asset ≡ a)
  unfolding asset_row_by_fp persist_asset_row
  asset_row_by_fp-persist rows file_id type fp a t f e =
      let row : AssetRow F = record { id = next_asset_id rows; file_id = file_id; asset = a } in
      let own : has_fp file_id type fp row ≡ true =
        rw ((==_iff file_id file_id).1 refl, t, f, is_type_refl type, eq_refl fp) refl in
      (
        row,
        rw (filter-append (has_fp file_id type fp) rows (row ∷ []), none_found _ e) (rw own refl),
        refl,
      )

  use_cached-again :
      (type : AssetType) (rows : List (AssetRow F)) (file_id : ℕ) (fp : String)
      (e later : Extraction (ExtractedAsset F)) (a : ExtractedAsset F)
      (found : Option (Option (AssetRow F)))
      → IsExpected type fp e
      → asset_row_by_fp rows file_id type fp ≡ found
      → (use_cached rows file_id e found).result ≡ got a
      → let rows' = (use_cached rows file_id e found).rows in
        use_cached rows' file_id later (asset_row_by_fp rows' file_id type fp)
        ≡ record { rows = rows'; result = got a }
  unfolding use_cached
  use_cached-again type rows file_id fp e later a none x f h = absurd cc
  use_cached-again type rows file_id fp e later a (some (some row)) x f h = rw f (rw h refl)
  use_cached-again type rows file_id fp (extracted b) later a (some none) x f h =
      let (row, there, own) = asset_row_by_fp-persist rows file_id type fp b x.0 x.1 f in
      let same : b ≡ a = cc in rw there (rw (own, same) refl)
  use_cached-again type rows file_id fp extract_error later a (some none) x f h =
      absurd (unfold persist_extracted in cc)
  use_cached-again type rows file_id fp crashed later a (some none) x f h =
      absurd (unfold persist_extracted in cc)

  -- A stage that has given an asset, by an extraction with the fingerprint that it expects or from
  -- the table, gives the same asset when it comes again to the unchanged file, whatever an extraction
  -- would then do, and leaves the table as it is.
  pub stage_single-again :
      (type : AssetType) (rows : List (AssetRow F)) (file_id : ℕ) (fp : String)
      (extraction later : Extraction (ExtractedAsset F)) (a : ExtractedAsset F)
      → IsExpected type fp extraction
      → (stage_single type rows file_id (some fp) extraction).result ≡ got a
      → let rows' = (stage_single type rows file_id (some fp) extraction).rows in
        stage_single type rows' file_id (some fp) later ≡ record { rows = rows'; result = got a }
  unfolding stage_single
  stage_single-again type rows file_id fp extraction later a x h =
      use_cached-again type rows file_id fp extraction later a
        (asset_row_by_fp rows file_id type fp) x refl h

  latest_asset-add :
      (rows : List (AssetRow F)) (file_id : ℕ) (type : AssetType) (row : AssetRow F)
      → row.file_id ≡ file_id
      → row.asset.type ≡ type
      → latest_asset rows file_id type ≡ none
      → latest_asset (rows ++ row ∷ []) file_id type ≡ some row
  unfolding latest_asset
  latest_asset-add [] file_id type row i t e =
      rw ((==_iff row.file_id file_id).1 i, t, is_type_refl type) refl
  latest_asset-add (r ∷ rs) file_id type row i t e =
      elim (Bool-cases (r.file_id == file_id && is_type r.asset.type type)) [
        | inl f ↦ absurd (unfold latest_asset in ground (arith, f, e))
        | inr f ↦ rw f (latest_asset-add rs file_id type row i t (rw f at e))
      ]

module _ {F : Type 0} (o : Float F) where
  -- A transcript that has been made for a file is used from then on, whatever the audio slice and the
  -- transcriber.
  transcribe_once-again :
      (rows : List (AssetRow F)) (file_id : ℕ) (audio again : ExtractedAsset F)
      (answer later : Extraction (List (Segment F))) (p : Option (Payload F))
      (found : Option (AssetRow F))
      → latest_asset rows file_id transcript ≡ found
      → (transcribe_once o rows file_id audio answer found).result ≡ got p
      → let rows' = (transcribe_once o rows file_id audio answer found).rows in
        transcribe_once o rows' file_id again later (latest_asset rows' file_id transcript)
        ≡ record { rows = rows'; result = got p }
  unfolding transcribe_once
  transcribe_once-again rows file_id audio again answer later p (some row) f h = rw f (rw h refl)
  transcribe_once-again rows file_id audio again (extracted segments) later p none f h =
      let row : AssetRow F = record {
        id = next_asset_id rows;
        file_id = file_id;
        asset = transcript_asset o audio segments;
      } in
      let there : latest_asset (rows ++ row ∷ []) file_id transcript ≡ some row =
        latest_asset-add rows file_id transcript row refl (unfold transcript_asset in refl) f in
      unfold transcribe_slice persist_asset_row in rw there (rw h refl)
  transcribe_once-again rows file_id audio again extract_error later p none f h =
      absurd (unfold transcribe_slice in cc)
  transcribe_once-again rows file_id audio again crashed later p none f h =
      absurd (unfold transcribe_slice in cc)

  stage_slice-again :
      (rows : List (AssetRow F)) (file_id : ℕ) (audio again : ExtractedAsset F)
      (answer later : Extraction (List (Segment F))) (p : Option (Payload F))
      (path path' : Option String)
      → path' ≢ none
      → (stage_slice o rows file_id audio answer path).result ≡ got p
      → let rows' = (stage_slice o rows file_id audio answer path).rows in
        stage_slice o rows' file_id again later path' ≡ record { rows = rows'; result = got p }
  unfolding stage_slice
  stage_slice-again rows file_id audio again answer later p none path' n h = absurd cc
  stage_slice-again rows file_id audio again answer later p (some path) none n h = absurd (n refl)
  stage_slice-again rows file_id audio again answer later p (some path) (some path') n h =
      transcribe_once-again rows file_id audio again answer later p
        (latest_asset rows file_id transcript) refl h

  -- A file is transcribed once: when the stage has given a payload, it gives the same one again, for
  -- any audio slice that has a file and whatever the transcriber would then do, and leaves the table
  -- as it is.
  pub stage_transcript-again :
      (rows : List (AssetRow F)) (file_id : ℕ) (audio : Option (ExtractedAsset F))
      (again : ExtractedAsset F) (answer later : Extraction (List (Segment F)))
      (p : Option (Payload F))
      → again.path ≢ none
      → (stage_transcript o rows file_id audio answer).result ≡ got p
      → let rows' = (stage_transcript o rows file_id audio answer).rows in
        stage_transcript o rows' file_id (some again) later
        ≡ record { rows = rows'; result = got p }
  unfolding stage_transcript
  stage_transcript-again rows file_id none again answer later p n h = absurd cc
  stage_transcript-again rows file_id (some audio) again answer later p n h =
      stage_slice-again rows file_id audio again answer later p audio.path again.path n h

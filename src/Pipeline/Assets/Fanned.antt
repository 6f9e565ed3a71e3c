-- ===== src/Pipeline/Assets/Fanned.antt =====
-- The embedded subtitles of src/impostarr/pipeline.py, the stage that gives several assets, and what
-- it shares with the frames.
use impostarr.Prelude.{
  ℕ, ◌+◌, String, Bool, false, ◌||◌, Option, none, some, List, [], ◌∷◌, map, str_eq, if◌then◌else◌,
  filter, any,
}
use impostarr.Pipeline.Assets.{
  AssetType, subs, Stream, Payload, probed, transcribed, ExtractedAsset, AssetRow, Extraction,
  extracted, extract_error, crashed, Got, got, missing, raised, StageResult, asset_row_by_fp,
  persist_asset_row,
}

-- `TEXT_SUB_CODECS` and `IMAGE_SUB_CODECS` of src/impostarr/assets/extract.py
abbrev pub text_sub_codecs : List String
text_sub_codecs = "subrip" ∷ "ass" ∷ "mov_text" ∷ []

abbrev pub image_sub_codecs : List String
image_sub_codecs = "hdmv_pgs_subtitle" ∷ "dvd_subtitle" ∷ []

abbrev pub extractable : Option String → Bool
extractable none = false
extractable (some codec) = any (str_eq codec) text_sub_codecs || any (str_eq codec) image_sub_codecs

abbrev pub cons_fp : Option String → Option (List String) → Option (List String)
cons_fp (some fp) (some fps) = some (fp ∷ fps)
cons_fp _ _ = none

-- The fingerprint of a stream, from its number among the subtitles and its codec.
abbrev pub SubFingerprint : Type 0
SubFingerprint = ℕ → Option String → Option String

-- The loop over the subtitle streams, from the number `idx`.
unfoldable pub sub_fingerprints_from : SubFingerprint → ℕ → List Stream → Option (List String)
sub_fingerprints_from fp idx [] = some []
sub_fingerprints_from fp idx (s ∷ ss) =
    let rest = sub_fingerprints_from fp (idx + 1) ss in
    if extractable s.codec_name then cons_fp (fp idx s.codec_name) rest else rest

abbrev pub streams_of : {F : Type 0} → Option (Payload F) → List Stream
streams_of none = []
streams_of (some (probed streams duration)) = streams
streams_of (some (transcribed segments)) = []

-- `_expected_sub_fingerprints`; `none` when the file cannot be read.
unfoldable pub expected_sub_fingerprints :
    {F : Type 0} → SubFingerprint → Option (Payload F) → Option (List String)
unfolding sub_fingerprints_from
expected_sub_fingerprints fp payload =
    sub_fingerprints_from fp 0 (filter (λ s. s.is_subtitle) (streams_of payload))

abbrev pub cons_lookup :
    {A : Type 0} → Option (Option A) → Option (List (Option A)) → Option (List (Option A))
cons_lookup (some row) (some rows) = some (row ∷ rows)
cons_lookup _ _ = none

abbrev pub cons_found : {A : Type 0} → Option A → Option (List A) → Option (List A)
cons_found (some a) (some rest) = some (a ∷ rest)
cons_found _ _ = none

-- `all(r is not None for r in rows)`, with the rows.
abbrev pub all_found : {A : Type 0} → List (Option A) → Option (List A)
all_found [] = some []
all_found (r ∷ rs) = cons_found r (all_found rs)

-- `models.FrameHash`
pub record FrameHashRow (F : Type 0) : Type 0 where
  pub id : ℕ
  pub file_id : ℕ
  pub algo : String
  pub version : ℕ
  pub timestamps : List F
  pub hashes : List String

pub record FrameHashSeq (F : Type 0) : Type 0 where
  pub algo : String
  pub version : ℕ
  pub timestamps : List F
  pub hashes : List String

pub record FrameStage (F : Type 0) : Type 0 where
  pub rows : List (AssetRow F)
  pub hash_rows : List (FrameHashRow F)
  pub result : Got (FrameHashSeq F × FrameHashRow F)

-- The fingerprint of a frame, from its number and the duration of the file.
abbrev pub FrameFingerprint : Type 0 → Type 0
FrameFingerprint F = ℕ → F → Option String

module _ {F : Type 0} where
  -- `[_asset_row_by_fp(…) for fp in fps]`; `none` when a lookup raises.
  unfoldable pub rows_by_fp :
      List (AssetRow F) → ℕ → AssetType → List String → Option (List (Option (AssetRow F)))
  unfolding asset_row_by_fp
  rows_by_fp rows file_id type [] = some []
  rows_by_fp rows file_id type (fp ∷ fps) =
      cons_lookup (asset_row_by_fp rows file_id type fp) (rows_by_fp rows file_id type fps)

  unfoldable pub persist_all : List (AssetRow F) → ℕ → List (ExtractedAsset F) → List (AssetRow F)
  unfolding persist_asset_row
  persist_all rows file_id [] = rows
  persist_all rows file_id (a ∷ rest) = persist_all (persist_asset_row rows file_id a) file_id rest

  unfoldable pub extract_subs :
      List (AssetRow F)
      → ℕ
      → Extraction (List (ExtractedAsset F))
      → StageResult F (List (ExtractedAsset F))
  unfolding persist_all
  extract_subs rows file_id (extracted assets) = record {
    rows = persist_all rows file_id assets;
    result = got assets;
  }
  extract_subs rows file_id extract_error = record { rows = rows; result = missing }
  extract_subs rows file_id crashed = record { rows = rows; result = raised }

  unfoldable pub use_sub_rows :
      List (AssetRow F)
      → ℕ
      → Extraction (List (ExtractedAsset F))
      → Option (List (AssetRow F))
      → StageResult F (List (ExtractedAsset F))
  unfolding extract_subs
  use_sub_rows rows file_id extraction (some found) = record {
    rows = rows;
    result = got (map (λ r. r.asset) found);
  }
  use_sub_rows rows file_id extraction none = extract_subs rows file_id extraction

  unfoldable pub use_sub_lookups :
      List (AssetRow F)
      → ℕ
      → Extraction (List (ExtractedAsset F))
      → Option (List (Option (AssetRow F)))
      → StageResult F (List (ExtractedAsset F))
  unfolding use_sub_rows
  use_sub_lookups rows file_id extraction none = record { rows = rows; result = raised }
  use_sub_lookups rows file_id extraction (some lookups) =
      use_sub_rows rows file_id extraction (all_found lookups)

  -- With the fingerprints that are expected; there may be none to extract.
  unfoldable pub stage_expected_subs :
      List (AssetRow F)
      → ℕ
      → Extraction (List (ExtractedAsset F))
      → Option (List String)
      → StageResult F (List (ExtractedAsset F))
  unfolding use_sub_lookups extract_subs rows_by_fp
  stage_expected_subs rows file_id extraction none = extract_subs rows file_id extraction
  stage_expected_subs rows file_id extraction (some []) = record { rows = rows; result = got [] }
  stage_expected_subs rows file_id extraction (some (fp ∷ fps)) =
      use_sub_lookups rows file_id extraction (rows_by_fp rows file_id subs (fp ∷ fps))

  -- `_stage_subs`
  unfoldable pub stage_subs :
      SubFingerprint
      → List (AssetRow F)
      → ℕ
      → Option (ExtractedAsset F)
      → Extraction (List (ExtractedAsset F))
      → StageResult F (List (ExtractedAsset F))
  unfolding stage_expected_subs expected_sub_fingerprints
  stage_subs fp rows file_id none extraction = extract_subs rows file_id extraction
  stage_subs fp rows file_id (some probe_asset) extraction =
      stage_expected_subs rows file_id extraction (expected_sub_fingerprints fp probe_asset.payload)

-- ===== src/Pipeline/Assets.antt =====
-- The asset stages of src/impostarr/pipeline.py that give one asset: probe, audio and transcript,
-- with the tables of assets and of frame hashes. What ffmpeg and the transcriber answer is given
-- beforehand, and so is the fingerprint of the file, where `none` is the error that it cannot be
-- read. Of an asset's `tool_meta` the start of an audio slice is kept.
pub mod Frames
pub mod Fanned
pub mod Again
pub mod Doubled
mod Tests
use impostarr.Prelude.{
  ℕ, suc, ◌+◌, String, Bool, true, false, not, ◌&&◌, Option, none, some, List, [], ◌∷◌, ◌++◌, map,
  str_eq, ltb, leb, ◌==◌, if◌then◌else◌, filter,
}
use Prim.Native.Nat.{max}
use impostarr.Float.{Float}

-- `ASSET_TYPES`
pub data AssetType : Type 0 where
  probe audio subs frames transcript : AssetType

abbrev pub is_type : AssetType → AssetType → Bool
is_type probe probe = true
is_type audio audio = true
is_type subs subs = true
is_type frames frames = true
is_type transcript transcript = true
is_type _ _ = false

-- A stream of ffprobe's answer: whether its `codec_type` is "subtitle", and its `codec_name`.
pub record Stream : Type 0 where
  pub is_subtitle : Bool
  pub codec_name : Option String

pub record Segment (F : Type 0) : Type 0 where
  pub start : F
  pub finish : F
  pub text : String

-- The payload of a probe, its streams and its duration, or of a transcript.
pub data Payload (F : Type 0) : Type 0 where
  probed : List Stream → Option F → Payload F
  transcribed : List (Segment F) → Payload F

pub record ExtractedAsset (F : Type 0) : Type 0 where
  pub type : AssetType
  pub path : Option String
  pub payload : Option (Payload F)
  pub input_fingerprint : String
  pub offset_s : Option F
  pub start_s : Option F

-- `models.Asset`
pub record AssetRow (F : Type 0) : Type 0 where
  pub id : ℕ
  pub file_id : ℕ
  pub asset : ExtractedAsset F

-- What an extractor gives: a result, its own error, which is caught, or another exception.
pub data Extraction (A : Type 0) : Type 0 where
  extracted : A → Extraction A
  extract_error : Extraction A
  crashed : Extraction A

-- What a stage gives: a result, `None`, or an exception.
pub data Got (A : Type 0) : Type 0 where
  got : A → Got A
  missing : Got A
  raised : Got A

pub record StageResult (F A : Type 0) : Type 0 where
  pub rows : List (AssetRow F)
  pub result : Got A

-- The primary key of a new row.
unfoldable pub next_asset_id : {F : Type 0} → List (AssetRow F) → ℕ
next_asset_id [] = 1
next_asset_id (r ∷ rs) = max (suc r.id) (next_asset_id rs)

-- `scalar_one_or_none`; the outer `none` is its error at more than one row.
abbrev pub one_or_none : {A : Type 0} → List A → Option (Option A)
one_or_none [] = some none
one_or_none (x ∷ []) = some (some x)
one_or_none (x ∷ y ∷ ys) = none

module _ {F : Type 0} where
  abbrev pub has_fp : ℕ → AssetType → String → AssetRow F → Bool
  has_fp file_id type fp r =
      r.file_id == file_id && is_type r.asset.type type && str_eq r.asset.input_fingerprint fp

  -- `_asset_row_by_fp`
  unfoldable pub asset_row_by_fp :
      List (AssetRow F) → ℕ → AssetType → String → Option (Option (AssetRow F))
  asset_row_by_fp rows file_id type fp = one_or_none (filter (has_fp file_id type fp) rows)

  abbrev pub later : AssetRow F → Option (AssetRow F) → AssetRow F
  later r none = r
  later r (some q) = if ltb r.id q.id then q else r

  -- `_latest_asset`
  unfoldable pub latest_asset : List (AssetRow F) → ℕ → AssetType → Option (AssetRow F)
  latest_asset [] file_id type = none
  latest_asset (r ∷ rs) file_id type =
      let rest = latest_asset rs file_id type in
      if r.file_id == file_id && is_type r.asset.type type then some (later r rest) else rest

  -- `_persist_asset_row`
  unfoldable pub persist_asset_row : List (AssetRow F) → ℕ → ExtractedAsset F → List (AssetRow F)
  unfolding next_asset_id
  persist_asset_row rows file_id asset =
      rows ++ record { id = next_asset_id rows; file_id = file_id; asset = asset } ∷ []

  unfoldable pub persist_extracted :
      List (AssetRow F) → ℕ → Extraction (ExtractedAsset F) → StageResult F (ExtractedAsset F)
  unfolding persist_asset_row
  persist_extracted rows file_id (extracted asset) = record {
    rows = persist_asset_row rows file_id asset;
    result = got asset;
  }
  persist_extracted rows file_id extract_error = record { rows = rows; result = missing }
  persist_extracted rows file_id crashed = record { rows = rows; result = raised }

  -- A row of the table is used in place of an extraction.
  unfoldable pub use_cached :
      List (AssetRow F)
      → ℕ
      → Extraction (ExtractedAsset F)
      → Option (Option (AssetRow F))
      → StageResult F (ExtractedAsset F)
  unfolding persist_extracted
  use_cached rows file_id extraction none = record { rows = rows; result = raised }
  use_cached rows file_id extraction (some (some row)) = record {
    rows = rows;
    result = got row.asset;
  }
  use_cached rows file_id extraction (some none) = persist_extracted rows file_id extraction

  unfoldable pub stage_single :
      AssetType
      → List (AssetRow F)
      → ℕ
      → Option String
      → Extraction (ExtractedAsset F)
      → StageResult F (ExtractedAsset F)
  unfolding use_cached asset_row_by_fp
  stage_single type rows file_id none extraction = record { rows = rows; result = missing }
  stage_single type rows file_id (some fp) extraction =
      use_cached rows file_id extraction (asset_row_by_fp rows file_id type fp)

  -- `_stage_probe`
  unfoldable pub stage_probe :
      List (AssetRow F)
      → ℕ
      → Option String
      → Extraction (ExtractedAsset F)
      → StageResult F (ExtractedAsset F)
  unfolding stage_single
  stage_probe = stage_single probe

  -- `_stage_audio`
  unfoldable pub stage_audio :
      List (AssetRow F)
      → ℕ
      → Option String
      → Extraction (ExtractedAsset F)
      → StageResult F (ExtractedAsset F)
  unfolding stage_single
  stage_audio = stage_single audio

module _ {F : Type 0} (o : Float F) where
  -- Where the audio slice begins in the file.
  abbrev pub slice_offset : ExtractedAsset F → F
  slice_offset audio_asset = elim audio_asset.offset_s [
    | some offset ↦ offset
    | none ↦ elim audio_asset.start_s [ some start ↦ start | none ↦ o.nought ]
  ]

  abbrev pub is_zero : F → Bool
  is_zero x = o.le x o.nought && o.le o.nought x

  abbrev pub shift_segment : F → Segment F → Segment F
  shift_segment offset s = record s { start = o.add s.start offset; finish = o.add s.finish offset }

  -- From the times of the slice to the times of the file.
  unfoldable pub to_absolute : F → List (Segment F) → List (Segment F)
  to_absolute offset segments =
      if is_zero offset then segments else map (shift_segment offset) segments

  unfoldable pub transcript_asset : ExtractedAsset F → List (Segment F) → ExtractedAsset F
  unfolding to_absolute
  transcript_asset audio_asset segments = record {
    type = transcript;
    path = none;
    payload = some (transcribed (to_absolute (slice_offset audio_asset) segments));
    input_fingerprint = audio_asset.input_fingerprint;
    offset_s = some (slice_offset audio_asset);
    start_s = none;
  }

  unfoldable pub transcribe_slice :
      List (AssetRow F)
      → ℕ
      → ExtractedAsset F
      → Extraction (List (Segment F))
      → StageResult F (Option (Payload F))
  unfolding transcript_asset persist_asset_row
  transcribe_slice rows file_id audio_asset (extracted segments) =
      let asset = transcript_asset audio_asset segments in
      record { rows = persist_asset_row rows file_id asset; result = got asset.payload }
  transcribe_slice rows file_id audio_asset extract_error = record { rows = rows; result = missing }
  transcribe_slice rows file_id audio_asset crashed = record { rows = rows; result = raised }

  unfoldable pub transcribe_once :
      List (AssetRow F)
      → ℕ
      → ExtractedAsset F
      → Extraction (List (Segment F))
      → Option (AssetRow F)
      → StageResult F (Option (Payload F))
  unfolding transcribe_slice
  transcribe_once rows file_id audio_asset answer (some row) = record {
    rows = rows;
    result = got row.asset.payload;
  }
  transcribe_once rows file_id audio_asset answer none =
      transcribe_slice rows file_id audio_asset answer

  -- The slice must be there, as a file.
  unfoldable pub stage_slice :
      List (AssetRow F)
      → ℕ
      → ExtractedAsset F
      → Extraction (List (Segment F))
      → Option String
      → StageResult F (Option (Payload F))
  unfolding transcribe_once latest_asset
  stage_slice rows file_id audio_asset answer none = record { rows = rows; result = missing }
  stage_slice rows file_id audio_asset answer (some path) =
      transcribe_once rows file_id audio_asset answer (latest_asset rows file_id transcript)

  -- `_stage_transcript`
  unfoldable pub stage_transcript :
      List (AssetRow F)
      → ℕ
      → Option (ExtractedAsset F)
      → Extraction (List (Segment F))
      → StageResult F (Option (Payload F))
  unfolding stage_slice
  stage_transcript rows file_id none answer = record { rows = rows; result = missing }
  stage_transcript rows file_id (some audio_asset) answer =
      stage_slice rows file_id audio_asset answer audio_asset.path

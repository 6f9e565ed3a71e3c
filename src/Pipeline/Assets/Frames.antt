-- ===== src/Pipeline/Assets/Frames.antt =====
-- `_stage_frames` of src/impostarr/pipeline.py: the fingerprints of frames, and the table of hashes.
use impostarr.Prelude.{
  ℕ, zero, suc, ◌+◌, String, Bool, true, false, Option, none, some, List, [], ◌∷◌, ◌++◌, ltb, ◌==◌,
  if◌then◌else◌,
}
use Prim.Native.Nat.{max}
use impostarr.Pipeline.Assets.{
  frames, Payload, probed, ExtractedAsset, AssetRow, Extraction, extracted, extract_error, crashed,
  got, missing, raised,
}
use impostarr.Pipeline.Assets.Fanned.{
  cons_fp, all_found, FrameHashRow, FrameHashSeq, FrameStage, FrameFingerprint, rows_by_fp,
  persist_all,
}

module _ {F : Type 0} where
  -- The loop over `range(n)`, from the number `i`, with `n` frames to go.
  unfoldable pub frame_fingerprints_from : FrameFingerprint F → F → ℕ → ℕ → Option (List String)
  frame_fingerprints_from fp total i zero = some []
  frame_fingerprints_from fp total i (suc n) =
      cons_fp (fp i total) (frame_fingerprints_from fp total (i + 1) n)

  abbrev pub duration_of : Option (Payload F) → Option F
  duration_of (some (probed streams duration)) = duration
  duration_of _ = none

  -- `_expected_frame_fingerprints`; `none` when there is no duration, or the file cannot be read.
  unfoldable pub expected_frame_fingerprints :
      FrameFingerprint F → Option (Payload F) → ℕ → Option (List String)
  unfolding frame_fingerprints_from
  expected_frame_fingerprints fp payload n = elim (duration_of payload) [
    | none ↦ none
    | some total ↦ frame_fingerprints_from fp total 0 n
  ]

  unfoldable pub next_hash_id : List (FrameHashRow F) → ℕ
  next_hash_id [] = 1
  next_hash_id (r ∷ rs) = max (suc r.id) (next_hash_id rs)

  abbrev pub later_hash : FrameHashRow F → Option (FrameHashRow F) → FrameHashRow F
  later_hash r none = r
  later_hash r (some q) = if ltb r.id q.id then q else r

  -- `_latest_frame_hash`
  unfoldable pub latest_frame_hash : List (FrameHashRow F) → ℕ → Option (FrameHashRow F)
  latest_frame_hash [] file_id = none
  latest_frame_hash (r ∷ rs) file_id =
      let rest = latest_frame_hash rs file_id in
      if r.file_id == file_id then some (later_hash r rest) else rest

  abbrev pub seq_of : FrameHashRow F → FrameHashSeq F
  seq_of r = record {
    algo = r.algo;
    version = r.version;
    timestamps = r.timestamps;
    hashes = r.hashes;
  }

  abbrev pub hash_row : ℕ → ℕ → FrameHashSeq F → FrameHashRow F
  hash_row id file_id seq = record {
    id = id;
    file_id = file_id;
    algo = seq.algo;
    version = seq.version;
    timestamps = seq.timestamps;
    hashes = seq.hashes;
  }

  -- A hash row that is there is kept, and a new one is stored only when there is none.
  unfoldable pub extract_frames :
      List (AssetRow F)
      → List (FrameHashRow F)
      → ℕ
      → Extraction (FrameHashSeq F × List (ExtractedAsset F))
      → Option (FrameHashRow F)
      → FrameStage F
  unfolding persist_all next_hash_id
  extract_frames rows hash_rows file_id (extracted (seq, assets)) (some existing) = record {
    rows = persist_all rows file_id assets;
    hash_rows = hash_rows;
    result = got (seq, existing);
  }
  extract_frames rows hash_rows file_id (extracted (seq, assets)) none =
      let row = hash_row (next_hash_id hash_rows) file_id seq in
      record {
        rows = persist_all rows file_id assets;
        hash_rows = hash_rows ++ row ∷ [];
        result = got (seq, row);
      }
  extract_frames rows hash_rows file_id extract_error existing = record {
    rows = rows;
    hash_rows = hash_rows;
    result = missing;
  }
  extract_frames rows hash_rows file_id crashed existing = record {
    rows = rows;
    hash_rows = hash_rows;
    result = raised;
  }

  -- Whether every lookup has found a row, and there is one.
  abbrev pub all_rows : List (Option (AssetRow F)) → Bool
  all_rows [] = false
  all_rows (r ∷ rs) = elim (all_found (r ∷ rs)) [ none ↦ false | some _ ↦ true ]

  unfoldable pub use_frame_lookups :
      List (AssetRow F)
      → List (FrameHashRow F)
      → ℕ
      → Extraction (FrameHashSeq F × List (ExtractedAsset F))
      → FrameHashRow F
      → Option (List (Option (AssetRow F)))
      → FrameStage F
  unfolding extract_frames
  use_frame_lookups rows hash_rows file_id extraction existing none = record {
    rows = rows;
    hash_rows = hash_rows;
    result = raised;
  }
  use_frame_lookups rows hash_rows file_id extraction existing (some lookups) =
      if all_rows lookups
      then record { rows = rows; hash_rows = hash_rows; result = got (seq_of existing, existing) }
      else extract_frames rows hash_rows file_id extraction (some existing)

  unfoldable pub stage_expected_frames :
      List (AssetRow F)
      → List (FrameHashRow F)
      → ℕ
      → Extraction (FrameHashSeq F × List (ExtractedAsset F))
      → FrameHashRow F
      → Option (List String)
      → FrameStage F
  unfolding use_frame_lookups rows_by_fp
  stage_expected_frames rows hash_rows file_id extraction existing none =
      extract_frames rows hash_rows file_id extraction (some existing)
  stage_expected_frames rows hash_rows file_id extraction existing (some fps) =
      use_frame_lookups rows hash_rows file_id extraction existing
        (rows_by_fp rows file_id frames fps)

  unfoldable pub stage_hashed_frames :
      FrameFingerprint F
      → ℕ
      → List (AssetRow F)
      → List (FrameHashRow F)
      → ℕ
      → Option (ExtractedAsset F)
      → Extraction (FrameHashSeq F × List (ExtractedAsset F))
      → Option (FrameHashRow F)
      → FrameStage F
  unfolding stage_expected_frames expected_frame_fingerprints
  stage_hashed_frames fp n rows hash_rows file_id (some probe_asset) extraction (some existing) =
      stage_expected_frames rows hash_rows file_id extraction existing
        (expected_frame_fingerprints fp probe_asset.payload n)
  stage_hashed_frames fp n rows hash_rows file_id _ extraction existing =
      extract_frames rows hash_rows file_id extraction existing

  -- `_stage_frames`, for `n` frames.
  unfoldable pub stage_frames :
      FrameFingerprint F
      → ℕ
      → List (AssetRow F)
      → List (FrameHashRow F)
      → ℕ
      → Option (ExtractedAsset F)
      → Extraction (FrameHashSeq F × List (ExtractedAsset F))
      → FrameStage F
  unfolding stage_hashed_frames latest_frame_hash
  stage_frames fp n rows hash_rows file_id probe_asset extraction =
      stage_hashed_frames fp n rows hash_rows file_id probe_asset extraction
        (latest_frame_hash hash_rows file_id)

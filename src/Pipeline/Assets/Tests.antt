-- ===== src/Pipeline/Assets/Tests.antt =====
-- The asset stages on one file.
use impostarr.Prelude.{ℕ, String, ◌≡◌, refl, Option, none, some, List, [], ◌∷◌, arith, true}
use impostarr.Float.{milli}
use impostarr.Pipeline.Assets.{
  AssetType, probe, audio, subs, Stream, Segment, Payload, probed, transcribed, ExtractedAsset,
  AssetRow, extracted, crashed, got, raised, stage_single, use_cached, persist_extracted,
  asset_row_by_fp, stage_transcript, stage_slice, transcribe_once, transcribe_slice,
  transcript_asset, to_absolute, latest_asset,
}
use impostarr.Pipeline.Assets.Fanned.{SubFingerprint, stage_subs, expected_sub_fingerprints}
use impostarr.Pipeline.Assets.Again.{stage_single-again}
use impostarr.Pipeline.Assets.Doubled.{stage_subs-raises}

abbrev asset : AssetType → String → Option (Payload ℕ) → ExtractedAsset ℕ
asset type fp payload = record {
  type = type;
  path = some "file";
  payload = payload;
  input_fingerprint = fp;
  offset_s = some 60000;
  start_s = none;
}

abbrev slice : ExtractedAsset ℕ
slice = asset audio "fa" none

abbrev english : Stream
english = record { is_subtitle = true; codec_name = some "subrip" }

abbrev probe_asset : ExtractedAsset ℕ
probe_asset = asset probe "fp" (some (probed (english ∷ []) none))

abbrev sub_fp : SubFingerprint
sub_fp idx codec = some "fs"

abbrev line : Segment ℕ
line = record { start = 1000; finish = 2000; text = "hello" }

absolute :
    (stage_transcript milli [] 1 (some slice) (extracted (line ∷ []))).result
    ≡ got (some (transcribed (record { start = 61000; finish = 62000; text = "hello" } ∷ [])))
unfolding stage_transcript stage_slice transcribe_once transcribe_slice transcript_asset to_absolute
    latest_asset
absolute = refl

stage_single-again_example :
    let rows = (stage_single audio [] 1 (some "fa") (extracted slice)).rows in
    stage_single audio rows 1 (some "fa") crashed ≡ record { rows = rows; result = got slice }
unfolding stage_single use_cached persist_extracted asset_row_by_fp
stage_single-again_example =
    stage_single-again audio [] 1 "fa" (extracted slice) crashed slice (refl, refl) refl

abbrev stored : List (AssetRow ℕ)
stored = record { id = 1; file_id = 1; asset = asset subs "fs" none } ∷ []

stage_subs-raises_example :
    let rows = (stage_subs sub_fp stored 1 none (extracted (asset subs "fs" none ∷ []))).rows in
    stage_subs sub_fp rows 1 (some probe_asset) crashed ≡ record { rows = rows; result = raised }
unfolding expected_sub_fingerprints
stage_subs-raises_example =
    stage_subs-raises sub_fp stored 1 "fs" (asset subs "fs" none ∷ []) probe_asset crashed
      ("fs" ∷ []) (omega arith) (omega arith) refl refl

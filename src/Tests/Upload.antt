-- ===== src/Tests/Upload.antt =====
-- An image that is uploaded in two chunks.
use uptiny.Base.{◌≡◌, refl, false, [], ◌∷◌}
use uptiny.Firmware.{uptane_verify_firmware_init}
use uptiny.Firmware.Laws.{feed_pieces, in_force}
use uptiny.Demo.Upload.{UploadState, finish_upload}
use uptiny.Demo.Upload.Whole.{send_chunks, uploaded, send_chunks-finish_upload}
use uptiny.Tests.Metadata.{zeros}
use uptiny.Tests.Firmware.{toy_hash, one_target, at_rest, initialised}

abbrev ready : UploadState toy_hash
ready = record {
  fw = in_force toy_hash one_target at_rest;
  upload_in_progress = false;
  upload_seqn = 0;
}

send_chunks-finish_upload_example :
    send_chunks toy_hash zeros 2 0 ((1 ∷ []) ∷ (2 ∷ 3 ∷ []) ∷ []) ready
    ≡ uploaded toy_hash zeros 2 (
        finish_upload toy_hash zeros (
          feed_pieces toy_hash
            ((1 ∷ []) ∷ (2 ∷ 3 ∷ []) ∷ [])
            (uptane_verify_firmware_init toy_hash ready.fw).1))
send_chunks-finish_upload_example =
    send_chunks-finish_upload toy_hash zeros (1 ∷ []) ((2 ∷ 3 ∷ []) ∷ []) ready refl initialised

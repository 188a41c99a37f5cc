-- ===== src/Demo/Upload.antt =====
-- libuptiny-demo/main.c: the firmware image that a primary uploads in numbered chunks.
pub mod Whole
use uptiny.Base.{
  ℕ, zero, suc, ◌+◌, Bool, true, false, not, ltb, ◌==◌, if◌then◌else◌, Option, none, some, List, [],
  ◌∷◌, Buffer,
}
use uptiny.Firmware.{
  HashApi, FirmwareState, uptane_verify_firmware_init, uptane_verify_firmware_feed,
  uptane_verify_firmware_finalize, uptane_firmware_confirm,
}

-- The variables `upload_in_progress` and `upload_seqn`, with the state of the firmware check.
pub record UploadState (api : HashApi) : Type 0 where
  pub fw : FirmwareState api
  pub upload_in_progress : Bool
  pub upload_seqn : ℕ

-- What a local of `uptane_firmware_confirm` holds is `name`.
module _ (api : HashApi) (name : Buffer) where
  -- The first chunk begins the check.
  pub begin_upload : UploadState api → Bool × UploadState api
  begin_upload st =
      let (ok, fw) = uptane_verify_firmware_init api st.fw in
      if st.upload_in_progress
      then (true, st)
      else if ok
      then (true, record { fw = fw; upload_in_progress = true; upload_seqn = 0 })
      else (false, record st { fw = fw })

  -- Behind the last chunk: the check, and the confirmation. `none` where a function reads through NULL.
  pub finish_upload : FirmwareState api → Option (FirmwareState api)
  finish_upload fw = elim (uptane_verify_firmware_finalize api fw) [
    | none ↦ none
    | some ok ↦ elim ok [ true ↦ uptane_firmware_confirm api name fw | false ↦ some fw ]
  ]

  -- A chunk with its total number and its sequence number, each a byte, where the upload has begun or
  -- not; the result has the second byte of the answer.
  pub on_chunk : ℕ → ℕ → List ℕ → Bool × UploadState api → Option (ℕ × UploadState api)
  on_chunk total seq bytes (ok, st') =
      let fw = uptane_verify_firmware_feed api bytes st'.fw in
      if not ok
      then some (0xFE, st')
      else if not (seq == st'.upload_seqn + 1)
      then some (0xFE, record st' { upload_in_progress = false })
      else if not (total == seq)
      then some (0x00, record st' { fw = fw; upload_seqn = st'.upload_seqn + 1 })
      else (elim (finish_upload fw) [
        | none ↦ none
        | some fw' ↦ some (
          0x00,
          record { fw = fw'; upload_in_progress = false; upload_seqn = st'.upload_seqn + 1 },
        )
      ])

  -- The message UPTANE_PUT_IMAGE_CHUNK, as the list of its bytes; a char is unsigned, as on the boards.
  pub put_image_chunk : List ℕ → UploadState api → Option (ℕ × UploadState api)
  put_image_chunk [] st = some (0xFE, record st { upload_in_progress = false })
  put_image_chunk (t ∷ []) st = some (0xFE, record st { upload_in_progress = false })
  put_image_chunk (t ∷ total ∷ []) st = some (0xFE, record st { upload_in_progress = false })
  put_image_chunk (t ∷ total ∷ seq ∷ bytes) st =
      if ltb total seq
      then some (0xFE, record st { upload_in_progress = false })
      else on_chunk total seq bytes (begin_upload st)

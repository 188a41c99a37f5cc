-- ===== src/Demo/Upload/Whole.antt =====
-- A whole upload against the firmware check alone.
use uptiny.Base.{
  ℕ, ◌+◌, ◌<◌, ◌≡◌, refl, ◌∙◌, true, false, ltb, ◌==◌, Option, none, some, List, [], ◌∷◌, Buffer,
  length, arith, Option-cases, inl, inr,
}
use uptiny.Firmware.{
  HashApi, FirmwareState, uptane_verify_firmware_init, uptane_verify_firmware_feed,
}
use uptiny.Firmware.Laws.{feed_pieces}
use uptiny.Demo.Upload.{UploadState, begin_upload, finish_upload, on_chunk, put_image_chunk}

module _ (api : HashApi) (name : Buffer) where
  -- The chunks of an image in order, `total` of them, behind the first `k`.
  pub send_chunks : ℕ → ℕ → List (List ℕ) → UploadState api → Option (UploadState api)
  send_chunks total k [] st = some st
  send_chunks total k (bytes ∷ pieces) st =
      elim (put_image_chunk api name (0x08 ∷ total ∷ (k + 1) ∷ bytes) st) [
        | none ↦ none
        | some r ↦ send_chunks total (k + 1) pieces r.1
      ]

  -- The state behind an upload of `total` chunks.
  abbrev pub uploaded : ℕ → Option (FirmwareState api) → Option (UploadState api)
  uploaded total none = none
  uploaded total (some fw) =
      some (record { fw = fw; upload_in_progress = false; upload_seqn = total })

  abbrev uploading : FirmwareState api → ℕ → UploadState api
  uploading fw k = record { fw = fw; upload_in_progress = true; upload_seqn = k }

  last_chunk :
      (k : ℕ) (bytes : List ℕ) (fw : FirmwareState api)
      → send_chunks (k + 1) k (bytes ∷ []) (uploading fw k)
        ≡ uploaded (k + 1) (finish_upload api name (uptane_verify_firmware_feed api bytes fw))
  unfolding send_chunks put_image_chunk on_chunk begin_upload
  last_chunk k bytes fw =
      let fed = uptane_verify_firmware_feed api bytes fw in
      let room : ltb (k + 1) (k + 1) ≡ false = ground arith in
      let same : (k + 1 == k + 1) ≡ true = ground arith in
      elim (Option-cases (finish_upload api name fed)) [
        | inl missing ↦ rw (send_chunks, put_image_chunk, room, on_chunk, same, missing) refl
        | inr (fw', done) ↦ rw (send_chunks, put_image_chunk, room, on_chunk, same, done) refl
      ]

  inner_chunk :
      (total k : ℕ) (bytes : List ℕ) (pieces : List (List ℕ)) (fw : FirmwareState api)
      → k + 1 < total
      → send_chunks total k (bytes ∷ pieces) (uploading fw k)
        ≡ send_chunks total
            (k + 1)
            pieces
            (uploading (uptane_verify_firmware_feed api bytes fw) (k + 1))
  unfolding send_chunks put_image_chunk on_chunk begin_upload
  inner_chunk total k bytes pieces fw lt =
      let room : ltb total (k + 1) ≡ false = ground arith in
      let same : (k + 1 == k + 1) ≡ true = ground arith in
      let more : (total == k + 1) ≡ false = ground arith in
      rw (send_chunks, put_image_chunk, room, on_chunk, same, more) refl

  chunks_from :
      (total k : ℕ) (bytes : List ℕ) (pieces : List (List ℕ)) (fw : FirmwareState api)
      → k + 1 + length pieces ≡ total
      → send_chunks total k (bytes ∷ pieces) (uploading fw k)
        ≡ uploaded total (finish_upload api name (feed_pieces api (bytes ∷ pieces) fw))
  chunks_from total k bytes [] fw e =
      let e' : total ≡ k + 1 = omega arith in rw e' (last_chunk k bytes fw)
  chunks_from total k bytes (next ∷ pieces) fw e =
      inner_chunk total k bytes (next ∷ pieces) fw (omega arith)
      ∙ chunks_from total (k + 1) next pieces (uptane_verify_firmware_feed api bytes fw)
          (omega arith)

  -- The first chunk is taken in the state that the initialisation leaves.
  begin_upload-first :
      (st : UploadState api)
      → st.upload_in_progress ≡ false
      → (uptane_verify_firmware_init api st.fw).0 ≡ true
      → begin_upload api name st ≡ (true, uploading (uptane_verify_firmware_init api st.fw).1 0)
  unfolding begin_upload
  begin_upload-first st idle ok = rw (begin_upload, idle, ok) refl

  first_chunk :
      (total : ℕ) (bytes : List ℕ) (pieces : List (List ℕ)) (st : UploadState api)
      → 0 < total
      → st.upload_in_progress ≡ false
      → (uptane_verify_firmware_init api st.fw).0 ≡ true
      → send_chunks total 0 (bytes ∷ pieces) st
        ≡ send_chunks total 0
            (bytes ∷ pieces)
            (uploading (uptane_verify_firmware_init api st.fw).1 0)
  unfolding send_chunks put_image_chunk begin_upload
  first_chunk total bytes pieces st some_left idle ok =
      let room : ltb total 1 ≡ false = ground arith in
      rw (send_chunks, put_image_chunk, room, begin_upload-first st idle ok) refl

  -- An upload of an image in chunks, in order and of the total number that they have, where none is in
  -- progress and the initialisation accepts one, does what the firmware check does with the image in
  -- these pieces: it is initialised, fed and finalised, and confirmed where the check returns true.
  pub send_chunks-finish_upload :
      (bytes : List ℕ) (pieces : List (List ℕ)) (st : UploadState api)
      → st.upload_in_progress ≡ false
      → (uptane_verify_firmware_init api st.fw).0 ≡ true
      → let total = 1 + length pieces in
        send_chunks total 0 (bytes ∷ pieces) st
        ≡ uploaded total (
            finish_upload api name
              (feed_pieces api (bytes ∷ pieces) (uptane_verify_firmware_init api st.fw).1))
  send_chunks-finish_upload bytes pieces st idle ok =
      first_chunk (1 + length pieces) bytes pieces st (omega arith) idle ok
      ∙ chunks_from (1 + length pieces) 0 bytes pieces (uptane_verify_firmware_init api st.fw).1
          (omega arith)

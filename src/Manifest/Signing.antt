-- ===== src/Manifest/Signing.antt =====
-- Which text the signature of a manifest is for.
use uptiny.Base.{
  ◌≡◌, refl, ap, Bool, true, false, if◌then◌else◌, Option, none, some, List, [], ◌∷◌, Buffer,
}
use uptiny.Crypto.{KeySignature}
use uptiny.Manifest.{
  ManifestInput, ManifestState, signed_part, signatures_part, uptane_write_manifest,
}

-- A manifest is written, with what the platform gives then, or `uptane_firmware_confirm` sets
-- `firmware_updated`.
pub data ManifestEvent : Type 0 where
  wrote : ManifestInput → ManifestEvent
  confirmed : ManifestEvent

module _ (stack : Buffer) where
  unfoldable pub run_manifests : List ManifestEvent → ManifestState → ManifestState
  run_manifests [] st = st
  run_manifests (wrote p ∷ es) st = run_manifests es (uptane_write_manifest p stack st).2
  run_manifests (confirmed ∷ es) st = run_manifests es (record st { firmware_updated = true })

  -- The platform at the last manifest that was the first one after a confirmation, if any.
  pub last_signing : List ManifestEvent → Bool → Option ManifestInput → Option ManifestInput
  last_signing [] updated last = last
  last_signing (wrote p ∷ es) updated last =
      last_signing es false (if updated then some p else last)
  last_signing (confirmed ∷ es) updated last = last_signing es true last

  -- The signature of a signed part as the platform gives it, or another.
  abbrev pub signature_at : Option ManifestInput → KeySignature → KeySignature
  signature_at none sig = sig
  signature_at (some p) sig = record {
    key = p.device_key;
    sig = p.sign (signed_part p stack) p.device_priv;
  }

  run-signature_at :
      (es : List ManifestEvent) (last : Option ManifestInput) (first sig : KeySignature)
      (updated : Bool)
      → sig ≡ signature_at last first
      → (run_manifests es (record { sig = sig; firmware_updated = updated })).sig
        ≡ signature_at (last_signing es updated last) first
  unfolding run_manifests last_signing uptane_write_manifest
  run-signature_at [] last first sig updated e = e
  run-signature_at (confirmed ∷ es) last first sig updated e =
      run-signature_at es last first sig true e
  run-signature_at (wrote p ∷ es) last first sig true e =
      run-signature_at es (some p) first (signature_at (some p) sig) false refl
  run-signature_at (wrote p ∷ es) last first sig false e =
      run-signature_at es last first sig false e

  -- The signature that a manifest carries is not for its own signed part but for that of the last
  -- manifest that was the first one after a confirmed update: after whatever manifests and
  -- confirmations, a manifest that no confirmation comes right before has the signature of that
  -- earlier one, or the one of the beginning, also where the installation state, for example a recorded
  -- attack, has changed in between.
  pub uptane_write_manifest-stale :
      (es : List ManifestEvent) (p : ManifestInput) (st : ManifestState)
      → (run_manifests es st).firmware_updated ≡ false
      → (uptane_write_manifest p stack (run_manifests es st)).1
        ≡ signatures_part p stack (signature_at (last_signing es st.firmware_updated none) st.sig)
  unfolding uptane_write_manifest
  uptane_write_manifest-stale es p st old = rw old (
      ap (signatures_part p stack)
        (run-signature_at es none st.sig st.sig st.firmware_updated refl))

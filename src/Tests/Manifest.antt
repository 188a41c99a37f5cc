-- ===== src/Tests/Manifest.antt =====
-- A manifest, and another one after an attack was recorded.
use uptiny.Base.{◌≡◌, refl, true, false, none, some, List, [], ◌∷◌, get_or}
use uptiny.Crypto.{ed25519, sha512}
use uptiny.State.{InstallationState, Attack, targets_threshold}
use uptiny.Manifest.{ManifestInput, ManifestState, signatures_part, uptane_write_manifest}
use uptiny.Manifest.Signing.{
  ManifestEvent, wrote, confirmed, run_manifests, last_signing, signature_at,
  uptane_write_manifest-stale,
}
use uptiny.Tests.Metadata.{zeros}

abbrev installed_at : Attack → InstallationState
installed_at attack = record {
  firmware_name = zeros;
  firmware_hash = record { alg = sha512; hash = zeros };
  firmware_length = 3;
  attack = attack;
}

-- A signature is the text itself.
abbrev device : Attack → ManifestInput
device attack = record {
  installed = some (installed_at attack);
  ecuid = 69 ∷ [];
  device_key = 1;
  device_priv = zeros;
  keys = λ a. record { key_type = ed25519; keyid = zeros; keyval = zeros };
  get_hashlen = λ alg. 2;
  get_siglen = λ key_type. 64;
  sign = λ text priv j. get_or text j 0;
}

abbrev unsigned : ManifestState
unsigned = record { sig = record { key = 0; sig = zeros }; firmware_updated = true }

abbrev before : List ManifestEvent
before = confirmed ∷ wrote (device Attack.none) ∷ []

nothing_new : (run_manifests zeros before unsigned).firmware_updated ≡ false
unfolding run_manifests uptane_write_manifest
nothing_new = refl

uptane_write_manifest-stale_example :
    (uptane_write_manifest (device targets_threshold) zeros (run_manifests zeros before unsigned)).1
    ≡ signatures_part
        (device targets_threshold)
        zeros
        (signature_at zeros (last_signing zeros before true none) unsigned.sig)
uptane_write_manifest-stale_example =
    uptane_write_manifest-stale zeros before (device targets_threshold) unsigned nothing_new

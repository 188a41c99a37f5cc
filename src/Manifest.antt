-- ===== src/Manifest.antt =====
-- libuptiny/manifest.c: the report of a device to its primary, a text and a text of its signature.
pub mod Signing
use uptiny.Base.{
  ℕ, zero, suc, ◌+◌, ◌*◌, ◌/◌, ◌^◌, Bool, true, false, ◌==◌, if◌then◌else◌, Option, none, some,
  List, [], ◌∷◌, ◌++◌, ltb, Buffer, advance, signed32,
}
use uptiny.Utils.Hex.{bin2hex}
use uptiny.Utils.Dec.{int2dec}
use uptiny.Base64.{base64_encode}
use uptiny.Json.{codes}
use uptiny.Crypto.{Key, KeySignature, KeyType, ed25519, HashAlgorithm, sha512, Hash, keyid_len}
use uptiny.State.{
  InstallationState, Attack, root_threshold, targets_threshold, root_version, targets_version,
  root_expired, targets_expired, root_large, targets_large, image_hash, image_large,
}

pub attack_to_string : Attack → List ℕ
attack_to_string Attack.none = []
attack_to_string root_threshold = codes "Failed threshold for root metadata"
attack_to_string targets_threshold = codes "Failed threshold for targets metadata"
attack_to_string root_version = codes "Root rollback attempted"
attack_to_string targets_version = codes "Targets rollback attempted"
attack_to_string root_expired = codes "Root metadata has expired"
attack_to_string targets_expired = codes "Targets metadata has expired"
attack_to_string root_large = codes "Root metadata size exceeds the limit"
attack_to_string targets_large = codes "Targets metadata size exceeds the limit"
attack_to_string image_hash = codes "Firmware image hash verification failed"
attack_to_string image_large = codes "Firmware image length mismatch"

pub hash_alg_to_string : HashAlgorithm → List ℕ
hash_alg_to_string sha512 = codes "sha512"
hash_alg_to_string _ = codes "Unknown"

pub crypto_alg_to_method : KeyType → List ℕ
crypto_alg_to_method ed25519 = codes "ed25519"
crypto_alg_to_method _ = codes "Unknown"

-- The characters from a pointer on, before the first 0 and at most `n`.
pub string_of : ℕ → Buffer → List ℕ
string_of zero s = []
string_of (suc n) s = let rest = string_of n (advance s 1) in if s 0 == 0 then [] else s 0 ∷ rest

-- What the platform gives: the functions of state_api.h and crypto_api.h that are called, `none` for
-- NULL. `keys` is the memory of keys, and a key is the address of one.
pub record ManifestInput : Type 0 where
  pub installed : Option InstallationState
  pub ecuid : List ℕ
  pub device_key : ℕ
  pub device_priv : Buffer
  pub keys : ℕ → Key
  pub get_hashlen : HashAlgorithm → ℕ
  pub get_siglen : KeyType → ℕ
  pub sign : List ℕ → Buffer → Buffer

-- The static variables: `sig` of manifest.c, and `firmware_updated` of firmware.c.
pub record ManifestState : Type 0 where
  pub sig : KeySignature
  pub firmware_updated : Bool

-- The texts are those of the character arrays up to their 0; `stack` is what stands behind them. The
-- parts that depend on the installation state, without one:
pub attack_part : Option InstallationState → List ℕ
attack_part none = []
attack_part (some state) = attack_to_string state.attack

pub alg_part : Option InstallationState → List ℕ
alg_part none = codes "nohash"
alg_part (some state) = hash_alg_to_string state.firmware_hash.alg

pub hash_part : ManifestInput → Buffer → Option InstallationState → List ℕ
hash_part p stack none = []
hash_part p stack (some state) =
    let n = p.get_hashlen state.firmware_hash.alg in
    string_of (2 * n + 1) (bin2hex state.firmware_hash.hash n stack)

pub length_part : Buffer → Option InstallationState → List ℕ
length_part stack none = string_of 12 (int2dec (signed32 0) stack)
length_part stack (some state) = string_of 12 (int2dec (signed32 state.firmware_length) stack)

pub name_part : Option InstallationState → List ℕ
name_part none = codes "noimage"
name_part (some state) = string_of 64 state.firmware_name

-- The signed part.
pub signed_part : ManifestInput → Buffer → List ℕ
signed_part p stack =
    codes "{\"attacks_detected\":\""
    ++ attack_part p.installed
    ++ codes "\",\"ecu_serial\":\""
    ++ p.ecuid
    ++ codes "\",\"installed_image\":{\"fileinfo\":{\"hashes\":{\""
    ++ alg_part p.installed
    ++ codes "\":\""
    ++ hash_part p stack p.installed
    ++ codes "\"},\"length\":"
    ++ length_part stack p.installed
    ++ codes "},\"filepath\":\""
    ++ name_part p.installed
    ++ codes "\"},\"previous_timeserver_time\":\""
    ++ codes "1970-01-01T00:00:00Z"
    ++ codes "\",\"timeserver_time\":\""
    ++ codes "1970-01-01T00:00:00Z"
    ++ codes "\"}"

-- The signatures part.
pub signatures_part : ManifestInput → Buffer → KeySignature → List ℕ
signatures_part p stack sig =
    let key = p.keys sig.key in
    let n = p.get_siglen key.key_type in
    codes "[{\"keyid\":\""
    ++ string_of (2 * keyid_len + 1) (bin2hex key.keyid keyid_len stack)
    ++ codes "\",\"method\":\""
    ++ crypto_alg_to_method key.key_type
    ++ codes "\",\"sig\":\""
    ++ string_of (4 * ((n + 2) / 3) + 1) (base64_encode sig.sig n stack)
    ++ codes "\"}]"

-- The two texts, and the static variables after the call.
unfoldable pub uptane_write_manifest :
    ManifestInput → Buffer → ManifestState → List ℕ × List ℕ × ManifestState
uptane_write_manifest p stack st =
    let signed = signed_part p stack in
    let sig =
      if st.firmware_updated
      then (record { key = p.device_key; sig = p.sign signed p.device_priv })
      else st.sig in
    (signed, signatures_part p stack sig, record { sig = sig; firmware_updated = false })

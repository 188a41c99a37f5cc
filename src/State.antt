-- ===== src/State.antt =====
-- libuptiny/state_api.h: the verified metadata that a device keeps.
use uptiny.Base.{ℕ, ℤ, Memory, Buffer}
use uptiny.Crypto.{Hash}
use uptiny.Utils.Time.{UptaneTime}

-- `uptane_role_t`
pub data Role : Type 0 where
  root targets : Role

-- ROOT_MAX_KEYS, TARGETS_MAX_HASHES, TARGETS_MAX_NAME_LENGTH
abbrev pub root_max_keys : ℕ
root_max_keys = 16

abbrev pub targets_max_hashes : ℕ
targets_max_hashes = 2

abbrev pub targets_max_name_length : ℕ
targets_max_name_length = 63

-- `uptane_root_t`. The key arrays hold addresses of keys.
pub record UptaneRoot : Type 0 where
  pub version : ℤ
  pub expires : UptaneTime
  pub root_threshold : ℤ
  pub root_keys_num : ℕ
  pub root_keys : Memory ℕ
  pub targets_threshold : ℤ
  pub targets_keys_num : ℕ
  pub targets_keys : Memory ℕ

-- `uptane_targets_t`
pub record UptaneTargets : Type 0 where
  pub version : ℤ
  pub expires : UptaneTime
  pub name : Buffer
  pub hashes_num : ℕ
  pub hashes : Memory Hash
  pub length : ℕ

-- `uptane_attack_t`
pub data Attack : Type 0 where
  none root_threshold targets_threshold root_version targets_version : Attack
  root_expired targets_expired root_large targets_large image_hash image_large : Attack

-- `uptane_installation_state_t`
pub record InstallationState : Type 0 where
  pub firmware_name : Buffer
  pub firmware_hash : Hash
  pub firmware_length : ℕ
  pub attack : Attack

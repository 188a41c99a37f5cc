-- ===== src/Firmware.antt =====
-- libuptiny/firmware.c: the check of a firmware image against the targets metadata in force.
pub mod Search
pub mod Laws
use uptiny.Base.{
  ℕ, zero, suc, ◌+◌, ◌≡◌, Bool, true, false, not, ◌&&◌, ◌||◌, ltb, ◌==◌, if◌then◌else◌, Option,
  none, some, List, [], ◌∷◌, ◌++◌, Memory, Buffer,
}
use uptiny.Crypto.{Hash, HashAlgorithm, unknown, sha512}
use uptiny.State.{UptaneTargets, InstallationState, Attack, targets_max_name_length}

-- `crypto_hash_*` and `crypto_get_hashlen`. A hash depends on the bytes fed since the context was
-- initialised, however they were cut.
pub record HashApi : Type 1 where
  pub Context : Type 0
  pub hash_init : Context → Context
  pub hash_feed : Context → List ℕ → Context
  pub hash_result : Context → Hash
  pub get_hashlen : HashAlgorithm → ℕ
  pub fed : Context → List ℕ
  pub digest : List ℕ → Hash
  pub fed_init : (c : Context) → fed (hash_init c) ≡ []
  pub fed_feed : (c : Context) (bytes : List ℕ) → fed (hash_feed c bytes) ≡ fed c ++ bytes
  pub result_lem : (c : Context) → hash_result c ≡ digest (fed c)

-- What `state_get_targets`, `state_get_installation_state` and `state_get_supported_hash` give, `none`
-- for NULL, with the static variables of the file. `expected_hash` points to a hash of the targets
-- in force: it is the index of that hash, and `none` for NULL.
pub record FirmwareState (api : HashApi) : Type 0 where
  pub targets : Option UptaneTargets
  pub installed : Option InstallationState
  pub supported_hash : HashAlgorithm
  pub expected_hash : Option ℕ
  pub firmware_updated : Bool
  pub hash_context : api.Context

abbrev pub same_alg : HashAlgorithm → HashAlgorithm → Bool
same_alg sha512 sha512 = true
same_alg unknown unknown = true
same_alg _ _ = false

-- `!memcmp(a, b, n)`
unfoldable pub memcmp_equal : ℕ → Buffer → Buffer → Bool
memcmp_equal zero a b = true
memcmp_equal (suc n) a b = memcmp_equal n a b && a n == b n

-- The loop over the hashes: the rounds left, `i` and `expected_hash`. The last one that fits wins.
unfoldable pub find_expected : ℕ → ℕ → HashAlgorithm → Memory Hash → Option ℕ → Option ℕ
find_expected zero i alg hashes found = found
find_expected (suc n) i alg hashes found =
    find_expected n (i + 1) alg hashes (if same_alg (hashes i).alg alg then some i else found)

-- A 0 stands before `j`.
pub has_ended : ℕ → Buffer → Bool
has_ended zero s = false
has_ended (suc j) s = has_ended j s || s j == 0

-- `strncpy(name, from, TARGETS_MAX_NAME_LENGTH)` into what `to` holds, and the 0 behind it.
pub copy_name : Buffer → Buffer → Buffer
copy_name from to j =
    if ltb j targets_max_name_length
    then (if has_ended j from then 0 else from j)
    else if j == targets_max_name_length
    then 0
    else to j

module _ (api : HashApi) where
  pub uptane_firmware_updated : FirmwareState api → Bool × FirmwareState api
  uptane_firmware_updated st = (st.firmware_updated, record st { firmware_updated = false })

  -- The installed image has the hash that is expected.
  unfoldable pub is_installed : HashAlgorithm → Hash → Option InstallationState → Bool
  is_installed alg hash none = false
  is_installed alg hash (some state) =
      memcmp_equal (api.get_hashlen alg) hash.hash state.firmware_hash.hash

  unfoldable pub init_with : UptaneTargets → FirmwareState api → Bool × FirmwareState api
  init_with targets st =
      let found = find_expected targets.hashes_num 0 st.supported_hash targets.hashes none in
      let st' = record st { expected_hash = found } in
      elim found [
        | none ↦ (false, st')
        | some i ↦
            if is_installed st.supported_hash (targets.hashes i) st.installed
            then (false, st')
            else (true, record st' { hash_context = api.hash_init st.hash_context })
      ]

  unfoldable pub uptane_verify_firmware_init : FirmwareState api → Bool × FirmwareState api
  uptane_verify_firmware_init st = elim st.targets [
    | none ↦ (false, st)
    | some targets ↦ init_with targets st
  ]

  unfoldable pub uptane_verify_firmware_feed : List ℕ → FirmwareState api → FirmwareState api
  uptane_verify_firmware_feed bytes st = record st {
    hash_context = api.hash_feed st.hash_context bytes;
  }

  -- `*expected_hash`; `none` where the pointer is NULL or what it pointed to is gone.
  unfoldable pub expected : FirmwareState api → Option Hash
  expected st = elim st.targets [
    | none ↦ none
    | some targets ↦ elim st.expected_hash [ none ↦ none | some i ↦ some (targets.hashes i) ]
  ]

  -- `none` where the function reads through NULL.
  unfoldable pub uptane_verify_firmware_finalize : FirmwareState api → Option Bool
  uptane_verify_firmware_finalize st = elim (expected st) [
    | none ↦ none
    | some hash ↦
        some
          (memcmp_equal (api.get_hashlen hash.alg) (api.hash_result st.hash_context).hash hash.hash)
  ]

  -- `name` is what the local `new_state` holds. `none` where the function reads through NULL.
  pub uptane_firmware_confirm : Buffer → FirmwareState api → Option (FirmwareState api)
  uptane_firmware_confirm name st = elim st.targets [
    | none ↦ some st
    | some targets ↦ elim st.expected_hash [
      | none ↦ none
      | some i ↦ some (record st {
        installed = some (record {
          firmware_name = copy_name targets.name name;
          firmware_hash = targets.hashes i;
          firmware_length = targets.length;
          attack = Attack.none;
        });
        firmware_updated = true;
      })
    ]
  ]

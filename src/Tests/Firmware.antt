-- ===== src/Tests/Firmware.antt =====
-- A firmware image that the check accepts, with a hash that adds no security.
use uptiny.Base.{ℕ, ◌<◌, ◌≡◌, ◌↔◌, refl, true, false, none, some, List, [], ◌∷◌, ◌++◌, get_or, pos}
use uptiny.Crypto.{Hash, sha512}
use uptiny.Firmware.{HashApi, FirmwareState, same_alg, find_expected, init_with, is_installed}
use uptiny.Firmware.{uptane_verify_firmware_init, uptane_verify_firmware_finalize}
use uptiny.Firmware.{uptane_firmware_confirm, uptane_firmware_updated, memcmp_equal, expected}
use uptiny.Firmware.{uptane_verify_firmware_feed}
use uptiny.Firmware.Laws.{
  feed_pieces, in_force, joined, Matches, finalize-feed_pieces, init-confirm,
}
use uptiny.State.{UptaneTargets}
use uptiny.Tests.Metadata.{zeros}
use uptiny.Tests.Root.{some_time}

-- The hash of an image is the image itself, followed by zeros.
abbrev pub toy_digest : List ℕ → Hash
toy_digest image = record { alg = sha512; hash = λ j. get_or image j 0 }

abbrev pub toy_hash : HashApi
toy_hash = record {
  Context = List ℕ;
  hash_init = λ c. [];
  hash_feed = λ c bytes. c ++ bytes;
  hash_result = toy_digest;
  get_hashlen = λ alg. 4;
  fed = λ c. c;
  digest = toy_digest;
  fed_init = λ c. refl;
  fed_feed = λ c bytes. refl;
  result_lem = λ c. refl;
}

abbrev pub one_target : UptaneTargets
one_target = record {
  version = pos 2;
  expires = some_time;
  name = zeros;
  hashes_num = 1;
  hashes = λ j. toy_digest (1 ∷ 2 ∷ 3 ∷ []);
  length = 3;
}

abbrev pub at_rest : FirmwareState toy_hash
at_rest = record {
  targets = none;
  installed = none;
  supported_hash = sha512;
  expected_hash = none;
  firmware_updated = false;
  hash_context = [];
}

abbrev pub pieces : List (List ℕ)
pieces = (1 ∷ []) ∷ (2 ∷ 3 ∷ []) ∷ []

pub initialised :
    (uptane_verify_firmware_init toy_hash (in_force toy_hash one_target at_rest)).0 ≡ true
unfolding uptane_verify_firmware_init init_with find_expected is_installed
initialised = refl

image_accepted :
    uptane_verify_firmware_finalize toy_hash (
      feed_pieces toy_hash pieces
        (uptane_verify_firmware_init toy_hash (in_force toy_hash one_target at_rest)).1)
    ≡ some true
unfolding uptane_verify_firmware_init init_with find_expected is_installed
    uptane_verify_firmware_finalize expected memcmp_equal uptane_verify_firmware_feed
image_accepted = refl

finalize-feed_pieces_example :
    let fed =
      feed_pieces toy_hash pieces
        (uptane_verify_firmware_init toy_hash (in_force toy_hash one_target at_rest)).1 in
    (i : ℕ) × (i < 1)
    × (same_alg (one_target.hashes i).alg sha512 ≡ true)
    × ((uptane_verify_firmware_finalize toy_hash fed ≡ some true)
        ↔ Matches toy_hash one_target i (joined pieces))
    × ((uptane_verify_firmware_finalize toy_hash fed ≡ some false)
        ↔ ¬ Matches toy_hash one_target i (joined pieces))
finalize-feed_pieces_example = finalize-feed_pieces toy_hash one_target at_rest pieces initialised

init-confirm_example :
    let fed =
      feed_pieces toy_hash pieces
        (uptane_verify_firmware_init toy_hash (in_force toy_hash one_target at_rest)).1 in
    (done : FirmwareState toy_hash) × (uptane_firmware_confirm toy_hash zeros fed ≡ some done)
    × ((uptane_firmware_updated toy_hash done).0 ≡ true)
    × ((uptane_firmware_updated toy_hash (uptane_firmware_updated toy_hash done).1).0 ≡ false)
    × ((uptane_verify_firmware_init toy_hash done).0 ≡ false)
init-confirm_example = init-confirm toy_hash one_target at_rest pieces zeros initialised

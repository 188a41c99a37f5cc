-- ===== src/Lib.antt =====
-- The Uptane client library (libuptiny/), what it takes for a device to accept metadata, and the
-- flash loader of the KEA128 board (machine/kea128/), what gets into its program memory.
--
-- A primary sends a device root metadata and targets metadata, JSON texts with a list of signatures
-- and a "signed" object. The library verifies them against the root metadata in force.
--
-- - Utils: libuptiny/utils.c and uptane_time.c. Hex is `hex2bin`, `bin2hex` and `hex_bin_cmp`; Dec is
--   `dec2int` and `int2dec`; Time is `str2time` and `uptane_time_greater`.
-- - Base64: libuptiny/base64.c, `base64_encode` and `base64_decode`.
-- - Json: libuptiny/json_common.c and the token type of jsmn.h. An `Input` is a message with the
--   token pool that the tokenizer made of it.
-- - Crypto, State: the types of libuptiny/crypto_api.h and state_api.h. `CryptoApi` is what a platform
--   implements; its law says that a verification depends on the key, the signature and the bytes fed,
--   however they were cut into pieces.
-- - Keys: libuptiny/crypto_common.c, `find_key`.
-- - Signatures: libuptiny/signatures.c, `uptane_parse_signatures` and its `parse_sig`.
-- - RootSigned: libuptiny/root_signed.c, `uptane_parse_root_signed`. Table is `parse_keys` with the
--   static table of keys, Roles is `parse_role` and `parse_roles`.
-- - Root: libuptiny/root.c, `uptane_parse_root`, which checks a new root with the signatures of the
--   keys in force and with those of its own keys.
-- - Targets: libuptiny/targets.c, `uptane_parse_targets_feed`, which reads targets metadata in
--   pieces. Target is `parse_target`, Step has one function for each state of the state machine, and
--   Feed is one call: the parser is prepared, the loop runs, and the signatures are checked.
--   Feed/Fed and Feed/Signed say what the verification contexts have been fed, Feed/Run over several
--   calls.
-- - Firmware: libuptiny/firmware.c, the check of an image against the targets metadata. `HashApi` is
--   the hashing that a platform implements.
-- - Manifest: libuptiny/manifest.c, the report `uptane_write_manifest`. A `ManifestInput` is what the
--   functions of the platform give.
-- - Demo: of libuptiny-demo/, Upload is the upload of an image in chunks to the firmware check (main.c),
--   Pool the pool of keys (common_data.c) and Stored the stored metadata (state.c).
-- - Kea: a secondary on the KEA128 board that is programmed by diagnostic requests. Flash is
--   machine/kea128/drivers/src/flash.c over a `FlashController`; FlashLoad is
--   machine/kea128/app/flash_load.c, `flash_load_erase` and the loader, which fills a buffer of one
--   sector; Ms1 is `message_received` of app/ms1.c with one function for each service; Uds has the
--   responses of app/uds.c. A `Board` holds the controller and the constants of the build. Can is
--   drivers/src/can.c, the queues between the application and the interrupts of a `CanController`,
--   whose handlers give `none` where a copy writes past the 8 bytes of a packet;
--   Script is app/script.c, the interpreter of the program.
-- - Base is shared: tests, lists, signed integers, memory and loops. Tests has the examples.
--
-- A pointer is the memory from it on, a function from offsets, so that a read or write out of range is
-- the one that the machine does on the memory behind; where that is another variable of the model, the
-- result is an Option. A negative length that becomes a `size_t` wraps at 2 ^ 32. Keys are addresses into a memory of keys. An
-- int32_t that wraps is written with `% 2 ^ 32`; the int16_t indices of tokens and characters count up
-- from 0 in pools and messages of at most 32767 and do not wrap. Fields that the parsers pass by
-- pointer are parts of a state record. A C function that returns false early leaves through an
-- Option, a Bool or a field `returned` of its state.
--
-- Loops with a counter are structural recursion on the rounds left. `int2dec` divides by 10 at most 10
-- times, since 2 ^ 31 has 10 digits. The loop of `prepare_primary_parser` runs at most once for each
-- token, since a parent stands before its children. The loop of the targets state machine has
-- `loop_fuel` rounds, four for each token that is left and four more, since no more than three rounds
-- that consume nothing follow one another (Targets/Step/Measure).
--
-- Not modelled: the tokenizer libuptiny/jsmn.c and the cryptography under ed25519/, which are copies of
-- other libraries and parameters here; the rest of libuptiny-demo/; of
-- machine/kea128/, the ISO-TP library, which is a submodule and gives messages whole, start-up code,
-- the vendor's headers and the drivers of pins and clocks; debug output.
pub mod Base
pub mod Utils
pub mod Base64
pub mod Json
pub mod Crypto
pub mod Keys
pub mod State
pub mod Signatures
pub mod RootSigned
pub mod Root
pub mod Targets
pub mod Manifest
pub mod Demo
pub mod Kea
pub mod Tests
pub mod Firmware

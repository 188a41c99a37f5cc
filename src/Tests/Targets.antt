-- ===== src/Tests/Targets.antt =====
-- Targets metadata that `uptane_parse_targets_feed` accepts, and a text that it refuses.
use uptiny.Base.{arith, [], ◌≡◌, refl, true, false, pos, negsuc, laid, rounds, cells, ◌-ℤ◌, ◌+ℤ◌}
use uptiny.Crypto.{sha512}
use uptiny.Json.{codes, tok_len, json_str_equal, starts_with, skip_inside, consume_recursive_json}
use uptiny.Signatures.{
  uptane_parse_signatures, read_signatures, meta_keys_of, parse_sig, sig_fields,
}
use uptiny.Signatures.{sig_field, sig_value, store_sig, fits_sig_buf, keyid_value}
use uptiny.Keys.{find_key, find_key_from}
use uptiny.Utils.Hex.{
  hex_bin_cmp, hex_bin_cmp_from, is_hex, from_hex, hex2bin, hex2bin_from, store_digit,
}
use uptiny.Utils.Time.{str2time, time_field}
use uptiny.Utils.Dec.{dec2int, dec2int_from}
use uptiny.Base64.{base64_decode, base64_decode_from, decode_at, decode_quadruple, decode_first}
use uptiny.Base64.{decode_second, decode_third, decode_last, fails, decode_sym}
use uptiny.State.{UptaneTargets}
use uptiny.Targets.{Platform, Device, TargetsState, uptane_parse_targets_init, begin}
use uptiny.Targets.Feed.{uptane_parse_targets_feed, begin_loop, prepare_primary_parser, run_loop}
use uptiny.Targets.Feed.{after_loop, check_signatures, verify_part, has_signed_ended, init_contexts}
use uptiny.Targets.Feed.{feed_contexts, valid_contexts, final_result, advance_positions}
use uptiny.Targets.Feed.{consumed_chars_newtoken, consumed_chars_nonewtoken, skip_separators}
use uptiny.Targets.Feed.{open_container}
use uptiny.Targets.Feed.Loop.{IsResumable, run_loop-is_going}
use uptiny.Targets.Feed.Outcome.{uptane_parse_targets_feed-refused}
use uptiny.Base.{true, false}
use uptiny.Targets.Step.{is_going, step, on_state, on_begin, on_top, on_ignored, on_signatures}
use uptiny.Targets.Step.{on_before_signed, on_signed, on_type, on_expires, on_version}
use uptiny.Targets.Step.{on_targets_object, on_targets, on_target, on_target_result}
use uptiny.Targets.Step.{take_target, unread_member, ignore_value}
use uptiny.Targets.Step.{result_error, result_end_found}
use uptiny.Targets.Step.Version.{is_refusal}
use uptiny.Targets.Target.{parse_target, target_name, target_field, object_fields, skip_field}
use uptiny.Targets.Target.{custom_field, ecu_field, hw_id_field, hashes_value, hash_field}
use uptiny.Targets.Target.{length_value}
use uptiny.Tests.Metadata.{toy_crypto, heap, key, targets_bytes, targets_tokens, text_of, zeros}
use uptiny.Tests.Metadata.{no_token, no_signature}
use uptiny.Tests.Root.{root_in_force, some_time}

-- Nothing is in force, and no file has been read.
abbrev pub no_targets : UptaneTargets
no_targets = record {
  version = pos 1;
  expires = some_time;
  name = zeros;
  hashes_num = 0;
  hashes = λ j. record { alg = sha512; hash = zeros };
  length = 0;
}

abbrev pub device : Device
device = record {
  root = root_in_force;
  targets = no_targets;
  ecuid = codes "ecu1";
  hwid = codes "hw1";
  heap = heap;
  stack = zeros;
  before_pool = no_token;
}

-- The tokenizer on the example: it has read the whole text.
abbrev platform : Platform
platform = record {
  crypto = toy_crypto;
  jsmn_parse = λ p message len pool.
      (record { pos = len; toknext = 34; toksuper = negsuc 0 }, laid targets_tokens no_token);
  str_to_hashtype = λ s len. sha512;
  get_hashlen = λ alg. 2;
  token_pool_size = 64;
  signature_pool_size = 4;
  crypto_ctx_pool_size = 4;
}

abbrev unread : TargetsState platform
unread = uptane_parse_targets_init platform (record {
  parser = record { pos = pos 0; toknext = 0; toksuper = negsuc 0 };
  token_pos = 0;
  ignored_top_token_pos = 0;
  signed_top_token_pos = negsuc 0;
  targets_top_token_pos = negsuc 0;
  state = begin;
  prev_state = begin;
  target_found = false;
  signed_elems_read = 0;
  targets_elems_read = 0;
  num_signatures = 0;
  begin_signed = negsuc 0;
  end_signed = negsuc 0;
  in_signed = false;
  tail_length = pos 0;
  tmp_target = no_targets;
  pool = λ j. no_token;
  sigs = λ j. no_signature;
  contexts = λ j. (key, zeros, []);
})

-- The whole file in one call: the target for this ECU is found, and all characters are consumed.
whole_file :
    let o =
      uptane_parse_targets_feed platform device
        (text_of targets_bytes)
        (pos 381)
        no_targets
        unread in
    (o.result ≡ result_end_found)
    × (o.returns ≡ pos 381)
    × (o.out.version ≡ pos 2)
    × (o.out.length ≡ 100)
unfolding uptane_parse_targets_init uptane_parse_targets_feed begin_loop prepare_primary_parser
    run_loop after_loop check_signatures verify_part has_signed_ended init_contexts feed_contexts
    valid_contexts final_result advance_positions consumed_chars_newtoken consumed_chars_nonewtoken
    skip_separators open_container is_going step on_state on_begin on_top on_ignored on_signatures
    on_before_signed on_signed on_type on_expires on_version on_targets_object on_targets on_target
    on_target_result take_target unread_member ignore_value parse_target target_name target_field
    object_fields skip_field custom_field ecu_field hw_id_field hashes_value hash_field length_value
    cells rounds json_str_equal starts_with tok_len ◌-ℤ◌ ◌+ℤ◌ skip_inside consume_recursive_json
    uptane_parse_signatures read_signatures meta_keys_of parse_sig sig_fields sig_field sig_value
    store_sig fits_sig_buf keyid_value find_key find_key_from hex_bin_cmp hex_bin_cmp_from is_hex
    from_hex base64_decode base64_decode_from decode_at decode_quadruple decode_first decode_second
    decode_third decode_last fails decode_sym str2time time_field dec2int dec2int_from hex2bin
    hex2bin_from store_digit
whole_file = (refl, refl, refl, refl)

-- Version 3 is in force, so the file is a rollback.
abbrev ahead : Device
ahead = record device { targets = record no_targets { version = pos 3 } }

rollback :
    is_refusal
      (uptane_parse_targets_feed platform ahead
        (text_of targets_bytes)
        (pos 381)
        no_targets
        unread).result
    ≡ true
unfolding uptane_parse_targets_init uptane_parse_targets_feed begin_loop prepare_primary_parser
    run_loop after_loop check_signatures verify_part has_signed_ended init_contexts feed_contexts
    valid_contexts final_result advance_positions consumed_chars_newtoken consumed_chars_nonewtoken
    skip_separators open_container is_going step on_state on_begin on_top on_ignored on_signatures
    on_before_signed on_signed on_type on_expires on_version on_targets_object on_targets on_target
    on_target_result take_target unread_member ignore_value parse_target target_name target_field
    object_fields skip_field custom_field ecu_field hw_id_field hashes_value hash_field length_value
    cells rounds json_str_equal starts_with tok_len ◌-ℤ◌ ◌+ℤ◌ skip_inside consume_recursive_json
    uptane_parse_signatures read_signatures meta_keys_of parse_sig sig_fields sig_field sig_value
    store_sig fits_sig_buf keyid_value find_key find_key_from hex_bin_cmp hex_bin_cmp_from is_hex
    from_hex base64_decode base64_decode_from decode_at decode_quadruple decode_first decode_second
    decode_third decode_last fails decode_sym str2time time_field dec2int dec2int_from hex2bin
    hex2bin_from store_digit
rollback = refl

uptane_parse_targets_feed-refused_example :
    let first =
      uptane_parse_targets_feed platform ahead
        (text_of targets_bytes)
        (pos 381)
        no_targets
        unread in
    let again = uptane_parse_targets_feed platform ahead (text_of []) (pos 0) first.out first.st in
    (again.returns ≡ negsuc 0)
    × (again.result ≡ result_error)
    × (again.out ≡ first.out)
    × (again.st ≡ first.st)
uptane_parse_targets_feed-refused_example =
    uptane_parse_targets_feed-refused platform ahead (text_of targets_bytes) (text_of []) (pos 381)
      (pos 0) no_targets unread rollback

unread-IsResumable : IsResumable unread
unfolding uptane_parse_targets_init
unread-IsResumable = omega arith

run_loop-is_going_example :
    (is_going platform device (text_of targets_bytes) (
        run_loop platform device
          (text_of targets_bytes)
          (pos 381)
          (begin_loop platform device (text_of targets_bytes) (pos 381) no_targets unread))
      ≡ false)
    × IsResumable
        (uptane_parse_targets_feed platform device
          (text_of targets_bytes)
          (pos 381)
          no_targets
          unread).st
run_loop-is_going_example =
    run_loop-is_going platform device (text_of targets_bytes) (pos 381) no_targets unread
      unread-IsResumable

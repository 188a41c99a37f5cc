-- ===== src/Tests/Root.antt =====
-- Root metadata that `uptane_parse_root` accepts.
use uptiny.Base.{[], ◌∷◌, ◌≡◌, refl, true, pos, laid, rounds}
use uptiny.Crypto.{KeySignature}
use uptiny.Json.{Input, tok_len, json_str_equal, starts_with, skip_inside, consume_recursive_json}
use uptiny.Root.{RootState, signed_bytes, count_valid, verify_new, parse_new, verify_signed}
use uptiny.Root.{root_fields, uptane_parse_root}
use uptiny.Root.Count.{count_valid-repeated}
use uptiny.RootSigned.{uptane_parse_root_signed}
use uptiny.Base.{cells, ◌-ℤ◌, ◌+ℤ◌}
use uptiny.Signatures.{
  uptane_parse_signatures, read_signatures, meta_keys_of, parse_sig, sig_fields,
}
use uptiny.Signatures.{sig_field, sig_value, store_sig, fits_sig_buf, keyid_value}
use uptiny.Keys.{find_key, find_key_from}
use uptiny.Utils.Hex.{
  hex_bin_cmp, hex_bin_cmp_from, is_hex, from_hex, hex2bin, hex2bin_from, store_digit,
}
use uptiny.Utils.Time.{str2time, time_field}
use uptiny.Utils.Dec.{dec2int, dec2int_from}
use uptiny.Base64.{base64_decode, base64_decode_from, decode_at, decode_quadruple, decode_first}
use uptiny.Base64.{decode_second, decode_third, decode_last, fails, decode_sym}
use uptiny.RootSigned.{signed_fields, signed_field, type_value, expires_value, version_value}
use uptiny.RootSigned.{keys_value, roles_value}
use uptiny.RootSigned.Table.{parse_keys, key_entries, key_entry, key_id, key_object, finish_key}
use uptiny.RootSigned.Table.{free_slot, key_fields, key_field, keytype_value, keyval_value}
use uptiny.RootSigned.Table.{keyval_fields, keyval_field, parse_keyval, free_keys}
use uptiny.RootSigned.Roles.{parse_roles, roles_fields, roles_field, root_value, targets_value}
use uptiny.RootSigned.Roles.{parse_role, role_fields, role_field, keyids_value, threshold_value}
use uptiny.RootSigned.Roles.{read_keyids}
use uptiny.State.{UptaneRoot}
use uptiny.Utils.Time.{UptaneTime}
use uptiny.Tests.Metadata.{toy_crypto, counter, heap, key, root_bytes, root_tokens, text_of, zeros}
use uptiny.Tests.Metadata.{no_token, no_signature}

abbrev pub some_time : UptaneTime
some_time = record { year = 2020; month = 1; day = 1; hour = 0; minute = 0; second = 0 }

-- The root in force, of version 1: one signature of the key at address 0 for either role.
abbrev pub root_in_force : UptaneRoot
root_in_force = record {
  version = pos 1;
  expires = some_time;
  root_threshold = pos 1;
  root_keys_num = 1;
  root_keys = zeros;
  targets_threshold = pos 1;
  targets_keys_num = 1;
  targets_keys = zeros;
}

abbrev pub root_input : Input
root_input = record {
  message = text_of root_bytes;
  pool = laid root_tokens no_token;
  pool_size = 64;
  stack = zeros;
}

abbrev start : RootState toy_crypto counter root_input
start = record {
  root = root_in_force;
  store = record { heap = heap; pool = 1; keys = zeros; num_keys = 0 };
  sigs = λ j. no_signature;
  contexts = λ j. (key, zeros, []);
}

accepted : (uptane_parse_root toy_crypto counter root_input 4 root_in_force (pos 42) start).0 ≡ true
unfolding uptane_parse_root root_fields verify_signed parse_new verify_new count_valid signed_bytes
    cells rounds json_str_equal starts_with tok_len ◌-ℤ◌ ◌+ℤ◌ skip_inside consume_recursive_json
    uptane_parse_signatures read_signatures meta_keys_of parse_sig sig_fields sig_field sig_value
    store_sig fits_sig_buf keyid_value find_key find_key_from hex_bin_cmp hex_bin_cmp_from is_hex
    from_hex base64_decode base64_decode_from decode_at decode_quadruple decode_first decode_second
    decode_third decode_last fails decode_sym uptane_parse_root_signed signed_fields signed_field
    type_value expires_value version_value keys_value roles_value str2time time_field dec2int
    dec2int_from hex2bin hex2bin_from store_digit parse_keys key_entries key_entry key_id key_object
    finish_key free_slot key_fields key_field keytype_value keyval_value keyval_fields keyval_field
    parse_keyval parse_roles roles_fields roles_field root_value targets_value parse_role
    role_fields role_field keyids_value threshold_value read_keyids free_keys
accepted = refl

-- One signature of the key, listed three times.
abbrev repeated : KeySignature
repeated = record { key = 0; sig = λ j. 7 }

count_valid-repeated_example :
    (count_valid toy_crypto 3 0 heap (λ j. repeated) (1 ∷ []) 0 (λ j. (key, zeros, []))).0 ≡ 3
count_valid-repeated_example =
    count_valid-repeated toy_crypto 3 heap (λ j. repeated) (1 ∷ []) (λ j. (key, zeros, [])) repeated
      refl (λ i lt. refl)

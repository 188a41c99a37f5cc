-- ===== src/Tests/Parsing.antt =====
-- The parts of the metadata parsers, on the example files.
use uptiny.Base.{
  ℕ, ◌+◌, ◌<◌, ◌≤◌, ◌≡◌, ◌↔◌, refl, true, none, some, pos, ◌≤ℤ◌, pos_part, get_or, ◌-ℤ◌, ◌+ℤ◌,
  arith,
}
use uptiny.Base64.{base64_decode, base64_decode_from, decode_at, decode_quadruple, decode_first}
use uptiny.Base64.{decode_second, decode_third, decode_last, fails, decode_sym}
use uptiny.Json.{is_array, codes, tok_len, tok_text, json_str_equal, starts_with, skip_inside}
use uptiny.Json.{consume_recursive_json}
use uptiny.Json.Laws.{Skipped, consume_recursive_json-Skipped, json_str_equal_iff}
use uptiny.Keys.{find_key, find_key_from}
use uptiny.Keys.Laws.{HasId, IsFirst, find_key-some, find_key-none}
use uptiny.RootSigned.Table.{KeyStore, parse_keys}
use uptiny.RootSigned.Table.Bound.{IsFilled, parse_keys-IsFilled}
use uptiny.RootSigned.Roles.{RoleKeys, parse_role, role_fields, role_field, keyids_value}
use uptiny.RootSigned.Roles.{threshold_value, read_keyids}
use uptiny.RootSigned.Roles.Listed.{FromTable, parse_role-FromTable, read_keyids-repeated}
use uptiny.Signatures.{
  uptane_parse_signatures, read_signatures, meta_keys_of, parse_sig, sig_fields,
}
use uptiny.Signatures.{sig_field, sig_value, store_sig, fits_sig_buf, keyid_value}
use uptiny.Signatures.Field.{IsGood, parse_sig-IsGood}
use uptiny.Signatures.Listed.{AllGood, uptane_parse_signatures-AllGood}
use uptiny.State.{Role}
use uptiny.Tests.Metadata.{toy_crypto, counter, heap, zeros, no_signature}
use uptiny.Tests.Root.{root_input, root_in_force}
use uptiny.Utils.Dec.{dec2int, dec2int_from}
use uptiny.Utils.Hex.{hex_bin_cmp, hex_bin_cmp_from, is_hex, from_hex}

-- Token 25 is the object "roles".
consume_recursive_json-Skipped_example :
    Skipped root_input.pool 64 (root_input.pool 25).end 26 (consume_recursive_json root_input 25)
consume_recursive_json-Skipped_example = consume_recursive_json-Skipped root_input 25 refl

json_str_equal_iff_example : (json_str_equal root_input 8 (codes "signed") ≡ true) ↔ (
    (tok_len (root_input.pool 8) ≡ pos 6)
    × ((j : ℕ) → j < 6 → tok_text root_input 8 j ≡ get_or (codes "signed") j 0))
json_str_equal_iff_example = json_str_equal_iff root_input 8 (codes "signed")

-- Token 5 is the id of the key.
key_found : find_key heap (tok_text root_input 5) (pos 64) zeros 1 ≡ some 0
unfolding find_key find_key_from hex_bin_cmp hex_bin_cmp_from is_hex from_hex ◌+ℤ◌
key_found = refl

find_key-some_example :
    (pos 64 ≡ pos 64) × ((i : ℕ) × IsFirst heap (tok_text root_input 5) zeros 1 i × (zeros i ≡ 0))
find_key-some_example = find_key-some heap (tok_text root_input 5) (pos 64) zeros 1 0 key_found

-- The text at token 23 is the value of the key, which is no id.
key_not_found : find_key heap (tok_text root_input 23) (pos 64) zeros 1 ≡ none
unfolding find_key find_key_from hex_bin_cmp hex_bin_cmp_from is_hex from_hex ◌+ℤ◌
key_not_found = refl

find_key-none_example : ¬ HasId (heap (zeros 0)) (tok_text root_input 23)
find_key-none_example =
    find_key-none heap (tok_text root_input 23) zeros 1 key_not_found 0 (omega arith)

-- Token 3 is the one signature.
sig_parsed :
    (parse_sig root_input (meta_keys_of Role.root heap root_in_force) 3 no_signature).0 ≡ pos 1
unfolding meta_keys_of parse_sig sig_fields sig_field sig_value store_sig fits_sig_buf keyid_value
    find_key find_key_from hex_bin_cmp hex_bin_cmp_from is_hex from_hex base64_decode
    base64_decode_from decode_at decode_quadruple decode_first decode_second decode_third
    decode_last fails decode_sym json_str_equal starts_with tok_len ◌-ℤ◌ ◌+ℤ◌ skip_inside
    consume_recursive_json
sig_parsed = refl

parse_sig-IsGood_example :
    let (_, last, slot) =
      parse_sig root_input (meta_keys_of Role.root heap root_in_force) 3 no_signature in
    IsGood root_input (meta_keys_of Role.root heap root_in_force) 3 last slot
parse_sig-IsGood_example =
    parse_sig-IsGood root_input (meta_keys_of Role.root heap root_in_force) 3 no_signature 0
      sig_parsed

-- Token 2 is the array of the signatures.
signatures_parsed :
    (uptane_parse_signatures Role.root heap root_input 2 (λ j. no_signature) 4 root_in_force).0
    ≡ pos 1
unfolding uptane_parse_signatures read_signatures meta_keys_of parse_sig sig_fields sig_field
    sig_value store_sig fits_sig_buf keyid_value find_key find_key_from hex_bin_cmp hex_bin_cmp_from
    is_hex from_hex base64_decode base64_decode_from decode_at decode_quadruple decode_first
    decode_second decode_third decode_last fails decode_sym json_str_equal starts_with tok_len ◌-ℤ◌
    ◌+ℤ◌ skip_inside consume_recursive_json
signatures_parsed = refl

uptane_parse_signatures-AllGood_example :
    let (_, last, sigs) =
      uptane_parse_signatures Role.root heap root_input 2 (λ j. no_signature) 4 root_in_force in
    (is_array (root_input.pool 2).type ≡ true)
    × (1 ≤ 4)
    × (1 ≤ pos_part (root_input.pool 2).size)
    × AllGood root_input (meta_keys_of Role.root heap root_in_force) sigs 3 1 last
uptane_parse_signatures-AllGood_example =
    uptane_parse_signatures-AllGood Role.root heap root_input 2 (λ j. no_signature) 4 root_in_force
      1 signatures_parsed

abbrev empty_store : KeyStore counter
empty_store = record { heap = heap; pool = 1; keys = zeros; num_keys = 0 }

-- Token 15 is the object "keys".
parse_keys-IsFilled_example :
    IsFilled toy_crypto counter root_input empty_store
      (parse_keys toy_crypto counter root_input 15 empty_store)
parse_keys-IsFilled_example =
    parse_keys-IsFilled toy_crypto counter root_input 15 empty_store (omega arith)

abbrev no_role : RoleKeys
no_role = record { threshold = pos 0; num = 0; keys = zeros }

-- Token 27 is the role "root".
role_parsed : (parse_role heap zeros 1 root_input 27 no_role).0 ≡ true
unfolding parse_role role_fields role_field keyids_value threshold_value read_keyids dec2int
    dec2int_from find_key find_key_from hex_bin_cmp hex_bin_cmp_from is_hex from_hex json_str_equal
    starts_with tok_len ◌-ℤ◌ ◌+ℤ◌ skip_inside consume_recursive_json
role_parsed = refl

parse_role-FromTable_example :
    (pos 0 ≤ℤ (parse_role heap zeros 1 root_input 27 no_role).2.threshold)
    × FromTable heap zeros 1 root_input
        (parse_role heap zeros 1 root_input 27 no_role).2.keys
        (parse_role heap zeros 1 root_input 27 no_role).2.num
parse_role-FromTable_example = parse_role-FromTable heap zeros 1 root_input 27 no_role role_parsed

-- The one key id at token 30.
keyid_found :
    (j : ℕ)
    → 30 ≤ j
    → j < 30 + 1
    → find_key heap (tok_text root_input j) (tok_len (root_input.pool j)) zeros 1 ≡ some 0
unfolding find_key find_key_from hex_bin_cmp hex_bin_cmp_from is_hex from_hex tok_len ◌-ℤ◌ ◌+ℤ◌
keyid_found j lo hi = let e : j ≡ 30 = omega arith in rw e refl

read_keyids-repeated_example :
    let (_, num', out') = read_keyids heap zeros 1 root_input 1 30 0 zeros in
    (num' ≡ 0 + 1)
    × ((j : ℕ) → j < 0 → out' j ≡ zeros j)
    × ((j : ℕ) → 0 ≤ j → j < 0 + 1 → out' j ≡ 0)
read_keyids-repeated_example =
    read_keyids-repeated heap zeros 1 root_input 1 30 0 0 zeros keyid_found

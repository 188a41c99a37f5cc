-- ===== src/Signatures.antt =====
-- libuptiny/signatures.c: the "signatures" array of a metadata file.
pub mod Field
pub mod Listed
pub mod Forward
use uptiny.Base.{
  ℕ, zero, suc, ◌+◌, ◌*◌, ◌/◌, ◌≡◌, Bool, true, false, not, ◌&&◌, ltb, leb, if◌then◌else◌, Option,
  none, some, ℤ, pos, negsuc, pos_part, ltb_ℤ, eqb_ℤ, Memory, Buffer, write,
}
use uptiny.Base64.{base64_decode}
use uptiny.Crypto.{Key, KeySignature, signature_len}
use uptiny.Json.{Token, Input, is_object, is_array, is_string, tok_len, tok_text, codes}
use uptiny.Json.{json_str_equal, consume_recursive_json}
use uptiny.Keys.{find_key}
use uptiny.State.{Role, root, targets, UptaneRoot}

-- `meta_keys` and `meta_keys_num`, and the memory where the keys are.
pub record MetaKeys : Type 0 where
  pub heap : Memory Key
  pub keys : Memory ℕ
  pub num : ℕ

-- The locals of `parse_sig` and the slot that it fills.
pub record SigState : Type 0 where
  pub idx : ℕ
  pub slot : KeySignature
  pub sig_buf : Buffer
  pub key_found : Bool
  pub sig_found : Bool

-- `memcpy` of `n` bytes
abbrev pub copy : ℕ → Buffer → Buffer → Buffer
copy n from to j = if ltb j n then from j else to j

-- BASE64_DECODED_BUF_SIZE
abbrev pub base64_decoded_buf_size : ℕ → ℕ
base64_decoded_buf_size n = n / 4 * 3

-- The value of "keyid", at `st.idx`.
unfoldable pub keyid_value : Input → MetaKeys → SigState → SigState
keyid_value input meta st =
    if not (is_string tok.type)
    then record st { idx = consume_recursive_json input st.idx }
    else elim (find_key meta.heap (tok_text input st.idx) (tok_len tok) meta.keys meta.num) [
      | none ↦ record st { idx = st.idx + 1 }
      | some k ↦ record st { idx = st.idx + 1; slot = record st.slot { key = k }; key_found = true }
    ]
  where
    tok : Token
    tok = input.pool st.idx

-- `b64_len > 0 && BASE64_DECODED_BUF_SIZE(b64_len) <= CRYPTO_MAX_SIGNATURE_LEN + 2`
unfoldable pub fits_sig_buf : ℤ → Bool
fits_sig_buf b64_len =
    ltb_ℤ (pos 0) b64_len && leb (base64_decoded_buf_size (pos_part b64_len)) (signature_len + 2)

-- A value of "sig" that is a string.
unfoldable pub store_sig : ℤ × Buffer → SigState → SigState
store_sig (res, out) st =
    if eqb_ℤ (pos signature_len) res
    then record st {
      idx = st.idx + 1;
      slot = record st.slot { sig = copy signature_len out st.slot.sig };
      sig_buf = out;
      sig_found = true;
    }
    else record st { idx = st.idx + 1; sig_buf = out }

-- The value of "sig", at `st.idx`.
unfoldable pub sig_value : Input → SigState → SigState
sig_value input st =
    if not (is_string tok.type)
    then record st { idx = consume_recursive_json input st.idx }
    else if fits_sig_buf (tok_len tok)
    then store_sig (base64_decode (tok_text input st.idx) (pos_part (tok_len tok)) st.sig_buf) st
    else record st { idx = st.idx + 1 }
  where
    tok : Token
    tok = input.pool st.idx

-- One round of the loop of `parse_sig`: a name and its value.
unfoldable pub sig_field : Input → MetaKeys → SigState → SigState
sig_field input meta st =
    if json_str_equal input st.idx (codes "keyid")
    then keyid_value input meta next
    else if json_str_equal input st.idx (codes "method")
    then record next { idx = consume_recursive_json input next.idx }
    else if json_str_equal input st.idx (codes "sig")
    then sig_value input next
    else record next { idx = consume_recursive_json input next.idx }
  where
    next : SigState
    next = record st { idx = st.idx + 1 }

unfoldable pub sig_fields : ℕ → Input → MetaKeys → SigState → SigState
sig_fields zero input meta st = st
sig_fields (suc n) input meta st = sig_fields n input meta (sig_field input meta st)

-- The returned value, `*pos` and `*sig`.
unfoldable pub parse_sig : Input → MetaKeys → ℕ → KeySignature → ℤ × ℕ × KeySignature
parse_sig input meta idx sig =
    if not (is_object tok.type)
    then (negsuc 0, idx, sig)
    else (if last.sig_found && last.key_found then pos 1 else pos 0, last.idx, last.slot)
  where
    tok : Token
    tok = input.pool idx

    last : SigState
    last = sig_fields (pos_part tok.size) input meta (record {
      idx = idx + 1;
      slot = sig;
      sig_buf = input.stack;
      key_found = false;
      sig_found = false;
    })

-- The loop of `uptane_parse_signatures`: the rounds left, `token_idx`, `sigs_read` and `output`.
-- The first number is the value of `*pos` to keep on an error.
unfoldable pub read_signatures :
    ℕ → ℕ → Input → MetaKeys → ℕ → ℕ → ℕ → Memory KeySignature → ℤ × ℕ × Memory KeySignature
read_signatures zero start input meta max_sigs idx sigs_read output = (pos sigs_read, idx, output)
read_signatures (suc n) start input meta max_sigs idx sigs_read output =
    let (res, idx', sig) = parse_sig input meta idx (output sigs_read) in
    let output' = write output sigs_read sig in
    elim (leb max_sigs sigs_read) [
      | true ↦ (pos sigs_read, idx, output)
      | false ↦ elim res [
        | negsuc m ↦ (negsuc 0, start, output')
        | pos r ↦ elim r [
          | zero ↦ read_signatures n start input meta max_sigs idx' sigs_read output'
          | suc m ↦ read_signatures n start input meta max_sigs idx' (sigs_read + 1) output'
        ]
      ]
    ]

unfoldable pub meta_keys_of : Role → Memory Key → UptaneRoot → MetaKeys
meta_keys_of root heap r = record { heap = heap; keys = r.root_keys; num = r.root_keys_num }
meta_keys_of targets heap r = record {
  heap = heap;
  keys = r.targets_keys;
  num = r.targets_keys_num;
}

-- The returned value, `*pos` and `output`.
unfoldable pub uptane_parse_signatures :
    Role
    → Memory Key
    → Input
    → ℕ
    → Memory KeySignature
    → ℕ
    → UptaneRoot
    → ℤ × ℕ × Memory KeySignature
uptane_parse_signatures role heap input start output max_sigs in_root =
    if not (is_array tok.type)
    then (negsuc 0, start, output)
    else read_signatures (pos_part tok.size) start input (meta_keys_of role heap in_root) max_sigs
        (start + 1) 0 output
  where
    tok : Token
    tok = input.pool start

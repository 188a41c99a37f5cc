-- ===== src/Signatures/Field.antt =====
-- What the fields of one signature leave in its slot.
use uptiny.Base.{
  ℕ, zero, suc, ◌+◌, ◌<◌, ◌≤◌, ◌≡◌, refl, sym, true, false, ℤ, pos, pos_part, eqb_ℤ, eqb_ℤ→eq,
  Buffer, arith, Bool-cases, Option-cases, inl, inr,
}
use uptiny.Base64.{base64_decode}
use uptiny.Crypto.{KeySignature}
use uptiny.Json.{Input, is_string, tok_len, tok_text, is_object, json_str_equal, codes}
use uptiny.Json.{consume_recursive_json}
use uptiny.Json.Laws.{consume_recursive_json_forward}
use uptiny.Keys.{find_key}
use uptiny.Keys.Laws.{find_key-some}
use uptiny.Signatures.{
  MetaKeys, SigState, keyid_value, fits_sig_buf, store_sig, sig_value, sig_field,
}
use uptiny.Signatures.{sig_fields, parse_sig}

-- The key is one of those in force.
abbrev pub IsListed : MetaKeys → ℕ → Type 0
IsListed meta k = (i : ℕ) × (i < meta.num) × (meta.keys i ≡ k)

-- The signature is the base64 text of a string token behind the name "sig", both of them behind the
-- token `first` and before `last`, and the text stands for 64 bytes.
pub record IsDecoded (input : Input) (first last : ℕ) (s : Buffer) : Type 0 where
  pub name : ℕ
  pub behind : first < name
  pub before : name + 1 < last
  pub is_sig : json_str_equal input name (codes "sig") ≡ true
  pub is_text : is_string (input.pool (name + 1)).type ≡ true
  pub buf : Buffer
  pub out : Buffer
  pub decoded :
      base64_decode (tok_text input (name + 1)) (pos_part (tok_len (input.pool (name + 1)))) buf
      ≡ (pos 64, out)
  pub copied : (j : ℕ) → j < 64 → s j ≡ out j

IsDecoded-later :
    (input : Input) (first last last' : ℕ) (s : Buffer)
    → IsDecoded input first last s
    → last ≤ last'
    → IsDecoded input first last' s
IsDecoded-later input first last last' s v le = record {
  name = v.name;
  behind = v.behind;
  before = omega (arith, v.before);
  is_sig = v.is_sig;
  is_text = v.is_text;
  buf = v.buf;
  out = v.out;
  decoded = v.decoded;
  copied = v.copied;
}

record IsSound (input : Input) (meta : MetaKeys) (first : ℕ) (st : SigState) : Type 0 where
  key : st.key_found ≡ true → IsListed meta st.slot.key
  sig : st.sig_found ≡ true → IsDecoded input first st.idx st.slot.sig
  behind : first < st.idx

module _ (input : Input) (meta : MetaKeys) (first : ℕ) where
  -- The index moves on, and nothing else changes.
  moved-IsSound :
      (st : SigState) (idx' : ℕ)
      → IsSound input meta first st
      → st.idx ≤ idx'
      → IsSound input meta first (record st { idx = idx' })
  moved-IsSound st idx' v le = record {
    key = v.key;
    sig = λ h. IsDecoded-later input first st.idx idx' st.slot.sig (v.sig h) le;
    behind = omega (arith, v.behind);
  }

  skipped-IsSound :
      (st : SigState)
      → IsSound input meta first st
      → IsSound input meta first (record st { idx = consume_recursive_json input st.idx })
  skipped-IsSound st v =
      moved-IsSound st _ v (omega (arith, consume_recursive_json_forward input st.idx))

  keyid_value-IsSound :
      (st : SigState)
      → IsSound input meta first st
      → IsSound input meta first (keyid_value input meta st)
  unfolding keyid_value
  keyid_value-IsSound st v = elim (Bool-cases (is_string (input.pool st.idx).type)) [
    | inr other ↦ rw (other, keyid_value) (skipped-IsSound st v)
    | inl text ↦
        let next = moved-IsSound st (st.idx + 1) v (omega arith) in
        elim (Option-cases (
          find_key meta.heap (tok_text input st.idx) (tok_len (input.pool st.idx)) meta.keys
            meta.num)) [
              | inl unknown ↦ rw (text, unknown, keyid_value) next
              | inr (k, found) ↦
                  let (_, at) = find_key-some meta.heap _ _ meta.keys meta.num k found in
                  rw (text, found, keyid_value)
                    (record {
                      key = λ _. (at.0, at.1.listed, at.2);
                      sig = next.sig;
                      behind = next.behind;
                    })
            ]
  ]

  store_sig-IsSound :
      (name : ℕ) (st : SigState) (r : ℤ × Buffer)
      → IsSound input meta first st
      → first < name
      → st.idx ≡ name + 1
      → json_str_equal input name (codes "sig") ≡ true
      → is_string (input.pool st.idx).type ≡ true
      → base64_decode (tok_text input st.idx) (pos_part (tok_len (input.pool st.idx))) st.sig_buf
        ≡ r
      → IsSound input meta first (store_sig r st)
  unfolding store_sig
  store_sig-IsSound name st (res, out) v low at is_sig text h =
      let next = moved-IsSound st (st.idx + 1) v (omega arith) in
      elim (Bool-cases (eqb_ℤ (pos 64) res)) [
        | inr other ↦
            rw (other, store_sig) (record { key = next.key; sig = next.sig; behind = next.behind })
        | inl same ↦
            let e : res ≡ pos 64 = sym (eqb_ℤ→eq (pos 64) res same) in
            rw (same, store_sig)
              (record {
                key = v.key;
                sig = λ _. record {
                  name = name;
                  behind = low;
                  before = omega arith;
                  is_sig = is_sig;
                  is_text = rw at at text;
                  buf = st.sig_buf;
                  out = out;
                  decoded = rw (at, e) at h;
                  copied = λ j lt. ground arith;
                };
                behind = next.behind;
              })
      ]

  sig_value-IsSound :
      (name : ℕ) (st : SigState)
      → IsSound input meta first st
      → first < name
      → st.idx ≡ name + 1
      → json_str_equal input name (codes "sig") ≡ true
      → IsSound input meta first (sig_value input st)
  unfolding sig_value
  sig_value-IsSound name st v low at is_sig =
      elim (Bool-cases (is_string (input.pool st.idx).type)) [
        | inr other ↦ rw (other, sig_value) (skipped-IsSound st v)
        | inl text ↦ elim (Bool-cases (fits_sig_buf (tok_len (input.pool st.idx)))) [
          | inr large ↦ rw (text, large, sig_value) (moved-IsSound st (st.idx + 1) v (omega arith))
          | inl fits ↦
              rw (text, fits, sig_value) (store_sig-IsSound name st _ v low at is_sig text refl)
        ]
      ]

  sig_field-IsSound :
      (st : SigState)
      → IsSound input meta first st
      → IsSound input meta first (sig_field input meta st)
  unfolding sig_field
  sig_field-IsSound st v = elim (Bool-cases (json_str_equal input st.idx (codes "keyid"))) [
    | inl keyid ↦ rw (keyid, sig_field) (keyid_value-IsSound next next_sound)
    | inr no_keyid ↦ elim (Bool-cases (json_str_equal input st.idx (codes "method"))) [
      | inl method ↦ rw (no_keyid, method, sig_field) (skipped-IsSound next next_sound)
      | inr no_method ↦ elim (Bool-cases (json_str_equal input st.idx (codes "sig"))) [
        | inl sig ↦
            rw (no_keyid, no_method, sig, sig_field)
              (sig_value-IsSound st.idx next next_sound v.behind refl sig)
        | inr no_sig ↦ rw (no_keyid, no_method, no_sig, sig_field) (skipped-IsSound next next_sound)
      ]
    ]
  ]
    where
      next : SigState
      next = record st { idx = st.idx + 1 }

      next_sound : IsSound input meta first next
      next_sound = moved-IsSound st (st.idx + 1) v (omega arith)

  sig_fields-IsSound :
      (n : ℕ) (st : SigState)
      → IsSound input meta first st
      → IsSound input meta first (sig_fields n input meta st)
  unfolding sig_fields
  sig_fields-IsSound zero st v = v
  sig_fields-IsSound (suc n) st v =
      sig_fields-IsSound n (sig_field input meta st) (sig_field-IsSound st v)

-- The object at `first`, whose tokens end before `last`, gave the slot: the key is in force and the
-- signature is read from the object.
pub record IsGood (input : Input) (meta : MetaKeys) (first last : ℕ) (s : KeySignature)
    : Type 0 where
  pub object : is_object (input.pool first).type ≡ true
  pub key : IsListed meta s.key
  pub sig : IsDecoded input first last s.sig

-- Where `parse_sig` returns 1, its token is an object, and the slot holds a key in force and a
-- signature of 64 bytes, which are decoded from a string token behind a name "sig" among the tokens
-- that were passed.
pub parse_sig-IsGood :
    (input : Input) (meta : MetaKeys) (idx : ℕ) (sig : KeySignature) (m : ℕ)
    → (parse_sig input meta idx sig).0 ≡ pos (suc m)
    → IsGood input meta idx (parse_sig input meta idx sig).1 (parse_sig input meta idx sig).2
unfolding parse_sig
parse_sig-IsGood input meta idx sig m h = elim (Bool-cases (is_object (input.pool idx).type)) [
  | inr other ↦ cc (rw (other, parse_sig) at h)
  | inl object ↦ elim (Bool-cases last.sig_found) [
    | inr no_sig ↦ cc (rw (object, parse_sig, no_sig) at h)
    | inl sig_found ↦ elim (Bool-cases last.key_found) [
      | inr no_key ↦ cc (rw (object, parse_sig, sig_found, no_key) at h)
      | inl key_found ↦
          rw (object, parse_sig)
            (record { object = object; key = sound.key key_found; sig = sound.sig sig_found })
    ]
  ]
]
  where
    begin : SigState
    begin = record {
      idx = idx + 1;
      slot = sig;
      sig_buf = input.stack;
      key_found = false;
      sig_found = false;
    }

    last : SigState
    last = sig_fields (pos_part (input.pool idx).size) input meta begin

    sound : IsSound input meta idx last
    sound =
        sig_fields-IsSound input meta idx (pos_part (input.pool idx).size) begin
          (record { key = λ h. cc; sig = λ h. cc; behind = omega arith })

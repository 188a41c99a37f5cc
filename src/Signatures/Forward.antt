-- ===== src/Signatures/Forward.antt =====
-- `uptane_parse_signatures` moves on: its index grows where it reports signatures.
use uptiny.Base.{
  ℕ, zero, suc, ◌+◌, ◌≤◌, ◌<◌, ◌≡◌, true, false, leb, ℤ-cases, pos, pos_part, ltb_ℤ, Memory, write,
  arith, Bool-cases, inl, inr,
}
use uptiny.Crypto.{Key, KeySignature}
use uptiny.Json.{Input, is_array}
use uptiny.Json.Laws.{consume_recursive_json_forward}
use uptiny.Signatures.{MetaKeys, SigState, keyid_value, store_sig, sig_value, sig_field, sig_fields}
use uptiny.Signatures.{parse_sig, read_signatures, meta_keys_of, uptane_parse_signatures}
use uptiny.State.{Role, UptaneRoot}

module _ (input : Input) (meta : MetaKeys) where
  keyid_value_forward : (st : SigState) → st.idx ≤ (keyid_value input meta st).idx
  unfolding keyid_value
  keyid_value_forward st = ground (arith, consume_recursive_json_forward input st.idx)

  sig_value_forward : (st : SigState) → st.idx ≤ (sig_value input st).idx
  unfolding sig_value store_sig
  sig_value_forward st = ground (arith, consume_recursive_json_forward input st.idx)

  sig_field_forward : (st : SigState) → st.idx ≤ (sig_field input meta st).idx
  unfolding sig_field
  sig_field_forward st =
      let next : SigState = record st { idx = st.idx + 1 } in
      ground (
        arith,
        keyid_value_forward next,
        sig_value_forward next,
        consume_recursive_json_forward input (st.idx + 1),
      )

  sig_fields_forward : (n : ℕ) (st : SigState) → st.idx ≤ (sig_fields n input meta st).idx
  unfolding sig_fields
  sig_fields_forward zero st = omega arith
  sig_fields_forward (suc n) st =
      omega (arith, sig_field_forward st, sig_fields_forward n (sig_field input meta st))

  pub parse_sig_forward : (idx : ℕ) (sig : KeySignature) → idx ≤ (parse_sig input meta idx sig).1
  unfolding parse_sig
  parse_sig_forward idx sig = ground (
    arith,
    sig_fields_forward (pos_part (input.pool idx).size) (record {
      idx = idx + 1;
      slot = sig;
      sig_buf = input.stack;
      key_found = false;
      sig_found = false;
    }),
  )

  read_signatures_forward :
      (n start max_sigs idx sigs_read : ℕ) (output : Memory KeySignature)
      → start < idx
      → ltb_ℤ (pos 0) (read_signatures n start input meta max_sigs idx sigs_read output).0 ≡ true
      → start < (read_signatures n start input meta max_sigs idx sigs_read output).1
  unfolding read_signatures
  read_signatures_forward zero start max_sigs idx sigs_read output h some = h
  read_signatures_forward (suc n) start max_sigs idx sigs_read output h some =
      let parsed = parse_sig input meta idx (output sigs_read) in
      let forward = parse_sig_forward idx (output sigs_read) in
      elim (Bool-cases (leb max_sigs sigs_read)) [
        | inl full ↦ rw (full, read_signatures) h
        | inr room ↦ elim (ℤ-cases parsed.0) [
          | inl (m, failed) ↦ cc (rw (room, failed, read_signatures) at some)
          | inr (inl skipped) ↦
              rw (room, skipped, read_signatures)
                (read_signatures_forward n start max_sigs parsed.1 sigs_read
                  (write output sigs_read parsed.2) (omega arith)
                  (rw (room, skipped, read_signatures) at some))
          | inr (inr (m, taken)) ↦
              rw (room, taken, read_signatures)
                (read_signatures_forward n start max_sigs parsed.1 (sigs_read + 1)
                  (write output sigs_read parsed.2) (omega arith)
                  (rw (room, taken, read_signatures) at some))
        ]
      ]

-- Where `uptane_parse_signatures` reports a signature, its index is behind the array token.
pub uptane_parse_signatures_forward :
    (role : Role) (heap : Memory Key) (input : Input) (start : ℕ) (output : Memory KeySignature)
    (max_sigs : ℕ) (in_root : UptaneRoot)
    → let (res, idx, _) = uptane_parse_signatures role heap input start output max_sigs in_root in
      ltb_ℤ (pos 0) res ≡ true → start < idx
unfolding uptane_parse_signatures
uptane_parse_signatures_forward role heap input start output max_sigs in_root some =
    elim (Bool-cases (is_array (input.pool start).type)) [
      | inr other ↦ cc (rw (other, uptane_parse_signatures) at some)
      | inl array ↦
          rw (array, uptane_parse_signatures)
            (read_signatures_forward input (meta_keys_of role heap in_root)
              (pos_part (input.pool start).size) start max_sigs (start + 1) 0 output (omega arith)
              (rw (array, uptane_parse_signatures) at some))
    ]

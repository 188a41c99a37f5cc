-- ===== src/Root.antt =====
-- libuptiny/root.c: the verification of root metadata against the root in force.
pub mod Count
pub mod Accept
use uptiny.Base.{
  ℕ, zero, suc, ◌+◌, Bool, true, false, not, ◌||◌, if◌then◌else◌, List, ℤ, pos, pos_part, size_t,
  ltb_ℤ, Memory, write, at, cells,
}
use uptiny.Crypto.{CryptoApi, Key, KeySignature}
use uptiny.Json.{Token, Input, is_object, tok_len, tok_text, codes, json_str_equal}
use uptiny.Json.{consume_recursive_json}
use uptiny.RootSigned.{SignedState, uptane_parse_root_signed}
use uptiny.RootSigned.Table.{KeyAllocator, KeyStore}
use uptiny.Signatures.{uptane_parse_signatures}
use uptiny.State.{Role, UptaneRoot}

-- `metadata + begin`, `end - begin` bytes of it.
unfoldable pub signed_bytes : Input → ℕ → List ℕ
signed_bytes input idx = cells (tok_text input idx) (size_t (tok_len (input.pool idx)))

module _ (crypto : CryptoApi) where
  -- The loop over the signatures: the rounds left, `j`, `num_valid_signatures` and the contexts.
  unfoldable pub count_valid :
      ℕ
      → ℕ
      → Memory Key
      → Memory KeySignature
      → List ℕ
      → ℕ
      → Memory crypto.Context
      → ℕ × Memory crypto.Context
  count_valid zero j heap sigs bytes num contexts = (num, contexts)
  count_valid (suc n) j heap sigs bytes num contexts =
      let started = crypto.verify_init (contexts j) (heap (sigs j).key) (sigs j).sig in
      let fed = crypto.verify_feed started bytes in
      count_valid n (j + 1) heap sigs bytes (if crypto.verify_result fed then num + 1 else num)
        (write contexts j fed)

module _ (crypto : CryptoApi) (allocator : KeyAllocator) (input : Input) where
  -- What `uptane_parse_root` changes beside its locals: `*out_root`, the static data of
  -- root_signed.c with the key pool, `signature_pool` and `crypto_ctx_pool`.
  pub record RootState : Type 0 where
    pub root : UptaneRoot
    pub store : KeyStore allocator
    pub sigs : Memory KeySignature
    pub contexts : Memory crypto.Context

  module _ (sigs_size : ℕ) (old_root : UptaneRoot) where
    -- The check with the new keys; `*out_root` is `st.root`.
    unfoldable pub verify_new : ℕ → List ℕ → RootState → Bool × RootState
    verify_new signatures_token bytes st =
        let (num, _, sigs) =
          uptane_parse_signatures Role.root st.store.heap input signatures_token st.sigs sigs_size
            st.root in
        let (valid, contexts) =
          count_valid crypto (pos_part num) 0 st.store.heap sigs bytes 0 st.contexts in
        if not (ltb_ℤ (pos 0) num) then (false, record st { sigs = sigs }) else (
          not (ltb_ℤ (pos valid) st.root.root_threshold),
          record st { sigs = sigs; contexts = contexts },
        )

    -- The signed object is parsed, and its version compared with that of the root in force.
    unfoldable pub parse_new : ℕ → ℕ → List ℕ → RootState → Bool × RootState
    parse_new idx signatures_token bytes st =
        let parsed = uptane_parse_root_signed crypto allocator input idx st.root st.store in
        let st' = record st { root = parsed.root; store = parsed.store } in
        if not parsed.going
        then (false, st')
        else if ltb_ℤ parsed.root.version old_root.version
        then (false, st')
        else verify_new signatures_token bytes st'

    -- The value of "signed", at `idx`: the check with the keys in force comes first.
    unfoldable pub verify_signed : ℕ → ℤ → ℕ → RootState → Bool × RootState
    verify_signed idx num_signatures signatures_token st =
        let bytes = signed_bytes input idx in
        let (valid, contexts) =
          count_valid crypto (pos_part num_signatures) 0 st.store.heap st.sigs bytes 0
            st.contexts in
        let st' = record st { contexts = contexts } in
        if not (ltb_ℤ (pos 0) num_signatures)
        then (false, st)
        else if ltb_ℤ (pos valid) old_root.root_threshold
        then (false, st')
        else parse_new idx signatures_token bytes st'

    -- The loop over the top object: the rounds left, `idx`, `num_signatures`, `signatures_token`.
    unfoldable pub root_fields : ℕ → ℕ → ℤ → ℕ → RootState → Bool × RootState
    root_fields zero idx num_signatures signatures_token st = (false, st)
    root_fields (suc n) idx num_signatures signatures_token st =
        let read =
          uptane_parse_signatures Role.root st.store.heap input (idx + 1) st.sigs sigs_size
            old_root in
        let st' = record st { sigs = read.2 } in
        elim (json_str_equal input idx (codes "signatures")) [
          | true ↦ elim (ltb_ℤ (pos 0) read.0) [
            | true ↦ root_fields n read.1 read.0 (idx + 1) st'
            | false ↦ (false, st')
          ]
          | false ↦ elim (json_str_equal input idx (codes "signed")) [
            | true ↦ verify_signed (idx + 1) num_signatures signatures_token st
            | false ↦
                root_fields n (consume_recursive_json input (idx + 1)) num_signatures
                  signatures_token st
          ]
        ]

    -- `parse_result` is what `jsmn_parse` returned when it filled the pool from the message.
    unfoldable pub uptane_parse_root : ℤ → RootState → Bool × RootState
    uptane_parse_root parse_result st =
        if ltb_ℤ parse_result (pos 0) || not (is_object (input.pool 0).type)
        then (false, st)
        else root_fields (pos_part (input.pool 0).size) 1 (pos 0) 0 st

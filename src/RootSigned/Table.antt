-- ===== src/RootSigned/Table.antt =====
-- libuptiny/root_signed.c: `parse_keyval` and `parse_keys`, which fill the static arrays `keys` and
-- `num_keys` with keys from the platform's allocator.
pub mod Bound
use uptiny.Base.{
  ℕ, zero, suc, ◌+◌, ◌*◌, Bool, true, false, not, ◌&&◌, leb, if◌then◌else◌, Option, none, some, ℤ,
  pos, pos_part, eqb_ℤ, Memory, Buffer, write,
}
use uptiny.Crypto.{CryptoApi, Key, KeyType, unknown, ed25519, keyid_len}
use uptiny.Json.{Token, Input, is_object, tok_len, tok_text, codes, json_str_equal}
use uptiny.Json.{consume_recursive_json}
use uptiny.State.{root_max_keys}
use uptiny.Utils.Hex.{hex2bin}

-- `alloc_crypto_key` and `free_crypto_key` of libuptiny/common_data_api.h, with the state of the
-- pool; `none` is NULL.
pub record KeyAllocator : Type 1 where
  pub Pool : Type 0
  pub alloc_crypto_key : Pool → Option (ℕ × Pool)
  pub free_crypto_key : ℕ → Pool → Pool

-- What the functions change: the keys in memory, the pool, and the static `keys` and `num_keys`.
pub record KeyStore (allocator : KeyAllocator) : Type 0 where
  pub heap : Memory Key
  pub pool : allocator.Pool
  pub keys : Memory ℕ
  pub num_keys : ℕ

abbrev pub null : ℕ
null = 0

-- The returned value and the key.
unfoldable pub parse_keyval : Buffer → ℤ → Key → Bool × Key
parse_keyval keyval len key = elim key.key_type [
  | ed25519 ↦ let (ok, bytes) = hex2bin keyval len key.keyval in (ok, record key { keyval = bytes })
  | unknown ↦ (false, key)
]

abbrev pub is_known : KeyType → Bool
is_known ed25519 = true
is_known unknown = false

-- The locals of one round of `parse_keys`, and the key at `keys[num_keys]`.
pub record KeyState : Type 0 where
  pub idx : ℕ
  pub key : Key
  pub keytype_supported : Bool
  pub keyval_found : Bool

module _ (crypto : CryptoApi) (input : Input) where
  -- One field of the "keyval" object.
  unfoldable pub keyval_field : KeyState → KeyState
  keyval_field st =
      if json_str_equal input st.idx (codes "public")
      then (let (found, key) =
            parse_keyval (tok_text input (st.idx + 1)) (tok_len (input.pool (st.idx + 1))) st.key in
          record st { idx = st.idx + 2; key = key; keyval_found = found })
      else record st { idx = consume_recursive_json input (st.idx + 1) }

  unfoldable pub keyval_fields : ℕ → KeyState → KeyState
  keyval_fields zero st = st
  keyval_fields (suc n) st = keyval_fields n (keyval_field st)

  -- The value of "keyval", at `st.idx`. `keyval_size` is read after the object token is consumed.
  unfoldable pub keyval_value : KeyState → KeyState
  keyval_value st =
      if not (is_object (input.pool st.idx).type)
      then st
      else keyval_fields (pos_part (input.pool (st.idx + 1)).size) (record st { idx = st.idx + 1 })

  -- The value of "keytype", at `st.idx`.
  unfoldable pub keytype_value : KeyState → KeyState
  keytype_value st =
      let kind = crypto.str_to_keytype (tok_text input st.idx) (tok_len (input.pool st.idx)) in
      record st {
        idx = st.idx + 1;
        key = record st.key { key_type = kind };
        keytype_supported = is_known kind;
      }

  -- One field of a key object.
  unfoldable pub key_field : KeyState → KeyState
  key_field st =
      if json_str_equal input st.idx (codes "keytype")
      then keytype_value next
      else if json_str_equal input st.idx (codes "keyval")
      then keyval_value next
      else record next { idx = consume_recursive_json input next.idx }
    where
      next : KeyState
      next = record st { idx = st.idx + 1 }

  unfoldable pub key_fields : ℕ → KeyState → KeyState
  key_fields zero st = st
  key_fields (suc n) st = key_fields n (key_field st)

module _ (crypto : CryptoApi) (allocator : KeyAllocator) (input : Input) where
  unfoldable pub free_slot : KeyStore allocator → KeyStore allocator
  free_slot store = record store {
    pool = allocator.free_crypto_key (store.keys store.num_keys) store.pool;
  }

  -- The end of a round: the key is kept, or given back. False where the table is full.
  unfoldable pub finish_key : KeyState → KeyStore allocator → Bool × ℕ × KeyStore allocator
  finish_key st store =
      let stored = record store { heap = write store.heap (store.keys store.num_keys) st.key } in
      if st.keytype_supported && st.keyval_found
      then (
        not (leb root_max_keys (store.num_keys + 1)),
        st.idx,
        record stored { num_keys = store.num_keys + 1 },
      )
      else (true, st.idx, free_slot stored)

  -- The round from the key object on, which starts at `idx`. A value that is no object is consumed
  -- and its key is given back, and the round goes on behind it.
  unfoldable pub key_object : ℕ → Key → KeyStore allocator → Bool × ℕ × KeyStore allocator
  key_object idx key store =
      if not (is_object (input.pool idx).type)
      then from (consume_recursive_json input idx) (free_slot store)
      else from idx store
    where
      from : ℕ → KeyStore allocator → Bool × ℕ × KeyStore allocator
      from at st =
          finish_key
            (key_fields crypto input (pos_part (input.pool at).size)
              (record { idx = at + 1; key = key; keytype_supported = false; keyval_found = false }))
            st

  -- The round from the key id on, with the new key at `keys[num_keys]`.
  unfoldable pub key_id : ℕ → KeyStore allocator → Bool × ℕ × KeyStore allocator
  key_id idx store =
      let key = store.heap (store.keys store.num_keys) in
      let (ok, bytes) = hex2bin (tok_text input idx) (tok_len (input.pool idx)) key.keyid in
      let key' = record key { keyid = bytes } in
      let stored = record store { heap = write store.heap (store.keys store.num_keys) key' } in
      if not (eqb_ℤ (tok_len (input.pool idx)) (pos (2 * keyid_len)))
      then (true, consume_recursive_json input (idx + 1), free_slot store)
      else if not ok
      then (true, consume_recursive_json input (idx + 1), free_slot stored)
      else key_object (idx + 1) key' stored

  -- One round of `parse_keys`: whether it goes on, `idx` and the store.
  unfoldable pub key_entry : ℕ → KeyStore allocator → Bool × ℕ × KeyStore allocator
  key_entry idx store = elim (allocator.alloc_crypto_key store.pool) [
    | none ↦ (false, idx, record store { keys = write store.keys store.num_keys null })
    | some (p, pool) ↦
        key_id idx (record store { pool = pool; keys = write store.keys store.num_keys p })
  ]

  unfoldable pub key_entries : ℕ → ℕ → KeyStore allocator → Bool × ℕ × KeyStore allocator
  key_entries zero idx store = (true, idx, store)
  key_entries (suc n) idx store = elim (key_entry idx store).0 [
    | false ↦ key_entry idx store
    | true ↦ key_entries n (key_entry idx store).1 (key_entry idx store).2
  ]

  -- The returned value, `*pos` where that is true, and the store.
  unfoldable pub parse_keys : ℕ → KeyStore allocator → Bool × ℕ × KeyStore allocator
  parse_keys idx store =
      if not (is_object (input.pool idx).type)
      then (false, idx, store)
      else key_entries (pos_part (input.pool idx).size) (idx + 1) store

-- The clean-up after `parse_keys`: the rounds left and `j`.
module _ (allocator : KeyAllocator) where
  unfoldable pub free_keys : ℕ → ℕ → KeyStore allocator → KeyStore allocator
  free_keys zero j store = store
  free_keys (suc n) j store =
      free_keys n (j + 1)
        (record store { pool = allocator.free_crypto_key (store.keys j) store.pool })

-- ===== src/RootSigned.antt =====
-- libuptiny/root_signed.c: the "signed" object of root metadata. `Keys` has its table of keys,
-- `Roles` its roles, and this file the object itself.
pub mod Table
pub mod Roles
use uptiny.Base.{
  ℕ, zero, suc, ◌+◌, Bool, true, false, not, if◌then◌else◌, Option, none, some, ℤ, pos_part, Memory,
}
use uptiny.Crypto.{CryptoApi}
use uptiny.Json.{Token, Input, is_object, tok_len, tok_text, codes, json_str_equal}
use uptiny.Json.{consume_recursive_json}
use uptiny.State.{UptaneRoot}
use uptiny.Utils.Dec.{dec2int}
use uptiny.Utils.Time.{str2time}
use Table.{KeyAllocator, KeyStore, parse_keys, free_keys}
use Roles.{parse_roles}

module _ (crypto : CryptoApi) (allocator : KeyAllocator) (input : Input) where
  -- The locals and outputs of `uptane_parse_root_signed`; `going` is false once it has returned false.
  pub record SignedState : Type 0 where
    pub going : Bool
    pub idx : ℕ
    pub root : UptaneRoot
    pub store : KeyStore allocator

  unfoldable pub type_value : SignedState → SignedState
  type_value st =
      if not (json_str_equal input st.idx (codes "Root"))
      then record st { going = false }
      else record st { idx = st.idx + 1 }

  unfoldable pub expires_value : SignedState → SignedState
  expires_value st = elim (str2time (tok_text input st.idx) (tok_len (input.pool st.idx))) [
    | none ↦ record st { going = false }
    | some t ↦ record st { idx = st.idx + 1; root = record st.root { expires = t } }
  ]

  unfoldable pub version_value : SignedState → SignedState
  version_value st = elim (dec2int (tok_text input st.idx) (tok_len (input.pool st.idx))) [
    | none ↦ record st { going = false }
    | some v ↦ record st { idx = st.idx + 1; root = record st.root { version = v } }
  ]

  unfoldable pub keys_value : SignedState → SignedState
  keys_value st =
      let (done, idx, store) = parse_keys crypto allocator input st.idx st.store in
      if done
      then record st { idx = idx; store = store }
      else record st { going = false; store = free_keys allocator store.num_keys 0 store }

  unfoldable pub roles_value : SignedState → SignedState
  roles_value st =
      let (done, idx, root) =
        parse_roles st.store.heap st.store.keys st.store.num_keys input st.idx st.root in
      record st { going = done; idx = idx; root = root }

  -- One round of the loop: a name and its value.
  unfoldable pub signed_field : SignedState → SignedState
  signed_field st =
      if json_str_equal input st.idx (codes "_type")
      then type_value next
      else if json_str_equal input st.idx (codes "expires")
      then expires_value next
      else if json_str_equal input st.idx (codes "version")
      then version_value next
      else if json_str_equal input st.idx (codes "keys")
      then keys_value next
      else if json_str_equal input st.idx (codes "roles")
      then roles_value next
      else record next { idx = consume_recursive_json input next.idx }
    where
      next : SignedState
      next = record st { idx = st.idx + 1 }

  unfoldable pub signed_fields : ℕ → SignedState → SignedState
  signed_fields zero st = st
  signed_fields (suc n) st = elim (signed_field st).going [
    | true ↦ signed_fields n (signed_field st)
    | false ↦ signed_field st
  ]

  -- `going` of the result is the returned value; `*pos` is `idx` where that is true.
  unfoldable pub uptane_parse_root_signed : ℕ → UptaneRoot → KeyStore allocator → SignedState
  uptane_parse_root_signed idx out_root store =
      if not (is_object (input.pool idx).type)
      then record { going = false; idx = idx; root = out_root; store = store }
      else signed_fields (pos_part (input.pool idx).size)
          (record { going = true; idx = idx + 1; root = out_root; store = store })

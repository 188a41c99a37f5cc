-- ===== src/RootSigned/Roles.antt =====
-- libuptiny/root_signed.c: `parse_role` and `parse_roles`.
pub mod Listed
use uptiny.Base.{
  ℕ, zero, suc, ◌+◌, Bool, true, false, not, ◌&&◌, if◌then◌else◌, Option, none, some, ℤ, pos,
  pos_part, ltb_ℤ, Memory, write,
}
use uptiny.Crypto.{Key}
use uptiny.Json.{Token, Input, is_object, is_array, tok_len, tok_text, codes, json_str_equal}
use uptiny.Json.{consume_recursive_json}
use uptiny.Keys.{find_key}
use uptiny.State.{UptaneRoot}
use uptiny.Utils.Dec.{dec2int}

-- The outputs of `parse_role`: `*threshold`, `*out_key_num` and `out_keys`.
pub record RoleKeys : Type 0 where
  pub threshold : ℤ
  pub num : ℕ
  pub keys : Memory ℕ

-- Its locals, with the outputs.
pub record RoleState : Type 0 where
  pub idx : ℕ
  pub role : RoleKeys
  pub threshold_found : Bool
  pub keyids_found : Bool

-- The table of keys is the static `keys` and `num_keys`.
module _ (heap : Memory Key) (keys : Memory ℕ) (num_keys : ℕ) (input : Input) where
  -- The loop over the key ids: the rounds left, `idx`, `keyids_num` and `out_keys`.
  unfoldable pub read_keyids : ℕ → ℕ → ℕ → Memory ℕ → ℕ × ℕ × Memory ℕ
  read_keyids zero idx keyids_num out_keys = (idx, keyids_num, out_keys)
  read_keyids (suc n) idx keyids_num out_keys =
      elim (find_key heap (tok_text input idx) (tok_len (input.pool idx)) keys num_keys) [
        | none ↦ read_keyids n (idx + 1) keyids_num out_keys
        | some k ↦ read_keyids n (idx + 1) (keyids_num + 1) (write out_keys keyids_num k)
      ]

  -- The value of "threshold", at `st.idx`.
  unfoldable pub threshold_value : RoleState → RoleState
  threshold_value st = elim (dec2int (tok_text input st.idx) (tok_len (input.pool st.idx))) [
    | none ↦ record st { idx = st.idx + 1 }
    | some thr ↦ if ltb_ℤ thr (pos 0) then record st { idx = st.idx + 1 } else record st {
      idx = st.idx + 1;
      role = record st.role { threshold = thr };
      threshold_found = true;
    }
  ]

  -- The value of "keyids", at `st.idx`.
  unfoldable pub keyids_value : RoleState → RoleState
  keyids_value st =
      let (idx, num, out) =
        read_keyids (pos_part (input.pool st.idx).size) (st.idx + 1) 0 st.role.keys in
      if not (is_array (input.pool st.idx).type)
      then record st { idx = consume_recursive_json input st.idx }
      else record st {
        idx = idx;
        role = record st.role { num = num; keys = out };
        keyids_found = true;
      }

  unfoldable pub role_field : RoleState → RoleState
  role_field st =
      if json_str_equal input st.idx (codes "threshold")
      then threshold_value next
      else if json_str_equal input st.idx (codes "keyids")
      then keyids_value next
      else record next { idx = consume_recursive_json input next.idx }
    where
      next : RoleState
      next = record st { idx = st.idx + 1 }

  unfoldable pub role_fields : ℕ → RoleState → RoleState
  role_fields zero st = st
  role_fields (suc n) st = role_fields n (role_field st)

  -- The returned value, `*pos` and the outputs.
  unfoldable pub parse_role : ℕ → RoleKeys → Bool × ℕ × RoleKeys
  parse_role idx role =
      if not (is_object (input.pool idx).type)
      then (false, idx, role)
      else (last.threshold_found && last.keyids_found, last.idx, last.role)
    where
      last : RoleState
      last =
          role_fields (pos_part (input.pool idx).size)
            (record { idx = idx + 1; role = role; threshold_found = false; keyids_found = false })

  -- The locals of `parse_roles`, and `*root`.
  pub record RolesState : Type 0 where
    pub idx : ℕ
    pub root : UptaneRoot
    pub root_found : Bool
    pub targets_found : Bool

  unfoldable pub root_value : RolesState → RolesState
  root_value st =
      let r = st.root in
      let (found, idx, role) =
        parse_role st.idx
          (record { threshold = r.root_threshold; num = r.root_keys_num; keys = r.root_keys }) in
      record st {
        idx = idx;
        root = record r {
          root_threshold = role.threshold;
          root_keys_num = role.num;
          root_keys = role.keys;
        };
        root_found = found;
      }

  unfoldable pub targets_value : RolesState → RolesState
  targets_value st =
      let r = st.root in
      let (found, idx, role) = parse_role st.idx (record {
        threshold = r.targets_threshold;
        num = r.targets_keys_num;
        keys = r.targets_keys;
      }) in
      record st {
        idx = idx;
        root = record r {
          targets_threshold = role.threshold;
          targets_keys_num = role.num;
          targets_keys = role.keys;
        };
        targets_found = found;
      }

  unfoldable pub roles_field : RolesState → RolesState
  roles_field st =
      if json_str_equal input st.idx (codes "root")
      then root_value next
      else if json_str_equal input st.idx (codes "targets")
      then targets_value next
      else record next { idx = consume_recursive_json input next.idx }
    where
      next : RolesState
      next = record st { idx = st.idx + 1 }

  unfoldable pub roles_fields : ℕ → RolesState → RolesState
  roles_fields zero st = st
  roles_fields (suc n) st = roles_fields n (roles_field st)

  -- The returned value, `*pos` (changed only where an object was read) and `*root`.
  unfoldable pub parse_roles : ℕ → UptaneRoot → Bool × ℕ × UptaneRoot
  parse_roles idx root =
      if not (is_object (input.pool idx).type)
      then (false, idx, root)
      else (last.root_found && last.targets_found, last.idx, last.root)
    where
      last : RolesState
      last =
          roles_fields (pos_part (input.pool idx).size)
            (record { idx = idx + 1; root = root; root_found = false; targets_found = false })

-- ===== src/Targets/Target.antt =====
-- libuptiny/targets.c: `parse_target`, one member of "targets".
pub mod Forward
use uptiny.Base.{
  ℕ, ◌+◌, ◌*◌, Bool, true, false, not, ◌&&◌, ◌||◌, leb, if◌then◌else◌, Option, none, some, pos,
  pos_part, ltb_ℤ, eqb_ℤ, write, rounds,
}
use uptiny.Crypto.{Hash, HashAlgorithm, unknown, sha512}
use uptiny.Json.{Input, is_object, is_string, tok_len, tok_text, codes, json_str_equal}
use uptiny.Json.{consume_recursive_json}
use uptiny.Signatures.{copy}
use uptiny.State.{UptaneTargets, targets_max_hashes, targets_max_name_length}
use uptiny.Targets.{Platform, Device}
use uptiny.Utils.Dec.{dec2int}
use uptiny.Utils.Hex.{hex2bin}

-- `parse_target_result_t`
pub data TargetResult : Type 0 where
  error not_for_me for_me wrong_hw_id : TargetResult

-- The locals, `*target`, and the result once the function has returned before its end.
pub record TargetState : Type 0 where
  pub idx : ℕ
  pub target : UptaneTargets
  pub target_for_me : Bool
  pub returned : Option TargetResult

abbrev pub target_going : TargetState → Bool
target_going st = elim st.returned [ none ↦ true | some r ↦ false ]

abbrev pub is_unknown : HashAlgorithm → Bool
is_unknown unknown = true
is_unknown sha512 = false

module _ (platform : Platform) (device : Device) (input : Input) where
  -- "Unknown field": the name and its value are consumed.
  unfoldable pub skip_field : TargetState → TargetState
  skip_field st = record st { idx = consume_recursive_json input (st.idx + 1) }

  -- An object with `body` for each of its members: the loop starts behind the object token.
  unfoldable pub object_fields : (TargetState → TargetState) → TargetState → TargetState
  object_fields body st =
      if not (is_object (input.pool st.idx).type)
      then record st { returned = some error }
      else rounds target_going body (pos_part (input.pool st.idx).size)
          (record st { idx = st.idx + 1 })

  unfoldable pub hw_id_field : Bool → TargetState → TargetState
  hw_id_field is_for_me st =
      if json_str_equal input st.idx (codes "hardwareId")
      then (if is_for_me && not (json_str_equal input (st.idx + 1) device.hwid)
          then record st { idx = st.idx + 1; returned = some wrong_hw_id }
          else record st { idx = st.idx + 2 })
      else skip_field st

  unfoldable pub ecu_field : TargetState → TargetState
  ecu_field st =
      let is_for_me = json_str_equal input st.idx device.ecuid in
      let read = object_fields (hw_id_field is_for_me) (record st { idx = st.idx + 1 }) in
      if target_going read && is_for_me then record read { target_for_me = true } else read

  unfoldable pub custom_field : TargetState → TargetState
  custom_field st =
      if json_str_equal input st.idx (codes "ecuIdentifiers")
      then object_fields ecu_field (record st { idx = st.idx + 1 })
      else skip_field st

  -- The loop over "hashes" also counts `hash_idx`.
  unfoldable pub hash_field : TargetState × ℕ → TargetState × ℕ
  hash_field (st, hash_idx) =
      let alg = platform.str_to_hashtype (tok_text input st.idx) (tok_len (input.pool st.idx)) in
      let at = st.idx + 1 in
      let old = (st.target.hashes hash_idx).hash in
      let (ok, bytes) = hex2bin (tok_text input at) (tok_len (input.pool at)) old in
      let hash : Hash = record { alg = alg; hash = bytes } in
      let target = record st.target { hashes = write st.target.hashes hash_idx hash } in
      if is_unknown alg
      then (record st { idx = consume_recursive_json input at }, hash_idx)
      else if leb targets_max_hashes hash_idx
      then (record st { idx = at }, hash_idx)
      else if not (eqb_ℤ (tok_len (input.pool at)) (pos (platform.get_hashlen alg * 2)))
      then (record st { idx = at; returned = some error }, hash_idx)
      else if not ok
      then (record st { idx = at; target = target; returned = some error }, hash_idx)
      else (record st { idx = at + 1; target = target }, hash_idx + 1)

  -- The value of "hashes", at `st.idx`; `hashes_num` is set at the end of the loop.
  unfoldable pub hashes_value : TargetState → TargetState
  hashes_value st =
      let (read, num) =
        rounds (λ s. target_going s.0) hash_field (pos_part (input.pool st.idx).size)
          (record st { idx = st.idx + 1 }, 0) in
      if not (is_object (input.pool st.idx).type)
      then record st { returned = some error }
      else if target_going read
      then record read { target = record read.target { hashes_num = num } }
      else read

  -- The value of "length", at `st.idx`.
  unfoldable pub length_value : TargetState → TargetState
  length_value st = elim (dec2int (tok_text input st.idx) (tok_len (input.pool st.idx))) [
    | none ↦ record st { returned = some error }
    | some n ↦
        if ltb_ℤ n (pos 0)
        then record st { returned = some error }
        else record st { idx = st.idx + 1; target = record st.target { length = pos_part n } }
  ]

  unfoldable pub target_field : TargetState → TargetState
  target_field st =
      if json_str_equal input st.idx (codes "custom")
      then object_fields custom_field next
      else if json_str_equal input st.idx (codes "hashes")
      then hashes_value next
      else if json_str_equal input st.idx (codes "length")
      then length_value next
      else skip_field st
    where
      next : TargetState
      next = record st { idx = st.idx + 1 }

  -- The checks of the target's name, and the copy of it.
  unfoldable pub target_name : ℕ → UptaneTargets → TargetState
  target_name idx target =
      let tok = input.pool idx in
      let len = tok_len tok in
      let start : TargetState = record {
        idx = idx;
        target = target;
        target_for_me = false;
        returned = none;
      } in
      let name = copy (pos_part len) (tok_text input idx) target.name in
      if not (is_string tok.type)
      then record start { returned = some error }
      else if ltb_ℤ (pos targets_max_name_length) len || not (ltb_ℤ (pos 0) len)
      then record start { returned = some error }
      else record start { idx = idx + 1; target = record target { name = name } }

  -- The result, `*pos` and `*target`; `*pos` changes only where the function reaches its end.
  unfoldable pub parse_target : ℕ → UptaneTargets → TargetResult × ℕ × UptaneTargets
  parse_target start target =
      let named = target_name start target in
      let read = if target_going named then object_fields target_field named else named in
      elim read.returned [
        | some r ↦ (r, start, read.target)
        | none ↦ (if read.target_for_me then for_me else not_for_me, read.idx, read.target)
      ]

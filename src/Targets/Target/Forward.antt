-- ===== src/Targets/Target/Forward.antt =====
-- `parse_target` moves on: its index grows where it does not fail.
use uptiny.Base.{
  ℕ, ◌+◌, ◌≤◌, ◌<◌, ◌≡◌, refl, sym, ◌∙◌, Bool, true, false, if◌then◌else◌, Option, none, some,
  pos_part, arith, Bool-cases, Option-cases, inl, inr, rounds_inv,
}
use uptiny.Json.{json_str_equal, Input, is_object}
use uptiny.Json.Laws.{consume_recursive_json_forward}
use uptiny.State.{UptaneTargets}
use uptiny.Targets.{Platform, Device}
use uptiny.Targets.Target.{
  TargetResult, TargetState, target_going, error, not_for_me, for_me, wrong_hw_id,
}
use uptiny.Targets.Target.{
  skip_field, object_fields, hw_id_field, ecu_field, custom_field, hash_field,
}
use uptiny.Targets.Target.{hashes_value, length_value, target_field, target_name, parse_target}

abbrev pub is_failure : TargetResult → Bool
is_failure error = true
is_failure wrong_hw_id = true
is_failure for_me = false
is_failure not_for_me = false

abbrev only_fails : Option TargetResult → Bool
only_fails none = true
only_fails (some r) = is_failure r

module _ (platform : Platform) (device : Device) (input : Input) (low : ℕ) where
  record IsPast (st : TargetState) : Type 0 where
    past : low ≤ st.idx
    result : only_fails st.returned ≡ true

  skip_field-IsPast : (st : TargetState) → IsPast st → IsPast (skip_field platform device input st)
  unfolding skip_field
  skip_field-IsPast st v = record {
    past = omega (arith, v.past, consume_recursive_json_forward input (st.idx + 1));
    result = v.result;
  }

  object_fields-IsPast :
      (body : TargetState → TargetState)
      → ((s : TargetState) → IsPast s → IsPast (body s))
      → (st : TargetState) → IsPast st
      → IsPast (object_fields platform device input body st)
  unfolding object_fields
  object_fields-IsPast body keep st v = elim (Bool-cases (is_object (input.pool st.idx).type)) [
    | inr other ↦ rw (other, object_fields) (record { past = v.past; result = refl })
    | inl object ↦
        rw (object, object_fields)
          (rounds_inv IsPast target_going body (λ s go p. keep s p) _ _
            (record { past = omega (arith, v.past); result = v.result }))
  ]

  hw_id_field-IsPast :
      (is_for_me : Bool) (st : TargetState)
      → IsPast st
      → IsPast (hw_id_field platform device input is_for_me st)
  unfolding hw_id_field
  hw_id_field-IsPast is_for_me st v = ground (arith, skip_field-IsPast st v)

  ecu_field-IsPast : (st : TargetState) → IsPast st → IsPast (ecu_field platform device input st)
  unfolding ecu_field
  ecu_field-IsPast st v =
      let is_for_me = json_str_equal input st.idx device.ecuid in
      let read =
        object_fields-IsPast (hw_id_field platform device input is_for_me)
          (hw_id_field-IsPast is_for_me) (record st { idx = st.idx + 1 })
          (record { past = omega (arith, v.past); result = v.result }) in
      ground (arith, read)

  custom_field-IsPast :
      (st : TargetState) → IsPast st → IsPast (custom_field platform device input st)
  unfolding custom_field
  custom_field-IsPast st v =
      let read =
        object_fields-IsPast (ecu_field platform device input) ecu_field-IsPast
          (record st { idx = st.idx + 1 })
          (record { past = omega (arith, v.past); result = v.result }) in
      ground (arith, read, skip_field-IsPast st v)

  hash_field-IsPast :
      (s : TargetState × ℕ) → IsPast s.0 → IsPast (hash_field platform device input s).0
  unfolding hash_field
  hash_field-IsPast (st, hash_idx) v =
      ground (arith, v, consume_recursive_json_forward input (st.idx + 1))

  hashes_value-IsPast :
      (st : TargetState) → IsPast st → IsPast (hashes_value platform device input st)
  unfolding hashes_value
  hashes_value-IsPast st v =
      let read =
        rounds_inv (λ s. IsPast s.0) (λ s. target_going s.0) (hash_field platform device input)
          (λ s go p. hash_field-IsPast s p) (pos_part (input.pool st.idx).size)
          (record st { idx = st.idx + 1 }, 0)
          (record { past = omega (arith, v.past); result = v.result }) in
      ground (arith, read, v)

  length_value-IsPast :
      (st : TargetState) → IsPast st → IsPast (length_value platform device input st)
  unfolding length_value
  length_value-IsPast st v = ground (arith, v)

  target_field-IsPast :
      (st : TargetState) → IsPast st → IsPast (target_field platform device input st)
  unfolding target_field
  target_field-IsPast st v =
      let next : TargetState = record st { idx = st.idx + 1 } in
      let v' : IsPast next = record { past = omega (arith, v.past); result = v.result } in
      ground (
        arith,
        object_fields-IsPast (custom_field platform device input) custom_field-IsPast next v',
        hashes_value-IsPast next v',
        length_value-IsPast next v',
        skip_field-IsPast st v,
      )

-- The name is a token, or the target is_failure at it.
target_name_lem :
    (platform : Platform) (device : Device) (input : Input) (start : ℕ) (target : UptaneTargets)
    → let named = target_name platform device input start target in
      (only_fails named.returned ≡ true) × (target_going named ≡ true → start + 1 ≤ named.idx)
unfolding target_name
target_name_lem platform device input start target = ground arith

-- The state from which the result is made.
abbrev read_target : Platform → Device → Input → ℕ → UptaneTargets → TargetState
read_target platform device input start target =
    let named = target_name platform device input start target in
    if target_going named
    then object_fields platform device input (target_field platform device input) named
    else named

read_target_lem :
    (platform : Platform) (device : Device) (input : Input) (start : ℕ) (target : UptaneTargets)
    → let read = read_target platform device input start target in
      (only_fails read.returned ≡ true) × (target_going read ≡ true → start < read.idx)
read_target_lem platform device input start target =
    let named = target_name platform device input start target in
    let (result, past) = target_name_lem platform device input start target in
    elim (Bool-cases (target_going named)) [
      | inl going ↦
          let v =
            object_fields-IsPast platform device input (start + 1)
              (target_field platform device input)
              (target_field-IsPast platform device input (start + 1)) named
              (record { past = past going; result = result }) in
          rw going (v.result, λ _. omega (arith, v.past))
      | inr over ↦ rw over (result, λ on. cc (sym over ∙ on))
    ]

-- Where `parse_target` does not fail, its index is behind the one that it started from.
pub parse_target_forward :
    (platform : Platform) (device : Device) (input : Input) (start : ℕ) (target : UptaneTargets)
    → is_failure (parse_target platform device input start target).0 ≡ false
    → start < (parse_target platform device input start target).1
unfolding parse_target
parse_target_forward platform device input start target h =
    let (result, past) = read_target_lem platform device input start target in
    elim (Option-cases (read_target platform device input start target).returned) [
      | inl on ↦ rw (on, parse_target) (past (rw (on, target_going) refl))
      | inr (r, stop) ↦ cc (sym (rw (stop, parse_target) at h) ∙ (rw stop at result))
    ]

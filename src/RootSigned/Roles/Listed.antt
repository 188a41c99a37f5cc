-- ===== src/RootSigned/Roles/Listed.antt =====
-- The keys and thresholds that `parse_role` gives a role.
use uptiny.Base.{
  ℕ, zero, suc, ◌+◌, ◌≤◌, ◌<◌, ◌≡◌, refl, ◌∙◌, Bool, true, false, ◌&&◌, ◌==◌, some, pos, pos_part,
  ltb_ℤ, ltb_ℤ_false, ◌≤ℤ◌, Memory, write, arith, Bool-cases, Option-cases, inl, inr,
}
use uptiny.Crypto.{Key}
use uptiny.Json.{Input, is_object, is_array, tok_len, tok_text, codes, json_str_equal}
use uptiny.Keys.{find_key}
use uptiny.Keys.Laws.{find_key-some}
use uptiny.RootSigned.Roles.{RoleKeys, RoleState, read_keyids, threshold_value, keyids_value}
use uptiny.RootSigned.Roles.{role_field, role_fields, parse_role}
use uptiny.Utils.Dec.{dec2int}

module _ (heap : Memory Key) (keys : Memory ℕ) (num_keys : ℕ) (input : Input) where
  -- The first `n` keys are keys of the table.
  abbrev pub FromTable : Memory ℕ → ℕ → Type 0
  FromTable out n = (j : ℕ) → j < n → (i : ℕ) × (i < num_keys) × (keys i ≡ out j)

  read_keyids-FromTable :
      (n idx num : ℕ) (out : Memory ℕ)
      → FromTable out num
      → let (_, num', out') = read_keyids heap keys num_keys input n idx num out in
        FromTable out' num' × (num' ≤ num + n)
  unfolding read_keyids
  read_keyids-FromTable zero idx num out all = (all, omega arith)
  read_keyids-FromTable (suc n) idx num out all =
      elim (Option-cases
        (find_key heap (tok_text input idx) (tok_len (input.pool idx)) keys num_keys)) [
          | inl unknown ↦
              let rest = read_keyids-FromTable n (idx + 1) num out all in
              rw (unknown, read_keyids) (rest.0, omega (arith, rest.1))
          | inr (k, found) ↦
              let (_, at) = find_key-some heap _ _ keys num_keys k found in
              let all' : FromTable (write out num k) (num + 1) = λ j lt.
                elim (Bool-cases (j == num)) [
                  | inl same ↦ rw same (at.0, at.1.listed, at.2)
                  | inr other ↦ rw other (all j (ground arith))
                ] in
              let rest = read_keyids-FromTable n (idx + 1) (num + 1) (write out num k) all' in
              rw (found, read_keyids) (rest.0, omega (arith, rest.1))
        ]

  record IsRole (st : RoleState) : Type 0 where
    threshold : st.threshold_found ≡ true → pos 0 ≤ℤ st.role.threshold
    keyids : st.keyids_found ≡ true → FromTable st.role.keys st.role.num

  threshold_value-IsRole :
      (st : RoleState) → IsRole st → IsRole (threshold_value heap keys num_keys input st)
  unfolding threshold_value
  threshold_value-IsRole st v =
      elim (Option-cases (dec2int (tok_text input st.idx) (tok_len (input.pool st.idx)))) [
        | inl bad ↦
            rw (bad, threshold_value) (record { threshold = v.threshold; keyids = v.keyids })
        | inr (thr, good) ↦ elim (Bool-cases (ltb_ℤ thr (pos 0))) [
          | inl negative ↦
              rw (good, negative, threshold_value)
                (record { threshold = v.threshold; keyids = v.keyids })
          | inr valid ↦
              rw (good, valid, threshold_value)
                (record { threshold = λ _. ltb_ℤ_false thr (pos 0) valid; keyids = v.keyids })
        ]
      ]

  keyids_value-IsRole :
      (st : RoleState) → IsRole st → IsRole (keyids_value heap keys num_keys input st)
  unfolding keyids_value
  keyids_value-IsRole st v = elim (Bool-cases (is_array (input.pool st.idx).type)) [
    | inr other ↦ rw (other, keyids_value) (record { threshold = v.threshold; keyids = v.keyids })
    | inl array ↦
        rw (array, keyids_value)
          (record {
            threshold = v.threshold;
            keyids = λ _.
                (read_keyids-FromTable (pos_part (input.pool st.idx).size) (st.idx + 1) 0
                  st.role.keys (λ j lt. absurd (omega arith))).0;
          })
  ]

  role_field-IsRole : (st : RoleState) → IsRole st → IsRole (role_field heap keys num_keys input st)
  unfolding role_field
  role_field-IsRole st v = elim (Bool-cases (json_str_equal input st.idx (codes "threshold"))) [
    | inl threshold ↦ rw (threshold, role_field) (threshold_value-IsRole next next_ok)
    | inr other ↦ elim (Bool-cases (json_str_equal input st.idx (codes "keyids"))) [
      | inl keyids ↦ rw (other, keyids, role_field) (keyids_value-IsRole next next_ok)
      | inr unknown ↦
          rw (other, unknown, role_field) (record { threshold = v.threshold; keyids = v.keyids })
    ]
  ]
    where
      next : RoleState
      next = record st { idx = st.idx + 1 }

      next_ok : IsRole next
      next_ok = record { threshold = v.threshold; keyids = v.keyids }

  role_fields-IsRole :
      (n : ℕ) (st : RoleState) → IsRole st → IsRole (role_fields heap keys num_keys input n st)
  unfolding role_fields
  role_fields-IsRole zero st v = v
  role_fields-IsRole (suc n) st v = role_fields-IsRole n _ (role_field-IsRole st v)

-- Where `parse_role` returns true, the threshold is not negative and every key of the role is one
-- of the keys in the table.
pub parse_role-FromTable :
    (heap : Memory Key) (keys : Memory ℕ) (num_keys : ℕ) (input : Input) (idx : ℕ) (role : RoleKeys)
    → let (done, _, out) = parse_role heap keys num_keys input idx role in
      done ≡ true → (pos 0 ≤ℤ out.threshold) × FromTable heap keys num_keys input out.keys out.num
unfolding parse_role
parse_role-FromTable heap keys num_keys input idx role h =
    elim (Bool-cases (is_object (input.pool idx).type)) [
      | inr other ↦ cc (rw (other, parse_role) at h)
      | inl object ↦
          let h' = both last.threshold_found last.keyids_found (rw (object, parse_role) at h) in
          rw (object, parse_role) (sound.threshold h'.0, sound.keyids h'.1)
    ]
  where
    both : (a b : Bool) → (a && b) ≡ true → (a ≡ true) × (b ≡ true)
    both true true e = (refl, refl)
    both true false e = cc
    both false b e = cc

    begin : RoleState
    begin = record { idx = idx + 1; role = role; threshold_found = false; keyids_found = false }

    last : RoleState
    last = role_fields heap keys num_keys input (pos_part (input.pool idx).size) begin

    sound : IsRole heap keys num_keys input last
    sound =
        role_fields-IsRole heap keys num_keys input (pos_part (input.pool idx).size) begin
          (record { threshold = λ e. cc; keyids = λ e. cc })

-- The key ids of a role are not held against ROOT_MAX_KEYS, nor against one another: n ids of one
-- key of the table write n addresses of it one after another.
pub read_keyids-repeated :
    (heap : Memory Key) (keys : Memory ℕ) (num_keys : ℕ) (input : Input) (n idx num k : ℕ)
    (out : Memory ℕ)
    → ((j : ℕ)
        → idx ≤ j
        → j < idx + n
        → find_key heap (tok_text input j) (tok_len (input.pool j)) keys num_keys ≡ some k)
    → let (_, num', out') = read_keyids heap keys num_keys input n idx num out in
      (num' ≡ num + n)
      × ((j : ℕ) → j < num → out' j ≡ out j)
      × ((j : ℕ) → num ≤ j → j < num + n → out' j ≡ k)
unfolding read_keyids
read_keyids-repeated heap keys num_keys input zero idx num k out found =
    (omega arith, λ j lt. refl, λ j lo hi. absurd (omega arith))
read_keyids-repeated heap keys num_keys input (suc n) idx num k out found =
    let here = found idx (omega arith) (omega arith) in
    let rest =
      read_keyids-repeated heap keys num_keys input n (idx + 1) (num + 1) k (write out num k)
        (λ j lo hi. found j (omega arith) (omega arith)) in
    rw (here, read_keyids)
      (
        omega (arith, rest.0),
        λ j lt. rest.1 j (omega arith) ∙ ground arith,
        λ j lo hi. elim (Bool-cases (j == num)) [
          | inl same ↦ rest.1 j (ground arith) ∙ rw same
          | inr other ↦ rest.2 j (ground arith) (omega arith)
        ],
      )

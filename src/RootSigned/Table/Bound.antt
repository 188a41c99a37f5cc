-- ===== src/RootSigned/Table/Bound.antt =====
-- The static table of keys: how far `parse_keys` fills it.
use uptiny.Base.{
  ℕ, zero, suc, ◌+◌, ◌*◌, ◌≤◌, ◌<◌, ◌≡◌, refl, ◌∙◌, ap, ◌≢◌, Bool, true, ◌&&◌, pos, eqb_ℤ, write,
  write_ne, arith, Bool-cases, Option-cases, inl, inr,
}
use uptiny.Crypto.{CryptoApi, Key, keyid_len}
use uptiny.Json.{Input, is_object, tok_len, tok_text}
use uptiny.RootSigned.Table.{KeyAllocator, KeyStore, KeyState, null, free_slot, finish_key}
use uptiny.RootSigned.Table.{key_object, key_id, key_entry, key_entries, parse_keys}
use uptiny.State.{root_max_keys}
use uptiny.Utils.Hex.{hex2bin}

module _ (crypto : CryptoApi) (allocator : KeyAllocator) (input : Input) where
  -- A part of a round that leaves the array alone: one key more at most, and room for the next one
  -- where the loop goes on.
  record IsRound (store : KeyStore allocator) (out : Bool × ℕ × KeyStore allocator) : Type 0 where
    keys : out.2.keys ≡ store.keys
    more : store.num_keys ≤ out.2.num_keys
    one : out.2.num_keys ≤ store.num_keys + 1
    room : out.0 ≡ true → store.num_keys < root_max_keys → out.2.num_keys < root_max_keys

  finish_key-IsRound :
      (st : KeyState) (store : KeyStore allocator)
      → IsRound store (finish_key crypto allocator input st store)
  unfolding finish_key free_slot
  finish_key-IsRound st store = elim (Bool-cases (st.keytype_supported && st.keyval_found)) [
    | inr no_key ↦
        rw (no_key, finish_key)
          (record { keys = refl; more = omega arith; one = omega arith; room = λ h lt. lt })
    | inl key ↦
        rw (key, finish_key)
          (record {
            keys = refl;
            more = omega arith;
            one = omega arith;
            room = λ h lt. ground arith;
          })
  ]

  key_object-IsRound :
      (idx : ℕ) (key : Key) (store : KeyStore allocator)
      → IsRound store (key_object crypto allocator input idx key store)
  unfolding key_object free_slot
  key_object-IsRound idx key store = elim (Bool-cases (is_object (input.pool idx).type)) [
    | inl object ↦ rw (object, key_object) (finish_key-IsRound _ store)
    | inr other ↦
        let r = finish_key-IsRound _ (free_slot crypto allocator input store) in
        rw (other, key_object) (record { keys = r.keys; more = r.more; one = r.one; room = r.room })
  ]

  key_id-IsRound :
      (idx : ℕ) (store : KeyStore allocator)
      → IsRound store (key_id crypto allocator input idx store)
  unfolding key_id free_slot
  key_id-IsRound idx store =
      let key = store.heap (store.keys store.num_keys) in
      let read = hex2bin (tok_text input idx) (tok_len (input.pool idx)) key.keyid in
      elim (Bool-cases (eqb_ℤ (tok_len (input.pool idx)) (pos (2 * keyid_len)))) [
        | inr other ↦
            rw (other, key_id)
              (record { keys = refl; more = omega arith; one = omega arith; room = λ h lt. lt })
        | inl long ↦ elim (Bool-cases read.0) [
          | inr bad ↦
              rw (long, bad, key_id)
                (record { keys = refl; more = omega arith; one = omega arith; room = λ h lt. lt })
          | inl good ↦
              let r = key_object-IsRound (idx + 1) (record key { keyid = read.1 }) _ in
              rw (long, good, key_id)
                (record { keys = r.keys; more = r.more; one = r.one; room = r.room })
        ]
      ]

  -- A round of `parse_keys` writes `keys` at `num_keys` alone.
  record IsEntry (store : KeyStore allocator) (out : Bool × ℕ × KeyStore allocator) : Type 0 where
    keys : (j : ℕ) → j ≢ store.num_keys → out.2.keys j ≡ store.keys j
    more : store.num_keys ≤ out.2.num_keys
    one : out.2.num_keys ≤ store.num_keys + 1
    room : out.0 ≡ true → store.num_keys < root_max_keys → out.2.num_keys < root_max_keys

  key_entry-IsEntry :
      (idx : ℕ) (store : KeyStore allocator)
      → IsEntry store (key_entry crypto allocator input idx store)
  unfolding key_entry
  key_entry-IsEntry idx store = elim (Option-cases (allocator.alloc_crypto_key store.pool)) [
    | inl full ↦
        rw (full, key_entry)
          (record {
            keys = λ j ne. write_ne store.keys store.num_keys j null ne;
            more = omega arith;
            one = omega arith;
            room = λ h lt. lt;
          })
    | inr ((p, pool), got) ↦
        let r =
          key_id-IsRound idx
            (record store { pool = pool; keys = write store.keys store.num_keys p }) in
        rw (got, key_entry)
          (record {
            keys = λ j ne. ap (λ m. m j) r.keys ∙ write_ne store.keys store.num_keys j p ne;
            more = r.more;
            one = r.one;
            room = r.room;
          })
  ]

  -- What `parse_keys` does to the table.
  pub record IsFilled (store : KeyStore allocator) (out : Bool × ℕ × KeyStore allocator)
      : Type 0 where
    pub frame : (j : ℕ) → root_max_keys ≤ j → out.2.keys j ≡ store.keys j
    pub kept : (j : ℕ) → j < store.num_keys → out.2.keys j ≡ store.keys j
    pub grows : store.num_keys ≤ out.2.num_keys
    pub room : out.0 ≡ true → out.2.num_keys < root_max_keys
    pub most : out.2.num_keys ≤ root_max_keys

  key_entries-IsFilled :
      (n idx : ℕ) (store : KeyStore allocator)
      → store.num_keys < root_max_keys
      → IsFilled store (key_entries crypto allocator input n idx store)
  unfolding key_entries
  key_entries-IsFilled zero idx store h = record {
    frame = λ j lt. refl;
    kept = λ j lt. refl;
    grows = omega arith;
    room = λ _. h;
    most = omega arith;
  }
  key_entries-IsFilled (suc n) idx store h =
      let entry = key_entry crypto allocator input idx store in
      let r = key_entry-IsEntry idx store in
      elim (Bool-cases entry.0) [
        | inr stop ↦
            rw (stop, key_entries)
              (record {
                frame = λ j lt. r.keys j (omega arith);
                kept = λ j lt. r.keys j (omega arith);
                grows = r.more;
                room = λ go. cc;
                most = omega (arith, r.one);
              })
        | inl go ↦
            let rest = key_entries-IsFilled n entry.1 entry.2 (r.room go h) in
            rw (go, key_entries)
              (record {
                frame = λ j lt. rest.frame j lt ∙ r.keys j (omega arith);
                kept = λ j lt. rest.kept j (omega (arith, r.more)) ∙ r.keys j (omega arith);
                grows = omega (arith, rest.grows, r.more);
                room = rest.room;
                most = rest.most;
              })
      ]

-- From fewer than ROOT_MAX_KEYS keys `parse_keys` never writes the table out of range, keeps the
-- keys that were in it, never drops one, leaves room where it returns true, and never counts more
-- than ROOT_MAX_KEYS.
pub parse_keys-IsFilled :
    (crypto : CryptoApi) (allocator : KeyAllocator) (input : Input) (idx : ℕ)
    (store : KeyStore allocator)
    → store.num_keys < root_max_keys
    → IsFilled crypto allocator input store (parse_keys crypto allocator input idx store)
unfolding parse_keys
parse_keys-IsFilled crypto allocator input idx store h =
    elim (Bool-cases (is_object (input.pool idx).type)) [
      | inr other ↦
          rw (other, parse_keys)
            (record {
              frame = λ j lt. refl;
              kept = λ j lt. refl;
              grows = omega arith;
              room = λ _. h;
              most = omega arith;
            })
      | inl object ↦
          rw (object, parse_keys) (key_entries-IsFilled crypto allocator input _ (idx + 1) store h)
    ]

-- ===== src/Keys/Laws.antt =====
-- `find_key` returns the first key whose id the text spells, and NULL where there is none.
use uptiny.Base.{
  ℕ, zero, suc, ◌+◌, ◌≤◌, ◌<◌, ◌≡◌, true, false, none, some, ℤ, pos, eqb_ℤ, eqb_ℤ→eq, Memory,
  Buffer, arith, Bool-cases, inl, inr, ◌==◌,
}
use uptiny.Crypto.{Key, keyid_len}
use uptiny.Utils.Hex.{hex_bin_cmp}
use uptiny.Utils.Hex.Compare.{IsWritten, hex_bin_cmp_zero_iff}
use uptiny.Keys.{find_key_from, find_key}

-- The text at `key_id` is the hexadecimal id of the key.
abbrev pub HasId : Key → Buffer → Type 0
HasId k key_id = (j : ℕ) → j < keyid_len → IsWritten key_id k.keyid j

-- The i-th key is the first of the `num_keys` with the id.
pub record IsFirst (heap : Memory Key) (key_id : Buffer) (keys : Memory ℕ) (num_keys i : ℕ)
    : Type 0 where
  pub listed : i < num_keys
  pub has_id : HasId (heap (keys i)) key_id
  pub first : (j : ℕ) → j < i → ¬ HasId (heap (keys j)) key_id

cmp_zero→HasId :
    (k : Key) (key_id : Buffer)
    → eqb_ℤ (hex_bin_cmp key_id (pos 64) k.keyid) (pos 0) ≡ true
    → HasId k key_id
cmp_zero→HasId k key_id h = (hex_bin_cmp_zero_iff 32 key_id k.keyid).0 (eqb_ℤ→eq _ (pos 0) h)

cmp_ne_zero :
    (k : Key) (key_id : Buffer)
    → eqb_ℤ (hex_bin_cmp key_id (pos 64) k.keyid) (pos 0) ≡ false
    → ¬ HasId k key_id
cmp_ne_zero k key_id h id = cc (rw ((hex_bin_cmp_zero_iff 32 key_id k.keyid).1 id) at h)

module _ (heap : Memory Key) (key_id : Buffer) (keys : Memory ℕ) where
  find_key_from-some :
      (n i a : ℕ)
      → ((j : ℕ) → j < i → ¬ HasId (heap (keys j)) key_id)
      → find_key_from n i heap key_id (pos 64) keys ≡ some a
      → (k : ℕ) × IsFirst heap key_id keys (i + n) k × (keys k ≡ a)
  unfolding find_key_from
  find_key_from-some zero i a before h = cc
  find_key_from-some (suc n) i a before h =
      elim (Bool-cases (eqb_ℤ (hex_bin_cmp key_id (pos 64) (heap (keys i)).keyid) (pos 0))) [
        | inl found ↦ (
          i,
          record {
            listed = omega arith;
            has_id = cmp_zero→HasId (heap (keys i)) key_id found;
            first = before;
          },
          cc (rw (found, find_key_from) at h),
        )
        | inr other ↦
            let before' : (j : ℕ) → j < i + 1 → ¬ HasId (heap (keys j)) key_id = λ j lt.
              elim (Bool-cases (j == i)) [
                | inl same ↦
                    let e : j ≡ i = ground arith in rw e (cmp_ne_zero (heap (keys i)) key_id other)
                | inr less ↦ before j (ground arith)
              ] in
            let (k, p, e) =
              find_key_from-some n (i + 1) a before' (rw (other, find_key_from) at h) in
            (k, record { listed = omega (arith, p.listed); has_id = p.has_id; first = p.first }, e)
      ]

  find_key_from-none :
      (n i : ℕ)
      → find_key_from n i heap key_id (pos 64) keys ≡ none
      → (j : ℕ) → i ≤ j
      → j < i + n
      → ¬ HasId (heap (keys j)) key_id
  unfolding find_key_from
  find_key_from-none zero i h j lo hi = absurd (omega arith)
  find_key_from-none (suc n) i h j lo hi =
      elim (Bool-cases (eqb_ℤ (hex_bin_cmp key_id (pos 64) (heap (keys i)).keyid) (pos 0))) [
        | inl found ↦ cc (rw (found, find_key_from) at h)
        | inr other ↦ elim (Bool-cases (j == i)) [
          | inl same ↦
              let e : j ≡ i = ground arith in rw e (cmp_ne_zero (heap (keys i)) key_id other)
          | inr more ↦
              find_key_from-none n (i + 1) (rw (other, find_key_from) at h) j (ground arith)
                (omega arith)
        ]
      ]

-- `find_key` returns a key only for a text of 64 characters, and then it is the first of the keys
-- whose id the text spells.
pub find_key-some :
    (heap : Memory Key) (key_id : Buffer) (len : ℤ) (keys : Memory ℕ) (num_keys a : ℕ)
    → find_key heap key_id len keys num_keys ≡ some a
    → (len ≡ pos 64) × ((i : ℕ) × IsFirst heap key_id keys num_keys i × (keys i ≡ a))
unfolding find_key
find_key-some heap key_id len keys num_keys a h = elim (Bool-cases (eqb_ℤ len (pos 64))) [
  | inr other ↦ cc (rw (other, find_key) at h)
  | inl same ↦
      let e = eqb_ℤ→eq len (pos 64) same in
      let found =
        find_key_from-some heap key_id keys num_keys 0 a (λ j lt. absurd (omega arith))
          (rw e at (rw (same, find_key) at h)) in
      let z : 0 + num_keys ≡ num_keys = omega arith in (e, rw z at found)
]

-- `find_key` of a text of 64 characters returns NULL only where no key has the id that it spells.
pub find_key-none :
    (heap : Memory Key) (key_id : Buffer) (keys : Memory ℕ) (num_keys : ℕ)
    → find_key heap key_id (pos 64) keys num_keys ≡ none
    → (j : ℕ) → j < num_keys
    → ¬ HasId (heap (keys j)) key_id
unfolding find_key
find_key-none heap key_id keys num_keys h j lt =
    find_key_from-none heap key_id keys num_keys 0 h j (omega arith) (omega arith)

-- ===== src/Root/Count.antt =====
-- How many signatures are valid, and who may have made them.
use uptiny.Base.{
  ℕ, zero, suc, ◌+◌, ◌<◌, ◌≤◌, ◌≡◌, ◌∙◌, refl, true, false, if◌then◌else◌, List, [], ℤ, pos,
  pos_part, ltb_ℤ, ◌≤ℤ◌, Memory, write, arith,
}
use uptiny.Crypto.{CryptoApi, Key, KeySignature}
use uptiny.Json.{Input, is_array, codes, json_str_equal}
use uptiny.Root.{count_valid}
use uptiny.Signatures.{MetaKeys, meta_keys_of, uptane_parse_signatures}
use uptiny.Signatures.Listed.{AllGood, uptane_parse_signatures-AllGood}
use uptiny.State.{Role, UptaneRoot}

-- The token stands behind the name "signatures".
abbrev pub IsNamed : Input → ℕ → Type 0
IsNamed input array =
    (name : ℕ) × (array ≡ name + 1) × (json_str_equal input name (codes "signatures") ≡ true)

-- The first `num` slots are read from the array behind a name "signatures", each from another object.
pub record IsRead (input : Input) (meta : MetaKeys) (array : ℕ) (sigs : Memory KeySignature)
    (num : ℕ) : Type 0 where
  pub named : IsNamed input array
  pub is_array : is_array (input.pool array).type ≡ true
  pub fits : num ≤ pos_part (input.pool array).size
  pub last : ℕ
  pub good : AllGood input meta sigs (array + 1) num last

pub signatures-IsRead :
    (heap : Memory Key) (input : Input) (array : ℕ) (output : Memory KeySignature) (max_sigs : ℕ)
    (root : UptaneRoot) (k : ℕ)
    → let (res, _, sigs) =
        uptane_parse_signatures Role.root heap input array output max_sigs root in
      IsNamed input array
      → res ≡ pos k
      → IsRead input (meta_keys_of Role.root heap root) array sigs k
signatures-IsRead heap input array output max_sigs root k named e =
    let (is_array, _, fits, good) =
      uptane_parse_signatures-AllGood Role.root heap input array output max_sigs root k e in
    record {
      named = named;
      is_array = is_array;
      fits = fits;
      last = (uptane_parse_signatures Role.root heap input array output max_sigs root).1;
      good = good;
    }

module _ (crypto : CryptoApi) where
  -- The valid signatures among the slots `j` to `j + n`.
  unfoldable pub valid_from : ℕ → ℕ → Memory Key → Memory KeySignature → List ℕ → ℕ
  valid_from zero j heap sigs bytes = 0
  valid_from (suc n) j heap sigs bytes =
      (if crypto.valid (heap (sigs j).key) (sigs j).sig bytes then 1 else 0)
      + valid_from n (j + 1) heap sigs bytes

  -- The loop counts the valid signatures, whatever the contexts held before.
  pub count_valid_lem :
      (n j : ℕ) (heap : Memory Key) (sigs : Memory KeySignature) (bytes : List ℕ) (num : ℕ)
      (contexts : Memory crypto.Context)
      → (count_valid crypto n j heap sigs bytes num contexts).0
        ≡ num + valid_from n j heap sigs bytes
  unfolding count_valid valid_from
  count_valid_lem zero j heap sigs bytes num contexts = omega arith
  count_valid_lem (suc n) j heap sigs bytes num contexts =
      let key = heap (sigs j).key in
      let sig = (sigs j).sig in
      let fed = crypto.verify_feed (crypto.verify_init (contexts j) key sig) bytes in
      let next : ℕ = if crypto.verify_result fed then num + 1 else num in
      let e = crypto.verify_lem (contexts j) key sig [] bytes in
      count_valid_lem n (j + 1) heap sigs bytes next (write contexts j fed) ∙ ground (arith, e)

  pub count_enough :
      (n : ℕ) (heap : Memory Key) (sigs : Memory KeySignature) (bytes : List ℕ)
      (contexts : Memory crypto.Context) (threshold : ℤ)
      → ltb_ℤ (pos (count_valid crypto n 0 heap sigs bytes 0 contexts).0) threshold ≡ false
      → threshold ≤ℤ pos (valid_from n 0 heap sigs bytes)
  count_enough n heap sigs bytes contexts threshold h =
      ground (arith, count_valid_lem n 0 heap sigs bytes 0 contexts)

  -- The bytes are signed by keys of the role, `threshold` times at least: so many of the slots that
  -- are read from different objects of a "signatures" array of the message are valid for the bytes
  -- under keys that the root lists.
  pub record IsEndorsed (input : Input) (heap : Memory Key) (root : UptaneRoot) (threshold : ℤ)
      (bytes : List ℕ) : Type 0 where
    pub array : ℕ
    pub num : ℕ
    pub sigs : Memory KeySignature
    pub read : IsRead input (meta_keys_of Role.root heap root) array sigs num
    pub enough : threshold ≤ℤ pos (valid_from num 0 heap sigs bytes)

valid_from-repeated :
    (crypto : CryptoApi) (n j : ℕ) (heap : Memory Key) (sigs : Memory KeySignature) (bytes : List ℕ)
    (s : KeySignature)
    → crypto.valid (heap s.key) s.sig bytes ≡ true
    → ((i : ℕ) → i < n → sigs (j + i) ≡ s)
    → valid_from crypto n j heap sigs bytes ≡ n
unfolding valid_from
valid_from-repeated crypto zero j heap sigs bytes s ok same = refl
valid_from-repeated crypto (suc n) j heap sigs bytes s ok same =
    let rest = valid_from-repeated crypto n (j + 1) heap sigs bytes s ok (λ i lt.
      let e : j + 1 + i ≡ j + (i + 1) = omega arith in rw e (same (i + 1) (omega arith))) in
    let e : j + 0 ≡ j = omega arith in
    let here : sigs j ≡ s = rw e at (same 0 (omega arith)) in rw (here, ok, rest) (omega arith)

-- The loop over the signatures of root metadata counts slots, not keys: one valid signature in each of
-- n slots is counted n times.
pub count_valid-repeated :
    (crypto : CryptoApi) (n : ℕ) (heap : Memory Key) (sigs : Memory KeySignature) (bytes : List ℕ)
    (contexts : Memory crypto.Context) (s : KeySignature)
    → crypto.valid (heap s.key) s.sig bytes ≡ true
    → ((i : ℕ) → i < n → sigs i ≡ s)
    → (count_valid crypto n 0 heap sigs bytes 0 contexts).0 ≡ n
count_valid-repeated crypto n heap sigs bytes contexts s ok same =
    let counted = count_valid_lem crypto n 0 heap sigs bytes 0 contexts in
    let all =
      valid_from-repeated crypto n 0 heap sigs bytes s ok
        (λ i lt. let e : 0 + i ≡ i = omega arith in rw e (same i lt)) in
    omega (arith, counted, all)

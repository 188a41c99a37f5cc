-- ===== src/Crypto.antt =====
-- libuptiny/crypto_api.h: keys, signatures and hashes, and what the library calls of a platform's
-- cryptography. The platform's functions are parameters.
use uptiny.Base.{ℕ, ◌≡◌, Bool, List, [], ◌∷◌, ◌++◌, ℤ, Buffer}

-- `crypto_algorithm_t` and `crypto_hash_algorithm_t`
pub data KeyType : Type 0 where
  unknown ed25519 : KeyType

pub data HashAlgorithm : Type 0 where
  unknown sha512 : HashAlgorithm

-- `crypto_key_t`; the arrays are the memory from their first byte on.
pub record Key : Type 0 where
  pub key_type : KeyType
  pub keyid : Buffer
  pub keyval : Buffer

-- `crypto_key_and_signature_t`; a key is the address of a `crypto_key_t`.
pub record KeySignature : Type 0 where
  pub key : ℕ
  pub sig : Buffer

-- `crypto_hash_t`
pub record Hash : Type 0 where
  pub alg : HashAlgorithm
  pub hash : Buffer

-- CRYPTO_KEYID_LEN, CRYPTO_KEYVAL_LEN, CRYPTO_MAX_SIGNATURE_LEN
abbrev pub keyid_len : ℕ
keyid_len = 32

abbrev pub keyval_len : ℕ
keyval_len = 32

abbrev pub signature_len : ℕ
signature_len = 64

-- A context that was fed pieces, the last one first, and the bytes of the pieces in order.
abbrev pub fed : {C : Type 0} → (C → List ℕ → C) → C → List (List ℕ) → C
fed feed c [] = c
fed feed c (piece ∷ earlier) = feed (fed feed c earlier) piece

abbrev pub joined : List (List ℕ) → List ℕ
joined [] = []
joined (piece ∷ earlier) = joined earlier ++ piece

-- `crypto_verify_*` and `crypto_str_to_keytype`. A verification depends on the key, the signature
-- and the bytes fed in order, not on how they were cut into pieces or on what the context held.
pub record CryptoApi : Type 1 where
  pub Context : Type 0
  pub verify_init : Context → Key → Buffer → Context
  pub verify_feed : Context → List ℕ → Context
  pub verify_result : Context → Bool
  pub str_to_keytype : Buffer → ℤ → KeyType
  pub valid : Key → Buffer → List ℕ → Bool
  pub verify_lem :
      (c : Context) (k : Key) (s : Buffer) (earlier : List (List ℕ)) (piece : List ℕ)
      → verify_result (verify_feed (fed verify_feed (verify_init c k s) earlier) piece)
        ≡ valid k s (joined earlier ++ piece)

-- ===== src/Tests/Metadata.antt =====
-- Metadata files with the tokens that jsmn makes of them, and a small platform to read them on.
use uptiny.Base.{
  ℕ, ◌+◌, ◌≡◌, refl, ap, Bool, false, if◌then◌else◌, ◌==◌, some, List, [], ◌∷◌, ◌++◌, get_or, ℤ,
  pos, negsuc, pos_part, Memory, Buffer, Text,
}
use uptiny.Crypto.{fed, joined, CryptoApi, Key, KeySignature, ed25519}
use uptiny.Json.{JsonType, object, array, string, primitive, undefined, Token, codes}
use uptiny.RootSigned.Table.{KeyAllocator}

abbrev pub text_of : List ℕ → Text
text_of bytes at = get_or bytes (pos_part at) 0

abbrev pub zeros : Buffer
zeros j = 0

abbrev tok : JsonType → ℕ → ℕ → ℕ → ℤ → Token
tok type start end size parent = record {
  type = type;
  start = pos start;
  end = pos end;
  size = pos size;
  parent = parent;
}

abbrev pub no_token : Token
no_token = record {
  type = undefined;
  start = negsuc 0;
  end = negsuc 0;
  size = pos 0;
  parent = negsuc 0;
}

abbrev pub sample_id : Buffer
sample_id j = 171

-- The key of the examples. Its signatures begin with the first byte of its value.
abbrev pub key : Key
key = record { key_type = ed25519; keyid = sample_id; keyval = λ j. if j == 0 then 7 else 17 }

-- A signature is valid for data that is there if it begins with the first byte of the key's value.
abbrev pub toy_valid : Key → Buffer → List ℕ → Bool
toy_valid k sig [] = false
toy_valid k sig (b ∷ bytes) = sig 0 == k.keyval 0

abbrev toy_feed : Key × Buffer × List ℕ → List ℕ → Key × Buffer × List ℕ
toy_feed c bytes = (c.0, c.1, c.2 ++ bytes)

pub toy_fed :
    (k : Key) (sig : Buffer) (pieces : List (List ℕ))
    → fed toy_feed (k, sig, []) pieces ≡ (k, sig, joined pieces)
toy_fed k sig [] = refl
toy_fed k sig (piece ∷ earlier) = ap (λ c. toy_feed c piece) (toy_fed k sig earlier)

abbrev pub toy_crypto : CryptoApi
toy_crypto = record {
  Context = Key × Buffer × List ℕ;
  verify_init = λ c k sig. (k, sig, []);
  verify_feed = toy_feed;
  verify_result = λ c. toy_valid c.0 c.1 c.2;
  str_to_keytype = λ s len. ed25519;
  valid = toy_valid;
  verify_lem = λ c k sig earlier piece.
      ap (λ whole. toy_valid whole.0 whole.1 (whole.2 ++ piece)) (toy_fed k sig earlier);
}

-- Keys at the addresses 1, 2, and so on, without end.
abbrev pub counter : KeyAllocator
counter = record { Pool = ℕ; alloc_crypto_key = λ n. some (n, n + 1); free_crypto_key = λ a n. n }

-- The same key is in force at every address.
abbrev pub heap : Memory Key
heap a = key

abbrev pub no_signature : KeySignature
no_signature = record { key = 0; sig = zeros }

-- Root metadata of version 2, signed once by the key that it names for both roles.
abbrev pub root_bytes : List ℕ
root_bytes =
    codes "{\"signatures\":[{\"keyid\":\"abababababababababababababababababababababababababa"
    ++ codes "babababababab\",\"sig\":\"BwECAwQFBgcICQoLDA0ODxAREhMUFRYXGBkaGxwdHh8gISIjJCUmJy"
    ++ codes
        "gpKissLS4vMDEyMzQ1Njc4OTo7PD0+Pw==\"}],\"signed\":{\"_type\":\"Root\",\"expires\":\"20"
    ++ codes "30-01-01T00:00:00Z\",\"keys\":{\"abababababababababababababababababababababababa"
    ++ codes
        "babababababababab\":{\"keytype\":\"ed25519\",\"keyval\":{\"public\":\"0711111111111111"
    ++ codes "111111111111111111111111111111111111111111111111\"}}},\"roles\":{\"root\":{\"keyid"
    ++ codes "s\":[\"abababababababababababababababababababababababababababababababab\"],\"thr"
    ++ codes "eshold\":1},\"targets\":{\"keyids\":[\"abababababababababababababababababababababa"
    ++ codes "babababababababababab\"],\"threshold\":1}},\"version\":2}}"

abbrev pub root_tokens : List Token
root_tokens =
    tok object 0 661 2 (negsuc 0)
    ∷ tok string 2 12 1 (pos 0)
    ∷ tok array 14 189 1 (pos 1)
    ∷ tok object 15 188 2 (pos 2)
    ∷ tok string 17 22 1 (pos 3)
    ∷ tok string 25 89 0 (pos 4)
    ∷ tok string 92 95 1 (pos 3)
    ∷ tok string 98 186 0 (pos 6)
    ∷ tok string 191 197 1 (pos 0)
    ∷ tok object 199 660 5 (pos 8)
    ∷ tok string 201 206 1 (pos 9)
    ∷ tok string 209 213 0 (pos 10)
    ∷ tok string 216 223 1 (pos 9)
    ∷ tok string 226 246 0 (pos 12)
    ∷ tok string 249 253 1 (pos 9)
    ∷ tok object 255 432 1 (pos 14)
    ∷ tok string 257 321 1 (pos 15)
    ∷ tok object 323 431 2 (pos 16)
    ∷ tok string 325 332 1 (pos 17)
    ∷ tok string 335 342 0 (pos 18)
    ∷ tok string 345 351 1 (pos 17)
    ∷ tok object 353 430 1 (pos 20)
    ∷ tok string 355 361 1 (pos 21)
    ∷ tok string 364 428 0 (pos 22)
    ∷ tok string 434 439 1 (pos 9)
    ∷ tok object 441 647 2 (pos 24)
    ∷ tok string 443 447 1 (pos 25)
    ∷ tok object 449 542 2 (pos 26)
    ∷ tok string 451 457 1 (pos 27)
    ∷ tok array 459 527 1 (pos 28)
    ∷ tok string 461 525 0 (pos 29)
    ∷ tok string 529 538 1 (pos 27)
    ∷ tok primitive 540 541 0 (pos 31)
    ∷ tok string 544 551 1 (pos 25)
    ∷ tok object 553 646 2 (pos 33)
    ∷ tok string 555 561 1 (pos 34)
    ∷ tok array 563 631 1 (pos 35)
    ∷ tok string 565 629 0 (pos 36)
    ∷ tok string 633 642 1 (pos 34)
    ∷ tok primitive 644 645 0 (pos 38)
    ∷ tok string 649 656 1 (pos 9)
    ∷ tok primitive 658 659 0 (pos 40)
    ∷ []

-- Targets metadata of version 2, signed once by that key, with a target for the ECU "ecu1".
abbrev pub targets_bytes : List ℕ
targets_bytes =
    codes "{\"signatures\":[{\"keyid\":\"abababababababababababababababababababababababababa"
    ++ codes "babababababab\",\"sig\":\"BwECAwQFBgcICQoLDA0ODxAREhMUFRYXGBkaGxwdHh8gISIjJCUmJy"
    ++ codes "gpKissLS4vMDEyMzQ1Njc4OTo7PD0+Pw==\"}],\"signed\":{\"_type\":\"Targets\",\"expires\":"
    ++ codes
        "\"2030-01-01T00:00:00Z\",\"targets\":{\"fw\":{\"custom\":{\"ecuIdentifiers\":{\"ecu1\":{"
    ++ codes
        "\"hardwareId\":\"hw1\"}}},\"hashes\":{\"sha512\":\"0102\"},\"length\":100}},\"version\":2}"
    ++ codes "}"

abbrev pub targets_tokens : List Token
targets_tokens =
    tok object 0 381 2 (negsuc 0)
    ∷ tok string 2 12 1 (pos 0)
    ∷ tok array 14 189 1 (pos 1)
    ∷ tok object 15 188 2 (pos 2)
    ∷ tok string 17 22 1 (pos 3)
    ∷ tok string 25 89 0 (pos 4)
    ∷ tok string 92 95 1 (pos 3)
    ∷ tok string 98 186 0 (pos 6)
    ∷ tok string 191 197 1 (pos 0)
    ∷ tok object 199 380 4 (pos 8)
    ∷ tok string 201 206 1 (pos 9)
    ∷ tok string 209 216 0 (pos 10)
    ∷ tok string 219 226 1 (pos 9)
    ∷ tok string 229 249 0 (pos 12)
    ∷ tok string 252 259 1 (pos 9)
    ∷ tok object 261 367 1 (pos 14)
    ∷ tok string 263 265 1 (pos 15)
    ∷ tok object 267 366 3 (pos 16)
    ∷ tok string 269 275 1 (pos 17)
    ∷ tok object 277 325 1 (pos 18)
    ∷ tok string 279 293 1 (pos 19)
    ∷ tok object 295 324 1 (pos 20)
    ∷ tok string 297 301 1 (pos 21)
    ∷ tok object 303 323 1 (pos 22)
    ∷ tok string 305 315 1 (pos 23)
    ∷ tok string 318 321 0 (pos 24)
    ∷ tok string 327 333 1 (pos 17)
    ∷ tok object 335 352 1 (pos 26)
    ∷ tok string 337 343 1 (pos 27)
    ∷ tok string 346 350 0 (pos 28)
    ∷ tok string 354 360 1 (pos 17)
    ∷ tok primitive 362 365 0 (pos 30)
    ∷ tok string 369 376 1 (pos 9)
    ∷ tok primitive 378 379 0 (pos 32)
    ∷ []

-- ===== src/Json.antt =====
-- libuptiny/json_common.c, over the tokens of libuptiny/jsmn.h. The tokenizer itself is a copy of
-- the jsmn library; what it leaves in the token pool is a parameter.
pub mod Laws
use Prim.Native.String.{String}
use Prim.Native.Char.{code}
use uptiny.Base.{
  ℕ, zero, suc, ◌+◌, ◌-◌, ◌≡◌, Bool, true, false, ◌&&◌, ◌||◌, not, ◌==◌, List, [], ◌∷◌, length, ℤ,
  pos, ◌-ℤ◌, ltb_ℤ, eqb_ℤ, Memory, Buffer, Text, at, advance,
}

pub data JsonType : Type 0 where
  undefined object array string primitive : JsonType

-- `jsmntok_t`
pub record Token : Type 0 where
  pub type : JsonType
  pub start : ℤ
  pub end : ℤ
  pub size : ℤ
  pub parent : ℤ

-- What the parsers read: the message, `token_pool` with its size, and what uninitialised locals
-- hold. A token's index is an int16_t that counts up from 0 within a pool of at most 32767 tokens.
pub record Input : Type 0 where
  pub message : Text
  pub pool : Memory Token
  pub pool_size : ℕ
  pub stack : Buffer

abbrev pub is_object : JsonType → Bool
is_object object = true
is_object _ = false

abbrev pub is_array : JsonType → Bool
is_array array = true
is_array _ = false

abbrev pub is_string : JsonType → Bool
is_string string = true
is_string _ = false

-- `JSON_TOK_LEN`
unfoldable pub tok_len : Token → ℤ
tok_len tok = tok.end -ℤ tok.start

-- `message + token_pool[idx].start`
abbrev pub tok_text : Input → ℕ → Buffer
tok_text input idx = at input.message (input.pool idx).start

-- The characters of a literal.
abbrev pub codes : String → List ℕ
codes String.[] = []
codes (String.◌∷◌ c s) = code c ∷ codes s

-- `strncmp(value, s, strlen(value)) == 0`, where `value` holds no 0.
unfoldable pub starts_with : List ℕ → Buffer → Bool
starts_with [] s = true
starts_with (c ∷ value) s = s 0 == c && starts_with value (advance s 1)

unfoldable pub json_str_equal : Input → ℕ → List ℕ → Bool
json_str_equal input idx value =
    eqb_ℤ (tok_len (input.pool idx)) (pos (length value)) && starts_with value (tok_text input idx)

-- The rounds of the loop that are left, and its `i`.
unfoldable pub skip_inside : ℕ → ℕ → ℤ → Memory Token → ℕ
skip_inside zero i end pool = i
skip_inside (suc n) i end pool = elim (ltb_ℤ (pool i).start end) [
  | true ↦ skip_inside n (i + 1) end pool
  | false ↦ i
]

unfoldable pub consume_recursive_json : Input → ℕ → ℕ
consume_recursive_json input idx = elim (is_object tok.type || is_array tok.type) [
  | false ↦ idx + 1
  | true ↦ skip_inside (input.pool_size - (idx + 1)) (idx + 1) tok.end input.pool
]
  where
    tok : Token
    tok = input.pool idx

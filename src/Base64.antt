-- ===== src/Base64.antt =====
-- libuptiny/base64.c. Bytes and chars are numbers below 256, and `int` values that a shift makes of
-- them stay plain numbers.
pub mod Bits
pub mod Group
pub mod Padding
pub mod RoundTrip
use Prim.Native.Nat.{bit_or, bit_and}
use uptiny.Base.{
  ℕ, zero, suc, ◌+◌, ◌-◌, ◌*◌, ◌/◌, ◌%◌, Bool, true, false, not, ◌&&◌, ltb, leb, ◌==◌,
  if◌then◌else◌, ℤ, pos, negsuc, Buffer, write, advance,
}

pub encode_6bit : ℕ → ℕ
encode_6bit sextet =
    if leb sextet 25
    then b'A' + sextet
    else if leb sextet 51
    then b'a' + sextet - 26
    else if leb sextet 61
    then b'0' + sextet - 52
    else if sextet == 62
    then b'+'
    else b'/'

-- The four characters of a group, for `padding` missing bytes.
pub encode_triple : Buffer → ℕ → Buffer → Buffer
encode_triple msg padding out =
    if padding == 2
    then write (write both 2 b'=') 3 b'='
    else if padding == 1
    then write (write both 2 (encode_6bit (bit_and 0x3F (msg 1 * 4)))) 3 b'='
    else write (write both 2 (encode_6bit (bit_and 0x3F (bit_or (msg 1 * 4) (msg 2 / 64))))) 3
        (encode_6bit (bit_and 0x3F (msg 2)))
  where
    second : ℕ
    second = if ltb padding 2 then bit_or (msg 0 * 16) (msg 1 / 16) else msg 0 * 16

    both : Buffer
    both = write (write out 0 (encode_6bit (msg 0 / 4))) 1 (encode_6bit (bit_and 0x3F second))

-- How many bytes of a group are missing, where `left` bytes are left.
pub padding_of : ℕ → ℕ
padding_of left = if left == 1 then 2 else if left == 2 then 1 else 0

-- `encode_triple` is given `out + j`, and writes four characters there.
pub place_four : ℕ → Buffer → Buffer → Buffer
place_four j four out k = if leb j k && ltb k (j + 4) then four (k - j) else out k

-- The rounds left, and what is left of the message: `msg + i`, `msg_len - i`, `j` and the text.
pub base64_encode_from : ℕ → Buffer → ℕ → ℕ → Buffer → Buffer
base64_encode_from zero msg left j out = write out j 0
base64_encode_from (suc n) msg left j out =
    base64_encode_from n (advance msg 3) (left - 3) (j + 4) (place_four j four out)
  where
    four : Buffer
    four = encode_triple msg (padding_of left) (advance out j)

pub base64_encode : Buffer → ℕ → Buffer → Buffer
base64_encode msg msg_len out = base64_encode_from ((msg_len + 2) / 3) msg msg_len 0 out

abbrev pub b64_sym_oor : ℕ
b64_sym_oor = 0xFF

abbrev pub b64_sym_pad : ℕ
b64_sym_pad = 0xFE

abbrev pub b64_sym_eol : ℕ
b64_sym_eol = 0xFD

abbrev pub b64_sym_fail_mask : ℕ
b64_sym_fail_mask = 0xC0

unfoldable pub decode_sym : ℕ → ℕ
decode_sym c =
    if leb b'A' c && leb c b'Z'
    then c - b'A'
    else if leb b'a' c && leb c b'z'
    then 26 + c - b'a'
    else if leb b'0' c && leb c b'9'
    then 52 + c - b'0'
    else if c == b'+'
    then 62
    else if c == b'/'
    then 63
    else if c == b'='
    then b64_sym_pad
    else if c == 0
    then b64_sym_eol
    else b64_sym_oor

-- `sym & B64_SYM_FAIL_MASK`
unfoldable pub fails : ℕ → Bool
fails sym = not (bit_and sym b64_sym_fail_mask == 0)

-- The number of decoded bytes, or -1, and the memory behind `out`, for one stage after another.
unfoldable pub decode_last : ℕ → Buffer → ℤ × Buffer
decode_last s out =
    if s == b64_sym_pad
    then (pos 2, out)
    else if fails s
    then (negsuc 0, out)
    else (pos 3, write out 2 (bit_or (out 2) s))

unfoldable pub decode_third : ℕ → ℕ → Buffer → ℤ × Buffer
unfolding decode_last
decode_third s c out =
    if s == b64_sym_pad
    then (pos 1, out)
    else if fails s
    then (negsuc 0, out)
    else decode_last (decode_sym c) (write (write out 1 (bit_or (out 1) (s / 4))) 2 (s * 64 % 256))

unfoldable pub decode_second : ℕ → ℕ → ℕ → Buffer → ℤ × Buffer
unfolding decode_third
decode_second s c d out =
    if fails s
    then (negsuc 0, out)
    else decode_third (decode_sym c) d
        (write (write out 0 (bit_or (out 0) (s / 16))) 1 (s * 16 % 256))

unfoldable pub decode_first : ℕ → ℕ → ℕ → ℕ → Buffer → ℤ × Buffer
unfolding decode_second
decode_first s c d e out =
    if s == b64_sym_eol
    then (pos 0, out)
    else if fails s
    then (negsuc 0, out)
    else decode_second (decode_sym c) d e (write out 0 (s * 4 % 256))

unfoldable pub decode_quadruple : Buffer → Buffer → ℤ × Buffer
unfolding decode_first
decode_quadruple b out = decode_first (decode_sym (b 0)) (b 1) (b 2) (b 3) out

-- `decode_quadruple` is given `out + size`.
unfoldable pub decode_at : Buffer → ℕ → Buffer → ℤ × Buffer
unfolding decode_quadruple
decode_at b size out =
    let (res, new) = decode_quadruple b (advance out size) in
    (res, λ k. if ltb k size then out k else new (k - size))

-- The rounds left, `base64 + i`, `size` and the memory behind `out`.
unfoldable pub base64_decode_from : ℕ → Buffer → ℕ → Buffer → ℤ × Buffer
base64_decode_from zero b size out = (pos size, out)
base64_decode_from (suc n) b size out = elim (decode_at b size out).0 [
  | negsuc m ↦ (negsuc 0, (decode_at b size out).1)
  | pos res ↦ elim (ltb res 3) [
    | true ↦ (pos (size + res), (decode_at b size out).1)
    | false ↦ base64_decode_from n (advance b 4) (size + 3) (decode_at b size out).1
  ]
]

unfoldable pub base64_decode : Buffer → ℕ → Buffer → ℤ × Buffer
base64_decode b base64_len out = base64_decode_from ((base64_len + 3) / 4) b 0 out

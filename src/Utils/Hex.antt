-- ===== src/Utils/Hex.antt =====
-- libuptiny/utils.c: hexadecimal text. A char is its byte, so a `char` at or above 128 fails every
-- test here, whether the platform's `char` is signed or not.
pub mod Bytes
pub mod Decode
pub mod Compare
use Prim.Native.Nat.{bit_or, bit_and}
use uptiny.Base.{
  ℕ, zero, suc, ◌+◌, ◌-◌, ◌*◌, ◌/◌, ◌%◌, ◌≡◌, Bool, true, false, ◌&&◌, ◌||◌, ltb, leb, ◌==◌,
  if◌then◌else◌, ℤ, pos, negsuc, pos_part, Buffer, write,
}

unfoldable pub is_hex : ℕ → Bool
is_hex c = (leb b'0' c && leb c b'9') || (leb b'A' c && leb c b'F') || (leb b'a' c && leb c b'f')

-- `(uint8_t)(sym - …)`: the difference is taken modulo 256.
unfoldable pub from_hex : ℕ → ℕ
from_hex c =
    if leb b'0' c && leb c b'9'
    then c - b'0'
    else if leb b'A' c && leb c b'F'
    then c - b'A' + 10
    else (c + 256 - b'a' + 10) % 256

-- What one round of `hex2bin` stores: the high digit first, then the low digit beside it.
unfoldable pub store_digit : ℕ → ℕ → Buffer → Buffer
store_digit i digit bin =
    if i % 2 == 1
    then write bin (i / 2) (bit_or (bin (i / 2)) digit)
    else write bin (i / 2) (digit * 16 % 256)

-- The rounds of the loop that are left, and its `i`.
unfoldable pub hex2bin_from : ℕ → ℕ → Buffer → Buffer → Bool × Buffer
hex2bin_from zero i s bin = (true, bin)
hex2bin_from (suc n) i s bin = elim (is_hex (s i)) [
  | true ↦ hex2bin_from n (i + 1) s (store_digit i (from_hex (s i)) bin)
  | false ↦ (false, bin)
]

-- The result is the returned flag and the memory behind `bin_data`.
unfoldable pub hex2bin : Buffer → ℤ → Buffer → Bool × Buffer
hex2bin s len bin = hex2bin_from (pos_part len) 0 s bin

pub to_hex : ℕ → ℕ
to_hex nibble = if leb nibble 9 then b'0' + nibble else b'a' + nibble - 10

pub bin2hex_from : ℕ → ℕ → Buffer → Buffer → Buffer
bin2hex_from zero i bin s = s
bin2hex_from (suc n) i bin s =
    bin2hex_from n (i + 1) bin
      (write (write s (i * 2) (to_hex (bin i / 16))) (i * 2 + 1) (to_hex (bit_and (bin i) 0x0F)))

pub bin2hex : Buffer → ℕ → Buffer → Buffer
unfolding bin2hex_from
bin2hex bin len s = write (bin2hex_from len 0 bin s) (len * 2) 0

-- `byte` carries the high digit from one round to the next.
unfoldable pub hex_bin_cmp_from : ℕ → ℕ → ℕ → Buffer → Buffer → ℤ
hex_bin_cmp_from zero i byte s bin = pos 0
hex_bin_cmp_from (suc n) i byte s bin = elim (is_hex (s i)) [
  | false ↦ negsuc 0
  | true ↦
      let low = bit_or byte (from_hex (s i)) in
      let high = from_hex (s i) * 16 % 256 in
      elim (i % 2 == 1) [
        | false ↦ hex_bin_cmp_from n (i + 1) high s bin
        | true ↦ elim (ltb low (bin (i / 2))) [
          | true ↦ negsuc 0
          | false ↦ elim (ltb (bin (i / 2)) low) [
            | true ↦ pos 1
            | false ↦ hex_bin_cmp_from n (i + 1) low s bin
          ]
        ]
      ]
]

unfoldable pub hex_bin_cmp : Buffer → ℤ → Buffer → ℤ
hex_bin_cmp s len bin = hex_bin_cmp_from (pos_part len) 0 0 s bin

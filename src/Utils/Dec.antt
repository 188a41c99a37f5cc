-- ===== src/Utils/Dec.antt =====
-- libuptiny/utils.c: decimal text of an int32_t. A signed overflow, which C leaves undefined, wraps
-- here as it does on the machines that the library is built for.
pub mod Print
pub mod Read
use mathlib.Core.Option
use uptiny.Base.{
  ℕ, zero, suc, ◌+◌, ◌-◌, ◌*◌, ◌/◌, ◌%◌, ◌^◌, ◌≡◌, Bool, true, false, ◌||◌, ltb, ◌==◌,
  if◌then◌else◌, Option, none, some, ℤ, pos, negsuc, pos_part, signed32, neg32, Buffer, write,
}

-- The rounds of the loop that are left, its `i`, and the bits of `res`.
unfoldable pub dec2int_from : ℕ → ℕ → Buffer → ℕ → Option ℕ
dec2int_from zero i s res = some res
dec2int_from (suc n) i s res = elim (ltb (s i) b'0' || ltb b'9' (s i)) [
  | true ↦ none
  | false ↦ dec2int_from n (i + 1) s ((res * 10 + (s i - b'0')) % 2 ^ 32)
]

-- `none` is the returned false, which leaves `*out` alone.
unfoldable pub dec2int : Buffer → ℤ → Option ℤ
dec2int s len =
    let neg = s 0 == b'-' in
    let first : ℕ = if neg then 1 else 0 in
    Option.map (λ res. signed32 (if neg then neg32 res else res))
      (dec2int_from (pos_part len - first) first s 0)

-- The loop that writes the digits, lowest first: `num`, `idx` and the text. It ends by its own test
-- while `num` is below 10 ^ fuel.
pub write_digits : ℕ → ℕ → ℕ → Buffer → ℕ × Buffer
write_digits zero num idx s = (idx, s)
write_digits (suc fuel) num idx s = elim (num == 0) [
  | true ↦ (idx, s)
  | false ↦ write_digits fuel (num / 10) (idx + 1) (write s idx (b'0' + num % 10))
]

-- The loop that turns the digits round: the rounds left and `i`.
pub swap_digits : ℕ → ℕ → ℕ → ℕ → Buffer → Buffer
swap_digits zero i first last s = s
swap_digits (suc n) i first last s =
    swap_digits n (i + 1) first last
      (write (write s (first + i) (s (last - i))) (last - i) (s (first + i)))

-- An int32_t has ten digits at most.
abbrev pub digits_fuel : ℕ
digits_fuel = 10

-- From `int idx = first_digit` to the end.
pub int2dec_from : ℕ → ℕ → Buffer → Buffer
int2dec_from num first s =
    let (idx, s') = write_digits digits_fuel num first s in
    swap_digits (idx / 2) 0 first (idx - 1) (write s' idx 0)

-- `-num` of the least int32_t is undefined in C; here it is its magnitude.
pub int2dec : ℤ → Buffer → Buffer
int2dec (pos zero) s = write (write s 0 b'0') 1 0
int2dec (pos (suc n)) s = int2dec_from (suc n) 0 s
int2dec (negsuc n) s = int2dec_from (n + 1) 1 (write s 0 b'-')

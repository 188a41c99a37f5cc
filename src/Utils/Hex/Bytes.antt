-- ===== src/Utils/Hex/Bytes.antt =====
-- The hexadecimal digits and their values, and the byte that a pair of digits stands for.
use Prim.Native.Nat.{bit_or, bit_and}
use uptiny.Base.{
  ℕ, ◌+◌, ◌*◌, ◌/◌, ◌%◌, ◌<◌, ◌≡◌, refl, true, not, ◌&&◌, ◌||◌, ◌==◌, ==_iff, Buffer, arith,
  table_holds, table_holds_sound, List, [], ◌∷◌, get_or, ◌⊎◌, inl, inr, Bool-cases,
}
use uptiny.Utils.Hex.{is_hex, from_hex, to_hex}

-- The digits in the order of their values, in either case.
abbrev pub lower_digits : List ℕ
lower_digits =
    b'0' ∷ b'1' ∷ b'2' ∷ b'3' ∷ b'4' ∷ b'5' ∷ b'6' ∷ b'7' ∷ b'8' ∷ b'9' ∷ b'a' ∷ b'b' ∷ b'c' ∷ b'd'
    ∷ b'e' ∷ b'f' ∷ []

abbrev pub upper_digits : List ℕ
upper_digits =
    b'0' ∷ b'1' ∷ b'2' ∷ b'3' ∷ b'4' ∷ b'5' ∷ b'6' ∷ b'7' ∷ b'8' ∷ b'9' ∷ b'A' ∷ b'B' ∷ b'C' ∷ b'D'
    ∷ b'E' ∷ b'F' ∷ []

-- The character `c` is the digit of value `d`.
abbrev pub IsDigit : ℕ → ℕ → Type 0
IsDigit c d = (d < 16) × ((c ≡ get_or lower_digits d 0) ⊎ (c ≡ get_or upper_digits d 0))

-- The byte that digits 2k and 2k + 1 of a text spell.
abbrev pub spelled : Buffer → ℕ → ℕ
spelled s k = from_hex (s (2 * k)) * 16 + from_hex (s (2 * k + 1))

pub from_hex-lt : (c : ℕ) → is_hex c ≡ true → from_hex c < 16
unfolding is_hex from_hex
from_hex-lt c h = ground arith

lower_table :
    table_holds
      (λ d. is_hex (get_or lower_digits d 0) && (from_hex (get_or lower_digits d 0) == d))
      16
    ≡ true
unfolding table_holds is_hex from_hex
lower_table = refl

upper_table :
    table_holds
      (λ d. is_hex (get_or upper_digits d 0) && (from_hex (get_or upper_digits d 0) == d))
      16
    ≡ true
unfolding table_holds is_hex from_hex
upper_table = refl

pub IsDigit-from_hex : (c d : ℕ) → IsDigit c d → (is_hex c ≡ true) × (from_hex c ≡ d)
IsDigit-from_hex c d (lt, inl e) =
    let holds = table_holds_sound _ 16 d lower_table lt in rw e (ground arith)
IsDigit-from_hex c d (lt, inr e) =
    let holds = table_holds_sound _ 16 d upper_table lt in rw e (ground arith)

digit_table :
    table_holds
      (λ c.
        not (is_hex c)
        || (c == get_or lower_digits (from_hex c) 0)
        || (c == get_or upper_digits (from_hex c) 0))
      128
    ≡ true
unfolding table_holds is_hex from_hex
digit_table = refl

is_hex-lt : (c : ℕ) → is_hex c ≡ true → c < 128
unfolding is_hex
is_hex-lt c h = ground arith

pub from_hex-IsDigit : (c : ℕ) → is_hex c ≡ true → IsDigit c (from_hex c)
from_hex-IsDigit c h =
    let holds = rw h at (table_holds_sound _ 128 c digit_table (is_hex-lt c h)) in
    elim (Bool-cases (c == get_or lower_digits (from_hex c) 0)) [
      | inl lower ↦ (from_hex-lt c h, inl ((==_iff _ _).0 lower))
      | inr other ↦ (from_hex-lt c h, inr ((==_iff _ _).0 (rw other at holds)))
    ]

to_hex_table : table_holds (λ d. is_hex (to_hex d) && (from_hex (to_hex d) == d)) 16 ≡ true
unfolding table_holds is_hex to_hex from_hex
to_hex_table = refl

pub is_hex-to_hex : (d : ℕ) → d < 16 → is_hex (to_hex d) ≡ true
is_hex-to_hex d h = ground (arith, table_holds_sound _ 16 d to_hex_table h)

pub from_hex-to_hex : (d : ℕ) → d < 16 → from_hex (to_hex d) ≡ d
from_hex-to_hex d h = ground (arith, table_holds_sound _ 16 d to_hex_table h)

or_table : table_holds (λ b. bit_or (b / 16 * 16) (b % 16) == b) 256 ≡ true
unfolding table_holds
or_table = refl

pub bit_or_digits : (h l : ℕ) → h < 16 → l < 16 → bit_or (h * 16 % 256) l ≡ h * 16 + l
bit_or_digits h l hh hl = ground (
  arith,
  (==_iff (bit_or ((h * 16 + l) / 16 * 16) ((h * 16 + l) % 16)) (h * 16 + l)).0,
  table_holds_sound (λ b. bit_or (b / 16 * 16) (b % 16) == b) 256 (h * 16 + l) or_table,
)

low_table : table_holds (λ b. bit_and b 0x0F == b % 16) 256 ≡ true
unfolding table_holds
low_table = refl

pub bit_and_low : (b : ℕ) → b < 256 → bit_and b 0x0F ≡ b % 16
bit_and_low b h =
    (==_iff _ _).0 (table_holds_sound (λ b. bit_and b 0x0F == b % 16) 256 b low_table h)

-- ===== src/Base64/Bits.antt =====
-- The symbols of base64 and the bits of a group.
use Prim.Native.Nat.{bit_or, bit_and}
use uptiny.Base.{
  ℕ, ◌+◌, ◌*◌, ◌/◌, ◌%◌, ◌<◌, ◌≡◌, refl, true, false, not, ◌&&◌, ◌==◌, ==_iff, arith, table_holds,
  table_holds_sound,
}
use uptiny.Base64.{encode_6bit, decode_sym, fails}

sym_table : table_holds (λ d. (decode_sym (encode_6bit d) == d) && not (fails d)) 64 ≡ true
unfolding table_holds encode_6bit decode_sym fails
sym_table = refl

pub decode_sym-encode_6bit : (d : ℕ) → d < 64 → decode_sym (encode_6bit d) ≡ d
decode_sym-encode_6bit d h = ground (arith, table_holds_sound _ 64 d sym_table h)

pub fails_small : (d : ℕ) → d < 64 → fails d ≡ false
fails_small d h = ground (arith, table_holds_sound _ 64 d sym_table h)

or_four_table : table_holds (λ x. bit_or (x / 4 * 4) (x % 4) == x) 1024 ≡ true
unfolding table_holds
or_four_table = refl

or_sixteen_table : table_holds (λ x. bit_or (x / 16 * 16) (x % 16) == x) 4096 ≡ true
unfolding table_holds
or_sixteen_table = refl

or_sixty_four_table : table_holds (λ x. bit_or (x / 64 * 64) (x % 64) == x) 256 ≡ true
unfolding table_holds
or_sixty_four_table = refl

and_table : table_holds (λ x. bit_and 0x3F x == x % 64) 4096 ≡ true
unfolding table_holds
and_table = refl

pub bit_or_four : (h l : ℕ) → h < 256 → l < 4 → bit_or (h * 4) l ≡ h * 4 + l
bit_or_four h l hh hl =
    ground (
      arith,
      table_holds_sound (λ x. bit_or (x / 4 * 4) (x % 4) == x) 1024 (h * 4 + l) or_four_table,
    )

pub bit_or_sixteen : (h l : ℕ) → h < 256 → l < 16 → bit_or (h * 16) l ≡ h * 16 + l
bit_or_sixteen h l hh hl = ground (
  arith,
  table_holds_sound (λ x. bit_or (x / 16 * 16) (x % 16) == x) 4096 (h * 16 + l) or_sixteen_table,
)

pub bit_or_sixty_four : (h l : ℕ) → h < 4 → l < 64 → bit_or (h * 64) l ≡ h * 64 + l
bit_or_sixty_four h l hh hl = ground (
  arith,
  table_holds_sound (λ x. bit_or (x / 64 * 64) (x % 64) == x) 256 (h * 64 + l) or_sixty_four_table,
)

pub bit_and_low_six : (x : ℕ) → x < 4096 → bit_and 0x3F x ≡ x % 64
bit_and_low_six x h =
    (==_iff _ _).0 (table_holds_sound (λ x. bit_and 0x3F x == x % 64) 4096 x and_table h)

-- ===== src/Tests/Utils.antt =====
-- The texts of numbers, bytes and times, on small examples.
use uptiny.Base.{
  ℕ, zero, suc, ◌+◌, ◌*◌, ◌/◌, ◌<◌, ◌≡◌, ◌↔◌, refl, true, if◌then◌else◌, ltb, some, pos, negsuc,
  Buffer, laid, arith, [], ◌∷◌, get_or, inl, inr,
}
use uptiny.Base64.{base64_encode, base64_decode}
use uptiny.Base64.RoundTrip.{base64_decode-base64_encode}
use uptiny.Json.{codes}
use uptiny.Utils.Hex.{is_hex, hex2bin, bin2hex, hex_bin_cmp}
use uptiny.Utils.Hex.Bytes.{IsDigit}
use uptiny.Utils.Hex.Compare.{IsWritten, hex_bin_cmp_zero_iff}
use uptiny.Utils.Hex.Decode.{hex2bin_lem, hex2bin-is_hex, hex2bin-bin2hex}
use uptiny.Utils.Dec.{dec2int, int2dec}
use uptiny.Utils.Dec.Print.{IsString, dec2int-int2dec}
use uptiny.Utils.Time.{UptaneTime, uptane_time_greater}
use uptiny.Utils.Time.Order.{stamp, IsTime, uptane_time_greater_iff}

abbrev zeros : Buffer
zeros j = 0

abbrev digits : Buffer
digits = laid (codes "1fA0") 0

abbrev octets : Buffer
octets j = 31

abbrev digit_values : ℕ → ℕ
digit_values j = get_or (1 ∷ 15 ∷ 10 ∷ 0 ∷ []) j 0

digits-IsDigit : (j : ℕ) → j < 2 * 2 → IsDigit (digits j) (digit_values j)
digits-IsDigit zero h = (omega arith, inl refl)
digits-IsDigit (suc zero) h = (omega arith, inl refl)
digits-IsDigit (suc (suc zero)) h = (omega arith, inr refl)
digits-IsDigit (suc (suc (suc zero))) h = (omega arith, inl refl)
digits-IsDigit (suc (suc (suc (suc j)))) h = absurd (omega arith)

hex2bin_lem_example :
    ((hex2bin digits (pos 4) zeros).0 ≡ true)
    × ((j : ℕ)
        → (hex2bin digits (pos 4) zeros).1 j
          ≡ (if ltb j 2 then digit_values (2 * j) * 16 + digit_values (2 * j + 1) else zeros j))
hex2bin_lem_example = hex2bin_lem 2 digits zeros digit_values digits-IsDigit

digits-read : (hex2bin digits (pos 4) zeros).0 ≡ true
digits-read = hex2bin_lem_example.0

hex2bin-is_hex_example : (is_hex (digits 3) ≡ true) × ((d : ℕ) × IsDigit (digits 3) d)
hex2bin-is_hex_example = hex2bin-is_hex digits 4 zeros digits-read 3 (omega arith)

hex2bin-bin2hex_example :
    ((hex2bin (bin2hex octets 3 zeros) (pos 6) zeros).0 ≡ true)
    × ((j : ℕ)
        → (hex2bin (bin2hex octets 3 zeros) (pos 6) zeros).1 j
          ≡ (if ltb j 3 then octets j else zeros j))
hex2bin-bin2hex_example = hex2bin-bin2hex 3 octets zeros zeros (λ j h. omega arith)

hex_bin_cmp_zero_iff_example :
    (hex_bin_cmp digits (pos 4) octets ≡ pos 0) ↔ ((j : ℕ) → j < 2 → IsWritten digits octets j)
hex_bin_cmp_zero_iff_example = hex_bin_cmp_zero_iff 2 digits octets

dec2int-int2dec_example :
    (len : ℕ) × IsString (int2dec (negsuc 41) zeros) len
    × (dec2int (int2dec (negsuc 41) zeros) (pos len) ≡ some (negsuc 41))
dec2int-int2dec_example = dec2int-int2dec (negsuc 41) zeros (omega arith) (omega arith)

base64_decode-base64_encode_example :
    let text = base64_encode octets 4 zeros in
    let len = 4 * ((4 + 2) / 3) in
    let (res, read) = base64_decode text len zeros in
    (text len ≡ 0) × (res ≡ pos 4) × ((j : ℕ) → j < 4 → read j ≡ octets j)
base64_decode-base64_encode_example =
    base64_decode-base64_encode 4 octets zeros zeros (λ j h. omega arith)

abbrev new_year : UptaneTime
new_year = record { year = 2020; month = 1; day = 1; hour = 0; minute = 0; second = 0 }

abbrev new_years_eve : UptaneTime
new_years_eve = record { year = 2019; month = 12; day = 31; hour = 23; minute = 59; second = 59 }

new_year-IsTime : IsTime new_year
new_year-IsTime = record {
  month = omega arith;
  day = omega arith;
  hour = omega arith;
  minute = omega arith;
  second = omega arith;
}

new_years_eve-IsTime : IsTime new_years_eve
new_years_eve-IsTime = record {
  month = omega arith;
  day = omega arith;
  hour = omega arith;
  minute = omega arith;
  second = omega arith;
}

uptane_time_greater_iff_example :
    (uptane_time_greater new_year new_years_eve ≡ true) ↔ (stamp new_years_eve < stamp new_year)
uptane_time_greater_iff_example =
    uptane_time_greater_iff new_year new_years_eve new_year-IsTime new_years_eve-IsTime

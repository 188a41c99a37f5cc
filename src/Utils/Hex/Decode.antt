-- ===== src/Utils/Hex/Decode.antt =====
-- `hex2bin`, and what `bin2hex` writes read back by it.
use Prim.Native.Nat.{bit_or, bit_and}
use uptiny.Base.{
  ℕ, zero, suc, ◌+◌, ◌*◌, ◌/◌, ◌%◌, ◌≤◌, ◌<◌, ◌≡◌, refl, ◌∙◌, ap, true, ◌&&◌, ltb, leb, ◌==◌,
  if◌then◌else◌, pos, Buffer, arith, Bool-cases, inl, inr,
}
use uptiny.Utils.Hex.{is_hex, from_hex, to_hex, store_digit, hex2bin_from, hex2bin}
use uptiny.Utils.Hex.{bin2hex_from, bin2hex}
use uptiny.Utils.Hex.Bytes.{
  spelled, IsDigit, IsDigit-from_hex, from_hex-IsDigit, from_hex-lt, is_hex-to_hex, from_hex-to_hex,
}
use uptiny.Utils.Hex.Bytes.{bit_or_digits, bit_and_low}

store_high :
    (i k d : ℕ) (bin : Buffer) (j : ℕ)
    → i ≡ 2 * k
    → store_digit i d bin j ≡ (if j == k then d * 16 % 256 else bin j)
unfolding store_digit
store_high i k d bin j e = ground arith

store_low :
    (i k d : ℕ) (bin : Buffer) (j : ℕ)
    → i ≡ 2 * k + 1
    → store_digit i d bin j ≡ (if j == k then bit_or (bin k) d else bin j)
unfolding store_digit
store_low i k d bin j e = let e' : i / 2 ≡ k = omega arith in ground (arith, e')

-- Two rounds at an even index store the byte that the two digits spell.
store_pair :
    (i k : ℕ) (s bin : Buffer) (j : ℕ)
    → i ≡ 2 * k
    → is_hex (s i) ≡ true
    → is_hex (s (i + 1)) ≡ true
    → store_digit (i + 1) (from_hex (s (i + 1))) (store_digit i (from_hex (s i)) bin) j
      ≡ (if j == k then from_hex (s i) * 16 + from_hex (s (i + 1)) else bin j)
store_pair i k s bin j e h l = ground (
  arith,
  store_low (i + 1) k (from_hex (s (i + 1))) (store_digit i (from_hex (s i)) bin) j,
  store_high i k (from_hex (s i)) bin j,
  store_high i k (from_hex (s i)) bin k,
  from_hex-lt (s i),
  from_hex-lt (s (i + 1)),
  bit_or_digits (from_hex (s i)) (from_hex (s (i + 1))),
)

hex2bin_from-pairs :
    (m n k i : ℕ) (s bin : Buffer)
    → n ≡ 2 * m
    → i ≡ 2 * k
    → ((j : ℕ) → i ≤ j → j < i + n → is_hex (s j) ≡ true)
    → ((hex2bin_from n i s bin).0 ≡ true)
      × ((j : ℕ)
          → (hex2bin_from n i s bin).1 j
            ≡ (if leb k j && ltb j (k + m) then spelled s j else bin j))
unfolding hex2bin_from
hex2bin_from-pairs zero zero k i s bin en ei hex = (refl, λ j. ground arith)
hex2bin_from-pairs zero (suc n) k i s bin en ei hex = absurd (omega arith)
hex2bin_from-pairs (suc m) zero k i s bin en ei hex = absurd (omega arith)
hex2bin_from-pairs (suc m) (suc zero) k i s bin en ei hex = absurd (omega arith)
hex2bin_from-pairs (suc m) (suc (suc n)) k i s bin en ei hex =
    let here = hex i (omega arith) (omega arith) in
    let next = hex (i + 1) (omega arith) (omega arith) in
    let rest =
      hex2bin_from-pairs m n (k + 1) (i + 1 + 1) s
        (store_digit (i + 1) (from_hex (s (i + 1))) (store_digit i (from_hex (s i)) bin))
        (omega arith) (omega arith) (λ j lo hi. hex j (omega arith) (omega arith)) in
    rw (here, next, hex2bin_from)
      (
        rest.0,
        λ j.
            let at_i : s i ≡ s (2 * k) = ap s ei in
            let at_i' : s (i + 1) ≡ s (2 * k + 1) = ap s (omega arith) in
            rest.1 j ∙ ground (arith, store_pair i k s bin j ei here next),
      )

hex2bin-spelled :
    (m : ℕ) (s bin : Buffer)
    → ((j : ℕ) → j < 2 * m → is_hex (s j) ≡ true)
    → ((hex2bin s (pos (2 * m)) bin).0 ≡ true)
      × ((j : ℕ) → (hex2bin s (pos (2 * m)) bin).1 j ≡ (if ltb j m then spelled s j else bin j))
unfolding hex2bin
hex2bin-spelled m s bin hex =
    let pairs = hex2bin_from-pairs m (2 * m) 0 0 s bin refl refl (λ j lo hi. hex j (omega arith)) in
    (pairs.0, λ j. pairs.1 j ∙ ground arith)

-- `hex2bin` on 2m characters that are the hexadecimal digits, in either case, of the values
-- `digit 0`, `digit 1` and so on returns true, stores in each of the first m bytes the value of its
-- two digits, the high one first, and leaves the memory from the m-th byte on.
pub hex2bin_lem :
    (m : ℕ) (s bin : Buffer) (digit : ℕ → ℕ)
    → ((j : ℕ) → j < 2 * m → IsDigit (s j) (digit j))
    → ((hex2bin s (pos (2 * m)) bin).0 ≡ true)
      × ((j : ℕ)
          → (hex2bin s (pos (2 * m)) bin).1 j
            ≡ (if ltb j m then digit (2 * j) * 16 + digit (2 * j + 1) else bin j))
hex2bin_lem m s bin digit h =
    let value = λ (j : ℕ) (lt : j < 2 * m). IsDigit-from_hex (s j) (digit j) (h j lt) in
    let read = hex2bin-spelled m s bin (λ j lt. (value j lt).0) in
    (
      read.0,
      λ j. elim (Bool-cases (ltb j m)) [
        | inr out ↦ rw out (rw out at (read.1 j))
        | inl inside ↦
            let high = (value (2 * j) (ground arith)).1 in
            let low = (value (2 * j + 1) (ground arith)).1 in
            rw inside (rw (inside, high, low) at (read.1 j))
      ],
    )

hex2bin_from-is_hex :
    (n i : ℕ) (s bin : Buffer)
    → (hex2bin_from n i s bin).0 ≡ true
    → (j : ℕ) → i ≤ j
    → j < i + n
    → is_hex (s j) ≡ true
unfolding hex2bin_from
hex2bin_from-is_hex zero i s bin h j lo hi = absurd (omega arith)
hex2bin_from-is_hex (suc n) i s bin h j lo hi = elim (Bool-cases (is_hex (s i))) [
  | inr bad ↦ cc (rw (bad, hex2bin_from) at h)
  | inl good ↦ elim (Bool-cases (i == j)) [
    | inl same ↦ let e : j ≡ i = ground arith in rw e good
    | inr other ↦
        hex2bin_from-is_hex n (i + 1) s _ (rw (good, hex2bin_from) at h) j (ground arith)
          (omega arith)
  ]
]

-- `hex2bin` returns true only where all characters are hexadecimal digits, in either case.
pub hex2bin-is_hex :
    (s : Buffer) (len : ℕ) (bin : Buffer)
    → (hex2bin s (pos len) bin).0 ≡ true
    → (j : ℕ) → j < len
    → (is_hex (s j) ≡ true) × ((d : ℕ) × IsDigit (s j) d)
unfolding hex2bin
hex2bin-is_hex s len bin h j lt =
    let hex = hex2bin_from-is_hex len 0 s bin h j (omega arith) (omega arith) in
    (hex, (from_hex (s j), from_hex-IsDigit (s j) hex))

bin2hex_from-below : (n i : ℕ) (bin s : Buffer) (j : ℕ) → j < 2 * i → bin2hex_from n i bin s j ≡ s j
unfolding bin2hex_from
bin2hex_from-below zero i bin s j h = refl
bin2hex_from-below (suc n) i bin s j h =
    bin2hex_from-below n (i + 1) bin _ j (omega arith) ∙ ground arith

bin2hex_from-digits :
    (n i : ℕ) (bin s : Buffer) (j : ℕ)
    → i ≤ j
    → j < i + n
    → (bin2hex_from n i bin s (2 * j) ≡ to_hex (bin j / 16))
      × (bin2hex_from n i bin s (2 * j + 1) ≡ to_hex (bit_and (bin j) 0x0F))
unfolding bin2hex_from
bin2hex_from-digits zero i bin s j lo hi = absurd (omega arith)
bin2hex_from-digits (suc n) i bin s j lo hi = elim (Bool-cases (i == j)) [
  | inr other ↦ bin2hex_from-digits n (i + 1) bin _ j (ground arith) (omega arith)
  | inl same ↦
      let e : j ≡ i = ground arith in
      rw e (
        bin2hex_from-below n (i + 1) bin _ (2 * i) (omega arith) ∙ ground arith,
        bin2hex_from-below n (i + 1) bin _ (2 * i + 1) (omega arith) ∙ ground arith,
      )
]

bin2hex-digits :
    (n : ℕ) (bin s : Buffer) (j : ℕ)
    → j < n
    → bin j < 256
    → (bin2hex bin n s (2 * j) ≡ to_hex (bin j / 16))
      × (bin2hex bin n s (2 * j + 1) ≡ to_hex (bin j % 16))
unfolding bin2hex
bin2hex-digits n bin s j h b =
    ground (arith, bin2hex_from-digits n 0 bin s j, bit_and_low (bin j) b)

bin2hex-is_hex :
    (n : ℕ) (bin s : Buffer)
    → ((j : ℕ) → j < n → bin j < 256)
    → (j : ℕ) → j < 2 * n
    → is_hex (bin2hex bin n s j) ≡ true
bin2hex-is_hex n bin s b j h =
    let k : ℕ = j / 2 in
    let byte = b k (omega arith) in
    let digits = bin2hex-digits n bin s k (omega arith) byte in
    elim (Bool-cases (j % 2 == 0)) [
      | inl even ↦
          let e : j ≡ 2 * k = ground arith in
          rw (e, digits.0) (is_hex-to_hex (bin k / 16) (omega arith))
      | inr odd ↦
          let e : j ≡ 2 * k + 1 = ground arith in
          rw (e, digits.1) (is_hex-to_hex (bin k % 16) (omega arith))
    ]

-- `hex2bin` reads back the n bytes that `bin2hex` wrote, returns true, and leaves the memory from
-- the n-th byte on.
pub hex2bin-bin2hex :
    (n : ℕ) (bin s out : Buffer)
    → ((j : ℕ) → j < n → bin j < 256)
    → ((hex2bin (bin2hex bin n s) (pos (2 * n)) out).0 ≡ true)
      × ((j : ℕ)
          → (hex2bin (bin2hex bin n s) (pos (2 * n)) out).1 j ≡ (if ltb j n then bin j else out j))
hex2bin-bin2hex n bin s out b =
    let read = hex2bin-spelled n (bin2hex bin n s) out (bin2hex-is_hex n bin s b) in
    (
      read.0,
      λ j.
          read.1 j
          ∙ ground (
            arith,
            b j,
            bin2hex-digits n bin s j,
            from_hex-to_hex (bin j / 16),
            from_hex-to_hex (bin j % 16),
          ),
    )

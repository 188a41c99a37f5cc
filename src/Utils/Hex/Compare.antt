-- ===== src/Utils/Hex/Compare.antt =====
-- `hex_bin_cmp`: it returns 0 exactly on the hexadecimal text of the bytes.
use uptiny.Base.{
  ℕ, zero, suc, ◌+◌, ◌*◌, ◌/◌, ◌≤◌, ◌<◌, ◌≡◌, refl, sym, ap, true, ◌&&◌, ltb, ◌==◌, if◌then◌else◌,
  pos, negsuc, Buffer, arith, Bool-cases, inl, inr, ◌↔◌,
}
use uptiny.Utils.Hex.{is_hex, from_hex, hex_bin_cmp_from, hex_bin_cmp}
use uptiny.Utils.Hex.Bytes.{
  spelled, IsDigit, IsDigit-from_hex, from_hex-IsDigit, from_hex-lt, bit_or_digits,
}

-- Digits 2k and 2k + 1 of the text spell the byte `bin k`, as the code reads digits.
abbrev Spells : Buffer → Buffer → ℕ → Type 0
Spells s bin k =
    (is_hex (s (2 * k)) ≡ true) × (is_hex (s (2 * k + 1)) ≡ true) × (spelled s k ≡ bin k)

-- The two rounds for one byte.
cmp_pair :
    (n i k byte : ℕ) (s bin : Buffer)
    → i ≡ 2 * k
    → hex_bin_cmp_from (suc (suc n)) i byte s bin ≡ (
        if is_hex (s i) && is_hex (s (i + 1))
        then (if ltb (from_hex (s i) * 16 + from_hex (s (i + 1))) (bin k)
            then negsuc 0
            else if ltb (bin k) (from_hex (s i) * 16 + from_hex (s (i + 1)))
            then pos 1
            else hex_bin_cmp_from n (i + 1 + 1) (from_hex (s i) * 16 + from_hex (s (i + 1))) s bin)
        else negsuc 0)
unfolding hex_bin_cmp_from
cmp_pair n i k byte s bin e =
    let half : (i + 1) / 2 ≡ k = omega arith in
    ground (
      arith,
      half,
      from_hex-lt (s i),
      from_hex-lt (s (i + 1)),
      bit_or_digits (from_hex (s i)) (from_hex (s (i + 1))),
    )

cmp_from_sound :
    (m n i k byte : ℕ) (s bin : Buffer)
    → n ≡ 2 * m
    → i ≡ 2 * k
    → hex_bin_cmp_from n i byte s bin ≡ pos 0
    → (j : ℕ) → k ≤ j
    → j < k + m
    → Spells s bin j
cmp_from_sound zero n i k byte s bin en ei h j lo hi = absurd (omega arith)
cmp_from_sound (suc m) zero i k byte s bin en ei h j lo hi = absurd (omega arith)
cmp_from_sound (suc m) (suc zero) i k byte s bin en ei h j lo hi = absurd (omega arith)
cmp_from_sound (suc m) (suc (suc n)) i k byte s bin en ei h j lo hi =
    let at_i : s i ≡ s (2 * k) = ap s ei in
    let at_i' : s (i + 1) ≡ s (2 * k + 1) = ap s (omega arith) in
    let eq = cmp_pair n i k byte s bin ei in
    elim (Bool-cases (k == j)) [
      | inl same ↦ let e : j ≡ k = ground arith in rw e (ground arith)
      | inr other ↦
          cmp_from_sound m n (i + 1 + 1) (k + 1) (from_hex (s i) * 16 + from_hex (s (i + 1))) s bin
            (omega arith) (omega arith) (ground arith) j (ground arith) (omega arith)
    ]

cmp_from_complete :
    (m n i k byte : ℕ) (s bin : Buffer)
    → n ≡ 2 * m
    → i ≡ 2 * k
    → ((j : ℕ) → k ≤ j → j < k + m → Spells s bin j)
    → hex_bin_cmp_from n i byte s bin ≡ pos 0
cmp_from_complete zero zero i k byte s bin en ei h = unfold hex_bin_cmp_from in refl
cmp_from_complete zero (suc n) i k byte s bin en ei h = absurd (omega arith)
cmp_from_complete (suc m) zero i k byte s bin en ei h = absurd (omega arith)
cmp_from_complete (suc m) (suc zero) i k byte s bin en ei h = absurd (omega arith)
cmp_from_complete (suc m) (suc (suc n)) i k byte s bin en ei h =
    let at_i : s i ≡ s (2 * k) = ap s ei in
    let at_i' : s (i + 1) ≡ s (2 * k + 1) = ap s (omega arith) in
    let first = h k (omega arith) (omega arith) in
    let rest =
      cmp_from_complete m n (i + 1 + 1) (k + 1) (from_hex (s i) * 16 + from_hex (s (i + 1))) s bin
        (omega arith) (omega arith) (λ j lo hi. h j (omega arith) (omega arith)) in
    ground (arith, cmp_pair n i k byte s bin ei, first, rest)

-- Characters 2k and 2k + 1 of the text are the high and the low digit of the byte `bin k`.
abbrev pub IsWritten : Buffer → Buffer → ℕ → Type 0
IsWritten s bin k =
    (high : ℕ) × (low : ℕ) × IsDigit (s (2 * k)) high
    × IsDigit (s (2 * k + 1)) low
    × (bin k ≡ high * 16 + low)

Spells-IsWritten : (s bin : Buffer) (k : ℕ) → Spells s bin k ↔ IsWritten s bin k
Spells-IsWritten s bin k = (
  λ (is_high, is_low, e). (
    from_hex (s (2 * k)),
    from_hex (s (2 * k + 1)),
    from_hex-IsDigit (s (2 * k)) is_high,
    from_hex-IsDigit (s (2 * k + 1)) is_low,
    sym e,
  ),
  λ (high, low, is_high, is_low, e).
      let h = IsDigit-from_hex (s (2 * k)) high is_high in
      let l = IsDigit-from_hex (s (2 * k + 1)) low is_low in (h.0, l.0, rw (h.1, l.1, e) refl),
)

-- `hex_bin_cmp` over 2m characters returns 0 exactly where they are hexadecimal digits, in either
-- case, and each of the first m bytes has the value of its two digits, the high one first.
pub hex_bin_cmp_zero_iff :
    (m : ℕ) (s bin : Buffer)
    → (hex_bin_cmp s (pos (2 * m)) bin ≡ pos 0) ↔ ((j : ℕ) → j < m → IsWritten s bin j)
unfolding hex_bin_cmp
hex_bin_cmp_zero_iff m s bin = (
  λ h j lt.
      (Spells-IsWritten s bin j).0
        (cmp_from_sound m (2 * m) 0 0 0 s bin refl refl h j (omega arith) (omega arith)),
  λ h.
      cmp_from_complete m (2 * m) 0 0 0 s bin refl refl
        (λ j lo hi. (Spells-IsWritten s bin j).1 (h j (omega arith))),
)

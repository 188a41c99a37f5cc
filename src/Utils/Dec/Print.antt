-- ===== src/Utils/Dec/Print.antt =====
-- What `int2dec` writes, and that `dec2int` reads it back.
use native.Mathlib.Nat.{pow-suc}
use uptiny.Base.{
  ℕ, zero, suc, ◌+◌, ◌-◌, ◌/◌, ◌%◌, ◌^◌, ◌≤◌, ◌<◌, ◌≡◌, refl, ◌∙◌, ◌≢◌, true, false, ◌==◌, ltb, leb,
  ◌&&◌, if◌then◌else◌, some, ℤ, pos, negsuc, pos_part, neg_part, Buffer, write, arith, Bool-cases,
  inl, inr,
}
use uptiny.Utils.Dec.{dec2int_from, dec2int, write_digits, swap_digits, digits_fuel}
use uptiny.Utils.Dec.{int2dec_from, int2dec}
use uptiny.Utils.Dec.Read.{shifted, dec2int_from-digits}

-- How many digits the loop writes.
digit_count : ℕ → ℕ → ℕ
digit_count zero num = 0
digit_count (suc fuel) num = elim (num == 0) [
  | true ↦ 0
  | false ↦ suc (digit_count fuel (num / 10))
]

shifted-pos : (n k : ℕ) → 0 < k → shifted n k ≡ shifted (n / 10) (k - 1)
unfolding shifted
shifted-pos n zero h = absurd (omega arith)
shifted-pos n (suc k) h = let e : suc k - 1 ≡ k = omega arith in rw e

digit_cell :
    (num idx c : ℕ) (s : Buffer) (j : ℕ)
    → (if leb (idx + 1) j && ltb j (idx + 1 + c)
        then b'0' + shifted (num / 10) (j - (idx + 1)) % 10
        else write s idx (b'0' + num % 10) j)
      ≡ (if leb idx j && ltb j (idx + suc c) then b'0' + shifted num (j - idx) % 10 else s j)
digit_cell num idx c s j =
    let e : j - (idx + 1) ≡ j - idx - 1 = omega arith in
    elim (Bool-cases (j == idx)) [
      | inl same ↦
          let here : j ≡ idx = ground arith in
          let z : idx - idx ≡ 0 = omega arith in rw (here, z) (unfold shifted in ground arith)
      | inr other ↦ rw e (ground (arith, shifted-pos num (j - idx)))
    ]

write_digits-cells :
    (fuel num idx : ℕ) (s : Buffer) (j : ℕ)
    → (write_digits fuel num idx s).1 j ≡ (
        if leb idx j && ltb j (idx + digit_count fuel num)
        then b'0' + shifted num (j - idx) % 10
        else s j)
unfolding write_digits digit_count
write_digits-cells zero num idx s j = ground arith
write_digits-cells (suc fuel) num idx s j = elim (Bool-cases (num == 0)) [
  | inl done ↦ ground arith
  | inr more ↦
      rw (more, write_digits, digit_count)
        (write_digits-cells fuel (num / 10) (idx + 1) (write s idx (b'0' + num % 10)) j
          ∙ digit_cell num idx (digit_count fuel (num / 10)) s j)
]

write_digits-end :
    (fuel num idx : ℕ) (s : Buffer)
    → num < 10 ^ fuel
    → ((write_digits fuel num idx s).0 ≡ idx + digit_count fuel num)
      × (shifted num (digit_count fuel num) ≡ 0)
unfolding write_digits digit_count shifted
write_digits-end zero num idx s h = (omega arith, omega arith)
write_digits-end (suc fuel) num idx s h =
    let e = pow-suc 10 fuel in
    let rest =
      write_digits-end fuel (num / 10) (idx + 1) (write s idx (b'0' + num % 10)) (omega arith) in
    ground (arith, rest)

swap_cell :
    (i first last : ℕ) (s : Buffer) (j : ℕ)
    → first + i + i ≤ last
    → (if leb (first + (i + 1)) j && leb (j + (i + 1)) last
        then write
            (write s (first + i) (s (last - i)))
            (last - i)
            (s (first + i))
            (first + last - j)
        else write (write s (first + i) (s (last - i))) (last - i) (s (first + i)) j)
      ≡ (if leb (first + i) j && leb (j + i) last then s (first + last - j) else s j)
swap_cell i first last s j h = elim (Bool-cases (j == first + i)) [
  | inl low ↦
      let e : j ≡ first + i = ground arith in
      let e' : first + last - (first + i) ≡ last - i = omega arith in rw (e, e') (ground arith)
  | inr no_low ↦ elim (Bool-cases (j == last - i)) [
    | inl high ↦
        let e : j ≡ last - i = ground arith in
        let e' : first + last - (last - i) ≡ first + i = omega arith in rw (e, e') (ground arith)
    | inr no_high ↦ ground arith
  ]
]

swap_digits-cells :
    (n i first last : ℕ) (s : Buffer) (j : ℕ)
    → n + i ≡ (last + 1) / 2
    → first ≤ 1
    → first ≤ last
    → swap_digits n i first last s j
      ≡ (if leb (first + i) j && leb (j + i) last then s (first + last - j) else s j)
unfolding swap_digits
swap_digits-cells zero i first last s j e f l =
    elim (Bool-cases (leb (first + i) j && leb (j + i) last)) [
      | inl inside ↦ let same : first + last - j ≡ j = ground arith in rw (inside, same)
      | inr outside ↦ rw outside
    ]
swap_digits-cells (suc n) i first last s j e f l =
    swap_digits-cells n (i + 1) first last _ j (omega arith) f l
    ∙ swap_cell i first last s j (omega arith)

digit_count-pos : (fuel num : ℕ) → 0 < num → 0 < digit_count (suc fuel) num
unfolding digit_count
digit_count-pos fuel num h = ground arith

-- The cells of the text once the digits, written from `first` on, are turned round.
placed_cell :
    (num first d : ℕ) (out s : Buffer) (k : ℕ)
    → first ≤ 1
    → 0 < d
    → ((j : ℕ)
        → out j
          ≡ (if leb first j && ltb j (first + d) then b'0' + shifted num (j - first) % 10 else s j))
    → (if leb (first + 0) k && leb (k + 0) (first + d - 1)
        then write out (first + d) 0 (first + (first + d - 1) - k)
        else write out (first + d) 0 k)
      ≡ (if leb first k && ltb k (first + d)
          then b'0' + shifted num (first + d - 1 - k) % 10
          else if k == first + d
          then 0
          else s k)
placed_cell num first d out s k f more cell = elim (Bool-cases (leb first k && ltb k (first + d))) [
  | inl inside ↦
      let e : first + (first + d - 1) - k - first ≡ first + d - 1 - k = ground arith in
      let digit = rw e at (cell (first + (first + d - 1) - k)) in ground (arith, digit)
  | inr outside ↦ ground (arith, cell k)
]

int2dec_from-cells :
    (num first : ℕ) (s : Buffer) (k : ℕ)
    → 0 < num
    → num < 2 ^ 31
    → first ≤ 1
    → let d = digit_count digits_fuel num in
      int2dec_from num first s k ≡ (
        if leb first k && ltb k (first + d)
        then b'0' + shifted num (first + d - 1 - k) % 10
        else if k == first + d
        then 0
        else s k)
unfolding int2dec_from
int2dec_from-cells num first s k p h f =
    let d = digit_count digits_fuel num in
    let out = (write_digits digits_fuel num first s).1 in
    let end = write_digits-end digits_fuel num first s (omega arith) in
    let more = digit_count-pos 9 num p in
    rw (end.0) (
      swap_digits-cells ((first + d) / 2) 0 first (first + d - 1) (write out (first + d) 0) k
        (omega arith) f (omega arith)
      ∙ placed_cell num first d out s k f more (λ j. write_digits-cells digits_fuel num first s j))

-- A text: `len` characters that are not 0, and a 0.
pub record IsString (s : Buffer) (len : ℕ) : Type 0 where
  pub ends : s len ≡ 0
  pub no_zero : (j : ℕ) → j < len → s j ≢ 0

digits-IsString :
    (num first : ℕ) (s : Buffer)
    → 0 < num
    → num < 2 ^ 31
    → first ≤ 1
    → ((j : ℕ) → j < first → s j ≢ 0)
    → IsString (int2dec_from num first s) (first + digit_count digits_fuel num)
digits-IsString num first s p h f front = record {
  ends = int2dec_from-cells num first s (first + digit_count digits_fuel num) p h f ∙ ground arith;
  no_zero = λ j lt. ground (arith, int2dec_from-cells num first s j p h f, front j);
}

digits-read :
    (num first : ℕ) (s : Buffer)
    → 0 < num
    → num < 2 ^ 31
    → first ≤ 1
    → dec2int_from (digit_count digits_fuel num) first (int2dec_from num first s) 0 ≡ some num
digits-read num first s p h f =
    let d = digit_count digits_fuel num in
    let end = write_digits-end digits_fuel num first s (omega arith) in
    rw end.1 at (
      dec2int_from-digits d first (int2dec_from num first s) num h (λ j lt.
        let e : first + d - 1 - (first + j) ≡ d - 1 - j = omega arith in
        int2dec_from-cells num first s (first + j) p h f ∙ rw e (ground arith)))

-- `int2dec` of an int32_t above the least one writes a 0-terminated text, and `dec2int` reads the
-- number back from it.
pub dec2int-int2dec :
    (num : ℤ) (s : Buffer)
    → pos_part num < 2 ^ 31
    → neg_part num < 2 ^ 31
    → (len : ℕ) × IsString (int2dec num s) len × (dec2int (int2dec num s) (pos len) ≡ some num)
unfolding int2dec dec2int
dec2int-int2dec (pos zero) s p n = (
  1,
  record { ends = refl; no_zero = λ j lt. let e : j ≡ 0 = omega arith in rw e (ground arith) },
  unfold dec2int_from in refl,
)
dec2int-int2dec (pos (suc n)) s p _ =
    let read = digits-read (suc n) 0 s (omega arith) p (omega arith) in
    let first = int2dec_from-cells (suc n) 0 s 0 (omega arith) p (omega arith) in
    let more = digit_count-pos 9 (suc n) (omega arith) in
    (
      0 + digit_count digits_fuel (suc n),
      digits-IsString (suc n) 0 s (omega arith) p (omega arith) (λ j lt. absurd (omega arith)),
      ground (arith, read, first, more),
    )
dec2int-int2dec (negsuc n) s _ p =
    let e : n + 1 ≡ suc n = omega arith in
    let read = digits-read (suc n) 1 (write s 0 b'-') (omega arith) p (omega arith) in
    let first = int2dec_from-cells (suc n) 1 (write s 0 b'-') 0 (omega arith) p (omega arith) in
    rw e (
      1 + digit_count digits_fuel (suc n),
      digits-IsString (suc n) 1 (write s 0 b'-') (omega arith) p (omega arith)
          (λ j lt. ground arith),
      ground (arith, read, first),
    )

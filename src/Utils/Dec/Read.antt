-- ===== src/Utils/Dec/Read.antt =====
-- `dec2int` on the digits of a number.
use uptiny.Base.{
  ℕ, zero, suc, ◌+◌, ◌-◌, ◌*◌, ◌/◌, ◌%◌, ◌^◌, ◌≤◌, ◌<◌, ◌≡◌, refl, ◌∙◌, some, Buffer, arith,
}
use uptiny.Utils.Dec.{dec2int_from}

-- `n` without its lowest `j` digits.
unfoldable pub shifted : ℕ → ℕ → ℕ
shifted n zero = n
shifted n (suc j) = shifted (n / 10) j

pub shifted-suc : (n j : ℕ) → shifted n (suc j) ≡ shifted n j / 10
unfolding shifted
shifted-suc n zero = refl
shifted-suc n (suc j) = shifted-suc (n / 10) j

pub shifted-le : (n j : ℕ) → shifted n j ≤ n
unfolding shifted
shifted-le n zero = omega arith
shifted-le n (suc j) = omega (arith, shifted-le (n / 10) j)

read_digit :
    (m i : ℕ) (s : Buffer) (res d : ℕ)
    → d < 10
    → s i ≡ b'0' + d
    → dec2int_from (suc m) i s res ≡ dec2int_from m (i + 1) s ((res * 10 + d) % 2 ^ 32)
unfolding dec2int_from
read_digit m i s res d h e = ground arith

-- The digits of `n` from the highest down to the lowest are read as `n`.
pub dec2int_from-digits :
    (m i : ℕ) (s : Buffer) (n : ℕ)
    → n < 2 ^ 31
    → ((j : ℕ) → j < m → s (i + j) ≡ b'0' + shifted n (m - 1 - j) % 10)
    → dec2int_from m i s (shifted n m) ≡ some n
dec2int_from-digits zero i s n h digit = unfold shifted dec2int_from in refl
dec2int_from-digits (suc m) i s n h digit =
    let e : i + 0 ≡ i = omega arith in
    let e' : suc m - 1 - 0 ≡ m = omega arith in
    let here : s i ≡ b'0' + shifted n m % 10 = rw (e, e') at (digit 0 (omega arith)) in
    let acc : (shifted n (suc m) * 10 + shifted n m % 10) % 2 ^ 32 ≡ shifted n m =
      omega (arith, shifted-suc n m, shifted-le n m) in
    read_digit m i s (shifted n (suc m)) (shifted n m % 10) (omega arith) here
    ∙ rw acc (
        dec2int_from-digits m (i + 1) s n h (λ j lt.
          let e₁ : i + 1 + j ≡ i + (j + 1) = omega arith in
          let e₂ : suc m - 1 - (j + 1) ≡ m - 1 - j = omega arith in
          rw e₁ (rw e₂ at (digit (j + 1) (omega arith)))))

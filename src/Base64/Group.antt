-- ===== src/Base64/Group.antt =====
-- One group: four symbols and up to three bytes.
use Prim.Native.Nat.{bit_or, bit_and}
use uptiny.Base.{ℕ, ◌+◌, ◌*◌, ◌/◌, ◌%◌, ◌<◌, ◌≡◌, refl, ap, pos, Buffer, arith}
use uptiny.Base64.{encode_6bit, encode_triple, decode_sym, decode_last, decode_third}
use uptiny.Base64.{decode_second, decode_first, decode_quadruple}
use uptiny.Base64.Bits.{decode_sym-encode_6bit, fails_small, bit_or_four, bit_or_sixteen}
use uptiny.Base64.Bits.{bit_or_sixty_four, bit_and_low_six}

-- The sextets of three bytes.
abbrev pub second_sextet : ℕ → ℕ → ℕ
second_sextet a b = a % 4 * 16 + b / 16

abbrev pub third_sextet : ℕ → ℕ → ℕ
third_sextet b c = b % 16 * 4 + c / 64

pub encode_triple-full :
    (msg out : Buffer)
    → msg 0 < 256
    → msg 1 < 256
    → msg 2 < 256
    → let text = encode_triple msg 0 out in
      (text 0 ≡ encode_6bit (msg 0 / 4))
      × (text 1 ≡ encode_6bit (second_sextet (msg 0) (msg 1)))
      × (text 2 ≡ encode_6bit (third_sextet (msg 1) (msg 2)))
      × (text 3 ≡ encode_6bit (msg 2 % 64))
unfolding encode_triple
encode_triple-full msg out a b c =
    let e₁ : bit_and 0x3F (bit_or (msg 0 * 16) (msg 1 / 16)) ≡ second_sextet (msg 0) (msg 1) =
      rw (bit_or_sixteen (msg 0) (msg 1 / 16) a (omega arith))
        (omega (arith, bit_and_low_six (msg 0 * 16 + msg 1 / 16) (omega arith))) in
    let e₂ : bit_and 0x3F (bit_or (msg 1 * 4) (msg 2 / 64)) ≡ third_sextet (msg 1) (msg 2) =
      rw (bit_or_four (msg 1) (msg 2 / 64) b (omega arith))
        (omega (arith, bit_and_low_six (msg 1 * 4 + msg 2 / 64) (omega arith))) in
    let e₃ = bit_and_low_six (msg 2) (omega arith) in
    (refl, ap encode_6bit e₁, ap encode_6bit e₂, ap encode_6bit e₃)

pub encode_triple_two :
    (msg out : Buffer)
    → msg 0 < 256
    → msg 1 < 256
    → let text = encode_triple msg 1 out in
      (text 0 ≡ encode_6bit (msg 0 / 4))
      × (text 1 ≡ encode_6bit (second_sextet (msg 0) (msg 1)))
      × (text 2 ≡ encode_6bit (msg 1 % 16 * 4))
      × (text 3 ≡ b'=')
unfolding encode_triple
encode_triple_two msg out a b =
    let e₁ : bit_and 0x3F (bit_or (msg 0 * 16) (msg 1 / 16)) ≡ second_sextet (msg 0) (msg 1) =
      rw (bit_or_sixteen (msg 0) (msg 1 / 16) a (omega arith))
        (omega (arith, bit_and_low_six (msg 0 * 16 + msg 1 / 16) (omega arith))) in
    let e₂ : bit_and 0x3F (msg 1 * 4) ≡ msg 1 % 16 * 4 =
      omega (arith, bit_and_low_six (msg 1 * 4) (omega arith)) in
    (refl, ap encode_6bit e₁, ap encode_6bit e₂, refl)

pub encode_triple_one :
    (msg out : Buffer)
    → msg 0 < 256
    → let text = encode_triple msg 2 out in
      (text 0 ≡ encode_6bit (msg 0 / 4)) × (text 1 ≡ encode_6bit (msg 0 % 4 * 16)) × (text 2 ≡ b'=')
unfolding encode_triple
encode_triple_one msg out a =
    let e₁ : bit_and 0x3F (msg 0 * 16) ≡ msg 0 % 4 * 16 =
      omega (arith, bit_and_low_six (msg 0 * 16) (omega arith)) in
    (refl, ap encode_6bit e₁, refl)

pad_sym : decode_sym b'=' ≡ 0xFE
unfolding decode_sym
pad_sym = refl

-- `b` holds the symbols of the first sextets of `s`.
module _ (b out : Buffer) (s₀ s₁ s₂ s₃ : ℕ) (h₀ : s₀ < 64) (h₁ : s₁ < 64) (h₂ : s₂ < 64)
    (h₃ : s₃ < 64) (e₀ : b 0 ≡ encode_6bit s₀) (e₁ : b 1 ≡ encode_6bit s₁) where
  first_byte : bit_or (s₀ * 4 % 256) (s₁ / 16) ≡ s₀ * 4 + s₁ / 16
  first_byte =
      let e : s₀ * 4 % 256 ≡ s₀ * 4 = omega arith in
      rw e (bit_or_four s₀ (s₁ / 16) (omega arith) (omega arith))

  second_byte : bit_or (s₁ * 16 % 256) (s₂ / 4) ≡ s₁ % 16 * 16 + s₂ / 4
  second_byte =
      let e : s₁ * 16 % 256 ≡ s₁ % 16 * 16 = omega arith in
      rw e (bit_or_sixteen (s₁ % 16) (s₂ / 4) (omega arith) (omega arith))

  third_byte : bit_or (s₂ * 64 % 256) s₃ ≡ s₂ % 4 * 64 + s₃
  third_byte =
      let e : s₂ * 64 % 256 ≡ s₂ % 4 * 64 = omega arith in
      rw e (bit_or_sixty_four (s₂ % 4) s₃ (omega arith) h₃)

  pub decode_quadruple-full :
      b 2 ≡ encode_6bit s₂
      → b 3 ≡ encode_6bit s₃
      → let r = decode_quadruple b out in
        (r.0 ≡ pos 3)
        × (r.1 0 ≡ s₀ * 4 + s₁ / 16)
        × (r.1 1 ≡ s₁ % 16 * 16 + s₂ / 4)
        × (r.1 2 ≡ s₂ % 4 * 64 + s₃)
  unfolding decode_quadruple decode_first decode_second decode_third decode_last
  decode_quadruple-full e₂ e₃ = ground (
    arith,
    decode_sym-encode_6bit s₀,
    decode_sym-encode_6bit s₁,
    decode_sym-encode_6bit s₂,
    decode_sym-encode_6bit s₃,
    fails_small s₀,
    fails_small s₁,
    fails_small s₂,
    fails_small s₃,
    first_byte,
    second_byte,
    third_byte,
  )

  pub decode_quadruple_two :
      b 2 ≡ encode_6bit s₂
      → b 3 ≡ b'='
      → let r = decode_quadruple b out in
        (r.0 ≡ pos 2) × (r.1 0 ≡ s₀ * 4 + s₁ / 16) × (r.1 1 ≡ s₁ % 16 * 16 + s₂ / 4)
  unfolding decode_quadruple decode_first decode_second decode_third decode_last
  decode_quadruple_two e₂ e₃ = ground (
    arith,
    decode_sym-encode_6bit s₀,
    decode_sym-encode_6bit s₁,
    decode_sym-encode_6bit s₂,
    fails_small s₀,
    fails_small s₁,
    fails_small s₂,
    first_byte,
    second_byte,
    pad_sym,
  )

  pub decode_quadruple_one :
      b 2 ≡ b'=' → let r = decode_quadruple b out in (r.0 ≡ pos 1) × (r.1 0 ≡ s₀ * 4 + s₁ / 16)
  unfolding decode_quadruple decode_first decode_second decode_third decode_last
  decode_quadruple_one e₂ = ground (
    arith,
    decode_sym-encode_6bit s₀,
    decode_sym-encode_6bit s₁,
    fails_small s₀,
    fails_small s₁,
    first_byte,
    pad_sym,
  )

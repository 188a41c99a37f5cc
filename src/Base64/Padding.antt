-- ===== src/Base64/Padding.antt =====
-- What the decoder makes of the group that the encoder wrote for the bytes that are left.
use uptiny.Base.{
  ℕ, zero, suc, ◌*◌, ◌/◌, ◌%◌, ◌<◌, ◌≡◌, ◌∙◌, leb, if◌then◌else◌, ℤ, pos, Buffer, arith,
}
use uptiny.Base64.{encode_triple, padding_of, decode_quadruple}
use uptiny.Base64.Group.{second_sextet, third_sextet, encode_triple-full, encode_triple_two}
use uptiny.Base64.Group.{encode_triple_one, decode_quadruple-full, decode_quadruple_two}
use uptiny.Base64.Group.{decode_quadruple_one}

-- What `decode_quadruple` makes of a group, for the bytes that are left.
pub record IsGroup (msg : Buffer) (left : ℕ) (r : ℤ × Buffer) : Type 0 where
  pub count : r.0 ≡ pos (if leb 3 left then 3 else left)
  pub bytes : (j : ℕ) → j < 3 → j < left → r.1 j ≡ msg j

first_two : (m msg : Buffer) → m 0 ≡ msg 0 → m 1 ≡ msg 1 → (j : ℕ) → j < 2 → m j ≡ msg j
first_two m msg e₀ e₁ zero h = e₀
first_two m msg e₀ e₁ (suc zero) h = e₁
first_two m msg e₀ e₁ (suc (suc j)) h = absurd (omega arith)

first_three :
    (m msg : Buffer) → m 0 ≡ msg 0 → m 1 ≡ msg 1 → m 2 ≡ msg 2 → (j : ℕ) → j < 3 → m j ≡ msg j
first_three m msg e₀ e₁ e₂ zero h = e₀
first_three m msg e₀ e₁ e₂ (suc zero) h = e₁
first_three m msg e₀ e₁ e₂ (suc (suc zero)) h = e₂
first_three m msg e₀ e₁ e₂ (suc (suc (suc j))) h = absurd (omega arith)

pub encode_triple-IsGroup :
    (msg out b buf : Buffer) (left : ℕ)
    → 0 < left
    → ((j : ℕ) → j < left → msg j < 256)
    → ((r : ℕ) → r < 4 → b r ≡ encode_triple msg (padding_of left) out r)
    → IsGroup msg left (decode_quadruple b buf)
unfolding padding_of
encode_triple-IsGroup msg out b buf zero h byte e = absurd (omega arith)
encode_triple-IsGroup msg out b buf (suc zero) h byte e =
    let byte₀ = byte 0 (omega arith) in
    let t = encode_triple_one msg out byte₀ in
    let d =
      decode_quadruple_one b buf (msg 0 / 4) (msg 0 % 4 * 16) 0 0 (omega arith) (omega arith)
        (omega arith) (omega arith) (e 0 (omega arith) ∙ t.0) (e 1 (omega arith) ∙ t.1)
        (e 2 (omega arith) ∙ t.2) in
    record {
      count = d.0;
      bytes = λ j _ lt. let z : j ≡ 0 = omega arith in rw z (omega (arith, d.1));
    }
encode_triple-IsGroup msg out b buf (suc (suc zero)) h byte e =
    let byte₀ = byte 0 (omega arith) in
    let byte₁ = byte 1 (omega arith) in
    let t = encode_triple_two msg out byte₀ byte₁ in
    let d =
      decode_quadruple_two b buf (msg 0 / 4) (second_sextet (msg 0) (msg 1)) (msg 1 % 16 * 4) 0
        (omega arith) (omega arith) (omega arith) (omega arith) (e 0 (omega arith) ∙ t.0)
        (e 1 (omega arith) ∙ t.1) (e 2 (omega arith) ∙ t.2) (e 3 (omega arith) ∙ t.3) in
    record {
      count = d.0;
      bytes = λ j _ lt.
          first_two (decode_quadruple b buf).1 msg (omega (arith, d.1)) (omega (arith, d.2)) j
            (omega arith);
    }
encode_triple-IsGroup msg out b buf (suc (suc (suc n))) h byte e =
    let byte₀ = byte 0 (omega arith) in
    let byte₁ = byte 1 (omega arith) in
    let byte₂ = byte 2 (omega arith) in
    let no_pad : padding_of (suc (suc (suc n))) ≡ 0 = ground arith in
    let t = encode_triple-full msg out byte₀ byte₁ byte₂ in
    let d =
      decode_quadruple-full b buf (msg 0 / 4) (second_sextet (msg 0) (msg 1))
        (third_sextet (msg 1) (msg 2)) (msg 2 % 64) (omega arith) (omega arith) (omega arith)
        (omega arith) (rw no_pad at (e 0 (omega arith)) ∙ t.0)
        (rw no_pad at (e 1 (omega arith)) ∙ t.1) (rw no_pad at (e 2 (omega arith)) ∙ t.2)
        (rw no_pad at (e 3 (omega arith)) ∙ t.3) in
    record {
      count = d.0 ∙ ground arith;
      bytes = λ j three lt.
          first_three (decode_quadruple b buf).1 msg (omega (arith, d.1)) (omega (arith, d.2))
            (omega (arith, d.3)) j three;
    }

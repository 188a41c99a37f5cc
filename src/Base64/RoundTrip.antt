-- ===== src/Base64/RoundTrip.antt =====
-- `base64_decode` reads back what `base64_encode` wrote.
use uptiny.Base.{
  ℕ, zero, suc, ◌+◌, ◌-◌, ◌*◌, ◌/◌, ◌<◌, ◌≡◌, refl, ◌∙◌, ap, true, false, ◌&&◌, leb, ltb,
  if◌then◌else◌, ℤ, pos, Buffer, advance, arith, Bool-cases, inl, inr,
}
use uptiny.Base64.{encode_triple, padding_of, place_four, base64_encode_from}
use uptiny.Base64.{base64_encode, decode_quadruple, decode_at, base64_decode_from, base64_decode}
use uptiny.Base64.Padding.{encode_triple-IsGroup}

encode_from-below :
    (n : ℕ) (msg : Buffer) (left j : ℕ) (out : Buffer) (k : ℕ)
    → k < j
    → base64_encode_from n msg left j out k ≡ out k
unfolding base64_encode_from place_four
encode_from-below zero msg left j out k h = ground arith
encode_from-below (suc n) msg left j out k h =
    encode_from-below n (advance msg 3) (left - 3) (j + 4) _ k (omega arith) ∙ ground arith

-- The first group of the text.
encode_from-group :
    (n : ℕ) (msg : Buffer) (left j : ℕ) (out : Buffer) (r : ℕ)
    → r < 4
    → base64_encode_from (suc n) msg left j out (j + r)
      ≡ encode_triple msg (padding_of left) (advance out j) r
unfolding base64_encode_from place_four
encode_from-group n msg left j out r h =
    let e : j + r - j ≡ r = omega arith in
    encode_from-below n (advance msg 3) (left - 3) (j + 4) _ (j + r) (omega arith)
    ∙ (let inside : (leb j (j + r) && ltb (j + r) (j + 4)) ≡ true = ground arith in rw (inside, e))

encode_step :
    (n : ℕ) (msg : Buffer) (left j : ℕ) (out : Buffer) (k : ℕ)
    → base64_encode_from (suc n) msg left j out k
      ≡ base64_encode_from n
          (advance msg 3)
          (left - 3)
          (j + 4)
          (place_four j (encode_triple msg (padding_of left) (advance out j)) out)
          k
unfolding base64_encode_from
encode_step n msg left j out k = refl

encode_from-end :
    (n : ℕ) (msg : Buffer) (left j : ℕ) (out : Buffer)
    → base64_encode_from n msg left j out (j + 4 * n) ≡ 0
unfolding base64_encode_from
encode_from-end zero msg left j out = ground arith
encode_from-end (suc n) msg left j out =
    let e : j + 4 * suc n ≡ j + 4 + 4 * n = omega arith in
    rw e (encode_from-end n (advance msg 3) (left - 3) (j + 4) _)

-- One round of `base64_decode`.
decode_round :
    (n : ℕ) (b : Buffer) (size : ℕ) (buf : Buffer) (m : ℕ)
    → (decode_quadruple b (advance buf size)).0 ≡ pos m
    → base64_decode_from (suc n) b size buf ≡ (
        if ltb m 3
        then (pos (size + m), (decode_at b size buf).1)
        else base64_decode_from n (advance b 4) (size + 3) (decode_at b size buf).1)
unfolding base64_decode_from decode_at
decode_round n b size buf m e = elim (Bool-cases (ltb m 3)) [
  | inl last ↦ rw (e, last, base64_decode_from)
  | inr more ↦ rw (e, more, base64_decode_from)
]

decode_at-cells :
    (b : Buffer) (size : ℕ) (buf : Buffer) (k : ℕ)
    → (decode_at b size buf).1 k
      ≡ (if ltb k size then buf k else (decode_quadruple b (advance buf size)).1 (k - size))
unfolding decode_at
decode_at-cells b size buf k = refl

-- What is decoded: the size, the bytes before it kept, and the bytes of the message.
record IsRead (msg : Buffer) (left size : ℕ) (buf : Buffer) (r : ℤ × Buffer) : Type 0 where
  count : r.0 ≡ pos (size + left)
  kept : (k : ℕ) → k < size → r.1 k ≡ buf k
  bytes : (k : ℕ) → k < left → r.1 (size + k) ≡ msg k

decode-encode_from :
    (n : ℕ) (msg : Buffer) (left j : ℕ) (out b : Buffer) (size : ℕ) (buf : Buffer)
    → n ≡ (left + 2) / 3
    → ((k : ℕ) → k < left → msg k < 256)
    → ((k : ℕ) → b k ≡ base64_encode_from n msg left j out (j + k))
    → IsRead msg left size buf (base64_decode_from n b size buf)
decode-encode_from zero msg left j out b size buf en byte text =
    unfold base64_decode_from in
    record {
      count = ap pos (omega arith);
      kept = λ k lt. refl;
      bytes = λ k lt. absurd (omega arith);
    }
decode-encode_from (suc n) msg left j out b size buf en byte text =
    let group =
      encode_triple-IsGroup msg (advance out j) b (advance buf size) left (omega arith) byte
        (λ r lt. text r ∙ encode_from-group n msg left j out r lt) in
    elim (Bool-cases (leb 3 left)) [
      | inr last ↦
          let e : (decode_quadruple b (advance buf size)).0 ≡ pos left = rw last at group.count in
          let few : ltb left 3 ≡ true = ground arith in
          rw (decode_round n b size buf left e, few)
            (record {
              count = refl;
              kept = λ k lt. decode_at-cells b size buf k ∙ ground arith;
              bytes = λ k lt.
                  let back : size + k - size ≡ k = omega arith in
                  decode_at-cells b size buf (size + k)
                  ∙ (let outside : ltb (size + k) size ≡ false = ground arith in
                      rw (outside, back) (group.bytes k (ground arith) lt));
            })
      | inl more ↦
          let e : (decode_quadruple b (advance buf size)).0 ≡ pos 3 = rw more at group.count in
          let buf' = (decode_at b size buf).1 in
          let rest =
            decode-encode_from n (advance msg 3) (left - 3) (j + 4)
              (place_four j (encode_triple msg (padding_of left) (advance out j)) out) (advance b 4)
              (size + 3) buf' (ground arith) (λ k lt. byte (3 + k) (omega arith))
              (λ k.
                let e' : j + (4 + k) ≡ j + 4 + k = omega arith in
                text (4 + k) ∙ rw e' (encode_step n msg left j out (j + 4 + k))) in
          rw (decode_round n b size buf 3 e) (record {
            count = rest.count ∙ ap pos (ground arith);
            kept = λ k lt. rest.kept k (omega arith) ∙ decode_at-cells b size buf k ∙ ground arith;
            bytes = λ k lt. elim (Bool-cases (ltb k 3)) [
              | inl front ↦
                  let back : size + k - size ≡ k = omega arith in
                  let outside : ltb (size + k) size ≡ false = ground arith in
                  rest.kept (size + k) (ground arith)
                  ∙ decode_at-cells b size buf (size + k)
                  ∙ rw (outside, back) (group.bytes k (ground arith) lt)
              | inr behind ↦
                  let e₁ : size + 3 + (k - 3) ≡ size + k = ground arith in
                  let e₂ : 3 + (k - 3) ≡ k = ground arith in
                  rw (e₁, e₂) at (rest.bytes (k - 3) (ground arith))
            ];
          })
    ]

-- `base64_encode` of n bytes writes a text of 4 characters for every 3 bytes begun, with a 0 behind
-- it, and `base64_decode` of that text returns n and stores the n bytes.
pub base64_decode-base64_encode :
    (n : ℕ) (msg out buf : Buffer)
    → ((j : ℕ) → j < n → msg j < 256)
    → let text = base64_encode msg n out in
      let len = 4 * ((n + 2) / 3) in
      let (res, read) = base64_decode text len buf in
      (text len ≡ 0) × (res ≡ pos n) × ((j : ℕ) → j < n → read j ≡ msg j)
unfolding base64_encode base64_decode
base64_decode-base64_encode n msg out buf byte =
    let rounds : (4 * ((n + 2) / 3) + 3) / 4 ≡ (n + 2) / 3 = omega arith in
    let text = base64_encode_from ((n + 2) / 3) msg n 0 out in
    let read =
      decode-encode_from ((n + 2) / 3) msg n 0 out text 0 buf refl byte
        (λ k. let z : 0 + k ≡ k = omega arith in rw z) in
    let len : 0 + 4 * ((n + 2) / 3) ≡ 4 * ((n + 2) / 3) = omega arith in
    rw rounds (
      rw len at (encode_from-end ((n + 2) / 3) msg n 0 out),
      read.count ∙ ap pos (omega arith),
      λ j lt. let z : 0 + j ≡ j = omega arith in rw z at (read.bytes j lt),
    )

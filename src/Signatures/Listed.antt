-- ===== src/Signatures/Listed.antt =====
-- What `uptane_parse_signatures` reports.
use uptiny.Base.{
  ℕ, zero, suc, ◌+◌, ◌≤◌, ◌≡◌, refl, true, false, leb, ◌==◌, ℤ-cases, pos, pos_part, Memory, write,
  arith, Bool-cases, inl, inr,
}
use uptiny.Crypto.{Key, KeySignature}
use uptiny.Json.{Input, is_array}
use uptiny.Signatures.{MetaKeys, parse_sig, read_signatures, meta_keys_of, uptane_parse_signatures}
use uptiny.Signatures.Forward.{parse_sig_forward}
use uptiny.Signatures.Field.{IsGood, parse_sig-IsGood}
use uptiny.State.{Role, UptaneRoot}

-- The first `n` slots come from `n` objects, one behind the other from `start` on and all before
-- `last`: slot 0 from the first of them, and so on.
abbrev pub AllGood : Input → MetaKeys → Memory KeySignature → ℕ → ℕ → ℕ → Type 0
AllGood input meta output start zero last = start ≤ last
AllGood input meta output start (suc n) last =
    (at : ℕ) × (next : ℕ) × AllGood input meta output start n at
    × IsGood input meta at next (output n)
    × (next ≤ last)

module _ (input : Input) (meta : MetaKeys) where
  AllGood-later :
      (output : Memory KeySignature) (start n last last' : ℕ)
      → AllGood input meta output start n last
      → last ≤ last'
      → AllGood input meta output start n last'
  AllGood-later output start zero last last' le le' = omega arith
  AllGood-later output start (suc n) last last' (at, next, all, good, le) le' =
      (at, next, all, good, omega arith)

  AllGood-write :
      (output : Memory KeySignature) (start n m last : ℕ) (s : KeySignature)
      → n ≤ m
      → AllGood input meta output start n last
      → AllGood input meta (write output m s) start n last
  AllGood-write output start zero m last s le all = all
  AllGood-write output start (suc n) m last s le (at, next, all, good, le') =
      let other : (n == m) ≡ false = ground arith in
      (at, next, AllGood-write output start n m at s (omega arith) all, rw other good, le')

  AllGood-next :
      (output : Memory KeySignature) (start n at next : ℕ) (s : KeySignature)
      → AllGood input meta output start n at
      → IsGood input meta at next s
      → AllGood input meta (write output n s) start (n + 1) next
  AllGood-next output start n at next s all good =
      let same : (n == n) ≡ true = ground arith in
      let more : n + 1 ≡ suc n = omega arith in
      rw more
        (at, next, AllGood-write output start n n at s (omega arith) all, rw same good, omega arith)

read_signatures-AllGood :
    (n start : ℕ) (input : Input) (meta : MetaKeys) (max_sigs idx sigs_read : ℕ)
    (output : Memory KeySignature) (k : ℕ)
    → sigs_read ≤ max_sigs
    → AllGood input meta output (start + 1) sigs_read idx
    → let (res, last, sigs) = read_signatures n start input meta max_sigs idx sigs_read output in
      res ≡ pos k
      → (k ≤ max_sigs) × (k ≤ sigs_read + n) × AllGood input meta sigs (start + 1) k last
unfolding read_signatures
read_signatures-AllGood zero start input meta max_sigs idx sigs_read output k le all h =
    let e : sigs_read ≡ k = ground arith in (omega arith, omega arith, rw e at all)
read_signatures-AllGood (suc n) start input meta max_sigs idx sigs_read output k le all h =
    elim (Bool-cases (leb max_sigs sigs_read)) [
      | inl full ↦
          let e : sigs_read ≡ k = ground arith in
          (omega arith, omega arith, rw (full, read_signatures) (rw e at all))
      | inr room ↦ elim (ℤ-cases (parse_sig input meta idx (output sigs_read)).0) [
        | inl (m, failed) ↦ cc (rw (room, failed, read_signatures) at h)
        | inr (inl skipped) ↦
            let (_, idx', sig) = parse_sig input meta idx (output sigs_read) in
            let rest =
              read_signatures-AllGood n start input meta max_sigs idx' sigs_read
                (write output sigs_read sig) k le
                (AllGood-later input meta _ (start + 1) sigs_read idx idx'
                  (AllGood-write input meta output (start + 1) sigs_read sigs_read idx sig
                    (omega arith) all)
                  (parse_sig_forward input meta idx (output sigs_read)))
                (rw (room, skipped, read_signatures) at h) in
            rw (room, skipped, read_signatures) (rest.0, omega (arith, rest.1), rest.2)
        | inr (inr (m, taken)) ↦
            let (_, idx', sig) = parse_sig input meta idx (output sigs_read) in
            let good = parse_sig-IsGood input meta idx (output sigs_read) m taken in
            let rest =
              read_signatures-AllGood n start input meta max_sigs idx' (sigs_read + 1)
                (write output sigs_read sig) k (ground arith)
                (AllGood-next input meta output (start + 1) sigs_read idx idx' sig all good)
                (rw (room, taken, read_signatures) at h) in
            rw (room, taken, read_signatures) (rest.0, omega (arith, rest.1), rest.2)
      ]
    ]

-- Where `uptane_parse_signatures` returns a count, its token is an array, and the count is at most
-- `max_sigs` and at most the size of the array. That many slots are filled from as many different
-- objects, one behind the other between the array's token and the index that is left in `*pos`; each
-- slot holds a key of the role and 64 bytes decoded from a string token of its object behind a name
-- "sig".
pub uptane_parse_signatures-AllGood :
    (role : Role) (heap : Memory Key) (input : Input) (start : ℕ) (output : Memory KeySignature)
    (max_sigs : ℕ) (in_root : UptaneRoot) (k : ℕ)
    → let (res, last, sigs) =
        uptane_parse_signatures role heap input start output max_sigs in_root in
      res ≡ pos k
      → (is_array (input.pool start).type ≡ true)
        × (k ≤ max_sigs)
        × (k ≤ pos_part (input.pool start).size)
        × AllGood input (meta_keys_of role heap in_root) sigs (start + 1) k last
unfolding uptane_parse_signatures
uptane_parse_signatures-AllGood role heap input start output max_sigs in_root k h =
    elim (Bool-cases (is_array (input.pool start).type)) [
      | inr other ↦ cc (rw (other, uptane_parse_signatures) at h)
      | inl array ↦
          let meta = meta_keys_of role heap in_root in
          let size = pos_part (input.pool start).size in
          let read =
            read_signatures-AllGood size start input meta max_sigs (start + 1) 0 output k
              (omega arith) (omega arith) (rw (array, uptane_parse_signatures) at h) in
          rw (array, uptane_parse_signatures) (refl, read.0, omega (arith, read.1), read.2)
    ]

-- ===== src/Firmware/Search.antt =====
-- The hash that the check expects, and the comparison of two hashes.
use uptiny.Base.{
  ℕ, zero, suc, ◌+◌, ◌<◌, ◌≡◌, ◌↔◌, refl, ◌⊎◌, true, ◌==◌, Option, none, some, Memory, Buffer,
  arith, Bool-cases, inl, inr,
}
use uptiny.Crypto.{Hash, HashAlgorithm}
use uptiny.State.{UptaneTargets}
use uptiny.Firmware.{same_alg, memcmp_equal, find_expected}

pub memcmp_equal_iff :
    (n : ℕ) (a b : Buffer) → (memcmp_equal n a b ≡ true) ↔ ((j : ℕ) → j < n → a j ≡ b j)
unfolding memcmp_equal
memcmp_equal_iff zero a b = (λ h j lt. absurd (omega arith), λ h. refl)
memcmp_equal_iff (suc n) a b =
    let before = memcmp_equal_iff n a b in
    (
      λ h j lt. elim (Bool-cases (j == n)) [
        | inl last ↦ let e : j ≡ n = ground arith in rw e (ground arith)
        | inr other ↦ before.0 (ground arith) j (ground arith)
      ],
      λ h.
          let rest = before.1 (λ j lt. h j (omega arith)) in
          let last = h n (omega arith) in ground arith,
    )

find_expected-some :
    (n i : ℕ) (alg : HashAlgorithm) (hashes : Memory Hash) (found : Option ℕ) (k : ℕ)
    → find_expected n i alg hashes found ≡ some k
    → (found ≡ some k) ⊎ ((k < i + n) × (same_alg (hashes k).alg alg ≡ true))
unfolding find_expected
find_expected-some zero i alg hashes found k h = inl h
find_expected-some (suc n) i alg hashes found k h =
    elim (Bool-cases (same_alg (hashes i).alg alg)) [
      | inl fits ↦ elim (find_expected-some n (i + 1) alg hashes (some i) k (rw fits at h)) [
        | inl here ↦ let e : i ≡ k = ground arith in inr (omega arith, rw e at fits)
        | inr later ↦ inr (omega (arith, later.0), later.1)
      ]
      | inr other ↦ elim (find_expected-some n (i + 1) alg hashes found k (rw other at h)) [
        | inl before ↦ inl before
        | inr later ↦ inr (omega (arith, later.0), later.1)
      ]
    ]

pub listed_hash :
    (targets : UptaneTargets) (alg : HashAlgorithm) (i : ℕ)
    → find_expected targets.hashes_num 0 alg targets.hashes none ≡ some i
    → (i < targets.hashes_num) × (same_alg (targets.hashes i).alg alg ≡ true)
listed_hash targets alg i h =
    elim (find_expected-some targets.hashes_num 0 alg targets.hashes none i h) [
      | inl never ↦ cc never
      | inr (lt, fits) ↦ (omega (arith, lt), fits)
    ]

-- ===== src/Demo/Pool.antt =====
-- libuptiny-demo/common_data.c: the pool of keys, which implements the allocator of the library.
use uptiny.Base.{
  ℕ, zero, suc, ◌+◌, ◌-◌, ◌≤◌, ◌≡◌, refl, ◌∙◌, sym, ap, Bool, true, false, ◌&&◌, ltb, ◌==◌,
  if◌then◌else◌, Option, none, some, arith, Bool-cases, inl, inr,
}
use uptiny.RootSigned.Table.{KeyAllocator}

-- KEY_POOL_SIZE
abbrev pub key_pool_size : ℕ
key_pool_size = 16

-- `key_pool_mark` as the bits that are set, and `&key_pool[i]` as the address `i + 1`, so that no key
-- of the pool is at NULL.
abbrev pub KeyPool : Type 0
KeyPool = ℕ → Bool

-- The loop: the rounds left and `i`.
pub alloc_from : ℕ → ℕ → KeyPool → Option (ℕ × KeyPool)
alloc_from zero i mark = none
alloc_from (suc n) i mark =
    let rest = alloc_from n (i + 1) mark in
    if mark i then rest else some (i + 1, λ j. if j == i then true else mark j)

pub alloc_crypto_key : KeyPool → Option (ℕ × KeyPool)
alloc_crypto_key mark = alloc_from key_pool_size 0 mark

-- The index of an address outside of the pool is too large.
pub free_crypto_key : ℕ → KeyPool → KeyPool
free_crypto_key key mark j =
    if ltb 0 key && ltb (key - 1) key_pool_size && j == key - 1 then false else mark j

pub free_all_crypto_keys : KeyPool → KeyPool
free_all_crypto_keys mark j = false

-- The pool as the library sees it.
abbrev pub key_pool : KeyAllocator
key_pool = record {
  Pool = KeyPool;
  alloc_crypto_key = alloc_crypto_key;
  free_crypto_key = free_crypto_key;
}

-- What an allocated key is: one of the pool that was free, and alone is marked.
pub record IsAllocated (mark : KeyPool) (key : ℕ) (mark' : KeyPool) : Type 0 where
  pub low : 1 ≤ key
  pub high : key ≤ 16
  pub was_free : mark (key - 1) ≡ false
  pub marked : (j : ℕ) → mark' j ≡ (if j == key - 1 then true else mark j)

key_of : Option (ℕ × KeyPool) → ℕ
key_of none = 0
key_of (some r) = r.0

mark_of : KeyPool → ℕ → Option (ℕ × KeyPool) → Bool
mark_of mark j none = mark j
mark_of mark j (some r) = r.1 j

alloc_from-IsAllocated :
    (n i : ℕ) (mark : KeyPool) (key : ℕ) (mark' : KeyPool)
    → i + n ≡ 16
    → alloc_from n i mark ≡ some (key, mark')
    → IsAllocated mark key mark'
unfolding alloc_from key_of mark_of
alloc_from-IsAllocated zero i mark key mark' e h = absurd (cc h)
alloc_from-IsAllocated (suc n) i mark key mark' e h = elim (Bool-cases (mark i)) [
  | inl used ↦
      alloc_from-IsAllocated n (i + 1) mark key mark' (omega arith) (rw (alloc_from, used) at h)
  | inr free ↦
      let h' = rw (alloc_from, free) at h in
      let first : i + 1 ≡ key = ap key_of h' in
      let at : i ≡ key - 1 = omega (arith, first) in
      record {
        low = omega (arith, first);
        high = omega (arith, first);
        was_free = rw at at free;
        marked = λ j. sym (ap (mark_of mark j) h') ∙ rw at refl;
      }
]

-- An allocated key is one of the pool that was not in use, and no other key is taken with it.
pub alloc_crypto_key-IsAllocated :
    (mark : KeyPool) (key : ℕ) (mark' : KeyPool)
    → alloc_crypto_key mark ≡ some (key, mark')
    → IsAllocated mark key mark'
unfolding alloc_crypto_key
alloc_crypto_key-IsAllocated mark key mark' h = alloc_from-IsAllocated 16 0 mark key mark' refl h

-- Freeing a key that was just allocated gives the pool as it was.
pub free_crypto_key-alloc_crypto_key :
    (mark : KeyPool) (key : ℕ) (mark' : KeyPool)
    → alloc_crypto_key mark ≡ some (key, mark')
    → (j : ℕ) → free_crypto_key key mark' j ≡ mark j
unfolding free_crypto_key
free_crypto_key-alloc_crypto_key mark key mark' h j =
    let v = alloc_crypto_key-IsAllocated mark key mark' h in
    let pooled : ltb 0 key && ltb (key - 1) key_pool_size ≡ true = ground (arith, v.low, v.high) in
    elim (Bool-cases (j == key - 1)) [
      | inl here ↦ let e : j ≡ key - 1 = ground arith in rw (pooled, here) (rw e (sym v.was_free))
      | inr other ↦ rw (pooled, other) (rw other at (v.marked j))
    ]

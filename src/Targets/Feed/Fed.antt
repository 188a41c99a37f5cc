-- ===== src/Targets/Feed/Fed.antt =====
-- What the verification contexts have been fed, and the signatures that are valid then.
use uptiny.Base.{
  ℕ, zero, suc, ◌+◌, ◌≤◌, ◌<◌, ◌≡◌, refl, ◌∙◌, ap, ◌==◌, List, ◌∷◌, ◌++◌, ℤ, Memory, Text,
  write_self, arith, Bool-cases, inl, inr,
}
use uptiny.Crypto.{KeySignature, fed, joined}
use uptiny.Root.Count.{valid_from}
use uptiny.Targets.{Platform, Device, TargetsState}
use uptiny.Targets.Feed.{init_contexts, feed_contexts, valid_contexts}

module _ (platform : Platform) (device : Device) where
  -- The context was initialised with the signature and its key, and then fed pieces of `bytes`.
  pub record IsFed (c : platform.crypto.Context) (s : KeySignature) (bytes : List ℕ) : Type 0 where
    pub before : platform.crypto.Context
    pub pieces : List (List ℕ)
    pub made :
        c
        ≡ fed platform.crypto.verify_feed
            (platform.crypto.verify_init before (device.heap s.key) s.sig)
            pieces
    pub all : joined pieces ≡ bytes

  -- The first `n` contexts were fed `bytes`, each for its signature.
  abbrev pub AllFed : Memory (platform.crypto.Context) → Memory KeySignature → ℕ → List ℕ → Type 0
  AllFed contexts sigs n bytes = (i : ℕ) → i < n → IsFed (contexts i) (sigs i) bytes

  pub IsFed-next :
      (c : platform.crypto.Context) (s : KeySignature) (bytes piece : List ℕ)
      → IsFed c s bytes
      → IsFed (platform.crypto.verify_feed c piece) s (bytes ++ piece)
  IsFed-next c s bytes piece v = record {
    before = v.before;
    pieces = piece ∷ v.pieces;
    made = ap (λ x. platform.crypto.verify_feed x piece) v.made;
    all = ap (λ xs. xs ++ piece) v.all;
  }

  pub IsFed-valid :
      (c : platform.crypto.Context) (s : KeySignature) (bytes piece : List ℕ)
      → IsFed c s bytes
      → platform.crypto.verify_result (platform.crypto.verify_feed c piece)
        ≡ platform.crypto.valid (device.heap s.key) s.sig (bytes ++ piece)
  IsFed-valid c s bytes piece v =
      ap (λ x. platform.crypto.verify_result (platform.crypto.verify_feed x piece)) v.made
      ∙ platform.crypto.verify_lem v.before (device.heap s.key) s.sig v.pieces piece
      ∙ ap (λ xs. platform.crypto.valid (device.heap s.key) s.sig (xs ++ piece)) v.all

  module _ (message : Text) (len : ℤ) where
    init-below :
        (n i j : ℕ) (st : TargetsState platform)
        → j < i
        → (init_contexts platform device message len n i st).contexts j ≡ st.contexts j
    unfolding init_contexts
    init-below zero i j st h = refl
    init-below (suc n) i j st h = init-below n (i + 1) j _ (omega arith) ∙ ground arith

    pub init-at :
        (n i j : ℕ) (st : TargetsState platform)
        → i ≤ j
        → j < i + n
        → (init_contexts platform device message len n i st).contexts j
          ≡ platform.crypto.verify_init
              (st.contexts j)
              (device.heap (st.sigs j).key)
              (st.sigs j).sig
    unfolding init_contexts
    init-at zero i j st lo hi = absurd (omega arith)
    init-at (suc n) i j st lo hi = elim (Bool-cases (j == i)) [
      | inl same ↦
          let e : j ≡ i = ground arith in
          rw e (init-below n (i + 1) i _ (omega arith) ∙ write_self st.contexts i _)
      | inr other ↦ init-at n (i + 1) j _ (ground arith) (omega arith) ∙ rw other refl
    ]

    feed-below :
        (n i j : ℕ) (bytes : List ℕ) (st : TargetsState platform)
        → j < i
        → (feed_contexts platform device message len n i bytes st).contexts j ≡ st.contexts j
    unfolding feed_contexts
    feed-below zero i j bytes st h = refl
    feed-below (suc n) i j bytes st h = feed-below n (i + 1) j bytes _ (omega arith) ∙ ground arith

    pub feed-at :
        (n i j : ℕ) (bytes : List ℕ) (st : TargetsState platform)
        → i ≤ j
        → j < i + n
        → (feed_contexts platform device message len n i bytes st).contexts j
          ≡ platform.crypto.verify_feed (st.contexts j) bytes
    unfolding feed_contexts
    feed-at zero i j bytes st lo hi = absurd (omega arith)
    feed-at (suc n) i j bytes st lo hi = elim (Bool-cases (j == i)) [
      | inl same ↦
          let e : j ≡ i = ground arith in
          rw e (feed-below n (i + 1) i bytes _ (omega arith) ∙ write_self st.contexts i _)
      | inr other ↦ feed-at n (i + 1) j bytes _ (ground arith) (omega arith) ∙ rw other refl
    ]

    -- The count of the contexts that report a valid signature is that of the valid signatures.
    pub valid_contexts-valid_from :
        (n i : ℕ) (st : TargetsState platform) (sigs : Memory KeySignature) (bytes : List ℕ)
        → ((j : ℕ)
            → i ≤ j
            → j < i + n
            → platform.crypto.verify_result (st.contexts j)
              ≡ platform.crypto.valid (device.heap (sigs j).key) (sigs j).sig bytes)
        → valid_contexts platform device message len n i st
          ≡ valid_from platform.crypto n i device.heap sigs bytes
    unfolding valid_contexts valid_from
    valid_contexts-valid_from zero i st sigs bytes h = refl
    valid_contexts-valid_from (suc n) i st sigs bytes h =
        let rest =
          valid_contexts-valid_from n (i + 1) st sigs bytes
            (λ j lo hi. h j (omega arith) (omega arith)) in
        rw (h i (omega arith) (omega arith), rest) refl

-- ===== src/Root/Accept.antt =====
-- What it takes for `uptane_parse_root` to accept new metadata.
use uptiny.Base.{ℕ, suc, ◌+◌, ◌≡◌, Bool, true, ℤ, ◌≤ℤ◌, Memory}
use uptiny.Crypto.{CryptoApi, KeySignature}
use uptiny.Json.{Input, codes, json_str_equal}
use uptiny.Root.{signed_bytes, RootState}
use uptiny.Root.{root_fields}
use uptiny.Root.Count.{IsEndorsed}
use uptiny.RootSigned.{uptane_parse_root_signed}
use uptiny.RootSigned.Table.{KeyAllocator, KeyStore}
use uptiny.Signatures.{uptane_parse_signatures}
use uptiny.State.{Role, UptaneRoot}

module _ (crypto : CryptoApi) (allocator : KeyAllocator) (input : Input) (sigs_size : ℕ)
    (old_root : UptaneRoot) where
  -- What an acceptance of the signed object at `idx` rests on: `root` and `store` are those before
  -- it is parsed, and `out` is the state that is left.
  pub record IsVerified (idx : ℕ) (root : UptaneRoot) (store : KeyStore allocator)
      (out : RootState crypto allocator input) : Type 0 where
    pub by_old :
        IsEndorsed crypto input store.heap old_root old_root.root_threshold (signed_bytes input idx)
    pub parsed : (uptane_parse_root_signed crypto allocator input idx root store).going ≡ true
    pub result : out.root ≡ (uptane_parse_root_signed crypto allocator input idx root store).root
    pub no_downgrade : old_root.version ≤ℤ out.root.version
    pub by_new :
        IsEndorsed crypto input out.store.heap out.root out.root.root_threshold
          (signed_bytes input idx)

  -- An acceptance, and the token of the "signed" name that it belongs to.
  abbrev pub Accepted : UptaneRoot → KeyStore allocator → RootState crypto allocator input → Type 0
  Accepted root store out =
      (idx : ℕ) × (json_str_equal input idx (codes "signed") ≡ true)
      × IsVerified (idx + 1) root store out

  -- The rounds of the top object.
  module _ (n idx : ℕ) (num : ℤ) (tok : ℕ) (st : RootState crypto allocator input) where
    abbrev first_read : ℤ × ℕ × Memory KeySignature
    first_read =
        uptane_parse_signatures Role.root st.store.heap input (idx + 1) st.sigs sigs_size old_root

    abbrev round : Bool × RootState crypto allocator input
    round = root_fields crypto allocator input sigs_size old_root (suc n) idx num tok st

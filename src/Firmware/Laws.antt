-- ===== src/Firmware/Laws.antt =====
-- Which images the check accepts, and what a confirmation changes.
use uptiny.Base.{
  ℕ, ◌<◌, ◌≡◌, ◌↔◌, refl, sym, ◌∙◌, ap, Bool, true, false, Option, none, some, List, [], ◌∷◌, ◌++◌,
  Buffer, Bool-cases, Option-cases, inl, inr,
}
use uptiny.Crypto.{Hash}
use uptiny.State.{Attack, UptaneTargets}
use uptiny.Firmware.{HashApi, FirmwareState, same_alg, memcmp_equal, find_expected, copy_name}
use uptiny.Firmware.{
  is_installed, init_with, uptane_verify_firmware_init, uptane_verify_firmware_feed,
}
use uptiny.Firmware.{
  uptane_firmware_updated, expected, uptane_verify_firmware_finalize, uptane_firmware_confirm,
}
use uptiny.Firmware.Search.{memcmp_equal_iff, listed_hash}

append_nil : (xs : List ℕ) → xs ++ [] ≡ xs
append_nil [] = refl
append_nil (x ∷ xs) = ap (λ rest. x ∷ rest) (append_nil xs)

append_assoc : (xs ys zs : List ℕ) → (xs ++ ys) ++ zs ≡ xs ++ (ys ++ zs)
append_assoc [] ys zs = refl
append_assoc (x ∷ xs) ys zs = ap (λ rest. x ∷ rest) (append_assoc xs ys zs)

decided :
    (b : Bool) (M : Type 0)
    → (b ≡ true) ↔ M
    → ((some b ≡ some true) ↔ M) × ((some b ≡ some false) ↔ ¬ M)
decided true M h = ((λ _. h.0 refl, λ _. refl), (λ e. cc e, λ refuted. absurd (refuted (h.0 refl))))
decided false M h = ((λ e. cc e, λ m. cc (h.1 m)), (λ _ m. cc (h.1 m), λ _. refl))

-- An image that is fed in pieces.
abbrev pub joined : List (List ℕ) → List ℕ
joined [] = []
joined (bytes ∷ pieces) = bytes ++ joined pieces

module _ (api : HashApi) where
  abbrev pub feed_pieces : List (List ℕ) → FirmwareState api → FirmwareState api
  feed_pieces [] st = st
  feed_pieces (bytes ∷ pieces) st = feed_pieces pieces (uptane_verify_firmware_feed api bytes st)

  -- The targets metadata in force.
  abbrev pub in_force : UptaneTargets → FirmwareState api → FirmwareState api
  in_force targets st = record st { targets = some targets }

  -- The state after a successful initialisation with the hash `i`.
  abbrev started : FirmwareState api → ℕ → FirmwareState api
  started st i = record st { expected_hash = some i; hash_context = api.hash_init st.hash_context }

  init_true :
      (targets : UptaneTargets) (st : FirmwareState api)
      → (uptane_verify_firmware_init api (in_force targets st)).0 ≡ true
      → (i : ℕ) × (find_expected targets.hashes_num 0 st.supported_hash targets.hashes none
          ≡ some i)
        × ((uptane_verify_firmware_init api (in_force targets st)).1
            ≡ started (in_force targets st) i)
  unfolding uptane_verify_firmware_init init_with
  init_true targets st h =
      elim (Option-cases
        (find_expected targets.hashes_num 0 st.supported_hash targets.hashes none)) [
          | inl missing ↦ cc (rw (missing, init_with) at h)
          | inr (i, found) ↦
              elim (Bool-cases
                (is_installed api st.supported_hash (targets.hashes i) st.installed)) [
                  | inl old ↦ cc (rw (found, init_with, old) at h)
                  | inr new ↦ (
                    i,
                    found,
                    rw (found, init_with, new)
                        (ap
                          (λ (o : Option ℕ). record (in_force targets st) {
                            expected_hash = o;
                            hash_context = api.hash_init st.hash_context;
                          })
                          found),
                  )
                ]
        ]

  feed_pieces-fed :
      (pieces : List (List ℕ)) (st : FirmwareState api)
      → api.fed (feed_pieces pieces st).hash_context ≡ api.fed st.hash_context ++ joined pieces
  unfolding uptane_verify_firmware_feed
  feed_pieces-fed [] st = sym (append_nil (api.fed st.hash_context))
  feed_pieces-fed (bytes ∷ pieces) st =
      feed_pieces-fed pieces (uptane_verify_firmware_feed api bytes st)
      ∙ ap (λ before. before ++ joined pieces) (api.fed_feed st.hash_context bytes)
      ∙ append_assoc (api.fed st.hash_context) bytes (joined pieces)

  feed_pieces-rest :
      (pieces : List (List ℕ)) (st : FirmwareState api)
      → ((feed_pieces pieces st).targets ≡ st.targets)
        × ((feed_pieces pieces st).expected_hash ≡ st.expected_hash)
        × ((feed_pieces pieces st).supported_hash ≡ st.supported_hash)
  unfolding uptane_verify_firmware_feed
  feed_pieces-rest [] st = (refl, refl, refl)
  feed_pieces-rest (bytes ∷ pieces) st =
      feed_pieces-rest pieces (uptane_verify_firmware_feed api bytes st)

  -- The finalisation reads the hash that `expected_hash` points to.
  finalize_at :
      (targets : UptaneTargets) (i : ℕ) (st : FirmwareState api)
      → st.targets ≡ some targets
      → st.expected_hash ≡ some i
      → uptane_verify_firmware_finalize api st
        ≡ some (
            memcmp_equal
              (api.get_hashlen (targets.hashes i).alg)
              (api.hash_result st.hash_context).hash
              (targets.hashes i).hash)
  unfolding uptane_verify_firmware_finalize expected
  finalize_at targets i st given points =
      rw (given, points, uptane_verify_firmware_finalize, expected) refl

  -- The image that was fed is the one that the hash `i` describes.
  abbrev pub Matches : UptaneTargets → ℕ → List ℕ → Type 0
  Matches targets i image =
      (j : ℕ)
      → j < api.get_hashlen (targets.hashes i).alg
      → (api.digest image).hash j ≡ (targets.hashes i).hash j

  -- After `uptane_verify_firmware_init` has returned true and an image was fed in any pieces,
  -- `uptane_verify_firmware_finalize` returns, and it returns true exactly where the image has one of
  -- the listed hashes of the targets metadata, which is one of the supported algorithm.
  pub finalize-feed_pieces :
      (targets : UptaneTargets) (st : FirmwareState api) (pieces : List (List ℕ))
      → (uptane_verify_firmware_init api (in_force targets st)).0 ≡ true
      → let fed = feed_pieces pieces (uptane_verify_firmware_init api (in_force targets st)).1 in
        (i : ℕ) × (i < targets.hashes_num)
        × (same_alg (targets.hashes i).alg st.supported_hash ≡ true)
        × ((uptane_verify_firmware_finalize api fed ≡ some true)
            ↔ Matches targets i (joined pieces))
        × ((uptane_verify_firmware_finalize api fed ≡ some false)
            ↔ ¬ Matches targets i (joined pieces))
  finalize-feed_pieces targets st pieces h =
      let (i, found, after) = init_true targets st h in
      let base = started (in_force targets st) i in
      let (given, points, _) = feed_pieces-rest pieces base in
      let image : api.fed (feed_pieces pieces base).hash_context ≡ joined pieces =
        feed_pieces-fed pieces base
        ∙ ap (λ before. before ++ joined pieces) (api.fed_init st.hash_context) in
      let result =
        finalize_at targets i (feed_pieces pieces base) given points
        ∙ ap
            (λ (hash : Hash). some (
              memcmp_equal (api.get_hashlen (targets.hashes i).alg) hash.hash
                (targets.hashes i).hash))
            (api.result_lem (feed_pieces pieces base).hash_context ∙ ap api.digest image) in
      let (listed, fits) = listed_hash targets st.supported_hash i found in
      let (same, other) = decided _ (Matches targets i (joined pieces)) (
        memcmp_equal_iff (api.get_hashlen (targets.hashes i).alg) (api.digest (joined pieces)).hash
          (targets.hashes i).hash) in
      (i, listed, fits, rw (after, result) same, rw (after, result) other)

  init_installed :
      (targets : UptaneTargets) (i : ℕ) (st : FirmwareState api)
      → st.targets ≡ some targets
      → find_expected targets.hashes_num 0 st.supported_hash targets.hashes none ≡ some i
      → is_installed api st.supported_hash (targets.hashes i) st.installed ≡ true
      → (uptane_verify_firmware_init api st).0 ≡ false
  unfolding uptane_verify_firmware_init init_with
  init_installed targets i st given found old =
      rw (given, uptane_verify_firmware_init, found, init_with, old) refl

  -- What `uptane_firmware_confirm` leaves with the targets metadata in force and the hash `i`.
  abbrev confirmed : UptaneTargets → ℕ → Buffer → FirmwareState api → FirmwareState api
  confirmed targets i name st = record st {
    installed = some (record {
      firmware_name = copy_name targets.name name;
      firmware_hash = targets.hashes i;
      firmware_length = targets.length;
      attack = Attack.none;
    });
    firmware_updated = true;
  }

  confirm_at :
      (targets : UptaneTargets) (i : ℕ) (name : Buffer) (st : FirmwareState api)
      → st.targets ≡ some targets
      → st.expected_hash ≡ some i
      → uptane_firmware_confirm api name st ≡ some (confirmed targets i name st)
  unfolding uptane_firmware_confirm
  confirm_at targets i name st given points = cc

  -- After `uptane_verify_firmware_init` has returned true, `uptane_firmware_confirm` returns and records
  -- the image as installed: it is reported once as an update, and `uptane_verify_firmware_init` with
  -- the same targets metadata then returns false.
  pub init-confirm :
      (targets : UptaneTargets) (st : FirmwareState api) (pieces : List (List ℕ)) (name : Buffer)
      → (uptane_verify_firmware_init api (in_force targets st)).0 ≡ true
      → let fed = feed_pieces pieces (uptane_verify_firmware_init api (in_force targets st)).1 in
        (done : FirmwareState api) × (uptane_firmware_confirm api name fed ≡ some done)
        × ((uptane_firmware_updated api done).0 ≡ true)
        × ((uptane_firmware_updated api (uptane_firmware_updated api done).1).0 ≡ false)
        × ((uptane_verify_firmware_init api done).0 ≡ false)
  unfolding uptane_firmware_updated is_installed
  init-confirm targets st pieces name h =
      let (i, found, after) = init_true targets st h in
      let fed = feed_pieces pieces (started (in_force targets st) i) in
      let (given, points, supported) = feed_pieces-rest pieces (started (in_force targets st) i) in
      let done = confirmed targets i name fed in
      let alg = fed.supported_hash in
      let same =
        (memcmp_equal_iff (api.get_hashlen alg) (targets.hashes i).hash (targets.hashes i).hash).1
          (λ j lt. refl) in
      let done_with = confirm_at targets i name fed given points in
      (
        done,
        rw after done_with,
        refl,
        refl,
        init_installed targets i done given (rw supported found) same,
      )

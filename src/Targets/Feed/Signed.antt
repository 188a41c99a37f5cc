-- ===== src/Targets/Feed/Signed.antt =====
-- What a call feeds to the contexts: the part of the "signed" object that it has read.
use uptiny.Base.{
  ℕ, ◌<◌, ◌≡◌, refl, ◌∙◌, Bool, true, false, if◌then◌else◌, List, [], ◌++◌, ℤ, Memory, Text, arith,
  Bool-cases, inl, inr, ◌⊎◌, pos, pos_part, ltb_ℤ,
}
use uptiny.Crypto.{KeySignature}
use uptiny.Root.Count.{valid_from}
use uptiny.Targets.{Platform, Device, TargetsState}
use uptiny.Targets.Feed.{
  verify_part, init_contexts, feed_contexts, valid_contexts, has_signed_ended, message_part,
}
use uptiny.Targets.Feed.Contexts.{init_contexts-IsSame, feed_contexts-IsSame}
use uptiny.Targets.Feed.Fed.{
  IsFed, AllFed, IsFed-next, IsFed-valid, init-at, feed-at, valid_contexts-valid_from,
}

module _ (platform : Platform) (device : Device) (message : Text) (len : ℤ) where
  -- The first `num` contexts come from contexts that were fed `prior`, by a piece more.
  record IsFedPart (st' : TargetsState platform) (sigs : Memory KeySignature) (num : ℕ)
      (prior piece : List ℕ) : Type 0 where
    num_signatures : st'.num_signatures ≡ num
    fed_part :
        (j : ℕ)
        → j < num
        → (c : platform.crypto.Context) × IsFed platform device c (sigs j) prior
          × (st'.contexts j ≡ platform.crypto.verify_feed c piece)

  -- The contexts are fed the piece.
  feed-IsFedPart :
      (st : TargetsState platform) (sigs : Memory KeySignature) (num : ℕ) (prior piece : List ℕ)
      → st.num_signatures ≡ num
      → AllFed platform device st.contexts sigs num prior
      → let st' = feed_contexts platform device message len st.num_signatures 0 piece st in
        IsFedPart st' sigs num prior piece × (st'.in_signed ≡ st.in_signed)
  feed-IsFedPart st sigs num prior piece e all =
      let n = st.num_signatures in
      let same = feed_contexts-IsSame platform device message len n 0 piece st in
      (
        record {
          num_signatures = same.num_signatures ∙ e;
          fed_part = λ j lt. (
            st.contexts j,
            all j lt,
            feed-at platform device message len n 0 j piece st (omega arith) (omega arith),
          );
        },
        same.in_signed,
      )

  -- The state with the contexts initialised for its signatures.
  abbrev initialised : TargetsState platform → TargetsState platform
  initialised st = record (init_contexts platform device message len st.num_signatures 0 st) {
    in_signed = true;
  }

  init-AllFed :
      (st : TargetsState platform)
      → AllFed platform device (initialised st).contexts st.sigs st.num_signatures []
  init-AllFed st j lt = record {
    before = st.contexts j;
    pieces = [];
    made = init-at platform device message len st.num_signatures 0 j st (omega arith) (omega arith);
    all = refl;
  }

  init_feed-IsFedPart :
      (st : TargetsState platform) (piece : List ℕ)
      → let started = initialised st in
        let st' =
          feed_contexts platform device message len started.num_signatures 0 piece started in
        IsFedPart st' st.sigs st.num_signatures [] piece × (st'.in_signed ≡ true)
  init_feed-IsFedPart st piece =
      let num : (initialised st).num_signatures ≡ st.num_signatures =
        (init_contexts-IsSame platform device message len st.num_signatures 0 st).num_signatures in
      let (part, in_signed) =
        feed-IsFedPart (initialised st) st.sigs st.num_signatures [] piece num (init-AllFed st) in
      (part, in_signed)

  -- Where the signed bytes that a call feeds begin, and what its contexts have been fed before: the
  -- object begins in the call, or it is continued.
  abbrev pub Continues :
      Bool
      → TargetsState platform
      → TargetsState platform
      → Memory KeySignature
      → List ℕ
      → ℤ
      → Type 0
  Continues begun old st sigs prior first =
      ((begun ≡ true) × (sigs ≡ st.sigs) × (prior ≡ []) × (first ≡ st.begin_signed))
      ⊎ ((begun ≡ false)
          × (old.in_signed ≡ true)
          × AllFed platform device old.contexts sigs st.num_signatures prior
          × (first ≡ old.tail_length))

  abbrev pub last_signed : TargetsState platform → ℤ
  last_signed st =
      if has_signed_ended platform device message len st
      then (st.pool (pos_part st.signed_top_token_pos)).end
      else len

  verify_part-IsFedPart :
      (begun : Bool) (st : TargetsState platform) (sigs : Memory KeySignature) (prior : List ℕ)
      (first : ℤ)
      → Continues begun st st sigs prior first
      → let st' = verify_part platform device message len begun st in
        IsFedPart st' sigs st.num_signatures prior (message_part message first (last_signed st))
        × (has_signed_ended platform device message len st ≡ false → st'.in_signed ≡ true)
  unfolding verify_part
  verify_part-IsFedPart begun st sigs prior first (inl (e, same_sigs, none, at)) =
      elim (Bool-cases (has_signed_ended platform device message len st)) [
        | inl ended ↦
            let end = (st.pool (pos_part st.signed_top_token_pos)).end in
            let (part, _) =
              init_feed-IsFedPart (record st { end_signed = end })
                (message_part message st.begin_signed end) in
            rw (e, same_sigs, none, at, ended)
              (
                record { num_signatures = part.num_signatures; fed_part = part.fed_part },
                λ unended. cc,
              )
        | inr unended ↦
            let (part, in_signed) =
              init_feed-IsFedPart st (message_part message st.begin_signed len) in
            rw (e, same_sigs, none, at, unended) (part, λ _. in_signed)
      ]
  verify_part-IsFedPart begun st sigs prior first (inr (e, signing, all, at)) =
      elim (Bool-cases (has_signed_ended platform device message len st)) [
        | inl ended ↦
            let end = (st.pool (pos_part st.signed_top_token_pos)).end in
            let (part, _) =
              feed-IsFedPart (record st { end_signed = end; in_signed = true }) sigs
                st.num_signatures prior (message_part message st.tail_length end) refl all in
            rw (e, at, ended, signing)
              (
                record { num_signatures = part.num_signatures; fed_part = part.fed_part },
                λ unended. cc,
              )
        | inr unended ↦
            let (part, in_signed) =
              feed-IsFedPart (record st { in_signed = true }) sigs st.num_signatures prior
                (message_part message st.tail_length len) refl all in
            rw (e, at, unended, signing) (part, λ _. in_signed)
      ]

  -- With the piece of the call, the contexts have been fed all of the object that was read, and those
  -- that report a valid signature are as many as the signatures that are valid for these bytes.
  pub record IsSigned (st st' : TargetsState platform) (sigs : Memory KeySignature) (bytes : List ℕ)
      : Type 0 where
    pub num_signatures : st'.num_signatures ≡ st.num_signatures
    pub all : AllFed platform device st'.contexts sigs st.num_signatures bytes
    pub count :
        valid_contexts platform device message len st.num_signatures 0 st'
        ≡ valid_from platform.crypto st.num_signatures 0 device.heap sigs bytes

  pub verify_part-IsSigned :
      (begun : Bool) (st : TargetsState platform) (sigs : Memory KeySignature) (prior : List ℕ)
      (first : ℤ)
      → Continues begun st st sigs prior first
      → let st' = verify_part platform device message len begun st in
        IsSigned st st' sigs (prior ++ message_part message first (last_signed st))
        × (has_signed_ended platform device message len st ≡ false → st'.in_signed ≡ true)
  verify_part-IsSigned begun st sigs prior first c =
      let piece = message_part message first (last_signed st) in
      let st' = verify_part platform device message len begun st in
      let (part, in_signed) = verify_part-IsFedPart begun st sigs prior first c in
      (
        record {
          num_signatures = part.num_signatures;
          all = λ j lt.
              let (from, is_fed, e) = part.fed_part j lt in
              rw e (IsFed-next platform device from (sigs j) prior piece is_fed);
          count =
              valid_contexts-valid_from platform device message len st.num_signatures 0 st' sigs
                (prior ++ piece)
                (λ j lo hi.
                  let (from, is_fed, e) = part.fed_part j (omega arith) in
                  rw e (IsFed-valid platform device from (sigs j) prior piece is_fed));
        },
        in_signed,
      )

  pub verify_part-ended :
      (begun : Bool) (st : TargetsState platform)
      → has_signed_ended platform device message len st ≡ true
      → let end = (st.pool (pos_part st.signed_top_token_pos)).end in
        ((verify_part platform device message len begun st).end_signed ≡ end)
        × (ltb_ℤ end (pos 0) ≡ false)
  unfolding verify_part has_signed_ended
  verify_part-ended begun st ended =
      let end = (st.pool (pos_part st.signed_top_token_pos)).end in
      let marked : TargetsState platform = record st { end_signed = end } in
      let started = initialised marked in
      grind (
        arith,
        ended,
        λ (n : ℕ) (st₁ : TargetsState platform).
            (init_contexts-IsSame platform device message len n 0 st₁).end_signed,
        λ (n : ℕ) (bytes : List ℕ) (st₁ : TargetsState platform).
            (feed_contexts-IsSame platform device message len n 0 bytes st₁).end_signed,
      )

-- ===== src/Targets/Feed/Checked.antt =====
-- The check of the signatures after the loop, by what the contexts have been fed.
use uptiny.Base.{
  ℕ, ◌≡◌, refl, sym, ap, ◌∙◌, true, false, ◌&&◌, List, ◌++◌, Memory, ltb, ℤ, pos, ltb_ℤ, ◌≤ℤ◌, Text,
  arith, Bool-cases, inl, inr,
}
use uptiny.Crypto.{KeySignature}
use uptiny.Root.Count.{valid_from}
use uptiny.Targets.{Platform, Device, TargetsState}
use uptiny.Targets.Step.{FeedState}
use uptiny.Targets.Step.Version.{is_refusal, IsKept}
use uptiny.Targets.Feed.{check_signatures, verify_part}
use uptiny.Targets.Feed.{valid_contexts, advance_positions, has_signed_ended, message_part}
use uptiny.Targets.Feed.Contexts.{verify_part-end_signed}
use uptiny.Targets.Feed.Fed.{AllFed}
use uptiny.Targets.Feed.Signed.{Continues, verify_part-IsSigned, verify_part-ended}

module _ (platform : Platform) (device : Device) (message : Text) (len : ℤ) where
  -- What the positions leave alone.
  record IsAdvanced (st st' : TargetsState platform) : Type 0 where
    num_signatures : st'.num_signatures ≡ st.num_signatures
    end_signed : st'.end_signed ≡ st.end_signed
    in_signed : st'.in_signed ≡ st.in_signed
    contexts : st'.contexts ≡ st.contexts

  advance_positions-IsAdvanced :
      (idx : ℕ) (st : TargetsState platform)
      → IsAdvanced st (advance_positions platform device message len idx st).1
  unfolding advance_positions
  advance_positions-IsAdvanced idx st = elim (Bool-cases (ltb st.token_pos idx)) [
    | inl e ↦
        rw e
          (record { num_signatures = refl; end_signed = refl; in_signed = refl; contexts = refl })
    | inr e ↦
        rw e
          (record { num_signatures = refl; end_signed = refl; in_signed = refl; contexts = refl })
  ]

  -- The loop leaves the contexts, so the object is continued from the state that it leaves.
  Continues-kept :
      (old : TargetsState platform) (version : ℤ) (f : FeedState platform)
      (sigs : Memory KeySignature) (prior : List ℕ) (first : ℤ)
      → IsKept platform device message old version f
      → Continues platform device message len f.has_signed_begun old f.st sigs prior first
      → Continues platform device message len f.has_signed_begun f.st f.st sigs prior first
  Continues-kept old version f sigs prior first v (inl here) = inl here
  Continues-kept old version f sigs prior first v (inr (begun, signing, all, at)) = inr (
    begun,
    v.in_signed ∙ signing,
    λ j lt.
        let same : f.st.contexts j ≡ old.contexts j = ap (λ m. m j) v.contexts in
        rw same (all j lt),
    at ∙ sym v.tail_length,
  )

  abbrev verified : FeedState platform → TargetsState platform
  verified f = verify_part platform device message len f.has_signed_begun f.st

  -- The threshold test of a call in which the object has ended.
  check_signatures-counted :
      (f : FeedState platform)
      → has_signed_ended platform device message len f.st ≡ true
      → is_refusal (check_signatures platform device message len f).result ≡ false
      → let st = verified f in
        device.root.targets_threshold
        ≤ℤ pos (valid_contexts platform device message len st.num_signatures 0 st)
  unfolding check_signatures
  check_signatures-counted f ended h = grind arith

  check_signatures-st :
      (f : FeedState platform)
      → is_refusal (check_signatures platform device message len f).result ≡ false
      → IsAdvanced (verified f) (check_signatures platform device message len f).st
  unfolding check_signatures
  check_signatures-st f h =
      let st = verified f in
      let few =
        has_signed_ended platform device message len f.st
        && ltb_ℤ (pos (valid_contexts platform device message len st.num_signatures 0 st))
            device.root.targets_threshold in
      elim (Bool-cases few) [
        | inl e ↦ cc (rw (check_signatures, e) at h)
        | inr e ↦ rw e (advance_positions-IsAdvanced f.idx st)
      ]

  pub check_signatures-signed :
      (old : TargetsState platform) (version : ℤ) (f : FeedState platform)
      (sigs : Memory KeySignature) (prior : List ℕ) (first : ℤ)
      → IsKept platform device message old version f
      → Continues platform device message len f.has_signed_begun old f.st sigs prior first
      → let o = check_signatures platform device message len f in
        is_refusal o.result ≡ false
        → ltb_ℤ old.end_signed (pos 0) ≡ true
        → ltb_ℤ o.st.end_signed (pos 0) ≡ false
        → device.root.targets_threshold
          ≤ℤ pos (
              valid_from platform.crypto o.st.num_signatures 0 device.heap sigs
                (prior ++ message_part message first o.st.end_signed))
  check_signatures-signed old version f sigs prior first v c h is_open closed =
      let kept = check_signatures-st f h in
      let (signed, _) =
        verify_part-IsSigned platform device message len f.has_signed_begun f.st sigs prior first
          (Continues-kept old version f sigs prior first v c) in
      elim (Bool-cases (has_signed_ended platform device message len f.st)) [
        | inr unended ↦
            let same =
              verify_part-end_signed platform device message len f.has_signed_begun f.st unended in
            let e = kept.end_signed ∙ same ∙ v.end_signed in
            let closed' : ltb_ℤ old.end_signed (pos 0) ≡ false = rw e at closed in
            absurd (cc (is_open, closed'))
        | inl ended ↦
            let (end, _) =
              verify_part-ended platform device message len f.has_signed_begun f.st ended in
            let count =
              ap (λ n. valid_contexts platform device message len n 0 (verified f))
                signed.num_signatures
              ∙ rw ended at signed.count in
            let enough = rw count at (check_signatures-counted f ended h) in
            rw (kept.num_signatures, signed.num_signatures, kept.end_signed, end) enough
      ]

  pub check_signatures-fed :
      (old : TargetsState platform) (version : ℤ) (f : FeedState platform)
      (sigs : Memory KeySignature) (prior : List ℕ) (first : ℤ)
      → IsKept platform device message old version f
      → Continues platform device message len f.has_signed_begun old f.st sigs prior first
      → let o = check_signatures platform device message len f in
        is_refusal o.result ≡ false
        → ltb_ℤ o.st.end_signed (pos 0) ≡ true
        → (o.st.in_signed ≡ true)
          × AllFed platform device o.st.contexts sigs o.st.num_signatures
              (prior ++ message_part message first len)
  check_signatures-fed old version f sigs prior first v c h is_open =
      let kept = check_signatures-st f h in
      let (signed, in_signed) =
        verify_part-IsSigned platform device message len f.has_signed_begun f.st sigs prior first
          (Continues-kept old version f sigs prior first v c) in
      elim (Bool-cases (has_signed_ended platform device message len f.st)) [
        | inl ended ↦
            let (end, closed) =
              verify_part-ended platform device message len f.has_signed_begun f.st ended in
            let is_open' = rw (kept.end_signed ∙ end) at is_open in absurd (cc (closed, is_open'))
        | inr unended ↦ (
          kept.in_signed ∙ in_signed unended,
          λ j lt.
              let same : (check_signatures platform device message len f).st.contexts j
                  ≡ (verified f).contexts j =
                ap (λ m. m j) kept.contexts in
              let num = kept.num_signatures ∙ signed.num_signatures in
              rw same (rw unended at (signed.all j (rw num at lt))),
        )
      ]

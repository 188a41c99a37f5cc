-- ===== src/Targets/Feed/Outcome.antt =====
-- libuptiny/targets.c: what a call of `uptane_parse_targets_feed` promises.
use uptiny.Base.{
  ℕ, ◌≡◌, refl, sym, ◌∙◌, true, false, List, ◌++◌, Memory, ltb, ℤ, pos, negsuc, ltb_ℤ, ◌≤ℤ◌, Text,
  arith, Bool-cases, Option-cases, none, inl, inr, ◌⊎◌,
}
use uptiny.Crypto.{KeySignature}
use uptiny.Root.Count.{valid_from}
use uptiny.State.{UptaneTargets}
use uptiny.Targets.{Platform, Device, TargetsState}
use uptiny.Targets.Step.{FeedState, result_error, is_in_error}
use uptiny.Targets.Step.Version.{is_refusal, IsKept, rounds-IsKept}
use uptiny.Targets.Feed.{FeedOutcome, uptane_parse_targets_feed, begin_loop, run_loop, after_loop}
use uptiny.Targets.Feed.{check_signatures, verify_part}
use uptiny.Targets.Feed.{valid_contexts, final_result, advance_positions, message_part}
use uptiny.Targets.Feed.Contexts.{
  verify_part-state, verify_part-end_signed, valid_contexts-positions,
}
use uptiny.Targets.Feed.Checked.{check_signatures-signed, check_signatures-fed}
use uptiny.Targets.Feed.Fed.{AllFed}
use uptiny.Targets.Feed.Signed.{Continues}

module _ (platform : Platform) (device : Device) (message : Text) (len : ℤ) where
  -- What holds of the outcome of a call on `old_out` and `old`, whose loop leaves `f`.
  pub record IsSafe (old_out : UptaneTargets) (old : TargetsState platform) (f : FeedState platform)
      (o : FeedOutcome platform device message len) : Type 0 where
    pub sink : is_refusal o.result ≡ is_in_error o.st.state
    pub refused : is_refusal o.result ≡ true → o.returns ≡ negsuc 0
    pub fresh : (o.out.version ≡ old_out.version) ⊎ (device.targets.version ≤ℤ o.out.version)
    pub counted :
        is_refusal o.result ≡ false
        → ltb_ℤ old.end_signed (pos 0) ≡ true
        → ltb_ℤ o.st.end_signed (pos 0) ≡ false
        → device.root.targets_threshold
          ≤ℤ pos (valid_contexts platform device message len o.st.num_signatures 0 o.st)
    pub signed :
        (sigs : Memory KeySignature) (prior : List ℕ) (first : ℤ)
        → Continues platform device message len f.has_signed_begun old f.st sigs prior first
        → is_refusal o.result ≡ false
        → ltb_ℤ old.end_signed (pos 0) ≡ true
        → ltb_ℤ o.st.end_signed (pos 0) ≡ false
        → device.root.targets_threshold
          ≤ℤ pos (
              valid_from platform.crypto o.st.num_signatures 0 device.heap sigs
                (prior ++ message_part message first o.st.end_signed))
    pub fed :
        (sigs : Memory KeySignature) (prior : List ℕ) (first : ℤ)
        → Continues platform device message len f.has_signed_begun old f.st sigs prior first
        → is_refusal o.result ≡ false
        → ltb_ℤ old.end_signed (pos 0) ≡ true
        → ltb_ℤ o.st.end_signed (pos 0) ≡ true
        → (o.st.in_signed ≡ true)
          × AllFed platform device o.st.contexts sigs o.st.num_signatures
              (prior ++ message_part message first len)

  begin_loop-IsKept :
      (out : UptaneTargets) (st : TargetsState platform)
      → IsKept platform device message st out.version
          (begin_loop platform device message len out st)
  unfolding begin_loop
  begin_loop-IsKept out st = record {
    end_signed = refl;
    in_signed = refl;
    tail_length = refl;
    contexts = refl;
    refusal = refl;
    fresh = inl refl;
  }

  run_loop-IsKept :
      (old : TargetsState platform) (version : ℤ) (f : FeedState platform)
      → IsKept platform device message old version f
      → IsKept platform device message old version (run_loop platform device message len f)
  unfolding run_loop
  run_loop-IsKept old version f v = rounds-IsKept platform device message old version _ f v

  -- The result of a call that is not refused is no refusal.
  final_result-is_refusal :
      (idx : ℕ) (st : TargetsState platform)
      → is_refusal (final_result platform device message len idx st) ≡ false
  unfolding final_result
  final_result-is_refusal idx st = ground arith

  advance_positions-state :
      (idx : ℕ) (st : TargetsState platform)
      → (advance_positions platform device message len idx st).1.state ≡ st.state
  unfolding advance_positions
  advance_positions-state idx st = ground arith

  advance_positions-end_signed :
      (idx : ℕ) (st : TargetsState platform)
      → (advance_positions platform device message len idx st).1.end_signed ≡ st.end_signed
  unfolding advance_positions
  advance_positions-end_signed idx st = ground arith

  -- The count of the valid signatures is the one that the new state gives again.
  advance_positions-valid_contexts :
      (idx : ℕ) (st : TargetsState platform)
      → let st' = (advance_positions platform device message len idx st).1 in
        valid_contexts platform device message len st'.num_signatures 0 st'
        ≡ valid_contexts platform device message len st.num_signatures 0 st
  unfolding advance_positions
  advance_positions-valid_contexts idx st = elim (Bool-cases (ltb st.token_pos idx)) [
    | inl e ↦
        rw e (valid_contexts-positions platform device message len st.num_signatures 0 idx _ st)
    | inr e ↦
        rw e (
          valid_contexts-positions platform device message len st.num_signatures 0 st.token_pos _
            st)
  ]

  check_signatures-parts :
      (out : UptaneTargets) (old : TargetsState platform) (f : FeedState platform)
      → IsKept platform device message old out.version f
      → is_in_error f.st.state ≡ false
      → let o = check_signatures platform device message len f in
        (is_refusal o.result ≡ is_in_error o.st.state)
        × (is_refusal o.result ≡ true → o.returns ≡ negsuc 0)
        × ((o.out.version ≡ out.version) ⊎ (device.targets.version ≤ℤ o.out.version))
        × (is_refusal o.result ≡ false
            → ltb_ℤ old.end_signed (pos 0) ≡ true
            → ltb_ℤ o.st.end_signed (pos 0) ≡ false
            → device.root.targets_threshold
              ≤ℤ pos (valid_contexts platform device message len o.st.num_signatures 0 o.st))
  unfolding check_signatures
  check_signatures-parts out old f v fine =
      let st = verify_part platform device message len f.has_signed_begun f.st in
      grind (
        arith,
        v.end_signed,
        v.fresh,
        final_result-is_refusal f.idx st,
        advance_positions-state f.idx st,
        advance_positions-end_signed f.idx st,
        advance_positions-valid_contexts f.idx st,
        verify_part-state platform device message len f.has_signed_begun f.st,
        verify_part-end_signed platform device message len f.has_signed_begun f.st,
      )

  check_signatures-IsSafe :
      (out : UptaneTargets) (old : TargetsState platform) (f : FeedState platform)
      → IsKept platform device message old out.version f
      → is_in_error f.st.state ≡ false
      → IsSafe out old f (check_signatures platform device message len f)
  check_signatures-IsSafe out old f v fine =
      let parts = check_signatures-parts out old f v fine in
      record {
        sink = parts.0;
        refused = parts.1;
        fresh = parts.2;
        counted = parts.3;
        signed = λ sigs prior first c.
            check_signatures-signed platform device message len old out.version f sigs prior first v
              c;
        fed = λ sigs prior first c h is_open still.
            check_signatures-fed platform device message len old out.version f sigs prior first v c
              h still;
      }

  after_loop-check_signatures :
      (f : FeedState platform)
      → f.returned ≡ none
      → is_in_error f.st.state ≡ false
      → after_loop platform device message len f ≡ check_signatures platform device message len f
  unfolding after_loop
  after_loop-check_signatures f none_e fine = simp (none_e, after_loop, fine) refl

  after_loop-IsSafe :
      (out : UptaneTargets) (old : TargetsState platform) (f : FeedState platform)
      → IsKept platform device message old out.version f
      → IsSafe out old f (after_loop platform device message len f)
  unfolding after_loop
  after_loop-IsSafe out old f v = elim (Option-cases f.returned) [
    | inl none_e ↦ elim (Bool-cases (is_in_error f.st.state)) [
      | inl bad ↦
          rw (none_e, after_loop, bad)
            (record {
              sink = refl;
              refused = λ r. refl;
              fresh = v.fresh;
              counted = λ r. ground arith;
              signed = λ sigs prior first c r. ground arith;
              fed = λ sigs prior first c r. cc r;
            })
      | inr fine ↦
          rw (after_loop-check_signatures f none_e fine) (check_signatures-IsSafe out old f v fine)
    ]
    | inr (r, some_e) ↦
        let refusal : is_refusal r ≡ true = rw some_e at v.refusal in
        rw (some_e, after_loop)
          (record {
            sink = refusal;
            refused = λ h. refl;
            fresh = v.fresh;
            counted = λ h. ground arith;
            signed = λ sigs prior first c h. ground arith;
            fed = λ sigs prior first c h. cc (refusal, h);
          })
  ]

  pub uptane_parse_targets_feed-IsSafe :
      (out : UptaneTargets) (st : TargetsState platform)
      → IsSafe out st
          (run_loop platform device message len (begin_loop platform device message len out st))
          (uptane_parse_targets_feed platform device message len out st)
  unfolding uptane_parse_targets_feed
  uptane_parse_targets_feed-IsSafe out st = elim (Bool-cases (is_in_error st.state)) [
    | inl bad ↦ rw bad (record {
      sink = sym bad;
      refused = λ r. refl;
      fresh = inl refl;
      counted = λ r. ground arith;
      signed = λ sigs prior first c r. ground arith;
      fed = λ sigs prior first c r. cc r;
    })
    | inr fine ↦
        rw fine
          (after_loop-IsSafe out st _ (run_loop-IsKept st out.version _ (begin_loop-IsKept out st)))
  ]

in_error-refuses :
    (platform : Platform) (device : Device) (m : Text) (len : ℤ) (out : UptaneTargets)
    (st : TargetsState platform)
    → is_in_error st.state ≡ true
    → uptane_parse_targets_feed platform device m len out st
      ≡ record { returns = negsuc 0; result = result_error; out = out; st = st }
unfolding uptane_parse_targets_feed
in_error-refuses platform device m len out st bad = rw bad refl

-- After a call that was refused, every further call is refused: whatever its message, it returns
-- -1 with the result "error" and changes neither the target given out nor the state.
pub uptane_parse_targets_feed-refused :
    (platform : Platform) (device : Device) (m m' : Text) (len len' : ℤ) (out : UptaneTargets)
    (st : TargetsState platform)
    → let first = uptane_parse_targets_feed platform device m len out st in
      let again = uptane_parse_targets_feed platform device m' len' first.out first.st in
      is_refusal first.result ≡ true
      → (again.returns ≡ negsuc 0)
        × (again.result ≡ result_error)
        × (again.out ≡ first.out)
        × (again.st ≡ first.st)
uptane_parse_targets_feed-refused platform device m m' len len' out st refusal =
    let first = uptane_parse_targets_feed platform device m len out st in
    let sink : is_in_error first.st.state ≡ true =
      sym (uptane_parse_targets_feed-IsSafe platform device m len out st).sink ∙ refusal in
    rw (in_error-refuses platform device m' len' first.out first.st sink) (refl, refl, refl, refl)

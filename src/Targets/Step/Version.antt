-- ===== src/Targets/Step/Version.antt =====
-- What every round of the loop keeps: the end of "signed" is not set, the contexts are left, only refusals are returned,
-- and the version given out is the old one or is not below the version in force.
use uptiny.Base.{
  ℕ, ◌≡◌, Bool, true, false, Option, none, some, ℤ, ◌≤ℤ◌, Text, arith, rounds, rounds_inv, ◌⊎◌,
}
use uptiny.Targets.{Platform, Device, TargetsState, ParsingState, begin, in_top, in_signatures}
use uptiny.Targets.{before_signed, in_signed, in_ignored, in_targets, in_error}
use uptiny.Targets.Step.{FeedState, FeedResult, result_error, result_wrong_hw_id}
use uptiny.Targets.Step.{result_signatures_failed, result_version_failed, result_in_progress}
use uptiny.Targets.Step.{result_end_found, result_end_not_found, input_of}
use uptiny.Targets.Step.{unread_member, ignore_value, on_begin, on_top, on_ignored, on_signatures}
use uptiny.Targets.Step.{on_before_signed, on_type, on_expires, on_version, on_targets_object}
use uptiny.Targets.Step.{on_signed, take_target, on_target_result, on_target, on_targets, on_state}
use uptiny.Targets.Step.{is_going, step, count_signed, consume}
use uptiny.Targets.Target.{parse_target, TargetResult, error}

abbrev pub is_refusal : FeedResult → Bool
is_refusal result_error = true
is_refusal result_wrong_hw_id = true
is_refusal result_signatures_failed = true
is_refusal result_version_failed = true
is_refusal result_in_progress = false
is_refusal result_end_found = false
is_refusal result_end_not_found = false

abbrev refuses : Option FeedResult → Bool
refuses none = true
refuses (some r) = is_refusal r

module _ (platform : Platform) (device : Device) (message : Text) (old : TargetsState platform)
    (version : ℤ) where
  pub record IsKept (f : FeedState platform) : Type 0 where
    pub end_signed : f.st.end_signed ≡ old.end_signed
    pub in_signed : f.st.in_signed ≡ old.in_signed
    pub tail_length : f.st.tail_length ≡ old.tail_length
    pub contexts : f.st.contexts ≡ old.contexts
    pub refusal : refuses f.returned ≡ true
    pub fresh : (f.out.version ≡ version) ⊎ (device.targets.version ≤ℤ f.out.version)

  on_begin-IsKept :
      (f : FeedState platform) → IsKept f → IsKept (on_begin platform device message f)
  unfolding on_begin
  on_begin-IsKept f v = ground arith

  on_top-IsKept : (f : FeedState platform) → IsKept f → IsKept (on_top platform device message f)
  unfolding on_top unread_member ignore_value
  on_top-IsKept f v = ground arith

  on_ignored-IsKept :
      (f : FeedState platform) → IsKept f → IsKept (on_ignored platform device message f)
  unfolding on_ignored
  on_ignored-IsKept f v = ground arith

  on_signatures-IsKept :
      (f : FeedState platform) → IsKept f → IsKept (on_signatures platform device message f)
  unfolding on_signatures
  on_signatures-IsKept f v = ground arith

  on_before_signed-IsKept :
      (f : FeedState platform) → IsKept f → IsKept (on_before_signed platform device message f)
  unfolding on_before_signed
  on_before_signed-IsKept f v = ground arith

  on_type-IsKept : (f : FeedState platform) → IsKept f → IsKept (on_type platform device message f)
  unfolding on_type
  on_type-IsKept f v = ground arith

  on_expires-IsKept :
      (f : FeedState platform) → IsKept f → IsKept (on_expires platform device message f)
  unfolding on_expires
  on_expires-IsKept f v = ground arith

  on_version-IsKept :
      (f : FeedState platform) → IsKept f → IsKept (on_version platform device message f)
  unfolding on_version
  on_version-IsKept f v = ground arith

  on_targets_object-IsKept :
      (f : FeedState platform) → IsKept f → IsKept (on_targets_object platform device message f)
  unfolding on_targets_object
  on_targets_object-IsKept f v = ground arith

  -- The rounds that come before the value of a name in "signed".
  counted-IsKept :
      (f : FeedState platform)
      → IsKept f
      → IsKept (count_signed platform device message (consume platform device message 1 f))
  counted-IsKept f v = record {
    end_signed = v.end_signed;
    in_signed = v.in_signed;
    tail_length = v.tail_length;
    contexts = v.contexts;
    refusal = v.refusal;
    fresh = v.fresh;
  }

  on_signed-IsKept :
      (f : FeedState platform) → IsKept f → IsKept (on_signed platform device message f)
  unfolding on_signed unread_member ignore_value
  on_signed-IsKept f v =
      let counted = count_signed platform device message (consume platform device message 1 f) in
      ground (
        arith,
        on_type-IsKept counted (counted-IsKept f v),
        on_expires-IsKept counted (counted-IsKept f v),
        on_version-IsKept counted (counted-IsKept f v),
        on_targets_object-IsKept (consume platform device message 1 f) (record {
          end_signed = v.end_signed;
          in_signed = v.in_signed;
          tail_length = v.tail_length;
          contexts = v.contexts;
          refusal = v.refusal;
          fresh = v.fresh;
        }),
      )

  on_target_result-IsKept :
      (r : TargetResult) (idx : ℕ) (f : FeedState platform)
      → IsKept f
      → IsKept (on_target_result platform device message r idx f)
  unfolding on_target_result take_target
  on_target_result-IsKept error idx f v = ground arith
  on_target_result-IsKept _ idx f v = ground arith

  on_target-IsKept :
      (f : FeedState platform) → IsKept f → IsKept (on_target platform device message f)
  unfolding on_target unread_member
  on_target-IsKept f v =
      let parse =
        parse_target platform device (input_of platform device message f.st) f.idx
          f.st.tmp_target in
      ground (
        arith,
        on_target_result-IsKept parse.0 parse.1
            (record f { st = record f.st { tmp_target = parse.2 } })
            (record {
              end_signed = v.end_signed;
              in_signed = v.in_signed;
              tail_length = v.tail_length;
              contexts = v.contexts;
              refusal = v.refusal;
              fresh = v.fresh;
            }),
      )

  on_targets-IsKept :
      (f : FeedState platform) → IsKept f → IsKept (on_targets platform device message f)
  unfolding on_targets
  on_targets-IsKept f v = ground (arith, on_target-IsKept f v)

  on_state-IsKept :
      (s : ParsingState) (f : FeedState platform)
      → IsKept f
      → IsKept (on_state platform device message s f)
  unfolding on_state
  on_state-IsKept begin f v = on_begin-IsKept f v
  on_state-IsKept in_top f v = on_top-IsKept f v
  on_state-IsKept in_signatures f v = on_signatures-IsKept f v
  on_state-IsKept before_signed f v = on_before_signed-IsKept f v
  on_state-IsKept in_signed f v = on_signed-IsKept f v
  on_state-IsKept in_ignored f v = on_ignored-IsKept f v
  on_state-IsKept in_targets f v = on_targets-IsKept f v
  on_state-IsKept in_error f v = record {
    end_signed = v.end_signed;
    in_signed = v.in_signed;
    tail_length = v.tail_length;
    contexts = v.contexts;
    refusal = v.refusal;
    fresh = v.fresh;
  }

  step-IsKept : (f : FeedState platform) → IsKept f → IsKept (step platform device message f)
  unfolding step
  step-IsKept f v = on_state-IsKept f.st.state f v

  pub rounds-IsKept :
      (n : ℕ) (f : FeedState platform)
      → IsKept f
      → IsKept (rounds (is_going platform device message) (step platform device message) n f)
  rounds-IsKept =
      rounds_inv IsKept (is_going platform device message) (step platform device message)
        (λ f going v. step-IsKept f v)

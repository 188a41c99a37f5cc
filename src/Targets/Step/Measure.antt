-- ===== src/Targets/Step/Measure.antt =====
-- The rounds of the loop consume tokens: four rounds for each token are enough.
use uptiny.Base.{
  ℕ, zero, suc, ◌+◌, ◌-◌, ◌*◌, ◌≤◌, ◌<◌, ◌≡◌, refl, true, false, ℤ, Text, arith, rounds, rounds_inv,
  rounds_end,
}
use uptiny.Json.{Token}
use uptiny.Signatures.Forward.{uptane_parse_signatures_forward}
use uptiny.State.{Role}
use uptiny.Targets.{Platform, Device, ParsingState, begin, in_top, in_signatures}
use uptiny.Targets.{before_signed, in_signed, in_ignored, in_targets, in_error}
use uptiny.Targets.Step.{FeedState, input_of, token, unread_member, ignore_value}
use uptiny.Targets.Step.{
  on_begin, on_top, skip_ignored, on_ignored, on_signatures, on_before_signed,
}
use uptiny.Targets.Step.{on_type, on_expires, on_version, on_targets_object, on_signed, take_target}
use uptiny.Targets.Step.{on_target_result, on_target, on_targets, on_state, step, is_going}
use uptiny.Targets.Target.{TargetResult, parse_target, error, not_for_me, for_me, wrong_hw_id}
use uptiny.Targets.Target.Forward.{is_failure, parse_target_forward}

-- How many rounds may follow in which no token is consumed.
abbrev pub rank : ParsingState → ℕ
rank in_ignored = 2
rank in_targets = 2
rank in_signed = 1
rank _ = 0

skip_ignored_forward :
    (platform : Platform) (device : Device) (message : Text) (n idx : ℕ) (end : ℤ)
    (pool : ℕ → Token)
    → idx ≤ skip_ignored platform device message n idx end pool
unfolding skip_ignored
skip_ignored_forward platform device message zero idx end pool = omega arith
skip_ignored_forward platform device message (suc n) idx end pool =
    ground (arith, skip_ignored_forward platform device message n (idx + 1) end pool)

module _ (platform : Platform) (device : Device) (message : Text) where
  abbrev pub weight : FeedState platform → ℕ
  weight f = 4 * (f.st.parser.toknext - f.idx) + rank f.st.state

  -- Before a round: a token is left, and an ignored value is in the top object or in "signed".
  record IsReady (f : FeedState platform) (s : ParsingState) : Type 0 where
    left : f.idx < f.st.parser.toknext
    back : rank f.st.prev_state ≤ 1
    state : f.st.state ≡ s

  -- What a round does.
  record Shrinks (f g : FeedState platform) : Type 0 where
    back : rank g.st.prev_state ≤ 1
    less : is_going platform device message g ≡ true → weight g < weight f

  on_begin-Shrinks :
      (f : FeedState platform) → IsReady f begin → Shrinks f (on_begin platform device message f)
  unfolding on_begin is_going
  on_begin-Shrinks f r = ground (arith, r)

  on_top-Shrinks :
      (f : FeedState platform) → IsReady f in_top → Shrinks f (on_top platform device message f)
  unfolding on_top is_going unread_member ignore_value
  on_top-Shrinks f r = ground (arith, r)

  on_ignored-Shrinks :
      (f : FeedState platform)
      → IsReady f in_ignored
      → Shrinks f (on_ignored platform device message f)
  unfolding on_ignored is_going
  on_ignored-Shrinks f r = ground (
    arith,
    r,
    skip_ignored_forward platform device message (f.st.parser.toknext - f.idx) f.idx
        (token platform device message f f.st.ignored_top_token_pos).end f.st.pool,
  )

  on_signatures-Shrinks :
      (f : FeedState platform)
      → IsReady f in_signatures
      → Shrinks f (on_signatures platform device message f)
  unfolding on_signatures is_going
  on_signatures-Shrinks f r = ground (
    arith,
    r,
    uptane_parse_signatures_forward Role.targets device.heap (input_of platform device message f.st)
        f.idx f.st.sigs platform.signature_pool_size device.root,
  )

  on_before_signed-Shrinks :
      (f : FeedState platform)
      → IsReady f before_signed
      → Shrinks f (on_before_signed platform device message f)
  unfolding on_before_signed is_going
  on_before_signed-Shrinks f r = ground (arith, r)

  on_signed-Shrinks :
      (f : FeedState platform)
      → IsReady f in_signed
      → Shrinks f (on_signed platform device message f)
  unfolding on_signed on_type on_expires on_version on_targets_object is_going unread_member
      ignore_value
  on_signed-Shrinks f r = ground (arith, r)

  on_target_result-Shrinks :
      (r : TargetResult) (idx : ℕ) (f : FeedState platform)
      → IsReady f in_targets
      → (is_failure r ≡ false → f.idx < idx)
      → Shrinks f (on_target_result platform device message r idx f)
  unfolding on_target_result is_going take_target
  on_target_result-Shrinks error idx f r past = ground (arith, r)
  on_target_result-Shrinks not_for_me idx f r past = ground (arith, r, past refl)
  on_target_result-Shrinks for_me idx f r past = ground (arith, r, past refl)
  on_target_result-Shrinks wrong_hw_id idx f r past = ground (arith, r)

  on_target-Shrinks :
      (f : FeedState platform)
      → IsReady f in_targets
      → Shrinks f (on_target platform device message f)
  unfolding on_target is_going unread_member
  on_target-Shrinks f r =
      let parse =
        parse_target platform device (input_of platform device message f.st) f.idx
          f.st.tmp_target in
      let parsed = record f { st = record f.st { tmp_target = parse.2 } } in
      let past =
        parse_target_forward platform device (input_of platform device message f.st) f.idx
          f.st.tmp_target in
      let read =
        on_target_result-Shrinks parse.0 parse.1 parsed
          (record { left = r.left; back = r.back; state = r.state }) past in
      ground (arith, r, read.back, read.less)

  on_targets-Shrinks :
      (f : FeedState platform)
      → IsReady f in_targets
      → Shrinks f (on_targets platform device message f)
  unfolding on_targets is_going
  on_targets-Shrinks f r = ground (arith, r, on_target-Shrinks f r)

  on_state-Shrinks :
      (s : ParsingState) (f : FeedState platform)
      → IsReady f s
      → Shrinks f (on_state platform device message s f)
  unfolding on_state is_going
  on_state-Shrinks begin f r = on_begin-Shrinks f r
  on_state-Shrinks in_top f r = on_top-Shrinks f r
  on_state-Shrinks in_signatures f r = on_signatures-Shrinks f r
  on_state-Shrinks before_signed f r = on_before_signed-Shrinks f r
  on_state-Shrinks in_signed f r = on_signed-Shrinks f r
  on_state-Shrinks in_ignored f r = on_ignored-Shrinks f r
  on_state-Shrinks in_targets f r = on_targets-Shrinks f r
  on_state-Shrinks in_error f r = ground (arith, r)

  is_going-left :
      (f : FeedState platform)
      → is_going platform device message f ≡ true
      → f.idx < f.st.parser.toknext
  unfolding is_going
  is_going-left f going = ground arith

  step-Shrinks :
      (f : FeedState platform)
      → is_going platform device message f ≡ true
      → rank f.st.prev_state ≤ 1
      → Shrinks f (step platform device message f)
  unfolding step
  step-Shrinks f going back =
      on_state-Shrinks f.st.state f
        (record { left = is_going-left f going; back = back; state = refl })

  rank_le_two : (s : ParsingState) → rank s ≤ 2
  rank_le_two s = ground arith

  -- The loop ends by itself: after the rounds its condition does not hold.
  pub rounds-is_going :
      (n : ℕ) (f : FeedState platform)
      → rank f.st.prev_state ≤ 1
      → 4 * (f.st.parser.toknext - f.idx) + 2 < n
      → is_going platform device message
          (rounds (is_going platform device message) (step platform device message) n f)
        ≡ false
  rounds-is_going n f back enough =
      rounds_end (λ g. rank g.st.prev_state ≤ 1) weight (is_going platform device message)
        (step platform device message)
        (λ g going p. let s = step-Shrinks g going p in (s.back, s.less)) n f back
        (omega (arith, rank_le_two f.st.state))

  pub rounds-prev_state :
      (n : ℕ) (f : FeedState platform)
      → rank f.st.prev_state ≤ 1
      → rank
          (rounds
            (is_going platform device message)
            (step platform device message)
            n
            f).st.prev_state
        ≤ 1
  rounds-prev_state =
      rounds_inv (λ g. rank g.st.prev_state ≤ 1) (is_going platform device message)
        (step platform device message) (λ g going p. (step-Shrinks g going p).back)

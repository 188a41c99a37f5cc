-- ===== src/Targets/Feed/Loop.antt =====
-- The loop of a call ends within its rounds.
use uptiny.Base.{◌≤◌, ◌≡◌, false, ℤ, Text, arith, Bool-cases, Option-cases, inl, inr}
use uptiny.State.{UptaneTargets}
use uptiny.Targets.{Platform, Device, TargetsState}
use uptiny.Targets.Step.{FeedState, is_in_error, is_going}
use uptiny.Targets.Step.Measure.{rank, rounds-is_going, rounds-prev_state}
use uptiny.Targets.Feed.{
  uptane_parse_targets_feed, begin_loop, run_loop, after_loop, check_signatures,
}
use uptiny.Targets.Feed.{advance_positions}
use uptiny.Targets.Feed.Contexts.{verify_part-prev_state}

-- An ignored value is in the top object or in "signed", to which the state machine returns. It holds
-- of the zeros that static variables start with, and `uptane_parse_targets_init` keeps it.
abbrev pub IsResumable : {platform : Platform} → TargetsState platform → Type 0
IsResumable st = rank st.prev_state ≤ 1

module _ (platform : Platform) (device : Device) (message : Text) (len : ℤ) where
  begin_loop-IsResumable :
      (out : UptaneTargets) (st : TargetsState platform)
      → IsResumable st
      → IsResumable (begin_loop platform device message len out st).st
  unfolding begin_loop
  begin_loop-IsResumable out st v = v

  check_signatures-IsResumable :
      (f : FeedState platform)
      → IsResumable f.st
      → IsResumable (check_signatures platform device message len f).st
  unfolding check_signatures advance_positions
  check_signatures-IsResumable f v =
      grind (arith, v, verify_part-prev_state platform device message len f.has_signed_begun f.st)

  after_loop-IsResumable :
      (f : FeedState platform)
      → IsResumable f.st
      → IsResumable (after_loop platform device message len f).st
  unfolding after_loop
  after_loop-IsResumable f v = elim (Option-cases f.returned) [
    | inr (r, refused) ↦ rw (refused, after_loop) v
    | inl none_e ↦ elim (Bool-cases (is_in_error f.st.state)) [
      | inl bad ↦ rw (none_e, after_loop, bad) v
      | inr fine ↦ rw (none_e, after_loop, fine) (check_signatures-IsResumable f v)
    ]
  ]

  -- From a resumable state, the loop of a call ends because its condition fails, so that the rounds
  -- given to it are enough, and the state that the call leaves is resumable again.
  pub run_loop-is_going :
      (out : UptaneTargets) (st : TargetsState platform)
      → IsResumable st
      → (is_going platform device message
            (run_loop platform device message len (begin_loop platform device message len out st))
          ≡ false)
        × IsResumable (uptane_parse_targets_feed platform device message len out st).st
  unfolding run_loop uptane_parse_targets_feed
  run_loop-is_going out st v =
      let f = begin_loop platform device message len out st in
      let back = begin_loop-IsResumable out st v in
      let kept = rounds-prev_state platform device message _ f back in
      (
        rounds-is_going platform device message _ f back (omega arith),
        elim (Bool-cases (is_in_error st.state)) [
          | inl bad ↦ rw bad v
          | inr fine ↦ rw fine (after_loop-IsResumable _ kept)
        ],
      )

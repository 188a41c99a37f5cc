-- ===== src/Targets/Feed/Run.antt =====
-- A "signed" object that arrives in several calls of `uptane_parse_targets_feed`.
use uptiny.Base.{◌≡◌, true, false, List, [], ◌∷◌, ◌++◌, ℕ, ℤ, pos, ltb_ℤ, Text}
use uptiny.State.{UptaneTargets}
use uptiny.Targets.{Platform, Device, TargetsState}
use uptiny.Targets.Step.{FeedState}
use uptiny.Targets.Step.Version.{is_refusal}
use uptiny.Targets.Feed.{FeedOutcome, uptane_parse_targets_feed, begin_loop, run_loop, message_part}

-- A message and its length.
abbrev pub Call : Type 0
Call = Text × ℤ

module _ (platform : Platform) (device : Device) where
  abbrev pub looped : Call → UptaneTargets → TargetsState platform → FeedState platform
  looped c out st = run_loop platform device c.0 c.1 (begin_loop platform device c.0 c.1 out st)

  abbrev pub called :
      (c : Call) → UptaneTargets → TargetsState platform → FeedOutcome platform device c.0 c.1
  called c out st = uptane_parse_targets_feed platform device c.0 c.1 out st

  -- The call is not refused, and reads in the same object: its loop begins no other and leaves the
  -- number of signatures.
  pub record IsContinued (c : Call) (out : UptaneTargets) (st : TargetsState platform)
      : Type 0 where
    pub not_begun : (looped c out st).has_signed_begun ≡ false
    pub same_num : (looped c out st).st.num_signatures ≡ st.num_signatures
    pub accepted : is_refusal (called c out st).result ≡ false

  -- Every call continues the object and does not reach its end.
  abbrev pub GoesOn : List Call → UptaneTargets → TargetsState platform → Type 0
  GoesOn [] out st = Unit
  GoesOn (c ∷ cs) out st =
      IsContinued c out st
      × (ltb_ℤ (called c out st).st.end_signed (pos 0) ≡ true)
      × GoesOn cs (called c out st).out (called c out st).st

  abbrev pub run_calls :
      List Call → UptaneTargets → TargetsState platform → UptaneTargets × TargetsState platform
  run_calls [] out st = (out, st)
  run_calls (c ∷ cs) out st = run_calls cs (called c out st).out (called c out st).st

  -- What the messages hold behind the bytes that an earlier call has seen.
  abbrev pub parts : List Call → UptaneTargets → TargetsState platform → List ℕ
  parts [] out st = []
  parts (c ∷ cs) out st =
      message_part c.0 st.tail_length c.1 ++ parts cs (called c out st).out (called c out st).st

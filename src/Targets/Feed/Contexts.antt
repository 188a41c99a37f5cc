-- ===== src/Targets/Feed/Contexts.antt =====
-- What the verification of a call does to the state besides the contexts.
use uptiny.Base.{ℕ, zero, suc, ◌+◌, ◌≡◌, refl, Bool, false, List, ℤ, write, Text, arith}
use uptiny.Targets.{Platform, Device, TargetsState}
use uptiny.Targets.Feed.{verify_part, init_contexts, feed_contexts}
use uptiny.Targets.Feed.{valid_contexts, has_signed_ended}

module _ (platform : Platform) (device : Device) (message : Text) (len : ℤ) where
  -- What the initialisation and the feeding of the contexts leave alone.
  pub record IsSame (st st' : TargetsState platform) : Type 0 where
    pub state : st'.state ≡ st.state
    pub end_signed : st'.end_signed ≡ st.end_signed
    pub prev_state : st'.prev_state ≡ st.prev_state
    pub sigs : st'.sigs ≡ st.sigs
    pub num_signatures : st'.num_signatures ≡ st.num_signatures
    pub begin_signed : st'.begin_signed ≡ st.begin_signed
    pub tail_length : st'.tail_length ≡ st.tail_length
    pub in_signed : st'.in_signed ≡ st.in_signed

  pub init_contexts-IsSame :
      (n i : ℕ) (st : TargetsState platform)
      → IsSame st (init_contexts platform device message len n i st)
  unfolding init_contexts
  init_contexts-IsSame zero i st = record {
    state = refl;
    end_signed = refl;
    prev_state = refl;
    sigs = refl;
    num_signatures = refl;
    begin_signed = refl;
    tail_length = refl;
    in_signed = refl;
  }
  init_contexts-IsSame (suc n) i st =
      let key = device.heap (st.sigs i).key in
      let started = platform.crypto.verify_init (st.contexts i) key (st.sigs i).sig in
      let same =
        init_contexts-IsSame n (i + 1) (record st { contexts = write st.contexts i started }) in
      record {
        state = same.state;
        end_signed = same.end_signed;
        prev_state = same.prev_state;
        sigs = same.sigs;
        num_signatures = same.num_signatures;
        begin_signed = same.begin_signed;
        tail_length = same.tail_length;
        in_signed = same.in_signed;
      }

  pub feed_contexts-IsSame :
      (n i : ℕ) (bytes : List ℕ) (st : TargetsState platform)
      → IsSame st (feed_contexts platform device message len n i bytes st)
  unfolding feed_contexts
  feed_contexts-IsSame zero i bytes st = record {
    state = refl;
    end_signed = refl;
    prev_state = refl;
    sigs = refl;
    num_signatures = refl;
    begin_signed = refl;
    tail_length = refl;
    in_signed = refl;
  }
  feed_contexts-IsSame (suc n) i bytes st =
      let fed = platform.crypto.verify_feed (st.contexts i) bytes in
      let same =
        feed_contexts-IsSame n (i + 1) bytes (record st { contexts = write st.contexts i fed }) in
      record {
        state = same.state;
        end_signed = same.end_signed;
        prev_state = same.prev_state;
        sigs = same.sigs;
        num_signatures = same.num_signatures;
        begin_signed = same.begin_signed;
        tail_length = same.tail_length;
        in_signed = same.in_signed;
      }

  init-state :
      (n i : ℕ) (st : TargetsState platform)
      → (init_contexts platform device message len n i st).state ≡ st.state
  init-state n i st = (init_contexts-IsSame n i st).state

  feed-state :
      (n i : ℕ) (bytes : List ℕ) (st : TargetsState platform)
      → (feed_contexts platform device message len n i bytes st).state ≡ st.state
  feed-state n i bytes st = (feed_contexts-IsSame n i bytes st).state

  init-end_signed :
      (n i : ℕ) (st : TargetsState platform)
      → (init_contexts platform device message len n i st).end_signed ≡ st.end_signed
  init-end_signed n i st = (init_contexts-IsSame n i st).end_signed

  feed-end_signed :
      (n i : ℕ) (bytes : List ℕ) (st : TargetsState platform)
      → (feed_contexts platform device message len n i bytes st).end_signed ≡ st.end_signed
  feed-end_signed n i bytes st = (feed_contexts-IsSame n i bytes st).end_signed

  init-prev_state :
      (n i : ℕ) (st : TargetsState platform)
      → (init_contexts platform device message len n i st).prev_state ≡ st.prev_state
  init-prev_state n i st = (init_contexts-IsSame n i st).prev_state

  feed-prev_state :
      (n i : ℕ) (bytes : List ℕ) (st : TargetsState platform)
      → (feed_contexts platform device message len n i bytes st).prev_state ≡ st.prev_state
  feed-prev_state n i bytes st = (feed_contexts-IsSame n i bytes st).prev_state

  pub verify_part-prev_state :
      (begun : Bool) (st : TargetsState platform)
      → (verify_part platform device message len begun st).prev_state ≡ st.prev_state
  unfolding verify_part
  verify_part-prev_state begun st = grind (arith, init-prev_state, feed-prev_state)

  -- Without an end of "signed", its position is not set; the parsing state is kept.
  pub verify_part-state :
      (begun : Bool) (st : TargetsState platform)
      → (verify_part platform device message len begun st).state ≡ st.state
  unfolding verify_part
  verify_part-state begun st = grind (arith, init-state, feed-state)

  pub verify_part-end_signed :
      (begun : Bool) (st : TargetsState platform)
      → has_signed_ended platform device message len st ≡ false
      → (verify_part platform device message len begun st).end_signed ≡ st.end_signed
  unfolding verify_part
  verify_part-end_signed begun st unended = grind (arith, init-end_signed, feed-end_signed)

  pub valid_contexts-positions :
      (n i tok : ℕ) (tail : ℤ) (st : TargetsState platform)
      → valid_contexts platform device message len n i
          (record st { token_pos = tok; tail_length = tail })
        ≡ valid_contexts platform device message len n i st
  unfolding valid_contexts
  valid_contexts-positions zero i tok tail st = refl
  valid_contexts-positions (suc n) i tok tail st =
      rw (valid_contexts-positions n (i + 1) tok tail st) refl

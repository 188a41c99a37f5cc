-- ===== src/Targets/Step.antt =====
-- libuptiny/targets.c: one round of the loop of `uptane_parse_targets_feed`, by the parsing state.
pub mod Measure
pub mod Version
use uptiny.Base.{
  ℕ, zero, suc, ◌+◌, ◌-◌, Bool, true, false, not, ◌&&◌, ◌||◌, ltb, leb, ◌==◌, if◌then◌else◌, Option,
  none, some, ℤ, pos, negsuc, pos_part, ◌-ℤ◌, ltb_ℤ, Memory, Text, write, rounds,
}
use uptiny.Json.{Token, Input, is_object, is_string, tok_len, tok_text, codes, json_str_equal}
use uptiny.Signatures.{uptane_parse_signatures}
use uptiny.State.{Role, UptaneTargets}
use uptiny.Targets.{Platform, Device, TargetsState, ParsingState, begin, in_top, in_signatures}
use uptiny.Targets.{before_signed, in_signed, in_ignored, in_targets, in_error}
use uptiny.Targets.Target.{TargetResult, error, not_for_me, for_me, wrong_hw_id, parse_target}
use uptiny.Utils.Dec.{dec2int}
use uptiny.Utils.Time.{str2time}

-- `targets_result_t`
pub data FeedResult : Type 0 where
  result_error result_wrong_hw_id result_signatures_failed result_version_failed : FeedResult
  result_in_progress result_end_found result_end_not_found : FeedResult

-- The static state, `idx`, `*out_targets`, `has_signed_begun`, `break_parsing`, and `*result` once
-- the function has returned -1.
pub record FeedState (platform : Platform) : Type 0 where
  pub st : TargetsState platform
  pub idx : ℕ
  pub out : UptaneTargets
  pub has_signed_begun : Bool
  pub break_parsing : Bool
  pub returned : Option FeedResult

abbrev pub is_in_error : ParsingState → Bool
is_in_error in_error = true
is_in_error _ = false

module _ (platform : Platform) (device : Device) (message : Text) where
  abbrev pub input_of : TargetsState platform → Input
  input_of st = record {
    message = message;
    pool = st.pool;
    pool_size = platform.token_pool_size;
    stack = device.stack;
  }

  abbrev pub token : FeedState platform → ℕ → Token
  token f i = f.st.pool i

  abbrev pub in_state : ParsingState → FeedState platform → FeedState platform
  in_state s f = record f { st = record f.st { state = s } }

  abbrev pub consume : ℕ → FeedState platform → FeedState platform
  consume n f = record f { idx = f.idx + n }

  -- `--token_pool[at].size`, and the loop is left.
  unfoldable pub unread_member : ℕ → FeedState platform → FeedState platform
  unread_member at f =
      let tok = token f at in
      let pool = write f.st.pool at (record tok { size = tok.size -ℤ pos 1 }) in
      record f { st = record f.st { pool = pool }; break_parsing = true }

  abbrev pub fail_with : FeedResult → FeedState platform → FeedState platform
  fail_with r f = record (in_state in_error f) { returned = some r }

  -- `idx == parser.toknext - 1`
  abbrev pub is_last : FeedState platform → Bool
  is_last f = (f.idx + 1) == f.st.parser.toknext

  -- The name is consumed, and its value is remembered as ignored.
  unfoldable pub ignore_value : ParsingState → FeedState platform → FeedState platform
  ignore_value s f =
      let st = record f.st {
        prev_state = s;
        state = in_ignored;
        ignored_top_token_pos = f.idx + 1;
      } in
      record f { st = st; idx = f.idx + 1 }

  unfoldable pub on_begin : FeedState platform → FeedState platform
  on_begin f =
      if not (is_object (token f f.idx).type)
      then in_state in_error f
      else consume 1 (in_state in_top f)

  unfoldable pub on_top : FeedState platform → FeedState platform
  on_top f =
      if json_str_equal (input_of f.st) f.idx (codes "signatures")
      then (if is_last f || ltb_ℤ (token f (f.idx + 1)).end (pos 0)
          then unread_member 0 f
          else consume 1 (in_state in_signatures f))
      else if json_str_equal (input_of f.st) f.idx (codes "signed")
      then (if f.st.num_signatures == 0
          then in_state in_error f
          else consume 1 (in_state before_signed f))
      else ignore_value in_top f

  -- The tokens under the ignored one: the rounds left and `idx`.
  pub skip_ignored : ℕ → ℕ → ℤ → Memory Token → ℕ
  skip_ignored zero idx end pool = idx
  skip_ignored (suc n) idx end pool = elim (ltb_ℤ (pool idx).start end) [
    | true ↦ skip_ignored n (idx + 1) end pool
    | false ↦ idx
  ]

  unfoldable pub on_ignored : FeedState platform → FeedState platform
  on_ignored f =
      let top = f.st.ignored_top_token_pos in
      let past = skip_ignored (f.st.parser.toknext - f.idx) f.idx (token f top).end f.st.pool in
      if top == f.idx || ltb_ℤ (token f top).end (pos 0)
      then consume 1 f
      else record (in_state f.st.prev_state f) { idx = past }

  unfoldable pub on_signatures : FeedState platform → FeedState platform
  on_signatures f =
      let (res, idx, sigs) =
        uptane_parse_signatures Role.targets device.heap (input_of f.st) f.idx f.st.sigs
          platform.signature_pool_size device.root in
      let read = record f { st = record f.st { sigs = sigs }; idx = idx } in
      if ltb_ℤ (token f f.idx).end (pos 0)
      then record f { break_parsing = true }
      else if not (ltb_ℤ (pos 0) res)
      then in_state in_error read
      else record read {
        st = record f.st { sigs = sigs; num_signatures = pos_part res; state = in_top };
      }

  unfoldable pub on_before_signed : FeedState platform → FeedState platform
  on_before_signed f =
      let num : ℕ =
        if ltb platform.crypto_ctx_pool_size f.st.num_signatures
        then platform.crypto_ctx_pool_size
        else f.st.num_signatures in
      let st = record f.st {
        signed_top_token_pos = pos f.idx;
        num_signatures = num;
        begin_signed = (token f f.idx).start;
        state = in_signed;
      } in
      if not (is_object (token f f.idx).type)
      then in_state in_error f
      else record f { st = st; idx = f.idx + 1; has_signed_begun = true }

  abbrev pub signed_top : FeedState platform → ℕ
  signed_top f = pos_part f.st.signed_top_token_pos

  abbrev pub targets_top : FeedState platform → ℕ
  targets_top f = pos_part f.st.targets_top_token_pos

  -- `++signed_elems_read`
  abbrev pub count_signed : FeedState platform → FeedState platform
  count_signed f = record f { st = record f.st { signed_elems_read = f.st.signed_elems_read + 1 } }

  -- The values of "_type", "expires" and "version"; the name has been consumed.
  unfoldable pub on_type : FeedState platform → FeedState platform
  on_type f =
      if not (json_str_equal (input_of f.st) f.idx (codes "Targets"))
      then in_state in_error f
      else consume 1 f

  unfoldable pub on_expires : FeedState platform → FeedState platform
  on_expires f = elim (str2time (tok_text (input_of f.st) f.idx) (tok_len (token f f.idx))) [
    | none ↦ in_state in_error f
    | some t ↦ consume 1 (record f { out = record f.out { expires = t } })
  ]

  unfoldable pub on_version : FeedState platform → FeedState platform
  on_version f = elim (dec2int (tok_text (input_of f.st) f.idx) (tok_len (token f f.idx))) [
    | none ↦ in_state in_error f
    | some v ↦
        if ltb_ℤ v device.targets.version
        then fail_with result_version_failed f
        else consume 1 (record f { out = record f.out { version = v } })
  ]

  -- The value of "targets"; the name has been consumed.
  unfoldable pub on_targets_object : FeedState platform → FeedState platform
  on_targets_object f =
      let next : ParsingState = if is_object (token f f.idx).type then in_targets else in_error in
      let st = record f.st { targets_top_token_pos = pos f.idx; state = next } in
      record f { st = st; idx = f.idx + 1 }

  unfoldable pub on_signed : FeedState platform → FeedState platform
  on_signed f =
      if not (ltb_ℤ top.end (pos 0)) && not (ltb_ℤ (pos f.st.signed_elems_read) top.size)
      then in_state in_top f
      else if json_str_equal (input_of f.st) f.idx (codes "_type")
      then if is_last f
        then unread_member (signed_top f) f
        else on_type (count_signed (consume 1 f))
      else if json_str_equal (input_of f.st) f.idx (codes "expires")
      then if is_last f
        then unread_member (signed_top f) f
        else on_expires (count_signed (consume 1 f))
      else if json_str_equal (input_of f.st) f.idx (codes "version")
      then if is_last f
        then unread_member (signed_top f) f
        else on_version (count_signed (consume 1 f))
      else if json_str_equal (input_of f.st) f.idx (codes "targets")
      then if is_last f then unread_member (signed_top f) f else on_targets_object (consume 1 f)
      else count_signed (ignore_value in_signed f)
    where
      top : Token
      top = token f (signed_top f)

  -- A target for this ECU is copied to `*out_targets`, unless there was one before.
  unfoldable pub take_target : UptaneTargets → FeedState platform → FeedState platform
  take_target t f =
      let out = record f.out {
        hashes_num = t.hashes_num;
        name = t.name;
        hashes = t.hashes;
        length = t.length;
      } in
      if f.st.target_found
      then in_state in_error f
      else record f { st = record f.st { target_found = true }; out = out }

  -- What becomes of a parsed target; `idx` goes to the next one.
  unfoldable pub on_target_result : TargetResult → ℕ → FeedState platform → FeedState platform
  on_target_result r idx f = elim r [
    | error ↦ next (in_state in_error f)
    | not_for_me ↦ next f
    | for_me ↦ next (take_target f.st.tmp_target f)
    | wrong_hw_id ↦ fail_with result_wrong_hw_id f
  ]
    where
      next : FeedState platform → FeedState platform
      next g = record g {
        idx = idx;
        st = record g.st { targets_elems_read = g.st.targets_elems_read + 1 };
      }

  -- On an incomplete target the source goes back to before its name; no name is token 0.
  unfoldable pub on_target : FeedState platform → FeedState platform
  on_target f =
      let (r, idx, t) = parse_target platform device (input_of f.st) f.idx f.st.tmp_target in
      let parsed = record f { st = record f.st { tmp_target = t } } in
      if not (is_string (token f f.idx).type)
      then in_state in_error f
      else if ltb (f.idx + 1) f.st.parser.toknext && ltb_ℤ (pos 0) (token f (f.idx + 1)).end
      then on_target_result r idx parsed
      else record (unread_member (targets_top f) f) { idx = f.idx - 1 }

  unfoldable pub on_targets : FeedState platform → FeedState platform
  on_targets f =
      if not (ltb_ℤ top.end (pos 0)) && not (ltb_ℤ (pos f.st.targets_elems_read) top.size)
      then count_signed (in_state in_signed f)
      else on_target f
    where
      top : Token
      top = token f (targets_top f)

  unfoldable pub on_state : ParsingState → FeedState platform → FeedState platform
  on_state begin = on_begin
  on_state in_top = on_top
  on_state in_signatures = on_signatures
  on_state before_signed = on_before_signed
  on_state in_signed = on_signed
  on_state in_ignored = on_ignored
  on_state in_targets = on_targets
  on_state in_error = in_state in_error

  unfoldable pub step : FeedState platform → FeedState platform
  step f = on_state f.st.state f

  -- The condition of the loop.
  unfoldable pub is_going : FeedState platform → Bool
  is_going f = elim f.returned [
    | none ↦ ltb f.idx f.st.parser.toknext && not f.break_parsing && not (is_in_error f.st.state)
    | some r ↦ false
  ]

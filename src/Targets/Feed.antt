-- ===== src/Targets/Feed.antt =====
-- libuptiny/targets.c: `uptane_parse_targets_feed`, around the loop of `Step`.
pub mod Outcome
pub mod Contexts
pub mod Fed
pub mod Signed
pub mod Checked
pub mod Run
pub mod Loop
use uptiny.Base.{
  ℕ, zero, suc, ◌+◌, ◌-◌, ◌*◌, Bool, true, false, not, ◌&&◌, ◌||◌, ltb, ◌==◌, if◌then◌else◌, Option,
  none, some, List, ℤ, pos, negsuc, pos_part, size_t, ◌-ℤ◌, ◌+ℤ◌, ltb_ℤ, Memory, Text, at, cells,
  write, rounds,
}
use uptiny.Crypto.{Key, KeySignature}
use uptiny.Json.{Token, is_object, is_array, is_string}
use uptiny.State.{UptaneTargets}
use uptiny.Targets.{Platform, Device, Parser, TargetsState, ParsingState, in_error}
use uptiny.Targets.Step.{FeedState, FeedResult, result_error, result_signatures_failed}
use uptiny.Targets.Step.{result_in_progress, result_end_found, result_end_not_found}
use uptiny.Targets.Step.{is_in_error, step, is_going}

-- The characters that the loops of `consumed_chars_*` pass: `:`, `,`, `}` and `]`.
abbrev pub is_separator : ℕ → Bool
is_separator c = c == b':' || c == b',' || c == b'}' || c == b']'

-- The rounds left and `res`.
unfoldable pub skip_separators : ℕ → ℕ → Text → ℕ
skip_separators zero res message = res
skip_separators (suc n) res message = elim (is_separator (message (pos res))) [
  | true ↦ skip_separators n (res + 1) message
  | false ↦ res
]

-- For `idx > 0`.
unfoldable pub consumed_chars_newtoken : Memory Token → Text → ℤ → ℕ → ℤ
consumed_chars_newtoken pool message len idx =
    let tok = pool (idx - 1) in
    let end = pos_part tok.end in
    let res : ℕ = if is_string tok.type && message (pos end) == b'"' then end + 1 else end in
    if ltb_ℤ (pos 0) tok.end
    then pos (skip_separators (pos_part len - res) res message)
    else tok.start +ℤ pos 1

unfoldable pub consumed_chars_nonewtoken : ℕ → Text → ℤ → ℤ
consumed_chars_nonewtoken token_pos message len =
    if ltb 0 token_pos then pos (skip_separators (pos_part len) 0 message) else pos 0

-- The loop of `prepare_primary_parser`: the container that is still open. A parent comes before its
-- children, so the rounds suffice.
unfoldable pub open_container : ℕ → ℤ → Memory Token → ℤ
open_container zero i pool = i
open_container (suc n) (negsuc m) pool = negsuc m
open_container (suc n) (pos k) pool =
    elim (not (is_object (pool k).type || is_array (pool k).type)
      || not (ltb_ℤ (pool k).end (pos 0))) [
        | true ↦ open_container n (pool k).parent pool
        | false ↦ pos k
      ]

-- A token without a parent has the parent -1, so that the token before the pool is read.
unfoldable pub prepare_primary_parser : Token → ℕ → Memory Token → Parser
prepare_primary_parser before token_pos pool = record {
  pos = pos 0;
  toknext = token_pos;
  toksuper = super;
}
  where
    last : Token
    last = pool (token_pos - 1)

    parent : Token
    parent = if ltb_ℤ last.parent (pos 0) then before else pool (pos_part last.parent)

    super : ℤ
    super =
        if token_pos == 0
        then negsuc 0
        else if is_string last.type && is_object parent.type
        then pos (token_pos - 1)
        else open_container token_pos (pos (token_pos - 1)) pool

-- `message + first`, `last - first` bytes of it.
abbrev pub message_part : Text → ℤ → ℤ → List ℕ
message_part message first last = cells (at message first) (size_t (last -ℤ first))

module _ (platform : Platform) (device : Device) (message : Text) (len : ℤ) where
  -- The rounds of the loop: at most three that consume nothing follow one another.
  abbrev pub loop_fuel : FeedState platform → ℕ
  loop_fuel f = 4 * (f.st.parser.toknext - f.idx) + 4

  unfoldable pub run_loop : FeedState platform → FeedState platform
  run_loop f =
      rounds (is_going platform device message) (step platform device message) (loop_fuel f) f

  -- `crypto_verify_init` of the first `n` contexts, from `i` on.
  unfoldable pub init_contexts : ℕ → ℕ → TargetsState platform → TargetsState platform
  init_contexts zero i st = st
  init_contexts (suc n) i st =
      let key = device.heap (st.sigs i).key in
      let started = platform.crypto.verify_init (st.contexts i) key (st.sigs i).sig in
      init_contexts n (i + 1) (record st { contexts = write st.contexts i started })

  unfoldable pub feed_contexts : ℕ → ℕ → List ℕ → TargetsState platform → TargetsState platform
  feed_contexts zero i bytes st = st
  feed_contexts (suc n) i bytes st =
      let fed = platform.crypto.verify_feed (st.contexts i) bytes in
      feed_contexts n (i + 1) bytes (record st { contexts = write st.contexts i fed })

  -- `num_valid_signatures`
  unfoldable pub valid_contexts : ℕ → ℕ → TargetsState platform → ℕ
  valid_contexts zero i st = 0
  valid_contexts (suc n) i st =
      (if platform.crypto.verify_result (st.contexts i) then 1 else 0) + valid_contexts n (i + 1) st

  -- `has_signed_ended`: the end of "signed" has been read in this call.
  unfoldable pub has_signed_ended : TargetsState platform → Bool
  has_signed_ended st =
      not (ltb_ℤ st.signed_top_token_pos (pos 0))
      && ltb_ℤ st.end_signed (pos 0)
      && not (ltb_ℤ (st.pool (pos_part st.signed_top_token_pos)).end (pos 0))

  -- `end_signed`, the initialisation of the contexts, and the bytes fed to them.
  unfoldable pub verify_part : Bool → TargetsState platform → TargetsState platform
  verify_part begun st =
      let ended = has_signed_ended st in
      let end = (st.pool (pos_part st.signed_top_token_pos)).end in
      let marked = if ended then record st { end_signed = end } else st in
      let started =
        if begun
        then record (init_contexts marked.num_signatures 0 marked) { in_signed = true }
        else marked in
      let first = if begun then st.begin_signed else st.tail_length in
      let last = if ended then marked.end_signed else len in
      let bytes = message_part message first last in
      let fed =
        if started.in_signed
        then feed_contexts started.num_signatures 0 bytes started
        else started in
      if ended then record fed { in_signed = false } else fed

  -- The result of a call that is not refused.
  unfoldable pub final_result : ℕ → TargetsState platform → FeedResult
  final_result idx st =
      if ltb 0 idx && not (ltb_ℤ (st.pool 0).end (pos 0))
      then if st.target_found then result_end_found else result_end_not_found
      else result_in_progress

  -- The number of characters consumed, and the positions for the next call.
  unfoldable pub advance_positions : ℕ → TargetsState platform → ℤ × TargetsState platform
  advance_positions idx st =
      let new = consumed_chars_newtoken st.pool message len idx in
      let old = consumed_chars_nonewtoken st.token_pos message len in
      if ltb st.token_pos idx
      then (new, record st { token_pos = idx; tail_length = len -ℤ new })
      else (old, record st { tail_length = len -ℤ old })

  -- What a call returns, `*result`, `*out_targets` and the static state.
  pub record FeedOutcome : Type 0 where
    pub returns : ℤ
    pub result : FeedResult
    pub out : UptaneTargets
    pub st : TargetsState platform

  abbrev pub refuse : FeedResult → UptaneTargets → TargetsState platform → FeedOutcome
  refuse r out st = record {
    returns = negsuc 0;
    result = r;
    out = out;
    st = record st { state = in_error };
  }

  -- After the loop, where the state is no error.
  unfoldable pub check_signatures : FeedState platform → FeedOutcome
  check_signatures f =
      let st = verify_part f.has_signed_begun f.st in
      let (consumed, st') = advance_positions f.idx st in
      if has_signed_ended f.st
        && ltb_ℤ (pos (valid_contexts st.num_signatures 0 st)) device.root.targets_threshold
      then refuse result_signatures_failed f.out st
      else record { returns = consumed; result = final_result f.idx st; out = f.out; st = st' }

  unfoldable pub after_loop : FeedState platform → FeedOutcome
  after_loop f = elim f.returned [
    | some r ↦ refuse r f.out f.st
    | none ↦ elim (is_in_error f.st.state) [
      | true ↦ refuse result_error f.out f.st
      | false ↦ check_signatures f
    ]
  ]

  -- Up to the loop: the parser is prepared and the message tokenized.
  unfoldable pub begin_loop : UptaneTargets → TargetsState platform → FeedState platform
  begin_loop out st =
      let parser = prepare_primary_parser device.before_pool st.token_pos st.pool in
      let (parser', pool) = platform.jsmn_parse parser message len st.pool in
      record {
        st = record st { parser = parser'; pool = pool };
        idx = st.token_pos;
        out = out;
        has_signed_begun = false;
        break_parsing = false;
        returned = none;
      }

  unfoldable pub uptane_parse_targets_feed : UptaneTargets → TargetsState platform → FeedOutcome
  uptane_parse_targets_feed out st =
      if is_in_error st.state
      then record { returns = negsuc 0; result = result_error; out = out; st = st }
      else after_loop (run_loop (begin_loop out st))

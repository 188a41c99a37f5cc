-- ===== src/Tests/Signed.antt =====
-- A "signed" object that arrives in three calls.
use uptiny.Base.{false, [], ◌∷◌, pos, negsuc, write, if◌then◌else◌, ◌==◌}
use uptiny.Json.{Token, object}
use uptiny.State.{UptaneTargets}
use uptiny.Targets.{Platform, TargetsState, before_signed, in_top}
use uptiny.Targets.Feed.{FeedOutcome}
use uptiny.Targets.Feed.Run.{Call, called, run_calls}
use uptiny.Tests.Metadata.{toy_crypto, key, text_of, no_token, zeros}
use uptiny.Tests.Targets.{device, no_targets}
use uptiny.Crypto.{KeySignature, sha512}

-- Tokens 0 and 2 are the top object and the object "signed", which are open.
abbrev open_object : Token
open_object = record no_token { type = object; start = pos 0 }

-- A brace opens the object "signed", a brace behind another character closes it, and no other text
-- makes a token.
abbrev brace_platform : Platform
brace_platform = record {
  crypto = toy_crypto;
  jsmn_parse = λ p message len pool. (
    record { pos = len; toknext = 3; toksuper = pos 2 },
    if message (pos 0) == b'{'
        then write pool 2 open_object
        else if message (pos 1) == b'}'
        then write pool 2 (record open_object { end = pos 2 })
        else pool,
  );
  str_to_hashtype = λ s len. sha512;
  get_hashlen = λ alg. 2;
  token_pool_size = 64;
  signature_pool_size = 4;
  crypto_ctx_pool_size = 4;
}

-- A signature of the key, which begins with the first byte of its value.
abbrev good_signature : KeySignature
good_signature = record { key = 0; sig = λ j. 7 }

-- The signature was read, and the value of "signed" is awaited.
abbrev before : TargetsState brace_platform
before = record {
  parser = record { pos = pos 0; toknext = 2; toksuper = pos 2 };
  token_pos = 2;
  ignored_top_token_pos = 0;
  signed_top_token_pos = negsuc 0;
  targets_top_token_pos = negsuc 0;
  state = before_signed;
  prev_state = in_top;
  target_found = false;
  signed_elems_read = 0;
  targets_elems_read = 0;
  num_signatures = 1;
  begin_signed = negsuc 0;
  end_signed = negsuc 0;
  in_signed = false;
  tail_length = pos 0;
  tmp_target = no_targets;
  pool = λ j. open_object;
  sigs = λ j. good_signature;
  contexts = λ j. (key, zeros, []);
}

abbrev brace_open : Call
brace_open = (text_of (b'{' ∷ []), pos 1)

-- A space, which is not consumed, and then the space with the brace.
abbrev space : Call
space = (text_of (b' ' ∷ []), pos 1)

abbrev brace : Call
brace = (text_of (b' ' ∷ b'}' ∷ []), pos 2)

abbrev begun : FeedOutcome brace_platform device brace_open.0 brace_open.1
begun = called brace_platform device brace_open no_targets before

abbrev behind : UptaneTargets × TargetsState brace_platform
behind = run_calls brace_platform device (space ∷ []) begun.out begun.st

-- ===== src/Targets.antt =====
-- libuptiny/targets.c: the verification of targets metadata that arrives in pieces. This file has
-- the state; `Target` parses one target, `Step` is the state machine, and `Feed` one call.
pub mod Target
pub mod Step
pub mod Feed
use uptiny.Base.{ℕ, Bool, true, false, List, ℤ, pos, negsuc, Memory, Buffer, Text}
use uptiny.Crypto.{CryptoApi, HashAlgorithm, Key, KeySignature}
use uptiny.Json.{Token}
use uptiny.State.{UptaneRoot, UptaneTargets}

-- `jsmn_parser`
pub record Parser : Type 0 where
  pub pos : ℤ
  pub toknext : ℕ
  pub toksuper : ℤ

-- What the file calls outside this directory, and the sizes of the pools. `jsmn_parse` is the jsmn
-- library's: it takes the parser, the message, its length and the tokens; the file ignores the
-- value that it returns.
pub record Platform : Type 1 where
  pub crypto : CryptoApi
  pub jsmn_parse : Parser → Text → ℤ → Memory Token → Parser × Memory Token
  pub str_to_hashtype : Buffer → ℤ → HashAlgorithm
  pub get_hashlen : HashAlgorithm → ℕ
  pub token_pool_size : ℕ
  pub signature_pool_size : ℕ
  pub crypto_ctx_pool_size : ℕ

-- What the functions of state_api.h return, the memory of the keys, and what uninitialised locals
-- hold and what stands before the token pool. None of it changes during a call.
pub record Device : Type 0 where
  pub root : UptaneRoot
  pub targets : UptaneTargets
  pub ecuid : List ℕ
  pub hwid : List ℕ
  pub heap : Memory Key
  pub stack : Buffer
  pub before_pool : Token

-- `parsing_state_t`
pub data ParsingState : Type 0 where
  begin in_top in_signatures before_signed in_signed in_ignored in_targets in_error : ParsingState

-- The static variables, and the pools. `tmp_target` is the static one of the feed function.
pub record TargetsState (platform : Platform) : Type 0 where
  pub parser : Parser
  pub token_pos : ℕ
  pub ignored_top_token_pos : ℕ
  pub signed_top_token_pos : ℤ
  pub targets_top_token_pos : ℤ
  pub state : ParsingState
  pub prev_state : ParsingState
  pub target_found : Bool
  pub signed_elems_read : ℕ
  pub targets_elems_read : ℕ
  pub num_signatures : ℕ
  pub begin_signed : ℤ
  pub end_signed : ℤ
  pub in_signed : Bool
  pub tail_length : ℤ
  pub tmp_target : UptaneTargets
  pub pool : Memory Token
  pub sigs : Memory KeySignature
  pub contexts : Memory (platform.crypto.Context)

-- `uptane_parse_targets_init`, with `jsmn_init`'s values for the parser. `prev_state`, the static
-- target and the pools stay as they are.
unfoldable pub uptane_parse_targets_init :
    (platform : Platform) → TargetsState platform → TargetsState platform
uptane_parse_targets_init platform st = record st {
  parser = record { pos = pos 0; toknext = 0; toksuper = negsuc 0 };
  token_pos = 0;
  ignored_top_token_pos = 0;
  signed_top_token_pos = negsuc 0;
  targets_top_token_pos = negsuc 0;
  target_found = false;
  signed_elems_read = 0;
  targets_elems_read = 0;
  num_signatures = 0;
  state = begin;
  begin_signed = negsuc 0;
  end_signed = negsuc 0;
  in_signed = false;
  tail_length = pos 0;
}

-- ===== src/Kea/Uds.antt =====
-- machine/kea128/app/uds.c: the responses to diagnostic requests.
use Prim.Native.Nat.{bit_or}
use uptiny.Base.{
  ℕ, ◌+◌, ◌*◌, ◌/◌, ◌%◌, List, [], ◌∷◌, Option, none, some, length, ltb, if◌then◌else◌,
}

-- UDS_MAX_BLOCK, HW_ID_DID, ECU_SERIAL_DID
abbrev pub uds_max_block : ℕ
uds_max_block = 64

abbrev pub hw_id_did : ℕ
hw_id_did = 0x0001

abbrev pub ecu_serial_did : ℕ
ecu_serial_did = 0x0002

-- What is handed to `isotp_dispatch_send`: the bytes of the payload that are sent, and the address.
pub record Response : Type 0 where
  pub af : ℕ
  pub payload : List ℕ

-- `can_id` is CAN_ID, and `max_message` OUR_MAX_ISO_TP_MESSAGE_SIZE.
module _ (can_id max_message : ℕ) where
  abbrev pub respond : ℕ → List ℕ → Response
  respond sa payload = record { af = bit_or (can_id * 32) sa; payload = payload }

  abbrev pub send_uds_error : ℕ → ℕ → ℕ → Response
  send_uds_error sa sid nrc = respond sa (0x7F ∷ sid ∷ nrc ∷ [])

  abbrev pub send_uds_positive_routinecontrol : ℕ → ℕ → ℕ → Response
  send_uds_positive_routinecontrol sa op id =
      respond sa (0x71 ∷ op ∷ id / 256 % 256 ∷ id % 256 ∷ [])

  abbrev pub send_uds_positive_sessioncontrol : ℕ → ℕ → Response
  send_uds_positive_sessioncontrol sa type =
      respond sa (0x50 ∷ type ∷ 0xFF ∷ 0xFF ∷ 0xFF ∷ 0xFF ∷ [])

  abbrev pub send_uds_positive_ecureset : ℕ → ℕ → Response
  send_uds_positive_ecureset sa rtype = respond sa (0x51 ∷ rtype ∷ 0x00 ∷ [])

  abbrev pub send_uds_positive_reqdownload : ℕ → ℕ → Response
  send_uds_positive_reqdownload sa maxblock =
      respond sa (0x74 ∷ 0x20 ∷ maxblock / 256 % 256 ∷ maxblock % 256 ∷ [])

  abbrev pub send_uds_positive_transferdata : ℕ → ℕ → Response
  send_uds_positive_transferdata sa seqn = respond sa (0x76 ∷ seqn ∷ [])

  abbrev pub send_uds_positive_transferexit : ℕ → Response
  send_uds_positive_transferexit sa = respond sa (0x77 ∷ [])

  -- Nothing is sent where the data does not fit.
  abbrev pub send_uds_positive_readdata : ℕ → ℕ → List ℕ → Option Response
  send_uds_positive_readdata sa did data' =
      if ltb max_message (length data' + 3)
      then none
      else some (respond sa (0x62 ∷ did / 256 % 256 ∷ did % 256 ∷ data'))

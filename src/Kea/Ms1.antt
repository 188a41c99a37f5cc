-- ===== src/Kea/Ms1.antt =====
-- machine/kea128/app/ms1.c: the handler of diagnostic requests, one function for each service, and
-- the end of a programming session.
pub mod Service
pub mod Sound
pub mod Answers
pub mod KeepsFlash
pub mod Download
pub mod Erasing
pub mod Numbers
pub mod Taken
pub mod BootLoader
use Prim.Native.Nat.{bit_and}
use uptiny.Base.{
  ℕ, zero, suc, ◌+◌, ◌-◌, ◌*◌, ◌/◌, ◌%◌, ◌^◌, Bool, true, false, not, ◌&&◌, ◌||◌, leb, ltb, ◌==◌,
  if◌then◌else◌, List, Option, none, some, Buffer, advance,
}
use uptiny.Kea.Flash.{FlashController}
use uptiny.Kea.FlashLoad.{
  LoaderState, flash_load_erase, flash_load_prepare, flash_load_continue, flash_load_finalize,
}
use uptiny.Kea.Uds.{
  Response, uds_max_block, hw_id_did, ecu_serial_did, send_uds_error,
  send_uds_positive_routinecontrol, send_uds_positive_sessioncontrol, send_uds_positive_ecureset,
  send_uds_positive_reqdownload, send_uds_positive_transferdata, send_uds_positive_transferexit,
  send_uds_positive_readdata,
}

-- PROGRAM_FLASH_BEGIN, PROGRAM_FLASH_END
abbrev pub program_flash_begin : ℕ
program_flash_begin = 0x08000

abbrev pub program_flash_end : ℕ
program_flash_end = 0x20000

-- A received message, as the ISO-TP library gives it.
pub record IsoTpMessage : Type 0 where
  pub arbitration_id : ℕ
  pub payload : Buffer
  pub size : ℕ

-- The variables of ms1.c, with the flash loader. `flash_load_curaddr` and its like are variables of
-- ms1.c too, beside those of flash_load.c that have the same names.
pub record UdsState (flash : FlashController) : Type 0 where
  pub loader : LoaderState flash
  pub flash_load_startaddr : ℕ
  pub flash_load_curaddr : ℕ
  pub flash_load_size : ℕ
  pub uds_in_download : Bool
  pub uds_in_programming : Bool
  pub session_ts : ℕ

-- What a request leads to: the state, what is sent, and whether the device is reset.
pub record Outcome (flash : FlashController) : Type 0 where
  pub state : UdsState flash
  pub response : Option Response
  pub is_reset : Bool

-- The parameters are the controller, what uninitialised locals hold, CAN_ID,
-- OUR_MAX_ISO_TP_MESSAGE_SIZE, UPTANE_HARDWARE_ID and UPTANE_ECU_SERIAL.
pub record Board : Type 1 where
  pub flash : FlashController
  pub stack : Buffer
  pub can_id : ℕ
  pub max_message : ℕ
  pub uptane_hardware_id : List ℕ
  pub uptane_ecu_serial : List ℕ

-- Bytes, the most significant first.
abbrev pub make_32 : ℕ → ℕ → ℕ → ℕ → ℕ
make_32 hh hl lh ll = hh * 2 ^ 24 + hl * 2 ^ 16 + lh * 2 ^ 8 + ll

-- `n` more bytes are read into a uint32_t.
pub read_be : ℕ → Buffer → ℕ → ℕ
read_be zero p acc = acc
read_be (suc n) p acc = read_be n (advance p 1) (acc * 256 % 2 ^ 32 + p 0)

-- The range is not that of programs.
abbrev pub is_out_of_range : ℕ → ℕ → Bool
is_out_of_range flash_addr flash_size =
    ltb flash_addr program_flash_begin
    || leb program_flash_end ((flash_addr + flash_size) % 2 ^ 32)
    || ltb ((flash_addr + flash_size) % 2 ^ 32) flash_addr

module _ (board : Board) where
  abbrev pub answer : UdsState board.flash → Response → Outcome board.flash
  answer st r = record { state = st; response = some r; is_reset = false }

  abbrev pub deny : UdsState board.flash → ℕ → ℕ → ℕ → Outcome board.flash
  deny st ta sid nrc = answer st (send_uds_error board.can_id board.max_message ta sid nrc)

  -- 0x10
  pub diagnostic_session_control : ℕ → ℕ → IsoTpMessage → UdsState board.flash → Outcome board.flash
  diagnostic_session_control now ta message st =
      let session = message.payload 1 in
      let r = send_uds_positive_sessioncontrol board.can_id board.max_message ta session in
      if ltb message.size 2
      then deny st ta 0x10 0x13
      else if session == 0x01
      then answer (record st { uds_in_programming = false }) r
      else if session == 0x02
      then answer (record st { uds_in_programming = true; session_ts = now }) r
      else deny st ta 0x10 0x12

  -- 0x31
  unfoldable pub routine_control : ℕ → ℕ → IsoTpMessage → UdsState board.flash → Outcome board.flash
  routine_control now ta message st =
      let p = message.payload in
      let st' = record st { session_ts = now } in
      let flash_addr = make_32 (p 4) (p 5) (p 6) (p 7) in
      let flash_size = make_32 (p 8) (p 9) (p 10) (p 11) in
      let (res, loader) =
        flash_load_erase board.flash board.stack flash_addr flash_size st.loader in
      let st'' = record st' { loader = loader } in
      if not st.uds_in_programming
      then deny st ta 0x31 0x22
      else if ltb message.size 4
      then deny st' ta 0x31 0x13
      else if not (p 1 == 0x01)
      then deny st' ta 0x31 0x12
      else if not (p 2 == 0xff) && not (p 3 == 0x00)
      then deny st' ta 0x31 0x12
      else if not (message.size == 12)
      then deny st' ta 0x31 0x13
      else if is_out_of_range flash_addr flash_size
      then deny st' ta 0x31 0x31
      else if res
      then deny st'' ta 0x31 0x10
      else answer st'' (
          send_uds_positive_routinecontrol board.can_id board.max_message ta (p 1)
            (p 2 * 256 + p 3))

  -- 0x11
  pub ecu_reset : ℕ → IsoTpMessage → UdsState board.flash → Outcome board.flash
  ecu_reset ta message st =
      let r = send_uds_positive_ecureset board.can_id board.max_message ta (message.payload 1) in
      if ltb message.size 2
      then deny st ta 0x11 0x13
      else if not (message.payload 1 == 0x01)
      then deny st ta 0x11 0x12
      else record { state = st; response = some r; is_reset = true }

  -- 0x34
  pub request_download : ℕ → ℕ → IsoTpMessage → UdsState board.flash → Outcome board.flash
  request_download now ta message st =
      let p = message.payload in
      let st' = record st { session_ts = now } in
      let addr_len = p 2 % 16 in
      let size_len = p 2 / 16 % 16 in
      let flash_addr = read_be addr_len (advance p 3) 0 in
      let flash_size = read_be size_len (advance p (addr_len + 3)) 0 in
      let st'' = record st' {
        loader = flash_load_prepare board.flash board.stack flash_addr flash_size st.loader;
        uds_in_download = true;
        flash_load_startaddr = flash_addr;
        flash_load_curaddr = flash_addr;
        flash_load_size = flash_size;
      } in
      if not st.uds_in_programming
      then deny st ta 0x34 0x70
      else if ltb message.size 3
      then deny st' ta 0x34 0x13
      else if not (p 1 == 0x00)
      then deny st' ta 0x34 0x31
      else if addr_len == 0 || ltb 4 addr_len || size_len == 0 || ltb 4 size_len
      then deny st' ta 0x34 0x31
      else if ltb message.size (3 + addr_len + size_len)
      then deny st' ta 0x34 0x13
      else if is_out_of_range flash_addr flash_size
      then deny st' ta 0x34 0x31
      else answer st''
          (send_uds_positive_reqdownload board.can_id board.max_message ta uds_max_block)

  -- 0x36. `uds_seq_number` is a local that is 0 at the beginning of each message.
  pub transfer_data : ℕ → ℕ → IsoTpMessage → UdsState board.flash → Outcome board.flash
  transfer_data now ta message st =
      let p = message.payload in
      let st' = record st { session_ts = now } in
      let uds_seq_number : ℕ = 0 in
      let len = message.size - 2 in
      let (ok, loader) = flash_load_continue board.flash board.stack (advance p 2) len st.loader in
      let r = send_uds_positive_transferdata board.can_id board.max_message ta (p 1) in
      if not st.uds_in_download
      then deny st' ta 0x36 0x24
      else if ltb message.size 2
      then deny st' ta 0x36 0x13
      else if p 1 == uds_seq_number
      then answer st' r
      else if not (p 1 == (uds_seq_number + 1) % 256)
      then deny st' ta 0x36 0x24
      else if ltb ((st.flash_load_startaddr + st.flash_load_size) % 2 ^ 32)
          ((st.flash_load_curaddr + message.size - 2) % 2 ^ 32)
      then deny st' ta 0x36 0x31
      else answer (record st' { loader = loader }) r

  -- 0x37
  pub request_transfer_exit : ℕ → ℕ → UdsState board.flash → Outcome board.flash
  request_transfer_exit now ta st =
      let st' = record st { session_ts = now } in
      let (ok, loader) = flash_load_finalize board.flash board.stack st.loader in
      if not st.uds_in_download
      then deny st' ta 0x37 0x24
      else answer (record st' { loader = loader; uds_in_download = false })
          (send_uds_positive_transferexit board.can_id board.max_message ta)

  -- 0x22
  pub read_data_by_identifier : ℕ → IsoTpMessage → UdsState board.flash → Outcome board.flash
  read_data_by_identifier ta message st =
      let did = message.payload 1 * 256 + message.payload 2 in
      let data_of = λ (bytes : List ℕ).
        send_uds_positive_readdata board.can_id board.max_message ta did bytes in
      if ltb message.size 3
      then deny st ta 0x22 0x13
      else if ltb 3 message.size
      then deny st ta 0x22 0x14
      else if did == hw_id_did
      then record { state = st; response = data_of board.uptane_hardware_id; is_reset = false }
      else if did == ecu_serial_did
      then record { state = st; response = data_of board.uptane_ecu_serial; is_reset = false }
      else deny st ta 0x22 0x31

  -- `now` is the system time.
  pub message_received : ℕ → IsoTpMessage → UdsState board.flash → Outcome board.flash
  message_received now message st =
      let ta = message.arbitration_id / 32 % 32 in
      let sid = message.payload 0 in
      if sid == 0x10
      then diagnostic_session_control now ta message st
      else if sid == 0x31
      then routine_control now ta message st
      else if sid == 0x11
      then ecu_reset ta message st
      else if sid == 0x34
      then request_download now ta message st
      else if sid == 0x36
      then transfer_data now ta message st
      else if sid == 0x37
      then request_transfer_exit now ta st
      else if sid == 0x22
      then read_data_by_identifier ta message st
      else deny st ta sid 0x11

  -- The check of the main loop.
  pub session_timeout : ℕ → UdsState board.flash → UdsState board.flash
  session_timeout now st =
      if st.uds_in_programming && ltb 60000 ((now + 2 ^ 32 - st.session_ts) % 2 ^ 32)
      then record st { uds_in_download = false; uds_in_programming = false }
      else st

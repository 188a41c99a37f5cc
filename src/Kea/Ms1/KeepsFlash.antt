-- ===== src/Kea/Ms1/KeepsFlash.antt =====
-- The requests that do not touch the flash memory.
use uptiny.Base.{ℕ, ◌≡◌, refl, Bool, false, not, ◌&&◌, ◌||◌, ◌==◌, arith}
use uptiny.Kea.FlashLoad.{flash_load_prepare}
use uptiny.Kea.Ms1.{
  IsoTpMessage, UdsState, Board, make_32, is_out_of_range, message_received,
  diagnostic_session_control, routine_control, ecu_reset, request_download, transfer_data,
  request_transfer_exit, read_data_by_identifier,
}
use uptiny.Kea.Ms1.Service.{sender, by_service}

module _ (board : Board) where
  -- The request is one that writes flash memory: the erase routine in a programming session with a
  -- range of programs, or data or the exit of a download in progress.
  abbrev pub writes_flash : IsoTpMessage → UdsState board.flash → Bool
  writes_flash message st =
      let p = message.payload in
      p 0 == 0x31
        && st.uds_in_programming
        && not
            (is_out_of_range (make_32 (p 4) (p 5) (p 6) (p 7)) (make_32 (p 8) (p 9) (p 10) (p 11)))
      || st.uds_in_download && (p 0 == 0x36 || p 0 == 0x37)

  diagnostic_session_control-keeps_flash :
      (now ta : ℕ) (message : IsoTpMessage) (st : UdsState board.flash)
      → (diagnostic_session_control board now ta message st).state.loader.hw ≡ st.loader.hw
  unfolding diagnostic_session_control
  diagnostic_session_control-keeps_flash now ta message st = grind arith

  routine_control-keeps_flash :
      (now ta : ℕ) (message : IsoTpMessage) (st : UdsState board.flash)
      → st.uds_in_programming
          && not (
              is_out_of_range
                (make_32
                  (message.payload 4)
                  (message.payload 5)
                  (message.payload 6)
                  (message.payload 7))
                (make_32
                  (message.payload 8)
                  (message.payload 9)
                  (message.payload 10)
                  (message.payload 11)))
        ≡ false
      → (routine_control board now ta message st).state.loader.hw ≡ st.loader.hw
  unfolding routine_control
  routine_control-keeps_flash now ta message st h = grind arith

  ecu_reset-keeps_flash :
      (ta : ℕ) (message : IsoTpMessage) (st : UdsState board.flash)
      → (ecu_reset board ta message st).state.loader.hw ≡ st.loader.hw
  unfolding ecu_reset
  ecu_reset-keeps_flash ta message st = grind arith

  request_download-keeps_flash :
      (now ta : ℕ) (message : IsoTpMessage) (st : UdsState board.flash)
      → (request_download board now ta message st).state.loader.hw ≡ st.loader.hw
  unfolding request_download flash_load_prepare
  request_download-keeps_flash now ta message st = grind arith

  transfer_data-keeps_flash :
      (now ta : ℕ) (message : IsoTpMessage) (st : UdsState board.flash)
      → st.uds_in_download ≡ false
      → (transfer_data board now ta message st).state.loader.hw ≡ st.loader.hw
  unfolding transfer_data
  transfer_data-keeps_flash now ta message st h = grind arith

  request_transfer_exit-keeps_flash :
      (now ta : ℕ) (st : UdsState board.flash)
      → st.uds_in_download ≡ false
      → (request_transfer_exit board now ta st).state.loader.hw ≡ st.loader.hw
  unfolding request_transfer_exit
  request_transfer_exit-keeps_flash now ta st h = grind arith

  read_data_by_identifier-keeps_flash :
      (ta : ℕ) (message : IsoTpMessage) (st : UdsState board.flash)
      → (read_data_by_identifier board ta message st).state.loader.hw ≡ st.loader.hw
  unfolding read_data_by_identifier
  read_data_by_identifier-keeps_flash ta message st = grind arith

  -- No other request touches the flash memory.
  pub message_received-keeps_flash :
      (now : ℕ) (message : IsoTpMessage) (st : UdsState board.flash)
      → writes_flash message st ≡ false
      → (message_received board now message st).state.loader.hw ≡ st.loader.hw
  message_received-keeps_flash now message st h =
      by_service board (λ o. o.state.loader.hw ≡ st.loader.hw) now message st
        (λ e. diagnostic_session_control-keeps_flash now (sender message) message st)
        (λ e. routine_control-keeps_flash now (sender message) message st (grind arith))
        (λ e. ecu_reset-keeps_flash (sender message) message st)
        (λ e. request_download-keeps_flash now (sender message) message st)
        (λ e. transfer_data-keeps_flash now (sender message) message st (grind arith))
        (λ e. request_transfer_exit-keeps_flash now (sender message) st (grind arith))
        (λ e. read_data_by_identifier-keeps_flash (sender message) message st) refl

-- ===== src/Kea/Ms1/Answers.antt =====
-- How a request is answered.
use uptiny.Base.{
  ℕ, ◌+◌, ◌≤◌, ◌≡◌, Bool, true, false, ◌&&◌, ◌||◌, ◌==◌, List, [], ◌∷◌, length, Option, none, some,
  arith,
}
use uptiny.Kea.Uds.{Response}
use uptiny.Kea.Ms1.{
  IsoTpMessage, UdsState, Board, message_received, diagnostic_session_control, routine_control,
  ecu_reset, request_download, transfer_data, request_transfer_exit, read_data_by_identifier,
}
use uptiny.Kea.Ms1.Service.{sender, by_service}

-- The first byte of a response to a request with that first byte: SID + 0x40, or 0x7F with the SID
-- behind it.
abbrev pub is_answer : ℕ → List ℕ → Bool
is_answer sid [] = false
is_answer sid (b ∷ []) = b == sid + 0x40
is_answer sid (b ∷ c ∷ rest) = b == sid + 0x40 || b == 0x7F && c == sid

abbrev pub answers : ℕ → Option Response → Bool
answers sid none = false
answers sid (some r) = is_answer sid r.payload

module _ (board : Board) where
  -- Each service answers.
  diagnostic_session_control-answers :
      (now ta : ℕ) (message : IsoTpMessage) (st : UdsState board.flash)
      → answers 0x10 (diagnostic_session_control board now ta message st).response ≡ true
  unfolding diagnostic_session_control
  diagnostic_session_control-answers now ta message st = grind arith

  routine_control-answers :
      (now ta : ℕ) (message : IsoTpMessage) (st : UdsState board.flash)
      → answers 0x31 (routine_control board now ta message st).response ≡ true
  unfolding routine_control
  routine_control-answers now ta message st = grind arith

  ecu_reset-answers :
      (ta : ℕ) (message : IsoTpMessage) (st : UdsState board.flash)
      → answers 0x11 (ecu_reset board ta message st).response ≡ true
  unfolding ecu_reset
  ecu_reset-answers ta message st = grind arith

  request_download-answers :
      (now ta : ℕ) (message : IsoTpMessage) (st : UdsState board.flash)
      → answers 0x34 (request_download board now ta message st).response ≡ true
  unfolding request_download
  request_download-answers now ta message st = grind arith

  transfer_data-answers :
      (now ta : ℕ) (message : IsoTpMessage) (st : UdsState board.flash)
      → answers 0x36 (transfer_data board now ta message st).response ≡ true
  unfolding transfer_data
  transfer_data-answers now ta message st = grind arith

  request_transfer_exit-answers :
      (now ta : ℕ) (st : UdsState board.flash)
      → answers 0x37 (request_transfer_exit board now ta st).response ≡ true
  unfolding request_transfer_exit
  request_transfer_exit-answers now ta st = grind arith

  read_data_by_identifier-answers :
      (ta : ℕ) (message : IsoTpMessage) (st : UdsState board.flash)
      → length board.uptane_hardware_id + 3 ≤ board.max_message
      → length board.uptane_ecu_serial + 3 ≤ board.max_message
      → answers 0x22 (read_data_by_identifier board ta message st).response ≡ true
  unfolding read_data_by_identifier
  read_data_by_identifier-answers ta message st fits fits_too = grind arith

  -- Every request is answered, where the two texts of the board fit a message: the response begins
  -- with the service plus 0x40, or with 0x7F and the service.
  pub message_received-answers :
      (now : ℕ) (message : IsoTpMessage) (st : UdsState board.flash)
      → length board.uptane_hardware_id + 3 ≤ board.max_message
      → length board.uptane_ecu_serial + 3 ≤ board.max_message
      → answers (message.payload 0) (message_received board now message st).response ≡ true
  message_received-answers now message st fits fits_too =
      let sid = message.payload 0 in
      by_service board (λ o. answers sid o.response ≡ true) now message st
        (λ e. rw e (diagnostic_session_control-answers now (sender message) message st))
        (λ e. rw e (routine_control-answers now (sender message) message st))
        (λ e. rw e (ecu_reset-answers (sender message) message st))
        (λ e. rw e (request_download-answers now (sender message) message st))
        (λ e. rw e (transfer_data-answers now (sender message) message st))
        (λ e. rw e (request_transfer_exit-answers now (sender message) st))
        (λ e. rw e (read_data_by_identifier-answers (sender message) message st fits fits_too))
        (grind arith)

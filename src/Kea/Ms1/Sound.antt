-- ===== src/Kea/Ms1/Sound.antt =====
-- What ms1.c keeps of a download in progress.
use uptiny.Base.{ℕ, ◌≡◌, refl, true, false, arith}
use uptiny.Kea.FlashLoad.{LoaderState}
use uptiny.Kea.Ms1.{
  IsoTpMessage, UdsState, Board, is_out_of_range, message_received, session_timeout,
  diagnostic_session_control, routine_control, ecu_reset, request_download, transfer_data,
  request_transfer_exit, read_data_by_identifier,
}
use uptiny.Kea.Ms1.Service.{sender, by_service}

module _ (board : Board) where
  -- A download in progress is in a range of programs, of which ms1.c knows the first address alone.
  pub record IsSound (st : UdsState board.flash) : Type 0 where
    pub range :
        st.uds_in_download ≡ true
        → is_out_of_range st.flash_load_startaddr st.flash_load_size ≡ false
    pub unmoved : st.flash_load_curaddr ≡ st.flash_load_startaddr

  diagnostic_session_control-IsSound :
      (now ta : ℕ) (message : IsoTpMessage) (st : UdsState board.flash)
      → IsSound st
      → IsSound (diagnostic_session_control board now ta message st).state
  unfolding diagnostic_session_control
  diagnostic_session_control-IsSound now ta message st v = record {
    range = grind (arith, v.range);
    unmoved = grind (arith, v.unmoved);
  }

  routine_control-IsSound :
      (now ta : ℕ) (message : IsoTpMessage) (st : UdsState board.flash)
      → IsSound st
      → IsSound (routine_control board now ta message st).state
  unfolding routine_control
  routine_control-IsSound now ta message st v = record {
    range = grind (arith, v.range);
    unmoved = grind (arith, v.unmoved);
  }

  ecu_reset-IsSound :
      (ta : ℕ) (message : IsoTpMessage) (st : UdsState board.flash)
      → IsSound st
      → IsSound (ecu_reset board ta message st).state
  unfolding ecu_reset
  ecu_reset-IsSound ta message st v = record {
    range = grind (arith, v.range);
    unmoved = grind (arith, v.unmoved);
  }

  request_download-IsSound :
      (now ta : ℕ) (message : IsoTpMessage) (st : UdsState board.flash)
      → IsSound st
      → IsSound (request_download board now ta message st).state
  unfolding request_download
  request_download-IsSound now ta message st v = record {
    range = grind (arith, v.range);
    unmoved = grind (arith, v.unmoved);
  }

  transfer_data-IsSound :
      (now ta : ℕ) (message : IsoTpMessage) (st : UdsState board.flash)
      → IsSound st
      → IsSound (transfer_data board now ta message st).state
  unfolding transfer_data
  transfer_data-IsSound now ta message st v = record {
    range = grind (arith, v.range);
    unmoved = grind (arith, v.unmoved);
  }

  request_transfer_exit-IsSound :
      (now ta : ℕ) (st : UdsState board.flash)
      → IsSound st
      → IsSound (request_transfer_exit board now ta st).state
  unfolding request_transfer_exit
  request_transfer_exit-IsSound now ta st v = record {
    range = grind (arith, v.range);
    unmoved = grind (arith, v.unmoved);
  }

  read_data_by_identifier-IsSound :
      (ta : ℕ) (message : IsoTpMessage) (st : UdsState board.flash)
      → IsSound st
      → IsSound (read_data_by_identifier board ta message st).state
  unfolding read_data_by_identifier
  read_data_by_identifier-IsSound ta message st v = record {
    range = grind (arith, v.range);
    unmoved = grind (arith, v.unmoved);
  }

  pub message_received-IsSound :
      (now : ℕ) (message : IsoTpMessage) (st : UdsState board.flash)
      → IsSound st
      → IsSound (message_received board now message st).state
  message_received-IsSound now message st v =
      by_service board (λ o. IsSound o.state) now message st
        (λ e. diagnostic_session_control-IsSound now (sender message) message st v)
        (λ e. routine_control-IsSound now (sender message) message st v)
        (λ e. ecu_reset-IsSound (sender message) message st v)
        (λ e. request_download-IsSound now (sender message) message st v)
        (λ e. transfer_data-IsSound now (sender message) message st v)
        (λ e. request_transfer_exit-IsSound now (sender message) st v)
        (λ e. read_data_by_identifier-IsSound (sender message) message st v) v

  -- The states that requests and the check of the main loop lead to, from the start of the device.
  pub data Reachable : UdsState board.flash → Type 0 where
    start :
        (loader : LoaderState board.flash)
        → Reachable (record {
          loader = loader;
          flash_load_startaddr = 0;
          flash_load_curaddr = 0;
          flash_load_size = 0;
          uds_in_download = false;
          uds_in_programming = false;
          session_ts = 0;
        })
    received :
        {st : UdsState board.flash} (now : ℕ) (message : IsoTpMessage)
        → Reachable st
        → Reachable (message_received board now message st).state
    checked :
        {st : UdsState board.flash} (now : ℕ)
        → Reachable st
        → Reachable (session_timeout board now st)

  session_timeout-IsSound :
      (now : ℕ) (st : UdsState board.flash) → IsSound st → IsSound (session_timeout board now st)
  unfolding session_timeout
  session_timeout-IsSound now st v = record {
    range = grind (arith, v.range);
    unmoved = grind (arith, v.unmoved);
  }

  -- In every state that the device reaches, the declared range of a download in progress is one of
  -- programs, and `flash_load_curaddr` of ms1.c is still its first address.
  pub Reachable-IsSound : {st : UdsState board.flash} → Reachable st → IsSound st
  Reachable-IsSound (start loader) = record { range = λ e. grind arith; unmoved = refl }
  Reachable-IsSound (received {st} now message r) =
      message_received-IsSound now message st (Reachable-IsSound r)
  Reachable-IsSound (checked {st} now r) = session_timeout-IsSound now st (Reachable-IsSound r)

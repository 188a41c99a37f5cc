-- ===== src/Kea/Ms1/Service.antt =====
-- A diagnostic request by the service it is for.
use uptiny.Base.{ℕ, ◌/◌, ◌%◌, ◌≡◌, ◌==◌, arith, Bool-cases, inl, inr}
use uptiny.Kea.Ms1.{
  IsoTpMessage, UdsState, Outcome, Board, message_received, deny, diagnostic_session_control,
  routine_control, ecu_reset, request_download, transfer_data, request_transfer_exit,
  read_data_by_identifier,
}

-- The address of the sender.
abbrev pub sender : IsoTpMessage → ℕ
sender message = message.arbitration_id / 32 % 32

module _ (board : Board) where
  -- A request leads to what the handler of its service does.
  pub by_service :
      (P : Outcome board.flash → Type 0) (now : ℕ) (message : IsoTpMessage)
      (st : UdsState board.flash)
      → (message.payload 0 ≡ 0x10
          → P (diagnostic_session_control board now (sender message) message st))
      → (message.payload 0 ≡ 0x31 → P (routine_control board now (sender message) message st))
      → (message.payload 0 ≡ 0x11 → P (ecu_reset board (sender message) message st))
      → (message.payload 0 ≡ 0x34 → P (request_download board now (sender message) message st))
      → (message.payload 0 ≡ 0x36 → P (transfer_data board now (sender message) message st))
      → (message.payload 0 ≡ 0x37 → P (request_transfer_exit board now (sender message) st))
      → (message.payload 0 ≡ 0x22 → P (read_data_by_identifier board (sender message) message st))
      → P (deny board st (sender message) (message.payload 0) 0x11)
      → P (message_received board now message st)
  unfolding message_received
  by_service P now message st h0 h1 h2 h3 h4 h5 h6 unknown =
      elim (Bool-cases (message.payload 0 == 0x10)) [
        | inl e ↦ rw (message_received, e) (h0 (ground arith))
        | inr n0 ↦ elim (Bool-cases (message.payload 0 == 0x31)) [
          | inl e ↦ rw (message_received, n0, e) (h1 (ground arith))
          | inr n1 ↦ elim (Bool-cases (message.payload 0 == 0x11)) [
            | inl e ↦ rw (message_received, n0, n1, e) (h2 (ground arith))
            | inr n2 ↦ elim (Bool-cases (message.payload 0 == 0x34)) [
              | inl e ↦ rw (message_received, n0, n1, n2, e) (h3 (ground arith))
              | inr n3 ↦ elim (Bool-cases (message.payload 0 == 0x36)) [
                | inl e ↦ rw (message_received, n0, n1, n2, n3, e) (h4 (ground arith))
                | inr n4 ↦ elim (Bool-cases (message.payload 0 == 0x37)) [
                  | inl e ↦ rw (message_received, n0, n1, n2, n3, n4, e) (h5 (ground arith))
                  | inr n5 ↦ elim (Bool-cases (message.payload 0 == 0x22)) [
                    | inl e ↦ rw (message_received, n0, n1, n2, n3, n4, n5, e) (h6 (ground arith))
                    | inr n6 ↦ rw (message_received, n0, n1, n2, n3, n4, n5, n6) unknown
                  ]
                ]
              ]
            ]
          ]
        ]
      ]

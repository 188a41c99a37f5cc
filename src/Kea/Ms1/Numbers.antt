-- ===== src/Kea/Ms1/Numbers.antt =====
-- The sequence numbers of data messages.
use uptiny.Base.{ℕ, ◌≡◌, refl, ◌∙◌, false, ◌==◌, List, [], ◌∷◌, All, arith}
use uptiny.Kea.Ms1.{IsoTpMessage, UdsState, Board, message_received, transfer_data}

module _ (board : Board) where
  -- Requests, one after another, each with the time it comes.
  unfoldable pub run : List (ℕ × IsoTpMessage) → UdsState board.flash → UdsState board.flash
  run [] st = st
  run ((now, message) ∷ rest) st = run rest (message_received board now message st).state

  -- A data message with a sequence number other than 1.
  abbrev pub IsOtherData : ℕ × IsoTpMessage → Type 0
  IsOtherData (now, message) = (message.payload 0 ≡ 0x36) × ((message.payload 1 == 1) ≡ false)

  other_data-ignored :
      (now : ℕ) (message : IsoTpMessage) (st : UdsState board.flash)
      → message.payload 0 ≡ 0x36
      → (message.payload 1 == 1) ≡ false
      → (message_received board now message st).state.loader ≡ st.loader
  unfolding message_received transfer_data
  other_data-ignored now message st sid other = rw (sid, other) (grind arith)

  -- Data messages with the sequence numbers from 2 on, or with 0, leave the flash loader as it is,
  -- also where the messages before them were accepted.
  pub run-other_data :
      (messages : List (ℕ × IsoTpMessage)) (st : UdsState board.flash)
      → All IsOtherData messages
      → (run messages st).loader ≡ st.loader
  unfolding run
  run-other_data [] st none = refl
  run-other_data ((now, message) ∷ rest) st ((sid, other), all) =
      run-other_data rest (message_received board now message st).state all
      ∙ other_data-ignored now message st sid other

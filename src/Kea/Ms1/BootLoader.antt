-- ===== src/Kea/Ms1/BootLoader.antt =====
-- The memory of the boot loader, below the programs, under requests.
use uptiny.Base.{
  ℕ, ◌+◌, ◌-◌, ◌^◌, ◌<◌, ◌≤◌, ◌≡◌, refl, ◌∙◌, Bool, true, false, if◌then◌else◌, List, [], ◌∷◌, All,
  advance, arith, Bool-cases, inl, inr,
}
use uptiny.Kea.Flash.{flash_size}
use uptiny.Kea.FlashLoad.{LoaderState, flash_load_prepare}
use uptiny.Kea.FlashLoad.Below.{
  Keeps, IsAbove, flash_load_continue-Keeps, flash_load_finalize-Keeps, flash_load_erase-Keeps,
  flash_load_erase-curaddr,
}
use uptiny.Kea.Ms1.{
  IsoTpMessage, UdsState, Board, make_32, is_out_of_range, program_flash_begin, message_received,
  diagnostic_session_control, routine_control, ecu_reset, request_download, transfer_data,
  request_transfer_exit, read_data_by_identifier,
}
use uptiny.Kea.Ms1.Service.{sender, by_service}
use uptiny.Kea.Ms1.Numbers.{run}
use uptiny.Kea.Ms1.Taken.{
  is_taken, transfer_data_cases, is_erasing, routine_control_cases, address_of, size_of,
  is_requesting, request_download_cases,
}

module _ (board : Board) where
  -- A download in progress writes from the range of programs on.
  abbrev pub IsInPrograms : UdsState board.flash → Type 0
  IsInPrograms st =
      st.uds_in_download ≡ true → IsAbove board.flash board.stack program_flash_begin refl st.loader

  -- The memory below the programs is the same, and the download is where it may be.
  abbrev pub Spares : UdsState board.flash → UdsState board.flash → Type 0
  Spares st st' =
      IsInPrograms st'
      × Keeps board.flash board.stack program_flash_begin refl st.loader.hw st'.loader.hw

  -- A request to erase is one for at least one byte.
  abbrev pub IsNonempty : IsoTpMessage → Type 0
  IsNonempty message =
      let p = message.payload in
      ((i : ℕ) → p i < 256) × (p 0 ≡ 0x31 → 0 < make_32 (p 8) (p 9) (p 10) (p 11))

  -- A state with the loader and the download of another.
  same_loader :
      (st st' : UdsState board.flash)
      → IsInPrograms st
      → st'.loader ≡ st.loader
      → st'.uds_in_download ≡ st.uds_in_download
      → Spares st st'
  same_loader st st' v l d = rw (l, d) (v, λ a lt. refl)

  diagnostic_session_control-Spares :
      (now ta : ℕ) (message : IsoTpMessage) (st : UdsState board.flash)
      → IsInPrograms st
      → Spares st (diagnostic_session_control board now ta message st).state
  unfolding diagnostic_session_control
  diagnostic_session_control-Spares now ta message st v =
      same_loader st (diagnostic_session_control board now ta message st).state v (grind arith)
        (grind arith)

  ecu_reset-Spares :
      (ta : ℕ) (message : IsoTpMessage) (st : UdsState board.flash)
      → IsInPrograms st
      → Spares st (ecu_reset board ta message st).state
  unfolding ecu_reset
  ecu_reset-Spares ta message st v =
      same_loader st (ecu_reset board ta message st).state v (grind arith) (grind arith)

  read_data_by_identifier-Spares :
      (ta : ℕ) (message : IsoTpMessage) (st : UdsState board.flash)
      → IsInPrograms st
      → Spares st (read_data_by_identifier board ta message st).state
  unfolding read_data_by_identifier
  read_data_by_identifier-Spares ta message st v =
      same_loader st (read_data_by_identifier board ta message st).state v (grind arith)
        (grind arith)

  request_transfer_exit-Spares :
      (now ta : ℕ) (st : UdsState board.flash)
      → IsInPrograms st
      → Spares st (request_transfer_exit board now ta st).state
  unfolding request_transfer_exit
  request_transfer_exit-Spares now ta st v = elim (Bool-cases st.uds_in_download) [
    | inr idle ↦
        same_loader st (request_transfer_exit board now ta st).state v (grind arith) (grind arith)
    | inl downloading ↦ rw downloading (
      λ e. absurd (grind arith),
      flash_load_finalize-Keeps board.flash board.stack program_flash_begin refl st.loader
          (v downloading),
    )
  ]

  -- A state with another loader, under a condition.
  other_loader :
      (st st' : UdsState board.flash) (c : Bool) (loader : LoaderState board.flash)
      → IsInPrograms st
      → st'.loader ≡ (if c then loader else st.loader)
      → (c ≡ false → st'.uds_in_download ≡ st.uds_in_download)
      → (c ≡ true
          → (st'.uds_in_download ≡ true
              → IsAbove board.flash board.stack program_flash_begin refl loader)
            × Keeps board.flash board.stack program_flash_begin refl st.loader.hw loader.hw)
      → Spares st st'
  other_loader st st' c loader v l same other = elim (Bool-cases c) [
    | inr out ↦ same_loader st st' v (rw out at l) (same out)
    | inl taken ↦ let e : st'.loader ≡ loader = rw taken at l in rw e (other taken)
  ]

  transfer_data-Spares :
      (now ta : ℕ) (message : IsoTpMessage) (st : UdsState board.flash)
      → IsInPrograms st
      → Spares st (transfer_data board now ta message st).state
  unfolding is_taken
  transfer_data-Spares now ta message st v =
      let (same, loads) = transfer_data_cases board now ta message st in
      other_loader st (transfer_data board now ta message st).state (is_taken board message st) _ v
        loads (λ e. same)
        (λ e.
          let (above, keeps) =
            flash_load_continue-Keeps board.flash board.stack program_flash_begin refl
              (advance message.payload 2) (message.size - 2) st.loader (v (grind arith)) in
          (λ d. above, keeps))

  range_facts :
      (addr size : ℕ)
      → addr < 2 ^ 32
      → size < 2 ^ 32
      → is_out_of_range addr size ≡ false
      → (program_flash_begin ≤ addr) × (addr + size ≤ 2 ^ 32) × (addr < flash_size)
  range_facts addr size a b range = (ground arith, ground arith, ground arith)

  make_32_lt : (a b c d : ℕ) → a < 256 → b < 256 → c < 256 → d < 256 → make_32 a b c d < 2 ^ 32
  make_32_lt a b c d ha hb hc hd = omega arith

  routine_control-Spares :
      (now ta : ℕ) (message : IsoTpMessage) (st : UdsState board.flash)
      → IsInPrograms st
      → message.payload 0 ≡ 0x31
      → IsNonempty message
      → Spares st (routine_control board now ta message st).state
  unfolding is_erasing
  routine_control-Spares now ta message st v sid (bytes, nonempty) =
      let p = message.payload in
      let addr = make_32 (p 4) (p 5) (p 6) (p 7) in
      let size = make_32 (p 8) (p 9) (p 10) (p 11) in
      let (same, loads) = routine_control_cases board now ta message st in
      let cur =
        flash_load_erase-curaddr board.flash board.stack program_flash_begin refl addr size
          st.loader in
      other_loader st (routine_control board now ta message st).state (is_erasing board message st)
        _ v loads (λ e. same)
        (λ e.
          let (low, room, high) =
            range_facts addr size
              (make_32_lt (p 4) (p 5) (p 6) (p 7) (bytes 4) (bytes 5) (bytes 6) (bytes 7))
              (make_32_lt (p 8) (p 9) (p 10) (p 11) (bytes 8) (bytes 9) (bytes 10) (bytes 11))
              (ground arith) in
          (
            λ d. rw cur (v (rw same at d)),
            flash_load_erase-Keeps board.flash board.stack program_flash_begin refl addr size
                st.loader low (nonempty sid) room,
          ))

  range_starts :
      (addr size : ℕ)
      → is_out_of_range addr size ≡ false
      → (program_flash_begin ≤ addr) × (addr < flash_size + 512)
  range_starts addr size range = (ground arith, ground arith)

  request_download-Spares :
      (now ta : ℕ) (message : IsoTpMessage) (st : UdsState board.flash)
      → IsInPrograms st
      → Spares st (request_download board now ta message st).state
  unfolding is_requesting flash_load_prepare
  request_download-Spares now ta message st v =
      let (download, loads) = request_download_cases board now ta message st in
      other_loader st (request_download board now ta message st).state
        (is_requesting board message st) _ v loads (λ e. rw e at download)
        (λ e. (
          λ d. range_starts (address_of board message) (size_of board message) (grind arith),
          λ a lt. refl,
        ))

  -- One request, whose bytes are bytes, and that is not one to erase nothing.
  pub message_received-Spares :
      (now : ℕ) (message : IsoTpMessage) (st : UdsState board.flash)
      → IsInPrograms st
      → IsNonempty message
      → Spares st (message_received board now message st).state
  message_received-Spares now message st v nonempty =
      by_service board (λ o. Spares st o.state) now message st
        (λ e. diagnostic_session_control-Spares now (sender message) message st v)
        (λ e. routine_control-Spares now (sender message) message st v e nonempty)
        (λ e. ecu_reset-Spares (sender message) message st v)
        (λ e. request_download-Spares now (sender message) message st v)
        (λ e. transfer_data-Spares now (sender message) message st v)
        (λ e. request_transfer_exit-Spares now (sender message) st v)
        (λ e. read_data_by_identifier-Spares (sender message) message st v)
        (same_loader st st v refl refl)

  -- Requests of bytes, in whatever order and with whatever flash commands failing, leave the memory
  -- below the programs as it was, if none of them is to erase a range of size 0 and a download that is
  -- in progress at the beginning is above that memory.
  pub run-keeps_boot_loader :
      (messages : List (ℕ × IsoTpMessage)) (st : UdsState board.flash)
      → IsInPrograms st
      → All (λ m. IsNonempty m.1) messages
      → (a : ℕ) → a < program_flash_begin
      → board.flash.memory (run board messages st).loader.hw a ≡ board.flash.memory st.loader.hw a
  unfolding run
  run-keeps_boot_loader [] st v all a lt = refl
  run-keeps_boot_loader ((now, message) ∷ rest) st v (nonempty, all) a lt =
      let (v', keeps) = message_received-Spares now message st v nonempty in
      run-keeps_boot_loader rest (message_received board now message st).state v' all a lt
      ∙ keeps a lt

-- ===== src/Kea/Ms1/Taken.antt =====
-- The conditions under which a request changes the loader, as one test for each service.
use uptiny.Base.{
  ℕ, ◌+◌, ◌-◌, ◌/◌, ◌%◌, ◌^◌, ◌≡◌, Bool, true, not, ◌&&◌, ◌||◌, ltb, ◌==◌, if◌then◌else◌, advance,
  arith,
}
use uptiny.Kea.FlashLoad.{flash_load_erase, flash_load_prepare, flash_load_continue}
use uptiny.Kea.Ms1.{
  IsoTpMessage, UdsState, Board, make_32, read_be, is_out_of_range, routine_control,
  request_download, transfer_data,
}

module _ (board : Board) where
  -- Whether a data message is taken.
  unfoldable pub is_taken : IsoTpMessage → UdsState board.flash → Bool
  is_taken message st =
      st.uds_in_download
      && not (ltb message.size 2)
      && message.payload 1 == 1
      && not (
          ltb ((st.flash_load_startaddr + st.flash_load_size) % 2 ^ 32)
            ((st.flash_load_curaddr + message.size - 2) % 2 ^ 32))

  pub transfer_data_cases :
      (now ta : ℕ) (message : IsoTpMessage) (st : UdsState board.flash)
      → let len = message.size - 2 in
        let p = message.payload in
        let st' = (transfer_data board now ta message st).state in
        (st'.uds_in_download ≡ st.uds_in_download)
        × (st'.loader ≡ (
            if is_taken message st
            then (flash_load_continue board.flash board.stack (advance p 2) len st.loader).1
            else st.loader))
  unfolding transfer_data is_taken
  transfer_data_cases now ta message st = (grind arith, grind arith)

  -- Whether a request to erase is taken.
  unfoldable pub is_erasing : IsoTpMessage → UdsState board.flash → Bool
  is_erasing message st =
      let p = message.payload in
      st.uds_in_programming
      && not (ltb message.size 4)
      && p 1 == 0x01
      && not (not (p 2 == 0xff) && not (p 3 == 0x00))
      && message.size == 12
      && not (is_out_of_range (make_32 (p 4) (p 5) (p 6) (p 7)) (make_32 (p 8) (p 9) (p 10) (p 11)))

  pub routine_control_cases :
      (now ta : ℕ) (message : IsoTpMessage) (st : UdsState board.flash)
      → let p = message.payload in
        let addr = make_32 (p 4) (p 5) (p 6) (p 7) in
        let size = make_32 (p 8) (p 9) (p 10) (p 11) in
        let st' = (routine_control board now ta message st).state in
        (st'.uds_in_download ≡ st.uds_in_download)
        × (st'.loader ≡ (
            if is_erasing message st
            then (flash_load_erase board.flash board.stack addr size st.loader).1
            else st.loader))
  unfolding routine_control is_erasing
  routine_control_cases now ta message st = (grind arith, grind arith)

  -- Whether a request to download is taken, and its address and size.
  pub address_of : IsoTpMessage → ℕ
  address_of message = read_be (message.payload 2 % 16) (advance message.payload 3) 0

  pub size_of : IsoTpMessage → ℕ
  size_of message =
      read_be (message.payload 2 / 16 % 16) (advance message.payload (message.payload 2 % 16 + 3)) 0

  unfoldable pub is_requesting : IsoTpMessage → UdsState board.flash → Bool
  is_requesting message st =
      let addr_len = message.payload 2 % 16 in
      let size_len = message.payload 2 / 16 % 16 in
      st.uds_in_programming
      && not (ltb message.size 3)
      && message.payload 1 == 0x00
      && not (addr_len == 0 || ltb 4 addr_len || size_len == 0 || ltb 4 size_len)
      && not (ltb message.size (3 + addr_len + size_len))
      && not (is_out_of_range (address_of message) (size_of message))

  pub request_download_cases :
      (now ta : ℕ) (message : IsoTpMessage) (st : UdsState board.flash)
      → let st' = (request_download board now ta message st).state in
        (st'.uds_in_download ≡ (if is_requesting message st then true else st.uds_in_download))
        × (st'.loader ≡ (
            if is_requesting message st
            then flash_load_prepare board.flash board.stack
                (address_of message)
                (size_of message)
                st.loader
            else st.loader))
  unfolding request_download is_requesting address_of size_of
  request_download_cases now ta message st = (grind arith, grind arith)

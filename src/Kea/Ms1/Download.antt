-- ===== src/Kea/Ms1/Download.antt =====
-- A whole download: the request, the data in messages, and the exit.
use uptiny.Base.{
  ℕ, ◌+◌, ◌-◌, ◌/◌, ◌%◌, ◌^◌, ◌<◌, ◌≤◌, ◌≡◌, refl, true, false, ltb, ◌==◌, if◌then◌else◌, List, [],
  ◌∷◌, All, laid, Buffer, advance, arith, Bool-cases, inl, inr,
}
use uptiny.Kea.FlashLoad.{LoaderState, flash_load_prepare, flash_load_continue, flash_load_finalize}
use uptiny.Kea.FlashLoad.Image.{total, load_pieces, load_image}
use uptiny.Kea.FlashLoad.Stream.{loaded}
use uptiny.Kea.Ms1.{
  IsoTpMessage, UdsState, Board, read_be, is_out_of_range, message_received, request_download,
  transfer_data, request_transfer_exit,
}

-- The messages of a client: four bytes of address and four of size, the most significant first;
-- `len` bytes of an image from the `k`-th on, with sequence number 1; and the exit.
pub download_request : ℕ → ℕ → IsoTpMessage
download_request addr size = record {
  arbitration_id = 0;
  payload =
      laid
        (0x34
          ∷ 0x00
          ∷ 0x44
          ∷ addr / 2 ^ 24 % 256
          ∷ addr / 2 ^ 16 % 256
          ∷ addr / 2 ^ 8 % 256
          ∷ addr % 256
          ∷ size / 2 ^ 24 % 256
          ∷ size / 2 ^ 16 % 256
          ∷ size / 2 ^ 8 % 256
          ∷ size % 256
          ∷ [])
        0;
  size = 11;
}

pub data_message : Buffer → ℕ → ℕ → IsoTpMessage
data_message image k len = record {
  arbitration_id = 0;
  payload = λ i. if i == 0 then 0x36 else if i == 1 then 1 else image (k + (i - 2));
  size = len + 2;
}

pub exit_message : IsoTpMessage
exit_message = record { arbitration_id = 0; payload = λ i. 0x37; size = 1 }

module _ (board : Board) (now : ℕ) where
  abbrev pub after : IsoTpMessage → UdsState board.flash → UdsState board.flash
  after message st = (message_received board now message st).state

  pub send_data : List ℕ → ℕ → Buffer → UdsState board.flash → UdsState board.flash
  send_data [] k image st = st
  send_data (len ∷ lens) k image st =
      send_data lens (k + len) image (after (data_message image k len) st)

  pub download : ℕ → ℕ → Buffer → List ℕ → UdsState board.flash → UdsState board.flash
  download addr size image lens st =
      after exit_message (send_data lens 0 image (after (download_request addr size) st))

  -- A download to the address is in progress, and the loader is in a state.
  record IsDownloading (addr size : ℕ) (loader : LoaderState board.flash)
      (st : UdsState board.flash) : Type 0 where
    loading : st.loader ≡ loader
    downloading : st.uds_in_download ≡ true
    start : st.flash_load_startaddr ≡ addr
    cur : st.flash_load_curaddr ≡ addr
    declared : st.flash_load_size ≡ size

  request_download-IsDownloading :
      (ta addr size : ℕ) (message : IsoTpMessage) (st : UdsState board.flash)
      → st.uds_in_programming ≡ true
      → is_out_of_range addr size ≡ false
      → message.size ≡ 11
      → message.payload 1 ≡ 0
      → message.payload 2 ≡ 0x44
      → read_be 4 (advance message.payload 3) 0 ≡ addr
      → read_be 4 (advance message.payload 7) 0 ≡ size
      → IsDownloading addr size
          (flash_load_prepare board.flash board.stack addr size st.loader)
          (request_download board now ta message st).state
  unfolding request_download
  request_download-IsDownloading ta addr size message st programming range n raw lens a s = record {
    loading = rw (programming, n, raw, lens, a, s, range) refl;
    downloading = rw (programming, n, raw, lens, a, s, range) refl;
    start = rw (programming, n, raw, lens, a, s, range) refl;
    cur = rw (programming, n, raw, lens, a, s, range) refl;
    declared = rw (programming, n, raw, lens, a, s, range) refl;
  }

  download_request-IsDownloading :
      (addr size : ℕ) (st : UdsState board.flash)
      → st.uds_in_programming ≡ true
      → size < 2 ^ 32
      → is_out_of_range addr size ≡ false
      → IsDownloading addr size
          (flash_load_prepare board.flash board.stack addr size st.loader)
          (after (download_request addr size) st)
  unfolding message_received download_request read_be
  download_request-IsDownloading addr size st programming small range =
      request_download-IsDownloading 0 addr size (download_request addr size) st programming range
        refl refl refl (ground arith) (omega arith)

  transfer_data-IsDownloading :
      (ta addr size len : ℕ) (loader : LoaderState board.flash) (message : IsoTpMessage)
      (st : UdsState board.flash)
      → IsDownloading addr size loader st
      → is_out_of_range addr size ≡ false
      → size < 2 ^ 32
      → len ≤ size
      → message.size ≡ len + 2
      → message.payload 1 ≡ 1
      → IsDownloading addr size
          (flash_load_continue board.flash board.stack (advance message.payload 2) len loader).1
          (transfer_data board now ta message st).state
  unfolding transfer_data
  transfer_data-IsDownloading ta addr size len loader message st v range word small n seq =
      let some : ltb (len + 2) 2 ≡ false = ground arith in
      let all : len + 2 - 2 ≡ len = omega arith in
      let inside : ltb ((addr + size) % 2 ^ 32) ((addr + (len + 2) - 2) % 2 ^ 32) ≡ false =
        ground arith in
      record {
        loading =
            rw (v.downloading, n, some, seq, v.start, v.cur, v.declared, inside, all, v.loading)
              refl;
        downloading = rw (v.downloading, n, some, seq, v.start, v.cur, v.declared, inside) refl;
        start = rw (v.downloading, n, some, seq, v.start, v.cur, v.declared, inside) refl;
        cur = rw (v.downloading, n, some, seq, v.start, v.cur, v.declared, inside) refl;
        declared = rw (v.downloading, n, some, seq, v.start, v.cur, v.declared, inside) refl;
      }

  data_of_message :
      (image : Buffer) (k len : ℕ) → advance (data_message image k len).payload 2 ≡ advance image k
  unfolding data_message
  data_of_message image k len = λ i j. byte j i
    where
      byte :
          (j : ℕ)
          → (if 2 + j == 0 then 0x36 else if 2 + j == 1 then 1 else image (k + (2 + j - 2)))
            ≡ image (k + j)
      byte j = let e : 2 + j - 2 ≡ j = omega arith in rw e (ground arith)

  data_message-IsDownloading :
      (addr size k len : ℕ) (image : Buffer) (loader : LoaderState board.flash)
      (st : UdsState board.flash)
      → IsDownloading addr size loader st
      → is_out_of_range addr size ≡ false
      → size < 2 ^ 32
      → len ≤ size
      → IsDownloading addr size
          (flash_load_continue board.flash board.stack (advance image k) len loader).1
          (after (data_message image k len) st)
  unfolding message_received data_message
  data_message-IsDownloading addr size k len image loader st v range word small =
      rw (data_of_message image k len) at (
        transfer_data-IsDownloading 0 addr size len loader (data_message image k len) st v range
          word small refl refl)

  send_data-IsDownloading :
      (addr size k : ℕ) (image : Buffer) (lens : List ℕ) (loader : LoaderState board.flash)
      (st : UdsState board.flash)
      → IsDownloading addr size loader st
      → is_out_of_range addr size ≡ false
      → size < 2 ^ 32
      → All (λ len. len ≤ size) lens
      → (load_pieces board.flash board.stack lens k image loader).0 ≡ true
      → IsDownloading addr size
          (load_pieces board.flash board.stack lens k image loader).1
          (send_data lens k image st)
  unfolding send_data load_pieces
  send_data-IsDownloading addr size k image [] loader st v range word small ok = v
  send_data-IsDownloading addr size k image (len ∷ lens) loader st v range word (le, small) ok =
      let piece = flash_load_continue board.flash board.stack (advance image k) len loader in
      elim (Bool-cases piece.0) [
        | inr failed ↦ cc (rw (load_pieces, failed) at ok)
        | inl done ↦
            rw (load_pieces, done)
              (send_data-IsDownloading addr size (k + len) image lens piece.1 _
                (data_message-IsDownloading addr size k len image loader st v range word le) range
                word small (rw (load_pieces, done) at ok))
      ]

  exit_message-finalizes :
      (addr size : ℕ) (loader : LoaderState board.flash) (st : UdsState board.flash)
      → IsDownloading addr size loader st
      → (after exit_message st).loader ≡ (flash_load_finalize board.flash board.stack loader).1
  unfolding message_received request_transfer_exit exit_message
  exit_message-finalizes addr size loader st v = rw (v.downloading, v.loading) refl

  -- A download in a programming session, of a declared range of programs, that no flash command fails
  -- in: the request, the image in messages that all have sequence number 1 and are no longer than the
  -- declared size, and the exit. Where the image ends below 2 ^ 32, it stands at the address and the
  -- rest of the memory is as before, also where the messages together are longer than the declared
  -- size.
  pub download_lem :
      (addr size : ℕ) (image : Buffer) (lens : List ℕ) (st : UdsState board.flash)
      → st.uds_in_programming ≡ true
      → is_out_of_range addr size ≡ false
      → size < 2 ^ 32
      → All (λ len. len ≤ size) lens
      → addr + total lens < 2 ^ 32
      → let loading =
          load_pieces board.flash board.stack lens 0 image
            (flash_load_prepare board.flash board.stack addr size st.loader) in
        loading.0 ≡ true
        → (flash_load_finalize board.flash board.stack loading.1).0 ≡ true
        → (a : ℕ)
        → board.flash.memory (download addr size image lens st).loader.hw a
          ≡ loaded (board.flash.memory st.loader.hw) addr image (total lens) a
  unfolding download
  download_lem addr size image lens st programming range word small room ok finished a =
      let prepared = download_request-IsDownloading addr size st programming word range in
      let sent = send_data-IsDownloading addr size 0 image lens _ _ prepared range word small ok in
      rw (exit_message-finalizes addr size _ _ sent)
        (load_image board.flash board.stack addr size image lens st.loader room ok finished a)

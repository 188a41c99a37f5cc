-- ===== src/Kea/Can.antt =====
-- machine/kea128/drivers/src/can.c: the queues of received packets and of packets to send. The
-- controller is a parameter.
pub mod Ring
pub mod Receive
pub mod Send
pub mod Address
use uptiny.Base.{
  ℕ, zero, suc, ◌+◌, ◌-◌, ◌*◌, ◌/◌, ◌%◌, ◌^◌, ◌≡◌, ◌≢◌, Bool, true, false, not, ◌&&◌, ◌||◌, leb,
  ltb, ◌==◌, if◌then◌else◌, List, [], ◌∷◌, ◌++◌, Option, none, some, Memory, Buffer, write, cells,
}

-- CAN_IN_BUF_SIZE and CAN_OUT_BUF_SIZE
abbrev pub can_buf_size : ℕ
can_buf_size = 16

-- The size of `data` in a packet.
abbrev pub data_size : ℕ
data_size = 8

-- `data'` is the memory of the array; only its first `data_size` cells belong to the packet.
pub record CanPack : Type 0 where
  pub af : ℕ
  pub dlc : ℕ
  pub data' : Buffer

-- `can_in_buf` is filled at `beg` and emptied at `end`, `can_out_buf` the other way round.
pub record CanBuf : Type 0 where
  pub buf : Memory CanPack
  pub beg : ℕ
  pub end : ℕ
  pub len : ℕ

-- The registers of a frame: identifier, length and data.
pub record Frame : Type 0 where
  pub idr0 : ℕ
  pub idr1 : ℕ
  pub idr2 : ℕ
  pub idr3 : ℕ
  pub dlr : ℕ
  pub dsr : Buffer

-- The index behind an index.
abbrev pub next_index : ℕ → ℕ
next_index i = if leb can_buf_size (i + 1) then 0 else i + 1

-- The address of a received frame. The fields of the registers do not overlap.
abbrev pub address_of_frame : Frame → ℕ
address_of_frame f =
    if f.idr1 / 8 % 2 == 1
    then 2 ^ 31
      + f.idr3 / 2
      + f.idr2 * 2 ^ 7
      + f.idr1 % 8 * 2 ^ 15
      + f.idr1 / 32 * 2 ^ 18
      + f.idr0 * 2 ^ 21
    else f.idr1 / 32 + f.idr0 * 8

-- The loop that copies `n` bytes into the array of a packet: `none` where it writes past the array,
-- for then the behaviour is undefined.
abbrev pub copy_data : ℕ → Buffer → Buffer → Option Buffer
copy_data n from to = if leb n data_size then some (λ i. if ltb i n then from i else to i) else none

-- A packet in the memory of an older one.
abbrev pub read_pack : Frame → CanPack → Option CanPack
read_pack f pack =
    let dlc = f.dlr % 16 in
    elim (copy_data dlc f.dsr pack.data') [
      | none ↦ none
      | some bytes ↦ some (record { af = address_of_frame f; dlc = dlc; data' = bytes })
    ]

-- MSCAN_RX_IRQHandler, where CANRFLG says that there is a frame or not.
pub rx_handler : Bool → Frame → CanBuf → Option CanBuf
rx_handler is_full f q =
    if not is_full
    then some q
    else if ltb q.len can_buf_size
    then elim (read_pack f (q.buf q.beg)) [
      | none ↦ none
      | some pack ↦
          some (record q { buf = write q.buf q.beg pack; len = q.len + 1; beg = next_index q.beg })
    ]
    else some q

-- `can_recv` into the packet of the caller.
pub can_recv : CanPack → CanBuf → Option (Bool × CanPack × CanBuf)
can_recv pack q =
    let from = q.buf q.end in
    if q.len == 0 then some (false, pack, q) else elim (copy_data from.dlc from.data' pack.data') [
      | none ↦ none
      | some bytes ↦ some (
        true,
        record { af = from.af; dlc = from.dlc; data' = bytes },
        record q { len = q.len - 1; end = next_index q.end },
      )
    ]

-- The registers that `can_send_low` writes.
abbrev pub frame_of : CanPack → Frame
frame_of pack =
    let af = pack.af in
    if leb (2 ^ 31) af
    then (record {
      idr3 = af * 2 % 256;
      idr2 = af / 2 ^ 7 % 256;
      idr1 = af / 2 ^ 15 % 8 + 0x18 + af / 2 ^ 18 % 8 * 32;
      idr0 = af / 2 ^ 21 % 256;
      dlr = pack.dlc % 16;
      dsr = pack.data';
    })
    else (record {
      idr3 = 0;
      idr2 = 0;
      idr1 = af % 8 * 32;
      idr0 = af / 8 % 256;
      dlr = pack.dlc % 16;
      dsr = pack.data';
    })

-- The controller with its three transmit buffers: `is_free` is a bit of CANTFLG, `load` fills a
-- buffer and sends it, which leaves other free buffers free, and `finish` is the end of the
-- transmission of a buffer, which frees it. `sent` are the frames in the order in which they were
-- loaded.
pub record CanController : Type 1 where
  pub State : Type 0
  pub is_free : State → ℕ → Bool
  pub load : ℕ → Frame → State → State
  pub finish : ℕ → State → State
  pub sent : State → List Frame
  pub load_keeps :
      (i j : ℕ) (f : Frame) (hw : State)
      → (j == i) ≡ false
      → is_free hw j ≡ true
      → is_free (load i f hw) j ≡ true
  pub load_sent : (i : ℕ) (f : Frame) (hw : State) → sent (load i f hw) ≡ sent hw ++ f ∷ []
  pub finish_free : (i : ℕ) (hw : State) → is_free (finish i hw) i ≡ true
  pub finish_sent : (i : ℕ) (hw : State) → sent (finish i hw) ≡ sent hw

-- `tier` are the bits of CANTIER.
pub record CanState (can : CanController) : Type 0 where
  pub hw : can.State
  pub tier : ℕ → Bool
  pub out : CanBuf
  pub transmitting : Bool

module _ (can : CanController) where
  -- `least_set` of the bits of CANTFLG.
  abbrev pub least_free : can.State → Option ℕ
  least_free hw =
      if can.is_free hw 0
      then some 0
      else if can.is_free hw 1
      then some 1
      else if can.is_free hw 2
      then some 2
      else none

  unfoldable pub can_send_low : CanPack → CanState can → CanState can
  can_send_low pack st = elim (least_free st.hw) [
    | none ↦ st
    | some i ↦ if ltb 8 pack.dlc then st else record st {
      hw = can.load i (frame_of pack) st.hw;
      tier = λ j. if j == i then true else st.tier j;
    }
  ]

  unfoldable pub can_send : CanPack → CanState can → CanState can
  can_send pack st =
      let q = st.out in
      let st' = record st { transmitting = true } in
      let is_any_free = can.is_free st.hw 0 || can.is_free st.hw 1 || can.is_free st.hw 2 in
      if leb can_buf_size q.len
      then st
      else if q.len == 0 && is_any_free
      then can_send_low pack st'
      else record st' {
        out = record q { buf = write q.buf q.end pack; len = q.len + 1; end = next_index q.end };
      }

  -- One round of the loop of MSCAN_TX_IRQHandler.
  unfoldable pub on_buffer : ℕ → CanState can → CanState can
  on_buffer i st =
      let q = st.out in
      let st' = record st { tier = λ j. if j == i then false else st.tier j } in
      if not (q.len == 0)
      then (record (can_send_low (q.buf q.beg) st') {
        out = record q { len = q.len - 1; beg = next_index q.beg };
      })
      else record st' { transmitting = false }

  -- The loop: the rounds left, `i`, and the buffers that were free and waited for.
  unfoldable pub tx_loop : ℕ → ℕ → (ℕ → Bool) → CanState can → CanState can
  tx_loop zero i bufmask st = st
  tx_loop (suc n) i bufmask st =
      tx_loop n (i + 1) bufmask (if bufmask i then on_buffer i st else st)

  -- MSCAN_TX_IRQHandler
  unfoldable pub tx_handler : CanState can → CanState can
  tx_handler st = tx_loop 3 0 (λ i. can.is_free st.hw i && st.tier i) st

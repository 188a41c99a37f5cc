-- ===== src/Kea/FlashLoad.antt =====
-- machine/kea128/app/flash_load.c: the range of addresses that is erased, and the image that is
-- written to flash memory through a buffer of one sector.
pub mod Sectors
pub mod Erase
pub mod Stream
pub mod Image
pub mod Below
use uptiny.Base.{
  ℕ, zero, suc, ◌+◌, ◌-◌, ◌*◌, ◌/◌, ◌%◌, ◌^◌, Bool, true, false, not, ◌==◌, if◌then◌else◌, Memory,
  Buffer, write, advance,
}
use uptiny.Kea.Flash.{FlashController, is_in, flash_erase_sector, flash_write_sector}

-- `memcpy(to + at, from, n)` and `memset(to + at, v, n)`
abbrev pub copy_at : ℕ → ℕ → Buffer → Buffer → Buffer
copy_at at n from to j = if is_in at n j then from (j - at) else to j

abbrev pub fill_at : ℕ → ℕ → ℕ → Buffer → Buffer
fill_at at n v to j = if is_in at n j then v else to j

-- The flash memory, and the static variables. `flash_start_address` is 0 on the device (ms1.c), so
-- that an address is an address of the flash memory.
pub record LoaderState (flash : FlashController) : Type 0 where
  pub hw : flash.State
  pub buf : Buffer
  pub addr : ℕ
  pub curaddr : ℕ
  pub size : ℕ

-- `stack` is what uninitialised locals hold.
module _ (flash : FlashController) (stack : Buffer) where
  -- The memory from an address on.
  abbrev pub memory_at : flash.State → ℕ → Buffer
  memory_at hw a = advance (flash.memory hw) a

  -- The loop over all sectors but the last: the rounds left and `i`.
  unfoldable pub erase_sectors : ℕ → ℕ → flash.State → Bool × flash.State
  erase_sectors zero i hw = (true, hw)
  erase_sectors (suc n) i hw =
      let (ok, hw') = flash_erase_sector flash stack (i * 512) hw in
      elim ok [ true ↦ erase_sectors n (i + 1) hw' | false ↦ (false, hw') ]

  -- The last sector is erased, and the buffer written to it.
  unfoldable pub rewrite_sector : ℕ → LoaderState flash → Bool × LoaderState flash
  rewrite_sector sec st =
      let (erased, hw) = flash_erase_sector flash stack (sec * 512) st.hw in
      let (written, hw') = flash_write_sector flash stack (sec * 512) st.buf hw in
      if not erased then (false, record st { hw = hw }) else (written, record st { hw = hw' })

  -- The bytes of the last sector that stay, behind `tail` of its bytes.
  pub keep_tail : ℕ → ℕ → flash.State → Buffer → Buffer
  keep_tail endsec tail hw buf = copy_at tail (512 - tail) (memory_at hw (endsec * 512 + tail)) buf

  -- The case of more than one sector. `buf` holds the first sector where `head` is not 0.
  unfoldable pub erase_many : ℕ → ℕ → ℕ → ℕ → LoaderState flash → Bool × LoaderState flash
  erase_many head tail startsec endsec st =
      let (erased, hw) = erase_sectors (endsec - startsec) startsec st.hw in
      let (written, hw') =
        if head == 0
        then (true, hw)
        else flash_write_sector flash stack (startsec * 512) st.buf hw in
      let buf =
        if tail == 0 then st.buf else keep_tail endsec tail hw' (fill_at 0 tail 0xFF st.buf) in
      if not erased
      then (false, record st { hw = hw })
      else if not written
      then (false, record st { hw = hw' })
      else rewrite_sector endsec (record st { hw = hw'; buf = buf })

  unfoldable pub flash_load_erase : ℕ → ℕ → LoaderState flash → Bool × LoaderState flash
  flash_load_erase start size st =
      let end = (start + size + 2 ^ 32 - 1) % 2 ^ 32 in
      let head = start % 512 in
      let tail = (end + 1) % 512 in
      let startsec = start / 512 in
      let endsec = end / 512 in
      let kept =
        if head == 0
        then st.buf
        else fill_at head (512 - head) 0xFF
            (copy_at 0 head (memory_at st.hw (startsec * 512)) st.buf) in
      let one = if tail == 0 then kept else keep_tail endsec tail st.hw kept in
      if not (startsec == endsec)
      then erase_many head tail startsec endsec (record st { buf = kept })
      else rewrite_sector endsec (record st { buf = one })

  unfoldable pub flash_load_prepare : ℕ → ℕ → LoaderState flash → LoaderState flash
  flash_load_prepare addr size st = record st {
    addr = addr;
    curaddr = addr;
    size = size;
    buf = copy_at 0 (addr % 512) (memory_at st.hw (addr - addr % 512)) st.buf;
  }

  -- The loop of `flash_load_continue`: the rounds left, `i` and `i_buf`.
  unfoldable pub load_bytes : ℕ → ℕ → ℕ → Buffer → LoaderState flash → Bool × LoaderState flash
  load_bytes zero i i_buf bytes st = (true, st)
  load_bytes (suc n) i i_buf bytes st =
      let buf = write st.buf i_buf (bytes i) in
      let (ok, hw) = flash_write_sector flash stack (st.curaddr - st.curaddr % 512) buf st.hw in
      let next = (st.curaddr + 1) % 2 ^ 32 in
      elim (i_buf == 511) [
        | true ↦ elim ok [
          | true ↦ load_bytes n (i + 1) 0 bytes (record st { buf = buf; hw = hw; curaddr = next })
          | false ↦ (false, record st { buf = buf; hw = hw })
        ]
        | false ↦ load_bytes n (i + 1) (i_buf + 1) bytes (record st { buf = buf; curaddr = next })
      ]

  unfoldable pub flash_load_continue : Buffer → ℕ → LoaderState flash → Bool × LoaderState flash
  flash_load_continue bytes len st = load_bytes len 0 (st.curaddr % 512) bytes st

  unfoldable pub flash_load_finalize : LoaderState flash → Bool × LoaderState flash
  flash_load_finalize st =
      let tail = st.curaddr % 512 in
      let buf = copy_at tail (512 - tail) (memory_at st.hw st.curaddr) st.buf in
      let (ok, hw) = flash_write_sector flash stack (st.curaddr - tail) buf st.hw in
      (ok, record st { buf = buf; hw = hw })

-- ===== src/Kea/Flash.antt =====
-- machine/kea128/drivers/src/flash.c: erasing and programming the flash memory by commands to its
-- controller. The controller is a parameter.
pub mod Sector
pub mod Outside
use Prim.Native.Nat.{bit_and}
use uptiny.Base.{
  ℕ, zero, suc, ◌+◌, ◌-◌, ◌*◌, ◌/◌, ◌%◌, ◌<◌, ◌≤◌, ◌≡◌, Bool, true, false, not, ◌&&◌, ◌||◌, leb,
  ltb, ◌==◌, if◌then◌else◌, Memory, Buffer, write, advance,
}

-- FLASH_SECTOR_SIZE, FLASH_SIZE
abbrev pub flash_sector_size : ℕ
flash_sector_size = 512

abbrev pub flash_size : ℕ
flash_size = 0x20000

-- `!(FTMRE->FSTAT & 0x33)`
abbrev pub is_clear : ℕ → Bool
is_clear fstat = bit_and fstat 0x33 == 0

-- `a` is one of the `n` addresses from `addr` on.
abbrev pub is_in : ℕ → ℕ → ℕ → Bool
is_in addr n a = leb addr a && ltb a (addr + n)

-- The address in the words of a command.
abbrev pub command_addr : Memory ℕ → Memory ℕ → ℕ
command_addr hi lo = lo 0 * 65536 + hi 1 * 256 + lo 1

-- The flash controller (FTMRE) with its memory. `run` launches the command in the words FCCOBHI and
-- FCCOBLO up to FCCOBIX, and is over when CCIF is set again. Where no error is reported, command 0x0A
-- erases the sector to 0xFF, and command 0x06 programs four words of erased memory, the low byte of
-- a word at the lower address. With or without an error, the commands leave the rest of the memory.
pub record FlashController : Type 1 where
  pub State : Type 0
  pub memory : State → Memory ℕ
  pub fstat : State → ℕ
  pub run : Memory ℕ → Memory ℕ → ℕ → State → State
  pub erase_lem :
      (hi lo : Memory ℕ) (st : State)
      → hi 0 ≡ 0x0A
      → command_addr hi lo % 512 ≡ 0
      → is_clear (fstat (run hi lo 1 st)) ≡ true
      → (a : ℕ)
      → memory (run hi lo 1 st) a ≡ (if is_in (command_addr hi lo) 512 a then 0xFF else memory st a)
  pub program_lem :
      (hi lo : Memory ℕ) (st : State)
      → hi 0 ≡ 0x06
      → command_addr hi lo % 8 ≡ 0
      → ((a : ℕ) → is_in (command_addr hi lo) 8 a ≡ true → memory st a ≡ 0xFF)
      → is_clear (fstat (run hi lo 5 st)) ≡ true
      → (a : ℕ)
      → memory (run hi lo 5 st) a ≡ (
          if is_in (command_addr hi lo) 8 a
          then (if a % 2 == 0
              then lo (2 + (a - command_addr hi lo) / 2)
              else hi (2 + (a - command_addr hi lo) / 2))
          else memory st a)
  pub erase_keeps :
      (hi lo : Memory ℕ) (st : State)
      → hi 0 ≡ 0x0A
      → command_addr hi lo % 512 ≡ 0
      → (a : ℕ) → is_in (command_addr hi lo) 512 a ≡ false
      → memory (run hi lo 1 st) a ≡ memory st a
  pub program_keeps :
      (hi lo : Memory ℕ) (st : State)
      → hi 0 ≡ 0x06
      → command_addr hi lo % 8 ≡ 0
      → (a : ℕ) → is_in (command_addr hi lo) 8 a ≡ false
      → memory (run hi lo 5 st) a ≡ memory st a

-- The loop of `command`: the rounds left, `i`, and the words.
unfoldable pub load_words : ℕ → ℕ → Buffer → Memory ℕ → Memory ℕ → Memory ℕ × Memory ℕ
load_words zero i cmd hi lo = (hi, lo)
load_words (suc n) i cmd hi lo =
    if i % 2 == 0
    then load_words n (i + 1) cmd (write hi (i / 2) (cmd i)) lo
    else load_words n (i + 1) cmd hi (write lo (i / 2) (cmd i))

-- The loop of `program_flash`: the low and the high byte of each word change places.
unfoldable pub swap_words : ℕ → ℕ → Buffer → Buffer → Buffer
swap_words zero i bytes cmd = cmd
swap_words (suc n) i bytes cmd =
    swap_words n (i + 1) bytes
      (if i % 2 == 1 then write cmd (4 + i - 1) (bytes i) else write cmd (4 + i + 1) (bytes i))

module _ (flash : FlashController) where
  -- The words of the controller hold `words` before; the error flags are cleared by the launch.
  unfoldable pub command : ℕ → Buffer → Memory ℕ → flash.State → flash.State
  command len cmd words st =
      let (hi, lo) = load_words len 0 cmd words words in
      if len == 0 || ltb 12 len then st else flash.run hi lo ((len - 1) / 2) st

  -- The first four bytes of a command.
  unfoldable pub command_head : ℕ → ℕ → Buffer → Buffer
  command_head op addr cmd =
      write (write (write (write cmd 0 op) 1 (addr / 65536 % 256)) 2 (addr / 256 % 256)) 3
        (addr % 256)

  -- Uninitialised locals and the words hold `stack`.
  unfoldable pub flash_erase_sector : Buffer → ℕ → flash.State → Bool × flash.State
  flash_erase_sector stack addr st =
      let st' = command 4 (command_head 0x0A addr stack) stack st in
      if not (addr % flash_sector_size == 0)
      then (false, st)
      else if leb flash_size addr
      then (false, st)
      else (is_clear (flash.fstat st'), st')

  unfoldable pub program_flash : Buffer → ℕ → Buffer → flash.State → Bool × flash.State
  program_flash stack addr bytes st =
      let cmd = swap_words 8 0 bytes (command_head 0x06 addr stack) in
      let st' = command 12 cmd stack st in (is_clear (flash.fstat st'), st')

  -- The loop of `flash_write_sector`: the rounds left and `i`.
  unfoldable pub program_from : ℕ → ℕ → Buffer → ℕ → Buffer → flash.State → Bool × flash.State
  program_from zero i stack addr bytes st = (true, st)
  program_from (suc n) i stack addr bytes st =
      let (ok, st') = program_flash stack (addr + i) (advance bytes i) st in
      elim ok [ true ↦ program_from n (i + 8) stack addr bytes st' | false ↦ (false, st') ]

  unfoldable pub flash_write_sector : Buffer → ℕ → Buffer → flash.State → Bool × flash.State
  flash_write_sector stack addr bytes st =
      let (ok, st') = flash_erase_sector stack addr st in
      if not (addr % flash_sector_size == 0)
      then (false, st)
      else if leb flash_size addr
      then (false, st)
      else if not ok
      then (false, st')
      else program_from (flash_sector_size / 8) 0 stack addr bytes st'

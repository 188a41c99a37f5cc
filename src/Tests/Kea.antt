-- ===== src/Tests/Kea.antt =====
-- The board with a flash memory that does what its commands say, on which the theorems are applied.
use uptiny.Base.{
  ℕ, ◌+◌, ◌-◌, ◌/◌, ◌%◌, ◌<◌, ◌≡◌, refl, Bool, true, ◌==◌, if◌then◌else◌, List, [], ◌∷◌, Memory,
  Buffer, arith, ◌∙◌,
}
use uptiny.Kea.Flash.{
  FlashController, is_in, command_addr, flash_write_sector, flash_erase_sector, command,
  command_head, load_words, program_from, program_flash, swap_words, flash_size,
}
use uptiny.Kea.Flash.Sector.{flash_write_sector_lem}
use uptiny.Kea.FlashLoad.{
  flash_load_continue, load_bytes, erase_many, erase_sectors, rewrite_sector, LoaderState,
  flash_load_erase, flash_load_prepare, flash_load_finalize,
}
use uptiny.Kea.FlashLoad.Image.{total, load_pieces, load_image}
use uptiny.Kea.FlashLoad.Stream.{loaded}
use uptiny.Kea.FlashLoad.Sectors.{erased}
use uptiny.Kea.FlashLoad.Erase.{flash_load_erase-stale, flash_load_erase-erased}

-- What a command makes of the memory.
unfoldable pub run_on : Memory ℕ → Memory ℕ → Memory ℕ → Memory ℕ
run_on hi lo m a =
    if hi 0 == 0x0A
    then (if is_in (command_addr hi lo) 512 a then 0xFF else m a)
    else if hi 0 == 0x06
    then (if is_in (command_addr hi lo) 8 a
        then (if a % 2 == 0
            then lo (2 + (a - command_addr hi lo) / 2)
            else hi (2 + (a - command_addr hi lo) / 2))
        else m a)
    else m a

pub run_on-erase :
    (hi lo m : Memory ℕ) (a : ℕ)
    → hi 0 ≡ 0x0A
    → run_on hi lo m a ≡ (if is_in (command_addr hi lo) 512 a then 0xFF else m a)
unfolding run_on
run_on-erase hi lo m a op = rw op refl

pub run_on-program :
    (hi lo m : Memory ℕ) (a : ℕ)
    → hi 0 ≡ 0x06
    → run_on hi lo m a ≡ (
        if is_in (command_addr hi lo) 8 a
        then (if a % 2 == 0
            then lo (2 + (a - command_addr hi lo) / 2)
            else hi (2 + (a - command_addr hi lo) / 2))
        else m a)
unfolding run_on
run_on-program hi lo m a op = rw op refl

unfoldable pub chip : FlashController
chip = record {
  State = Memory ℕ;
  memory = λ m. m;
  fstat = λ m. 0;
  run = λ hi lo n m. run_on hi lo m;
  erase_lem = λ hi lo m op aligned ok a. run_on-erase hi lo m a op;
  program_lem = λ hi lo m op aligned empty ok a. run_on-program hi lo m a op;
  erase_keeps = λ hi lo m op aligned a out. run_on-erase hi lo m a op ∙ rw out refl;
  program_keeps = λ hi lo m op aligned a out. run_on-program hi lo m a op ∙ rw out refl;
}

unfoldable pub zeros : Buffer
zeros i = 0

-- The memory holds 7 everywhere, and the buffer of the loader 9.
unfoldable pub idle : LoaderState chip
unfolding chip
idle = record { hw = λ a. 7; buf = λ j. 9; addr = 0; curaddr = 0; size = 0 }

unfoldable pub pieces : List ℕ
pieces = 2 ∷ 3 ∷ []

-- Five bytes across the end of a sector, in two pieces.
unfoldable pub loading : Bool × LoaderState chip
loading = load_pieces chip zeros pieces 0 (λ i. i) (flash_load_prepare chip zeros 0x81FD 5 idle)

pub loading-ok : loading.0 ≡ true
unfolding chip idle pieces zeros loading run_on load_pieces flash_load_prepare flash_load_continue
    load_bytes flash_write_sector flash_erase_sector command command_head load_words program_from
    program_flash swap_words
loading-ok = refl

pub finalize-ok : (flash_load_finalize chip zeros loading.1).0 ≡ true
unfolding chip idle pieces zeros loading run_on load_pieces flash_load_prepare flash_load_continue
    load_bytes flash_write_sector flash_erase_sector command command_head load_words program_from
    program_flash swap_words flash_load_finalize
finalize-ok = refl

pub pieces-total : total pieces ≡ 5
unfolding total pieces
pieces-total = refl

load_image_example :
    chip.memory (flash_load_finalize chip zeros loading.1).1.hw 0x8200
    ≡ loaded (chip.memory idle.hw) 0x81FD (λ i. i) (total pieces) 0x8200
unfolding loading
load_image_example =
    load_image chip zeros 0x81FD 5 (λ i. i) pieces idle (rw pieces-total (omega arith)) loading-ok
      finalize-ok 0x8200

-- A sector is written.
sevens : chip.State
unfolding chip
sevens = λ a. 7

flash_write_sector-ok : (flash_write_sector chip zeros 0x8200 (λ j. j) sevens).0 ≡ true
unfolding chip zeros sevens run_on flash_write_sector flash_erase_sector command command_head
    load_words program_from program_flash swap_words
flash_write_sector-ok = refl

flash_write_sector_lem_example :
    (0x8200 % 512 ≡ 0)
    × (0x8200 < flash_size)
    × ((a : ℕ)
        → chip.memory (flash_write_sector chip zeros 0x8200 (λ j. j) sevens).1 a
          ≡ (if is_in 0x8200 512 a then a - 0x8200 else chip.memory sevens a))
flash_write_sector_lem_example =
    flash_write_sector_lem chip zeros 0x8200 (λ j. j) sevens flash_write_sector-ok

-- Nothing is to be erased, and the sector before is overwritten.
empty_range-ok : (flash_load_erase chip zeros 0x8000 0 idle).0 ≡ true
unfolding chip idle zeros run_on flash_load_erase erase_many erase_sectors rewrite_sector
    flash_write_sector flash_erase_sector command command_head load_words program_from program_flash
    swap_words
empty_range-ok = refl

flash_load_erase-stale_example :
    chip.memory (flash_load_erase chip zeros 0x8000 0 idle).1.hw (0x8000 + 0 - 512 + 3) ≡ idle.buf 3
flash_load_erase-stale_example =
    flash_load_erase-stale chip zeros 0x8000 0 idle refl refl (omega arith) (omega arith)
      empty_range-ok 3 (omega arith)

-- From inside a sector into the next.
inner_range-ok : (flash_load_erase chip zeros 0x8010 0x200 idle).0 ≡ true
unfolding chip idle zeros run_on flash_load_erase erase_many erase_sectors rewrite_sector
    flash_write_sector flash_erase_sector command command_head load_words program_from program_flash
    swap_words
inner_range-ok = refl

flash_load_erase-erased_example :
    chip.memory (flash_load_erase chip zeros 0x8010 0x200 idle).1.hw 0x8011
    ≡ erased (chip.memory idle.hw) 0x8010 0x200 0x8011
flash_load_erase-erased_example =
    flash_load_erase-erased chip zeros 0x8010 0x200 idle (omega arith) (omega arith) refl
      inner_range-ok 0x8011

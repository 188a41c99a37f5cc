-- ===== src/Kea/Flash/Sector.antt =====
-- What erasing and writing a sector do to the memory.
use uptiny.Base.{
  ℕ, zero, suc, ◌+◌, ◌-◌, ◌*◌, ◌/◌, ◌%◌, ◌<◌, ◌≤◌, ◌≡◌, refl, ◌∙◌, true, leb, ◌==◌, if◌then◌else◌,
  Buffer, advance, arith, Bool-cases, inl, inr,
}
use uptiny.Kea.Flash.{FlashController, is_in, command_addr, load_words, swap_words, command}
use uptiny.Kea.Flash.{command_head, flash_erase_sector, program_flash, program_from}
use uptiny.Kea.Flash.{flash_write_sector, flash_size}

-- One byte of a sector, when eight more of its bytes are programmed.
programmed_next :
    (addr i a : ℕ) (bytes : Buffer) (before after old : ℕ)
    → i + 8 ≤ 512
    → before ≡ (if is_in addr i a then bytes (a - addr) else if is_in addr 512 a then 0xFF else old)
    → after ≡ (if is_in (addr + i) 8 a then bytes (i + (a - (addr + i))) else before)
    → after
      ≡ (if is_in addr (i + 8) a then bytes (a - addr) else if is_in addr 512 a then 0xFF else old)
programmed_next addr i a bytes before after old room was is =
    elim (Bool-cases (is_in (addr + i) 8 a)) [
      | inl here ↦
          let e : i + (a - (addr + i)) ≡ a - addr = ground arith in
          let is' : after ≡ bytes (a - addr) = rw (here, e) at is in ground arith
      | inr other ↦ let is' : after ≡ before = rw other at is in ground arith
    ]

module _ (flash : FlashController) where
  pub erase_words :
      (stack : Buffer) (addr : ℕ)
      → addr < flash_size
      → let (hi, lo) = load_words 4 0 (command_head flash 0x0A addr stack) stack stack in
        (hi 0 ≡ 0x0A) × (command_addr hi lo ≡ addr)
  unfolding load_words command_head
  erase_words stack addr h = (refl, omega arith)

  -- An erased sector holds 0xFF, and the rest of the memory is as before.
  pub flash_erase_sector_lem :
      (stack : Buffer) (addr : ℕ) (st : flash.State)
      → (flash_erase_sector flash stack addr st).0 ≡ true
      → (addr % 512 ≡ 0)
        × (addr < flash_size)
        × ((a : ℕ)
            → flash.memory (flash_erase_sector flash stack addr st).1 a
              ≡ (if is_in addr 512 a then 0xFF else flash.memory st a))
  unfolding flash_erase_sector command
  flash_erase_sector_lem stack addr st ok = elim (Bool-cases (addr % 512 == 0)) [
    | inr odd ↦ cc (rw odd at ok)
    | inl aligned ↦ elim (Bool-cases (leb flash_size addr)) [
      | inl out ↦ cc (rw (aligned, out) at ok)
      | inr inside ↦
          let below : addr < flash_size = ground arith in
          let whole : addr % 512 ≡ 0 = ground arith in
          let (op, at_addr) = erase_words stack addr below in
          let (hi, lo) = load_words 4 0 (command_head flash 0x0A addr stack) stack stack in
          (
            whole,
            below,
            λ a.
                rw (aligned, inside)
                  (rw at_addr at (
                    flash.erase_lem hi lo st op (rw at_addr whole) (rw (aligned, inside) at ok) a)),
          )
    ]
  ]

  -- The words of a program command: the address, and the bytes in the order of their addresses.
  pub program_words_head :
      (stack : Buffer) (addr : ℕ) (bytes : Buffer)
      → addr < flash_size
      → let cmd = swap_words 8 0 bytes (command_head flash 0x06 addr stack) in
        let (hi, lo) = load_words 12 0 cmd stack stack in
        (hi 0 ≡ 0x06) × (command_addr hi lo ≡ addr)
  unfolding load_words swap_words command_head
  program_words_head stack addr bytes h = (refl, omega arith)

  program_words :
      (stack : Buffer) (addr : ℕ) (bytes : Buffer) (j : ℕ)
      → j < 8
      → let cmd = swap_words 8 0 bytes (command_head flash 0x06 addr stack) in
        let (hi, lo) = load_words 12 0 cmd stack stack in
        (if j % 2 == 0 then lo (2 + j / 2) else hi (2 + j / 2)) ≡ bytes j
  unfolding load_words swap_words command_head
  program_words stack addr bytes zero h = refl
  program_words stack addr bytes (suc zero) h = refl
  program_words stack addr bytes (suc (suc zero)) h = refl
  program_words stack addr bytes (suc (suc (suc zero))) h = refl
  program_words stack addr bytes (suc (suc (suc (suc zero)))) h = refl
  program_words stack addr bytes (suc (suc (suc (suc (suc zero))))) h = refl
  program_words stack addr bytes (suc (suc (suc (suc (suc (suc zero)))))) h = refl
  program_words stack addr bytes (suc (suc (suc (suc (suc (suc (suc zero))))))) h = refl
  program_words stack addr bytes (suc (suc (suc (suc (suc (suc (suc (suc j)))))))) h =
      absurd (omega arith)

  -- Eight erased bytes are programmed.
  program_flash_lem :
      (stack : Buffer) (addr : ℕ) (bytes : Buffer) (st : flash.State)
      → addr % 8 ≡ 0
      → addr < flash_size
      → ((a : ℕ) → is_in addr 8 a ≡ true → flash.memory st a ≡ 0xFF)
      → (program_flash flash stack addr bytes st).0 ≡ true
      → (a : ℕ)
      → flash.memory (program_flash flash stack addr bytes st).1 a
        ≡ (if is_in addr 8 a then bytes (a - addr) else flash.memory st a)
  unfolding program_flash command
  program_flash_lem stack addr bytes st aligned below erased ok a =
      let cmd = swap_words 8 0 bytes (command_head flash 0x06 addr stack) in
      let (hi, lo) = load_words 12 0 cmd stack stack in
      let (op, at_addr) = program_words_head stack addr bytes below in
      let written =
        rw at_addr at
          (flash.program_lem hi lo st op (rw at_addr aligned) (rw at_addr erased) ok a) in
      elim (Bool-cases (is_in addr 8 a)) [
        | inr other ↦ rw other (rw other at written)
        | inl inside ↦
            let parity : a % 2 ≡ (a - addr) % 2 = ground arith in
            rw inside (
              rw (inside, parity) at written
              ∙ program_words stack addr bytes (a - addr) (ground arith))
      ]

  -- What the memory of a sector is after `i` of its bytes were programmed.
  abbrev Programmed : flash.State → flash.State → ℕ → Buffer → ℕ → Type 0
  Programmed old st addr bytes i =
      (a : ℕ)
      → flash.memory st a ≡ (
          if is_in addr i a
          then bytes (a - addr)
          else if is_in addr 512 a
          then 0xFF
          else flash.memory old a)

  program_from-Programmed :
      (n i : ℕ) (stack : Buffer) (addr : ℕ) (bytes : Buffer) (old st : flash.State)
      → i + 8 * n ≡ 512
      → addr % 512 ≡ 0
      → addr < flash_size
      → i % 8 ≡ 0
      → Programmed old st addr bytes i
      → (program_from flash n i stack addr bytes st).0 ≡ true
      → Programmed old (program_from flash n i stack addr bytes st).1 addr bytes 512
  unfolding program_from
  program_from-Programmed zero i stack addr bytes old st e aligned below eight before ok =
      let e' : i ≡ 512 = omega arith in rw e' at before
  program_from-Programmed (suc n) i stack addr bytes old st e aligned below eight before ok =
      let step = program_flash flash stack (addr + i) (advance bytes i) st in
      elim (Bool-cases step.0) [
        | inr failed ↦ cc (rw (failed, program_from) at ok)
        | inl done ↦
            let written =
              program_flash_lem stack (addr + i) (advance bytes i) st (omega arith) (omega arith)
                (λ a inside. before a ∙ ground arith) done in
            rw (done, program_from)
              (program_from-Programmed n (i + 8) stack addr bytes old step.1 (omega arith) aligned
                below (omega arith)
                (λ a.
                  programmed_next addr i a bytes (flash.memory st a) (flash.memory step.1 a)
                    (flash.memory old a) (omega arith) (before a) (written a))
                (rw (done, program_from) at ok))
      ]

  -- Where `flash_write_sector` returns 1, the address is that of a sector of the memory, the sector
  -- holds the bytes, and the rest of the memory is as before.
  pub flash_write_sector_lem :
      (stack : Buffer) (addr : ℕ) (bytes : Buffer) (st : flash.State)
      → (flash_write_sector flash stack addr bytes st).0 ≡ true
      → (addr % 512 ≡ 0)
        × (addr < flash_size)
        × ((a : ℕ)
            → flash.memory (flash_write_sector flash stack addr bytes st).1 a
              ≡ (if is_in addr 512 a then bytes (a - addr) else flash.memory st a))
  unfolding flash_write_sector
  flash_write_sector_lem stack addr bytes st ok =
      let erase = flash_erase_sector flash stack addr st in
      elim (Bool-cases (addr % 512 == 0)) [
        | inr odd ↦ cc (rw odd at ok)
        | inl aligned ↦ elim (Bool-cases (leb flash_size addr)) [
          | inl out ↦ cc (rw (aligned, out) at ok)
          | inr inside ↦ elim (Bool-cases erase.0) [
            | inr failed ↦ cc (rw (aligned, inside, failed) at ok)
            | inl erased ↦
                let (whole, below, empty) = flash_erase_sector_lem stack addr st erased in
                (
                  whole,
                  below,
                  λ a.
                      rw (aligned, inside, erased)
                        (program_from-Programmed 64 0 stack addr bytes st erase.1 refl whole below
                            refl (λ b. empty b ∙ ground arith) (rw (aligned, inside, erased) at ok)
                            a
                          ∙ ground arith),
                )
          ]
        ]
      ]

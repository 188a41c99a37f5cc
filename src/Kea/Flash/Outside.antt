-- ===== src/Kea/Flash/Outside.antt =====
-- What the driver leaves alone, with and without an error.
use uptiny.Base.{
  ℕ, zero, suc, ◌+◌, ◌*◌, ◌%◌, ◌<◌, ◌≡◌, refl, ◌∙◌, false, leb, ◌==◌, Buffer, advance, arith,
  Bool-cases, inl, inr,
}
use uptiny.Kea.Flash.{
  FlashController, is_in, load_words, swap_words, command, command_head, flash_erase_sector,
  program_flash, program_from, flash_write_sector, flash_size,
}
use uptiny.Kea.Flash.Sector.{erase_words, program_words_head}

module _ (flash : FlashController) where
  pub flash_erase_sector-outside :
      (stack : Buffer) (addr : ℕ) (st : flash.State) (a : ℕ)
      → is_in addr 512 a ≡ false
      → flash.memory (flash_erase_sector flash stack addr st).1 a ≡ flash.memory st a
  unfolding flash_erase_sector command
  flash_erase_sector-outside stack addr st a outside = elim (Bool-cases (addr % 512 == 0)) [
    | inr odd ↦ rw odd refl
    | inl aligned ↦ elim (Bool-cases (leb flash_size addr)) [
      | inl out ↦ rw (aligned, out) refl
      | inr inside ↦
          let (op, at_addr) = erase_words flash stack addr (ground arith) in
          let (hi, lo) = load_words 4 0 (command_head flash 0x0A addr stack) stack stack in
          let whole : addr % 512 ≡ 0 = ground arith in
          rw (aligned, inside)
            (flash.erase_keeps hi lo st op (rw at_addr whole) a (rw at_addr outside))
    ]
  ]

  program_flash-outside :
      (stack : Buffer) (addr : ℕ) (bytes : Buffer) (st : flash.State) (a : ℕ)
      → addr % 8 ≡ 0
      → addr < flash_size
      → is_in addr 8 a ≡ false
      → flash.memory (program_flash flash stack addr bytes st).1 a ≡ flash.memory st a
  unfolding program_flash command
  program_flash-outside stack addr bytes st a aligned below outside =
      let cmd = swap_words 8 0 bytes (command_head flash 0x06 addr stack) in
      let (hi, lo) = load_words 12 0 cmd stack stack in
      let (op, at_addr) = program_words_head flash stack addr bytes below in
      flash.program_keeps hi lo st op (rw at_addr aligned) a (rw at_addr outside)

  program_from-outside :
      (n i : ℕ) (stack : Buffer) (addr : ℕ) (bytes : Buffer) (st : flash.State) (a : ℕ)
      → i + 8 * n ≡ 512
      → addr % 512 ≡ 0
      → addr < flash_size
      → i % 8 ≡ 0
      → is_in addr 512 a ≡ false
      → flash.memory (program_from flash n i stack addr bytes st).1 a ≡ flash.memory st a
  unfolding program_from
  program_from-outside zero i stack addr bytes st a e aligned below eight outside = refl
  program_from-outside (suc n) i stack addr bytes st a e aligned below eight outside =
      let step = program_flash flash stack (addr + i) (advance bytes i) st in
      let same =
        program_flash-outside stack (addr + i) (advance bytes i) st a (omega arith) (omega arith)
          (ground arith) in
      elim (Bool-cases step.0) [
        | inr failed ↦ rw (failed, program_from) same
        | inl done ↦
            rw (done, program_from)
              (program_from-outside n (i + 8) stack addr bytes step.1 a (omega arith) aligned below
                  (omega arith) outside
                ∙ same)
      ]

  pub flash_write_sector-outside :
      (stack : Buffer) (addr : ℕ) (bytes : Buffer) (st : flash.State) (a : ℕ)
      → is_in addr 512 a ≡ false
      → flash.memory (flash_write_sector flash stack addr bytes st).1 a ≡ flash.memory st a
  unfolding flash_write_sector
  flash_write_sector-outside stack addr bytes st a outside =
      let erase = flash_erase_sector flash stack addr st in
      let same = flash_erase_sector-outside stack addr st a outside in
      elim (Bool-cases (addr % 512 == 0)) [
        | inr odd ↦ rw odd refl
        | inl aligned ↦ elim (Bool-cases (leb flash_size addr)) [
          | inl out ↦ rw (aligned, out) refl
          | inr inside ↦ elim (Bool-cases erase.0) [
            | inr failed ↦ rw (aligned, inside, failed) same
            | inl erased ↦
                rw (aligned, inside, erased)
                  (program_from-outside 64 0 stack addr bytes erase.1 a refl (ground arith)
                      (ground arith) refl outside
                    ∙ same)
          ]
        ]
      ]

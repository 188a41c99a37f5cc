-- ===== src/Kea/FlashLoad/Below.antt =====
-- The memory below an address, under the loader and the erasing of a range.
use uptiny.Base.{
  ℕ, zero, suc, ◌+◌, ◌-◌, ◌*◌, ◌/◌, ◌%◌, ◌^◌, ◌<◌, ◌≤◌, ◌≡◌, refl, ◌∙◌, ◌==◌, Buffer, write, arith,
  Bool-cases, inl, inr,
}
use uptiny.Kea.Flash.{FlashController, flash_erase_sector, flash_write_sector, flash_size}
use uptiny.Kea.Flash.Sector.{flash_write_sector_lem}
use uptiny.Kea.Flash.Outside.{flash_erase_sector-outside, flash_write_sector-outside}
use uptiny.Kea.FlashLoad.{
  LoaderState, load_bytes, flash_load_continue, flash_load_finalize, erase_sectors, rewrite_sector,
  erase_many, flash_load_erase,
}

-- `b` is the address, the beginning of a sector.
module _ (flash : FlashController) (stack : Buffer) (b : ℕ) (aligned : b % 512 ≡ 0) where
  abbrev pub Keeps : flash.State → flash.State → Type 0
  Keeps old new = (a : ℕ) → a < b → flash.memory new a ≡ flash.memory old a

  -- The loader is at or above the address, and no further than the buffer behind the memory.
  abbrev pub IsAbove : LoaderState flash → Type 0
  IsAbove st = (b ≤ st.curaddr) × (st.curaddr < flash_size + 512)

  load_bytes-Keeps :
      (n i i_buf : ℕ) (bytes : Buffer) (st : LoaderState flash)
      → i_buf ≡ st.curaddr % 512
      → IsAbove st
      → let (ok, st') = load_bytes flash stack n i i_buf bytes st in
        IsAbove st' × Keeps st.hw st'.hw
  unfolding load_bytes
  load_bytes-Keeps zero i i_buf bytes st at above = (above, λ a lt. refl)
  load_bytes-Keeps (suc n) i i_buf bytes st at (low, high) =
      let sector = st.curaddr - st.curaddr % 512 in
      let buf = write st.buf i_buf (bytes i) in
      elim (Bool-cases (i_buf == 511)) [
        | inr space ↦
            let room : st.curaddr % 512 < 511 = ground arith in
            rw (load_bytes, space)
              (load_bytes-Keeps n (i + 1) (i_buf + 1) bytes
                (record st { buf = buf; curaddr = (st.curaddr + 1) % 2 ^ 32 }) (omega arith)
                (omega arith, omega arith))
        | inl last ↦
            let full : st.curaddr % 512 ≡ 511 = ground arith in
            let same : Keeps st.hw (flash_write_sector flash stack sector buf st.hw).1 =
              λ a lt. flash_write_sector-outside flash stack sector buf st.hw a (ground arith) in
            elim (Bool-cases (flash_write_sector flash stack sector buf st.hw).0) [
              | inr failed ↦ rw (load_bytes, last, failed) ((low, high), same)
              | inl done ↦
                  let (whole, below, written) =
                    flash_write_sector_lem flash stack sector buf st.hw done in
                  let (above, rest) =
                    load_bytes-Keeps n (i + 1) 0 bytes
                      (record st {
                        buf = buf;
                        hw = (flash_write_sector flash stack sector buf st.hw).1;
                        curaddr = (st.curaddr + 1) % 2 ^ 32;
                      })
                      (omega arith) (omega arith, omega arith) in
                  rw (load_bytes, last, done) (above, λ a lt. rest a lt ∙ same a lt)
            ]
      ]

  pub flash_load_continue-Keeps :
      (bytes : Buffer) (len : ℕ) (st : LoaderState flash)
      → IsAbove st
      → let (ok, st') = flash_load_continue flash stack bytes len st in
        IsAbove st' × Keeps st.hw st'.hw
  unfolding flash_load_continue
  flash_load_continue-Keeps bytes len st above =
      load_bytes-Keeps len 0 (st.curaddr % 512) bytes st refl above

  pub flash_load_finalize-Keeps :
      (st : LoaderState flash) → IsAbove st → Keeps st.hw (flash_load_finalize flash stack st).1.hw
  unfolding flash_load_finalize
  flash_load_finalize-Keeps st (low, high) = λ a lt.
      flash_write_sector-outside flash stack (st.curaddr - st.curaddr % 512) _ st.hw a
        (ground arith)

  erase_sectors-Keeps :
      (n i : ℕ) (hw : flash.State) → b ≤ i * 512 → Keeps hw (erase_sectors flash stack n i hw).1
  unfolding erase_sectors
  erase_sectors-Keeps zero i hw above = λ a lt. refl
  erase_sectors-Keeps (suc n) i hw above =
      let first = flash_erase_sector flash stack (i * 512) hw in
      let same : Keeps hw first.1 =
        λ a lt. flash_erase_sector-outside flash stack (i * 512) hw a (ground arith) in
      elim (Bool-cases first.0) [
        | inr failed ↦ rw (erase_sectors, failed) same
        | inl done ↦
            rw (erase_sectors, done)
              (λ a lt. erase_sectors-Keeps n (i + 1) first.1 (omega arith) a lt ∙ same a lt)
      ]

  rewrite_sector-Keeps :
      (sec : ℕ) (st : LoaderState flash)
      → b ≤ sec * 512
      → Keeps st.hw (rewrite_sector flash stack sec st).1.hw
  unfolding rewrite_sector
  rewrite_sector-Keeps sec st above =
      let first = flash_erase_sector flash stack (sec * 512) st.hw in
      let same : Keeps st.hw first.1 =
        λ a lt. flash_erase_sector-outside flash stack (sec * 512) st.hw a (ground arith) in
      elim (Bool-cases first.0) [
        | inr failed ↦ rw failed same
        | inl done ↦ rw done (λ a lt.
            flash_write_sector-outside flash stack (sec * 512) st.buf first.1 a (ground arith)
            ∙ same a lt)
      ]

  erase_many-Keeps :
      (head tail s e : ℕ) (st : LoaderState flash)
      → b ≤ s * 512
      → b ≤ e * 512
      → Keeps st.hw (erase_many flash stack head tail s e st).1.hw
  unfolding erase_many
  erase_many-Keeps head tail s e st low high =
      let first = erase_sectors flash stack (e - s) s st.hw in
      let second = flash_write_sector flash stack (s * 512) st.buf first.1 in
      let same = erase_sectors-Keeps (e - s) s st.hw low in
      let same' : Keeps st.hw second.1 = λ a lt.
        flash_write_sector-outside flash stack (s * 512) st.buf first.1 a (ground arith)
        ∙ same a lt in
      elim (Bool-cases first.0) [
        | inr failed ↦ rw failed same
        | inl done ↦ elim (Bool-cases (head == 0)) [
          | inl none ↦
              rw (done, none)
                (λ a lt.
                  rewrite_sector-Keeps e (record st { hw = first.1; buf = _ }) high a lt
                  ∙ same a lt)
          | inr some ↦ elim (Bool-cases second.0) [
            | inr failed ↦ rw (done, some, failed) same'
            | inl done' ↦
                rw (done, some, done')
                  (λ a lt.
                    rewrite_sector-Keeps e (record st { hw = second.1; buf = _ }) high a lt
                    ∙ same' a lt)
          ]
        ]
      ]

  pub flash_load_erase-Keeps :
      (start size : ℕ) (st : LoaderState flash)
      → b ≤ start
      → 0 < size
      → start + size ≤ 2 ^ 32
      → Keeps st.hw (flash_load_erase flash stack start size st).1.hw
  unfolding flash_load_erase
  flash_load_erase-Keeps start size st low nonempty room =
      let e = (start + size + 2 ^ 32 - 1) % 2 ^ 32 / 512 in
      let above : b ≤ start / 512 * 512 = omega arith in
      let above' : b ≤ e * 512 = omega arith in
      elim (Bool-cases (start / 512 == e)) [
        | inr several ↦
            rw several (erase_many-Keeps _ _ (start / 512) e (record st { buf = _ }) above above')
        | inl one ↦ rw one (rewrite_sector-Keeps e (record st { buf = _ }) above')
      ]

  pub flash_load_erase-curaddr :
      (start size : ℕ) (st : LoaderState flash)
      → (flash_load_erase flash stack start size st).1.curaddr ≡ st.curaddr
  unfolding flash_load_erase erase_many rewrite_sector
  flash_load_erase-curaddr start size st = grind arith

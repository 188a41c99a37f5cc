-- ===== src/Kea/FlashLoad/Sectors.antt =====
-- The parts of `flash_load_erase`: the sectors that are erased, and those that are written again.
use uptiny.Base.{
  ℕ, zero, suc, ◌+◌, ◌-◌, ◌*◌, ◌/◌, ◌%◌, ◌<◌, ◌≡◌, refl, ◌∙◌, sym, true, false, not, ◌&&◌, ◌||◌,
  ltb, ◌==◌, if◌then◌else◌, Memory, Buffer, advance, arith, Bool-cases, inl, inr,
}
use uptiny.Kea.Flash.{FlashController, is_in, flash_erase_sector, flash_write_sector}
use uptiny.Kea.Flash.Sector.{flash_erase_sector_lem, flash_write_sector_lem}
use uptiny.Kea.FlashLoad.{LoaderState, copy_at, fill_at, erase_sectors, rewrite_sector, keep_tail}
use uptiny.Kea.FlashLoad.{erase_many}

-- The memory with `n` bytes at `addr` erased.
abbrev pub erased : Memory ℕ → ℕ → ℕ → Memory ℕ
erased old addr n a = if is_in addr n a then 0xFF else old a

-- Bytes of the first sector, of the last, and of the sectors between them, when `end` is the last
-- address of a range of several sectors.
module _ (start size end a old : ℕ) (last : end + 1 ≡ start + size)
    (several : (start / 512 == end / 512) ≡ false) where
  pub last_sector_byte :
      ((end + 1) % 512 == 0) ≡ false
      → is_in (end / 512 * 512) 512 a ≡ true
      → (if ltb (a - end / 512 * 512) ((end + 1) % 512) then 0xFF else old)
        ≡ (if is_in start size a then 0xFF else old)
  last_sector_byte tail here = ground arith

  pub first_sector_byte :
      0 < size
      → is_in (start / 512 * 512) 512 a ≡ true
      → (if ltb (a - start / 512 * 512) (start % 512) then old else 0xFF)
        ≡ (if is_in start size a then 0xFF else old)
  first_sector_byte some here = ground arith

  pub middle_byte :
      is_in (end / 512 * 512) 512 a ≡ false
      → (start % 512 == 0) || not (is_in (start / 512 * 512) 512 a) ≡ true
      → (if is_in (start / 512 * 512) ((end / 512 - start / 512) * 512) a then 0xFF else old)
        ≡ (if is_in start size a then 0xFF else old)
  middle_byte other outside = ground arith

module _ (flash : FlashController) (stack : Buffer) where
  erase_sectors-erased :
      (n i : ℕ) (hw : flash.State)
      → (erase_sectors flash stack n i hw).0 ≡ true
      → (a : ℕ)
      → flash.memory (erase_sectors flash stack n i hw).1 a
        ≡ erased (flash.memory hw) (i * 512) (n * 512) a
  unfolding erase_sectors
  erase_sectors-erased zero i hw ok a =
      let outside : is_in (i * 512) (0 * 512) a ≡ false = ground arith in rw outside refl
  erase_sectors-erased (suc n) i hw ok a =
      let first = flash_erase_sector flash stack (i * 512) hw in
      elim (Bool-cases first.0) [
        | inr failed ↦ cc (rw (erase_sectors, failed) at ok)
        | inl done ↦
            let after = erase_sectors-erased n (i + 1) first.1 (rw (erase_sectors, done) at ok) a in
            let before = (flash_erase_sector_lem flash stack (i * 512) hw done).2 a in
            rw (erase_sectors, done) (after ∙ ground (arith, before))
      ]

  -- The last sector holds the buffer.
  pub rewrite_sector_lem :
      (sec : ℕ) (st : LoaderState flash)
      → (rewrite_sector flash stack sec st).0 ≡ true
      → (a : ℕ)
      → flash.memory (rewrite_sector flash stack sec st).1.hw a
        ≡ (if is_in (sec * 512) 512 a then st.buf (a - sec * 512) else flash.memory st.hw a)
  unfolding rewrite_sector
  rewrite_sector_lem sec st ok a =
      let first = flash_erase_sector flash stack (sec * 512) st.hw in
      elim (Bool-cases first.0) [
        | inr failed ↦ cc
        | inl done ↦
            let written =
              flash_write_sector_lem flash stack (sec * 512) st.buf first.1 (rw done at ok) in
            let before = (flash_erase_sector_lem flash stack (sec * 512) st.hw done).2 a in
            rw done (written.2 a ∙ ground (arith, before))
      ]

  -- The first sector of several: erased, and where the range begins inside it, written again.
  first_sector :
      (head s e : ℕ) (buf : Buffer) (hw : flash.State)
      → let (ok, hw') = erase_sectors flash stack (e - s) s hw in
        let (ok', hw'') =
          if head == 0 then (true, hw') else flash_write_sector flash stack (s * 512) buf hw' in
        ok ≡ true
        → ok' ≡ true
        → (a : ℕ)
        → flash.memory hw'' a ≡ (
            if not (head == 0) && is_in (s * 512) 512 a
            then buf (a - s * 512)
            else erased (flash.memory hw) (s * 512) ((e - s) * 512) a)
  first_sector head s e buf hw ok ok' a =
      let before = erase_sectors-erased (e - s) s hw ok a in
      elim (Bool-cases (head == 0)) [
        | inl none ↦ rw none before
        | inr some ↦
            let written = flash_write_sector_lem flash stack (s * 512) buf _ (rw some at ok') in
            rw some (written.2 a ∙ ground (arith, before))
      ]

  -- A byte of the last sector, when the bytes behind the range are in the buffer.
  pub keep_tail_lem :
      (e tail : ℕ) (hw : flash.State) (buf : Buffer) (a : ℕ)
      → tail < 512
      → is_in (e * 512) 512 a ≡ true
      → keep_tail flash stack e tail hw buf (a - e * 512)
        ≡ (if ltb (a - e * 512) tail then buf (a - e * 512) else flash.memory hw a)
  unfolding keep_tail
  keep_tail_lem e tail hw buf a small here = elim (Bool-cases (ltb (a - e * 512) tail)) [
    | inl before ↦
        let out : is_in tail (512 - tail) (a - e * 512) ≡ false = ground arith in
        rw (before, out) refl
    | inr behind ↦
        let kept : is_in tail (512 - tail) (a - e * 512) ≡ true = ground arith in
        let at : e * 512 + tail + (a - e * 512 - tail) ≡ a = ground arith in
        rw (behind, kept, at) refl
  ]

  -- A byte of the first sector, when the bytes before the range are in the buffer.
  pub keep_head_lem :
      (s head : ℕ) (hw : flash.State) (buf : Buffer) (a : ℕ)
      → head < 512
      → is_in (s * 512) 512 a ≡ true
      → fill_at head
          (512 - head)
          0xFF
          (copy_at 0 head (advance (flash.memory hw) (s * 512)) buf)
          (a - s * 512)
        ≡ (if ltb (a - s * 512) head then flash.memory hw a else 0xFF)
  keep_head_lem s head hw buf a small here = elim (Bool-cases (ltb (a - s * 512) head)) [
    | inl before ↦
        let out : is_in head (512 - head) (a - s * 512) ≡ false = ground arith in
        let kept : is_in 0 head (a - s * 512) ≡ true = ground arith in
        let at : s * 512 + (a - s * 512 - 0) ≡ a = ground arith in rw (before, out, kept, at) refl
    | inr behind ↦
        let filled : is_in head (512 - head) (a - s * 512) ≡ true = ground arith in
        rw (behind, filled) refl
  ]

  -- More than one sector, or an empty range before `s`.
  pub erase_many_lem :
      (head tail s e : ℕ) (st : LoaderState flash)
      → not (s == e) ≡ true
      → tail < 512
      → (erase_many flash stack head tail s e st).0 ≡ true
      → (a : ℕ)
      → flash.memory (erase_many flash stack head tail s e st).1.hw a ≡ (
          if is_in (e * 512) 512 a
          then (if tail == 0
              then st.buf (a - e * 512)
              else if ltb (a - e * 512) tail
              then 0xFF
              else flash.memory st.hw a)
          else if not (head == 0) && is_in (s * 512) 512 a
          then st.buf (a - s * 512)
          else erased (flash.memory st.hw) (s * 512) ((e - s) * 512) a)
  unfolding erase_many
  erase_many_lem head tail s e st several small ok a =
      let first = erase_sectors flash stack (e - s) s st.hw in
      let second =
        if head == 0
        then (true, first.1)
        else flash_write_sector flash stack (s * 512) st.buf first.1 in
      elim (Bool-cases first.0) [
        | inr failed ↦ cc
        | inl done ↦ elim (Bool-cases second.0) [
          | inr failed ↦ cc
          | inl done' ↦
              let buf =
                if tail == 0
                then st.buf
                else keep_tail flash stack e tail second.1 (fill_at 0 tail 0xFF st.buf) in
              let last =
                rewrite_sector_lem e (record st { hw = second.1; buf = buf })
                  (rw (done, done') at ok) a in
              let before = first_sector head s e st.buf st.hw done done' a in
              elim (Bool-cases (is_in (e * 512) 512 a)) [
                | inr other ↦ rw (done, done', other) ((rw other at last) ∙ before)
                | inl here ↦ elim (Bool-cases (tail == 0)) [
                  | inl none ↦ rw (done, done', here, none) (rw (here, none) at last)
                  | inr some ↦
                      let untouched : flash.memory second.1 a ≡ flash.memory st.hw a =
                        before ∙ ground arith in
                      rw (done, done', here, some, sym untouched)
                        ((rw (here, some) at last)
                          ∙ keep_tail_lem e tail second.1 (fill_at 0 tail 0xFF st.buf) a small here
                          ∙ ground arith)
                ]
              ]
        ]
      ]

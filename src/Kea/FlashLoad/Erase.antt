-- ===== src/Kea/FlashLoad/Erase.antt =====
-- What `flash_load_erase` leaves in flash memory.
use uptiny.Base.{
  ℕ, ◌+◌, ◌-◌, ◌*◌, ◌/◌, ◌%◌, ◌^◌, ◌<◌, ◌≤◌, ◌≡◌, refl, ◌∙◌, true, false, not, ◌==◌, if◌then◌else◌,
  Buffer, arith, Bool-cases, inl, inr,
}
use uptiny.Kea.Flash.{FlashController, is_in}
use uptiny.Kea.FlashLoad.{LoaderState}
use uptiny.Kea.FlashLoad.{flash_load_erase}
use uptiny.Kea.FlashLoad.Sectors.{
  erased, last_sector_byte, first_sector_byte, middle_byte, rewrite_sector_lem, keep_tail_lem,
  keep_head_lem, erase_many_lem,
}

module _ (flash : FlashController) (stack : Buffer) where
  -- Where the range begins and ends on sector boundaries, at or behind 512 and no further than 2 ^ 32,
  -- and `flash_load_erase` returns 1, the last sector of the range, or the sector before an empty range,
  -- holds what an earlier call left in the buffer.
  pub flash_load_erase-stale :
      (start size : ℕ) (st : LoaderState flash)
      → start % 512 ≡ 0
      → size % 512 ≡ 0
      → 512 ≤ start + size
      → start + size ≤ 2 ^ 32
      → (flash_load_erase flash stack start size st).0 ≡ true
      → (j : ℕ) → j < 512
      → flash.memory (flash_load_erase flash stack start size st).1.hw (start + size - 512 + j)
        ≡ st.buf j
  unfolding flash_load_erase
  flash_load_erase-stale start size st head tail low high ok j small =
      let end = (start + size + 2 ^ 32 - 1) % 2 ^ 32 in
      let s = start / 512 in
      let e = end / 512 in
      let a = start + size - 512 + j in
      let none : (start % 512 == 0) ≡ true = ground arith in
      let none' : ((end + 1) % 512 == 0) ≡ true = ground arith in
      let here : is_in (e * 512) 512 a ≡ true = ground arith in
      let at : a - e * 512 ≡ j = omega arith in
      elim (Bool-cases (s == e)) [
        | inr several ↦
            let many =
              erase_many_lem flash stack (start % 512) ((end + 1) % 512) s e _ (rw several refl)
                (omega arith) (rw several at ok) a in
            rw (several, none) (rw (here, none', none, at) at many)
        | inl one ↦
            let last = rewrite_sector_lem flash stack e _ (rw one at ok) a in
            rw (one, none, none') (rw (here, none', none, at) at last)
      ]

  -- Where `flash_load_erase` returns 1 for a range that is not empty, ends no further than 2 ^ 32, and
  -- begins inside its only sector or ends inside a later one, the range is erased, and the rest of the
  -- memory is as before.
  pub flash_load_erase-erased :
      (start size : ℕ) (st : LoaderState flash)
      → 0 < size
      → start + size ≤ 2 ^ 32
      → (if start / 512 == (start + size - 1) / 512
          then not (start % 512 == 0)
          else not ((start + size) % 512 == 0))
        ≡ true
      → (flash_load_erase flash stack start size st).0 ≡ true
      → (a : ℕ)
      → flash.memory (flash_load_erase flash stack start size st).1.hw a
        ≡ erased (flash.memory st.hw) start size a
  unfolding flash_load_erase
  flash_load_erase-erased start size st some room filled ok a =
      let end = (start + size + 2 ^ 32 - 1) % 2 ^ 32 in
      let s = start / 512 in
      let e = end / 512 in
      let last : end + 1 ≡ start + size = omega arith in
      let e' : (start + size - 1) / 512 ≡ e = omega arith in
      let t' : (start + size) % 512 ≡ (end + 1) % 512 = omega arith in
      elim (Bool-cases (s == e)) [
        | inr several ↦
            let tail : ((end + 1) % 512 == 0) ≡ false = ground arith in
            let many =
              erase_many_lem flash stack (start % 512) ((end + 1) % 512) s e _ (rw several refl)
                (omega arith) (rw several at ok) a in
            rw several (
              many ∙ elim (Bool-cases (is_in (e * 512) 512 a)) [
                | inl here ↦
                    rw (here, tail)
                      (last_sector_byte start size end a (flash.memory st.hw a) last several tail
                        here)
                | inr other ↦ elim (Bool-cases (start % 512 == 0)) [
                  | inl none ↦
                      rw (other, none)
                        (middle_byte start size end a (flash.memory st.hw a) last several other
                          (rw none refl))
                  | inr head ↦ elim (Bool-cases (is_in (s * 512) 512 a)) [
                    | inl first ↦
                        rw (other, head, first)
                          (keep_head_lem flash stack s (start % 512) st.hw st.buf a (omega arith)
                              first
                            ∙ first_sector_byte start size end a (flash.memory st.hw a) last several
                                some first)
                    | inr outside ↦
                        rw (other, head, outside)
                          (middle_byte start size end a (flash.memory st.hw a) last several other
                            (rw (head, outside) refl))
                  ]
                ]
              ])
        | inl one ↦
            let head : (start % 512 == 0) ≡ false = ground arith in
            let after = rewrite_sector_lem flash stack e _ (rw one at ok) a in
            rw one (
              after ∙ elim (Bool-cases (is_in (e * 512) 512 a)) [
                | inr other ↦ rw other (ground arith)
                | inl here ↦
                    let same : e ≡ s = ground arith in
                    let kept =
                      keep_head_lem flash stack s (start % 512) st.hw st.buf a (omega arith)
                        (rw same at here) in
                    elim (Bool-cases ((end + 1) % 512 == 0)) [
                      | inl none ↦ rw (here, none, head, same) (kept ∙ ground arith)
                      | inr tail ↦
                          rw (here, tail)
                            (keep_tail_lem flash stack e ((end + 1) % 512) st.hw _ a (omega arith)
                                here
                              ∙ rw (head, same) (ground (arith, kept)))
                    ]
              ])
      ]

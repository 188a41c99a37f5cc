-- ===== src/Kea/FlashLoad/Image.antt =====
-- Loading an image in pieces, from the preparation to the end.
use uptiny.Base.{
  ℕ, ◌+◌, ◌-◌, ◌%◌, ◌^◌, ◌<◌, ◌≡◌, refl, ◌∙◌, Bool, true, false, ltb, List, [], ◌∷◌, Memory, Buffer,
  advance, arith, Bool-cases, inl, inr,
}
use uptiny.Kea.Flash.{FlashController, is_in}
use uptiny.Kea.Flash.Sector.{flash_write_sector_lem}
use uptiny.Kea.FlashLoad.{LoaderState, copy_at, flash_load_prepare, flash_load_continue}
use uptiny.Kea.FlashLoad.{flash_load_finalize}
use uptiny.Kea.FlashLoad.Stream.{loaded, IsLoaded, load_bytes-IsLoaded}

-- An image whose bytes from the `k`-th on come in pieces of the lengths, one after another.
unfoldable pub total : List ℕ → ℕ
total [] = 0
total (len ∷ lens) = len + total lens

unfoldable pub load_pieces :
    (flash : FlashController)
    → Buffer
    → List ℕ
    → ℕ
    → Buffer
    → LoaderState flash
    → Bool × LoaderState flash
load_pieces flash stack [] k image st = (true, st)
load_pieces flash stack (len ∷ lens) k image st =
    let (ok, st') = flash_load_continue flash stack (advance image k) len st in
    elim ok [ true ↦ load_pieces flash stack lens (k + len) image st' | false ↦ (false, st') ]

module _ (flash : FlashController) (stack : Buffer) (old : Memory ℕ) (addr : ℕ)
    (image : Buffer) where
  -- `flash_load_prepare` puts what stands before the image in its first sector into the buffer.
  flash_load_prepare-IsLoaded :
      (size : ℕ) (st : LoaderState flash)
      → ((a : ℕ) → flash.memory st.hw a ≡ old a)
      → IsLoaded flash stack old addr image 0 (flash_load_prepare flash stack addr size st)
  unfolding flash_load_prepare
  flash_load_prepare-IsLoaded size st same = record {
    cur = omega arith;
    written = λ a lt. same a ∙ ground arith;
    rest = λ a le. same a;
    begun = λ j lt.
        let inside : is_in 0 (addr % 512) j ≡ true = ground arith in
        let outside : is_in addr 0 (addr - addr % 512 + j) ≡ false = ground arith in
        let whole : j - 0 ≡ j = omega arith in
        rw (inside, outside, whole) (same (addr - addr % 512 + j));
  }

  -- The buffer with the bytes behind the image.
  completed :
      (n : ℕ) (st : LoaderState flash)
      → IsLoaded flash stack old addr image n st
      → (j : ℕ)
      → let sector = st.curaddr - st.curaddr % 512 in
        let tail = st.curaddr % 512 in
        j < 512
        → copy_at tail (512 - tail) (advance (flash.memory st.hw) st.curaddr) st.buf j
          ≡ loaded old addr image n (sector + j)
  completed n st v j small = elim (Bool-cases (ltb j (st.curaddr % 512))) [
    | inl image_part ↦
        let out : is_in (st.curaddr % 512) (512 - st.curaddr % 512) j ≡ false = ground arith in
        rw out (v.begun j (ground arith))
    | inr behind ↦
        let inside : is_in (st.curaddr % 512) (512 - st.curaddr % 512) j ≡ true = ground arith in
        let at : st.curaddr + (j - st.curaddr % 512) ≡ st.curaddr - st.curaddr % 512 + j =
          ground arith in
        let past : is_in addr n (st.curaddr - st.curaddr % 512 + j) ≡ false =
          ground (arith, v.cur) in
        rw (inside, at, past) (v.rest (st.curaddr - st.curaddr % 512 + j) (omega arith))
  ]

  -- `flash_load_finalize` completes the last sector with what stands behind the image.
  flash_load_finalize-loaded :
      (n : ℕ) (st : LoaderState flash)
      → IsLoaded flash stack old addr image n st
      → (flash_load_finalize flash stack st).0 ≡ true
      → (a : ℕ)
      → flash.memory (flash_load_finalize flash stack st).1.hw a ≡ loaded old addr image n a
  unfolding flash_load_finalize
  flash_load_finalize-loaded n st v ok a =
      let sector = st.curaddr - st.curaddr % 512 in
      let done = flash_write_sector_lem flash stack sector _ st.hw ok in
      elim (Bool-cases (is_in sector 512 a)) [
        | inl here ↦
            let at : sector + (a - sector) ≡ a = ground arith in
            (rw here at (done.2 a)) ∙ rw at at (completed n st v (a - sector) (ground arith))
        | inr other ↦ elim (Bool-cases (ltb a sector)) [
          | inl before ↦ (rw other at (done.2 a)) ∙ v.written a (ground arith)
          | inr behind ↦
              let past : is_in addr n a ≡ false = ground (arith, v.cur) in
              rw past ((rw other at (done.2 a)) ∙ v.rest a (ground arith))
        ]
      ]

  load_pieces-IsLoaded :
      (lens : List ℕ) (k : ℕ) (st : LoaderState flash)
      → addr + k + total lens < 2 ^ 32
      → IsLoaded flash stack old addr image k st
      → (load_pieces flash stack lens k image st).0 ≡ true
      → IsLoaded flash stack old addr image
          (k + total lens)
          (load_pieces flash stack lens k image st).1
  unfolding total load_pieces flash_load_continue
  load_pieces-IsLoaded [] k st room v ok = let e : k + 0 ≡ k = omega arith in rw e v
  load_pieces-IsLoaded (len ∷ lens) k st room v ok =
      let piece = flash_load_continue flash stack (advance image k) len st in
      let same : k + 0 ≡ k = omega arith in
      let whole : 0 + len ≡ len = omega arith in
      let sum : k + (len + total lens) ≡ k + len + total lens = omega arith in
      elim (Bool-cases piece.0) [
        | inr failed ↦ cc (rw (load_pieces, failed) at ok)
        | inl done ↦
            rw (load_pieces, done, sum)
              (load_pieces-IsLoaded lens (k + len) piece.1 (omega arith)
                (rw whole at (
                  load_bytes-IsLoaded flash stack old addr image len 0 (st.curaddr % 512) k
                    (advance image k) st refl (λ j le lt. refl) (omega arith) (rw same v) done))
                (rw (load_pieces, done) at ok))
      ]

-- An image that `flash_load_prepare`, calls of `flash_load_continue` with one piece after another,
-- and `flash_load_finalize` load without an error, and that ends below 2 ^ 32, stands at its address,
-- however it is cut into pieces and wherever it begins in a sector. The rest of the memory is as it
-- was before.
pub load_image :
    (flash : FlashController) (stack : Buffer) (addr size : ℕ) (image : Buffer) (lens : List ℕ)
    (st : LoaderState flash)
    → addr + total lens < 2 ^ 32
    → let loading =
        load_pieces flash stack lens 0 image (flash_load_prepare flash stack addr size st) in
      loading.0 ≡ true
      → (flash_load_finalize flash stack loading.1).0 ≡ true
      → (a : ℕ)
      → flash.memory (flash_load_finalize flash stack loading.1).1.hw a
        ≡ loaded (flash.memory st.hw) addr image (total lens) a
load_image flash stack addr size image lens st room ok finished =
    let old = flash.memory st.hw in
    let whole : 0 + total lens ≡ total lens = omega arith in
    flash_load_finalize-loaded flash stack old addr image (total lens) _
      (rw whole at (
        load_pieces-IsLoaded flash stack old addr image lens 0 _ (omega arith)
          (flash_load_prepare-IsLoaded flash stack old addr image size st (λ a. refl)) ok))
      finished

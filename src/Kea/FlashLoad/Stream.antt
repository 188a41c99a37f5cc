-- ===== src/Kea/FlashLoad/Stream.antt =====
-- What the loader has written after some bytes of an image, and what its buffer holds.
use uptiny.Base.{
  ℕ, zero, suc, ◌+◌, ◌-◌, ◌%◌, ◌^◌, ◌<◌, ◌≤◌, ◌≡◌, refl, ◌∙◌, sym, true, false, ◌==◌, if◌then◌else◌,
  Memory, Buffer, write, arith, Bool-cases, inl, inr,
}
use uptiny.Kea.Flash.{FlashController, is_in, flash_write_sector}
use uptiny.Kea.Flash.Sector.{flash_write_sector_lem}
use uptiny.Kea.FlashLoad.{LoaderState, load_bytes}

-- The memory with `n` bytes of an image at `addr`.
abbrev pub loaded : Memory ℕ → ℕ → Buffer → ℕ → Memory ℕ
loaded old addr image n a = if is_in addr n a then image (a - addr) else old a

module _ (flash : FlashController) (stack : Buffer) (old : Memory ℕ) (addr : ℕ)
    (image : Buffer) where
  -- After `n` bytes of the image: the sectors before the current one are written, those from it on
  -- are as before, and the buffer holds the beginning of the current one.
  pub record IsLoaded (n : ℕ) (st : LoaderState flash) : Type 0 where
    pub cur : st.curaddr ≡ addr + n
    pub written :
        (a : ℕ)
        → a < st.curaddr - st.curaddr % 512
        → flash.memory st.hw a ≡ loaded old addr image n a
    pub rest : (a : ℕ) → st.curaddr - st.curaddr % 512 ≤ a → flash.memory st.hw a ≡ old a
    pub begun :
        (j : ℕ)
        → j < st.curaddr % 512
        → st.buf j ≡ loaded old addr image n (st.curaddr - st.curaddr % 512 + j)

  -- One more byte of the image, behind or at the end of what was loaded.
  loaded_more :
      (n a : ℕ) → a < addr + n → loaded old addr image n a ≡ loaded old addr image (n + 1) a
  loaded_more n a h = ground arith

  loaded_here : (n a : ℕ) → a ≡ addr + n → image n ≡ loaded old addr image (n + 1) a
  loaded_here n a h =
      let e : a - addr ≡ n = omega arith in
      let inside : is_in addr (n + 1) a ≡ true = ground arith in rw (inside, e) refl

  -- The buffer with one more byte.
  begun_more :
      (n : ℕ) (byte : ℕ) (st : LoaderState flash)
      → byte ≡ image n
      → IsLoaded n st
      → (j : ℕ) → j ≤ st.curaddr % 512
      → write st.buf (st.curaddr % 512) byte j
        ≡ loaded old addr image (n + 1) (st.curaddr - st.curaddr % 512 + j)
  begun_more n byte st e v j le = elim (Bool-cases (j == st.curaddr % 512)) [
    | inl last ↦
        rw last (e ∙ loaded_here n (st.curaddr - st.curaddr % 512 + j) (ground (arith, v.cur)))
    | inr before ↦ rw before (
        v.begun j (ground arith)
        ∙ loaded_more n (st.curaddr - st.curaddr % 512 + j) (ground (arith, v.cur)))
  ]

  -- A byte that leaves room in the buffer.
  keep_byte :
      (n byte : ℕ) (st : LoaderState flash)
      → byte ≡ image n
      → st.curaddr + 1 < 2 ^ 32
      → st.curaddr % 512 < 511
      → IsLoaded n st
      → IsLoaded (n + 1) (record st {
        buf = write st.buf (st.curaddr % 512) byte;
        curaddr = (st.curaddr + 1) % 2 ^ 32;
      })
  keep_byte n byte st e small room v =
      let next : (st.curaddr + 1) % 2 ^ 32 ≡ st.curaddr + 1 = omega arith in
      let same : st.curaddr + 1 - (st.curaddr + 1) % 512 ≡ st.curaddr - st.curaddr % 512 =
        omega arith in
      record {
        cur = omega (arith, v.cur);
        written = λ a lt.
            let lt' : a < st.curaddr - st.curaddr % 512 = omega arith in
            v.written a lt' ∙ loaded_more n a (omega (arith, v.cur));
        rest = λ a le. v.rest a (omega arith);
        begun = λ j lt. rw (next, same) (begun_more n byte st e v j (omega arith));
      }

  -- The byte that fills the buffer: the sector is written.
  write_byte :
      (n byte : ℕ) (st : LoaderState flash)
      → byte ≡ image n
      → st.curaddr + 1 < 2 ^ 32
      → st.curaddr % 512 ≡ 511
      → IsLoaded n st
      → let buf = write st.buf (st.curaddr % 512) byte in
        let (ok, hw) = flash_write_sector flash stack (st.curaddr - st.curaddr % 512) buf st.hw in
        ok ≡ true
        → IsLoaded (n + 1) (record st { buf = buf; hw = hw; curaddr = (st.curaddr + 1) % 2 ^ 32 })
  write_byte n byte st e small full v ok =
      let next : (st.curaddr + 1) % 2 ^ 32 ≡ st.curaddr + 1 = omega arith in
      let sector = st.curaddr - st.curaddr % 512 in
      let done = flash_write_sector_lem flash stack sector _ st.hw ok in
      record {
        cur = omega (arith, v.cur);
        written = λ a lt. elim (Bool-cases (is_in sector 512 a)) [
          | inl here ↦
              let at : sector + (a - sector) ≡ a = ground arith in
              (rw here at (done.2 a))
              ∙ rw at at (begun_more n byte st e v (a - sector) (ground arith))
          | inr other ↦
              (rw other at (done.2 a))
              ∙ v.written a (ground arith)
              ∙ loaded_more n a (ground (arith, v.cur))
        ];
        rest = λ a le.
            let other : is_in sector 512 a ≡ false = ground arith in
            (rw other at (done.2 a)) ∙ v.rest a (omega arith);
        begun = λ j lt. absurd (omega arith);
      }

  -- The index into the buffer goes with the address.
  index_next : (a : ℕ) → a % 512 < 511 → a + 1 < 2 ^ 32 → a % 512 + 1 ≡ (a + 1) % 2 ^ 32 % 512
  index_next a room small = omega arith

  next_sector : (a : ℕ) → a % 512 ≡ 511 → a + 1 < 2 ^ 32 → 0 ≡ (a + 1) % 2 ^ 32 % 512
  next_sector a full small = omega arith

  pub load_bytes-IsLoaded :
      (n i i_buf k : ℕ) (bytes : Buffer) (st : LoaderState flash)
      → i_buf ≡ st.curaddr % 512
      → ((j : ℕ) → i ≤ j → j < i + n → bytes j ≡ image (k + j))
      → addr + k + i + n < 2 ^ 32
      → IsLoaded (k + i) st
      → (load_bytes flash stack n i i_buf bytes st).0 ≡ true
      → IsLoaded (k + (i + n)) (load_bytes flash stack n i i_buf bytes st).1
  unfolding load_bytes
  load_bytes-IsLoaded zero i i_buf k bytes st at same room v ok =
      let e : i + 0 ≡ i = omega arith in rw e v
  load_bytes-IsLoaded (suc n) i i_buf k bytes st at same room v ok =
      let byte : bytes i ≡ image (k + i) = same i (omega arith) (omega arith) in
      let small : st.curaddr + 1 < 2 ^ 32 = omega (arith, v.cur) in
      let e : k + i + 1 ≡ k + (i + 1) = omega arith in
      let e' : i + suc n ≡ i + 1 + n = omega arith in
      let same' : (j : ℕ) → i + 1 ≤ j → j < i + 1 + n → bytes j ≡ image (k + j) =
        λ j le lt. same j (omega arith) (omega arith) in
      elim (Bool-cases (i_buf == 511)) [
        | inr space ↦
            let room' : st.curaddr % 512 < 511 = ground arith in
            rw (load_bytes, space, e')
              (load_bytes-IsLoaded n (i + 1) (i_buf + 1) k bytes _
                (rw at (index_next st.curaddr room' small)) same' (omega arith)
                (rw (sym e, at) (keep_byte (k + i) (bytes i) st byte small room' v))
                (rw (load_bytes, space) at ok))
        | inl last ↦
            let full : st.curaddr % 512 ≡ 511 = ground arith in
            let buf = write st.buf i_buf (bytes i) in
            elim (Bool-cases
              (flash_write_sector flash stack (st.curaddr - st.curaddr % 512) buf st.hw).0) [
                | inr failed ↦ cc (rw (load_bytes, last, failed) at ok)
                | inl done ↦
                    rw (load_bytes, last, done, e')
                      (load_bytes-IsLoaded n (i + 1) 0 k bytes _ (next_sector st.curaddr full small)
                        same' (omega arith)
                        (rw (sym e, at)
                          (write_byte (k + i) (bytes i) st byte small full v (rw at at done)))
                        (rw (load_bytes, last, done) at ok))
              ]
      ]

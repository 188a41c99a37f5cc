-- ===== src/Kea/Can/Ring.antt =====
-- What stands in a ring, as a list.
use uptiny.Base.{
  ℕ, zero, suc, ◌+◌, ◌-◌, ◌%◌, ◌<◌, ◌≡◌, refl, ap, true, false, ◌==◌, List, [], ◌∷◌, ◌++◌, Memory,
  write, arith, ◌≤◌, All,
}
use uptiny.Kea.Can.{CanPack, next_index}

module _ {ℓ κ} {A : Type ℓ} {B : Type κ} (f : A → B) where
  -- `n` entries from the `r`-th on, each under `f`.
  unfoldable pub items : ℕ → ℕ → Memory A → List B
  items zero r buf = []
  items (suc n) r buf = f (buf r) ∷ items n (next_index r) buf

  next_mod : (n r : ℕ) → r < 16 → (next_index r < 16) × ((next_index r + n) % 16 ≡ (r + suc n) % 16)
  next_mod n r small = (ground arith, ground arith)

  -- A new entry behind the others.
  pub items-write :
      (n r : ℕ) (buf : Memory A) (a : A)
      → n < 16
      → r < 16
      → items (suc n) r (write buf ((r + n) % 16) a) ≡ items n r buf ++ f a ∷ []
  unfolding items
  items-write zero r buf a room small =
      let here : (r == (r + 0) % 16) ≡ true = ground arith in rw (items, here) refl
  items-write (suc n) r buf a room small =
      let other : (r == (r + suc n) % 16) ≡ false = ground arith in
      let (small', same) = next_mod n r small in
      rw (items, other)
        (ap (◌∷◌ (f (buf r)))
          (rw same at (items-write n (next_index r) buf a (omega arith) small')))

  pub items-pop :
      (n r : ℕ) (buf : Memory A)
      → (n == 0) ≡ false
      → items n r buf ≡ f (buf r) ∷ items (n - 1) (next_index r) buf
  unfolding items
  items-pop zero r buf h = absurd (ground arith)
  items-pop (suc n) r buf h = let e : suc n - 1 ≡ n = omega arith in rw (items, e) refl

  pub items-none : (n r : ℕ) (buf : Memory A) → (n == 0) ≡ true → items n r buf ≡ []
  unfolding items
  items-none zero r buf h = refl
  items-none (suc n) r buf h = absurd (ground arith)

  -- A new entry at the place behind the last.
  pub items-push :
      (n r w : ℕ) (buf : Memory A) (a : A)
      → n < 16
      → r < 16
      → w ≡ (r + n) % 16
      → items (n + 1) r (write buf w a) ≡ items n r buf ++ f a ∷ []
  items-push n r w buf a room small at =
      let e : n + 1 ≡ suc n = omega arith in rw (at, e) (items-write n r buf a room small)

-- The packets of at most 8 bytes.
abbrev pub AllShort : List CanPack → Type 0
AllShort xs = All (λ p. p.dlc ≤ 8) xs

pub All-append :
    (xs : List CanPack) (p : CanPack) → AllShort xs → p.dlc ≤ 8 → AllShort (xs ++ p ∷ [])
All-append [] p all h = (h, tt)
All-append (x ∷ xs) p (first, all) h = (first, All-append xs p all h)

-- ===== src/Base/Cells.antt =====
-- Memory as functions: what a pointer points to, read and written at offsets. A read past an array
-- gives whatever stands there, and a write past it changes what stands there, as on the machine.
use Prim.Native.Nat.{ℕ, zero, suc, ◌+◌}
use mathlib.Core.Path.{◌≡◌, refl}
use mathlib.Core.Logic.{◌≢◌}
use mathlib.Core.List.{List, [], ◌∷◌}
use native.Mathlib.Omega.{arith}
use uptiny.Base.Tests.{◌==◌, if◌then◌else◌}
use uptiny.Base.Int.{ℤ, pos, ◌+ℤ◌}
use uptiny.Base.Lists.{length, get_or}

-- The cells from a pointer on.
abbrev pub Memory {ℓ} : Type ℓ → Type ℓ
Memory A = ℕ → A

-- The bytes from a pointer on.
abbrev pub Buffer : Type 0
Buffer = Memory ℕ

-- A message with what surrounds it: an int16_t offset of a token may be negative.
abbrev pub Text : Type 0
Text = ℤ → ℕ

abbrev pub write {ℓ} : {A : Type ℓ} → Memory A → ℕ → A → Memory A
write m i v j = if j == i then v else m j

-- `p + n`
abbrev pub advance {ℓ} : {A : Type ℓ} → Memory A → ℕ → Memory A
advance m n i = m (n + i)

-- `message + start`, for a signed start.
abbrev pub at : Text → ℤ → Buffer
at message start i = message (start +ℤ pos i)

-- The first `n` cells.
unfoldable pub cells {ℓ} : {A : Type ℓ} → Memory A → ℕ → List A
cells m zero = []
cells m (suc n) = m 0 ∷ cells (advance m 1) n

pub length-cells {ℓ} : {A : Type ℓ} (m : Memory A) (n : ℕ) → length (cells m n) ≡ n
unfolding cells
length-cells m zero = refl
length-cells m (suc n) = omega (arith, length-cells {ℓ} (advance m 1) n)

-- A list laid out in memory, and a filler behind it.
abbrev pub laid {ℓ} : {A : Type ℓ} → List A → A → Memory A
laid xs d i = get_or xs i d

pub write_self {ℓ} : {A : Type ℓ} (m : Memory A) (i : ℕ) (v : A) → write m i v i ≡ v
write_self m i v = ground arith

pub write_ne {ℓ} : {A : Type ℓ} (m : Memory A) (i j : ℕ) (v : A) → j ≢ i → write m i v j ≡ m j
write_ne m i j v h = ground arith

-- ===== src/Base/Loop.antt =====
-- Loops of a known number of rounds that a round may end.
use Prim.Native.Nat.{ℕ, zero, suc, ◌<◌}
use mathlib.Core.Path.{◌≡◌}
use mathlib.Core.Logic.{inl, inr}
use mathlib.Core.Bool.{Bool, true, false}
use native.Mathlib.Omega.{arith}
use uptiny.Base.Tests.{Bool-cases}

-- `n` rounds of `step`, as long as `going` holds.
unfoldable pub rounds {ℓ} : {S : Type ℓ} → (S → Bool) → (S → S) → ℕ → S → S
rounds going step zero s = s
rounds going step (suc n) s = elim (going s) [ true ↦ rounds going step n (step s) | false ↦ s ]

-- What a round keeps, the loop keeps.
pub rounds_inv {ℓ κ} :
    {S : Type ℓ} (P : S → Type κ) (going : S → Bool) (step : S → S)
    → ((s : S) → going s ≡ true → P s → P (step s))
    → (n : ℕ) (s : S) → P s
    → P (rounds going step n s)
unfolding rounds
rounds_inv P going step keep zero s p = p
rounds_inv P going step keep (suc n) s p = elim (Bool-cases (going s)) [
  | inl go ↦ rw (go, rounds) (rounds_inv P going step keep n (step s) (keep s go p))
  | inr stop ↦ rw (stop, rounds) p
]

pub rounds_stopped {ℓ} :
    {S : Type ℓ} (going : S → Bool) (step : S → S) (n : ℕ) (s : S)
    → going s ≡ false
    → going (rounds going step n s) ≡ false
unfolding rounds
rounds_stopped going step zero s stop = stop
rounds_stopped going step (suc n) s stop = rw (stop, rounds) stop

-- Where every round that goes on makes the measure less, as many rounds as the measure suffice.
pub rounds_end {ℓ κ} :
    {S : Type ℓ} (P : S → Type κ) (measure : S → ℕ) (going : S → Bool) (step : S → S)
    → ((s : S)
        → going s ≡ true
        → P s
        → P (step s) × (going (step s) ≡ true → measure (step s) < measure s))
    → (n : ℕ) (s : S) → P s
    → measure s < n
    → going (rounds going step n s) ≡ false
unfolding rounds
rounds_end P measure going step less zero s p h = absurd (omega arith)
rounds_end P measure going step less (suc n) s p h = elim (Bool-cases (going s)) [
  | inr stop ↦ rw (stop, rounds) stop
  | inl go ↦
      let next = less s go p in
      elim (Bool-cases (going (step s))) [
        | inl go' ↦
            rw (go, rounds)
              (rounds_end P measure going step less n (step s) next.0 (omega (arith, next.1 go')))
        | inr stop' ↦ rw (go, rounds) (rounds_stopped going step n (step s) stop')
      ]
]

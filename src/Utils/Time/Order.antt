-- ===== src/Utils/Time/Order.antt =====
-- `uptane_time_greater` against the seconds that a time counts.
use uptiny.Base.{ℕ, ◌+◌, ◌*◌, ◌^◌, ◌<◌, ◌≡◌, ◌↔◌, Bool, true, not, ltb, ◌==◌, if◌then◌else◌, arith}
use native.Mathlib.Decide.{dec_lt}
use uptiny.Utils.Time.{UptaneTime, uptane_time_greater}

-- The fields as the digits of one number, the year first; each below the year is a uint8_t.
abbrev pub stamp : UptaneTime → ℕ
stamp t =
    t.year * 256 ^ 5
    + (t.month * 256 ^ 4 + (t.day * 256 ^ 3 + (t.hour * 256 ^ 2 + (t.minute * 256 ^ 1 + t.second))))

-- The ranges of the C types.
pub record IsTime (t : UptaneTime) : Type 0 where
  pub month : t.month < 256
  pub day : t.day < 256
  pub hour : t.hour < 256
  pub minute : t.minute < 256
  pub second : t.second < 256

-- One field decides where it differs, and leaves the answer to the lower fields where it does not.
lex :
    (w a b x y : ℕ) (rest : Bool)
    → x < w
    → y < w
    → (rest ≡ true) ↔ (y < x)
    → ((if not (a == b) then ltb b a else rest) ≡ true) ↔ (b * w + y < a * w + x)
lex w a b x y rest hx hy h = elim (dec_lt b a) [
  | yes p ↦ (λ _. grind arith, λ _. ground arith)
  | no np ↦ elim (dec_lt a b) [
    | yes p ↦ (λ t. absurd (ground arith), λ t. absurd (grind arith))
    | no nq ↦ let e : a ≡ b = omega arith in rw e (ground arith)
  ]
]

-- `uptane_time_greater l r` is the order of the six fields read as one number, the year first.
pub uptane_time_greater_iff :
    (l r : UptaneTime)
    → IsTime l
    → IsTime r
    → (uptane_time_greater l r ≡ true) ↔ (stamp r < stamp l)
unfolding uptane_time_greater
uptane_time_greater_iff l r hl hr = lex (256 ^ 5) l.year r.year _ _ _ (omega arith) (omega arith) (
    lex (256 ^ 4) l.month r.month _ _ _ (omega arith) (omega arith) (
      lex (256 ^ 3) l.day r.day _ _ _ (omega arith) (omega arith) (
        lex (256 ^ 2) l.hour r.hour _ _ _ (omega arith) (omega arith) (
          lex (256 ^ 1) l.minute r.minute l.second r.second _ (omega arith) (omega arith)
            (ground arith)))))

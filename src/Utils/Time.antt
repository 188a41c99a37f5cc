-- ===== src/Utils/Time.antt =====
-- libuptiny/utils.c and uptane_time.c: points in time.
pub mod Order
use uptiny.Base.{
  ℕ, ◌+◌, ◌^◌, ◌<◌, ◌≡◌, Bool, true, false, not, ◌||◌, ltb, leb, ◌==◌, if◌then◌else◌, Option, none,
  some, ℤ, pos, negsuc, pos_part, ltb_ℤ, eqb_ℤ, Buffer, advance,
}
use uptiny.Utils.Dec.{dec2int}

pub record UptaneTime : Type 0 where
  pub year : ℕ
  pub month : ℕ
  pub day : ℕ
  pub hour : ℕ
  pub minute : ℕ
  pub second : ℕ

infixl 5 ◌>>=◌
abbrev ◌>>=◌ {ℓ κ} : {A : Type ℓ} {B : Type κ} → Option A → (A → Option B) → Option B
none >>= f = none
some a >>= f = f a

-- `!dec2int(time_string + at, len, &num) || num < 0 || num >= limit`, where it is false.
unfoldable pub time_field : Buffer → ℕ → ℕ → ℕ → Option ℕ
time_field s at len limit = do
  num ← dec2int (advance s at) (pos len)
  if ltb_ℤ num (pos 0) || not (ltb_ℤ num (pos limit)) then none else some (pos_part num)

-- `none` is the returned false.
unfoldable pub str2time : Buffer → ℤ → Option UptaneTime
str2time s len = if not (eqb_ℤ len (pos 20)) then none else fields
  where
    fields : Option UptaneTime
    fields = do
      year ← time_field s 0 4 (2 ^ 16)
      month ← time_field s 5 2 (2 ^ 8)
      day ← time_field s 8 2 (2 ^ 8)
      hour ← time_field s 11 2 (2 ^ 8)
      minute ← time_field s 14 2 (2 ^ 8)
      second ← time_field s 17 2 (2 ^ 8)
      some (record {
        year = year;
        month = month;
        day = day;
        hour = hour;
        minute = minute;
        second = second;
      })

pub uptane_time_greater : UptaneTime → UptaneTime → Bool
uptane_time_greater l r =
    if not (l.year == r.year)
    then ltb r.year l.year
    else if not (l.month == r.month)
    then ltb r.month l.month
    else if not (l.day == r.day)
    then ltb r.day l.day
    else if not (l.hour == r.hour)
    then ltb r.hour l.hour
    else if not (l.minute == r.minute)
    then ltb r.minute l.minute
    else ltb r.second l.second

-- ===== src/Rfc3339/RoundTrip.antt =====
-- Reading after writing.
use rpi_omt_client.Prelude.{
  ℕ, ◌+◌, ◌*◌, ◌/◌, ◌%◌, ◌≤◌, ◌<◌, ◌≡◌, refl, ap, ◌∙◌, true, some, [], ◌∷◌, arith, ltb, ℤ, pos,
  negsuc, pos_part, neg_part, ◌+ℤ◌, ◌-ℤ◌, ◌*ℕ◌, div_euclid, rem_euclid, plus_parts, minus_parts,
  times_parts, equal_parts, Bytes, Bool-cases, tests, inl, inr,
}
use rpi_omt_client.Decimal.Digits.{decimal-one, decimal-two, decimal-three, decimal-four}
use rpi_omt_client.Rfc3339.{
  padded, field_value, Fields, Clock, days_in_month, read_fields, digits, fraction, fraction_digits,
  scaled, is_in_range, parse_rfc3339, instant, behind, at_end, zone, split, rfc3339_millis,
}
use rpi_omt_client.Civil.{days_from_civil, civil_from_days}
use rpi_omt_client.Civil.RoundTrip.{days_from_civil-civil_from_days}
use rpi_omt_client.Civil.Valid.{civil_from_days-IsDate}

abbrev pub two : ℕ → Bytes → Bytes
two n rest = (n / 10 + b'0') ∷ (n % 10 + b'0') ∷ rest

abbrev pub four : ℕ → Bytes → Bytes
four n rest = (n / 1000 + b'0') ∷ (n / 100 % 10 + b'0') ∷ two (n % 100) rest

field_value-two : (n : ℕ) → n < 100 → field_value 0 (two n []) ≡ some n
unfolding field_value
field_value-two n h = ground arith

field_value-four : (n : ℕ) → n < 10000 → field_value 0 (four n []) ≡ some n
unfolding field_value
field_value-four n h = ground arith

padded-two : (n : ℕ) → n < 100 → padded 2 n ≡ two n []
padded-two n h = elim (Bool-cases (ltb n 10)) [
  | inl small ↦ rw (decimal-one n (omega tests)) (ground arith)
  | inr large ↦ rw (decimal-two n (ground arith) h) refl
]

padded-three : (n : ℕ) → n < 1000 → padded 3 n ≡ (n / 100 + b'0') ∷ two (n % 100) []
padded-three n h = elim (Bool-cases (ltb n 10)) [
  | inl small ↦ rw (decimal-one n (omega tests)) (ground arith)
  | inr large ↦ elim (Bool-cases (ltb n 100)) [
    | inl small ↦ rw (decimal-two n (ground arith) (omega tests)) (ground arith)
    | inr larger ↦ rw (decimal-three n (ground arith) h) (ground arith)
  ]
]

padded-four : (n : ℕ) → n < 10000 → padded 4 n ≡ four n []
padded-four n h = elim (Bool-cases (ltb n 10)) [
  | inl small ↦ rw (decimal-one n (omega tests)) (ground arith)
  | inr large ↦ elim (Bool-cases (ltb n 100)) [
    | inl small ↦ rw (decimal-two n (ground arith) (omega tests)) (ground arith)
    | inr larger ↦ elim (Bool-cases (ltb n 1000)) [
      | inl small ↦ rw (decimal-three n (ground arith) (omega tests)) (ground arith)
      | inr largest ↦ rw (decimal-four n (ground arith) h) (ground arith)
    ]
  ]
]

-- The 24 bytes of a date-time with these fields.
abbrev wire : Fields → ℕ → Bytes
wire f ms = four f.year (
    b'-'
    ∷ two f.month (
        b'-'
        ∷ two f.day (
            b'T'
            ∷ two f.hour (
                b':'
                ∷ two f.minute (
                    b':' ∷ two f.second (b'.' ∷ (ms / 100 + b'0') ∷ two (ms % 100) (b'Z' ∷ [])))))))

record IsPrintable (f : Fields) : Type 0 where
  pub year_small : f.year < 10000
  pub month_low : 1 ≤ f.month
  pub month_high : f.month ≤ 12
  pub day_low : 1 ≤ f.day
  pub day_high : f.day ≤ days_in_month f.year f.month
  pub day_small : f.day < 100
  pub hour_high : f.hour ≤ 23
  pub minute_high : f.minute ≤ 59
  pub second_high : f.second ≤ 59

read_fields-wire : (f : Fields) (ms : ℕ) → IsPrintable f → read_fields (wire f ms) ≡ some f
unfolding read_fields digits
read_fields-wire f ms v = ground (
  arith,
  field_value-four f.year v.year_small,
  field_value-two f.month (omega (arith, v)),
  field_value-two f.day v.day_small,
  field_value-two f.hour (omega (arith, v)),
  field_value-two f.minute (omega (arith, v)),
  field_value-two f.second (omega (arith, v)),
)

fraction-millis :
    (ms : ℕ)
    → ms < 1000
    → fraction (b'.' ∷ (ms / 100 + b'0') ∷ two (ms % 100) (b'Z' ∷ []))
      ≡ some (ms * 1000000, b'Z' ∷ [])
unfolding fraction fraction_digits scaled
fraction-millis ms h = ground arith

in_range : (f : Fields) → IsPrintable f → is_in_range f ≡ true
in_range f v = ground arith

behind-millis :
    (f : Fields) (ms : ℕ)
    → ms < 1000
    → behind f (fraction (b'.' ∷ (ms / 100 + b'0') ∷ two (ms % 100) (b'Z' ∷ [])))
      ≡ some (instant f (pos 0), ms * 1000000)
unfolding behind at_end zone
behind-millis f ms h = ap (behind f) (fraction-millis ms h)

parse_rfc3339-wire :
    (f : Fields) (ms : ℕ)
    → IsPrintable f
    → ms < 1000
    → parse_rfc3339 (wire f ms) ≡ some (instant f (pos 0), ms * 1000000)
unfolding parse_rfc3339
parse_rfc3339-wire f ms v h =
    rw (read_fields-wire f ms v, parse_rfc3339) (rw (in_range f v) (behind-millis f ms h))

-- The fields that `rfc3339_millis` prints.
abbrev fields_of : ℕ → Clock → Fields
fields_of y c = record {
  year = y;
  month = c.date.month;
  day = c.date.day;
  hour = c.hour;
  minute = c.minute;
  second = c.second;
}

rem_day-lt : (z : ℤ) → rem_euclid z 86400 < 86400
unfolding rem_euclid
rem_day-lt (pos n) = omega arith
rem_day-lt (negsuc n) = omega arith

day_parts :
    (z : ℤ)
    → pos_part z + neg_part (div_euclid z 86400) * 86400
      ≡ neg_part z + pos_part (div_euclid z 86400) * 86400 + rem_euclid z 86400
unfolding div_euclid rem_euclid
day_parts (pos n) = omega arith
day_parts (negsuc n) = omega arith

split-IsPrintable :
    (seconds : ℤ) (y : ℕ)
    → (split seconds).date.year ≡ pos y
    → y < 10000
    → IsPrintable (fields_of y (split seconds))
unfolding split
split-IsPrintable seconds y e h =
    let v = civil_from_days-IsDate (div_euclid seconds 86400) y e in
    let small = rem_day-lt seconds in
    record {
      year_small = h;
      month_low = v.0;
      month_high = v.1;
      day_low = v.2;
      day_high = v.3;
      day_small = ground (arith, v);
      hour_high = omega (arith, small);
      minute_high = omega (arith, small);
      second_high = omega (arith, small);
    }

rfc3339_millis-wire :
    (seconds : ℤ) (millis y : ℕ)
    → (split seconds).date.year ≡ pos y
    → IsPrintable (fields_of y (split seconds))
    → rfc3339_millis seconds millis ≡ wire (fields_of y (split seconds)) (millis % 1000)
unfolding rfc3339_millis
rfc3339_millis-wire seconds millis y e v = rw (
  e,
  padded-four y v.year_small,
  padded-two (split seconds).date.month (omega (arith, v)),
  padded-two (split seconds).date.day v.day_small,
  padded-two (split seconds).hour (omega (arith, v)),
  padded-two (split seconds).minute (omega (arith, v)),
  padded-two (split seconds).second (omega (arith, v)),
  padded-three (millis % 1000) (omega arith),
)

time_of_day :
    (seconds : ℤ)
    → let rest = rem_euclid seconds 86400 in
      div_euclid seconds 86400 *ℕ 86400
        +ℤ pos (rest / 3600 * 3600 + rest % 3600 / 60 * 60 + rest % 60)
        -ℤ pos 0
      ≡ seconds
time_of_day seconds =
    let days = div_euclid seconds 86400 in
    let rest = rem_euclid seconds 86400 in
    let time = rest / 3600 * 3600 + rest % 3600 / 60 * 60 + rest % 60 in
    let sum = days *ℕ 86400 +ℤ pos time in
    equal_parts (sum -ℤ pos 0) seconds (
      omega (
        arith,
        minus_parts sum (pos 0),
        plus_parts (days *ℕ 86400) (pos time),
        times_parts days 86400,
        day_parts seconds,
      ))

instant-split :
    (seconds : ℤ) (y : ℕ)
    → (split seconds).date.year ≡ pos y
    → instant (fields_of y (split seconds)) (pos 0) ≡ seconds
unfolding split
instant-split seconds y e =
    let days = div_euclid seconds 86400 in
    let date = civil_from_days days in
    let same : days_from_civil (record { year = pos y; month = date.month; day = date.day })
        ≡ days =
      rw (← e) (days_from_civil-civil_from_days days) in
    rw (same) (time_of_day seconds)

-- The date-time that is printed for any second of the years 0 to 9999 and any number of milliseconds
-- is parsed back as that second, with the milliseconds below a second as nanoseconds.
pub parse_rfc3339-rfc3339_millis :
    (seconds : ℤ) (millis y : ℕ)
    → (split seconds).date.year ≡ pos y
    → y < 10000
    → parse_rfc3339 (rfc3339_millis seconds millis) ≡ some (seconds, millis % 1000 * 1000000)
parse_rfc3339-rfc3339_millis seconds millis y e h =
    let v = split-IsPrintable seconds y e h in
    let f = fields_of y (split seconds) in
    ap parse_rfc3339 (rfc3339_millis-wire seconds millis y e v)
    ∙ parse_rfc3339-wire f (millis % 1000) v (omega arith)
    ∙ ap (λ t. some (t, millis % 1000 * 1000000)) (instant-split seconds y e)

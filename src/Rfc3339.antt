-- ===== src/Rfc3339.antt =====
-- The date-times of crates/omt-common/src/timefmt.rs: split, rfc3339_millis, compact_utc and
-- parse_rfc3339. A text is its bytes; the parser's position is the bytes that are left.
pub mod Fraction
pub mod RoundTrip
mod Tests
use rpi_omt_client.Prelude.{
  ℕ, zero, suc, ◌+◌, ◌-◌, ◌*◌, ◌/◌, ◌%◌, Bool, true, false, not, ◌&&◌, ◌||◌, Option, none, some,
  List, [], ◌∷◌, ◌++◌, ltb, leb, ◌==◌, within, if◌then◌else◌, length, take, drop, get_or, get_elem?,
  replicate, Bytes, ℤ, pos, negsuc, ◌+ℤ◌, ◌-ℤ◌, ◌*ℕ◌, div_euclid, rem_euclid,
}
use rpi_omt_client.Decimal.{is_ascii_digit, decimal}
use rpi_omt_client.Civil.{Date, civil_from_days, days_from_civil}

-- The struct `Civil`: the date, and the time of the day.
pub record Clock : Type 0 where
  pub date : Date
  pub hour : ℕ
  pub minute : ℕ
  pub second : ℕ

unfoldable pub split : ℤ → Clock
split seconds =
    let rest = rem_euclid seconds 86400 in
    record {
      date = civil_from_days (div_euclid seconds 86400);
      hour = rest / 3600;
      minute = rest % 3600 / 60;
      second = rest % 60;
    }

-- `{:0width}` of a number, and of an integer, whose sign takes a place.
abbrev pub zero_padded : ℕ → Bytes → Bytes
zero_padded width digits = replicate (width - length digits) b'0' ++ digits

abbrev pub padded : ℕ → ℕ → Bytes
padded width n = zero_padded width (decimal n)

abbrev pub padded_int : ℕ → ℤ → Bytes
padded_int width (pos n) = padded width n
padded_int width (negsuc n) = b'-' ∷ padded (width - 1) (n + 1)

unfoldable pub rfc3339_millis : ℤ → ℕ → Bytes
rfc3339_millis seconds millis =
    let c = split seconds in
    let date =
      padded_int 4 c.date.year
      ++ (b'-' ∷ (padded 2 c.date.month ++ (b'-' ∷ padded 2 c.date.day))) in
    let time = padded 2 c.hour ++ (b':' ∷ (padded 2 c.minute ++ (b':' ∷ padded 2 c.second))) in
    date ++ (b'T' ∷ (time ++ (b'.' ∷ (padded 3 (millis % 1000) ++ (b'Z' ∷ [])))))

unfoldable pub compact_utc : ℤ → Bytes
compact_utc seconds =
    let c = split seconds in
    padded_int 4 c.date.year
    ++ (padded 2 c.date.month
        ++ (padded 2 c.date.day
            ++ (b'T'
                ∷ (padded 2 c.hour ++ (padded 2 c.minute ++ (padded 2 c.second ++ (b'Z' ∷ [])))))))

-- The fold of `digits`; a field has four digits at most, so nothing wraps.
unfoldable pub field_value : ℕ → Bytes → Option ℕ
field_value v [] = some v
field_value v (c ∷ cs) =
    let rest = field_value (v * 10 + (c - b'0')) cs in if is_ascii_digit c then rest else none

unfoldable pub digits : Bytes → ℕ → ℕ → Option ℕ
digits s at n = if leb (at + n) (length s) then field_value 0 (take n (drop at s)) else none

abbrev pub leap : ℕ → Bool
leap y = ((y % 4 == 0) && not (y % 100 == 0)) || (y % 400 == 0)

abbrev pub days_in : List ℕ
days_in = 31 ∷ 28 ∷ 31 ∷ 30 ∷ 31 ∷ 30 ∷ 31 ∷ 31 ∷ 30 ∷ 31 ∷ 30 ∷ 31 ∷ []

abbrev pub days_in_month : ℕ → ℕ → ℕ
days_in_month year month =
    get_or days_in (month - 1) 0 + (if (month == 2) && leap year then 1 else 0)

-- The loop over the fraction: how many digits, the value of the first nine, and what is left.
unfoldable pub fraction_digits : ℕ → ℕ → Bytes → ℕ × ℕ × Bytes
fraction_digits n frac [] = (n, frac, [])
fraction_digits n frac (c ∷ cs) =
    let more = fraction_digits (n + 1) (if ltb n 9 then frac * 10 + (c - b'0') else frac) cs in
    if is_ascii_digit c then more else (n, frac, c ∷ cs)

-- `for _ in n..9 { frac *= 10 }`
unfoldable pub scaled : ℕ → ℕ → ℕ
scaled zero frac = frac
scaled (suc left) frac = scaled left (frac * 10)

unfoldable pub fraction : Bytes → Option (ℕ × Bytes)
fraction [] = some (0, [])
fraction (c ∷ cs) =
    if c == b'.'
    then (let (n, frac, rest) = fraction_digits 0 0 cs in
        if n == 0 then none else some (scaled (9 - n) frac, rest))
    else some (0, c ∷ cs)

-- Seconds east of UTC, and what is left.
abbrev pub signed_offset : ℕ → ℕ → ℤ
signed_offset sign seconds = if sign == b'-' then pos 0 -ℤ pos seconds else pos seconds

unfoldable pub numeric_offset : ℕ → Bytes → Option (ℤ × Bytes)
numeric_offset sign rest = elim (digits rest 1 2) [
  | none ↦ none
  | some oh ↦ elim (digits rest 4 2) [
    | none ↦ none
    | some om ↦
        if not (get_or rest 3 0 == b':') || (ltb 23 oh || ltb 59 om)
        then none
        else some (signed_offset sign (oh * 3600 + om * 60), drop 6 rest)
  ]
]

unfoldable pub zone : Bytes → Option (ℤ × Bytes)
zone [] = none
zone (c ∷ cs) =
    if (c == b'Z') || (c == b'z')
    then some (pos 0, cs)
    else if (c == b'+') || (c == b'-')
    then numeric_offset c (c ∷ cs)
    else none

-- The fields of the first 19 bytes.
pub record Fields : Type 0 where
  pub year : ℕ
  pub month : ℕ
  pub day : ℕ
  pub hour : ℕ
  pub minute : ℕ
  pub second : ℕ

unfoldable pub read_fields : Bytes → Option Fields
read_fields s = elim (digits s 0 4) [
  | none ↦ none
  | some year ↦ elim (digits s 5 2) [
    | none ↦ none
    | some month ↦ elim (digits s 8 2) [
      | none ↦ none
      | some day ↦ elim (digits s 11 2) [
        | none ↦ none
        | some hour ↦ elim (digits s 14 2) [
          | none ↦ none
          | some minute ↦ elim (digits s 17 2) [
            | none ↦ none
            | some second ↦ some (record {
              year = year;
              month = month;
              day = day;
              hour = hour;
              minute = minute;
              second = second;
            })
          ]
        ]
      ]
    ]
  ]
]

abbrev pub is_separated : Bytes → Bool
is_separated s =
    (get_or s 4 0 == b'-')
    && ((get_or s 7 0 == b'-')
        && (((get_or s 10 0 == b'T') || (get_or s 10 0 == b't'))
            && ((get_or s 13 0 == b':') && (get_or s 16 0 == b':'))))

abbrev pub is_in_range : Fields → Bool
is_in_range f =
    within 1 12 f.month
    && (within 1 (days_in_month f.year f.month) f.day
        && (leb f.hour 23 && (leb f.minute 59 && leb f.second 60)))

abbrev pub instant : Fields → ℤ → ℤ
instant f offset =
    days_from_civil (record { year = pos f.year; month = f.month; day = f.day }) *ℕ 86400
    +ℤ pos (f.hour * 3600 + f.minute * 60 + f.second)
    -ℤ offset

-- What stands behind the fields: a fraction, a zone and nothing more.
unfoldable pub at_end : Fields → ℕ → Option (ℤ × Bytes) → Option (ℤ × ℕ)
at_end f frac none = none
at_end f frac (some (offset, [])) = some (instant f offset, frac)
at_end f frac (some (offset, c ∷ cs)) = none

unfoldable pub behind : Fields → Option (ℕ × Bytes) → Option (ℤ × ℕ)
behind f none = none
behind f (some (frac, rest)) = at_end f frac (zone rest)

unfoldable pub parse_rfc3339 : Bytes → Option (ℤ × ℕ)
parse_rfc3339 s = elim (read_fields s) [
  | none ↦ none
  | some f ↦ if is_separated s && is_in_range f then behind f (fraction (drop 19 s)) else none
]

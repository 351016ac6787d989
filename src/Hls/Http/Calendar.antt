-- ===== src/Hls/Http/Calendar.antt =====
-- crates/hls/src/http.rs: `civil_from_days` and `http_date`, for times from 1970 on. Days are then
-- not negative, and the arithmetic on `i64` and `u32` is that on numbers. The year is an `i32`, which
-- wraps: it stands here as its 32-bit word.
pub mod Years
pub mod Steps
use ferricast.Base.{
  ℕ, zero, suc, ◌+◌, ◌-◌, ◌*◌, ◌/◌, ◌%◌, ◌^◌, ◌≡◌, List, [], ◌∷◌, ◌++◌, Bool, true, false, ltb, leb,
  if◌then◌else◌, length,
}
use ferricast.Text.{Bytes, codes, show}

-- Year, month from 1 to 12, day from 1 to 31.
abbrev pub Date : Type 0
Date = ℕ × ℕ × ℕ

-- The day of a 400-year era as the year in it, and the day in that year, from March on.
unfoldable pub year_of_era : ℕ → ℕ
year_of_era doe = (doe - doe / 1460 + doe / 36524 - doe / 146096) / 365

unfoldable pub day_of_year : ℕ → ℕ → ℕ
day_of_year doe yoe = doe - (365 * yoe + yoe / 4 - yoe / 100)

-- The date of day `doy` of the year `y` that begins in March.
unfoldable pub date_in_year : ℕ → ℕ → Date
date_in_year y doy =
    let mp = (5 * doy + 2) / 153 in
    let d = doy - (153 * mp + 2) / 5 + 1 in
    let m = if ltb mp 10 then mp + 3 else mp - 9 in (if leb m 2 then y + 1 else y, m, d)

-- The year as a word.
unfoldable pub wrap_year : Date → Date
wrap_year (y, m, d) = (y % 2 ^ 32, m, d)

unfoldable pub civil_from_days : ℕ → Date
civil_from_days days =
    let z = days + 719468 in
    let era = z / 146097 in
    let doe = z - era * 146097 in
    let yoe = year_of_era doe in
    let y = (yoe + (era % 2 ^ 32 * 400) % 2 ^ 32) % 2 ^ 32 in
    wrap_year (date_in_year y (day_of_year doe yoe))

-- An entry of a table of names; beyond its end the code would panic.
abbrev pub name_at : List Bytes → ℕ → Bytes
name_at [] n = []
name_at (x ∷ xs) zero = x
name_at (x ∷ xs) (suc n) = name_at xs n

abbrev pub weekday_names : List Bytes
weekday_names =
    codes "Sun"
    ∷ codes "Mon"
    ∷ codes "Tue"
    ∷ codes "Wed"
    ∷ codes "Thu"
    ∷ codes "Fri"
    ∷ codes "Sat"
    ∷ []

abbrev pub month_names : List Bytes
month_names =
    codes "Jan"
    ∷ codes "Feb"
    ∷ codes "Mar"
    ∷ codes "Apr"
    ∷ codes "May"
    ∷ codes "Jun"
    ∷ codes "Jul"
    ∷ codes "Aug"
    ∷ codes "Sep"
    ∷ codes "Oct"
    ∷ codes "Nov"
    ∷ codes "Dec"
    ∷ []

abbrev fill : ℕ → Bytes
fill zero = []
fill (suc n) = 48 ∷ fill n

-- `{:02}` and `{:04}`
abbrev padded : ℕ → ℕ → Bytes
padded width n = fill (width - length (show n)) ++ show n

-- `{:04}` of the `i32` with this word.
abbrev padded_year : ℕ → Bytes
padded_year year =
    if ltb year (2 ^ 31) then padded 4 year else codes "-" ++ padded 3 (2 ^ 32 - year)

-- The seconds are those since 1970.
unfoldable pub http_date : ℕ → Bytes
http_date secs =
    let days = secs / 86400 in
    let secs_today = secs % 86400 in
    let (year, month, day) = civil_from_days days in
    name_at weekday_names ((days + 4) % 7)
    ++ codes ", "
    ++ padded 2 day
    ++ codes " "
    ++ name_at month_names (month - 1)
    ++ codes " "
    ++ padded_year year
    ++ codes " "
    ++ padded 2 (secs_today / 3600)
    ++ codes ":"
    ++ padded 2 (secs_today / 60 % 60)
    ++ codes ":"
    ++ padded 2 (secs_today % 60)
    ++ codes " GMT"

-- ===== src/Hls/Http/Calendar/Years.antt =====
-- The years of the 400-year era, from March on: which days of the era are in which year.
use ferricast.Base.{
  ℕ, ◌+◌, ◌-◌, ◌*◌, ◌/◌, ◌%◌, ◌<◌, ◌≡◌, ◌∙◌, arith, Bool, not, ◌&&◌, ◌||◌, ltb, ◌==◌, if◌then◌else◌,
  Bool-cases, inl, inr,
}
use ferricast.Hls.Http.Calendar.{year_of_era}

-- A leap year of the Gregorian calendar.
abbrev pub is_leap : ℕ → Bool
is_leap y = y % 4 == 0 && (not (y % 100 == 0) || y % 400 == 0)

-- A year from March on has its February in the next one.
abbrev pub year_length : ℕ → ℕ
year_length y = if is_leap (y + 1) then 366 else 365

-- The days of the era before a year of it.
abbrev pub days_before : ℕ → ℕ
days_before y = 365 * y + y / 4 - y / 100

common :
    (c q r doy d : ℕ)
    → c < 4
    → q < 25
    → r < 4
    → doy < 365
    → d ≡ 36524 * c + 1461 * q + 365 * r + doy
    → (d - d / 1460 + d / 36524 - d / 146096) / 365 ≡ 100 * c + 4 * q + r
common c q r doy d hc hq hr hy e = omega arith

leap_end :
    (c q d : ℕ)
    → c < 4
    → q < 25
    → (q ≡ 24 → c ≡ 3)
    → d ≡ 36524 * c + 1461 * q + 1460
    → (d - d / 1460 + d / 36524 - d / 146096) / 365 ≡ 100 * c + 4 * q + 3
leap_end c q d hc hq h e = elim (Bool-cases (ltb q 24)) [
  | inl lt ↦ let small : q < 24 = ground arith in omega arith
  | inr ge ↦ let last : q ≡ 24 = ground arith in let c_eq = h last in omega arith
]

leap_every_4 : (y : ℕ) → 365 < year_length y → y % 4 ≡ 3
leap_every_4 y h = ground arith

leap_century : (y : ℕ) → y < 400 → 365 < year_length y → y % 100 / 4 ≡ 24 → y / 100 ≡ 3
leap_century y h k q = ground arith

pub year_of_era_eq :
    (y doy : ℕ) → y < 400 → doy < year_length y → year_of_era (days_before y + doy) ≡ y
unfolding year_of_era
year_of_era_eq y doy h k = elim (Bool-cases (ltb doy 365)) [
  | inl lt ↦
      let small : doy < 365 = ground arith in
      common (y / 100) (y % 100 / 4) (y % 4) doy (days_before y + doy) (omega arith) (omega arith)
        (omega arith) small (omega arith)
      ∙ (let q : 100 * (y / 100) + 4 * (y % 100 / 4) + y % 4 ≡ y = omega arith in q)
  | inr ge ↦
      let long : doy ≡ 365 = ground arith in
      let leap_year : 365 < year_length y = omega (arith, long, k) in
      let four = leap_every_4 y leap_year in
      leap_end (y / 100) (y % 100 / 4) (days_before y + doy) (omega arith) (omega arith)
        (leap_century y h leap_year) (omega (arith, four, long))
      ∙ (let q : 100 * (y / 100) + 4 * (y % 100 / 4) + 3 ≡ y = omega (arith, four) in q)
]

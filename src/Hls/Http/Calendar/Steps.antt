-- ===== src/Hls/Http/Calendar/Steps.antt =====
-- `civil_from_days` against a calendar that counts day by day.
use ferricast.Base.{
  ℕ, zero, suc, ◌+◌, ◌-◌, ◌*◌, ◌/◌, ◌%◌, ◌^◌, ◌≤◌, ◌<◌, ◌≡◌, refl, sym, ap, ◌∙◌, arith, min, false,
  ◌||◌, ltb, leb, ltb→lt, ◌==◌, if◌then◌else◌, if_lt, if_ge, Bool-cases, inl, inr,
}
use ferricast.Hls.Http.Calendar.{Date, wrap_year, date_in_year, day_of_year, civil_from_days}
use ferricast.Hls.Http.Calendar.Years.{is_leap, year_length, days_before, year_of_era_eq}

abbrev pub month_length : ℕ → ℕ → ℕ
month_length y m =
    if m == 2
    then (if is_leap y then 29 else 28)
    else if m == 4 || m == 6 || m == 9 || m == 11
    then 30
    else 31

-- The day after a date of the Gregorian calendar.
abbrev pub next_day : Date → Date
next_day (y, m, d) =
    if ltb d (month_length y m)
    then (y, m, d + 1)
    else if ltb m 12
    then (y, m + 1, 1)
    else (y + 1, 1, 1)

-- The date so many days after 1970-01-01.
abbrev pub date_after : ℕ → Date
date_after zero = (1970, 1, 1)
date_after (suc n) = next_day (date_after n)

-- Month `mp` of a year from March on: its first day in it, its number, its calendar year.
abbrev start : ℕ → ℕ
start mp = (153 * mp + 2) / 5

abbrev month_no : ℕ → ℕ
month_no mp = if ltb mp 10 then mp + 3 else mp - 9

abbrev year_no : ℕ → ℕ → ℕ
year_no y mp = if leb (month_no mp) 2 then y + 1 else y

in_month :
    (y doy mp : ℕ)
    → start mp ≤ doy
    → doy < start (mp + 1)
    → date_in_year y doy ≡ (year_no y mp, month_no mp, doy - start mp + 1)
unfolding date_in_year
in_month y doy mp lo hi = let e : (5 * doy + 2) / 153 ≡ mp = omega arith in rw e refl

length_lem :
    (y mp : ℕ)
    → mp < 12
    → month_length (year_no y mp) (month_no mp) ≡ min (start (mp + 1)) (year_length y) - start mp
length_lem y mp h = ground arith

-- The day after, where the month goes on, and where it ends.
next_day_in : (y m d : ℕ) → d < month_length y m → next_day (y, m, d) ≡ (y, m, d + 1)
next_day_in y m d h = if_lt d (month_length y m) _ _ h

next_day_end :
    (y mp d : ℕ)
    → mp < 11
    → month_length (year_no y mp) (month_no mp) ≤ d
    → next_day (year_no y mp, month_no mp, d) ≡ (year_no y (mp + 1), month_no (mp + 1), 1)
next_day_end y mp d h k = if_ge d (month_length (year_no y mp) (month_no mp)) _ _ k ∙ ground arith

next_day_year : (y d : ℕ) → month_length (y + 1) 2 ≤ d → next_day (y + 1, 2, d) ≡ (y + 1, 3, 1)
next_day_year y d k = if_ge d (month_length (y + 1) 2) _ _ k

length_bound : (y : ℕ) → (365 ≤ year_length y) × (year_length y ≤ 366)
length_bound y = ground arith

same_year :
    (y doy : ℕ) → doy + 1 < year_length y → next_day (date_in_year y doy) ≡ date_in_year y (doy + 1)
same_year y doy h =
    let mp = (5 * doy + 2) / 153 in
    let small : mp < 12 = ground arith in
    let lo : start mp ≤ doy = omega arith in
    let hi : doy < start (mp + 1) = omega arith in
    let len = length_lem y mp small in
    ap next_day (in_month y doy mp lo hi) ∙ elim (Bool-cases (ltb (doy + 1) (start (mp + 1)))) [
      | inl e ↦
          let inside : doy + 1 < start (mp + 1) = ground arith in
          next_day_in (year_no y mp) (month_no mp) (doy - start mp + 1) (omega (arith, len))
          ∙ (ap (λ d. (year_no y mp, month_no mp, d))
              (let q : doy - start mp + 1 + 1 ≡ doy + 1 - start mp + 1 = omega arith in q))
          ∙ sym (in_month y (doy + 1) mp (omega arith) inside)
      | inr e ↦
          let ends : doy + 1 ≡ start (mp + 1) = ground arith in
          let before_last : mp < 11 = omega (arith, h, length_bound y) in
          next_day_end y mp (doy - start mp + 1) before_last (omega (arith, len, ends))
          ∙ ap (λ d. (year_no y (mp + 1), month_no (mp + 1), d))
              (let q : 1 ≡ doy + 1 - start (mp + 1) + 1 = omega (arith, ends) in q)
          ∙ sym (in_month y (doy + 1) (mp + 1) (omega (arith, ends)) (omega (arith, ends)))
    ]

next_year :
    (y doy : ℕ) → doy + 1 ≡ year_length y → next_day (date_in_year y doy) ≡ date_in_year (y + 1) 0
next_year y doy h =
    let len = length_lem y 11 (omega arith) in
    ap next_day
      (in_month y doy 11 (omega (arith, h, length_bound y)) (omega (arith, h, length_bound y)))
    ∙ next_day_year y (doy - start 11 + 1) (omega (arith, len, h, length_bound y))
    ∙ sym (in_month (y + 1) 0 0 (omega arith) (omega arith))

-- Where the day `n` after 1970 stands: in year `y` of an era of 400 years, as its day `doy`.
record Position (n : ℕ) : Type 0 where
  era : ℕ
  y : ℕ
  doy : ℕ
  in_era : y < 400
  in_year : doy < year_length y
  days : n + 719468 ≡ 146097 * era + (days_before y + doy)

keep_year : (y doy : ℕ) → y + 1 < 2 ^ 32 → wrap_year (date_in_year y doy) ≡ date_in_year y doy
unfolding wrap_year date_in_year
keep_year y doy h = ground arith

civil-Position :
    (n : ℕ) (p : Position n)
    → n < 2 ^ 39
    → civil_from_days n ≡ date_in_year (p.y + p.era * 400) p.doy
unfolding civil_from_days day_of_year
civil-Position n p small =
    let bound = length_bound p.y in
    let era_eq : (n + 719468) / 146097 ≡ p.era =
      omega (arith, p.days, p.in_era, p.in_year, bound) in
    let doe_eq : n + 719468 - p.era * 146097 ≡ days_before p.y + p.doy = omega (arith, p.days) in
    let doy_eq : days_before p.y + p.doy - (365 * p.y + p.y / 4 - p.y / 100) ≡ p.doy =
      omega arith in
    let fits : p.y + p.era * 400 < 2 ^ 31 = omega (arith, p.days, p.in_era) in
    let y_eq : (p.y + (p.era % 2 ^ 32 * 400) % 2 ^ 32) % 2 ^ 32 ≡ p.y + p.era * 400 =
      omega (arith, fits) in
    rw era_eq (
      rw doe_eq (
        rw (year_of_era_eq p.y p.doy p.in_era p.in_year)
          (rw doy_eq (rw y_eq (keep_year (p.y + p.era * 400) p.doy (omega arith))))))

-- The lengths of years come again with each era.
year_length_era : (y era : ℕ) → year_length (y + era * 400) ≡ year_length y
year_length_era y era =
    let r4 : (y + era * 400 + 1) % 4 ≡ (y + 1) % 4 = omega arith in
    let r100 : (y + era * 400 + 1) % 100 ≡ (y + 1) % 100 = omega arith in
    let r400 : (y + era * 400 + 1) % 400 ≡ (y + 1) % 400 = omega arith in
    rw r4 (rw r100 (rw r400 refl))

days_before_suc : (y : ℕ) → y + 1 < 400 → days_before (y + 1) ≡ days_before y + year_length y
days_before_suc y h = ground arith

abbrev date_at : {n : ℕ} → Position n → Date
date_at p = date_in_year (p.y + p.era * 400) p.doy

first_day : Position 0
first_day = record {
  era = 4;
  y = 369;
  doy = 306;
  in_era = omega arith;
  in_year = omega arith;
  days = omega arith;
}

ltb→ge : (a b : ℕ) → ltb a b ≡ false → b ≤ a
ltb→ge a b h = ground arith

-- The position of the next day: in the year, in the next year, or in the next era.
next_position :
    (n : ℕ) (p : Position n) → (q : Position (suc n)) × (next_day (date_at p) ≡ date_at q)
next_position n p =
    let same_length = year_length_era p.y p.era in
    elim (Bool-cases (ltb (p.doy + 1) (year_length p.y))) [
      | inl e ↦
          let inside : p.doy + 1 < year_length p.y = ltb→lt (p.doy + 1) (year_length p.y) e in
          (
            record {
              era = p.era;
              y = p.y;
              doy = p.doy + 1;
              in_era = p.in_era;
              in_year = inside;
              days = omega (arith, p.days);
            },
            same_year (p.y + p.era * 400) p.doy (omega (arith, inside, same_length)),
          )
      | inr e ↦
          let ends : p.doy + 1 ≡ year_length p.y =
            omega (arith, ltb→ge (p.doy + 1) (year_length p.y) e, p.in_year) in
          let step = next_year (p.y + p.era * 400) p.doy (omega (arith, ends, same_length)) in
          elim (Bool-cases (ltb (p.y + 1) 400)) [
            | inl e' ↦
                let inside : p.y + 1 < 400 = ltb→lt (p.y + 1) 400 e' in
                (
                  record {
                    era = p.era;
                    y = p.y + 1;
                    doy = 0;
                    in_era = inside;
                    in_year = omega (arith, length_bound (p.y + 1));
                    days = omega (arith, p.days, ends, days_before_suc p.y inside);
                  },
                  step
                      ∙ ap (λ y. date_in_year y 0)
                          (let q : p.y + p.era * 400 + 1 ≡ p.y + 1 + p.era * 400 = omega arith in
                            q),
                )
            | inr e' ↦
                let last : p.y ≡ 399 = omega (arith, ltb→ge (p.y + 1) 400 e', p.in_era) in
                let long : year_length p.y ≡ 366 = ap year_length last in
                (
                  record {
                    era = p.era + 1;
                    y = 0;
                    doy = 0;
                    in_era = omega arith;
                    in_year = omega arith;
                    days = omega (arith, p.days, ends, long, last);
                  },
                  step
                      ∙ ap (λ y. date_in_year y 0)
                          (let q : p.y + p.era * 400 + 1 ≡ 0 + (p.era + 1) * 400 =
                              omega (arith, last) in
                            q),
                )
          ]
    ]

positions : (n : ℕ) → (p : Position n) × (date_after n ≡ date_at p)
unfolding date_in_year first_day
positions zero = (first_day, refl)
positions (suc n) =
    let (p, e) = positions n in let (q, e') = next_position n p in (q, ap next_day e ∙ e')

-- The date that the server computes for the day `n` after 1970-01-01 is the one that counting day
-- by day through the Gregorian calendar comes to, for every `n` below 2 ^ 39.
pub civil_from_days-date_after : (n : ℕ) → n < 2 ^ 39 → civil_from_days n ≡ date_after n
civil_from_days-date_after n h = let (p, e) = positions n in civil-Position n p h ∙ sym e

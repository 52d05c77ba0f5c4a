-- ===== src/Clock/Tests.antt =====
-- Runs of the clock, and its theorem at a concrete time.
use model_lib.Common.{◌≡◌, refl, true, none, some, [], ◌∷◌, arith}
use model_lib.Clock.{
  WallClock, Registers, same, same_century, of_bcd, hour_of_bcd, to_binary, to_24_hours, full_year,
  decode, read_twice, cmos_read_clock,
}
use model_lib.Clock.Decode.{IsTime, read_time, cmos_read_clock_lem}

-- The 31st of December 2021, a second before midnight.
abbrev late : WallClock
late = record { second = 59; minute = 59; hour = 23; day = 31; month = 12; year = 2021 }

-- The same with decimal digits in the 12-hour mode, and with plain numbers a second earlier.
abbrev digits : Registers
digits = record {
  time = record {
    second = 0x59;
    minute = 0x59;
    hour = 0x91;
    day = 0x31;
    month = 0x12;
    year = 0x21;
  };
  century = none;
}

abbrev before : Registers
before = record {
  time = record {
    second = 0x58;
    minute = 0x59;
    hour = 0x91;
    day = 0x31;
    month = 0x12;
    year = 0x21;
  };
  century = none;
}

read_back : decode digits 0 ≡ late
unfolding decode to_binary of_bcd hour_of_bcd to_24_hours full_year
read_back = refl

with_century : full_year 21 (some 20) ≡ 2021
unfolding full_year
with_century = refl

past_years : full_year 19 none ≡ 2119
unfolding full_year
past_years = refl

unsettled : cmos_read_clock before (digits ∷ []) 0 ≡ none
unfolding cmos_read_clock read_twice same same_century
unsettled = refl

late-IsTime : IsTime late
late-IsTime = record {
  second = omega arith;
  minute = omega arith;
  hour = omega arith;
  day = omega arith;
  month = omega arith;
  from = omega arith;
  until = omega arith;
}

cmos_read_clock_lem_example :
    cmos_read_clock before (digits ∷ digits ∷ []) 0 ≡ some (read_time true late)
unfolding same same_century
cmos_read_clock_lem_example =
    cmos_read_clock_lem 0 late before [] [] late-IsTime (refl, omega arith)

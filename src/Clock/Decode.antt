-- ===== src/Clock/Decode.antt =====
-- drivers/cmos/cmos_clock.c: what the clock says, against how its registers spell a time.
use Prim.Native.Nat.{bit_and}
use model_lib.Common.{
  ℕ, ◌+◌, ◌*◌, ◌/◌, ◌%◌, ◌≤◌, ◌<◌, ◌≡◌, refl, Bool, true, false, ◌&&◌, not, Option, none, some,
  List, [], ◌∷◌, ◌++◌, arith, if◌then◌else◌, ◌==◌, leb, all_below, all_below_sound, ==_iff,
}
use model_lib.Clock.{
  WallClock, Registers, same, same_century, read_twice, of_bcd, hour_of_bcd, to_binary, to_24_hours,
  full_year, decode, cmos_read_clock,
}

-- A number below 100 in two decimal digits, where the register holds these.
abbrev pub spelt : Bool → ℕ → ℕ
spelt true v = v / 10 * 16 + v % 10
spelt false v = v

-- The hours from 1 to 12, with the top bit for the afternoon.
abbrev pub spelt_hour : (bcd twelve : Bool) → ℕ → ℕ
spelt_hour bcd false hour = spelt bcd hour
spelt_hour bcd true hour =
    spelt bcd (if hour % 12 == 0 then 12 else hour % 12) + (if leb 12 hour then 128 else 0)

-- The registers at a time, in a clock without a register for the century.
abbrev pub spell : (bcd twelve : Bool) → WallClock → Registers
spell bcd twelve w = record {
  time = record {
    second = spelt bcd w.second;
    minute = spelt bcd w.minute;
    hour = spelt_hour bcd twelve w.hour;
    day = spelt bcd w.day;
    month = spelt bcd w.month;
    year = spelt bcd (w.year % 100);
  };
  century = none;
}

-- A time of this century's last 80 years or the next one's first 20.
pub record IsTime (w : WallClock) : Type 0 where
  pub second : w.second < 60
  pub minute : w.minute < 60
  pub hour : w.hour < 24
  pub day : w.day < 32
  pub month : w.month < 13
  pub from : 2020 ≤ w.year
  pub until : w.year < 2120

of_bcd-spelt : (v : ℕ) → v < 100 → of_bcd (spelt true v) ≡ v
unfolding of_bcd all_below
of_bcd-spelt v h =
    (==_iff (of_bcd (spelt true v)) v).0
      (all_below_sound 100 (λ n. of_bcd (spelt true n) == n) v refl h)

-- What becomes of an hour.
abbrev pub read_hour : Bool → ℕ → ℕ
read_hour twelve hour = if twelve && (hour % 12 == 0) then (hour + 12) % 24 else hour

abbrev hour_read : (bcd twelve : Bool) → ℕ → ℕ
hour_read bcd twelve v =
    let h = if bcd then hour_of_bcd v else v in
    if twelve && not (bit_and h 0x80 == 0) then (bit_and h 0x7f + 12) % 24 else h

abbrev hour_ok : (bcd twelve : Bool) → ℕ → Bool
hour_ok bcd twelve h = hour_read bcd twelve (spelt_hour bcd twelve h) == read_hour twelve h

hours : (bcd twelve : Bool) → all_below 24 (hour_ok bcd twelve) ≡ true
unfolding all_below hour_of_bcd
hours true true = refl
hours true false = refl
hours false true = refl
hours false false = refl

hour_read-spelt :
    (bcd twelve : Bool) (h : ℕ)
    → h < 24
    → hour_read bcd twelve (spelt_hour bcd twelve h) ≡ read_hour twelve h
hour_read-spelt bcd twelve h lt =
    (==_iff (hour_read bcd twelve (spelt_hour bcd twelve h)) (read_hour twelve h)).0
      (all_below_sound 24 (hour_ok bcd twelve) h (hours bcd twelve) lt)

year_back : (y : ℕ) → 2020 ≤ y → y < 2120 → full_year (y % 100) none ≡ y
unfolding full_year
year_back y from until = ground arith

year_read :
    (bcd : Bool) (y : ℕ)
    → (if bcd then of_bcd (spelt bcd (y % 100)) else spelt bcd (y % 100)) ≡ y % 100
year_read true y = of_bcd-spelt (y % 100) (omega arith)
year_read false y = refl

-- The clock's time with the hour as it is read.
abbrev pub read_time : (twelve : Bool) → WallClock → WallClock
read_time twelve w = record w { hour = read_hour twelve w.hour }

decode-spell :
    (b : ℕ) (bcd twelve : Bool) (w : WallClock)
    → (bit_and b 4 == 0) ≡ bcd
    → (bit_and b 2 == 0) ≡ twelve
    → IsTime w
    → decode (spell bcd twelve w) b ≡ read_time twelve w
unfolding decode to_binary to_24_hours
decode-spell b true twelve w e h t =
    rw
      (
        e,
        h,
        of_bcd-spelt w.second (omega (arith, t.second)),
        of_bcd-spelt w.minute (omega (arith, t.minute)),
        of_bcd-spelt w.day (omega (arith, t.day)),
        of_bcd-spelt w.month (omega (arith, t.month)),
        of_bcd-spelt (w.year % 100) (omega arith),
        year_back w.year t.from t.until,
        hour_read-spelt true twelve w.hour t.hour,
      )
      refl
decode-spell b false twelve w e h t =
    rw (e, h, year_back w.year t.from t.until, hour_read-spelt false twelve w.hour t.hour) refl

-- No two rounds of reads in a row give the same values.
abbrev pub Changing : Registers → List Registers → Type 0
Changing last [] = Unit {0}
Changing last (r ∷ rs) = (same last r ≡ false) × Changing r rs

==_self : (n : ℕ) → (n == n) ≡ true
==_self n = (==_iff n n).1 refl

same_century_self : (c : Option ℕ) → same_century c c ≡ true
unfolding same_century
same_century_self none = refl
same_century_self (some c) = ==_self c

same_self : (r : Registers) → same r r ≡ true
unfolding same
same_self r =
    rw
      (
        ==_self r.time.second,
        ==_self r.time.minute,
        ==_self r.time.hour,
        ==_self r.time.day,
        ==_self r.time.month,
        ==_self r.time.year,
        same_century_self r.century,
      )
      refl

read_twice-settles :
    (last r : Registers) (xs rest : List Registers)
    → same r r ≡ true
    → Changing last (xs ++ r ∷ [])
    → read_twice last (xs ++ r ∷ r ∷ rest) ≡ some r
unfolding read_twice
read_twice-settles last r [] rest e c = rw (c.0, e) refl
read_twice-settles last r (x ∷ xs) rest e c = rw (c.0) (read_twice-settles x r xs rest e c.1)

-- With the registers spelling a time in the way that status register B tells, twice in a row after
-- rounds that all differ from the one before, `cmos_read_clock` ends and returns this time, for every
-- year from 2020 to 2119; but in the 12-hour mode the hours after midnight and after noon, which the
-- clock spells 12, are returned as each other.
pub cmos_read_clock_lem :
    (b : ℕ) (w : WallClock) (first : Registers) (xs rest : List Registers)
    → IsTime w
    → Changing first (xs ++ spell (bit_and b 4 == 0) (bit_and b 2 == 0) w ∷ [])
    → let twelve = bit_and b 2 == 0 in
      let r = spell (bit_and b 4 == 0) twelve w in
      cmos_read_clock first (xs ++ r ∷ r ∷ rest) b ≡ some (read_time twelve w)
unfolding cmos_read_clock
cmos_read_clock_lem b w first xs rest t changing =
    let twelve = bit_and b 2 == 0 in
    let bcd = bit_and b 4 == 0 in
    rw
      (
        read_twice-settles first (spell bcd twelve w) xs rest (same_self (spell bcd twelve w))
            changing,
        decode-spell b bcd twelve w refl refl t,
      )
      refl

-- ===== src/Clock.antt =====
-- drivers/cmos/cmos_clock.c: the wall clock, read from the registers of the battery-backed clock.
-- What a round of reads gives is a `Registers`; the ports behind it, and the wait for the flag that
-- an update is in progress, are not modelled. `century` is the register of the century, if the
-- variable `century_register` names one, which no code sets.
pub mod Decode
mod Tests
use Prim.Native.Nat.{bit_and, bit_or}
use model_lib.Common.{
  and_then, ℕ, ◌+◌, ◌*◌, ◌/◌, ◌%◌, Bool, true, false, ◌&&◌, not, Option, none, some, List, [], ◌∷◌,
  if◌then◌else◌, ◌==◌, ltb, u32_mod,
}

-- `wall_clock_t`, also as the registers hold it.
pub record WallClock : Type 0 where
  pub second : ℕ
  pub minute : ℕ
  pub hour : ℕ
  pub day : ℕ
  pub month : ℕ
  pub year : ℕ

pub record Registers : Type 0 where
  pub time : WallClock
  pub century : Option ℕ

unfoldable pub same_century : Option ℕ → Option ℕ → Bool
same_century none none = true
same_century none (some d) = false
same_century (some c) none = false
same_century (some c) (some d) = c == d

unfoldable pub same : Registers → Registers → Bool
unfolding same_century
same p q =
    (p.time.second == q.time.second)
    && (p.time.minute == q.time.minute)
    && (p.time.hour == q.time.hour)
    && (p.time.day == q.time.day)
    && (p.time.month == q.time.month)
    && (p.time.year == q.time.year)
    && same_century p.century q.century

-- The loop that reads until it gets the same values twice, on the rounds of reads that the clock
-- gives: `none` where it still goes on behind the last of them.
unfoldable pub read_twice : Registers → List Registers → Option Registers
unfolding same
read_twice last [] = none
read_twice last (r ∷ rs) = let rest = read_twice r rs in if same last r then some r else rest

unfoldable pub of_bcd : ℕ → ℕ
of_bcd v = bit_and v 0x0f + v / 16 * 10

unfoldable pub hour_of_bcd : ℕ → ℕ
hour_of_bcd v = bit_or (bit_and v 0x0f + bit_and v 0x70 / 16 * 10) (bit_and v 0x80)

-- The conversion where the registers hold decimal digits.
unfoldable pub to_binary : WallClock → WallClock
unfolding of_bcd hour_of_bcd
to_binary r = record {
  second = of_bcd r.second;
  minute = of_bcd r.minute;
  hour = hour_of_bcd r.hour;
  day = of_bcd r.day;
  month = of_bcd r.month;
  year = of_bcd r.year;
}

unfoldable pub to_24_hours : ℕ → ℕ → ℕ
to_24_hours register_b hour =
    if (bit_and register_b 0x02 == 0) && not (bit_and hour 0x80 == 0)
    then (bit_and hour 0x7f + 12) % 24
    else hour

abbrev pub current_year : ℕ
current_year = 2020

-- `century` is a byte, converted as the other registers are.
unfoldable pub full_year : ℕ → Option ℕ → ℕ
full_year year (some century) = (year + century * 100) % u32_mod
full_year year none =
    let y = (year + current_year / 100 * 100) % u32_mod in
    if ltb y current_year then (y + 100) % u32_mod else y

abbrev pub century_of : Bool → Option ℕ → Option ℕ
century_of bcd none = none
century_of bcd (some c) = some (if bcd then of_bcd c else c)

-- What follows the reads.
unfoldable pub decode : Registers → ℕ → WallClock
unfolding of_bcd to_binary to_24_hours full_year
decode r register_b =
    let bcd = bit_and register_b 0x04 == 0 in
    let t = if bcd then to_binary r.time else r.time in
    record t {
      hour = to_24_hours register_b t.hour;
      year = full_year t.year (century_of bcd r.century);
    }

-- `reads` are the rounds of reads behind the first one.
unfoldable pub cmos_read_clock : Registers → (reads : List Registers) → ℕ → Option WallClock
unfolding read_twice decode
cmos_read_clock first reads register_b =
    and_then (read_twice first reads) (λ r. some (decode r register_b))

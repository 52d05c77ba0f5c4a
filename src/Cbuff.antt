-- ===== src/Cbuff.antt =====
-- kernel/types/cbuff.c and cbuff.h: the circular buffers of bytes (`cbuff8_t`) and of words
-- (`cbuff32_t`). The two differ only in the width of an element, which is a parameter here.
-- A function that changes `*b` returns the new buffer. The storage belongs to the caller; a
-- write outside it is no write in the model, and `Cbuff.Inv.in_bounds` rules it out.
pub mod Inv
pub mod Queue
pub mod Refine
mod Tests
use model_lib.Common.{
  ℕ, ◌+◌, ◌-◌, ◌%◌, ◌^◌, Bool, true, false, ◌&&◌, not, Option, none, some, List, if◌then◌else◌, ltb,
  ◌==◌, add32, sub32, get_elem?, set,
}

pub record Cbuff : Type 0 where
  pub buff : List ℕ
  pub head : ℕ
  pub tail : ℕ
  pub len : ℕ
  pub full : Bool

pub reset : Cbuff → Cbuff
reset b = record b { full = false; head = 0; tail = 0 }

-- The fields that `kmalloc` leaves unset are set by `reset`.
pub create : List ℕ → ℕ → Cbuff
unfolding reset
create buff sz = reset (record { buff = buff; head = 0; tail = 0; len = sz; full = false })

-- The next index round the buffer.
abbrev pub next : Cbuff → ℕ → ℕ
next b i = add32 i 1 % b.len

-- `v` arrives in a parameter of `w` bits.
pub put : (w : ℕ) → Cbuff → ℕ → Cbuff
put w b v =
    let tail' = if b.full then next b b.tail else b.tail in
    let head' = next b b.head in
    record b {
      buff = set b.buff b.head (v % 2 ^ w);
      tail = tail';
      head = head';
      full = head' == tail';
    }

pub empty : Cbuff → Bool
empty b = not b.full && (b.head == b.tail)

-- `*val` is left alone where the result is false; `some` is the value stored there, read at `tail`.
pub get : Cbuff → Option (Option ℕ) × Cbuff
unfolding empty
get b =
    if empty b
    then (none, b)
    else (some (get_elem? b.buff b.tail), record b { full = false; tail = next b b.tail })

pub is_full : Cbuff → Bool
is_full b = b.full

pub capacity : Cbuff → ℕ
capacity b = b.len

pub count : Cbuff → ℕ
count b =
    if b.full
    then b.len
    else if ltb b.tail b.head
    then sub32 b.head b.tail
    else add32 (sub32 b.len b.tail) b.head

-- The functions on `cbuff32_t`, whose text is that of their kin above.
pub reset32 : Cbuff → Cbuff
unfolding reset
reset32 b = reset b

pub create32 : List ℕ → ℕ → Cbuff
unfolding create
create32 buff sz = create buff sz

pub put32 : Cbuff → ℕ → Cbuff
unfolding put
put32 b v = put 32 b v

pub get32 : Cbuff → Option (Option ℕ) × Cbuff
unfolding get
get32 b = get b

pub empty32 : Cbuff → Bool
unfolding empty
empty32 b = empty b

pub is_full32 : Cbuff → Bool
unfolding is_full
is_full32 b = is_full b

pub capacity32 : Cbuff → ℕ
unfolding capacity
capacity32 b = capacity b

pub count32 : Cbuff → ℕ
unfolding count
count32 b = count b

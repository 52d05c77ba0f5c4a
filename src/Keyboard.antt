-- ===== src/Keyboard.antt =====
-- drivers/keyboard/keyboard.c: the interrupt handler that turns scan codes into key events, the
-- modifier state, and the ring of events that readers take from. The static variables of the file
-- are the fields of `Kb`; `inb(0x60)` enters as the argument `scan_code`. The calls out of the file,
-- to the observer and to the threads that wait, are returned as effects.
mod ScancodeTables
pub mod Layout
pub mod Held
pub mod Decode
pub mod Prefix
pub mod Read
mod Tests
unfoldable pub use ScancodeTables.{ascii_lower, ascii_upper, ascii_two_byte}
use Prim.Native.Nat.{bit_and}
use model_lib.Common.{
  ℕ, zero, suc, ◌+◌, ◌*◌, ◌%◌, Bool, true, false, ◌&&◌, ◌||◌, not, Option, none, some, List, [],
  ◌∷◌, ◌++◌, if◌then◌else◌, ◌==◌, get_or, get_elem?, set,
}

-- `kb_state_t`
pub record KbState : Type 0 where
  pub lshift : Bool
  pub rshift : Bool
  pub lalt : Bool
  pub ralt : Bool
  pub lctrl : Bool
  pub rctrl : Bool
  pub caps : Bool

-- `kb_event_t`
pub record KbEvent : Type 0 where
  pub code : ℕ
  pub state : KbState
  pub pressed : Bool

pub record Kb : Type 0 where
  pub events : List KbEvent
  pub events_head : ℕ
  pub events_tail : ℕ
  pub events_full : Bool
  pub state : KbState
  pub wait_2nd : Bool
  -- whether an observer is registered
  pub observer : Bool

pub data Effect : Type 0 where
  observe : KbEvent → Effect
  unblock_readers : Effect

abbrev pub buff_sz : ℕ
buff_sz = 128

unfoldable pub events_empty : Kb → Bool
events_empty k = not k.events_full && (k.events_head == k.events_tail)

pub put_event : Kb → KbEvent → Kb
put_event k e =
    let tail = if k.events_full then (k.events_tail + 1) % buff_sz else k.events_tail in
    let head = (k.events_head + 1) % buff_sz in
    record k {
      events = set k.events k.events_head e;
      events_head = head;
      events_tail = tail;
      events_full = head == tail;
    }

pub get_event : Kb → Option (Option KbEvent) × Kb
unfolding events_empty
get_event k = if events_empty k then (none, k) else (
  some (get_elem? k.events k.events_tail),
  record k { events_full = false; events_tail = (k.events_tail + 1) % buff_sz },
)

pub is_state_modifier : ℕ → Bool
is_state_modifier sc =
    (sc == 0xe0)
    || (sc == 0x2a)
    || (sc == 0xaa)
    || (sc == 0x36)
    || (sc == 0xb6)
    || (sc == 0x38)
    || (sc == 0xb8)
    || (sc == 0x3a)
    || (sc == 0xba)
    || (sc == 0x1d)
    || (sc == 0x9d)

-- One flag: set by code `down`, cleared by code `up`, where `here` holds.
abbrev pub latch : Bool → ℕ → (down up : ℕ) → Bool → Bool
latch here sc down up old =
    if here && (sc == down) then true else if here && (sc == up) then false else old

pub update_state : Kb → ℕ → Kb × Bool
unfolding is_state_modifier
update_state k sc =
    let wait = if sc == 0xe0 then true else k.wait_2nd in
    let one = not wait in
    let s = k.state in
    (
      record k {
        wait_2nd = wait;
        state = record {
          lshift = latch one sc 0x2a 0xaa s.lshift;
          rshift = latch one sc 0x36 0xb6 s.rshift;
          lalt = latch one sc 0x38 0xb8 s.lalt;
          ralt = latch wait sc 0x38 0xb8 s.ralt;
          lctrl = latch one sc 0x1d 0x9d s.lctrl;
          rctrl = latch wait sc 0x1d 0x9d s.rctrl;
          caps = latch one sc 0x3a 0xba s.caps;
        };
      },
      is_state_modifier sc,
    )

pub translate : Kb → ℕ → ℕ
translate k sc =
    if k.wait_2nd
    then get_or ascii_two_byte sc 0
    else if k.state.lshift || k.state.rshift || k.state.caps
    then get_or ascii_upper sc 0
    else get_or ascii_lower sc 0

pub is_special_code : ℕ → Bool
is_special_code sc =
    (sc == 0x00)
    || (sc == 0xee)
    || (sc == 0xfa)
    || (sc == 0xfc)
    || (sc == 0xfd)
    || (sc == 0xfe)
    || (sc == 0xff)

-- The part of `kb_isr` past the modifiers.
pub key_event : Kb → ℕ → Kb × List Effect
unfolding put_event
key_event k scan_code =
    let pressed = bit_and scan_code 0x80 == 0 in
    let ascii = translate k (bit_and scan_code 0x7f) in
    let e : KbEvent = record { code = ascii; state = k.state; pressed = pressed } in
    if ascii == 0 then (record k { wait_2nd = false }, []) else (
      record (put_event k e) { wait_2nd = false },
      (if k.observer then observe e ∷ [] else []) ++ unblock_readers ∷ [],
    )

pub kb_isr : Kb → ℕ → Kb × List Effect
kb_isr k scan_code =
    if is_special_code scan_code
    then (k, [])
    else if scan_code == 0xe0
    then (record k { wait_2nd = true }, [])
    else let (k', modifier) = update_state k scan_code in
      if modifier then (k', []) else key_event k' scan_code

pub kb_register_event_handler : Kb → Kb
kb_register_event_handler k = record k { observer = true }

pub kb_remove_event_handler : Kb → Kb
kb_remove_event_handler k = record k { observer = false }

-- `sizeof(kb_event_t)`: three members of one byte each.
abbrev pub event_size : ℕ
event_size = 3

-- How a read stands: done, or waiting for an event with `i` bytes counted so far. Each event read
-- is paired with the offset in `buff` that it is written to, the pointer `(kb_event_t*)buff + i`.
pub data Reading : Type 0 where
  done blocked : (i : ℕ) → List (ℕ × Option KbEvent) → Kb → Reading

pub read_loop : (n i : ℕ) → List (ℕ × Option KbEvent) → Kb → Reading
read_loop zero i out k = done i out k
read_loop (suc n) i out k =
    let (e, k') = get_event k in
    elim e [
      | none ↦ blocked i out k
      | some v ↦ read_loop n (i + event_size) (out ++ (i * event_size, v) ∷ []) k'
    ]

-- A read of `n` events, that is, with `sz` of `n * event_size` bytes.
pub read_keyboard : ℕ → Kb → Reading
read_keyboard n k = read_loop n 0 [] k

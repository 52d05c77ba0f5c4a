-- ===== src/Keyboard/Tests.antt =====
-- Runs of the keyboard driver, and its theorems at concrete states.
use model_lib.Common.{Bool, ℕ, ◌≡◌, refl, true, false, some, [], ◌∷◌, replicate}
use model_lib.Keyboard.{
  Kb, KbState, KbEvent, observe, unblock_readers, done, kb_isr, translate, get_event, put_event,
  read_loop, read_keyboard, is_special_code, update_state, key_event, kb_register_event_handler,
  kb_remove_event_handler, ascii_lower,
}

abbrev still : KbState
still = record {
  lshift = false;
  rshift = false;
  lalt = false;
  ralt = false;
  lctrl = false;
  rctrl = false;
  caps = false;
}

abbrev blank : KbEvent
blank = record { code = 0; state = still; pressed = false }

abbrev start : Kb
start = record {
  events = replicate 128 blank;
  events_head = 0;
  events_tail = 0;
  events_full = false;
  state = still;
  wait_2nd = false;
  observer = false;
}

abbrev shifted : Kb
shifted = record start { state = record still { rshift = true } }

key : ℕ → Bool → KbEvent
key c p = record { code = c; state = still; pressed = p }

types_a : (kb_isr start 0x1e).1 ≡ unblock_readers ∷ []
unfolding kb_isr is_special_code update_state key_event translate ascii_lower
types_a = refl

observed_a :
    (kb_isr (kb_register_event_handler start) 0x9e).1
    ≡ observe (key b'a' false) ∷ unblock_readers ∷ []
unfolding kb_isr is_special_code update_state key_event translate ascii_lower key
    kb_register_event_handler
observed_a = refl

handler_removed : kb_remove_event_handler (kb_register_event_handler start) ≡ start
unfolding kb_register_event_handler kb_remove_event_handler
handler_removed = refl

event_kept : (get_event (kb_isr start 0x1e).0).0 ≡ some (some (key b'a' true))
unfolding kb_isr is_special_code update_state key_event translate ascii_lower key get_event
event_kept = refl

two : Kb
unfolding put_event
two = put_event (put_event start (key b'x' true)) (key b'y' true)

two-read :
    (k : Kb) × (read_keyboard 2 two
      ≡ done 6 ((0, some (key b'x' true)) ∷ (9, some (key b'y' true)) ∷ []) k)
unfolding read_keyboard read_loop get_event two
two-read = (_, refl)

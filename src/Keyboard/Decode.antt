-- ===== src/Keyboard/Decode.antt =====
-- What one interrupt reports.
use Prim.Native.Nat.{bit_and}
use model_lib.Common.{
  ℕ, ◌<◌, ◌≡◌, refl, Bool, true, false, ◌&&◌, not, List, [], ◌∷◌, ◌++◌, inl, inr, arith,
  if◌then◌else◌, ◌==◌, Bool-cases, all_below, all_below_sound,
}
use model_lib.Keyboard.Held.{IsRing, held, queued}
use model_lib.Keyboard.{
  Kb, KbEvent, Effect, observe, unblock_readers, is_special_code, is_state_modifier, update_state,
  translate, key_event, put_event, kb_isr,
}

-- A code that is neither special nor a modifier.
unfoldable pub ordinary : ℕ → Bool
ordinary sc = not (is_special_code sc) && not (is_state_modifier sc)

abbrev pub event_of : Kb → (code : ℕ) → (pressed : Bool) → KbEvent
event_of k code pressed = record { code = code; state = k.state; pressed = pressed }

-- What a key with this code reports: nothing if it has no code, else the event.
abbrev pub report : Kb → ℕ → Bool → List Effect
report k code pressed =
    if code == 0
    then []
    else (if k.observer then observe (event_of k code pressed) ∷ [] else []) ++ unblock_readers ∷ []

-- What an interrupt may tell others of an ordinary key, with the modifiers kept and the prefix ended.
abbrev pub Tells : Kb → ℕ → Bool → Kb × List Effect → Type 0
Tells k code pressed (k', effects) =
    (effects ≡ report k code pressed) × (k'.state ≡ k.state) × (k'.wait_2nd ≡ false)

-- The same, with the events that readers find afterwards.
abbrev pub Reports : Kb → ℕ → Bool → Kb × List Effect → Type 0
Reports k code pressed (k', effects) =
    (effects ≡ report k code pressed)
    × (k'.state ≡ k.state)
    × (k'.wait_2nd ≡ false)
    × (k'.observer ≡ k.observer)
    × (held k' ≡ (if code == 0 then held k else queued (held k) (event_of k code pressed)))
    × IsRing k'

pressed_table : all_below 128 (λ x. (bit_and x 0x7f == x) && (bit_and x 0x80 == 0)) ≡ true
unfolding all_below
pressed_table = refl

-- The two halves of a scan code below 128, and of the one for the release of its key.
pub pressed_bits : (sc : ℕ) → sc < 128 → (bit_and sc 0x7f ≡ sc) × ((bit_and sc 0x80 == 0) ≡ true)
pressed_bits sc h = ground (
  arith,
  all_below_sound 128 (λ x. (bit_and x 0x7f == x) && (bit_and x 0x80 == 0)) sc pressed_table h,
)

no_modifier :
    (sc : ℕ)
    → is_state_modifier sc ≡ false
    → ((sc == 0xe0) ≡ false)
      × ((sc == 0x2a) ≡ false)
      × ((sc == 0xaa) ≡ false)
      × ((sc == 0x36) ≡ false)
      × ((sc == 0xb6) ≡ false)
      × ((sc == 0x38) ≡ false)
      × ((sc == 0xb8) ≡ false)
      × ((sc == 0x3a) ≡ false)
      × ((sc == 0xba) ≡ false)
      × ((sc == 0x1d) ≡ false)
      × ((sc == 0x9d) ≡ false)
unfolding is_state_modifier
no_modifier sc h = ground arith

and_false : (b : Bool) → (b && false) ≡ false
and_false true = refl
and_false false = refl

-- A code that is no modifier leaves the state alone.
ordinary-update_state :
    (k : Kb) (sc : ℕ) → is_state_modifier sc ≡ false → update_state k sc ≡ (k, false)
unfolding update_state
ordinary-update_state k sc h =
    let n = no_modifier sc h in
    rw (h, n.0, n.1, n.2, n.3, n.4, n.5, n.6, n.7, n.8, n.9, n.10)
      (rw (and_false (not k.wait_2nd), and_false k.wait_2nd))

pub key_event-Tells :
    (k : Kb) (sc code : ℕ) (pressed : Bool)
    → bit_and sc 0x7f ≡ code
    → (bit_and sc 0x80 == 0) ≡ pressed
    → Tells k (translate k code) pressed (key_event k sc)
unfolding key_event put_event
key_event-Tells k sc code pressed e f =
    rw (e, f)
      (elim (Bool-cases (translate k code == 0)) [
        | inl z ↦ rw z (refl, refl, refl)
        | inr z ↦ rw z (refl, refl, refl)
      ])

pub ordinary-kb_isr : (k : Kb) (sc : ℕ) → ordinary sc ≡ true → kb_isr k sc ≡ key_event k sc
unfolding kb_isr ordinary
ordinary-kb_isr k sc h =
    let parts : (is_special_code sc ≡ false) × (is_state_modifier sc ≡ false) = ground arith in
    rw (parts.0, (no_modifier sc parts.1).0, ordinary-update_state k sc parts.1)

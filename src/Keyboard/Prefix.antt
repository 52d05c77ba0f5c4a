-- ===== src/Keyboard/Prefix.antt =====
-- drivers/keyboard/keyboard.c: the prefix code before a modifier.
use model_lib.Common.{
  ℕ, ◌<◌, ◌≡◌, refl, ◌∙◌, true, false, [], inl, inr, arith, ◌==◌, Bool-cases, get_or,
}
use model_lib.Keyboard.{
  Kb, is_special_code, is_state_modifier, update_state, translate, kb_isr, ascii_two_byte,
}
use model_lib.Keyboard.Decode.{ordinary, key_event-Tells, pressed_bits, ordinary-kb_isr}

modifier_not_special : (m : ℕ) → is_state_modifier m ≡ true → is_special_code m ≡ false
unfolding is_state_modifier is_special_code
modifier_not_special m h = ground arith

update_state-modifier : (k : Kb) (m : ℕ) → is_state_modifier m ≡ true → (update_state k m).1 ≡ true
unfolding update_state
update_state-modifier k m h = h

keeps_wait :
    (k : Kb) (m : ℕ)
    → k.wait_2nd ≡ true
    → (m == 0xe0) ≡ false
    → (update_state k m).0.wait_2nd ≡ true
unfolding update_state
keeps_wait k m w e = rw e w

modifier-kb_isr :
    (k : Kb) (m : ℕ)
    → is_state_modifier m ≡ true
    → k.wait_2nd ≡ true
    → ((kb_isr k m).0.wait_2nd ≡ true) × ((kb_isr k m).1 ≡ [])
unfolding kb_isr
modifier-kb_isr k m h w =
    let sp : is_special_code m ≡ false = modifier_not_special m h in
    elim (Bool-cases (m == 0xe0)) [
      | inl e ↦ rw (sp, e) (refl, refl)
      | inr e ↦ rw (sp, e, update_state-modifier k m h) (keeps_wait k m w e, refl)
    ]

prefix-kb_isr : (k : Kb) → (kb_isr k 0xe0).0.wait_2nd ≡ true
unfolding kb_isr is_special_code
prefix-kb_isr k = refl

translate-prefixed :
    (k : Kb) (sc : ℕ) → k.wait_2nd ≡ true → translate k sc ≡ get_or ascii_two_byte sc 0
unfolding translate
translate-prefixed k sc w = rw w

-- A prefix code followed by a modifier's code is not forgotten: the next ordinary key is still
-- looked up in the table for prefixed keys, and reports nothing where that has no entry.
pub prefix_outlives_modifier :
    (k : Kb) (m sc : ℕ)
    → is_state_modifier m ≡ true
    → sc < 128
    → ordinary sc ≡ true
    → get_or ascii_two_byte sc 0 ≡ 0
    → (kb_isr (kb_isr (kb_isr k 0xe0).0 m).0 sc).1 ≡ []
prefix_outlives_modifier k m sc h lt o empty =
    let start = (kb_isr k 0xe0).0 in
    let waits : start.wait_2nd ≡ true = prefix-kb_isr k in
    let after = (kb_isr start m).0 in
    let still : after.wait_2nd ≡ true = (modifier-kb_isr start m h waits).0 in
    let p = pressed_bits sc lt in
    let shown = (key_event-Tells after sc sc true p.0 p.1).0 in
    let gone : translate after sc ≡ 0 = translate-prefixed after sc still ∙ empty in
    rw (ordinary-kb_isr after sc o) (shown ∙ rw gone)

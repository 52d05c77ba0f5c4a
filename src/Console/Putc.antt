-- ===== src/Console/Putc.antt =====
-- drivers/console/console.c: `con_putc`, on every character, in or out of a sequence.
use model_lib.Common.{
  Option, leb, ℕ, ◌+◌, ◌≤◌, ◌<◌, ◌≡◌, ◌⊎◌, refl, ◌∙◌, inl, inr, Bool, true, false, none, some, List,
  arith, ◌==◌, ltb, Bool-cases, length, set, length-set,
}
use model_lib.CString.{strlen}
use model_lib.KeyCodes.{key_esc}
use model_lib.LineBuff.Shift.{write-some}
use model_lib.Console.{
  Console, append_char, process_esc_sequence, leave_esc, handle_esc_char, putc_after, put_visible,
  con_putc,
}
use model_lib.Console.Screen.{IsOn, visible-IsOn, leave-IsOn, sequence-IsOn}

-- What `con_putc` does not survive: an escape character inside a sequence that has not ended, and a
-- character of such a sequence for which `esc_buff` has no room left.
abbrev pub Overrun : Console → ℕ → Type 0
Overrun s c = (s.in_esc ≡ true) × ((c ≡ key_esc) ⊎ (15 ≤ strlen s.esc_buff))

append-some :
    (str : List ℕ) (c : ℕ)
    → length str ≡ 16
    → strlen str < 15
    → (t : List ℕ) × (append_char str c ≡ some t) × (length t ≡ 16)
unfolding append_char
append-some str c size room =
    let n = strlen str in
    let t = set str n c in
    let in_t = length-set str n c in
    (
      set t (n + 1) 0,
      rw (write-some str n c (omega arith), write-some t (n + 1) 0 (omega arith)) refl,
      length-set t (n + 1) 0 ∙ in_t ∙ size,
    )

append-none : (str : List ℕ) (c : ℕ) → length str ≡ 16 → 15 ≤ strlen str → append_char str c ≡ none
unfolding append_char
append-none str c size full =
    let n = strlen str in
    let t = set str n c in
    let in_t = length-set str n c in
    let out : ltb (n + 1) (length t) ≡ false = ground arith in
    elim (Bool-cases (ltb n (length str))) [ inl e ↦ rw (e, out) refl | inr e ↦ rw e refl ]

after-IsOn : (c : ℕ) (r : Console × Bool) → IsOn r.0 → IsOn (putc_after c r)
after-IsOn c (s, true) on = on
after-IsOn c (s, false) on = visible-IsOn s c on

-- The three branches of `_handle_esc_char` that end.
escape_begins :
    (s : Console)
    → s.in_esc ≡ false
    → handle_esc_char s key_esc
      ≡ some (record s { in_esc = true; esc_buff = set s.esc_buff 0 0 }, true)
unfolding handle_esc_char
escape_begins s e = rw e refl

escape_goes_on :
    (s : Console) (c : ℕ) (buff : List ℕ)
    → (c == key_esc) ≡ false
    → s.in_esc ≡ true
    → append_char s.esc_buff c ≡ some buff
    → handle_esc_char s c ≡ some (leave_esc (process_esc_sequence (record s { esc_buff = buff })))
unfolding handle_esc_char
escape_goes_on s c buff ne e app = rw (ne, e, app) refl

pub no_escape :
    (s : Console) (c : ℕ)
    → (c == key_esc) ≡ false
    → s.in_esc ≡ false
    → handle_esc_char s c ≡ some (s, false)
unfolding handle_esc_char
no_escape s c ne e = rw (ne, e) refl

handle-IsOn :
    (s : Console) (c : ℕ)
    → IsOn s
    → ¬ Overrun s c
    → (r : Console × Bool) × (handle_esc_char s c ≡ some r) × IsOn r.0
handle-IsOn s c on safe = elim (Bool-cases (c == key_esc)) [
  | inl e ↦
      let is_esc : c ≡ key_esc = ground arith in
      elim (Bool-cases s.in_esc) [
        | inl inside ↦ absurd (safe (inside, inl is_esc))
        | inr outside ↦ (
          (record s { in_esc = true; esc_buff = set s.esc_buff 0 0 }, true),
          rw is_esc (escape_begins s outside),
          record {
            column = on.column;
            row = on.row;
            cells = on.cells;
            esc_size = length-set s.esc_buff 0 0 ∙ on.esc_size;
          },
        )
      ]
  | inr ne ↦ elim (Bool-cases s.in_esc) [
    | inl inside ↦
        let room : strlen s.esc_buff < 15 = ground (arith, safe) in
        let app = append-some s.esc_buff c on.esc_size room in
        let s' : Console = record s { esc_buff = app.0 } in
        let on' : IsOn s' = record {
          column = on.column;
          row = on.row;
          cells = on.cells;
          esc_size = app.2;
        } in
        (
          leave_esc (process_esc_sequence s'),
          escape_goes_on s c app.0 ne inside app.1,
          leave-IsOn (process_esc_sequence s') (sequence-IsOn s' on'),
        )
    | inr outside ↦ ((s, false), no_escape s c ne outside, on)
  ]
]

handle-none :
    (s : Console) (c : ℕ) → length s.esc_buff ≡ 16 → Overrun s c → handle_esc_char s c ≡ none
unfolding handle_esc_char
handle-none s c size (inside, inl e) = rw (e, inside) refl
handle-none s c size (inside, inr full) = elim (Bool-cases (c == key_esc)) [
  | inl e ↦ rw (e, inside) refl
  | inr e ↦ rw (e, inside, append-none s.esc_buff c size full) refl
]

-- How `con_putc` ends.
abbrev pub Ends : Console → ℕ → Option Console → Type 0
Ends s c none = Overrun s c
Ends s c (some t) = (¬ Overrun s c) × IsOn t

putc-some :
    (s : Console) (c : ℕ) (r : Console × Bool)
    → handle_esc_char s c ≡ some r
    → con_putc s c ≡ some (putc_after c r)
unfolding con_putc
putc-some s c r h = rw h refl

putc-none : (s : Console) (c : ℕ) → handle_esc_char s c ≡ none → con_putc s c ≡ none
unfolding con_putc
putc-none s c h = rw h refl

Overrun-cases : (s : Console) (c : ℕ) → Overrun s c ⊎ (¬ Overrun s c)
Overrun-cases s c = elim (Bool-cases s.in_esc) [
  | inl inside ↦ elim (Bool-cases (c == key_esc)) [
    | inl e ↦ inl (inside, inl (ground arith))
    | inr ne ↦ elim (Bool-cases (leb 15 (strlen s.esc_buff))) [
      | inl full ↦ inl (inside, inr (ground arith))
      | inr room ↦
          inr (λ h. elim h.1 [ inl e ↦ absurd (ground arith) | inr f ↦ absurd (ground arith) ])
    ]
  ]
  | inr outside ↦ inr (λ h. absurd (ground (arith, h.0)))
]

-- `con_putc`, on a console whose cursor is on the screen, with video memory and `esc_buff` of their
-- sizes, fails exactly on an escape character inside a sequence that has not ended, and on a
-- character of such a sequence for which `esc_buff` has no room left. On everything else the cursor
-- is still on the screen afterwards, and the sizes are as they were needed.
pub con_putc-Ends : (s : Console) (c : ℕ) → IsOn s → Ends s c (con_putc s c)
con_putc-Ends s c on = elim (Overrun-cases s c) [
  | inl over ↦ rw (putc-none s c (handle-none s c on.esc_size over)) over
  | inr safe ↦
      let h = handle-IsOn s c on safe in rw (putc-some s c h.0 h.1) (safe, after-IsOn c h.0 h.2)
]

pub putc_visible :
    (s : Console) (c : ℕ)
    → (c == key_esc) ≡ false
    → s.in_esc ≡ false
    → con_putc s c ≡ some (put_visible s c)
unfolding con_putc
putc_visible s c ne e = rw (no_escape s c ne e) refl

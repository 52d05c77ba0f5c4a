-- ===== src/Console/Screen.antt =====
-- drivers/console/console.c: what is printed stays on the screen, and goes on in reading order.
use model_lib.Common.{
  ℕ, ◌+◌, ◌-◌, ◌≤◌, ◌<◌, ◌≡◌, ◌⊎◌, ◌∙◌, inl, inr, Bool, true, false, Option, none, some, List, [],
  ◌∷◌, ◌&&◌, ◌||◌, drop, arith, ◌==◌, ltb, Bool-cases, length, get_or, set, length-set,
}
use model_lib.CString.{strlen, strcmp, strchr, is_zero}
use model_lib.Display.{dsp_set_cursor, dsp_set_text_attr}
use model_lib.Display.Cells.{print-Same, clear-Same, scroll-Same}
use model_lib.Console.{
  Console, show_cursor, con_clear, sgr_colours, set_text_attribs, process_sgr_esc,
  process_esc_sequence, leave_esc, place_char, end_line, end_screen, put_visible,
}

-- The cursor stands on the screen of 25 rows of 80 cells, which video memory holds, and the buffer
-- for escape sequences has its 16 bytes.
pub record IsOn (s : Console) : Type 0 where
  pub column : s.cursor_x < 80
  pub row : s.cursor_y < 25
  pub cells : 2000 ≤ length s.display.video_memory
  pub esc_size : length s.esc_buff ≡ 16

-- What `place_char` may leave: one step past the end of the line, or of the screen, but not both.
record IsPlaced (s : Console) : Type 0 where
  spot : ((s.cursor_y < 25) × (s.cursor_x < 84)) ⊎ ((s.cursor_y ≡ 25) × (s.cursor_x ≡ 0))
  cells : 2000 ≤ length s.display.video_memory
  esc_size : length s.esc_buff ≡ 16

place-IsPlaced : (s : Console) (c : ℕ) → IsOn s → IsPlaced (place_char s c)
unfolding place_char
place-IsPlaced s c on =
    let same = (print-Same s.display c s.cursor_x s.cursor_y).size in
    record { spot = ground arith; cells = ground (arith, same); esc_size = ground arith }

line-IsPlaced : (s : Console) → IsPlaced s → IsPlaced (end_line s) × ((end_line s).cursor_x < 80)
unfolding end_line
line-IsPlaced s h = (
  record {
    spot = ground (arith, h.spot);
    cells = ground (arith, h.cells);
    esc_size = ground (arith, h.esc_size);
  },
  ground (arith, h.spot),
)

screen-IsOn : (s : Console) → IsPlaced s → s.cursor_x < 80 → IsOn (end_screen s)
unfolding end_screen
screen-IsOn s h column =
    let same = (scroll-Same s.display 1).size in
    record {
      column = ground (arith, h.spot);
      row = ground (arith, h.spot);
      cells = ground (arith, h.cells, same);
      esc_size = ground (arith, h.esc_size);
    }

cursor-IsOn : (s : Console) → IsOn s → IsOn (show_cursor s)
unfolding dsp_set_cursor
cursor-IsOn s on = record {
  column = on.column;
  row = on.row;
  cells = on.cells;
  esc_size = on.esc_size;
}

pub visible-IsOn : (s : Console) (c : ℕ) → IsOn s → IsOn (put_visible s c)
unfolding put_visible
visible-IsOn s c on =
    let h = line-IsPlaced (place_char s c) (place-IsPlaced s c on) in
    cursor-IsOn _ (screen-IsOn (end_line (place_char s c)) h.0 h.1)

clear-IsOn : (s : Console) → IsOn s → IsOn (con_clear s)
unfolding con_clear dsp_set_cursor
clear-IsOn s on = record {
  column = omega arith;
  row = omega arith;
  cells = omega (arith, (clear-Same s.display).size, on.cells);
  esc_size = on.esc_size;
}

colours-IsOn : (s : Console) (str : List ℕ) (o : Option ℕ) → IsOn s → IsOn (sgr_colours s str o)
unfolding sgr_colours set_text_attribs dsp_set_text_attr
colours-IsOn s str (some sep) on = record {
  column = on.column;
  row = on.row;
  cells = on.cells;
  esc_size = length-set s.esc_buff (sep + 1) 0 ∙ on.esc_size;
}
colours-IsOn s str none on =
    elim (Bool-cases ((strlen str == 0) || is_zero (strcmp (b'0' ∷ 0 ∷ []) str))) [
      | inl e ↦
          rw e
            (record { column = on.column; row = on.row; cells = on.cells; esc_size = on.esc_size })
      | inr e ↦
          rw e
            (record { column = on.column; row = on.row; cells = on.cells; esc_size = on.esc_size })
    ]

sgr-IsOn : (s : Console) → IsOn s → IsOn (process_sgr_esc s).0
unfolding process_sgr_esc
sgr-IsOn s on =
    let str = s.esc_buff in
    let len = strlen str in
    let cut = set str (len - 1) 0 in
    elim (Bool-cases (ltb 0 len && (get_or str 0 0 == b'[') && (get_or str (len - 1) 0 == b'm'))) [
      | inl e ↦
          let on' : IsOn (record s { esc_buff = cut }) = record {
            column = on.column;
            row = on.row;
            cells = on.cells;
            esc_size = length-set str (len - 1) 0 ∙ on.esc_size;
          } in
          rw e
            (colours-IsOn (record s { esc_buff = cut }) (drop 1 cut) (strchr (drop 1 cut) b';') on')
      | inr e ↦ rw e on
    ]

pub sequence-IsOn : (s : Console) → IsOn s → IsOn (process_esc_sequence s).0
unfolding process_esc_sequence
sequence-IsOn s on = elim (Bool-cases (is_zero (strcmp s.esc_buff (b'c' ∷ 0 ∷ [])))) [
  | inl e ↦ rw e (clear-IsOn s on)
  | inr e ↦ rw e (sgr-IsOn s on)
]

pub leave-IsOn : (r : Console × Bool) → IsOn r.0 → IsOn (leave_esc r).0
leave-IsOn (s, true) on = record {
  column = on.column;
  row = on.row;
  cells = on.cells;
  esc_size = on.esc_size;
}
leave-IsOn (s, false) on = on

-- ===== src/Console/Prints.antt =====
-- drivers/console/console.c: what a character leaves on the screen.
use Prim.Native.Nat.{bit_or}
use model_lib.Common.{
  ℕ, ◌+◌, ◌*◌, ◌%◌, ◌^◌, ◌≤◌, ◌<◌, ◌≡◌, ◌⊎◌, refl, ◌∙◌, inl, inr, true, false, some, arith, ◌==◌,
  ltb, if◌then◌else◌, Bool-cases, length, get_or,
}
use model_lib.KeyCodes.{key_esc, key_tab}
use model_lib.Display.{dsp_print_char, dsp_scroll, get_char_offset, dsp_set_cursor}
use model_lib.Display.Cells.{get_or-set_if, scroll_lem, print-Same}
use model_lib.Console.{
  Console, show_cursor, place_char, end_line, end_screen, put_visible, con_putc,
}
use model_lib.Console.Screen.{IsOn}
use model_lib.Console.Putc.{putc_visible}

-- The place of the cursor in reading order.
abbrev pub spot : Console → ℕ
spot s = s.cursor_y * 80 + s.cursor_x

-- A character that moves the cursor by itself.
abbrev pub IsControl : ℕ → Type 0
IsControl c = (c ≡ key_esc) ⊎ (c ≡ key_tab) ⊎ (c ≡ 10) ⊎ (c ≡ 13)

-- Cell `j` with `c` at the cursor.
abbrev pub printed : Console → ℕ → ℕ → ℕ
printed s c j =
    if j == spot s then bit_or c s.display.text_attr else get_or s.display.video_memory j 0

-- The two ends, once the cursor has gone on by a cell.
settled : Console → Console
settled w = show_cursor (end_screen (end_line w))

spot-settled :
    (w : Console)
    → w.cursor_x ≤ 80
    → w.cursor_y < 25
    → spot (settled w) ≡ (if spot w == 2000 then 1920 else spot w)
unfolding settled end_line end_screen dsp_set_cursor
spot-settled w column row = ground arith

memory-settled :
    (w : Console)
    → w.cursor_x ≤ 80
    → w.cursor_y < 25
    → (settled w).display.video_memory
      ≡ (if spot w == 2000 then (dsp_scroll w.display 1).video_memory else w.display.video_memory)
unfolding settled end_line end_screen dsp_set_cursor
memory-settled w column row = ground arith

-- The console with the character on it, before the ends of the line and of the screen are looked at.
abbrev with_char : Console → ℕ → Console
with_char s c = record s {
  display = dsp_print_char s.display c s.cursor_x s.cursor_y;
  cursor_x = s.cursor_x + 1;
}

place_visible :
    (s : Console) (c : ℕ) → s.cursor_x < 80 → ¬ IsControl c → place_char s c ≡ with_char s c
unfolding place_char
place_visible s c column vis =
    let tab : (c == key_tab) ≡ false = ground (arith, vis) in
    let cr : (c == 13) ≡ false = ground (arith, vis) in
    let nl : (c == 10) ≡ false = ground (arith, vis) in
    let x : (s.cursor_x + 1) % 256 ≡ s.cursor_x + 1 = omega arith in rw (tab, cr, nl, x) refl

cell_printed :
    (s : Console) (c j : ℕ)
    → IsOn s
    → get_or (with_char s c).display.video_memory j 0 ≡ printed s c j
unfolding dsp_print_char get_char_offset
cell_printed s c j on =
    let at : (s.cursor_y * 80 + s.cursor_x) % 2 ^ 16 ≡ spot s = omega (arith, on.row, on.column) in
    let flip : (spot s == j) ≡ (j == spot s) = ground arith in
    rw at (
      get_or-set_if s.display.video_memory (spot s) (bit_or c s.display.text_attr) j
        (omega (arith, on.row, on.column, on.cells))
      ∙ rw flip refl)

visible-settled :
    (s : Console) (c : ℕ)
    → s.cursor_x < 80
    → ¬ IsControl c
    → put_visible s c ≡ settled (with_char s c)
unfolding put_visible settled
visible-settled s c column vis = rw (place_visible s c column vis) refl

cell-settled :
    (s : Console) (c j : ℕ)
    → IsOn s
    → j < 2000
    → get_or (settled (with_char s c)).display.video_memory j 0 ≡ (
        if spot s == 1999
        then if ltb j 1920 then printed s c (j + 80) else bit_or b' ' s.display.text_attr
        else printed s c j)
cell-settled s c j on inside =
    let w = with_char s c in
    let same = print-Same s.display c s.cursor_x s.cursor_y in
    let cells : 2000 ≤ length w.display.video_memory = omega (arith, same.size, on.cells) in
    let moved = memory-settled w (omega (arith, on.column)) on.row in
    rw moved (elim (Bool-cases (spot s == 1999)) [
      | inl e ↦
          let last : (spot w == 2000) ≡ true = ground arith in
          let here : ltb j 2000 ≡ true = ground arith in
          rw (last, e)
            (scroll_lem w.display j cells ∙ rw (here, same.attr, cell_printed s c (j + 80) on) refl)
      | inr e ↦
          let on_screen : (spot w == 2000) ≡ false = ground arith in
          rw (on_screen, e) (cell_printed s c j on)
    ])

-- A character that does not move the cursor by itself, printed outside an escape sequence, stands in
-- the cell of the cursor in the attributes in force, and the cursor goes on to the next cell in
-- reading order; past the last cell every row moves up by one, the last row is blanked and the
-- cursor goes to its start. No other cell of the screen changes.
pub con_putc_prints :
    (s : Console) (c j : ℕ)
    → IsOn s
    → s.in_esc ≡ false
    → ¬ IsControl c
    → j < 2000
    → (t : Console) × (con_putc s c ≡ some t)
      × (spot t ≡ (if spot s == 1999 then 1920 else spot s + 1))
      × (get_or t.display.video_memory j 0 ≡ (
          if spot s == 1999
          then if ltb j 1920 then printed s c (j + 80) else bit_or b' ' s.display.text_attr
          else printed s c j))
con_putc_prints s c j on e vis inside =
    let no_esc : (c == key_esc) ≡ false = ground (arith, vis) in
    let seen = visible-settled s c on.column vis in
    let spot_w = spot-settled (with_char s c) (omega (arith, on.column)) on.row in
    (
      settled (with_char s c),
      putc_visible s c no_esc e ∙ rw seen refl,
      spot_w ∙ ground arith,
      cell-settled s c j on inside,
    )

-- ===== src/Display.antt =====
-- drivers/display.c: the text screen in video memory. The static variables of the file are the
-- fields of `Display`, and `video_memory` is the list of the cells from `_video_memory` on. The two
-- bytes that `dsp_set_cursor` sends to the ports are kept as the location they spell.
mod Colour
pub mod Cells
mod Tests
unfoldable pub use Colour.*
use Prim.Native.Nat.{bit_or}
use model_lib.Common.{ℕ, zero, suc, ◌+◌, ◌-◌, ◌*◌, ◌%◌, ◌^◌, List, get_or, set}

pub record Display : Type 0 where
  pub video_memory : List ℕ
  pub foreground : ℕ
  pub background : ℕ
  pub text_attr : ℕ
  pub cursor : ℕ

abbrev pub screen_width : ℕ
screen_width = 80

abbrev pub screen_height : ℕ
screen_height = 25

unfoldable pub get_char_offset : (col row : ℕ) → ℕ
get_char_offset col row = (row * screen_width + col) % 2 ^ 16

unfoldable pub dsp_set_text_attr : Display → (fore back : ℕ) → Display
dsp_set_text_attr d fore back = record d {
  foreground = fore;
  background = back;
  text_attr = bit_or (back * 4096) (fore * 256) % 2 ^ 16;
}

pub dsp_set_foreground : Display → ℕ → Display
unfolding dsp_set_text_attr
dsp_set_foreground d c = dsp_set_text_attr d c d.background

pub dsp_set_background : Display → ℕ → Display
unfolding dsp_set_text_attr
dsp_set_background d c = dsp_set_text_attr d d.foreground c

unfoldable pub dsp_print_char : Display → (c col row : ℕ) → Display
unfolding get_char_offset
dsp_print_char d c col row = record d {
  video_memory = set d.video_memory (get_char_offset col row) (bit_or c d.text_attr);
}

-- The loop over the rows of a column, with `n` rounds left.
pub clear_column : Display → (col row n : ℕ) → Display
unfolding dsp_print_char
clear_column d col row zero = d
clear_column d col row (suc n) = clear_column (dsp_print_char d b' ' col row) col (suc row) n

-- The loop over the columns, with `n` rounds left.
pub clear_columns : Display → (col n : ℕ) → Display
unfolding clear_column
clear_columns d col zero = d
clear_columns d col (suc n) = clear_columns (clear_column d col 0 screen_height) (suc col) n

pub dsp_clear_screen : Display → Display
unfolding clear_columns
dsp_clear_screen d = clear_columns d 0 screen_width

-- The two loops of one round of `dsp_scroll`, at cell `i` with `n` rounds left.
pub move_up : List ℕ → (i n : ℕ) → List ℕ
move_up mem i zero = mem
move_up mem i (suc n) = move_up (set mem i (get_or mem (i + 80) 0)) (suc i) n

pub fill : List ℕ → (v i n : ℕ) → List ℕ
fill mem v i zero = mem
fill mem v i (suc n) = fill (set mem i v) v (suc i) n

pub dsp_scroll : Display → ℕ → Display
unfolding move_up fill
dsp_scroll d zero = d
dsp_scroll d (suc lines) =
    let up = move_up d.video_memory 0 (24 * 80) in
    let filled = fill up (bit_or b' ' d.text_attr) (24 * 80) (25 * 80 - 24 * 80) in
    dsp_scroll (record d { video_memory = filled }) lines

unfoldable pub dsp_set_cursor : Display → (col row : ℕ) → Display
unfolding get_char_offset
dsp_set_cursor d col row = record d { cursor = get_char_offset col row }

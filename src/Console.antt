-- ===== src/Console.antt =====
-- drivers/console/console.c: the console, which joins the keyboard, the line editor, the stream of
-- input that programs read, and the screen. `Console` holds the fields of `_console` that the
-- functions below use, with the display behind them. `none` is a failed ASSERT or an access outside
-- `esc_buff` or the line, which C leaves undefined.
pub mod Lines
pub mod Screen
pub mod Putc
pub mod Prints
pub mod Read
pub mod Enter
mod Tests
use model_lib.Common.{
  and_then, ℕ, zero, suc, ◌+◌, ◌-◌, ◌%◌, Bool, true, false, ◌&&◌, ◌||◌, not, Option, none, some,
  List, [], ◌∷◌, if◌then◌else◌, ◌==◌, ltb, leb, get_or, set, replicate, drop, add32, sub32,
}
use model_lib.CString.{strlen, strcmp, strchr, is_zero}
use model_lib.Numbers.{atoi}
use model_lib.KeyCodes.{key_esc, key_tab, key_new_line}
use model_lib.Keyboard.{KbState, KbEvent}
use model_lib.Cbuff
use model_lib.Cbuff.{Cbuff}
use model_lib.LineBuff.{
  LineBuff, History, LbResult, replace, ignore, append_code, line_break, write, con_his_add,
  lb_init, lb_add_code, con_his_create,
}
use model_lib.Display.{
  Display, dsp_print_char, dsp_clear_screen, dsp_scroll, dsp_set_cursor, dsp_set_text_attr,
  screen_width, screen_height, black, blue, green, cyan, red, purple, grey, dark_grey, light_blue,
  light_green, light_cyan, light_red, yellow, white,
}

pub record Console : Type 0 where
  pub cursor_x : ℕ
  pub cursor_y : ℕ
  pub fg_colour : ℕ
  pub bk_colour : ℕ
  pub line_buff : LineBuff
  pub input_buff : Cbuff
  pub history : History
  pub in_esc : Bool
  pub esc_buff : List ℕ
  pub display : Display

-- `dsp_set_cursor(_console.cursor_x, _console.cursor_y)`
abbrev pub show_cursor : Console → Console
show_cursor s = record s { display = dsp_set_cursor s.display s.cursor_x s.cursor_y }

unfoldable pub con_clear : Console → Console
con_clear s =
    show_cursor (record s { display = dsp_clear_screen s.display; cursor_x = 0; cursor_y = 0 })

unfoldable pub append_char : List ℕ → ℕ → Option (List ℕ)
append_char str c = let n = strlen str in and_then (write str n c) (λ t. write t (n + 1) 0)

unfoldable pub translate_fg_colour : ℕ → ℕ
translate_fg_colour c =
    if c == 30
    then black
    else if c == 31
    then red
    else if c == 32
    then green
    else if c == 33
    then yellow
    else if c == 34
    then blue
    else if c == 35
    then purple
    else if c == 36
    then cyan
    else if c == 37
    then grey
    else if c == 90
    then dark_grey
    else if c == 91
    then light_red
    else if c == 92
    then light_green
    else if c == 93
    then yellow
    else if c == 94
    then blue
    else if c == 95
    then light_blue
    else if c == 96
    then light_cyan
    else if c == 97
    then white
    else white

-- `c - 10` goes through a parameter of 8 bits.
unfoldable pub translate_bk_colour : ℕ → ℕ
unfolding translate_fg_colour
translate_bk_colour c = translate_fg_colour ((c + 256 - 10) % 256)

unfoldable pub set_text_attribs : Console → Console
set_text_attribs s = record s { display = dsp_set_text_attr s.display s.fg_colour s.bk_colour }

-- `_process_sgr_esc` past its first test, with `str` behind the bracket and the final `m` cut off;
-- `sep` is the offset that `strchr` found.
unfoldable pub sgr_colours : Console → (str : List ℕ) → Option ℕ → Console
unfolding translate_fg_colour translate_bk_colour set_text_attribs
sgr_colours s str (some sep) =
    let back = atoi (drop (sep + 1) str) in
    let fore = atoi (set str sep 0) in
    set_text_attribs (record s {
      esc_buff = set s.esc_buff (sep + 1) 0;
      fg_colour = translate_fg_colour (fore % 256);
      bk_colour = translate_bk_colour (back % 256);
    })
sgr_colours s str none =
    if (strlen str == 0) || is_zero (strcmp (b'0' ∷ 0 ∷ []) str)
    then set_text_attribs (record s { bk_colour = black; fg_colour = cyan })
    else set_text_attribs (record s { fg_colour = translate_fg_colour (atoi str % 256) })

-- `str` is `esc_buff` in the one call.
unfoldable pub process_sgr_esc : Console → Console × Bool
unfolding sgr_colours
process_sgr_esc s =
    let str = s.esc_buff in
    let len = strlen str in
    if ltb 0 len && (get_or str 0 0 == b'[') && (get_or str (len - 1) 0 == b'm')
    then (let cut = set str (len - 1) 0 in
        (sgr_colours (record s { esc_buff = cut }) (drop 1 cut) (strchr (drop 1 cut) b';'), true))
    else (s, false)

unfoldable pub process_esc_sequence : Console → Console × Bool
unfolding process_sgr_esc con_clear
process_esc_sequence s =
    if is_zero (strcmp s.esc_buff (b'c' ∷ 0 ∷ [])) then (con_clear s, true) else process_sgr_esc s

-- The end of a sequence that has been processed.
abbrev pub leave_esc : Console × Bool → Console × Bool
leave_esc (s, ok) = (if ok then record s { in_esc = false } else s, true)

unfoldable pub handle_esc_char : Console → ℕ → Option (Console × Bool)
unfolding append_char process_esc_sequence
handle_esc_char s c =
    if c == key_esc
    then (if s.in_esc
        then none
        else some (record s { in_esc = true; esc_buff = set s.esc_buff 0 0 }, true))
    else if s.in_esc
    then and_then (append_char s.esc_buff c)
        (λ buff. some (leave_esc (process_esc_sequence (record s { esc_buff = buff }))))
    else some (s, false)

-- The three parts of `con_putc` past the escape sequences: the character itself, the end of the line,
-- and the end of the screen. The fields hold 8 bits.
unfoldable pub place_char : Console → ℕ → Console
place_char s c =
    if c == key_tab
    then record s { cursor_x = (s.cursor_x + 4) % 256 }
    else if c == 13
    then record s { cursor_x = 0 }
    else if c == 10
    then record s { cursor_x = 0; cursor_y = (s.cursor_y + 1) % 256 }
    else record s {
      display = dsp_print_char s.display c s.cursor_x s.cursor_y;
      cursor_x = (s.cursor_x + 1) % 256;
    }

unfoldable pub end_line : Console → Console
end_line s =
    if leb screen_width s.cursor_x
    then record s { cursor_x = 0; cursor_y = (s.cursor_y + 1) % 256 }
    else s

unfoldable pub end_screen : Console → Console
end_screen s =
    if s.cursor_y == screen_height
    then record s { display = dsp_scroll s.display 1; cursor_y = screen_height - 1 }
    else s

unfoldable pub put_visible : Console → ℕ → Console
unfolding place_char end_line end_screen
put_visible s c = show_cursor (end_screen (end_line (place_char s c)))

abbrev pub putc_after : ℕ → Console × Bool → Console
putc_after c (s, taken) = if taken then s else put_visible s c

unfoldable pub con_putc : Console → ℕ → Option Console
unfolding handle_esc_char put_visible
con_putc s c = and_then (handle_esc_char s c) (λ r. some (putc_after c r))

unfoldable pub con_write_buff : Console → List ℕ → Option Console
unfolding con_putc
con_write_buff s [] = some s
con_write_buff s (c ∷ buff) = and_then (con_putc s c) (λ t. con_write_buff t buff)

-- The console after the call, and the count that it returns.
unfoldable pub write_con : Console → List ℕ → ℕ → Option (Console × ℕ)
unfolding con_write_buff
write_con s buff sz = and_then (con_write_buff s buff) (λ t. some (t, sz))

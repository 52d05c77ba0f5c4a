-- ===== src/Console/Lines.antt =====
-- drivers/console/console.c: the keys that the console is told of, the input that it hands to its
-- readers, and its start. The waking of readers is returned as a flag, their waiting as a count.
use model_lib.Common.{
  and_then, ℕ, zero, suc, ◌+◌, ◌%◌, Bool, true, false, ◌&&◌, ◌||◌, not, Option, none, some, List,
  [], ◌∷◌, if◌then◌else◌, ◌==◌, get_or, replicate,
}
use model_lib.CString.{strlen}
use model_lib.KeyCodes.{key_new_line}
use model_lib.Keyboard.{KbState, KbEvent}
use model_lib.Cbuff
use model_lib.Cbuff.{Cbuff}
use model_lib.LineBuff.{
  LineBuff, LbResult, replace, ignore, append_code, line_break, con_his_create, con_his_add,
  lb_init, lb_add_code,
}
use model_lib.Display.{Display, dsp_print_char, dsp_clear_screen, dsp_set_cursor, black, cyan}
use model_lib.Console.{Console, con_putc, con_clear, set_text_attribs, show_cursor}

-- The two loops of `_replace_str`, with `n` rounds left; `xcur` holds 8 bits.
unfoldable pub blank : Display → (row xcur n : ℕ) → Display
blank d row xcur zero = d
blank d row xcur (suc n) = blank (dsp_print_char d b' ' xcur row) row ((xcur + 1) % 256) n

unfoldable pub print_line : Display → List ℕ → (row xcur pos n : ℕ) → Display
print_line d result row xcur pos zero = d
print_line d result row xcur pos (suc n) =
    print_line (dsp_print_char d (get_or result pos 0) xcur row) result row ((xcur + 1) % 256)
      (suc pos) n

unfoldable pub replace_str : Console → LineBuff → (start_x prev_len : ℕ) → Console
unfolding blank print_line
replace_str s lb start_x prev_len =
    let blanked = blank s.display s.cursor_y start_x prev_len in
    record s { display = print_line blanked lb.result s.cursor_y start_x 0 lb.len }

unfoldable pub kb_is_ctrl : KbState → Bool
kb_is_ctrl k = k.lctrl || k.rctrl

pub is_ctrl_and : KbEvent → ℕ → Bool
unfolding kb_is_ctrl
is_ctrl_and kbe code = (kbe.code == code) && kb_is_ctrl kbe.state

-- The loop that copies the line into the input buffer, with `n` rounds left.
unfoldable pub put_line : Cbuff → List ℕ → (i n : ℕ) → Cbuff
put_line b result i zero = b
put_line b result i (suc n) = put_line (Cbuff.put 8 b (get_or result i 0)) result (suc i) n

-- What follows `con_putc('\n')` once the line is broken.
unfoldable pub accept_line : Console → Console
unfolding put_line
accept_line s =
    let line = s.line_buff in
    record s {
      history = (if strlen line.result == 0 then s.history else con_his_add s.history line.result);
      input_buff = Cbuff.put 8 (put_line s.input_buff line.result 0 line.len) key_new_line;
      line_buff = lb_init;
    }

-- The cursor behind an edit of the line.
abbrev pub follow : Console → Console
follow s =
    let x = (s.line_buff.cursor_start_x + s.line_buff.cur_pos) % 256 in
    show_cursor (record s { cursor_x = x })

-- The branches on what `lb_add_code` returns. The flag says whether `dev_unblock_readers` is called.
unfoldable pub finish_key : Console → (code cur_len : ℕ) → LbResult → Option (Console × Bool)
unfolding accept_line replace_str
finish_key s code cur_len line_break =
    and_then (con_putc s key_new_line) (λ t. some (accept_line t, true))
finish_key s code cur_len replace =
    some (follow (replace_str s s.line_buff s.line_buff.cursor_start_x cur_len), false)
finish_key s code cur_len append_code =
    some
      (follow (record s { display = dsp_print_char s.display code s.cursor_x s.cursor_y }), false)
finish_key s code cur_len ignore = some (follow s, false)

-- The line in which a key is looked at: an empty one starts at the cursor.
abbrev pub start_line : Console → LineBuff
start_line s =
    if s.line_buff.len == 0 then record s.line_buff { cursor_start_x = s.cursor_x } else s.line_buff

unfoldable pub on_kb_event : Console → KbEvent → Option (Console × Bool)
unfolding kb_is_ctrl finish_key
on_kb_event s kbe =
    let cur_len = s.line_buff.len in
    let line = start_line s in
    if not kbe.pressed
    then some (s, false)
    else if kb_is_ctrl kbe.state
    then some (record s { line_buff = line }, false)
    else and_then (lb_add_code line kbe.code s.history)
        (λ r. finish_key (record s { line_buff = r.1 }) kbe.code cur_len r.0)

-- A reader that has taken `bytes` and waits for `left` more.
pub record Taken : Type 0 where
  pub bytes : List ℕ
  pub left : ℕ
  pub from : Cbuff

abbrev pub add_byte : ℕ → Taken → Taken
add_byte v t = record t { bytes = v ∷ t.bytes }

-- What `cbuff8_get` returns, in the loop of `_read_con` with `n` rounds left after this one.
abbrev pub take_byte : Option (Option ℕ) × Cbuff → ℕ → (Cbuff → Option Taken) → Option Taken
take_byte (none, b) n rest = some (record { bytes = []; left = suc n; from = b })
take_byte (some none, b) n rest = none
take_byte (some (some v), b) n rest = and_then (rest b) (λ t. some (add_byte v t))

-- The loop up to the first wait; a reader that is woken goes on with `left`.
unfoldable pub read_con : Cbuff → ℕ → Option Taken
read_con b zero = some (record { bytes = []; left = 0; from = b })
read_con b (suc n) = take_byte (Cbuff.get b) n (λ b'. read_con b' n)

-- `input` is `_input_buff`. `history` is set by `con_dev_init`, where the keyboard is attached.
pub con_init : Display → List ℕ → Console
con_init d input = con_clear (
    set_text_attribs (record {
      cursor_x = 0;
      cursor_y = 0;
      fg_colour = cyan;
      bk_colour = black;
      line_buff = lb_init;
      input_buff = Cbuff.create input 1024;
      history = con_his_create;
      in_esc = false;
      esc_buff = replicate 16 0;
      display = dsp_set_cursor (dsp_clear_screen d) 0 0;
    }))

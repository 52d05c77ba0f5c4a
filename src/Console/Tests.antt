-- ===== src/Console/Tests.antt =====
-- Runs of the console, and its theorems at concrete consoles.
use model_lib.Common.{
  ℕ, ◌≡◌, refl, true, false, Option, none, some, [], ◌∷◌, ◌++◌, zero, suc, ◌<◌, arith, inl, inr,
  replicate, length, length-replicate, get_or,
}
use Prim.Native.Nat.{bit_or}
use model_lib.CString.{strlen, strcmp, strchr, strchr_from}
use model_lib.Numbers.{atoi, digits_from, isspace}
use model_lib.KeyCodes.{key_esc, key_new_line}
use model_lib.Keyboard.{KbState, KbEvent}
use model_lib.Cbuff.Inv.{IsValid}
use model_lib.Cbuff.Refine.{contents}
use model_lib.LineBuff.{lb_init, con_his_create}
use model_lib.Display.{dsp_set_text_attr, cyan, black, red, white}
use model_lib.Console.{
  Console, con_putc, con_write_buff, handle_esc_char, append_char, process_esc_sequence,
  process_sgr_esc, sgr_colours, set_text_attribs, translate_fg_colour, translate_bk_colour,
}
use model_lib.Console.Screen.{IsOn}
use model_lib.Console.Putc.{Ends, con_putc-Ends}
use model_lib.Console.Prints.{IsControl, spot, con_putc_prints}
use model_lib.Console.Lines.{kb_is_ctrl, Taken, on_kb_event, read_con}
use model_lib.Console.Enter.{IsReady, line_text, enter-read}

-- A console whose video memory has this many cells, with the cursor in the last place.
abbrev console_of : ℕ → Console
console_of n = record {
  cursor_x = 79;
  cursor_y = 24;
  fg_colour = cyan;
  bk_colour = black;
  line_buff = record {
    result = b'l' ∷ b's' ∷ 0 ∷ [];
    len = 2;
    cur_pos = 2;
    history_pos = 0;
    cursor_start_x = 0;
  };
  input_buff = record { buff = 0 ∷ 0 ∷ 0 ∷ 0 ∷ []; head = 0; tail = 0; len = 4; full = false };
  history = con_his_create;
  in_esc = false;
  esc_buff = replicate 16 0;
  display = record {
    video_memory = replicate n 0;
    foreground = cyan;
    background = black;
    text_attr = 0x300;
    cursor = 0;
  };
}

abbrev small : Console
small = record (console_of 2) { cursor_x = 1; cursor_y = 0; esc_buff = 1 ∷ 2 ∷ 3 ∷ replicate 13 0 }

abbrev colours : Option Console → ℕ × ℕ
colours none = (99, 99)
colours (some s) = (s.fg_colour, s.bk_colour)

white_on_red :
    colours (con_write_buff small (key_esc ∷ b'[' ∷ b'9' ∷ b'7' ∷ b';' ∷ b'4' ∷ b'1' ∷ b'm' ∷ []))
    ≡ (white, red)
unfolding con_write_buff con_putc handle_esc_char append_char process_esc_sequence process_sgr_esc
    sgr_colours set_text_attribs translate_fg_colour translate_bk_colour atoi digits_from isspace
    strlen strcmp strchr strchr_from dsp_set_text_attr
white_on_red = refl

abbrev plain : KbState
plain = record {
  lshift = false;
  rshift = false;
  lalt = false;
  ralt = false;
  lctrl = false;
  rctrl = false;
  caps = false;
}

abbrev enter_key : KbEvent
enter_key = record { code = key_new_line; state = plain; pressed = true }

-- A sequence of 15 characters that has not ended.
abbrev unfinished : Console
unfinished = record (console_of 2000) { in_esc = true; esc_buff = replicate 15 b'1' ++ 0 ∷ [] }

cells_of : (n : ℕ) → length {A = ℕ} (replicate n 0) ≡ n
cells_of n = length-replicate n 0

last_cell-IsOn : IsOn (console_of 2000)
last_cell-IsOn = record {
  column = omega arith;
  row = omega arith;
  cells = omega (arith, cells_of 2000);
  esc_size = refl;
}

unfinished-IsOn : IsOn unfinished
unfinished-IsOn = record {
  column = omega arith;
  row = omega arith;
  cells = omega (arith, cells_of 2000);
  esc_size = refl;
}

con_putc-Ends_example : Ends unfinished b'm' (con_putc unfinished b'm')
con_putc-Ends_example = con_putc-Ends unfinished b'm' unfinished-IsOn

not-IsControl : ¬ IsControl b'A'
not-IsControl (inl e) = absurd (omega arith)
not-IsControl (inr (inl e)) = absurd (omega arith)
not-IsControl (inr (inr (inl e))) = absurd (omega arith)
not-IsControl (inr (inr (inr e))) = absurd (omega arith)

con_putc_prints_example :
    let s = console_of 2000 in
    (t : Console) × (con_putc s b'A' ≡ some t)
    × (spot t ≡ 1920)
    × (get_or t.display.video_memory 1919 0 ≡ bit_or b'A' 0x300)
con_putc_prints_example =
    con_putc_prints (console_of 2000) b'A' 1919 last_cell-IsOn refl not-IsControl (omega arith)

line_bytes : (j : ℕ) → get_or (console_of 2).line_buff.result j 0 < 256
line_bytes zero = omega arith
line_bytes (suc zero) = omega arith
line_bytes (suc (suc zero)) = omega arith
line_bytes (suc (suc (suc j))) = omega arith

ls_input : IsValid (console_of 2).input_buff
ls_input = record {
  some_room = omega arith;
  storage = omega arith;
  small = omega arith;
  head_in = omega arith;
  tail_in = omega arith;
  full_meets = λ e. refl;
}

ls-IsReady : IsReady (console_of 2)
ls-IsReady = record {
  printing = refl;
  input = ls_input;
  held = omega arith;
  bytes = line_bytes;
  room = omega arith;
}

enter-read_example :
    let s = console_of 2 in
    let input = contents s.input_buff ++ (line_text s.line_buff ++ key_new_line ∷ []) in
    (t : Console) × (on_kb_event s enter_key ≡ some (t, true))
    × (t.line_buff ≡ lb_init)
    × (r : Taken) × (read_con t.input_buff (length input) ≡ some r)
    × (r.bytes ≡ input)
    × (r.left ≡ 0)
unfolding kb_is_ctrl
enter-read_example = enter-read (console_of 2) enter_key ls-IsReady refl refl refl

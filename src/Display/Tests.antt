-- ===== src/Display/Tests.antt =====
-- Runs of the display.
use model_lib.Common.{◌≡◌, refl, [], ◌∷◌, replicate}
use model_lib.Display.{
  Display, dsp_print_char, dsp_set_text_attr, dsp_set_cursor, get_char_offset, red, white,
}

abbrev corner : Display
corner = record {
  video_memory = replicate 4 0;
  foreground = 0;
  background = 0;
  text_attr = 0;
  cursor = 0;
}

white_on_red : (dsp_set_text_attr corner white red).text_attr ≡ 0x4f00
unfolding dsp_set_text_attr
white_on_red = refl

red_letter :
    (dsp_print_char (dsp_set_text_attr corner white red) b'A' 2 0).video_memory
    ≡ 0 ∷ 0 ∷ 0x4f41 ∷ 0 ∷ []
unfolding dsp_print_char dsp_set_text_attr get_char_offset
red_letter = refl

second_row : (dsp_set_cursor corner 3 1).cursor ≡ 83
unfolding dsp_set_cursor get_char_offset
second_row = refl

-- ===== src/Display/Colour.antt =====
-- drivers/display.h: the colours of the screen, `dsp_color`, as far as the console names them.
use model_lib.Common.{ℕ}

abbrev pub black : ℕ
black = 0

abbrev pub blue : ℕ
blue = 1

abbrev pub green : ℕ
green = 2

abbrev pub cyan : ℕ
cyan = 3

abbrev pub red : ℕ
red = 4

abbrev pub purple : ℕ
purple = 5

abbrev pub grey : ℕ
grey = 7

abbrev pub dark_grey : ℕ
dark_grey = 8

abbrev pub light_blue : ℕ
light_blue = 9

abbrev pub light_green : ℕ
light_green = 10

abbrev pub light_cyan : ℕ
light_cyan = 11

abbrev pub light_red : ℕ
light_red = 12

abbrev pub yellow : ℕ
yellow = 14

abbrev pub white : ℕ
white = 15

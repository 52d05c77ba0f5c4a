-- ===== src/Printf.antt =====
-- libc/printf_helper.c: writing a padded string into a bounded buffer (`_emit` and `_emit_str`). The
-- results of `_emit` are counted in `count`; the sums of lengths are taken not to wrap.
pub mod Layout
pub mod Format
pub mod Digits
pub mod Render
mod Tests
use model_lib.Common.{
  ℕ, zero, suc, ◌+◌, ◌-◌, Bool, true, false, List, [], ◌∷◌, if◌then◌else◌, ◌==◌, ltb, set, add32,
}

-- The buffer, the place in it, and the characters written so far.
pub record Out : Type 0 where
  pub buff : List ℕ
  pub pos : ℕ
  pub count : ℕ

pub emit : (buff_sz : ℕ) → (c : ℕ) → Out → Out
emit buff_sz c o =
    if ltb o.pos buff_sz
    then record { buff = set o.buff o.pos c; pos = add32 o.pos 1; count = o.count + 1 }
    else o

-- The two padding loops of `_emit_str`, with `n` rounds left.
pub emit_pad : (buff_sz pad n : ℕ) → Out → Out
emit_pad buff_sz pad zero o = o
emit_pad buff_sz pad (suc n) o = emit_pad buff_sz pad n (emit buff_sz pad o)

-- The loop over the string, with `n` characters of the width left.
pub emit_chars : (buff_sz : ℕ) → List ℕ → (n : ℕ) → Out → Out
emit_chars buff_sz [] n o = o
emit_chars buff_sz (c ∷ s) zero o = o
emit_chars buff_sz (c ∷ s) (suc n) o =
    let rest = emit_chars buff_sz s n (emit buff_sz c o) in if c == 0 then o else rest

abbrev pub width_of : (len width : ℕ) → ℕ
width_of len width = if width == 0 then len else width

pub emit_str : (buff_sz : ℕ) → List ℕ → (len width pad : ℕ) → (r_justify : Bool) → Out → Out
emit_str buff_sz str len width pad r_justify o =
    let w = width_of len width in
    let padded = if r_justify then emit_pad buff_sz pad (w - len) o else o in
    let written = emit_chars buff_sz str w padded in
    if r_justify then written else emit_pad buff_sz pad (w - len) written

-- ===== src/Display/Cells.antt =====
-- drivers/display.c: what its loops do to the cells of the screen.
use Prim.Native.Nat.{bit_or}
use model_lib.Common.{
  ℕ, zero, suc, ◌+◌, ◌*◌, ◌<◌, ◌≤◌, ◌≡◌, refl, sym, ◌∙◌, inl, inr, List, arith, ◌==◌, ltb,
  Bool-cases, length, get_or, set, length-set, get_or-set_self, get_or-set_ne, if◌then◌else◌, leb,
  ◌&&◌,
}
use model_lib.Display.{
  Display, dsp_print_char, clear_column, clear_columns, dsp_clear_screen, move_up, fill, dsp_scroll,
}

-- Everything of the display but the cells, and the number of these.
pub record Same (d t : Display) : Type 0 where
  pub size : length t.video_memory ≡ length d.video_memory
  pub attr : t.text_attr ≡ d.text_attr
  pub cursor : t.cursor ≡ d.cursor

pub Same-trans : {d e t : Display} → Same d e → Same e t → Same d t
Same-trans p q = record {
  size = q.size ∙ p.size;
  attr = q.attr ∙ p.attr;
  cursor = q.cursor ∙ p.cursor;
}

pub print-Same : (d : Display) (c col row : ℕ) → Same d (dsp_print_char d c col row)
unfolding dsp_print_char
print-Same d c col row = record { size = length-set d.video_memory _ _; attr = refl; cursor = refl }

column-Same : (d : Display) (col row n : ℕ) → Same d (clear_column d col row n)
unfolding clear_column
column-Same d col row zero = record { size = refl; attr = refl; cursor = refl }
column-Same d col row (suc n) =
    Same-trans (print-Same d b' ' col row)
      (column-Same (dsp_print_char d b' ' col row) col (suc row) n)

columns-Same : (d : Display) (col n : ℕ) → Same d (clear_columns d col n)
unfolding clear_columns
columns-Same d col zero = record { size = refl; attr = refl; cursor = refl }
columns-Same d col (suc n) =
    Same-trans (column-Same d col 0 25) (columns-Same (clear_column d col 0 25) (suc col) n)

pub clear-Same : (d : Display) → Same d (dsp_clear_screen d)
unfolding dsp_clear_screen
clear-Same d = columns-Same d 0 80

length-move_up : (mem : List ℕ) (i n : ℕ) → length (move_up mem i n) ≡ length mem
unfolding move_up
length-move_up mem i zero = refl
length-move_up mem i (suc n) = length-move_up (set mem i _) (suc i) n ∙ length-set mem i _

length-fill : (mem : List ℕ) (v i n : ℕ) → length (fill mem v i n) ≡ length mem
unfolding fill
length-fill mem v i zero = refl
length-fill mem v i (suc n) = length-fill (set mem i v) v (suc i) n ∙ length-set mem i v

pub scroll-Same : (d : Display) (n : ℕ) → Same d (dsp_scroll d n)
unfolding dsp_scroll
scroll-Same d zero = record { size = refl; attr = refl; cursor = refl }
scroll-Same d (suc n) =
    let up = move_up d.video_memory 0 (24 * 80) in
    let v = bit_or b' ' d.text_attr in
    let here : Same d (record d { video_memory = fill up v (24 * 80) 80 }) = record {
      size = length-fill up v (24 * 80) 80 ∙ length-move_up d.video_memory 0 (24 * 80);
      attr = refl;
      cursor = refl;
    } in
    Same-trans here (scroll-Same (record d { video_memory = fill up v (24 * 80) 80 }) n)

-- A write, as it is seen at any place.
pub get_or-set_if :
    (mem : List ℕ) (i v j : ℕ)
    → i < length mem
    → get_or (set mem i v) j 0 ≡ (if i == j then v else get_or mem j 0)
get_or-set_if mem i v j h = elim (Bool-cases (i == j)) [
  | inl e ↦ let same : i ≡ j = ground arith in rw (e, sym same) (get_or-set_self mem i v 0 h)
  | inr e ↦ rw e (get_or-set_ne mem i j v 0 (λ p. absurd (ground arith)))
]

choose-move :
    (i n j : ℕ) (mem : List ℕ)
    → (if leb (suc i) j && ltb j (suc i + n)
        then if i == j + 80 then get_or mem (i + 80) 0 else get_or mem (j + 80) 0
        else if i == j
        then get_or mem (i + 80) 0
        else get_or mem j 0)
      ≡ (if leb i j && ltb j (i + suc n) then get_or mem (j + 80) 0 else get_or mem j 0)
choose-move i n j mem = elim (Bool-cases (i == j)) [
  | inl e ↦ let same : i ≡ j = ground arith in rw same (ground arith)
  | inr e ↦ ground arith
]

-- `move_up` reads each cell before any round has changed it.
get-move_up :
    (mem : List ℕ) (i n j : ℕ)
    → i + n + 80 ≤ length mem
    → get_or (move_up mem i n) j 0
      ≡ (if leb i j && ltb j (i + n) then get_or mem (j + 80) 0 else get_or mem j 0)
unfolding move_up
get-move_up mem i zero j h = ground arith
get-move_up mem i (suc n) j h =
    let v = get_or mem (i + 80) 0 in
    let write = get_or-set_if mem i v j (omega arith) in
    let below = get_or-set_if mem i v (j + 80) (omega arith) in
    let rest = get-move_up (set mem i v) (suc i) n j (omega (arith, length-set mem i v)) in
    rest ∙ rw (write, below) (choose-move i n j mem)

get-fill :
    (mem : List ℕ) (v i n j : ℕ)
    → i + n ≤ length mem
    → get_or (fill mem v i n) j 0 ≡ (if leb i j && ltb j (i + n) then v else get_or mem j 0)
unfolding fill
get-fill mem v i zero j h = ground arith
get-fill mem v i (suc n) j h =
    let write = get_or-set_if mem i v j (omega arith) in
    let rest = get-fill (set mem i v) v (suc i) n j (omega (arith, length-set mem i v)) in
    rest ∙ rw write (ground arith)

-- `dsp_scroll(1)` shows every row in the place of the one above it and blanks the last row, in the
-- attributes in force; cells past the screen stay as they are.
pub scroll_lem :
    (d : Display) (j : ℕ)
    → 2000 ≤ length d.video_memory
    → get_or (dsp_scroll d 1).video_memory j 0 ≡ (
        if ltb j 1920
        then get_or d.video_memory (j + 80) 0
        else if ltb j 2000
        then bit_or b' ' d.text_attr
        else get_or d.video_memory j 0)
unfolding dsp_scroll
scroll_lem d j h =
    let up = move_up d.video_memory 0 1920 in
    let v = bit_or b' ' d.text_attr in
    let filled = get-fill up v 1920 80 j (omega (arith, length-move_up d.video_memory 0 1920)) in
    filled ∙ rw (get-move_up d.video_memory 0 1920 j (omega arith)) (ground arith)

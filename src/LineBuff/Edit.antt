-- ===== src/LineBuff/Edit.antt =====
-- drivers/console/line_buff.c: `_insert` and `_remove` as changes of the line's text.
use model_lib.Common.{
  ℕ, zero, suc, ◌+◌, ◌-◌, ◌<◌, ◌≤◌, ◌≡◌, ◌≢◌, refl, ap, ◌∙◌, inl, inr, true, false, some, none,
  List, arith, ltb, leb, ◌==◌, Bool-cases, length, get_or, set, add32, sub32, length-set,
  get_or-set_self, get_or-set_ne,
}
use model_lib.LineBuff.{LineBuff, write, open_gap, put_code, insert, remove}
use model_lib.LineBuff.Shift.{write-some, open_gap-Opened, close_gap-Closed}

-- A line that fits, with its terminator, and a cursor in it or right behind it.
pub record IsValid (lb : LineBuff) : Type 0 where
  pub size : length lb.result ≡ 1024
  pub cursor : lb.cur_pos ≤ lb.len
  pub fits : lb.len < 1024
  pub end : get_or lb.result lb.len 0 ≡ 0

-- `t` is `lb` with `code` put in before the cursor.
pub record Inserted (lb : LineBuff) (code : ℕ) (t : LineBuff) : Type 0 where
  pub valid : IsValid t
  pub len : t.len ≡ lb.len + 1
  pub cursor : t.cur_pos ≡ lb.cur_pos + 1
  pub place : t.history_pos ≡ lb.history_pos
  pub before : (j : ℕ) → j < lb.cur_pos → get_or t.result j 0 ≡ get_or lb.result j 0
  pub at : get_or t.result lb.cur_pos 0 ≡ code
  pub behind :
      (j : ℕ) → lb.cur_pos ≤ j → j < lb.len → get_or t.result (suc j) 0 ≡ get_or lb.result j 0

-- Storage in which the characters from the cursor on stand one place further.
record Gap (lb : LineBuff) (xs : List ℕ) : Type 0 where
  size : length xs ≡ length lb.result
  before : (j : ℕ) → j < lb.cur_pos → get_or xs j 0 ≡ get_or lb.result j 0
  behind : (j : ℕ) → lb.cur_pos ≤ j → j < lb.len → get_or xs (suc j) 0 ≡ get_or lb.result j 0

module _ (lb : LineBuff) (code : ℕ) (v : IsValid lb) (room : lb.len + 1 < 1024) where
  put_code-Inserted :
      (xs : List ℕ)
      → Gap lb xs
      → (t : LineBuff) × (put_code lb code xs ≡ some t) × Inserted lb code t
  put_code-Inserted xs g =
      let ys = set xs lb.cur_pos code in
      let zs = set ys (lb.len + 1) 0 in
      let size = length-set xs lb.cur_pos code in
      let size' = length-set ys (lb.len + 1) 0 in
      let full = v.size in
      let same = g.size in
      let c = v.cursor in
      let grown : add32 lb.len 1 ≡ lb.len + 1 = omega arith in
      let moved : add32 lb.cur_pos 1 ≡ lb.cur_pos + 1 = omega arith in
      let t : LineBuff = record lb { result = zs; cur_pos = lb.cur_pos + 1; len = lb.len + 1 } in
      let in_line = write-some xs lb.cur_pos code (omega arith) in
      let in_end = write-some ys (lb.len + 1) 0 (omega arith) in
      let other : (j : ℕ) → lb.cur_pos ≢ j → lb.len + 1 ≢ j → get_or zs j 0 ≡ get_or xs j 0 =
        λ j p q. get_or-set_ne ys (lb.len + 1) j 0 0 q ∙ get_or-set_ne xs lb.cur_pos j code 0 p in
      (
        t,
        rw (in_line, grown, moved, in_end) refl,
        record {
          valid = record {
            size = size' ∙ size ∙ same ∙ full;
            cursor = omega arith;
            fits = room;
            end = get_or-set_self ys (lb.len + 1) 0 0 (omega arith);
          };
          len = refl;
          cursor = refl;
          place = refl;
          before = λ j l. other j (omega arith) (omega arith) ∙ g.before j l;
          at =
              get_or-set_ne ys (lb.len + 1) lb.cur_pos 0 0 (omega arith)
              ∙ get_or-set_self xs lb.cur_pos code 0 (omega arith);
          behind = λ j l m. other (suc j) (omega arith) (omega arith) ∙ g.behind j l m;
        },
      )

  -- With room for one more character and the terminator, `_insert` of a valid line puts the
  -- character in before the cursor, moves the cursor behind it, and keeps the rest of the text in
  -- order and the line valid.
  pub insert-Inserted : (t : LineBuff) × (insert lb code ≡ some t) × Inserted lb code t
  unfolding insert
  insert-Inserted =
      let c = v.cursor in
      let ok : leb lb.cur_pos lb.len ≡ true = ground arith in
      let short : (lb.len == 1024) ≡ false = ground arith in
      elim (Bool-cases (ltb lb.cur_pos lb.len)) [
        | inl e ↦
            let n = lb.len + 1 - lb.cur_pos in
            let full = v.size in
            let o = open_gap-Opened lb.result lb.cur_pos n (omega arith) in
            let g : Gap lb o.0 = record {
              size = o.2.size;
              before = λ j l. o.2.before j (omega arith);
              behind = λ j l m. o.2.moved j l (omega arith);
            } in
            let r = put_code-Inserted o.0 g in (r.0, rw (ok, short, e, o.1) r.1, r.2)
        | inr e ↦
            let last : lb.len ≤ lb.cur_pos = ground (arith, e) in
            let g : Gap lb lb.result = record {
              size = refl;
              before = λ j l. refl;
              behind = λ j l m. absurd (omega arith);
            } in
            let r = put_code-Inserted lb.result g in (r.0, rw (ok, short, e) r.1, r.2)
      ]

-- `t` is `lb` without the character at the cursor.
pub record Removed (lb t : LineBuff) : Type 0 where
  pub valid : IsValid t
  pub len : t.len + 1 ≡ lb.len
  pub cursor : t.cur_pos ≡ lb.cur_pos
  pub place : t.history_pos ≡ lb.history_pos
  pub before : (j : ℕ) → j < lb.cur_pos → get_or t.result j 0 ≡ get_or lb.result j 0
  pub behind :
      (j : ℕ) → lb.cur_pos ≤ j → j < t.len → get_or t.result j 0 ≡ get_or lb.result (suc j) 0

-- With the cursor on a character of a valid line that leaves one byte unused, `_remove` takes this
-- character out, keeps the rest of the text in order, the cursor where it is and the line valid.
pub remove-Removed :
    (lb : LineBuff)
    → IsValid lb
    → lb.cur_pos < lb.len
    → lb.len + 1 < 1024
    → (t : LineBuff) × (remove lb ≡ some t) × Removed lb t
unfolding remove
remove-Removed lb v on room =
    let n = lb.len + 1 - lb.cur_pos in
    let full = v.size in
    let o = close_gap-Closed lb.result n lb.cur_pos (omega arith) in
    let p = o.2 in
    let less : sub32 lb.len 1 ≡ lb.len - 1 = omega arith in
    let next : suc (lb.len - 1) ≡ lb.len = omega arith in
    (
      record lb { result = o.0; len = lb.len - 1 },
      rw (o.1, less) refl,
      record {
        valid = record {
          size = p.size ∙ v.size;
          cursor = omega arith;
          fits = omega arith;
          end =
              p.moved (lb.len - 1) (omega arith) (omega arith)
              ∙ ap (λ i. get_or lb.result i 0) next
              ∙ v.end;
        };
        len = omega arith;
        cursor = refl;
        place = refl;
        before = p.before;
        behind = λ j l m. p.moved j l (omega arith);
      },
    )

write-none : (xs : List ℕ) (i v : ℕ) → length xs ≤ i → write xs i v ≡ none
write-none xs i v h = let test : ltb i (length xs) ≡ false = ground arith in rw test

open_gap-none : (xs : List ℕ) (cur n : ℕ) → n ≢ 0 → length xs ≤ cur + n → open_gap xs cur n ≡ none
unfolding open_gap
open_gap-none xs cur zero ne h = absurd (ne refl)
open_gap-none xs cur (suc n) ne h = rw (write-none xs (cur + suc n) (get_or xs (cur + n) 0) h)

-- On a valid line of 1023 characters, wherever the cursor stands, `_insert` writes behind the end
-- of the storage of the line.
pub insert_outside : (lb : LineBuff) (code : ℕ) → IsValid lb → lb.len ≡ 1023 → insert lb code ≡ none
unfolding insert
insert_outside lb code v h =
    let full = v.size in
    let c = v.cursor in
    let ok : leb lb.cur_pos lb.len ≡ true = ground arith in
    let short : (lb.len == 1024) ≡ false = ground arith in
    let grown : add32 lb.len 1 ≡ 1024 = omega arith in
    elim (Bool-cases (ltb lb.cur_pos lb.len)) [
      | inl e ↦
          let out =
            open_gap-none lb.result lb.cur_pos (lb.len + 1 - lb.cur_pos) (omega arith)
              (omega arith) in
          rw (ok, short, e, out)
      | inr e ↦
          let ys = set lb.result lb.cur_pos code in
          let size = length-set lb.result lb.cur_pos code in
          let out = write-none ys 1024 0 (omega arith) in
          rw (ok, short, e, write-some lb.result lb.cur_pos code (omega arith), grown, out)
    ]
